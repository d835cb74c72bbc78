-- ===== src/Engine/Stream.antt =====
-- `stream_generate` and `_stream_generate_once` of `PetalsEngine` in orchestrator/app/engine.py: the
-- deltas that the generator yields and how it ends. A streamer that never ends is not modelled.
use blitzwing.Base.{ℕ, Option, none, some, List, [], ◌++◌, if◌then◌else◌}
use blitzwing.Base.Int.{ℤ, pos, leb_ℤ}
use blitzwing.Base.Text.{Text, codes, join_texts}
use blitzwing.Base.Exec.{Error, Result, ok, err, missing_blocks}
use blitzwing.Engine.{PetalsEngine, Connect, GenerationResult, load, reload, cap_max_tokens}

-- What the streamer gives: its pieces, and the exception of the model's thread if it raised.
pub record Streamed : Type 0 where
  pub pieces : List Text
  pub failure : Option Error

-- What is outside: two connections, two runs of the model at a cap of new tokens, the length of the
-- prompt and the tokenizer's count of a text.
pub record StreamEnv : Type 0 where
  pub connect : Connect
  pub reconnect : Connect
  pub run : ℤ → Streamed
  pub rerun : ℤ → Streamed
  pub prompt_tokens : ℕ
  pub encode : Text → ℕ

-- The deltas of a generator and its end.
abbrev pub Stream : Type 0
Stream = List Text × Result GenerationResult

abbrev pub streamed_result : StreamEnv → ℤ → List Text → GenerationResult
streamed_result env cap pieces =
    let text = join_texts pieces in
    let completion_tokens = env.encode text in
    record {
      text = text;
      prompt_tokens = env.prompt_tokens;
      completion_tokens = completion_tokens;
      finish_reason = if leb_ℤ cap (pos completion_tokens) then codes "length" else codes "stop";
    }

-- After the streamer has ended, the exception of the thread is raised.
unfoldable pub stream_finish : StreamEnv → ℤ → Streamed → Result GenerationResult
stream_finish env cap s = elim s.failure [
  | some x ↦ err x
  | none ↦ ok (streamed_result env cap s.pieces)
]

unfoldable pub stream_generate_once :
    StreamEnv → Connect → (ℤ → Streamed) → Option ℤ → PetalsEngine → Stream × PetalsEngine
unfolding load cap_max_tokens stream_finish
stream_generate_once env connect run max_tokens e =
    let (res, e') = load connect e in
    elim res [
      | err x ↦ (([], err x), e')
      | ok _ ↦
          let cap = cap_max_tokens e'.settings max_tokens in
          (((run cap).pieces, stream_finish env cap (run cap)), e')
    ]

-- The deltas of the second attempt follow the ones that were yielded.
unfoldable pub stream_retry :
    StreamEnv → Option ℤ → List Text → PetalsEngine → Stream × PetalsEngine
unfolding reload stream_generate_once
stream_retry env max_tokens yielded e =
    let (res, e') = reload env.reconnect e in
    elim res [
      | err x ↦ ((yielded, err x), e')
      | ok _ ↦
          let ((pieces, end), e'') =
            stream_generate_once env env.reconnect env.rerun max_tokens e' in
          ((yielded ++ pieces, end), e'')
    ]

unfoldable pub or_stream_retry :
    StreamEnv
    → Option ℤ
    → List Text
    → Result GenerationResult
    → PetalsEngine
    → Stream × PetalsEngine
unfolding stream_retry
or_stream_retry env max_tokens yielded (ok g) e = ((yielded, ok g), e)
or_stream_retry env max_tokens yielded (err missing_blocks) e =
    stream_retry env max_tokens yielded e
or_stream_retry env max_tokens yielded (err x) e = ((yielded, err x), e)

unfoldable pub stream_generate : StreamEnv → Option ℤ → PetalsEngine → Stream × PetalsEngine
unfolding stream_generate_once or_stream_retry
stream_generate env max_tokens e =
    let ((yielded, end), e') = stream_generate_once env env.connect env.run max_tokens e in
    or_stream_retry env max_tokens yielded end e'

text_of_ok : Result GenerationResult → Text
text_of_ok (ok g) = g.text
text_of_ok (err x) = []
