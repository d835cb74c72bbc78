-- ===== src/Contributor/Generate.antt =====
-- `generate` of `ContributorInference`, the client that the module shares, and the sequence manager's
-- place on a Petals model.
use blitzwing.Base.{
  ℕ, ◌≡◌, refl, sym, inl, inr, Option, none, some, List, [], ◌∷◌, ◌++◌, arith, if◌then◌else◌,
}
use blitzwing.Base.Int.{ℤ, pos, min_ℤ, max_ℤ, leb_ℤ, ◌≤ℤ◌}
use blitzwing.Base.Text.{Text, codes, split}
use blitzwing.Base.Exec.{Result, ok, err, runtime_error, Exec, lift, ◌>>◌, >>=-eq-ok, Result-cases}
use blitzwing.Contributor.{
  ContributorInference, LoadEnv, ManifestHost, init_client, missing_blocks_of, wait_until_routable,
  ensure_loaded, warm_up,
}

pub record Message : Type 0 where
  pub role : Option Text
  pub content : Option Text

abbrev get_or : Option Text → Text → Text
get_or none d = d
get_or (some t) d = t

abbrev message_text : Message → Text
message_text m =
    codes "<|"
    ++ (get_or m.role (codes "user") ++ (codes "|>\n" ++ (get_or m.content [] ++ codes "</s>")))

-- The prompt where the tokenizer has no chat template.
unfoldable pub fallback_prompt : List Message → Text
fallback_prompt [] = codes "<|assistant|>\n"
fallback_prompt (m ∷ ms) = message_text m ++ fallback_prompt ms

pub record InferenceResult : Type 0 where
  pub text : Text
  pub prompt_tokens : ℕ
  pub completion_tokens : ℕ
  pub finish_reason : Text

-- What a generation finds: the load, the spans before the run and the polls of a refresh, the chat
-- template if it applies, the number of tokens of a prompt, and the run of the model with the caller's
-- temperature: the decoded completion with its number of tokens.
pub record GenerateEnv : Type 0 where
  pub load : LoadEnv
  pub seen : Option (List (List Text))
  pub refresh : List (Option (List (List Text)))
  pub template : List Message → Option Text
  pub count_tokens : Text → ℕ
  pub run : Text → ℤ → Result (Text × ℕ)

abbrev prompt_of : GenerateEnv → List Message → Text
unfolding fallback_prompt
prompt_of env messages = elim (env.template messages) [
  | none ↦ fallback_prompt messages
  | some prompt ↦ prompt
]

-- max(1, min(int(max_tokens), 512))
unfoldable pub max_new_tokens : ℤ → ℤ
max_new_tokens max_tokens = max_ℤ (pos 1) (min_ℤ max_tokens (pos 512))

-- One refresh if a block is missing.
unfoldable pub reroute : GenerateEnv → Exec ContributorInference (Unit {0})
unfolding missing_blocks_of wait_until_routable
reroute env c = elim (missing_blocks_of env.seen) [
  | err e ↦ (err e, c)
  | ok [] ↦ (ok tt, c)
  | ok (k ∷ ks) ↦ wait_until_routable env.refresh c
]

abbrev result_of : GenerateEnv → Text → ℤ → Text × ℕ → InferenceResult
result_of env prompt limit (text, n) = record {
  text = text;
  prompt_tokens = env.count_tokens prompt;
  completion_tokens = n;
  finish_reason = if leb_ℤ limit (pos n) then codes "length" else codes "stop";
}

unfoldable pub run_model : GenerateEnv → List Message → ℤ → Result InferenceResult
unfolding prompt_of max_new_tokens
run_model env messages max_tokens =
    let limit = max_new_tokens max_tokens in
    elim (env.run (prompt_of env messages) limit) [
      | err e ↦ err e
      | ok out ↦ ok (result_of env (prompt_of env messages) limit out)
    ]

unfoldable pub generate :
    GenerateEnv
    → List Message
    → ℤ
    → Option (List ManifestHost)
    → Exec ContributorInference InferenceResult
unfolding ensure_loaded reroute run_model
generate env messages max_tokens manifest = do
  ensure_loaded env.load manifest
  reroute env
  lift (run_model env messages max_tokens)

-- `get_contributor_inference`: the module's client, which is made at the first call; `log` is the text
-- of the log at that time.
unfoldable pub get_contributor_inference :
    Option Text
    → Text
    → List Text
    → ℤ
    → Option Text
    → Option Text
    → Option ContributorInference
    → ContributorInference × Option ContributorInference
unfolding init_client
get_contributor_inference log model peers port log_path own (some c) = (c, some c)
get_contributor_inference log model peers port log_path own none =
    let c = init_client log model peers port log_path own in (c, some c)

-- The thread of `warm_contributor_inference_async` after its delay, with no range of its own; an
-- exception is logged.
unfoldable pub warm_contributor_inference :
    LoadEnv
    → Option Text
    → Text
    → List Text
    → ℤ
    → Option Text
    → Option ContributorInference
    → Option ContributorInference
unfolding get_contributor_inference warm_up
warm_contributor_inference env log model peers port log_path client =
    let (c, shared) = get_contributor_inference log model peers port log_path none client in
    let (res, c') = warm_up env c in some c'

-- The attributes of Python objects are a parameter.
module _ {Obj : Type 0} (getattr : Obj → Text → Option Obj) where
  -- A path of attributes, if each is there.
  unfoldable pub follow : List Text → Obj → Option Obj
  follow [] o = some o
  follow (part ∷ path) o = elim (getattr o part) [ none ↦ none | some next ↦ follow path next ]

  unfoldable pub first_manager : List Text → Obj → Result Obj
  unfolding follow split
  first_manager [] model = err runtime_error
  first_manager (path ∷ paths) model =
      elim (follow (split b'.' path ++ codes "sequence_manager" ∷ []) model) [
        | none ↦ first_manager paths model
        | some sm ↦ ok sm
      ]

  -- `_sequence_manager`
  unfoldable pub sequence_manager : Obj → Result Obj
  unfolding first_manager
  sequence_manager =
      first_manager (codes "model.layers" ∷ codes "transformer.h" ∷ codes "layers" ∷ [])

generate_ran :
    (env : GenerateEnv) (messages : List Message) (max_tokens : ℤ)
    (manifest : Option (List ManifestHost)) (c : ContributorInference) {out : InferenceResult}
    → (generate env messages max_tokens manifest c).0 ≡ ok out
    → run_model env messages max_tokens ≡ ok out
unfolding generate
generate_ran env messages max_tokens manifest c returned =
    let (u, loaded, rest) =
      >>=-eq-ok (ensure_loaded env.load manifest)
        (λ u. do reroute env; lift (run_model env messages max_tokens)) c returned in
    let (u', routed, ran) =
      >>=-eq-ok (reroute env) (λ u. lift (run_model env messages max_tokens))
        (ensure_loaded env.load manifest c).1 rest in
    ran

-- If the model never gives more tokens than it is allowed, a generation that returns has at most the
-- clamped number of tokens, at least one is allowed, and the reason is the length exactly if this
-- number is reached.
pub generate_bounds :
    (env : GenerateEnv) (messages : List Message) (max_tokens : ℤ)
    (manifest : Option (List ManifestHost)) (c : ContributorInference) {out : InferenceResult}
    → ((prompt : Text) (limit : ℤ) (text : Text) (n : ℕ)
        → env.run prompt limit ≡ ok (text, n)
        → pos n ≤ℤ limit)
    → (generate env messages max_tokens manifest c).0 ≡ ok out
    → (pos 1 ≤ℤ max_new_tokens max_tokens)
      × (max_new_tokens max_tokens ≤ℤ pos 512)
      × (pos out.completion_tokens ≤ℤ max_new_tokens max_tokens)
      × (out.finish_reason ≡ (
          if leb_ℤ (max_new_tokens max_tokens) (pos out.completion_tokens)
          then codes "length"
          else codes "stop"))
unfolding max_new_tokens run_model
generate_bounds env messages max_tokens manifest c {out} within returned =
    let limit = max_new_tokens max_tokens in
    let ran = generate_ran env messages max_tokens manifest c returned in
    elim (Result-cases (env.run (prompt_of env messages) limit)) [
      | inl (x, failed) ↦ absurd (ground (arith, ran, failed))
      | inr ((text, n), done) ↦
          let fits = within (prompt_of env messages) limit text n done in
          let is_out : result_of env (prompt_of env messages) limit (text, n) ≡ out =
            ground (arith, ran, done) in
          (ground arith, ground arith, rw (sym is_out) fits, rw (sym is_out) refl)
    ]
