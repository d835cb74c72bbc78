-- ===== src/Engine.antt =====
-- `PetalsEngine` of orchestrator/app/engine.py: its peers, the load of the client, the retries and
-- the choice of where a request is served. The Petals library, the tokenizer and the contributors
-- are parameters: what a connection, a generation and a request answer.
pub mod Laws
pub mod Stream
use blitzwing.Base.{
  ℕ, zero, suc, Bool, true, false, not, ◌&&◌, Option, none, some, List, [], ◌∷◌, ◌++◌,
  if◌then◌else◌,
}
use blitzwing.Base.Int.{ℤ, pos, min_ℤ, max_ℤ, leb_ℤ}
use blitzwing.Base.Text.{Text, codes, is_empty, member}
use blitzwing.Base.Exec.{
  Error, Result, ok, err, runtime_error, other_error, missing_blocks, http_inference, Exec,
}
use blitzwing.Registry.Host.{SwarmRegistry, Env, keep}
use blitzwing.Swarm.Manifest.{LayerSpan, SwarmManifest, engine_peers, pick_http_inference_host}
use blitzwing.Swarm.Live.{ShardStatus, refresh_live_status}

-- The settings that the engine reads.
pub record EngineSettings : Type 0 where
  pub initial_peers : List Text
  pub default_max_tokens : ℤ
  pub hard_max_tokens : ℤ

-- `loaded`: the model and the tokenizer are there, which are set and dropped together.
pub record PetalsEngine : Type 0 where
  pub settings : EngineSettings
  pub extra_peers : List Text
  pub loaded : Bool
  pub load_error : Option Text

-- Each peer is appended unless it is empty or there already.
unfoldable pub append_new : List Text → List Text → List Text
unfolding member
append_new base [] = base
append_new base (p ∷ ps) =
    append_new (if not (is_empty p) && not (member p base) then base ++ p ∷ [] else base) ps

unfoldable pub get_effective_peers : PetalsEngine → List Text
unfolding append_new
get_effective_peers e = append_new e.settings.initial_peers e.extra_peers

unfoldable pub add_peer : Text → PetalsEngine → PetalsEngine
unfolding append_new
add_peer peer e = record e { extra_peers = append_new e.extra_peers (peer ∷ []) }

unfoldable pub set_peers : List Text → PetalsEngine → PetalsEngine
unfolding keep
set_peers peers e = record e { extra_peers = keep (λ p. not (is_empty p)) peers }

-- `connect` is the message of a failure to load the tokenizer or the model with the peers.
abbrev pub Connect : Type 0
Connect = List Text → Option Text

abbrev pub no_peers : List Text → Bool
no_peers [] = true
no_peers (p ∷ ps) = false

unfoldable pub load : Connect → Exec PetalsEngine (Unit {0})
unfolding get_effective_peers
load connect e =
    if e.loaded
    then (ok tt, e)
    else if no_peers (get_effective_peers e)
    then (err runtime_error, e)
    else elim (connect (get_effective_peers e)) [
      | some message ↦ (err other_error, record e { loaded = false; load_error = some message })
      | none ↦ (ok tt, record e { loaded = true; load_error = none })
    ]

unfoldable pub unload : PetalsEngine → PetalsEngine
unload e = record e { loaded = false; load_error = none }

unfoldable pub reload : Connect → Exec PetalsEngine (Unit {0})
unfolding load unload
reload connect e = load connect (unload e)

abbrev get_or {ℓ} : {A : Type ℓ} → Option A → A → A
get_or none d = d
get_or (some a) d = a

unfoldable pub cap_max_tokens : EngineSettings → Option ℤ → ℤ
cap_max_tokens s max_tokens =
    min_ℤ (max_ℤ (pos 1) (get_or max_tokens s.default_max_tokens)) s.hard_max_tokens

-- The thread of `schedule_reload`: `connects` are the connections at its attempts, `max_attempts`
-- of them at most. The result tells that one passed; the waits are not modelled.
unfoldable pub schedule_reload : ℕ → (ℕ → Connect) → Exec PetalsEngine ℕ
unfolding reload
schedule_reload zero connects e = (err runtime_error, e)
schedule_reload (suc n) connects e =
    let (res, e') = reload (connects n) e in
    elim res [ ok _ ↦ (ok n, e') | err x ↦ schedule_reload n connects e' ]

pub record GenerationResult : Type 0 where
  pub text : Text
  pub prompt_tokens : ℕ
  pub completion_tokens : ℕ
  pub finish_reason : Text

-- What `model.generate` gives: the completion with its number of tokens, or the missing blocks, or
-- any other exception.
pub data Generated : Type 0 where
  completed : Text → ℕ → ℕ → Generated
  blocks_missing raised : Generated

-- `_generate_once`, from the prompt on: `run` is the model at the cap of new tokens.
abbrev pub finish : ℤ → Generated → Result GenerationResult
finish cap (completed text prompt n) = ok (record {
  text = text;
  prompt_tokens = prompt;
  completion_tokens = n;
  finish_reason = if leb_ℤ cap (pos n) then codes "length" else codes "stop";
})
finish cap blocks_missing = err missing_blocks
finish cap raised = err other_error

unfoldable pub generate_once :
    Connect → (ℤ → Generated) → Option ℤ → Exec PetalsEngine GenerationResult
unfolding load cap_max_tokens
generate_once connect run max_tokens e =
    let (res, e') = load connect e in
    elim res [
      | err x ↦ (err x, e')
      | ok _ ↦ let cap = cap_max_tokens e'.settings max_tokens in (finish cap (run cap), e')
    ]

-- What is outside: two connections, two runs of the model, and the answer of a contributor.
pub record EngineEnv : Type 0 where
  pub probe : Text → Option ShardStatus
  pub connect : Connect
  pub reconnect : Connect
  pub run : ℤ → Generated
  pub rerun : ℤ → Generated
  pub contributor : LayerSpan → SwarmManifest → Option GenerationResult

-- The client is reloaded and the request tried once more.
abbrev pub retry : EngineEnv → Option ℤ → Exec PetalsEngine GenerationResult
retry env max_tokens e =
    let (res, e') = reload env.reconnect e in
    elim res [ err x ↦ (err x, e') | ok _ ↦ generate_once env.reconnect env.rerun max_tokens e' ]

abbrev pub or_retry :
    EngineEnv → Option ℤ → Result GenerationResult → Exec PetalsEngine GenerationResult
or_retry env max_tokens (ok g) e = (ok g, e)
or_retry env max_tokens (err missing_blocks) e = retry env max_tokens e
or_retry env max_tokens (err x) e = (err x, e)

-- The path over the Petals client.
unfoldable pub generate_direct : EngineEnv → Option ℤ → Exec PetalsEngine GenerationResult
unfolding generate_once reload
generate_direct env max_tokens e =
    let (res, e') = generate_once env.connect env.run max_tokens e in or_retry env max_tokens res e'

-- The mother: its registry and its engine.
pub record Orchestrator : Type 0 where
  pub registry : SwarmRegistry
  pub engine : PetalsEngine

abbrev via_contributor : EngineEnv → LayerSpan → SwarmManifest → Result GenerationResult
via_contributor env c manifest = elim (env.contributor c manifest) [
  | none ↦ err http_inference
  | some g ↦ ok g
]

unfoldable pub serve_manifest :
    EngineEnv → Option ℤ → SwarmManifest → Exec Orchestrator GenerationResult
unfolding pick_http_inference_host generate_direct
serve_manifest env max_tokens manifest o = elim (pick_http_inference_host manifest) [
  | some c ↦ (via_contributor env c manifest, o)
  | none ↦
      let (res, e') = generate_direct env max_tokens o.engine in (res, record o { engine = e' })
]

-- The live map first, then its peers to the engine, then a contributor over HTTP if the tail is
-- one with a public URL, and the Petals client if not.
unfoldable pub generate : Env → EngineEnv → Option ℤ → Exec Orchestrator GenerationResult
unfolding refresh_live_status engine_peers set_peers serve_manifest
generate env out max_tokens o =
    let (res, r') = refresh_live_status env out.probe o.registry in
    elim res [
      | err x ↦ (err x, record o { registry = r' })
      | ok manifest ↦
          serve_manifest out max_tokens manifest
            (record { registry = r'; engine = set_peers (engine_peers r') o.engine })
    ]
