-- ===== src/Api/Chat.antt =====
-- The chat and payout handlers: who may ask, what the engine's errors answer, and when the hosts
-- are paid. The Hedera network and the time of the generation are parameters.
pub mod Paid
use blitzwing.Base.{
  ℕ, ◌+◌, ◌≡◌, refl, sym, ap, ◌∙◌, ◌⊎◌, Bool, true, false, not, ◌&&◌, ◌||◌, inl, inr, Option, none,
  some, List, arith, Bool-cases, if◌then◌else◌,
}
use blitzwing.Base.Int.{ℤ}
use blitzwing.Base.Text.{Text, codes, text_eq, is_empty}
use blitzwing.Base.Exec.{
  Result-cases, Error, Result, ok, err, missing_blocks, http_inference, runtime_error, ens_error,
}
use blitzwing.Discovery.{Reply, answer, http_error}
use blitzwing.Registry.Host.{SwarmRegistry, Env, online_payout_hosts}
use blitzwing.Payout.Plan.{Settings, payouts_enabled}
use blitzwing.Payout.Redistribute.{Network, PayoutReceipt, redistribute}
use blitzwing.Engine.{GenerationResult, EngineEnv, Orchestrator, generate}
use blitzwing.Api.Stream.{Item, Chunk, stream_sse}
use blitzwing.Api.{ApiSettings, Mother, registry_of, with_registry}

-- The body of a chat request; messages are counted.
pub record ChatRequest : Type 0 where
  pub model : Text
  pub messages : ℕ
  pub max_tokens : Option ℤ

-- The header X-Blitzwing-Paid is the text.
abbrev pub says : Text → Option Text → Bool
unfolding text_eq
says t none = false
says t (some v) = text_eq v t

abbrev pub is_paid : Option Text → Bool
is_paid = says (codes "1")

abbrev pub may_chat : Settings → Option Text → Bool
may_chat settings paid =
    not (settings.x402_enabled && not (is_paid paid || says (codes "verified") paid))

unfoldable pub ensure_model_or_400 : ApiSettings → ChatRequest → Result (Unit {0})
unfolding text_eq
ensure_model_or_400 settings req =
    if not (is_empty req.model) && not (text_eq req.model settings.model_name)
    then err Error.value_error
    else elim req.messages [ ℕ.zero ↦ err Error.value_error | ℕ.suc n ↦ ok tt ]

-- `_run_payout`: nothing if the service is disabled.
unfoldable pub run_payout :
    Settings → Network → Text → Option Text → SwarmRegistry → Result (Option PayoutReceipt)
unfolding payouts_enabled online_payout_hosts redistribute
run_payout settings net request_id x402_tx_id r =
    if not (payouts_enabled settings)
    then ok none
    else elim (redistribute settings net request_id x402_tx_id (online_payout_hosts r)) [
      | err e ↦ err e
      | ok receipt ↦ ok (some receipt)
    ]

unfoldable pub internal_payout :
    Settings → Network → Text → Option Text → Option Text → SwarmRegistry → Reply PayoutReceipt
unfolding run_payout
internal_payout settings net request_id x402_tx_id paid r =
    if settings.x402_enabled && not (is_paid paid)
    then http_error 403
    else elim (run_payout settings net request_id x402_tx_id r) [
      | err e ↦ http_error 500
      | ok none ↦ http_error 503
      | ok (some receipt) ↦ answer receipt
    ]

pub record ChatResponse : Type 0 where
  pub content : Text
  pub finish_reason : Text
  pub prompt_tokens : ℕ
  pub completion_tokens : ℕ
  pub total_tokens : ℕ
  pub blitzwing_payment : Option PayoutReceipt

-- A payout that raises is logged.
abbrev pub receipt_of : Result (Option PayoutReceipt) → Option PayoutReceipt
receipt_of (ok r) = r
receipt_of (err e) = none

abbrev chat_response : GenerationResult → Option PayoutReceipt → ChatResponse
chat_response g receipt = record {
  content = g.text;
  finish_reason = g.finish_reason;
  prompt_tokens = g.prompt_tokens;
  completion_tokens = g.completion_tokens;
  total_tokens = g.prompt_tokens + g.completion_tokens;
  blitzwing_payment = receipt;
}

abbrev pub chat_error : Error → ℕ
chat_error missing_blocks = 503
chat_error http_inference = 503
chat_error runtime_error = 503
chat_error ens_error = 503
chat_error _ = 500

-- What a chat request finds: the engine's surroundings, whether the generation ends in time, the
-- Hedera network and the new completion id.
pub record ChatWorld : Type 0 where
  pub env : Env
  pub out : EngineEnv
  pub in_time : Bool
  pub net : Network
  pub completion_id : Text

unfoldable pub run_engine : ChatWorld → Option ℤ → Mother → Result GenerationResult × Mother
unfolding generate
run_engine w max_tokens m =
    let start : Orchestrator = record { registry = registry_of m; engine = m.engine } in
    let (res, o) = generate w.env w.out max_tokens start in
    (res, record (with_registry o.registry m) { engine = o.engine })

-- The hosts are paid after the generation, if the request was settled and paid for.
unfoldable pub pay_and_answer :
    ApiSettings → ChatWorld → Option Text → Bool → GenerationResult → Mother → ChatResponse
unfolding run_payout
pay_and_answer settings w x402_tx_id pays g m =
    let receipt =
      receipt_of (run_payout settings.base w.net w.completion_id x402_tx_id (registry_of m)) in
    chat_response g (if pays then receipt else none)

-- A generation that is too late goes on in its thread, and the answer is 503.
unfoldable pub chat_generated :
    ApiSettings
    → ChatWorld
    → Option Text
    → Bool
    → Result GenerationResult
    → Mother
    → Reply ChatResponse
unfolding pay_and_answer
chat_generated settings w x402_tx_id pays res m =
    if not w.in_time then http_error 503 else elim res [
      | err e ↦ http_error (chat_error e)
      | ok g ↦ answer (pay_and_answer settings w x402_tx_id pays g m)
    ]

-- A request that is not streamed.
unfoldable pub chat_completions :
    ApiSettings
    → ChatWorld
    → ChatRequest
    → Option Text
    → Option Text
    → Mother
    → Reply ChatResponse × Mother
unfolding ensure_model_or_400 run_engine chat_generated
chat_completions settings w req x402_tx_id paid m =
    if not (may_chat settings.base paid)
    then (http_error 403, m)
    else elim (ensure_model_or_400 settings req) [
      | err e ↦ (http_error 400, m)
      | ok _ ↦
          let (res, m') = run_engine w req.max_tokens m in
          (
            chat_generated settings w x402_tx_id (settings.base.x402_enabled && is_paid paid) res
                m',
            m',
          )
    ]

-- A streamed request: the chunks, and the payout after them. An error in the stream is one of its
-- chunks, so the payout follows it too.
unfoldable pub paid_stream :
    ApiSettings
    → ChatWorld
    → Option Text
    → Option Text
    → List Item
    → SwarmRegistry
    → List Chunk × Option PayoutReceipt
unfolding stream_sse run_payout
paid_stream settings w x402_tx_id paid items r =
    let receipt = receipt_of (run_payout settings.base w.net w.completion_id x402_tx_id r) in
    (stream_sse items, if settings.base.x402_enabled && is_paid paid then receipt else none)
