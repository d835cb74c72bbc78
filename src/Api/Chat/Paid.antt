-- ===== src/Api/Chat/Paid.antt =====
-- What a receipt in the answer to a chat request means: `chat_completions` of
-- orchestrator/app/main.py.
use blitzwing.Base.{
  ℕ, ◌≡◌, refl, sym, ap, ◌∙◌, ◌⊎◌, Bool, true, false, not, ◌&&◌, inl, inr, Option, none, some,
  arith, Bool-cases, if◌then◌else◌,
}
use blitzwing.Base.Text.{Text}
use blitzwing.Base.Exec.{Result-cases, Result, ok, err}
use blitzwing.Discovery.{Reply, answer, http_error}
use blitzwing.Payout.Redistribute.{PayoutReceipt}
use blitzwing.Engine.{GenerationResult}
use blitzwing.Api.{ApiSettings, Mother, registry_of}
use blitzwing.Api.Chat.{
  ChatRequest, ChatResponse, ChatWorld, is_paid, may_chat, ensure_model_or_400, run_payout,
  receipt_of, chat_error, run_engine, pay_and_answer, chat_generated, chat_completions,
}

receipt_of-some :
    (x : Result (Option PayoutReceipt)) (receipt : PayoutReceipt)
    → receipt_of x ≡ some receipt
    → x ≡ ok (some receipt)
receipt_of-some (ok r) receipt h = ap ok h
receipt_of-some (err e) receipt h = cc

paid_answer :
    (settings : ApiSettings) (w : ChatWorld) (x402_tx_id : Option Text) (pays : Bool)
    (g : GenerationResult) (m : Mother) (receipt : PayoutReceipt)
    → (pay_and_answer settings w x402_tx_id pays g m).blitzwing_payment ≡ some receipt
    → (pays ≡ true)
      × (run_payout settings.base w.net w.completion_id x402_tx_id (registry_of m)
          ≡ ok (some receipt))
unfolding pay_and_answer
paid_answer settings w x402_tx_id true g m receipt h = (
  refl,
  receipt_of-some (run_payout settings.base w.net w.completion_id x402_tx_id (registry_of m))
      receipt h,
)
paid_answer settings w x402_tx_id false g m receipt h = cc

in_time_answer :
    (in_time : Bool) (reply : Reply ChatResponse) (c : ChatResponse)
    → (if not in_time then http_error 503 else reply) ≡ answer c
    → reply ≡ answer c
in_time_answer true reply c h = h
in_time_answer false reply c h = cc

abbrev payment_of : Reply ChatResponse → Option PayoutReceipt
payment_of (answer c) = c.blitzwing_payment
payment_of (http_error code) = none

generated_pays :
    (settings : ApiSettings) (w : ChatWorld) (x402_tx_id : Option Text) (pays : Bool)
    (res : Result GenerationResult) (m : Mother) (c : ChatResponse) (receipt : PayoutReceipt)
    → chat_generated settings w x402_tx_id pays res m ≡ answer c
    → c.blitzwing_payment ≡ some receipt
    → (pays ≡ true)
      × (run_payout settings.base w.net w.completion_id x402_tx_id (registry_of m)
          ≡ ok (some receipt))
unfolding chat_generated
generated_pays settings w x402_tx_id pays (err x) m c receipt answered receipted =
    absurd (cc (in_time_answer w.in_time (http_error (chat_error x)) c answered))
generated_pays settings w x402_tx_id pays (ok g) m c receipt answered receipted =
    let same =
      in_time_answer w.in_time (answer (pay_and_answer settings w x402_tx_id pays g m)) c
        answered in
    paid_answer settings w x402_tx_id pays g m receipt (ap payment_of same ∙ receipted)

chat_cases :
    (settings : ApiSettings) (w : ChatWorld) (req : ChatRequest) (x402_tx_id paid : Option Text)
    (m : Mother)
    → ((code : ℕ) × ((chat_completions settings w req x402_tx_id paid m).0 ≡ http_error code))
      ⊎ (chat_completions settings w req x402_tx_id paid m ≡ (
        chat_generated settings w x402_tx_id
            (settings.base.x402_enabled && is_paid paid)
            (run_engine w req.max_tokens m).0
            (run_engine w req.max_tokens m).1,
        (run_engine w req.max_tokens m).1,
      ))
unfolding chat_completions
chat_cases settings w req x402_tx_id paid m = elim (Bool-cases (may_chat settings.base paid)) [
  | inr refused ↦ inl (403, ground arith)
  | inl may ↦ elim (Result-cases (ensure_model_or_400 settings req)) [
    | inl (x, bad) ↦ inl (400, ground arith)
    | inr (u, good) ↦ inr (ground arith)
  ]
]

-- If the answer to a chat request has a receipt, x402 is on, the request is marked as paid, and the
-- payout after the generation, over the registry as it is then, gave this receipt.
pub chat_completions_pays :
    (settings : ApiSettings) (w : ChatWorld) (req : ChatRequest) (x402_tx_id paid : Option Text)
    (m : Mother) (c : ChatResponse) (receipt : PayoutReceipt)
    → (chat_completions settings w req x402_tx_id paid m).0 ≡ answer c
    → c.blitzwing_payment ≡ some receipt
    → (settings.base.x402_enabled ≡ true)
      × (is_paid paid ≡ true)
      × (run_payout settings.base w.net w.completion_id x402_tx_id
            (registry_of (chat_completions settings w req x402_tx_id paid m).1)
          ≡ ok (some receipt))
chat_completions_pays settings w req x402_tx_id paid m c receipt answered receipted =
    elim (chat_cases settings w req x402_tx_id paid m) [
      | inl (code, refused) ↦ absurd (cc (answered, refused))
      | inr ran ↦
          let m' = (run_engine w req.max_tokens m).1 in
          let pays = settings.base.x402_enabled && is_paid paid in
          let (due, paid_out) =
            generated_pays settings w x402_tx_id pays (run_engine w req.max_tokens m).0 m' c receipt
              (sym (ap (λ x. x.0) ran) ∙ answered) receipted in
          (ground arith, ground arith, rw (ap (λ x. x.1) ran) paid_out)
    ]
