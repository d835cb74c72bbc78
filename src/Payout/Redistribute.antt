-- ===== src/Payout/Redistribute.antt =====
-- `HederaPayoutService.redistribute`: the escrow path first, else a native transfer from the
-- treasury. The Hedera network, the HCS topic and the ENS client are parameters: what a
-- transaction returns, or that it raises.
use blitzwing.Base.{Bool, false, not, ◌&&◌, Option, none, some, List, [], ◌∷◌, if◌then◌else◌}
use blitzwing.Base.Int.{ℤ, pos, ltb_ℤ, ◌-ℤ◌}
use blitzwing.Base.Text.{Text, codes, truthy, or_empty, text_eq, strip, all_digits}
use blitzwing.Base.Exec.{Result, ok, err, runtime_error}
use blitzwing.Registry.Host.{HostRecord, keep}
use blitzwing.Payout.Plan.{
  Settings, HostPayout, payouts_enabled, escrow_enabled, plan_payouts, escrow_rows, sum_amounts,
}

-- A transfer transaction: the account and the change of its balance.
abbrev pub Transfers : Type 0
Transfers = List (Text × ℤ)

-- What the outside answers. `transfer` and `release` give a transaction id or raise; `audit` is the
-- sequence number of the HCS message, if it was logged.
pub record Network : Type 0 where
  pub verify_host : HostRecord → Bool
  pub transfer : Transfers → Option Text
  pub release : Text → List HostPayout → Option Text
  pub topic : Option Text
  pub audit : Option Text

pub record PayoutReceipt : Type 0 where
  pub request_id : Text
  pub x402_tx_id : Option Text
  pub payout_tx_id : Option Text
  pub hcs_topic_id : Option Text
  pub hcs_sequence : Option Text
  pub cost_per_layer_tinybars : ℤ
  pub total_tinybars : ℤ
  pub hosts : List HostPayout

abbrev topic_digits : Text → Bool
unfolding all_digits
topic_digits (a ∷ b ∷ c ∷ d ∷ n ∷ ns) =
    text_eq (a ∷ b ∷ c ∷ d ∷ []) (codes "0.0.") && all_digits (n ∷ ns)
topic_digits _ = false

-- `^0\.0\.\d+$` on the stripped text
unfoldable pub is_valid_topic_id : Option Text → Bool
unfolding strip text_eq topic_digits
is_valid_topic_id topic = truthy topic && topic_digits (strip (or_empty topic))

-- Credits to the treasury itself and empty credits are left out.
abbrev pub is_credit : Settings → HostPayout → Bool
is_credit s p =
    not (text_eq p.hedera_account_id (or_empty s.mother_account_id))
    && ltb_ℤ (pos 0) p.amount_tinybars

unfoldable pub credits : List HostPayout → Transfers
credits [] = []
credits (p ∷ ps) = (p.hedera_account_id, p.amount_tinybars) ∷ credits ps

-- The debit of the treasury, and a credit for each planned payout that is kept.
unfoldable pub transaction : Settings → List HostPayout → Transfers
unfolding keep text_eq sum_amounts credits
transaction s planned =
    let transfers = keep (is_credit s) planned in
    (or_empty s.mother_account_id, pos 0 -ℤ sum_amounts transfers) ∷ credits transfers

-- The audit sequence is there only with a valid topic.
abbrev pub audit_of : Network → Option Text → Option Text
unfolding is_valid_topic_id
audit_of net topic = if is_valid_topic_id topic then net.audit else none

abbrev receipt :
    Settings
    → Text
    → Option Text
    → Option Text
    → Option Text
    → Option Text
    → ℤ
    → List HostPayout
    → PayoutReceipt
receipt s request_id x402 payout topic sequence total hosts = record {
  request_id = request_id;
  x402_tx_id = x402;
  payout_tx_id = payout;
  hcs_topic_id = topic;
  hcs_sequence = sequence;
  cost_per_layer_tinybars = s.cost_per_layer_tinybars;
  total_tinybars = total;
  hosts = hosts;
}

abbrev release_rows : Network → Text → List HostPayout → Result (Option (Text × List HostPayout))
release_rows net request_id [] = ok none
release_rows net request_id (p ∷ ps) = elim (net.release request_id (p ∷ ps)) [
  | none ↦ err runtime_error
  | some tx ↦ ok (some (tx, p ∷ ps))
]

-- `release`: no rows, no release.
unfoldable pub escrow_release :
    Settings → Network → Text → List HostRecord → Result (Option (Text × List HostPayout))
unfolding escrow_enabled escrow_rows
escrow_release s net request_id hosts =
    if not (escrow_enabled s)
    then ok none
    else release_rows net request_id (escrow_rows s.cost_per_layer_tinybars hosts)

-- A transaction is sent only for a positive total.
unfoldable pub pay_direct : Settings → Network → List HostPayout → Result (Option Text)
unfolding keep text_eq sum_amounts transaction
pay_direct s net planned =
    if ltb_ℤ (pos 0) (sum_amounts (keep (is_credit s) planned))
    then elim (net.transfer (transaction s planned)) [
      | none ↦ err runtime_error
      | some tx ↦ ok (some tx)
    ]
    else ok none

abbrev direct_receipt :
    Settings → Network → Text → Option Text → List HostPayout → Result PayoutReceipt
unfolding pay_direct audit_of sum_amounts
direct_receipt s net request_id x402 planned = elim (pay_direct s net planned) [
  | err e ↦ err e
  | ok tx ↦ ok (
      receipt s request_id x402 tx net.topic (audit_of net net.topic) (sum_amounts planned) planned)
]

-- `net.topic` is what `ensure_hcs_topic` answers. It is asked only when payouts are enabled; a
-- service that is not enabled answers none.
abbrev topic_if_enabled : Settings → Network → Option Text
unfolding payouts_enabled
topic_if_enabled s net = if payouts_enabled s then net.topic else none

unfoldable pub escrow_receipt :
    Settings → Network → Text → Option Text → Text × List HostPayout → PayoutReceipt
unfolding topic_if_enabled is_valid_topic_id audit_of sum_amounts
escrow_receipt s net request_id x402 (tx, rows) =
    let topic = topic_if_enabled s net in
    receipt s request_id x402 (some tx) (if is_valid_topic_id topic then topic else none)
      (audit_of net topic) (sum_amounts rows) rows

unfoldable pub pay_hosts :
    Settings → Network → Text → Option Text → List HostRecord → Result PayoutReceipt
unfolding payouts_enabled plan_payouts direct_receipt
pay_hosts s net request_id x402 hosts =
    if not (payouts_enabled s)
    then ok (receipt s request_id x402 none s.hcs_topic_id none (pos 0) [])
    else elim (plan_payouts s net.verify_host hosts) [
      | err e ↦ err e
      | ok planned ↦ direct_receipt s net request_id x402 planned
    ]

unfoldable pub redistribute :
    Settings → Network → Text → Option Text → List HostRecord → Result PayoutReceipt
unfolding escrow_release escrow_receipt pay_hosts
redistribute s net request_id x402 hosts = elim (escrow_release s net request_id hosts) [
  | err e ↦ err e
  | ok (some out) ↦ ok (escrow_receipt s net request_id x402 out)
  | ok none ↦ pay_hosts s net request_id x402 hosts
]
