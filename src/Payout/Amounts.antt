-- ===== src/Payout/Amounts.antt =====
-- The amounts of the transfer transaction and of the plan.
use mathlib.Core.Path.{ap₂}
use blitzwing.Base.{
  ◌≡◌, ◌≢◌, refl, sym, ap, ◌∙◌, Bool, true, false, inl, inr, List, [], ◌∷◌, arith, Bool-cases,
}
use blitzwing.Base.Int.{ℤ, pos, pos_part, neg_part, ◌<ℤ◌, ◌+ℤ◌, ◌*ℤ◌, int_laws, *ℤ-distrib, *ℤ-zero}
use blitzwing.Base.Text.{truthy, or_empty, text_eq_iff}
use blitzwing.Base.Dict.{values}
use blitzwing.Base.Exec.{ok}
use blitzwing.Registry.Range.{size}
use blitzwing.Registry.Host.{
  HostRecord, SwarmRegistry, online, is_online, keep, is_payout, online_payout_hosts,
}
use blitzwing.Swarm.Manifest.{to_span, online_spans, sort_spans, build_manifest, is_complete}
use blitzwing.Swarm.Complete.{
  AllNonempty, AllNonempty-sort_spans, total_size, total_size-sort_spans, complete_sizes,
  keep_nonempty,
}
use blitzwing.Payout.Plan.{
  Settings, HostPayout, request_price_tinybars, is_payable, payout_of, payouts_of, plan_payouts,
  sum_amounts,
}
use blitzwing.Payout.Redistribute.{Transfers, is_credit, credits, transaction}

-- The net change over all accounts.
unfoldable pub net_change : Transfers → ℤ
net_change [] = pos 0
net_change ((a, x) ∷ ts) = x +ℤ net_change ts

net_change-credits : (ps : List HostPayout) → net_change (credits ps) ≡ sum_amounts ps
unfolding net_change credits sum_amounts
net_change-credits [] = refl
net_change-credits (p ∷ ps) = ap (λ (z : ℤ). p.amount_tinybars +ℤ z) (net_change-credits ps)

-- Every entry after the debit credits an account other than the treasury with a positive amount.
abbrev pub AllCredits : Settings → Transfers → Type 0
AllCredits s [] = Unit {0}
AllCredits s ((a, x) ∷ ts) = (a ≢ or_empty s.mother_account_id) × (pos 0 <ℤ x) × AllCredits s ts

AllCredits-keep :
    (s : Settings) (ps : List HostPayout) → AllCredits s (credits (keep (is_credit s) ps))
unfolding keep credits
AllCredits-keep s [] = tt
AllCredits-keep s (p ∷ ps) = elim (Bool-cases (is_credit s p)) [
  | inl kept ↦ rw kept (
    λ e. ground (arith, text_eq_iff p.hedera_account_id (or_empty s.mother_account_id)),
    ground arith,
    AllCredits-keep s ps,
  )
  | inr dropped ↦ rw dropped (AllCredits-keep s ps)
]

abbrev pub tail_of : Transfers → Transfers
tail_of [] = []
tail_of (t ∷ ts) = ts

-- The transaction moves no money in or out: its entries sum to zero, and behind the treasury's
-- debit stand only positive credits to other accounts.
pub transaction_balances :
    (s : Settings) (planned : List HostPayout)
    → (net_change (transaction s planned) ≡ pos 0) × AllCredits s (tail_of (transaction s planned))
unfolding transaction net_change
transaction_balances s planned = (
  rw (net_change-credits (keep (is_credit s) planned)) (omega int_laws),
  AllCredits-keep s planned,
)

-- Each online host has a wallet and is booked with the layers that it holds, at least one.
abbrev pub AllFunded : List HostRecord → Type 0
AllFunded [] = Unit {0}
AllFunded (h ∷ hs) =
    (h.status ≡ online
      → (truthy h.hedera_account_id ≡ true)
        × (pos 0 <ℤ h.layers_hosted)
        × (h.layers_hosted ≡ size h.block_indices))
    × AllFunded hs

funded_payouts :
    (cpl : ℤ) (hs : List HostRecord)
    → AllFunded hs
    → sum_amounts (payouts_of cpl (keep is_payout hs)) ≡ total_size (online_spans hs) *ℤ cpl
unfolding sum_amounts payouts_of payout_of keep total_size online_spans to_span
funded_payouts cpl [] f = sym (*ℤ-zero cpl)
funded_payouts cpl (h ∷ hs) f = elim (Bool-cases (is_online h)) [
  | inl up ↦
      let (wallet, some_layers, booked) = f.0 (ground arith) in
      let payout : is_payout h ≡ true = ground arith in
      let payable : is_payable h ≡ true = ground arith in
      rw (payout, up, payable)
        (ap₂ ◌+ℤ◌ (ap (λ (z : ℤ). z *ℤ cpl) booked) (funded_payouts cpl hs f.1)
          ∙ sym (*ℤ-distrib (size h.block_indices) (total_size (online_spans hs)) cpl))
  | inr down ↦
      let skipped : is_payout h ≡ false = ground arith in
      rw (skipped, down) (funded_payouts cpl hs f.1)
]

nonempty_spans : (hs : List HostRecord) → AllFunded hs → AllNonempty (online_spans hs)
unfolding online_spans to_span size
nonempty_spans [] f = tt
nonempty_spans (h ∷ hs) f = elim (Bool-cases (is_online h)) [
  | inl up ↦
      let (wallet, some_layers, booked) = f.0 (ground arith) in
      rw up (omega (int_laws, ap pos_part booked, ap neg_part booked), nonempty_spans hs f.1)
  | inr down ↦ rw down (nonempty_spans hs f.1)
]

-- The sizes of the online hosts of a swarm whose manifest is complete.
complete_online :
    (r : SwarmRegistry)
    → AllFunded (values r.hosts)
    → is_complete (build_manifest r) ≡ true
    → total_size (online_spans (values r.hosts)) ≡ r.total_layers
unfolding build_manifest
complete_online r f done =
    let spans = online_spans (values r.hosts) in
    let full = AllNonempty-sort_spans spans (nonempty_spans (values r.hosts) f) in
    sym (total_size-sort_spans spans)
    ∙ sym (ap total_size (keep_nonempty (sort_spans spans) full))
    ∙ complete_sizes (build_manifest r) done

-- If the manifest is complete, every online host has a wallet and is booked with the layers that
-- it holds, and the ENS check passes, then the hosts that `_run_payout` pays are together paid the
-- price of a request: the layer count times the cost of a layer.
pub payouts_equal_price :
    (s : Settings) (verify : HostRecord → Bool) (r : SwarmRegistry) {planned : List HostPayout}
    → s.total_layers ≡ r.total_layers
    → AllFunded (values r.hosts)
    → is_complete (build_manifest r) ≡ true
    → plan_payouts s verify (online_payout_hosts r) ≡ ok planned
    → sum_amounts planned ≡ request_price_tinybars s
unfolding plan_payouts online_payout_hosts request_price_tinybars
payouts_equal_price s verify r {planned} same f done p =
    let cpl = s.cost_per_layer_tinybars in
    let is_planned : planned ≡ payouts_of cpl (keep is_payout (values r.hosts)) = ground arith in
    rw (is_planned, same)
      (funded_payouts cpl (values r.hosts) f ∙ ap (λ (z : ℤ). z *ℤ cpl) (complete_online r f done))
