-- ===== src/Payout/Plan.antt =====
-- The plan of a payout: the ENS check, the direct plan and the escrow rows.
use blitzwing.Base.{Bool, false, not, ◌&&◌, ◌||◌, Option, List, [], ◌∷◌, if◌then◌else◌}
use blitzwing.Base.Int.{ℤ, pos, ltb_ℤ, ◌*ℤ◌, ◌+ℤ◌}
use blitzwing.Base.Text.{Text, truthy, or_empty}
use blitzwing.Base.Exec.{Result, ok, err, runtime_error}
use blitzwing.Registry.Host.{HostRecord}

-- The fields of `Settings` that payouts and prices read.
pub record Settings : Type 0 where
  pub total_layers : ℤ
  pub cost_per_layer_tinybars : ℤ
  pub x402_enabled : Bool
  pub mother_account_id : Option Text
  pub mother_private_key : Option Text
  pub hcs_topic_id : Option Text
  pub escrow_contract_id : Option Text
  pub escrow_evm_address : Option Text
  pub ens_enabled : Bool
  pub ens_strict : Bool

unfoldable pub request_price_tinybars : Settings → ℤ
unfolding ◌*ℤ◌
request_price_tinybars s = s.total_layers *ℤ s.cost_per_layer_tinybars

unfoldable pub payouts_enabled : Settings → Bool
payouts_enabled s =
    s.x402_enabled
    && truthy s.mother_account_id
    && truthy s.mother_private_key
    && ltb_ℤ (pos 0) s.cost_per_layer_tinybars

unfoldable pub escrow_enabled : Settings → Bool
escrow_enabled s = truthy s.escrow_contract_id && truthy s.escrow_evm_address

pub record HostPayout : Type 0 where
  pub host_id : Text
  pub hedera_account_id : Text
  pub layers : ℤ
  pub amount_tinybars : ℤ
  pub ens_name : Option Text

-- Hosts with no wallet or no layer are passed over.
abbrev pub is_payable : HostRecord → Bool
is_payable h = truthy h.hedera_account_id && ltb_ℤ (pos 0) h.layers_hosted

-- The host fails the ENS check; `verify` is the ENS client's `verify_host`.
abbrev pub fails_ens : Settings → (HostRecord → Bool) → HostRecord → Bool
fails_ens s verify h =
    is_payable h && (s.ens_strict && not (truthy h.ens_name) || truthy h.ens_name && not (verify h))

unfoldable pub any_fails : Settings → (HostRecord → Bool) → List HostRecord → Bool
any_fails s verify [] = false
any_fails s verify (h ∷ hs) = fails_ens s verify h || any_fails s verify hs

-- `_verify_hosts_for_payout`
unfoldable pub verify_hosts : Settings → (HostRecord → Bool) → List HostRecord → Result (Unit {0})
unfolding any_fails
verify_hosts s verify hosts =
    if not s.ens_enabled
    then ok tt
    else if any_fails s verify hosts
    then err runtime_error
    else ok tt

unfoldable pub payout_of : ℤ → HostRecord → HostPayout
unfolding ◌*ℤ◌
payout_of cpl h = record {
  host_id = h.host_id;
  hedera_account_id = or_empty h.hedera_account_id;
  layers = h.layers_hosted;
  amount_tinybars = h.layers_hosted *ℤ cpl;
  ens_name = h.ens_name;
}

unfoldable pub payouts_of : ℤ → List HostRecord → List HostPayout
unfolding payout_of
payouts_of cpl [] = []
payouts_of cpl (h ∷ hs) =
    let rest = payouts_of cpl hs in if is_payable h then payout_of cpl h ∷ rest else rest

unfoldable pub plan_payouts :
    Settings → (HostRecord → Bool) → List HostRecord → Result (List HostPayout)
unfolding verify_hosts payouts_of
plan_payouts s verify hosts = elim (verify_hosts s verify hosts) [
  | err e ↦ err e
  | ok _ ↦ ok (payouts_of s.cost_per_layer_tinybars hosts)
]

-- The rows of `HederaEscrowService.release`, which also skips an amount that is not positive.
unfoldable pub escrow_rows : ℤ → List HostRecord → List HostPayout
unfolding payout_of
escrow_rows cpl [] = []
escrow_rows cpl (h ∷ hs) =
    let rest = escrow_rows cpl hs in
    if is_payable h && ltb_ℤ (pos 0) (h.layers_hosted *ℤ cpl) then payout_of cpl h ∷ rest else rest

-- sum(p.amount_tinybars for p in ps)
unfoldable pub sum_amounts : List HostPayout → ℤ
unfolding ◌+ℤ◌
sum_amounts [] = pos 0
sum_amounts (p ∷ ps) = p.amount_tinybars +ℤ sum_amounts ps
