-- ===== src/Examples/Payments.antt =====
-- A swarm of two hosts: its manifest, the price of a request and the transaction that pays it.
use blitzwing.Base.{◌≡◌, refl, true, false, none, some, List, [], ◌∷◌, arith}
use blitzwing.Base.Int.{ℤ, pos, ◌-ℤ◌}
use blitzwing.Base.Text.{Text, codes}
use blitzwing.Base.Dict.{values}
use blitzwing.Registry.Range.{Range, range, size}
use blitzwing.Registry.Host.{
  HostRecord, SwarmRegistry, Role, mother, contributor, online, keep, online_payout_hosts,
}
use blitzwing.Swarm.Manifest.{SwarmManifest, build_manifest, is_complete}
use blitzwing.Swarm.Complete.{held, complete_holds_each_layer_once}
use blitzwing.Payout.Plan.{
  Settings, HostPayout, request_price_tinybars, payouts_of, plan_payouts, sum_amounts,
}
use blitzwing.Payout.Redistribute.{transaction}
use blitzwing.Payout.Redistribute.{Network, PayoutReceipt, redistribute}
use blitzwing.Payout.Plan.{escrow_rows, payouts_enabled, escrow_enabled}
use blitzwing.Payout.Redistribute.{pay_hosts}
use blitzwing.Base.Exec.{ok, err, runtime_error}
use blitzwing.Payout.Receipt.{is_positive, redistribute_total, redistribute_pays_unverified}
use blitzwing.Payout.Amounts.{
  net_change, AllCredits, tail_of, AllFunded, transaction_balances, payouts_equal_price,
}

abbrev host : Text → Role → Range → ℤ → Text → HostRecord
host id role blocks layers wallet = record {
  host_id = id;
  role = role;
  model = codes "m";
  block_indices = blocks;
  layers_hosted = layers;
  public_ip = none;
  shard_manager_url = codes "http://h";
  peer_multiaddr = none;
  status = online;
  joined_at = 0;
  last_heartbeat = 0;
  pending_range = none;
  donor_host_id = none;
  donor_shrink_to = none;
  hedera_account_id = some wallet;
  ens_name = none;
  petals_running = none;
}

abbrev swarm : SwarmRegistry
swarm = record {
  model = codes "m";
  total_layers = pos 6;
  hosts =
      (codes "b", host (codes "b") contributor (range (pos 4) (pos 6)) (pos 2) (codes "0.0.12"))
      ∷ (
        codes "mother",
        host (codes "mother") mother (range (pos 0) (pos 4)) (pos 4) (codes "0.0.5"),
      )
      ∷ [];
  bootstrap_peers = [];
  saved = none;
}

abbrev settings : Settings
settings = record {
  total_layers = pos 6;
  cost_per_layer_tinybars = pos 10;
  x402_enabled = true;
  mother_account_id = some (codes "0.0.5");
  mother_private_key = some (codes "k");
  hcs_topic_id = none;
  escrow_contract_id = none;
  escrow_evm_address = none;
  ens_enabled = true;
  ens_strict = false;
}

abbrev manifest : SwarmManifest
manifest = build_manifest swarm

manifest_complete : is_complete manifest ≡ true
unfolding build_manifest is_complete
manifest_complete = refl

complete_holds_each_layer_once_example : held (pos 4) manifest.spans ≡ 1
unfolding build_manifest
complete_holds_each_layer_once_example =
    complete_holds_each_layer_once manifest manifest_complete (pos 4)

abbrev paid : List HostPayout
paid = payouts_of (pos 10) (online_payout_hosts swarm)

transaction_balances_example :
    (net_change (transaction settings paid) ≡ pos 0)
    × AllCredits settings (tail_of (transaction settings paid))
transaction_balances_example = transaction_balances settings paid

swarm-AllFunded : AllFunded (values swarm.hosts)
unfolding values size ◌-ℤ◌
swarm-AllFunded = (λ _. (refl, omega arith, refl), (λ _. (refl, omega arith, refl), tt))

payouts_equal_price_example : sum_amounts paid ≡ request_price_tinybars settings
unfolding plan_payouts online_payout_hosts
payouts_equal_price_example =
    payouts_equal_price settings (λ h. true) swarm {planned = paid} refl swarm-AllFunded
      manifest_complete refl

abbrev network : Network
network = record {
  verify_host = λ h. true;
  transfer = λ ts. some (codes "tx");
  release = λ id rows. none;
  topic = none;
  audit = none;
}

abbrev receipt : PayoutReceipt
receipt = record {
  request_id = codes "r";
  x402_tx_id = none;
  payout_tx_id = some (codes "tx");
  hcs_topic_id = none;
  hcs_sequence = none;
  cost_per_layer_tinybars = pos 10;
  total_tinybars = pos 60;
  hosts = paid;
}

redistribute_total_example : pos 60 ≡ sum_amounts paid
unfolding redistribute sum_amounts payouts_of online_payout_hosts
redistribute_total_example =
    redistribute_total settings network (codes "r") none (online_payout_hosts swarm)
      {receipt = receipt} refl

-- Names are required, no host has one, and there is an escrow contract.
abbrev strict : Settings
strict = record settings {
  ens_strict = true;
  escrow_contract_id = some (codes "0.0.9");
  escrow_evm_address = some (codes "0x9");
}

abbrev with_escrow : Network
with_escrow = record network { release = λ id rows. some (codes "escrow") }

unverified-eq :
    plan_payouts strict with_escrow.verify_host (online_payout_hosts swarm) ≡ err runtime_error
unfolding plan_payouts online_payout_hosts
unverified-eq = refl

rows-eq : escrow_rows (pos 10) (online_payout_hosts swarm) ≡ paid
unfolding escrow_rows online_payout_hosts payouts_of
rows-eq = refl

redistribute_pays_unverified_example :
    (pay_hosts strict with_escrow (codes "r") none (online_payout_hosts swarm) ≡ err runtime_error)
    × (out : PayoutReceipt) × (redistribute strict with_escrow
          (codes "r")
          none
          (online_payout_hosts swarm)
        ≡ ok out)
    × (out.payout_tx_id ≡ some (codes "escrow"))
    × (out.hosts ≡ keep is_positive (payouts_of (pos 10) (online_payout_hosts swarm)))
unfolding payouts_enabled escrow_enabled payouts_of online_payout_hosts
redistribute_pays_unverified_example =
    redistribute_pays_unverified strict with_escrow (codes "r") none (online_payout_hosts swarm)
      runtime_error _ _ (codes "escrow") refl refl unverified-eq rows-eq refl

payouts_test : sum_amounts paid ≡ pos 60
unfolding sum_amounts payouts_of online_payout_hosts
payouts_test = refl
