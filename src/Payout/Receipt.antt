-- ===== src/Payout/Receipt.antt =====
-- What the receipt of `redistribute` says, on the escrow path and on the direct one.
use blitzwing.Base.{◌≡◌, refl, sym, ◌∙◌, true, some, Bool, Option, List, [], ◌∷◌, arith}
use blitzwing.Base.Int.{ℤ, pos, ltb_ℤ}
use blitzwing.Base.Text.{Text}
use blitzwing.Base.Exec.{Error, ok, err}
use blitzwing.Registry.Host.{HostRecord, keep}
use blitzwing.Payout.Plan.{
  Settings, HostPayout, payout_of, payouts_of, escrow_rows, sum_amounts, payouts_enabled,
  escrow_enabled, plan_payouts,
}
use blitzwing.Payout.Redistribute.{
  Network, PayoutReceipt, escrow_release, escrow_receipt, pay_hosts, redistribute,
}

abbrev pub is_positive : HostPayout → Bool
is_positive p = ltb_ℤ (pos 0) p.amount_tinybars

-- The escrow rows are those of the direct plan behind its check that have a positive amount.
escrow_rows-payouts_of :
    (cpl : ℤ) (hosts : List HostRecord)
    → escrow_rows cpl hosts ≡ keep is_positive (payouts_of cpl hosts)
unfolding escrow_rows payouts_of payout_of keep
escrow_rows-payouts_of cpl [] = refl
escrow_rows-payouts_of cpl (h ∷ hs) = ground (arith, escrow_rows-payouts_of cpl hs)

pay_hosts_total :
    (s : Settings) (net : Network) (request_id : Text) (x402 : Option Text)
    (hosts : List HostRecord) {receipt : PayoutReceipt}
    → pay_hosts s net request_id x402 hosts ≡ ok receipt
    → receipt.total_tinybars ≡ sum_amounts receipt.hosts
unfolding pay_hosts sum_amounts
pay_hosts_total s net request_id x402 hosts e = ground arith

-- Whichever path a payout takes, enabled or not, the total of the receipt is the sum of the
-- amounts of the hosts that it lists.
pub redistribute_total :
    (s : Settings) (net : Network) (request_id : Text) (x402 : Option Text)
    (hosts : List HostRecord) {receipt : PayoutReceipt}
    → redistribute s net request_id x402 hosts ≡ ok receipt
    → receipt.total_tinybars ≡ sum_amounts receipt.hosts
unfolding redistribute
redistribute_total s net request_id x402 hosts e =
    ground (arith, pay_hosts_total s net request_id x402 hosts)

-- With payouts and escrow enabled, a failed ENS check makes the direct path raise, and yet the escrow
-- path, if the contract takes its rows, pays each host that has a wallet, a layer and a positive
-- amount, the hosts that fail the check included.
pub redistribute_pays_unverified :
    (s : Settings) (net : Network) (request_id : Text) (x402 : Option Text)
    (hosts : List HostRecord) (e : Error) (p : HostPayout) (ps : List HostPayout) (tx : Text)
    → payouts_enabled s ≡ true
    → escrow_enabled s ≡ true
    → plan_payouts s net.verify_host hosts ≡ err e
    → escrow_rows s.cost_per_layer_tinybars hosts ≡ p ∷ ps
    → net.release request_id (p ∷ ps) ≡ some tx
    → (pay_hosts s net request_id x402 hosts ≡ err e)
      × (receipt : PayoutReceipt) × (redistribute s net request_id x402 hosts ≡ ok receipt)
      × (receipt.payout_tx_id ≡ some tx)
      × (receipt.hosts ≡ keep is_positive (payouts_of s.cost_per_layer_tinybars hosts))
unfolding redistribute escrow_release pay_hosts
redistribute_pays_unverified s net request_id x402 hosts e p ps tx enabled escrow failed rows paid =
    (
      rw (pay_hosts, enabled, failed) refl,
      escrow_receipt s net request_id x402 (tx, p ∷ ps),
      rw (redistribute, escrow_release, escrow, rows, paid) refl,
      refl,
      sym rows ∙ escrow_rows-payouts_of s.cost_per_layer_tinybars hosts,
    )
