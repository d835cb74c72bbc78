-- ===== src/Registry/Sound/Join.antt =====
-- The cases of `join`: a request that is refused, and one that is accepted.
use blitzwing.Base.{◌≡◌, false, ◌⊎◌, inl, inr, some, arith, Bool-cases, Option-cases}
use blitzwing.Base.Int.{pos, ltb_ℤ, leb_ℤ, ◌≤ℤ◌, ◌-ℤ◌}
use blitzwing.Base.Text.{Text}
use blitzwing.Base.Dict.{insert, values}
use blitzwing.Base.Exec.{Result-cases}
use blitzwing.Registry.Range.{size}
use blitzwing.Registry.Address.{validate_hedera_account_id}
use blitzwing.Registry.Host.{HostRecord, SwarmRegistry, Env, is_pending, keep, persist}
use blitzwing.Registry.Donor.{largest_donor, effective_donor_range}
use blitzwing.Registry.Join.{JoinRequest, any_of, pending_record, join}

-- What holds when a join goes through.
pub record Joined (env : Env) (req : JoinRequest) (r : SwarmRegistry) (wallet : Text)
    (donor : HostRecord) : Type 0 where
  pub picked : largest_donor r ≡ some donor
  pub alone : any_of (keep is_pending (values r.hosts)) ≡ false
  pub at_least_one : pos 1 ≤ℤ req.layers
  pub fits : req.layers ≤ℤ size (effective_donor_range r donor) -ℤ pos 1
  pub after :
      (join env req r).1
      ≡ persist env (record r {
        hosts =
            insert env.new_id
              (pending_record env r.model req wallet donor (effective_donor_range r donor))
              r.hosts;
      })

pub join_cases :
    (env : Env) (req : JoinRequest) (r : SwarmRegistry)
    → ((join env req r).1 ≡ r)
      ⊎ ((wallet : Text) × (donor : HostRecord) × Joined env req r wallet donor)
unfolding join
join_cases env req r = elim (Bool-cases (ltb_ℤ req.layers (pos 1))) [
  | inl few ↦ inl (ground arith)
  | inr enough ↦ elim (Bool-cases (leb_ℤ r.total_layers req.layers)) [
    | inl many ↦ inl (ground arith)
    | inr below ↦ elim (Result-cases (validate_hedera_account_id (some req.hedera_account_id))) [
      | inl (e, bad) ↦ inl (ground arith)
      | inr (wallet, good) ↦ elim (Bool-cases (any_of (keep is_pending (values r.hosts)))) [
        | inl waits ↦ inl (ground arith)
        | inr alone ↦ elim (Option-cases (largest_donor r)) [
          | inl no_donor ↦ inl (ground arith)
          | inr (donor, picked) ↦
              elim (Bool-cases (ltb_ℤ (size (effective_donor_range r donor) -ℤ pos 1) req.layers)) [
                | inl too_many ↦ inl (ground arith)
                | inr fits ↦ inr (
                  wallet,
                  donor,
                  record {
                    picked = picked;
                    alone = alone;
                    at_least_one = ground arith;
                    fits = ground arith;
                    after = ground arith;
                  },
                )
              ]
        ]
      ]
    ]
  ]
]
