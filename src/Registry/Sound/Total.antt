-- ===== src/Registry/Sound/Total.antt =====
-- The layer count is a constant of the registry: departures and the reapers keep it.
use blitzwing.Base.{ℕ, ◌≡◌, refl, ◌∙◌, inl, inr, List, [], ◌∷◌, arith, Option-cases, Bool-cases}
use blitzwing.Base.Text.{Text}
use blitzwing.Base.Dict.{values, lookup, erase}
use blitzwing.Base.Exec.{Result-cases}
use blitzwing.Registry.Range.{Range}
use blitzwing.Registry.Host.{HostRecord, SwarmRegistry, Env, is_mother, keep}
use blitzwing.Registry.Leave.{
  is_stale, is_stale_pending, range_to_reclaim, reclaim_range, leave, reap_each, save_if_any,
  reap_stale, reap_stale_pending,
}
use blitzwing.Registry.Sound.Beats.{total-persist}

total-reclaim_range :
    (env : Env) (p : Range) (r : SwarmRegistry)
    → (reclaim_range env p r).1.total_layers ≡ r.total_layers
unfolding reclaim_range
total-reclaim_range env p r = ground arith

total-leave :
    (env : Env) (i : Text) (r : SwarmRegistry) → (leave env i r).1.total_layers ≡ r.total_layers
unfolding leave
total-leave env i r = elim (Option-cases (lookup i r.hosts)) [
  | inl unknown ↦ rw (unknown, leave)
  | inr (h, found) ↦ elim (Bool-cases (is_mother h)) [
    | inl role ↦ rw (leave, found, role)
    | inr other ↦ elim (Option-cases (range_to_reclaim h (values r.hosts))) [
      | inl nothing ↦ rw (leave, found, other, nothing, total-persist env _)
      | inr (p, freed) ↦
          let rest : SwarmRegistry = record r { hosts = erase i r.hosts } in
          elim (Result-cases (reclaim_range env p rest).0) [
            | inl (x, failed) ↦
                rw (leave, found, other, freed, failed) (total-reclaim_range env p rest)
            | inr (u, done) ↦
                rw (leave, found, other, freed, done, total-persist env _)
                  (total-reclaim_range env p rest)
          ]
    ]
  ]
]

total-reap_each :
    (env : Env) (hs : List HostRecord) (r : SwarmRegistry)
    → (reap_each env hs r).1.total_layers ≡ r.total_layers
unfolding reap_each
total-reap_each env [] r = refl
total-reap_each env (h ∷ hs) r =
    total-reap_each env hs (leave env h.host_id r).1 ∙ total-leave env h.host_id r

total-save_if_any :
    (env : Env) (out : List Text × SwarmRegistry)
    → (save_if_any env out).1.total_layers ≡ out.1.total_layers
unfolding save_if_any
total-save_if_any env ([], r) = refl
total-save_if_any env (i ∷ is, r) = total-persist env r

pub total-reap_stale :
    (env : Env) (ttl_seconds : ℕ) (r : SwarmRegistry)
    → (reap_stale env ttl_seconds r).1.total_layers ≡ r.total_layers
unfolding reap_stale
total-reap_stale env ttl_seconds r =
    let stale = keep (is_stale env.now ttl_seconds) (values r.hosts) in
    total-save_if_any env (reap_each env stale r) ∙ total-reap_each env stale r

pub total-reap_stale_pending :
    (env : Env) (ttl_seconds : ℕ) (r : SwarmRegistry)
    → (reap_stale_pending env ttl_seconds r).1.total_layers ≡ r.total_layers
unfolding reap_stale_pending
total-reap_stale_pending env ttl_seconds r =
    let stale = keep (is_stale_pending env.now ttl_seconds) (values r.hosts) in
    total-save_if_any env (reap_each env stale r) ∙ total-reap_each env stale r
