-- ===== src/Registry/Reclaim/Kept/Silent.antt =====
-- The reaper of silent hosts, when no host is pending and the shard managers take every reload.
use blitzwing.Base.{
  ℕ, ◌≡◌, refl, ◌∙◌, ◌⊎◌, inl, inr, true, false, none, some, List, [], ◌∷◌, arith, Bool-cases,
}
use blitzwing.Base.Text.{Text, text_eq, text_eq_iff}
use blitzwing.Base.Dict.{lookup, values}
use blitzwing.Registry.Range.{Range}
use blitzwing.Registry.Host.{HostRecord, SwarmRegistry, Env, online, is_mother, keep}
use blitzwing.Registry.Leave.{leave, reap_each, reap_stale, is_stale, save_if_any}
use blitzwing.Registry.Sound.{IsSound}
use blitzwing.Registry.Sound.Beats.{hosts-persist, total-persist}
use blitzwing.Registry.Sound.Donor.{In, In-keep, In-values}
use blitzwing.Registry.Sound.Total.{total-reap_stale}
use blitzwing.Registry.Sound.Reap.{unknown_stays}
use blitzwing.Registry.Reclaim.Kept.Depart.{
  NonePending, total-depart, depart-IsSound, depart-others, depart-gone,
}

-- A sound registry with no pending host.
pub record IsQuiet (r : SwarmRegistry) : Type 0 where
  pub sound : IsSound r.total_layers r.hosts
  pub quiet : NonePending r.hosts

pub leave_online-IsQuiet :
    (env : Env) (r : SwarmRegistry) (i : Text) (h : HostRecord)
    → lookup i r.hosts ≡ some h
    → h.status ≡ online
    → is_mother h ≡ false
    → ((url : Text) (new : Range) → env.reload url new ≡ true)
    → IsQuiet r
    → IsQuiet (leave env i r).1 × ((leave env i r).1.total_layers ≡ r.total_layers)
leave_online-IsQuiet env r i h found up other passes q =
    let total = total-depart env r i h found up other q.sound passes in
    let (s, quiet) = depart-IsSound env r i h found up other q.sound passes q.quiet in
    (record { sound = rw total s; quiet = quiet }, total)

-- The host is gone, or online and not the mother.
abbrev pub Leavable : SwarmRegistry → Text → Type 0
Leavable r j =
    (lookup j r.hosts ≡ none)
    ⊎ ((h : HostRecord) × (lookup j r.hosts ≡ some h) × (h.status ≡ online) × (is_mother h ≡ false))

pub leave-Leavable :
    (env : Env) (i j : Text) (r : SwarmRegistry)
    → ((url : Text) (new : Range) → env.reload url new ≡ true)
    → IsQuiet r
    → Leavable r i
    → Leavable r j
    → IsQuiet (leave env i r).1 × Leavable (leave env i r).1 j
leave-Leavable env i j r passes q (inl gone) w = rw (unknown_stays env i r gone) (q, w)
leave-Leavable env i j r passes q (inr (h, e, up, other)) w = (
  (leave_online-IsQuiet env r i h e up other passes q).0,
  elim (Bool-cases (text_eq j i)) [
    | inl hit ↦
        inl (depart-gone env r i h e up other q.sound passes j (inl ((text_eq_iff j i).0 hit)))
    | inr miss ↦ elim w [
      | inl gone ↦ inl (depart-gone env r i h e up other q.sound passes j (inr gone))
      | inr (x, there, x_up, x_other) ↦
          let (y, found, status, role) =
            depart-others env r i h e up other q.sound passes j x there
              (λ q. ground (arith, text_eq_iff j i)) in
          inr (y, found, status ∙ x_up, ground arith)
    ]
  ],
)

reap_each-IsQuiet :
    (env : Env) (hs : List HostRecord) (r : SwarmRegistry)
    → ((url : Text) (new : Range) → env.reload url new ≡ true)
    → IsQuiet r
    → ((h : HostRecord) → In h hs → Leavable r h.host_id)
    → IsQuiet (reap_each env hs r).1
unfolding reap_each
reap_each-IsQuiet env [] r passes q w = q
reap_each-IsQuiet env (h ∷ hs) r passes q w =
    let first = w h (inl refl) in
    reap_each-IsQuiet env hs (leave env h.host_id r).1 passes
      (leave-Leavable env h.host_id h.host_id r passes q first first).0
      (λ x later. (leave-Leavable env h.host_id x.host_id r passes q first (w x (inr later))).1)

save_if_any-IsQuiet :
    (env : Env) (out : List Text × SwarmRegistry) → IsQuiet out.1 → IsQuiet (save_if_any env out).1
unfolding save_if_any
save_if_any-IsQuiet env ([], r) q = q
save_if_any-IsQuiet env (i ∷ is, r) q = record {
  sound = rw (total-persist env r, hosts-persist env r) q.sound;
  quiet = rw (hosts-persist env r) q.quiet;
}

-- From a sound registry with no pending host, if the shard managers take every reload, the reaper of
-- hosts that have gone silent leaves a sound registry with no pending host.
pub reap_stale-IsQuiet :
    (env : Env) (ttl_seconds : ℕ) (r : SwarmRegistry)
    → ((url : Text) (new : Range) → env.reload url new ≡ true)
    → IsQuiet r
    → IsQuiet (reap_stale env ttl_seconds r).1
unfolding reap_stale
reap_stale-IsQuiet env ttl_seconds r passes q =
    let stale = keep (is_stale env.now ttl_seconds) (values r.hosts) in
    save_if_any-IsQuiet env (reap_each env stale r) (
      reap_each-IsQuiet env stale r passes q (λ h i.
        let (silent, there) = In-keep (is_stale env.now ttl_seconds) h (values r.hosts) i in
        inr (h, In-values h r.hosts q.sound.keyed there, ground arith, ground arith)))

-- Whether the reaper of silent hosts can go through: there is none of them, or no host is pending and
-- the shard managers take every reload.
abbrev pub CanReap : Env → ℕ → SwarmRegistry → Type 0
CanReap env ttl_seconds r =
    (keep (is_stale env.now ttl_seconds) (values r.hosts) ≡ [])
    ⊎ (NonePending r.hosts × ((url : Text) (new : Range) → env.reload url new ≡ true))

nothing_to_reap :
    (env : Env) (ttl_seconds : ℕ) (r : SwarmRegistry)
    → keep (is_stale env.now ttl_seconds) (values r.hosts) ≡ []
    → (reap_stale env ttl_seconds r).1 ≡ r
unfolding reap_stale
nothing_to_reap env ttl_seconds r none_silent = rw none_silent

-- From a sound registry, the reaper of silent hosts leaves a sound registry, if no host is silent, or
-- if no host is pending and the shard managers take every reload.
pub reap_stale-IsSound :
    (env : Env) (ttl_seconds : ℕ) (r : SwarmRegistry)
    → CanReap env ttl_seconds r
    → IsSound r.total_layers r.hosts
    → IsSound r.total_layers (reap_stale env ttl_seconds r).1.hosts
reap_stale-IsSound env ttl_seconds r (inl none_silent) s =
    rw (nothing_to_reap env ttl_seconds r none_silent) s
reap_stale-IsSound env ttl_seconds r (inr (quiet, passes)) s =
    rw (total-reap_stale env ttl_seconds r) at
      ((reap_stale-IsQuiet env ttl_seconds r passes (record { sound = s; quiet = quiet })).sound)
