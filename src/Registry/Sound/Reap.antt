-- ===== src/Registry/Sound/Reap.antt =====
-- The registry after the reaper of hosts that never got ready.
use blitzwing.Base.{ℕ, ◌≡◌, refl, ◌⊎◌, inl, inr, none, some, List, [], ◌∷◌, arith, Bool-cases}
use blitzwing.Base.Text.{Text, text_eq, text_eq_iff}
use blitzwing.Base.Dict.{lookup, values, lookup-erase_ne}
use blitzwing.Registry.Host.{HostRecord, SwarmRegistry, Env, pending, keep}
use blitzwing.Registry.Leave.{leave, reap_each, reap_stale_pending, is_stale_pending, save_if_any}
use blitzwing.Registry.Sound.{IsSound}
use blitzwing.Registry.Sound.Keyed.{lookup-erase_self}
use blitzwing.Registry.Sound.Donor.{In, In-keep, In-values}
use blitzwing.Registry.Sound.Beats.{hosts-persist, total-persist}
use blitzwing.Registry.Sound.Leave.{leave_pending-IsSound, total-leave_pending, leave_pending_hosts}

abbrev IsSoundRegistry : SwarmRegistry → Type 0
IsSoundRegistry r = IsSound r.total_layers r.hosts

-- The host is gone or pending.
abbrev Waiting : SwarmRegistry → Text → Type 0
Waiting r i =
    (lookup i r.hosts ≡ none)
    ⊎ ((h : HostRecord) × (lookup i r.hosts ≡ some h) × (h.status ≡ pending))

pub unknown_stays :
    (env : Env) (i : Text) (r : SwarmRegistry) → lookup i r.hosts ≡ none → (leave env i r).1 ≡ r
unfolding leave
unknown_stays env i r e = ground arith

leave-Waiting :
    (env : Env) (i j : Text) (r : SwarmRegistry)
    → IsSoundRegistry r
    → Waiting r i
    → Waiting r j
    → IsSoundRegistry (leave env i r).1 × Waiting (leave env i r).1 j
leave-Waiting env i j r s (inl gone) w = rw (unknown_stays env i r gone) (s, w)
leave-Waiting env i j r s (inr (h, e, waits)) w = (
  rw (total-leave_pending env i h r e waits s) (leave_pending-IsSound env i h r e waits s),
  elim (leave_pending_hosts env i h r e waits s) [
    | inl same ↦ rw same w
    | inr erased ↦ elim (Bool-cases (text_eq j i)) [
      | inl hit ↦
          let same : j ≡ i = (text_eq_iff j i).0 hit in
          inl (rw (erased, same) (lookup-erase_self i r.hosts s.keyed))
      | inr miss ↦ rw (erased, lookup-erase_ne i j r.hosts (λ q. ground (arith, text_eq_iff j i))) w
    ]
  ],
)

reap_each-IsSound :
    (env : Env) (hs : List HostRecord) (r : SwarmRegistry)
    → IsSoundRegistry r
    → ((h : HostRecord) → In h hs → Waiting r h.host_id)
    → IsSoundRegistry (reap_each env hs r).1
unfolding reap_each
reap_each-IsSound env [] r s w = s
reap_each-IsSound env (h ∷ hs) r s w =
    let first = w h (inl refl) in
    reap_each-IsSound env hs (leave env h.host_id r).1
      (leave-Waiting env h.host_id h.host_id r s first first).0
      (λ x later. (leave-Waiting env h.host_id x.host_id r s first (w x (inr later))).1)

save_if_any-IsSound :
    (env : Env) (out : List Text × SwarmRegistry)
    → IsSoundRegistry out.1
    → IsSoundRegistry (save_if_any env out).1
unfolding save_if_any
save_if_any-IsSound env ([], r) s = s
save_if_any-IsSound env (i ∷ is, r) s = rw (total-persist env r, hosts-persist env r) s

-- From a sound registry, the reaper of hosts that stay pending leaves a sound registry.
pub reap_stale_pending-IsSound :
    (env : Env) (ttl_seconds : ℕ) (r : SwarmRegistry)
    → IsSound r.total_layers r.hosts
    → IsSound
        (reap_stale_pending env ttl_seconds r).1.total_layers
        (reap_stale_pending env ttl_seconds r).1.hosts
unfolding reap_stale_pending
reap_stale_pending-IsSound env ttl_seconds r s =
    let stale = keep (is_stale_pending env.now ttl_seconds) (values r.hosts) in
    save_if_any-IsSound env (reap_each env stale r) (
      reap_each-IsSound env stale r s (λ h i.
        let (is_stale, there) =
          In-keep (is_stale_pending env.now ttl_seconds) h (values r.hosts) i in
        inr (h, In-values h r.hosts s.keyed there, ground arith)))
