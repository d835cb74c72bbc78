-- ===== src/Registry/Sound/Beats.antt =====
-- The registry after a heartbeat.
use blitzwing.Base.{ℕ, ◌≡◌, ◌≢◌, inl, inr, Option-cases, refl, arith}
use blitzwing.Base.Text.{Text}
use blitzwing.Base.Dict.{lookup}
use blitzwing.Registry.Host.{HostRecord, SwarmRegistry, Env, offline, beat, heartbeat, persist}
use blitzwing.Registry.Sound.{IsSound}
use blitzwing.Registry.Sound.Stays.{Same, modify-IsSound}

pub hosts-persist : (env : Env) (r : SwarmRegistry) → (persist env r).hosts ≡ r.hosts
unfolding persist
hosts-persist env r = ground arith

pub total-persist : (env : Env) (r : SwarmRegistry) → (persist env r).total_layers ≡ r.total_layers
unfolding persist
total-persist env r = ground arith

pub revive_live : (now : ℕ) (h : HostRecord) → h.status ≢ offline → Same (beat now h) h
revive_live now h live = record {
  host_id = refl;
  role = refl;
  blocks = refl;
  status = ground arith;
  pending_range = refl;
  donor = refl;
  shrink = refl;
}

-- From a sound registry, a heartbeat of a known or unknown host leaves a sound registry.
pub heartbeat-IsSound :
    (env : Env) (host_id : Text) (r : SwarmRegistry)
    → IsSound r.total_layers r.hosts
    → IsSound r.total_layers (heartbeat env host_id r).1.hosts
unfolding heartbeat
heartbeat-IsSound env host_id r s = elim (Option-cases (lookup host_id r.hosts)) [
  | inl unknown ↦ rw (unknown, heartbeat) s
  | inr (h, e) ↦
      rw (e, heartbeat)
        (modify-IsSound r.total_layers host_id (beat env.now) r.hosts (λ x. refl)
          (revive_live env.now) s)
]
