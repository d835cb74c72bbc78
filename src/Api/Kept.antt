-- ===== src/Api/Kept.antt =====
-- The registry under the ENS client's syncs and under the ready handler.
use blitzwing.Base.{
  ◌≡◌, refl, Bool, true, false, inl, inr, Option, none, some, arith, Bool-cases, Option-cases,
}
use blitzwing.Base.Text.{Text}
use blitzwing.Base.Dict.{lookup, modify}
use blitzwing.Base.Exec.{Result, err, runtime_error, Result-cases}
use blitzwing.Registry.Host.{HostRecord, SwarmRegistry, Env, name_host, set_ens_name, persist}
use blitzwing.Registry.Sound.Stays.{Same, modify-IsSound}
use blitzwing.Registry.Sound.Beats.{hosts-persist, total-persist}
use blitzwing.Registry.Reach.{Sound}
use blitzwing.Payout.Plan.{Settings}
use blitzwing.Ens.{
  Answer, EnsService, EnsState, post, provision_host, provision_and_name, update_host,
}
use blitzwing.Ens.Passes.Keeps.{provision_and_name_keeps}
use blitzwing.Ens.Passes.{update_donor, sync_host_ens_after_ready}

pub name_host-Same : (name : Text) (h : HostRecord) → Same (name_host name h) h
name_host-Same name h = record {
  host_id = refl;
  role = refl;
  blocks = refl;
  status = refl;
  pending_range = refl;
  donor = refl;
  shrink = refl;
}

pub named-Sound :
    (i name : Text) (r : SwarmRegistry)
    → Sound r
    → Sound (record r { hosts = modify i (name_host name) r.hosts })
named-Sound i name r s =
    modify-IsSound r.total_layers i (name_host name) r.hosts (λ h. refl)
      (λ h live. name_host-Same name h) s

persist-Sound : (env : Env) (r : SwarmRegistry) → Sound r → Sound (persist env r)
persist-Sound env r s = rw (total-persist env r, hosts-persist env r) s

pub set_ens_name-Sound :
    (env : Env) (i name : Text) (r : SwarmRegistry) → Sound r → Sound (set_ens_name env i name r).1
unfolding set_ens_name
set_ens_name-Sound env i name r s = elim (Option-cases (lookup i r.hosts)) [
  | inl unknown ↦ rw (set_ens_name, unknown) s
  | inr (h, e) ↦ rw (set_ens_name, e) (persist-Sound env _ (named-Sound i name r s))
]

registry-update_donor :
    (net : EnsService) (donor : Option HostRecord) (name : Text) (s : EnsState)
    → (update_donor net donor name s).1.registry ≡ s.registry
unfolding update_donor
registry-update_donor net none name s = refl
registry-update_donor net (some donor) name s = ground arith

pub sync_host_ens_after_ready-Sound :
    (env : Env) (settings : Settings) (net : EnsService) (host : HostRecord)
    (donor : Option HostRecord) (s : EnsState)
    → Sound s.registry
    → Sound (sync_host_ens_after_ready env settings net host donor s).1.registry
unfolding sync_host_ens_after_ready
sync_host_ens_after_ready-Sound env settings net host donor s sound =
    elim (Bool-cases settings.ens_enabled) [
      | inr off ↦ rw off sound
      | inl on ↦
          let kept = provision_and_name_keeps Sound set_ens_name-Sound env net host s sound in
          elim (Result-cases (provision_and_name env net host s).0) [
            | inl (x, failed) ↦ rw (on, failed, sync_host_ens_after_ready) kept
            | inr (name, done) ↦
                rw (on, done, sync_host_ens_after_ready, registry-update_donor net donor name _)
                  kept
          ]
    ]

abbrev pub is_runtime {ℓ} : {A : Type ℓ} → Result A → Bool
is_runtime (err runtime_error) = true
is_runtime _ = false

post_error : {A : Type 0} (a : Answer A) → is_runtime (post a) ≡ false
unfolding post
post_error Answer.unreachable = refl
post_error (Answer.replied code body) = ground arith

set_ens_name_error :
    (env : Env) (i name : Text) (r : SwarmRegistry)
    → is_runtime (set_ens_name env i name r).0 ≡ false
unfolding set_ens_name
set_ens_name_error env i name r = ground arith

provision_host_error :
    (net : EnsService) (h : HostRecord) (s : EnsState)
    → is_runtime (provision_host net h s).0 ≡ false
unfolding provision_host
provision_host_error net h s = ground (arith, post_error (net.provision h))

provision_and_name_error :
    (env : Env) (net : EnsService) (h : HostRecord) (s : EnsState)
    → is_runtime (provision_and_name env net h s).0 ≡ false
unfolding provision_and_name
provision_and_name_error env net h s =
    ground (arith, provision_host_error net h s, set_ens_name_error env h.host_id)

update_host_error :
    (net : EnsService) (name : Text) (h : HostRecord) → is_runtime (update_host net name h) ≡ false
unfolding update_host
update_host_error net name h = post_error (net.update name h)

pub sync_host_ens_after_ready_error :
    (env : Env) (settings : Settings) (net : EnsService) (host : HostRecord)
    (donor : Option HostRecord) (s : EnsState)
    → is_runtime (sync_host_ens_after_ready env settings net host donor s).0 ≡ false
unfolding sync_host_ens_after_ready
sync_host_ens_after_ready_error env settings net host donor s =
    ground (arith, provision_and_name_error env net host s, update_host_error net)
