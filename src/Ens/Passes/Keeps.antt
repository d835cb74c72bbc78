-- ===== src/Ens/Passes/Keeps.antt =====
-- What the ENS client's passes keep of the registry: whatever the naming of one host keeps.
use blitzwing.Base.{
  ◌≡◌, refl, Bool, true, false, if◌then◌else◌, ◌||◌, not, inl, inr, some, List, [], ◌∷◌, arith,
  Bool-cases, Option-cases,
}
use blitzwing.Base.Text.{Text, truthy, or_empty}
use blitzwing.Base.Dict.{lookup}
use blitzwing.Base.Exec.{Error, Result, ok, err, Exec, pure, ◌>>=◌, Result-cases}
use blitzwing.Registry.Host.{HostRecord, SwarmRegistry, Env, set_ens_name}
use blitzwing.Payout.Plan.{Settings}
use blitzwing.Ens.{
  EnsService, is_provision, PendingOp, EnsState, provision_host, provision_and_name, verify_host,
}
use blitzwing.Ens.Passes.{
  is_named_host, check_host, name_new, update_named, or_queue, replay_on, replay_one, replay_each,
  replay_pending, reconcile_each, reconcile_registry, sync_mother_ens,
}

registry-provision_host :
    (net : EnsService) (h : HostRecord) (s : EnsState)
    → (provision_host net h s).1.registry ≡ s.registry
unfolding provision_host
registry-provision_host net h s = ground arith

registry-verify_host :
    (settings : Settings) (net : EnsService) (h : HostRecord) (s : EnsState)
    → (verify_host settings net h s).1.registry ≡ s.registry
unfolding verify_host
registry-verify_host settings net h s = ground arith

registry-update_if :
    (check : Exec EnsState Bool) (net : EnsService) (h : HostRecord) (s : EnsState)
    → ((do same ← check; if same then pure tt else update_named net h) s).1.registry
      ≡ (check s).1.registry
unfolding update_named
registry-update_if check net h s = elim (Result-cases (check s).0) [
  | inl (x, failed) ↦ rw (failed, ◌>>=◌)
  | inr (same, done) ↦ elim (Bool-cases same) [
    | inl agrees ↦ rw (done, agrees, ◌>>=◌)
    | inr differs ↦ rw (done, differs, ◌>>=◌)
  ]
]

registry-or_queue :
    (h : HostRecord) (res : Result (Unit {0})) (s : EnsState)
    → (or_queue h res s).1.registry ≡ s.registry
unfolding or_queue
registry-or_queue h (ok u) s = refl
registry-or_queue h (err Error.key_error) s = refl
registry-or_queue h (err Error.value_error) s = refl
registry-or_queue h (err Error.runtime_error) s = refl
registry-or_queue h (err Error.transport) s = refl
registry-or_queue h (err Error.os_error) s = refl
registry-or_queue h (err Error.timed_out) s = refl
registry-or_queue h (err Error.other_error) s = refl
registry-or_queue h (err Error.missing_blocks) s = refl
registry-or_queue h (err Error.http_inference) s = refl
registry-or_queue h (err Error.ens_error) s = refl

registry-name_new :
    (env : Env) (net : EnsService) (h : HostRecord) (s : EnsState)
    → (name_new env net h s).1.registry ≡ (provision_and_name env net h s).1.registry
unfolding name_new
registry-name_new env net h s = elim (Result-cases (provision_and_name env net h s).0) [
  | inl (x, failed) ↦ rw (name_new, failed)
  | inr (name, done) ↦ rw (name_new, done)
]

registry-replay_one :
    (env : Env) (net : EnsService) (op : PendingOp) (h : HostRecord) (s : EnsState)
    → lookup op.host_id s.registry.hosts ≡ some h
    → (replay_one env net op s).1.registry ≡ (replay_on env net op h s).1.registry
unfolding replay_one
registry-replay_one env net op h s found = ground (arith, found)

module _ (P : SwarmRegistry → Type 0)
    (names : (env : Env) (i name : Text) (r : SwarmRegistry)
      → P r
      → P (set_ens_name env i name r).1)
    (env : Env) (net : EnsService) where
  kept_if :
      {A : Type 0} (b : Bool) (x y : Result A × EnsState)
      → P x.1.registry
      → P y.1.registry
      → P (if b then x else y).1.registry
  kept_if true x y p q = p
  kept_if false x y p q = q

  pub provision_and_name_keeps :
      (h : HostRecord) (s : EnsState) → P s.registry → P (provision_and_name env net h s).1.registry
  unfolding provision_and_name
  provision_and_name_keeps h s p =
      let kept : P (provision_host net h s).1.registry = rw (registry-provision_host net h s) p in
      elim (Result-cases (provision_host net h s).0) [
        | inl (x, failed) ↦ rw (failed, provision_and_name) kept
        | inr (name, done) ↦
            let named = names env h.host_id name (provision_host net h s).1.registry kept in
            elim (Result-cases
              (set_ens_name env h.host_id name (provision_host net h s).1.registry).0) [
                | inl (x, failed) ↦ rw (done, failed, provision_and_name) named
                | inr (h', found) ↦ rw (done, found, provision_and_name) named
              ]
      ]

  name_new_keeps :
      (h : HostRecord) (s : EnsState) → P s.registry → P (name_new env net h s).1.registry
  name_new_keeps h s p = rw (registry-name_new env net h s) (provision_and_name_keeps h s p)

  replay_on_keeps :
      (op : PendingOp) (h : HostRecord) (s : EnsState)
      → P s.registry
      → P (replay_on env net op h s).1.registry
  unfolding replay_on
  replay_on_keeps op h s p = elim (Bool-cases (is_provision op.action || not (truthy h.ens_name))) [
    | inl new ↦ rw (new, replay_on) (name_new_keeps h s p)
    | inr old ↦ rw (old, replay_on) p
  ]

  replay_one_keeps :
      (op : PendingOp) (s : EnsState) → P s.registry → P (replay_one env net op s).1.registry
  unfolding replay_one
  replay_one_keeps op s p = elim (Option-cases (lookup op.host_id s.registry.hosts)) [
    | inl unknown ↦ rw (replay_one, unknown) p
    | inr (h, found) ↦ rw (registry-replay_one env net op h s found) (replay_on_keeps op h s p)
  ]

  replay_each_keeps :
      (ops : List PendingOp) (s : EnsState)
      → P s.registry
      → P (replay_each env net ops s).1.registry
  unfolding replay_each
  replay_each_keeps [] s p = p
  replay_each_keeps (op ∷ ops) s p = elim (Result-cases (replay_one env net op s).0) [
    | inl (x, failed) ↦ rw (failed, replay_each) (replay_one_keeps op s p)
    | inr (u, done) ↦
        rw (done, replay_each)
          (replay_each_keeps ops (replay_one env net op s).1 (replay_one_keeps op s p))
  ]

  pub replay_pending_keeps :
      (settings : Settings) (s : EnsState)
      → P s.registry
      → P (replay_pending env settings net s).1.registry
  unfolding replay_pending
  replay_pending_keeps settings s p =
      kept_if (not settings.ens_enabled) (ok tt, s) (replay_each env net s.pending s) p
        (replay_each_keeps s.pending s p)

  check_host_keeps :
      (settings : Settings) (h : HostRecord) (s : EnsState)
      → P s.registry
      → P (check_host env settings net h s).1.registry
  unfolding check_host
  check_host_keeps settings h s p = elim (Bool-cases (truthy h.ens_name)) [
    | inr unnamed ↦ rw (unnamed, check_host) (name_new_keeps h s p)
    | inl named ↦
        rw
          (
            named,
            check_host,
            registry-update_if (verify_host settings net h) net h s,
            registry-verify_host settings net h s,
          )
          p
  ]

  reconcile_each_keeps :
      (settings : Settings) (hs : List HostRecord) (s : EnsState)
      → P s.registry
      → P (reconcile_each env settings net hs s).1.registry
  unfolding reconcile_each
  reconcile_each_keeps settings [] s p = p
  reconcile_each_keeps settings (h ∷ hs) s p = elim (Bool-cases (is_named_host h)) [
    | inr skipped ↦ rw (skipped, reconcile_each) (reconcile_each_keeps settings hs s p)
    | inl named ↦
        let (res, mid) = check_host env settings net h s in
        let kept : P (or_queue h res mid).1.registry =
          rw (registry-or_queue h res mid) (check_host_keeps settings h s p) in
        elim (Result-cases (or_queue h res mid).0) [
          | inl (x, failed) ↦ rw (named, failed, reconcile_each) kept
          | inr (u, done) ↦
              rw (named, done, reconcile_each)
                (reconcile_each_keeps settings hs (or_queue h res mid).1 kept)
        ]
  ]

  pub reconcile_registry_keeps :
      (settings : Settings) (hs : List HostRecord) (s : EnsState)
      → P s.registry
      → P (reconcile_registry env settings net hs s).1.registry
  unfolding reconcile_registry
  reconcile_registry_keeps settings hs s p =
      kept_if (not settings.ens_enabled) (ok tt, s) (reconcile_each env settings net hs s) p
        (reconcile_each_keeps settings hs s p)

  pub sync_mother_ens_keeps :
      (settings : Settings) (h : HostRecord) (s : EnsState)
      → P s.registry
      → P (sync_mother_ens env settings net h s).1.registry
  unfolding sync_mother_ens
  sync_mother_ens_keeps settings h s p =
      kept_if (not settings.ens_enabled) (ok (or_empty h.ens_name), s)
        (provision_and_name env net h s) p (provision_and_name_keeps h s p)
