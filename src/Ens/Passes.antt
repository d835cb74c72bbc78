-- ===== src/Ens/Passes.antt =====
-- The passes over all hosts, and the syncs after a hand-over and a departure.
pub mod Keeps
use blitzwing.Base.{Bool, not, ◌&&◌, ◌||◌, Option, none, some, List, [], ◌∷◌, if◌then◌else◌}
use blitzwing.Base.Int.{pos, leb_ℤ}
use blitzwing.Base.Text.{Text, truthy, or_empty}
use blitzwing.Base.Dict.{lookup}
use blitzwing.Base.Exec.{Result, ok, err, ens_error, Exec, pure, ◌>>=◌}
use blitzwing.Registry.Host.{HostRecord, Env}
use blitzwing.Payout.Plan.{Settings}
use blitzwing.Ens.{
  EnsService, provision_op, update_op, is_provision, PendingOp, EnsState, enqueue_pending,
  provision_and_name, update_host, deactivate_host, verify_host,
}

-- A host that should have a name and records.
abbrev pub is_named_host : HostRecord → Bool
is_named_host h = truthy h.hedera_account_id && not (leb_ℤ h.layers_hosted (pos 0))

abbrev pub op_of : HostRecord → PendingOp
op_of h = record {
  action = if truthy h.ens_name then update_op else provision_op;
  host_id = h.host_id;
  ens_name = h.ens_name;
}

abbrev update_named : EnsService → HostRecord → Exec EnsState (Unit {0})
unfolding update_host
update_named net h s = (update_host net (or_empty h.ens_name) h, s)

abbrev name_new : Env → EnsService → HostRecord → Exec EnsState (Unit {0})
unfolding provision_and_name
name_new env net h s =
    let (res, s') = provision_and_name env net h s in
    elim res [ err e ↦ (err e, s') | ok _ ↦ (ok tt, s') ]

-- Records that do not match are written again; a host with no name gets one.
abbrev check_host : Env → Settings → EnsService → HostRecord → Exec EnsState (Unit {0})
unfolding verify_host name_new update_named
check_host env settings net h =
    if truthy h.ens_name
    then (do same ← verify_host settings net h; if same then pure tt else update_named net h)
    else name_new env net h

-- The host as the registry holds it.
abbrev live_host : HostRecord → EnsState → HostRecord
unfolding lookup
live_host h s = elim (lookup h.host_id s.registry.hosts) [ none ↦ h | some h' ↦ h' ]

-- An EnsClientError of one host is queued; another exception ends the pass.
abbrev or_queue : HostRecord → Result (Unit {0}) → EnsState → Result (Unit {0}) × EnsState
unfolding enqueue_pending lookup
or_queue h (ok _) s = (ok tt, s)
or_queue h (err ens_error) s = (ok tt, enqueue_pending (op_of (live_host h s)) s)
or_queue h (err e) s = (err e, s)

unfoldable pub reconcile_each :
    Env → Settings → EnsService → List HostRecord → Exec EnsState (Unit {0})
unfolding check_host or_queue
reconcile_each env settings net [] s = (ok tt, s)
reconcile_each env settings net (h ∷ hs) s =
    let (res, s') = check_host env settings net h s in
    let (queued, s'') = or_queue h res s' in
    let (rest, out) = reconcile_each env settings net hs s'' in
    let (skipped, out') = reconcile_each env settings net hs s in
    if not (is_named_host h)
    then (skipped, out')
    else elim queued [ err e ↦ (err e, s'') | ok _ ↦ (rest, out) ]

unfoldable pub reconcile_registry :
    Env → Settings → EnsService → List HostRecord → Exec EnsState (Unit {0})
unfolding reconcile_each
reconcile_registry env settings net hosts s =
    if not settings.ens_enabled then (ok tt, s) else reconcile_each env settings net hosts s

-- One queued operation on its host.
unfoldable pub replay_on : Env → EnsService → PendingOp → HostRecord → Exec EnsState (Unit {0})
unfolding name_new update_named
replay_on env net op h =
    if is_provision op.action || not (truthy h.ens_name)
    then name_new env net h
    else update_named net h

-- The host of an operation is looked up in the registry, whose records the caller hands over by
-- reference. An EnsClientError is logged.
unfoldable pub replay_one : Env → EnsService → PendingOp → Exec EnsState (Unit {0})
unfolding lookup replay_on
replay_one env net op s = elim (lookup op.host_id s.registry.hosts) [
  | none ↦ (ok tt, s)
  | some h ↦
      let (res, s') = replay_on env net op h s in
      elim res [ ok _ ↦ (ok tt, s') | err ens_error ↦ (ok tt, s') | err e ↦ (err e, s') ]
]

unfoldable pub replay_each : Env → EnsService → List PendingOp → Exec EnsState (Unit {0})
unfolding replay_one
replay_each env net [] s = (ok tt, s)
replay_each env net (op ∷ ops) s =
    let (res, s') = replay_one env net op s in
    elim res [ err e ↦ (err e, s') | ok _ ↦ replay_each env net ops s' ]

unfoldable pub replay_pending : Env → Settings → EnsService → Exec EnsState (Unit {0})
unfolding replay_each
replay_pending env settings net s =
    if not settings.ens_enabled then (ok tt, s) else replay_each env net s.pending s

unfoldable pub update_donor : EnsService → Option HostRecord → Text → Exec EnsState Text
unfolding update_host
update_donor net none name s = (ok name, s)
update_donor net (some donor) name s =
    if truthy donor.ens_name
    then elim (update_host net (or_empty donor.ens_name) donor) [
      | err e ↦ (err e, s)
      | ok _ ↦ (ok name, s)
    ]
    else (ok name, s)

-- The new name of the host, and the donor's records.
unfoldable pub sync_host_ens_after_ready :
    Env → Settings → EnsService → HostRecord → Option HostRecord → Exec EnsState Text
unfolding provision_and_name update_donor
sync_host_ens_after_ready env settings net host donor s =
    if not settings.ens_enabled
    then (ok (or_empty host.ens_name), s)
    else let (res, s') = provision_and_name env net host s in
      elim res [ err e ↦ (err e, s') | ok name ↦ update_donor net donor name s' ]

unfoldable pub sync_mother_ens : Env → Settings → EnsService → HostRecord → Exec EnsState Text
unfolding provision_and_name
sync_mother_ens env settings net mother s =
    if not settings.ens_enabled
    then (ok (or_empty mother.ens_name), s)
    else provision_and_name env net mother s

abbrev deactivate_named : EnsService → HostRecord → Result (Unit {0})
unfolding deactivate_host
deactivate_named net h =
    if truthy h.ens_name then deactivate_host net (or_empty h.ens_name) else ok tt

abbrev update_if_named : EnsService → HostRecord → Result (Unit {0})
unfolding update_host
update_if_named net h = if truthy h.ens_name then update_host net (or_empty h.ens_name) h else ok tt

unfoldable pub sync_leave_ens :
    Settings → EnsService → HostRecord → Option HostRecord → Result (Unit {0})
unfolding deactivate_named update_if_named
sync_leave_ens settings net leaver reclaim =
    if not settings.ens_enabled then ok tt else elim (deactivate_named net leaver) [
      | err e ↦ err e
      | ok _ ↦ elim reclaim [ none ↦ ok tt | some h ↦ update_if_named net h ]
    ]
