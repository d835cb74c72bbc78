-- ===== src/Api/Hosts.antt =====
-- The handlers of join, ready, heartbeat and leave, and the round of the reaper.
use blitzwing.Base.{
  ℕ, Bool, not, ◌&&◌, ◌||◌, Option, none, some, List, [], ◌∷◌, ◌++◌, if◌then◌else◌,
}
use blitzwing.Base.Text.{Text, text_eq, is_empty, truthy, or_empty, member}
use blitzwing.Base.Dict.{lookup, modify}
use blitzwing.Base.Exec.{
  Result, ok, err, key_error, value_error, runtime_error, other_error, ens_error, pure, lift,
  modify_state, ◌>>=◌, ◌>>◌,
}
use blitzwing.Discovery.{Reply, answer, http_error}
use blitzwing.Registry.Range.{Range}
use blitzwing.Registry.Host.{
  HostRecord, SwarmRegistry, mother_id, is_online, get_host, persist, sync_mother_from_shard,
}
use blitzwing.Registry.Join.{JoinRequest, JoinResult, join}
use blitzwing.Registry.Ready.{assigned_range, mark_ready}
use blitzwing.Registry.Leave.{leave, reap_stale, reap_stale_pending}
use blitzwing.Swarm.Live.{Report, apply_heartbeat_manifest}
use blitzwing.Peer.{contributor_precheck_passed}
use blitzwing.Visible.{verify_blocks_visible}
use blitzwing.Engine.{add_peer, reload}
use blitzwing.Ens.Passes.{sync_host_ens_after_ready, sync_leave_ens}
use blitzwing.Api.{
  ApiSettings, Mother, World, Handler, registry_of, with_registry, on_registry, on_engine, on_ens,
  schedule,
}

-- A refused model leaves the registry alone; join's ValueError is 400, any other exception 500.
unfoldable pub hosts_join :
    ApiSettings → World → Text → JoinRequest → Mother → Reply JoinResult × Mother
unfolding text_eq join
hosts_join settings w model req m =
    if not (text_eq model settings.model_name)
    then (http_error 400, m)
    else let (res, r) = join w.env req (registry_of m) in
      elim res [
        | ok out ↦ (answer out, with_registry r m)
        | err value_error ↦ (http_error 400, with_registry r m)
        | err e ↦ (http_error 500, with_registry r m)
      ]

pub record ReadyRequest : Type 0 where
  pub host_id : Text
  pub peer_multiaddr : Option Text

-- A peer address that is the mother's own is dropped.
unfoldable pub contributor_peer : ApiSettings → SwarmRegistry → Option Text → Option Text
unfolding member
contributor_peer settings r peer =
    if truthy peer
      && (member (or_empty peer) settings.initial_peers || member (or_empty peer) r.bootstrap_peers)
    then none
    else peer

unfoldable pub inject_peer : Option Text → Mother → Mother
unfolding add_peer
inject_peer peer m =
    if truthy peer then record m { engine = add_peer (or_empty peer) m.engine } else m

-- Whether the hand-over goes through without a check of the DHT.
abbrev pub skips_verify : ApiSettings → Option Text → Bool → Bool
skips_verify settings peer fast_path =
    fast_path || (not (truthy peer) && not fast_path) || settings.skip_ready_verify

unfoldable pub finish_ready : World → Text → Option Text → Handler HostRecord
unfolding mark_ready
finish_ready w host_id peer = do
  host ← on_registry (mark_ready w.env host_id peer)
  modify_state schedule
  pure host

-- A failed reload of the engine is a RuntimeError.
unfoldable pub reload_engine : World → Handler (Unit {0})
unfolding reload
reload_engine w m =
    let (res, m') = on_engine (reload w.connect) m in
    elim res [ ok _ ↦ (ok tt, m') | err e ↦ (err runtime_error, m') ]

unfoldable pub verified_ready : World → Text → Range → Option Text → Handler HostRecord
unfolding verify_blocks_visible reload_engine finish_ready
verified_ready w host_id blocks peer = do
  reload_engine w
  lift (verify_blocks_visible blocks w.polls)
  finish_ready w host_id peer

unfoldable pub get_donor : Option Text → Handler (Option HostRecord)
unfolding get_host
get_donor donor_id =
    if truthy donor_id
    then (do donor ← on_registry (get_host (or_empty donor_id)); pure (some donor))
    else pure none

unfoldable pub keep_name : Text → Text → SwarmRegistry → SwarmRegistry
unfolding modify
keep_name host_id name r =
    if is_empty name
    then r
    else record r { hosts = modify host_id (λ h. record h { ens_name = some name }) r.hosts }

unfoldable pub named_host : Text → Text → Handler HostRecord
unfolding keep_name get_host
named_host host_id name = do
  on_registry (get_host host_id)
  modify_state (λ m. with_registry (keep_name host_id name (registry_of m)) m)
  on_registry (get_host host_id)

-- An EnsClientError is raised on only if ENS is strict, as an HTTPException that the handler turns
-- into 500. The record that is answered is the registry's.
unfoldable pub after_sync : ApiSettings → Text → HostRecord → Result Text → Handler HostRecord
unfolding lookup named_host
after_sync settings host_id host (ok name) m = named_host host_id name m
after_sync settings host_id host (err ens_error) m =
    if settings.base.ens_strict
    then (err other_error, m)
    else elim (lookup host_id (registry_of m).hosts) [ none ↦ (ok host, m) | some h ↦ (ok h, m) ]
after_sync settings host_id host (err e) m = (err e, m)

unfoldable pub sync_ens :
    ApiSettings → World → HostRecord → Option HostRecord → Text → Handler HostRecord
unfolding sync_host_ens_after_ready after_sync
sync_ens settings w host donor host_id m =
    let (res, m') = on_ens (sync_host_ens_after_ready w.env settings.base w.service host donor) m in
    after_sync settings host_id host res m'

unfoldable pub ready_ens :
    ApiSettings → World → Text → Option Text → HostRecord → Handler HostRecord
unfolding get_donor sync_ens
ready_ens settings w host_id donor_id host =
    if settings.base.ens_enabled
    then (do donor ← get_donor donor_id; sync_ens settings w host donor host_id)
    else pure host

unfoldable pub accept :
    ApiSettings → World → Text → HostRecord → Option Text → Bool → Handler HostRecord
unfolding finish_ready verified_ready
accept settings w host_id waiting peer fast_path =
    if skips_verify settings peer fast_path
    then finish_ready w host_id peer
    else verified_ready w host_id (assigned_range waiting) peer

-- A contributor that waits: its peer goes to the engine, the check is made or skipped, the registry
-- hands over, and the names are written.
unfoldable pub hand_off : ApiSettings → World → ReadyRequest → HostRecord → Handler HostRecord
unfolding contributor_peer inject_peer contributor_precheck_passed accept ready_ens
hand_off settings w body waiting m =
    let peer = contributor_peer settings (registry_of m) body.peer_multiaddr in
    let known = settings.initial_peers ++ (registry_of m).bootstrap_peers in
    let fast_path =
      contributor_precheck_passed w.reach waiting.shard_manager_url (assigned_range waiting) peer
        known in
    (do
      host ← accept settings w body.host_id waiting peer fast_path
      ready_ens settings w body.host_id waiting.donor_host_id host)
      (inject_peer peer m)

unfoldable pub ready_host : ApiSettings → World → ReadyRequest → Handler HostRecord
unfolding get_host hand_off
ready_host settings w body = do
  waiting ← on_registry (get_host body.host_id)
  if is_online waiting then pure waiting else hand_off settings w body waiting

-- A RuntimeError releases the pending host before the answer.
unfoldable pub release : World → Text → Mother → Mother
unfolding leave
release w host_id m = with_registry (leave w.env host_id (registry_of m)).1 m

unfoldable pub ready_reply : World → Text → Result HostRecord → Mother → Reply HostRecord × Mother
unfolding release
ready_reply w host_id (ok h) m = (answer h, m)
ready_reply w host_id (err key_error) m = (http_error 404, m)
ready_reply w host_id (err runtime_error) m = (http_error 503, release w host_id m)
ready_reply w host_id (err ens_error) m = (http_error 503, release w host_id m)
ready_reply w host_id (err e) m = (http_error 500, m)

unfoldable pub hosts_ready : ApiSettings → World → ReadyRequest → Mother → Reply HostRecord × Mother
unfolding ready_host ready_reply reload_engine
hosts_ready settings w body m =
    let (res, m') = ready_host settings w body m in ready_reply w body.host_id res m'

-- An exception other than KeyError is not handled: FastAPI answers 500.
unfoldable pub hosts_heartbeat : World → Text → Report → Mother → Reply HostRecord × Mother
unfolding apply_heartbeat_manifest persist
hosts_heartbeat w host_id report m =
    let (res, r) = apply_heartbeat_manifest w.env host_id report (registry_of m) in
    elim res [
      | ok h ↦ (answer h, with_registry (persist w.env r) m)
      | err key_error ↦ (http_error 404, with_registry r m)
      | err e ↦ (http_error 500, with_registry r m)
    ]

abbrev leave_synced : ApiSettings → World → HostRecord → Handler (Unit {0})
unfolding get_host sync_leave_ens
leave_synced settings w leaver =
    if settings.base.ens_enabled
    then (do
      reclaim ← on_registry (get_host mother_id)
      lift (sync_leave_ens settings.base w.service leaver (some reclaim)))
    else pure tt

abbrev leave_host : ApiSettings → World → Text → Handler (Unit {0})
unfolding get_host leave leave_synced
leave_host settings w host_id = do
  leaver ← on_registry (get_host host_id)
  on_registry (leave w.env host_id)
  leave_synced settings w leaver

-- An EnsClientError is 500, as any exception that is not named.
unfoldable pub hosts_leave : ApiSettings → World → Text → Mother → Reply Text × Mother
unfolding leave_host
hosts_leave settings w host_id m =
    let (res, m') = leave_host settings w host_id m in
    elim res [
      | ok _ ↦ (answer host_id, m')
      | err key_error ↦ (http_error 404, m')
      | err value_error ↦ (http_error 400, m')
      | err e ↦ (http_error 500, m')
    ]

abbrev pub schedule_if : List Text → Mother → Mother
schedule_if [] m = m
schedule_if (i ∷ is) m = schedule m

-- One round of `_reaper_loop`: hosts that never got ready, then silent ones.
unfoldable pub reaper_round : World → ℕ → ℕ → Mother → Mother
unfolding reap_stale_pending reap_stale
reaper_round w pending_ttl heartbeat_ttl m =
    let (removed, r) = reap_stale_pending w.env pending_ttl (registry_of m) in
    let (reaped, r') = reap_stale w.env heartbeat_ttl r in schedule_if reaped (with_registry r' m)

-- `_sync_mother_shard_blocks`, given the block_indices that the shard manager reports; a failure is
-- logged.
unfoldable pub sync_mother_shard_blocks : Option Text → SwarmRegistry → SwarmRegistry
unfolding sync_mother_from_shard
sync_mother_shard_blocks reported r =
    if truthy reported then (sync_mother_from_shard (or_empty reported) r).1 else r
