-- ===== src/Registry/Ready.antt =====
-- `SwarmRegistry.mark_ready`: the donor is told to shrink, then the contributor goes online. The
-- lock is free during the reload, so the call is two locked steps, `ready_begin` and
-- `ready_commit`, and between them another call may run.
use blitzwing.Base.{
  Bool, false, not, ◌&&◌, ◌||◌, Option, none, some, List, [], ◌∷◌, ◌++◌, if◌then◌else◌,
}
use blitzwing.Base.Int.{leb_ℤ}
use blitzwing.Base.Text.{Text, text_eq, truthy, or_empty, member}
use blitzwing.Base.Dict.{lookup, modify, values}
use blitzwing.Base.Exec.{ok, err, key_error, runtime_error, transport, pure, or_raise, ◌>>=◌, ◌>>◌}
use blitzwing.Registry.Range.{Range, size}
use blitzwing.Registry.Address.{is_public_multiaddr}
use blitzwing.Registry.Host.{
  HostRecord, online, SwarmRegistry, Env, Action, is_online, is_pending, persist, set_range,
}
use blitzwing.Registry.Donor.{is_donor_of}

-- What the first step hands to the second.
pub record ReadyPlan : Type 0 where
  pub donor_id : Text
  pub donor_url : Text
  pub shrink_to : Range
  pub assigned : Range

pub data Begun : Type 0 where
  already : HostRecord → Begun
  planned : ReadyPlan → Begun

-- Another pending host on the donor whose blocks are not inside what the donor keeps.
unfoldable pub blocks_ready : Text → Text → Range → List HostRecord → Bool
unfolding text_eq
blocks_ready host_id donor_id keep [] = false
blocks_ready host_id donor_id keep (h ∷ hs) =
    not (text_eq h.host_id host_id)
      && is_pending h
      && is_donor_of donor_id h
      && not (leb_ℤ keep.start h.block_indices.start && leb_ℤ h.block_indices.end keep.end)
    || blocks_ready host_id donor_id keep hs

abbrev pub assigned_range : HostRecord → Range
assigned_range h = elim h.pending_range [ none ↦ h.block_indices | some a ↦ a ]

-- `self.hosts.get(donor_id) if donor_id else None`
abbrev pub donor_of : HostRecord → SwarmRegistry → Option HostRecord
unfolding lookup
donor_of host r =
    if truthy host.donor_host_id then lookup (or_empty host.donor_host_id) r.hosts else none

abbrev pub set_peer : Option Text → HostRecord → HostRecord
set_peer peer h = if truthy peer then record h { peer_multiaddr = peer } else h

abbrev pub plan_of : HostRecord → HostRecord → Range → ReadyPlan
plan_of host donor shrink_to = record {
  donor_id = or_empty host.donor_host_id;
  donor_url = donor.shard_manager_url;
  shrink_to = shrink_to;
  assigned = assigned_range host;
}

abbrev begin_planned : Text → Option Text → HostRecord → HostRecord → Range → Action Begun
unfolding blocks_ready values modify
begin_planned host_id peer host donor shrink_to r =
    if blocks_ready host_id (or_empty host.donor_host_id) shrink_to (values r.hosts)
    then (err runtime_error, r)
    else (
      ok (planned (plan_of host donor shrink_to)),
      record r { hosts = modify host_id (set_peer peer) r.hosts },
    )

-- The checks after the host is found.
abbrev begin_host : Text → Option Text → HostRecord → Action Begun
unfolding begin_planned donor_of
begin_host host_id peer host r =
    if is_online host
    then (ok (already host), r)
    else (do
      donor ← or_raise (donor_of host r) runtime_error
      shrink_to ← or_raise host.donor_shrink_to runtime_error
      begin_planned host_id peer host donor shrink_to)
        r

-- The first locked step, up to the reload.
unfoldable pub ready_begin : Text → Option Text → Action Begun
unfolding begin_host lookup
ready_begin host_id peer r =
    (do host ← or_raise (lookup host_id r.hosts) key_error; begin_host host_id peer host) r

abbrev pub go_online : Env → Range → HostRecord → HostRecord
go_online env assigned h = record h {
  block_indices = assigned;
  layers_hosted = size assigned;
  status = online;
  last_heartbeat = env.now;
  pending_range = none;
  donor_shrink_to = none;
}

-- A public peer address is added once.
unfoldable pub add_bootstrap : Option Text → List Text → List Text
unfolding is_public_multiaddr member
add_bootstrap peer peers =
    let addr = or_empty peer in
    if truthy peer && is_public_multiaddr addr && not (member addr peers)
    then peers ++ addr ∷ []
    else peers

abbrev pub hand_over : Env → Text → ReadyPlan → SwarmRegistry → SwarmRegistry
hand_over env host_id plan r = record r {
  hosts =
      modify host_id (go_online env plan.assigned)
        (modify plan.donor_id (set_range plan.shrink_to) r.hosts);
}

abbrev hand_over_saved : Env → Text → Option Text → ReadyPlan → Action HostRecord
unfolding lookup persist add_bootstrap
hand_over_saved env host_id peer plan r =
    let r' = hand_over env host_id plan r in
    let r'' = persist env (record r' { bootstrap_peers = add_bootstrap peer r.bootstrap_peers }) in
    elim (lookup host_id r'.hosts) [ none ↦ (err key_error, r'') | some h ↦ (ok h, r'') ]

-- The second locked step, after the reload.
unfoldable pub ready_commit : Env → Text → Option Text → ReadyPlan → Action HostRecord
unfolding lookup modify hand_over_saved size
ready_commit env host_id peer plan r =
    (do
      or_raise (lookup host_id r.hosts) key_error
      or_raise (lookup plan.donor_id r.hosts) key_error
      hand_over_saved env host_id peer plan)
      r

abbrev ready_reloaded : Env → Text → Option Text → ReadyPlan → Action HostRecord
unfolding ready_commit
ready_reloaded env host_id peer plan r =
    if env.reload plan.donor_url plan.shrink_to
    then ready_commit env host_id peer plan r
    else (err transport, r)

abbrev ready_rest : Env → Text → Option Text → Begun → Action HostRecord
unfolding ready_reloaded
ready_rest env host_id peer (already h) = pure h
ready_rest env host_id peer (planned plan) = ready_reloaded env host_id peer plan

-- The whole call, with nothing between the two steps.
unfoldable pub mark_ready : Env → Text → Option Text → Action HostRecord
unfolding ready_begin ready_rest
mark_ready env host_id peer = do begun ← ready_begin host_id peer; ready_rest env host_id peer begun
