-- ===== src/Swarm/Live.antt =====
-- Layer reports: `refresh_live_status` and `apply_heartbeat_manifest` of
-- orchestrator/app/swarm_map.py. A reported text is compared with the text of the held range.
use blitzwing.Base.{
  Bool, true, false, not, ◌&&◌, ◌||◌, Option, none, some, List, [], ◌∷◌, if◌then◌else◌,
}
use blitzwing.Base.Text.{Text, truthy, or_empty, text_eq, rstrip_slash}
use blitzwing.Base.Dict.{lookup, modify, values}
use blitzwing.Base.Exec.{Result, ok, err, key_error, pure, ◌>>=◌}
use blitzwing.Registry.Range.{Range, size, format_range, parse_range}
use blitzwing.Registry.Host.{
  HostRecord, SwarmRegistry, Env, Action, beat, is_online, keep, persist, set_range,
}
use blitzwing.Registry.Ready.{add_bootstrap, set_peer}
use blitzwing.Swarm.Manifest.{SwarmManifest, build_manifest}

-- The answer of a shard manager's /status, as far as it is read.
pub record ShardStatus : Type 0 where
  pub block_indices : Option Text
  pub running : Bool

-- The report differs from what the registry holds, and is not empty.
abbrev pub drifts : Option Text → Range → Bool
unfolding text_eq format_range
drifts report held =
    truthy report && not (text_eq (or_empty report) (format_range held.start held.end))

abbrev pub set_running : Bool → HostRecord → HostRecord
set_running b h = record h { petals_running = some b }

-- One probed host: adopt a range that differs, then note whether it runs. The result says whether
-- it drifted; a text that does not parse raises.
unfoldable pub reconcile : HostRecord → ShardStatus → Action Bool
unfolding drifts parse_range modify size
reconcile host status r =
    if drifts status.block_indices host.block_indices
    then elim (parse_range (or_empty status.block_indices)) [
      | err e ↦ (err e, r)
      | ok b ↦ (
        ok true,
        record r {
          hosts =
              modify host.host_id (set_running status.running)
                (modify host.host_id (set_range b) r.hosts);
        },
      )
    ]
    else (ok false, record r { hosts = modify host.host_id (set_running status.running) r.hosts })

-- The probe of a URL gives no status when it fails.
unfoldable pub probe_each : (Text → Option ShardStatus) → List HostRecord → Action Bool
unfolding reconcile
probe_each probe [] r = (ok false, r)
probe_each probe (h ∷ hs) r = elim (probe h.shard_manager_url) [
  | none ↦ probe_each probe hs r
  | some status ↦
      (do drifted ← reconcile h status; later ← probe_each probe hs; pure (drifted || later)) r
]

unfoldable pub save_drift : Env → Bool → Action SwarmManifest
unfolding persist build_manifest
save_drift env drifted r =
    let r' = if drifted then persist env r else r in (ok (build_manifest r'), r')

unfoldable pub refresh_live_status : Env → (Text → Option ShardStatus) → Action SwarmManifest
unfolding keep values probe_each save_drift
refresh_live_status env probe r =
    (do drifted ← probe_each probe (keep is_online (values r.hosts)); save_drift env drifted) r

-- The body of a heartbeat.
pub record Report : Type 0 where
  pub block_indices : Option Text
  pub petals_running : Option Bool
  pub peer_multiaddr : Option Text
  pub shard_manager_url : Option Text

abbrev pub set_url : Option Text → HostRecord → HostRecord
unfolding rstrip_slash
set_url url h =
    if truthy url then record h { shard_manager_url = rstrip_slash (or_empty url) } else h

abbrev pub set_report_running : Option Bool → HostRecord → HostRecord
set_report_running none h = h
set_report_running (some b) h = record h { petals_running = some b }

-- What follows the layer report: URL, peer, bootstrap list and running flag.
unfoldable pub note_report : Text → Report → SwarmRegistry → SwarmRegistry
unfolding modify set_url add_bootstrap
note_report host_id report r = record r {
  hosts =
      modify host_id
        (λ h.
          set_report_running report.petals_running
            (set_peer report.peer_multiaddr (set_url report.shard_manager_url h)))
        r.hosts;
  bootstrap_peers = add_bootstrap report.peer_multiaddr r.bootstrap_peers;
}

-- The range of a report: none if there is nothing to adopt.
unfoldable pub reported_range : Option Text → HostRecord → Result (Option Range)
unfolding drifts parse_range
reported_range report h =
    if drifts report h.block_indices
    then elim (parse_range (or_empty report)) [ err e ↦ err e | ok b ↦ ok (some b) ]
    else ok none

abbrev pub adopt : Option Range → HostRecord → HostRecord
adopt none h = h
adopt (some b) h = set_range b h

-- The heartbeat is recorded before the reported range is parsed.
unfoldable pub apply_heartbeat_manifest : Env → Text → Report → Action HostRecord
unfolding lookup modify reported_range note_report size
apply_heartbeat_manifest env host_id report r = elim (lookup host_id r.hosts) [
  | none ↦ (err key_error, r)
  | some h ↦
      let beaten : SwarmRegistry = record r { hosts = modify host_id (beat env.now) r.hosts } in
      elim (reported_range report.block_indices h) [
        | err e ↦ (err e, beaten)
        | ok b ↦
            let r' =
              note_report host_id report
                (record beaten { hosts = modify host_id (adopt b) beaten.hosts }) in
            elim (lookup host_id r'.hosts) [ none ↦ (err key_error, r') | some h' ↦ (ok h', r') ]
      ]
]
