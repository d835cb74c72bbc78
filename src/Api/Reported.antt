-- ===== src/Api/Reported.antt =====
-- The registry under heartbeats that carry a report.
use blitzwing.Base.{◌≡◌, refl, ap, ◌∙◌, inl, inr, Option, none, some, arith, Option-cases}
use blitzwing.Base.Text.{Text, rstrip_slash}
use blitzwing.Base.Dict.{lookup, modify, modify_congr, lookup-modify_self}
use blitzwing.Base.Exec.{Error, ok, err, Result-cases}
use blitzwing.Registry.Range.{Range}
use blitzwing.Registry.Host.{HostRecord, SwarmRegistry, Env, beat, persist}
use blitzwing.Registry.Ready.{set_peer}
use blitzwing.Registry.Sound.Beats.{hosts-persist, total-persist, revive_live}
use blitzwing.Registry.Sound.Stays.{Same, Same-refl, modify-IsSound, recount, recount-Same}
use blitzwing.Registry.Reach.{Sound}
use blitzwing.Swarm.Live.{
  Report, adopt, set_url, set_report_running, note_report, reported_range, apply_heartbeat_manifest,
}
use blitzwing.Api.{Mother, World, registry_of}
use blitzwing.Api.Hosts.{hosts_heartbeat}

-- The report names the blocks that the registry holds for the host, or none that parse.
abbrev pub Confirmed : SwarmRegistry → Text → Report → Type 0
Confirmed r host_id report =
    (h : HostRecord) (b : Range)
    → lookup host_id r.hosts ≡ some h
    → reported_range report.block_indices h ≡ ok (some b)
    → b ≡ h.block_indices

noted : Report → HostRecord → HostRecord
noted report h =
    set_report_running report.petals_running
      (set_peer report.peer_multiaddr (set_url report.shard_manager_url h))

noted-Same : (report : Report) (h : HostRecord) → Same (noted report h) h
unfolding noted rstrip_slash
noted-Same report h = record {
  host_id = ground arith;
  role = ground arith;
  blocks = ground arith;
  status = ground arith;
  pending_range = ground arith;
  donor = ground arith;
  shrink = ground arith;
}

note_report-Sound :
    (host_id : Text) (report : Report) (r : SwarmRegistry)
    → Sound r
    → Sound (note_report host_id report r)
unfolding note_report noted
note_report-Sound host_id report r s =
    modify-IsSound r.total_layers host_id (noted report) r.hosts
      (λ h. (noted-Same report h).host_id) (λ h live. noted-Same report h) s

adopt-Sound :
    (host_id : Text) (h : HostRecord) (o : Option Range) (r : SwarmRegistry)
    → lookup host_id r.hosts ≡ some h
    → ((b : Range) → o ≡ some b → b ≡ h.block_indices)
    → Sound r
    → Sound (record r { hosts = modify host_id (adopt o) r.hosts })
adopt-Sound host_id h none r found same s =
    modify-IsSound r.total_layers host_id (adopt none) r.hosts (λ x. refl) (λ x live. Same-refl x) s
adopt-Sound host_id h (some b) r found same s =
    rw
      (modify_congr host_id (adopt (some b)) (recount b) h r.hosts found
        (ground (arith, same b refl)))
      (modify-IsSound r.total_layers host_id (recount b) r.hosts (λ x. refl)
        (λ x live. recount-Same b x) s)

apply_heartbeat_manifest-Sound :
    (env : Env) (host_id : Text) (report : Report) (r : SwarmRegistry)
    → Confirmed r host_id report
    → Sound r
    → Sound (apply_heartbeat_manifest env host_id report r).1
unfolding apply_heartbeat_manifest
apply_heartbeat_manifest-Sound env host_id report r confirmed s =
    elim (Option-cases (lookup host_id r.hosts)) [
      | inl unknown ↦ rw (apply_heartbeat_manifest, unknown) s
      | inr (h, found) ↦
          let beaten : SwarmRegistry = record r { hosts = modify host_id (beat env.now) r.hosts } in
          let alive : Sound beaten =
            modify-IsSound r.total_layers host_id (beat env.now) r.hosts (λ x. refl)
              (revive_live env.now) s in
          elim (Result-cases (reported_range report.block_indices h)) [
            | inl (x, bad) ↦ rw (apply_heartbeat_manifest, found, bad) alive
            | inr (o, good) ↦
                let adopted : SwarmRegistry = record beaten {
                  hosts = modify host_id (adopt o) beaten.hosts;
                } in
                let out = note_report host_id report adopted in
                let kept : Sound out = note_report-Sound host_id report adopted (
                  adopt-Sound host_id (beat env.now h) o beaten
                    (lookup-modify_self host_id (beat env.now) h r.hosts found)
                    (λ b is_b. confirmed h b found (good ∙ ap (λ (x : Option Range). ok x) is_b))
                    alive) in
                elim (Option-cases (lookup host_id out.hosts)) [
                  | inl gone ↦ rw (apply_heartbeat_manifest, found, good, gone) kept
                  | inr (h', there) ↦ rw (apply_heartbeat_manifest, found, good, there) kept
                ]
          ]
    ]

pub persist-Sound : (env : Env) (r : SwarmRegistry) → Sound r → Sound (persist env r)
persist-Sound env r s = rw (total-persist env r, hosts-persist env r) s

registry-failed :
    (w : World) (host_id : Text) (report : Report) (m : Mother) (x : Error)
    → (apply_heartbeat_manifest w.env host_id report (registry_of m)).0 ≡ err x
    → registry_of (hosts_heartbeat w host_id report m).1
      ≡ (apply_heartbeat_manifest w.env host_id report (registry_of m)).1
unfolding hosts_heartbeat
registry-failed w host_id report m x failed = rw (hosts_heartbeat, failed) (ground arith)

-- A heartbeat whose report confirms the host's blocks, of a known or an unknown host, leaves a sound
-- registry, whatever else it reports.
pub hosts_heartbeat-Sound :
    (w : World) (host_id : Text) (report : Report) (m : Mother)
    → Confirmed (registry_of m) host_id report
    → Sound (registry_of m)
    → Sound (registry_of (hosts_heartbeat w host_id report m).1)
unfolding hosts_heartbeat
hosts_heartbeat-Sound w host_id report m confirmed s =
    let kept = apply_heartbeat_manifest-Sound w.env host_id report (registry_of m) confirmed s in
    elim (Result-cases (apply_heartbeat_manifest w.env host_id report (registry_of m)).0) [
      | inl (x, failed) ↦ rw (registry-failed w host_id report m x failed) kept
      | inr (h, done) ↦ rw (hosts_heartbeat, done) (persist-Sound w.env _ kept)
    ]
