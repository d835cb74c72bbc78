-- ===== src/Examples/Starts.antt =====
-- The start of an orchestrator of six layers, from no file and from the file of an earlier run, a round
-- of the reaper and a heartbeat.
use blitzwing.Base.{◌≡◌, refl, true, false, inr, none, some, [], arith}
use blitzwing.Base.Int.{pos}
use blitzwing.Base.Text.{codes, text_eq}
use blitzwing.Base.Exec.{Result, ok, err}
use blitzwing.Base.Dict.{lookup, values}
use blitzwing.Registry.Range.{range, parse_range}
use blitzwing.Registry.Host.{HostRecord, Saved, Env, mother_id, keep}
use blitzwing.Registry.Join.{join}
use blitzwing.Registry.Ready.{mark_ready}
use blitzwing.Registry.Leave.{reap_stale}
use blitzwing.Registry.Sound.{IsSound}
use blitzwing.Registry.Sound.Donor.{none_pending}
use blitzwing.Registry.Reach.{Sound}
use blitzwing.Registry.Reclaim.Kept.Depart.{NonePending}
use blitzwing.Registry.Reclaim.Kept.Silent.{reap_stale-IsSound}
use blitzwing.Swarm.Manifest.{build_manifest, is_complete}
use blitzwing.Swarm.Live.{Report, reported_range}
use blitzwing.Api.{Mother, registry_of}
use blitzwing.Api.Hosts.{hosts_heartbeat}
use blitzwing.Api.Startup.{StartSettings, startup}
use blitzwing.Api.Served.{idle}
use blitzwing.Api.Reported.{Confirmed, hosts_heartbeat-Sound}
use blitzwing.Api.Started.Alone.{Agrees, started_mother_serves}
use blitzwing.Api.Started.Restart.{Confirms, restarted_mother_serves}
use blitzwing.Examples.Hosts.{env, fresh, joined, joined-IsSound, ready, ready-IsSound}
use blitzwing.Examples.Gates.{settings, world, engine, mother_at}

abbrev start : StartSettings
start = record {
  announce_peers = [];
  mother_shard_manager_url = codes "http://m";
  pending_ttl_seconds = 60;
  heartbeat_ttl_seconds = 60;
  load_at_startup = false;
}

abbrev or_fresh : Result Mother → Mother
or_fresh (ok m) = m
or_fresh (err e) = mother_at fresh

abbrev started : Mother
started = or_fresh (startup start settings world none none engine [])

started-eq : startup start settings world none none engine [] ≡ ok started
unfolding startup
started-eq = refl

no_report : Agrees (pos 6) none
unfolding parse_range
no_report b e = cc

started_mother_serves_example :
    Sound (registry_of started) × (is_complete (build_manifest (registry_of started)) ≡ true)
started_mother_serves_example =
    started_mother_serves start settings world none engine [] {m = started} (omega arith) no_report
      started-eq idle

ready-quiet : NonePending ready.hosts
unfolding keep values join mark_ready
ready-quiet j h found = none_pending j h ready.hosts refl found

abbrev later : Env
later = record env { now = 1000 }

-- The contributor has been silent for longer than a minute.
reap_stale-IsSound_example : IsSound ready.total_layers (reap_stale later 60 ready).1.hosts
reap_stale-IsSound_example =
    reap_stale-IsSound later 60 ready (inr (ready-quiet, λ url new. refl)) ready-IsSound

abbrev report : Report
report = record {
  block_indices = none;
  petals_running = some true;
  peer_multiaddr = none;
  shard_manager_url = none;
}

quiet_report : Confirmed joined (codes "host-1") report
unfolding reported_range
quiet_report h b found e = cc

hosts_heartbeat-Sound_example :
    Sound (registry_of (hosts_heartbeat world (codes "host-1") report (mother_at joined)).1)
hosts_heartbeat-Sound_example =
    hosts_heartbeat-Sound world (codes "host-1") report (mother_at joined) quiet_report
      joined-IsSound

-- The file that an earlier run has left, with the mother at 0:4 and the contributor at 4:6.
abbrev file : Saved
file = record { model = codes "m"; total_layers = pos 6; bootstrap_peers = []; hosts = ready.hosts }

file-IsSound : IsSound (pos 6) file.hosts
unfolding mark_ready join
file-IsSound = ready-IsSound

mother_blocks :
    (h : HostRecord)
    → lookup mother_id file.hosts ≡ some h
    → h.block_indices ≡ range (pos 0) (pos 4)
unfolding mark_ready join lookup text_eq
mother_blocks h found = ground arith

four_layers : Confirms (range (pos 0) (pos 4)) (some (codes "0:4"))
unfolding parse_range
four_layers b e = ground arith

abbrev restarted : Mother
restarted = or_fresh (startup start settings world (some file) (some (codes "0:4")) engine [])

restarted-eq :
    startup start settings world (some file) (some (codes "0:4")) engine [] ≡ ok restarted
unfolding startup
restarted-eq = refl

restarted_mother_serves_example :
    Sound (registry_of restarted) × (is_complete (build_manifest (registry_of restarted)) ≡ true)
restarted_mother_serves_example =
    restarted_mother_serves start settings world file (range (pos 0) (pos 4)) (some (codes "0:4"))
      engine [] {m = restarted} file-IsSound ready-quiet mother_blocks four_layers (λ url new. refl)
      restarted-eq idle
