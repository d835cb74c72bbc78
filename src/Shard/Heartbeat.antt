-- ===== src/Shard/Heartbeat.antt =====
-- What a contributor's thread of shard_manager/heartbeat.py reports to the mother. The peer ids that
-- the regular expression finds in the log are a parameter; the waits and the thread are left out.
use blitzwing.Base.{Bool, true, false, Option, none, some, List, [], ◌∷◌, ◌++◌, if◌then◌else◌}
use blitzwing.Base.Int.{ℤ}
use blitzwing.Base.Text.{Text, codes, is_empty, strip, truthy, or_empty}
use blitzwing.Registry.Range.{show}
use blitzwing.Swarm.Live.{Report}
use blitzwing.Shard.Process.{Machine, OsEnv, status}

abbrev last_from_log : Text → List Text → Text
last_from_log t [] = t
last_from_log t (u ∷ us) = last_from_log u us

-- `_local_peer_from_log`: the last id, at the loopback address.
unfoldable pub local_peer_from_log : List Text → ℤ → Option Text
unfolding show
local_peer_from_log [] port = none
local_peer_from_log (t ∷ ts) port =
    some (codes "/ip4/127.0.0.1/tcp/" ++ (show port ++ (codes "/p2p/" ++ last_from_log t ts)))

abbrev if_given : Text → Option Text
if_given t = if is_empty t then none else some t

-- `_status` and the payload of one round, given the value of BLITZWING_SHARD_MANAGER_URL.
unfoldable pub heartbeat_report : OsEnv → Text → List Text → Machine → Report × Machine
unfolding status strip local_peer_from_log
heartbeat_report env shard_manager_url ids m =
    let (st, m') = status env m in
    (
      record {
        block_indices = if_given st.block_indices;
        petals_running = some st.running;
        peer_multiaddr = local_peer_from_log ids m.manager.config.port;
        shard_manager_url = if_given (strip shard_manager_url);
      },
      m',
    )

-- `maybe_start_from_env`: the thread starts only with a host id and a mother.
unfoldable pub starts_heartbeat : Option Text → Option Text → Option Text → Bool
unfolding strip
starts_heartbeat host_id blitzwing_mother_url mother_url =
    let url =
      if truthy blitzwing_mother_url then or_empty blitzwing_mother_url else or_empty mother_url in
    if is_empty (strip (or_empty host_id))
    then false
    else if is_empty (strip url)
    then false
    else true
