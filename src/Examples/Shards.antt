-- ===== src/Examples/Shards.antt =====
-- A shard manager that is started, reloaded and asked for its runner.
use blitzwing.Base.{◌≡◌, refl, true, false, none, some, [], ◌∷◌}
use blitzwing.Base.Int.{pos}
use blitzwing.Base.Text.{codes, text_eq}
use blitzwing.Base.Exec.{ok}
use blitzwing.Registry.Range.{range, parse_range, format_range}
use blitzwing.Base.Dict.{lookup}
use blitzwing.Registry.Join.{pending_record, join}
use blitzwing.Registry.Ready.{go_online, mark_ready}
use blitzwing.Swarm.Live.{apply_heartbeat_manifest}
use blitzwing.Shard.Heartbeat.{heartbeat_report}
use blitzwing.Examples.Hosts.{joined, waiting}
use blitzwing.Examples.Hosts
use blitzwing.Shard.Command.{Config, build_cmd}
use blitzwing.Shard.Process.{Process, Machine, OsEnv, init_manager, remove, start, reload}
use blitzwing.Shard.Routes.{Server, get_local_runner, get_http_chain, is_range_text, post_start}
use blitzwing.Shard.Supervised.{
  IsSupervised, idle, busy, still, moves, starts, reloads, exits, Run-IsSupervised,
}
use blitzwing.Shard.Caches.{post_start_keeps_chain, reload_lem}

abbrev os : OsEnv
os = record {
  spawn = some 41;
  http_only = false;
  ends_on_term = false;
  ends_on_kill = true;
  exit_code = λ p. pos 9;
}

abbrev config : Config
config = record {
  model = codes "m";
  public_ip = none;
  port = pos 31337;
  identity_path = codes "id";
  device = codes "cpu";
  quant_type = codes "none";
  num_handlers = pos 1;
  python = codes "python";
  announce_maddrs = [];
  new_swarm = true;
  use_auto_relay = false;
  skip_reachability_check = true;
}

abbrev stopped : Machine
stopped = record {
  manager = record {
    config = config;
    initial_peers = [];
    block_indices = codes "0:22";
    proc = none;
    last_exit_code = none;
    bootstrapped = false;
  };
  live = [];
}

abbrev old : Process
old = record { pid = 40; cmd = [] }

abbrev running : Machine
running = record stopped { manager = record stopped.manager { proc = some old }; live = old ∷ [] }

-- The server of a started manager is killed and started again, and ends by itself.
Run-IsSupervised_example :
    IsSupervised (record (reload os (codes "4:8") none (start os none false stopped).1).1 {
      live = remove 41 (reload os (codes "4:8") none (start os none false stopped).1).1.live;
    })
Run-IsSupervised_example =
    Run-IsSupervised {m = stopped}
      (moves {n = (reload os (codes "4:8") none (start os none false stopped).1).1}
        (moves {n = (start os none false stopped).1}
          (moves {n = stopped} still (starts os none false)) (reloads os (codes "4:8") none refl))
        (exits 41))
      (idle refl)

abbrev server : Server
server = record {
  machine = record stopped { manager = record stopped.manager { block_indices = codes "0:4" } };
  local_runner = some (range (pos 0) (pos 22));
  http_chain =
      some (record { runner = range (pos 0) (pos 22); local_block_indices = codes "0:22" });
}

server-eq : (get_local_runner server).0 ≡ ok (range (pos 0) (pos 4))
unfolding get_local_runner parse_range format_range text_eq
server-eq = refl

text-eq : is_range_text (codes "4:8") ≡ true
unfolding is_range_text
text-eq = refl

post_start_keeps_chain_example :
    ((post_start os (some (codes "4:8")) server).1.machine.manager.block_indices ≡ codes "4:8")
    × ((get_http_chain (post_start os (some (codes "4:8")) server).1).0
        ≡ ok (record { runner = range (pos 0) (pos 22); local_block_indices = codes "0:22" }))
post_start_keeps_chain_example =
    post_start_keeps_chain os (codes "4:8") server
      (record { runner = range (pos 0) (pos 22); local_block_indices = codes "0:22" }) 41 text-eq
      refl refl refl refl

reload_lem_example :
    ((reload os (codes "4:8") none running).0 ≡ ok tt)
    × ((reload os (codes "4:8") none running).1.manager.block_indices ≡ codes "4:8")
    × ((reload os (codes "4:8") none running).1.live
        ≡ record { pid = 41; cmd = build_cmd config false [] (codes "4:8") true } ∷ [])
reload_lem_example = reload_lem os (codes "4:8") none running 41 (busy old refl refl) refl refl refl

-- A manager with no setting gives its range to a runner, and the route refuses while it is idle.
init_test :
    init_manager (λ name. none) (codes "id")
    ≡ ok (record {
      config = record config {
        model = codes "HuggingFaceTB/SmolLM2-360M-Instruct";
        new_swarm = false;
        use_auto_relay = true;
      };
      initial_peers = [];
      block_indices = codes "0:22";
      proc = none;
      last_exit_code = none;
      bootstrapped = false;
    })
unfolding init_manager text_eq
init_test = refl

-- A contributor whose public address the mother knows reports its loopback address, and the mother
-- takes it over.
heartbeat_test :
    (lookup
      (codes "host-1")
      (apply_heartbeat_manifest Hosts.env
        (codes "host-1")
        (heartbeat_report os [] (codes "Q" ∷ []) running).0
        (mark_ready Hosts.env
          (codes "host-1")
          (some (codes "/ip4/1.2.3.4/tcp/1/p2p/Q"))
          joined).1).1.hosts)
    ≡ some (record (go_online Hosts.env (range (pos 0) (pos 22)) waiting) {
      peer_multiaddr = some (codes "/ip4/127.0.0.1/tcp/31337/p2p/Q");
      petals_running = some true;
    })
unfolding lookup apply_heartbeat_manifest heartbeat_report mark_ready join pending_record text_eq
heartbeat_test = refl
