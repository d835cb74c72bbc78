-- ===== src/Shard/Process.antt =====
-- `ShardManager`: start, stop, reload and status over the processes of the operating system. Each
-- of start and stop holds the lock throughout.
use blitzwing.Base.{
  ℕ, Bool, true, false, not, ◌&&◌, ◌||◌, Option, none, some, List, [], ◌∷◌, ◌==◌, if◌then◌else◌,
}
use blitzwing.Base.Int.{ℤ}
use blitzwing.Base.Text.{Text, codes, truthy, or_empty, member, split, strip, is_empty}
use blitzwing.Base.Exec.{Result, ok, err, runtime_error, os_error, timed_out, Exec, ◌>>◌}
use blitzwing.Registry.Host.{keep}
use blitzwing.Registry.Range.{to_int}
use blitzwing.Shard.Command.{Config, resolve_use_auto_relay, build_cmd}

-- A process that was started, with the command line that it runs.
pub record Process : Type 0 where
  pub pid : ℕ
  pub cmd : List Text

-- The fields that the methods change.
pub record ShardManager : Type 0 where
  pub config : Config
  pub initial_peers : List Text
  pub block_indices : Text
  pub proc : Option Process
  pub last_exit_code : Option ℤ
  pub bootstrapped : Bool

-- The manager on its machine: `live` are the Petals processes that run.
pub record Machine : Type 0 where
  pub manager : ShardManager
  pub live : List Process

-- What a call finds: the id of the next process if it can be started, whether BLITZWING_HTTP_ONLY
-- is set, whether a process ends in time after SIGTERM and after SIGKILL, and its exit code.
pub record OsEnv : Type 0 where
  pub spawn : Option ℕ
  pub http_only : Bool
  pub ends_on_term : Bool
  pub ends_on_kill : Bool
  pub exit_code : Process → ℤ

abbrev pub Supervise : Type 0 → Type 0
Supervise A = Exec Machine A

-- `[p.strip() for p in raw.split(",") if p.strip()]`
unfoldable pub split_list : List Text → List Text
unfolding strip
split_list [] = []
split_list (p ∷ ps) =
    let rest = split_list ps in if is_empty (strip p) then rest else strip p ∷ rest

abbrev get_or : Option Text → Text → Text
get_or none d = d
get_or (some v) d = v

abbrev is_set : Text → Bool
unfolding member
is_set v = member v (codes "1" ∷ codes "true" ∷ codes "True" ∷ [])

abbrev shard_config : (Text → Option Text) → Text → ℤ → ℤ → Config
unfolding split split_list is_set resolve_use_auto_relay
shard_config getenv home port num_handlers =
    let announce = split_list (split b',' (get_or (getenv (codes "ANNOUNCE_MADDRS")) [])) in
    let new_swarm = is_set (get_or (getenv (codes "NEW_SWARM")) (codes "0")) in
    record {
      model = get_or (getenv (codes "MODEL_NAME")) (codes "HuggingFaceTB/SmolLM2-360M-Instruct");
      public_ip = getenv (codes "PUBLIC_IP");
      port = port;
      identity_path = get_or (getenv (codes "IDENTITY_PATH")) home;
      device = get_or (getenv (codes "PETALS_DEVICE")) (codes "cpu");
      quant_type = get_or (getenv (codes "PETALS_QUANT_TYPE")) (codes "none");
      num_handlers = num_handlers;
      python = get_or (getenv (codes "PETALS_PYTHON")) (codes "python");
      announce_maddrs = announce;
      new_swarm = new_swarm;
      use_auto_relay =
          resolve_use_auto_relay (getenv (codes "PETALS_USE_AUTO_RELAY")) announce new_swarm;
      skip_reachability_check =
          is_set (get_or (getenv (codes "PETALS_SKIP_REACHABILITY_CHECK")) (codes "1"));
    }

abbrev int_env : (Text → Option Text) → Text → Text → Result ℤ
unfolding to_int
int_env getenv name default = to_int (get_or (getenv name) default)

-- `__init__`, given the environment and the default of IDENTITY_PATH
unfoldable pub init_manager : (Text → Option Text) → Text → Result ShardManager
unfolding split split_list int_env shard_config
init_manager getenv home = elim (int_env getenv (codes "PETALS_PORT") (codes "31337")) [
  | err e ↦ err e
  | ok port ↦ elim (int_env getenv (codes "PETALS_NUM_HANDLERS") (codes "1")) [
    | err e ↦ err e
    | ok handlers ↦ ok (record {
      config = shard_config getenv home port handlers;
      initial_peers = split_list (split b',' (get_or (getenv (codes "INITIAL_PEERS")) []));
      block_indices = get_or (getenv (codes "BLOCK_INDICES")) (codes "0:22");
      proc = none;
      last_exit_code = none;
      bootstrapped = false;
    })
  ]
]

unfoldable pub is_live : ℕ → List Process → Bool
is_live pid [] = false
is_live pid (p ∷ ps) = p.pid == pid || is_live pid ps

-- The process ends.
unfoldable pub remove : ℕ → List Process → List Process
unfolding keep
remove pid = keep λ p. not (p.pid == pid)

-- `self._proc and self._proc.poll() is None`
abbrev pub is_running : Machine → Bool
is_running m = elim m.manager.proc [ none ↦ false | some p ↦ is_live p.pid m.live ]

abbrev pub set_blocks : Option Text → ShardManager → ShardManager
set_blocks blocks s = if truthy blocks then record s { block_indices = or_empty blocks } else s

abbrev pub use_bootstrap : Bool → ShardManager → Bool
use_bootstrap bootstrap s = bootstrap || s.config.new_swarm && not s.bootstrapped

abbrev pub command : OsEnv → Bool → ShardManager → List Text
command env bootstrap s =
    build_cmd s.config env.http_only s.initial_peers s.block_indices (use_bootstrap bootstrap s)

abbrev launch : OsEnv → Bool → Supervise (Unit {0})
launch env bootstrap m = elim env.spawn [
  | none ↦ (err os_error, m)
  | some pid ↦
      let p : Process = record { pid = pid; cmd = command env bootstrap m.manager } in
      (
        ok tt,
        record {
          manager = record m.manager { proc = some p; last_exit_code = none; bootstrapped = true };
          live = p ∷ m.live;
        },
      )
]

-- The range is noted before the check that no server runs.
unfoldable pub start : OsEnv → Option Text → Bool → Supervise (Unit {0})
unfolding is_live build_cmd
start env blocks bootstrap m =
    let m' : Machine = record m { manager = set_blocks blocks m.manager } in
    if is_running m' then (err runtime_error, m') else launch env bootstrap m'

abbrev pub forget_proc : Option ℤ → Machine → Machine
forget_proc code m = record m { manager = record m.manager { proc = none; last_exit_code = code } }

abbrev stop_live : OsEnv → Process → Supervise (Unit {0})
unfolding remove
stop_live env p m =
    if env.ends_on_term || env.ends_on_kill
    then (ok tt, forget_proc (some (env.exit_code p)) (record m { live = remove p.pid m.live }))
    else (err timed_out, forget_proc none m)

-- SIGTERM, and SIGKILL after a wait; the handle is dropped even if the last wait is too short.
unfoldable pub stop : OsEnv → Supervise (Unit {0})
unfolding is_live remove
stop env m = elim m.manager.proc [
  | none ↦ (ok tt, m)
  | some p ↦
      if is_live p.pid m.live
      then stop_live env p m
      else (ok tt, record m { manager = record m.manager { proc = none } })
]

abbrev pub set_peers : Option (List Text) → ShardManager → ShardManager
set_peers none s = s
set_peers (some peers) s = record s { initial_peers = peers }

abbrev pub forget_bootstrap : ShardManager → ShardManager
forget_bootstrap s = if s.config.new_swarm then record s { bootstrapped = false } else s

abbrev pub restart : OsEnv → Text → Supervise (Unit {0})
restart env blocks m =
    start env (some blocks) m.manager.config.new_swarm
      (record m { manager = forget_bootstrap m.manager })

-- A stop and a start; a mother of a new swarm bootstraps it again.
unfoldable pub reload : OsEnv → Text → Option (List Text) → Supervise (Unit {0})
unfolding stop start
reload env blocks peers m =
    (do stop env; restart env blocks) (record m { manager = set_peers peers m.manager })

-- `StatusResponse`, without the fields that are copied from the settings.
pub record StatusResponse : Type 0 where
  pub running : Bool
  pub pid : Option ℕ
  pub block_indices : Text
  pub last_exit_code : Option ℤ
  pub initial_peers : List Text

abbrev observe_exit : OsEnv → Machine → Machine
unfolding is_live
observe_exit env m = elim m.manager.proc [
  | none ↦ m
  | some p ↦
      if is_live p.pid m.live
      then m
      else record m { manager = record m.manager { last_exit_code = some (env.exit_code p) } }
]

abbrev pid_of : Option Process → Option ℕ
pid_of none = none
pid_of (some p) = some p.pid

unfoldable pub status : OsEnv → Machine → StatusResponse × Machine
unfolding observe_exit
status env m =
    let m' = observe_exit env m in
    (
      record {
        running = is_running m;
        pid = if is_running m then pid_of m.manager.proc else none;
        block_indices = m'.manager.block_indices;
        last_exit_code = m'.manager.last_exit_code;
        initial_peers = m'.manager.initial_peers;
      },
      m',
    )
