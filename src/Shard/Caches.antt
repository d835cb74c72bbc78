-- ===== src/Shard/Caches.antt =====
-- What a reload leaves behind, and the cached runners after it and after a start.
use blitzwing.Base.{
  ℕ, ◌≡◌, refl, ap, ◌∙◌, Bool, true, false, ◌||◌, inl, inr, Option, none, some, List, [], ◌∷◌,
  arith, Bool-cases, Option-cases,
}
use blitzwing.Base.Text.{Text, truthy, text_eq, text_eq_iff}
use blitzwing.Base.Exec.{Result, ok, err, runtime_error}
use blitzwing.Registry.Range.{Range, parse_range, format_range}
use blitzwing.Registry.Range.RoundTrip.{parse_range-format_range}
use blitzwing.Shard.Command.{build_cmd}
use blitzwing.Shard.Process.{
  ShardManager, Machine, OsEnv, is_running, set_blocks, start, stop, reload, forget_bootstrap,
  set_peers, command,
}
use blitzwing.Shard.Routes.{
  ChainCache, Server, get_local_runner, get_http_chain, is_range_text, post_start,
}
use blitzwing.Shard.Supervised.{
  IsSupervised, stop_idle, set_peers-IsSupervised, noted, with_peers, reload_stopped, start_passed,
  idle_not_running,
}

-- Whatever is cached, the runner that is handed out has the range of the manager's text.
pub get_local_runner_lem :
    (s : Server) {b : Range}
    → (get_local_runner s).0 ≡ ok b
    → parse_range s.machine.manager.block_indices ≡ ok b
unfolding get_local_runner
get_local_runner_lem s {b} e = elim (Option-cases s.local_runner) [
  | inl empty ↦ ground arith
  | inr (old, cached) ↦
      elim (Bool-cases (text_eq (format_range old.start old.end) s.machine.manager.block_indices)) [
        | inl same ↦
            let is_old : old ≡ b = ground arith in
            rw
              (← (text_eq_iff (format_range old.start old.end) s.machine.manager.block_indices).0
                same)
              (parse_range-format_range old.start old.end ∙ ap ok is_old)
        | inr stale ↦ ground arith
      ]
]

-- A start on a running server is refused, and the manager reports the new range nevertheless,
-- while the processes are as before.
pub start_refused_lem :
    (env : OsEnv) (blocks : Text) (bootstrap : Bool) (m : Machine)
    → truthy (some blocks) ≡ true
    → is_running m ≡ true
    → ((start env (some blocks) bootstrap m).0 ≡ err runtime_error)
      × ((start env (some blocks) bootstrap m).1.manager.block_indices ≡ blocks)
      × ((start env (some blocks) bootstrap m).1.live ≡ m.live)
unfolding start
start_refused_lem env blocks bootstrap m given up = (ground arith, ground arith, ground arith)

-- If no server runs and the route starts one with a new range, a chain that was cached before is
-- handed out with its old range.
pub post_start_keeps_chain :
    (env : OsEnv) (blocks : Text) (s : Server) (c : ChainCache) (pid : ℕ)
    → is_range_text blocks ≡ true
    → truthy (some blocks) ≡ true
    → is_running s.machine ≡ false
    → env.spawn ≡ some pid
    → s.http_chain ≡ some c
    → ((post_start env (some blocks) s).1.machine.manager.block_indices ≡ blocks)
      × ((get_http_chain (post_start env (some blocks) s).1).0 ≡ ok c)
unfolding post_start get_http_chain
post_start_keeps_chain env blocks s c pid text given down spawned cached =
    let quiet : is_running (noted (some blocks) s.machine) ≡ false = ground arith in
    let eq = start_passed env (some blocks) false s.machine pid quiet spawned in
    (ground (arith, eq), ground (arith, eq))

stop_ok :
    (env : OsEnv) (m : Machine)
    → (env.ends_on_term || env.ends_on_kill) ≡ true
    → ((stop env m).0 ≡ ok tt)
      × ((stop env m).1.manager.config ≡ m.manager.config)
      × ((stop env m).1.manager.initial_peers ≡ m.manager.initial_peers)
unfolding stop
stop_ok env m ends = (ground arith, ground arith, ground arith)

restart_command :
    (env : OsEnv) (blocks : Text) (s : ShardManager)
    → truthy (some blocks) ≡ true
    → command env s.config.new_swarm (set_blocks (some blocks) (forget_bootstrap s))
      ≡ build_cmd s.config env.http_only s.initial_peers blocks s.config.new_swarm
restart_command env blocks s given = elim (Bool-cases s.config.new_swarm) [
  | inl fresh ↦ ground arith
  | inr old ↦ ground arith
]

config-set_peers :
    (peers : Option (List Text)) (s : ShardManager) → (set_peers peers s).config ≡ s.config
config-set_peers none s = refl
config-set_peers (some ps) s = refl

-- From a supervised machine on which a process ends in time and a new one can be started, a reload
-- passes: the only process that runs is the new one, with the command line for the new range and
-- peers, bootstrapped if the swarm is new, and the manager reports the new range.
pub reload_lem :
    (env : OsEnv) (blocks : Text) (peers : Option (List Text)) (m : Machine) (pid : ℕ)
    → IsSupervised m
    → (env.ends_on_term || env.ends_on_kill) ≡ true
    → env.spawn ≡ some pid
    → truthy (some blocks) ≡ true
    → ((reload env blocks peers m).0 ≡ ok tt)
      × ((reload env blocks peers m).1.manager.block_indices ≡ blocks)
      × ((reload env blocks peers m).1.live
          ≡ record {
            pid = pid;
            cmd =
                build_cmd m.manager.config env.http_only
                  (set_peers peers m.manager).initial_peers
                  blocks
                  m.manager.config.new_swarm;
          }
            ∷ [])
reload_lem env blocks peers m pid h ends spawned given =
    let m0 = with_peers peers m in
    let (passed, config, kept) = stop_ok env m0 ends in
    let m1 : Machine = record (stop env m0).1 {
      manager = forget_bootstrap (stop env m0).1.manager;
    } in
    let gone : m1.live ≡ [] = stop_idle env m0 ends (set_peers-IsSupervised peers m h) in
    let eq =
      reload_stopped env blocks peers m tt passed
      ∙ start_passed env (some blocks) (stop env m0).1.manager.config.new_swarm m1 pid
          (idle_not_running (noted (some blocks) m1) gone) spawned in
    (
      ground (arith, eq),
      ground (arith, eq),
      ap (λ (x : Result (Unit {0}) × Machine). x.1.live) eq
          ∙ cc (
            restart_command env blocks (stop env m0).1.manager given,
            config,
            config-set_peers peers m.manager,
            kept,
            gone,
          ),
    )
