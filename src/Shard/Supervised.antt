-- ===== src/Shard/Supervised.antt =====
-- The processes of a manager: which of them run, under every call and when one ends by itself.
use blitzwing.Base.{
  ℕ, ◌≡◌, refl, ap, ◌∙◌, Bool, true, false, ◌||◌, inl, inr, Option, none, some, List, [], ◌∷◌, ◌==◌,
  arith, Bool-cases, Option-cases,
}
use blitzwing.Base.Text.{Text}
use blitzwing.Base.Exec.{Error, ok, err, runtime_error, os_error, Result-cases}
use blitzwing.Shard.Process.{
  Process, ShardManager, Machine, OsEnv, is_live, remove, is_running, set_blocks, start, stop,
  reload, status, restart, set_peers, command,
}

-- No process runs, or one does and the manager holds it.
pub data IsSupervised (m : Machine) : Type 0 where
  idle : m.live ≡ [] → IsSupervised m
  busy : (p : Process) → m.live ≡ p ∷ [] → m.manager.proc ≡ some p → IsSupervised m

remove_self : (p : Process) → remove p.pid (p ∷ []) ≡ []
unfolding remove
remove_self p = ground arith

live_self : (p : Process) → is_live p.pid (p ∷ []) ≡ true
unfolding is_live
live_self p = ground arith

pub idle_not_running : (m : Machine) → m.live ≡ [] → is_running m ≡ false
unfolding is_live
idle_not_running m e = ground arith

busy_running :
    (m : Machine) (p : Process) → m.live ≡ p ∷ [] → m.manager.proc ≡ some p → is_running m ≡ true
unfolding is_live
busy_running m p e held = rw (held, e) (live_self p)

proc-set_blocks : (blocks : Option Text) (s : ShardManager) → (set_blocks blocks s).proc ≡ s.proc
proc-set_blocks blocks s = ground arith

-- A start on a machine where no server runs, and on one where one does.
abbrev pub noted : Option Text → Machine → Machine
noted blocks m = record m { manager = set_blocks blocks m.manager }

start_refused :
    (env : OsEnv) (blocks : Option Text) (bootstrap : Bool) (m : Machine)
    → is_running (noted blocks m) ≡ true
    → start env blocks bootstrap m ≡ (err runtime_error, noted blocks m)
unfolding start
start_refused env blocks bootstrap m e = ground arith

start_failed :
    (env : OsEnv) (blocks : Option Text) (bootstrap : Bool) (m : Machine)
    → is_running (noted blocks m) ≡ false
    → env.spawn ≡ none
    → start env blocks bootstrap m ≡ (err os_error, noted blocks m)
unfolding start
start_failed env blocks bootstrap m e none_left = ground arith

abbrev pub started : OsEnv → Bool → ℕ → ShardManager → Process
started env bootstrap pid s = record { pid = pid; cmd = command env bootstrap s }

pub start_passed :
    (env : OsEnv) (blocks : Option Text) (bootstrap : Bool) (m : Machine) (pid : ℕ)
    → is_running (noted blocks m) ≡ false
    → env.spawn ≡ some pid
    → start env blocks bootstrap m ≡ (
      ok tt,
      record {
        manager = record (set_blocks blocks m.manager) {
          proc = some (started env bootstrap pid (set_blocks blocks m.manager));
          last_exit_code = none;
          bootstrapped = true;
        };
        live = started env bootstrap pid (set_blocks blocks m.manager) ∷ m.live;
      },
    )
unfolding start
start_passed env blocks bootstrap m pid e spawned = ground arith

idle-start :
    (env : OsEnv) (blocks : Option Text) (bootstrap : Bool) (m : Machine)
    → m.live ≡ []
    → IsSupervised (start env blocks bootstrap m).1
idle-start env blocks bootstrap m e =
    let quiet : is_running (noted blocks m) ≡ false = idle_not_running (noted blocks m) e in
    elim (Option-cases env.spawn) [
      | inl none_left ↦ rw (start_failed env blocks bootstrap m quiet none_left) (idle e)
      | inr (pid, spawned) ↦ rw (start_passed env blocks bootstrap m pid quiet spawned) (
          busy (started env bootstrap pid (set_blocks blocks m.manager))
            (ap (λ ps. started env bootstrap pid (set_blocks blocks m.manager) ∷ ps) e) refl)
    ]

pub start-IsSupervised :
    (env : OsEnv) (blocks : Option Text) (bootstrap : Bool) (m : Machine)
    → IsSupervised m
    → IsSupervised (start env blocks bootstrap m).1
start-IsSupervised env blocks bootstrap m (idle e) = idle-start env blocks bootstrap m e
start-IsSupervised env blocks bootstrap m (busy p e held) =
    let held' : (set_blocks blocks m.manager).proc ≡ some p =
      proc-set_blocks blocks m.manager ∙ held in
    rw (start_refused env blocks bootstrap m (busy_running (noted blocks m) p e held'))
      (busy p e held')

-- If a process ends in time after SIGTERM or SIGKILL, none runs after a stop.
pub stop_idle :
    (env : OsEnv) (m : Machine)
    → (env.ends_on_term || env.ends_on_kill) ≡ true
    → IsSupervised m
    → (stop env m).1.live ≡ []
unfolding stop is_live
stop_idle env m ends (idle e) = ground arith
stop_idle env m ends (busy p e held) = ground (arith, remove_self p, live_self p)

pub stop-IsSupervised :
    (env : OsEnv) (m : Machine)
    → (env.ends_on_term || env.ends_on_kill) ≡ true
    → IsSupervised m
    → IsSupervised (stop env m).1
stop-IsSupervised env m ends h = idle (stop_idle env m ends h)

abbrev pub with_peers : Option (List Text) → Machine → Machine
with_peers peers m = record m { manager = set_peers peers m.manager }

pub reload_stopped :
    (env : OsEnv) (blocks : Text) (peers : Option (List Text)) (m : Machine) (u : Unit {0})
    → (stop env (with_peers peers m)).0 ≡ ok u
    → reload env blocks peers m ≡ restart env blocks (stop env (with_peers peers m)).1
unfolding reload
reload_stopped env blocks peers m u e = ground arith

reload_unstopped :
    (env : OsEnv) (blocks : Text) (peers : Option (List Text)) (m : Machine) (x : Error)
    → (stop env (with_peers peers m)).0 ≡ err x
    → reload env blocks peers m ≡ (err x, (stop env (with_peers peers m)).1)
unfolding reload
reload_unstopped env blocks peers m x e = ground arith

pub set_peers-IsSupervised :
    (peers : Option (List Text)) (m : Machine)
    → IsSupervised m
    → IsSupervised (record m { manager = set_peers peers m.manager })
set_peers-IsSupervised none m h = h
set_peers-IsSupervised (some ps) m (idle e) = idle e
set_peers-IsSupervised (some ps) m (busy p e held) = busy p e held

-- From a supervised machine on which a process ends in time after SIGTERM or SIGKILL, a reload
-- leaves a supervised machine, whether the new process can be started or not.
pub reload-IsSupervised :
    (env : OsEnv) (blocks : Text) (peers : Option (List Text)) (m : Machine)
    → (env.ends_on_term || env.ends_on_kill) ≡ true
    → IsSupervised m
    → IsSupervised (reload env blocks peers m).1
reload-IsSupervised env blocks peers m ends h =
    let m0 = with_peers peers m in
    let quiet = stop_idle env m0 ends (set_peers-IsSupervised peers m h) in
    elim (Result-cases (stop env m0).0) [
      | inl (x, bad) ↦ rw (reload_unstopped env blocks peers m x bad) (idle quiet)
      | inr (u, good) ↦
          rw (reload_stopped env blocks peers m u good)
            (idle-start env (some blocks) (stop env m0).1.manager.config.new_swarm _ quiet)
    ]

-- The calls on a machine, and the end of a process by itself.
pub data Move (m : Machine) : Machine → Type 0 where
  starts :
      (env : OsEnv) (blocks : Option Text) (bootstrap : Bool)
      → Move m (start env blocks bootstrap m).1
  stops : (env : OsEnv) → (env.ends_on_term || env.ends_on_kill) ≡ true → Move m (stop env m).1
  reloads :
      (env : OsEnv) (blocks : Text) (peers : Option (List Text))
      → (env.ends_on_term || env.ends_on_kill) ≡ true
      → Move m (reload env blocks peers m).1
  reports : (env : OsEnv) → Move m (status env m).1
  exits : (pid : ℕ) → Move m (record m { live = remove pid m.live })

pub data Run (m : Machine) : Machine → Type 0 where
  still : Run m m
  moves : {n o : Machine} → Run m n → Move n o → Run m o

live-status : (env : OsEnv) (m : Machine) → (status env m).1.live ≡ m.live
unfolding status
live-status env m = ground arith

proc-status : (env : OsEnv) (m : Machine) → (status env m).1.manager.proc ≡ m.manager.proc
unfolding status
proc-status env m = ground arith

status-IsSupervised : (env : OsEnv) (m : Machine) → IsSupervised m → IsSupervised (status env m).1
status-IsSupervised env m (idle e) = idle (live-status env m ∙ e)
status-IsSupervised env m (busy p e held) =
    busy p (live-status env m ∙ e) (proc-status env m ∙ held)

exit-IsSupervised :
    (pid : ℕ) (m : Machine) → IsSupervised m → IsSupervised (record m { live = remove pid m.live })
unfolding remove
exit-IsSupervised pid m (idle e) = idle (ground arith)
exit-IsSupervised pid m (busy p e held) = elim (Bool-cases (p.pid == pid)) [
  | inl hit ↦ idle (ground arith)
  | inr miss ↦ busy p (ground arith) held
]

Move-IsSupervised : {m n : Machine} → Move m n → IsSupervised m → IsSupervised n
Move-IsSupervised (starts env blocks bootstrap) h = start-IsSupervised env blocks bootstrap _ h
Move-IsSupervised (stops env ends) h = stop-IsSupervised env _ ends h
Move-IsSupervised (reloads env blocks peers ends) h = reload-IsSupervised env blocks peers _ ends h
Move-IsSupervised (reports env) h = status-IsSupervised env _ h
Move-IsSupervised (exits pid) h = exit-IsSupervised pid _ h

-- After any starts, stops, reloads and status reports of a supervised machine, in which processes
-- may end at any time and a stopped one ends in time, at most one process runs, and the manager
-- holds it.
pub Run-IsSupervised : {m n : Machine} → Run m n → IsSupervised m → IsSupervised n
Run-IsSupervised still h = h
Run-IsSupervised (moves r s) h = Move-IsSupervised s (Run-IsSupervised r h)
