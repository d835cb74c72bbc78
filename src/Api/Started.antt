-- ===== src/Api/Started.antt =====
-- The registry that the start of the orchestrator leaves: what each of its steps keeps.
pub mod Alone
pub mod Restored
pub mod Restart
use blitzwing.Base.{
  ◌≡◌, sym, [], Bool, true, false, not, ◌&&◌, inl, inr, Option, none, some, List, arith, Bool-cases,
  Option-cases, if◌then◌else◌,
}
use blitzwing.Base.Text.{Text}
use blitzwing.Base.Dict.{lookup}
use blitzwing.Base.Exec.{Result, ok, err, ◌>>=◌, ◌>>◌, Result-cases}
use blitzwing.Registry.Host.{
  HostRecord, SwarmRegistry, Saved, Env, mother_id, set_ens_name, set_bootstrap_peers,
  init_registry, get_host, list_hosts,
}
use blitzwing.Engine.{PetalsEngine, no_peers}
use blitzwing.Ens.{PendingOp}
use blitzwing.Ens.Passes.{sync_mother_ens, replay_pending, reconcile_registry}
use blitzwing.Ens.Passes.Keeps.{
  replay_pending_keeps, reconcile_registry_keeps, sync_mother_ens_keeps,
}
use blitzwing.Api.{ApiSettings, Mother, World, Handler, registry_of, on_registry, on_ens}
use blitzwing.Api.Hosts.{reaper_round, sync_mother_shard_blocks}
use blitzwing.Api.Startup.{StartSettings, start_bootstrap, start_ens, start_engine, startup}

registry-start_engine :
    (start : StartSettings) (settings : ApiSettings) (w : World) (m : Mother)
    → registry_of (start_engine start settings w m) ≡ registry_of m
unfolding start_engine
registry-start_engine start settings w m =
    elim (Bool-cases (start.load_at_startup && not (no_peers settings.initial_peers))) [
      | inl loads ↦ rw loads
      | inr waits ↦ rw waits
    ]

get_host_state : (i : Text) (r : SwarmRegistry) → (get_host i r).1 ≡ r
unfolding get_host
get_host_state i r = elim (Option-cases (lookup i r.hosts)) [
  | inl unknown ↦ rw (get_host, unknown)
  | inr (h, found) ↦ rw (get_host, found)
]

module _ (P : SwarmRegistry → Type 0)
    (names : (env : Env) (i name : Text) (r : SwarmRegistry)
      → P r
      → P (set_ens_name env i name r).1)
    (boots : (peers : List Text) (r : SwarmRegistry) → P r → P (set_bootstrap_peers peers r))
    (start : StartSettings) (settings : ApiSettings) (w : World) where
  start_bootstrap_keeps : (r : SwarmRegistry) → P r → P (start_bootstrap start settings r)
  unfolding start_bootstrap
  start_bootstrap_keeps r p = elim (Bool-cases (not (no_peers start.announce_peers))) [
    | inl announced ↦ rw announced (boots start.announce_peers r p)
    | inr silent ↦ elim (Bool-cases (not (no_peers settings.initial_peers))) [
      | inl known ↦ rw (silent, known) (boots settings.initial_peers r p)
      | inr unknown ↦ rw (silent, unknown) p
    ]
  ]

  abbrev Preserved : {A : Type 0} → Handler A → Type 0
  Preserved f = (m : Mother) → P (registry_of m) → P (registry_of (f m).1)

  bind_keeps :
      {A B : Type 0} (f : Handler A) (g : A → Handler B)
      → Preserved f
      → ((a : A) → Preserved (g a))
      → Preserved (f >>= g)
  bind_keeps f g kept later m p = elim (Result-cases (f m).0) [
    | inl (x, failed) ↦ rw (failed, ◌>>=◌) (kept m p)
    | inr (a, done) ↦ rw (done, ◌>>=◌) (later a (f m).1 (kept m p))
  ]

  mother_found : Preserved (on_registry (get_host mother_id))
  mother_found m p = rw (get_host_state mother_id (registry_of m)) p

  abbrev replayed : Handler (Unit {0})
  replayed = on_ens (replay_pending w.env settings.base w.service)

  abbrev reconciled : Handler (Unit {0})
  reconciled =
      on_ens (λ s. reconcile_registry w.env settings.base w.service (list_hosts s.registry) s)

  kept_if :
      (b : Bool) (m n : Mother)
      → P (registry_of m)
      → P (registry_of n)
      → P (registry_of (if b then m else n))
  kept_if true m n p q = p
  kept_if false m n p q = q

  abbrev named : HostRecord → Handler (Unit {0})
  named mother = do
    on_ens (sync_mother_ens w.env settings.base w.service mother)
    replayed
    reconciled

  named_keeps : (mother : HostRecord) → Preserved (named mother)
  named_keeps mother =
      bind_keeps (on_ens (sync_mother_ens w.env settings.base w.service mother))
        (λ name. do replayed; reconciled)
        (λ m. sync_mother_ens_keeps P names w.env w.service settings.base mother m.ens)
        (λ name.
          bind_keeps replayed (λ u. reconciled)
            (λ m. replay_pending_keeps P names w.env w.service settings.base m.ens)
            (λ u m.
              reconcile_registry_keeps P names w.env w.service settings.base
                (list_hosts (registry_of m)) m.ens))

  start_ens_keeps : (m : Mother) → P (registry_of m) → P (registry_of (start_ens settings w m))
  unfolding start_ens
  start_ens_keeps m p =
      kept_if (not settings.base.ens_enabled) m ((on_registry (get_host mother_id) >>= named) m).1 p
        (bind_keeps (on_registry (get_host mother_id)) named mother_found named_keeps m p)

  -- The start keeps what its steps keep, and ends with what the reaper leaves.
  pub startup_keeps :
      (file : Option Saved) (reported : Option Text) (engine : PetalsEngine)
      (queued : List PendingOp) (Q : SwarmRegistry → Type 0) (r : SwarmRegistry) {m : Mother}
      → ((r : SwarmRegistry) → P r → P (sync_mother_shard_blocks reported r))
      → ((m : Mother)
          → P (registry_of m)
          → Q (
              registry_of (reaper_round w start.pending_ttl_seconds start.heartbeat_ttl_seconds m)))
      → init_registry w.env file settings.model_name settings.base.total_layers
          start.mother_shard_manager_url settings.base.mother_account_id
        ≡ ok r
      → startup start settings w file reported engine queued ≡ ok m
      → P r
      → Q (registry_of m)
  unfolding startup
  startup_keeps file reported engine queued Q r {m} syncs reaps read started p =
      let synced = sync_mother_shard_blocks reported (start_bootstrap start settings r) in
      let fresh : Mother = record {
        ens = record { registry = synced; pending = queued; verify_cache = [] };
        engine = engine;
        scheduled = 0;
      } in
      let swept =
        reaper_round w start.pending_ttl_seconds start.heartbeat_ttl_seconds
          (start_ens settings w fresh) in
      let is_m : start_engine start settings w swept ≡ m = ground (arith, read, started) in
      rw (sym is_m, registry-start_engine start settings w swept)
        (reaps (start_ens settings w fresh)
          (start_ens_keeps fresh (syncs _ (start_bootstrap_keeps r p))))
