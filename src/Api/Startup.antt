-- ===== src/Api/Startup.antt =====
-- The start of the orchestrator, and the handlers that report: health, hosts and the manifest.
-- The HCS topic is a matter of the payout service's files and is left out, as is the reaper's task.
use blitzwing.Base.{ℕ, Bool, not, ◌&&◌, Option, none, some, List, [], ◌∷◌, if◌then◌else◌}
use blitzwing.Base.Int.{ℤ, pos, eqb_ℤ, ◌-ℤ◌}
use blitzwing.Base.Text.{Text, codes, truthy}
use blitzwing.Base.Exec.{Result, ok, err, ◌>>=◌, ◌>>◌}
use blitzwing.Discovery.{Reply, answer, http_error}
use blitzwing.Registry.Range.{Range}
use blitzwing.Registry.Host.{
  HostRecord, SwarmRegistry, Saved, Role, mother_id, init_registry, set_bootstrap_peers, list_hosts,
  get_host,
}
use blitzwing.Registry.Donor.{max_carveable}
use blitzwing.Swarm.Manifest.{LayerSpan, Verdict, validate_manifest}
use blitzwing.Swarm.Live.{ShardStatus, refresh_live_status}
use blitzwing.Payout.Plan.{Settings}
use blitzwing.Engine.{PetalsEngine, no_peers, load}
use blitzwing.Ens.{PendingOp, verify_host}
use blitzwing.Ens.Passes.{sync_mother_ens, replay_pending, reconcile_registry}
use blitzwing.Api.{ApiSettings, Mother, World, Handler, registry_of, on_registry, on_engine, on_ens}
use blitzwing.Api.Hosts.{reaper_round, sync_mother_shard_blocks}

-- The settings that only the start reads.
pub record StartSettings : Type 0 where
  pub announce_peers : List Text
  pub mother_shard_manager_url : Text
  pub pending_ttl_seconds : ℕ
  pub heartbeat_ttl_seconds : ℕ
  pub load_at_startup : Bool

unfoldable pub start_bootstrap : StartSettings → ApiSettings → SwarmRegistry → SwarmRegistry
unfolding set_bootstrap_peers
start_bootstrap start settings r =
    if not (no_peers start.announce_peers)
    then set_bootstrap_peers start.announce_peers r
    else if not (no_peers settings.initial_peers)
    then set_bootstrap_peers settings.initial_peers r
    else r

-- The mother's name, the queue and the registry's records; an exception ends it and is logged.
unfoldable pub start_ens : ApiSettings → World → Mother → Mother
unfolding get_host sync_mother_ens replay_pending reconcile_registry list_hosts
start_ens settings w m =
    if not settings.base.ens_enabled
    then m
    else ((do
      mother ← on_registry (get_host mother_id)
      on_ens (sync_mother_ens w.env settings.base w.service mother)
      on_ens (replay_pending w.env settings.base w.service)
      on_ens (λ s. reconcile_registry w.env settings.base w.service (list_hosts s.registry) s))
        m).1

-- A load that fails is logged; the first request tries again.
unfoldable pub start_engine : StartSettings → ApiSettings → World → Mother → Mother
unfolding load
start_engine start settings w m =
    if start.load_at_startup && not (no_peers settings.initial_peers)
    then (on_engine (load w.connect) m).1
    else m

-- `lifespan`, up to its yield: `file` is what the last run has saved, `reported` the range that the
-- mother's shard manager reports, `queued` the ENS operations that the last run has left.
unfoldable pub startup :
    StartSettings
    → ApiSettings
    → World
    → Option Saved
    → Option Text
    → PetalsEngine
    → List PendingOp
    → Result Mother
unfolding init_registry start_bootstrap sync_mother_shard_blocks start_ens reaper_round start_engine
startup start settings w file reported engine queued =
    elim (init_registry w.env file settings.model_name settings.base.total_layers
      start.mother_shard_manager_url settings.base.mother_account_id) [
        | err e ↦ err e
        | ok r ↦
            let r' = sync_mother_shard_blocks reported (start_bootstrap start settings r) in
            let m : Mother = record {
              ens = record { registry = r'; pending = queued; verify_cache = [] };
              engine = engine;
              scheduled = 0;
            } in
            ok (
              start_engine start settings w (
                reaper_round w start.pending_ttl_seconds start.heartbeat_ttl_seconds
                  (start_ens settings w m)))
      ]

pub record HealthResponse : Type 0 where
  pub status : Text
  pub model : Text
  pub model_loaded : Bool
  pub initial_peers : List Text
  pub detail : Option Text
  pub max_layers_available : ℤ
  pub total_layers : ℤ
  pub cost_per_layer_tinybars : Option ℤ
  pub x402_enabled : Bool

-- `settings.cost_per_layer_tinybars or None`
abbrev cost_or_none : Settings → Option ℤ
cost_or_none s =
    if eqb_ℤ s.cost_per_layer_tinybars (pos 0) then none else some s.cost_per_layer_tinybars

unfoldable pub health : ApiSettings → Mother → HealthResponse
unfolding max_carveable
health settings m = record {
  status = if m.engine.loaded then codes "ok" else codes "degraded";
  model = settings.model_name;
  model_loaded = m.engine.loaded;
  initial_peers = settings.initial_peers;
  detail = m.engine.load_error;
  max_layers_available = max_carveable (registry_of m);
  total_layers = settings.base.total_layers;
  cost_per_layer_tinybars = cost_or_none settings.base;
  x402_enabled = settings.base.x402_enabled;
}

-- A host of the list, with the verdict on its ENS records if there is one.
abbrev check_named : ApiSettings → World → HostRecord → Handler (Option Bool)
unfolding verify_host
check_named settings w h m =
    if settings.base.ens_enabled && truthy h.ens_name
    then (let (res, m') = on_ens (verify_host settings.base w.service h) m in
        elim res [ err e ↦ (err e, m') | ok b ↦ (ok (some b), m') ])
    else (ok none, m)

unfoldable pub list_each :
    ApiSettings → World → List HostRecord → Handler (List (HostRecord × Option Bool))
unfolding check_named
list_each settings w [] m = (ok [], m)
list_each settings w (h ∷ hs) m =
    let (res, m') = check_named settings w h m in
    elim res [
      | err e ↦ (err e, m')
      | ok verdict ↦
          let (rest, m'') = list_each settings w hs m' in
          elim rest [ err e ↦ (err e, m'') | ok out ↦ (ok ((h, verdict) ∷ out), m'') ]
    ]

-- An EnsClientError is not handled: FastAPI answers 500.
unfoldable pub get_hosts :
    ApiSettings → World → Mother → Reply (List (HostRecord × Option Bool) × ℤ) × Mother
unfolding list_each list_hosts max_carveable
get_hosts settings w m =
    let (res, m') = list_each settings w (list_hosts (registry_of m)) m in
    elim res [
      | err e ↦ (http_error 500, m')
      | ok hosts ↦ (answer (hosts, max_carveable (registry_of m')), m')
    ]

pub record SpanPublic : Type 0 where
  pub host_id : Text
  pub role : Role
  pub block_indices : Range
  pub layers_hosted : ℤ
  pub petals_running : Option Bool

abbrev span_public : LayerSpan → SpanPublic
span_public s = record {
  host_id = s.host_id;
  role = s.role;
  block_indices = s.block_indices;
  layers_hosted = s.block_indices.end -ℤ s.block_indices.start;
  petals_running = s.petals_running;
}

unfoldable pub spans_public : List LayerSpan → List SpanPublic
spans_public [] = []
spans_public (s ∷ ss) = span_public s ∷ spans_public ss

-- The live map with its verdict; an exception of the probes' parse is answered 500.
unfoldable pub swarm_manifest :
    World → (Text → Option ShardStatus) → Mother → Reply (Verdict × List SpanPublic) × Mother
unfolding refresh_live_status validate_manifest spans_public
swarm_manifest w probe m =
    let (res, m') = on_registry (refresh_live_status w.env probe) m in
    elim res [
      | err e ↦ (http_error 500, m')
      | ok manifest ↦ (answer (validate_manifest manifest, spans_public manifest.spans), m')
    ]
