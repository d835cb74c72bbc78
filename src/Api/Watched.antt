-- ===== src/Api/Watched.antt =====
-- The registry after a manifest or a chat: `swarm_manifest` and `chat_completions` of
-- orchestrator/app/main.py, and `PetalsEngine.generate` of orchestrator/app/engine.py.
use blitzwing.Base.{◌≡◌, refl, inl, inr, Option, Bool-cases, Option-cases}
use blitzwing.Base.Text.{Text}
use blitzwing.Base.Exec.{Result-cases}
use blitzwing.Registry.Host.{Env}
use blitzwing.Registry.Reach.{Sound}
use blitzwing.Swarm.Live.{ShardStatus, refresh_live_status}
use blitzwing.Api.{Mother, World, registry_of}
use blitzwing.Api.Startup.{swarm_manifest}
use blitzwing.Base.Int.{ℤ}
use blitzwing.Swarm.Manifest.{SwarmManifest, engine_peers, pick_http_inference_host}
use blitzwing.Engine.{EngineEnv, Orchestrator, set_peers, serve_manifest, generate}
use blitzwing.Api.Chat.{
  ChatRequest, ChatWorld, may_chat, ensure_model_or_400, run_engine, chat_completions,
}
use blitzwing.Api.{ApiSettings}
use blitzwing.Api.Probed.{Honest, refresh_live_status-Sound}

-- The manifest: the registry of the probes, whatever is answered.
pub swarm_manifest-Sound :
    (w : World) (probe : Text → Option ShardStatus) (m : Mother)
    → Honest probe (registry_of m)
    → Sound (registry_of m)
    → Sound (registry_of (swarm_manifest w probe m).1)
unfolding swarm_manifest
swarm_manifest-Sound w probe m honest s =
    let kept = refresh_live_status-Sound w.env probe (registry_of m) honest s in
    elim (Result-cases (refresh_live_status w.env probe (registry_of m)).0) [
      | inl (e, failed) ↦ rw (swarm_manifest, failed) kept
      | inr (manifest, done) ↦ rw (swarm_manifest, done) kept
    ]

serve_manifest-registry :
    (out : EngineEnv) (max_tokens : Option ℤ) (manifest : SwarmManifest) (o : Orchestrator)
    → (serve_manifest out max_tokens manifest o).1.registry ≡ o.registry
unfolding serve_manifest
serve_manifest-registry out max_tokens manifest o =
    elim (Option-cases (pick_http_inference_host manifest)) [
      | inl none_public ↦ rw (serve_manifest, none_public) refl
      | inr (c, tail) ↦ rw (serve_manifest, tail) refl
    ]

-- A generation leaves the registry that its probes leave.
generate-registry :
    (env : Env) (out : EngineEnv) (max_tokens : Option ℤ) (o : Orchestrator)
    → (generate env out max_tokens o).1.registry ≡ (refresh_live_status env out.probe o.registry).1
unfolding generate
generate-registry env out max_tokens o =
    let r' = (refresh_live_status env out.probe o.registry).1 in
    elim (Result-cases (refresh_live_status env out.probe o.registry).0) [
      | inl (e, failed) ↦ rw (generate, failed) refl
      | inr (manifest, done) ↦
          rw (generate, done)
            (serve_manifest-registry out max_tokens manifest
              (record { registry = r'; engine = set_peers (engine_peers r') o.engine }))
    ]

-- A chat that is refused leaves the registry, and any other the one of its probes.
pub chat_completions-Sound :
    (settings : ApiSettings) (w : ChatWorld) (req : ChatRequest) (x402_tx_id paid : Option Text)
    (m : Mother)
    → Honest w.out.probe (registry_of m)
    → Sound (registry_of m)
    → Sound (registry_of (chat_completions settings w req x402_tx_id paid m).1)
unfolding chat_completions run_engine
chat_completions-Sound settings w req x402_tx_id paid m honest s =
    elim (Bool-cases (may_chat settings.base paid)) [
      | inr refused ↦ rw (chat_completions, refused) s
      | inl allowed ↦ elim (Result-cases (ensure_model_or_400 settings req)) [
        | inl (e, bad) ↦ rw (chat_completions, allowed, bad) s
        | inr (_, good) ↦
            let start : Orchestrator = record { registry = registry_of m; engine = m.engine } in
            rw (chat_completions, allowed, good, generate-registry w.env w.out req.max_tokens start)
              (refresh_live_status-Sound w.env w.out.probe (registry_of m) honest s)
      ]
    ]
