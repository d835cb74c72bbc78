-- ===== src/Api.antt =====
-- The HTTP handlers of orchestrator/app/main.py. The state is the registry with the ENS client's
-- queue and cache, and the engine. A handler that raises HTTPException answers with its code; the
-- texts of the details are not modelled.
pub mod Hosts
pub mod Chat
pub mod Stream
pub mod Kept
pub mod Safe
pub mod Ready
pub mod Reported
pub mod Probed
pub mod Watched
pub mod Served
pub mod Startup
pub mod Started
use blitzwing.Base.{ℕ, ◌+◌, Bool, List}
use blitzwing.Base.Text.{Text}
use blitzwing.Base.Exec.{Result, Exec}
use blitzwing.Registry.Host.{SwarmRegistry, Env, Action}
use blitzwing.Payout.Plan.{Settings}
use blitzwing.Peer.{Reachability}
use blitzwing.Visible.{Poll}
use blitzwing.Engine.{PetalsEngine, Connect}
use blitzwing.Ens.{EnsState, EnsService}

-- The settings that the handlers read beside those of payouts.
pub record ApiSettings : Type 0 where
  pub base : Settings
  pub model_name : Text
  pub initial_peers : List Text
  pub skip_ready_verify : Bool

-- `scheduled` counts the background reloads that `schedule_reload` has started a thread for.
pub record Mother : Type 0 where
  pub ens : EnsState
  pub engine : PetalsEngine
  pub scheduled : ℕ

-- What a request finds around it: the registry's surroundings, the network, the connection of the
-- Petals client, the polls of the DHT and the ENS service.
pub record World : Type 0 where
  pub env : Env
  pub reach : Reachability
  pub connect : Connect
  pub polls : List Poll
  pub service : EnsService

abbrev pub Handler : Type 0 → Type 0
Handler A = Exec Mother A

abbrev pub registry_of : Mother → SwarmRegistry
registry_of m = m.ens.registry

abbrev pub with_registry : SwarmRegistry → Mother → Mother
with_registry r m = record m { ens = record m.ens { registry = r } }

module _ {A : Type 0} where
  abbrev pub on_registry : Action A → Handler A
  on_registry f m = let (res, r) = f (registry_of m) in (res, with_registry r m)

  abbrev pub on_engine : Exec PetalsEngine A → Handler A
  on_engine f m = let (res, e) = f m.engine in (res, record m { engine = e })

  abbrev pub on_ens : Exec EnsState A → Handler A
  on_ens f m = let (res, s) = f m.ens in (res, record m { ens = s })

abbrev pub schedule : Mother → Mother
schedule m = record m { scheduled = m.scheduled + 1 }
