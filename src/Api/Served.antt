-- ===== src/Api/Served.antt =====
-- Requests one after the other, and the rounds of the reaper between them.
use blitzwing.Base.{
  ℕ, ◌≡◌, refl, List, [], ◌∷◌, true, false, inl, inr, Option, none, some, arith, Bool-cases,
}
use blitzwing.Base.Text.{Text, text_eq, is_empty}
use blitzwing.Base.Dict.{lookup}
use blitzwing.Registry.Host.{HostRecord, pending, online, is_mother, get_host}
use blitzwing.Registry.Join.{JoinRequest, join}
use blitzwing.Registry.Leave.{leave, reap_stale, reap_stale_pending}
use blitzwing.Registry.Range.{Range}
use blitzwing.Registry.Reclaim.Kept.Depart.{NonePending}
use blitzwing.Registry.Reclaim.Kept.Silent.{CanReap}
use blitzwing.Registry.Reach.{Sound, Reach-Sound, here, next, joins, gives_up, departs, reaps}
use blitzwing.Swarm.Manifest.{build_manifest, is_complete}
use blitzwing.Swarm.Reached.{build_manifest-IsSound}
use blitzwing.Api.{ApiSettings, Mother, World, registry_of, with_registry}
use blitzwing.Api.Hosts.{
  ReadyRequest, hosts_join, hosts_ready, hosts_leave, hosts_heartbeat, reaper_round, schedule_if,
}
use blitzwing.Swarm.Live.{Report, ShardStatus}
use blitzwing.Api.Startup.{swarm_manifest}
use blitzwing.Api.Chat.{ChatRequest, ChatWorld, chat_completions}
use blitzwing.Api.Probed.{Honest}
use blitzwing.Api.Watched.{swarm_manifest-Sound, chat_completions-Sound}
use blitzwing.Api.Reported.{Confirmed, hosts_heartbeat-Sound}
use blitzwing.Api.Ready.{hosts_ready-Sound}

pub data Request (settings : ApiSettings) (m : Mother) : Mother → Type 0 where
  asks_join :
      (w : World) (model : Text) (req : JoinRequest)
      → lookup w.env.new_id (registry_of m).hosts ≡ none
      → is_empty w.env.new_id ≡ false
      → Request settings m (hosts_join settings w model req m).1
  asks_ready :
      (w : World) (body : ReadyRequest) → Request settings m (hosts_ready settings w body m).1
  asks_leave :
      (w : World) (host_id : Text) (h : HostRecord)
      → lookup host_id (registry_of m).hosts ≡ some h
      → h.status ≡ pending
      → Request settings m (hosts_leave settings w host_id m).1
  asks_departure :
      (w : World) (host_id : Text) (h : HostRecord)
      → lookup host_id (registry_of m).hosts ≡ some h
      → h.status ≡ online
      → is_mother h ≡ false
      → NonePending (registry_of m).hosts
      → ((url : Text) (new : Range) → w.env.reload url new ≡ true)
      → Request settings m (hosts_leave settings w host_id m).1
  asks_heartbeat :
      (w : World) (host_id : Text) (report : Report)
      → Confirmed (registry_of m) host_id report
      → Request settings m (hosts_heartbeat w host_id report m).1
  sweeps :
      (w : World) (pending_ttl heartbeat_ttl : ℕ)
      → CanReap w.env heartbeat_ttl (reap_stale_pending w.env pending_ttl (registry_of m)).1
      → Request settings m (reaper_round w pending_ttl heartbeat_ttl m)
  asks_manifest :
      (w : World) (probe : Text → Option ShardStatus)
      → Honest probe (registry_of m)
      → Request settings m (swarm_manifest w probe m).1
  asks_chat :
      (w : ChatWorld) (req : ChatRequest) (x402_tx_id paid : Option Text)
      → Honest w.out.probe (registry_of m)
      → Request settings m (chat_completions settings w req x402_tx_id paid m).1

pub data Served (settings : ApiSettings) (m : Mother) : Mother → Type 0 where
  idle : Served settings m m
  then_asked : {n o : Mother} → Served settings m n → Request settings n o → Served settings m o

registry-hosts_join :
    (settings : ApiSettings) (w : World) (model : Text) (req : JoinRequest) (m : Mother)
    → text_eq model settings.model_name ≡ true
    → registry_of (hosts_join settings w model req m).1 ≡ (join w.env req (registry_of m)).1
unfolding hosts_join
registry-hosts_join settings w model req m e = ground arith

refused_model :
    (settings : ApiSettings) (w : World) (model : Text) (req : JoinRequest) (m : Mother)
    → text_eq model settings.model_name ≡ false
    → (hosts_join settings w model req m).1 ≡ m
unfolding hosts_join
refused_model settings w model req m e = ground arith

hosts_join-Sound :
    (settings : ApiSettings) (w : World) (model : Text) (req : JoinRequest) (m : Mother)
    → lookup w.env.new_id (registry_of m).hosts ≡ none
    → is_empty w.env.new_id ≡ false
    → Sound (registry_of m)
    → Sound (registry_of (hosts_join settings w model req m).1)
hosts_join-Sound settings w model req m fresh named s =
    elim (Bool-cases (text_eq model settings.model_name)) [
      | inl same ↦
          rw (registry-hosts_join settings w model req m same)
            (Reach-Sound (next here (joins w.env req fresh named)) s).1
      | inr other ↦ rw (refused_model settings w model req m other) s
    ]

registry-hosts_leave :
    (settings : ApiSettings) (w : World) (i : Text) (h : HostRecord) (m : Mother)
    → lookup i (registry_of m).hosts ≡ some h
    → registry_of (hosts_leave settings w i m).1 ≡ (leave w.env i (registry_of m)).1
unfolding hosts_leave get_host
registry-hosts_leave settings w i h m e = ground arith

registry-schedule_if :
    (gone : List Text) (m : Mother) → registry_of (schedule_if gone m) ≡ registry_of m
registry-schedule_if [] m = refl
registry-schedule_if (i ∷ is) m = refl

pub registry-reaper_round :
    (w : World) (pending_ttl heartbeat_ttl : ℕ) (m : Mother)
    → registry_of (reaper_round w pending_ttl heartbeat_ttl m)
      ≡ (reap_stale w.env heartbeat_ttl (reap_stale_pending w.env pending_ttl (registry_of m)).1).1
unfolding reaper_round
registry-reaper_round w pending_ttl heartbeat_ttl m =
    let swept = (reap_stale_pending w.env pending_ttl (registry_of m)).1 in
    let (reaped, r) = reap_stale w.env heartbeat_ttl swept in
    registry-schedule_if reaped (with_registry r m)

Request-Sound :
    {settings : ApiSettings} {m n : Mother}
    → Request settings m n
    → Sound (registry_of m)
    → Sound (registry_of n)
Request-Sound {settings = settings} {m = m} (asks_join w model req fresh named) s =
    hosts_join-Sound settings w model req m fresh named s
Request-Sound {settings = settings} {m = m} (asks_ready w body) s =
    hosts_ready-Sound settings w body m s
Request-Sound {settings = settings} {m = m} (asks_leave w i h found waiting) s =
    rw (registry-hosts_leave settings w i h m found)
      (Reach-Sound (next here (gives_up w.env i h found waiting)) s).1
Request-Sound {settings = settings} {m = m} (asks_departure w i h found up other quiet passes) s =
    rw (registry-hosts_leave settings w i h m found)
      (Reach-Sound (next here (departs w.env i h found up other quiet passes)) s).1
Request-Sound {settings = settings} {m = m} (asks_heartbeat w host_id report confirmed) s =
    hosts_heartbeat-Sound w host_id report m confirmed s
Request-Sound {settings = settings} {m = m} (sweeps w pending_ttl heartbeat_ttl can) s =
    rw (registry-reaper_round w pending_ttl heartbeat_ttl m)
      (Reach-Sound (next here (reaps w.env pending_ttl heartbeat_ttl can)) s).1
Request-Sound {m = m} (asks_manifest w probe honest) s = swarm_manifest-Sound w probe m honest s
Request-Sound {settings = settings} {m = m} (asks_chat w req x402_tx_id paid honest) s =
    chat_completions-Sound settings w req x402_tx_id paid m honest s

Served-Sound :
    {settings : ApiSettings} {m n : Mother}
    → Served settings m n
    → Sound (registry_of m)
    → Sound (registry_of n)
Served-Sound idle s = s
Served-Sound (then_asked before asked) s = Request-Sound asked (Served-Sound before s)

-- After any requests to join, to be ready and to leave while pending, heartbeats, manifests and
-- chats whose reports and probes name the blocks that the registry holds or none that parse, and
-- requests of online hosts to leave and rounds of the reaper while no host is pending and the shard
-- managers take the reloads (a round with no silent host needs neither), from a mother with a sound
-- registry, with any other answers of the shard managers, the DHT and the ENS service, the registry
-- is sound and its manifest complete.
pub manifest_stays_complete :
    {settings : ApiSettings} {m n : Mother}
    → Served settings m n
    → Sound (registry_of m)
    → Sound (registry_of n) × (is_complete (build_manifest (registry_of n)) ≡ true)
manifest_stays_complete {n = n} served s =
    let kept = Served-Sound served s in (kept, build_manifest-IsSound (registry_of n) kept)
