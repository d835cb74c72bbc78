-- ===== src/Examples/Gates.antt =====
-- Requests to a mother of six layers, a paid chat, a stream, and the ENS client's queue.
use blitzwing.Base.{◌≡◌, ◌≢◌, refl, ap, ◌∙◌, true, false, Option, none, some, [], ◌∷◌}
use blitzwing.Base.Int.{pos}
use blitzwing.Base.Text.{Text, codes, text_eq, or_empty}
use blitzwing.Registry.Range.{Range, parse_range}
use blitzwing.Base.Exec.{ok}
use blitzwing.Base.Dict.{lookup}
use blitzwing.Discovery.{Reply, answer, http_error}
use blitzwing.Registry.Host.{SwarmRegistry}
use blitzwing.Registry.Join.{join}
use blitzwing.Registry.Ready.{mark_ready}
use blitzwing.Registry.Reach.{Sound}
use blitzwing.Swarm.Manifest.{build_manifest, is_complete}
use blitzwing.Payout.Plan.{Settings}
use blitzwing.Payout.Redistribute.{PayoutReceipt}
use blitzwing.Engine.{PetalsEngine, completed}
use blitzwing.Ens.{EnsService, EnsState, update_op, provision_op, unreachable, replied}
use blitzwing.Ens.Passes.{replay_pending}
use blitzwing.Ens.Queue.{updates_of, replay_pending_keeps_updates}
use blitzwing.Api.{ApiSettings, Mother, World, registry_of}
use blitzwing.Api.Hosts.{ReadyRequest, hosts_join, hosts_ready}
use blitzwing.Api.Ready.{hosts_ready-Sound}
use blitzwing.Api.Served.{
  idle, then_asked, asks_join, asks_ready, asks_manifest, manifest_stays_complete,
}
use blitzwing.Api.Startup.{swarm_manifest}
use blitzwing.Api.Probed.{Honest}
use blitzwing.Swarm.Live.{ShardStatus}
use blitzwing.Api.Chat.{
  ChatRequest, ChatWorld, ChatResponse, chat_completions, run_payout, is_paid, paid_stream,
}
use blitzwing.Api.Chat.Paid.{chat_completions_pays}
use blitzwing.Api.Stream.{
  done, failed, text_of, reasons_of, done_lines, ends_done, produce, stream_sse, stream_sse_lem,
}
use blitzwing.Examples.Hosts.{env, fresh, fresh-IsSound, request, joined, joined-IsSound, ready}

abbrev pub base : Settings
base = record {
  total_layers = pos 6;
  cost_per_layer_tinybars = pos 5;
  x402_enabled = true;
  mother_account_id = some (codes "0.0.2");
  mother_private_key = some (codes "key");
  hcs_topic_id = none;
  escrow_contract_id = none;
  escrow_evm_address = none;
  ens_enabled = true;
  ens_strict = false;
}

abbrev pub settings : ApiSettings
settings = record {
  base = base;
  model_name = codes "m";
  initial_peers = codes "/p" ∷ [];
  skip_ready_verify = false;
}

-- The service names a host, and no update passes.
abbrev pub service : EnsService
service = record {
  now = 20;
  provision = λ h. replied 200 (codes "h.blitzwing.eth");
  update = λ name h. unreachable;
  deactivate = λ name. unreachable;
  resolve = λ name. replied 404 none;
}

abbrev pub world : World
world = record {
  env = env;
  reach = record { shard_status = λ url. none; connects = λ host port. false };
  connect = λ peers. none;
  polls = some (λ k. true) ∷ [];
  service = service;
}

abbrev pub engine : PetalsEngine
engine = record {
  settings = record {
    initial_peers = codes "/p" ∷ [];
    default_max_tokens = pos 256;
    hard_max_tokens = pos 512;
  };
  extra_peers = [];
  loaded = true;
  load_error = none;
}

abbrev pub mother_at : SwarmRegistry → Mother
mother_at r = record {
  ens = record { registry = r; pending = []; verify_cache = [] };
  engine = engine;
  scheduled = 0;
}

abbrev ready_body : ReadyRequest
ready_body = record {
  host_id = codes "host-1";
  peer_multiaddr = some (codes "/ip4/1.2.3.4/tcp/1/p2p/Q");
}

-- The precheck fails, and the blocks are found at the first poll.
hosts_ready-Sound_example :
    Sound (registry_of (hosts_ready settings world ready_body (mother_at joined)).1)
hosts_ready-Sound_example =
    hosts_ready-Sound settings world ready_body (mother_at joined) joined-IsSound

abbrev asked : Mother
asked = (hosts_join settings world (codes "m") request (mother_at fresh)).1

-- A shard manager that runs and reports no blocks.
abbrev starting_up : Text → Option ShardStatus
starting_up url = some (record { block_indices = none; running = true })

unparsed : (b : Range) → parse_range (codes "") ≢ ok b
unfolding parse_range
unparsed b e = cc e

starting_up-Honest : (r : SwarmRegistry) → Honest starting_up r
starting_up-Honest r h status b found answered parsed =
    let blank : none ≡ status.block_indices =
      ap (λ o. elim o [ none ↦ status.block_indices | some s ↦ s.block_indices ]) answered in
    absurd (unparsed b (ap (λ x. parse_range (or_empty x)) blank ∙ parsed))

abbrev watched : Mother
watched = (swarm_manifest world starting_up asked).1

manifest_stays_complete_example :
    Sound (registry_of (hosts_ready settings world ready_body watched).1)
    × (is_complete (build_manifest (registry_of (hosts_ready settings world ready_body watched).1))
        ≡ true)
unfolding lookup text_eq
manifest_stays_complete_example =
    manifest_stays_complete {settings = settings} {m = mother_at fresh}
      (then_asked {n = watched}
        (then_asked {n = asked}
          (then_asked {n = mother_at fresh} idle (asks_join world (codes "m") request refl refl))
          (asks_manifest world starting_up (starting_up-Honest (registry_of asked))))
        (asks_ready world ready_body))
      fresh-IsSound

stream_sse_lem_example :
    (text_of (stream_sse (produce (codes "a" ∷ codes "b" ∷ []) (done none))) ≡ codes "ab")
    × (reasons_of (stream_sse (produce (codes "a" ∷ codes "b" ∷ []) (done none)))
        ≡ codes "stop" ∷ [])
    × (done_lines (stream_sse (produce (codes "a" ∷ codes "b" ∷ []) (done none))) ≡ 1)
    × (ends_done (stream_sse (produce (codes "a" ∷ codes "b" ∷ []) (done none))) ≡ true)
stream_sse_lem_example = stream_sse_lem (codes "a" ∷ codes "b" ∷ []) none

abbrev queued : EnsState
queued = record {
  registry = joined;
  pending =
      record { action = update_op; host_id = codes "host-1"; ens_name = some (codes "h") }
      ∷ record { action = provision_op; host_id = codes "host-1"; ens_name = none }
      ∷ [];
  verify_cache = [];
}

replay_pending_keeps_updates_example :
    updates_of (replay_pending env base service queued).1.pending ≡ updates_of queued.pending
replay_pending_keeps_updates_example = replay_pending_keeps_updates env base service queued

-- The provision is done and taken out of the queue.
replay_test :
    (replay_pending env base service queued).1.pending
    ≡ record { action = update_op; host_id = codes "host-1"; ens_name = some (codes "h") } ∷ []
unfolding replay_pending join text_eq
replay_test = refl

abbrev chat_world : ChatWorld
chat_world = record {
  env = env;
  out = record {
    probe = λ url. none;
    connect = λ peers. none;
    reconnect = λ peers. none;
    run = λ cap. completed (codes "hi") 3 4;
    rerun = λ cap. completed (codes "hi") 3 4;
    contributor = λ c manifest. some (record {
      text = codes "hi";
      prompt_tokens = 3;
      completion_tokens = 4;
      finish_reason = codes "stop";
    });
  };
  in_time = true;
  net = record {
    verify_host = λ h. true;
    transfer = λ ts. some (codes "tx");
    release = λ id rows. none;
    topic = none;
    audit = none;
  };
  completion_id = codes "c1";
}

abbrev chat : ChatRequest
chat = record { model = codes "m"; messages = 1; max_tokens = none }

abbrev chatted : Reply ChatResponse × Mother
chatted = chat_completions settings chat_world chat none (some (codes "1")) (mother_at ready)

abbrev receipt : PayoutReceipt
receipt = record {
  request_id = codes "c1";
  x402_tx_id = none;
  payout_tx_id = some (codes "tx");
  hcs_topic_id = none;
  hcs_sequence = none;
  cost_per_layer_tinybars = pos 5;
  total_tinybars = pos 10;
  hosts =
      record {
        host_id = codes "host-1";
        hedera_account_id = codes "0.0.12";
        layers = pos 2;
        amount_tinybars = pos 10;
        ens_name = none;
      }
      ∷ [];
}

abbrev response : ChatResponse
response = record {
  content = codes "hi";
  finish_reason = codes "stop";
  prompt_tokens = 3;
  completion_tokens = 4;
  total_tokens = 7;
  blitzwing_payment = some receipt;
}

chatted-eq : chatted.0 ≡ answer response
unfolding chat_completions join mark_ready text_eq
chatted-eq = refl

chat_completions_pays_example :
    (base.x402_enabled ≡ true)
    × (is_paid (some (codes "1")) ≡ true)
    × (run_payout base chat_world.net (codes "c1") none (registry_of chatted.1) ≡ ok (some receipt))
chat_completions_pays_example =
    chat_completions_pays settings chat_world chat none (some (codes "1")) (mother_at ready)
      response receipt chatted-eq refl

-- A request with no header is refused.
chat_test :
    (chat_completions settings chat_world chat none none (mother_at ready)).0 ≡ http_error 403
unfolding chat_completions
chat_test = refl

-- The hosts are paid after a stream that failed.
paid_stream_test :
    (paid_stream settings chat_world none
      (some (codes "1"))
      (failed (codes "no route") ∷ [])
      ready).1
    ≡ some receipt
unfolding paid_stream join mark_ready text_eq
paid_stream_test = refl
