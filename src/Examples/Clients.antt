-- ===== src/Examples/Clients.antt =====
-- A contributor's Petals client whose server has been started three times.
use blitzwing.Base.{◌++◌, ◌≡◌, refl, true, false, none, some, List, [], ◌∷◌, ◌⊎◌}
use blitzwing.Base.Int.{pos}
use blitzwing.Base.Text.{Text, codes, member}
use blitzwing.Base.Exec.{ok, lift, ◌>>◌}
use mathlib.Core.Option
use blitzwing.Contributor.{
  ContributorInference, LoadEnv, ManifestHost, any_loopback, init_client, wants_peer,
  peers_from_manifest, apply_swarm_manifest, wait_until_routable, load_or_wait, ensure_loaded,
}
use blitzwing.Contributor.Log.{
  all_alnum, behind, last_id, until_quote, match_at, find_ids, last, loopback_peer,
  local_peer_from_log,
}
use blitzwing.Contributor.LogLaws.{lacks, lacks_marker}
use blitzwing.Contributor.Restarts.{
  Start, one_address, more_addresses, AllStarts, log_of, ids_of, local_peer_from_log-log_of,
}
use blitzwing.Contributor.Routable.{WasRoutable}
use blitzwing.Contributor.Loaded.{IsConnected, ensure_loaded_lem}
use blitzwing.Contributor.Again.{generate_again}
use blitzwing.Contributor.Generate.{
  GenerateEnv, reroute, run_model, generate, get_contributor_inference, warm_contributor_inference,
}
use blitzwing.Contributor.Shared.{warmed_client_takes_own_address}

abbrev first_start : Start
first_start = one_address b'/' (codes "ip4/1.2.3.4") (codes "Qa") (codes "\n[INFO] Running again ")

abbrev second_start : Start
second_start = one_address b'/' (codes "ip4/1.2.3.4") (codes "Qb7") (codes "\n")

-- A start that prints two addresses.
abbrev third_start : Start
third_start = more_addresses (codes "/ip4/1.2.3.4/p2p/Qc") (codes " '/ip4/10.0.0.1/p2p/Qc']\n")

abbrev boot : Text
boot = codes "Reporting throughput "

abbrev starts : List Start
starts = first_start ∷ second_start ∷ third_start ∷ []

abbrev log : Text
log = boot ++ log_of starts

starts-good : AllStarts starts
unfolding lacks lacks_marker all_alnum
starts-good = ((refl, refl, refl, refl), ((refl, refl, refl, refl), ((refl, refl), tt)))

local_peer_from_log-log_of_example :
    local_peer_from_log (some log) (pos 31338)
    ≡ Option.map (loopback_peer (pos 31338)) (last (ids_of starts))
unfolding lacks_marker
local_peer_from_log-log_of_example =
    local_peer_from_log-log_of boot starts (pos 31338) refl starts-good

-- The third start is passed over.
local_peer_test :
    local_peer_from_log (some log) (pos 31338) ≡ some (codes "/ip4/127.0.0.1/tcp/31338/p2p/Qb7")
unfolding local_peer_from_log log_of find_ids last match_at behind until_quote last_id
local_peer_test = refl

abbrev client : ContributorInference
client = init_client none (codes "m") (codes "/ip4/9.9.9.9/tcp/1/p2p/M" ∷ []) (pos 31338) none none

abbrev hosts : List ManifestHost
hosts =
    record {
      peer_multiaddr = some (codes "/ip4/9.9.9.9/tcp/1/p2p/M");
      block_indices = some (codes "0:4");
    }
    ∷ record {
      peer_multiaddr = some (codes "/ip4/8.8.8.8/tcp/1/p2p/N");
      block_indices = some (codes "4:6");
    }
    ∷ []

-- The log is there at the second reading, and the route at the second poll.
abbrev load : LoadEnv
load = record {
  log_tries = none ∷ some log ∷ [];
  tokenizer_loads = true;
  connects = λ peers. true;
  polls = some ((codes "s" ∷ []) ∷ [] ∷ []) ∷ some ((codes "s" ∷ []) ∷ (codes "t" ∷ []) ∷ []) ∷ [];
}

client-IsConnected : IsConnected client
unfolding init_client
client-IsConnected = record {
  made_with = λ peers e. cc;
  has_local = λ e. cc;
  loaded_if_ready = λ e. cc;
}

load-passes : (ensure_loaded load (some hosts) client).0 ≡ ok tt
unfolding ensure_loaded apply_swarm_manifest load_or_wait wait_until_routable log_of find_ids last
    match_at behind until_quote last_id init_client wants_peer
load-passes = refl

ensure_loaded_lem_example :
    ((ensure_loaded load (some hosts) client).1.model
      ≡ some (ensure_loaded load (some hosts) client).1.initial_peers)
    × (any_loopback (ensure_loaded load (some hosts) client).1.initial_peers ≡ true)
    × ((ensure_loaded load (some hosts) client).1.ready ≡ true)
    × (((apply_swarm_manifest (some hosts) client).ready ≡ true) ⊎ WasRoutable load.polls)
ensure_loaded_lem_example =
    ensure_loaded_lem load (some hosts) client client-IsConnected load-passes

-- The second load finds no log, no tokenizer and no route.
abbrev no_load : LoadEnv
no_load = record { log_tries = []; tokenizer_loads = false; connects = λ peers. false; polls = [] }

hosts-remote : any_loopback (peers_from_manifest client hosts) ≡ false
unfolding any_loopback peers_from_manifest init_client wants_peer
hosts-remote = refl

abbrev again : GenerateEnv
again = record {
  load = no_load;
  seen = some ((codes "s" ∷ []) ∷ (codes "t" ∷ []) ∷ []);
  refresh = [];
  template = λ messages. none;
  count_tokens = λ prompt. 3;
  run = λ prompt limit. ok (codes "hi", 1);
}

generate_again_example :
    generate again [] (pos 8) (some hosts) (ensure_loaded load (some hosts) client).1
    ≡ (reroute again >> lift (run_model again [] (pos 8)))
        (ensure_loaded load (some hosts) client).1
generate_again_example =
    generate_again load again [] (pos 8) hosts client client-IsConnected hosts-remote load-passes

abbrev own_host : ManifestHost
own_host = record {
  peer_multiaddr = some (codes "/ip4/8.8.8.8/tcp/1/p2p/N");
  block_indices = some (codes "4:6");
}

warmed_client_takes_own_address_example :
    member (codes "/ip4/8.8.8.8/tcp/1/p2p/N") (
      peers_from_manifest
        (get_contributor_inference none
          (codes "m")
          []
          (pos 31338)
          none
          (some (codes "4:6"))
          (warm_contributor_inference no_load none (codes "m") [] (pos 31338) none none)).0
        (own_host ∷ []))
    ≡ true
warmed_client_takes_own_address_example =
    warmed_client_takes_own_address no_load none (codes "m") [] (pos 31338) none [] [] own_host
      (codes "4:6") refl refl
