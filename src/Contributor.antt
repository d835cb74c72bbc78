-- ===== src/Contributor.antt =====
-- `ContributorInference` of shard_manager/inference.py: the Petals client of a contributor, with its
-- peers, its load, the wait for a route and a generation. The Petals library, the tokenizer and the
-- log of the local server are parameters: what a load, a poll of the DHT, a run and a reading give.
pub mod Log
pub mod Generate
pub mod Peers
pub mod Again
pub mod Routable
pub mod Loaded
pub mod LogLaws
pub mod Restarts
pub mod Shared
use blitzwing.Base.{
  ℕ, ◌+◌, Bool, true, false, not, ◌&&◌, ◌||◌, Option, none, some, List, [], ◌∷◌, ◌++◌, leb, is_some,
  if◌then◌else◌,
}
use blitzwing.Base.Int.{ℤ, pos, min_ℤ, max_ℤ, leb_ℤ}
use blitzwing.Base.Text.{Text, codes, text_eq, contains, is_empty, truthy, or_empty, member}
use blitzwing.Base.Exec.{Result, ok, err, runtime_error, timed_out, other_error, Exec, ◌>>=◌, ◌>>◌}
use blitzwing.Registry.Host.{keep}
use blitzwing.Contributor.Log.{local_peer_from_log, resolve_local_peer}

-- `model`: the peers that the loaded Petals client was made with. The tokenizer is set just before
-- the model and dropped with it, and is read only where the model is there.
pub record ContributorInference : Type 0 where
  pub model_name : Text
  pub local_port : ℤ
  pub log_path : Option Text
  pub local_block_indices : Option Text
  pub initial_peers : List Text
  pub model : Option (List Text)
  pub ready : Bool

-- `"/127.0.0.1/" in p`
abbrev pub is_loopback : Text → Bool
unfolding contains
is_loopback = contains (codes "/127.0.0.1/")

abbrev pub is_remote : Text → Bool
unfolding is_loopback
is_remote p = not (is_empty p) && not (is_loopback p)

-- `_build_peers`, given the local peer that the log shows
unfoldable pub build_peers : List Text → Option Text → List Text
unfolding keep is_remote member
build_peers initial_peers local_peer =
    let peers = keep is_remote initial_peers in
    if truthy local_peer && not (member (or_empty local_peer) peers)
    then or_empty local_peer ∷ peers
    else peers

-- `__init__`, given the text of the log
unfoldable pub init_client :
    Option Text → Text → List Text → ℤ → Option Text → Option Text → ContributorInference
unfolding build_peers local_peer_from_log
init_client log model_name initial_peers local_port log_path local_block_indices = record {
  model_name = model_name;
  local_port = local_port;
  log_path = log_path;
  local_block_indices = local_block_indices;
  initial_peers = build_peers initial_peers (local_peer_from_log log local_port);
  model = none;
  ready = false;
}

-- The blocks, counted from `k`, that no server holds; `spans` are the servers of each block.
unfoldable pub missing_from : ℕ → List (List Text) → List ℕ
missing_from k [] = []
missing_from k ([] ∷ spans) = k ∷ missing_from (k + 1) spans
missing_from k ((s ∷ ss) ∷ spans) = missing_from (k + 1) spans

-- `_missing_blocks`; with no sequence manager on the model there are no spans.
unfoldable pub missing_blocks_of : Option (List (List Text)) → Result (List ℕ)
unfolding missing_from
missing_blocks_of none = err runtime_error
missing_blocks_of (some spans) = ok (missing_from 0 spans)

-- `_wait_until_routable`: what the sequence manager shows after each update before the deadline; an
-- update that raises is logged, and the spans are then those of before.
unfoldable pub wait_until_routable :
    List (Option (List (List Text))) → Exec ContributorInference (Unit {0})
unfolding missing_blocks_of
wait_until_routable [] c = (err timed_out, c)
wait_until_routable (seen ∷ polls) c = elim (missing_blocks_of seen) [
  | err e ↦ (err e, c)
  | ok [] ↦ (ok tt, record c { ready = true })
  | ok (k ∷ ks) ↦ wait_until_routable polls c
]

-- A host of the mother's manifest, as the dict that the request carries.
pub record ManifestHost : Type 0 where
  pub peer_multiaddr : Option Text
  pub block_indices : Option Text

-- `local_blocks and blocks == local_blocks`
abbrev pub is_own_range : Option Text → Option Text → Bool
unfolding text_eq
is_own_range none blocks = false
is_own_range (some own) none = false
is_own_range (some own) (some blocks) = not (is_empty own) && text_eq blocks own

unfoldable pub wants_peer : Option Text → List Text → ManifestHost → Bool
unfolding is_own_range member
wants_peer own peers h =
    truthy h.peer_multiaddr
    && not (is_own_range own h.block_indices)
    && not (member (or_empty h.peer_multiaddr) peers)

unfoldable pub add_hosts : Option Text → List Text → List ManifestHost → List Text
add_hosts own peers [] = peers
add_hosts own peers (h ∷ hs) =
    add_hosts own
      (if wants_peer own peers h then peers ++ or_empty h.peer_multiaddr ∷ [] else peers) hs

unfoldable pub peers_from_manifest : ContributorInference → List ManifestHost → List Text
unfolding add_hosts
peers_from_manifest c hosts = add_hosts c.local_block_indices [] hosts

-- next((p for p in peers if "/127.0.0.1/" in p), None)
unfoldable pub first_loopback : List Text → Option Text
unfolding is_loopback
first_loopback [] = none
first_loopback (p ∷ ps) = let rest = first_loopback ps in if is_loopback p then some p else rest

unfoldable pub merge_local : Option Text → List Text → List Text
unfolding member
merge_local none peers = peers
merge_local (some p) peers = if not (is_empty p) && not (member p peers) then p ∷ peers else peers

-- peers == other peers
unfoldable pub same_peers : List Text → List Text → Bool
unfolding text_eq
same_peers [] [] = true
same_peers (p ∷ ps) (q ∷ qs) = text_eq p q && same_peers ps qs
same_peers _ _ = false

abbrev pub replace_peers : List Text → ContributorInference → ContributorInference
unfolding same_peers
replace_peers merged c =
    if same_peers merged c.initial_peers
    then c
    else record c { initial_peers = merged; model = none; ready = c.ready && not (is_some c.model) }

-- `_apply_swarm_manifest`: other peers drop the loaded model.
unfoldable pub apply_swarm_manifest :
    Option (List ManifestHost) → ContributorInference → ContributorInference
unfolding peers_from_manifest first_loopback merge_local replace_peers
apply_swarm_manifest none c = c
apply_swarm_manifest (some hosts) c = elim (peers_from_manifest c hosts) [
  | [] ↦ c
  | p ∷ ps ↦ replace_peers (merge_local (first_loopback c.initial_peers) (p ∷ ps)) c
]

-- What a load finds: the readings of the log, whether the tokenizer loads and whether Petals connects
-- with the peers, and the polls of the DHT.
pub record LoadEnv : Type 0 where
  pub log_tries : List (Option Text)
  pub tokenizer_loads : Bool
  pub connects : List Text → Bool
  pub polls : List (Option (List (List Text)))

unfoldable pub any_loopback : List Text → Bool
unfolding is_loopback
any_loopback [] = false
any_loopback (p ∷ ps) = is_loopback p || any_loopback ps

-- The load of the tokenizer and the model, and the wait for a route.
unfoldable pub connect : LoadEnv → Exec ContributorInference (Unit {0})
unfolding any_loopback wait_until_routable
connect env c =
    if not (any_loopback c.initial_peers)
    then (err runtime_error, c)
    else if not (env.tokenizer_loads && env.connects c.initial_peers)
    then (err other_error, c)
    else wait_until_routable env.polls (record c { model = some c.initial_peers })

abbrev pub find_local : LoadEnv → ContributorInference → ContributorInference
unfolding build_peers resolve_local_peer
find_local env c = record c {
  initial_peers = build_peers c.initial_peers (resolve_local_peer env.log_tries c.local_port);
}

unfoldable pub load_by : Option (List Text) → LoadEnv → Exec ContributorInference (Unit {0})
unfolding find_local connect wait_until_routable
load_by none env c = connect env (find_local env c)
load_by (some m) env c = if c.ready then (ok tt, c) else wait_until_routable env.polls c

-- `_ensure_loaded` after the manifest; the test of empty peers raises the same error as the next.
unfoldable pub load_or_wait : LoadEnv → Exec ContributorInference (Unit {0})
unfolding load_by
load_or_wait env c = load_by c.model env c

unfoldable pub ensure_loaded :
    LoadEnv → Option (List ManifestHost) → Exec ContributorInference (Unit {0})
unfolding apply_swarm_manifest load_or_wait
ensure_loaded env manifest c = load_or_wait env (apply_swarm_manifest manifest c)

unfoldable pub warm_up : LoadEnv → Exec ContributorInference (Unit {0})
unfolding ensure_loaded
warm_up env = ensure_loaded env none
