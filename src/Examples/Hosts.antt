-- ===== src/Examples/Hosts.antt =====
-- A registry of six layers, in which a contributor joins, is handed its layers and leaves.
use blitzwing.Base.{◌+◌, ◌≡◌, refl, true, false, none, some, [], ◌∷◌, arith}
use blitzwing.Base.Int.{pos, negsuc}
use blitzwing.Base.Text.{codes, text_eq}
use blitzwing.Base.Dict.{lookup, insert, erase, values}
use blitzwing.Base.Exec.{ok, err, transport}
use blitzwing.Registry.Range.{Range, range, parse_range, format_range}
use blitzwing.Registry.Host.{
  HostRecord, SwarmRegistry, Env, mother, contributor, online, pending, mother_id, mother_record,
  init,
}
use blitzwing.Registry.Join.{JoinRequest, pending_record, join}
use blitzwing.Registry.Ready.{blocks_ready, go_online, mark_ready}
use blitzwing.Registry.Reclaim.Kept.{leave_keeps_layers}
use blitzwing.Registry.Leave.{choose, candidates, leave}
use blitzwing.Registry.Cover.{contrib, cover}
use blitzwing.Registry.Sound.{IsSound}
use blitzwing.Registry.Sound.Ready.{mark_ready-IsSound}
use blitzwing.Registry.Sound.Reserve.{join-IsSound}
use blitzwing.Registry.Reach.{here, next, joins, readies, init-Sound, every_layer_has_one_host}
use blitzwing.Swarm.Manifest.{build_manifest, is_complete}
use blitzwing.Swarm.Reached.{build_manifest-IsSound, reached_manifest_complete}
use blitzwing.Registry.Losses.{HasGrown, mark_ready_loses_grown_layers, leave_loses_layers}
use blitzwing.Registry.Range.RoundTrip.{parse_range-format_range}

abbrev pub env : Env
env = record { now = 7; new_id = codes "host-1"; disk_ok = false; reload = λ url new. true }

abbrev pub fresh : SwarmRegistry
fresh = record {
  model = codes "m";
  total_layers = pos 6;
  hosts = (mother_id, mother_record 7 (codes "m") (pos 6) (codes "http://m") none) ∷ [];
  bootstrap_peers = [];
  saved = none;
}

fresh-eq : init env none (codes "m") (pos 6) (codes "http://m") none ≡ ok fresh
unfolding init
fresh-eq = refl

pub fresh-IsSound : IsSound (pos 6) fresh.hosts
fresh-IsSound =
    (init-Sound env none (codes "m") (pos 6) (codes "http://m") none (omega arith) fresh-eq).0

abbrev pub request : JoinRequest
request = record {
  layers = pos 2;
  public_ip = codes "1.2.3.4";
  shard_manager_url = codes "http://h";
  hedera_account_id = codes "0.0.12";
}

abbrev pub joined : SwarmRegistry
joined = (join env request fresh).1

abbrev pub waiting : HostRecord
waiting =
    pending_record env (codes "m") request (codes "0.0.12")
      (mother_record 7 (codes "m") (pos 6) (codes "http://m") none) (range (pos 0) (pos 6))

joined-eq : lookup (codes "host-1") joined.hosts ≡ some waiting
unfolding join lookup insert
joined-eq = refl

join-IsSound_example : IsSound (pos 6) joined.hosts
unfolding lookup text_eq
join-IsSound_example = join-IsSound env request fresh refl refl fresh-IsSound

pub joined-IsSound : IsSound joined.total_layers joined.hosts
unfolding lookup join
joined-IsSound = join-IsSound env request fresh refl refl fresh-IsSound

abbrev pub ready : SwarmRegistry
ready = (mark_ready env (codes "host-1") none joined).1

mark_ready-IsSound_example : IsSound joined.total_layers ready.hosts
mark_ready-IsSound_example = mark_ready-IsSound env (codes "host-1") none joined joined-IsSound

-- Layer 5 after a join and a hand-over.
every_layer_has_one_host_example : (ready.total_layers ≡ pos 6) × (cover (pos 5) ready.hosts ≡ 1)
unfolding lookup text_eq
every_layer_has_one_host_example =
    every_layer_has_one_host env none (codes "m") (pos 6) (codes "http://m") none (omega arith)
      fresh-eq (next (next here (joins env request refl refl)) (readies env (codes "host-1") none))
      (pos 5)

build_manifest-IsSound_example : is_complete (build_manifest joined) ≡ true
build_manifest-IsSound_example = build_manifest-IsSound joined joined-IsSound

reached_manifest_complete_example : is_complete (build_manifest ready) ≡ true
unfolding lookup text_eq
reached_manifest_complete_example =
    reached_manifest_complete env none (codes "m") (pos 6) (codes "http://m") none (omega arith)
      fresh-eq (next (next here (joins env request refl refl)) (readies env (codes "host-1") none))

-- The hand-over has moved layers 4 and 5.
ready_test : cover (pos 5) joined.hosts + cover (pos 3) ready.hosts ≡ 2
unfolding cover contrib join mark_ready
ready_test = refl

abbrev donor_at : Range → HostRecord
donor_at blocks = record {
  host_id = mother_id;
  role = mother;
  model = codes "m";
  block_indices = blocks;
  layers_hosted = pos 6;
  public_ip = none;
  shard_manager_url = codes "http://m";
  peer_multiaddr = none;
  status = online;
  joined_at = 0;
  last_heartbeat = 0;
  pending_range = none;
  donor_host_id = none;
  donor_shrink_to = none;
  hedera_account_id = none;
  ens_name = none;
  petals_running = none;
}

abbrev pending_at : Range → Range → HostRecord
pending_at blocks cut = record {
  host_id = codes "b";
  role = contributor;
  model = codes "m";
  block_indices = blocks;
  layers_hosted = pos 2;
  public_ip = none;
  shard_manager_url = codes "http://b";
  peer_multiaddr = none;
  status = pending;
  joined_at = 0;
  last_heartbeat = 0;
  pending_range = some blocks;
  donor_host_id = some mother_id;
  donor_shrink_to = some cut;
  hedera_account_id = none;
  ens_name = none;
  petals_running = none;
}

-- The donor has grown from 0:4 to 0:6 since the pending host reserved 2:4.
abbrev grown : SwarmRegistry
grown = record {
  model = codes "m";
  total_layers = pos 6;
  hosts =
      (mother_id, donor_at (range (pos 0) (pos 6)))
      ∷ (codes "b", pending_at (range (pos 2) (pos 4)) (range (pos 0) (pos 2)))
      ∷ [];
  bootstrap_peers = [];
  saved = none;
}

abbrev pending_b : HostRecord
pending_b = pending_at (range (pos 2) (pos 4)) (range (pos 0) (pos 2))

grown-HasGrown : HasGrown grown (codes "b") pending_b (donor_at (range (pos 0) (pos 6)))
unfolding lookup text_eq
grown-HasGrown = record {
  found = refl;
  waits = refl;
  named = refl;
  donor_found = refl;
  donor_online = refl;
  shrink = refl;
  assigned = refl;
  ordered = omega arith;
  grown = omega arith;
  positive = omega arith;
}

mark_ready_loses_grown_layers_example :
    ((x : HostRecord) × ((mark_ready env (codes "b") none grown).0 ≡ ok x))
    × (cover (pos 5) (mark_ready env (codes "b") none grown).1.hosts + 1
        ≡ cover (pos 5) grown.hosts)
unfolding blocks_ready values
mark_ready_loses_grown_layers_example =
    mark_ready_loses_grown_layers env (codes "b") none grown pending_b
      (donor_at (range (pos 0) (pos 6))) grown-HasGrown refl refl (pos 5) (omega arith)
      (omega arith)

-- A contributor with 4:6 beside the mother with 0:4.
abbrev online_b : HostRecord
online_b = record pending_b {
  status = online;
  block_indices = range (pos 4) (pos 6);
  pending_range = none;
  donor_shrink_to = none;
}

abbrev split_in_two : SwarmRegistry
split_in_two = record grown {
  hosts = (mother_id, donor_at (range (pos 0) (pos 4))) ∷ (codes "b", online_b) ∷ [];
}

abbrev refusing : Env
refusing = record env { reload = λ url new. false }

leave_loses_layers_example :
    ((leave refusing (codes "b") split_in_two).0 ≡ err transport)
    × (cover (pos 5) (leave refusing (codes "b") split_in_two).1.hosts + 1
        ≡ cover (pos 5) split_in_two.hosts)
unfolding lookup choose candidates values erase
leave_loses_layers_example =
    leave_loses_layers refusing (codes "b") online_b (donor_at (range (pos 0) (pos 4)))
      (range (pos 0) (pos 6)) split_in_two refl refl refl refl refl (pos 5)

parse_range-format_range_example :
    parse_range (format_range (negsuc 2) (pos 40)) ≡ ok (range (negsuc 2) (pos 40))
parse_range-format_range_example = parse_range-format_range (negsuc 2) (pos 40)

parse_range_test : parse_range (codes " 4:+1_2 ") ≡ ok (range (pos 4) (pos 12))
unfolding parse_range
parse_range_test = refl

abbrev serving : HostRecord
serving = go_online env (range (pos 4) (pos 6)) waiting

serving-eq : lookup (codes "host-1") ready.hosts ≡ some serving
unfolding lookup join mark_ready text_eq
serving-eq = refl

pub ready-IsSound : IsSound ready.total_layers ready.hosts
unfolding mark_ready join
ready-IsSound = mark_ready-IsSound env (codes "host-1") none joined joined-IsSound

-- The mother takes layers 4 and 5 back.
leave_keeps_layers_example :
    ((leave env (codes "host-1") ready).0 ≡ ok tt)
    × (cover (pos 5) (leave env (codes "host-1") ready).1.hosts ≡ cover (pos 5) ready.hosts)
unfolding pending_record
leave_keeps_layers_example =
    leave_keeps_layers env ready (codes "host-1") serving serving-eq refl refl ready-IsSound
      (λ url new. refl) (pos 5)
