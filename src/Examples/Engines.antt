-- ===== src/Examples/Engines.antt =====
-- An engine with one configured peer, and a contributor before its hand-over.
use blitzwing.Base.{ℕ, ◌≡◌, ◌⊎◌, refl, true, false, none, some, [], ◌∷◌, ◌==◌, if◌then◌else◌, arith}
use blitzwing.Base.Int.{pos, ◌≤ℤ◌}
use blitzwing.Base.Text.{codes, text_eq}
use blitzwing.Base.Exec.{ok, err, missing_blocks}
use blitzwing.Registry.Range.{range}
use blitzwing.Engine.{
  EngineSettings, PetalsEngine, EngineEnv, Connect, no_peers, blocks_missing, cap_max_tokens,
  get_effective_peers, generate_direct, schedule_reload,
}
use blitzwing.Engine.{GenerationResult}
use blitzwing.Engine.Stream.{StreamEnv, Stream, stream_generate_once, stream_generate}
use blitzwing.Engine.Laws.{cap_max_tokens_bounds, schedule_reload_loads}
use blitzwing.Peer.{
  Reachability, is_public_http_url, verify_contributor_http, parse_peer_tcp,
  contributor_precheck_passed,
}
use blitzwing.Peer.Check.{ByTcp, precheck_passed}

abbrev settings : EngineSettings
settings = record {
  initial_peers = codes "/p" ∷ [];
  default_max_tokens = pos 256;
  hard_max_tokens = pos 512;
}

abbrev engine : PetalsEngine
engine = record {
  settings = settings;
  extra_peers = codes "/q" ∷ codes "/p" ∷ [];
  loaded = false;
  load_error = none;
}

cap_max_tokens_bounds_example :
    (pos 1 ≤ℤ cap_max_tokens settings (some (pos 9999)))
    × (cap_max_tokens settings (some (pos 9999)) ≤ℤ pos 512)
cap_max_tokens_bounds_example = cap_max_tokens_bounds settings (some (pos 9999)) (ground arith)

abbrev out : EngineEnv
out = record {
  probe = λ url. none;
  connect = λ peers. none;
  reconnect = λ peers. none;
  run = λ cap. blocks_missing;
  rerun = λ cap. blocks_missing;
  contributor = λ c manifest. none;
}

out-eq : (generate_direct out none engine).0 ≡ err missing_blocks
unfolding generate_direct get_effective_peers text_eq
out-eq = refl

-- The second attempt connects; attempts count down.
abbrev connects : ℕ → Connect
connects n peers = if n == 1 then none else some (codes "unreachable")

effective-eq : no_peers (get_effective_peers engine) ≡ false
unfolding get_effective_peers text_eq
effective-eq = refl

schedule_reload_loads_example : (schedule_reload 3 connects engine).1.loaded ≡ true
schedule_reload_loads_example =
    schedule_reload_loads 3 1 connects engine (ground arith) effective-eq refl

-- A shard manager behind a private address, and a peer that accepts connections.
abbrev net : Reachability
net = record { shard_status = λ url. none; connects = λ host port. true }

peer-eq :
    contributor_precheck_passed net
      (codes "http://192.168.0.7:8001")
      (range (pos 4) (pos 8))
      (some (codes "/ip4/1.2.3.4/tcp/31337/p2p/Qm"))
      []
    ≡ true
unfolding contributor_precheck_passed
peer-eq = refl

precheck_passed_example :
    ((is_public_http_url (codes "http://192.168.0.7:8001") ≡ true)
      × (verify_contributor_http net (codes "http://192.168.0.7:8001") (range (pos 4) (pos 8))
          ≡ ok true))
    ⊎ ByTcp net (some (codes "/ip4/1.2.3.4/tcp/31337/p2p/Qm")) []
precheck_passed_example =
    precheck_passed net (codes "http://192.168.0.7:8001") (range (pos 4) (pos 8))
      (some (codes "/ip4/1.2.3.4/tcp/31337/p2p/Qm")) [] peer-eq

parse_test : parse_peer_tcp (codes "/dns4/host/tcp/31337") ≡ ok (codes "host", pos 31337)
unfolding parse_peer_tcp
parse_test = refl

-- The first attempt ends after a piece, as a block is missing; the second runs to its end.
abbrev broken_stream : StreamEnv
broken_stream = record {
  connect = λ peers. none;
  reconnect = λ peers. none;
  run = λ cap. record { pieces = codes "He" ∷ []; failure = some missing_blocks };
  rerun = λ cap. record { pieces = codes "Hel" ∷ codes "lo" ∷ []; failure = none };
  prompt_tokens = 3;
  encode = λ text. 2;
}

abbrev hello : GenerationResult
hello = record {
  text = codes "Hello";
  prompt_tokens = 3;
  completion_tokens = 2;
  finish_reason = codes "stop";
}

repeats_test :
    (stream_generate broken_stream none engine).0.0 ≡ codes "He" ∷ codes "Hel" ∷ codes "lo" ∷ []
unfolding stream_generate get_effective_peers text_eq
repeats_test = refl

abbrev first_try : Stream
first_try =
    (stream_generate_once broken_stream broken_stream.connect broken_stream.run none engine).0
