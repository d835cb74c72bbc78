-- ===== src/Swarm/Manifest.antt =====
-- `LayerSpan`, `SwarmManifest` and the functions of orchestrator/app/swarm_map.py that build and
-- query a manifest.
use blitzwing.Base.{
  Bool, true, false, not, ◌&&◌, ◌||◌, Option, none, some, List, [], ◌∷◌, ◌++◌, if◌then◌else◌,
}
use blitzwing.Base.Int.{ℤ, pos, ltb_ℤ, leb_ℤ, eqb_ℤ}
use blitzwing.Base.Text.{
  Text, codes, truthy, or_empty, is_empty, member, starts_with, lower, strip, rstrip_slash,
}
use blitzwing.Base.Dict.{values}
use blitzwing.Registry.Range.{Range, size}
use blitzwing.Registry.Host.{HostRecord, Role, mother, contributor, SwarmRegistry, is_online, keep}

-- `start` and `end` are those of `block_indices`.
pub record LayerSpan : Type 0 where
  pub host_id : Text
  pub role : Role
  pub block_indices : Range
  pub shard_manager_url : Text
  pub peer_multiaddr : Option Text
  pub petals_running : Option Bool

pub record SwarmManifest : Type 0 where
  pub model : Text
  pub total_layers : ℤ
  pub spans : List LayerSpan

abbrev pub span_start : LayerSpan → ℤ
span_start s = s.block_indices.start

abbrev pub span_end : LayerSpan → ℤ
span_end s = s.block_indices.end

-- A stable sort by the start.
unfoldable pub insert_span : LayerSpan → List LayerSpan → List LayerSpan
insert_span x [] = x ∷ []
insert_span x (y ∷ ys) =
    if leb_ℤ (span_start x) (span_start y) then x ∷ y ∷ ys else y ∷ insert_span x ys

unfoldable pub sort_spans : List LayerSpan → List LayerSpan
unfolding insert_span
sort_spans [] = []
sort_spans (x ∷ xs) = insert_span x (sort_spans xs)

unfoldable pub to_span : HostRecord → LayerSpan
to_span h = record {
  host_id = h.host_id;
  role = h.role;
  block_indices = h.block_indices;
  shard_manager_url = h.shard_manager_url;
  peer_multiaddr = h.peer_multiaddr;
  petals_running = none;
}

-- The spans of the online hosts.
unfoldable pub online_spans : List HostRecord → List LayerSpan
unfolding to_span
online_spans [] = []
online_spans (h ∷ hs) = let rest = online_spans hs in if is_online h then to_span h ∷ rest else rest

unfoldable pub build_manifest : SwarmRegistry → SwarmManifest
unfolding values online_spans sort_spans
build_manifest r = record {
  model = r.model;
  total_layers = r.total_layers;
  spans = sort_spans (online_spans (values r.hosts));
}

-- One entry of `hosts` in `SwarmManifest.to_dict`.
pub record ManifestHost : Type 0 where
  pub host_id : Text
  pub role : Role
  pub block_indices : Range
  pub layers_hosted : ℤ
  pub shard_manager_url : Text
  pub peer_multiaddr : Option Text
  pub petals_running : Option Bool

pub record ManifestDict : Type 0 where
  pub model : Text
  pub total_layers : ℤ
  pub hosts : List ManifestHost

-- The mother's URL is replaced by the public gateway, if one is configured.
unfoldable pub manifest_host : Text → LayerSpan → ManifestHost
unfolding size
manifest_host mother_public s = record {
  host_id = s.host_id;
  role = s.role;
  block_indices = s.block_indices;
  layers_hosted = size s.block_indices;
  shard_manager_url = elim s.role [
    | contributor ↦ s.shard_manager_url
    | mother ↦ if is_empty mother_public then s.shard_manager_url else mother_public
  ];
  peer_multiaddr = s.peer_multiaddr;
  petals_running = s.petals_running;
}

unfoldable pub manifest_hosts : Text → List LayerSpan → List ManifestHost
unfolding manifest_host
manifest_hosts mother_public [] = []
manifest_hosts mother_public (s ∷ ss) =
    manifest_host mother_public s ∷ manifest_hosts mother_public ss

-- `to_dict`, given the value of MOTHER_PUBLIC_GATEWAY_URL
unfoldable pub to_dict : Option Text → SwarmManifest → ManifestDict
unfolding strip rstrip_slash manifest_hosts
to_dict gateway m = record {
  model = m.model;
  total_layers = m.total_layers;
  hosts = manifest_hosts (rstrip_slash (strip (or_empty gateway))) m.spans;
}

-- An address is added once, and an empty one never.
abbrev pub add_peer : Option Text → List Text → List Text
unfolding member
add_peer p peers =
    if truthy p && not (member (or_empty p) peers) then peers ++ or_empty p ∷ [] else peers

unfoldable pub collect_peers : List Text → List LayerSpan → List Text
unfolding member
collect_peers peers [] = peers
collect_peers peers (s ∷ ss) = collect_peers (add_peer s.peer_multiaddr peers) ss

unfoldable pub peer_multiaddrs : SwarmManifest → List Text
unfolding collect_peers
peer_multiaddrs m = collect_peers [] m.spans

unfoldable pub merge_bootstrap : List Text → List Text → List Text
unfolding member
merge_bootstrap peers [] = peers
merge_bootstrap peers (p ∷ ps) = merge_bootstrap (add_peer (some p) peers) ps

-- The peers that `sync_peers_to_engine` hands to the engine.
unfoldable pub engine_peers : SwarmRegistry → List Text
unfolding build_manifest peer_multiaddrs merge_bootstrap
engine_peers r = merge_bootstrap (peer_multiaddrs (build_manifest r)) r.bootstrap_peers

abbrev is_contributor : LayerSpan → Bool
is_contributor s = elim s.role [ contributor ↦ true | mother ↦ false ]

-- max(spans, key=end): the first of the largest
unfoldable pub last_from : LayerSpan → List LayerSpan → LayerSpan
last_from best [] = best
last_from best (s ∷ ss) = last_from (if ltb_ℤ (span_end best) (span_end s) then s else best) ss

abbrev last_of : List LayerSpan → Option LayerSpan
unfolding last_from
last_of [] = none
last_of (s ∷ ss) = some (last_from s ss)

unfoldable pub tail_contributor : SwarmManifest → Option LayerSpan
unfolding keep last_of
tail_contributor m = last_of (keep is_contributor m.spans)

abbrev pub is_nonempty : LayerSpan → Bool
is_nonempty s = ltb_ℤ (span_start s) (span_end s)

-- The end of a chain of spans that starts at `expected`, or `none` at a gap or an overlap.
unfoldable pub chain_end : ℤ → List LayerSpan → Option ℤ
chain_end expected [] = some expected
chain_end expected (s ∷ ss) =
    let rest = chain_end (span_end s) ss in
    if not (eqb_ℤ (span_start s) expected) then none else rest

abbrev pub ends_at : ℤ → Option ℤ → Bool
ends_at t none = false
ends_at t (some e) = eqb_ℤ e t

abbrev pub is_chain : ℤ → List LayerSpan → Bool
unfolding sort_spans chain_end
is_chain t [] = false
is_chain t (s ∷ ss) = ends_at t (chain_end (pos 0) (sort_spans (s ∷ ss)))

unfoldable pub is_complete : SwarmManifest → Bool
unfolding keep is_chain
is_complete m = is_chain m.total_layers (keep is_nonempty m.spans)

-- The verdict, without the text that explains it.
pub data Verdict : Type 0 where
  complete no_online_hosts not_contiguous : Verdict

abbrev verdict : List LayerSpan → Bool → Verdict
verdict [] b = no_online_hosts
verdict (s ∷ ss) b = if b then complete else not_contiguous

unfoldable pub validate_manifest : SwarmManifest → Verdict
unfolding is_complete
validate_manifest m = verdict m.spans (is_complete m)

unfoldable pub is_public_http_url : Text → Bool
unfolding starts_with lower
is_public_http_url url =
    if is_empty url
    then false
    else if starts_with (lower url) (codes "http://127.")
        || starts_with (lower url) (codes "http://localhost")
    then false
    else if starts_with url (codes "http://172.") || starts_with url (codes "http://192.168.")
    then false
    else starts_with url (codes "http://") || starts_with url (codes "https://")

unfoldable pub pick_http_inference_host : SwarmManifest → Option LayerSpan
unfolding tail_contributor is_public_http_url
pick_http_inference_host m = elim (tail_contributor m) [
  | none ↦ none
  | some s ↦ if is_public_http_url s.shard_manager_url then some s else none
]
