-- ===== src/Contributor/Shared.antt =====
-- The client that the module shares, when the warm-up thread has made it.
use blitzwing.Base.{
  ◌≡◌, refl, ap, ◌∙◌, true, not, ◌&&◌, inl, inr, Option, none, some, List, [], ◌∷◌, ◌++◌, arith,
  if◌then◌else◌, Bool-cases, Option-cases,
}
use blitzwing.Base.Int.{ℤ}
use blitzwing.Base.Text.{Text, text_eq_refl, truthy, or_empty, member}
use blitzwing.Contributor.{
  ContributorInference, LoadEnv, ManifestHost, any_loopback, wants_peer, add_hosts, init_client,
  peers_from_manifest, wait_until_routable, connect, find_local, load_or_wait, ensure_loaded,
  warm_up,
}
use blitzwing.Contributor.Generate.{get_contributor_inference, warm_contributor_inference}
use blitzwing.Contributor.Routable.{wait_state}
use blitzwing.Contributor.Loaded.{load_unloaded, load_ready, load_waits}

own-wait :
    (polls : List (Option (List (List Text)))) (c : ContributorInference)
    → (wait_until_routable polls c).1.local_block_indices ≡ c.local_block_indices
own-wait polls c = elim (wait_state polls c) [ inl same ↦ rw same | inr set ↦ rw set ]

own-connect :
    (env : LoadEnv) (c : ContributorInference)
    → (connect env c).1.local_block_indices ≡ c.local_block_indices
unfolding connect
own-connect env c = elim (Bool-cases (any_loopback c.initial_peers)) [
  | inr no_local ↦ rw (connect, no_local)
  | inl with_local ↦ elim (Bool-cases (env.tokenizer_loads && env.connects c.initial_peers)) [
    | inr failed ↦ rw (connect, with_local, failed)
    | inl made ↦
        rw (connect, with_local, made)
          (own-wait env.polls (record c { model = some c.initial_peers }))
  ]
]

own-load :
    (env : LoadEnv) (c : ContributorInference)
    → (load_or_wait env c).1.local_block_indices ≡ c.local_block_indices
unfolding find_local
own-load env c = elim (Option-cases c.model) [
  | inl unloaded ↦ rw (load_unloaded env c unloaded) (own-connect env (find_local env c))
  | inr (m, loaded) ↦ elim (Bool-cases c.ready) [
    | inl ready ↦ rw (load_ready env c m loaded ready)
    | inr waits ↦ rw (load_waits env c m loaded waits) (own-wait env.polls c)
  ]
]

member-append :
    (p : Text) (ps : List Text) (q : Text) → member p ps ≡ true → member p (ps ++ q ∷ []) ≡ true
unfolding member
member-append p [] q h = absurd (ground arith)
member-append p (x ∷ ps) q h = ground (arith, member-append p ps q)

member-last : (p : Text) (ps : List Text) → member p (ps ++ p ∷ []) ≡ true
unfolding member
member-last p [] = rw (text_eq_refl p)
member-last p (x ∷ ps) = ground (arith, member-last p ps)

-- What is collected stays.
member-add_hosts :
    (own : Option Text) (p : Text) (peers : List Text) (hs : List ManifestHost)
    → member p peers ≡ true
    → member p (add_hosts own peers hs) ≡ true
unfolding add_hosts
member-add_hosts own p peers [] h = h
member-add_hosts own p peers (x ∷ hs) h = elim (Bool-cases (wants_peer own peers x)) [
  | inl wanted ↦ rw wanted (
      member-add_hosts own p (peers ++ or_empty x.peer_multiaddr ∷ []) hs
        (member-append p peers (or_empty x.peer_multiaddr) h))
  | inr passed_over ↦ rw (add_hosts, passed_over) (member-add_hosts own p peers hs h)
]

wanted_if_new :
    (peers : List Text) (h : ManifestHost)
    → truthy h.peer_multiaddr ≡ true
    → wants_peer none peers h ≡ not (member (or_empty h.peer_multiaddr) peers)
unfolding wants_peer
wanted_if_new peers h named = ground arith

-- With no range of its own the client passes no host over.
collected :
    (peers : List Text) (before : List ManifestHost) (h : ManifestHost) (after : List ManifestHost)
    → truthy h.peer_multiaddr ≡ true
    → member (or_empty h.peer_multiaddr) (add_hosts none peers (before ++ h ∷ after)) ≡ true
unfolding add_hosts
collected peers [] h after named = elim (Bool-cases (member (or_empty h.peer_multiaddr) peers)) [
  | inl there ↦
      let passed_over = wanted_if_new peers h named ∙ ap not there in
      rw (add_hosts, passed_over)
        (member-add_hosts none (or_empty h.peer_multiaddr) peers after there)
  | inr new ↦
      let wanted = wanted_if_new peers h named ∙ ap not new in
      rw (add_hosts, wanted)
        (member-add_hosts none (or_empty h.peer_multiaddr) (peers ++ or_empty h.peer_multiaddr ∷ [])
          after (member-last (or_empty h.peer_multiaddr) peers))
]
collected peers (x ∷ before) h after named =
    collected (if wants_peer none peers x then peers ++ or_empty x.peer_multiaddr ∷ [] else peers)
      before h after named

shared_client :
    (env : LoadEnv) (log : Option Text) (model : Text) (peers : List Text) (port : ℤ)
    (log_path : Option Text)
    → (c : ContributorInference) × (warm_contributor_inference env log model peers port log_path
          none
        ≡ some c)
      × (c.local_block_indices ≡ none)
unfolding warm_contributor_inference get_contributor_inference warm_up ensure_loaded init_client
shared_client env log model peers port log_path =
    let c = init_client log model peers port log_path none in
    ((load_or_wait env c).1, refl, own-load env c)

-- Once the warm-up thread has made the client, whether its load passes or not, a caller that gives its
-- own block range gets this client, whose peers from a manifest include the address of every host that
-- has one, also of the host with the caller's own range.
pub warmed_client_takes_own_address :
    (env : LoadEnv) (log : Option Text) (model : Text) (peers : List Text) (port : ℤ)
    (log_path : Option Text) (before after : List ManifestHost) (h : ManifestHost) (own : Text)
    → truthy h.peer_multiaddr ≡ true
    → h.block_indices ≡ some own
    → member (or_empty h.peer_multiaddr) (
        peers_from_manifest
          (get_contributor_inference log model peers port log_path
            (some own)
            (warm_contributor_inference env log model peers port log_path none)).0
          (before ++ h ∷ after))
      ≡ true
unfolding get_contributor_inference peers_from_manifest
warmed_client_takes_own_address env log model peers port log_path before after h own named same =
    let (c, shared, unknown) = shared_client env log model peers port log_path in
    rw (shared, unknown) (collected [] before h after named)
