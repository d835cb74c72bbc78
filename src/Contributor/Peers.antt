-- ===== src/Contributor/Peers.antt =====
-- The contributor's peers under a manifest that the mother sends again.
use mathlib.Core.Path.{subst}
use blitzwing.Base.{
  ◌≡◌, ◌⊎◌, ◌↔◌, refl, sym, ap, ◌∙◌, true, false, not, ◌&&◌, ◌||◌, inl, inr, Option, none, some,
  List, [], ◌∷◌, ◌++◌, arith, if◌then◌else◌, Bool-cases, Option-cases, List-cases,
}
use blitzwing.Base.Text.{Text, text_eq_iff, is_empty, truthy, or_empty, member}
use blitzwing.Base.Exec.{ok}
use blitzwing.Registry.Host.{keep}
use blitzwing.Contributor.Log.{resolve_local_peer}
use blitzwing.Contributor.{
  ContributorInference, LoadEnv, ManifestHost, is_loopback, is_remote, any_loopback, wants_peer,
  build_peers, add_hosts, peers_from_manifest, first_loopback, merge_local, same_peers,
  replace_peers, apply_swarm_manifest, find_local, load_or_wait, ensure_loaded,
}
use blitzwing.Contributor.Loaded.{
  IsConnected, ensure_loaded_lem, load_unloaded, load_ready, load_waits, connect_passed,
}
use blitzwing.Contributor.Routable.{wait_passed}

same_peers_iff : (ps qs : List Text) → (same_peers ps qs ≡ true) ↔ (ps ≡ qs)
unfolding same_peers
same_peers_iff [] [] = ground arith
same_peers_iff [] (q ∷ qs) = ground arith
same_peers_iff (p ∷ ps) [] = ground arith
same_peers_iff (p ∷ ps) (q ∷ qs) = ground (arith, text_eq_iff p q, same_peers_iff ps qs)

abbrev AllFull : List Text → Type 0
AllFull [] = Unit {0}
AllFull (p ∷ ps) = (is_empty p ≡ false) × AllFull ps

AllFull-append :
    (ps : List Text) (p : Text) → AllFull ps → is_empty p ≡ false → AllFull (ps ++ p ∷ [])
AllFull-append [] p h full = (full, tt)
AllFull-append (q ∷ ps) p h full = (h.0, AllFull-append ps p h.1 full)

full_peer :
    (own : Option Text) (peers : List Text) (h : ManifestHost)
    → wants_peer own peers h ≡ true
    → is_empty (or_empty h.peer_multiaddr) ≡ false
unfolding wants_peer
full_peer own peers h wanted = ground arith

AllFull-add_hosts :
    (own : Option Text) (peers : List Text) (hs : List ManifestHost)
    → AllFull peers
    → AllFull (add_hosts own peers hs)
unfolding add_hosts
AllFull-add_hosts own peers [] full = full
AllFull-add_hosts own peers (h ∷ hs) full = elim (Bool-cases (wants_peer own peers h)) [
  | inl wanted ↦ rw wanted (
      AllFull-add_hosts own (peers ++ or_empty h.peer_multiaddr ∷ []) hs
        (AllFull-append peers (or_empty h.peer_multiaddr) full (full_peer own peers h wanted)))
  | inr passed_over ↦ rw passed_over (AllFull-add_hosts own peers hs full)
]

-- Remote peers all stay.
keep-remote : (ps : List Text) → AllFull ps → any_loopback ps ≡ false → keep is_remote ps ≡ ps
unfolding keep any_loopback
keep-remote [] full remote = refl
keep-remote (p ∷ ps) full remote = ground (arith, keep-remote ps full.1)

first_is_loopback : (ps : List Text) (p : Text) → first_loopback ps ≡ some p → is_loopback p ≡ true
unfolding first_loopback
first_is_loopback [] p e = absurd (ground arith)
first_is_loopback (q ∷ ps) p e = ground (arith, first_is_loopback ps p)

-- The old local peer is dropped again when the peers are built.
keep-merge_local :
    (old : List Text) (ps : List Text)
    → AllFull ps
    → any_loopback ps ≡ false
    → keep is_remote (merge_local (first_loopback old) ps) ≡ ps
unfolding keep merge_local is_remote
keep-merge_local old ps full remote = elim (Option-cases (first_loopback old)) [
  | inl none_local ↦ rw none_local (keep-remote ps full remote)
  | inr (p, found) ↦
      let local = first_is_loopback old p found in
      elim (Bool-cases (not (is_empty p) && not (member p ps))) [
        | inl added ↦ rw (found, added) (rw local (ground (arith, keep-remote ps full remote)))
        | inr there ↦ rw (found, there) (keep-remote ps full remote)
      ]
]

abbrev with_local : Option Text → List Text → List Text
unfolding member
with_local l ps = if truthy l && not (member (or_empty l) ps) then or_empty l ∷ ps else ps

build-remote :
    (old ps : List Text) (l : Option Text)
    → keep is_remote old ≡ ps
    → build_peers old l ≡ with_local l ps
unfolding build_peers with_local
build-remote old ps l remote = rw remote

-- Peers that a load builds, if the local server is among them, are those that the manifest gives when
-- it comes again.
again :
    (ps : List Text) (l : Option Text)
    → any_loopback ps ≡ false
    → any_loopback (with_local l ps) ≡ true
    → merge_local (first_loopback (with_local l ps)) ps ≡ with_local l ps
unfolding first_loopback any_loopback merge_local with_local
again ps none remote local = absurd (ground arith)
again ps (some p) remote local = elim (Bool-cases (not (is_empty p) && not (member p ps))) [
  | inl added ↦
      let seen : (is_loopback p || false) ≡ true = rw (added, remote) at local in
      let found : is_loopback p ≡ true = ground arith in rw (added, found, added)
  | inr there ↦ absurd (ground arith)
]

rebuilt :
    (old : List Text) (ps : List Text) (l : Option Text)
    → AllFull ps
    → any_loopback ps ≡ false
    → any_loopback (build_peers (merge_local (first_loopback old) ps) l) ≡ true
    → merge_local (first_loopback (build_peers (merge_local (first_loopback old) ps) l)) ps
      ≡ build_peers (merge_local (first_loopback old) ps) l
rebuilt old ps l full remote local =
    let e =
      build-remote (merge_local (first_loopback old) ps) ps l
        (keep-merge_local old ps full remote) in
    rw e (again ps l remote (rw e at local))

-- The peers after the manifest, if the client has no model then.
merged_peers :
    (hosts : List ManifestHost) (c : ContributorInference) (p : Text) (ps : List Text)
    → peers_from_manifest c hosts ≡ p ∷ ps
    → (apply_swarm_manifest (some hosts) c).initial_peers
      ≡ merge_local (first_loopback c.initial_peers) (p ∷ ps)
unfolding apply_swarm_manifest replace_peers
merged_peers hosts c p ps named =
    let merged = merge_local (first_loopback c.initial_peers) (p ∷ ps) in
    elim (Bool-cases (same_peers merged c.initial_peers)) [
      | inl same ↦
          rw (apply_swarm_manifest, named, same)
            (sym ((same_peers_iff merged c.initial_peers).0 same))
      | inr other ↦ rw (apply_swarm_manifest, named, other)
    ]

pub own_range :
    (manifest : Option (List ManifestHost)) (c : ContributorInference)
    → (apply_swarm_manifest manifest c).local_block_indices ≡ c.local_block_indices
unfolding apply_swarm_manifest
own_range manifest c = ground arith

kept_peers :
    (hosts : List ManifestHost) (c : ContributorInference) (m : List Text)
    → (apply_swarm_manifest (some hosts) c).model ≡ some m
    → (apply_swarm_manifest (some hosts) c).initial_peers ≡ c.initial_peers
unfolding apply_swarm_manifest replace_peers
kept_peers hosts c m loaded = ground arith

-- A load that passes has built its peers anew, or has left them alone.
built :
    (env : LoadEnv) (c : ContributorInference)
    → (load_or_wait env c).0 ≡ ok tt
    → ((load_or_wait env c).1.local_block_indices ≡ c.local_block_indices)
      × (((load_or_wait env c).1.initial_peers
            ≡ build_peers c.initial_peers (resolve_local_peer env.log_tries c.local_port))
          ⊎ ((m : List Text) × (c.model ≡ some m)
              × ((load_or_wait env c).1.initial_peers ≡ c.initial_peers)))
unfolding find_local
built env c passed = elim (Option-cases c.model) [
  | inl unloaded ↦
      let out = load_unloaded env c unloaded in
      let (state, routable) = connect_passed env (find_local env c) (rw out at passed) in
      (rw (out, state), inl (rw (out, state)))
  | inr (m, loaded) ↦ elim (Bool-cases c.ready) [
    | inl ready ↦ let out = load_ready env c m loaded ready in (rw out, inr (m, loaded, rw out))
    | inr waits ↦
        let out = load_waits env c m loaded waits in
        let (state, routable) = wait_passed env.polls c (rw out at passed) in
        (rw (out, state), inr (m, loaded, rw (out, state)))
  ]
]

stays :
    (hosts : List ManifestHost) (c : ContributorInference) (p : Text) (ps : List Text)
    → peers_from_manifest c hosts ≡ p ∷ ps
    → merge_local (first_loopback c.initial_peers) (p ∷ ps) ≡ c.initial_peers
    → apply_swarm_manifest (some hosts) c ≡ c
unfolding apply_swarm_manifest replace_peers
stays hosts c p ps named settled =
    let merged = merge_local (first_loopback c.initial_peers) (p ∷ ps) in
    rw (apply_swarm_manifest, named, (same_peers_iff merged c.initial_peers).1 settled)

stays_unnamed :
    (hosts : List ManifestHost) (c : ContributorInference)
    → peers_from_manifest c hosts ≡ []
    → apply_swarm_manifest (some hosts) c ≡ c
unfolding apply_swarm_manifest
stays_unnamed hosts c unnamed = rw (apply_swarm_manifest, unnamed)

same_named :
    (hosts : List ManifestHost) (c c' : ContributorInference)
    → c'.local_block_indices ≡ c.local_block_indices
    → peers_from_manifest c' hosts ≡ peers_from_manifest c hosts
unfolding peers_from_manifest
same_named hosts c c' own = ap (λ (o : Option Text). add_hosts o [] hosts) own

-- The manifest's peers, put together with the local one of these peers, give them back.
abbrev Settled : List Text → List Text → Type 0
Settled named peers = merge_local (first_loopback peers) named ≡ peers

module _ (env : LoadEnv) (hosts : List ManifestHost) (c : ContributorInference) (s : IsConnected c)
    (remote : any_loopback (peers_from_manifest c hosts) ≡ false)
    (passed : (ensure_loaded env (some hosts) c).0 ≡ ok tt) where
  abbrev after : ContributorInference
  after = (ensure_loaded env (some hosts) c).1

  abbrev before : ContributorInference
  before = apply_swarm_manifest (some hosts) c

  full_named : (p : Text) (ps : List Text) → peers_from_manifest c hosts ≡ p ∷ ps → AllFull (p ∷ ps)
  unfolding peers_from_manifest
  full_named p ps named = subst AllFull named (AllFull-add_hosts c.local_block_indices [] hosts tt)

  named_again : peers_from_manifest after hosts ≡ peers_from_manifest c hosts
  unfolding ensure_loaded
  named_again = same_named hosts c after ((built env before passed).0 ∙ own_range (some hosts) c)

  settled :
      (p : Text) (ps : List Text)
      → peers_from_manifest c hosts ≡ p ∷ ps
      → Settled (p ∷ ps) after.initial_peers
  unfolding ensure_loaded
  settled p ps named =
      let merged = merged_peers hosts c p ps named in
      let l = resolve_local_peer env.log_tries before.local_port in
      elim (built env before passed).1 [
        | inl anew ↦
            let e : after.initial_peers
                ≡ build_peers (merge_local (first_loopback c.initial_peers) (p ∷ ps)) l =
              anew ∙ ap (λ (old : List Text). build_peers old l) merged in
            let local = (ensure_loaded_lem env (some hosts) c s passed).1 in
            subst (Settled (p ∷ ps)) (sym e) (
              rebuilt c.initial_peers (p ∷ ps) l (full_named p ps named) (rw named at remote)
                (subst (λ (old : List Text). any_loopback old ≡ true) e local))
        | inr (m, loaded, same) ↦
            let kept = kept_peers hosts c m loaded in
            subst (Settled (p ∷ ps)) (sym (same ∙ kept)) (sym merged ∙ kept)
      ]

  unmoved : apply_swarm_manifest (some hosts) after ≡ after
  unmoved = elim (List-cases (peers_from_manifest c hosts)) [
    | inl unnamed ↦ stays_unnamed hosts after (named_again ∙ unnamed)
    | inr (p, ps, named) ↦ stays hosts after p ps (named_again ∙ named) (settled p ps named)
  ]

-- A client that a load has made ready passes the next load with the same manifest at once: no peer
-- changes, nothing is loaded again and no poll is made; provided that the manifest names no loopback
-- address for another host.
pub ensure_loaded_again :
    (env later : LoadEnv) (hosts : List ManifestHost) (c : ContributorInference)
    → IsConnected c
    → any_loopback (peers_from_manifest c hosts) ≡ false
    → (ensure_loaded env (some hosts) c).0 ≡ ok tt
    → ensure_loaded later (some hosts) (ensure_loaded env (some hosts) c).1
      ≡ (ok tt, (ensure_loaded env (some hosts) c).1)
unfolding ensure_loaded
ensure_loaded_again env later hosts c s remote passed =
    let (loaded, local, ready, routable) = ensure_loaded_lem env (some hosts) c s passed in
    let out = (ensure_loaded env (some hosts) c).1 in
    ap (load_or_wait later) (unmoved env hosts c s remote passed)
    ∙ load_ready later out out.initial_peers loaded ready
