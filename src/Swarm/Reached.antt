-- ===== src/Swarm/Reached.antt =====
-- The manifest of a sound registry, and of every registry that is reached from a fresh one.
use blitzwing.Base.{
  ℕ, ◌+◌, ◌≡◌, refl, ap, ◌∙◌, true, inl, inr, Option, none, some, List, [], ◌∷◌, arith, Bool-cases,
}
use blitzwing.Base.Int.{ℤ, pos, ◌<ℤ◌}
use blitzwing.Base.Text.{Text, text_eq_iff}
use blitzwing.Base.Dict.{Dict, lookup, values}
use blitzwing.Base.Exec.{ok}
use blitzwing.Registry.Host.{HostRecord, SwarmRegistry, Saved, Env, is_online, mother_id, init}
use blitzwing.Registry.Cover.{covers, one_if, contrib, cover, contrib-le-cover}
use blitzwing.Registry.Sound.{IsKeyed, IsHost, IsSound}
use blitzwing.Registry.Reach.{Reach, Reach-Sound, init-Sound}
use blitzwing.Swarm.Manifest.{
  LayerSpan, sort_spans, to_span, online_spans, build_manifest, chain_end, ends_at, is_chain,
  is_complete,
}
use blitzwing.Swarm.Complete.{
  held, AllNonempty, held-sort_spans, AllNonempty-sort_spans, keep_nonempty,
}
use blitzwing.Swarm.Tiling.{IsSorted-sort_spans, Tiles, Tiles-chain}

held-online_spans : (k : ℤ) (d : Dict HostRecord) → held k (online_spans (values d)) ≡ cover k d
unfolding held online_spans to_span values cover contrib
held-online_spans k [] = refl
held-online_spans k ((j, h) ∷ d) = elim (Bool-cases (is_online h)) [
  | inl up ↦ rw up (ap (λ (n : ℕ). one_if (covers k h.block_indices) + n) (held-online_spans k d))
  | inr down ↦ rw down (omega (arith, held-online_spans k d))
]

later_host :
    (j i : Text) (x h : HostRecord) (d : Dict HostRecord)
    → lookup i d ≡ none
    → lookup j d ≡ some h
    → lookup j ((i, x) ∷ d) ≡ some h
unfolding lookup
later_host j i x h d new e = ground (arith, text_eq_iff j i)

first_host : (i : Text) (x : HostRecord) (d : Dict HostRecord) → lookup i ((i, x) ∷ d) ≡ some x
unfolding lookup
first_host i x d = ground (arith, text_eq_iff i i)

AllNonempty-online_spans :
    (d : Dict HostRecord)
    → IsKeyed d
    → ((j : Text) (h : HostRecord) → lookup j d ≡ some h → IsHost h)
    → AllNonempty (online_spans (values d))
unfolding online_spans to_span values
AllNonempty-online_spans [] keyed hosts = tt
AllNonempty-online_spans ((i, x) ∷ d) keyed hosts =
    let rest =
      AllNonempty-online_spans d keyed.3 (λ j h e. hosts j h (later_host j i x h d keyed.1 e)) in
    elim (Bool-cases (is_online x)) [
      | inl up ↦ rw up ((hosts i x (first_host i x d)).nonempty, rest)
      | inr down ↦ rw down rest
    ]

chain_accepted :
    (t : ℤ) (ss : List LayerSpan)
    → pos 0 <ℤ t
    → chain_end (pos 0) (sort_spans ss) ≡ some t
    → is_chain t ss ≡ true
unfolding sort_spans chain_end
chain_accepted t [] lt e = absurd (ground arith)
chain_accepted t (s ∷ ss) lt e =
    let at_end : ends_at t (some t) ≡ true = ground arith in ap (ends_at t) e ∙ at_end

-- The mother holds a layer.
some_layers : (t : ℤ) (d : Dict HostRecord) → IsSound t d → pos 0 <ℤ t
unfolding contrib
some_layers t d sound =
    let (m, is_m) = sound.has_mother in
    let full = (sound.hosts mother_id m is_m.found).nonempty in
    ground (
      arith,
      is_m.up,
      full,
      contrib-le-cover m.block_indices.start mother_id m d is_m.found,
      sound.exact m.block_indices.start,
    )

-- The manifest of a sound registry is complete.
pub build_manifest-IsSound :
    (r : SwarmRegistry) → IsSound r.total_layers r.hosts → is_complete (build_manifest r) ≡ true
unfolding is_complete build_manifest
build_manifest-IsSound r sound =
    let spans = sort_spans (online_spans (values r.hosts)) in
    let full : AllNonempty spans =
      AllNonempty-sort_spans (online_spans (values r.hosts))
        (AllNonempty-online_spans r.hosts sound.keyed sound.hosts) in
    let positive = some_layers r.total_layers r.hosts sound in
    let tiles : Tiles (pos 0) r.total_layers (sort_spans spans) = (λ k.
      held-sort_spans k spans
      ∙ held-sort_spans k (online_spans (values r.hosts))
      ∙ held-online_spans k r.hosts
      ∙ sound.exact k) in
    rw (keep_nonempty spans full) (
      chain_accepted r.total_layers spans positive (
        Tiles-chain (pos 0) r.total_layers (sort_spans spans) (omega (arith, positive))
          (AllNonempty-sort_spans spans full) (IsSorted-sort_spans spans) tiles))

-- From a fresh registry with at least one layer, after any joins, ready calls and heartbeats,
-- departures of pending hosts, and departures of online hosts and sweeps of silent ones at times when
-- no host is pending and the shard managers take the reloads, in any order, the manifest of the
-- registry is complete.
pub reached_manifest_complete :
    (env : Env) (saved : Option Saved) (model : Text) (total_layers : ℤ) (url : Text)
    (account : Option Text) {r s : SwarmRegistry}
    → pos 0 <ℤ total_layers
    → init env saved model total_layers url account ≡ ok r
    → Reach r s
    → is_complete (build_manifest s) ≡ true
reached_manifest_complete env saved model total_layers url account {r} {s} positive e p =
    build_manifest-IsSound s
      (Reach-Sound p (init-Sound env saved model total_layers url account positive e).0).1
