-- ===== src/Chain/Whole.antt =====
-- The chain as a whole against the model that runs all its layers in one place.
use mathlib.Core.Path.{subst}
use blitzwing.Base.{
  ℕ, zero, suc, ◌+◌, ◌≡◌, ◌≢◌, sym, ap, ◌∙◌, inl, inr, some, List, [], ◌∷◌, arith, Bool-cases,
  Option-cases,
}
use blitzwing.Base.Int.{ℤ, pos, pos_part, neg_part, ◌+ℤ◌, ◌-ℤ◌, eqb_ℤ, eqb_ℤ_iff, ◌≤ℤ◌, int_laws}
use blitzwing.Base.{true, if◌then◌else◌}
use blitzwing.Base.Exec.{ok, err, runtime_error}
use blitzwing.Registry.Range.{Range, size}
use blitzwing.Chain.Hosts.{
  ChainEnv, ChainHost, Hop, ordered_hosts, covered_to, reaches, validate_chain_coverage,
}
use blitzwing.Chain.Forward.{
  Model, run_layers, forward_tail, forward_prefix, Remote, run_middle, then_middle, chain_hidden,
  split_last, plan_chain,
}
use blitzwing.Chain.Routes.{
  all_routed, AllFaithful, routed_parts, prefix_runs, continue_runs, chain_refused,
}

-- No span runs backwards.
abbrev pub AllForward : List Hop → Type 0
AllForward [] = Unit {0}
AllForward (h ∷ hs) = (h.blocks.start ≤ℤ h.blocks.end) × AllForward hs

covered_step :
    (e f : ℤ) (h : Hop) (hs : List Hop)
    → covered_to e (h ∷ hs) ≡ some f
    → (h.blocks.start ≡ e) × (covered_to h.blocks.end hs ≡ some f)
unfolding covered_to
covered_step e f h hs c = elim (Bool-cases (eqb_ℤ h.blocks.start e)) [
  | inl meets ↦ ((eqb_ℤ_iff h.blocks.start e).0 meets, ground arith)
  | inr gap ↦ absurd (ground arith)
]

covered_le : (e f : ℤ) (hs : List Hop) → AllForward hs → covered_to e hs ≡ some f → e ≤ℤ f
unfolding covered_to
covered_le e f [] a c = ground arith
covered_le e f (h ∷ hs) a c =
    let (start, rest) = covered_step e f h hs c in
    let later : h.blocks.end ≤ℤ f = covered_le h.blocks.end f hs a.1 rest in
    rw (← start) (omega (arith, a.0, later))

-- The last of the hosts, and the chain in front of it.
covered_split :
    (e f : ℤ) (h : Hop) (hs : List Hop)
    → covered_to e (h ∷ hs) ≡ some f
    → (covered_to e (split_last h hs).0 ≡ some (split_last h hs).1.blocks.start)
      × ((split_last h hs).1.blocks.end ≡ f)
unfolding covered_to split_last
covered_split e f h [] c =
    let (start, rest) = covered_step e f h [] c in (ap some (sym start), ground arith)
covered_split e f h (x ∷ xs) c =
    let (start, rest) = covered_step e f h (x ∷ xs) c in
    let (front, last) = covered_split h.blocks.end f x xs rest in
    (rw ((eqb_ℤ_iff h.blocks.start e).1 start) front, last)

forward_split :
    (h : Hop) (hs : List Hop)
    → AllForward (h ∷ hs)
    → AllForward (split_last h hs).0
      × ((split_last h hs).1.blocks.start ≤ℤ (split_last h hs).1.blocks.end)
unfolding split_last
forward_split h [] a = (tt, a.0)
forward_split h (x ∷ xs) a = let (front, last) = forward_split x xs a.1 in ((a.0, front), last)

distance-add :
    (a b c : ℤ) → a ≤ℤ b → b ≤ℤ c → pos_part (c -ℤ a) ≡ pos_part (b -ℤ a) + pos_part (c -ℤ b)
unfolding ◌-ℤ◌
distance-add a b c lo hi = ground arith

no_debt : (a b : ℤ) → a ≤ℤ b → neg_part (b -ℤ a) ≡ 0
unfolding ◌-ℤ◌
no_debt a b lo = ground arith

distance-end : (a b : ℤ) → a ≤ℤ b → a +ℤ pos (pos_part (b -ℤ a)) ≡ b
distance-end a b lo = omega (int_laws, no_debt a b lo)

module _ (m : Model) where
  run_layers-add :
      (k : ℤ) (n p : ℕ) (x : m.Hidden)
      → run_layers m k (n + p) x ≡ run_layers m (k +ℤ pos n) p (run_layers m k n x)
  unfolding run_layers
  run_layers-add k zero p x =
      let none_more : 0 + p ≡ p = omega arith in
      let same : k +ℤ pos 0 ≡ k = omega int_laws in rw (none_more, same)
  run_layers-add k (suc n) p x =
      let one_more : suc n + p ≡ suc (n + p) = omega arith in
      let same : k +ℤ pos (suc n) ≡ (k +ℤ pos 1) +ℤ pos n = omega int_laws in
      rw (one_more, same) (run_layers-add (k +ℤ pos 1) n p (m.layer k x))

  -- From layer `a` up to layer `b`.
  abbrev run_between : ℤ → ℤ → m.Hidden → m.Hidden
  run_between a b x = run_layers m a (pos_part (b -ℤ a)) x

  run_between_trans :
      (a b c : ℤ) (x : m.Hidden)
      → a ≤ℤ b
      → b ≤ℤ c
      → run_between b c (run_between a b x) ≡ run_between a c x
  run_between_trans a b c x lo hi =
      let n = pos_part (b -ℤ a) in
      let p = pos_part (c -ℤ b) in
      let total : pos_part (c -ℤ a) ≡ n + p = distance-add a b c lo hi in
      let meets : a +ℤ pos n ≡ b = distance-end a b lo in
      rw total (
        sym (
          subst (λ (z : ℤ). run_layers m a (n + p) x ≡ run_layers m z p (run_layers m a n x)) meets
            (run_layers-add a n p x)))

  run_between_self : (a : ℤ) (x : m.Hidden) → run_between a a x ≡ x
  unfolding run_layers
  run_between_self a x =
      let nothing : pos_part (a -ℤ a) ≡ 0 = (unfold ◌-ℤ◌ in ground arith) in rw nothing

  -- A host's blocks and the layers behind them.
  whole_tail :
      (b : Range) (x : m.Hidden) (f : ℤ)
      → b.start ≤ℤ b.end
      → b.end ≤ℤ f
      → run_between b.end f (forward_tail m b x) ≡ run_between b.start f x
  unfolding forward_tail size
  whole_tail b x f lo hi = run_between_trans b.start b.end f x lo hi

  module _ (env : ChainEnv) (manifest : List ChainHost) (net : Remote m) where
    middle_runs :
        (e f : ℤ) (hs : List Hop) (x : m.Hidden)
        → AllFaithful env manifest m net hs
        → all_routed env manifest hs ≡ true
        → AllForward hs
        → covered_to e hs ≡ some f
        → run_middle m env manifest net hs x ≡ ok (run_between e f x)
    unfolding run_middle covered_to all_routed
    middle_runs e f [] x faithful routed a c =
        let same : e ≡ f = ground arith in rw same (ap ok (sym (run_between_self f x)))
    middle_runs e f (h ∷ hs) x faithful routed a c =
        let (start, rest) = covered_step e f h hs c in
        let (here, later) = routed_parts env manifest h hs routed in
        rw (continue_runs env manifest m net h faithful.0 x here, run_middle)
          (middle_runs h.blocks.end f hs (forward_tail m h.blocks x) faithful.1 later a.1 rest
            ∙ ap ok (whole_tail h.blocks x f a.0 (covered_le h.blocks.end f hs a.1 rest))
            ∙ rw start)

    -- The hosts in front of this one, up to where its blocks start.
    front_runs :
        (local : Range) (t : ℤ) (front : List Hop) (ids : m.Ids)
        → AllFaithful env manifest m net front
        → all_routed env manifest front ≡ true
        → AllForward front
        → local.start ≤ℤ local.end
        → covered_to (pos 0) front ≡ some local.start
        → local.end ≡ t
        → chain_hidden m env manifest net local front ids ≡ ok (run_between (pos 0) t (m.embed ids))
    unfolding chain_hidden then_middle covered_to forward_prefix forward_tail size
    front_runs local t [] ids faithful routed a fwd c same =
        let begins : local.start ≡ pos 0 = ground arith in rw (← same, begins)
    front_runs local t (h ∷ hs) ids faithful routed a fwd c same =
        let (start, rest) = covered_step (pos 0) local.start h hs c in
        let (here, later) = routed_parts env manifest h hs routed in
        let before : h.blocks.end ≤ℤ local.start =
          covered_le h.blocks.end local.start hs a.1 rest in
        let upstream = forward_prefix m h.blocks ids in
        rw
          (
            prefix_runs env manifest m net h faithful.0 ids here,
            middle_runs h.blocks.end local.start hs upstream faithful.1 later a.1 rest,
            ← same,
          )
          (ap (λ (y : m.Hidden). ok (run_between local.start local.end y))
              (whole_tail h.blocks (m.embed ids) local.start a.0 before)
            ∙ ap ok (
                run_between_trans h.blocks.start local.start local.end (m.embed ids)
                  (omega (arith, a.0, before)) fwd)
            ∙ rw start)

from_zero : (t : ℤ) → pos_part (t -ℤ pos 0) ≡ pos_part t
unfolding ◌-ℤ◌
from_zero t = ground arith

reached : (t e : ℤ) → t ≢ pos 0 → reaches t (some e) ≡ ok tt → e ≡ t
reached t e some_layers h = ground (arith, eqb_ℤ_iff t (pos 0), eqb_ℤ_iff e t)

-- What the checks before the first step have found.
planned_front :
    (hosts : List Hop) (t : ℤ) (local : Range) {front : List Hop}
    → t ≢ pos 0
    → AllForward hosts
    → plan_chain hosts t local ≡ ok front
    → AllForward front
      × (local.start ≤ℤ local.end)
      × (covered_to (pos 0) front ≡ some local.start)
      × (local.end ≡ t)
unfolding plan_chain validate_chain_coverage
planned_front [] t local some_layers a e = absurd (ground arith)
planned_front (h ∷ hs) t local {front} some_layers a e =
    elim (Option-cases (covered_to (pos 0) (h ∷ hs))) [
      | inl gap ↦ absurd (ground arith)
      | inr (f, covered) ↦
          let tail = (split_last h hs).1.blocks in
          let at_end : f ≡ t = ground (arith, reached t f some_layers) in
          let is_front : (split_last h hs).0 ≡ front = ground arith in
          let starts : tail.start ≡ local.start =
            ground (arith, eqb_ℤ_iff tail.start local.start) in
          let ends : tail.end ≡ local.end = ground (arith, eqb_ℤ_iff tail.end local.end) in
          let (chain, last) = covered_split (pos 0) f h hs covered in
          let (fwd, tail_fwd) = forward_split h hs a in
          (
            subst AllForward is_front fwd,
            omega (
              arith,
              ap pos_part starts,
              ap neg_part starts,
              ap pos_part ends,
              ap neg_part ends,
              tail_fwd,
            ),
            subst (λ (z : List Hop). covered_to (pos 0) z ≡ some local.start) is_front
                (chain ∙ ap some starts),
            sym ends ∙ last ∙ at_end,
          )
    ]

-- If the hosts of a manifest pass the checks of `generate`, the model has a layer by the manifest, no
-- range runs backwards, and each other host with a URL answers with its own layers, then a step over
-- the chain raises a RuntimeError if one of these has no URL, and yields the hidden state of the whole
-- model if all have one: all the layers in order, each once.
pub chain_runs_whole_model :
    (m : Model) (env : ChainEnv) (manifest : List ChainHost) (net : Remote m) (total_layers : ℤ)
    (local : Range) (ids : m.Ids) {upstream : List Hop}
    → AllFaithful env manifest m net upstream
    → total_layers ≢ pos 0
    → AllForward (ordered_hosts manifest)
    → plan_chain (ordered_hosts manifest) total_layers local ≡ ok upstream
    → chain_hidden m env manifest net local upstream ids ≡ (
        if all_routed env manifest upstream
        then ok (run_layers m (pos 0) (pos_part total_layers) (m.embed ids))
        else err runtime_error)
chain_runs_whole_model m env manifest net t local ids {upstream} faithful some_layers a e =
    let (front, fwd, starts, ends) =
      planned_front (ordered_hosts manifest) t local some_layers a e in
    elim (Bool-cases (all_routed env manifest upstream)) [
      | inl routed ↦
          rw (routed, ← from_zero t)
            (front_runs m env manifest net local t upstream ids faithful routed front fwd starts
              ends)
      | inr unrouted ↦
          rw unrouted (chain_refused env manifest m net local upstream ids faithful unrouted)
    ]
