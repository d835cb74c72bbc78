-- ===== src/Swarm/Tiling.antt =====
-- Sorted spans, the layers that they hold, and the chain that they form.
use blitzwing.Base.{◌≡◌, refl, ap, inl, inr, some, List, [], ◌∷◌, arith, Bool-cases}
use blitzwing.Base.Int.{ℤ, pos, leb_ℤ, eqb_ℤ_iff, ◌≤ℤ◌, ◌<ℤ◌, ◌-ℤ◌, int_laws}
use blitzwing.Registry.Cover.{one_if}
use blitzwing.Swarm.Manifest.{LayerSpan, span_start, span_end, insert_span, sort_spans, chain_end}
use blitzwing.Swarm.Complete.{held, AllNonempty, between, between-add}

-- Every span starts at the layer or behind it.
abbrev pub AllFrom : ℤ → List LayerSpan → Type 0
AllFrom k [] = Unit {0}
AllFrom k (s ∷ ss) = (k ≤ℤ span_start s) × AllFrom k ss

abbrev pub IsSorted : List LayerSpan → Type 0
IsSorted [] = Unit {0}
IsSorted (s ∷ ss) = AllFrom (span_start s) ss × IsSorted ss

AllFrom-mono : (k j : ℤ) (ss : List LayerSpan) → k ≤ℤ j → AllFrom j ss → AllFrom k ss
AllFrom-mono k j [] le a = tt
AllFrom-mono k j (s ∷ ss) le a = (omega (arith, le, a.0), AllFrom-mono k j ss le a.1)

AllFrom-insert_span :
    (k : ℤ) (x : LayerSpan) (ys : List LayerSpan)
    → k ≤ℤ span_start x
    → AllFrom k ys
    → AllFrom k (insert_span x ys)
unfolding insert_span
AllFrom-insert_span k x [] le a = (le, tt)
AllFrom-insert_span k x (y ∷ ys) le a = elim (Bool-cases (leb_ℤ (span_start x) (span_start y))) [
  | inl before ↦ rw before (le, a)
  | inr after ↦ rw after (a.0, AllFrom-insert_span k x ys le a.1)
]

IsSorted-insert_span :
    (x : LayerSpan) (ys : List LayerSpan) → IsSorted ys → IsSorted (insert_span x ys)
unfolding insert_span
IsSorted-insert_span x [] h = (tt, tt)
IsSorted-insert_span x (y ∷ ys) h = elim (Bool-cases (leb_ℤ (span_start x) (span_start y))) [
  | inl before ↦
      let le : span_start x ≤ℤ span_start y = ground arith in
      rw before ((le, AllFrom-mono (span_start x) (span_start y) ys le h.0), h)
  | inr after ↦
      let le : span_start y ≤ℤ span_start x = ground arith in
      rw after (AllFrom-insert_span (span_start y) x ys le h.0, IsSorted-insert_span x ys h.1)
]

pub IsSorted-sort_spans : (xs : List LayerSpan) → IsSorted (sort_spans xs)
unfolding sort_spans
IsSorted-sort_spans [] = tt
IsSorted-sort_spans (x ∷ xs) = IsSorted-insert_span x (sort_spans xs) (IsSorted-sort_spans xs)

held_before : (k j : ℤ) (ss : List LayerSpan) → AllFrom j ss → k <ℤ j → held k ss ≡ 0
unfolding held
held_before k j [] a lt = refl
held_before k j (s ∷ ss) a lt = ground (arith, held_before k j ss a.1 lt, a.0)

-- `held` says of the spans that each layer from `e` up to `f` is in one of them and no other is.
abbrev pub Tiles : ℤ → ℤ → List LayerSpan → Type 0
Tiles e f ss = (k : ℤ) → held k ss ≡ one_if (between k e f)

Tiles-nil : (e f : ℤ) → e ≤ℤ f → Tiles e f [] → e ≡ f
unfolding held
Tiles-nil e f le h = let ge : f ≤ℤ e = ground (arith, h e) in omega (int_laws, le, ge)

module _ (e f : ℤ) (s : LayerSpan) (ss : List LayerSpan) (le : e ≤ℤ f) (full : AllNonempty (s ∷ ss))
    (sorted : IsSorted (s ∷ ss)) (h : Tiles e f (s ∷ ss)) where
  inside : (k : ℤ) → span_start s ≤ℤ k → k <ℤ span_end s → (e ≤ℤ k) × (k <ℤ f)
  unfolding held
  inside k lo hi = ground (arith, h k)

  Tiles-start : span_start s ≡ e
  unfolding held
  Tiles-start =
      let (lo, hi) = inside (span_start s) (omega arith) full.0 in
      elim (Bool-cases (leb_ℤ (span_start s) e)) [
        | inl ge ↦ let back : span_start s ≤ℤ e = ground arith in omega (int_laws, lo, back)
        | inr later ↦
            let lt : e <ℤ span_start s = ground arith in
            absurd (ground (arith, h e, held_before e (span_start s) ss sorted.0 lt))
      ]

  Tiles-end : span_end s ≤ℤ f
  Tiles-end =
      let (lo, hi) = inside (span_end s -ℤ pos 1) (omega (int_laws, full.0)) (omega int_laws) in
      omega (int_laws, hi)

  Tiles-rest : Tiles (span_end s) f ss
  unfolding held
  Tiles-rest k = omega (
    arith,
    h k,
    ap (λ (z : ℤ). one_if (between k z f)) Tiles-start,
    between-add k (span_start s) (span_end s) f full.0 Tiles-end,
  )

pub Tiles-chain :
    (e f : ℤ) (ss : List LayerSpan)
    → e ≤ℤ f
    → AllNonempty ss
    → IsSorted ss
    → Tiles e f ss
    → chain_end e ss ≡ some f
unfolding chain_end
Tiles-chain e f [] le full sorted h = ap some (Tiles-nil e f le h)
Tiles-chain e f (s ∷ ss) le full sorted h =
    rw ((eqb_ℤ_iff (span_start s) e).1 (Tiles-start e f s ss le full sorted h)) (
      Tiles-chain (span_end s) f ss (Tiles-end e f s ss le full sorted h) full.1 sorted.1
        (Tiles-rest e f s ss le full sorted h))
