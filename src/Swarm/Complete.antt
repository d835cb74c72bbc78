-- ===== src/Swarm/Complete.antt =====
-- The layers and the sizes of a manifest that `is_complete` accepts.
use blitzwing.Base.{
  ℕ, ◌+◌, ◌≡◌, refl, sym, ap, ◌∙◌, Bool, true, ◌&&◌, inl, inr, Option, none, some, List, [], ◌∷◌,
  arith, Bool-cases, if◌then◌else◌,
}
use blitzwing.Base.Int.{ℤ, pos, ltb_ℤ, leb_ℤ, eqb_ℤ, ◌≤ℤ◌, ◌<ℤ◌, ◌+ℤ◌, ◌-ℤ◌, int_laws, eqb_ℤ_iff}
use blitzwing.Registry.Range.{size}
use blitzwing.Registry.Host.{keep}
use blitzwing.Registry.Cover.{covers, one_if}
use blitzwing.Swarm.Manifest.{
  LayerSpan, SwarmManifest, span_start, span_end, insert_span, sort_spans, is_nonempty, chain_end,
  ends_at, is_chain, is_complete,
}

-- How many spans hold the layer.
unfoldable pub held : ℤ → List LayerSpan → ℕ
held k [] = 0
held k (s ∷ ss) = one_if (covers k s.block_indices) + held k ss

-- The sum of the spans' sizes.
unfoldable pub total_size : List LayerSpan → ℤ
total_size [] = pos 0
total_size (s ∷ ss) = size s.block_indices +ℤ total_size ss

abbrev pub AllNonempty : List LayerSpan → Type 0
AllNonempty [] = Unit {0}
AllNonempty (s ∷ ss) = (span_start s <ℤ span_end s) × AllNonempty ss

held-insert_span :
    (k : ℤ) (x : LayerSpan) (ys : List LayerSpan)
    → held k (insert_span x ys) ≡ one_if (covers k x.block_indices) + held k ys
unfolding held insert_span
held-insert_span k x [] = refl
held-insert_span k x (y ∷ ys) = elim (Bool-cases (leb_ℤ (span_start x) (span_start y))) [
  | inl before ↦ rw before
  | inr after ↦ rw after (omega (arith, held-insert_span k x ys))
]

pub held-sort_spans : (k : ℤ) (xs : List LayerSpan) → held k (sort_spans xs) ≡ held k xs
unfolding held sort_spans
held-sort_spans k [] = refl
held-sort_spans k (x ∷ xs) =
    omega (arith, held-insert_span k x (sort_spans xs), held-sort_spans k xs)

held-keep : (k : ℤ) (xs : List LayerSpan) → held k (keep is_nonempty xs) ≡ held k xs
unfolding held keep
held-keep k [] = refl
held-keep k (x ∷ xs) = elim (Bool-cases (is_nonempty x)) [
  | inl full ↦ rw full (omega (arith, held-keep k xs))
  | inr empty ↦ rw empty (ground (arith, held-keep k xs))
]

AllNonempty-keep : (xs : List LayerSpan) → AllNonempty (keep is_nonempty xs)
unfolding keep
AllNonempty-keep [] = tt
AllNonempty-keep (x ∷ xs) = elim (Bool-cases (is_nonempty x)) [
  | inl full ↦ rw full (ground arith, AllNonempty-keep xs)
  | inr empty ↦ rw empty (AllNonempty-keep xs)
]

AllNonempty-insert_span :
    (x : LayerSpan) (ys : List LayerSpan)
    → span_start x <ℤ span_end x
    → AllNonempty ys
    → AllNonempty (insert_span x ys)
unfolding insert_span
AllNonempty-insert_span x [] h hs = (h, tt)
AllNonempty-insert_span x (y ∷ ys) h hs = elim (Bool-cases (leb_ℤ (span_start x) (span_start y))) [
  | inl before ↦ rw before (h, hs)
  | inr after ↦ rw after (hs.0, AllNonempty-insert_span x ys h hs.1)
]

pub AllNonempty-sort_spans : (xs : List LayerSpan) → AllNonempty xs → AllNonempty (sort_spans xs)
unfolding sort_spans
AllNonempty-sort_spans [] h = tt
AllNonempty-sort_spans (x ∷ xs) h =
    AllNonempty-insert_span x (sort_spans xs) h.0 (AllNonempty-sort_spans xs h.1)

abbrev pub between : ℤ → ℤ → ℤ → Bool
between k e f = leb_ℤ e k && ltb_ℤ k f

chain_step :
    (e f : ℤ) (s : LayerSpan) (ss : List LayerSpan)
    → chain_end e (s ∷ ss) ≡ some f
    → (span_start s ≡ e) × (chain_end (span_end s) ss ≡ some f)
unfolding chain_end
chain_step e f s ss c = elim (Bool-cases (eqb_ℤ (span_start s) e)) [
  | inl meets ↦ ((eqb_ℤ_iff (span_start s) e).0 meets, ground arith)
  | inr gap ↦ absurd (ground arith)
]

chain_done : (e f : ℤ) → chain_end e [] ≡ some f → e ≡ f
unfolding chain_end
chain_done e f c = ground arith

pub between-add :
    (k a b c : ℤ)
    → a <ℤ b
    → b ≤ℤ c
    → one_if (between k a b) + one_if (between k b c) ≡ one_if (between k a c)
between-add k a b c h l = ground arith

between-empty : (k a : ℤ) → one_if (between k a a) ≡ 0
between-empty k a = ground arith

-- A chain of spans holds the layers between its ends once each.
chain_le : (e f : ℤ) (ss : List LayerSpan) → AllNonempty ss → chain_end e ss ≡ some f → e ≤ℤ f
chain_le e f [] h c = rw (chain_done e f c) (omega arith)
chain_le e f (s ∷ ss) h c =
    let (start, rest) = chain_step e f s ss c in
    let later : span_end s ≤ℤ f = chain_le (span_end s) f ss h.1 rest in
    rw (← start) (omega (arith, h.0, later))

chain_held :
    (k e f : ℤ) (ss : List LayerSpan)
    → AllNonempty ss
    → chain_end e ss ≡ some f
    → held k ss ≡ one_if (between k e f)
unfolding held
chain_held k e f [] h c = rw (chain_done e f c) (sym (between-empty k f))
chain_held k e f (s ∷ ss) h c =
    let (start, rest) = chain_step e f s ss c in
    rw (← start, chain_held k (span_end s) f ss h.1 rest)
      (between-add k (span_start s) (span_end s) f h.0 (chain_le (span_end s) f ss h.1 rest))

chain_size : (e f : ℤ) (ss : List LayerSpan) → chain_end e ss ≡ some f → total_size ss ≡ f -ℤ e
unfolding total_size size
chain_size e f [] c = rw (chain_done e f c) (omega int_laws)
chain_size e f (s ∷ ss) c =
    let (start, rest) = chain_step e f s ss c in
    rw (← start, chain_size (span_end s) f ss rest) (omega int_laws)

total_size-insert_span :
    (x : LayerSpan) (ys : List LayerSpan)
    → total_size (insert_span x ys) ≡ size x.block_indices +ℤ total_size ys
unfolding total_size insert_span
total_size-insert_span x [] = refl
total_size-insert_span x (y ∷ ys) = elim (Bool-cases (leb_ℤ (span_start x) (span_start y))) [
  | inl before ↦ rw before
  | inr after ↦ rw (after, total_size-insert_span x ys) (omega int_laws)
]

pub total_size-sort_spans : (xs : List LayerSpan) → total_size (sort_spans xs) ≡ total_size xs
unfolding total_size sort_spans
total_size-sort_spans [] = refl
total_size-sort_spans (x ∷ xs) =
    rw (total_size-insert_span x (sort_spans xs), total_size-sort_spans xs)

ends_at-eq : (t : ℤ) (o : Option ℤ) → ends_at t o ≡ true → o ≡ some t
ends_at-eq t none h = cc
ends_at-eq t (some e) h = ap some ((eqb_ℤ_iff e t).0 h)

chain_of :
    (t : ℤ) (ss : List LayerSpan)
    → is_chain t ss ≡ true
    → chain_end (pos 0) (sort_spans ss) ≡ some t
unfolding sort_spans chain_end
chain_of t [] h = cc
chain_of t (s ∷ ss) h = ends_at-eq t (chain_end (pos 0) (sort_spans (s ∷ ss))) h

-- What `is_complete` has checked.
complete_chain :
    (m : SwarmManifest)
    → is_complete m ≡ true
    → chain_end (pos 0) (sort_spans (keep is_nonempty m.spans)) ≡ some m.total_layers
complete_chain m h = chain_of m.total_layers (keep is_nonempty m.spans) (unfold is_complete in h)

-- A complete manifest holds each layer of the model in exactly one span, and no other layer.
pub complete_holds_each_layer_once :
    (m : SwarmManifest)
    → is_complete m ≡ true
    → (k : ℤ) → held k m.spans ≡ (if leb_ℤ (pos 0) k && ltb_ℤ k m.total_layers then 1 else 0)
complete_holds_each_layer_once m h k =
    sym (held-keep k m.spans)
    ∙ sym (held-sort_spans k (keep is_nonempty m.spans))
    ∙ chain_held k (pos 0) m.total_layers (sort_spans (keep is_nonempty m.spans))
        (AllNonempty-sort_spans (keep is_nonempty m.spans) (AllNonempty-keep m.spans))
        (complete_chain m h)

-- In a complete manifest the sizes of the spans that are not empty sum to the layer count.
pub complete_sizes :
    (m : SwarmManifest)
    → is_complete m ≡ true
    → total_size (keep is_nonempty m.spans) ≡ m.total_layers
complete_sizes m h =
    sym (total_size-sort_spans (keep is_nonempty m.spans))
    ∙ chain_size (pos 0) m.total_layers (sort_spans (keep is_nonempty m.spans)) (complete_chain m h)
    ∙ (omega int_laws)

-- Spans that are not empty all stay.
pub keep_nonempty : (ss : List LayerSpan) → AllNonempty ss → keep is_nonempty ss ≡ ss
unfolding keep
keep_nonempty [] h = refl
keep_nonempty (s ∷ ss) h = rw (keep_nonempty ss h.1) (ground arith)
