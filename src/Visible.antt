-- ===== src/Visible.antt =====
-- `verify_blocks_visible` of orchestrator/app/swarm_verify.py: the polls of the Petals DHT before
-- a hand-over. What the sequence manager of the Petals library shows at a poll is a parameter, as
-- is the number of polls that the deadline leaves time for.
use blitzwing.Base.{
  ℕ, zero, suc, ◌≡◌, refl, ap, ◌∙◌, Bool, true, false, ◌⊎◌, inl, inr, Option, none, some, List, [],
  ◌∷◌, arith, Bool-cases, if◌then◌else◌,
}
use blitzwing.Base.Int.{ℤ, pos, pos_part, ltb_ℤ, ◌+ℤ◌, ◌-ℤ◌, ◌≤ℤ◌, ◌<ℤ◌, int_laws}
use blitzwing.Base.Exec.{Result, ok, err, runtime_error}
use blitzwing.Registry.Range.{Range, size}

-- Whether some server holds a block, at one poll; none if the look-up raises.
abbrev pub Poll : Type 0
Poll = Option (ℤ → Bool)

-- The blocks of range(k, k + n) that no server holds.
unfoldable pub missing_from : (ℤ → Bool) → ℤ → ℕ → List ℤ
unfolding ◌+ℤ◌
missing_from held k zero = []
missing_from held k (suc n) =
    let rest = missing_from held (k +ℤ pos 1) n in if held k then rest else k ∷ rest

unfoldable pub missing : (ℤ → Bool) → Range → List ℤ
unfolding missing_from size
missing held b = missing_from held b.start (pos_part (size b))

abbrev pub is_none_missing : List ℤ → Bool
is_none_missing [] = true
is_none_missing (k ∷ ks) = false

-- The loop ends at the first poll that misses no block.
unfoldable pub verify_blocks_visible : Range → List Poll → Result (Unit {0})
unfolding missing
verify_blocks_visible b [] = err runtime_error
verify_blocks_visible b (none ∷ ps) = verify_blocks_visible b ps
verify_blocks_visible b (some held ∷ ps) =
    let rest = verify_blocks_visible b ps in
    if is_none_missing (missing held b) then ok tt else rest

-- At some poll every block of the range is held by a server.
pub data WasVisible (b : Range) : List Poll → Type 0 where
  now :
      {held : ℤ → Bool} {ps : List Poll}
      → ((k : ℤ) → b.start ≤ℤ k → k <ℤ b.end → held k ≡ true)
      → WasVisible b (some held ∷ ps)
  later : {p : Poll} {ps : List Poll} → WasVisible b ps → WasVisible b (p ∷ ps)

s_or_later : (s k : ℤ) → s ≤ℤ k → (k ≡ s) ⊎ (s <ℤ k)
s_or_later s k lo = elim (Bool-cases (ltb_ℤ s k)) [
  | inl above ↦ inr (ground arith)
  | inr below ↦ let ge : k ≤ℤ s = ground arith in inl (omega (int_laws, lo, ge))
]

all_held :
    (held : ℤ → Bool) (s : ℤ) (n : ℕ)
    → is_none_missing (missing_from held s n) ≡ true
    → (k : ℤ) → s ≤ℤ k
    → k <ℤ (s +ℤ pos n)
    → held k ≡ true
unfolding missing_from
all_held held s zero e k lo hi = absurd (omega (int_laws, lo, hi))
all_held held s (suc n) e k lo hi = elim (Bool-cases (held s)) [
  | inr free ↦ absurd (ground arith)
  | inl taken ↦
      let rest : is_none_missing (missing_from held (s +ℤ pos 1) n) ≡ true = ground arith in
      elim (s_or_later s k lo) [
        | inl same ↦ ap held same ∙ taken
        | inr above ↦
            all_held held (s +ℤ pos 1) n rest k (omega (int_laws, above)) (omega (int_laws, hi))
      ]
]

none_missing :
    (held : ℤ → Bool) (s : ℤ) (n : ℕ)
    → ((k : ℤ) → s ≤ℤ k → k <ℤ (s +ℤ pos n) → held k ≡ true)
    → is_none_missing (missing_from held s n) ≡ true
unfolding missing_from
none_missing held s zero h = refl
none_missing held s (suc n) h = rw (h s (omega arith) (omega int_laws)) (
    none_missing held (s +ℤ pos 1) n (λ k lo hi. h k (omega (int_laws, lo)) (omega (int_laws, hi))))

-- The last layer of range(s, e), whichever way the range runs.
before_end : (s e k : ℤ) → s ≤ℤ k → k <ℤ e → k <ℤ (s +ℤ pos (pos_part (e -ℤ s)))
unfolding ◌+ℤ◌ ◌-ℤ◌
before_end s e k lo hi = ground arith

before_end_back : (s e k : ℤ) → s ≤ℤ k → k <ℤ (s +ℤ pos (pos_part (e -ℤ s))) → k <ℤ e
unfolding ◌+ℤ◌ ◌-ℤ◌
before_end_back s e k lo hi = ground arith

-- A poll at which every block of the range is held by a server makes the check pass.
pub visible_accepted :
    (b : Range) (ps : List Poll) → WasVisible b ps → verify_blocks_visible b ps ≡ ok tt
unfolding verify_blocks_visible missing size
visible_accepted b [] v = elim v [ ]
visible_accepted b (p ∷ ps) (now {held} h) = rw (
    none_missing held b.start (pos_part (b.end -ℤ b.start))
      (λ k lo hi. h k lo (before_end_back b.start b.end k lo hi)))
visible_accepted b (none ∷ ps) (later v) = visible_accepted b ps v
visible_accepted b (some held ∷ ps) (later v) = ground (arith, visible_accepted b ps v)

-- If the check passes, there was a poll at which every block of the range was held by a server.
pub accepted_visible :
    (b : Range) (ps : List Poll) → verify_blocks_visible b ps ≡ ok tt → WasVisible b ps
unfolding verify_blocks_visible missing size
accepted_visible b [] e = absurd (ground arith)
accepted_visible b (none ∷ ps) e = later (accepted_visible b ps e)
accepted_visible b (some held ∷ ps) e =
    elim (Bool-cases (is_none_missing (missing_from held b.start (pos_part (b.end -ℤ b.start))))) [
      | inl full ↦ now (λ k lo hi.
          all_held held b.start (pos_part (b.end -ℤ b.start)) full k lo
            (before_end b.start b.end k lo hi))
      | inr some_missing ↦ later (accepted_visible b ps (ground arith))
    ]
