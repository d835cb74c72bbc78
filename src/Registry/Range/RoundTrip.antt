-- ===== src/Registry/Range/RoundTrip.antt =====
-- Printing and reading a range.
use mathlib.Core.List.{reverse, reverse-append, reverse-reverse}
use blitzwing.Base.{
  ℕ, zero, suc, ◌+◌, ◌/◌, ◌%◌, ◌<◌, ◌≡◌, refl, ◌∙◌, Bool, true, false, ◌⊎◌, inl, inr, [], ◌∷◌, ◌++◌,
  arith, ltb, ◌==◌, Bool-cases,
}
use blitzwing.Base.Int.{ℤ, pos, negsuc}
use blitzwing.Base.Text.{Text, split, strip, drop_while, rstrip_by, is_blank, is_digit}
use blitzwing.Base.Exec.{ok}
use blitzwing.Registry.Range.{
  range, int_digits, or_value_error, signed, to_int, emit, show, parse_range, format_range,
}

-- Every character is a digit or a minus sign.
abbrev IsPlain : Text → Type 0
IsPlain [] = Unit {0}
IsPlain (c ∷ s) = ((is_digit c ≡ true) ⊎ (c ≡ b'-')) × IsPlain s

emit-IsPlain : (f n : ℕ) (out : Text) → IsPlain out → IsPlain (emit f n out)
unfolding emit
emit-IsPlain zero n out h = h
emit-IsPlain (suc f) n out h = elim (Bool-cases (ltb n 10)) [
  | inl small ↦ rw small (inl (ground arith), h)
  | inr big ↦ rw big (emit-IsPlain f (n / 10) ((48 + n % 10) ∷ out) (inl (ground arith), h))
]

show-IsPlain : (i : ℤ) → IsPlain (show i)
unfolding show
show-IsPlain (pos n) = emit-IsPlain (suc n) n [] tt
show-IsPlain (negsuc n) = (inr refl, emit-IsPlain (suc (suc n)) (suc n) [] tt)

IsPlain-append : (s t : Text) → IsPlain s → IsPlain t → IsPlain (s ++ t)
IsPlain-append [] t h k = k
IsPlain-append (c ∷ s) t h k = (h.0, IsPlain-append s t h.1 k)

IsPlain-reverse : (s : Text) → IsPlain s → IsPlain (reverse s)
IsPlain-reverse [] h = h
IsPlain-reverse (c ∷ s) h =
    rw (reverse-append (c ∷ []) s)
      (IsPlain-append (reverse s) (c ∷ []) (IsPlain-reverse s h.1) (h.0, tt))

drop_while-IsPlain : (s : Text) → IsPlain s → drop_while is_blank s ≡ s
unfolding drop_while
drop_while-IsPlain [] h = refl
drop_while-IsPlain (c ∷ s) h = ground arith

strip-IsPlain : (s : Text) → IsPlain s → strip s ≡ s
unfolding strip rstrip_by
strip-IsPlain s h =
    rw (drop_while-IsPlain s h, drop_while-IsPlain (reverse s) (IsPlain-reverse s h))
      (reverse-reverse s)

-- A text with no separator in front of one.
split-IsPlain : (s t : Text) → IsPlain s → split b':' (s ++ b':' ∷ t) ≡ s ∷ split b':' t
unfolding split
split-IsPlain [] t h = refl
split-IsPlain (c ∷ s) t h = rw (split-IsPlain s t h.1) (ground arith)

split-IsPlain_last : (s : Text) → IsPlain s → split b':' s ≡ s ∷ []
unfolding split
split-IsPlain_last [] h = refl
split-IsPlain_last (c ∷ s) h = rw (split-IsPlain_last s h.1) (ground arith)

-- The digits of `n` lead int() from 0 to `n`.
int_digits-emit :
    (f n : ℕ) (after : Bool) (out : Text)
    → n < f
    → int_digits after 0 (emit f n out) ≡ int_digits true n out
unfolding emit int_digits
int_digits-emit zero n after out h = elim h [ ]
int_digits-emit (suc f) n after out h = elim (Bool-cases (ltb n 10)) [
  | inl small ↦ rw small (ground arith)
  | inr big ↦
      rw big
        (int_digits-emit f (n / 10) after ((48 + n % 10) ∷ out) (ground arith) ∙ (ground arith))
]

abbrev StartsWithDigit : Text → Type 0
StartsWithDigit [] = ⊥
StartsWithDigit (c ∷ s) = is_digit c ≡ true

emit-StartsWithDigit : (f n : ℕ) (out : Text) → StartsWithDigit out → StartsWithDigit (emit f n out)
unfolding emit
emit-StartsWithDigit zero n out h = h
emit-StartsWithDigit (suc f) n out h = elim (Bool-cases (ltb n 10)) [
  | inl small ↦ rw small (ground arith)
  | inr big ↦ rw big (emit-StartsWithDigit f (n / 10) ((48 + n % 10) ∷ out) (ground arith))
]

show_digits : (n : ℕ) → StartsWithDigit (emit (suc n) n [])
unfolding emit
show_digits n = elim (Bool-cases (ltb n 10)) [
  | inl small ↦ rw small (ground arith)
  | inr big ↦ rw big (emit-StartsWithDigit n (n / 10) ((48 + n % 10) ∷ []) (ground arith))
]

signed-digits :
    (s : Text) → StartsWithDigit s → signed s ≡ or_value_error pos (int_digits false 0 s)
unfolding signed
signed-digits [] h = absurd h
signed-digits (c ∷ s) h = elim (Bool-cases (c == b'-')) [
  | inl minus ↦ absurd (ground arith)
  | inr other ↦ rw other (ground arith)
]

signed-show : (i : ℤ) → signed (show i) ≡ ok i
unfolding show
signed-show (pos n) =
    rw
      (
        signed-digits (emit (suc n) n []) (show_digits n),
        int_digits-emit (suc n) n false [] (omega arith),
      )
      (unfold int_digits in refl)
signed-show (negsuc n) =
    unfold signed in
    rw (int_digits-emit (suc (suc n)) (suc n) false [] (omega arith)) (unfold int_digits in refl)

to_int-show : (i : ℤ) → to_int (show i) ≡ ok i
to_int-show i = unfold to_int in rw (strip-IsPlain (show i) (show-IsPlain i)) (signed-show i)

-- What `format_range` writes for two integers, `parse_range` reads back as the same two integers.
pub parse_range-format_range :
    (start end : ℤ) → parse_range (format_range start end) ≡ ok (range start end)
unfolding parse_range format_range
parse_range-format_range start end =
    rw
      (
        split-IsPlain (show start) (show end) (show-IsPlain start),
        split-IsPlain_last (show end) (show-IsPlain end),
      )
      (rw (to_int-show start, to_int-show end))
