-- ===== src/Registry/Range.antt =====
-- Block ranges: `parse_range` and `format_range` of orchestrator/app/registry.py (and the copy of
-- `parse_range` in shard_manager/local_runner.py), with Python's int() and str() of an int.
-- The other modules hold a `block_indices` text as the pair that `parse_range` reads from it.
pub mod RoundTrip
use blitzwing.Base.{
  ℕ, zero, suc, ◌+◌, ◌-◌, ◌*◌, ◌/◌, ◌%◌, ◌≡◌, refl, Bool, true, false, ◌&&◌, Option, none, some,
  List, [], ◌∷◌, ◌++◌, ltb, ◌==◌, if◌then◌else◌,
}
use blitzwing.Base.Int.{ℤ, pos, negsuc, ◌-ℤ◌}
use blitzwing.Base.Text.{Text, codes, split, strip, is_digit}
use blitzwing.Base.Exec.{Result, ok, err, value_error}

pub record Range : Type 0 where
  pub start : ℤ
  pub end : ℤ

abbrev pub range : ℤ → ℤ → Range
range s e = record { start = s; end = e }

-- The digits of int(), with single underscores between them; `after` tells that a digit came
-- just before.
int_digits : Bool → ℕ → Text → Option ℕ
int_digits after n [] = if after then some n else none
int_digits after n (c ∷ s) =
    let next = int_digits true (n * 10 + (c - 48)) s in
    let skip = int_digits false n s in
    if is_digit c then next else if c == b'_' && after then skip else none

abbrev negate : ℕ → ℤ
negate zero = pos zero
negate (suc n) = negsuc n

abbrev or_value_error : (ℕ → ℤ) → Option ℕ → Result ℤ
or_value_error f none = err value_error
or_value_error f (some n) = ok (f n)

signed : Text → Result ℤ
unfolding int_digits
signed [] = err value_error
signed (c ∷ s) =
    if c == b'-'
    then or_value_error negate (int_digits false 0 s)
    else if c == b'+'
    then or_value_error pos (int_digits false 0 s)
    else or_value_error pos (int_digits false 0 (c ∷ s))

-- int(text)
unfoldable pub to_int : Text → Result ℤ
unfolding signed strip
to_int t = signed (strip t)

abbrev both : Result ℤ → Result ℤ → Result Range
both (ok s) (ok e) = ok (range s e)
both (ok s) (err x) = err x
both (err x) e = err x

abbrev two_parts : List Text → Result Range
unfolding to_int
two_parts (s ∷ e ∷ []) = both (to_int s) (to_int e)
two_parts _ = err value_error

-- Unpacking fails unless there are two parts.
unfoldable pub parse_range : Text → Result Range
unfolding split to_int
parse_range block_indices = two_parts (split b':' block_indices)

-- The decimal digits of `n`, in front of `out`; the fuel is more than `n`.
emit : ℕ → ℕ → Text → Text
emit zero n out = out
emit (suc f) n out =
    let rest = emit f (n / 10) ((48 + n % 10) ∷ out) in if ltb n 10 then (48 + n) ∷ out else rest

-- str() of an int
unfoldable pub show : ℤ → Text
unfolding emit
show (pos n) = emit (suc n) n []
show (negsuc n) = b'-' ∷ emit (suc (suc n)) (suc n) []

unfoldable pub format_range : ℤ → ℤ → Text
unfolding show
format_range start end = show start ++ b':' ∷ show end

-- end - start
unfoldable pub size : Range → ℤ
unfolding ◌-ℤ◌
size r = r.end -ℤ r.start
