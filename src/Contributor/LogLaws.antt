-- ===== src/Contributor/LogLaws.antt =====
-- The search in the log of the local server: prefixes, quotes and ids.
use blitzwing.Base.{
  ℕ, zero, ◌+◌, ◌≡◌, refl, ◌∙◌, Bool, true, false, not, ◌&&◌, none, some, [], ◌∷◌, ◌++◌, arith,
  ◌==◌, length, Bool-cases, Option-cases, inl, inr,
}
use blitzwing.Base.Text.{Text, codes, is_empty}
use blitzwing.Contributor.Log.{
  all_alnum, marker, p2p, behind, id_behind, last_id, until_quote, match_at, find_ids,
}

-- No character of the text is this one.
unfoldable pub lacks : ℕ → Text → Bool
lacks c [] = true
lacks c (a ∷ s) = not (a == c) && lacks c s

pub behind-append : (p s : Text) → behind p (p ++ s) ≡ some s
unfolding behind
behind-append [] s = refl
behind-append (c ∷ p) s = ground (arith, behind-append p s)

-- A prefix of letters and digits is one of them too.
behind-alnum : (p i : Text) → all_alnum i ≡ true → all_alnum p ≡ false → behind p i ≡ none
unfolding behind all_alnum
behind-alnum [] i alnum other = absurd (ground arith)
behind-alnum (c ∷ p) [] alnum other = refl
behind-alnum (c ∷ p) (a ∷ i) alnum other = ground (arith, behind-alnum p i)

id_behind-alnum : (i : Text) → all_alnum i ≡ true → id_behind i ≡ none
unfolding id_behind all_alnum
id_behind-alnum i alnum = rw (behind-alnum p2p i alnum refl)

last_id-alnum : (i : Text) → all_alnum i ≡ true → last_id i ≡ none
unfolding last_id all_alnum
last_id-alnum [] alnum = refl
last_id-alnum (c ∷ i) alnum = rw (last_id-alnum i (ground arith)) (id_behind-alnum (c ∷ i) alnum)

id_behind-slash : (i : Text) → all_alnum i ≡ true → id_behind (codes "/" ++ i) ≡ none
unfolding id_behind behind all_alnum
id_behind-slash i alnum = rw (behind-alnum (codes "p2p/") i alnum refl)

id_behind-p2p : (i : Text) → all_alnum i ≡ true → is_empty i ≡ false → id_behind (p2p ++ i) ≡ some i
unfolding id_behind
id_behind-p2p i alnum full = rw (behind-append p2p i, full, alnum)

-- Without the first slash there is no id.
last_id-cut : (i : Text) → all_alnum i ≡ true → last_id (codes "p2p/" ++ i) ≡ none
unfolding last_id id_behind all_alnum
last_id-cut i alnum = rw (last_id-alnum i alnum, id_behind-slash i alnum)

pub last_id-p2p : (i : Text) → all_alnum i ≡ true → is_empty i ≡ false → last_id (p2p ++ i) ≡ some i
unfolding last_id
last_id-p2p i alnum full = rw (last_id-cut i alnum) (id_behind-p2p i alnum full)

pub last_id-append : (a t i : Text) → last_id t ≡ some i → last_id (a ++ t) ≡ some i
unfolding last_id
last_id-append [] t i e = e
last_id-append (c ∷ a) t i e = rw (last_id-append a t i e)

pub until_quote-append :
    (body after : Text)
    → lacks 39 body ≡ true
    → until_quote (body ++ 39 ∷ after) ≡ some (body, after)
unfolding until_quote lacks
until_quote-append [] after no_quote = refl
until_quote-append (c ∷ body) after no_quote = ground (arith, until_quote-append body after)

pub find_ids-skip : (xs rest : Text) → find_ids (length xs) (xs ++ rest) ≡ find_ids zero rest
unfolding find_ids
find_ids-skip [] rest = refl
find_ids-skip (x ∷ xs) rest = find_ids-skip xs rest

-- The text behind which a line of the server may follow.
abbrev pub IsNext : Text → Type 0
IsNext [] = Unit {0}
IsNext (c ∷ s) = c ≡ b'R'

-- The words of the marker are nowhere in the text.
unfoldable pub lacks_marker : Text → Bool
unfolding behind
lacks_marker [] = true
lacks_marker (c ∷ s) = elim (behind marker (c ∷ s)) [ some t ↦ false | none ↦ lacks_marker s ]

-- A word with no capital R is not begun by a text and ended by the line behind it.
behind-next :
    (p s rest : Text)
    → lacks b'R' p ≡ true
    → IsNext rest
    → behind p s ≡ none
    → behind p (s ++ rest) ≡ none
unfolding behind lacks
behind-next [] s rest other next e = absurd (cc e)
behind-next (c ∷ p) [] [] other next e = refl
behind-next (c ∷ p) [] (r ∷ rest) other next e = ground arith
behind-next (c ∷ p) (a ∷ s) rest other next e = elim (Bool-cases (a == c)) [
  | inl same ↦ rw same (behind-next p s rest (ground arith) next (rw same at e))
  | inr differs ↦ rw differs refl
]

-- The marker without its capital R.
abbrev pub words : Text
words = codes "unning a server on ['"

pub words-lacks : lacks b'R' words ≡ true
unfolding lacks
words-lacks = refl

behind-next_marker :
    (c : ℕ) (s rest : Text)
    → IsNext rest
    → behind marker (c ∷ s) ≡ none
    → behind marker (c ∷ (s ++ rest)) ≡ none
unfolding behind
behind-next_marker c s rest next e = elim (Bool-cases (c == b'R')) [
  | inl same ↦ rw same (behind-next words s rest words-lacks next (rw same at e))
  | inr differs ↦ rw differs refl
]

pub unmarked : (s : Text) → behind marker s ≡ none → match_at s ≡ none
unfolding match_at
unmarked s e = rw (match_at, e) refl

pub find_ids-miss :
    (c : ℕ) (s : Text) → match_at (c ∷ s) ≡ none → find_ids zero (c ∷ s) ≡ find_ids zero s
unfolding find_ids
find_ids-miss c s e = rw (find_ids, e) refl

lacks_marker-parts :
    (c : ℕ) (s : Text)
    → lacks_marker (c ∷ s) ≡ true
    → (behind marker (c ∷ s) ≡ none) × (lacks_marker s ≡ true)
unfolding lacks_marker
lacks_marker-parts c s h = elim (Option-cases (behind marker (c ∷ s))) [
  | inl clear ↦ (clear, (let h' = rw (lacks_marker, clear) at h in h'))
  | inr (t, found) ↦ absurd (let h' = rw (lacks_marker, found) at h in cc h')
]

-- A text with no marker shows no id.
pub find_ids-filler :
    (filler rest : Text)
    → lacks_marker filler ≡ true
    → IsNext rest
    → find_ids zero (filler ++ rest) ≡ find_ids zero rest
find_ids-filler [] rest clear next = refl
find_ids-filler (c ∷ filler) rest clear next =
    let (here, later) = lacks_marker-parts c filler clear in
    find_ids-miss c (filler ++ rest)
      (unmarked (c ∷ (filler ++ rest)) (behind-next_marker c filler rest next here))
    ∙ find_ids-filler filler rest later next

pub length-append : (xs ys : Text) → length (xs ++ ys) ≡ length xs + length ys
length-append [] ys = omega arith
length-append (x ∷ xs) ys = omega (arith, length-append xs ys)

find_ids-plain :
    (s rest : Text) → lacks b'R' s ≡ true → find_ids zero (s ++ rest) ≡ find_ids zero rest
unfolding find_ids lacks match_at behind
find_ids-plain [] rest no_r = refl
find_ids-plain (c ∷ s) rest no_r = ground (arith, find_ids-plain s rest)

pub find_ids-words : (rest : Text) → find_ids zero (words ++ rest) ≡ find_ids zero rest
find_ids-words rest = find_ids-plain words rest words-lacks

pub find_ids_none : find_ids zero [] ≡ []
unfolding find_ids
find_ids_none = refl
