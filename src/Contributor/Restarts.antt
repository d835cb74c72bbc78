-- ===== src/Contributor/Restarts.antt =====
-- The log of a server that was started any number of times: `_local_peer_from_log` of
-- shard_manager/inference.py on what petals prints at each start, the list of its addresses.
use mathlib.Core.List.{append_assoc}
use mathlib.Core.Option
use blitzwing.Base.{
  ℕ, zero, ◌-◌, ◌≡◌, refl, sym, ap, ◌∙◌, true, false, inl, inr, none, some, List, [], ◌∷◌, ◌++◌,
  arith, length, Option-cases,
}
use blitzwing.Base.Int.{ℤ}
use blitzwing.Base.Text.{Text, codes, is_empty, starts_with}
use blitzwing.Contributor.Log.{
  all_alnum, marker, p2p, behind, address_id, until_quote, match_length, match_at, find_ids, last,
  loopback_peer, local_peer_from_log,
}
use blitzwing.Contributor.LogLaws.{
  lacks, lacks_marker, IsNext, behind-append, until_quote-append, last_id-append, last_id-p2p,
  find_ids-skip, find_ids-miss, find_ids-filler, length-append, words, find_ids-words,
  find_ids_none,
}

-- A line of the server with what follows it up to the next one. The list has one address, which ends
-- in an id, or a first address and others, which are in the text behind it.
pub data Start : Type 0 where
  one_address : (first : ℕ) (address id after : Text) → Start
  more_addresses : (address after : Text) → Start

abbrev pub body_of : ℕ → Text → Text → Text
body_of first address id = first ∷ (address ++ (p2p ++ id))

-- The text behind "Running a server on ['".
abbrev pub rest_of : Start → Text
rest_of (one_address first address id after) = body_of first address id ++ 39 ∷ 93 ∷ after
rest_of (more_addresses address after) = address ++ 39 ∷ 44 ∷ after

unfoldable pub log_of : List Start → Text
log_of [] = []
log_of (s ∷ starts) = marker ++ (rest_of s ++ log_of starts)

-- The ids of the starts with one address.
unfoldable pub ids_of : List Start → List Text
ids_of [] = []
ids_of (one_address first address id after ∷ starts) = id ∷ ids_of starts
ids_of (more_addresses address after ∷ starts) = ids_of starts

-- An address has no quote, an id is of letters and digits, and "Running a server on ['" is nowhere else
-- in the text.
abbrev pub IsStart : Start → Type 0
IsStart (one_address first address id after) =
    (lacks 39 (body_of first address id) ≡ true)
    × (all_alnum id ≡ true)
    × (is_empty id ≡ false)
    × (lacks_marker after ≡ true)
IsStart (more_addresses address after) =
    (lacks 39 address ≡ true) × (lacks_marker (address ++ 39 ∷ 44 ∷ after) ≡ true)

abbrev pub AllStarts : List Start → Type 0
AllStarts [] = Unit {0}
AllStarts (s ∷ starts) = IsStart s × AllStarts starts

log_of-IsNext : (starts : List Start) → IsNext (log_of starts)
unfolding log_of
log_of-IsNext [] = tt
log_of-IsNext (s ∷ starts) = refl

match_with :
    (s t body after i : Text)
    → behind marker s ≡ some t
    → until_quote t ≡ some (body, after)
    → address_id body ≡ some i
    → starts_with after (codes "]") ≡ true
    → match_at s ≡ some (i, match_length body)
unfolding match_at
match_with s t body after i marked quoted named closed =
    rw (match_at, marked, quoted, named, closed)

match_at-one :
    (first : ℕ) (address id rest : Text)
    → lacks 39 (body_of first address id) ≡ true
    → all_alnum id ≡ true
    → is_empty id ≡ false
    → match_at (marker ++ (body_of first address id ++ 39 ∷ 93 ∷ rest))
      ≡ some (id, match_length (body_of first address id))
unfolding starts_with
match_at-one first address id rest unquoted alnum full =
    let body = body_of first address id in
    match_with (marker ++ (body ++ 39 ∷ 93 ∷ rest)) (body ++ 39 ∷ 93 ∷ rest) body (93 ∷ rest) id
      (behind-append marker (body ++ 39 ∷ 93 ∷ rest)) (until_quote-append body (93 ∷ rest) unquoted)
      (last_id-append address (p2p ++ id) id (last_id-p2p id alnum full)) refl

-- A comma behind the first address is no match.
match_at-more :
    (address rest : Text)
    → lacks 39 address ≡ true
    → match_at (marker ++ (address ++ 39 ∷ 44 ∷ rest)) ≡ none
unfolding match_at starts_with
match_at-more address rest unquoted =
    let marked = behind-append marker (address ++ 39 ∷ 44 ∷ rest) in
    let quoted = until_quote-append address (44 ∷ rest) unquoted in
    elim (Option-cases (address_id address)) [
      | inl unnamed ↦ rw (match_at, marked, quoted, unnamed) refl
      | inr (i, named) ↦ rw (match_at, marked, quoted, named) refl
    ]

find_ids-hit :
    (c : ℕ) (t i : Text) (n : ℕ)
    → match_at (c ∷ t) ≡ some (i, n)
    → find_ids zero (c ∷ t) ≡ i ∷ find_ids (n - 1) t
unfolding find_ids
find_ids-hit c t i n e = rw (find_ids, e)

-- A match without its first character, which the search skips.
abbrev tail_of : Text → Text
tail_of body = words ++ (body ++ codes "']")

tail_length : (body : Text) → length (tail_of body) ≡ match_length body - 1
tail_length body =
    omega (arith, length-append words (body ++ codes "']"), length-append body (codes "']"))

find_ids-one :
    (first : ℕ) (address id rest : Text)
    → lacks 39 (body_of first address id) ≡ true
    → all_alnum id ≡ true
    → is_empty id ≡ false
    → find_ids zero (marker ++ (body_of first address id ++ 39 ∷ 93 ∷ rest))
      ≡ id ∷ find_ids zero rest
find_ids-one first address id rest unquoted alnum full =
    let body = body_of first address id in
    let behind_r = words ++ (body ++ 39 ∷ 93 ∷ rest) in
    let same : tail_of body ++ rest ≡ behind_r =
      ap (λ (t : Text). words ++ t) (append_assoc body (codes "']") rest) in
    find_ids-hit b'R' behind_r id (match_length body)
      (match_at-one first address id rest unquoted alnum full)
    ∙ ap (λ (is : List Text). id ∷ is)
        (ap (λ (n : ℕ). find_ids n behind_r) (sym (tail_length body))
          ∙ ap (find_ids (length (tail_of body))) (sym same)
          ∙ find_ids-skip (tail_of body) rest)

find_ids-more :
    (address rest : Text)
    → lacks 39 address ≡ true
    → find_ids zero (marker ++ (address ++ 39 ∷ 44 ∷ rest))
      ≡ find_ids zero (address ++ 39 ∷ 44 ∷ rest)
find_ids-more address rest unquoted =
    find_ids-miss b'R' (words ++ (address ++ 39 ∷ 44 ∷ rest)) (match_at-more address rest unquoted)
    ∙ find_ids-words (address ++ 39 ∷ 44 ∷ rest)

find_ids-log_of :
    (starts : List Start) → AllStarts starts → find_ids zero (log_of starts) ≡ ids_of starts
unfolding log_of ids_of
find_ids-log_of [] h = find_ids_none
find_ids-log_of (one_address first address id after ∷ starts) ((unquoted, alnum, full, clear), h) =
    let rest = log_of starts in
    ap (λ (t : Text). find_ids zero (marker ++ t))
      (append_assoc (body_of first address id) (39 ∷ 93 ∷ after) rest)
    ∙ find_ids-one first address id (after ++ rest) unquoted alnum full
    ∙ ap (λ (is : List Text). id ∷ is)
        (find_ids-filler after rest clear (log_of-IsNext starts) ∙ find_ids-log_of starts h)
find_ids-log_of (more_addresses address after ∷ starts) ((unquoted, clear), h) =
    let rest = log_of starts in
    let joined = append_assoc address (39 ∷ 44 ∷ after) rest in
    ap (λ (t : Text). find_ids zero (marker ++ t)) joined
    ∙ find_ids-more address (after ++ rest) unquoted
    ∙ ap (find_ids zero) (sym joined)
    ∙ find_ids-filler (address ++ 39 ∷ 44 ∷ after) rest clear (log_of-IsNext starts)
    ∙ find_ids-log_of starts h

-- In a log of any number of starts, with any text around their lines that does not hold "Running a
-- server on ['", addresses with no quote and ids of letters and digits, the local peer is the
-- loopback address with the id of the last start that printed one address; starts that printed more
-- are passed over, and there is no peer if no start printed one address.
pub local_peer_from_log-log_of :
    (before : Text) (starts : List Start) (port : ℤ)
    → lacks_marker before ≡ true
    → AllStarts starts
    → local_peer_from_log (some (before ++ log_of starts)) port
      ≡ Option.map (loopback_peer port) (last (ids_of starts))
unfolding local_peer_from_log
local_peer_from_log-log_of before starts port clear h =
    let found : find_ids zero (before ++ log_of starts) ≡ ids_of starts =
      find_ids-filler before (log_of starts) clear (log_of-IsNext starts)
      ∙ find_ids-log_of starts h in
    elim (Option-cases (last (ids_of starts))) [
      | inl no_id ↦ rw (local_peer_from_log, found, no_id) refl
      | inr (i, newest) ↦ rw (local_peer_from_log, found, newest) refl
    ]
