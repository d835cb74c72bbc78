-- ===== src/Contributor/Log.antt =====
-- The peer id in the log of the local Petals server: `_local_peer_from_log` and
-- `_resolve_local_peer` of shard_manager/inference.py, with the regular expression that they search
-- for written out.
use blitzwing.Base.{
  ℕ, zero, suc, ◌+◌, ◌-◌, Bool, true, not, ◌&&◌, ◌||◌, Option, none, some, List, [], ◌∷◌, ◌++◌, leb,
  ◌==◌, length, if◌then◌else◌,
}
use blitzwing.Base.Int.{ℤ}
use blitzwing.Base.Text.{Text, codes, starts_with, is_digit, is_empty}
use blitzwing.Registry.Range.{show}

-- [A-Za-z0-9]
abbrev pub is_alnum : ℕ → Bool
is_alnum c = is_digit c || (leb b'A' c && leb c b'Z') || (leb b'a' c && leb c b'z')

unfoldable pub all_alnum : Text → Bool
all_alnum [] = true
all_alnum (c ∷ s) = is_alnum c && all_alnum s

abbrev pub marker : Text
marker = codes "Running a server on ['"

abbrev pub p2p : Text
p2p = codes "/p2p/"

-- The text behind a prefix.
unfoldable pub behind : Text → Text → Option Text
behind [] s = some s
behind (c ∷ p) [] = none
behind (c ∷ p) (a ∷ s) = if a == c then behind p s else none

-- A text that ends the address: /p2p/ and an id.
unfoldable pub id_behind : Text → Option Text
unfolding behind all_alnum
id_behind s = elim (behind p2p s) [
  | none ↦ none
  | some i ↦ if not (is_empty i) && all_alnum i then some i else none
]

-- The id behind the last /p2p/ of an address.
unfoldable pub last_id : Text → Option Text
unfolding id_behind
last_id [] = none
last_id (c ∷ s) = elim (last_id s) [ some i ↦ some i | none ↦ id_behind (c ∷ s) ]

-- At least one character stands in front of /p2p/.
abbrev pub address_id : Text → Option Text
address_id [] = none
address_id (c ∷ s) = last_id s

-- The text in front of the next quote and the text behind it.
unfoldable pub until_quote : Text → Option (Text × Text)
until_quote [] = none
until_quote (c ∷ s) =
    let rest = until_quote s in
    if c == b'\''
    then some ([], s)
    else elim rest [ none ↦ none | some (body, after) ↦ some (c ∷ body, after) ]

-- The number of characters that a match with this body takes.
abbrev pub match_length : Text → ℕ
match_length body = length marker + length body + 2

-- A match at the start of a text: the id and the length of the match.
unfoldable pub match_at : Text → Option (Text × ℕ)
unfolding starts_with
match_at s = elim (behind marker s) [
  | none ↦ none
  | some t ↦ elim (until_quote t) [
    | none ↦ none
    | some (body, after) ↦ elim (address_id body) [
      | none ↦ none
      | some i ↦ if starts_with after (codes "]") then some (i, match_length body) else none
    ]
  ]
]

-- re.findall: the matches from left to right; `skip` characters belong to the last match.
unfoldable pub find_ids : ℕ → Text → List Text
find_ids skip [] = []
find_ids (suc skip) (c ∷ s) = find_ids skip s
find_ids zero (c ∷ s) = elim (match_at (c ∷ s)) [
  | none ↦ find_ids zero s
  | some (i, n) ↦ i ∷ find_ids (n - 1) s
]

-- matches[-1], if there is a match
unfoldable pub last : List Text → Option Text
last [] = none
last (i ∷ is) = elim (last is) [ none ↦ some i | some j ↦ some j ]

abbrev pub loopback_peer : ℤ → Text → Text
unfolding show
loopback_peer port i = codes "/ip4/127.0.0.1/tcp/" ++ (show port ++ (p2p ++ i))

-- The log's text, if the file can be read.
unfoldable pub local_peer_from_log : Option Text → ℤ → Option Text
unfolding loopback_peer
local_peer_from_log none port = none
local_peer_from_log (some text) port = elim (last (find_ids zero text)) [
  | none ↦ none
  | some i ↦ some (loopback_peer port i)
]

-- The log is read once a second until the deadline: `tries` are the readings.
unfoldable pub resolve_local_peer : List (Option Text) → ℤ → Option Text
unfolding local_peer_from_log
resolve_local_peer [] port = none
resolve_local_peer (text ∷ tries) port = elim (local_peer_from_log text port) [
  | none ↦ resolve_local_peer tries port
  | some peer ↦ some peer
]
