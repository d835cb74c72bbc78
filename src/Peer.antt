-- ===== src/Peer.antt =====
-- The reachability checks of orchestrator/app/peer_verify.py before a hand-over. What a shard
-- manager and a TCP connection answer is a parameter.
pub mod Check
use blitzwing.Base.{
  ℕ, Bool, true, false, not, ◌&&◌, ◌||◌, Option, none, some, List, [], ◌∷◌, ◌++◌, leb, ◌==◌,
  if◌then◌else◌,
}
use blitzwing.Base.Int.{ℤ, eqb_ℤ}
use blitzwing.Base.Text.{
  Text, codes, text_eq, member, is_empty, truthy, or_empty, starts_with, lower, strip, rstrip_slash,
  split, is_digit,
}
use blitzwing.Base.Exec.{Result, ok, err, value_error, runtime_error, transport}
use blitzwing.Registry.Range.{Range, parse_range, to_int}

-- The text up to the first character that the test accepts, and from it on.
unfoldable pub before : (ℕ → Bool) → Text → Text
before p [] = []
before p (c ∷ s) = let rest = before p s in if p c then [] else c ∷ rest

unfoldable pub from : (ℕ → Bool) → Text → Text
from p [] = []
from p (c ∷ s) = let rest = from p s in if p c then c ∷ s else rest

abbrev is_letter : ℕ → Bool
is_letter c = leb b'a' c && leb c b'z' || leb b'A' c && leb c b'Z'

abbrev scheme_char : ℕ → Bool
scheme_char c = is_letter c || is_digit c || c == b'+' || c == b'-' || c == b'.'

unfoldable pub all_chars : (ℕ → Bool) → Text → Bool
all_chars p [] = true
all_chars p (c ∷ s) = p c && all_chars p s

abbrev is_scheme : Text → Bool
unfolding all_chars
is_scheme [] = false
is_scheme (c ∷ s) = is_letter c && all_chars scheme_char (c ∷ s)

abbrev drop_one : Text → Text
drop_one [] = []
drop_one (c ∷ s) = s

-- The url behind its scheme.
abbrev after_scheme : Text → Text
unfolding before from is_scheme
after_scheme url =
    let rest = from (λ c. c == b':') url in
    if not (is_empty rest) && is_scheme (before (λ c. c == b':') url) then drop_one rest else url

abbrev netloc : Text → Text
unfolding before
netloc (a ∷ b ∷ s) =
    if a == b'/' && b == b'/' then before (λ c. c == b'/' || c == b'?' || c == b'#') s else []
netloc _ = []

-- Behind the last '@'.
unfoldable pub after_user : Text → Text → Text
after_user best [] = best
after_user best (c ∷ s) = after_user (if c == b'@' then s else best) s

abbrev host_part : Text → Text
unfolding before from
host_part s =
    let bracketed = from (λ c. c == b'[') s in
    if is_empty bracketed
    then before (λ c. c == b':') s
    else before (λ c. c == b']') (drop_one bracketed)

-- `urlparse(url).hostname or ""`, of a url with no blanks
unfoldable pub hostname : Text → Text
unfolding after_scheme netloc after_user host_part lower
hostname url = let loc = netloc (after_scheme url) in lower (host_part (after_user loc loc))

-- 1[6-9] | 2[0-9] | 3[01], and a dot
abbrev is_private_172 : Text → Bool
is_private_172 (a ∷ b ∷ c ∷ s) =
    (a == b'1' && leb b'6' b && leb b b'9'
      || a == b'2' && is_digit b
      || a == b'3' && (b == b'0' || b == b'1'))
    && c == b'.'
is_private_172 _ = false

unfoldable pub drop_prefix : Text → Text → Option Text
drop_prefix [] s = some s
drop_prefix (a ∷ p) [] = none
drop_prefix (a ∷ p) (c ∷ s) = let rest = drop_prefix p s in if a == c then rest else none

-- `_PRIVATE_HOST_RE`
unfoldable pub is_private_host : Text → Bool
unfolding starts_with drop_prefix
is_private_host host =
    starts_with host (codes "127.")
    || starts_with host (codes "10.")
    || starts_with host (codes "192.168.")
    || (elim (drop_prefix (codes "172.") host) [ none ↦ false | some s ↦ is_private_172 s ])

unfoldable pub is_public_http_url : Text → Bool
unfolding hostname is_private_host text_eq
is_public_http_url url =
    let host = hostname url in
    if is_empty host || text_eq host (codes "localhost") || text_eq host (codes "127.0.0.1")
    then false
    else not (is_private_host host)

-- What is outside: the answer of /status of a shard manager (running and its range), and whether
-- a TCP connection opens.
pub record Reachability : Type 0 where
  pub shard_status : Text → Option (Bool × Option Text)
  pub connects : Text → ℤ → Bool

abbrev match_range : Result Range → Range → Result Bool
match_range (err e) expected = err e
match_range (ok b) expected =
    if eqb_ℤ b.start expected.start && eqb_ℤ b.end expected.end then ok true else err runtime_error

abbrev check_status : Option (Bool × Option Text) → Range → Result Bool
unfolding parse_range
check_status none expected = err transport
check_status (some (running, reported)) expected =
    if not running
    then err runtime_error
    else if truthy reported
    then match_range (parse_range (or_empty reported)) expected
    else ok true

unfoldable pub verify_contributor_http : Reachability → Text → Range → Result Bool
unfolding is_public_http_url rstrip_slash check_status
verify_contributor_http net url blocks =
    if is_empty url || not (is_public_http_url url)
    then ok false
    else check_status (net.shard_status (rstrip_slash url)) blocks

abbrev is_host_part : Text → Bool
unfolding member
is_host_part p =
    member p (codes "dns4" ∷ codes "dns6" ∷ codes "dnsaddr" ∷ codes "ip4" ∷ codes "ip6" ∷ [])

-- The last host and the last port of the multiaddr.
unfoldable pub scan_parts : Option Text → Option ℤ → List Text → Result (Option Text × Option ℤ)
unfolding is_host_part text_eq to_int
scan_parts host port [] = ok (host, port)
scan_parts host port (p ∷ []) = ok (host, port)
scan_parts host port (p ∷ q ∷ ps) =
    let at_host = scan_parts (some q) port (q ∷ ps) in
    let at_port = λ (n : ℤ). scan_parts host (some n) (q ∷ ps) in
    let other = scan_parts host port (q ∷ ps) in
    if is_host_part p
    then at_host
    else if text_eq p (codes "tcp")
    then elim (to_int q) [ err e ↦ err e | ok n ↦ at_port n ]
    else other

abbrev endpoint : Result (Option Text × Option ℤ) → Result (Text × ℤ)
endpoint (err e) = err e
endpoint (ok (host, none)) = err value_error
endpoint (ok (host, some port)) = if truthy host then ok (or_empty host, port) else err value_error

unfoldable pub parse_peer_tcp : Text → Result (Text × ℤ)
unfolding strip split scan_parts
parse_peer_tcp peer = endpoint (scan_parts none none (split b'/' (strip peer)))

unfoldable pub verify_peer_tcp : Reachability → Text → Result Bool
unfolding parse_peer_tcp
verify_peer_tcp net peer = if is_empty peer then ok false else elim (parse_peer_tcp peer) [
  | err e ↦ err e
  | ok (host, port) ↦ if net.connects host port then ok true else err transport
]

-- A check that raises counts as failed.
abbrev pub passed : Result Bool → Bool
passed (err e) = false
passed (ok b) = b

-- A peer that is one of the mother's own is ignored.
abbrev pub own_peer : List Text → Option Text → Option Text
own_peer bootstrap peer = if truthy peer && member (or_empty peer) bootstrap then none else peer

unfoldable pub contributor_precheck_passed :
    Reachability → Text → Range → Option Text → List Text → Bool
unfolding verify_contributor_http verify_peer_tcp member
contributor_precheck_passed net url blocks peer bootstrap =
    let peer' = own_peer bootstrap peer in
    passed (verify_contributor_http net url blocks)
    || truthy peer' && passed (verify_peer_tcp net (or_empty peer'))
