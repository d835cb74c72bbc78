-- ===== src/Registry/Address.antt =====
-- Checks of texts that come from outside: `is_public_multiaddr` and `validate_hedera_account_id`.
use blitzwing.Base.{Bool, false, not, ◌&&◌, ◌||◌, Option, List, [], ◌∷◌, if◌then◌else◌}
use blitzwing.Base.Text.{
  Text, codes, contains, lower, split, strip, text_eq, all_digits, is_empty, or_empty,
}
use blitzwing.Base.Exec.{Result, ok, err, value_error}

abbrev pub private_prefixes : List Text
private_prefixes =
    codes "/ip4/127."
    ∷ codes "/ip4/10."
    ∷ codes "/ip4/192.168."
    ∷ codes "/ip4/172.16."
    ∷ codes "/ip4/172.17."
    ∷ codes "/ip4/172.18."
    ∷ codes "/ip4/172.19."
    ∷ codes "/ip4/172.2"
    ∷ codes "/ip4/172.30."
    ∷ codes "/ip4/172.31."
    ∷ []

-- One of the parts is in the text.
unfoldable pub contains_any : List Text → Text → Bool
unfolding contains
contains_any [] s = false
contains_any (p ∷ ps) s = contains p s || contains_any ps s

unfoldable pub is_public_multiaddr : Text → Bool
unfolding contains_any lower
is_public_multiaddr addr =
    if is_empty addr
    then false
    else if contains_any private_prefixes (lower addr)
    then false
    else contains (codes "/p2p/") (lower addr)

-- isdigit() is false of the empty text
abbrev is_digits : Text → Bool
unfolding all_digits
is_digits s = not (is_empty s) && all_digits s

abbrev account_parts : List Text → Bool
unfolding text_eq is_digits
account_parts (shard ∷ realm ∷ num ∷ []) =
    text_eq shard (codes "0") && text_eq realm (codes "0") && is_digits num
account_parts _ = false

unfoldable pub validate_hedera_account_id : Option Text → Result Text
unfolding strip split account_parts
validate_hedera_account_id account_id =
    let value = strip (or_empty account_id) in
    if account_parts (split b'.' value) then ok value else err value_error
