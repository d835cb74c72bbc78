-- ===== src/Discovery/Url.antt =====
-- urllib's `unquote`, on texts whose escapes stand for ASCII characters.
use blitzwing.Base.{ℕ, ◌+◌, ◌-◌, ◌*◌, Bool, ◌&&◌, ◌||◌, [], ◌∷◌, leb, ◌==◌, if◌then◌else◌}
use blitzwing.Base.Text.{Text, is_digit}

abbrev is_hex : ℕ → Bool
is_hex c = is_digit c || (leb b'a' c && leb c b'f') || (leb b'A' c && leb c b'F')

abbrev hex_value : ℕ → ℕ
hex_value c = if is_digit c then c - 48 else if leb b'a' c then c - 87 else c - 55

unfoldable pub unquote : Text → Text
unquote [] = []
unquote (c ∷ []) = c ∷ []
unquote (c ∷ a ∷ []) = c ∷ a ∷ []
unquote (c ∷ a ∷ b ∷ s) =
    let decoded = unquote s in
    let rest = unquote (a ∷ b ∷ s) in
    if c == b'%' && is_hex a && is_hex b
    then (16 * hex_value a + hex_value b) ∷ decoded
    else c ∷ rest
