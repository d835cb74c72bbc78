-- ===== src/Registry/Cover.antt =====
-- How many online hosts hold a layer, and how the updates of the dict of hosts change that number.
use blitzwing.Base.{
  ℕ, ◌+◌, ◌≤◌, ◌≡◌, ◌≢◌, ◌∙◌, Bool, ◌&&◌, none, some, [], ◌∷◌, arith, if◌then◌else◌,
}
use blitzwing.Base.Int.{ℤ, leb_ℤ, ltb_ℤ}
use blitzwing.Base.Text.{Text}
use blitzwing.Base.Dict.{Dict, lookup, insert, erase, modify, lookup-erase_ne}
use blitzwing.Registry.Range.{Range}
use blitzwing.Registry.Host.{HostRecord, is_online}

-- The layer lies in the range.
abbrev pub covers : ℤ → Range → Bool
covers k r = leb_ℤ r.start k && ltb_ℤ k r.end

abbrev pub one_if : Bool → ℕ
one_if b = if b then 1 else 0

unfoldable pub contrib : ℤ → HostRecord → ℕ
contrib k h = one_if (is_online h && covers k h.block_indices)

unfoldable pub cover : ℤ → Dict HostRecord → ℕ
cover k [] = 0
cover k ((j, h) ∷ d) = contrib k h + cover k d

module _ (k : ℤ) (j : Text) where
  pub cover-modify :
      (f : HostRecord → HostRecord) (h : HostRecord) (d : Dict HostRecord)
      → lookup j d ≡ some h
      → cover k (modify j f d) + contrib k h ≡ cover k d + contrib k (f h)
  unfolding cover lookup modify
  cover-modify f h [] e = cc
  cover-modify f h ((i, x) ∷ d) e = ground (arith, cover-modify f h d)

  pub cover-insert :
      (h : HostRecord) (d : Dict HostRecord)
      → lookup j d ≡ none
      → cover k (insert j h d) ≡ cover k d + contrib k h
  unfolding cover lookup insert
  cover-insert h [] e = omega arith
  cover-insert h ((i, x) ∷ d) e = ground (arith, cover-insert h d)

  pub cover-erase :
      (h : HostRecord) (d : Dict HostRecord)
      → lookup j d ≡ some h
      → cover k (erase j d) + contrib k h ≡ cover k d
  unfolding cover lookup erase
  cover-erase h [] e = cc
  cover-erase h ((i, x) ∷ d) e = ground (arith, cover-erase h d)

  pub contrib-le-cover :
      (h : HostRecord) (d : Dict HostRecord) → lookup j d ≡ some h → contrib k h ≤ cover k d
  contrib-le-cover h d e = omega (arith, cover-erase h d e)

pub contrib-two-le-cover :
    (k : ℤ) (i j : Text) (a b : HostRecord) (d : Dict HostRecord)
    → lookup i d ≡ some a
    → lookup j d ≡ some b
    → j ≢ i
    → contrib k a + contrib k b ≤ cover k d
contrib-two-le-cover k i j a b d ea eb ne = omega (
  arith,
  cover-erase k i a d ea,
  contrib-le-cover k j b (erase i d) (lookup-erase_ne i j d ne ∙ eb),
)
