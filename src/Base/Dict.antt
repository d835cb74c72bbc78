-- ===== src/Base/Dict.antt =====
-- Python's `dict` with text keys, in insertion order. A record that is mutated through a reference
-- taken from the dict is modelled by `modify`.
use mathlib.Core.Path.{◌≡◌, refl}
use mathlib.Core.Logic.{◌≢◌}
use mathlib.Core.Option.{Option, none, some}
use mathlib.Core.List.{List, [], ◌∷◌}
use native.Mathlib.Omega.{arith}
use blitzwing.Base.Tests.{if◌then◌else◌}
use blitzwing.Base.Text.{Text, text_eq, text_eq_iff}

abbrev pub Dict {ℓ} : Type ℓ → Type ℓ
Dict V = List (Text × V)

module _ {ℓ} {V : Type ℓ} where
  -- d.get(k)
  unfoldable pub lookup : Text → Dict V → Option V
  lookup k [] = none
  lookup k ((j, v) ∷ d) = if text_eq k j then some v else lookup k d

  -- d[k] = v
  unfoldable pub insert : Text → V → Dict V → Dict V
  insert k v [] = (k, v) ∷ []
  insert k v ((j, w) ∷ d) = if text_eq k j then (j, v) ∷ d else (j, w) ∷ insert k v d

  -- del d[k]
  unfoldable pub erase : Text → Dict V → Dict V
  erase k [] = []
  erase k ((j, w) ∷ d) = if text_eq k j then d else (j, w) ∷ erase k d

  -- an assignment to fields of d[k]
  unfoldable pub modify : Text → (V → V) → Dict V → Dict V
  modify k f [] = []
  modify k f ((j, w) ∷ d) = if text_eq k j then (j, f w) ∷ d else (j, w) ∷ modify k f d

  -- d.values()
  unfoldable pub values : Dict V → List V
  values [] = []
  values ((j, v) ∷ d) = v ∷ values d

abbrev pub map_some {ℓ} : {V : Type ℓ} → (V → V) → Option V → Option V
map_some f none = none
map_some f (some v) = some (f v)

module _ {ℓ} {V : Type ℓ} where
  pub lookup-insert :
      (k j : Text) (v : V) (d : Dict V)
      → lookup j (insert k v d) ≡ (if text_eq j k then some v else lookup j d)
  unfolding lookup insert
  lookup-insert k j v [] = refl
  lookup-insert k j v ((i, w) ∷ d) =
      ground (arith, text_eq_iff k i, text_eq_iff j i, text_eq_iff j k, lookup-insert k j v d)

  pub lookup-modify_self :
      (k : Text) (f : V → V) (v : V) (d : Dict V)
      → lookup k d ≡ some v
      → lookup k (modify k f d) ≡ some (f v)
  unfolding lookup modify
  lookup-modify_self k f v [] h = cc
  lookup-modify_self k f v ((i, w) ∷ d) h = ground (arith, lookup-modify_self k f v d)

  pub lookup-modify_ne :
      (k j : Text) (f : V → V) (d : Dict V) → j ≢ k → lookup j (modify k f d) ≡ lookup j d
  unfolding lookup modify
  lookup-modify_ne k j f [] h = refl
  lookup-modify_ne k j f ((i, w) ∷ d) h =
      ground (arith, text_eq_iff k i, text_eq_iff j i, lookup-modify_ne k j f d h)

  pub lookup-erase_ne : (k j : Text) (d : Dict V) → j ≢ k → lookup j (erase k d) ≡ lookup j d
  unfolding lookup erase
  lookup-erase_ne k j [] h = refl
  lookup-erase_ne k j ((i, w) ∷ d) h =
      ground (arith, text_eq_iff k i, text_eq_iff j i, lookup-erase_ne k j d h)

  pub lookup-modify :
      (k j : Text) (f : V → V) (d : Dict V)
      → lookup j (modify k f d) ≡ (if text_eq j k then map_some f (lookup j d) else lookup j d)
  unfolding lookup modify
  lookup-modify k j f [] = ground arith
  lookup-modify k j f ((i, w) ∷ d) =
      ground (arith, text_eq_iff k i, text_eq_iff j i, text_eq_iff j k, lookup-modify k j f d)

  pub modify-none : (k : Text) (f : V → V) (d : Dict V) → lookup k d ≡ none → modify k f d ≡ d
  unfolding lookup modify
  modify-none k f [] h = refl
  modify-none k f ((i, w) ∷ d) h = ground (arith, modify-none k f d)

  pub modify_congr :
      (k : Text) (f g : V → V) (v : V) (d : Dict V)
      → lookup k d ≡ some v
      → f v ≡ g v
      → modify k f d ≡ modify k g d
  unfolding lookup modify
  modify_congr k f g v [] h e = refl
  modify_congr k f g v ((i, w) ∷ d) h e = ground (arith, modify_congr k f g v d)
