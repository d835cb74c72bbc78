-- ===== src/Base/Exec.antt =====
-- Code that mutates an object and may raise. What was written before a raise stays written, so the
-- state comes back beside the error too.
use mathlib.Core.Option.{Option, none, some}
use mathlib.Core.Bool.{Bool}
use mathlib.Core.Path.{◌≡◌, refl}
use mathlib.Core.Logic.{◌⊎◌, inl, inr}
use blitzwing.Base.Tests.{if◌then◌else◌}

-- The exceptions by class; their messages are not modelled. `transport` is any exception of the
-- HTTP client, `os_error` one of the operating system, `timed_out` a wait that was too short, and
-- `other_error` any exception of a library that no handler names. The last three are classes of
-- the program: MissingBlocksServiceError, HttpInferenceError and EnsClientError.
pub data Error : Type 0 where
  key_error value_error runtime_error transport os_error timed_out other_error : Error
  missing_blocks http_inference ens_error : Error

pub data Result {ℓ} (A : Type ℓ) : Type ℓ where
  ok : A → Result A
  err : Error → Result A

abbrev pub Exec : Type 0 → Type 0 → Type 0
Exec S A = S → Result A × S

module _ {S A : Type 0} where
  abbrev pub pure : A → Exec S A
  pure a s = (ok a, s)

  abbrev pub raise : Error → Exec S A
  raise e s = (err e, s)

  abbrev pub gets : (S → A) → Exec S A
  gets f s = (ok (f s), s)

  abbrev pub lift : Result A → Exec S A
  lift r s = (r, s)

  abbrev pub or_raise : Option A → Error → Exec S A
  or_raise none e = raise e
  or_raise (some a) e = pure a

infixl 5 ◌>>=◌ ◌>>◌
abbrev pub ◌>>=◌ : {S A B : Type 0} → Exec S A → (A → Exec S B) → Exec S B
◌>>=◌ m f s = let (r, s') = m s in elim r [ ok a ↦ f a s' | err e ↦ (err e, s') ]

abbrev pub ◌>>◌ : {S A B : Type 0} → Exec S A → Exec S B → Exec S B
m >> k = m >>= λ _. k

module _ {S : Type 0} where
  abbrev pub raise_if : Bool → Error → Exec S (Unit {0})
  raise_if c e s = (if c then err e else ok tt, s)

  abbrev pub modify_state : (S → S) → Exec S (Unit {0})
  modify_state f s = (ok tt, f s)

pub Result-cases :
    {A : Type 0} (x : Result A) → ((e : Error) × (x ≡ err e)) ⊎ ((a : A) × (x ≡ ok a))
Result-cases (ok a) = inr (a, refl)
Result-cases (err e) = inl (e, refl)

-- Inversion of a sequence that returns.
pub >>=-eq-ok :
    {S A B : Type 0} (m : Exec S A) (f : A → Exec S B) (s : S) {b : B}
    → ((m >>= f) s).0 ≡ ok b
    → (a : A) × ((m s).0 ≡ ok a) × ((f a (m s).1).0 ≡ ok b)
>>=-eq-ok m f s e = elim (Result-cases (m s).0) [
  | inl (x, failed) ↦ absurd (let e' = rw (◌>>=◌, failed) at e in cc e')
  | inr (a, done) ↦ (a, done, rw (◌>>=◌, done) at e)
]
