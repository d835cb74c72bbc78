-- ===== src/Contributor/Routable.antt =====
-- The wait until every block of the model has a server.
use blitzwing.Base.{
  ℕ, ◌+◌, ◌≡◌, ◌≢◌, refl, true, ◌⊎◌, inl, inr, Option, none, some, List, [], ◌∷◌, arith, List-cases,
}
use blitzwing.Base.Text.{Text}
use blitzwing.Base.Exec.{ok}
use blitzwing.Contributor.{ContributorInference, missing_from, wait_until_routable}

-- Every block has a server.
abbrev pub AllHeld : List (List Text) → Type 0
AllHeld [] = Unit {0}
AllHeld (s ∷ spans) = (s ≢ []) × AllHeld spans

none_missing : (k : ℕ) (spans : List (List Text)) → missing_from k spans ≡ [] → AllHeld spans
unfolding missing_from
none_missing k [] e = tt
none_missing k ([] ∷ spans) e = cc
none_missing k ((s ∷ ss) ∷ spans) e = ((λ q. cc), none_missing (k + 1) spans e)

-- At some poll every block had a server.
abbrev pub WasRoutable : List (Option (List (List Text))) → Type 0
WasRoutable [] = ⊥
WasRoutable (none ∷ polls) = WasRoutable polls
WasRoutable (some spans ∷ polls) = AllHeld spans ⊎ WasRoutable polls

-- A wait that passes has found a route, and sets the flag alone.
pub wait_passed :
    (polls : List (Option (List (List Text)))) (c : ContributorInference)
    → (wait_until_routable polls c).0 ≡ ok tt
    → ((wait_until_routable polls c).1 ≡ record c { ready = true }) × WasRoutable polls
unfolding wait_until_routable
wait_passed [] c e = absurd (ground arith)
wait_passed (none ∷ polls) c e = absurd (ground arith)
wait_passed (some spans ∷ polls) c e = elim (List-cases (missing_from 0 spans)) [
  | inl all_there ↦ (rw (wait_until_routable, all_there), inl (none_missing 0 spans all_there))
  | inr (k, ks, some_missing) ↦
      let (state, routable) = wait_passed polls c (rw (wait_until_routable, some_missing) at e) in
      (rw (wait_until_routable, some_missing) state, inr routable)
]

pub wait_state :
    (polls : List (Option (List (List Text)))) (c : ContributorInference)
    → ((wait_until_routable polls c).1 ≡ c)
      ⊎ ((wait_until_routable polls c).1 ≡ record c { ready = true })
unfolding wait_until_routable
wait_state [] c = inl refl
wait_state (none ∷ polls) c = inl refl
wait_state (some spans ∷ polls) c = elim (List-cases (missing_from 0 spans)) [
  | inl all_there ↦ inr (rw (wait_until_routable, all_there))
  | inr (k, ks, some_missing) ↦ rw (wait_until_routable, some_missing) (wait_state polls c)
]
