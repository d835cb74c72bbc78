-- ===== src/Registry/Sound/Donor.antt =====
-- The donor that `join` picks, in a registry with no pending host.
use mathlib.Core.Path.{subst}
use blitzwing.Base.{
  ◌≡◌, ◌≢◌, refl, ap, ◌∙◌, Bool, true, false, ◌⊎◌, inl, inr, some, List, [], ◌∷◌, arith, Bool-cases,
  if◌then◌else◌,
}
use blitzwing.Base.Int.{ℤ, ltb_ℤ}
use blitzwing.Base.Text.{Text, text_eq_iff}
use blitzwing.Base.Dict.{Dict, lookup, values}
use blitzwing.Registry.Host.{
  HostRecord, SwarmRegistry, pending, online, is_online, is_pending, keep,
}
use blitzwing.Registry.Donor.{largest_from, largest_of, largest_donor, reserved_end}
use blitzwing.Registry.Join.{any_of}
use blitzwing.Registry.Sound.{IsKeyed}

abbrev pub In : HostRecord → List HostRecord → Type 0
In x [] = ⊥
In x (y ∷ ys) = (x ≡ y) ⊎ In x ys

pub In-keep :
    (p : HostRecord → Bool) (x : HostRecord) (ys : List HostRecord)
    → In x (keep p ys)
    → (p x ≡ true) × In x ys
unfolding keep
In-keep p x [] h = absurd h
In-keep p x (y ∷ ys) h = elim (Bool-cases (p y)) [
  | inl kept ↦ elim (let h' : (x ≡ y) ⊎ In x (keep p ys) = rw kept at h in h') [
    | inl e ↦ (ap p e ∙ kept, inl e)
    | inr later ↦ let (t, i) = In-keep p x ys later in (t, inr i)
  ]
  | inr dropped ↦ let (t, i) = In-keep p x ys (rw dropped at h) in (t, inr i)
]

pub In-values :
    (x : HostRecord) (d : Dict HostRecord)
    → IsKeyed d
    → In x (values d)
    → lookup x.host_id d ≡ some x
unfolding values lookup
In-values x [] kd h = absurd h
In-values x ((j, y) ∷ d) kd (inl e) = ground (arith, text_eq_iff x.host_id j)
In-values x ((j, y) ∷ d) kd (inr later) =
    ground (arith, text_eq_iff x.host_id j, In-values x d kd.3 later)

one_of : (b : Bool) (x y : HostRecord) → ((if b then x else y) ≡ y) ⊎ ((if b then x else y) ≡ x)
one_of true x y = inr refl
one_of false x y = inl refl

In-pick :
    (best h : HostRecord) (hs : List HostRecord) (pick x : HostRecord)
    → (pick ≡ best) ⊎ (pick ≡ h)
    → (x ≡ pick) ⊎ In x hs
    → (x ≡ best) ⊎ ((x ≡ h) ⊎ In x hs)
In-pick best h hs pick x (inl e) (inl q) = inl (q ∙ e)
In-pick best h hs pick x (inr e) (inl q) = inr (inl (q ∙ e))
In-pick best h hs pick x p (inr i) = inr (inr i)

largest_from-In :
    (best : HostRecord) (hs : List HostRecord)
    → (largest_from best hs ≡ best) ⊎ In (largest_from best hs) hs
unfolding largest_from
largest_from-In best [] = inl refl
largest_from-In best (h ∷ hs) =
    In-pick best h hs (if ltb_ℤ best.layers_hosted h.layers_hosted then h else best)
      (largest_from (if ltb_ℤ best.layers_hosted h.layers_hosted then h else best) hs)
      (one_of (ltb_ℤ best.layers_hosted h.layers_hosted) h best)
      (largest_from-In (if ltb_ℤ best.layers_hosted h.layers_hosted then h else best) hs)

largest-In :
    (h : HostRecord) (hs : List HostRecord) (donor : HostRecord)
    → largest_from h hs ≡ donor
    → In donor (h ∷ hs)
largest-In h hs donor e = subst (λ (x : HostRecord). In x (h ∷ hs)) e (largest_from-In h hs)

largest_of-In :
    (hs : List HostRecord) (donor : HostRecord) → largest_of hs ≡ some donor → In donor hs
unfolding largest_from
largest_of-In [] donor e = cc
largest_of-In (h ∷ hs) donor e = largest-In h hs donor (ground arith)

-- The donor is an online host of the registry, under its own id.
pub largest_donor-online :
    (r : SwarmRegistry) (donor : HostRecord)
    → IsKeyed r.hosts
    → largest_donor r ≡ some donor
    → (lookup donor.host_id r.hosts ≡ some donor) × (donor.status ≡ online)
unfolding largest_donor
largest_donor-online r donor kd e =
    let (up, i) =
      In-keep is_online donor (values r.hosts)
        (largest_of-In (keep is_online (values r.hosts)) donor e) in
    (In-values donor r.hosts kd i, ground arith)

-- With no pending host nothing is reserved.
pub reserved_end-none :
    (i : Text) (e : ℤ) (hs : List HostRecord)
    → any_of (keep is_pending hs) ≡ false
    → reserved_end i e hs ≡ e
unfolding reserved_end keep
reserved_end-none i e [] h = refl
reserved_end-none i e (x ∷ hs) h = elim (Bool-cases (is_pending x)) [
  | inl waits ↦ absurd (ground arith)
  | inr other ↦ rw other (reserved_end-none i e hs (rw other at h))
]

pub none_pending :
    (j : Text) (h : HostRecord) (d : Dict HostRecord)
    → any_of (keep is_pending (values d)) ≡ false
    → lookup j d ≡ some h
    → h.status ≢ pending
unfolding lookup keep values
none_pending j h [] q e w = cc
none_pending j h ((i, x) ∷ d) q e w = ground (arith, none_pending j h d)
