-- ===== src/Registry/Sound/Keyed.antt =====
-- The keys of a dict of hosts, under the updates of the dict.
use blitzwing.Base.{◌≡◌, refl, ◌∙◌, false, inl, inr, none, some, [], ◌∷◌, arith, Bool-cases}
use blitzwing.Base.Text.{Text, text_eq, text_eq_iff, is_empty}
use blitzwing.Base.Dict.{
  Dict, lookup, insert, erase, modify, lookup-insert, lookup-modify_ne, lookup-erase_ne,
}
use blitzwing.Registry.Host.{HostRecord}
use blitzwing.Registry.Sound.{IsKeyed}

pub lookup-key :
    (j : Text) (h : HostRecord) (d : Dict HostRecord)
    → IsKeyed d
    → lookup j d ≡ some h
    → (h.host_id ≡ j) × (is_empty j ≡ false)
unfolding lookup
lookup-key j h [] kd e = cc
lookup-key j h ((i, x) ∷ d) kd e = ground (arith, text_eq_iff j i, lookup-key j h d kd.3)

pub lookup-erase_self : (j : Text) (d : Dict HostRecord) → IsKeyed d → lookup j (erase j d) ≡ none
unfolding lookup erase
lookup-erase_self j [] kd = refl
lookup-erase_self j ((i, x) ∷ d) kd = ground (arith, text_eq_iff j i, lookup-erase_self j d kd.3)

pub modify-IsKeyed :
    (j : Text) (f : HostRecord → HostRecord) (d : Dict HostRecord)
    → ((h : HostRecord) → (f h).host_id ≡ h.host_id)
    → IsKeyed d
    → IsKeyed (modify j f d)
unfolding modify
modify-IsKeyed j f [] same kd = kd
modify-IsKeyed j f ((i, x) ∷ d) same kd = elim (Bool-cases (text_eq j i)) [
  | inl hit ↦ rw hit (same x ∙ kd.0, kd.1, kd.2, kd.3)
  | inr miss ↦ rw miss (
    kd.0,
    lookup-modify_ne j i f d (λ e. ground (arith, text_eq_iff j i)) ∙ kd.1,
    kd.2,
    modify-IsKeyed j f d same kd.3,
  )
]

pub insert-IsKeyed :
    (j : Text) (h : HostRecord) (d : Dict HostRecord)
    → h.host_id ≡ j
    → is_empty j ≡ false
    → lookup j d ≡ none
    → IsKeyed d
    → IsKeyed (insert j h d)
unfolding insert lookup
insert-IsKeyed j h [] own full new kd = (own, refl, full, tt)
insert-IsKeyed j h ((i, x) ∷ d) own full new kd = elim (Bool-cases (text_eq j i)) [
  | inl hit ↦ absurd (ground arith)
  | inr miss ↦ rw miss (
    kd.0,
    lookup-insert j i h d ∙ (ground (arith, text_eq_iff j i, text_eq_iff i j)),
    kd.2,
    insert-IsKeyed j h d own full (ground arith) kd.3,
  )
]

pub erase-IsKeyed : (j : Text) (d : Dict HostRecord) → IsKeyed d → IsKeyed (erase j d)
unfolding erase
erase-IsKeyed j [] kd = kd
erase-IsKeyed j ((i, x) ∷ d) kd = elim (Bool-cases (text_eq j i)) [
  | inl hit ↦ rw hit kd.3
  | inr miss ↦ rw miss (
    kd.0,
    lookup-erase_ne j i d (λ e. ground (arith, text_eq_iff j i)) ∙ kd.1,
    kd.2,
    erase-IsKeyed j d kd.3,
  )
]
