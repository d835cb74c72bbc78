-- ===== src/Registry/Sound/Choose.antt =====
-- The hosts that a reclaim chooses from, and what it chooses.
use blitzwing.Base.{
  ◌≡◌, refl, sym, ap, ◌∙◌, true, ◌⊎◌, inl, inr, Option, none, some, List, [], ◌∷◌, ◌++◌, arith,
  Bool-cases, Option-cases,
}
use blitzwing.Base.Text.{Text, text_eq, text_eq_iff}
use blitzwing.Base.Dict.{Dict, lookup, values}
use blitzwing.Registry.Range.{Range}
use blitzwing.Registry.Host.{HostRecord, is_mother}
use blitzwing.Registry.Leave.{can_merge, choose, find_adjacent, is_adjacent, has_id, add_candidate}
use blitzwing.Registry.Sound.Donor.{In}

pub values-In :
    (j : Text) (x : HostRecord) (d : Dict HostRecord) → lookup j d ≡ some x → In x (values d)
unfolding values lookup
values-In j x [] e = cc
values-In j x ((i, y) ∷ d) e = elim (Bool-cases (text_eq j i)) [
  | inl hit ↦ inl (ground arith)
  | inr miss ↦ inr (values-In j x d (ground arith))
]

pub find_adjacent-In :
    (p : Range) (hs : List HostRecord) (y : HostRecord)
    → find_adjacent p hs ≡ some y
    → In y hs × (is_adjacent p y ≡ true)
unfolding find_adjacent
find_adjacent-In p [] y e = cc
find_adjacent-In p (x ∷ hs) y e = elim (Bool-cases (is_adjacent p x)) [
  | inl touches ↦
      let is_y : y ≡ x = ground arith in (inl is_y, ap (λ z. is_adjacent p z) is_y ∙ touches)
  | inr apart ↦ let (i, touches) = find_adjacent-In p hs y (ground arith) in (inr i, touches)
]

pub find_adjacent-some :
    (p : Range) (hs : List HostRecord) (x : HostRecord)
    → In x hs
    → is_adjacent p x ≡ true
    → (y : HostRecord) × (find_adjacent p hs ≡ some y)
unfolding find_adjacent
find_adjacent-some p [] x i touches = elim i [ ]
find_adjacent-some p (z ∷ hs) x i touches = elim (Bool-cases (is_adjacent p z)) [
  | inl here ↦ (z, rw here)
  | inr not_here ↦ elim i [
    | inl e ↦ absurd (cc (ap (λ w. is_adjacent p w) e, touches, not_here))
    | inr later ↦ let (y, found) = find_adjacent-some p hs x later touches in (y, rw not_here found)
  ]
]

In-append : (c x : HostRecord) (cs : List HostRecord) → In c (cs ++ x ∷ []) → In c cs ⊎ (c ≡ x)
In-append c x [] i = elim i [ inl e ↦ inr e | inr none_left ↦ inl none_left ]
In-append c x (y ∷ cs) (inl e) = inl (inl e)
In-append c x (y ∷ cs) (inr i) = elim (In-append c x cs i) [ inl j ↦ inl (inr j) | inr e ↦ inr e ]

append-In : (c x : HostRecord) (cs : List HostRecord) → In c cs ⊎ (c ≡ x) → In c (cs ++ x ∷ [])
append-In c x [] (inl i) = elim i [ ]
append-In c x [] (inr e) = inl e
append-In c x (y ∷ cs) (inl (inl e)) = inl e
append-In c x (y ∷ cs) (inl (inr i)) = inr (append-In c x cs (inl i))
append-In c x (y ∷ cs) (inr e) = inr (append-In c x cs (inr e))

has_id-In :
    (i : Text) (cs : List HostRecord)
    → has_id i cs ≡ true
    → (c : HostRecord) × In c cs × (c.host_id ≡ i)
unfolding has_id
has_id-In i [] e = cc
has_id-In i (x ∷ cs) e = elim (Bool-cases (text_eq i x.host_id)) [
  | inl hit ↦ (x, inl refl, ground (arith, text_eq_iff i x.host_id))
  | inr miss ↦ let (c, j, same) = has_id-In i cs (ground arith) in (c, inr j, same)
]

-- What an added candidate adds, and that it or a host of its id is there then.
pub In-add_candidate :
    (c : HostRecord) (o : Option HostRecord) (cs : List HostRecord)
    → In c (add_candidate o cs)
    → In c cs ⊎ (o ≡ some c)
unfolding add_candidate
In-add_candidate c none cs i = inl i
In-add_candidate c (some h) cs i = elim (Bool-cases (has_id h.host_id cs)) [
  | inl known ↦ inl (rw known at i)
  | inr new ↦ elim (In-append c h cs (rw new at i)) [
    | inl j ↦ inl j
    | inr e ↦ inr (ap some (sym e))
  ]
]

pub add_candidate-In :
    (c : HostRecord) (o : Option HostRecord) (cs : List HostRecord)
    → In c cs
    → In c (add_candidate o cs)
unfolding add_candidate
add_candidate-In c none cs i = i
add_candidate-In c (some h) cs i = elim (Bool-cases (has_id h.host_id cs)) [
  | inl known ↦ rw (known, add_candidate) i
  | inr new ↦ rw (new, add_candidate) (append-In c h cs (inl i))
]

pub add_candidate-added :
    (h : HostRecord) (cs : List HostRecord)
    → (c : HostRecord) × In c (add_candidate (some h) cs) × (c.host_id ≡ h.host_id)
unfolding add_candidate
add_candidate-added h cs = elim (Bool-cases (has_id h.host_id cs)) [
  | inl known ↦
      let (c, i, same) = has_id-In h.host_id cs known in (c, rw (known, add_candidate) i, same)
  | inr new ↦ (h, rw (new, add_candidate) (append-In h h cs (inr refl)), refl)
]

-- The choice is a candidate that can take the range, or the best so far.
pub choose-In :
    (hosts : List HostRecord) (p : Range) (best : Option (HostRecord × Range))
    (cs : List HostRecord) (c : HostRecord) (new : Range)
    → choose hosts p best cs ≡ some (c, new)
    → (In c cs × (can_merge hosts c p ≡ some new)) ⊎ (best ≡ some (c, new))
unfolding choose
choose-In hosts p best [] c new e = inr e
choose-In hosts p best (x ∷ cs) c new e = elim (Option-cases (can_merge hosts x p)) [
  | inl cannot ↦ elim (choose-In hosts p best cs c new (rw (cannot, choose) at e)) [
    | inl (i, can) ↦ inl (inr i, can)
    | inr b ↦ inr b
  ]
  | inr (wide, can) ↦ elim (Bool-cases (is_mother x)) [
    | inl first ↦
        let same : x ≡ c = ground arith in
        let wider : wide ≡ new = ground arith in
        inl (inl (sym same), ap (λ z. can_merge hosts z p) (sym same) ∙ can ∙ ap some wider)
    | inr other ↦ elim (choose-In hosts p (some (x, wide)) cs c new (ground arith)) [
      | inl (i, can') ↦ inl (inr i, can')
      | inr b ↦
          let same : x ≡ c = ground arith in
          let wider : wide ≡ new = ground arith in
          inl (inl (sym same), ap (λ z. can_merge hosts z p) (sym same) ∙ can ∙ ap some wider)
    ]
  ]
]

choose_best :
    (hosts : List HostRecord) (p : Range) (best : HostRecord × Range) (cs : List HostRecord)
    → (out : HostRecord × Range) × (choose hosts p (some best) cs ≡ some out)
unfolding choose
choose_best hosts p best [] = (best, refl)
choose_best hosts p best (x ∷ cs) = elim (Option-cases (can_merge hosts x p)) [
  | inl cannot ↦ let (out, e) = choose_best hosts p best cs in (out, rw (cannot, choose) e)
  | inr (wide, can) ↦ elim (Bool-cases (is_mother x)) [
    | inl first ↦ ((x, wide), rw (can, first, choose))
    | inr other ↦
        let (out, e) = choose_best hosts p (x, wide) cs in (out, rw (can, other, choose) e)
  ]
]

-- If a candidate can take the range, one is chosen.
pub choose-some :
    (hosts : List HostRecord) (p : Range) (best : Option (HostRecord × Range))
    (cs : List HostRecord) (c : HostRecord) (new : Range)
    → In c cs
    → can_merge hosts c p ≡ some new
    → (out : HostRecord × Range) × (choose hosts p best cs ≡ some out)
unfolding choose
choose-some hosts p best [] c new i can = elim i [ ]
choose-some hosts p best (x ∷ cs) c new i can = elim (Option-cases (can_merge hosts x p)) [
  | inl cannot ↦ elim i [
    | inl e ↦ absurd (cc (ap (λ z. can_merge hosts z p) e, can, cannot))
    | inr later ↦
        let (out, e) = choose-some hosts p best cs c new later can in (out, rw (cannot, choose) e)
  ]
  | inr (wide, can') ↦ elim (Bool-cases (is_mother x)) [
    | inl first ↦ ((x, wide), rw (can', first, choose))
    | inr other ↦
        let (out, e) = choose_best hosts p (x, wide) cs in (out, rw (can', other, choose) e)
  ]
]
