-- ===== src/Registry/Reclaim.antt =====
-- The reclaim of the layers of an online host that leaves a sound registry: whom the range may go
-- to, and the number of online hosts of each layer before and after.
pub mod Kept
use blitzwing.Base.{
  ℕ, ◌+◌, ◌≤◌, ◌<◌, ◌≡◌, ◌≢◌, refl, sym, ap, ◌∙◌, Bool, true, false, not, ◌&&◌, ◌||◌, ◌⊎◌, inl, inr,
  Option, none, some, List, [], ◌∷◌, arith, Bool-cases, Option-cases, if◌then◌else◌,
}
use blitzwing.Base.Int.{ℤ, pos, ◌≤ℤ◌, ◌<ℤ◌, leb_ℤ, ltb_ℤ, eqb_ℤ, min_ℤ, max_ℤ, int_laws}
use blitzwing.Base.Text.{Text, text_eq, text_eq_iff}
use blitzwing.Base.Dict.{Dict, lookup, modify, erase, values, lookup-erase_ne}
use blitzwing.Base.Exec.{Result, ok, err}
use blitzwing.Registry.Range.{Range, range}
use blitzwing.Registry.Host.{
  HostRecord, SwarmRegistry, Env, online, is_online, is_mother, mother_id, set_range,
}
use blitzwing.Registry.Donor.{largest_donor}
use blitzwing.Registry.Leave.{
  has_conflict, can_merge, choose, candidates, find_adjacent, online_mother, leave, add_candidate,
}
use blitzwing.Registry.Cover.{
  contrib, cover, covers, one_if, cover-modify, cover-erase, contrib-le-cover,
}
use blitzwing.Registry.Sound.{IsKeyed, IsSound}
use blitzwing.Registry.Sound.Keyed.{lookup-key, erase-IsKeyed, lookup-erase_self}
use blitzwing.Registry.Sound.Donor.{In, In-values, largest_donor-online}
use blitzwing.Registry.Sound.Beats.{hosts-persist}
use blitzwing.Registry.Losses.{contrib-online}

-- An online host other than the donor that reaches into the widened range is in the way.
conflicts :
    (donor_id j : Text) (new : Range) (x : HostRecord) (d : Dict HostRecord)
    → lookup j d ≡ some x
    → x.host_id ≢ donor_id
    → x.status ≡ online
    → x.block_indices.start <ℤ new.end
    → new.start <ℤ x.block_indices.end
    → has_conflict donor_id new (values d) ≡ true
unfolding has_conflict lookup values
conflicts donor_id j new x [] e ne up lo hi = cc
conflicts donor_id j new x ((i, y) ∷ d) e ne up lo hi = elim (Bool-cases (text_eq j i)) [
  | inl hit ↦
      let e' : y ≡ x = ground arith in rw e' (ground (arith, text_eq_iff x.host_id donor_id))
  | inr miss ↦ ground (arith, conflicts donor_id j new x d (ground arith) ne up lo hi)
]

-- A layer that some online host holds has a holder.
holder :
    (k : ℤ) (d : Dict HostRecord)
    → IsKeyed d
    → cover k d ≢ 0
    → (x : HostRecord) × (lookup x.host_id d ≡ some x) × (contrib k x ≡ 1)
unfolding cover contrib lookup
holder k [] kd some_cover = absurd (some_cover refl)
holder k ((j, y) ∷ d) kd some_cover = elim (Bool-cases (is_online y && covers k y.block_indices)) [
  | inl held ↦ (y, ground (arith, text_eq_iff y.host_id j), rw held)
  | inr free ↦
      let (x, e, one) = holder k d kd.3 (ground arith) in
      (x, ground (arith, text_eq_iff x.host_id j), one)
]

-- A host that stays and is online.
record Stays (d : Dict HostRecord) (c : HostRecord) : Type 0 where
  found : lookup c.host_id d ≡ some c
  up : c.status ≡ online

can_merge_cases :
    (hosts : List HostRecord) (c : HostRecord) (p new : Range)
    → can_merge hosts c p ≡ some new
    → ((c.block_indices.end ≡ p.start) × (new ≡ range c.block_indices.start p.end))
      ⊎ (((p.end ≡ c.block_indices.start) × (new ≡ range p.start c.block_indices.end))
          ⊎ ((c.block_indices.end ≢ p.start)
              × (p.end ≢ c.block_indices.start)
              × (has_conflict c.host_id
                    (range (min_ℤ c.block_indices.start p.start) (max_ℤ c.block_indices.end p.end))
                    hosts
                  ≡ false)))
unfolding can_merge
can_merge_cases hosts c p new e = elim (Bool-cases (eqb_ℤ c.block_indices.end p.start)) [
  | inl meets ↦ inl (ground arith, ground arith)
  | inr apart ↦ elim (Bool-cases (eqb_ℤ p.end c.block_indices.start)) [
    | inl meets ↦ inr (inl (ground arith, ground arith))
    | inr apart' ↦ inr (inr ((λ q. ground arith), (λ q. ground arith), ground arith))
  ]
]

covers_behind :
    (k : ℤ) (a b : Range)
    → a.end ≡ b.start
    → a.start <ℤ a.end
    → b.start <ℤ b.end
    → one_if (covers k (range a.start b.end)) ≡ one_if (covers k a) + one_if (covers k b)
covers_behind k a b meets in_a in_b = ground arith

covers_before :
    (k : ℤ) (a b : Range)
    → b.end ≡ a.start
    → a.start <ℤ a.end
    → b.start <ℤ b.end
    → one_if (covers k (range b.start a.end)) ≡ one_if (covers k a) + one_if (covers k b)
covers_before k a b meets in_a in_b = ground arith

module _ (t : ℤ) (i : Text) (h : HostRecord) (d : Dict HostRecord) (found : lookup i d ≡ some h)
    (up : h.status ≡ online) (sound : IsSound t d) where
  abbrev left : Dict HostRecord
  left = erase i d

  abbrev freed : Range
  freed = h.block_indices

  left-IsKeyed : IsKeyed left
  left-IsKeyed = erase-IsKeyed i d sound.keyed

  was_there : (k : Text) (x : HostRecord) → lookup k left ≡ some x → lookup k d ≡ some x
  was_there k x e = elim (Bool-cases (text_eq k i)) [
    | inl hit ↦ absurd (ground (arith, text_eq_iff k i, lookup-erase_self i d sound.keyed))
    | inr miss ↦ sym (lookup-erase_ne i k d (λ q. ground (arith, text_eq_iff k i))) ∙ e
  ]

  nonempty : (c : HostRecord) → Stays left c → c.block_indices.start <ℤ c.block_indices.end
  nonempty c s = (sound.hosts c.host_id c (was_there c.host_id c s.found)).nonempty

  freed_nonempty : freed.start <ℤ freed.end
  freed_nonempty = (sound.hosts i h found).nonempty

  in_freed : (k : ℤ) → covers k freed ≡ true → (cover k left ≡ 0) × (pos 0 ≤ℤ k) × (k <ℤ t)
  unfolding contrib
  in_freed k inside =
      let erased = cover-erase k i h d found in
      let exact = sound.exact k in (ground (arith, up), ground (arith, up), ground (arith, up))

  in_left : (k : ℤ) → covers k freed ≡ false → pos 0 ≤ℤ k → k <ℤ t → cover k left ≡ 1
  unfolding contrib
  in_left k outside lo hi =
      let erased = cover-erase k i h d found in let exact = sound.exact k in ground (arith, up)

  held_once : (k : ℤ) (c : HostRecord) → Stays left c → contrib k c ≤ cover k left
  held_once k c s = contrib-le-cover k c.host_id c left s.found

  disjoint :
      (c : HostRecord)
      → Stays left c
      → (c.block_indices.end ≤ℤ freed.start) ⊎ (freed.end ≤ℤ c.block_indices.start)
  unfolding contrib
  disjoint c s = elim (Bool-cases (leb_ℤ c.block_indices.end freed.start)) [
    | inl before ↦ inl (ground arith)
    | inr late ↦ elim (Bool-cases (leb_ℤ freed.end c.block_indices.start)) [
      | inl behind ↦ inr (ground arith)
      | inr early ↦
          let k = max_ℤ c.block_indices.start freed.start in
          let in_c = nonempty c s in
          let in_f = freed_nonempty in
          let (none_there, lo, hi) = in_freed k (ground arith) in
          let once = held_once k c s in absurd (ground (arith, s.up))
    ]
  ]

  bounds :
      (c : HostRecord)
      → Stays left c
      → (pos 0 ≤ℤ c.block_indices.start) × (c.block_indices.start <ℤ t)
  unfolding contrib
  bounds c s =
      let in_c = nonempty c s in
      let first = held_once c.block_indices.start c s in
      let first_erased = cover-erase c.block_indices.start i h d found in
      let first_exact = sound.exact c.block_indices.start in
      (ground (arith, s.up), ground (arith, s.up))

  other_holder :
      (k : ℤ) (c : HostRecord)
      → Stays left c
      → covers k freed ≡ false
      → covers k c.block_indices ≡ false
      → pos 0 ≤ℤ k
      → k <ℤ t
      → (x : HostRecord) × (lookup x.host_id left ≡ some x)
        × (x.host_id ≢ c.host_id)
        × (contrib k x ≡ 1)
  unfolding contrib
  other_holder k c s outside not_c lo hi =
      let one = in_left k outside lo hi in
      let (x, e, held) = holder k left left-IsKeyed (ground arith) in
      (
        x,
        e,
        (λ same.
            let is_c : x ≡ c = ground (arith, e, s.found, ap (λ (j : Text). lookup j left) same) in
            absurd (ground (arith, ap (λ (y : HostRecord). contrib k y) is_c))),
        held,
      )

  abbrev widened : HostRecord → Range
  widened c = range (min_ℤ c.block_indices.start freed.start) (max_ℤ c.block_indices.end freed.end)

  in_the_way :
      (k : ℤ) (c : HostRecord)
      → Stays left c
      → covers k freed ≡ false
      → covers k c.block_indices ≡ false
      → covers k (widened c) ≡ true
      → pos 0 ≤ℤ k
      → k <ℤ t
      → has_conflict c.host_id (widened c) (values left) ≡ true
  unfolding contrib
  in_the_way k c s outside not_c inside lo hi =
      let (x, e, ne, held) = other_holder k c s outside not_c lo hi in
      conflicts c.host_id x.host_id (widened c) x left e ne (ground (arith, held))
        (ground (arith, held)) (ground (arith, held))

  -- A gap between the host and the range holds another host.
  gap :
      (c : HostRecord)
      → Stays left c
      → c.block_indices.end ≢ freed.start
      → freed.end ≢ c.block_indices.start
      → has_conflict c.host_id (widened c) (values left) ≡ true
  unfolding contrib
  gap c s ne ne' =
      let in_c = nonempty c s in
      let in_f = freed_nonempty in
      let (low, high) = bounds c s in
      let (none_first, f_lo, f_hi) = in_freed freed.start (ground arith) in
      elim (disjoint c s) [
        | inl before ↦
            in_the_way c.block_indices.end c s (ground arith) (ground arith) (ground arith)
              (ground arith) (ground arith)
        | inr behind ↦
            in_the_way freed.end c s (ground arith) (ground arith) (ground arith) (ground arith)
              (ground arith)
      ]

  -- The widened range holds the host's layers and the freed ones.
  abbrev Joins : HostRecord → Range → Type 0
  Joins c new = (k : ℤ) → contrib k (set_range new c) ≡ contrib k c + contrib k h

  can_merge-Joins :
      (c : HostRecord) (new : Range)
      → Stays left c
      → can_merge (values left) c freed ≡ some new
      → Joins c new
  can_merge-Joins c new s e k = elim (can_merge_cases (values left) c freed new e) [
    | inl (meets, eq) ↦
        rw
          (
            contrib-online k h up,
            contrib-online k c s.up,
            contrib-online k (set_range new c) s.up,
            eq,
          )
          (covers_behind k c.block_indices freed meets (nonempty c s) freed_nonempty)
    | inr (inl (meets, eq)) ↦
        rw
          (
            contrib-online k h up,
            contrib-online k c s.up,
            contrib-online k (set_range new c) s.up,
            eq,
          )
          (covers_before k c.block_indices freed meets (nonempty c s) freed_nonempty)
    | inr (inr (apart, apart', free)) ↦ absurd (cc (free, gap c s apart apart'))
  ]
