-- ===== src/Registry/Sound/Stays.antt =====
-- Updates of a host that leave its layers, its status and its plan alone.
use mathlib.Core.Path.{subst}
use blitzwing.Base.{◌≡◌, ◌≢◌, refl, sym, ap, ◌∙◌, inl, inr, some, arith, Bool-cases, Option-cases}
use blitzwing.Base.Int.{ℤ}
use blitzwing.Base.Text.{Text, or_empty, text_eq}
use blitzwing.Base.Dict.{Dict, lookup, modify, lookup-modify, modify-none}
use blitzwing.Registry.Range.{Range, size}
use blitzwing.Registry.Host.{HostRecord, offline, mother_id}
use blitzwing.Registry.Cover.{contrib, cover, cover-modify}
use blitzwing.Registry.Sound.{IsPlanned, IsSound}
use blitzwing.Registry.Sound.Keyed.{modify-IsKeyed}

pub record Same (x y : HostRecord) : Type 0 where
  pub host_id : x.host_id ≡ y.host_id
  pub role : x.role ≡ y.role
  pub blocks : x.block_indices ≡ y.block_indices
  pub status : x.status ≡ y.status
  pub pending_range : x.pending_range ≡ y.pending_range
  pub donor : x.donor_host_id ≡ y.donor_host_id
  pub shrink : x.donor_shrink_to ≡ y.donor_shrink_to

pub Same-refl : (x : HostRecord) → Same x x
Same-refl x = record {
  host_id = refl;
  role = refl;
  blocks = refl;
  status = refl;
  pending_range = refl;
  donor = refl;
  shrink = refl;
}

-- A new layer count, with the blocks as they were.
abbrev pub recount : Range → HostRecord → HostRecord
recount b h = record h { layers_hosted = size b }

pub recount-Same : (b : Range) (h : HostRecord) → Same (recount b h) h
recount-Same b h = record {
  host_id = refl;
  role = refl;
  blocks = refl;
  status = refl;
  pending_range = refl;
  donor = refl;
  shrink = refl;
}

-- Hosts with the same status and blocks hold the same layers.
pub contrib-Same : (k : ℤ) (x y : HostRecord) → Same x y → contrib k x ≡ contrib k y
unfolding contrib
contrib-Same k x y s = rw (s.status, s.blocks)

module _ (t : ℤ) (j : Text) (f : HostRecord → HostRecord) (d : Dict HostRecord)
    (own : (h : HostRecord) → (f h).host_id ≡ h.host_id)
    (same : (h : HostRecord) → h.status ≢ offline → Same (f h) h) (sound : IsSound t d) where
  pub forward :
      (i : Text) (y : HostRecord)
      → lookup i d ≡ some y
      → (x : HostRecord) × (lookup i (modify j f d) ≡ some x) × Same x y
  forward i y e = elim (Bool-cases (text_eq i j)) [
    | inl hit ↦ (f y, lookup-modify j i f d ∙ (rw (hit, e)), same y (sound.hosts i y e).live)
    | inr miss ↦ (y, lookup-modify j i f d ∙ (rw (miss, e)), Same-refl y)
  ]

  backward :
      (i : Text) (x : HostRecord)
      → lookup i (modify j f d) ≡ some x
      → (y : HostRecord) × (lookup i d ≡ some y) × Same x y
  backward i x e = elim (Option-cases (lookup i d)) [
    | inl no_host ↦ absurd (ground (arith, lookup-modify j i f d))
    | inr (y, ey) ↦ (
      y,
      ey,
      elim (Bool-cases (text_eq i j)) [
        | inl hit ↦
            let e' : f y ≡ x = ground (arith, lookup-modify j i f d) in
            rw e' at (same y (sound.hosts i y ey).live)
        | inr miss ↦
            let e' : y ≡ x = ground (arith, lookup-modify j i f d) in
            subst (λ z. Same z y) e' (Same-refl y)
      ],
    )
  ]

  IsPlanned-modify :
      (h' h donor : HostRecord)
      → Same h' h
      → IsPlanned d h donor
      → (donor' : HostRecord) × IsPlanned (modify j f d) h' donor'
  IsPlanned-modify h' h donor s p =
      let (donor', found, sd) = forward (or_empty h.donor_host_id) donor p.donor_found in
      (
        donor',
        record {
          named = rw s.donor p.named;
          donor_found = rw s.donor found;
          donor_online = sd.status ∙ p.donor_online;
          shrink = s.shrink ∙ rw (sd.blocks, s.blocks) p.shrink;
          assigned = s.pending_range ∙ rw s.blocks p.assigned;
          meets = rw (sd.blocks, s.blocks) p.meets;
          leaves_some = rw (sd.blocks, s.blocks) p.leaves_some;
        },
      )

  exact-modify : (k : ℤ) → cover k (modify j f d) ≡ cover k d
  exact-modify k = elim (Option-cases (lookup j d)) [
    | inl no_host ↦ ap (cover k) (modify-none j f d no_host)
    | inr (h, e) ↦
        omega (
          arith,
          cover-modify k j f h d e,
          contrib-Same k (f h) h (same h (sound.hosts j h e).live),
        )
  ]

  pub modify-IsSound : IsSound t (modify j f d)
  modify-IsSound = record {
    keyed = modify-IsKeyed j f d own sound.keyed;
    exact = λ k. exact-modify k ∙ sound.exact k;
    hosts = λ i x e.
        let (y, ey, s) = backward i x e in
        record {
          nonempty = rw s.blocks (sound.hosts i y ey).nonempty;
          live = rw s.status (sound.hosts i y ey).live;
        };
    has_mother =
        let (m, is_m) = sound.has_mother in
        let (m', found, s) = forward mother_id m is_m.found in
        (m', record { found = found; up = s.status ∙ is_m.up; is_role = s.role ∙ is_m.is_role });
    plans = λ i x e w.
        let (y, ey, s) = backward i x e in
        let (donor, p) = sound.plans i y ey (sym s.status ∙ w) in IsPlanned-modify x y donor s p;
    single = λ i i' a b ea eb wa wb.
        let (a', ea', sa) = backward i a ea in
        let (b', eb', sb) = backward i' b eb in
        sound.single i i' a' b' ea' eb' (sym sa.status ∙ wa) (sym sb.status ∙ wb);
  }
