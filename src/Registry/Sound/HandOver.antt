-- ===== src/Registry/Sound/HandOver.antt =====
-- The hosts after the hand-over of `mark_ready`, which follows a plan.
use mathlib.Core.Path.{subst}
use blitzwing.Base.{◌+◌, ◌≡◌, ◌≢◌, refl, sym, ap, ◌∙◌, ◌⊎◌, inl, inr, some, arith, Bool-cases}
use blitzwing.Base.Int.{ℤ, ◌<ℤ◌}
use blitzwing.Base.Text.{Text, or_empty, text_eq, text_eq_iff}
use blitzwing.Base.Dict.{Dict, lookup, modify, lookup-modify, lookup-modify_self, lookup-modify_ne}
use blitzwing.Registry.Range.{Range, range}
use blitzwing.Registry.Host.{HostRecord, Env, online, pending, mother_id, set_range}
use blitzwing.Registry.Ready.{go_online}
use blitzwing.Registry.Cover.{contrib, cover, cover-modify}
use blitzwing.Registry.Sound.{IsPlanned, IsHost, IsMother, IsSound}
use blitzwing.Registry.Sound.Keyed.{modify-IsKeyed}

-- The donor's layers are split between the donor and the host that was pending.
contrib-split :
    (k : ℤ) (env : Env) (h donor : HostRecord) (cut : ℤ)
    → h.status ≡ pending
    → donor.status ≡ online
    → h.block_indices.start ≡ cut
    → h.block_indices.end ≡ donor.block_indices.end
    → donor.block_indices.start <ℤ cut
    → cut <ℤ h.block_indices.end
    → contrib k (set_range (range donor.block_indices.start cut) donor)
        + contrib k (go_online env h.block_indices h)
      ≡ contrib k donor + contrib k h
unfolding contrib
contrib-split k env h donor cut w up at meets lo hi = ground arith

pending-ne-online : (a b : HostRecord) → a ≡ b → a.status ≡ pending → b.status ≡ online → ⊥
pending-ne-online a b e w up = cc

module _ (t : ℤ) (env : Env) (i : Text) (h donor : HostRecord) (d : Dict HostRecord)
    (found : lookup i d ≡ some h) (waits : h.status ≡ pending) (plan : IsPlanned d h donor)
    (sound : IsSound t d) where
  abbrev pub donor_id : Text
  donor_id = or_empty h.donor_host_id

  abbrev pub kept : Range
  kept = range donor.block_indices.start h.block_indices.start

  abbrev pub shrunk : Dict HostRecord
  shrunk = modify donor_id (set_range kept) d

  abbrev pub handed : Dict HostRecord
  handed = modify i (go_online env h.block_indices) shrunk

  pub ids_differ : i ≢ donor_id
  ids_differ e =
      pending-ne-online h donor (ground (arith, ap (λ (j : Text). lookup j d) e, plan.donor_found))
        waits plan.donor_online

  found_shrunk : lookup i shrunk ≡ some h
  found_shrunk = lookup-modify_ne donor_id i (set_range kept) d ids_differ ∙ found

  cover-handed : (k : ℤ) → cover k handed ≡ cover k d
  cover-handed k = omega (
    arith,
    cover-modify k i (go_online env h.block_indices) h shrunk found_shrunk,
    cover-modify k donor_id (set_range kept) donor d plan.donor_found,
    contrib-split k env h donor h.block_indices.start waits plan.donor_online refl plan.meets
        plan.leaves_some (sound.hosts i h found).nonempty,
  )

  -- Whoever is found afterwards is the new host, the shrunk donor, or as before.
  lookup-handed :
      (j : Text) (x : HostRecord)
      → lookup j handed ≡ some x
      → (x ≡ go_online env h.block_indices h)
        ⊎ ((x ≡ set_range kept donor) ⊎ ((j ≢ i) × (lookup j d ≡ some x)))
  lookup-handed j x e = elim (Bool-cases (text_eq j i)) [
    | inl hit ↦ inl (
        ground (
          arith,
          lookup-modify i j (go_online env h.block_indices) shrunk,
          text_eq_iff j i,
          found_shrunk,
        ))
    | inr miss ↦ elim (Bool-cases (text_eq j donor_id)) [
      | inl hit ↦ inr (
          inl (
            ground (
              arith,
              lookup-modify i j (go_online env h.block_indices) shrunk,
              lookup-modify donor_id j (set_range kept) d,
              text_eq_iff j donor_id,
              plan.donor_found,
            )))
      | inr other ↦ inr (
          inr (
            λ e'. ground (arith, text_eq_iff j i),
            ground (
              arith,
              lookup-modify i j (go_online env h.block_indices) shrunk,
              lookup-modify donor_id j (set_range kept) d,
            ),
          ))
    ]
  ]

  no_longer_pending :
      (j : Text) (x : HostRecord) → lookup j handed ≡ some x → x.status ≡ pending → ⊥
  no_longer_pending j x e w = elim (lookup-handed j x e) [
    | inl new ↦ ground arith
    | inr (inl gave) ↦ ground (arith, gave, plan.donor_online)
    | inr (inr (ne, same)) ↦ ne (sound.single j i x h same found w waits)
  ]

  found_donor : lookup donor_id handed ≡ some (set_range kept donor)
  found_donor =
      lookup-modify_ne i donor_id (go_online env h.block_indices) shrunk (λ e. ids_differ (sym e))
      ∙ lookup-modify_self donor_id (set_range kept) donor d plan.donor_found

  found_other : (j : Text) → j ≢ i → j ≢ donor_id → lookup j handed ≡ lookup j d
  found_other j ne ne' =
      lookup-modify_ne i j (go_online env h.block_indices) shrunk ne
      ∙ lookup-modify_ne donor_id j (set_range kept) d ne'

  mother-ne-host : (m : HostRecord) → IsMother d m → mother_id ≢ i
  mother-ne-host m is_m e =
      pending-ne-online h m (ground (arith, ap (λ (j : Text). lookup j d) e, found, is_m.found))
        waits is_m.up

  found-IsMother : (m : HostRecord) → IsMother d m → (m' : HostRecord) × IsMother handed m'
  found-IsMother m is_m = elim (Bool-cases (text_eq mother_id donor_id)) [
    | inl hit ↦
        let e : mother_id ≡ donor_id = (text_eq_iff mother_id donor_id).0 hit in
        (
          set_range kept donor,
          record {
            found = ap (λ (j : Text). lookup j handed) e ∙ found_donor;
            up = plan.donor_online;
            is_role = ground (
              arith,
              ap (λ (j : Text). lookup j d) e,
              plan.donor_found,
              is_m.found,
              is_m.is_role,
            );
          },
        )
    | inr miss ↦ (
      m,
      record {
        found =
            found_other mother_id (mother-ne-host m is_m)
              (λ e. ground (arith, text_eq_iff mother_id donor_id))
            ∙ is_m.found;
        up = is_m.up;
        is_role = is_m.is_role;
      },
    )
  ]

  new-IsHost : IsHost (go_online env h.block_indices h)
  new-IsHost = record { nonempty = (sound.hosts i h found).nonempty; live = λ e. cc }

  donor-IsHost : IsHost (set_range kept donor)
  donor-IsHost = record { nonempty = plan.leaves_some; live = λ e. cc (plan.donor_online) }

  -- A planned hand-over keeps the registry sound.
  pub handed-IsSound : IsSound t handed
  handed-IsSound = record {
    keyed =
        modify-IsKeyed i (go_online env h.block_indices) shrunk (λ x. refl)
          (modify-IsKeyed donor_id (set_range kept) d (λ x. refl) sound.keyed);
    exact = λ k. cover-handed k ∙ sound.exact k;
    hosts = λ j x e. elim (lookup-handed j x e) [
      | inl new ↦ subst IsHost (sym new) new-IsHost
      | inr (inl gave) ↦ subst IsHost (sym gave) donor-IsHost
      | inr (inr (ne, same)) ↦ sound.hosts j x same
    ];
    has_mother = let (m, is_m) = sound.has_mother in found-IsMother m is_m;
    plans = λ j x e w. absurd (no_longer_pending j x e w);
    single = λ j j' a b ea eb wa wb. absurd (no_longer_pending j a ea wa);
  }
