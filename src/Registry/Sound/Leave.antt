-- ===== src/Registry/Sound/Leave.antt =====
-- The registry after the departure of a pending host.
use blitzwing.Base.{
  ◌≡◌, ◌≢◌, sym, ap, ◌∙◌, ◌⊎◌, true, false, inl, inr, none, some, [], ◌∷◌, arith, Bool-cases,
}
use blitzwing.Base.Int.{ℤ, ◌≤ℤ◌}
use blitzwing.Base.Text.{Text, text_eq, text_eq_iff, or_empty}
use blitzwing.Base.Dict.{Dict, lookup, erase, values, lookup-erase_ne}
use blitzwing.Registry.Range.{Range}
use blitzwing.Registry.Host.{
  HostRecord, SwarmRegistry, Env, mother_id, is_mother, online, pending, persist,
}
use blitzwing.Registry.Leave.{covered_by_online, range_to_reclaim, leave}
use blitzwing.Registry.Cover.{contrib, cover, cover-erase}
use blitzwing.Registry.Sound.{IsKeyed, IsSound}
use blitzwing.Registry.Sound.Keyed.{erase-IsKeyed, lookup-key, lookup-erase_self}
use blitzwing.Registry.Sound.Beats.{hosts-persist, total-persist}

-- A range inside the blocks of some other online host is covered.
covered_by :
    (p : Range) (skip j : Text) (h : HostRecord) (d : Dict HostRecord)
    → IsKeyed d
    → lookup j d ≡ some h
    → h.host_id ≢ skip
    → h.status ≡ online
    → h.block_indices.start ≤ℤ p.start
    → p.end ≤ℤ h.block_indices.end
    → covered_by_online p skip (values d) ≡ true
unfolding covered_by_online lookup values
covered_by p skip j h [] kd e ne up lo hi = cc
covered_by p skip j h ((i, x) ∷ d) kd e ne up lo hi = elim (Bool-cases (text_eq j i)) [
  | inl hit ↦ let e' : x ≡ h = ground arith in rw e' (ground (arith, text_eq_iff h.host_id skip))
  | inr miss ↦ ground (arith, covered_by p skip j h d kd.3 (ground arith) ne up lo hi)
]

module _ (t : ℤ) (i : Text) (h : HostRecord) (d : Dict HostRecord) (found : lookup i d ≡ some h)
    (waits : h.status ≡ pending) (sound : IsSound t d) where
  reclaims_nothing : range_to_reclaim h (values d) ≡ none
  unfolding range_to_reclaim
  reclaims_nothing =
      let (donor, p) = sound.plans i h found waits in
      let own = lookup-key i h d sound.keyed found in
      let donor_own = lookup-key (or_empty h.donor_host_id) donor d sound.keyed p.donor_found in
      ground (
        arith,
        waits,
        covered_by h.block_indices h.host_id (or_empty h.donor_host_id) donor d sound.keyed
            p.donor_found
            (λ e. ground (
              arith,
              waits,
              p.donor_online,
              found,
              p.donor_found,
              ap (λ (k : Text). lookup k d) (sym donor_own.0 ∙ e ∙ own.0),
            ))
            p.donor_online (ground (arith, p.leaves_some)) (ground (arith, p.meets)),
      )

  before_erase :
      (k : Text) (x : HostRecord) → lookup k (erase i d) ≡ some x → (k ≢ i) × (lookup k d ≡ some x)
  before_erase k x e = elim (Bool-cases (text_eq k i)) [
    | inl hit ↦ absurd (ground (arith, text_eq_iff k i, lookup-erase_self i d sound.keyed))
    | inr miss ↦
        let ne : k ≢ i = λ q. ground (arith, text_eq_iff k i) in
        (ne, sym (lookup-erase_ne i k d ne) ∙ e)
  ]

  cover-erased : (k : ℤ) → cover k (erase i d) ≡ cover k d
  unfolding contrib
  cover-erased k = ground (arith, waits, cover-erase k i h d found)

  erased-IsSound : IsSound t (erase i d)
  erased-IsSound = record {
    keyed = erase-IsKeyed i d sound.keyed;
    exact = λ k. cover-erased k ∙ sound.exact k;
    hosts = λ k x e. sound.hosts k x (before_erase k x e).1;
    has_mother =
        let (m, is_m) = sound.has_mother in
        (
          m,
          record {
            found =
                lookup-erase_ne i mother_id d (λ e.
                  ground
                    (arith, waits, is_m.up, found, is_m.found, ap (λ (k : Text). lookup k d) e))
                ∙ is_m.found;
            up = is_m.up;
            is_role = is_m.is_role;
          },
        );
    plans = λ k x e w.
        let (ne, old) = before_erase k x e in absurd (ne (sound.single k i x h old found w waits));
    single = λ k k' a b ea eb wa wb.
        sound.single k k' a b (before_erase k a ea).1 (before_erase k' b eb).1 wa wb;
  }

leave_refused :
    (env : Env) (i : Text) (h : HostRecord) (r : SwarmRegistry)
    → lookup i r.hosts ≡ some h
    → is_mother h ≡ true
    → (leave env i r).1 ≡ r
unfolding leave
leave_refused env i h r e role = ground arith

leave_without_reclaim :
    (env : Env) (i : Text) (h : HostRecord) (r : SwarmRegistry)
    → lookup i r.hosts ≡ some h
    → is_mother h ≡ false
    → range_to_reclaim h (values r.hosts) ≡ none
    → (leave env i r).1 ≡ persist env (record r { hosts = erase i r.hosts })
unfolding leave
leave_without_reclaim env i h r e role nothing = ground arith

-- From a sound registry, a call of `leave` for a host that is pending leaves a sound registry,
-- whatever the disk and the shard managers do.
pub leave_pending-IsSound :
    (env : Env) (i : Text) (h : HostRecord) (r : SwarmRegistry)
    → lookup i r.hosts ≡ some h
    → h.status ≡ pending
    → IsSound r.total_layers r.hosts
    → IsSound r.total_layers (leave env i r).1.hosts
leave_pending-IsSound env i h r e w s = elim (Bool-cases (is_mother h)) [
  | inl role ↦ rw (leave_refused env i h r e role) s
  | inr other ↦
      rw
        (
          leave_without_reclaim env i h r e other
              (reclaims_nothing r.total_layers i h r.hosts e w s),
          hosts-persist env _,
        )
        (erased-IsSound r.total_layers i h r.hosts e w s)
]

pub total-leave_pending :
    (env : Env) (i : Text) (h : HostRecord) (r : SwarmRegistry)
    → lookup i r.hosts ≡ some h
    → h.status ≡ pending
    → IsSound r.total_layers r.hosts
    → (leave env i r).1.total_layers ≡ r.total_layers
total-leave_pending env i h r e w s = elim (Bool-cases (is_mother h)) [
  | inl role ↦ rw (leave_refused env i h r e role)
  | inr other ↦ rw (
    leave_without_reclaim env i h r e other (reclaims_nothing r.total_layers i h r.hosts e w s),
    total-persist env _,
  )
]

-- It takes the host out, or nothing.
pub leave_pending_hosts :
    (env : Env) (i : Text) (h : HostRecord) (r : SwarmRegistry)
    → lookup i r.hosts ≡ some h
    → h.status ≡ pending
    → IsSound r.total_layers r.hosts
    → ((leave env i r).1.hosts ≡ r.hosts) ⊎ ((leave env i r).1.hosts ≡ erase i r.hosts)
leave_pending_hosts env i h r e w s = elim (Bool-cases (is_mother h)) [
  | inl role ↦ inl (ap (λ (x : SwarmRegistry). x.hosts) (leave_refused env i h r e role))
  | inr other ↦ inr (
      ap (λ (x : SwarmRegistry). x.hosts)
        (leave_without_reclaim env i h r e other
          (reclaims_nothing r.total_layers i h r.hosts e w s))
      ∙ hosts-persist env _)
]
