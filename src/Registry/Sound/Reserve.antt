-- ===== src/Registry/Sound/Reserve.antt =====
-- The registry after `join`, with the reservation of a request that is accepted.
use mathlib.Core.Path.{subst}
use blitzwing.Base.{
  ◌≡◌, ◌≢◌, refl, sym, ap, ◌∙◌, false, ◌⊎◌, inl, inr, none, some, arith, Bool-cases,
}
use blitzwing.Base.Int.{ℤ, pos_part, neg_part, int_laws}
use blitzwing.Base.Text.{Text, is_empty, text_eq, text_eq_iff, text_eq_refl}
use blitzwing.Base.Dict.{Dict, lookup, insert, values, lookup-insert}
use blitzwing.Registry.Range.{Range, size}
use blitzwing.Registry.Host.{HostRecord, SwarmRegistry, Env, mother_id, online, pending}
use blitzwing.Registry.Donor.{effective_donor_range}
use blitzwing.Registry.Join.{JoinRequest, pending_record, join}
use blitzwing.Registry.Cover.{contrib, cover, cover-insert}
use blitzwing.Registry.Sound.{IsPlanned, IsHost, IsSound}
use blitzwing.Registry.Sound.Keyed.{insert-IsKeyed, lookup-key}
use blitzwing.Registry.Sound.Beats.{hosts-persist}
use blitzwing.Registry.Sound.Donor.{largest_donor-online, reserved_end-none, none_pending}
use blitzwing.Registry.Sound.Join.{Joined, join_cases}

module _ (env : Env) (req : JoinRequest) (r : SwarmRegistry) (wallet : Text) (donor : HostRecord)
    (fresh : lookup env.new_id r.hosts ≡ none) (named : is_empty env.new_id ≡ false)
    (sound : IsSound r.total_layers r.hosts) (j : Joined env req r wallet donor) where
  abbrev free : Range
  free = effective_donor_range r donor

  abbrev new : HostRecord
  new = pending_record env r.model req wallet donor free

  abbrev joined : Dict HostRecord
  joined = insert env.new_id new r.hosts

  donor_up : (lookup donor.host_id r.hosts ≡ some donor) × (donor.status ≡ online)
  donor_up = largest_donor-online r donor sound.keyed j.picked

  free-eq : (free.start ≡ donor.block_indices.start) × (free.end ≡ donor.block_indices.end)
  unfolding effective_donor_range
  free-eq = (refl, reserved_end-none donor.host_id donor.block_indices.end (values r.hosts) j.alone)

  donor-ne-new : donor.host_id ≢ env.new_id
  donor-ne-new e = ground (arith, ap (λ (k : Text). lookup k r.hosts) e, donor_up.0, fresh)

  find_new : lookup env.new_id joined ≡ some new
  find_new = lookup-insert env.new_id env.new_id new r.hosts ∙ rw (text_eq_refl env.new_id)

  find_old : (k : Text) (x : HostRecord) → lookup k r.hosts ≡ some x → lookup k joined ≡ some x
  find_old k x e = elim (Bool-cases (text_eq k env.new_id)) [
    | inl hit ↦ absurd (ground (arith, text_eq_iff k env.new_id, fresh))
    | inr miss ↦ lookup-insert env.new_id k new r.hosts ∙ rw miss e
  ]

  lookup-joined :
      (k : Text) (x : HostRecord)
      → lookup k joined ≡ some x
      → ((k ≡ env.new_id) × (x ≡ new)) ⊎ (lookup k r.hosts ≡ some x)
  lookup-joined k x e = elim (Bool-cases (text_eq k env.new_id)) [
    | inl hit ↦
        inl
          ((text_eq_iff k env.new_id).0 hit, ground (arith, lookup-insert env.new_id k new r.hosts))
    | inr miss ↦ inr (ground (arith, lookup-insert env.new_id k new r.hosts))
  ]

  new_pending : new.status ≡ pending
  unfolding pending_record
  new_pending = refl

  new_own : new.host_id ≡ env.new_id
  unfolding pending_record
  new_own = refl

  new-IsHost : IsHost new
  unfolding pending_record
  new-IsHost = record { nonempty = omega (int_laws, j.at_least_one); live = λ e. cc }

  new-IsPlanned : IsPlanned joined new donor
  unfolding pending_record size
  new-IsPlanned = record {
    named = (lookup-key donor.host_id donor r.hosts sound.keyed donor_up.0).1;
    donor_found = find_old donor.host_id donor donor_up.0;
    donor_online = donor_up.1;
    shrink = rw (free-eq.0);
    assigned = refl;
    meets = free-eq.1;
    leaves_some = omega (
      int_laws,
      j.fits,
      ap pos_part free-eq.0,
      ap neg_part free-eq.0,
      ap pos_part free-eq.1,
      ap neg_part free-eq.1,
    );
  }

  cover-joined : (k : ℤ) → cover k joined ≡ cover k r.hosts
  unfolding contrib pending_record
  cover-joined k = omega (arith, cover-insert k env.new_id new r.hosts fresh)

  old_not_pending : (k : Text) (x : HostRecord) → lookup k r.hosts ≡ some x → x.status ≢ pending
  old_not_pending k x e = none_pending k x r.hosts j.alone e

  pub joined-IsSound : IsSound r.total_layers joined
  joined-IsSound = record {
    keyed = insert-IsKeyed env.new_id new r.hosts new_own named fresh sound.keyed;
    exact = λ k. cover-joined k ∙ sound.exact k;
    hosts = λ k x e. elim (lookup-joined k x e) [
      | inl (_, is_new) ↦ subst IsHost (sym is_new) new-IsHost
      | inr old ↦ sound.hosts k x old
    ];
    has_mother =
        let (m, is_m) = sound.has_mother in
        (
          m,
          record { found = find_old mother_id m is_m.found; up = is_m.up; is_role = is_m.is_role },
        );
    plans = λ k x e w. elim (lookup-joined k x e) [
      | inl (_, is_new) ↦
          (donor, subst (λ (y : HostRecord). IsPlanned joined y donor) (sym is_new) new-IsPlanned)
      | inr old ↦ absurd (old_not_pending k x old w)
    ];
    single = λ k k' a b ea eb wa wb. elim (lookup-joined k a ea) [
      | inl (is_k, _) ↦ elim (lookup-joined k' b eb) [
        | inl (is_k', _) ↦ is_k ∙ sym is_k'
        | inr old ↦ absurd (old_not_pending k' b old wb)
      ]
      | inr old ↦ absurd (old_not_pending k a old wa)
    ];
  }

-- From a sound registry, and with a new id that is not empty and not taken, a join leaves a sound
-- registry, whether the request is accepted or refused.
pub join-IsSound :
    (env : Env) (req : JoinRequest) (r : SwarmRegistry)
    → lookup env.new_id r.hosts ≡ none
    → is_empty env.new_id ≡ false
    → IsSound r.total_layers r.hosts
    → IsSound r.total_layers (join env req r).1.hosts
join-IsSound env req r fresh named sound = elim (join_cases env req r) [
  | inl same ↦ rw same sound
  | inr (wallet, donor, j) ↦
      rw (j.after, hosts-persist env _) (joined-IsSound env req r wallet donor fresh named sound j)
]
