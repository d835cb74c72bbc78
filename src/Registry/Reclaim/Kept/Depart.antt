-- ===== src/Registry/Reclaim/Kept/Depart.antt =====
-- The whole registry after the departure of an online host, when no host is pending and the shard
-- managers take every reload.
use mathlib.Core.Path.{subst}
use blitzwing.Base.{
  ◌≡◌, ◌≢◌, refl, sym, ap, ◌∙◌, ◌⊎◌, true, false, inl, inr, none, some, arith, Bool-cases,
  Option-cases,
}
use blitzwing.Base.Int.{ℤ, ◌<ℤ◌}
use blitzwing.Base.Text.{Text, text_eq, text_eq_iff}
use blitzwing.Base.Dict.{
  Dict, lookup, modify, erase, values, lookup-erase_ne, lookup-modify, lookup-modify_self,
  lookup-modify_ne,
}
use blitzwing.Registry.Range.{Range}
use blitzwing.Registry.Host.{
  HostRecord, SwarmRegistry, Env, online, pending, is_mother, mother_id, set_range, persist,
}
use blitzwing.Registry.Leave.{leave}
use blitzwing.Registry.Cover.{cover}
use blitzwing.Registry.Sound.{IsSound, IsHost, IsMother}
use blitzwing.Registry.Sound.Keyed.{modify-IsKeyed, lookup-erase_self}
use blitzwing.Registry.Sound.Beats.{hosts-persist, total-persist}
use blitzwing.Registry.Reclaim.{
  Stays, left-IsKeyed, nonempty, freed_nonempty, was_there, gap, can_merge_cases,
}
use blitzwing.Registry.Reclaim.Kept.{chosen, leave_reclaimed, leave_keeps_layers}

abbrev pub NonePending : Dict HostRecord → Type 0
NonePending d = (j : Text) (x : HostRecord) → lookup j d ≡ some x → x.status ≢ pending

module _ (env : Env) (r : SwarmRegistry) (i : Text) (h : HostRecord)
    (found : lookup i r.hosts ≡ some h) (up : h.status ≡ online) (other : is_mother h ≡ false)
    (sound : IsSound r.total_layers r.hosts)
    (passes : (url : Text) (new : Range) → env.reload url new ≡ true) where
  abbrev left : Dict HostRecord
  left = erase i r.hosts

  -- Who takes the range, and what it holds afterwards.
  taken :
      (c : HostRecord) × (new : Range) × Stays left c
      × (new.start <ℤ new.end)
      × ((leave env i r).1
          ≡ persist env (record r { hosts = modify c.host_id (set_range new) left }))
  taken =
      let (c, new, s, picked, can) = chosen r i h found up other sound in
      let in_c = nonempty r.total_layers i h r.hosts found up sound c s in
      let in_f = freed_nonempty r.total_layers i h r.hosts found up sound in
      (
        c,
        new,
        s,
        elim (can_merge_cases (values left) c h.block_indices new can) [
          | inl (meets, e) ↦ rw e (ground arith)
          | inr (inl (meets, e)) ↦ rw e (ground arith)
          | inr (inr (apart, apart', free)) ↦
              absurd (cc (free, gap r.total_layers i h r.hosts found up sound c s apart apart'))
        ],
        ap (λ x. x.1)
            (leave_reclaimed r i h found up other sound env c new s.found picked
              (passes c.shard_manager_url new)),
      )

  -- What is found afterwards was there, or is the taker with its wider range.
  module _ (c : HostRecord) (new : Range) (s : Stays left c) where
    abbrev grown : Dict HostRecord
    grown = modify c.host_id (set_range new) left

    found_grown :
        (j : Text) (x : HostRecord)
        → lookup j grown ≡ some x
        → (j ≢ i)
          × (((j ≡ c.host_id) × (x ≡ set_range new c))
              ⊎ ((j ≢ c.host_id) × (lookup j r.hosts ≡ some x)))
    found_grown j x e = elim (Bool-cases (text_eq j i)) [
      | inl hit ↦ absurd (
          ground (
            arith,
            text_eq_iff j i,
            lookup-erase_self i r.hosts sound.keyed,
            lookup-modify c.host_id j (set_range new) left,
            s.found,
          ))
      | inr miss ↦
          let ne : j ≢ i = λ q. ground (arith, text_eq_iff j i) in
          (
            ne,
            elim (Bool-cases (text_eq j c.host_id)) [
              | inl own ↦ inl (
                (text_eq_iff j c.host_id).0 own,
                ground (
                  arith,
                  text_eq_iff j c.host_id,
                  lookup-modify c.host_id j (set_range new) left,
                  s.found,
                ),
              )
              | inr apart ↦ inr (
                (λ q. ground (arith, text_eq_iff j c.host_id)),
                ground (
                  arith,
                  lookup-modify c.host_id j (set_range new) left,
                  lookup-erase_ne i j r.hosts ne,
                ),
              )
            ],
          )
    ]

    taker_before : lookup c.host_id r.hosts ≡ some c
    taker_before = was_there r.total_layers i h r.hosts found up sound c.host_id c s.found

    grown-quiet : NonePending r.hosts → NonePending grown
    grown-quiet quiet j x e w = elim (found_grown j x e).1 [
      | inl (own, is_c) ↦ ground (arith, s.up)
      | inr (apart, there) ↦ quiet j x there w
    ]

    grown-IsHost :
        new.start <ℤ new.end → (j : Text) (x : HostRecord) → lookup j grown ≡ some x → IsHost x
    grown-IsHost some_layers j x e = elim (found_grown j x e).1 [
      | inl (own, is_c) ↦
          subst IsHost (sym is_c) (record { nonempty = some_layers; live = λ q. cc (s.up) })
      | inr (apart, there) ↦ sound.hosts j x there
    ]

    mother-ne-leaver : (m : HostRecord) → IsMother r.hosts m → mother_id ≢ i
    mother-ne-leaver m is_m e =
        ground (arith, found, is_m.found, is_m.is_role, ap (λ (j : Text). lookup j r.hosts) e)

    grown-IsMother : (m : HostRecord) → IsMother r.hosts m → (m' : HostRecord) × IsMother grown m'
    grown-IsMother m is_m = elim (Bool-cases (text_eq mother_id c.host_id)) [
      | inl hit ↦
          let e : mother_id ≡ c.host_id = (text_eq_iff mother_id c.host_id).0 hit in
          (
            set_range new c,
            record {
              found =
                  ap (λ (j : Text). lookup j grown) e
                  ∙ lookup-modify_self c.host_id (set_range new) c left s.found;
              up = s.up;
              is_role = ground (
                arith,
                ap (λ (j : Text). lookup j r.hosts) e,
                taker_before,
                is_m.found,
                is_m.is_role,
              );
            },
          )
      | inr miss ↦ (
        m,
        record {
          found =
              lookup-modify_ne c.host_id mother_id (set_range new) left
                (λ e. ground (arith, text_eq_iff mother_id c.host_id))
              ∙ lookup-erase_ne i mother_id r.hosts (mother-ne-leaver m is_m)
              ∙ is_m.found;
          up = is_m.up;
          is_role = is_m.is_role;
        },
      )
    ]

    grown-IsSound :
        new.start <ℤ new.end
        → NonePending r.hosts
        → ((k : ℤ) → cover k grown ≡ cover k r.hosts)
        → IsSound r.total_layers grown
    grown-IsSound some_layers quiet same = record {
      keyed =
          modify-IsKeyed c.host_id (set_range new) left (λ x. refl)
            (left-IsKeyed r.total_layers i h r.hosts found up sound);
      exact = λ k. same k ∙ sound.exact k;
      hosts = grown-IsHost some_layers;
      has_mother = let (m, is_m) = sound.has_mother in grown-IsMother m is_m;
      plans = λ j x e w. absurd (grown-quiet quiet j x e w);
      single = λ j j' a b ea eb wa wb. absurd (grown-quiet quiet j a ea wa);
    }

  abbrev pub after : SwarmRegistry
  after = (leave env i r).1

  pub total-depart : after.total_layers ≡ r.total_layers
  total-depart = let (c, new, s, some_layers, e) = taken in rw (e, total-persist env _)

  pub depart-IsSound :
      NonePending r.hosts → IsSound r.total_layers after.hosts × NonePending after.hosts
  depart-IsSound quiet =
      let (c, new, s, some_layers, e) = taken in
      let hosts : after.hosts ≡ modify c.host_id (set_range new) left =
        rw (e, hosts-persist env _) in
      rw hosts (
        grown-IsSound c new s some_layers quiet (λ k.
            ap (cover k) (sym hosts)
            ∙ (leave_keeps_layers env r i h found up other sound passes k).1),
        grown-quiet c new s quiet,
      )

  -- Another online contributor is online afterwards too, and still no mother.
  pub depart-others :
      (j : Text) (x : HostRecord)
      → lookup j r.hosts ≡ some x
      → j ≢ i
      → (y : HostRecord) × (lookup j after.hosts ≡ some y)
        × (y.status ≡ x.status)
        × (y.role ≡ x.role)
  depart-others j x e ne =
      let (c, new, s, some_layers, eq) = taken in
      let hosts : after.hosts ≡ modify c.host_id (set_range new) left =
        rw (eq, hosts-persist env _) in
      elim (Bool-cases (text_eq j c.host_id)) [
        | inl own ↦
            let same : j ≡ c.host_id = (text_eq_iff j c.host_id).0 own in
            let is_x : x ≡ c =
              ground (arith, ap (λ (k : Text). lookup k r.hosts) same, taker_before c new s) in
            (
              set_range new c,
              rw (hosts, same) (lookup-modify_self c.host_id (set_range new) c left s.found),
              ground arith,
              ground arith,
            )
        | inr apart ↦ (
          x,
          rw hosts (
              lookup-modify_ne c.host_id j (set_range new) left
                (λ q. ground (arith, text_eq_iff j c.host_id))
              ∙ lookup-erase_ne i j r.hosts ne
              ∙ e),
          refl,
          refl,
        )
      ]

  -- The host itself is gone, and nobody new is there.
  pub depart-gone : (j : Text) → (j ≡ i) ⊎ (lookup j r.hosts ≡ none) → lookup j after.hosts ≡ none
  depart-gone j absent =
      let (c, new, s, some_layers, eq) = taken in
      let hosts : after.hosts ≡ modify c.host_id (set_range new) left =
        rw (eq, hosts-persist env _) in
      elim (Option-cases (lookup j after.hosts)) [
        | inl gone ↦ gone
        | inr (x, there) ↦
            let (ne, cases) = found_grown c new s j x (rw hosts at there) in
            elim absent [
              | inl leaver ↦ absurd (ne leaver)
              | inr unknown ↦ elim cases [
                | inl (own, is_c) ↦
                    absurd (
                      ground (arith, taker_before c new s, ap (λ (k : Text). lookup k r.hosts) own))
                | inr (apart, known) ↦ absurd (ground arith)
              ]
            ]
      ]
