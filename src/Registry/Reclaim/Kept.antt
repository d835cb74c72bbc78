-- ===== src/Registry/Reclaim/Kept.antt =====
-- The departure of an online host whose shard managers take every reload.
pub mod Depart
pub mod Silent
use blitzwing.Base.{
  ◌≡◌, sym, ap, ◌∙◌, true, false, inl, inr, none, some, List, [], arith, Bool-cases,
}
use blitzwing.Base.Int.{ℤ, pos, ◌≤ℤ◌, ◌<ℤ◌, ◌-ℤ◌, ltb_ℤ, eqb_ℤ}
use blitzwing.Base.Text.{Text}
use blitzwing.Base.Dict.{lookup, modify, erase, values, lookup-erase_ne}
use blitzwing.Base.Exec.{ok}
use blitzwing.Registry.Range.{Range, range}
use blitzwing.Registry.Host.{
  HostRecord, SwarmRegistry, Env, online, is_mother, mother_id, set_range, persist,
}
use blitzwing.Registry.Donor.{largest_donor}
use blitzwing.Registry.Leave.{
  can_merge, choose, candidates, find_adjacent, is_adjacent, online_mother, add_candidate, leave,
}
use blitzwing.Registry.Cover.{contrib, cover, cover-modify, cover-erase}
use blitzwing.Registry.Sound.{IsKeyed, IsSound}
use blitzwing.Registry.Sound.Keyed.{lookup-key}
use blitzwing.Registry.Sound.Donor.{In, In-values, largest_donor-online}
use blitzwing.Registry.Sound.Choose.{
  values-In, find_adjacent-In, find_adjacent-some, In-add_candidate, add_candidate-In,
  add_candidate-added, choose-In, choose-some,
}
use blitzwing.Registry.Sound.Beats.{hosts-persist}
use blitzwing.Registry.Reclaim.{
  Stays, holder, left-IsKeyed, nonempty, freed_nonempty, in_freed, in_left, bounds, disjoint,
  can_merge-Joins,
}

touching_merges :
    (hosts : List HostRecord) (p : Range) (y : HostRecord)
    → is_adjacent p y ≡ true
    → (new : Range) × (can_merge hosts y p ≡ some new)
unfolding can_merge
touching_merges hosts p y touches = elim (Bool-cases (eqb_ℤ y.block_indices.end p.start)) [
  | inl meets ↦ (range y.block_indices.start p.end, ground arith)
  | inr apart ↦ (range p.start y.block_indices.end, ground arith)
]

module _ (r : SwarmRegistry) (i : Text) (h : HostRecord) (found : lookup i r.hosts ≡ some h)
    (up : h.status ≡ online) (other : is_mother h ≡ false)
    (sound : IsSound r.total_layers r.hosts) where
  abbrev rest : SwarmRegistry
  rest = record r { hosts = erase i r.hosts }

  abbrev Stayed : HostRecord → Type 0
  Stayed = Stays rest.hosts

  keyed : IsKeyed rest.hosts
  keyed = left-IsKeyed r.total_layers i h r.hosts found up sound

  holding_stays :
      (k : ℤ) (x : HostRecord) → lookup x.host_id rest.hosts ≡ some x → contrib k x ≡ 1 → Stayed x
  unfolding contrib
  holding_stays k x e one = record { found = e; up = ground arith }

  mother_stays : (m : HostRecord) × (lookup mother_id rest.hosts ≡ some m) × Stayed m
  mother_stays =
      let (m, is_m) = sound.has_mother in
      let here : lookup mother_id rest.hosts ≡ some m =
        lookup-erase_ne i mother_id r.hosts (λ e.
          ground (arith, found, is_m.found, is_m.is_role, ap (λ (j : Text). lookup j r.hosts) e))
        ∙ is_m.found in
      (
        m,
        here,
        record {
          found =
              ap (λ (j : Text). lookup j rest.hosts)
                (lookup-key mother_id m rest.hosts keyed here).0
              ∙ here;
          up = is_m.up;
        },
      )

  -- The holder of the layer in front of the freed range ends there.
  in_front :
      pos 0 <ℤ h.block_indices.start
      → (x : HostRecord) × Stayed x × (is_adjacent h.block_indices x ≡ true)
  unfolding contrib ◌-ℤ◌
  in_front lo =
      let k = h.block_indices.start -ℤ pos 1 in
      let in_f = freed_nonempty r.total_layers i h r.hosts found up sound in
      let (none_first, f_lo, f_hi) =
        in_freed r.total_layers i h r.hosts found up sound h.block_indices.start (ground arith) in
      let one =
        in_left r.total_layers i h r.hosts found up sound k (ground arith) (ground arith)
          (ground arith) in
      let (x, e, held) = holder k rest.hosts keyed (ground arith) in
      let s = holding_stays k x e held in
      (
        x,
        s,
        elim (disjoint r.total_layers i h r.hosts found up sound x s) [
          | inl before ↦ ground (arith, s.up, held)
          | inr behind ↦ absurd {A = is_adjacent h.block_indices x ≡ true} (ground (arith, held))
        ],
      )

  before_mother :
      (m : HostRecord)
      → Stayed m
      → h.block_indices.start ≤ℤ pos 0
      → h.block_indices.end <ℤ r.total_layers
  before_mother m s first =
      let in_m = nonempty r.total_layers i h r.hosts found up sound m s in
      let (lo, hi) = bounds r.total_layers i h r.hosts found up sound m s in
      elim (disjoint r.total_layers i h r.hosts found up sound m s) [
        | inl before ↦ absurd (ground arith)
        | inr behind ↦ ground arith
      ]

  -- A range that starts at layer 0 is followed by the holder of the next layer.
  behind_first :
      h.block_indices.start ≤ℤ pos 0
      → (x : HostRecord) × Stayed x × (is_adjacent h.block_indices x ≡ true)
  unfolding contrib
  behind_first first =
      let k = h.block_indices.end in
      let in_f = freed_nonempty r.total_layers i h r.hosts found up sound in
      let (none_first, f_lo, f_hi) =
        in_freed r.total_layers i h r.hosts found up sound h.block_indices.start (ground arith) in
      let in_range : k <ℤ r.total_layers = before_mother mother_stays.0 mother_stays.2 first in
      let one =
        in_left r.total_layers i h r.hosts found up sound k (ground arith) (ground arith)
          in_range in
      let (x, e, held) = holder k rest.hosts keyed (ground arith) in
      let s = holding_stays k x e held in
      (
        x,
        s,
        elim (disjoint r.total_layers i h r.hosts found up sound x s) [
          | inl before ↦ absurd (ground (arith, held))
          | inr behind ↦ ground (arith, s.up, held)
        ],
      )

  adjacent : (x : HostRecord) × Stayed x × (is_adjacent h.block_indices x ≡ true)
  adjacent = elim (Bool-cases (ltb_ℤ (pos 0) h.block_indices.start)) [
    | inl later ↦ in_front (ground arith)
    | inr first ↦ behind_first (ground arith)
  ]

  -- The neighbour that the code finds first, and that it can take the range.
  neighbour :
      (y : HostRecord) × Stayed y
      × (find_adjacent h.block_indices (values rest.hosts) ≡ some y)
      × (new : Range) × (can_merge (values rest.hosts) y h.block_indices ≡ some new)
  neighbour =
      let (x, s, touches) = adjacent in
      let (y, e) =
        find_adjacent-some h.block_indices (values rest.hosts) x
          (values-In x.host_id x rest.hosts s.found) touches in
      let (y_in, y_touches) = find_adjacent-In h.block_indices (values rest.hosts) y e in
      let there = In-values y rest.hosts keyed y_in in
      let (new, can) = touching_merges (values rest.hosts) h.block_indices y y_touches in
      (y, record { found = there; up = ground arith }, e, new, can)

  mother_online : (c : HostRecord) → online_mother rest ≡ some c → Stayed c
  unfolding online_mother
  mother_online c e =
      let here : lookup mother_id rest.hosts ≡ some c = ground arith in
      record {
        found =
            ap (λ (j : Text). lookup j rest.hosts) (lookup-key mother_id c rest.hosts keyed here).0
            ∙ here;
        up = ground arith;
      }

  neighbour_online :
      (c : HostRecord) → find_adjacent h.block_indices (values rest.hosts) ≡ some c → Stayed c
  neighbour_online c e =
      let (c_in, touches) = find_adjacent-In h.block_indices (values rest.hosts) c e in
      record { found = In-values c rest.hosts keyed c_in; up = ground arith }

  abbrev near : List HostRecord
  near = add_candidate (online_mother rest) []

  abbrev nearer : List HostRecord
  nearer = add_candidate (find_adjacent h.block_indices (values rest.hosts)) near

  candidates_stay : (c : HostRecord) → In c (candidates rest h.block_indices) → Stayed c
  unfolding candidates
  candidates_stay c i_c = elim (In-add_candidate c (largest_donor rest) nearer i_c) [
    | inr largest ↦
        let (e, on) = largest_donor-online rest c keyed largest in record { found = e; up = on }
    | inl in_nearer ↦
        elim (In-add_candidate c (find_adjacent h.block_indices (values rest.hosts)) near
          in_nearer) [
            | inr touches ↦ neighbour_online c touches
            | inl in_near ↦ elim (In-add_candidate c (online_mother rest) [] in_near) [
              | inr is_m ↦ mother_online c is_m
              | inl none_left ↦ elim none_left [ ]
            ]
          ]
  ]

  mergeable :
      (c : HostRecord) × In c (candidates rest h.block_indices)
      × (new : Range) × (can_merge (values rest.hosts) c h.block_indices ≡ some new)
  unfolding candidates
  mergeable =
      let (y, s, e, new, can) = neighbour in
      let (c, c_in, same_id) = add_candidate-added y near in
      let c_there : In c (candidates rest h.block_indices) =
        add_candidate-In c (largest_donor rest) nearer (rw e c_in) in
      let is_y : y ≡ c = ground (
        arith,
        (candidates_stay c c_there).found,
        s.found,
        ap (λ (j : Text). lookup j rest.hosts) same_id,
      ) in
      (
        c,
        c_there,
        new,
        ap (λ (z : HostRecord). can_merge (values rest.hosts) z h.block_indices) (sym is_y) ∙ can,
      )

  chosen :
      (c : HostRecord) × (new : Range) × Stayed c
      × (choose (values rest.hosts) h.block_indices none (candidates rest h.block_indices)
          ≡ some (c, new))
      × (can_merge (values rest.hosts) c h.block_indices ≡ some new)
  chosen =
      let (c0, c0_in, new0, can0) = mergeable in
      let ((c, new), e) =
        choose-some (values rest.hosts) h.block_indices none (candidates rest h.block_indices) c0
          new0 c0_in can0 in
      elim (choose-In (values rest.hosts) h.block_indices none (candidates rest h.block_indices) c
        new e) [
          | inl (c_in, can) ↦ (c, new, candidates_stay c c_in, e, can)
          | inr none_best ↦ absurd (cc none_best)
        ]

  leave_reclaimed :
      (env : Env) (c : HostRecord) (new : Range)
      → lookup c.host_id rest.hosts ≡ some c
      → choose (values rest.hosts) h.block_indices none (candidates rest h.block_indices)
        ≡ some (c, new)
      → env.reload c.shard_manager_url new ≡ true
      → leave env i r
        ≡ (ok tt, persist env (record r { hosts = modify c.host_id (set_range new) rest.hosts }))
  unfolding leave
  leave_reclaimed env c new there picked passes = ground arith

-- From a sound registry, if the shard managers take every reload, the departure of an online
-- contributor passes, and each layer has as many online hosts after it as before.
pub leave_keeps_layers :
    (env : Env) (r : SwarmRegistry) (i : Text) (h : HostRecord)
    → lookup i r.hosts ≡ some h
    → h.status ≡ online
    → is_mother h ≡ false
    → IsSound r.total_layers r.hosts
    → ((url : Text) (new : Range) → env.reload url new ≡ true)
    → (k : ℤ) → ((leave env i r).0 ≡ ok tt) × (cover k (leave env i r).1.hosts ≡ cover k r.hosts)
leave_keeps_layers env r i h found up other sound passes k =
    let (c, new, s, picked, can) = chosen r i h found up other sound in
    let left_hosts = erase i r.hosts in
    let eq =
      leave_reclaimed r i h found up other sound env c new s.found picked
        (passes c.shard_manager_url new) in
    (
      ap (λ x. x.0) eq,
      rw (eq, hosts-persist env _)
          (omega (
            arith,
            cover-modify k c.host_id (set_range new) c left_hosts s.found,
            can_merge-Joins r.total_layers i h r.hosts found up sound c new s can k,
            cover-erase k i h r.hosts found,
          )),
    )
