-- ===== src/Registry/Sound/Ready.antt =====
-- The registry after `mark_ready`, branch by branch.
use blitzwing.Base.{
  ◌≡◌, ◌≢◌, refl, sym, ap, ◌∙◌, true, false, inl, inr, Option, none, some, arith, Bool-cases,
  Option-cases, if◌then◌else◌,
}
use blitzwing.Base.Text.{Text, or_empty, is_empty, truthy}
use blitzwing.Base.Dict.{Dict, lookup, modify, values, lookup-modify_ne, lookup-modify_self}
use blitzwing.Base.Exec.{Result, ok, err, runtime_error, transport}
use blitzwing.Registry.Range.{Range, range}
use blitzwing.Registry.Host.{
  HostRecord, SwarmRegistry, Env, offline, online, pending, is_online, persist, set_range,
}
use blitzwing.Registry.Ready.{
  ReadyPlan, go_online, hand_over, add_bootstrap, planned, blocks_ready, set_peer, assigned_range,
  plan_of, ready_begin, ready_commit, mark_ready,
}
use blitzwing.Registry.Sound.{IsPlanned, IsSound}
use blitzwing.Registry.Sound.Beats.{hosts-persist}
use blitzwing.Registry.Sound.Stays.{Same, forward, modify-IsSound}
use blitzwing.Registry.Sound.HandOver.{ids_differ, handed-IsSound}

live_offline : (h : HostRecord) → is_online h ≡ false → h.status ≢ offline → h.status ≡ pending
live_offline h down live = ground arith

pub set_peer-Same : (peer : Option Text) (h : HostRecord) → Same (set_peer peer h) h
set_peer-Same peer h = elim (Bool-cases (truthy peer)) [
  | inl given ↦ rw given (record {
    host_id = refl;
    role = refl;
    blocks = refl;
    status = refl;
    pending_range = refl;
    donor = refl;
    shrink = refl;
  })
  | inr absent ↦ rw absent (record {
    host_id = refl;
    role = refl;
    blocks = refl;
    status = refl;
    pending_range = refl;
    donor = refl;
    shrink = refl;
  })
]

truthy_named : (o : Option Text) → is_empty (or_empty o) ≡ false → truthy o ≡ true
truthy_named none h = cc
truthy_named (some s) h = ground arith

pub set_peer-id : (peer : Option Text) (h : HostRecord) → (set_peer peer h).host_id ≡ h.host_id
set_peer-id peer h = ground arith

cut-eq :
    (h h1 donor donor1 : HostRecord) {d d1 : Dict HostRecord}
    → IsPlanned d h donor
    → IsPlanned d1 h1 donor1
    → Same h1 h
    → range donor.block_indices.start h.block_indices.start
      ≡ range donor1.block_indices.start h1.block_indices.start
cut-eq h h1 donor donor1 p p1 same = ground (arith, p.shrink, p1.shrink, same.shrink)

assigned-eq :
    (h donor : HostRecord) {d : Dict HostRecord}
    → IsPlanned d h donor
    → assigned_range h ≡ h.block_indices
assigned-eq h donor p = ground (arith, p.assigned)

module _ (env : Env) (i : Text) (peer : Option Text) (r : SwarmRegistry) where
  unknown_unchanged : lookup i r.hosts ≡ none → (mark_ready env i peer r).1 ≡ r
  unfolding mark_ready
  unknown_unchanged e = ground arith

  online_unchanged :
      (h : HostRecord)
      → lookup i r.hosts ≡ some h
      → is_online h ≡ true
      → (mark_ready env i peer r).1 ≡ r
  unfolding mark_ready
  online_unchanged h e up = ground arith

  abbrev pub peered : SwarmRegistry
  peered = record r { hosts = modify i (set_peer peer) r.hosts }

  begin_blocked :
      (h donor : HostRecord)
      → lookup i r.hosts ≡ some h
      → h.status ≡ pending
      → IsPlanned r.hosts h donor
      → blocks_ready i
          (or_empty h.donor_host_id)
          (range donor.block_indices.start h.block_indices.start)
          (values r.hosts)
        ≡ true
      → ready_begin i peer r ≡ (err runtime_error, r)
  unfolding ready_begin
  begin_blocked h donor e w p b = ground (arith, truthy_named h.donor_host_id)

  blocked_unchanged :
      (h donor : HostRecord)
      → lookup i r.hosts ≡ some h
      → h.status ≡ pending
      → IsPlanned r.hosts h donor
      → blocks_ready i
          (or_empty h.donor_host_id)
          (range donor.block_indices.start h.block_indices.start)
          (values r.hosts)
        ≡ true
      → (mark_ready env i peer r).1 ≡ r
  unfolding mark_ready
  blocked_unchanged h donor e w p b = ground (arith, begin_blocked h donor e w p b)

  pub begin_planned :
      (h donor : HostRecord) (cut : Range)
      → lookup i r.hosts ≡ some h
      → h.status ≡ pending
      → is_empty (or_empty h.donor_host_id) ≡ false
      → lookup (or_empty h.donor_host_id) r.hosts ≡ some donor
      → h.donor_shrink_to ≡ some cut
      → blocks_ready i (or_empty h.donor_host_id) cut (values r.hosts) ≡ false
      → ready_begin i peer r ≡ (ok (planned (plan_of h donor cut)), peered)
  unfolding ready_begin
  begin_planned h donor cut e w named found shrink b = ground (arith, truthy_named h.donor_host_id)

  -- A reload that raises leaves the hosts as the first step did.
  pub after_begin :
      (plan : ReadyPlan) (r' : SwarmRegistry)
      → ready_begin i peer r ≡ (ok (planned plan), r')
      → (mark_ready env i peer r) ≡ (
          if env.reload plan.donor_url plan.shrink_to
          then ready_commit env i peer plan r'
          else (err transport, r'))
  unfolding mark_ready
  after_begin plan r' e = ground arith

  pub commit_found :
      (plan : ReadyPlan) (h donor : HostRecord)
      → lookup i r.hosts ≡ some h
      → lookup plan.donor_id r.hosts ≡ some donor
      → plan.donor_id ≢ i
      → (ready_commit env i peer plan r) ≡ (
        ok (go_online env plan.assigned h),
        persist env (record (hand_over env i plan r) {
          bootstrap_peers = add_bootstrap peer r.bootstrap_peers;
        }),
      )
  unfolding ready_commit
  commit_found plan h donor eh ed ne = ground (
    arith,
    lookup-modify_ne plan.donor_id i (set_range plan.shrink_to) r.hosts (λ e. ne (sym e)),
    lookup-modify_self i (go_online env plan.assigned) h
        (modify plan.donor_id (set_range plan.shrink_to) r.hosts),
  )

module _ (env : Env) (i : Text) (peer : Option Text) (r : SwarmRegistry)
    (s : IsSound r.total_layers r.hosts) where
  -- The hosts after a commit of the plan that the first step made.
  commit-IsSound :
      (h donor : HostRecord)
      → lookup i r.hosts ≡ some h
      → h.status ≡ pending
      → IsPlanned r.hosts h donor
      → (plan : ReadyPlan) → plan.donor_id ≡ or_empty h.donor_host_id
      → plan.shrink_to ≡ range donor.block_indices.start h.block_indices.start
      → plan.assigned ≡ h.block_indices
      → ((ready_commit env i peer plan r).0 ≡ ok (go_online env plan.assigned h))
        × IsSound r.total_layers (ready_commit env i peer plan r).1.hosts
  commit-IsSound h donor e w p plan same_id same_cut same_range =
      let ne : plan.donor_id ≢ i =
        λ q. ids_differ r.total_layers env i h donor r.hosts e w p s (sym q ∙ same_id) in
      let found : lookup plan.donor_id r.hosts ≡ some donor = rw same_id p.donor_found in
      let done = commit_found env i peer r plan h donor e found ne in
      (
        ap (λ (x : Result HostRecord × SwarmRegistry). x.0) done,
        rw (done, hosts-persist env _, same_id, same_cut, same_range)
            (handed-IsSound r.total_layers env i h donor r.hosts e w p s),
      )

module _ (env : Env) (i : Text) (peer : Option Text) (r : SwarmRegistry)
    (s : IsSound r.total_layers r.hosts) where
  abbrev cut_of : HostRecord → HostRecord → Range
  cut_of h donor = range donor.block_indices.start h.block_indices.start

  peered-IsSound : IsSound r.total_layers (peered env i peer r).hosts
  peered-IsSound =
      modify-IsSound r.total_layers i (set_peer peer) r.hosts (set_peer-id peer)
        (λ h live. set_peer-Same peer h) s

  -- From the plan that the first step made, whether the reload passes or not.
  planned-IsSound :
      (h donor : HostRecord)
      → lookup i r.hosts ≡ some h
      → h.status ≡ pending
      → IsPlanned r.hosts h donor
      → blocks_ready i (or_empty h.donor_host_id) (cut_of h donor) (values r.hosts) ≡ false
      → IsSound r.total_layers (mark_ready env i peer r).1.hosts
        × (env.reload donor.shard_manager_url (cut_of h donor) ≡ true
            → (x : HostRecord) × ((mark_ready env i peer r).0 ≡ ok x)
              × (x.status ≡ online)
              × (x.block_indices ≡ h.block_indices))
  planned-IsSound h donor e w p free =
      let plan : ReadyPlan = plan_of h donor (cut_of h donor) in
      let begun = after_begin env i peer r plan (peered env i peer r) (
        begin_planned env i peer r h donor (cut_of h donor) e w p.named p.donor_found p.shrink
          free) in
      let (h1, e1, same) =
        forward r.total_layers i (set_peer peer) r.hosts (set_peer-id peer)
          (λ x live. set_peer-Same peer x) s i h e in
      let (donor1, p1) = peered-IsSound.plans i h1 e1 (same.status ∙ w) in
      let (res, sound) =
        commit-IsSound env i peer (peered env i peer r) peered-IsSound h1 donor1 e1
          (same.status ∙ w) p1 plan (ap or_empty (sym same.donor))
          (cut-eq h h1 donor donor1 p p1 same) (assigned-eq h donor p ∙ sym same.blocks) in
      elim (Bool-cases (env.reload donor.shard_manager_url (cut_of h donor))) [
        | inl passes ↦ (
          rw (begun, passes) sound,
          λ _.
              (go_online env plan.assigned h1, rw (begun, passes) res, refl, assigned-eq h donor p),
        )
        | inr raises ↦ (rw (begun, raises) peered-IsSound, λ t. cc)
      ]

  -- From a sound registry, for any host id and peer address, whatever branch the call takes and
  -- whether the reload passes or not, the registry that it leaves is sound.
  pub mark_ready-IsSound : IsSound r.total_layers (mark_ready env i peer r).1.hosts
  mark_ready-IsSound = elim (Option-cases (lookup i r.hosts)) [
    | inl unknown ↦ rw (unknown_unchanged env i peer r unknown) s
    | inr (h, e) ↦ elim (Bool-cases (is_online h)) [
      | inl up ↦ rw (online_unchanged env i peer r h e up) s
      | inr down ↦
          let w : h.status ≡ pending = live_offline h down (s.hosts i h e).live in
          let (donor, p) = s.plans i h e w in
          elim (Bool-cases
            (blocks_ready i (or_empty h.donor_host_id) (cut_of h donor) (values r.hosts))) [
              | inl blocked ↦ rw (blocked_unchanged env i peer r h donor e w p blocked) s
              | inr free ↦ (planned-IsSound h donor e w p free).0
            ]
    ]
  ]
