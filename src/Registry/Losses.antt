-- ===== src/Registry/Losses.antt =====
-- Two calls of orchestrator/app/registry.py and the number of online hosts of each layer: a ready
-- call with a plan older than its donor's blocks, and a departure whose reload is refused.
use blitzwing.Base.{◌+◌, ◌≡◌, ◌≢◌, sym, ap, ◌∙◌, true, false, Option, none, some, arith}
use blitzwing.Base.Int.{ℤ, ◌≤ℤ◌, ◌<ℤ◌}
use blitzwing.Base.Text.{Text, or_empty, is_empty}
use blitzwing.Base.Dict.{Dict, lookup, modify, erase, values, lookup-modify_ne, lookup-modify_self}
use blitzwing.Base.Exec.{Result, ok, err, transport}
use blitzwing.Registry.Range.{Range, range}
use blitzwing.Registry.Host.{HostRecord, SwarmRegistry, Env, online, pending, is_mother, set_range}
use blitzwing.Registry.Ready.{ReadyPlan, blocks_ready, set_peer, plan_of, go_online, mark_ready}
use blitzwing.Registry.Leave.{choose, candidates, leave}
use blitzwing.Registry.Cover.{contrib, cover, covers, one_if, cover-modify, cover-erase}
use blitzwing.Registry.Sound.Beats.{hosts-persist}
use blitzwing.Registry.Sound.Stays.{contrib-Same}
use blitzwing.Registry.Sound.Ready.{begin_planned, after_begin, commit_found, peered, set_peer-Same}

-- A donor whose blocks have grown past the end of the blocks that are cut from it.
pub record HasGrown (r : SwarmRegistry) (i : Text) (h donor : HostRecord) : Type 0 where
  pub found : lookup i r.hosts ≡ some h
  pub waits : h.status ≡ pending
  pub named : is_empty (or_empty h.donor_host_id) ≡ false
  pub donor_found : lookup (or_empty h.donor_host_id) r.hosts ≡ some donor
  pub donor_online : donor.status ≡ online
  pub shrink : h.donor_shrink_to ≡ some (range donor.block_indices.start h.block_indices.start)
  pub assigned : h.pending_range ≡ some h.block_indices
  pub ordered : h.block_indices.start ≤ℤ h.block_indices.end
  pub grown : h.block_indices.end <ℤ donor.block_indices.end
  pub positive : donor.block_indices.start ≤ℤ h.block_indices.start

module _ (env : Env) (i : Text) (peer : Option Text) (r : SwarmRegistry) (h donor : HostRecord)
    (g : HasGrown r i h donor) where
  abbrev donor_id : Text
  donor_id = or_empty h.donor_host_id

  abbrev cut : Range
  cut = range donor.block_indices.start h.block_indices.start

  abbrev plan : ReadyPlan
  plan = plan_of h donor cut

  ids_differ : donor_id ≢ i
  ids_differ e = ground (
    arith,
    g.found,
    g.waits,
    g.donor_found,
    g.donor_online,
    ap (λ (j : Text). lookup j r.hosts) e,
  )

  abbrev begun : Dict HostRecord
  begun = (peered env i peer r).hosts

  found_begun : lookup i begun ≡ some (set_peer peer h)
  found_begun = lookup-modify_self i (set_peer peer) h r.hosts g.found

  donor_begun : lookup donor_id begun ≡ some donor
  donor_begun = lookup-modify_ne i donor_id (set_peer peer) r.hosts ids_differ ∙ g.donor_found

  abbrev shrunk : Dict HostRecord
  shrunk = modify donor_id (set_range cut) begun

  found_shrunk : lookup i shrunk ≡ some (set_peer peer h)
  found_shrunk =
      lookup-modify_ne donor_id i (set_range cut) begun (λ e. ids_differ (sym e)) ∙ found_begun

  assigned-eq : plan.assigned ≡ h.block_indices
  assigned-eq = ground (arith, g.assigned)

  lost_contrib :
      (k : ℤ)
      → h.block_indices.end ≤ℤ k
      → k <ℤ donor.block_indices.end
      → (contrib k (set_range cut donor) ≡ 0)
        × (contrib k (go_online env h.block_indices (set_peer peer h)) ≡ 0)
        × (contrib k donor ≡ 1)
        × (contrib k h ≡ 0)
  unfolding contrib
  lost_contrib k lo hi = (
    ground (arith, g.ordered, g.donor_online),
    ground arith,
    ground (arith, g.donor_online, g.ordered, g.positive),
    ground (arith, g.waits),
  )

  handed_loses :
      (k : ℤ)
      → h.block_indices.end ≤ℤ k
      → k <ℤ donor.block_indices.end
      → cover k (modify i (go_online env h.block_indices) shrunk) + 1 ≡ cover k r.hosts
  handed_loses k lo hi =
      let (kept, new, old, waiting) = lost_contrib k lo hi in
      omega (
        arith,
        kept,
        new,
        old,
        waiting,
        cover-modify k i (go_online env h.block_indices) (set_peer peer h) shrunk found_shrunk,
        cover-modify k donor_id (set_range cut) donor begun donor_begun,
        cover-modify k i (set_peer peer) h r.hosts g.found,
        contrib-Same k (set_peer peer h) h (set_peer-Same peer h),
      )

  -- If the blocks of the online donor reach past the end of the pending host's, whose plan keeps
  -- the part in front of them (`HasGrown`), no other reservation stands in the way and the reload
  -- passes, then the hand-over succeeds and each layer of the donor behind the new host's blocks
  -- loses one of its online hosts.
  pub mark_ready_loses_grown_layers :
      blocks_ready i donor_id cut (values r.hosts) ≡ false
      → env.reload donor.shard_manager_url cut ≡ true
      → (k : ℤ) → h.block_indices.end ≤ℤ k
      → k <ℤ donor.block_indices.end
      → ((x : HostRecord) × ((mark_ready env i peer r).0 ≡ ok x))
        × (cover k (mark_ready env i peer r).1.hosts + 1 ≡ cover k r.hosts)
  mark_ready_loses_grown_layers free passes k lo hi =
      let start = after_begin env i peer r plan (peered env i peer r) (
        begin_planned env i peer r h donor cut g.found g.waits g.named g.donor_found g.shrink
          free) in
      let done =
        commit_found env i peer (peered env i peer r) plan (set_peer peer h) donor found_begun
          donor_begun ids_differ in
      (
        (go_online env plan.assigned (set_peer peer h), rw (start, passes, done)),
        rw (start, passes, done, hosts-persist env _, assigned-eq) (handed_loses k lo hi),
      )

pub contrib-online :
    (k : ℤ) (h : HostRecord) → h.status ≡ online → contrib k h ≡ one_if (covers k h.block_indices)
unfolding contrib
contrib-online k h up = rw up

-- If the shard manager that is chosen to take over the layers of a leaving online contributor
-- refuses the reload, then `leave` raises, and each layer of the host has one online host less than
-- before, and every other layer as many.
pub leave_loses_layers :
    (env : Env) (i : Text) (h donor : HostRecord) (new : Range) (r : SwarmRegistry)
    → lookup i r.hosts ≡ some h
    → h.status ≡ online
    → is_mother h ≡ false
    → (let left : SwarmRegistry = record r { hosts = erase i r.hosts } in
        choose (values left.hosts) h.block_indices none (candidates left h.block_indices)
        ≡ some (donor, new))
    → env.reload donor.shard_manager_url new ≡ false
    → (k : ℤ)
    → ((leave env i r).0 ≡ err transport)
      × (cover k (leave env i r).1.hosts + one_if (covers k h.block_indices) ≡ cover k r.hosts)
unfolding leave
leave_loses_layers env i h donor new r e up other picked refused k =
    let left : SwarmRegistry = record r { hosts = erase i r.hosts } in
    let eq : leave env i r ≡ (err transport, left) = ground arith in
    (
      ap (λ (x : Result (Unit {0}) × SwarmRegistry). x.0) eq,
      rw eq (omega (arith, cover-erase k i h r.hosts e, contrib-online k h up)),
    )
