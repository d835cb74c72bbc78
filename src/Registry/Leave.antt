-- ===== src/Registry/Leave.antt =====
-- `leave`, the reclaim of the layers that it frees, and the two reapers. Each method is one call;
-- a reload that raises leaves the state as it was when the reload began.
use blitzwing.Base.{
  ℕ, ◌+◌, Bool, true, false, not, ◌&&◌, ◌||◌, Option, none, some, List, [], ◌∷◌, ◌++◌, ltb,
  if◌then◌else◌,
}
use blitzwing.Base.Int.{leb_ℤ, eqb_ℤ, min_ℤ, max_ℤ}
use blitzwing.Base.Text.{Text, text_eq}
use blitzwing.Base.Dict.{lookup, modify, erase, values}
use blitzwing.Base.Exec.{
  Result, ok, err, key_error, value_error, transport, pure, or_raise, raise_if, ◌>>=◌, ◌>>◌,
}
use blitzwing.Registry.Range.{Range, range, size}
use blitzwing.Registry.Host.{
  HostRecord, SwarmRegistry, Env, Action, mother_id, is_online, is_pending, is_mother, keep,
  persist, set_range,
}
use blitzwing.Registry.Donor.{largest_donor}

-- Some online host other than the skipped one holds the whole range.
unfoldable pub covered_by_online : Range → Text → List HostRecord → Bool
unfolding text_eq
covered_by_online p skip [] = false
covered_by_online p skip (h ∷ hs) =
    not (text_eq h.host_id skip)
      && is_online h
      && leb_ℤ h.block_indices.start p.start
      && leb_ℤ p.end h.block_indices.end
    || covered_by_online p skip hs

-- `_mother_locked`
unfoldable pub online_mother : SwarmRegistry → Option HostRecord
unfolding lookup
online_mother r = elim (lookup mother_id r.hosts) [
  | none ↦ none
  | some m ↦ if is_online m then some m else none
]

abbrev pub is_adjacent : Range → HostRecord → Bool
is_adjacent p h =
    is_online h && (eqb_ℤ h.block_indices.end p.start || eqb_ℤ p.end h.block_indices.start)

-- `_find_adjacent_donor`: the first online host that touches the range
unfoldable pub find_adjacent : Range → List HostRecord → Option HostRecord
find_adjacent p [] = none
find_adjacent p (h ∷ hs) = let rest = find_adjacent p hs in if is_adjacent p h then some h else rest

-- An online host other than the donor that the widened range would overlap.
unfoldable pub has_conflict : Text → Range → List HostRecord → Bool
unfolding text_eq
has_conflict donor_id new [] = false
has_conflict donor_id new (h ∷ hs) =
    not (text_eq h.host_id donor_id)
      && is_online h
      && not (leb_ℤ new.end h.block_indices.start || leb_ℤ h.block_indices.end new.start)
    || has_conflict donor_id new hs

-- `_can_merge_ranges`
unfoldable pub can_merge : List HostRecord → HostRecord → Range → Option Range
unfolding has_conflict
can_merge hosts donor p =
    let d = donor.block_indices in
    let new = range (min_ℤ d.start p.start) (max_ℤ d.end p.end) in
    if eqb_ℤ d.end p.start
    then some (range d.start p.end)
    else if eqb_ℤ p.end d.start
    then some (range p.start d.end)
    else if has_conflict donor.host_id new hosts
    then none
    else some new

unfoldable pub has_id : Text → List HostRecord → Bool
unfolding text_eq
has_id i [] = false
has_id i (h ∷ hs) = text_eq i h.host_id || has_id i hs

-- `candidates.append`, unless the host is there already; two records of the registry are equal
-- exactly if they have one id.
unfoldable pub add_candidate : Option HostRecord → List HostRecord → List HostRecord
unfolding has_id
add_candidate none cs = cs
add_candidate (some h) cs = if has_id h.host_id cs then cs else cs ++ h ∷ []

unfoldable pub candidates : SwarmRegistry → Range → List HostRecord
unfolding online_mother find_adjacent largest_donor values add_candidate
candidates r p =
    add_candidate (largest_donor r)
      (add_candidate (find_adjacent p (values r.hosts)) (add_candidate (online_mother r) []))

-- The mother as soon as she can take the range, else the last candidate that can.
unfoldable pub choose :
    List HostRecord
    → Range
    → Option (HostRecord × Range)
    → List HostRecord
    → Option (HostRecord × Range)
unfolding can_merge
choose hosts p best [] = best
choose hosts p best (c ∷ cs) = elim (can_merge hosts c p) [
  | none ↦ choose hosts p best cs
  | some new ↦ elim (is_mother c) [
    | true ↦ some (c, new)
    | false ↦ choose hosts p (some (c, new)) cs
  ]
]

abbrev reclaim_onto : Env → HostRecord → Range → Action (Unit {0})
unfolding lookup modify size
reclaim_onto env donor new r =
    if env.reload donor.shard_manager_url new
    then elim (lookup donor.host_id r.hosts) [
      | none ↦ (err key_error, r)
      | some d ↦ (ok tt, record r { hosts = modify donor.host_id (set_range new) r.hosts })
    ]
    else (err transport, r)

-- `_reclaim_range`: with no donor the range is dropped, and an error is logged.
unfoldable pub reclaim_range : Env → Range → Action (Unit {0})
unfolding candidates choose values reclaim_onto
reclaim_range env p r = elim (choose (values r.hosts) p none (candidates r p)) [
  | none ↦ (ok tt, r)
  | some (donor, new) ↦ reclaim_onto env donor new r
]

-- Whether the host's range has to be given back.
unfoldable pub range_to_reclaim : HostRecord → List HostRecord → Option Range
unfolding covered_by_online
range_to_reclaim host hosts =
    if is_online host
    then some host.block_indices
    else if is_pending host && not (covered_by_online host.block_indices host.host_id hosts)
    then some host.block_indices
    else none

abbrev reclaim_freed : Env → Option Range → Action (Unit {0})
unfolding reclaim_range
reclaim_freed env none = pure tt
reclaim_freed env (some p) = reclaim_range env p

abbrev forget : Text → Action (Unit {0})
unfolding erase
forget host_id r = (ok tt, record r { hosts = erase host_id r.hosts })

abbrev save : Env → Action (Unit {0})
unfolding persist
save env r = (ok tt, persist env r)

unfoldable pub leave : Env → Text → Action (Unit {0})
unfolding lookup values range_to_reclaim forget reclaim_freed save
leave env host_id r =
    (do
      host ← or_raise (lookup host_id r.hosts) key_error
      raise_if (is_mother host) value_error
      forget host_id
      reclaim_freed env (range_to_reclaim host (values r.hosts))
      save env)
      r

abbrev pub is_stale : ℕ → ℕ → HostRecord → Bool
is_stale now ttl h = not (is_mother h) && is_online h && ltb (h.last_heartbeat + ttl) now

abbrev pub is_stale_pending : ℕ → ℕ → HostRecord → Bool
is_stale_pending now ttl h = not (is_mother h) && is_pending h && ltb (h.joined_at + ttl) now

abbrev gone : Result (Unit {0}) → Text → List Text → List Text
gone (ok _) i out = i ∷ out
gone (err _) i out = out

-- The hosts leave one by one; one whose `leave` raises is skipped.
unfoldable pub reap_each : Env → List HostRecord → SwarmRegistry → List Text × SwarmRegistry
unfolding leave
reap_each env [] r = ([], r)
reap_each env (h ∷ hs) r =
    let (res, r') = leave env h.host_id r in
    let (out, r'') = reap_each env hs r' in (gone res h.host_id out, r'')

unfoldable pub save_if_any : Env → List Text × SwarmRegistry → List Text × SwarmRegistry
unfolding persist
save_if_any env ([], r) = ([], r)
save_if_any env (i ∷ is, r) = (i ∷ is, persist env r)

unfoldable pub reap_stale : Env → ℕ → SwarmRegistry → List Text × SwarmRegistry
unfolding keep values reap_each save_if_any
reap_stale env ttl_seconds r =
    save_if_any env (reap_each env (keep (is_stale env.now ttl_seconds) (values r.hosts)) r)

unfoldable pub reap_stale_pending : Env → ℕ → SwarmRegistry → List Text × SwarmRegistry
unfolding keep values reap_each save_if_any
reap_stale_pending env ttl_seconds r =
    save_if_any env (reap_each env (keep (is_stale_pending env.now ttl_seconds) (values r.hosts)) r)
