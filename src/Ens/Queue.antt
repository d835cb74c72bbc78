-- ===== src/Ens/Queue.antt =====
-- What the replay of the pending operations does to the queue, and the cached verdicts.
use blitzwing.Base.{
  ℕ, ◌+◌, ◌<◌, ◌≡◌, refl, ap, ◌∙◌, Bool, true, not, inl, inr, none, some, List, [], ◌∷◌, arith,
  Bool-cases, Option-cases,
}
use blitzwing.Base.Text.{Text, text_eq_refl, truthy, or_empty}
use blitzwing.Base.Dict.{lookup, lookup-insert}
use blitzwing.Base.Exec.{ok, Result-cases}
use blitzwing.Registry.Host.{HostRecord, Env, keep}
use blitzwing.Payout.Plan.{Settings}
use blitzwing.Ens.{
  EnsService, EnsState, PendingOp, is_provision, is_provision_of, clear_pending, provision_host,
  provision_and_name, verify_host, verify_now, get, is_match, is_recent,
}
use blitzwing.Ens.Passes.{replay_on, replay_one, replay_each, replay_pending}

-- The operations that update a host's records.
abbrev pub updates_of : List PendingOp → List PendingOp
updates_of = keep λ op. not (is_provision op.action)

updates-clear :
    (i : Text) (ops : List PendingOp)
    → updates_of (keep (λ op. not (is_provision_of i op)) ops) ≡ updates_of ops
unfolding keep is_provision_of
updates-clear i [] = refl
updates-clear i (op ∷ ops) = elim (Bool-cases (is_provision_of i op)) [
  | inl hit ↦
      let new : is_provision op.action ≡ true = ground arith in rw (hit, new) (updates-clear i ops)
  | inr miss ↦ elim (Bool-cases (is_provision op.action)) [
    | inl new ↦ rw (miss, new) (updates-clear i ops)
    | inr old ↦ rw (miss, old) (ap (λ rest. op ∷ rest) (updates-clear i ops))
  ]
]

updates-provision_host :
    (net : EnsService) (h : HostRecord) (s : EnsState)
    → updates_of (provision_host net h s).1.pending ≡ updates_of s.pending
unfolding provision_host clear_pending
updates-provision_host net h s = ground (arith, updates-clear h.host_id s.pending)

updates-provision_and_name :
    (env : Env) (net : EnsService) (h : HostRecord) (s : EnsState)
    → updates_of (provision_and_name env net h s).1.pending ≡ updates_of s.pending
unfolding provision_and_name
updates-provision_and_name env net h s = ground (arith, updates-provision_host net h s)

updates-replay_on :
    (env : Env) (net : EnsService) (op : PendingOp) (h : HostRecord) (s : EnsState)
    → updates_of (replay_on env net op h s).1.pending ≡ updates_of s.pending
unfolding replay_on
updates-replay_on env net op h s = ground (arith, updates-provision_and_name env net h s)

updates-replay_one :
    (env : Env) (net : EnsService) (op : PendingOp) (s : EnsState)
    → updates_of (replay_one env net op s).1.pending ≡ updates_of s.pending
unfolding replay_one
updates-replay_one env net op s = elim (Option-cases (lookup op.host_id s.registry.hosts)) [
  | inl gone ↦ rw (gone, replay_one)
  | inr (h, found) ↦ rw (found, replay_one) (ground (arith, updates-replay_on env net op h s))
]

updates-replay_each :
    (env : Env) (net : EnsService) (ops : List PendingOp) (s : EnsState)
    → updates_of (replay_each env net ops s).1.pending ≡ updates_of s.pending
unfolding replay_each
updates-replay_each env net [] s = refl
updates-replay_each env net (op ∷ ops) s = elim (Result-cases (replay_one env net op s).0) [
  | inl (x, failed) ↦ rw (failed, replay_each) (updates-replay_one env net op s)
  | inr (u, passed) ↦
      rw (passed, replay_each)
        (updates-replay_each env net ops (replay_one env net op s).1
          ∙ updates-replay_one env net op s)
]

-- Whatever the service answers, a replay takes no update out of the queue: every update that was
-- queued is replayed again at the next start.
pub replay_pending_keeps_updates :
    (env : Env) (settings : Settings) (net : EnsService) (s : EnsState)
    → updates_of (replay_pending env settings net s).1.pending ≡ updates_of s.pending
unfolding replay_pending
replay_pending_keeps_updates env settings net s = elim (Bool-cases settings.ens_enabled) [
  | inl on ↦ rw (on, replay_pending) (updates-replay_each env net s.pending s)
  | inr off ↦ rw (off, replay_pending)
]

verify_host_new :
    (settings : Settings) (net : EnsService) (h : HostRecord) (s : EnsState)
    → settings.ens_enabled ≡ true
    → truthy h.ens_name ≡ true
    → lookup h.host_id s.verify_cache ≡ none
    → verify_host settings net h s ≡ verify_now net h s
unfolding verify_host
verify_host_new settings net h s on named new = rw (on, named, new, verify_host)

verify_now_stores :
    (net : EnsService) (h : HostRecord) (s : EnsState) (b : Bool)
    → (verify_now net h s).0 ≡ ok b
    → lookup h.host_id (verify_now net h s).1.verify_cache ≡ some (b, net.now)
unfolding verify_now
verify_now_stores net h s b first = elim (Result-cases (get (net.resolve (or_empty h.ens_name)))) [
  | inl (x, failed) ↦ absurd (ground arith)
  | inr (found, passed) ↦
      let verdict : is_match h found ≡ b = ground arith in
      rw (
        passed,
        verify_now,
        lookup-insert h.host_id h.host_id (is_match h found, net.now) s.verify_cache,
        text_eq_refl h.host_id,
        verdict,
      )
]

verify_host_cached :
    (settings : Settings) (net : EnsService) (h : HostRecord) (s : EnsState) (b : Bool) (at : ℕ)
    → settings.ens_enabled ≡ true
    → truthy h.ens_name ≡ true
    → lookup h.host_id s.verify_cache ≡ some (b, at)
    → is_recent net (b, at) ≡ true
    → (verify_host settings net h s).0 ≡ ok b
unfolding verify_host
verify_host_cached settings net h s b at on named seen recent =
    rw (on, named, seen, recent, verify_host)

-- A verdict on a named host that was not in the cache is repeated for half a minute to every record
-- of the host with a name, whatever its wallet and range and whatever the service says by then.
pub verify_host_repeats :
    (settings : Settings) (net later : EnsService) (h h' : HostRecord) (s : EnsState) (b : Bool)
    → settings.ens_enabled ≡ true
    → truthy h.ens_name ≡ true
    → truthy h'.ens_name ≡ true
    → h'.host_id ≡ h.host_id
    → lookup h.host_id s.verify_cache ≡ none
    → (verify_host settings net h s).0 ≡ ok b
    → later.now < net.now + 30
    → (verify_host settings later h' (verify_host settings net h s).1).0 ≡ ok b
verify_host_repeats settings net later h h' s b on named named' same new first soon =
    let eq = verify_host_new settings net h s on named new in
    let stored = verify_now_stores net h s b (rw eq at first) in
    verify_host_cached settings later h' (verify_host settings net h s).1 b net.now on named'
      (rw (same, eq) stored) (ground arith)
