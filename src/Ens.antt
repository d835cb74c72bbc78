-- ===== src/Ens.antt =====
-- The ENS client of orchestrator/app/ens_client.py: the verification cache, the queue of pending
-- operations in ~/.blitzwing/ens_pending.json and the syncs after a hand-over and a departure. The
-- answers of the ENS service are a parameter; a write of the queue is taken to pass.
pub mod Passes
pub mod Queue
use blitzwing.Base.{
  ℕ, ◌+◌, Bool, true, false, not, ◌&&◌, ◌||◌, Option, none, some, List, [], ◌∷◌, ◌++◌, leb, ltb,
  ◌==◌, if◌then◌else◌,
}
use blitzwing.Base.Int.{ℤ, pos, leb_ℤ}
use blitzwing.Base.Text.{Text, is_empty, text_eq, truthy, or_empty}
use blitzwing.Base.Dict.{Dict, lookup, insert}
use blitzwing.Base.Exec.{Result, ok, err, ens_error, Exec, pure, lift, modify_state, ◌>>=◌, ◌>>◌}
use blitzwing.Registry.Range.{format_range}
use blitzwing.Registry.Host.{HostRecord, SwarmRegistry, Env, set_ens_name, keep}
use blitzwing.Payout.Plan.{Settings}

-- What a request to the service gives: no connection, or a status code and the body.
pub data Answer (A : Type 0) : Type 0 where
  unreachable : Answer A
  replied : ℕ → A → Answer A

unfoldable pub post : {A : Type 0} → Answer A → Result A
post unreachable = err ens_error
post (replied code body) = if leb 400 code then err ens_error else ok body

-- The body of a 404 is handed on.
unfoldable pub get : {A : Type 0} → Answer A → Result A
get unreachable = err ens_error
get (replied code body) =
    if code == 404 then ok body else if leb 400 code then err ens_error else ok body

-- The record that a name resolves to.
pub record EnsRecord : Type 0 where
  pub hedera_account_id : Option Text
  pub block_indices : Option Text
  pub host_id : Option Text

-- The service's answers and the time of a call. `provision` answers with a name; `update` and
-- `deactivate` with a body that is not read. A payload is made from the name and the host, with the
-- status online, or offline for a host of a pass that is not online.
pub record EnsService : Type 0 where
  pub now : ℕ
  pub provision : HostRecord → Answer Text
  pub update : Text → HostRecord → Answer (Unit {0})
  pub deactivate : Text → Answer (Unit {0})
  pub resolve : Text → Answer (Option EnsRecord)

pub data OpKind : Type 0 where
  provision_op update_op : OpKind

abbrev pub is_provision : OpKind → Bool
is_provision provision_op = true
is_provision update_op = false

pub record PendingOp : Type 0 where
  pub action : OpKind
  pub host_id : Text
  pub ens_name : Option Text

-- The state that the client touches: the registry, the queue, and the verdicts with their times.
pub record EnsState : Type 0 where
  pub registry : SwarmRegistry
  pub pending : List PendingOp
  pub verify_cache : Dict (Bool × ℕ)

unfoldable pub enqueue_pending : PendingOp → EnsState → EnsState
enqueue_pending op s = record s { pending = s.pending ++ op ∷ [] }

abbrev pub is_provision_of : Text → PendingOp → Bool
unfolding text_eq
is_provision_of host_id op = text_eq op.host_id host_id && is_provision op.action

-- `_clear_pending_matching(hostId=host_id, action="provision")`
unfoldable pub clear_pending : Text → EnsState → EnsState
unfolding keep text_eq
clear_pending host_id s = record s {
  pending = keep (λ op. not (is_provision_of host_id op)) s.pending;
}

unfoldable pub provision_host : EnsService → HostRecord → Exec EnsState Text
unfolding post clear_pending
provision_host net h s = elim (post (net.provision h)) [
  | err e ↦ (err e, s)
  | ok name ↦ if is_empty name then (err ens_error, s) else (ok name, clear_pending h.host_id s)
]

abbrev on_registry : {A : Type 0} → Exec SwarmRegistry A → Exec EnsState A
on_registry f s = let (res, r) = f s.registry in (res, record s { registry = r })

-- A new name goes to the registry.
unfoldable pub provision_and_name : Env → EnsService → HostRecord → Exec EnsState Text
unfolding provision_host set_ens_name
provision_and_name env net h s =
    let (res, s') = provision_host net h s in
    elim res [
      | err e ↦ (err e, s')
      | ok name ↦
          let (named, s'') = on_registry (set_ens_name env h.host_id name) s' in
          elim named [ err e ↦ (err e, s'') | ok _ ↦ (ok name, s'') ]
    ]

unfoldable pub update_host : EnsService → Text → HostRecord → Result (Unit {0})
unfolding post
update_host net name h = post (net.update name h)

unfoldable pub deactivate_host : EnsService → Text → Result (Unit {0})
unfolding post
deactivate_host net name = post (net.deactivate name)

abbrev same_text : Option Text → Option Text → Bool
unfolding text_eq
same_text none none = true
same_text (some a) (some b) = text_eq a b
same_text _ _ = false

abbrev pub is_match : HostRecord → Option EnsRecord → Bool
unfolding same_text format_range
is_match h none = false
is_match h (some rec) =
    same_text rec.hedera_account_id h.hedera_account_id
    && same_text rec.block_indices (some (format_range h.block_indices.start h.block_indices.end))
    && same_text rec.host_id (some h.host_id)

abbrev verify_ttl : ℕ
verify_ttl = 30

abbrev pub is_recent : EnsService → Bool × ℕ → Bool
is_recent net (verdict, at) = ltb net.now (at + verify_ttl)

abbrev pub verify_now : EnsService → HostRecord → Exec EnsState Bool
unfolding get is_match insert
verify_now net h s = elim (get (net.resolve (or_empty h.ens_name))) [
  | err e ↦ (err e, s)
  | ok found ↦ (
    ok (is_match h found),
    record s { verify_cache = insert h.host_id (is_match h found, net.now) s.verify_cache },
  )
]

abbrev verify_cached : EnsService → HostRecord → Option (Bool × ℕ) → Exec EnsState Bool
unfolding verify_now
verify_cached net h none s = verify_now net h s
verify_cached net h (some seen) s =
    let fresh = verify_now net h s in if is_recent net seen then (ok seen.0, s) else fresh

unfoldable pub verify_host : Settings → EnsService → HostRecord → Exec EnsState Bool
unfolding lookup verify_cached
verify_host settings net h s =
    if not settings.ens_enabled
    then (ok true, s)
    else if not (truthy h.ens_name)
    then (ok (not settings.ens_strict), s)
    else verify_cached net h (lookup h.host_id s.verify_cache) s
