-- ===== src/Api/Safe.antt =====
-- What each step of the ready handler leaves behind, up to the hand-over.
use mathlib.Core.Path.{subst}
use blitzwing.Base.{◌≡◌, refl, sym, Bool, true, false, inl, inr, Option, some, arith, if◌then◌else◌}
use blitzwing.Base.Text.{Text}
use blitzwing.Base.Dict.{lookup}
use blitzwing.Base.Exec.{Error, Result, ok, err, runtime_error, ens_error, ◌>>=◌, Result-cases}
use blitzwing.Registry.Range.{Range}
use blitzwing.Registry.Host.{HostRecord, SwarmRegistry, Env, pending}
use blitzwing.Registry.Ready.{
  ReadyPlan, already, planned, ready_begin, ready_commit, mark_ready, assigned_range,
}
use blitzwing.Registry.Reach.{Sound, Reach-Sound, here, next, readies}
use blitzwing.Visible.{verify_blocks_visible}
use blitzwing.Api.{ApiSettings, Mother, World, Handler, registry_of, on_registry, schedule}
use blitzwing.Api.Hosts.{skips_verify, finish_ready, reload_engine, verified_ready, accept}

-- The errors on which the handler releases the host.
abbrev pub releases : Error → Bool
releases runtime_error = true
releases ens_error = true
releases _ = false

abbrev pub is_release : {A : Type 0} → Result A → Bool
is_release (ok a) = false
is_release (err e) = releases e

-- The host is there and pending.
abbrev pub Waits : Text → SwarmRegistry → Type 0
Waits i r = (h : HostRecord) × (lookup i r.hosts ≡ some h) × (h.status ≡ pending)

-- A sound registry, in which the host waits if it is to be released.
pub record Safe {A : Type 0} (i : Text) (out : Result A × Mother) : Type 0 where
  pub sound : Sound (registry_of out.1)
  pub waits : is_release out.0 ≡ true → Waits i (registry_of out.1)

module _ {A B : Type 0} (i : Text) where
  bind_out :
      (g : A → Handler B) (x : Result A × Mother)
      → Safe i x
      → ((a : A) → x.0 ≡ ok a → Safe i (g a x.1))
      → Safe i (((λ (m : Mother). x) >>= g) x.1)
  bind_out g (ok a, m) s k = k a refl
  bind_out g (err e, m) s k = record { sound = s.sound; waits = s.waits }

  pub bind :
      (f : Handler A) (g : A → Handler B) (m : Mother)
      → Safe i (f m)
      → ((a : A) → (f m).0 ≡ ok a → Safe i (g a (f m).1))
      → Safe i ((f >>= g) m)
  bind f g m = bind_out g (f m)

pub either :
    {A : Type 0} (i : Text) (b : Bool) (f g : Handler A) (m : Mother)
    → Safe i (f m)
    → Safe i (g m)
    → Safe i ((if b then f else g) m)
either i true f g m then_safe else_safe = then_safe
either i false f g m then_safe else_safe = else_safe

-- A step that never releases.
pub calm :
    {A : Type 0} (i : Text) (out : Result A × Mother)
    → Sound (registry_of out.1)
    → is_release out.0 ≡ false
    → Safe i out
calm i out s e = record { sound = s; waits = λ bad. absurd (cc (bad, e)) }

ready_begin_fails :
    (i : Text) (peer : Option Text) (r : SwarmRegistry) (x : Error)
    → (ready_begin i peer r).0 ≡ err x
    → (ready_begin i peer r).1 ≡ r
unfolding ready_begin
ready_begin_fails i peer r x e = ground arith

ready_commit_error :
    (env : Env) (i : Text) (peer : Option Text) (plan : ReadyPlan) (r : SwarmRegistry)
    → is_release (ready_commit env i peer plan r).0 ≡ false
unfolding ready_commit
ready_commit_error env i peer plan r = ground arith

mark_ready_releases :
    (env : Env) (i : Text) (peer : Option Text) (r : SwarmRegistry)
    → is_release (mark_ready env i peer r).0 ≡ true
    → (mark_ready env i peer r).1 ≡ r
unfolding mark_ready
mark_ready_releases env i peer r e = elim (Result-cases (ready_begin i peer r).0) [
  | inl (x, failed) ↦ ground (arith, ready_begin_fails i peer r x failed)
  | inr (already h, done) ↦ absurd (ground arith)
  | inr (planned plan, done) ↦ absurd (ground (arith, ready_commit_error env i peer plan))
]

module _ (settings : ApiSettings) (w : World) (i : Text) where
  release_mark_ready :
      (peer : Option Text) (m : Mother)
      → Sound (registry_of m)
      → Waits i (registry_of m)
      → Safe i (on_registry (mark_ready w.env i peer) m)
  release_mark_ready peer m s h = record {
    sound = (Reach-Sound (next here (readies w.env i peer)) s).1;
    waits = λ bad.
        subst (λ r. Waits i r) (sym (mark_ready_releases w.env i peer (registry_of m) bad)) h;
  }

  finish_ready-Safe :
      (peer : Option Text) (m : Mother)
      → Sound (registry_of m)
      → Waits i (registry_of m)
      → Safe i (finish_ready w i peer m)
  unfolding finish_ready
  finish_ready-Safe peer m s h =
      bind i (on_registry (mark_ready w.env i peer)) (λ host m'. (ok host, schedule m')) m
        (release_mark_ready peer m s h)
        (λ host done.
          calm i (ok host, schedule (on_registry (mark_ready w.env i peer) m).1)
            (release_mark_ready peer m s h).sound refl)

  registry-reload_engine : (m : Mother) → registry_of (reload_engine w m).1 ≡ registry_of m
  unfolding reload_engine
  registry-reload_engine m = ground arith

  verified_ready-Safe :
      (blocks : Range) (peer : Option Text) (m : Mother)
      → Sound (registry_of m)
      → Waits i (registry_of m)
      → Safe i (verified_ready w i blocks peer m)
  unfolding verified_ready
  verified_ready-Safe blocks peer m s h =
      let same = registry-reload_engine m in
      let s' : Sound (registry_of (reload_engine w m).1) = rw same s in
      let h' : Waits i (registry_of (reload_engine w m).1) = rw same h in
      let checked : Handler (Unit {0}) = λ m'. (verify_blocks_visible blocks w.polls, m') in
      let rest : Handler HostRecord = checked >>= λ u. finish_ready w i peer in
      bind i (reload_engine w) (λ u. rest) m (record { sound = s'; waits = λ bad. h' })
        (λ u passed.
          bind i checked (λ u'. finish_ready w i peer) (reload_engine w m).1
            (record { sound = s'; waits = λ bad. h' })
            (λ u' visible. finish_ready-Safe peer (reload_engine w m).1 s' h'))

  pub accept-Safe :
      (waiting : HostRecord) (peer : Option Text) (fast_path : Bool) (m : Mother)
      → Sound (registry_of m)
      → Waits i (registry_of m)
      → Safe i (accept settings w i waiting peer fast_path m)
  unfolding accept
  accept-Safe waiting peer fast_path m s h =
      either i (skips_verify settings peer fast_path) (finish_ready w i peer)
        (verified_ready w i (assigned_range waiting) peer) m (finish_ready-Safe peer m s h)
        (verified_ready-Safe (assigned_range waiting) peer m s h)
