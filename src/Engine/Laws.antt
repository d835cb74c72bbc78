-- ===== src/Engine/Laws.antt =====
-- The peers, the token cap, the retries and the reloads of the engine.
use blitzwing.Base.{
  ℕ, zero, suc, ◌<◌, ◌≡◌, ◌≢◌, refl, sym, ap, ◌∙◌, true, false, not, ◌&&◌, ◌||◌, inl, inr, Option,
  none, some, List, [], ◌∷◌, ◌++◌, ltb, arith, Bool-cases, Option-cases,
}
use blitzwing.Base.Int.{ℤ, pos, ◌≤ℤ◌}
use blitzwing.Base.Text.{Text, text_eq, text_eq_iff, member, is_empty}
use blitzwing.Base.Exec.{Result, ok, err, missing_blocks, other_error, Error, Result-cases}
use blitzwing.Engine.{
  EngineSettings, PetalsEngine, Connect, append_new, get_effective_peers, no_peers, load, unload,
  reload, cap_max_tokens, schedule_reload, GenerationResult, Generated, EngineEnv, completed,
  blocks_missing, raised, generate_once, generate_direct, retry, or_retry, finish,
}

-- If the hard limit is at least one, the number of new tokens lies between one and the limit.
pub cap_max_tokens_bounds :
    (s : EngineSettings) (max_tokens : Option ℤ)
    → pos 1 ≤ℤ s.hard_max_tokens
    → (pos 1 ≤ℤ cap_max_tokens s max_tokens) × (cap_max_tokens s max_tokens ≤ℤ s.hard_max_tokens)
unfolding cap_max_tokens
cap_max_tokens_bounds s max_tokens h = (ground arith, ground arith)

member-append : (p : Text) (xs ys : List Text) → member p (xs ++ ys) ≡ (member p xs || member p ys)
unfolding member
member-append p [] ys = refl
member-append p (x ∷ xs) ys = ground (arith, member-append p xs ys)

member_one : (p q : Text) → member p (q ∷ []) ≡ text_eq p q
unfolding member
member_one p q = ground arith

-- A peer is in the merged list if it was in the first, or is in the second and not empty.
pub member-append_new :
    (p : Text) (base ps : List Text)
    → member p (append_new base ps) ≡ (member p base || (not (is_empty p) && member p ps))
unfolding append_new member
member-append_new p base [] = ground arith
member-append_new p base (q ∷ ps) = ground (
  arith,
  text_eq_iff p q,
  member-append p base (q ∷ []),
  member_one p q,
  member-append_new p base ps,
  member-append_new p (base ++ q ∷ []) ps,
)

abbrev pub IsDistinct : List Text → Type 0
IsDistinct [] = Unit {0}
IsDistinct (p ∷ ps) = (member p ps ≡ false) × IsDistinct ps

IsDistinct-append :
    (ps : List Text) (q : Text) → IsDistinct ps → member q ps ≡ false → IsDistinct (ps ++ q ∷ [])
unfolding member
IsDistinct-append [] q d new = (refl, tt)
IsDistinct-append (p ∷ ps) q d new = (
  ground (arith, member-append p ps (q ∷ []), member_one p q, text_eq_iff p q, text_eq_iff q p),
  IsDistinct-append ps q d.1 (ground arith),
)

append_new-IsDistinct : (base ps : List Text) → IsDistinct base → IsDistinct (append_new base ps)
unfolding append_new
append_new-IsDistinct base [] d = d
append_new-IsDistinct base (q ∷ ps) d =
    elim (Bool-cases (not (is_empty q) && not (member q base))) [
      | inl new ↦
          rw new
            (append_new-IsDistinct (base ++ q ∷ []) ps (IsDistinct-append base q d (ground arith)))
      | inr old ↦ rw old (append_new-IsDistinct base ps d)
    ]

-- If the configured peers are distinct, the client connects with distinct peers: the configured
-- ones and the peers added at runtime that are not empty.
pub get_effective_peers_lem :
    (e : PetalsEngine) (p : Text)
    → IsDistinct e.settings.initial_peers
    → IsDistinct (get_effective_peers e)
      × (member p (get_effective_peers e)
          ≡ (member p e.settings.initial_peers || (not (is_empty p) && member p e.extra_peers)))
unfolding get_effective_peers
get_effective_peers_lem e p d = (
  append_new-IsDistinct e.settings.initial_peers e.extra_peers d,
  member-append_new p e.settings.initial_peers e.extra_peers,
)

load_not_missing : (connect : Connect) (e : PetalsEngine) → (load connect e).0 ≢ err missing_blocks
unfolding load
load_not_missing connect e h = ground arith

load-settings : (connect : Connect) (e : PetalsEngine) → (load connect e).1.settings ≡ e.settings
unfolding load
load-settings connect e = ground arith

generate_once_failed :
    (connect : Connect) (run : ℤ → Generated) (max_tokens : Option ℤ) (e : PetalsEngine) (x : Error)
    → (load connect e).0 ≡ err x
    → (generate_once connect run max_tokens e).0 ≡ err x
unfolding generate_once
generate_once_failed connect run max_tokens e x h = rw (h, generate_once)

generate_once_ran :
    (connect : Connect) (run : ℤ → Generated) (max_tokens : Option ℤ) (e : PetalsEngine)
    (u : Unit {0})
    → (load connect e).0 ≡ ok u
    → (generate_once connect run max_tokens e).0
      ≡ finish
          (cap_max_tokens (load connect e).1.settings max_tokens)
          (run (cap_max_tokens (load connect e).1.settings max_tokens))
unfolding generate_once cap_max_tokens
generate_once_ran connect run max_tokens e u h = rw (h, generate_once)

generate_once-settings :
    (connect : Connect) (run : ℤ → Generated) (max_tokens : Option ℤ) (e : PetalsEngine)
    → (generate_once connect run max_tokens e).1.settings ≡ e.settings
unfolding generate_once
generate_once-settings connect run max_tokens e = elim (Result-cases (load connect e).0) [
  | inl (x, failed) ↦ rw (failed, generate_once) (load-settings connect e)
  | inr (u, done) ↦ rw (done, generate_once) (load-settings connect e)
]

finish_missing : (cap : ℤ) (g : Generated) → finish cap g ≡ err missing_blocks → g ≡ blocks_missing
finish_missing cap (completed t p n) h = cc
finish_missing cap blocks_missing h = refl
finish_missing cap raised h = cc

generate_once_missing :
    (connect : Connect) (run : ℤ → Generated) (max_tokens : Option ℤ) (e : PetalsEngine)
    → (generate_once connect run max_tokens e).0 ≡ err missing_blocks
    → run (cap_max_tokens e.settings max_tokens) ≡ blocks_missing
generate_once_missing connect run max_tokens e h = elim (Result-cases (load connect e).0) [
  | inl (x, failed) ↦ absurd (
      load_not_missing connect e
        (cc (h, generate_once_failed connect run max_tokens e x failed, failed)))
  | inr (u, done) ↦ rw (← load-settings connect e) (
      finish_missing (cap_max_tokens (load connect e).1.settings max_tokens)
        (run (cap_max_tokens (load connect e).1.settings max_tokens))
        (sym (generate_once_ran connect run max_tokens e u done) ∙ h))
]

retry_missing :
    (env : EngineEnv) (max_tokens : Option ℤ) (e : PetalsEngine)
    → (retry env max_tokens e).0 ≡ err missing_blocks
    → env.rerun (cap_max_tokens e.settings max_tokens) ≡ blocks_missing
unfolding reload unload
retry_missing env max_tokens e h = elim (Result-cases (reload env.reconnect e).0) [
  | inl (x, failed) ↦ absurd (load_not_missing env.reconnect (unload e) (cc (h, failed)))
  | inr (u, done) ↦ rw (← load-settings env.reconnect (unload e)) (
      generate_once_missing env.reconnect env.rerun max_tokens (reload env.reconnect e).1
        (rw (done, retry) at h))
]

or_retry_missing :
    (env : EngineEnv) (max_tokens : Option ℤ) (res : Result GenerationResult) (e : PetalsEngine)
    → (or_retry env max_tokens res e).0 ≡ err missing_blocks
    → (res ≡ err missing_blocks) × ((retry env max_tokens e).0 ≡ err missing_blocks)
or_retry_missing env max_tokens (ok g) e h = cc
or_retry_missing env max_tokens (err missing_blocks) e h = (refl, h)
or_retry_missing env max_tokens (err x) e h = cc

-- The request fails for missing blocks only if both runs of the model have missed blocks.
pub generate_direct_missing :
    (env : EngineEnv) (max_tokens : Option ℤ) (e : PetalsEngine)
    → (generate_direct env max_tokens e).0 ≡ err missing_blocks
    → (env.run (cap_max_tokens e.settings max_tokens) ≡ blocks_missing)
      × (env.rerun (cap_max_tokens e.settings max_tokens) ≡ blocks_missing)
generate_direct_missing env max_tokens e h =
    let e' = (generate_once env.connect env.run max_tokens e).1 in
    let (first, second) =
      or_retry_missing env max_tokens (generate_once env.connect env.run max_tokens e).0 e'
        (unfold generate_direct in h) in
    (
      generate_once_missing env.connect env.run max_tokens e first,
      rw (← generate_once-settings env.connect env.run max_tokens e)
          (retry_missing env max_tokens e' second),
    )

effective_shut :
    (e : PetalsEngine) (message : Option Text)
    → get_effective_peers (record e { loaded = false; load_error = message })
      ≡ get_effective_peers e
unfolding get_effective_peers
effective_shut e message = refl

-- The attempt that can connect is a later one.
later_attempt :
    (n k : ℕ) (connects : ℕ → Connect) (peers : List Text) (message : Text)
    → k < suc n
    → connects k peers ≡ none
    → connects n peers ≡ some message
    → k < n
later_attempt n k connects peers message lt up fails = elim (Bool-cases (ltb k n)) [
  | inl less ↦ ground arith
  | inr other ↦
      let same : k ≡ n = ground arith in
      absurd (cc (ap (λ (i : ℕ). connects i peers) same, up, fails))
]

reload_passes :
    (connect : Connect) (e : PetalsEngine)
    → no_peers (get_effective_peers e) ≡ false
    → connect (get_effective_peers e) ≡ none
    → reload connect e ≡ (ok tt, record e { loaded = true; load_error = none })
unfolding reload get_effective_peers
reload_passes connect e given up = ground arith

reload_fails :
    (connect : Connect) (e : PetalsEngine) (message : Text)
    → no_peers (get_effective_peers e) ≡ false
    → connect (get_effective_peers e) ≡ some message
    → reload connect e ≡ (err other_error, record e { loaded = false; load_error = some message })
unfolding reload get_effective_peers
reload_fails connect e message given down = ground arith

schedule_reload_passed :
    (n : ℕ) (connects : ℕ → Connect) (e : PetalsEngine)
    → (reload (connects n) e).0 ≡ ok tt
    → (schedule_reload (suc n) connects e).1 ≡ (reload (connects n) e).1
unfolding schedule_reload
schedule_reload_passed n connects e passed = rw (passed, schedule_reload)

schedule_reload_failed :
    (n : ℕ) (connects : ℕ → Connect) (e : PetalsEngine) (x : Error)
    → (reload (connects n) e).0 ≡ err x
    → (schedule_reload (suc n) connects e).1
      ≡ (schedule_reload n connects (reload (connects n) e).1).1
unfolding schedule_reload
schedule_reload_failed n connects e x failed = rw (failed, schedule_reload)

-- If the engine has a peer and one of the attempts can connect, the background reload ends with
-- the client loaded.
pub schedule_reload_loads :
    (n k : ℕ) (connects : ℕ → Connect) (e : PetalsEngine)
    → k < n
    → no_peers (get_effective_peers e) ≡ false
    → connects k (get_effective_peers e) ≡ none
    → (schedule_reload n connects e).1.loaded ≡ true
unfolding schedule_reload
schedule_reload_loads zero k connects e lt given up = elim lt [ ]
schedule_reload_loads (suc n) k connects e lt given up =
    elim (Option-cases (connects n (get_effective_peers e))) [
      | inl passes ↦
          let passed = reload_passes (connects n) e given passes in
          rw (schedule_reload_passed n connects e (ap (λ x. x.0) passed))
            (ap (λ x. x.1.loaded) passed)
      | inr (message, fails) ↦
          let failed = reload_fails (connects n) e message given fails in
          rw
            (
              schedule_reload_failed n connects e other_error (ap (λ x. x.0) failed),
              ap (λ x. x.1) failed,
            )
            (schedule_reload_loads n k connects
              (record e { loaded = false; load_error = some message })
              (later_attempt n k connects (get_effective_peers e) message lt up fails)
              (rw (effective_shut e (some message)) given)
              (rw (effective_shut e (some message)) up))
    ]
