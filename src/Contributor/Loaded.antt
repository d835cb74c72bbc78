-- ===== src/Contributor/Loaded.antt =====
-- What a load of the contributor's client leaves behind.
use blitzwing.Base.{
  ◌≡◌, refl, ap, ◌∙◌, Bool, true, false, ◌&&◌, ◌⊎◌, inl, inr, Option, none, some, List, ◌∷◌, arith,
  is_some, if◌then◌else◌, Bool-cases, Option-cases, List-cases,
}
use blitzwing.Base.Text.{Text}
use blitzwing.Base.Exec.{ok}
use blitzwing.Contributor.{
  ContributorInference, LoadEnv, ManifestHost, any_loopback, wait_until_routable,
  peers_from_manifest, first_loopback, merge_local, same_peers, replace_peers, apply_swarm_manifest,
  connect, find_local, load_by, load_or_wait, ensure_loaded,
}
use blitzwing.Contributor.Routable.{WasRoutable, wait_passed, wait_state}

-- A loaded model was made with the client's peers, one of which is the local server; only a loaded
-- model is ready.
pub record IsConnected (c : ContributorInference) : Type 0 where
  pub made_with : (peers : List Text) → c.model ≡ some peers → peers ≡ c.initial_peers
  pub has_local : is_some c.model ≡ true → any_loopback c.initial_peers ≡ true
  pub loaded_if_ready : c.ready ≡ true → is_some c.model ≡ true

wait-IsConnected :
    (polls : List (Option (List (List Text)))) (c : ContributorInference)
    → is_some c.model ≡ true
    → IsConnected c
    → IsConnected (wait_until_routable polls c).1
wait-IsConnected polls c loaded s = elim (wait_state polls c) [
  | inl same ↦ rw same s
  | inr set ↦
      rw set
        (record { made_with = s.made_with; has_local = s.has_local; loaded_if_ready = λ e. loaded })
]

connect-IsConnected :
    (env : LoadEnv) (c : ContributorInference)
    → c.model ≡ none
    → c.ready ≡ false
    → IsConnected (connect env c).1
unfolding connect
connect-IsConnected env c unloaded idle =
    let start : IsConnected c = record {
      made_with = λ peers e. absurd (ground arith);
      has_local = λ e. absurd (ground arith);
      loaded_if_ready = λ e. absurd (ground arith);
    } in
    elim (Bool-cases (any_loopback c.initial_peers)) [
      | inr no_local ↦ rw (connect, no_local) start
      | inl with_local ↦ elim (Bool-cases (env.tokenizer_loads && env.connects c.initial_peers)) [
        | inr failed ↦ rw (connect, with_local, failed) start
        | inl made ↦
            rw (connect, with_local, made)
              (wait-IsConnected env.polls (record c { model = some c.initial_peers }) refl
                (record {
                  made_with = λ peers e. ground arith;
                  has_local = λ e. with_local;
                  loaded_if_ready = λ e. refl;
                }))
      ]
    ]

idle_if_unloaded : (c : ContributorInference) → IsConnected c → c.model ≡ none → c.ready ≡ false
idle_if_unloaded c s unloaded = ground (arith, s.loaded_if_ready)

replace_peers-IsConnected :
    (merged : List Text) (c : ContributorInference)
    → IsConnected c
    → IsConnected (replace_peers merged c)
unfolding replace_peers
replace_peers-IsConnected merged c s = elim (Bool-cases (same_peers merged c.initial_peers)) [
  | inl same ↦ rw same s
  | inr other ↦ rw other (record {
    made_with = λ peers e. absurd (ground arith);
    has_local = λ e. absurd (ground arith);
    loaded_if_ready = λ e. absurd (ground (arith, s.loaded_if_ready));
  })
]

apply_swarm_manifest-IsConnected :
    (manifest : Option (List ManifestHost)) (c : ContributorInference)
    → IsConnected c
    → IsConnected (apply_swarm_manifest manifest c)
unfolding apply_swarm_manifest
apply_swarm_manifest-IsConnected none c s = s
apply_swarm_manifest-IsConnected (some hosts) c s =
    elim (List-cases (peers_from_manifest c hosts)) [
      | inl none_named ↦ rw (apply_swarm_manifest, none_named) s
      | inr (p, ps, named) ↦
          rw (apply_swarm_manifest, named)
            (replace_peers-IsConnected (merge_local (first_loopback c.initial_peers) (p ∷ ps)) c s)
    ]

pub load_unloaded :
    (env : LoadEnv) (c : ContributorInference)
    → c.model ≡ none
    → load_or_wait env c ≡ connect env (find_local env c)
unfolding load_or_wait
load_unloaded env c unloaded = ap (λ (m : Option (List Text)). load_by m env c) unloaded

load_loaded :
    (env : LoadEnv) (c : ContributorInference) (peers : List Text)
    → c.model ≡ some peers
    → load_or_wait env c ≡ (if c.ready then (ok tt, c) else wait_until_routable env.polls c)
unfolding load_or_wait
load_loaded env c peers loaded = ap (λ (m : Option (List Text)). load_by m env c) loaded

if_true {ℓ} : {A : Type ℓ} {b : Bool} (x y : A) → b ≡ true → (if b then x else y) ≡ x
if_true x y e = rw e

if_false {ℓ} : {A : Type ℓ} {b : Bool} (x y : A) → b ≡ false → (if b then x else y) ≡ y
if_false x y e = rw e

pub load_ready :
    (env : LoadEnv) (c : ContributorInference) (peers : List Text)
    → c.model ≡ some peers
    → c.ready ≡ true
    → load_or_wait env c ≡ (ok tt, c)
load_ready env c peers loaded ready = load_loaded env c peers loaded ∙ if_true _ _ ready

pub load_waits :
    (env : LoadEnv) (c : ContributorInference) (peers : List Text)
    → c.model ≡ some peers
    → c.ready ≡ false
    → load_or_wait env c ≡ wait_until_routable env.polls c
load_waits env c peers loaded waits = load_loaded env c peers loaded ∙ if_false _ _ waits

load_or_wait-IsConnected :
    (env : LoadEnv) (c : ContributorInference) → IsConnected c → IsConnected (load_or_wait env c).1
unfolding find_local
load_or_wait-IsConnected env c s = elim (Option-cases c.model) [
  | inl unloaded ↦
      rw (load_unloaded env c unloaded)
        (connect-IsConnected env (find_local env c) unloaded (idle_if_unloaded c s unloaded))
  | inr (peers, loaded) ↦ elim (Bool-cases c.ready) [
    | inl ready ↦ rw (load_ready env c peers loaded ready) s
    | inr waits ↦
        rw (load_waits env c peers loaded waits) (wait-IsConnected env.polls c (ground arith) s)
  ]
]

-- Whatever a manifest brings and whether a load passes, times out or raises, the loaded model is one
-- that was made with the client's present peers, the local server among them, and only a loaded model
-- is ready.
pub ensure_loaded-IsConnected :
    (env : LoadEnv) (manifest : Option (List ManifestHost)) (c : ContributorInference)
    → IsConnected c
    → IsConnected (ensure_loaded env manifest c).1
unfolding ensure_loaded
ensure_loaded-IsConnected env manifest c s =
    load_or_wait-IsConnected env (apply_swarm_manifest manifest c)
      (apply_swarm_manifest-IsConnected manifest c s)

pub connect_passed :
    (env : LoadEnv) (c : ContributorInference)
    → (connect env c).0 ≡ ok tt
    → ((connect env c).1 ≡ record c { model = some c.initial_peers; ready = true })
      × WasRoutable env.polls
unfolding connect
connect_passed env c passed = elim (Bool-cases (any_loopback c.initial_peers)) [
  | inr no_local ↦ absurd (ground arith)
  | inl with_local ↦ elim (Bool-cases (env.tokenizer_loads && env.connects c.initial_peers)) [
    | inr failed ↦ absurd (ground arith)
    | inl made ↦
        let loaded : ContributorInference = record c { model = some c.initial_peers } in
        rw (connect, with_local, made)
          (wait_passed env.polls loaded (rw (connect, with_local, made) at passed))
  ]
]

-- A load that passes leaves a client that is loaded with its own peers, the local server among them,
-- and ready; and unless it was ready for this manifest before, some poll has shown a server for every
-- block.
pub ensure_loaded_lem :
    (env : LoadEnv) (manifest : Option (List ManifestHost)) (c : ContributorInference)
    → IsConnected c
    → (ensure_loaded env manifest c).0 ≡ ok tt
    → ((ensure_loaded env manifest c).1.model ≡ some (ensure_loaded env manifest c).1.initial_peers)
      × (any_loopback (ensure_loaded env manifest c).1.initial_peers ≡ true)
      × ((ensure_loaded env manifest c).1.ready ≡ true)
      × (((apply_swarm_manifest manifest c).ready ≡ true) ⊎ WasRoutable env.polls)
unfolding ensure_loaded
ensure_loaded_lem env manifest c s passed =
    let before = apply_swarm_manifest manifest c in
    let kept = apply_swarm_manifest-IsConnected manifest c s in
    let after = load_or_wait-IsConnected env before kept in
    elim (Option-cases before.model) [
      | inl unloaded ↦
          let (state, routable) =
            connect_passed env (find_local env before)
              (rw (load_unloaded env before unloaded) at passed) in
          let out = load_unloaded env before unloaded in
          (rw (out, state), after.has_local (rw (out, state)), rw (out, state), inr routable)
      | inr (peers, loaded) ↦ elim (Bool-cases before.ready) [
        | inl ready ↦
            let out = load_ready env before peers loaded ready in
            (
              rw out (loaded ∙ ap (λ (ps : List Text). some ps) (kept.made_with peers loaded)),
              after.has_local (rw out (ground arith)),
              rw out ready,
              inl ready,
            )
        | inr waits ↦
            let out = load_waits env before peers loaded waits in
            let (state, routable) = wait_passed env.polls before (rw out at passed) in
            (
              rw (out, state)
                  (loaded ∙ ap (λ (ps : List Text). some ps) (kept.made_with peers loaded)),
              after.has_local (rw (out, state) (ground arith)),
              rw (out, state),
              inr routable,
            )
      ]
    ]
