-- ===== src/Api/Started/Restart.antt =====
-- A start from a saved registry: the hosts are those of the last run.
use blitzwing.Base.{
  ℕ, ◌≡◌, refl, Bool, true, false, inl, inr, Option, none, some, List, [], ◌∷◌, arith, Bool-cases,
  Option-cases,
}
use blitzwing.Base.Int.{ℤ}
use blitzwing.Base.Text.{Text, or_empty, truthy}
use blitzwing.Base.Dict.{lookup, modify, values, lookup-modify, modify_congr}
use blitzwing.Base.Exec.{ok, Result-cases}
use blitzwing.Registry.Range.{Range, parse_range}
use blitzwing.Registry.Host.{
  HostRecord, SwarmRegistry, Saved, Env, mother_id, restore_mother, init, init_registry,
  sync_mother_from_shard, set_range, keep,
}
use blitzwing.Registry.Leave.{reap_stale_pending, is_stale_pending}
use blitzwing.Registry.Sound.{IsSound}
use blitzwing.Registry.Sound.Donor.{In, In-values}
use blitzwing.Registry.Sound.Total.{total-reap_stale}
use blitzwing.Registry.Reach.{Sound, init-one}
use blitzwing.Registry.Reclaim.Kept.Depart.{NonePending}
use blitzwing.Registry.Reclaim.Kept.Silent.{reap_stale-IsSound}
use blitzwing.Engine.{PetalsEngine}
use blitzwing.Ens.{PendingOp}
use blitzwing.Swarm.Manifest.{build_manifest, is_complete}
use blitzwing.Api.{ApiSettings, Mother, World, registry_of}
use blitzwing.Api.Hosts.{reaper_round, sync_mother_shard_blocks}
use blitzwing.Api.Startup.{StartSettings, startup}
use blitzwing.Api.Served.{Served, registry-reaper_round, manifest_stays_complete}
use blitzwing.Registry.Sound.Stays.{recount, recount-Same}
use blitzwing.Api.Started.Restored.{
  IsKept, restored, restored-IsSound, quiet-modify, modify-IsKept, set_ens_name-IsKept,
  boots-IsKept, at_url,
}
use blitzwing.Api.Started.{startup_keeps}

-- What the mother's shard manager reports parses to the saved blocks, or not at all.
abbrev pub Confirms : Range → Option Text → Type 0
Confirms held reported = (b : Range) → parse_range (or_empty reported) ≡ ok b → b ≡ held

sync_mother_from_shard-IsKept :
    (t : ℤ) (held : Range) (blocks : Text) (r : SwarmRegistry)
    → Confirms held (some blocks)
    → IsKept t held r
    → IsKept t held (sync_mother_from_shard blocks r).1
unfolding sync_mother_from_shard
sync_mother_from_shard-IsKept t held blocks r confirms kept =
    elim (Option-cases (lookup mother_id r.hosts)) [
      | inl unknown ↦ rw (sync_mother_from_shard, unknown) kept
      | inr (m, found) ↦ elim (Result-cases (parse_range blocks)) [
        | inl (x, bad) ↦ rw (sync_mother_from_shard, found, bad) kept
        | inr (b, good) ↦
            rw
              (
                sync_mother_from_shard,
                found,
                good,
                modify_congr mother_id (set_range b) (recount b) m r.hosts found
                    (ground (arith, confirms b good, kept.blocks m found)),
              )
              (modify-IsKept t held mother_id (recount b) r (recount-Same b) kept)
      ]
    ]

syncs-IsKept :
    (t : ℤ) (held : Range) (reported : Option Text) (r : SwarmRegistry)
    → Confirms held reported
    → IsKept t held r
    → IsKept t held (sync_mother_shard_blocks reported r)
unfolding sync_mother_shard_blocks
syncs-IsKept t held none r confirms kept = kept
syncs-IsKept t held (some blocks) r confirms kept = elim (Bool-cases (truthy (some blocks))) [
  | inl full ↦ rw full (sync_mother_from_shard-IsKept t held blocks r confirms kept)
  | inr empty ↦ rw empty kept
]

keep-none :
    (p : HostRecord → Bool) (ys : List HostRecord)
    → ((y : HostRecord) → In y ys → p y ≡ false)
    → keep p ys ≡ []
unfolding keep
keep-none p [] none_of = refl
keep-none p (y ∷ ys) none_of =
    rw (none_of y (inl refl)) (keep-none p ys (λ x later. none_of x (inr later)))

-- With nobody pending the first reaper has nothing to do.
nobody_waits :
    (env : Env) (ttl_seconds : ℕ) (r : SwarmRegistry)
    → IsSound r.total_layers r.hosts
    → NonePending r.hosts
    → (reap_stale_pending env ttl_seconds r).1 ≡ r
unfolding reap_stale_pending
nobody_waits env ttl_seconds r sound quiet = rw (
    keep-none (is_stale_pending env.now ttl_seconds) (values r.hosts)
      (λ y there. ground (arith, quiet y.host_id y (In-values y r.hosts sound.keyed there))))

reaps-Sound :
    (t : ℤ) (held : Range) (w : World) (pending_ttl heartbeat_ttl : ℕ) (m : Mother)
    → ((url : Text) (new : Range) → w.env.reload url new ≡ true)
    → IsKept t held (registry_of m)
    → Sound (registry_of (reaper_round w pending_ttl heartbeat_ttl m))
reaps-Sound t held w pending_ttl heartbeat_ttl m passes kept =
    let sound : Sound (registry_of m) = rw (kept.total) kept.sound in
    let same = nobody_waits w.env pending_ttl (registry_of m) sound kept.quiet in
    rw
      (
        registry-reaper_round w pending_ttl heartbeat_ttl m,
        same,
        total-reap_stale w.env heartbeat_ttl (registry_of m),
      )
      (reap_stale-IsSound w.env heartbeat_ttl (registry_of m) (inr (kept.quiet, passes)) sound)

recovered :
    (env : Env) (f : Saved) (model : Text) (t : ℤ) (url : Text) (account : Option Text)
    {r : SwarmRegistry}
    → init_registry env (some f) model t url account ≡ ok r
    → (r.hosts ≡ modify mother_id (restore_mother url) f.hosts) × (r.total_layers ≡ t)
unfolding init_registry
recovered env f model t url account {r} read =
    elim (Result-cases (init env (some f) model t url account)) [
      | inl (x, bad) ↦ absurd (ground (arith, bad))
      | inr (r0, good) ↦
          let (m, total, only, up, role, own, blocks) =
            init-one env (some f) model t url account good in
          (ground (arith, good), ground (arith, good))
    ]

recovered-IsKept :
    (env : Env) (f : Saved) (model : Text) (t : ℤ) (url : Text) (account : Option Text)
    (held : Range) {r : SwarmRegistry}
    → init_registry env (some f) model t url account ≡ ok r
    → IsSound t f.hosts
    → NonePending f.hosts
    → ((h : HostRecord) → lookup mother_id f.hosts ≡ some h → h.block_indices ≡ held)
    → IsKept t held r
recovered-IsKept env f model t url account held read sound quiet blocks =
    let (hosts, total) = recovered env f model t url account read in
    let (m, is_m) = sound.has_mother in
    record {
      sound = rw hosts (restored-IsSound t url f.hosts sound);
      quiet =
          rw (hosts, restored t url f.hosts sound)
            (quiet-modify mother_id (at_url url) f.hosts (λ h. refl) quiet);
      total = total;
      blocks = λ h e. ground (
        arith,
        hosts,
        restored t url f.hosts sound,
        lookup-modify mother_id mother_id (at_url url) f.hosts,
        is_m.found,
        blocks m is_m.found,
      );
    }

-- An orchestrator that starts from a saved registry that is sound for the configured number of layers
-- and has no pending host, whose mother's shard manager reports the mother's saved blocks or nothing
-- that parses, and whose shard managers take the reloads of the start, has a complete manifest after
-- its start, silent hosts reaped, and after any of the requests and rounds of the reaper that keep a
-- manifest complete.
pub restarted_mother_serves :
    (start : StartSettings) (settings : ApiSettings) (w : World) (f : Saved) (held : Range)
    (reported : Option Text) (engine : PetalsEngine) (queued : List PendingOp) {m n : Mother}
    → IsSound settings.base.total_layers f.hosts
    → NonePending f.hosts
    → ((h : HostRecord) → lookup mother_id f.hosts ≡ some h → h.block_indices ≡ held)
    → Confirms held reported
    → ((url : Text) (new : Range) → w.env.reload url new ≡ true)
    → startup start settings w (some f) reported engine queued ≡ ok m
    → Served settings m n
    → Sound (registry_of n) × (is_complete (build_manifest (registry_of n)) ≡ true)
unfolding startup
restarted_mother_serves start settings w f held reported engine queued {m} sound quiet blocks
      confirms passes started served =
    let t = settings.base.total_layers in
    let url = start.mother_shard_manager_url in
    elim (Result-cases
      (init_registry w.env (some f) settings.model_name t url settings.base.mother_account_id)) [
        | inl (x, bad) ↦ absurd (ground (arith, bad, started))
        | inr (r, read) ↦ manifest_stays_complete served (
            startup_keeps (IsKept t held) (set_ens_name-IsKept t held) (boots-IsKept t held) start
              settings w (some f) reported engine queued (λ s. Sound s) r
              (λ s. syncs-IsKept t held reported s confirms)
              (λ s.
                reaps-Sound t held w start.pending_ttl_seconds start.heartbeat_ttl_seconds s passes)
              read started
              (recovered-IsKept w.env f settings.model_name t url settings.base.mother_account_id
                held read sound quiet blocks))
      ]
