-- ===== src/Api/Started/Alone.antt =====
-- A start with no saved file: the mother is the only host and has every layer.
use blitzwing.Base.{
  ℕ, ◌≡◌, refl, sym, ap, ◌∙◌, true, inl, inr, Option, none, some, List, [], ◌∷◌, arith, Bool-cases,
  Option-cases,
}
use blitzwing.Base.Int.{ℤ, pos, ◌<ℤ◌}
use blitzwing.Base.Text.{Text, text_eq, or_empty, truthy}
use blitzwing.Base.Dict.{lookup, modify}
use blitzwing.Base.Exec.{ok, Result-cases}
use blitzwing.Registry.Range.{Range, range, parse_range}
use blitzwing.Registry.Host.{
  HostRecord, SwarmRegistry, Env, mother, online, mother_id, set_ens_name, set_bootstrap_peers,
  persist, init, init_registry, sync_mother_from_shard, name_host, set_range,
}
use blitzwing.Registry.Leave.{reap_stale, reap_stale_pending}
use blitzwing.Registry.Sound.Beats.{hosts-persist, total-persist}
use blitzwing.Registry.Reach.{Sound, init-one, one-IsSound}
use blitzwing.Engine.{PetalsEngine}
use blitzwing.Ens.{PendingOp}
use blitzwing.Swarm.Manifest.{build_manifest, is_complete}
use blitzwing.Api.{ApiSettings, Mother, World, registry_of}
use blitzwing.Api.Hosts.{reaper_round, sync_mother_shard_blocks}
use blitzwing.Api.Startup.{StartSettings, startup}
use blitzwing.Api.Served.{Served, registry-reaper_round, manifest_stays_complete}
use blitzwing.Api.Started.{startup_keeps}

record IsAlone (t : ℤ) (r : SwarmRegistry) : Type 0 where
  host : HostRecord
  only : r.hosts ≡ (mother_id, host) ∷ []
  total : r.total_layers ≡ t
  up : host.status ≡ online
  is_role : host.role ≡ mother
  own : host.host_id ≡ mother_id
  blocks : host.block_indices ≡ range (pos 0) t

-- What the mother's shard manager reports parses to the whole model, or not at all.
abbrev pub Agrees : ℤ → Option Text → Type 0
Agrees t reported = (b : Range) → parse_range (or_empty reported) ≡ ok b → b ≡ range (pos 0) t

persist-IsAlone : (t : ℤ) (env : Env) (r : SwarmRegistry) → IsAlone t r → IsAlone t (persist env r)
persist-IsAlone t env r a = record {
  host = a.host;
  only = hosts-persist env r ∙ a.only;
  total = total-persist env r ∙ a.total;
  up = a.up;
  is_role = a.is_role;
  own = a.own;
  blocks = a.blocks;
}

-- An update of one host that keeps the mother's id, role, status and blocks.
modify-IsAlone :
    (t : ℤ) (i : Text) (f : HostRecord → HostRecord) (r : SwarmRegistry)
    → ((h : HostRecord)
        → h.block_indices ≡ range (pos 0) t
        → ((f h).host_id ≡ h.host_id)
          × ((f h).role ≡ h.role)
          × ((f h).status ≡ h.status)
          × ((f h).block_indices ≡ range (pos 0) t))
    → IsAlone t r
    → IsAlone t (record r { hosts = modify i f r.hosts })
unfolding modify
modify-IsAlone t i f r same a = elim (Bool-cases (text_eq i mother_id)) [
  | inl hit ↦
      let (own, role, status, blocks) = same a.host a.blocks in
      record {
        host = f a.host;
        only = ap (modify i f) a.only ∙ rw hit;
        total = a.total;
        up = status ∙ a.up;
        is_role = role ∙ a.is_role;
        own = own ∙ a.own;
        blocks = blocks;
      }
  | inr miss ↦ record {
    host = a.host;
    only = ap (modify i f) a.only ∙ rw miss;
    total = a.total;
    up = a.up;
    is_role = a.is_role;
    own = a.own;
    blocks = a.blocks;
  }
]

set_ens_name-IsAlone :
    (t : ℤ) (env : Env) (i name : Text) (r : SwarmRegistry)
    → IsAlone t r
    → IsAlone t (set_ens_name env i name r).1
unfolding set_ens_name
set_ens_name-IsAlone t env i name r a = elim (Option-cases (lookup i r.hosts)) [
  | inl unknown ↦ rw (set_ens_name, unknown) a
  | inr (h, found) ↦
      rw (set_ens_name, found)
        (persist-IsAlone t env _
          (modify-IsAlone t i (name_host name) r (λ h whole. (refl, refl, refl, whole)) a))
]

boots-IsAlone :
    (t : ℤ) (peers : List Text) (r : SwarmRegistry)
    → IsAlone t r
    → IsAlone t (set_bootstrap_peers peers r)
unfolding set_bootstrap_peers
boots-IsAlone t peers r a = record {
  host = a.host;
  only = a.only;
  total = a.total;
  up = a.up;
  is_role = a.is_role;
  own = a.own;
  blocks = a.blocks;
}

sync_mother_from_shard-IsAlone :
    (t : ℤ) (blocks : Text) (r : SwarmRegistry)
    → Agrees t (some blocks)
    → IsAlone t r
    → IsAlone t (sync_mother_from_shard blocks r).1
unfolding sync_mother_from_shard
sync_mother_from_shard-IsAlone t blocks r agrees a =
    elim (Option-cases (lookup mother_id r.hosts)) [
      | inl unknown ↦ rw (sync_mother_from_shard, unknown) a
      | inr (m, found) ↦ elim (Result-cases (parse_range blocks)) [
        | inl (x, bad) ↦ rw (sync_mother_from_shard, found, bad) a
        | inr (b, good) ↦
            rw (sync_mother_from_shard, found, good)
              (modify-IsAlone t mother_id (set_range b) r
                (λ h whole. (refl, refl, refl, agrees b good)) a)
      ]
    ]

syncs-IsAlone :
    (t : ℤ) (reported : Option Text) (r : SwarmRegistry)
    → Agrees t reported
    → IsAlone t r
    → IsAlone t (sync_mother_shard_blocks reported r)
unfolding sync_mother_shard_blocks
syncs-IsAlone t none r agrees a = a
syncs-IsAlone t (some blocks) r agrees a = elim (Bool-cases (truthy (some blocks))) [
  | inl full ↦ rw full (sync_mother_from_shard-IsAlone t blocks r agrees a)
  | inr empty ↦ rw empty a
]

-- Neither reaper has a host to remove.
reaps-IsAlone :
    (t : ℤ) (w : World) (pending_ttl heartbeat_ttl : ℕ) (m : Mother)
    → IsAlone t (registry_of m)
    → IsAlone t (registry_of (reaper_round w pending_ttl heartbeat_ttl m))
unfolding reap_stale reap_stale_pending
reaps-IsAlone t w pending_ttl heartbeat_ttl m a =
    let first : (reap_stale_pending w.env pending_ttl (registry_of m)).1 ≡ registry_of m =
      rw (a.only) (ground (arith, a.is_role)) in
    let second : (reap_stale w.env heartbeat_ttl (registry_of m)).1 ≡ registry_of m =
      rw (a.only) (ground (arith, a.is_role)) in
    rw (registry-reaper_round w pending_ttl heartbeat_ttl m, first, second) a

read-IsAlone :
    (env : Env) (model : Text) (t : ℤ) (url : Text) (account : Option Text) {r : SwarmRegistry}
    → init_registry env none model t url account ≡ ok r
    → IsAlone t r
unfolding init_registry
read-IsAlone env model t url account {r} read =
    elim (Result-cases (init env none model t url account)) [
      | inl (x, bad) ↦ absurd (ground (arith, bad))
      | inr (r0, good) ↦
          let (m, total, only, up, role, own, blocks) =
            init-one env none model t url account good in
          let is_r : persist env r0 ≡ r = ground (arith, good) in
          rw (sym is_r) (
            persist-IsAlone t env r0 (record {
              host = m;
              only = only;
              total = total;
              up = up;
              is_role = role;
              own = own;
              blocks = blocks;
            }))
    ]

alone-Sound : (t : ℤ) (r : SwarmRegistry) → pos 0 <ℤ t → IsAlone t r → Sound r
alone-Sound t r some_layers a =
    rw (a.total, a.only) (one-IsSound t a.host some_layers a.up a.is_role a.own a.blocks)

-- An orchestrator that starts with at least one layer and no saved registry, and whose mother's shard
-- manager reports the whole model or nothing that parses, has a complete manifest after its start
-- and after any of the requests and rounds of the reaper that keep a manifest complete.
pub started_mother_serves :
    (start : StartSettings) (settings : ApiSettings) (w : World) (reported : Option Text)
    (engine : PetalsEngine) (queued : List PendingOp) {m n : Mother}
    → pos 0 <ℤ settings.base.total_layers
    → Agrees settings.base.total_layers reported
    → startup start settings w none reported engine queued ≡ ok m
    → Served settings m n
    → Sound (registry_of n) × (is_complete (build_manifest (registry_of n)) ≡ true)
unfolding startup
started_mother_serves start settings w reported engine queued {m} some_layers agrees started
      served =
    let t = settings.base.total_layers in
    elim (Result-cases (
      init_registry w.env none settings.model_name t start.mother_shard_manager_url
        settings.base.mother_account_id)) [
          | inl (x, bad) ↦ absurd (ground (arith, bad, started))
          | inr (r, read) ↦ manifest_stays_complete served (
              alone-Sound t (registry_of m) some_layers (
                startup_keeps (IsAlone t) (set_ens_name-IsAlone t) (boots-IsAlone t) start settings
                  w none reported engine queued (IsAlone t) r
                  (λ s. syncs-IsAlone t reported s agrees)
                  (reaps-IsAlone t w start.pending_ttl_seconds start.heartbeat_ttl_seconds) read
                  started
                  (read-IsAlone w.env settings.model_name t start.mother_shard_manager_url
                    settings.base.mother_account_id read)))
        ]
