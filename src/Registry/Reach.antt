-- ===== src/Registry/Reach.antt =====
-- The registry as a transition system: joins, ready calls, heartbeats, departures and rounds of the
-- reapers, in any order and each with whatever environment; a departure of an online host waits for
-- a time when no host is pending. A ready call is one step.
use mathlib.Core.Path.{subst}
use blitzwing.Base.{
  ℕ, ◌≡◌, refl, ◌∙◌, sym, Option, none, some, [], ◌∷◌, ◌&&◌, arith, inl, inr, if◌then◌else◌, true,
  false,
}
use blitzwing.Base.Int.{ℤ, pos, ◌<ℤ◌, ltb_ℤ, leb_ℤ}
use blitzwing.Base.Text.{Text, is_empty, text_eq_iff, text_eq_refl}
use blitzwing.Base.Dict.{lookup}
use blitzwing.Base.Exec.{ok, Result-cases}
use blitzwing.Registry.Host.{
  HostRecord, SwarmRegistry, Saved, Env, is_mother, mother, online, pending, heartbeat, init,
  mother_wallet, mother_record, mother_id,
}
use blitzwing.Registry.Cover.{contrib, cover}
use blitzwing.Registry.Join.{JoinRequest, join}
use blitzwing.Registry.Ready.{ReadyPlan, ready_begin, ready_commit, mark_ready}
use blitzwing.Registry.Leave.{leave, reap_stale, reap_stale_pending}
use blitzwing.Registry.Sound.{IsSound, IsHost}
use blitzwing.Registry.Sound.Beats.{heartbeat-IsSound, total-persist}
use blitzwing.Registry.Sound.Join.{join_cases}
use blitzwing.Registry.Range.{Range, range}
use blitzwing.Registry.Sound.Reserve.{join-IsSound}
use blitzwing.Registry.Sound.Ready.{mark_ready-IsSound}
use blitzwing.Registry.Sound.Leave.{leave_pending-IsSound, total-leave_pending}
use blitzwing.Registry.Sound.Reap.{reap_stale_pending-IsSound}
use blitzwing.Registry.Sound.Total.{total-reap_stale, total-reap_stale_pending}
use blitzwing.Registry.Reclaim.Kept.Depart.{NonePending}
use blitzwing.Registry.Reclaim.Kept.Silent.{CanReap, leave_online-IsQuiet, reap_stale-IsSound}

pub data Step (r : SwarmRegistry) : SwarmRegistry → Type 0 where
  joins :
      (env : Env) (req : JoinRequest)
      → lookup env.new_id r.hosts ≡ none
      → is_empty env.new_id ≡ false
      → Step r (join env req r).1
  readies :
      (env : Env) (host_id : Text) (peer : Option Text) → Step r (mark_ready env host_id peer r).1
  beats : (env : Env) (host_id : Text) → Step r (heartbeat env host_id r).1
  gives_up :
      (env : Env) (host_id : Text) (h : HostRecord)
      → lookup host_id r.hosts ≡ some h
      → h.status ≡ pending
      → Step r (leave env host_id r).1
  departs :
      (env : Env) (host_id : Text) (h : HostRecord)
      → lookup host_id r.hosts ≡ some h
      → h.status ≡ online
      → is_mother h ≡ false
      → NonePending r.hosts
      → ((url : Text) (new : Range) → env.reload url new ≡ true)
      → Step r (leave env host_id r).1
  reaps :
      (env : Env) (pending_ttl heartbeat_ttl : ℕ)
      → CanReap env heartbeat_ttl (reap_stale_pending env pending_ttl r).1
      → Step r (reap_stale env heartbeat_ttl (reap_stale_pending env pending_ttl r).1).1

pub data Reach (r : SwarmRegistry) : SwarmRegistry → Type 0 where
  here : Reach r r
  next : {s t : SwarmRegistry} → Reach r s → Step s t → Reach r t

abbrev pub Sound : SwarmRegistry → Type 0
Sound r = IsSound r.total_layers r.hosts

total-ready_begin :
    (i : Text) (peer : Option Text) (r : SwarmRegistry)
    → (ready_begin i peer r).1.total_layers ≡ r.total_layers
unfolding ready_begin
total-ready_begin i peer r = ground arith

total-ready_commit :
    (env : Env) (i : Text) (peer : Option Text) (plan : ReadyPlan) (r : SwarmRegistry)
    → (ready_commit env i peer plan r).1.total_layers ≡ r.total_layers
unfolding ready_commit
total-ready_commit env i peer plan r = ground arith

total-mark_ready :
    (env : Env) (i : Text) (peer : Option Text) (r : SwarmRegistry)
    → (mark_ready env i peer r).1.total_layers ≡ r.total_layers
unfolding mark_ready
total-mark_ready env i peer r = grind (arith, total-ready_begin, total-ready_commit)

total-heartbeat :
    (env : Env) (i : Text) (r : SwarmRegistry) → (heartbeat env i r).1.total_layers ≡ r.total_layers
unfolding heartbeat
total-heartbeat env i r = ground arith

total-join :
    (env : Env) (req : JoinRequest) (r : SwarmRegistry)
    → (join env req r).1.total_layers ≡ r.total_layers
total-join env req r = elim (join_cases env req r) [
  | inl same ↦ rw same
  | inr (wallet, donor, j) ↦ rw (j.after, total-persist env _)
]

-- One step keeps the layer count and the registry sound.
Step-Sound :
    {r s : SwarmRegistry} → Step r s → Sound r → (s.total_layers ≡ r.total_layers) × Sound s
Step-Sound {r} (joins env req fresh named) h =
    (total-join env req r, rw (total-join env req r) (join-IsSound env req r fresh named h))
Step-Sound {r} (readies env i peer) h = (
  total-mark_ready env i peer r,
  rw (total-mark_ready env i peer r) (mark_ready-IsSound env i peer r h),
)
Step-Sound {r} (beats env i) h =
    (total-heartbeat env i r, rw (total-heartbeat env i r) (heartbeat-IsSound env i r h))
Step-Sound {r} (gives_up env i x e w) h =
    let total = total-leave_pending env i x r e w h in
    (total, rw total (leave_pending-IsSound env i x r e w h))
Step-Sound {r} (departs env i x e up other quiet passes) h =
    let (q, total) =
      leave_online-IsQuiet env r i x e up other passes (record { sound = h; quiet = quiet }) in
    (total, q.sound)
Step-Sound {r} (reaps env pending_ttl heartbeat_ttl can) h =
    let swept = (reap_stale_pending env pending_ttl r).1 in
    let total = total-reap_stale env heartbeat_ttl swept in
    (
      total ∙ total-reap_stale_pending env pending_ttl r,
      rw total (
          reap_stale-IsSound env heartbeat_ttl swept can
            (reap_stale_pending-IsSound env pending_ttl r h)),
    )

pub Reach-Sound :
    {r s : SwarmRegistry} → Reach r s → Sound r → (s.total_layers ≡ r.total_layers) × Sound s
Reach-Sound here h = (refl, h)
Reach-Sound (next p st) h =
    let (total, mid) = Reach-Sound p h in
    let (total', last) = Step-Sound st mid in (total' ∙ total, last)

-- The only host of a fresh registry.
pub init-one :
    (env : Env) (saved : Option Saved) (model : Text) (total_layers : ℤ) (url : Text)
    (account : Option Text) {r : SwarmRegistry}
    → init env saved model total_layers url account ≡ ok r
    → (m : HostRecord) × (r.total_layers ≡ total_layers)
      × (r.hosts ≡ (mother_id, m) ∷ [])
      × (m.status ≡ online)
      × (m.role ≡ mother)
      × (m.host_id ≡ mother_id)
      × (m.block_indices ≡ range (pos 0) total_layers)
unfolding init
init-one env saved model total_layers url account {r} e =
    elim (Result-cases (mother_wallet account)) [
      | inl (x, bad) ↦ absurd (ground arith)
      | inr (w, good) ↦ (
        mother_record env.now model total_layers url w,
        ground arith,
        ground arith,
        refl,
        refl,
        refl,
        refl,
      )
    ]

only_host :
    (j : Text) (h m : HostRecord)
    → lookup j ((mother_id, m) ∷ []) ≡ some h
    → (j ≡ mother_id) × (h ≡ m)
unfolding lookup
only_host j h m e = ground (arith, text_eq_iff j mother_id)

-- One online host with all the layers.
pub one-IsSound :
    (t : ℤ) (m : HostRecord)
    → pos 0 <ℤ t
    → m.status ≡ online
    → m.role ≡ mother
    → m.host_id ≡ mother_id
    → m.block_indices ≡ range (pos 0) t
    → IsSound t ((mother_id, m) ∷ [])
unfolding lookup cover contrib
one-IsSound t m some_layers up role own blocks = record {
  keyed = (own, refl, refl, tt);
  exact = λ k. rw (up, blocks) (ground arith);
  hosts = λ j h e.
      subst IsHost (sym (only_host j h m e).1)
        (record { nonempty = rw blocks some_layers; live = λ q. cc });
  has_mother = (m, record { found = rw (text_eq_refl mother_id); up = up; is_role = role });
  plans = λ j h e w. absurd (ground (arith, only_host j h m e));
  single = λ i j a b ea eb wa wb. (only_host i a m ea).0 ∙ sym (only_host j b m eb).0;
}

-- A fresh registry gives every layer to the mother.
pub init-Sound :
    (env : Env) (saved : Option Saved) (model : Text) (total_layers : ℤ) (url : Text)
    (account : Option Text) {r : SwarmRegistry}
    → pos 0 <ℤ total_layers
    → init env saved model total_layers url account ≡ ok r
    → Sound r × (r.total_layers ≡ total_layers)
init-Sound env saved model total_layers url account {r} some_layers e =
    let (m, total, hosts, up, role, own, blocks) =
      init-one env saved model total_layers url account e in
    (rw (total, hosts) (one-IsSound total_layers m some_layers up role own blocks), total)

-- From a fresh registry with at least one layer, after any joins, hand-overs and heartbeats,
-- departures of pending hosts, and departures of online hosts and sweeps of silent ones at times when
-- no host is pending and the shard managers take the reloads, in any order, the layer count is as
-- configured, and a layer is held by exactly one online host if it is one of the model's, and by
-- none if it is not.
pub every_layer_has_one_host :
    (env : Env) (saved : Option Saved) (model : Text) (total_layers : ℤ) (url : Text)
    (account : Option Text) {r s : SwarmRegistry}
    → pos 0 <ℤ total_layers
    → init env saved model total_layers url account ≡ ok r
    → Reach r s
    → (k : ℤ)
    → (s.total_layers ≡ total_layers)
      × (cover k s.hosts ≡ (if leb_ℤ (pos 0) k && ltb_ℤ k total_layers then 1 else 0))
every_layer_has_one_host env saved model total_layers url account some_layers e p k =
    let (fresh, total) = init-Sound env saved model total_layers url account some_layers e in
    let (same, sound) = Reach-Sound p fresh in (same ∙ total, rw (same ∙ total) at (sound.exact k))
