-- ===== src/Api/Probed.antt =====
-- The registry under the probes of the shard managers that a manifest and a chat make.
use blitzwing.Base.{
  ◌≡◌, refl, ◌∙◌, Bool, true, false, inl, inr, Option, some, List, [], ◌∷◌, arith, Bool-cases,
  Option-cases,
}
use blitzwing.Base.Text.{Text, or_empty, text_eq}
use blitzwing.Base.Dict.{lookup, modify, values, lookup-modify, modify_congr}
use blitzwing.Base.Exec.{ok, ◌>>=◌, Result-cases}
use blitzwing.Registry.Range.{Range, parse_range}
use blitzwing.Registry.Host.{HostRecord, SwarmRegistry, Env, is_online, keep, set_range}
use blitzwing.Registry.Sound.Stays.{Same, modify-IsSound, recount, recount-Same}
use blitzwing.Registry.Sound.Donor.{In, In-keep, In-values}
use blitzwing.Api.Reported.{persist-Sound}
use blitzwing.Registry.Reach.{Sound}
use blitzwing.Swarm.Live.{
  ShardStatus, set_running, drifts, reconcile, probe_each, save_drift, refresh_live_status,
}

-- The answers of the probes name the blocks that the registry holds, or none that parse.
abbrev pub Honest : (Text → Option ShardStatus) → SwarmRegistry → Type 0
Honest probe r =
    (h : HostRecord) (status : ShardStatus) (b : Range)
    → lookup h.host_id r.hosts ≡ some h
    → probe h.shard_manager_url ≡ some status
    → parse_range (or_empty status.block_indices) ≡ ok b
    → b ≡ h.block_indices

set_running-Same : (b : Bool) (h : HostRecord) → Same (set_running b h) h
set_running-Same b h = record {
  host_id = refl;
  role = refl;
  blocks = refl;
  status = refl;
  pending_range = refl;
  donor = refl;
  shrink = refl;
}

-- The host is still there, with the blocks that it had.
abbrev Holds : SwarmRegistry → HostRecord → Type 0
Holds r h =
    (x : HostRecord) × (lookup h.host_id r.hosts ≡ some x) × (x.block_indices ≡ h.block_indices)

modify-Holds :
    (i : Text) (f : HostRecord → HostRecord) (r : SwarmRegistry) (h : HostRecord)
    → ((x : HostRecord) → (f x).block_indices ≡ x.block_indices)
    → Holds r h
    → Holds (record r { hosts = modify i f r.hosts }) h
modify-Holds i f r h same (x, found, blocks) = elim (Bool-cases (text_eq h.host_id i)) [
  | inl hit ↦ (f x, lookup-modify i h.host_id f r.hosts ∙ rw (hit, found), same x ∙ blocks)
  | inr miss ↦ (x, lookup-modify i h.host_id f r.hosts ∙ rw (miss, found), blocks)
]

modify-Sound :
    (i : Text) (f : HostRecord → HostRecord) (r : SwarmRegistry)
    → ((x : HostRecord) → Same (f x) x)
    → Sound r
    → Sound (record r { hosts = modify i f r.hosts })
modify-Sound i f r same s =
    modify-IsSound r.total_layers i f r.hosts (λ x. (same x).host_id) (λ x live. same x) s

-- A registry that is sound, with these hosts there.
abbrev Kept : List HostRecord → SwarmRegistry → Type 0
Kept hs r = Sound r × ((h : HostRecord) → In h hs → Holds r h)

modify-Kept :
    (i : Text) (f : HostRecord → HostRecord) (hs : List HostRecord) (r : SwarmRegistry)
    → ((x : HostRecord) → Same (f x) x)
    → Kept hs r
    → Kept hs (record r { hosts = modify i f r.hosts })
modify-Kept i f hs r same (s, there) = (
  modify-Sound i f r same s,
  (λ h i_h. modify-Holds i f r h (λ x. (same x).blocks) (there h i_h)),
)

reconcile-Kept :
    (h : HostRecord) (status : ShardStatus) (hs : List HostRecord) (r : SwarmRegistry)
    → Holds r h
    → ((b : Range) → parse_range (or_empty status.block_indices) ≡ ok b → b ≡ h.block_indices)
    → Kept hs r
    → Kept hs (reconcile h status r).1
unfolding reconcile
reconcile-Kept h status hs r (x, found, blocks) honest kept =
    elim (Bool-cases (drifts status.block_indices h.block_indices)) [
      | inr agrees ↦
          rw (reconcile, agrees)
            (modify-Kept h.host_id (set_running status.running) hs r
              (set_running-Same status.running) kept)
      | inl differs ↦ elim (Result-cases (parse_range (or_empty status.block_indices))) [
        | inl (e, bad) ↦ rw (reconcile, differs, bad) kept
        | inr (b, good) ↦
            let same : set_range b x ≡ recount b x = ground (arith, honest b good) in
            let counted : SwarmRegistry = record r {
              hosts = modify h.host_id (recount b) r.hosts;
            } in
            rw
              (
                reconcile,
                differs,
                good,
                modify_congr h.host_id (set_range b) (recount b) x r.hosts found same,
              )
              (modify-Kept h.host_id (set_running status.running) hs counted
                (set_running-Same status.running)
                (modify-Kept h.host_id (recount b) hs r (recount-Same b) kept))
      ]
    ]

-- The answers for the hosts of the list name the blocks that these have.
abbrev Truthful : (Text → Option ShardStatus) → List HostRecord → Type 0
Truthful probe hs =
    (h : HostRecord) (status : ShardStatus) (b : Range)
    → In h hs
    → probe h.shard_manager_url ≡ some status
    → parse_range (or_empty status.block_indices) ≡ ok b
    → b ≡ h.block_indices

probe_each-Sound :
    (probe : Text → Option ShardStatus) (hs : List HostRecord) (r : SwarmRegistry)
    → Truthful probe hs
    → Kept hs r
    → Sound (probe_each probe hs r).1
unfolding probe_each
probe_each-Sound probe [] r honest kept = kept.0
probe_each-Sound probe (h ∷ hs) r honest (s, there) =
    let later : Kept hs r = (s, λ x i. there x (inr i)) in
    let rest_honest : Truthful probe hs = λ x status b i. honest x status b (inr i) in
    elim (Option-cases (probe h.shard_manager_url)) [
      | inl silent ↦ rw (probe_each, silent) (probe_each-Sound probe hs r rest_honest later)
      | inr (status, answered) ↦
          let kept : Kept hs (reconcile h status r).1 =
            reconcile-Kept h status hs r (there h (inl refl))
              (λ b. honest h status b (inl refl) answered) later in
          let next = (reconcile h status r).1 in
          elim (Result-cases (reconcile h status r).0) [
            | inl (e, failed) ↦ rw (probe_each, answered, ◌>>=◌, failed) kept.0
            | inr (drifted, done) ↦
                let rest = probe_each-Sound probe hs next rest_honest kept in
                elim (Result-cases (probe_each probe hs next).0) [
                  | inl (e, failed) ↦ rw (probe_each, answered, ◌>>=◌, done, failed) rest
                  | inr (b, passed) ↦ rw (probe_each, answered, ◌>>=◌, done, passed) rest
                ]
          ]
    ]

save_drift-Sound :
    (env : Env) (drifted : Bool) (r : SwarmRegistry) → Sound r → Sound (save_drift env drifted r).1
unfolding save_drift
save_drift-Sound env true r s = persist-Sound env r s
save_drift-Sound env false r s = s

-- Probes that confirm the blocks leave a sound registry, also when a text does not parse.
pub refresh_live_status-Sound :
    (env : Env) (probe : Text → Option ShardStatus) (r : SwarmRegistry)
    → Honest probe r
    → Sound r
    → Sound (refresh_live_status env probe r).1
unfolding refresh_live_status
refresh_live_status-Sound env probe r honest s =
    let hs = keep is_online (values r.hosts) in
    let there : (h : HostRecord) → In h hs → lookup h.host_id r.hosts ≡ some h =
      λ h i. In-values h r.hosts s.keyed (In-keep is_online h (values r.hosts) i).1 in
    let probed : Sound (probe_each probe hs r).1 =
      probe_each-Sound probe hs r (λ h status b i. honest h status b (there h i))
        (s, λ h i. (h, there h i, refl)) in
    elim (Result-cases (probe_each probe hs r).0) [
      | inl (e, failed) ↦ rw (refresh_live_status, ◌>>=◌, failed) probed
      | inr (drifted, done) ↦
          rw (refresh_live_status, ◌>>=◌, done)
            (save_drift-Sound env drifted (probe_each probe hs r).1 probed)
    ]
