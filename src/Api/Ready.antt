-- ===== src/Api/Ready.antt =====
-- The ready handler, from the look-up of the host to the answer.
use blitzwing.Base.{
  ◌≡◌, refl, false, inl, inr, Option, none, some, ◌++◌, arith, Bool-cases, Option-cases,
  if◌then◌else◌,
}
use blitzwing.Base.Text.{Text, is_empty}
use blitzwing.Base.Dict.{lookup}
use blitzwing.Base.Exec.{Result, ok, err, runtime_error, ens_error, other_error, ◌>>=◌}
use blitzwing.Registry.Host.{HostRecord, SwarmRegistry, is_online, get_host}
use blitzwing.Registry.Ready.{assigned_range}
use blitzwing.Registry.Reach.{Sound, Reach-Sound, here, next, gives_up}
use blitzwing.Registry.Leave.{leave}
use blitzwing.Peer.{contributor_precheck_passed}
use blitzwing.Ens.Passes.{sync_host_ens_after_ready}
use blitzwing.Api.{
  ApiSettings, Mother, World, Handler, registry_of, with_registry, on_registry, on_ens,
}
use blitzwing.Api.Hosts.{
  ReadyRequest, contributor_peer, inject_peer, get_donor, keep_name, named_host, after_sync,
  sync_ens, ready_ens, accept, hand_off, ready_host, ready_reply, release, hosts_ready,
}
use blitzwing.Api.Kept.{
  named-Sound, is_runtime, sync_host_ens_after_ready-Sound, sync_host_ens_after_ready_error,
}
use blitzwing.Api.Safe.{is_release, Waits, Safe, bind, either, calm, accept-Safe}

module _ (settings : ApiSettings) (w : World) (i : Text) where
  registry-get_host : (j : Text) (r : SwarmRegistry) → (get_host j r).1 ≡ r
  unfolding get_host
  registry-get_host j r = ground arith

  get_host_error : (j : Text) (r : SwarmRegistry) → is_release (get_host j r).0 ≡ false
  unfolding get_host
  get_host_error j r = ground arith

  get_host-Safe :
      (j : Text) (m : Mother) → Sound (registry_of m) → Safe i (on_registry (get_host j) m)
  get_host-Safe j m s =
      calm i (on_registry (get_host j) m) (rw (registry-get_host j (registry_of m)) s)
        (get_host_error j (registry_of m))

  get_donor-Safe :
      (donor_id : Option Text) (m : Mother) → Sound (registry_of m) → Safe i (get_donor donor_id m)
  unfolding get_donor
  get_donor-Safe none m s = calm i (ok none, m) s refl
  get_donor-Safe (some j) m s = elim (Bool-cases (is_empty j)) [
    | inl empty ↦ rw (empty, get_donor) (calm i (ok none, m) s refl)
    | inr given ↦
        rw (given, get_donor)
          (bind i (on_registry (get_host j)) (λ donor m'. (ok (some donor), m')) m
            (get_host-Safe j m s)
            (λ donor found.
              calm i (ok (some donor), (on_registry (get_host j) m).1) (get_host-Safe j m s).sound
                refl))
  ]

  keep_name-Sound : (name : Text) (r : SwarmRegistry) → Sound r → Sound (keep_name i name r)
  unfolding keep_name
  keep_name-Sound name r s = elim (Bool-cases (is_empty name)) [
    | inl empty ↦ rw (empty, keep_name) s
    | inr given ↦ rw (given, keep_name) (named-Sound i name r s)
  ]

  named_host-Safe :
      (name : Text) (m : Mother) → Sound (registry_of m) → Safe i (named_host i name m)
  unfolding named_host
  named_host-Safe name m s =
      let set : Mother → Mother = λ m'. with_registry (keep_name i name (registry_of m')) m' in
      let read : Handler HostRecord = on_registry (get_host i) in
      let s1 = (get_host-Safe i m s).sound in
      bind i read (λ h m'. read (set m')) m (get_host-Safe i m s)
        (λ h found.
          get_host-Safe i (set (read m).1) (keep_name-Sound name (registry_of (read m).1) s1))

  after_sync-Safe :
      (host : HostRecord) (res : Result Text) (m : Mother)
      → is_runtime res ≡ false
      → Sound (registry_of m)
      → Safe i (after_sync settings i host res m)
  unfolding after_sync
  after_sync-Safe host (ok name) m e s = named_host-Safe name m s
  after_sync-Safe host (err runtime_error) m e s = cc
  after_sync-Safe host (err ens_error) m e s = elim (Bool-cases settings.base.ens_strict) [
    | inl strict ↦ rw (strict, after_sync) (calm i (err other_error, m) s refl)
    | inr lax ↦ elim (Option-cases (lookup i (registry_of m).hosts)) [
      | inl gone ↦ rw (lax, gone, after_sync) (calm i (ok host, m) s refl)
      | inr (h, found) ↦ rw (lax, found, after_sync) (calm i (ok h, m) s refl)
    ]
  ]
  after_sync-Safe host (err x) m e s = calm i (err x, m) s refl

  sync_ens-Safe :
      (host : HostRecord) (donor : Option HostRecord) (m : Mother)
      → Sound (registry_of m)
      → Safe i (sync_ens settings w host donor i m)
  unfolding sync_ens
  sync_ens-Safe host donor m s =
      after_sync-Safe host
        (sync_host_ens_after_ready w.env settings.base w.service host donor m.ens).0
        (on_ens (sync_host_ens_after_ready w.env settings.base w.service host donor) m).1
        (sync_host_ens_after_ready_error w.env settings.base w.service host donor m.ens)
        (sync_host_ens_after_ready-Sound w.env settings.base w.service host donor m.ens s)

  ready_ens-Safe :
      (donor_id : Option Text) (host : HostRecord) (m : Mother)
      → Sound (registry_of m)
      → Safe i (ready_ens settings w i donor_id host m)
  unfolding ready_ens
  ready_ens-Safe donor_id host m s =
      let sync : Handler HostRecord =
        get_donor donor_id >>= λ donor. sync_ens settings w host donor i in
      either i settings.base.ens_enabled sync (λ m'. (ok host, m')) m
        (bind i (get_donor donor_id) (λ donor. sync_ens settings w host donor i) m
          (get_donor-Safe donor_id m s)
          (λ donor found.
            sync_ens-Safe host donor (get_donor donor_id m).1 (get_donor-Safe donor_id m s).sound))
        (calm i (ok host, m) s refl)

  registry-inject_peer :
      (peer : Option Text) (m : Mother) → registry_of (inject_peer peer m) ≡ registry_of m
  unfolding inject_peer
  registry-inject_peer peer m = ground arith

  hand_off-Safe :
      (peer : Option Text) (waiting : HostRecord) (m : Mother)
      → Sound (registry_of m)
      → Waits i (registry_of m)
      → Safe i (hand_off settings w (record { host_id = i; peer_multiaddr = peer }) waiting m)
  unfolding hand_off
  hand_off-Safe peer waiting m s h =
      let given = contributor_peer settings (registry_of m) peer in
      let fast_path =
        contributor_precheck_passed w.reach waiting.shard_manager_url (assigned_range waiting) given
          (settings.initial_peers ++ (registry_of m).bootstrap_peers) in
      let m1 = inject_peer given m in
      let same = registry-inject_peer given m in
      let accepted = accept-Safe settings w i waiting given fast_path m1 (rw same s) (rw same h) in
      bind i (accept settings w i waiting given fast_path)
        (λ host. ready_ens settings w i waiting.donor_host_id host) m1 accepted
        (λ host done.
          ready_ens-Safe waiting.donor_host_id host
            (accept settings w i waiting given fast_path m1).1 accepted.sound)

  got-Waits :
      (waiting : HostRecord) (r : SwarmRegistry)
      → Sound r
      → (get_host i r).0 ≡ ok waiting
      → is_online waiting ≡ false
      → Waits i (get_host i r).1
  unfolding get_host
  got-Waits waiting r s e down =
      let found : lookup i r.hosts ≡ some waiting = ground arith in
      let live = (s.hosts i waiting found).live in
      rw (registry-get_host i r) (waiting, found, ground arith)

  ready_host-Safe :
      (peer : Option Text) (m : Mother)
      → Sound (registry_of m)
      → Safe i (ready_host settings w (record { host_id = i; peer_multiaddr = peer }) m)
  unfolding ready_host
  ready_host-Safe peer m s =
      let body : ReadyRequest = record { host_id = i; peer_multiaddr = peer } in
      let found = get_host-Safe i m s in
      let m1 = (on_registry (get_host i) m).1 in
      let rest : HostRecord → Handler HostRecord = λ waiting.
        if is_online waiting then (λ m'. (ok waiting, m')) else hand_off settings w body waiting in
      bind i (on_registry (get_host i)) rest m found (λ waiting e.
        elim (Bool-cases (is_online waiting)) [
          | inl up ↦ rw up (calm i (ok waiting, m1) found.sound refl)
          | inr down ↦ rw down (
              hand_off-Safe peer waiting m1 found.sound
                (got-Waits waiting (registry_of m) s e down))
        ])

  released-Sound : (r : SwarmRegistry) → Sound r → Waits i r → Sound (leave w.env i r).1
  released-Sound r s (h, found, waiting) =
      (Reach-Sound (next here (gives_up w.env i h found waiting)) s).1

  ready_reply-Sound :
      (res : Result HostRecord) (m : Mother)
      → Safe i (res, m)
      → Sound (registry_of (ready_reply w i res m).1)
  unfolding ready_reply release
  ready_reply-Sound (ok h) m s = s.sound
  ready_reply-Sound (err runtime_error) m s = released-Sound (registry_of m) s.sound (s.waits refl)
  ready_reply-Sound (err ens_error) m s = released-Sound (registry_of m) s.sound (s.waits refl)
  ready_reply-Sound (err x) m s = s.sound

-- From a sound registry, the ready handler leaves a sound registry on every path: already online,
-- checks passed, skipped or failed, any error of the reloads, of the registry or of the ENS service,
-- and the release of a host that the handler gives up.
pub hosts_ready-Sound :
    (settings : ApiSettings) (w : World) (body : ReadyRequest) (m : Mother)
    → Sound (registry_of m)
    → Sound (registry_of (hosts_ready settings w body m).1)
unfolding hosts_ready
hosts_ready-Sound settings w body m s =
    ready_reply-Sound settings w body.host_id (ready_host settings w body m).0
      (ready_host settings w body m).1
      (ready_host-Safe settings w body.host_id body.peer_multiaddr m s)
