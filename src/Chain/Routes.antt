-- ===== src/Chain/Routes.antt =====
-- The hosts that a step asks: whose URLs are refused, and what the others answer.
use blitzwing.Base.{
  ◌≡◌, refl, ap, Bool, true, false, ◌&&◌, inl, inr, some, List, [], ◌∷◌, arith, Bool-cases,
}
use blitzwing.Base.Text.{Text, codes, is_empty, or_empty, strip, rstrip_slash}
use blitzwing.Base.Exec.{Error, Result, ok, err, runtime_error, Result-cases}
use blitzwing.Base.{◌⊎◌, ◌++◌, not, if◌then◌else◌}
use blitzwing.Registry.Host.{Role, mother, contributor}
use blitzwing.Registry.Range.{Range}
use blitzwing.Chain.Hosts.{
  ChainEnv, ChainHost, Hop, first_set, is_reachable_mother_url, is_public_http_url,
  mother_entry_url, resolve_mother_shard_url, host_http_url,
}
use blitzwing.Chain.Forward.{
  Model, forward_tail, forward_prefix, Remote, remote_prefix, remote_continue, run_middle,
  then_middle, chain_hidden,
}

abbrev is_ok : Result Text → Bool
is_ok (ok url) = true
is_ok (err e) = false

abbrev Fails : Result Text → Type 0
Fails r = (e : Error) → r ≡ err e → e ≡ runtime_error

fails : Fails (err runtime_error)
fails e h = ground arith

Fails-ok : (url : Text) → Fails (ok url)
Fails-ok url e h = cc h

Fails-if : (c : Bool) (url : Text) (s : Result Text) → Fails s → Fails (if c then ok url else s)
Fails-if true url s f = Fails-ok url
Fails-if false url s f = f

Fails-guard : (c : Bool) (url : Text) → Fails (if c then err runtime_error else ok url)
Fails-guard true url = fails
Fails-guard false url = Fails-ok url

Role-cases : (role : Role) → (role ≡ mother) ⊎ (role ≡ contributor)
Role-cases mother = inl refl
Role-cases contributor = inr refl

Fails-mother_entry_url : (hosts : List ChainHost) → Fails (mother_entry_url hosts)
unfolding mother_entry_url
Fails-mother_entry_url [] = fails
Fails-mother_entry_url (x ∷ hosts) =
    let rest = Fails-mother_entry_url hosts in
    let url = rstrip_slash (or_empty x.shard_manager_url) in
    let ip = or_empty x.public_ip in
    let behind =
      if not (is_empty ip)
      then ok (codes "http://" ++ (ip ++ codes ":8000"))
      else mother_entry_url hosts in
    elim (Role-cases x.role) [
      | inl is_mother ↦
          rw (mother_entry_url, is_mother)
            (Fails-if (is_reachable_mother_url url) url behind (
              Fails-if (not (is_empty ip)) (codes "http://" ++ (ip ++ codes ":8000"))
                (mother_entry_url hosts) rest))
      | inr other ↦ rw (mother_entry_url, other) rest
    ]

Fails-resolve_mother_shard_url :
    (env : ChainEnv) (hosts : List ChainHost) → Fails (resolve_mother_shard_url env hosts)
unfolding resolve_mother_shard_url
Fails-resolve_mother_shard_url env hosts =
    let override = rstrip_slash (strip (or_empty env.mother_public_shard_url)) in
    let gateway =
      rstrip_slash
        (strip (first_set env.mother_url env.blitzwing_mother_url env.mother_public_gateway_url)) in
    let behind = if not (is_empty gateway) then ok gateway else mother_entry_url hosts in
    Fails-if (not (is_empty override)) override behind (
      Fails-if (not (is_empty gateway)) gateway (mother_entry_url hosts)
        (Fails-mother_entry_url hosts))

-- A refusal is a RuntimeError.
refused_error :
    (env : ChainEnv) (hosts : List ChainHost) (h : Hop) → Fails (host_http_url env hosts h)
unfolding host_http_url
refused_error env hosts h =
    let url = rstrip_slash (or_empty h.shard_manager_url) in
    elim (Role-cases h.role) [
      | inl is_mother ↦ rw (host_http_url, is_mother) (Fails-resolve_mother_shard_url env hosts)
      | inr other ↦ rw (host_http_url, other) (Fails-guard (not (is_public_http_url url)) url)
    ]

module _ (env : ChainEnv) (manifest : List ChainHost) where
  abbrev pub has_url : Hop → Bool
  unfolding host_http_url
  has_url h = is_ok (host_http_url env manifest h)

  -- `host_http_url` refuses none of the hosts.
  unfoldable pub all_routed : List Hop → Bool
  unfolding has_url
  all_routed [] = true
  all_routed (h ∷ hs) = has_url h && all_routed hs

  -- Under its URL, if it has one, a host answers with its own layers of the model.
  pub record IsFaithful (m : Model) (net : Remote m) (h : Hop) : Type 0 where
    pub prefix :
        (url : Text) (ids : m.Ids)
        → host_http_url env manifest h ≡ ok url
        → net.prefix url ids ≡ some (forward_prefix m h.blocks ids)
    pub continues :
        (url : Text) (x : m.Hidden)
        → host_http_url env manifest h ≡ ok url
        → net.continues url x ≡ some (forward_tail m h.blocks x)

  abbrev pub AllFaithful : (m : Model) → Remote m → List Hop → Type 0
  AllFaithful m net [] = Unit {0}
  AllFaithful m net (h ∷ hs) = IsFaithful m net h × AllFaithful m net hs

  module _ (m : Model) (net : Remote m) (h : Hop) (faithful : IsFaithful m net h) where
    pub prefix_runs :
        (ids : m.Ids)
        → has_url h ≡ true
        → remote_prefix m env manifest net h ids ≡ ok (forward_prefix m h.blocks ids)
    unfolding remote_prefix has_url
    prefix_runs ids routed = elim (Result-cases (host_http_url env manifest h)) [
      | inl (e, refused) ↦ absurd (let e' = rw refused at routed in cc e')
      | inr (url, found) ↦ rw (remote_prefix, found, faithful.prefix url ids found) refl
    ]

    pub continue_runs :
        (x : m.Hidden)
        → has_url h ≡ true
        → remote_continue m env manifest net h x ≡ ok (forward_tail m h.blocks x)
    unfolding remote_continue has_url
    continue_runs x routed = elim (Result-cases (host_http_url env manifest h)) [
      | inl (e, refused) ↦ absurd (let e' = rw refused at routed in cc e')
      | inr (url, found) ↦ rw (remote_continue, found, faithful.continues url x found) refl
    ]

  module _ (m : Model) (net : Remote m) (h : Hop) where
    pub prefix_refused :
        (ids : m.Ids)
        → has_url h ≡ false
        → remote_prefix m env manifest net h ids ≡ err runtime_error
    unfolding remote_prefix has_url
    prefix_refused ids unrouted = elim (Result-cases (host_http_url env manifest h)) [
      | inl (e, refused) ↦
          rw (remote_prefix, refused)
            (ap (λ (x : Error). err x) (refused_error env manifest h e refused))
      | inr (url, found) ↦ absurd (let e' = rw found at unrouted in cc e')
    ]

    pub continue_refused :
        (x : m.Hidden)
        → has_url h ≡ false
        → remote_continue m env manifest net h x ≡ err runtime_error
    unfolding remote_continue has_url
    continue_refused x unrouted = elim (Result-cases (host_http_url env manifest h)) [
      | inl (e, refused) ↦
          rw (remote_continue, refused)
            (ap (λ (x : Error). err x) (refused_error env manifest h e refused))
      | inr (url, found) ↦ absurd (let e' = rw found at unrouted in cc e')
    ]

  module _ (m : Model) (net : Remote m) where
    pub middle_refused :
        (hs : List Hop) (x : m.Hidden)
        → AllFaithful m net hs
        → all_routed hs ≡ false
        → run_middle m env manifest net hs x ≡ err runtime_error
    unfolding run_middle all_routed
    middle_refused [] x faithful unrouted = absurd (ground arith)
    middle_refused (h ∷ hs) x faithful unrouted = elim (Bool-cases (has_url h)) [
      | inr refused ↦ rw (run_middle, continue_refused m net h x refused) refl
      | inl routed ↦
          rw (run_middle, continue_runs m net h faithful.0 x routed)
            (middle_refused hs (forward_tail m h.blocks x) faithful.1 (ground arith))
    ]

    -- The same if the first host is the one.
    pub chain_refused :
        (local : Range) (upstream : List Hop) (ids : m.Ids)
        → AllFaithful m net upstream
        → all_routed upstream ≡ false
        → chain_hidden m env manifest net local upstream ids ≡ err runtime_error
    unfolding chain_hidden then_middle all_routed
    chain_refused local [] ids faithful unrouted = absurd (ground arith)
    chain_refused local (h ∷ hs) ids faithful unrouted = elim (Bool-cases (has_url h)) [
      | inr refused ↦ rw (chain_hidden, prefix_refused m net h ids refused) refl
      | inl routed ↦
          rw
            (
              chain_hidden,
              prefix_runs m net h faithful.0 ids routed,
              middle_refused hs (forward_prefix m h.blocks ids) faithful.1 (ground arith),
            )
            refl
    ]

  pub routed_parts :
      (h : Hop) (hs : List Hop)
      → all_routed (h ∷ hs) ≡ true
      → (has_url h ≡ true) × (all_routed hs ≡ true)
  unfolding all_routed
  routed_parts h hs routed = elim (Bool-cases (has_url h)) [
    | inl here ↦ (here, (let e = rw here at routed in e))
    | inr refused ↦ absurd (ground arith)
  ]
