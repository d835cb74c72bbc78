-- ===== src/Chain/Hosts.antt =====
-- The hosts of a chain: their URLs, their order and the check that they cover the model.
use blitzwing.Base.{
  Bool, true, false, not, ◌&&◌, ◌||◌, Option, none, some, List, [], ◌∷◌, ◌++◌, if◌then◌else◌,
}
use blitzwing.Base.Int.{ℤ, pos, leb_ℤ, eqb_ℤ}
use blitzwing.Base.Text.{Text, codes, is_empty, or_empty, starts_with, lower, strip, rstrip_slash}
use blitzwing.Base.Exec.{Result, ok, err, runtime_error}
use mathlib.Core.List.{reverse}
use blitzwing.Registry.Range.{Range}
use blitzwing.Registry.Host.{Role, mother, contributor}

-- An entry of the manifest's "hosts".
pub record ChainHost : Type 0 where
  pub host_id : Text
  pub role : Role
  pub block_indices : Option Range
  pub shard_manager_url : Option Text
  pub public_ip : Option Text

-- The environment variables that override the mother's URL, in the order in which they are read.
pub record ChainEnv : Type 0 where
  pub mother_public_shard_url : Option Text
  pub mother_url : Option Text
  pub blitzwing_mother_url : Option Text
  pub mother_public_gateway_url : Option Text

unfoldable pub is_public_http_url : Text → Bool
unfolding starts_with lower
is_public_http_url url =
    if is_empty url
    then false
    else if starts_with (lower url) (codes "http://127.")
        || starts_with (lower url) (codes "http://localhost")
    then false
    else if starts_with url (codes "http://172.") || starts_with url (codes "http://192.168.")
    then false
    else if starts_with url (codes "http://10.")
    then false
    else starts_with url (codes "http://") || starts_with url (codes "https://")

-- s.endswith(p)
unfoldable pub ends_with : Text → Text → Bool
unfolding starts_with
ends_with s p = starts_with (reverse s) (reverse p)

unfoldable pub is_reachable_mother_url : Text → Bool
unfolding is_public_http_url ends_with rstrip_slash
is_reachable_mother_url url =
    if not (is_public_http_url url)
    then false
    else if ends_with (rstrip_slash url) (codes ":8001")
    then false
    else true

abbrev trimmed : Text → Text
unfolding strip rstrip_slash
trimmed s = rstrip_slash (strip s)

abbrev pub first_set : Option Text → Option Text → Option Text → Text
first_set a b c =
    if not (is_empty (or_empty a))
    then or_empty a
    else if not (is_empty (or_empty b))
    then or_empty b
    else or_empty c

-- The mother's own entry: her URL if it can be reached, else her address on port 8000.
unfoldable pub mother_entry_url : List ChainHost → Result Text
unfolding rstrip_slash is_reachable_mother_url
mother_entry_url [] = err runtime_error
mother_entry_url (h ∷ hs) = elim h.role [
  | contributor ↦ mother_entry_url hs
  | mother ↦
      let url = rstrip_slash (or_empty h.shard_manager_url) in
      if is_reachable_mother_url url
      then ok url
      else if not (is_empty (or_empty h.public_ip))
      then ok (codes "http://" ++ (or_empty h.public_ip ++ codes ":8000"))
      else mother_entry_url hs
]

unfoldable pub resolve_mother_shard_url : ChainEnv → List ChainHost → Result Text
unfolding trimmed mother_entry_url
resolve_mother_shard_url env hosts =
    let override = trimmed (or_empty env.mother_public_shard_url) in
    let gateway =
      trimmed (first_set env.mother_url env.blitzwing_mother_url env.mother_public_gateway_url) in
    if not (is_empty override)
    then ok override
    else if not (is_empty gateway)
    then ok gateway
    else mother_entry_url hosts

-- A host with a range, as the chain uses it.
pub record Hop : Type 0 where
  pub host_id : Text
  pub role : Role
  pub blocks : Range
  pub shard_manager_url : Option Text

-- A stable sort by the start of the range; hosts with no range are left out.
unfoldable pub insert_hop : Hop → List Hop → List Hop
insert_hop x [] = x ∷ []
insert_hop x (y ∷ ys) =
    if leb_ℤ x.blocks.start y.blocks.start then x ∷ y ∷ ys else y ∷ insert_hop x ys

unfoldable pub ordered_hosts : List ChainHost → List Hop
unfolding insert_hop
ordered_hosts [] = []
ordered_hosts (h ∷ hs) = elim h.block_indices [
  | none ↦ ordered_hosts hs
  | some b ↦
      insert_hop
        (record {
          host_id = h.host_id;
          role = h.role;
          blocks = b;
          shard_manager_url = h.shard_manager_url;
        })
        (ordered_hosts hs)
]

-- The end of the chain, or `none` at the first gap.
unfoldable pub covered_to : ℤ → List Hop → Option ℤ
covered_to expected [] = some expected
covered_to expected (h ∷ hs) =
    let rest = covered_to h.blocks.end hs in
    if not (eqb_ℤ h.blocks.start expected) then none else rest

-- A layer count of zero is not compared.
abbrev pub reaches : ℤ → Option ℤ → Result (Unit {0})
reaches total none = err runtime_error
reaches total (some e) =
    if not (eqb_ℤ total (pos 0)) && not (eqb_ℤ e total) then err runtime_error else ok tt

abbrev check_hops : List Hop → ℤ → Result (Unit {0})
unfolding covered_to
check_hops [] total = err runtime_error
check_hops (h ∷ hs) total = reaches total (covered_to (pos 0) (h ∷ hs))

unfoldable pub validate_chain_coverage : List Hop → ℤ → Result (Unit {0})
unfolding check_hops
validate_chain_coverage hosts total_layers = check_hops hosts total_layers

unfoldable pub host_http_url : ChainEnv → List ChainHost → Hop → Result Text
unfolding resolve_mother_shard_url rstrip_slash is_public_http_url
host_http_url env manifest h = elim h.role [
  | mother ↦ resolve_mother_shard_url env manifest
  | contributor ↦
      let url = rstrip_slash (or_empty h.shard_manager_url) in
      if not (is_public_http_url url) then err runtime_error else ok url
]
