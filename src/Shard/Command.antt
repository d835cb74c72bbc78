-- ===== src/Shard/Command.antt =====
-- The settings of a `ShardManager` and the command line that it starts.
use blitzwing.Base.{Bool, false, not, none, some, ◌&&◌, Option, List, [], ◌∷◌, ◌++◌, if◌then◌else◌}
use blitzwing.Base.Int.{ℤ}
use blitzwing.Base.Text.{Text, codes, member, or_empty, truthy}
use blitzwing.Registry.Range.{show}

-- What `__init__` reads from the environment and no method changes.
pub record Config : Type 0 where
  pub model : Text
  pub public_ip : Option Text
  pub port : ℤ
  pub identity_path : Text
  pub device : Text
  pub quant_type : Text
  pub num_handlers : ℤ
  pub python : Text
  pub announce_maddrs : List Text
  pub new_swarm : Bool
  pub use_auto_relay : Bool
  pub skip_reachability_check : Bool

abbrev pub any {ℓ} : {A : Type ℓ} → List A → Bool
any [] = Bool.false
any (x ∷ xs) = Bool.true

-- `_resolve_use_auto_relay`, given the value of PETALS_USE_AUTO_RELAY
unfoldable pub resolve_use_auto_relay : Option Text → List Text → Bool → Bool
unfolding member
resolve_use_auto_relay none announce_maddrs new_swarm =
    if any announce_maddrs then false else not new_swarm
resolve_use_auto_relay (some raw) announce_maddrs new_swarm =
    not (member raw (codes "0" ∷ codes "false" ∷ codes "False" ∷ codes "no" ∷ []))

abbrev base_args : Config → Text → List Text
unfolding show
base_args c block_indices =
    c.python
    ∷ codes "-m"
    ∷ codes "petals.cli.run_server"
    ∷ c.model
    ∷ codes "--device"
    ∷ c.device
    ∷ codes "--quant_type"
    ∷ c.quant_type
    ∷ codes "--block_indices"
    ∷ block_indices
    ∷ codes "--port"
    ∷ show c.port
    ∷ codes "--identity_path"
    ∷ c.identity_path
    ∷ codes "--num_handlers"
    ∷ show c.num_handlers
    ∷ []

abbrev announce_args : Config → List Text
announce_args c =
    if any c.announce_maddrs
    then codes "--announce_maddrs" ∷ c.announce_maddrs
    else if truthy c.public_ip
    then codes "--public_ip" ∷ or_empty c.public_ip ∷ []
    else []

-- `http_only`: BLITZWING_HTTP_ONLY is set
abbrev swarm_args : Config → Bool → List Text → Bool → List Text
swarm_args c http_only initial_peers bootstrap =
    if bootstrap && c.new_swarm
    then codes "--new_swarm" ∷ []
    else if any initial_peers && not http_only
    then codes "--initial_peers" ∷ initial_peers
    else []

abbrev flag_args : Config → List Text
flag_args c =
    (if c.use_auto_relay then [] else codes "--no_auto_relay" ∷ [])
    ++ (if c.skip_reachability_check then codes "--skip_reachability_check" ∷ [] else [])

unfoldable pub build_cmd : Config → Bool → List Text → Text → Bool → List Text
unfolding base_args
build_cmd c http_only initial_peers block_indices bootstrap =
    base_args c block_indices
    ++ (announce_args c ++ (swarm_args c http_only initial_peers bootstrap ++ flag_args c))
