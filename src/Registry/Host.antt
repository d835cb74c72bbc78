-- ===== src/Registry/Host.antt =====
-- `HostRecord` and the state of `SwarmRegistry`: construction, persistence and plain accessors.
-- A `block_indices` text is held as the pair that `parse_range` reads from it. The file that
-- `persist` writes is the field `saved`: the JSON text of a record stands for the record.
use blitzwing.Base.{ℕ, Bool, true, false, ◌&&◌, Option, none, some, List, [], ◌∷◌, if◌then◌else◌}
use blitzwing.Base.Int.{ℤ, pos, ltb_ℤ}
use blitzwing.Base.Text.{Text, codes, rstrip_slash, truthy}
use blitzwing.Base.Dict.{Dict, lookup, modify, values}
use blitzwing.Base.Exec.{Result, ok, err, Exec, key_error}
use blitzwing.Registry.Range.{Range, range, size, parse_range}
use blitzwing.Registry.Address.{validate_hedera_account_id}

pub data Role : Type 0 where
  mother contributor : Role

pub data Status : Type 0 where
  pending online offline : Status

pub record HostRecord : Type 0 where
  pub host_id : Text
  pub role : Role
  pub model : Text
  pub block_indices : Range
  pub layers_hosted : ℤ
  pub public_ip : Option Text
  pub shard_manager_url : Text
  pub peer_multiaddr : Option Text
  pub status : Status
  pub joined_at : ℕ
  pub last_heartbeat : ℕ
  pub pending_range : Option Range
  pub donor_host_id : Option Text
  pub donor_shrink_to : Option Range
  pub hedera_account_id : Option Text
  pub ens_name : Option Text
  pub petals_running : Option Bool

-- The payload that `persist` writes.
pub record Saved : Type 0 where
  pub model : Text
  pub total_layers : ℤ
  pub bootstrap_peers : List Text
  pub hosts : Dict HostRecord

pub record SwarmRegistry : Type 0 where
  pub model : Text
  pub total_layers : ℤ
  pub hosts : Dict HostRecord
  pub bootstrap_peers : List Text
  pub saved : Option Saved

-- What a call of a method finds around it: the clock, the next uuid-based host id, whether the
-- disk takes a write, and whether a shard manager accepts a reload (its URL and the new range).
pub record Env : Type 0 where
  pub now : ℕ
  pub new_id : Text
  pub disk_ok : Bool
  pub reload : Text → Range → Bool

abbrev pub Action : Type 0 → Type 0
Action A = Exec SwarmRegistry A

abbrev pub mother_id : Text
mother_id = codes "mother"

abbrev pub is_online : HostRecord → Bool
is_online h = elim h.status [ online ↦ true | _ ↦ false ]

abbrev pub is_pending : HostRecord → Bool
is_pending h = elim h.status [ pending ↦ true | _ ↦ false ]

abbrev pub is_mother : HostRecord → Bool
is_mother h = elim h.role [ mother ↦ true | contributor ↦ false ]

-- `validate_hedera_account_id` is called only on a text that is not empty.
abbrev pub mother_wallet : Option Text → Result (Option Text)
unfolding validate_hedera_account_id
mother_wallet account =
    if truthy account
    then elim (validate_hedera_account_id account) [ ok w ↦ ok (some w) | err e ↦ err e ]
    else ok none

abbrev pub mother_record : ℕ → Text → ℤ → Text → Option Text → HostRecord
unfolding rstrip_slash
mother_record now model total_layers url wallet = record {
  host_id = mother_id;
  role = mother;
  model = model;
  block_indices = range (pos 0) total_layers;
  layers_hosted = total_layers;
  public_ip = none;
  shard_manager_url = rstrip_slash url;
  peer_multiaddr = none;
  status = online;
  joined_at = now;
  last_heartbeat = now;
  pending_range = none;
  donor_host_id = none;
  donor_shrink_to = none;
  hedera_account_id = wallet;
  ens_name = none;
  petals_running = none;
}

-- `SwarmRegistry.__init__`, over a disk that holds `saved`
unfoldable pub init : Env → Option Saved → Text → ℤ → Text → Option Text → Result SwarmRegistry
unfolding mother_wallet mother_record
init env saved model total_layers url account = elim (mother_wallet account) [
  | err e ↦ err e
  | ok wallet ↦ ok (record {
    model = model;
    total_layers = total_layers;
    hosts = (mother_id, mother_record env.now model total_layers url wallet) ∷ [];
    bootstrap_peers = [];
    saved = saved;
  })
]

-- A failed write is logged and swallowed.
unfoldable pub persist : Env → SwarmRegistry → SwarmRegistry
persist env r =
    if env.disk_ok
    then record r {
      saved = some (record {
        model = r.model;
        total_layers = r.total_layers;
        bootstrap_peers = r.bootstrap_peers;
        hosts = r.hosts;
      });
    }
    else r

abbrev pub restore_mother : Text → HostRecord → HostRecord
unfolding rstrip_slash
restore_mother url h = record h {
  shard_manager_url = rstrip_slash url;
  role = mother;
  status = online;
}

-- The saved model and layer count are not read back.
unfoldable pub load_persisted : Env → Saved → Text → ℤ → Text → Option Text → Result SwarmRegistry
unfolding init restore_mother modify
load_persisted env file model total_layers url account =
    elim (init env (some file) model total_layers url account) [
      | err e ↦ err e
      | ok reg ↦ ok (record reg {
        hosts = modify mother_id (restore_mother url) file.hosts;
        bootstrap_peers = file.bootstrap_peers;
      })
    ]

-- The file, if there is one, else a fresh registry, which is saved at once. A load that raises
-- falls back to the fresh registry; a file that does not parse stands as none.
unfoldable pub init_registry :
    Env → Option Saved → Text → ℤ → Text → Option Text → Result SwarmRegistry
unfolding load_persisted persist
init_registry env file model total_layers url account =
    let fresh : Result SwarmRegistry = elim (init env file model total_layers url account) [
      | ok r ↦ ok (persist env r)
      | err e ↦ err e
    ] in
    elim file [
      | none ↦ fresh
      | some f ↦ elim (load_persisted env f model total_layers url account) [
        | ok r ↦ ok r
        | err e ↦ fresh
      ]
    ]

abbrev pub set_range : Range → HostRecord → HostRecord
set_range b h = record h { block_indices = b; layers_hosted = size b }

-- A registry with no mother is left alone; a text that does not parse raises.
unfoldable pub sync_mother_from_shard : Text → Action (Unit {0})
unfolding modify lookup parse_range size
sync_mother_from_shard block_indices r = elim (lookup mother_id r.hosts) [
  | none ↦ (ok tt, r)
  | some m ↦ elim (parse_range block_indices) [
    | err e ↦ (err e, r)
    | ok b ↦ (ok tt, record r { hosts = modify mother_id (set_range b) r.hosts })
  ]
]

unfoldable pub set_bootstrap_peers : List Text → SwarmRegistry → SwarmRegistry
set_bootstrap_peers peers r = record r { bootstrap_peers = peers }

unfoldable pub list_hosts : SwarmRegistry → List HostRecord
unfolding values
list_hosts r = values r.hosts

abbrev pub is_payout : HostRecord → Bool
is_payout h = is_online h && truthy h.hedera_account_id && ltb_ℤ (pos 0) h.layers_hosted

-- filter, by a test
unfoldable pub keep {ℓ} : {A : Type ℓ} → (A → Bool) → List A → List A
keep p [] = []
keep p (x ∷ xs) = let rest = keep p xs in if p x then x ∷ rest else rest

unfoldable pub online_payout_hosts : SwarmRegistry → List HostRecord
unfolding keep list_hosts
online_payout_hosts r = keep is_payout (list_hosts r)

unfoldable pub get_host : Text → Action HostRecord
unfolding lookup
get_host host_id r = elim (lookup host_id r.hosts) [
  | none ↦ (err key_error, r)
  | some h ↦ (ok h, r)
]

abbrev pub name_host : Text → HostRecord → HostRecord
name_host ens_name h = record h { ens_name = some ens_name }

unfoldable pub set_ens_name : Env → Text → Text → Action HostRecord
unfolding lookup modify persist
set_ens_name env host_id ens_name r = elim (lookup host_id r.hosts) [
  | none ↦ (err key_error, r)
  | some h ↦ (
    ok (name_host ens_name h),
    persist env (record r { hosts = modify host_id (name_host ens_name) r.hosts }),
  )
]

-- An offline host that reports is online again; a pending one stays pending.
abbrev pub revive : Status → Status
revive offline = online
revive s = s

abbrev pub beat : ℕ → HostRecord → HostRecord
beat now h = record h { last_heartbeat = now; status = revive h.status }

unfoldable pub heartbeat : Env → Text → Action HostRecord
unfolding lookup modify
heartbeat env host_id r = elim (lookup host_id r.hosts) [
  | none ↦ (err key_error, r)
  | some h ↦ (ok (beat env.now h), record r { hosts = modify host_id (beat env.now) r.hosts })
]
