-- ===== src/Registry/Join.antt =====
-- `SwarmRegistry.join`: the layers of a new contributor are reserved at the donor's high end.
use blitzwing.Base.{Bool, none, some, List, [], ◌∷◌, if◌then◌else◌}
use blitzwing.Base.Int.{ℤ, pos, ltb_ℤ, leb_ℤ, ◌-ℤ◌}
use blitzwing.Base.Text.{Text, rstrip_slash}
use blitzwing.Base.Dict.{insert, values}
use blitzwing.Base.Exec.{ok, err, value_error, runtime_error, lift, raise_if, or_raise, ◌>>=◌, ◌>>◌}
use blitzwing.Registry.Range.{Range, range, size}
use blitzwing.Registry.Address.{validate_hedera_account_id}
use blitzwing.Registry.Host.{
  HostRecord, contributor, pending, Env, Action, is_pending, keep, persist,
}
use blitzwing.Registry.Donor.{largest_donor, effective_donor_range}

pub record JoinRequest : Type 0 where
  pub layers : ℤ
  pub public_ip : Text
  pub shard_manager_url : Text
  pub hedera_account_id : Text

-- The dict that `join` returns.
pub record JoinResult : Type 0 where
  pub host_id : Text
  pub model : Text
  pub block_indices : Range
  pub layers_hosted : ℤ
  pub initial_peers : List Text
  pub donor_host_id : Text
  pub max_layers_available : ℤ
  pub total_layers : ℤ
  pub hedera_account_id : Text

abbrev pub any_of {ℓ} : {A : Type ℓ} → List A → Bool
any_of [] = Bool.false
any_of (x ∷ xs) = Bool.true

-- The record of a pending contributor, from the donor's effective range.
unfoldable pub pending_record : Env → Text → JoinRequest → Text → HostRecord → Range → HostRecord
unfolding rstrip_slash
pending_record env model req wallet donor free =
    let cut = free.end -ℤ req.layers in
    record {
      host_id = env.new_id;
      role = contributor;
      model = model;
      block_indices = range cut free.end;
      layers_hosted = req.layers;
      public_ip = some req.public_ip;
      shard_manager_url = rstrip_slash req.shard_manager_url;
      peer_multiaddr = none;
      status = pending;
      joined_at = env.now;
      last_heartbeat = env.now;
      pending_range = some (range cut free.end);
      donor_host_id = some donor.host_id;
      donor_shrink_to = some (range free.start cut);
      hedera_account_id = some wallet;
      ens_name = none;
      petals_running = none;
    }

abbrev reserve : Env → JoinRequest → Text → HostRecord → Range → Action JoinResult
unfolding pending_record persist insert size
reserve env req wallet donor free r =
    let max_take = size free -ℤ pos 1 in
    let h = pending_record env r.model req wallet donor free in
    if ltb_ℤ max_take req.layers then (err value_error, r) else (
      ok (record {
        host_id = env.new_id;
        model = r.model;
        block_indices = h.block_indices;
        layers_hosted = req.layers;
        initial_peers = r.bootstrap_peers;
        donor_host_id = donor.host_id;
        max_layers_available = max_take;
        total_layers = r.total_layers;
        hedera_account_id = wallet;
      }),
      persist env (record r { hosts = insert env.new_id h r.hosts }),
    )

unfoldable pub join : Env → JoinRequest → Action JoinResult
unfolding validate_hedera_account_id keep values largest_donor effective_donor_range reserve
join env req r =
    (do
      raise_if (ltb_ℤ req.layers (pos 1)) value_error
      raise_if (leb_ℤ r.total_layers req.layers) value_error
      wallet ← lift (validate_hedera_account_id (some req.hedera_account_id))
      raise_if (any_of (keep is_pending (values r.hosts))) runtime_error
      donor ← or_raise (largest_donor r) runtime_error
      reserve env req wallet donor (effective_donor_range r donor))
      r
