-- ===== src/Chain/Forward.antt =====
-- One step of the chain: the prefix on the first host, continues on the middle hosts, the tail
-- here. Tensors, the embedding and the layers are parameters; so is what is answered at a URL, which
-- the laws of a faithful network tie to the layers. `layers[idx]` is the parameter `layer`, for the
-- indices that the model has.
use blitzwing.Base.{ℕ, zero, suc, Bool, not, ◌&&◌, Option, none, some, List, [], ◌∷◌, if◌then◌else◌}
use blitzwing.Base.Int.{ℤ, pos, pos_part, ◌+ℤ◌, eqb_ℤ}
use blitzwing.Base.Exec.{Result, ok, err, runtime_error}
use blitzwing.Registry.Range.{Range, size}
use blitzwing.Base.Text.{Text}
use blitzwing.Chain.Hosts.{ChainEnv, ChainHost, Hop, host_http_url, validate_chain_coverage}

-- The model: `Ids` are token ids, `Hidden` hidden states.
pub record Model : Type 1 where
  pub Ids : Type 0
  pub Hidden : Type 0
  pub embed : Ids → Hidden
  pub layer : ℤ → Hidden → Hidden

module _ (m : Model) where
  open m use {Ids, Hidden, embed, layer}

  -- `for idx in range(k, k + n)`
  unfoldable pub run_layers : ℤ → ℕ → Hidden → Hidden
  unfolding ◌+ℤ◌
  run_layers k zero x = x
  run_layers k (suc n) x = run_layers (k +ℤ pos 1) n (layer k x)

  -- `forward_tail`: the layers of range(start, end), none if it runs backwards
  unfoldable pub forward_tail : Range → Hidden → Hidden
  unfolding run_layers size
  forward_tail b x = run_layers b.start (pos_part (size b)) x

  unfoldable pub forward_prefix : Range → Ids → Hidden
  unfolding forward_tail
  forward_prefix b ids = forward_tail b (embed ids)

  -- The answers to /v1/chain/prefix and /v1/chain/continue under a URL: none is a failure.
  pub record Remote : Type 0 where
    pub prefix : Text → Ids → Option Hidden
    pub continues : Text → Hidden → Option Hidden

  abbrev or_fail : Option Hidden → Result Hidden
  or_fail none = err runtime_error
  or_fail (some x) = ok x

  abbrev finish : Range → Result Hidden → Result Hidden
  unfolding forward_tail
  finish local (err e) = err e
  finish local (ok x) = ok (forward_tail local x)

  module _ (env : ChainEnv) (manifest : List ChainHost) (net : Remote) where
    -- A host whose URL is refused is not asked.
    unfoldable pub remote_prefix : Hop → Ids → Result Hidden
    unfolding host_http_url
    remote_prefix h ids = elim (host_http_url env manifest h) [
      | err e ↦ err e
      | ok url ↦ or_fail (net.prefix url ids)
    ]

    unfoldable pub remote_continue : Hop → Hidden → Result Hidden
    unfolding host_http_url
    remote_continue h x = elim (host_http_url env manifest h) [
      | err e ↦ err e
      | ok url ↦ or_fail (net.continues url x)
    ]

    -- The middle hosts in order.
    unfoldable pub run_middle : List Hop → Hidden → Result Hidden
    unfolding remote_continue
    run_middle [] x = ok x
    run_middle (h ∷ hs) x = elim (remote_continue h x) [ err e ↦ err e | ok y ↦ run_middle hs y ]

    unfoldable pub then_middle : List Hop → Result Hidden → Result Hidden
    unfolding run_middle
    then_middle mids (err e) = err e
    then_middle mids (ok x) = run_middle mids x

    -- The hidden state of one step, from the hosts before this one.
    unfoldable pub chain_hidden : Range → List Hop → Ids → Result Hidden
    unfolding forward_prefix remote_prefix then_middle finish
    chain_hidden local [] ids = ok (forward_prefix local ids)
    chain_hidden local (first ∷ mids) ids =
        finish local (then_middle mids (remote_prefix first ids))

-- `hosts[:-1]` and `hosts[-1]`
unfoldable pub split_last : Hop → List Hop → List Hop × Hop
split_last h [] = ([], h)
split_last h (x ∷ xs) = let (front, last) = split_last x xs in (h ∷ front, last)

abbrev is_local : Range → Range → Bool
is_local tail local = eqb_ℤ tail.start local.start && eqb_ℤ tail.end local.end

abbrev upstream_of : List Hop × Hop → Range → Result (List Hop)
upstream_of (front, tail) local =
    if not (is_local tail.blocks local) then err runtime_error else ok front

abbrev upstream_checked : List Hop → Range → Result (List Hop)
unfolding split_last
upstream_checked [] local = err runtime_error
upstream_checked (h ∷ hs) local = upstream_of (split_last h hs) local

-- The checks of `generate` before the first step: the hosts in front of the local tail.
unfoldable pub plan_chain : List Hop → ℤ → Range → Result (List Hop)
unfolding validate_chain_coverage upstream_checked
plan_chain hosts total_layers local = elim (validate_chain_coverage hosts total_layers) [
  | err e ↦ err e
  | ok _ ↦ upstream_checked hosts local
]
