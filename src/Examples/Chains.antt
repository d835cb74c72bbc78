-- ===== src/Examples/Chains.antt =====
-- A chain of three hosts, over a model whose hidden state is the list of the layers that it has
-- passed, with a network of the mother and a contributor; and polls of the DHT.
use blitzwing.Base.{ℕ, ◌≤◌, ◌⊎◌, ◌≡◌, refl, arith, none, some, List, [], ◌∷◌}
use blitzwing.Base.Int.{ℤ, pos, leb_ℤ, ◌+ℤ◌, ◌-ℤ◌}
use blitzwing.Base.Text.{Text, codes, text_eq}
use blitzwing.Base.Exec.{ok, err, runtime_error}
use blitzwing.Registry.Range.{range}
use blitzwing.Registry.Host.{mother, contributor}
use blitzwing.Base.{true, if◌then◌else◌}
use blitzwing.Chain.Hosts.{ChainEnv, ChainHost, Hop, ordered_hosts, host_http_url}
use blitzwing.Chain.Routes.{IsFaithful, AllFaithful, all_routed}
use blitzwing.Chain.Forward.{
  Model, run_layers, forward_tail, forward_prefix, Remote, chain_hidden, plan_chain,
}
use blitzwing.Visible.{Poll, WasVisible, now, later, verify_blocks_visible, accepted_visible}
use blitzwing.Chain.Loop.{
  Sampler, Tokens, stopped, count, max_new_tokens, generate_tokens, generate_locally,
  generate_tokens-generate_locally, generate_tokens_ends,
}
use blitzwing.Chain.Whole.{AllForward, chain_runs_whole_model}

abbrev trace : Model
trace = record { Ids = ℕ; Hidden = List ℤ; embed = λ ids. []; layer = λ k x. k ∷ x }

-- The mother answers to prefixes and the contributor in the middle to continues.
abbrev network : Remote trace
network = record {
  prefix = λ url ids. some (
      forward_prefix trace
        (if text_eq url (codes "https://c") then range (pos 2) (pos 3) else range (pos 0) (pos 2))
        ids);
  continues = λ url x. some (
      forward_tail trace
        (if text_eq url (codes "https://c") then range (pos 2) (pos 3) else range (pos 0) (pos 2))
        x);
}

abbrev settings : ChainEnv
settings = record {
  mother_public_shard_url = none;
  mother_url = some (codes "http://mother:8000/");
  blitzwing_mother_url = none;
  mother_public_gateway_url = none;
}

abbrev manifest : List ChainHost
manifest =
    record {
      host_id = codes "b";
      role = contributor;
      block_indices = some (range (pos 3) (pos 4));
      shard_manager_url = none;
      public_ip = none;
    }
    ∷ record {
      host_id = codes "mother";
      role = mother;
      block_indices = some (range (pos 0) (pos 2));
      shard_manager_url = none;
      public_ip = none;
    }
    ∷ record {
      host_id = codes "c";
      role = contributor;
      block_indices = some (range (pos 2) (pos 3));
      shard_manager_url = some (codes "https://c/");
      public_ip = none;
    }
    ∷ []

abbrev first : Hop
first = record {
  host_id = codes "mother";
  role = mother;
  blocks = range (pos 0) (pos 2);
  shard_manager_url = none;
}

abbrev second : Hop
second = record {
  host_id = codes "c";
  role = contributor;
  blocks = range (pos 2) (pos 3);
  shard_manager_url = some (codes "https://c/");
}

abbrev upstream : List Hop
upstream = first ∷ second ∷ []

-- The network asks by URL: each host's URL is the one that the settings and its entry give.
mother_url :
    (url : Text) → host_http_url settings manifest first ≡ ok url → url ≡ codes "http://mother:8000"
unfolding host_http_url
mother_url url found = ground arith

second_url :
    (url : Text) → host_http_url settings manifest second ≡ ok url → url ≡ codes "https://c"
unfolding host_http_url
second_url url found = ground arith

first-IsFaithful : IsFaithful settings manifest trace network first
unfolding text_eq
first-IsFaithful = record {
  prefix = λ url ids found. rw (mother_url url found) refl;
  continues = λ url x found. rw (mother_url url found) refl;
}

second-IsFaithful : IsFaithful settings manifest trace network second
unfolding text_eq
second-IsFaithful = record {
  prefix = λ url ids found. rw (second_url url found) refl;
  continues = λ url x found. rw (second_url url found) refl;
}

upstream-AllFaithful : AllFaithful settings manifest trace network upstream
upstream-AllFaithful = (first-IsFaithful, (second-IsFaithful, tt))

hops-AllForward : AllForward (ordered_hosts manifest)
unfolding ordered_hosts
hops-AllForward = (omega arith, (omega arith, (omega arith, tt)))

routed-eq : all_routed settings manifest upstream ≡ true
unfolding all_routed
routed-eq = refl

planned-eq : plan_chain (ordered_hosts manifest) (pos 4) (range (pos 3) (pos 4)) ≡ ok upstream
unfolding plan_chain ordered_hosts
planned-eq = refl

chain_runs_whole_model_example :
    chain_hidden trace settings manifest network (range (pos 3) (pos 4)) upstream 5 ≡ (
      if all_routed settings manifest upstream
      then ok (run_layers trace (pos 0) 4 [])
      else err runtime_error)
chain_runs_whole_model_example =
    chain_runs_whole_model trace settings manifest network (pos 4) (range (pos 3) (pos 4)) 5
      {upstream = upstream} upstream-AllFaithful (λ e. ground arith) hops-AllForward planned-eq

chain_test :
    chain_hidden trace settings manifest network (range (pos 3) (pos 4)) upstream 5
    ≡ ok (pos 3 ∷ pos 2 ∷ pos 1 ∷ pos 0 ∷ [])
unfolding chain_hidden text_eq
chain_test = refl

-- With no URL for the mother the step raises.
refused_test :
    chain_hidden trace
      (record settings { mother_url = none })
      manifest
      network
      (range (pos 3) (pos 4))
      upstream
      5
    ≡ err runtime_error
unfolding chain_hidden
refused_test = refl

abbrev polls : List Poll
polls = none ∷ some (λ k. leb_ℤ (pos 2) k) ∷ []

polls_visible : WasVisible (range (pos 2) (pos 4)) polls
polls_visible = later (now (λ k lo hi. ground arith))

accepted_visible_example : WasVisible (range (pos 2) (pos 4)) polls
unfolding verify_blocks_visible ◌+ℤ◌ ◌-ℤ◌
accepted_visible_example = accepted_visible (range (pos 2) (pos 4)) polls refl

verify_test : verify_blocks_visible (range (pos 1) (pos 4)) polls ≡ err runtime_error
unfolding verify_blocks_visible
verify_test = refl

-- The number of the round is the token, and token 1 ends the text.
abbrev counter : Sampler trace
counter = record { extend = λ prompt out. prompt; next_id = λ step x out. step; eos = some 1 }

generate_tokens-generate_locally_example :
    generate_tokens trace counter settings manifest network
      (pos 4)
      (range (pos 3) (pos 4))
      5
      (pos 10)
    ≡ (if all_routed settings manifest upstream
        then generate_locally trace counter (pos 4) 5 (pos 10)
        else err runtime_error)
generate_tokens-generate_locally_example =
    generate_tokens-generate_locally trace counter settings manifest network (pos 4)
      (range (pos 3) (pos 4)) 5 (pos 10) {upstream = upstream} upstream-AllFaithful
      (λ e. ground arith) hops-AllForward planned-eq

generate_tokens_ends_example :
    (out : Tokens) × (generate_tokens trace counter settings manifest network
        (pos 4)
        (range (pos 3) (pos 4))
        5
        (pos 10)
      ≡ ok out)
    × (1 ≤ count trace out.generated)
    × (count trace out.generated ≤ max_new_tokens (pos 10))
    × ((out.finish_reason ≡ stopped) ⊎ (count trace out.generated ≡ max_new_tokens (pos 10)))
generate_tokens_ends_example =
    generate_tokens_ends trace counter settings manifest network (pos 4) (range (pos 3) (pos 4)) 5
      (pos 10) {upstream = upstream} upstream-AllFaithful routed-eq (λ e. ground arith)
      hops-AllForward planned-eq

token_test :
    generate_locally trace counter (pos 4) 5 (pos 10)
    ≡ ok (record { generated = 0 ∷ 1 ∷ []; finish_reason = stopped })
unfolding generate_locally
token_test = refl
