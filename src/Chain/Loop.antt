-- ===== src/Chain/Loop.antt =====
-- The loop over the tokens of `HttpChainInference.generate`. The sampler (logits, penalty, draw),
-- the tokenizer and the texts are parameters: a step's hidden state, number and tokens so far give
-- the next token.
use blitzwing.Base.{
  ℕ, zero, suc, ◌+◌, ◌≤◌, ◌≡◌, ◌≢◌, refl, sym, ap, ◌∙◌, Bool, false, ◌⊎◌, inl, inr, Option, none,
  some, List, [], ◌∷◌, ◌++◌, ◌==◌, arith, Bool-cases, if◌then◌else◌,
}
use blitzwing.Base.Int.{ℤ, pos, pos_part, min_ℤ, max_ℤ}
use blitzwing.Base.{true}
use blitzwing.Base.Exec.{Error, Result, ok, err, runtime_error, Result-cases}
use blitzwing.Registry.Range.{Range}
use blitzwing.Chain.Hosts.{ChainEnv, ChainHost, Hop, ordered_hosts}
use blitzwing.Chain.Routes.{AllFaithful, all_routed}
use blitzwing.Chain.Forward.{Model, Remote, run_layers, chain_hidden, plan_chain}
use blitzwing.Chain.Whole.{AllForward, chain_runs_whole_model}

-- `max(1, min(int(max_tokens), 512))`, a number of rounds.
unfoldable pub max_new_tokens : ℤ → ℕ
max_new_tokens max_tokens = pos_part (max_ℤ (pos 1) (min_ℤ max_tokens (pos 512)))

pub data FinishReason : Type 0 where
  stopped length_reached : FinishReason

pub record Tokens : Type 0 where
  pub generated : List ℕ
  pub finish_reason : FinishReason

max_new_positive : (max_tokens : ℤ) → 1 ≤ max_new_tokens max_tokens
unfolding max_new_tokens
max_new_positive max_tokens = ground arith

at_least_one : (n c : ℕ) → 1 ≤ n → (n ≡ 0) ⊎ (1 ≤ c) → 1 ≤ c
at_least_one n c some_rounds (inl no_round) = absurd (omega (arith, some_rounds, no_round))
at_least_one n c some_rounds (inr added) = added

module _ (m : Model) where
  -- The prompt with tokens behind it, the next token, and the token that ends a text, if there is one.
  pub record Sampler : Type 0 where
    pub extend : m.Ids → List ℕ → m.Ids
    pub next_id : ℕ → m.Hidden → List ℕ → ℕ
    pub eos : Option ℕ

  abbrev pub is_eos : Sampler → ℕ → Bool
  is_eos s token = elim s.eos [ none ↦ false | some e ↦ token == e ]

  -- The rounds that are left, and the number of this one. A round's forward may fail.
  unfoldable pub token_loop :
      Sampler → (m.Ids → Result m.Hidden) → m.Ids → ℕ → ℕ → List ℕ → Result Tokens
  token_loop s forward prompt zero step generated =
      ok (record { generated = generated; finish_reason = length_reached })
  token_loop s forward prompt (suc n) step generated = elim (forward (s.extend prompt generated)) [
    | err e ↦ err e
    | ok x ↦
        let token = s.next_id step x generated in
        let out = generated ++ token ∷ [] in
        let rest = token_loop s forward prompt n (suc step) out in
        if is_eos s token then ok (record { generated = out; finish_reason = stopped }) else rest
  ]

  -- `generate`: the checks, and then the loop over the chain.
  unfoldable pub generate_tokens :
      Sampler → ChainEnv → List ChainHost → Remote m → ℤ → Range → m.Ids → ℤ → Result Tokens
  unfolding ordered_hosts plan_chain token_loop chain_hidden max_new_tokens
  generate_tokens s env manifest net total_layers local prompt max_tokens =
      elim (plan_chain (ordered_hosts manifest) total_layers local) [
        | err e ↦ err e
        | ok upstream ↦
            token_loop s (chain_hidden m env manifest net local upstream) prompt
              (max_new_tokens max_tokens) 0 []
      ]

  -- The same loop on a host that holds the whole model.
  unfoldable pub generate_locally : Sampler → ℤ → m.Ids → ℤ → Result Tokens
  unfolding token_loop max_new_tokens
  generate_locally s total_layers prompt max_tokens =
      token_loop s (λ ids. ok (run_layers m (pos 0) (pos_part total_layers) (m.embed ids))) prompt
        (max_new_tokens max_tokens) 0 []

  token_loop_same :
      (s : Sampler) (f g : m.Ids → Result m.Hidden) (prompt : m.Ids) (n step : ℕ)
      (generated : List ℕ)
      → ((ids : m.Ids) → f ids ≡ g ids)
      → token_loop s f prompt n step generated ≡ token_loop s g prompt n step generated
  unfolding token_loop
  token_loop_same s f g prompt zero step generated same = refl
  token_loop_same s f g prompt (suc n) step generated same =
      let ids = s.extend prompt generated in
      elim (Result-cases (f ids)) [
        | inl (x, failed) ↦ rw (failed, sym (same ids) ∙ failed, token_loop)
        | inr (x, done) ↦
            let token = s.next_id step x generated in
            let out = generated ++ token ∷ [] in
            rw (done, sym (same ids) ∙ done, token_loop)
              (ap
                (λ (rest : Result Tokens).
                  if is_eos s token
                  then ok (record { generated = out; finish_reason = stopped })
                  else rest)
                (token_loop_same s f g prompt n (suc step) out same))
      ]

  token_loop_refused :
      (s : Sampler) (f : m.Ids → Result m.Hidden) (prompt : m.Ids) (n step : ℕ) (generated : List ℕ)
      (e : Error)
      → 1 ≤ n
      → ((ids : m.Ids) → f ids ≡ err e)
      → token_loop s f prompt n step generated ≡ err e
  unfolding token_loop
  token_loop_refused s f prompt zero step generated e some_rounds refused =
      absurd (omega (arith, some_rounds))
  token_loop_refused s f prompt (suc n) step generated e some_rounds refused =
      rw (token_loop, refused (s.extend prompt generated)) refl

  -- If the checks accept the hosts of a manifest, the model has a layer by the manifest, no range
  -- runs backwards and each other host with a URL answers with its own layers, then, for every
  -- sampler, the chain raises a RuntimeError if one of these has no URL, and generates the tokens that
  -- a host with the whole model would generate if all have one.
  pub generate_tokens-generate_locally :
      (s : Sampler) (env : ChainEnv) (manifest : List ChainHost) (net : Remote m) (total_layers : ℤ)
      (local : Range) (prompt : m.Ids) (max_tokens : ℤ) {upstream : List Hop}
      → AllFaithful env manifest m net upstream
      → total_layers ≢ pos 0
      → AllForward (ordered_hosts manifest)
      → plan_chain (ordered_hosts manifest) total_layers local ≡ ok upstream
      → generate_tokens s env manifest net total_layers local prompt max_tokens ≡ (
          if all_routed env manifest upstream
          then generate_locally s total_layers prompt max_tokens
          else err runtime_error)
  unfolding generate_tokens generate_locally
  generate_tokens-generate_locally s env manifest net total_layers local prompt max_tokens
        {upstream} faithful some_layers fwd planned =
      let whole : m.Ids → Result m.Hidden =
        λ ids. ok (run_layers m (pos 0) (pos_part total_layers) (m.embed ids)) in
      let step = λ (ids : m.Ids).
        chain_runs_whole_model m env manifest net total_layers local ids faithful some_layers fwd
          planned in
      elim (Bool-cases (all_routed env manifest upstream)) [
        | inl routed ↦
            rw (routed, planned, generate_tokens)
              (token_loop_same s (chain_hidden m env manifest net local upstream) whole prompt
                (max_new_tokens max_tokens) 0 [] (λ ids. step ids ∙ rw routed refl))
        | inr unrouted ↦
            rw (unrouted, planned, generate_tokens)
              (token_loop_refused s (chain_hidden m env manifest net local upstream) prompt
                (max_new_tokens max_tokens) 0 [] runtime_error (max_new_positive max_tokens)
                (λ ids. step ids ∙ rw unrouted refl))
      ]

  unfoldable pub count : List ℕ → ℕ
  count [] = 0
  count (x ∷ xs) = suc (count xs)

  no_tokens : count [] ≡ 0
  unfolding count
  no_tokens = refl

  count-append : (xs : List ℕ) (x : ℕ) → count (xs ++ x ∷ []) ≡ suc (count xs)
  unfolding count
  count-append [] x = refl
  count-append (y ∷ xs) x = ap suc (count-append xs x)

  -- The number of tokens that a loop adds.
  token_loop-count :
      (s : Sampler) (forward : m.Ids → Result m.Hidden) (prompt : m.Ids) (n step : ℕ)
      (generated : List ℕ)
      → ((ids : m.Ids) → (x : m.Hidden) × (forward ids ≡ ok x))
      → (out : Tokens) × (token_loop s forward prompt n step generated ≡ ok out)
        × (count out.generated ≤ count generated + n)
        × (count generated ≤ count out.generated)
        × ((n ≡ 0) ⊎ (suc (count generated) ≤ count out.generated))
        × ((out.finish_reason ≡ stopped) ⊎ (count out.generated ≡ count generated + n))
  unfolding token_loop
  token_loop-count s forward prompt zero step generated answers = (
    record { generated = generated; finish_reason = length_reached },
    refl,
    omega arith,
    omega arith,
    inl refl,
    inr (omega arith),
  )
  token_loop-count s forward prompt (suc n) step generated answers =
      let (x, e) = answers (s.extend prompt generated) in
      let token = s.next_id step x generated in
      let longer = generated ++ token ∷ [] in
      let one_more = count-append generated token in
      elim (Bool-cases (is_eos s token)) [
        | inl ends ↦ (
          record { generated = longer; finish_reason = stopped },
          rw (e, ends, token_loop),
          omega (arith, one_more),
          omega (arith, one_more),
          inr (omega (arith, one_more)),
          inl refl,
        )
        | inr goes_on ↦
            let (out, eq, most, least, some_added, reason) =
              token_loop-count s forward prompt n (suc step) longer answers in
            (
              out,
              rw (e, goes_on, token_loop) eq,
              omega (arith, one_more, most),
              omega (arith, one_more, least),
              inr (omega (arith, one_more, least)),
              elim reason [ inl stop ↦ inl stop | inr full ↦ inr (omega (arith, one_more, full)) ],
            )
      ]

  token_loop_ends :
      (s : Sampler) (forward : m.Ids → Result m.Hidden) (prompt : m.Ids) (n : ℕ)
      → 1 ≤ n
      → ((ids : m.Ids) → (x : m.Hidden) × (forward ids ≡ ok x))
      → (out : Tokens) × (token_loop s forward prompt n 0 [] ≡ ok out)
        × (1 ≤ count out.generated)
        × (count out.generated ≤ n)
        × ((out.finish_reason ≡ stopped) ⊎ (count out.generated ≡ n))
  token_loop_ends s forward prompt n some_rounds answers =
      let (out, eq, most, least, some_added, reason) =
        token_loop-count s forward prompt n 0 [] answers in
      let empty : count [] ≡ 0 = no_tokens in
      (
        out,
        eq,
        at_least_one n (count out.generated) some_rounds (elim some_added [
          | inl none_left ↦ inl none_left
          | inr added ↦ inr (omega (arith, added, empty))
        ]),
        omega (arith, most, empty),
        elim reason [ inl stop ↦ inl stop | inr full ↦ inr (omega (arith, full, empty)) ],
      )

  -- If the checks accept the hosts of a manifest, the model has a layer by the manifest, no range
  -- runs backwards and each other host has a URL and answers there with its own layers, then the loop
  -- ends with a result of at least one token and at most the allowed number, and with exactly this
  -- number unless a token has ended the text.
  pub generate_tokens_ends :
      (s : Sampler) (env : ChainEnv) (manifest : List ChainHost) (net : Remote m) (total_layers : ℤ)
      (local : Range) (prompt : m.Ids) (max_tokens : ℤ) {upstream : List Hop}
      → AllFaithful env manifest m net upstream
      → all_routed env manifest upstream ≡ true
      → total_layers ≢ pos 0
      → AllForward (ordered_hosts manifest)
      → plan_chain (ordered_hosts manifest) total_layers local ≡ ok upstream
      → (out : Tokens) × (generate_tokens s env manifest net total_layers local prompt max_tokens
          ≡ ok out)
        × (1 ≤ count out.generated)
        × (count out.generated ≤ max_new_tokens max_tokens)
        × ((out.finish_reason ≡ stopped) ⊎ (count out.generated ≡ max_new_tokens max_tokens))
  unfolding generate_locally
  generate_tokens_ends s env manifest net total_layers local prompt max_tokens faithful routed
        some_layers fwd planned =
      let whole : m.Ids → Result m.Hidden =
        λ ids. ok (run_layers m (pos 0) (pos_part total_layers) (m.embed ids)) in
      let (out, eq, least, most, reason) =
        token_loop_ends s whole prompt (max_new_tokens max_tokens) (max_new_positive max_tokens)
          (λ ids. (run_layers m (pos 0) (pos_part total_layers) (m.embed ids), refl)) in
      let same =
        generate_tokens-generate_locally s env manifest net total_layers local prompt max_tokens
          faithful some_layers fwd planned in
      (out, same ∙ rw routed eq, least, most, reason)
