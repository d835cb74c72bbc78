-- ===== src/Shard/Routes.antt =====
-- The routes of the shard manager and its two cached runners.
use blitzwing.Base.{Bool, false, not, ◌&&◌, Option, none, some, List, [], ◌∷◌, if◌then◌else◌}
use blitzwing.Base.Int.{leb_ℤ}
use blitzwing.Base.Text.{Text, text_eq, split, all_digits, is_empty}
use blitzwing.Base.Exec.{Result, ok, err, Exec}
use blitzwing.Discovery.{Reply, answer, http_error}
use blitzwing.Registry.Range.{Range, parse_range, format_range}
use blitzwing.Shard.Process.{Machine, OsEnv, StatusResponse, start, stop, reload, status}

-- `HttpChainInference`: its runner's range, and the text of its own range.
pub record ChainCache : Type 0 where
  pub runner : Range
  pub local_block_indices : Text

-- The module's state: a `LocalShardRunner` is held by its range.
pub record Server : Type 0 where
  pub machine : Machine
  pub local_runner : Option Range
  pub http_chain : Option ChainCache

unfoldable pub reset_inference_caches : Server → Server
reset_inference_caches s = record s { local_runner = none; http_chain = none }

-- The cached range differs from the manager's text.
abbrev pub is_stale_runner : Text → Option Range → Bool
unfolding text_eq format_range
is_stale_runner blocks none = false
is_stale_runner blocks (some b) = not (text_eq (format_range b.start b.end) blocks)

abbrev create_runner : Server → Result Range × Server
unfolding parse_range
create_runner s = elim s.local_runner [
  | some b ↦ (ok b, s)
  | none ↦ elim (parse_range s.machine.manager.block_indices) [
    | err e ↦ (err e, s)
    | ok b ↦ (ok b, record s { local_runner = some b })
  ]
]

unfoldable pub get_local_runner : Exec Server Range
unfolding parse_range text_eq format_range reset_inference_caches
get_local_runner s = create_runner (
    if is_stale_runner s.machine.manager.block_indices s.local_runner
    then reset_inference_caches s
    else s)

unfoldable pub get_http_chain : Exec Server ChainCache
unfolding get_local_runner
get_http_chain s = elim s.http_chain [
  | some c ↦ (ok c, s)
  | none ↦
      let (res, s') = get_local_runner s in
      elim res [
        | err e ↦ (err e, s')
        | ok b ↦
            let c : ChainCache = record {
              runner = b;
              local_block_indices = s'.machine.manager.block_indices;
            } in
            (ok c, record s' { http_chain = some c })
      ]
]

abbrev two_numbers : List Text → Bool
unfolding all_digits
two_numbers (a ∷ b ∷ []) = not (is_empty a) && all_digits a && (not (is_empty b) && all_digits b)
two_numbers _ = false

-- ^\d+:\d+$
unfoldable pub is_range_text : Text → Bool
unfolding split two_numbers
is_range_text t = two_numbers (split b':' t)

-- `end <= start`; int() reads what the pattern lets through.
abbrev is_backward : Result Range → Bool
is_backward (err e) = false
is_backward (ok b) = leb_ℤ b.end b.start

abbrev answer_status : OsEnv → Server → Reply StatusResponse × Server
unfolding status
answer_status env s = let (st, m) = status env s.machine in (answer st, record s { machine = m })

unfoldable pub post_reload :
    OsEnv → Text → Option (List Text) → Server → Reply StatusResponse × Server
unfolding is_range_text parse_range reload reset_inference_caches answer_status
post_reload env blocks peers s =
    if not (is_range_text blocks)
    then (http_error 422, s)
    else if is_backward (parse_range blocks)
    then (http_error 400, s)
    else let (res, m) = reload env blocks peers s.machine in
      elim res [
        | err e ↦ (http_error 500, record s { machine = m })
        | ok _ ↦ answer_status env (reset_inference_caches (record s { machine = m }))
      ]

-- A `stop` that raises is an unhandled exception: FastAPI answers 500.
unfoldable pub post_stop : OsEnv → Server → Reply StatusResponse × Server
unfolding stop answer_status
post_stop env s =
    let (res, m) = stop env s.machine in
    elim res [
      | err e ↦ (http_error 500, record s { machine = m })
      | ok _ ↦ answer_status env (record s { machine = m })
    ]

abbrev bad_body : Option Text → Bool
unfolding is_range_text
bad_body none = false
bad_body (some blocks) = not (is_range_text blocks)

unfoldable pub post_start : OsEnv → Option Text → Server → Reply StatusResponse × Server
unfolding bad_body start answer_status
post_start env blocks s =
    if bad_body blocks
    then (http_error 422, s)
    else let (res, m) = start env blocks false s.machine in
      elim res [
        | err e ↦ (http_error 500, record s { machine = m })
        | ok _ ↦ answer_status env (record s { machine = m })
      ]

-- The guard of the chain routes: a server that does not run answers 503.
unfoldable pub chain_prefix : OsEnv → Server → Reply Range × Server
unfolding status get_local_runner
chain_prefix env s =
    let (st, m) = status env s.machine in
    if not st.running
    then (http_error 503, record s { machine = m })
    else let (res, s') = get_local_runner (record s { machine = m }) in
      elim res [ err e ↦ (http_error 503, s') | ok b ↦ (answer b, s') ]

-- The chat route up to the run of the chain; `manifest` tells that the body has a manifest.
unfoldable pub chat_chain : OsEnv → Bool → Server → Reply ChainCache × Server
unfolding status get_http_chain
chat_chain env manifest s =
    let (st, m) = status env s.machine in
    if not st.running
    then (http_error 503, record s { machine = m })
    else if not manifest
    then (http_error 400, record s { machine = m })
    else let (res, s') = get_http_chain (record s { machine = m }) in
      elim res [ err e ↦ (http_error 503, s') | ok c ↦ (answer c, s') ]
