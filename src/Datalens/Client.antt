-- ===== src/Datalens/Client.antt =====
-- The HTTP client (src/datalens/client.rs). The network is a parameter: a request changes the state of
-- the world and gives a response. Log lines and the pauses before an attempt have no result.
pub mod Cursors
pub mod Tries
mod Tests
use ormpindexer.Base.{
  ℕ, zero, suc, ◌&&◌, ◌||◌, not, Bool, true, false, Option, none, some, List, [], ◌∷◌, ◌++◌, Text,
  text_eq, leb, ltb, ◌==◌, any, if◌then◌else◌, Result, ok, err, Error, context,
}
use ormpindexer.Base.Action.{Action, pure, lift, bail, ◌>>=◌, ◌>>◌}
use ormpindexer.Config.Types.{FinalityMode}
use ormpindexer.Datalens.Attempts.{
  QueryPage, CallError, Attempt, page, failed, is_settled, better, best_or_error,
}
use ormpindexer.Datalens.Query.{WireHeads, head_height, evm_chain_name}
use ormpindexer.Datalens.Types.{
  DatalensBlockQuery, DatalensBlockQueryResult, DatalensLogQuery, DatalensLogQueryResult,
}
use ormpindexer.Datalens.Wire.{
  Json, QueryBody, log_query_body, block_query_body, with_cursor, parse_query_page, logs_from_page,
  blocks_from_page,
}
use ormpindexer.Runner.Interfaces.{DatalensLogReader}

pub data Request : Type 0 where
  get : Text → Request
  post : QueryBody → Request

-- What a request comes to: not sent, no body, or a status with the header `Retry-After` and a body.
pub data Response : Type 0 where
  not_sent : Response
  no_body : Option ℕ → Response
  answered : ℕ → Option ℕ → Text → Response

pub data Sent : Type 0 where
  body : Text → Sent
  refused : CallError → Sent

abbrev pub fatal : Error → CallError
fatal e = record { retryable = false; delay = none; detail = e }

abbrev pub retryable : Option ℕ → Error → CallError
retryable delay e = record { retryable = true; delay = delay; detail = e }

abbrev pub is_retryable_http_status : ℕ → Bool
is_retryable_http_status status = status == 429 || (leb 500 status && ltb status 600)

unfoldable pub send_once : Response → Sent
send_once not_sent = refused (retryable none Error.remote)
send_once (no_body retry_after) = refused (retryable retry_after Error.remote)
send_once (answered status retry_after text) =
    if leb 200 status && ltb status 300
    then body text
    else if is_retryable_http_status status
    then refused (retryable retry_after Error.remote)
    else refused (fatal Error.remote)

abbrev pub contains : Text → List Text → Bool
contains cursor seen = any (text_eq cursor) seen

module _ {W : Type 0} (json : Json) (send : Request → W → Response × W) where
  -- What follows a page with a cursor, and a page without one.
  unfoldable pub turn_page :
      (QueryBody → List Text → List Text → W → Attempt × W)
      → QueryBody
      → List Text
      → List Text
      → Result QueryPage
      → W
      → Attempt × W
  turn_page next request seen rows (err e) w = (failed (fatal e), w)
  turn_page next request seen rows (ok p) w = elim p.next_cursor [
    | none ↦ (
      page (record {
        served_start = p.served_start;
        served_end = p.served_end;
        incomplete_reason = p.incomplete_reason;
        next_cursor = none;
        rows = rows ++ p.rows;
      }),
      w,
    )
    | some cursor ↦
        let on = next (with_cursor request cursor) (cursor ∷ seen) (rows ++ p.rows) w in
        if contains cursor seen then (failed (fatal Error.repeated_cursor), w) else on
  ]

  abbrev pub after_send :
      (QueryBody → List Text → List Text → W → Attempt × W)
      → QueryBody
      → List Text
      → List Text
      → Sent
      → W
      → Attempt × W
  after_send next request seen rows (refused e) w = (failed e, w)
  after_send next request seen rows (body text) w =
      turn_page next request seen rows (parse_query_page json text) w

  -- The loop over the pages of an answer, in a number of rounds.
  unfoldable pub query_pages : ℕ → QueryBody → List Text → List Text → W → Attempt × W
  query_pages zero request seen rows w = (failed (fatal Error.out_of_fuel), w)
  query_pages (suc rounds) request seen rows w =
      let (response, w') = send (post request) w in
      after_send (query_pages rounds) request seen rows (send_once response) w'

  -- What follows an attempt: `next` is the loop from a best page on.
  unfoldable pub after_attempt :
      (Option QueryPage → Action W QueryPage)
      → Bool
      → Option QueryPage
      → Attempt
      → Action W QueryPage
  after_attempt next more best (page p) w =
      let on = next (some (better best p)) w in if is_settled p then (ok p, w) else on
  after_attempt next more best (failed e) w =
      let on = next best w in if e.retryable && more then on else (best_or_error best e, w)

  -- The loop over the attempts, from the best page so far.
  unfoldable pub try_query : ℕ → ℕ → QueryBody → Option QueryPage → Action W QueryPage
  try_query rounds zero request best w = (context best Error.query_without_response, w)
  try_query rounds (suc attempts) request best w =
      let (attempt, w') = query_pages rounds request [] [] w in
      after_attempt (try_query rounds attempts request) (ltb 0 attempts) best attempt w'

  abbrev pub decode_heads : Text → Result WireHeads
  decode_heads text = context (json.heads text) Error.invalid_answer

  unfoldable pub try_heads : ℕ → Text → Action W WireHeads
  try_heads zero chain_name w = (err Error.panic, w)
  try_heads (suc attempts) chain_name w =
      let (response, w') = send (get chain_name) w in
      elim (send_once response) [
        | body text ↦ (decode_heads text, w')
        | refused e ↦
            let next = try_heads attempts chain_name w' in
            if e.retryable && ltb 0 attempts then next else (err e.detail, w')
      ]

  unfoldable pub fetch_heads : ℕ → ℕ → Action W WireHeads
  unfolding try_heads
  fetch_heads max_attempts chain_id = do
    chain_name ← lift (evm_chain_name chain_id)
    try_heads max_attempts chain_name

  unfoldable pub query_logs : ℕ → ℕ → DatalensLogQuery → Action W DatalensLogQueryResult
  query_logs rounds max_attempts query = do
    request ← lift (log_query_body query)
    p ← try_query rounds max_attempts request none
    logs ← lift (logs_from_page json p query.chain_id)
    pure (record {
      logs = logs;
      served_start = p.served_start;
      served_end = p.served_end;
      incomplete_reason = p.incomplete_reason;
    })

  unfoldable pub query_blocks : ℕ → ℕ → DatalensBlockQuery → Action W DatalensBlockQueryResult
  query_blocks rounds max_attempts query = do
    request ← lift (block_query_body query)
    p ← try_query rounds max_attempts request none
    blocks ← lift (blocks_from_page json p query.chain_id)
    pure (record {
      blocks = blocks;
      served_start = p.served_start;
      served_end = p.served_end;
      incomplete_reason = p.incomplete_reason;
    })

  -- `DatalensHttpClient` as a reader
  unfoldable pub http_client : ℕ → ℕ → DatalensLogReader W
  http_client rounds max_attempts = record {
    latest_block = λ chain_id finality_mode. do
      wire ← fetch_heads max_attempts chain_id
      pure (head_height finality_mode wire);
    finalized_head = λ chain_id. do
      wire ← fetch_heads max_attempts chain_id
      pure wire.finalized;
    query_blocks = query_blocks rounds max_attempts;
    query_logs = query_logs rounds max_attempts;
  }
