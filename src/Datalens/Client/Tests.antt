-- ===== src/Datalens/Client/Tests.antt =====
-- A service with an answer of two pages, and the client's theorems at concrete inputs.
use ormpindexer.Base.{
  Option, ℕ, zero, suc, ◌≡◌, refl, false, none, some, List, [], ◌∷◌, Text, codes, All, Among, here,
  ok, text_eq, arith, ok_injective, ◌∙◌,
}
use ormpindexer.Base.Action.{◌>>=◌}
use ormpindexer.Config.Types.{finalized}
use ormpindexer.Datalens.Types.{
  DatalensLog, DatalensLogQuery, DatalensLogQueryResult, retries_immediately,
}
use ormpindexer.Datalens.Query.{evm_chain_name, query_finality}
use ormpindexer.Datalens.Attempts.{is_settled, QueryPage}
use ormpindexer.Datalens.Wire.{
  Json, QueryBody, WireQuery, WireLog, log_query_body, parse_query_page, log_from_row, index_of,
  logs_between, logs_from_page,
}
use ormpindexer.Datalens.Wire.Served.{IsServed}
use ormpindexer.Datalens.Client.{
  Request, Response, get, post, not_sent, answered, send_once, turn_page, query_pages,
  after_attempt, try_query, query_logs,
}
use ormpindexer.Datalens.Client.Cursors.{
  HandsOut, is_out_of_fuel, query_logs-IsServed, query_pages-fuel,
}
use ormpindexer.Datalens.Pacer.{Round, Spaced, take_slot, request_starts, request_starts-Spaced}
use ormpindexer.Schema.Ids.{digits}

-- The first page has one row and a cursor, and the second one row. Blocks 5 to 8 are served.
abbrev wire : Option Text → Text → WireQuery
wire cursor row = record {
  served = some (record { start = 5; end = 8 });
  incomplete_reason = none;
  rows = row ∷ [];
  next_cursor = cursor;
}

abbrev read : Text → Option WireQuery
read [] = some (wire (some (7 ∷ [])) (6 ∷ []))
read (c ∷ text) = some (wire none (9 ∷ []))

abbrev row : ℕ → WireLog
row n = record {
  block_number = n;
  block_hash = [];
  block_timestamp = none;
  transaction_hash = [];
  transaction_index = 0;
  log_index = 0;
  address = [];
  topics = [];
  payload = [];
  transaction_from = none;
}

abbrev read_log : Text → Option WireLog
read_log [] = none
read_log (n ∷ text) = some (row n)

abbrev json : Json
json = record { query = read; log = read_log; block = λ text. none; heads = λ text. none }

-- The state counts the requests. The first one is not sent.
abbrev send : Request → ℕ → Response × ℕ
send (get name) n = (not_sent, suc n)
send (post request) zero = (not_sent, 1)
send (post request) (suc n) = elim request.cursor [
  | none ↦ (answered 200 none [], suc (suc n))
  | some cursor ↦ (answered 200 none (1 ∷ []), suc (suc n))
]

abbrev query : DatalensLogQuery
query = record {
  chain_id = 1;
  from_block = 5;
  to_block = 9;
  contracts = [];
  topics = [];
  finality_mode = finalized;
}

abbrev found : DatalensLog
found = record {
  id = some (codes "1-6--0");
  chain_id = 1;
  block_number = 6;
  block_hash = some [];
  parent_hash = none;
  block_timestamp = none;
  transaction_hash = [];
  transaction_index = some 0;
  log_index = 0;
  address = [];
  transaction_from = none;
  topics = [];
  payload = [];
}

-- The log of block 9 is not in the result: block 8 is the last one served.
abbrev result : DatalensLogQueryResult
result = record {
  logs = found ∷ [];
  served_start = some 5;
  served_end = some 8;
  incomplete_reason = none;
}

queried : (query_logs json send 2 2 query 0).0 ≡ ok result
unfolding query_logs log_query_body evm_chain_name query_finality try_query after_attempt
    query_pages turn_page send_once parse_query_page logs_from_page logs_between log_from_row
    index_of digits is_settled retries_immediately text_eq ◌>>=◌
queried = refl

query_logs-IsServed_example : All (IsServed (some 5) (some 8) 1) (found ∷ [])
query_logs-IsServed_example = query_logs-IsServed json send 2 2 query 0 result queried

known_cursor :
    (text cursor : Text) (p : QueryPage)
    → parse_query_page json text ≡ ok p
    → p.next_cursor ≡ some cursor
    → Among cursor ((7 ∷ []) ∷ [])
unfolding parse_query_page
known_cursor [] cursor p h k =
    let e : some (7 ∷ []) ≡ some cursor = ok_injective (λ p. p.next_cursor) h ∙ k in here cc
known_cursor (c ∷ text) cursor p h k =
    let e : none ≡ some cursor = ok_injective (λ p. p.next_cursor) h ∙ k in cc

send-HandsOut : HandsOut json send ((7 ∷ []) ∷ [])
send-HandsOut = record {
  known = λ request w text cursor p came parsed more. known_cursor text cursor p parsed more;
}

body_of : QueryBody
body_of = record {
  chain = codes "ethereum";
  dataset = codes "evm.logs";
  start = 5;
  end = 9;
  finality = [];
  selector = none;
  cursor = none;
}

query_pages-fuel_example : is_out_of_fuel (query_pages json send 2 body_of [] [] 1).0 ≡ false
query_pages-fuel_example =
    query_pages-fuel json send ((7 ∷ []) ∷ []) send-HandsOut 2 body_of [] [] 1 (omega arith)

-- Two tasks: the second is early at 104, and starts at 110.
abbrev rounds : List Round
rounds =
    record { looked = 100; stored = 100 }
    ∷ record { looked = 104; stored = 104 }
    ∷ record { looked = 110; stored = 111 }
    ∷ []

starts : request_starts 10 none rounds ≡ 100 ∷ 111 ∷ []
unfolding request_starts take_slot
starts = refl

request_starts-Spaced_example : Spaced 10 none (request_starts 10 none rounds)
request_starts-Spaced_example = request_starts-Spaced 10 0 rounds (omega arith)
