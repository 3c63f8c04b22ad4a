-- ===== src/Datalens/Wire.antt =====
-- What the client sends and how it reads the rows of an answer (src/datalens/query.rs). JSON is a
-- parameter: a row, and the text of an answer, is read by a function that may refuse it.
pub mod Served
use ormpindexer.Base.{
  ℕ, Bool, ◌&&◌, Option, none, some, List, [], ◌∷◌, ◌++◌, Text, codes, leb, if◌then◌else◌, is_empty,
  i32_max, Result, ok, err, Error, context, ◌>>=◌,
}
use ormpindexer.Datalens.Attempts.{QueryPage}
use ormpindexer.Datalens.Query.{WireHeads, query_finality, evm_chain_name}
use ormpindexer.Datalens.Types.{
  DatalensBlock, DatalensBlockQuery, DatalensLog, DatalensLogQuery, IncompleteReason,
}
use ormpindexer.Schema.Ids.{digits}

-- The selector of a request: what is empty is not sent.
pub record Selector : Type 0 where
  pub addresses : Option (List Text)
  pub topics : Option (List (List Text))

pub record QueryBody : Type 0 where
  pub chain : Text
  pub dataset : Text
  pub start : ℕ
  pub end : ℕ
  pub finality : Text
  pub selector : Option Selector
  pub cursor : Option Text

pub record WireRange : Type 0 where
  pub start : ℕ
  pub end : ℕ

pub record WireQuery : Type 0 where
  pub served : Option WireRange
  pub incomplete_reason : Option IncompleteReason
  pub rows : List Text
  pub next_cursor : Option Text

-- Indices are `u32`.
pub record WireLog : Type 0 where
  pub block_number : ℕ
  pub block_hash : Text
  pub block_timestamp : Option ℕ
  pub transaction_hash : Text
  pub transaction_index : ℕ
  pub log_index : ℕ
  pub address : Text
  pub topics : List Text
  pub payload : Text
  pub transaction_from : Option Text

pub record WireBlock : Type 0 where
  pub number : ℕ
  pub hash : Text
  pub parent_hash : Text

-- `serde_json` on the types above.
pub record Json : Type 0 where
  pub query : Text → Option WireQuery
  pub log : Text → Option WireLog
  pub block : Text → Option WireBlock
  pub heads : Text → Option WireHeads

abbrev unless_empty {ℓ} : {A : Type 0} {B : Type ℓ} → List A → B → Option B
unless_empty xs b = if is_empty xs then none else some b

unfoldable pub log_query_body : DatalensLogQuery → Result QueryBody
log_query_body query = evm_chain_name query.chain_id >>= λ chain. ok (record {
  chain = chain;
  dataset = codes "evm.logs";
  start = query.from_block;
  end = query.to_block;
  finality = query_finality query.finality_mode;
  selector =
      if is_empty query.contracts && is_empty query.topics
      then none
      else some (record {
        addresses = unless_empty query.contracts query.contracts;
        topics = unless_empty query.topics (query.topics ∷ []);
      });
  cursor = none;
})

unfoldable pub block_query_body : DatalensBlockQuery → Result QueryBody
block_query_body query = evm_chain_name query.chain_id >>= λ chain. ok (record {
  chain = chain;
  dataset = codes "evm.blocks";
  start = query.from_block;
  end = query.to_block;
  finality = query_finality query.finality_mode;
  selector = none;
  cursor = none;
})

-- `body["page"] = …`
abbrev pub with_cursor : QueryBody → Text → QueryBody
with_cursor body cursor = record {
  chain = body.chain;
  dataset = body.dataset;
  start = body.start;
  end = body.end;
  finality = body.finality;
  selector = body.selector;
  cursor = some cursor;
}

-- `Option::unwrap_or`
abbrev pub unwrap_or : Option ℕ → ℕ → ℕ
unwrap_or none n = n
unwrap_or (some m) n = m

module _ (json : Json) where
  unfoldable pub parse_query_page : Text → Result QueryPage
  parse_query_page body = context (json.query body) Error.invalid_answer >>= λ wire. ok (record {
    served_start = elim wire.served [ none ↦ none | some range ↦ some range.start ];
    served_end = elim wire.served [ none ↦ none | some range ↦ some range.end ];
    incomplete_reason = wire.incomplete_reason;
    next_cursor = wire.next_cursor;
    rows = wire.rows;
  })

  -- `i32::try_from`
  unfoldable pub index_of : ℕ → Result ℕ
  index_of index = if leb index i32_max then ok index else err Error.transaction_index_overflow

  unfoldable pub log_from_row : ℕ → Text → Result DatalensLog
  log_from_row chain_id text = context (json.log text) Error.invalid_answer >>= λ row.
      index_of row.transaction_index >>= λ transaction_index. ok (record {
        id = some (
            digits 20 chain_id
            ++ codes "-"
            ++ digits 20 row.block_number
            ++ codes "-"
            ++ row.transaction_hash
            ++ codes "-"
            ++ digits 20 row.log_index);
        chain_id = chain_id;
        block_number = row.block_number;
        block_hash = some row.block_hash;
        parent_hash = none;
        block_timestamp = row.block_timestamp;
        transaction_hash = row.transaction_hash;
        transaction_index = some transaction_index;
        log_index = row.log_index;
        address = row.address;
        transaction_from = row.transaction_from;
        topics = row.topics;
        payload = row.payload;
      })

  unfoldable pub block_from_row : ℕ → Text → Result DatalensBlock
  block_from_row chain_id text = context (json.block text) Error.invalid_answer >>= λ row.
      ok (record {
        chain_id = chain_id;
        block_number = row.number;
        block_hash = row.hash;
        parent_hash = some row.parent_hash;
      })

  -- The rows are read in order; a log outside of the range is left out, and a failure ends the call.
  unfoldable pub logs_between : ℕ → ℕ → ℕ → List Text → Result (List DatalensLog)
  logs_between served_start served_end chain_id [] = ok []
  logs_between served_start served_end chain_id (row ∷ rows) = log_from_row chain_id row >>= λ log.
      logs_between served_start served_end chain_id rows >>= λ logs. ok (
        if leb served_start log.block_number && leb log.block_number served_end
        then log ∷ logs
        else logs)

  unfoldable pub logs_from_page : QueryPage → ℕ → Result (List DatalensLog)
  logs_from_page page chain_id = elim page.served_start [
    | none ↦ ok []
    | some served_start ↦
        logs_between served_start (unwrap_or page.served_end served_start) chain_id page.rows
  ]

  unfoldable pub blocks_from_rows : ℕ → List Text → Result (List DatalensBlock)
  blocks_from_rows chain_id [] = ok []
  blocks_from_rows chain_id (row ∷ rows) = block_from_row chain_id row >>= λ block.
      blocks_from_rows chain_id rows >>= λ blocks. ok (block ∷ blocks)

  unfoldable pub blocks_from_page : QueryPage → ℕ → Result (List DatalensBlock)
  unfolding blocks_from_rows
  blocks_from_page page chain_id = blocks_from_rows chain_id page.rows
