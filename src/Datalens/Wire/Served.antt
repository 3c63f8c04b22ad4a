-- ===== src/Datalens/Wire/Served.antt =====
-- The logs that a page is read to (`logs_from_page` of src/datalens/query.rs).
use ormpindexer.Base.{
  sym, context, ok_injective, ℕ, ◌≤◌, ◌≡◌, ◌&&◌, Option, none, some, List, [], ◌∷◌, Text, leb,
  if◌then◌else◌, All, Result, ok, Error, >>=-ok, arith,
}
use ormpindexer.Datalens.Attempts.{QueryPage}
use ormpindexer.Datalens.Types.{DatalensLog}
use ormpindexer.Datalens.Wire.{
  unwrap_or, Json, log_from_row, index_of, logs_between, logs_from_page,
}

-- A log of the chain in a block of the range.
abbrev pub IsBetween : ℕ → ℕ → ℕ → DatalensLog → Type 0
IsBetween first last chain_id log =
    first ≤ log.block_number × log.block_number ≤ last × (log.chain_id ≡ chain_id)

kept :
    (first last chain_id : ℕ) (log : DatalensLog) (logs : List DatalensLog)
    → log.chain_id ≡ chain_id
    → All (IsBetween first last chain_id) logs
    → All
        (IsBetween first last chain_id)
        (if leb first log.block_number && leb log.block_number last then log ∷ logs else logs)
kept first last chain_id log logs same h = ground arith

log_from_row-chain :
    (json : Json) (chain_id : ℕ) (text : Text) (log : DatalensLog)
    → log_from_row json chain_id text ≡ ok log
    → log.chain_id ≡ chain_id
unfolding log_from_row
log_from_row-chain json chain_id text log h =
    let (row, read, h') = >>=-ok (context (json.log text) Error.invalid_answer) _ log h in
    let (index, fits, h'') = >>=-ok (index_of json row.transaction_index) _ log h' in
    sym (ok_injective (λ log. log.chain_id) h'')

pub logs_between-IsBetween :
    (json : Json) (first last chain_id : ℕ) (rows : List Text) (logs : List DatalensLog)
    → logs_between json first last chain_id rows ≡ ok logs
    → All (IsBetween first last chain_id) logs
unfolding logs_between
logs_between-IsBetween json first last chain_id [] logs h =
    let e = ok_injective (λ x. x) h in rw (← e) tt
logs_between-IsBetween json first last chain_id (row ∷ rows) logs h =
    let (log, read, h') = >>=-ok (log_from_row json chain_id row) _ logs h in
    let (rest, found, h'') = >>=-ok (logs_between json first last chain_id rows) _ logs h' in
    let e = ok_injective (λ x. x) h'' in
    rw (← e) (
      kept first last chain_id log rest (log_from_row-chain json chain_id row log read)
        (logs_between-IsBetween json first last chain_id rows rest found))

-- The log is of the chain, and in the blocks that an answer has served. An answer that has served
-- nothing has no log.
abbrev pub IsServed : Option ℕ → Option ℕ → ℕ → DatalensLog → Type 0
IsServed none last chain_id log = ⊥
IsServed (some first) last chain_id log = IsBetween first (unwrap_or last first) chain_id log

IsServed-logs :
    (json : Json) (first last : Option ℕ) (chain_id : ℕ) (rows : List Text)
    (logs : List DatalensLog)
    → elim first as (λ _. Result (List DatalensLog)) [
      | none ↦ ok []
      | some served_start ↦
          logs_between json served_start (unwrap_or last served_start) chain_id rows
    ]
      ≡ ok logs
    → All (IsServed first last chain_id) logs
IsServed-logs json none last chain_id rows logs h = let e = ok_injective (λ x. x) h in rw (← e) tt
IsServed-logs json (some first) last chain_id rows logs h =
    logs_between-IsBetween json first (unwrap_or last first) chain_id rows logs h

pub logs_from_page-IsServed :
    (json : Json) (page : QueryPage) (chain_id : ℕ) (logs : List DatalensLog)
    → logs_from_page json page chain_id ≡ ok logs
    → All (IsServed page.served_start page.served_end chain_id) logs
unfolding logs_from_page
logs_from_page-IsServed json page chain_id logs h =
    IsServed-logs json page.served_start page.served_end chain_id page.rows logs h
