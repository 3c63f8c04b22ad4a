-- ===== src/Recovery/Decode.antt =====
-- The checks and the decoding of the logs of a range (`decode_range` of src/tron_recovery/scan.rs).
pub mod Checked
use ormpindexer.Base.{
  ℕ, zero, suc, ◌+◌, ◌-◌, ◌/◌, min, ◌&&◌, ◌||◌, not, Bool, true, false, Option, none, some, List,
  [], ◌∷◌, ◌++◌, Text, codes, text_eq, to_ascii_lowercase, eq_ignore_ascii_case, leb, ltb, ◌==◌,
  if◌then◌else◌, any, length, u64_max, i32_max, saturating_add, checked_add, Result, ok, err, Error,
  ensure, context, get_elem?,
}
use ormpindexer.Base.Action.{Action, pure, lift, bail, ◌>>=◌, ◌>>◌}
use ormpindexer.Base.BTreeMap.{BTreeMap, get, insert}
use ormpindexer.Base.Order.{nat_order, text_order}
use ormpindexer.Datalens.Types.{DatalensLog}
use ormpindexer.Decoder.Abi.{Packages}
use ormpindexer.Decoder.Evm.{decode_evm_log}
use ormpindexer.Planner.{
  msgport_message_sent_topic, ormp_message_accepted_topic, ormp_message_assigned_topic,
}
use ormpindexer.Recovery.Rpc.{
  tron_chain_id, ormp, msgport, RpcLog, RpcBlock, RpcTransaction, hex_u64, quantity, text, TronRpc,
}
use ormpindexer.Schema.Ids.{digits}
use ormpindexer.Schema.Types.{LegacyEvent, message_accepted}

-- What `decode_range` has fetched, seen and decoded so far.
pub record Scanned : Type 0 where
  pub blocks : BTreeMap ℕ RpcBlock
  pub transactions : BTreeMap Text RpcTransaction
  pub seen : List (ℕ × ℕ)
  pub events : List LegacyEvent

abbrev pub is_seen : ℕ → ℕ → List (ℕ × ℕ) → Bool
is_seen number index seen = any (λ p. p.0 == number && p.1 == index) seen

abbrev pub is_expected : Text → Text → Bool
is_expected address topic =
    (text_eq address ormp
      && (text_eq topic ormp_message_accepted_topic || text_eq topic ormp_message_assigned_topic))
    || (text_eq address msgport && text_eq topic msgport_message_sent_topic)

-- An accepted message comes from this chain.
abbrev pub is_own : LegacyEvent → Bool
is_own (message_accepted e) = e.from_chain_id == tron_chain_id
is_own _ = true

module _ {W : Type 0} (p : Packages) (rpc : TronRpc W) where
  -- The first checks of a log, and its block and index.
  unfoldable pub position_of : ℕ → ℕ → List (ℕ × ℕ) → RpcLog → Action W (ℕ × ℕ)
  position_of start end seen log = do
    number ← lift (hex_u64 log.block_number)
    lift (ensure (leb start number && (leb number end && not log.removed)) Error.unrequested_log)
    topic ← lift (context (get_elem? log.topics 0) Error.missing_topic0)
    lift (ensure (is_expected (to_ascii_lowercase log.address) topic) Error.unsupported_topic0)
    index ← lift (hex_u64 log.log_index)
    lift (ensure (not (is_seen number index seen)) Error.duplicate_position)
    pure (number, index)

  unfoldable pub fetch_block : ℕ → Action W RpcBlock
  fetch_block number = do
    block ← rpc.block number
    told ← lift (quantity block.number)
    lift (ensure (told == number) Error.metadata_mismatch)
    pure block

  unfoldable pub block_of : ℕ → BTreeMap ℕ RpcBlock → Action W RpcBlock
  unfolding fetch_block
  block_of number blocks = elim (get number blocks) [
    | none ↦ fetch_block number
    | some block ↦ pure block
  ]

  unfoldable pub transaction_of : Text → BTreeMap Text RpcTransaction → Action W RpcTransaction
  transaction_of hash transactions = elim (get hash transactions) [
    | none ↦ rpc.transaction hash
    | some tx ↦ pure tx
  ]

  -- The checks of a log's transaction. The conditions are evaluated up to the first that fails.
  unfoldable pub check_transaction : ℕ → RpcLog → RpcTransaction → Action W (Unit {0})
  check_transaction number log tx = do
    hash ← lift (text tx.hash)
    lift (ensure (eq_ignore_ascii_case hash log.transaction_hash) Error.metadata_mismatch)
    block_hash ← lift (text tx.block_hash)
    lift (ensure (eq_ignore_ascii_case block_hash log.block_hash) Error.metadata_mismatch)
    block_number ← lift (quantity tx.block_number)
    lift (ensure (block_number == number) Error.metadata_mismatch)
    told ← lift (quantity tx.transaction_index)
    index ← lift (hex_u64 log.transaction_index)
    lift (ensure (told == index) Error.metadata_mismatch)

  -- The log in the form of the other service's logs.
  unfoldable pub normalized : ℕ → ℕ → RpcLog → RpcBlock → RpcTransaction → Action W DatalensLog
  normalized number index log block tx = do
    parent_hash ← lift (text block.parent_hash)
    timestamp ← lift (quantity block.timestamp)
    transaction_index ← lift (hex_u64 log.transaction_index)
    lift (ensure (leb transaction_index i32_max) Error.index_overflow)
    from ← lift (text tx.from)
    pure (record {
      id = some (
          codes "tron-"
          ++ digits 20 number
          ++ codes "-"
          ++ to_ascii_lowercase log.transaction_hash
          ++ codes "-"
          ++ digits 20 index);
      chain_id = tron_chain_id;
      block_number = number;
      block_hash = some log.block_hash;
      parent_hash = some parent_hash;
      block_timestamp = some timestamp;
      transaction_hash = log.transaction_hash;
      transaction_index = some transaction_index;
      log_index = index;
      address = to_ascii_lowercase log.address;
      transaction_from = some (to_ascii_lowercase from);
      topics = log.topics;
      payload = log.payload;
    })

  -- One round of the loop in `decode_range`.
  unfoldable pub decode_log : ℕ → ℕ → Scanned → RpcLog → Action W Scanned
  decode_log start end s log = do
    at ← position_of start end s.seen log
    block ← block_of at.0 s.blocks
    block_hash ← lift (text block.hash)
    lift (ensure (eq_ignore_ascii_case block_hash log.block_hash) Error.metadata_mismatch)
    tx ← transaction_of log.transaction_hash s.transactions
    check_transaction at.0 log tx
    datalens_log ← normalized at.0 at.1 log block tx
    event ← lift (decode_evm_log p datalens_log)
    lift (ensure (is_own event) Error.source_mismatch)
    pure (record {
      blocks = insert at.0 block s.blocks;
      transactions = insert log.transaction_hash tx s.transactions;
      seen = (at.0, at.1) ∷ s.seen;
      events = s.events ++ (event ∷ []);
    })

  unfoldable pub decode_logs : ℕ → ℕ → Scanned → List RpcLog → Action W (List LegacyEvent)
  decode_logs start end s [] = pure s.events
  decode_logs start end s (log ∷ rest) = do
    s' ← decode_log start end s log
    decode_logs start end s' rest

  unfoldable pub decode_range : List RpcLog → ℕ → ℕ → Action W (List LegacyEvent)
  unfolding decode_logs
  decode_range found start end =
      decode_logs start end (record { blocks = []; transactions = []; seen = []; events = [] })
        found
