-- ===== src/Decoder/Evm.antt =====
-- A log becomes an event (src/decoder/evm.rs, src/decoder/types.rs): its first topic says which. The
-- timestamp and the topics are those of the log; `id` and the hash of the block are copied.
pub mod Events
use ormpindexer.Base.{
  ℕ, Bool, Option, none, some, List, [], ◌∷◌, map, Text, text_eq, leb, if◌then◌else◌, get_elem?,
  Result, ok, err, Error, context, transpose, ◌>>=◌, i32_max, map_result,
}
use ormpindexer.Base.Action.{Action, lift, bail, pure}
use ormpindexer.Datalens.Types.{DatalensLog}
use ormpindexer.Decoder.Hex.{normalize_hex, decode_hex, normalize_block_timestamp}
use ormpindexer.Decoder.Abi.{Packages}
use ormpindexer.Decoder.Events.Ormp.{
  decode_hash_imported, decode_message_accepted, decode_message_assigned, decode_message_dispatched,
}
use ormpindexer.Decoder.Events.Port.{
  decode_msgport_message_recv, decode_msgport_message_sent, decode_signature_submittion,
}
use ormpindexer.Planner.{
  msgport_message_recv_topic, msgport_message_sent_topic, ormp_hash_imported_topic,
  ormp_message_accepted_topic, ormp_message_assigned_topic, ormp_message_dispatched_topic,
  signature_pub_signature_submittion_topic,
}
use ormpindexer.Runner.Interfaces.{EventDecoder}
use ormpindexer.Schema.Types.{ChainLogMetadata, LegacyEvent}

-- `Option::map` with a function that may fail, then `transpose`
abbrev pub normalize_optional : Option Text → Result (Option Text)
normalize_optional none = ok none
normalize_optional (some value) = transpose (some (normalize_hex value))

-- `i32::try_from`
unfoldable pub as_i32 : ℕ → Result ℕ
as_i32 value = if leb value i32_max then ok value else err Error.log_index_overflow

unfoldable pub block_timestamp_of : DatalensLog → Result ℕ
block_timestamp_of log = context log.block_timestamp Error.missing_timestamp >>= λ timestamp.
    context (normalize_block_timestamp timestamp) Error.timestamp_overflow

unfoldable pub evm_metadata : DatalensLog → Result ChainLogMetadata
evm_metadata log = do
  block_timestamp ← block_timestamp_of log
  id ← context log.id Error.missing_id
  transaction_hash ← normalize_hex log.transaction_hash
  transaction_index ← context log.transaction_index Error.missing_transaction_index
  log_index ← as_i32 log.log_index
  contract_address ← normalize_hex log.address
  transaction_from ← normalize_optional log.transaction_from
  ok (record {
    id = id;
    chain_id = log.chain_id;
    block_number = log.block_number;
    block_hash = log.block_hash;
    block_timestamp = block_timestamp;
    transaction_hash = transaction_hash;
    transaction_index = transaction_index;
    log_index = log_index;
    contract_address = contract_address;
    transaction_from = transaction_from;
  })

-- The `match` on the first topic.
unfoldable pub decode_topic0 :
    (p : Packages)
    → ChainLogMetadata
    → List Text
    → List ℕ
    → Text
    → Action (List p.Token) LegacyEvent
decode_topic0 p metadata topics payload topic0 =
    if text_eq topic0 ormp_hash_imported_topic
    then decode_hash_imported p metadata topics payload
    else if text_eq topic0 ormp_message_accepted_topic
    then decode_message_accepted p metadata topics payload
    else if text_eq topic0 ormp_message_assigned_topic
    then decode_message_assigned p metadata topics payload
    else if text_eq topic0 ormp_message_dispatched_topic
    then decode_message_dispatched p metadata topics payload
    else if text_eq topic0 msgport_message_recv_topic
    then decode_msgport_message_recv p metadata topics payload
    else if text_eq topic0 msgport_message_sent_topic
    then decode_msgport_message_sent p metadata topics payload
    else if text_eq topic0 signature_pub_signature_submittion_topic
    then decode_signature_submittion p metadata topics payload
    else bail Error.unsupported_topic0

unfoldable pub topic0_of : List Text → Result Text
topic0_of topics =
    normalize_optional (get_elem? topics 0) >>= λ topic0. context topic0 Error.missing_topic0

unfoldable pub decode_evm_log : Packages → DatalensLog → Result LegacyEvent
decode_evm_log p log = do
  topic0 ← topic0_of log.topics
  metadata ← evm_metadata log
  payload ← decode_hex p.hex_decode log.payload
  (decode_topic0 p metadata log.topics payload topic0 []).0

-- `EvmEventDecoder`
abbrev pub evm_event_decoder : {W : Type 0} → Packages → EventDecoder W
evm_event_decoder p = record {
  decode = λ log. lift (decode_evm_log p log >>= λ event. ok (event ∷ []));
}

-- `NoopDecoder`
abbrev pub noop_decoder : {W : Type 0} → EventDecoder W
noop_decoder = record { decode = λ log. pure [] }
