-- ===== src/Decoder/Tests.antt =====
-- The decoder's theorems at concrete inputs.
use ormpindexer.Base.{ℕ, ◌≡◌, refl, true, none, some, [], ◌∷◌, ◌++◌, Text, codes, ok, err, Error}
use ormpindexer.Datalens.Types.{DatalensLog}
use ormpindexer.Base.Trim.{trim, trim_by, front_space, back_space}
use ormpindexer.Decoder.Hex.{normalize_hex, decode_hex, normalize_block_timestamp}
use ormpindexer.Decoder.Hex.Normal.{IsNormal, normalize_hex_lem, normalize_block_timestamp_lem}
use ormpindexer.Decoder.Abi.{decode_event}
use ormpindexer.Decoder.Evm.{decode_evm_log, evm_metadata, topic0_of}
use ormpindexer.Decoder.Evm.Events.{decode_evm_log-IsDecoded, decode_evm_log-Expected}
use ormpindexer.Base.Action.{◌>>=◌}
use ormpindexer.Decoder.Failures.{Expected}
use ormpindexer.Decoder.Topics.{topic_fixed_bytes, normal_topic}
use ormpindexer.Decoder.Abi.{take_as, take, token_bool}
use ormpindexer.Decoder.Evm.{block_timestamp_of, as_i32, decode_topic0}
use ormpindexer.Decoder.Events.Ormp.{decode_message_dispatched, indexed_message_dispatched}
use ormpindexer.Decoder.Events.Fields.{IsDecoded}
use ormpindexer.Schema.Ids.{strip_hex_prefix}
use ormpindexer.Schema.Types.{ChainLogMetadata, LegacyEvent, message_dispatched}
use ormpindexer.Base.{to_ascii_lowercase, text_eq}
use ormpindexer.Planner.{ormp_message_dispatched_topic}
use ormpindexer.Decoder.Zeros.{zero_packages, zero_packages-Documented}

-- The dispatch of the message with hash 0x00ab…, by an indexed topic in upper case.
abbrev hash : Text
hash = codes "00ab000000000000000000000000000000000000000000000000000000000000"

abbrev log : DatalensLog
log = record {
  id = some (codes "1");
  chain_id = 1;
  block_number = 20;
  block_hash = none;
  parent_hash = none;
  block_timestamp = some 1700000000;
  transaction_hash = codes "0XAB";
  transaction_index = some 3;
  log_index = 4;
  address = codes " 0xCD ";
  transaction_from = none;
  topics =
      ormp_message_dispatched_topic
      ∷ codes "0X00AB000000000000000000000000000000000000000000000000000000000000"
      ∷ [];
  payload = codes "0x";
}

abbrev event : LegacyEvent
event = message_dispatched (record {
  metadata = record {
    id = codes "1";
    chain_id = 1;
    block_number = 20;
    block_hash = none;
    block_timestamp = 1700000000000;
    transaction_hash = codes "0xab";
    transaction_index = 3;
    log_index = 4;
    contract_address = codes "0xcd";
    transaction_from = none;
  };
  target_chain_id = 1;
  msg_hash = codes "0x" ++ hash;
  dispatch_result = true;
})

decoded : decode_evm_log zero_packages log ≡ ok event
unfolding decode_evm_log topic0_of evm_metadata block_timestamp_of as_i32 normalize_hex trim trim_by
    front_space back_space strip_hex_prefix to_ascii_lowercase normalize_block_timestamp decode_hex
    decode_topic0 text_eq decode_message_dispatched indexed_message_dispatched decode_event
    topic_fixed_bytes normal_topic take_as take token_bool ◌>>=◌
decoded = refl

decode_evm_log-IsDecoded_example :
    (topic0 : Text) × (metadata : ChainLogMetadata) × (topic0_of log.topics ≡ ok topic0)
    × (evm_metadata log ≡ ok metadata)
    × IsDecoded topic0 metadata event
decode_evm_log-IsDecoded_example =
    decode_evm_log-IsDecoded zero_packages-Documented log event decoded

-- The same log without its transaction's index.
abbrev partial : DatalensLog
partial = record {
  id = some (codes "1");
  chain_id = 1;
  block_number = 20;
  block_hash = none;
  parent_hash = none;
  block_timestamp = some 1700000000;
  transaction_hash = codes "0XAB";
  transaction_index = none;
  log_index = 4;
  address = codes " 0xCD ";
  transaction_from = none;
  topics = ormp_message_dispatched_topic ∷ [];
  payload = codes "0x";
}

refused : decode_evm_log zero_packages partial ≡ err Error.missing_transaction_index
unfolding decode_evm_log topic0_of evm_metadata block_timestamp_of as_i32 normalize_hex trim trim_by
    front_space back_space strip_hex_prefix to_ascii_lowercase normalize_block_timestamp decode_hex
    decode_topic0 text_eq ◌>>=◌
refused = refl

decode_evm_log-Expected_example : Expected Error.missing_transaction_index
decode_evm_log-Expected_example =
    decode_evm_log-Expected zero_packages-Documented partial Error.missing_transaction_index refused

normal_address : normalize_hex (codes " 0xCD ") ≡ ok (codes "0xcd")
unfolding normalize_hex trim trim_by front_space back_space strip_hex_prefix to_ascii_lowercase
normal_address = refl

normalize_hex_lem_example :
    IsNormal (codes "0xcd") × (normalize_hex (codes "0xcd") ≡ ok (codes "0xcd"))
normalize_hex_lem_example = normalize_hex_lem (codes " 0xCD ") (codes "0xcd") normal_address

normalize_block_timestamp_lem_example :
    (r : ℕ) × (normalize_block_timestamp 1700000000 ≡ some r)
    × (normalize_block_timestamp r ≡ some r)
normalize_block_timestamp_lem_example = normalize_block_timestamp_lem 1700000000
