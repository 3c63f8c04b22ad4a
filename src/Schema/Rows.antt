-- ===== src/Schema/Rows.antt =====
-- The rows of the tables (src/schema/rows.rs). Each `from_event` takes the one case of the event that
-- it is made for; its other arm, a panic, is out of reach, since the only caller has matched before.
use ormpindexer.Base.{ℕ, Bool, Option, none, Text}
use ormpindexer.Schema.Types.{
  HashImported, MessageAccepted, MessageAssigned, MessageDispatched, MsgportMessageRecv,
  MsgportMessageSent, SignatureSubmittion,
}
use ormpindexer.Schema.Ids.{legacy_event_log_id}

pub record OrmpHashImportedRow : Type 0 where
  pub id : Text
  pub block_number : ℕ
  pub transaction_hash : Text
  pub block_timestamp : ℕ
  pub chain_id : ℕ
  pub src_chain_id : ℕ
  pub target_chain_id : ℕ
  pub oracle : Text
  pub channel : Text
  pub msg_index : ℕ
  pub hash : Text

unfoldable pub hash_imported_row : HashImported → OrmpHashImportedRow
hash_imported_row event = record {
  id = event.hash;
  block_number = event.metadata.block_number;
  transaction_hash = event.metadata.transaction_hash;
  block_timestamp = event.metadata.block_timestamp;
  chain_id = event.metadata.chain_id;
  src_chain_id = event.src_chain_id;
  target_chain_id = event.target_chain_id;
  oracle = event.oracle;
  channel = event.channel;
  msg_index = event.msg_index;
  hash = event.hash;
}

pub record OrmpMessageDispatchedRow : Type 0 where
  pub id : Text
  pub block_number : ℕ
  pub transaction_hash : Text
  pub block_timestamp : ℕ
  pub chain_id : ℕ
  pub target_chain_id : ℕ
  pub msg_hash : Text
  pub dispatch_result : Bool

unfoldable pub message_dispatched_row : MessageDispatched → OrmpMessageDispatchedRow
message_dispatched_row event = record {
  id = event.msg_hash;
  block_number = event.metadata.block_number;
  transaction_hash = event.metadata.transaction_hash;
  block_timestamp = event.metadata.block_timestamp;
  chain_id = event.metadata.chain_id;
  target_chain_id = event.target_chain_id;
  msg_hash = event.msg_hash;
  dispatch_result = event.dispatch_result;
}

pub record OrmpMessageAssignedRow : Type 0 where
  pub id : Text
  pub block_number : ℕ
  pub transaction_hash : Text
  pub block_timestamp : ℕ
  pub chain_id : ℕ
  pub msg_hash : Text
  pub oracle : Text
  pub relayer : Text
  pub oracle_fee : ℕ
  pub relayer_fee : ℕ
  pub params : Text

unfoldable pub message_assigned_row : MessageAssigned → OrmpMessageAssignedRow
message_assigned_row event = record {
  id = event.metadata.id;
  block_number = event.metadata.block_number;
  transaction_hash = event.metadata.transaction_hash;
  block_timestamp = event.metadata.block_timestamp;
  chain_id = event.metadata.chain_id;
  msg_hash = event.msg_hash;
  oracle = event.oracle;
  relayer = event.relayer;
  oracle_fee = event.oracle_fee;
  relayer_fee = event.relayer_fee;
  params = event.params;
}

pub record MsgportMessageRecvRow : Type 0 where
  pub id : Text
  pub block_number : ℕ
  pub transaction_hash : Text
  pub block_timestamp : ℕ
  pub transaction_index : ℕ
  pub log_index : ℕ
  pub chain_id : ℕ
  pub port_address : Text
  pub msg_id : Text
  pub result : Bool
  pub return_data : Text

unfoldable pub msgport_message_recv_row : MsgportMessageRecv → MsgportMessageRecvRow
msgport_message_recv_row event = record {
  id = legacy_event_log_id event.metadata;
  block_number = event.metadata.block_number;
  transaction_hash = event.metadata.transaction_hash;
  block_timestamp = event.metadata.block_timestamp;
  transaction_index = event.metadata.transaction_index;
  log_index = event.metadata.log_index;
  chain_id = event.metadata.chain_id;
  port_address = event.metadata.contract_address;
  msg_id = event.msg_id;
  result = event.result;
  return_data = event.return_data;
}

pub record MsgportMessageSentRow : Type 0 where
  pub id : Text
  pub block_number : ℕ
  pub transaction_hash : Text
  pub block_timestamp : ℕ
  pub transaction_index : ℕ
  pub log_index : ℕ
  pub chain_id : ℕ
  pub port_address : Text
  pub transaction_from : Option Text
  pub from_chain_id : ℕ
  pub msg_id : Text
  pub from_dapp : Text
  pub to_chain_id : ℕ
  pub to_dapp : Text
  pub message : Text
  pub params : Text

unfoldable pub msgport_message_sent_row : MsgportMessageSent → MsgportMessageSentRow
msgport_message_sent_row event = record {
  id = legacy_event_log_id event.metadata;
  block_number = event.metadata.block_number;
  transaction_hash = event.metadata.transaction_hash;
  block_timestamp = event.metadata.block_timestamp;
  transaction_index = event.metadata.transaction_index;
  log_index = event.metadata.log_index;
  chain_id = event.metadata.chain_id;
  port_address = event.metadata.contract_address;
  transaction_from = event.metadata.transaction_from;
  from_chain_id = event.metadata.chain_id;
  msg_id = event.msg_id;
  from_dapp = event.from_dapp;
  to_chain_id = event.to_chain_id;
  to_dapp = event.to_dapp;
  message = event.message;
  params = event.params;
}

pub record SignaturePubSignatureSubmittionRow : Type 0 where
  pub id : Text
  pub block_number : ℕ
  pub transaction_hash : Text
  pub block_timestamp : ℕ
  pub chain_id : ℕ
  pub channel : Text
  pub signer : Text
  pub msg_index : ℕ
  pub signature : Text
  pub payload : Text

unfoldable pub signature_submittion_row : SignatureSubmittion → SignaturePubSignatureSubmittionRow
signature_submittion_row event = record {
  id = legacy_event_log_id event.metadata;
  block_number = event.metadata.block_number;
  transaction_hash = event.metadata.transaction_hash;
  block_timestamp = event.metadata.block_timestamp;
  chain_id = event.chain_id;
  channel = event.channel;
  signer = event.signer;
  msg_index = event.msg_index;
  signature = event.signature;
  payload = event.payload;
}

pub record OrmpMessageAcceptedRow : Type 0 where
  pub id : Text
  pub block_number : ℕ
  pub transaction_hash : Text
  pub block_timestamp : ℕ
  pub chain_id : ℕ
  pub log_index : ℕ
  pub msg_hash : Text
  pub channel : Text
  pub index : ℕ
  pub from_chain_id : ℕ
  pub from : Text
  pub to_chain_id : ℕ
  pub to : Text
  pub gas_limit : ℕ
  pub encoded : Text
  pub oracle : Option Text
  pub oracle_assigned : Option Bool
  pub oracle_assigned_fee : Option ℕ
  pub relayer : Option Text
  pub relayer_assigned : Option Bool
  pub relayer_assigned_fee : Option ℕ

unfoldable pub message_accepted_row : MessageAccepted → OrmpMessageAcceptedRow
message_accepted_row event = record {
  id = event.msg_hash;
  block_number = event.metadata.block_number;
  transaction_hash = event.metadata.transaction_hash;
  block_timestamp = event.metadata.block_timestamp;
  chain_id = event.metadata.chain_id;
  log_index = event.metadata.log_index;
  msg_hash = event.msg_hash;
  channel = event.channel;
  index = event.index;
  from_chain_id = event.from_chain_id;
  from = event.from;
  to_chain_id = event.to_chain_id;
  to = event.to;
  gas_limit = event.gas_limit;
  encoded = event.encoded;
  oracle = none;
  oracle_assigned = none;
  oracle_assigned_fee = none;
  relayer = none;
  relayer_assigned = none;
  relayer_assigned_fee = none;
}
