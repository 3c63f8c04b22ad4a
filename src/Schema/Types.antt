-- ===== src/Schema/Types.antt =====
-- The decoded events and the metadata of their log (src/schema/types.rs). `EventSource` has one case,
-- EVM, and is left out. The field `data` of the source is `payload` here.
use ormpindexer.Base.{ℕ, Bool, Option, Text}

pub record ChainLogMetadata : Type 0 where
  pub id : Text
  pub chain_id : ℕ
  pub block_number : ℕ
  pub block_hash : Option Text
  pub block_timestamp : ℕ
  pub transaction_hash : Text
  pub transaction_index : ℕ
  pub log_index : ℕ
  pub contract_address : Text
  pub transaction_from : Option Text

pub record HashImported : Type 0 where
  pub metadata : ChainLogMetadata
  pub src_chain_id : ℕ
  pub target_chain_id : ℕ
  pub oracle : Text
  pub channel : Text
  pub msg_index : ℕ
  pub hash : Text

pub record MessageAccepted : Type 0 where
  pub metadata : ChainLogMetadata
  pub msg_hash : Text
  pub channel : Text
  pub index : ℕ
  pub from_chain_id : ℕ
  pub from : Text
  pub to_chain_id : ℕ
  pub to : Text
  pub gas_limit : ℕ
  pub encoded : Text

pub record MessageAssigned : Type 0 where
  pub metadata : ChainLogMetadata
  pub msg_hash : Text
  pub oracle : Text
  pub relayer : Text
  pub oracle_fee : ℕ
  pub relayer_fee : ℕ
  pub params : Text

pub record MessageDispatched : Type 0 where
  pub metadata : ChainLogMetadata
  pub target_chain_id : ℕ
  pub msg_hash : Text
  pub dispatch_result : Bool

pub record MsgportMessageRecv : Type 0 where
  pub metadata : ChainLogMetadata
  pub msg_id : Text
  pub result : Bool
  pub return_data : Text

pub record MsgportMessageSent : Type 0 where
  pub metadata : ChainLogMetadata
  pub msg_id : Text
  pub from_dapp : Text
  pub to_chain_id : ℕ
  pub to_dapp : Text
  pub message : Text
  pub params : Text

pub record SignatureSubmittion : Type 0 where
  pub metadata : ChainLogMetadata
  pub chain_id : ℕ
  pub channel : Text
  pub signer : Text
  pub msg_index : ℕ
  pub signature : Text
  pub payload : Text

-- `LegacyOrmPEvent`
pub data LegacyEvent : Type 0 where
  hash_imported : HashImported → LegacyEvent
  message_accepted : MessageAccepted → LegacyEvent
  message_assigned : MessageAssigned → LegacyEvent
  message_dispatched : MessageDispatched → LegacyEvent
  msgport_message_recv : MsgportMessageRecv → LegacyEvent
  msgport_message_sent : MsgportMessageSent → LegacyEvent
  signature_submittion : SignatureSubmittion → LegacyEvent
