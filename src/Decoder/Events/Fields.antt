-- ===== src/Decoder/Events/Fields.antt =====
-- The fields of a decoded event (src/decoder/abi.rs): texts of digits and numbers of 128 bits.
use ormpindexer.Base.{◌≡◌, ◌≤◌, Text, u128_max, List}
use ormpindexer.Base.Action.{Action}
use ormpindexer.Base.Ends.{Ends}
use ormpindexer.Decoder.Failures.{Expected}
use ormpindexer.Decoder.Abi.{Packages}
use ormpindexer.Decoder.Topics.Sizes.{IsHex}
use ormpindexer.Decoder.Abi.Typed.{IsHexText}
use ormpindexer.Planner.{
  msgport_message_recv_topic, msgport_message_sent_topic, ormp_hash_imported_topic,
  ormp_message_accepted_topic, ormp_message_assigned_topic, ormp_message_dispatched_topic,
  signature_pub_signature_submittion_topic,
}
use ormpindexer.Schema.Types.{
  ChainLogMetadata, LegacyEvent, hash_imported, message_accepted, message_assigned,
  message_dispatched, msgport_message_recv, msgport_message_sent, signature_submittion,
}

-- Hashes have 32 bytes, addresses 20, other texts any number; numbers are below 2 ^ 128. Where the
-- event names its own chain as the target, that is the chain of its log.
abbrev pub HasFields : LegacyEvent → Type 0
HasFields (hash_imported e) =
    IsHex 20 e.oracle
    × e.src_chain_id ≤ u128_max
    × IsHex 20 e.channel
    × e.msg_index ≤ u128_max
    × IsHex 32 e.hash
    × (e.target_chain_id ≡ e.metadata.chain_id)
HasFields (message_accepted e) =
    IsHex 32 e.msg_hash
    × IsHex 20 e.channel
    × e.index ≤ u128_max
    × e.from_chain_id ≤ u128_max
    × IsHex 20 e.from
    × e.to_chain_id ≤ u128_max
    × IsHex 20 e.to
    × e.gas_limit ≤ u128_max
    × IsHexText e.encoded
HasFields (message_assigned e) =
    IsHex 32 e.msg_hash
    × IsHex 20 e.oracle
    × IsHex 20 e.relayer
    × e.oracle_fee ≤ u128_max
    × e.relayer_fee ≤ u128_max
    × IsHexText e.params
HasFields (message_dispatched e) = IsHex 32 e.msg_hash × (e.target_chain_id ≡ e.metadata.chain_id)
HasFields (msgport_message_recv e) = IsHex 32 e.msg_id × IsHexText e.return_data
HasFields (msgport_message_sent e) =
    IsHex 32 e.msg_id
    × IsHex 20 e.from_dapp
    × e.to_chain_id ≤ u128_max
    × IsHex 20 e.to_dapp
    × IsHexText e.message
    × IsHexText e.params
HasFields (signature_submittion e) =
    e.chain_id ≤ u128_max
    × IsHex 20 e.channel
    × IsHex 20 e.signer
    × e.msg_index ≤ u128_max
    × IsHexText e.signature
    × IsHexText e.payload

-- The topic that names the event.
unfoldable pub topic_of : LegacyEvent → Text
topic_of (hash_imported e) = ormp_hash_imported_topic
topic_of (message_accepted e) = ormp_message_accepted_topic
topic_of (message_assigned e) = ormp_message_assigned_topic
topic_of (message_dispatched e) = ormp_message_dispatched_topic
topic_of (msgport_message_recv e) = msgport_message_recv_topic
topic_of (msgport_message_sent e) = msgport_message_sent_topic
topic_of (signature_submittion e) = signature_pub_signature_submittion_topic

unfoldable pub metadata_of : LegacyEvent → ChainLogMetadata
metadata_of (hash_imported e) = e.metadata
metadata_of (message_accepted e) = e.metadata
metadata_of (message_assigned e) = e.metadata
metadata_of (message_dispatched e) = e.metadata
metadata_of (msgport_message_recv e) = e.metadata
metadata_of (msgport_message_sent e) = e.metadata
metadata_of (signature_submittion e) = e.metadata

-- The event of a topic with this metadata.
pub record IsDecoded (topic : Text) (metadata : ChainLogMetadata) (event : LegacyEvent)
    : Type 0 where
  pub named : topic_of event ≡ topic
  pub same_metadata : metadata_of event ≡ metadata
  pub fields : HasFields event

-- A call ends in the event of a topic.
abbrev pub Decodes :
    (p : Packages)
    → Text
    → ChainLogMetadata
    → Action (List p.Token) LegacyEvent
    → List p.Token
    → Type 0
Decodes p topic metadata m w = Ends (λ event _. IsDecoded topic metadata event) Expected m w
