-- ===== src/Decoder/Events/Port.antt =====
-- The events of the message port and of the signature contract (src/decoder/abi.rs).
use ormpindexer.Base.{ℕ, List, [], ◌∷◌, Text, ltb, if◌then◌else◌, length}
use ormpindexer.Base.Action.{Action, pure, lift, ◌>>=◌, ◌>>◌}
use ormpindexer.Decoder.Topics.{topic_fixed_bytes, topic_address, topic_uint}
use ormpindexer.Decoder.Abi.{
  uint, address, fixed_bytes, bytes, bool, atomic, Packages, decode_event, token_address,
  token_fixed_bytes, token_bytes, token_bool, token_uint, take_as,
}
use ormpindexer.Schema.Types.{
  ChainLogMetadata, LegacyEvent, msgport_message_recv, msgport_message_sent, signature_submittion,
}

module _ (p : Packages) (metadata : ChainLogMetadata) (topics : List Text) (payload : List ℕ) where
  unfoldable pub indexed_message_recv : Action (List p.Token) LegacyEvent
  indexed_message_recv = do
    decode_event p (atomic bool ∷ atomic bytes ∷ []) payload
    msg_id ← lift (topic_fixed_bytes topics 1)
    result ← take_as p (token_bool p)
    return_data ← take_as p (token_bytes p)
    pure (
        msgport_message_recv (record {
          metadata = metadata;
          msg_id = msg_id;
          result = result;
          return_data = return_data;
        }))

  unfoldable pub plain_message_recv : Action (List p.Token) LegacyEvent
  plain_message_recv = do
    decode_event p (atomic (fixed_bytes 32) ∷ atomic bool ∷ atomic bytes ∷ []) payload
    msg_id ← take_as p (token_fixed_bytes p)
    result ← take_as p (token_bool p)
    return_data ← take_as p (token_bytes p)
    pure (
        msgport_message_recv (record {
          metadata = metadata;
          msg_id = msg_id;
          result = result;
          return_data = return_data;
        }))

  unfoldable pub decode_msgport_message_recv : Action (List p.Token) LegacyEvent
  decode_msgport_message_recv =
      if ltb 1 (length topics) then indexed_message_recv else plain_message_recv

  -- The part that both branches of `decode_msgport_message_sent` end with.
  unfoldable pub sent_message : Text → Action (List p.Token) LegacyEvent
  sent_message msg_id = do
    from_dapp ← take_as p (token_address p)
    to_chain_id ← take_as p (token_uint p)
    to_dapp ← take_as p (token_address p)
    message ← take_as p (token_bytes p)
    params ← take_as p (token_bytes p)
    pure (
        msgport_message_sent (record {
          metadata = metadata;
          msg_id = msg_id;
          from_dapp = from_dapp;
          to_chain_id = to_chain_id;
          to_dapp = to_dapp;
          message = message;
          params = params;
        }))

  unfoldable pub indexed_message_sent : Action (List p.Token) LegacyEvent
  unfolding sent_message
  indexed_message_sent = do
    decode_event p
        (atomic address ∷ atomic (uint 256) ∷ atomic address ∷ atomic bytes ∷ atomic bytes ∷ [])
        payload
    msg_id ← lift (topic_fixed_bytes topics 1)
    sent_message msg_id

  unfoldable pub plain_message_sent : Action (List p.Token) LegacyEvent
  unfolding sent_message
  plain_message_sent = do
    decode_event p
        (atomic (fixed_bytes 32)
          ∷ atomic address
          ∷ atomic (uint 256)
          ∷ atomic address
          ∷ atomic bytes
          ∷ atomic bytes
          ∷ [])
        payload
    msg_id ← take_as p (token_fixed_bytes p)
    sent_message msg_id

  unfoldable pub decode_msgport_message_sent : Action (List p.Token) LegacyEvent
  decode_msgport_message_sent =
      if ltb 1 (length topics) then indexed_message_sent else plain_message_sent

  -- The part that both branches of `decode_signature_submittion` end with.
  unfoldable pub submitted_signature : ℕ → Text → Text → Action (List p.Token) LegacyEvent
  submitted_signature chain_id channel signer = do
    msg_index ← take_as p (token_uint p)
    signature ← take_as p (token_bytes p)
    submitted ← take_as p (token_bytes p)
    pure (
        signature_submittion (record {
          metadata = metadata;
          chain_id = chain_id;
          channel = channel;
          signer = signer;
          msg_index = msg_index;
          signature = signature;
          payload = submitted;
        }))

  unfoldable pub indexed_signature_submittion : Action (List p.Token) LegacyEvent
  unfolding submitted_signature
  indexed_signature_submittion = do
    decode_event p (atomic (uint 256) ∷ atomic bytes ∷ atomic bytes ∷ []) payload
    chain_id ← lift (topic_uint p.from_str_radix topics 1)
    channel ← lift (topic_address topics 2)
    signer ← lift (topic_address topics 3)
    submitted_signature chain_id channel signer

  unfoldable pub plain_signature_submittion : Action (List p.Token) LegacyEvent
  unfolding submitted_signature
  plain_signature_submittion = do
    decode_event p
        (atomic (uint 256)
          ∷ atomic address
          ∷ atomic address
          ∷ atomic (uint 256)
          ∷ atomic bytes
          ∷ atomic bytes
          ∷ [])
        payload
    chain_id ← take_as p (token_uint p)
    channel ← take_as p (token_address p)
    signer ← take_as p (token_address p)
    submitted_signature chain_id channel signer

  unfoldable pub decode_signature_submittion : Action (List p.Token) LegacyEvent
  decode_signature_submittion =
      if ltb 3 (length topics) then indexed_signature_submittion else plain_signature_submittion
