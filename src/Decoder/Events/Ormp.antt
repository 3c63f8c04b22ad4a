-- ===== src/Decoder/Events/Ormp.antt =====
-- The events of the ORMP contract (src/decoder/abi.rs).
use ormpindexer.Base.{ℕ, List, [], ◌∷◌, Text, ltb, if◌then◌else◌, length}
use ormpindexer.Base.Action.{Action, pure, lift, ◌>>=◌, ◌>>◌}
use ormpindexer.Decoder.Topics.{topic_fixed_bytes, topic_address}
use ormpindexer.Decoder.Abi.{
  AtomType, uint, address, fixed_bytes, bytes, bool, atomic, tuple, Packages, decode_event, take,
  token_address, token_fixed_bytes, token_bytes, token_bool, token_uint, open_message, take_as,
}
use ormpindexer.Schema.Types.{
  ChainLogMetadata, LegacyEvent, hash_imported, message_accepted, message_assigned,
  message_dispatched,
}

-- The `ParamType::Tuple` of a message.
abbrev pub message_type : List AtomType
message_type = address ∷ uint 256 ∷ uint 256 ∷ address ∷ uint 256 ∷ address ∷ uint 256 ∷ bytes ∷ []

module _ (p : Packages) (metadata : ChainLogMetadata) (topics : List Text) (payload : List ℕ) where
  unfoldable pub indexed_hash_imported : Action (List p.Token) LegacyEvent
  indexed_hash_imported = do
    decode_event p
        (atomic (uint 256) ∷ atomic address ∷ atomic (uint 256) ∷ atomic (fixed_bytes 32) ∷ [])
        payload
    oracle ← lift (topic_address topics 1)
    src_chain_id ← take_as p (token_uint p)
    channel ← take_as p (token_address p)
    msg_index ← take_as p (token_uint p)
    hash ← take_as p (token_fixed_bytes p)
    pure (
        hash_imported (record {
          metadata = metadata;
          src_chain_id = src_chain_id;
          target_chain_id = metadata.chain_id;
          oracle = oracle;
          channel = channel;
          msg_index = msg_index;
          hash = hash;
        }))

  unfoldable pub plain_hash_imported : Action (List p.Token) LegacyEvent
  plain_hash_imported = do
    decode_event p
        (atomic address
          ∷ atomic (uint 256)
          ∷ atomic address
          ∷ atomic (uint 256)
          ∷ atomic (fixed_bytes 32)
          ∷ [])
        payload
    oracle ← take_as p (token_address p)
    src_chain_id ← take_as p (token_uint p)
    channel ← take_as p (token_address p)
    msg_index ← take_as p (token_uint p)
    hash ← take_as p (token_fixed_bytes p)
    pure (
        hash_imported (record {
          metadata = metadata;
          src_chain_id = src_chain_id;
          target_chain_id = metadata.chain_id;
          oracle = oracle;
          channel = channel;
          msg_index = msg_index;
          hash = hash;
        }))

  unfoldable pub decode_hash_imported : Action (List p.Token) LegacyEvent
  decode_hash_imported =
      if ltb 1 (length topics) then indexed_hash_imported else plain_hash_imported

  -- The part that both branches of `decode_message_accepted` end with.
  unfoldable pub accepted_message : Text → Action (List p.Token) LegacyEvent
  accepted_message msg_hash = do
    channel ← take_as p (token_address p)
    index ← take_as p (token_uint p)
    from_chain_id ← take_as p (token_uint p)
    from ← take_as p (token_address p)
    to_chain_id ← take_as p (token_uint p)
    to ← take_as p (token_address p)
    gas_limit ← take_as p (token_uint p)
    encoded ← take_as p (token_bytes p)
    pure (
        message_accepted (record {
          metadata = metadata;
          msg_hash = msg_hash;
          channel = channel;
          index = index;
          from_chain_id = from_chain_id;
          from = from;
          to_chain_id = to_chain_id;
          to = to;
          gas_limit = gas_limit;
          encoded = encoded;
        }))

  unfoldable pub indexed_message_accepted : Action (List p.Token) LegacyEvent
  unfolding accepted_message
  indexed_message_accepted = do
    decode_event p (tuple message_type ∷ []) payload
    message ← take p
    open_message p (p.view message)
    msg_hash ← lift (topic_fixed_bytes topics 1)
    accepted_message msg_hash

  unfoldable pub plain_message_accepted : Action (List p.Token) LegacyEvent
  unfolding accepted_message
  plain_message_accepted = do
    decode_event p (atomic (fixed_bytes 32) ∷ tuple message_type ∷ []) payload
    msg_hash ← take_as p (token_fixed_bytes p)
    message ← take p
    open_message p (p.view message)
    accepted_message msg_hash

  unfoldable pub decode_message_accepted : Action (List p.Token) LegacyEvent
  decode_message_accepted =
      if ltb 1 (length topics) then indexed_message_accepted else plain_message_accepted

  unfoldable pub indexed_message_assigned : Action (List p.Token) LegacyEvent
  indexed_message_assigned = do
    decode_event p (atomic (uint 256) ∷ atomic (uint 256) ∷ atomic bytes ∷ []) payload
    msg_hash ← lift (topic_fixed_bytes topics 1)
    oracle ← lift (topic_address topics 2)
    relayer ← lift (topic_address topics 3)
    oracle_fee ← take_as p (token_uint p)
    relayer_fee ← take_as p (token_uint p)
    params ← take_as p (token_bytes p)
    pure (
        message_assigned (record {
          metadata = metadata;
          msg_hash = msg_hash;
          oracle = oracle;
          relayer = relayer;
          oracle_fee = oracle_fee;
          relayer_fee = relayer_fee;
          params = params;
        }))

  unfoldable pub plain_message_assigned : Action (List p.Token) LegacyEvent
  plain_message_assigned = do
    decode_event p
        (atomic (fixed_bytes 32)
          ∷ atomic address
          ∷ atomic address
          ∷ atomic (uint 256)
          ∷ atomic (uint 256)
          ∷ atomic bytes
          ∷ [])
        payload
    msg_hash ← take_as p (token_fixed_bytes p)
    oracle ← take_as p (token_address p)
    relayer ← take_as p (token_address p)
    oracle_fee ← take_as p (token_uint p)
    relayer_fee ← take_as p (token_uint p)
    params ← take_as p (token_bytes p)
    pure (
        message_assigned (record {
          metadata = metadata;
          msg_hash = msg_hash;
          oracle = oracle;
          relayer = relayer;
          oracle_fee = oracle_fee;
          relayer_fee = relayer_fee;
          params = params;
        }))

  unfoldable pub decode_message_assigned : Action (List p.Token) LegacyEvent
  decode_message_assigned =
      if ltb 3 (length topics) then indexed_message_assigned else plain_message_assigned

  unfoldable pub indexed_message_dispatched : Action (List p.Token) LegacyEvent
  indexed_message_dispatched = do
    decode_event p (atomic bool ∷ []) payload
    msg_hash ← lift (topic_fixed_bytes topics 1)
    dispatch_result ← take_as p (token_bool p)
    pure (
        message_dispatched (record {
          metadata = metadata;
          target_chain_id = metadata.chain_id;
          msg_hash = msg_hash;
          dispatch_result = dispatch_result;
        }))

  unfoldable pub plain_message_dispatched : Action (List p.Token) LegacyEvent
  plain_message_dispatched = do
    decode_event p (atomic (fixed_bytes 32) ∷ atomic bool ∷ []) payload
    msg_hash ← take_as p (token_fixed_bytes p)
    dispatch_result ← take_as p (token_bool p)
    pure (
        message_dispatched (record {
          metadata = metadata;
          target_chain_id = metadata.chain_id;
          msg_hash = msg_hash;
          dispatch_result = dispatch_result;
        }))

  unfoldable pub decode_message_dispatched : Action (List p.Token) LegacyEvent
  decode_message_dispatched =
      if ltb 1 (length topics) then indexed_message_dispatched else plain_message_dispatched
