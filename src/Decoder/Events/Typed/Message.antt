-- ===== src/Decoder/Events/Typed/Message.antt =====
-- Every branch of the functions that decode an event ends in one with its fields, or in a failure that
-- a log can lead to (src/decoder/abi.rs): imported hashes and accepted messages.
use ormpindexer.Base.{length, map, ltb, ℕ, refl, List, Text}
use ormpindexer.Base.Ends.{Ends-pure, Ends-if, Ends-bind, Ends-lift}
use ormpindexer.Decoder.Topics.Sizes.{IsHex, topic_fixed_bytes-IsHex, topic_address-IsHex}
use ormpindexer.Decoder.Failures.{topic_fixed_bytes-Expected, topic_address-Expected}
use ormpindexer.Decoder.Abi.{atomic, Packages}
use ormpindexer.Decoder.Abi.Typed.{Pairwise, Documented, HasType}
use ormpindexer.Decoder.Abi.Readers.{
  take-Ends, take_as-Ends, token_uint-Reads, token_address-Reads, token_fixed_bytes-Reads,
  token_bytes-Reads, decode_event-Ends, open_message-Ends,
}
use ormpindexer.Decoder.Events.Fields.{topic_of, metadata_of}
use ormpindexer.Schema.Types.{ChainLogMetadata}
use ormpindexer.Decoder.Events.Fields.{Decodes}
use ormpindexer.Decoder.Events.Ormp.{
  message_type, indexed_hash_imported, plain_hash_imported, decode_hash_imported, accepted_message,
  indexed_message_accepted, plain_message_accepted, decode_message_accepted,
}
use ormpindexer.Planner.{ormp_hash_imported_topic, ormp_message_accepted_topic}

module _ {p : Packages} (d : Documented p) (metadata : ChainLogMetadata) (topics : List Text)
    (payload : List ℕ) (w : List p.Token) where
  indexed_hash_imported-Decodes :
      Decodes p ormp_hash_imported_topic metadata
        (indexed_hash_imported p metadata topics payload)
        w
  unfolding indexed_hash_imported topic_of metadata_of
  indexed_hash_imported-Decodes = Ends-bind (decode_event-Ends d _ payload w) λ _ w0 t0.
      Ends-lift
        (λ oracle oracle_found.
          let oracle_typed = topic_address-IsHex topics 1 oracle oracle_found in
          Ends-bind (take_as-Ends p (token_uint-Reads p 256) t0) λ src w1 (src_typed, t1).
            Ends-bind (take_as-Ends p (token_address-Reads d) t1) λ channel w2 (channel_typed, t2).
              Ends-bind (take_as-Ends p (token_uint-Reads p 256) t2) λ index w3 (index_typed, t3).
                Ends-bind (take_as-Ends p (token_fixed_bytes-Reads d 32) t3)
                  λ hash w4 (hash_typed, t4). Ends-pure _ w4 (record {
                    named = refl;
                    same_metadata = refl;
                    fields =
                        (oracle_typed, src_typed, channel_typed, index_typed, hash_typed, refl);
                  }))
        (topic_address-Expected topics 1)

  plain_hash_imported-Decodes :
      Decodes p ormp_hash_imported_topic metadata (plain_hash_imported p metadata topics payload) w
  unfolding plain_hash_imported topic_of metadata_of
  plain_hash_imported-Decodes = Ends-bind (decode_event-Ends d _ payload w) λ _ w0 t0.
      Ends-bind (take_as-Ends p (token_address-Reads d) t0) λ oracle w1 (oracle_typed, t1).
        Ends-bind (take_as-Ends p (token_uint-Reads p 256) t1) λ src w2 (src_typed, t2).
          Ends-bind (take_as-Ends p (token_address-Reads d) t2) λ channel w3 (channel_typed, t3).
            Ends-bind (take_as-Ends p (token_uint-Reads p 256) t3) λ index w4 (index_typed, t4).
              Ends-bind (take_as-Ends p (token_fixed_bytes-Reads d 32) t4)
                λ hash w5 (hash_typed, t5). Ends-pure _ w5 (record {
                  named = refl;
                  same_metadata = refl;
                  fields = (oracle_typed, src_typed, channel_typed, index_typed, hash_typed, refl);
                })

  pub decode_hash_imported-Decodes :
      Decodes p ormp_hash_imported_topic metadata (decode_hash_imported p metadata topics payload) w
  unfolding decode_hash_imported
  decode_hash_imported-Decodes =
      Ends-if (ltb 1 (length topics)) _ _ w indexed_hash_imported-Decodes
        plain_hash_imported-Decodes

  accepted_message-Decodes :
      (msg_hash : Text) (w0 : List p.Token)
      → IsHex 32 msg_hash
      → Pairwise (HasType p) (map atomic message_type) w0
      → Decodes p ormp_message_accepted_topic metadata
          (accepted_message p metadata topics payload msg_hash)
          w0
  unfolding accepted_message topic_of metadata_of
  accepted_message-Decodes msg_hash w0 hash_typed t0 =
      Ends-bind (take_as-Ends p (token_address-Reads d) t0) λ channel w1 (channel_typed, t1).
        Ends-bind (take_as-Ends p (token_uint-Reads p 256) t1) λ index w2 (index_typed, t2).
          Ends-bind (take_as-Ends p (token_uint-Reads p 256) t2)
            λ from_chain w3 (from_chain_typed, t3).
              Ends-bind (take_as-Ends p (token_address-Reads d) t3) λ from w4 (from_typed, t4).
                Ends-bind (take_as-Ends p (token_uint-Reads p 256) t4)
                  λ to_chain w5 (to_chain_typed, t5).
                    Ends-bind (take_as-Ends p (token_address-Reads d) t5) λ to w6 (to_typed, t6).
                      Ends-bind (take_as-Ends p (token_uint-Reads p 256) t6)
                        λ gas w7 (gas_typed, t7).
                          Ends-bind (take_as-Ends p (token_bytes-Reads d) t7)
                            λ encoded w8 (encoded_typed, t8). Ends-pure _ w8 (record {
                              named = refl;
                              same_metadata = refl;
                              fields = (
                                hash_typed, channel_typed, index_typed, from_chain_typed,
                                from_typed, to_chain_typed, to_typed, gas_typed, encoded_typed,
                              );
                            })

  indexed_message_accepted-Decodes :
      Decodes p ormp_message_accepted_topic metadata
        (indexed_message_accepted p metadata topics payload)
        w
  unfolding indexed_message_accepted
  indexed_message_accepted-Decodes = Ends-bind (decode_event-Ends d _ payload w) λ _ w0 t0.
      Ends-bind (take-Ends p t0) λ message w1 (message_typed, t1).
        Ends-bind (open_message-Ends d message_type (p.view message) w1 refl message_typed)
          λ _ w2 t2.
            Ends-lift
              (λ msg_hash found.
                accepted_message-Decodes msg_hash w2
                  (topic_fixed_bytes-IsHex topics 1 msg_hash found) t2)
              (topic_fixed_bytes-Expected topics 1)

  plain_message_accepted-Decodes :
      Decodes p ormp_message_accepted_topic metadata
        (plain_message_accepted p metadata topics payload)
        w
  unfolding plain_message_accepted
  plain_message_accepted-Decodes = Ends-bind (decode_event-Ends d _ payload w) λ _ w0 t0.
      Ends-bind (take_as-Ends p (token_fixed_bytes-Reads d 32) t0) λ msg_hash w1 (hash_typed, t1).
        Ends-bind (take-Ends p t1) λ message w2 (message_typed, t2).
          Ends-bind (open_message-Ends d message_type (p.view message) w2 refl message_typed)
            λ _ w3 t3. accepted_message-Decodes msg_hash w3 hash_typed t3

  pub decode_message_accepted-Decodes :
      Decodes p ormp_message_accepted_topic metadata
        (decode_message_accepted p metadata topics payload)
        w
  unfolding decode_message_accepted
  decode_message_accepted-Decodes =
      Ends-if (ltb 1 (length topics)) _ _ w indexed_message_accepted-Decodes
        plain_message_accepted-Decodes
