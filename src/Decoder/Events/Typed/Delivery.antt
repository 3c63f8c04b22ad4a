-- ===== src/Decoder/Events/Typed/Delivery.antt =====
-- Every branch of the functions that decode an event ends in one with its fields, or in a failure that
-- a log can lead to (src/decoder/abi.rs): assignments and dispatches.
use ormpindexer.Base.{length, ltb, ℕ, refl, List, Text}
use ormpindexer.Base.Ends.{Ends-pure, Ends-if, Ends-bind, Ends-lift}
use ormpindexer.Decoder.Topics.Sizes.{topic_fixed_bytes-IsHex, topic_address-IsHex}
use ormpindexer.Decoder.Failures.{topic_fixed_bytes-Expected, topic_address-Expected}
use ormpindexer.Decoder.Abi.{Packages}
use ormpindexer.Decoder.Abi.Typed.{Documented}
use ormpindexer.Decoder.Abi.Readers.{
  take_as-Ends, token_uint-Reads, token_bool-Reads, token_address-Reads, token_fixed_bytes-Reads,
  token_bytes-Reads, decode_event-Ends,
}
use ormpindexer.Decoder.Events.Fields.{topic_of, metadata_of}
use ormpindexer.Schema.Types.{ChainLogMetadata}
use ormpindexer.Decoder.Events.Fields.{Decodes}
use ormpindexer.Decoder.Events.Ormp.{
  indexed_message_assigned, plain_message_assigned, decode_message_assigned,
  indexed_message_dispatched, plain_message_dispatched, decode_message_dispatched,
}
use ormpindexer.Planner.{ormp_message_assigned_topic, ormp_message_dispatched_topic}

module _ {p : Packages} (d : Documented p) (metadata : ChainLogMetadata) (topics : List Text)
    (payload : List ℕ) (w : List p.Token) where
  indexed_message_assigned-Decodes :
      Decodes p ormp_message_assigned_topic metadata
        (indexed_message_assigned p metadata topics payload)
        w
  unfolding indexed_message_assigned topic_of metadata_of
  indexed_message_assigned-Decodes = Ends-bind (decode_event-Ends d _ payload w) λ _ w0 t0.
      Ends-lift
        (λ hash hash_found.
          let hash_typed = topic_fixed_bytes-IsHex topics 1 hash hash_found in
          Ends-lift
            (λ oracle oracle_found.
              let oracle_typed = topic_address-IsHex topics 2 oracle oracle_found in
              Ends-lift
                (λ relayer relayer_found.
                  let relayer_typed = topic_address-IsHex topics 3 relayer relayer_found in
                  Ends-bind (take_as-Ends p (token_uint-Reads p 256) t0)
                    λ oracle_fee w1 (oracle_fee_typed, t1).
                      Ends-bind (take_as-Ends p (token_uint-Reads p 256) t1)
                        λ relayer_fee w2 (relayer_fee_typed, t2).
                          Ends-bind (take_as-Ends p (token_bytes-Reads d) t2)
                            λ params w3 (params_typed, t3). Ends-pure _ w3 (record {
                              named = refl;
                              same_metadata = refl;
                              fields = (
                                hash_typed, oracle_typed, relayer_typed, oracle_fee_typed,
                                relayer_fee_typed, params_typed,
                              );
                            }))
                (topic_address-Expected topics 3))
            (topic_address-Expected topics 2))
        (topic_fixed_bytes-Expected topics 1)

  plain_message_assigned-Decodes :
      Decodes p ormp_message_assigned_topic metadata
        (plain_message_assigned p metadata topics payload)
        w
  unfolding plain_message_assigned topic_of metadata_of
  plain_message_assigned-Decodes = Ends-bind (decode_event-Ends d _ payload w) λ _ w0 t0.
      Ends-bind (take_as-Ends p (token_fixed_bytes-Reads d 32) t0) λ hash w1 (hash_typed, t1).
        Ends-bind (take_as-Ends p (token_address-Reads d) t1) λ oracle w2 (oracle_typed, t2).
          Ends-bind (take_as-Ends p (token_address-Reads d) t2) λ relayer w3 (relayer_typed, t3).
            Ends-bind (take_as-Ends p (token_uint-Reads p 256) t3)
              λ oracle_fee w4 (oracle_fee_typed, t4).
                Ends-bind (take_as-Ends p (token_uint-Reads p 256) t4)
                  λ relayer_fee w5 (relayer_fee_typed, t5).
                    Ends-bind (take_as-Ends p (token_bytes-Reads d) t5)
                      λ params w6 (params_typed, t6). Ends-pure _ w6 (record {
                        named = refl;
                        same_metadata = refl;
                        fields = (
                          hash_typed, oracle_typed, relayer_typed, oracle_fee_typed,
                          relayer_fee_typed, params_typed,
                        );
                      })

  pub decode_message_assigned-Decodes :
      Decodes p ormp_message_assigned_topic metadata
        (decode_message_assigned p metadata topics payload)
        w
  unfolding decode_message_assigned
  decode_message_assigned-Decodes =
      Ends-if (ltb 3 (length topics)) _ _ w indexed_message_assigned-Decodes
        plain_message_assigned-Decodes

  indexed_message_dispatched-Decodes :
      Decodes p ormp_message_dispatched_topic metadata
        (indexed_message_dispatched p metadata topics payload)
        w
  unfolding indexed_message_dispatched topic_of metadata_of
  indexed_message_dispatched-Decodes = Ends-bind (decode_event-Ends d _ payload w) λ _ w0 t0.
      Ends-lift
        (λ hash hash_found.
          let hash_typed = topic_fixed_bytes-IsHex topics 1 hash hash_found in
          Ends-bind (take_as-Ends p (token_bool-Reads p) t0) λ result w1 (result_typed, t1).
            Ends-pure _ w1
              (record { named = refl; same_metadata = refl; fields = (hash_typed, refl) }))
        (topic_fixed_bytes-Expected topics 1)

  plain_message_dispatched-Decodes :
      Decodes p ormp_message_dispatched_topic metadata
        (plain_message_dispatched p metadata topics payload)
        w
  unfolding plain_message_dispatched topic_of metadata_of
  plain_message_dispatched-Decodes = Ends-bind (decode_event-Ends d _ payload w) λ _ w0 t0.
      Ends-bind (take_as-Ends p (token_fixed_bytes-Reads d 32) t0) λ hash w1 (hash_typed, t1).
        Ends-bind (take_as-Ends p (token_bool-Reads p) t1) λ result w2 (result_typed, t2).
          Ends-pure _ w2
            (record { named = refl; same_metadata = refl; fields = (hash_typed, refl) })

  pub decode_message_dispatched-Decodes :
      Decodes p ormp_message_dispatched_topic metadata
        (decode_message_dispatched p metadata topics payload)
        w
  unfolding decode_message_dispatched
  decode_message_dispatched-Decodes =
      Ends-if (ltb 1 (length topics)) _ _ w indexed_message_dispatched-Decodes
        plain_message_dispatched-Decodes
