-- ===== src/Decoder/Events/Typed/Port.antt =====
-- Every branch of the functions that decode an event ends in one with its fields, or in a failure that
-- a log can lead to (src/decoder/abi.rs): the message port and signatures.
use ormpindexer.Base.{length, ltb, ℕ, refl, List, Text}
use ormpindexer.Base.Ends.{Ends-pure, Ends-if, Ends-bind, Ends-lift}
use ormpindexer.Decoder.Topics.Sizes.{
  topic_fixed_bytes-IsHex, topic_address-IsHex, topic_uint-bound,
}
use ormpindexer.Decoder.Failures.{
  topic_fixed_bytes-Expected, topic_address-Expected, topic_uint-Expected,
}
use ormpindexer.Decoder.Abi.{Packages}
use ormpindexer.Decoder.Abi.Typed.{Documented}
use ormpindexer.Decoder.Abi.Readers.{
  take_as-Ends, token_uint-Reads, token_bool-Reads, token_address-Reads, token_fixed_bytes-Reads,
  token_bytes-Reads, decode_event-Ends,
}
use ormpindexer.Decoder.Events.Fields.{topic_of, metadata_of}
use ormpindexer.Schema.Types.{ChainLogMetadata}
use ormpindexer.Decoder.Events.Fields.{Decodes}
use ormpindexer.Decoder.Events.Port.{
  indexed_message_recv, plain_message_recv, decode_msgport_message_recv, sent_message,
  indexed_message_sent, plain_message_sent, decode_msgport_message_sent, submitted_signature,
  indexed_signature_submittion, plain_signature_submittion, decode_signature_submittion,
}
use ormpindexer.Planner.{
  msgport_message_recv_topic, msgport_message_sent_topic, signature_pub_signature_submittion_topic,
}

module _ {p : Packages} (d : Documented p) (metadata : ChainLogMetadata) (topics : List Text)
    (payload : List ℕ) (w : List p.Token) where
  indexed_message_recv-Decodes :
      Decodes p msgport_message_recv_topic metadata
        (indexed_message_recv p metadata topics payload)
        w
  unfolding indexed_message_recv topic_of metadata_of
  indexed_message_recv-Decodes = Ends-bind (decode_event-Ends d _ payload w) λ _ w0 t0.
      Ends-lift
        (λ id id_found.
          let id_typed = topic_fixed_bytes-IsHex topics 1 id id_found in
          Ends-bind (take_as-Ends p (token_bool-Reads p) t0) λ result w1 (result_typed, t1).
            Ends-bind (take_as-Ends p (token_bytes-Reads d) t1) λ body w2 (body_typed, t2).
              Ends-pure _ w2
                (record { named = refl; same_metadata = refl; fields = (id_typed, body_typed) }))
        (topic_fixed_bytes-Expected topics 1)

  plain_message_recv-Decodes :
      Decodes p msgport_message_recv_topic metadata (plain_message_recv p metadata topics payload) w
  unfolding plain_message_recv topic_of metadata_of
  plain_message_recv-Decodes = Ends-bind (decode_event-Ends d _ payload w) λ _ w0 t0.
      Ends-bind (take_as-Ends p (token_fixed_bytes-Reads d 32) t0) λ id w1 (id_typed, t1).
        Ends-bind (take_as-Ends p (token_bool-Reads p) t1) λ result w2 (result_typed, t2).
          Ends-bind (take_as-Ends p (token_bytes-Reads d) t2) λ body w3 (body_typed, t3).
            Ends-pure _ w3
              (record { named = refl; same_metadata = refl; fields = (id_typed, body_typed) })

  pub decode_msgport_message_recv-Decodes :
      Decodes p msgport_message_recv_topic metadata
        (decode_msgport_message_recv p metadata topics payload)
        w
  unfolding decode_msgport_message_recv
  decode_msgport_message_recv-Decodes =
      Ends-if (ltb 1 (length topics)) _ _ w indexed_message_recv-Decodes plain_message_recv-Decodes

  indexed_message_sent-Decodes :
      Decodes p msgport_message_sent_topic metadata
        (indexed_message_sent p metadata topics payload)
        w
  unfolding indexed_message_sent sent_message topic_of metadata_of
  indexed_message_sent-Decodes = Ends-bind (decode_event-Ends d _ payload w) λ _ w0 t0.
      Ends-lift
        (λ id id_found.
          let id_typed = topic_fixed_bytes-IsHex topics 1 id id_found in
          Ends-bind (take_as-Ends p (token_address-Reads d) t0) λ from w1 (from_typed, t1).
            Ends-bind (take_as-Ends p (token_uint-Reads p 256) t1) λ chain w2 (chain_typed, t2).
              Ends-bind (take_as-Ends p (token_address-Reads d) t2) λ to w3 (to_typed, t3).
                Ends-bind (take_as-Ends p (token_bytes-Reads d) t3)
                  λ message w4 (message_typed, t4).
                    Ends-bind (take_as-Ends p (token_bytes-Reads d) t4)
                      λ params w5 (params_typed, t5). Ends-pure _ w5 (record {
                        named = refl;
                        same_metadata = refl;
                        fields = (
                          id_typed, from_typed, chain_typed, to_typed, message_typed, params_typed,
                        );
                      }))
        (topic_fixed_bytes-Expected topics 1)

  plain_message_sent-Decodes :
      Decodes p msgport_message_sent_topic metadata (plain_message_sent p metadata topics payload) w
  unfolding plain_message_sent sent_message topic_of metadata_of
  plain_message_sent-Decodes = Ends-bind (decode_event-Ends d _ payload w) λ _ w0 t0.
      Ends-bind (take_as-Ends p (token_fixed_bytes-Reads d 32) t0) λ id w1 (id_typed, t1).
        Ends-bind (take_as-Ends p (token_address-Reads d) t1) λ from w2 (from_typed, t2).
          Ends-bind (take_as-Ends p (token_uint-Reads p 256) t2) λ chain w3 (chain_typed, t3).
            Ends-bind (take_as-Ends p (token_address-Reads d) t3) λ to w4 (to_typed, t4).
              Ends-bind (take_as-Ends p (token_bytes-Reads d) t4) λ message w5 (message_typed, t5).
                Ends-bind (take_as-Ends p (token_bytes-Reads d) t5) λ params w6 (params_typed, t6).
                  Ends-pure _ w6 (record {
                    named = refl;
                    same_metadata = refl;
                    fields =
                        (id_typed, from_typed, chain_typed, to_typed, message_typed, params_typed);
                  })

  pub decode_msgport_message_sent-Decodes :
      Decodes p msgport_message_sent_topic metadata
        (decode_msgport_message_sent p metadata topics payload)
        w
  unfolding decode_msgport_message_sent
  decode_msgport_message_sent-Decodes =
      Ends-if (ltb 1 (length topics)) _ _ w indexed_message_sent-Decodes plain_message_sent-Decodes

  indexed_signature_submittion-Decodes :
      Decodes p signature_pub_signature_submittion_topic metadata
        (indexed_signature_submittion p metadata topics payload)
        w
  unfolding indexed_signature_submittion submitted_signature topic_of metadata_of
  indexed_signature_submittion-Decodes = Ends-bind (decode_event-Ends d _ payload w) λ _ w0 t0.
      Ends-lift
        (λ chain chain_found.
          let chain_typed = topic_uint-bound p.from_str_radix topics 1 chain chain_found in
          Ends-lift
            (λ channel channel_found.
              let channel_typed = topic_address-IsHex topics 2 channel channel_found in
              Ends-lift
                (λ signer signer_found.
                  let signer_typed = topic_address-IsHex topics 3 signer signer_found in
                  Ends-bind (take_as-Ends p (token_uint-Reads p 256) t0)
                    λ index w1 (index_typed, t1).
                      Ends-bind (take_as-Ends p (token_bytes-Reads d) t1)
                        λ signature w2 (signature_typed, t2).
                          Ends-bind (take_as-Ends p (token_bytes-Reads d) t2)
                            λ body w3 (body_typed, t3). Ends-pure _ w3 (record {
                              named = refl;
                              same_metadata = refl;
                              fields = (
                                chain_typed, channel_typed, signer_typed, index_typed,
                                signature_typed, body_typed,
                              );
                            }))
                (topic_address-Expected topics 3))
            (topic_address-Expected topics 2))
        (topic_uint-Expected p.from_str_radix topics 1)

  plain_signature_submittion-Decodes :
      Decodes p signature_pub_signature_submittion_topic metadata
        (plain_signature_submittion p metadata topics payload)
        w
  unfolding plain_signature_submittion submitted_signature topic_of metadata_of
  plain_signature_submittion-Decodes = Ends-bind (decode_event-Ends d _ payload w) λ _ w0 t0.
      Ends-bind (take_as-Ends p (token_uint-Reads p 256) t0) λ chain w1 (chain_typed, t1).
        Ends-bind (take_as-Ends p (token_address-Reads d) t1) λ channel w2 (channel_typed, t2).
          Ends-bind (take_as-Ends p (token_address-Reads d) t2) λ signer w3 (signer_typed, t3).
            Ends-bind (take_as-Ends p (token_uint-Reads p 256) t3) λ index w4 (index_typed, t4).
              Ends-bind (take_as-Ends p (token_bytes-Reads d) t4)
                λ signature w5 (signature_typed, t5).
                  Ends-bind (take_as-Ends p (token_bytes-Reads d) t5) λ body w6 (body_typed, t6).
                    Ends-pure _ w6 (record {
                      named = refl;
                      same_metadata = refl;
                      fields = (
                        chain_typed, channel_typed, signer_typed, index_typed, signature_typed,
                        body_typed,
                      );
                    })

  pub decode_signature_submittion-Decodes :
      Decodes p signature_pub_signature_submittion_topic metadata
        (decode_signature_submittion p metadata topics payload)
        w
  unfolding decode_signature_submittion
  decode_signature_submittion-Decodes =
      Ends-if (ltb 3 (length topics)) _ _ w indexed_signature_submittion-Decodes
        plain_signature_submittion-Decodes
