-- ===== src/Decoder/Evm/Events.antt =====
-- Which event a log becomes, and how the decoding of a log fails (src/decoder/evm.rs).
use ormpindexer.Base.{
  ◌>>=◌, i32_max, leb, ensured-err, get_elem?, Result-cases, ℕ, ◌≡◌, refl, Option, none, some, List,
  [], Text, text_eq, text_eq→≡, Result, ok, err, Error, inl, inr, Bool-cases, if◌then◌else◌,
  context, >>=-ok, >>=-err, context-err,
}
use ormpindexer.Base.Action.{Action}
use ormpindexer.Base.Ends.{Ends-bail}
use ormpindexer.Datalens.Types.{DatalensLog}
use ormpindexer.Base.Trim.{trim}
use ormpindexer.Decoder.Hex.{normalize_hex, decode_hex}
use ormpindexer.Decoder.Hex.Normal.{normalize_block_timestamp_lem}
use ormpindexer.Schema.Ids.{strip_hex_prefix}
use ormpindexer.Decoder.Failures.{Expected, normalize_hex-Expected}
use ormpindexer.Decoder.Abi.{Packages}
use ormpindexer.Decoder.Abi.Typed.{Documented}
use ormpindexer.Decoder.Events.Fields.{IsDecoded, Decodes}
use ormpindexer.Decoder.Events.Typed.Message.{
  decode_hash_imported-Decodes, decode_message_accepted-Decodes,
}
use ormpindexer.Decoder.Events.Typed.Delivery.{
  decode_message_assigned-Decodes, decode_message_dispatched-Decodes,
}
use ormpindexer.Decoder.Events.Typed.Port.{
  decode_msgport_message_recv-Decodes, decode_msgport_message_sent-Decodes,
  decode_signature_submittion-Decodes,
}
use ormpindexer.Decoder.Evm.{
  as_i32, block_timestamp_of, evm_metadata, decode_topic0, topic0_of, decode_evm_log,
  normalize_optional,
}
use ormpindexer.Schema.Types.{ChainLogMetadata, LegacyEvent}

-- A chain of calls fails as one of them does.
Expected-bind :
    {A B : Type 0} (r : Result A) (f : A → Result B)
    → ((e : Error) → r ≡ err e → Expected e)
    → ((a : A) → r ≡ ok a → (e : Error) → f a ≡ err e → Expected e)
    → (e : Error) → (r >>= f) ≡ err e
    → Expected e
Expected-bind r f h k e failed = elim (>>=-err r f e failed) [
  | inl first ↦ h e first
  | inr (a, found, rest) ↦ k a found e rest
]

Expected-context :
    {A : Type 0} (o : Option A) (x : Error)
    → Expected x
    → (e : Error) → context o x ≡ err e
    → Expected e
Expected-context o x h e failed = rw (← context-err o x e failed) h

block_timestamp_of-Expected :
    (log : DatalensLog) (e : Error) → block_timestamp_of log ≡ err e → Expected e
unfolding block_timestamp_of
block_timestamp_of-Expected log =
    Expected-bind _ _ (Expected-context log.block_timestamp Error.missing_timestamp refl)
      λ value found e failed.
        let (r, total, same) = normalize_block_timestamp_lem value in
        let k : ok r ≡ err e = rw total at failed in cc

normalize_optional-Expected :
    (o : Option Text) (e : Error) → normalize_optional o ≡ err e → Expected e
normalize_optional-Expected none e h = cc
normalize_optional-Expected (some value) e h = elim (Result-cases (normalize_hex value)) [
  | inl (text, done) ↦ let k : ok (some text) ≡ err e = rw done at h in cc
  | inr (x, failed) ↦
      let k : ◌≡◌ {A = Result (Option Text)} (err x) (err e) = rw failed at h in
      let same : x ≡ e = cc in normalize_hex-Expected value e (rw (← same) failed)
]

as_i32-Expected : (value : ℕ) (e : Error) → as_i32 value ≡ err e → Expected e
unfolding as_i32
as_i32-Expected value e h =
    let same = ensured-err (leb value i32_max) value Error.log_index_overflow e h in
    rw (← same) refl

evm_metadata-Expected : (log : DatalensLog) (e : Error) → evm_metadata log ≡ err e → Expected e
unfolding evm_metadata
evm_metadata-Expected log = Expected-bind _ _ (block_timestamp_of-Expected log) λ _ _.
    Expected-bind _ _ (Expected-context log.id Error.missing_id refl) λ _ _.
      Expected-bind _ _ (normalize_hex-Expected log.transaction_hash) λ _ _.
        Expected-bind _ _
          (Expected-context log.transaction_index Error.missing_transaction_index refl)
          λ _ _. Expected-bind _ _ (as_i32-Expected log.log_index) λ _ _.
            Expected-bind _ _ (normalize_hex-Expected log.address) λ _ _.
              Expected-bind _ _ (normalize_optional-Expected log.transaction_from)
                λ _ _ e failed. cc

topic0_of-Expected : (topics : List Text) (e : Error) → topic0_of topics ≡ err e → Expected e
unfolding topic0_of
topic0_of-Expected topics =
    Expected-bind _ _ (normalize_optional-Expected (get_elem? topics 0))
      λ topic0 _. Expected-context topic0 Error.missing_topic0 refl

decode_hex-Expected :
    (hex_decode : Text → Option (List ℕ)) (value : Text) (e : Error)
    → decode_hex hex_decode value ≡ err e
    → Expected e
unfolding decode_hex
decode_hex-Expected hex_decode value =
    Expected-context (hex_decode (strip_hex_prefix (trim value))) Error.undecodable_hex refl

-- One case of the `match`: the function is for the topic that the text is equal to.
matched :
    (p : Packages) {metadata : ChainLogMetadata} {m n : Action (List p.Token) LegacyEvent}
    {w : List p.Token} (topic0 topic : Text)
    → Decodes p topic metadata m w
    → Decodes p topic0 metadata n w
    → Decodes p topic0 metadata (if text_eq topic0 topic then m else n) w
matched p topic0 topic h k = elim (Bool-cases (text_eq topic0 topic)) [
  | inl same ↦ let e = text_eq→≡ topic0 topic same in rw same (rw e h)
  | inr other ↦ rw other k
]

module _ {p : Packages} (d : Documented p) where
  decode_topic0-Decodes :
      (metadata : ChainLogMetadata) (topics : List Text) (payload : List ℕ) (topic0 : Text)
      (w : List p.Token)
      → Decodes p topic0 metadata (decode_topic0 p metadata topics payload topic0) w
  unfolding decode_topic0
  decode_topic0-Decodes metadata topics payload topic0 w =
      matched p topic0 _ (decode_hash_imported-Decodes d metadata topics payload w) (
        matched p topic0 _ (decode_message_accepted-Decodes d metadata topics payload w) (
          matched p topic0 _ (decode_message_assigned-Decodes d metadata topics payload w) (
            matched p topic0 _ (decode_message_dispatched-Decodes d metadata topics payload w) (
              matched p topic0 _ (decode_msgport_message_recv-Decodes d metadata topics payload w) (
                matched p topic0 _ (decode_msgport_message_sent-Decodes d metadata topics payload w)
                  (matched p topic0 _
                    (decode_signature_submittion-Decodes d metadata topics payload w)
                    (Ends-bail Error.unsupported_topic0 w refl)))))))

  -- Where the packages do what they document: a log that is decoded becomes the event that its first
  -- topic names, with the metadata of the log; the hashes of the event have 32 bytes, its addresses
  -- 20, all of them are `0x` and lower-case digits, and its numbers are below 2 ^ 128.
  pub decode_evm_log-IsDecoded :
      (log : DatalensLog) (event : LegacyEvent)
      → decode_evm_log p log ≡ ok event
      → (topic0 : Text) × (metadata : ChainLogMetadata) × (topic0_of log.topics ≡ ok topic0)
        × (evm_metadata log ≡ ok metadata)
        × IsDecoded topic0 metadata event
  unfolding decode_evm_log
  decode_evm_log-IsDecoded log event h =
      let (topic0, named, rest) = >>=-ok (topic0_of log.topics) _ event h in
      let (metadata, read, rest') = >>=-ok (evm_metadata log) _ event rest in
      let (payload, found, decoded) = >>=-ok (decode_hex p.hex_decode log.payload) _ event rest' in
      (
        topic0,
        metadata,
        named,
        read,
        (decode_topic0-Decodes metadata log.topics payload topic0 []).succeeds event decoded,
      )

  -- Where the packages do what they document: no log leads to a missing token, a token of another
  -- type, a message that is no tuple of eight fields, a topic without its prefix, or a timestamp that
  -- overflows.
  pub decode_evm_log-Expected :
      (log : DatalensLog) (e : Error) → decode_evm_log p log ≡ err e → Expected e
  unfolding decode_evm_log
  decode_evm_log-Expected log = Expected-bind _ _ (topic0_of-Expected log.topics) λ topic0 _.
      Expected-bind _ _ (evm_metadata-Expected log) λ metadata _.
        Expected-bind _ _ (decode_hex-Expected p.hex_decode log.payload)
          λ payload _. (decode_topic0-Decodes metadata log.topics payload topic0 []).fails
