-- ===== src/Decoder/Failures.antt =====
-- The failures of the decoder that a log can lead to (src/decoder/abi.rs).
use ormpindexer.Base.{
  ◌>>=◌, ℕ, ◌≡◌, refl, Bool, true, false, Option, List, Text, Result, ok, err, Error, all, length,
  ◌==◌, context, get_elem?, ltb, ◌^◌, inl, inr, >>=-err, ensured-err, context-err,
}
use ormpindexer.Base.Trim.{trim}
use ormpindexer.Decoder.Hex.{normalize_hex, is_ascii_hexdigit}
use ormpindexer.Decoder.Hex.Normal.{IsNormal}
use ormpindexer.Decoder.Topics.{
  normal_topic, strip_prefix, topic_fixed_bytes, topic_address, as_u128, topic_uint,
}
use ormpindexer.Decoder.Topics.Sizes.{normal_topic-IsNormal}
use ormpindexer.Schema.Ids.{strip_hex_prefix}

-- The failures that no log leads to where the packages do what they document.
abbrev pub is_excluded : Error → Bool
is_excluded Error.token_missing = true
is_excluded Error.token_mismatch = true
is_excluded Error.not_a_tuple = true
is_excluded Error.tuple_size = true
is_excluded Error.missing_prefix = true
is_excluded Error.timestamp_overflow = true
is_excluded _ = false

abbrev pub Expected : Error → Type 0
Expected e = is_excluded e ≡ false

pub normalize_hex-Expected : (value : Text) (e : Error) → normalize_hex value ≡ err e → Expected e
unfolding normalize_hex
normalize_hex-Expected value e h =
    let same =
      ensured-err (all is_ascii_hexdigit (strip_hex_prefix (trim value))) _ Error.invalid_hex e h in
    rw (← same) refl

pub normal_topic-Expected :
    (topics : List Text) (index : ℕ) (e : Error) → normal_topic topics index ≡ err e → Expected e
unfolding normal_topic
normal_topic-Expected topics index e h =
    elim (>>=-err (context (get_elem? topics index) Error.missing_topic) normalize_hex e h) [
      | inl missing ↦
          let same = context-err (get_elem? topics index) Error.missing_topic e missing in
          rw (← same) refl
      | inr (topic, found, failed) ↦ normalize_hex-Expected topic e failed
    ]

-- A topic in normal form has the prefix.
prefix_found : (text : Text) (e : Error) → IsNormal text → strip_prefix text ≡ err e → Expected e
unfolding strip_prefix
prefix_found text e h k = let d : ok h.digits ≡ err e = rw h.prefixed at k in cc

pub topic_fixed_bytes-Expected :
    (topics : List Text) (index : ℕ) (e : Error)
    → topic_fixed_bytes topics index ≡ err e
    → Expected e
unfolding topic_fixed_bytes
topic_fixed_bytes-Expected topics index e h = elim (>>=-err (normal_topic topics index) _ e h) [
  | inl failed ↦ normal_topic-Expected topics index e failed
  | inr (topic, found, failed) ↦
      let same = ensured-err (length topic == 66) topic Error.topic_size e failed in
      rw (← same) refl
]

-- A chain that goes on behind the prefix of a topic.
behind_prefix :
    {A : Type 0} (topics : List Text) (index : ℕ) (f : Text → Result A) (e : Error)
    → ((digits : Text) → f digits ≡ err e → Expected e)
    → (normal_topic topics index >>= λ topic. strip_prefix topic >>= f) ≡ err e
    → Expected e
behind_prefix topics index f e k h = elim (>>=-err (normal_topic topics index) _ e h) [
  | inl failed ↦ normal_topic-Expected topics index e failed
  | inr (topic, found, rest) ↦ elim (>>=-err (strip_prefix topic) f e rest) [
    | inl failed ↦ prefix_found topic e (normal_topic-IsNormal topics index topic found) failed
    | inr (digits, stripped, failed) ↦ k digits failed
  ]
]

pub topic_address-Expected :
    (topics : List Text) (index : ℕ) (e : Error) → topic_address topics index ≡ err e → Expected e
unfolding topic_address
topic_address-Expected topics index e h =
    behind_prefix topics index _ e
      (λ digits failed.
        let same = ensured-err (length digits == 64) _ Error.topic_size e failed in
        rw (← same) refl)
      h

as_u128-Expected : (value : ℕ) (e : Error) → as_u128 value ≡ err e → Expected e
unfolding as_u128
as_u128-Expected value e h =
    let same = ensured-err (ltb value (2 ^ 128)) value Error.uint_overflow e h in rw (← same) refl

parsed-Expected :
    (o : Option ℕ) (e : Error)
    → (context o Error.not_a_number >>= λ value. as_u128 value) ≡ err e
    → Expected e
parsed-Expected o e h = elim (>>=-err (context o Error.not_a_number) as_u128 e h) [
  | inl failed ↦ let same = context-err o Error.not_a_number e failed in rw (← same) refl
  | inr (value, found, failed) ↦ as_u128-Expected value e failed
]

pub topic_uint-Expected :
    (from_str_radix : Text → Option ℕ) (topics : List Text) (index : ℕ) (e : Error)
    → topic_uint from_str_radix topics index ≡ err e
    → Expected e
unfolding topic_uint
topic_uint-Expected from_str_radix topics index e h =
    behind_prefix topics index _ e (λ digits. parsed-Expected (from_str_radix digits) e) h
