-- ===== src/Decoder/Topics/Sizes.antt =====
-- What the readers of topics return (src/decoder/abi.rs): texts of a fixed size, and numbers below
-- 2 ^ 128.
use ormpindexer.Base.{
  ◌∙◌, sym, ==→≡, zero, if◌then◌else◌, ◌==◌, ltb→lt, Error, ltb, context, ensured-ok, >>=-ok,
  u128_max, ◌-◌, suc, ◌+◌, ℕ, ◌^◌, ◌≤◌, ◌≡◌, true, Option, List, [], ◌∷◌, Text, length, All, drop,
  get_elem?, ok, err, arith,
}
use ormpindexer.Decoder.Hex.{normalize_hex}
use ormpindexer.Decoder.Hex.Normal.{is_lower_hex, IsNormal, normalize_hex-IsNormal}
use ormpindexer.Decoder.Topics.{
  normal_topic, strip_prefix, topic_fixed_bytes, topic_address, as_u128, topic_uint,
}

-- `0x` and the lower-case digits of so many bytes.
pub record IsHex (size : ℕ) (text : Text) : Type 0 where
  pub digits : Text
  pub prefixed : text ≡ b'0' ∷ b'x' ∷ digits
  pub lower_hex : All (λ c. is_lower_hex c ≡ true) digits
  pub sized : length digits ≡ size + size

All-drop {κ} : (P : ℕ → Type κ) (n : ℕ) (s : Text) → All P s → All P (drop n s)
All-drop P zero s h = h
All-drop P (suc n) [] h = h
All-drop P (suc n) (c ∷ rest) h = All-drop P n rest h.1

length-drop : (n : ℕ) (s : Text) → length (drop n s) ≡ length s - n
length-drop zero s = omega arith
length-drop (suc n) [] = omega arith
length-drop (suc n) (c ∷ rest) = omega (arith, length-drop n rest)

pub normal_topic-IsNormal :
    (topics : List Text) (index : ℕ) (text : Text)
    → normal_topic topics index ≡ ok text
    → IsNormal text
unfolding normal_topic
normal_topic-IsNormal topics index text h =
    let (topic, found, normal) =
      >>=-ok (context (get_elem? topics index) Error.missing_topic) normalize_hex text h in
    normalize_hex-IsNormal topic text normal

strip_prefix-IsNormal :
    (text digits : Text) (h : IsNormal text) → strip_prefix text ≡ ok digits → h.digits ≡ digits
unfolding strip_prefix
strip_prefix-IsNormal text digits h e = let k : ok h.digits ≡ ok digits = rw h.prefixed at e in cc

pub topic_fixed_bytes-IsHex :
    (topics : List Text) (index : ℕ) (text : Text)
    → topic_fixed_bytes topics index ≡ ok text
    → IsHex 32 text
unfolding topic_fixed_bytes
topic_fixed_bytes-IsHex topics index text h =
    let (topic, found, sized) =
      >>=-ok (normal_topic topics index)
        (λ topic. if length topic == 66 then ok topic else err Error.topic_size) text h in
    let (size, same) = ensured-ok (length topic == 66) topic text Error.topic_size sized in
    let normal = normal_topic-IsNormal topics index topic found in
    let long : length topic ≡ 66 = ==→≡ (length topic) 66 size in
    let long' : length (b'0' ∷ b'x' ∷ normal.digits) ≡ 66 = rw normal.prefixed at long in
    record {
      digits = normal.digits;
      prefixed = sym same ∙ normal.prefixed;
      lower_hex = normal.lower_hex;
      sized = omega arith;
    }

pub topic_address-IsHex :
    (topics : List Text) (index : ℕ) (text : Text)
    → topic_address topics index ≡ ok text
    → IsHex 20 text
unfolding topic_address
topic_address-IsHex topics index text h =
    let (topic, found, rest) = >>=-ok (normal_topic topics index) _ text h in
    let (digits, stripped, sized) = >>=-ok (strip_prefix topic) _ text rest in
    let (size, same) =
      ensured-ok (length digits == 64) (b'0' ∷ b'x' ∷ drop 24 digits) text Error.topic_size sized in
    let normal = normal_topic-IsNormal topics index topic found in
    let long : length digits ≡ 64 = ==→≡ (length digits) 64 size in
    let e = strip_prefix-IsNormal topic digits normal stripped in
    record {
      digits = drop 24 digits;
      prefixed = sym same;
      lower_hex = All-drop (λ c. is_lower_hex c ≡ true) 24 digits (rw (← e) normal.lower_hex);
      sized = omega (arith, length-drop 24 digits);
    }

pub as_u128-bound : (value bounded : ℕ) → as_u128 value ≡ ok bounded → bounded ≤ u128_max
unfolding as_u128
as_u128-bound value bounded h =
    let (fits, same) = ensured-ok (ltb value (2 ^ 128)) value bounded Error.uint_overflow h in
    let below = ltb→lt value (2 ^ 128) fits in omega arith

pub topic_uint-bound :
    (from_str_radix : Text → Option ℕ) (topics : List Text) (index value : ℕ)
    → topic_uint from_str_radix topics index ≡ ok value
    → value ≤ u128_max
unfolding topic_uint
topic_uint-bound from_str_radix topics index value h =
    let (topic, found, rest) = >>=-ok (normal_topic topics index) _ value h in
    let (digits, stripped, rest') = >>=-ok (strip_prefix topic) _ value rest in
    let (number, parsed, fits) =
      >>=-ok (context (from_str_radix digits) Error.not_a_number) _ value rest' in
    as_u128-bound number value fits
