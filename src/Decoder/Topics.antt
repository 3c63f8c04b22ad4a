-- ===== src/Decoder/Topics.antt =====
-- Fields of an event that stand in its indexed topics (src/decoder/abi.rs).
pub mod Sizes
use ormpindexer.Base.{
  ℕ, ◌^◌, ◌&&◌, Option, List, [], ◌∷◌, Text, ltb, ◌==◌, if◌then◌else◌, length, drop, get_elem?,
  Result, ok, err, Error, context, ◌>>=◌,
}
use ormpindexer.Decoder.Hex.{normalize_hex}

-- `topics.get(index)` with its context, then `normalize_hex`
unfoldable pub normal_topic : List Text → ℕ → Result Text
normal_topic topics index =
    context (get_elem? topics index) Error.missing_topic >>= λ topic. normalize_hex topic

-- `strip_prefix("0x")` with its context
unfoldable pub strip_prefix : Text → Result Text
strip_prefix [] = err Error.missing_prefix
strip_prefix (a ∷ []) = err Error.missing_prefix
strip_prefix (a ∷ b ∷ rest) = if a == b'0' && b == b'x' then ok rest else err Error.missing_prefix

unfoldable pub topic_fixed_bytes : List Text → ℕ → Result Text
topic_fixed_bytes topics index = normal_topic topics index >>= λ topic.
    if length topic == 66 then ok topic else err Error.topic_size

-- The text is ASCII, so that its bytes 24 to 64 are what is behind the first 24.
unfoldable pub topic_address : List Text → ℕ → Result Text
topic_address topics index = normal_topic topics index >>= λ topic.
    strip_prefix topic >>= λ address.
    if length address == 64 then ok (b'0' ∷ b'x' ∷ drop 24 address) else err Error.topic_size

-- `ensure!(value.bits() <= 128, …)`, then `as_u128`
unfoldable pub as_u128 : ℕ → Result ℕ
as_u128 value = if ltb value (2 ^ 128) then ok value else err Error.uint_overflow

-- `U256::from_str_radix(…, 16)` is a parameter.
unfoldable pub topic_uint : (Text → Option ℕ) → List Text → ℕ → Result ℕ
topic_uint from_str_radix topics index = normal_topic topics index >>= λ topic.
    strip_prefix topic >>= λ digits.
    context (from_str_radix digits) Error.not_a_number >>= λ value. as_u128 value
