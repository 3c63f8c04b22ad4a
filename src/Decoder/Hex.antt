-- ===== src/Decoder/Hex.antt =====
-- Texts of hexadecimal digits (src/decoder/abi.rs): `normalize_hex`, `decode_hex` up to the `hex`
-- package, and the unit of a block's timestamp.
pub mod Normal
use ormpindexer.Base.{
  context, ℕ, zero, suc, ◌*◌, ◌≡◌, Bool, ◌&&◌, ◌||◌, Option, none, some, List, [], ◌∷◌, Text, leb,
  ltb, ◌==◌, if◌then◌else◌, all, to_ascii_lowercase, Result, ok, err, Error, ensure, ◌>>◌,
  checked_mul,
}
use mathlib.Core.List.{reverse}
use ormpindexer.Base.Trim.{trim}
use ormpindexer.Schema.Ids.{strip_hex_prefix}

-- `u8::is_ascii_hexdigit`
abbrev pub is_ascii_hexdigit : ℕ → Bool
is_ascii_hexdigit c =
    (leb b'0' c && leb c b'9') || ((leb b'a' c && leb c b'f') || (leb b'A' c && leb c b'F'))

unfoldable pub normalize_hex : Text → Result Text
normalize_hex value =
    let digits = strip_hex_prefix (trim value) in
    if all is_ascii_hexdigit digits
    then ok (b'0' ∷ b'x' ∷ to_ascii_lowercase digits)
    else err Error.invalid_hex

-- `decode_hex`, with `hex::decode` as a parameter.
unfoldable pub decode_hex : (Text → Option (List ℕ)) → Text → Result (List ℕ)
decode_hex hex_decode value =
    context (hex_decode (strip_hex_prefix (trim value))) Error.undecodable_hex

-- A value that counts seconds becomes milliseconds.
unfoldable pub normalize_block_timestamp : ℕ → Option ℕ
normalize_block_timestamp value =
    if leb 1000000000 value && ltb value 10000000000 then checked_mul value 1000 else some value
