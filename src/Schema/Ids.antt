-- ===== src/Schema/Ids.antt =====
-- The ids of events that have no hash of their own (`legacy_event_log_id` of src/schema/types.rs).
use ormpindexer.Base.{
  ℕ, zero, suc, ◌+◌, ◌-◌, ◌%◌, ◌/◌, none, some, [], ◌∷◌, ◌++◌, Text, codes, ltb, ◌==◌,
  if◌then◌else◌, length, to_ascii_lowercase, take,
}
use ormpindexer.Schema.Types.{ChainLogMetadata}

-- `{}` of a number below 10 ^ fuel
unfoldable pub digits : ℕ → ℕ → Text
digits zero n = []
digits (suc fuel) n =
    let front = digits fuel (n / 10) in
    if ltb n 10 then (b'0' + n) ∷ [] else front ++ ((b'0' + n % 10) ∷ [])

abbrev pub zeros : ℕ → Text
zeros zero = []
zeros (suc n) = b'0' ∷ zeros n

-- `{:0width}`: a `u128` has at most 39 digits.
unfoldable pub padded : ℕ → ℕ → Text
unfolding digits
padded width n = let text = digits 39 n in zeros (width - length text) ++ text

-- `strip_prefix("0x")`, then `strip_prefix("0X")`
unfoldable pub strip_hex_prefix : Text → Text
strip_hex_prefix [] = []
strip_hex_prefix (a ∷ []) = a ∷ []
strip_hex_prefix (a ∷ b ∷ rest) =
    if a == b'0'
    then if b == b'x' then rest else if b == b'X' then rest else a ∷ b ∷ rest
    else a ∷ b ∷ rest

-- The hash is ASCII, so that its first five bytes are five characters.
unfoldable pub legacy_event_log_id : ChainLogMetadata → Text
legacy_event_log_id metadata = elim metadata.block_hash [
  | none ↦ metadata.id
  | some block_hash ↦
      padded 10 metadata.block_number
      ++ codes "-"
      ++ to_ascii_lowercase (take 5 (strip_hex_prefix block_hash))
      ++ codes "-"
      ++ padded 6 metadata.log_index
]
