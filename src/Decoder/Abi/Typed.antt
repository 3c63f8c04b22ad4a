-- ===== src/Decoder/Abi/Typed.antt =====
-- What the decoder relies on of the packages (src/decoder/abi.rs), and what its readers return then.
use ormpindexer.Base.{ℕ, ◌+◌, ◌^◌, ◌<◌, ◌≡◌, true, some, List, [], ◌∷◌, Text, length, All}
use ormpindexer.Decoder.Hex.Normal.{is_lower_hex}
use ormpindexer.Decoder.Topics.Sizes.{IsHex}
use ormpindexer.Decoder.Abi.{
  AtomType, uint, address, fixed_bytes, bytes, bool, ParamType, atomic, tuple, Packages, TokenView,
}

-- A list of types and a list of tokens agree element by element.
pub data Pairwise {A B : Type 0} (R : A → B → Type 0) : List A → List B → Type 0 where
  done : Pairwise R [] []
  both :
      {a : A} {b : B} {as' : List A} {bs : List B}
      → R a b
      → Pairwise R as' bs
      → Pairwise R (a ∷ as') (b ∷ bs)

-- The token is of the type.
abbrev pub HasAtom : {Token : Type 0} → AtomType → TokenView Token → Type 0
HasAtom (uint n) (TokenView.uint value) = value < 2 ^ n
HasAtom address (TokenView.address value) = length value ≡ 20
HasAtom (fixed_bytes n) (TokenView.fixed_bytes value) = length value ≡ n
HasAtom bytes (TokenView.bytes value) = Unit
HasAtom bool (TokenView.bool value) = Unit
HasAtom _ _ = ⊥

abbrev pub HasFields : (p : Packages) → List AtomType → TokenView p.Token → Type 0
HasFields p types (TokenView.tuple fields) =
    Pairwise (λ type field. HasAtom type (p.view field)) types fields
HasFields p types _ = ⊥

abbrev pub HasType : (p : Packages) → ParamType → p.Token → Type 0
HasType p (atomic type) token = HasAtom type (p.view token)
HasType p (tuple types) token = HasFields p types (p.view token)

-- `ethabi::decode` returns one token for each type, of that type. `hex::encode` writes two lower-case
-- digits for each byte.
pub record Documented (p : Packages) : Type 0 where
  pub decode-typed :
      (types : List ParamType) (payload : List ℕ) (tokens : List p.Token)
      → p.decode types payload ≡ some tokens
      → Pairwise (HasType p) types tokens
  pub hex_encode-lower : (value : List ℕ) → All (λ c. is_lower_hex c ≡ true) (p.hex_encode value)
  pub length-hex_encode :
      (value : List ℕ) → length (p.hex_encode value) ≡ length value + length value

-- `0x` and the digits of any number of bytes.
abbrev pub IsHexText : Text → Type 0
IsHexText text = (size : ℕ) × IsHex size text
