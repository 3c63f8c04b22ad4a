-- ===== src/Decoder/Zeros.antt =====
-- Packages that decode every type to a zero, for the tests.
use ormpindexer.Base.{
  ℕ, zero, suc, ◌+◌, ◌/◌, ◌%◌, ◌^◌, ◌<◌, ◌≡◌, refl, true, some, List, [], ◌∷◌, map, Text, length,
  All, ltb, if◌then◌else◌, arith,
}
use ormpindexer.Decoder.Hex.Normal.{is_lower_hex}
use ormpindexer.Decoder.Abi.{
  AtomType, uint, address, fixed_bytes, bytes, bool, ParamType, atomic, tuple, Packages, TokenView,
}
use ormpindexer.Decoder.Abi.Typed.{Pairwise, both, done, HasAtom, HasType, Documented}

abbrev pub zero_bytes : ℕ → List ℕ
zero_bytes zero = []
zero_bytes (suc n) = 0 ∷ zero_bytes n

abbrev view_atom : AtomType → TokenView ParamType
view_atom (uint n) = TokenView.uint 0
view_atom address = TokenView.address (zero_bytes 20)
view_atom (fixed_bytes n) = TokenView.fixed_bytes (zero_bytes n)
view_atom bytes = TokenView.bytes []
view_atom bool = TokenView.bool true

abbrev view : ParamType → TokenView ParamType
view (atomic type) = view_atom type
view (tuple types) = TokenView.tuple (map atomic types)

abbrev hex_digit : ℕ → ℕ
hex_digit n = if ltb n 10 then b'0' + n else 87 + n

abbrev pub hex_encode : List ℕ → Text
hex_encode [] = []
hex_encode (b ∷ bs) = hex_digit (b / 16 % 16) ∷ hex_digit (b % 16) ∷ hex_encode bs

abbrev pub zero_packages : Packages
zero_packages = record {
  Token = ParamType;
  view = view;
  decode = λ types payload. some types;
  hex_encode = hex_encode;
  hex_decode = λ text. some [];
  from_str_radix = λ text. some 7;
}

length-zero_bytes : (n : ℕ) → length (zero_bytes n) ≡ n
length-zero_bytes zero = refl
length-zero_bytes (suc n) = omega (arith, length-zero_bytes n)

pow_pos : (n : ℕ) → 0 < 2 ^ n
pow_pos zero = omega arith
pow_pos (suc n) = omega (arith, pow_pos n)

atom_typed : (type : AtomType) → HasAtom type (view_atom type)
atom_typed (uint n) = pow_pos n
atom_typed address = refl
atom_typed (fixed_bytes n) = length-zero_bytes n
atom_typed bytes = tt
atom_typed bool = tt

fields_typed :
    (types : List AtomType)
    → Pairwise (λ type field. HasAtom type (view field)) types (map atomic types)
fields_typed [] = done
fields_typed (type ∷ types) = both (atom_typed type) (fields_typed types)

type_typed : (type : ParamType) → HasType zero_packages type type
type_typed (atomic type) = atom_typed type
type_typed (tuple types) = fields_typed types

all_typed : (types : List ParamType) → Pairwise (HasType zero_packages) types types
all_typed [] = done
all_typed (type ∷ types) = both (type_typed type) (all_typed types)

encoded_lower : (value : List ℕ) → All (λ c. is_lower_hex c ≡ true) (hex_encode value)
encoded_lower [] = tt
encoded_lower (b ∷ bs) = (ground arith, (ground arith, encoded_lower bs))

length-encoded : (value : List ℕ) → length (hex_encode value) ≡ length value + length value
length-encoded [] = refl
length-encoded (b ∷ bs) = omega (arith, length-encoded bs)

pub zero_packages-Documented : Documented zero_packages
zero_packages-Documented = record {
  decode-typed =
      λ types payload tokens h. let same : types ≡ tokens = cc in rw (← same) (all_typed types);
  hex_encode-lower = encoded_lower;
  length-hex_encode = length-encoded;
}
