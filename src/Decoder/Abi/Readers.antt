-- ===== src/Decoder/Abi/Readers.antt =====
-- What the readers of tokens return for a token of the type that was asked for (src/decoder/abi.rs).
use ormpindexer.Base.{
  refl, if◌then◌else◌, ◌==◌, map, ltb, ensured-err, Option, arith, ℕ, ◌^◌, ◌≤◌, ◌≡◌, none, Bool,
  true, false, some, List, ◌∷◌, Text, length, u128_max, Result, ok, err, Error,
}
use ormpindexer.Base.Ends.{Ends, Ends-bind}
use ormpindexer.Decoder.Topics.{as_u128}
use ormpindexer.Decoder.Topics.Sizes.{IsHex, as_u128-bound}
use ormpindexer.Decoder.Abi.{
  AtomType, uint, address, fixed_bytes, bytes, bool, ParamType, atomic, Packages, TokenView,
  decode_event, take, token_address, token_fixed_bytes, token_bytes, token_bool, token_uint,
  open_message, take_as,
}
use ormpindexer.Decoder.Failures.{Expected}
use ormpindexer.Decoder.Abi.Typed.{
  Pairwise, both, done, HasAtom, HasType, HasFields, Documented, IsHexText,
}

decoded_tokens :
    {Token : Type 0} {P : List Token → Type 0} (o : Option (List Token)) (w : List Token)
    → ((tokens : List Token) → o ≡ some tokens → P tokens)
    → Ends
        (λ (_ : Unit {0}) tokens. P tokens)
        Expected
        (λ w. elim o as (λ _. Result (Unit {0}) × List Token) [
          | none ↦ (err Error.abi_invalid, w)
          | some tokens ↦ (ok tt, tokens)
        ])
        w
decoded_tokens none w h = record { succeeds = λ a k. cc; fails = λ x k. ground (arith, k) }
decoded_tokens (some tokens) w h = record { succeeds = λ a k. h tokens refl; fails = λ x k. cc }

opened :
    {Token : Type 0} {P : List Token → Type 0} (b : Bool) (fields w : List Token)
    → b ≡ true
    → P fields
    → Ends
        (λ (_ : Unit {0}) tokens. P tokens)
        Expected
        (λ w. if b then (ok tt, fields) else (err Error.tuple_size, w))
        w
opened true fields w h k = record { succeeds = λ a e. k; fails = λ e x. cc }
opened false fields w h k = cc

-- What a reader returns for a token of a type.
pub record Reads {Token A : Type 0} (type : AtomType) (Q : A → Type 0)
    (read : TokenView Token → Result A) : Type 0 where
  pub value : (token : TokenView Token) (a : A) → HasAtom type token → read token ≡ ok a → Q a
  pub fails :
      (token : TokenView Token) (e : Error) → HasAtom type token → read token ≡ err e → Expected e

module _ (p : Packages) where
  pub take-Ends :
      {A : Type 0} {R : A → p.Token → Type 0} {type : A} {types : List A} {w : List p.Token}
      → Pairwise R (type ∷ types) w
      → Ends (λ token rest. R type token × Pairwise R types rest) Expected (take p) w
  unfolding take
  take-Ends (both has rest) = record {
    succeeds = λ a k. ground (arith, has, rest);
    fails = λ e k. cc;
  }

  pub take_as-Ends :
      {A : Type 0} {Q : A → Type 0} {type : AtomType} {types : List ParamType}
      {read : TokenView p.Token → Result A} {w : List p.Token}
      → Reads type Q read
      → Pairwise (HasType p) (atomic type ∷ types) w
      → Ends (λ a rest. Q a × Pairwise (HasType p) types rest) Expected (take_as p read) w
  unfolding take_as
  take_as-Ends r h = Ends-bind (take-Ends h) λ token rest (has, typed). record {
    succeeds = λ a k. (r.value (p.view token) a has k, typed);
    fails = λ e k. r.fails (p.view token) e has k;
  }

  uint_value :
      (n : ℕ) (token : TokenView p.Token) (a : ℕ)
      → HasAtom (uint n) token
      → token_uint p token ≡ ok a
      → a ≤ u128_max
  unfolding token_uint
  uint_value n (TokenView.uint v) a h k = as_u128-bound v a k
  uint_value n _ a h k = elim h [ ]

  uint_fails :
      (n : ℕ) (token : TokenView p.Token) (e : Error)
      → HasAtom (uint n) token
      → token_uint p token ≡ err e
      → Expected e
  unfolding token_uint as_u128
  uint_fails n (TokenView.uint v) e h k =
      let same = ensured-err (ltb v (2 ^ 128)) v Error.uint_overflow e k in rw (← same) refl
  uint_fails n _ e h k = elim h [ ]

  pub token_uint-Reads : (n : ℕ) → Reads (uint n) (λ value. value ≤ u128_max) (token_uint p)
  token_uint-Reads n = record { value = uint_value n; fails = uint_fails n }

  -- A reader that succeeds on every token of its type.
  Reads-total :
      {A : Type 0} {type : AtomType} {Q : A → Type 0} {read : TokenView p.Token → Result A}
      → ((token : TokenView p.Token) → HasAtom type token → (a : A) × (read token ≡ ok a) × Q a)
      → Reads type Q read
  Reads-total h = record {
    value = λ token a has k. let (b, e, q) = h token has in let same : b ≡ a = cc in rw (← same) q;
    fails = λ token x has k. let (b, e, q) = h token has in cc;
  }

  bool_value :
      (token : TokenView p.Token)
      → HasAtom bool token
      → (a : Bool) × (token_bool p token ≡ ok a) × Unit {0}
  unfolding token_bool
  bool_value (TokenView.bool b) h = (b, refl, tt)
  bool_value _ h = elim h [ ]

  pub token_bool-Reads : Reads bool (λ _. Unit {0}) (token_bool p)
  token_bool-Reads = Reads-total bool_value

module _ {p : Packages} (d : Documented p) where
  encoded-IsHex :
      (size : ℕ) (value : List ℕ)
      → length value ≡ size
      → IsHex size (b'0' ∷ b'x' ∷ p.hex_encode value)
  encoded-IsHex size value h = record {
    digits = p.hex_encode value;
    prefixed = refl;
    lower_hex = d.hex_encode-lower value;
    sized = omega (arith, d.length-hex_encode value, h);
  }

  pub decode_event-Ends :
      (types : List ParamType) (payload : List ℕ) (w : List p.Token)
      → Ends
          (λ _ tokens. Pairwise (HasType p) types tokens)
          Expected
          (decode_event p types payload)
          w
  unfolding decode_event
  decode_event-Ends types payload w =
      decoded_tokens (p.decode types payload) w (d.decode-typed types payload)

  address_value :
      (token : TokenView p.Token)
      → HasAtom address token
      → (a : Text) × (token_address p token ≡ ok a) × IsHex 20 a
  unfolding token_address
  address_value (TokenView.address v) h = (b'0' ∷ b'x' ∷ p.hex_encode v, refl, encoded-IsHex 20 v h)
  address_value _ h = elim h [ ]

  pub token_address-Reads : Reads address (IsHex 20) (token_address p)
  token_address-Reads = Reads-total p address_value

  fixed_bytes_value :
      (n : ℕ) (token : TokenView p.Token)
      → HasAtom (fixed_bytes n) token
      → (a : Text) × (token_fixed_bytes p token ≡ ok a) × IsHex n a
  unfolding token_fixed_bytes
  fixed_bytes_value n (TokenView.fixed_bytes v) h =
      (b'0' ∷ b'x' ∷ p.hex_encode v, refl, encoded-IsHex n v h)
  fixed_bytes_value n _ h = elim h [ ]

  pub token_fixed_bytes-Reads : (n : ℕ) → Reads (fixed_bytes n) (IsHex n) (token_fixed_bytes p)
  token_fixed_bytes-Reads n = Reads-total p (fixed_bytes_value n)

  bytes_value :
      (token : TokenView p.Token)
      → HasAtom bytes token
      → (a : Text) × (token_bytes p token ≡ ok a) × IsHexText a
  unfolding token_bytes
  bytes_value (TokenView.bytes v) h =
      (b'0' ∷ b'x' ∷ p.hex_encode v, refl, (length v, encoded-IsHex (length v) v refl))
  bytes_value _ h = elim h [ ]

  pub token_bytes-Reads : Reads bytes IsHexText (token_bytes p)
  token_bytes-Reads = Reads-total p bytes_value

  fields_atomic :
      {types : List AtomType} {fields : List p.Token}
      → Pairwise (λ type field. HasAtom type (p.view field)) types fields
      → Pairwise (HasType p) (map atomic types) fields
  fields_atomic done = done
  fields_atomic (both has rest) = both has (fields_atomic rest)

  fields_length :
      {types : List AtomType} {fields : List p.Token}
      → Pairwise (λ type field. HasAtom type (p.view field)) types fields
      → length types ≡ length fields
  fields_length done = refl
  fields_length (both has rest) = omega (arith, fields_length rest)

  -- The fields of a message are read like the tokens of an event.
  pub open_message-Ends :
      (types : List AtomType) (message : TokenView p.Token) (w : List p.Token)
      → length types ≡ 8
      → HasFields p types message
      → Ends
          (λ _ fields. Pairwise (HasType p) (map atomic types) fields)
          Expected
          (open_message p message)
          w
  unfolding open_message
  open_message-Ends types (TokenView.tuple fields) w size h =
      opened (length fields == 8) fields w (ground (arith, fields_length h)) (fields_atomic h)
  open_message-Ends types _ w size h = elim h [ ]
