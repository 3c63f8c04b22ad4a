-- ===== src/Decoder/Abi.antt =====
-- Fields of an event that stand in its data (src/decoder/abi.rs), which the `ethabi` package decodes
-- to tokens. The packages `ethabi` and `hex` are parameters. The list of tokens that `take` removes
-- from is the state. The argument `data` is `payload` here.
pub mod Typed
pub mod Readers
use ormpindexer.Base.{
  ℕ, zero, suc, ◌^◌, Bool, Option, none, some, List, [], ◌∷◌, ◌++◌, Text, ltb, ◌==◌, if◌then◌else◌,
  length, drop, get_elem?, Result, ok, err, Error, ensure, context,
}
use ormpindexer.Base.Action.{Action, pure, bail, lift, ◌>>=◌, ◌>>◌}
use ormpindexer.Decoder.Topics.{as_u128}

-- The types of data that the decoder asks `ethabi` for. Its only tuple has no tuple inside.
pub data AtomType : Type 0 where
  uint : ℕ → AtomType
  address : AtomType
  fixed_bytes : ℕ → AtomType
  bytes : AtomType
  bool : AtomType

pub data ParamType : Type 0 where
  atomic : AtomType → ParamType
  tuple : List AtomType → ParamType

-- What a `match` on a token of `ethabi` finds.
pub data TokenView (Token : Type 0) : Type 0 where
  address : List ℕ → TokenView Token
  fixed_bytes : List ℕ → TokenView Token
  bytes : List ℕ → TokenView Token
  uint : ℕ → TokenView Token
  bool : Bool → TokenView Token
  tuple : List Token → TokenView Token
  other : TokenView Token

-- What the decoder calls of the packages: `ethabi::decode`, the cases of a token, `hex::encode`,
-- `hex::decode`, and `U256::from_str_radix` at 16. A failure is `none`.
pub record Packages : Type 1 where
  pub Token : Type 0
  pub view : Token → TokenView Token
  pub decode : List ParamType → List ℕ → Option (List Token)
  pub hex_encode : List ℕ → Text
  pub hex_decode : Text → Option (List ℕ)
  pub from_str_radix : Text → Option ℕ

module _ (p : Packages) where
  -- `decode_event`, whose tokens are what the following reads take from
  unfoldable pub decode_event : List ParamType → List ℕ → Action (List p.Token) (Unit {0})
  decode_event types payload tokens = elim (p.decode types payload) [
    | none ↦ (err Error.abi_invalid, tokens)
    | some decoded ↦ (ok tt, decoded)
  ]

  unfoldable pub take : Action (List p.Token) p.Token
  take [] = (err Error.token_missing, [])
  take (token ∷ rest) = (ok token, rest)

  unfoldable pub token_address : TokenView p.Token → Result Text
  token_address (TokenView.address value) = ok (b'0' ∷ b'x' ∷ p.hex_encode value)
  token_address _ = err Error.token_mismatch

  unfoldable pub token_fixed_bytes : TokenView p.Token → Result Text
  token_fixed_bytes (TokenView.fixed_bytes value) = ok (b'0' ∷ b'x' ∷ p.hex_encode value)
  token_fixed_bytes _ = err Error.token_mismatch

  unfoldable pub token_bytes : TokenView p.Token → Result Text
  token_bytes (TokenView.bytes value) = ok (b'0' ∷ b'x' ∷ p.hex_encode value)
  token_bytes _ = err Error.token_mismatch

  unfoldable pub token_bool : TokenView p.Token → Result Bool
  token_bool (TokenView.bool value) = ok value
  token_bool _ = err Error.token_mismatch

  unfoldable pub token_uint : TokenView p.Token → Result ℕ
  unfolding as_u128
  token_uint (TokenView.uint value) = as_u128 value
  token_uint _ = err Error.token_mismatch

  -- The eight fields of a message: the following reads take from them.
  unfoldable pub open_message : TokenView p.Token → Action (List p.Token) (Unit {0})
  open_message (TokenView.tuple fields) tokens =
      if length fields == 8 then (ok tt, fields) else (err Error.tuple_size, tokens)
  open_message _ tokens = (err Error.not_a_tuple, tokens)

  -- `token_…(take(&mut tokens, …)?)?`
  unfoldable pub take_as : {A : Type 0} → (TokenView p.Token → Result A) → Action (List p.Token) A
  take_as read = take >>= λ token. lift (read (p.view token))
