-- ===== src/Base/Failure.antt =====
-- `anyhow::Result` and the program's failures. A failure is one of the messages that the source
-- raises; the context that is wrapped around a message for the log is not kept.
use mathlib.Core.Path.{◌≡◌, refl}
use mathlib.Core.Logic.{◌⊎◌, inl, inr}
use mathlib.Core.Bool.{Bool, true, false}
use native.Mathlib.Omega.{arith}
use mathlib.Core.Option.{Option, none, some}
use mathlib.Core.List.{List, [], ◌∷◌}
use ormpindexer.Base.Tests.{if◌then◌else◌}

pub data Error : Type 0 where
  batch_size_zero range_overflow : Error
  max_range_zero range_reversed no_contracts no_topics unconfigured_chain : Error
  unsupported_chain : Error
  served_end_without_start served_start_mismatch next_block_overflow missing_block_header : Error
  query_without_response repeated_cursor out_of_fuel : Error
  invalid_hex undecodable_hex invalid_answer transaction_index_overflow missing_topic0 missing_topic
        missing_prefix unsupported_topic0 :
      Error
  topic_size token_missing token_mismatch uint_overflow not_a_tuple tuple_size abi_invalid : Error
  missing_timestamp timestamp_overflow missing_id missing_transaction_index log_index_overflow :
      Error
  unconfirmed_end invalid_quantity missing_field truncated unrequested_log duplicate_position :
      Error
  metadata_mismatch source_mismatch index_overflow : Error
  finality_unknown not_configured zero_setting not_a_number : Error
  remote panic : Error

pub data Result {ℓ} (A : Type ℓ) : Type ℓ where
  ok : A → Result A
  err : Error → Result A

abbrev pub is_ok {ℓ} : {A : Type ℓ} → Result A → Bool
is_ok (ok value) = true
is_ok (err message) = false

-- `?` inside a chain of calls
infixl 5 ◌>>=◌ ◌>>◌
abbrev pub ◌>>=◌ {ℓ κ} : {B : Type κ} {A : Type ℓ} → Result A → (A → Result B) → Result B
ok value >>= next = next value
err message >>= next = err message

abbrev pub ◌>>◌ {ℓ κ} : {B : Type κ} {A : Type ℓ} → Result A → Result B → Result B
first >> second = first >>= λ _. second

-- `ensure!(b, e)`
abbrev pub ensure : Bool → Error → Result (Unit {0})
ensure true e = ok tt
ensure false e = err e

-- `.context(e)` on an `Option`
abbrev pub context {ℓ} : {A : Type ℓ} → Option A → Error → Result A
context none e = err e
context (some a) e = ok a

-- `.transpose()` of an optional fallible value
abbrev pub transpose {ℓ} : {A : Type ℓ} → Option (Result A) → Result (Option A)
transpose none = ok none
transpose (some (ok a)) = ok (some a)
transpose (some (err e)) = err e

-- `.collect::<anyhow::Result<Vec<_>>>()` over a mapped list: the first failure ends it.
abbrev pub map_result {ℓ κ} : {A : Type ℓ} {B : Type κ} → (A → Result B) → List A → Result (List B)
map_result f [] = ok []
map_result f (x ∷ xs) = f x >>= λ y. map_result f xs >>= λ ys. ok (y ∷ ys)

pub Result-cases {ℓ} :
    {A : Type ℓ} (r : Result A) → ((a : A) × (r ≡ ok a)) ⊎ ((e : Error) × (r ≡ err e))
Result-cases (ok a) = inl (a, refl)
Result-cases (err e) = inr (e, refl)

module _ {ℓ} {A : Type ℓ} where
  pub ok_injective {κ} : {B : Type κ} (f : A → B) {a b : A} → ok a ≡ ok b → f a ≡ f b
  ok_injective f h = cc

  -- A chain of calls succeeds where each of them does.
  pub >>=-ok {κ} :
      {B : Type κ} (r : Result A) (f : A → Result B) (b : B)
      → (r >>= f) ≡ ok b
      → (a : A) × (r ≡ ok a) × (f a ≡ ok b)
  >>=-ok (ok a) f b h = (a, refl, h)
  >>=-ok (err e) f b h = cc

  -- It fails where one of them does.
  pub >>=-err {κ} :
      {B : Type κ} (r : Result A) (f : A → Result B) (e : Error)
      → (r >>= f) ≡ err e
      → (r ≡ err e) ⊎ ((a : A) × (r ≡ ok a) × (f a ≡ err e))
  >>=-err (ok a) f e h = inr (a, refl, h)
  >>=-err (err x) f e h = let k : x ≡ e = cc in inl (cc k)

  pub ensured-ok :
      (c : Bool) (a b : A) (e : Error) → (if c then ok a else err e) ≡ ok b → (c ≡ true) × (a ≡ b)
  ensured-ok true a b e h = (refl, cc)
  ensured-ok false a b e h = cc

  pub ensured-err : (c : Bool) (a : A) (e x : Error) → (if c then ok a else err e) ≡ err x → e ≡ x
  ensured-err true a e x h = cc
  ensured-err false a e x h = cc

  pub context-ok : (o : Option A) (e : Error) (a : A) → context o e ≡ ok a → o ≡ some a
  context-ok none e a h = cc
  context-ok (some x) e a h = cc

  pub context-err : (o : Option A) (e x : Error) → context o e ≡ err x → e ≡ x
  context-err none e x h = cc
  context-err (some a) e x h = cc

-- `P` holds of the value of a chain of calls that succeeds.
pub record Yields {A : Type 0} (P : A → Type 0) (r : Result A) : Type 0 where
  pub value : (a : A) → r ≡ ok a → P a

module _ {A : Type 0} {P : A → Type 0} where
  pub Yields-ok : (a : A) → P a → Yields P (ok a)
  Yields-ok a h = record { value = λ b e. ground (arith, h) }

module _ {A B : Type 0} {P : B → Type 0} where
  pub Yields-bind :
      (r : Result A) {f : A → Result B} → ((a : A) → r ≡ ok a → Yields P (f a)) → Yields P (r >>= f)
  Yields-bind r {f} h = record {
    value = λ b e. let (a, first, rest) = >>=-ok r f b e in (h a first).value b rest;
  }

pub ensure-ok : (b : Bool) (e : Error) (u : Unit {0}) → ensure b e ≡ ok u → b ≡ true
ensure-ok true e u h = refl
ensure-ok false e u h = cc
