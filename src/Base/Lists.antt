-- ===== src/Base/Lists.antt =====
-- Lists measured and indexed by native numbers, and predicates that hold of every element.
use Prim.Native.Nat.{ℕ, zero, suc, ◌+◌}
use mathlib.Core.Path.{◌≡◌, refl, ap}
use mathlib.Core.Logic.{inl, inr}
use mathlib.Core.Bool.{Bool, true, false, ◌&&◌, ◌||◌}
use mathlib.Core.Option.{Option, none, some}
use mathlib.Core.List.{List, [], ◌∷◌, ◌++◌, map}
use native.Mathlib.Omega.{arith}
use ormpindexer.Base.Tests.{if◌then◌else◌, Bool-cases}

module _ {ℓ} {A : Type ℓ} where
  abbrev pub length : List A → ℕ
  length [] = 0
  length (x ∷ xs) = suc (length xs)

  abbrev pub is_empty : List A → Bool
  is_empty [] = true
  is_empty (x ∷ xs) = false

  abbrev pub get_elem? : List A → ℕ → Option A
  get_elem? [] i = none
  get_elem? (x ∷ xs) zero = some x
  get_elem? (x ∷ xs) (suc i) = get_elem? xs i

  abbrev pub drop : ℕ → List A → List A
  drop zero xs = xs
  drop (suc n) [] = []
  drop (suc n) (x ∷ xs) = drop n xs

  abbrev pub take : ℕ → List A → List A
  take zero xs = []
  take (suc n) [] = []
  take (suc n) (x ∷ xs) = x ∷ take n xs

  abbrev pub any : (A → Bool) → List A → Bool
  any p [] = false
  any p (x ∷ xs) = p x || any p xs

  abbrev pub all : (A → Bool) → List A → Bool
  all p [] = true
  all p (x ∷ xs) = p x && all p xs

  abbrev pub find : (A → Bool) → List A → Option A
  find p [] = none
  find p (x ∷ xs) = if p x then some x else find p xs

  abbrev pub filter : (A → Bool) → List A → List A
  filter p [] = []
  filter p (x ∷ xs) = if p x then x ∷ filter p xs else filter p xs

  abbrev pub All {κ} : (A → Type κ) → List A → Type κ
  All P [] = Unit
  All P (x ∷ xs) = P x × All P xs

-- `a` is one of the elements.
pub data Among {ℓ} {A : Type ℓ} (a : A) : List A → Type ℓ where
  here : {x : A} {xs : List A} → a ≡ x → Among a (x ∷ xs)
  later : {x : A} {xs : List A} → Among a xs → Among a (x ∷ xs)

module _ {ℓ} {A : Type ℓ} where
  pub Among-filter :
      (p : A → Bool) (a : A) (xs : List A) → Among a xs → p a ≡ true → Among a (filter p xs)
  Among-filter p a [] m h = elim m [ ]
  Among-filter p a (x ∷ xs) (here e) h = let h' : p x ≡ true = rw (← e) h in rw h' (here e)
  Among-filter p a (x ∷ xs) (later m) h = elim (Bool-cases (p x)) [
    | inl keep ↦ rw keep (later (Among-filter p a xs m h))
    | inr skip ↦ rw skip (Among-filter p a xs m h)
  ]

  Among-kept :
      (p : A → Bool) (a x : A) (xs rest : List A)
      → (Among a rest → Among a xs × (p a ≡ true))
      → p x ≡ true
      → Among a (x ∷ rest)
      → Among a (x ∷ xs) × (p a ≡ true)
  Among-kept p a x xs rest ih keep (here e) = (here e, rw e keep)
  Among-kept p a x xs rest ih keep (later m) = let (m', t) = ih m in (later m', t)

  pub Among-of_filter :
      (p : A → Bool) (a : A) (xs : List A) → Among a (filter p xs) → Among a xs × (p a ≡ true)
  Among-of_filter p a [] h = elim h [ ]
  Among-of_filter p a (x ∷ xs) h = elim (Bool-cases (p x)) [
    | inl keep ↦ Among-kept p a x xs (filter p xs) (Among-of_filter p a xs) keep (rw keep at h)
    | inr skip ↦ let (m, t) = Among-of_filter p a xs (rw skip at h) in (later m, t)
  ]

  pub Among-map {κ} :
      {B : Type κ} (f : A → B) (a : A) (xs : List A) → Among a xs → Among (f a) (map f xs)
  Among-map f a [] m = elim m [ ]
  Among-map f a (x ∷ xs) (here e) = here (ap f e)
  Among-map f a (x ∷ xs) (later m) = later (Among-map f a xs m)

  pub Among-of_map {κ} :
      {B : Type κ} (f : A → B) (b : B) (xs : List A)
      → Among b (map f xs)
      → (a : A) × Among a xs × (b ≡ f a)
  Among-of_map f b [] m = elim m [ ]
  Among-of_map f b (x ∷ xs) (here e) = (x, here refl, e)
  Among-of_map f b (x ∷ xs) (later m) = let (a, h, e) = Among-of_map f b xs m in (a, later h, e)

  pub All-Among {κ} : (P : A → Type κ) (a : A) (xs : List A) → All P xs → Among a xs → P a
  All-Among P a [] h m = elim m [ ]
  All-Among P a (x ∷ xs) (p, h) (here e) = rw e p
  All-Among P a (x ∷ xs) (p, h) (later m) = All-Among P a xs h m

module _ {ℓ} {A : Type ℓ} where
  pub length-append : (xs ys : List A) → length (xs ++ ys) ≡ length xs + length ys
  length-append [] ys = omega arith
  length-append (x ∷ xs) ys = omega (arith, length-append xs ys)

  pub length-map {κ} : {B : Type κ} (f : A → B) (xs : List A) → length (map f xs) ≡ length xs
  length-map f [] = refl
  length-map f (x ∷ xs) = ap suc (length-map f xs)

  pub All-append {κ} : (P : A → Type κ) (xs ys : List A) → All P xs → All P ys → All P (xs ++ ys)
  All-append P [] ys h k = k
  All-append P (x ∷ xs) ys (p, h) k = (p, All-append P xs ys h k)

  pub All-filter {κ} :
      (P : A → Type κ) (p : A → Bool) (xs : List A) → All P xs → All P (filter p xs)
  All-filter P p [] h = tt
  All-filter P p (x ∷ xs) h = ground (arith, All-filter P p xs h.1)

  -- Filtering keeps exactly what passes the test.
  pub filter-passes : (p : A → Bool) (xs : List A) → All (λ x. p x ≡ true) (filter p xs)
  filter-passes p [] = tt
  filter-passes p (x ∷ xs) = ground (arith, filter-passes p xs)

  pub all→All : (p : A → Bool) (xs : List A) → all p xs ≡ true → All (λ x. p x ≡ true) xs
  all→All p [] h = tt
  all→All p (x ∷ xs) h = ground (arith, all→All p xs)

  pub All→all : (p : A → Bool) (xs : List A) → All (λ x. p x ≡ true) xs → all p xs ≡ true
  All→all p [] h = refl
  All→all p (x ∷ xs) h = ground (arith, All→all p xs h.1)

  -- What follows of one element from what is known of it.
  pub All-imp {κ μ} :
      {P : A → Type κ} {Q : A → Type μ} (f : (a : A) → P a → Q a) (xs : List A)
      → All P xs
      → All Q xs
  All-imp f [] h = tt
  All-imp f (x ∷ xs) h = (f x h.0, All-imp f xs h.1)

  pub All-map {κ μ} :
      {B : Type κ} (P : B → Type μ) (f : A → B) (xs : List A)
      → All (λ x. P (f x)) xs
      → All P (map f xs)
  All-map P f [] h = tt
  All-map P f (x ∷ xs) h = (h.0, All-map P f xs h.1)
