-- ===== src/Base/Order.antt =====
-- `Ord` of Rust with its laws, and its instances at `u64`, `String` and tuples.
use Prim.Native.Nat.{ℕ, compare, Ordering}
use Prim.Native.Nat.Ordering.{lt, eq, gt}
use mathlib.Core.Path.{◌≡◌, refl}
use mathlib.Core.List.{[], ◌∷◌}
use native.Mathlib.Omega.{arith}
use ormpindexer.Base.Bytes.{Text}

abbrev pub flip : Ordering → Ordering
flip lt = gt
flip eq = eq
flip gt = lt

pub record Order {ℓ} (K : Type ℓ) : Type ℓ where
  pub cmp : K → K → Ordering
  pub cmp_self : (a : K) → cmp a a ≡ eq
  pub eq_of_cmp : (a b : K) → cmp a b ≡ eq → a ≡ b
  pub cmp_flip : (a b : K) → cmp b a ≡ flip (cmp a b)
  pub cmp_trans : (a b c : K) → cmp a b ≡ lt → cmp b c ≡ lt → cmp a c ≡ lt

pub compare_self : (a : ℕ) → compare a a ≡ eq
compare_self a = ground arith

pub eq_of_compare : (a b : ℕ) → compare a b ≡ eq → a ≡ b
eq_of_compare a b h = ground arith

pub compare-flip : (a b : ℕ) → compare b a ≡ flip (compare a b)
compare-flip a b = ground arith

pub compare_trans : (a b c : ℕ) → compare a b ≡ lt → compare b c ≡ lt → compare a c ≡ lt
compare_trans a b c h k = ground arith

instance abbrev pub nat_order : Order ℕ
nat_order = record {
  cmp = compare;
  cmp_self = compare_self;
  eq_of_cmp = eq_of_compare;
  cmp_flip = compare-flip;
  cmp_trans = compare_trans;
}

-- The first difference decides.
abbrev pub or_else : Ordering → Ordering → Ordering
or_else lt second = lt
or_else eq second = second
or_else gt second = gt

-- Byte by byte, a prefix first.
abbrev pub text_cmp : Text → Text → Ordering
text_cmp [] [] = eq
text_cmp [] (d ∷ t) = lt
text_cmp (c ∷ s) [] = gt
text_cmp (c ∷ s) (d ∷ t) = or_else (compare c d) (text_cmp s t)

pub text_cmp_self : (s : Text) → text_cmp s s ≡ eq
text_cmp_self [] = refl
text_cmp_self (c ∷ s) = ground (arith, text_cmp_self s)

pub eq_of_text_cmp : (s t : Text) → text_cmp s t ≡ eq → s ≡ t
eq_of_text_cmp [] [] h = refl
eq_of_text_cmp [] (d ∷ t) h = cc
eq_of_text_cmp (c ∷ s) [] h = cc
eq_of_text_cmp (c ∷ s) (d ∷ t) h = ground (arith, eq_of_text_cmp s t)

pub text_cmp-flip : (s t : Text) → text_cmp t s ≡ flip (text_cmp s t)
text_cmp-flip [] [] = refl
text_cmp-flip [] (d ∷ t) = refl
text_cmp-flip (c ∷ s) [] = refl
text_cmp-flip (c ∷ s) (d ∷ t) = ground (arith, text_cmp-flip s t)

pub text_cmp_trans : (s t u : Text) → text_cmp s t ≡ lt → text_cmp t u ≡ lt → text_cmp s u ≡ lt
text_cmp_trans [] [] u h k = cc
text_cmp_trans [] (d ∷ t) [] h k = cc
text_cmp_trans [] (d ∷ t) (e ∷ u) h k = refl
text_cmp_trans (c ∷ s) [] u h k = cc
text_cmp_trans (c ∷ s) (d ∷ t) [] h k = cc
text_cmp_trans (c ∷ s) (d ∷ t) (e ∷ u) h k = ground (arith, text_cmp_trans s t u)

instance abbrev pub text_order : Order Text
text_order = record {
  cmp = text_cmp;
  cmp_self = text_cmp_self;
  eq_of_cmp = eq_of_text_cmp;
  cmp_flip = text_cmp-flip;
  cmp_trans = text_cmp_trans;
}

module _ {ℓ κ} {A : Type ℓ} {B : Type κ} ⦃a : Order A⦄ ⦃b : Order B⦄ where
  abbrev pub pair_cmp : A × B → A × B → Ordering
  pair_cmp x y = or_else (a.cmp x.0 y.0) (b.cmp x.1 y.1)

  pub pair_cmp_self : (x : A × B) → pair_cmp x x ≡ eq
  pair_cmp_self x = ground (arith, a.cmp_self x.0, b.cmp_self x.1)

  pub eq_of_pair_cmp : (x y : A × B) → pair_cmp x y ≡ eq → x ≡ y
  eq_of_pair_cmp x y h = ground (arith, a.eq_of_cmp x.0 y.0, b.eq_of_cmp x.1 y.1)

  pub pair_cmp-flip : (x y : A × B) → pair_cmp y x ≡ flip (pair_cmp x y)
  pair_cmp-flip x y = ground (arith, a.cmp_flip x.0 y.0, b.cmp_flip x.1 y.1)

  pub pair_cmp_trans : (x y z : A × B) → pair_cmp x y ≡ lt → pair_cmp y z ≡ lt → pair_cmp x z ≡ lt
  pair_cmp_trans x y z h k = ground (
    arith,
    a.eq_of_cmp x.0 y.0,
    a.eq_of_cmp y.0 z.0,
    a.cmp_trans x.0 y.0 z.0,
    b.cmp_trans x.1 y.1 z.1,
    a.cmp_self x.0,
  )

  instance abbrev pub pair_order : Order (A × B)
  pair_order = record {
    cmp = pair_cmp;
    cmp_self = pair_cmp_self;
    eq_of_cmp = eq_of_pair_cmp;
    cmp_flip = pair_cmp-flip;
    cmp_trans = pair_cmp_trans;
  }
