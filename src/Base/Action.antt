-- ===== src/Base/Action.antt =====
-- An `async fn` that may fail: it takes the state of everything outside the call, and returns its
-- result with the state that it leaves, after a failure too.
use mathlib.Core.Path.{◌≡◌, refl, ◌∙◌}
use mathlib.Core.Bool.{Bool, true, false}
use native.Mathlib.Omega.{arith}
use ormpindexer.Base.Tests.{if◌then◌else◌}
use ormpindexer.Base.Failure.{Result, ok, err, Error}

abbrev pub Action : Type 0 → Type 0 → Type 0
Action W A = W → Result A × W

abbrev pub pure : {W A : Type 0} → A → Action W A
pure a w = (ok a, w)

abbrev pub bail : {W A : Type 0} → Error → Action W A
bail e w = (err e, w)

-- `?` on a result that is already there
abbrev pub lift : {W A : Type 0} → Result A → Action W A
lift r w = (r, w)

infixl 5 ◌>>=◌ ◌>>◌
unfoldable pub ◌>>=◌ : {W A B : Type 0} → Action W A → (A → Action W B) → Action W B
◌>>=◌ m f w = let (r, w') = m w in elim r [ ok a ↦ f a w' | err e ↦ (err e, w') ]

abbrev pub ◌>>◌ : {W A B : Type 0} → Action W A → Action W B → Action W B
m >> k = m >>= λ _. k

-- `P` holds of the value and the state of a call that succeeds.
pub record Ensures {W A : Type 0} (P : A → W → Type 0) (m : Action W A) (w : W) : Type 0 where
  pub holds : (a : A) → (m w).0 ≡ ok a → P a (m w).1

module _ {W A : Type 0} {P : A → W → Type 0} where
  pub Ensures-pure : (a : A) (w : W) → P a w → Ensures P (pure a) w
  Ensures-pure a w h = record { holds = λ b e. ground (arith, h) }

  pub Ensures-bail : (e : Error) (w : W) → Ensures P (bail e) w
  Ensures-bail e w = record { holds = λ b h. cc }

  pub Ensures-if :
      (b : Bool) (m n : Action W A) (w : W)
      → (b ≡ true → Ensures P m w)
      → (b ≡ false → Ensures P n w)
      → Ensures P (if b then m else n) w
  Ensures-if true m n w h k = h refl
  Ensures-if false m n w h k = k refl

module _ {W A : Type 0} {P Q : A → W → Type 0} where
  -- A weaker fact holds too.
  pub Ensures-imp :
      {m : Action W A} {w : W}
      → ((a : A) (w' : W) → P a w' → Q a w')
      → Ensures P m w
      → Ensures Q m w
  Ensures-imp {m} {w} f h = record { holds = λ a e. f a (m w).1 (h.holds a e) }

module _ {W A B : Type 0} {P : B → W → Type 0} where
  ensures_result :
      (f : A → Action W B) (r : Result A) (w' : W)
      → ((a : A) → r ≡ ok a → Ensures P (f a) w')
      → (b : B) → (elim r as (λ _. Result B × W) [ ok a ↦ f a w' | err e ↦ (err e, w') ]).0 ≡ ok b
      → P b (elim r as (λ _. Result B × W) [ ok a ↦ f a w' | err e ↦ (err e, w') ]).1
  ensures_result f (ok a) w' h b e = (h a refl).holds b e
  ensures_result f (err x) w' h b e = cc

  -- Of a chain of calls: what holds behind the first, in the state that it leaves.
  pub Ensures-bind :
      (m : Action W A) (f : A → Action W B) (w : W)
      → ((a : A) → (m w).0 ≡ ok a → Ensures P (f a) (m w).1)
      → Ensures P (m >>= f) w
  unfolding ◌>>=◌
  Ensures-bind m f w h = record { holds = ensures_result f (m w).0 (m w).1 h }

module _ {W A B : Type 0} {Q : A → W → Type 0} {P : B → W → Type 0} where
  -- Of a chain of calls, where something is known of the first.
  pub Ensures-then :
      {m : Action W A} {f : A → Action W B} {w : W}
      → Ensures Q m w
      → ((a : A) (w' : W) → Q a w' → Ensures P (f a) w')
      → Ensures P (m >>= f) w
  Ensures-then {m} {f} {w} h k = Ensures-bind m f w λ a done. k a (m w).1 (h.holds a done)

-- A call leaves a part of the state alone, however it ends.
pub record Keeps {W V A : Type 0} (view : W → V) (m : Action W A) : Type 0 where
  pub at : (w : W) → view (m w).1 ≡ view w

module _ {W V A : Type 0} {view : W → V} where
  pub Keeps-pure : (a : A) → Keeps view (pure a)
  Keeps-pure a = record { at = λ w. refl }

  pub Keeps-lift : (r : Result A) → Keeps view (lift r)
  Keeps-lift r = record { at = λ w. refl }

  pub Keeps-if :
      (b : Bool) (m n : Action W A) → Keeps view m → Keeps view n → Keeps view (if b then m else n)
  Keeps-if true m n h k = h
  Keeps-if false m n h k = k

module _ {W V A B : Type 0} {view : W → V} where
  Keeps-result :
      (f : A → Action W B) (r : Result A) (w w' : W)
      → view w' ≡ view w
      → ((a : A) → Keeps view (f a))
      → view (elim r as (λ _. Result B × W) [ ok a ↦ f a w' | err e ↦ (err e, w') ]).1 ≡ view w
  Keeps-result f (ok a) w w' e k = (k a).at w' ∙ e
  Keeps-result f (err x) w w' e k = e

  pub Keeps-bind :
      (m : Action W A) (f : A → Action W B)
      → Keeps view m
      → ((a : A) → Keeps view (f a))
      → Keeps view (m >>= f)
  unfolding ◌>>=◌
  Keeps-bind m f h k = record { at = λ w. Keeps-result f (m w).0 w (m w).1 (h.at w) k }

pub ruleset keeps_rules = (Keeps-pure, Keeps-lift, Keeps-if, Keeps-bind)

-- `P` holds of the result and the state of a call, however it ends.
pub record Leaves {W A : Type 0} (P : Result A → W → Type 0) (m : Action W A) (w : W) : Type 0 where
  pub holds : P (m w).0 (m w).1

module _ {W A B : Type 0} {P : Result B → W → Type 0} where
  leaves_result :
      (f : A → Action W B) (r : Result A) (w' : W)
      → ((e : Error) → r ≡ err e → P (err e) w')
      → ((a : A) → r ≡ ok a → Leaves P (f a) w')
      → let p = elim r as (λ _. Result B × W) [ ok a ↦ f a w' | err e ↦ (err e, w') ] in P p.0 p.1
  leaves_result f (ok a) w' h k = (k a refl).holds
  leaves_result f (err e) w' h k = h e refl

  pub Leaves-bind :
      (m : Action W A) (f : A → Action W B) (w : W)
      → ((e : Error) → (m w).0 ≡ err e → P (err e) (m w).1)
      → ((a : A) → (m w).0 ≡ ok a → Leaves P (f a) (m w).1)
      → Leaves P (m >>= f) w
  unfolding ◌>>=◌
  Leaves-bind m f w h k = record { holds = leaves_result f (m w).0 (m w).1 h k }
