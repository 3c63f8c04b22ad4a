-- ===== src/Base/Ends.antt =====
-- What holds of a call, however it ends: of the value and the state after a success, and of the error
-- after a failure.
use mathlib.Core.Path.{◌≡◌, refl}
use mathlib.Core.Bool.{Bool, true, false}
use native.Mathlib.Omega.{arith}
use ormpindexer.Base.Tests.{if◌then◌else◌}
use ormpindexer.Base.Failure.{Result, ok, err, Error}
use ormpindexer.Base.Action.{Action, pure, bail, lift, ◌>>=◌}

pub record Ends {W A : Type 0} (P : A → W → Type 0) (E : Error → Type 0) (m : Action W A) (w : W)
    : Type 0 where
  pub succeeds : (a : A) → (m w).0 ≡ ok a → P a (m w).1
  pub fails : (e : Error) → (m w).0 ≡ err e → E e

module _ {W A : Type 0} {P : A → W → Type 0} {E : Error → Type 0} where
  pub Ends-pure : (a : A) (w : W) → P a w → Ends P E (pure a) w
  Ends-pure a w h = record { succeeds = λ b e. ground (arith, h); fails = λ x e. cc }

  pub Ends-bail : (e : Error) (w : W) → E e → Ends P E (bail e) w
  Ends-bail e w h = record { succeeds = λ a k. cc; fails = λ x k. ground (arith, h) }

  pub Ends-if :
      (b : Bool) (m n : Action W A) (w : W)
      → Ends P E m w
      → Ends P E n w
      → Ends P E (if b then m else n) w
  Ends-if true m n w h k = h
  Ends-if false m n w h k = k

module _ {W A B : Type 0} {P : B → W → Type 0} {E : Error → Type 0} where
  Ends-result :
      (f : A → Action W B) (r : Result A) (w : W)
      → ((a : A) → r ≡ ok a → Ends P E (f a) w)
      → ((e : Error) → r ≡ err e → E e)
      → Ends P E (λ _. elim r as (λ _. Result B × W) [ ok a ↦ f a w | err e ↦ (err e, w) ]) w
  Ends-result f (ok a) w h k = record {
    succeeds = λ b e. (h a refl).succeeds b e;
    fails = λ x e. (h a refl).fails x e;
  }
  Ends-result f (err e) w h k = record {
    succeeds = λ b d. cc;
    fails = λ x d. ground (arith, k e refl);
  }

  -- Of a chain of calls, where the first returns and leaves what is known to be in `Q`.
  pub Ends-bind :
      {Q : A → W → Type 0} {m : Action W A} {f : A → Action W B} {w : W}
      → Ends Q E m w
      → ((a : A) (w' : W) → Q a w' → Ends P E (f a) w')
      → Ends P E (m >>= f) w
  unfolding ◌>>=◌
  Ends-bind {Q} {m} {f} {w} h k =
      let r =
        Ends-result f (m w).0 (m w).1 (λ a done. k a (m w).1 (h.succeeds a done))
          (λ e failed. h.fails e failed) in
      record { succeeds = λ b e. r.succeeds b e; fails = λ x e. r.fails x e }

  -- Of a chain that starts with a result, which leaves the state alone.
  pub Ends-lift :
      {r : Result A} {f : A → Action W B} {w : W}
      → ((a : A) → r ≡ ok a → Ends P E (f a) w)
      → ((e : Error) → r ≡ err e → E e)
      → Ends P E (lift r >>= f) w
  unfolding ◌>>=◌
  Ends-lift {r} {f} {w} h k =
      let s = Ends-result f r w h k in
      record { succeeds = λ b e. s.succeeds b e; fails = λ x e. s.fails x e }
