-- ===== src/Base.antt =====
-- What the modules of the development share: names of the libraries, tests, lists, failures, texts.
mod Tests
mod Lists
mod Failure
mod Word
mod Bytes
pub mod Trim
pub mod Order
pub mod BTreeMap
pub mod Action
pub mod Ends
pub use Tests.*
pub use Lists.*
pub use Failure.*
pub use Word.*
unfoldable pub use Bytes.*
pub use Prim.Native.Nat.{
  ℕ, zero, suc, ◌+◌, ◌-◌, ◌*◌, ◌/◌, ◌%◌, ◌^◌, ◌≤◌, ◌<◌, min, max, compare, Ordering,
}
pub use mathlib.Core.Path.{◌≡◌, refl, sym, ap, subst, ◌∙◌}
pub use mathlib.Core.Logic.{◌≢◌, ◌↔◌, ◌⊎◌, inl, inr}
pub use mathlib.Core.Bool.{Bool, true, false, not, ◌&&◌, ◌||◌}
pub use mathlib.Core.Option.{Option, none, some}
pub use mathlib.Core.List.{List, [], ◌∷◌, ◌++◌, map}
pub use native.Mathlib.Omega.{arith}
pub use native.Mathlib.Nat.{le_refl}
unfoldable pub use native.Mathlib.Decide.{dec_le, dec_lt}
