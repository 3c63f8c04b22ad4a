-- ===== src/Config/Modes.antt =====
-- The text of a finality mode, which is stored with every anchor and read again (src/config.rs).
use ormpindexer.Base.{◌≡◌, refl, sym, ◌↔◌, Text, codes, text_eq, text_eq→≡, ok, arith}
use ormpindexer.Config.Types.{FinalityMode, finalized, durable, safe, latest, as_str, from_str}

from_str-as_str : (mode : FinalityMode) → from_str (as_str mode) ≡ ok mode
unfolding from_str as_str text_eq
from_str-as_str finalized = refl
from_str-as_str durable = refl
from_str-as_str safe = refl
from_str-as_str latest = refl

as_str-from_str :
    (value : Text) (mode : FinalityMode) → from_str value ≡ ok mode → as_str mode ≡ value
unfolding from_str as_str
as_str-from_str value mode h = ground (
  arith,
  text_eq→≡ value (codes "finalized"),
  text_eq→≡ value (codes "durable"),
  text_eq→≡ value (codes "safe"),
  text_eq→≡ value (codes "latest"),
)

-- A text is read as a mode if and only if it is the text that the mode is written as: what is written
-- is read as the same mode, and nothing else is accepted.
pub from_str_iff :
    (value : Text) (mode : FinalityMode) → (from_str value ≡ ok mode) ↔ (value ≡ as_str mode)
from_str_iff value mode =
    (λ h. sym (as_str-from_str value mode h), λ e. rw e (from_str-as_str mode))
