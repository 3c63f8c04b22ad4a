-- ===== src/Config/Tests.antt =====
-- The texts of finality modes, at one text.
use ormpindexer.Base.{◌≡◌, ◌↔◌, codes, ok}
use ormpindexer.Config.Types.{safe, as_str, from_str}
use ormpindexer.Config.Modes.{from_str_iff}

from_str_iff_example : (from_str (codes "safe") ≡ ok safe) ↔ (codes "safe" ≡ as_str safe)
from_str_iff_example = from_str_iff (codes "safe") safe
