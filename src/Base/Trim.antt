-- ===== src/Base/Trim.antt =====
-- `str::trim` on UTF-8 bytes.
use Prim.Native.Nat.{ℕ, zero, suc}
use mathlib.Core.Bool.{Bool, ◌&&◌, ◌||◌}
use mathlib.Core.List.{[], ◌∷◌, reverse}
use ormpindexer.Base.Tests.{leb, ◌==◌, if◌then◌else◌}
use ormpindexer.Base.Bytes.{Text}

-- `char::is_whitespace` of the characters that UTF-8 writes with one, two and three bytes
abbrev pub is_space : ℕ → Bool
is_space c = (leb 9 c && leb c 13) || c == 32

abbrev pub is_space2 : ℕ → ℕ → Bool
is_space2 a b = a == 194 && (b == 133 || b == 160)

abbrev pub is_space3 : ℕ → ℕ → ℕ → Bool
is_space3 a b c =
    (a == 225 && (b == 154 && c == 128))
    || ((a == 226
          && (b == 128 && ((leb 128 c && leb c 138) || (c == 168 || (c == 169 || c == 175)))))
        || ((a == 226 && (b == 129 && c == 159)) || (a == 227 && (b == 128 && c == 128))))

-- How many bytes the whitespace character at the front of a text has, or 0.
unfoldable pub front_space : Text → ℕ
front_space [] = 0
front_space (a ∷ []) = if is_space a then 1 else 0
front_space (a ∷ b ∷ []) = if is_space a then 1 else if is_space2 a b then 2 else 0
front_space (a ∷ b ∷ c ∷ rest) =
    if is_space a then 1 else if is_space2 a b then 2 else if is_space3 a b c then 3 else 0

-- The same at the end, for a text that is given backwards.
unfoldable pub back_space : Text → ℕ
back_space [] = 0
back_space (a ∷ []) = if is_space a then 1 else 0
back_space (b ∷ a ∷ []) = if is_space b then 1 else if is_space2 a b then 2 else 0
back_space (c ∷ b ∷ a ∷ rest) =
    if is_space c then 1 else if is_space2 b c then 2 else if is_space3 a b c then 3 else 0

-- Drops `owed` bytes, and then characters as long as the measure finds whitespace.
unfoldable pub trim_by : (Text → ℕ) → ℕ → Text → Text
trim_by measure owed [] = []
trim_by measure (suc owed) (c ∷ rest) = trim_by measure owed rest
trim_by measure zero (c ∷ rest) = elim (measure (c ∷ rest)) [
  | zero ↦ c ∷ rest
  | suc owed ↦ trim_by measure owed rest
]

-- `str::trim`
unfoldable pub trim : Text → Text
trim value = reverse (trim_by back_space 0 (reverse (trim_by front_space 0 value)))
