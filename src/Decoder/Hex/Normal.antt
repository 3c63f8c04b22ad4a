-- ===== src/Decoder/Hex/Normal.antt =====
-- What `normalize_hex` returns (src/decoder/abi.rs): two fixed bytes, then lower-case digits.
use ormpindexer.Base.{
  all→All, All→all, All-imp, All-map, ℕ, ◌*◌, ◌≤◌, ◌<◌, ◌≡◌, refl, Bool, true, false, ◌&&◌, ◌||◌,
  some, [], ◌∷◌, Text, leb, ltb, if◌then◌else◌, all, All, All-append, lower, to_ascii_lowercase, ok,
  err, Error, Bool-cases, inl, inr, arith, checked_mul,
}
use mathlib.Core.List
use mathlib.Core.List.{reverse}
use ormpindexer.Base.Trim.{front_space, back_space, trim_by, trim}
use ormpindexer.Decoder.Hex.{is_ascii_hexdigit, normalize_hex, normalize_block_timestamp}
use ormpindexer.Schema.Ids.{strip_hex_prefix}

-- A digit 0 to 9 or a to f.
abbrev pub is_lower_hex : ℕ → Bool
is_lower_hex c = (leb b'0' c && leb c b'9') || (leb b'a' c && leb c b'f')

-- A byte that no whitespace character starts or ends with.
abbrev Plain : ℕ → Type 0
Plain c = 33 ≤ c × c < 128

front_space-Plain : (c : ℕ) (rest : Text) → Plain c → front_space (c ∷ rest) ≡ 0
unfolding front_space
front_space-Plain c [] h = ground arith
front_space-Plain c (b ∷ []) h = ground arith
front_space-Plain c (b ∷ d ∷ rest) h = ground arith

back_space-Plain : (c : ℕ) (rest : Text) → Plain c → back_space (c ∷ rest) ≡ 0
unfolding back_space
back_space-Plain c [] h = ground arith
back_space-Plain c (b ∷ []) h = ground arith
back_space-Plain c (b ∷ d ∷ rest) h = ground arith

trim_by-none :
    (measure : Text → ℕ) (c : ℕ) (rest : Text)
    → measure (c ∷ rest) ≡ 0
    → trim_by measure 0 (c ∷ rest) ≡ c ∷ rest
unfolding trim_by
trim_by-none measure c rest h = rw (h, trim_by) refl

lower-lower_hex : (c : ℕ) → is_ascii_hexdigit c ≡ true → is_lower_hex (lower c) ≡ true
lower-lower_hex c h = ground arith

lower_hex-Plain : (c : ℕ) → is_lower_hex c ≡ true → Plain c
lower_hex-Plain c h = ground arith

lower_hex-digit : (c : ℕ) → is_lower_hex c ≡ true → is_ascii_hexdigit c ≡ true
lower_hex-digit c h = ground arith

lower_hex-lower : (c : ℕ) → is_lower_hex c ≡ true → lower c ≡ c
lower_hex-lower c h = ground arith

-- `0x` and lower-case digits.
pub record IsNormal (text : Text) : Type 0 where
  pub digits : Text
  pub prefixed : text ≡ b'0' ∷ b'x' ∷ digits
  pub lower_hex : All (λ c. is_lower_hex c ≡ true) digits

trim_front-Plain : (s : Text) → All Plain s → trim_by front_space 0 s ≡ s
unfolding trim_by
trim_front-Plain [] h = refl
trim_front-Plain (c ∷ rest) h = trim_by-none front_space c rest (front_space-Plain c rest h.0)

trim_back-Plain : (s : Text) → All Plain s → trim_by back_space 0 s ≡ s
unfolding trim_by
trim_back-Plain [] h = refl
trim_back-Plain (c ∷ rest) h = trim_by-none back_space c rest (back_space-Plain c rest h.0)

All-reverse {κ} : (P : ℕ → Type κ) (s : Text) → All P s → All P (reverse s)
All-reverse P [] h = tt
All-reverse P (c ∷ rest) h =
    rw (List.reverse-cons c rest)
      (All-append P (reverse rest) (c ∷ []) (All-reverse P rest h.1) (h.0, tt))

trim-Plain : (s : Text) → All Plain s → trim s ≡ s
unfolding trim
trim-Plain s h =
    rw (trim_front-Plain s h)
      (rw (trim_back-Plain (reverse s) (All-reverse Plain s h)) (List.reverse-reverse s))

All-lowered :
    (s : Text)
    → all is_ascii_hexdigit s ≡ true
    → All (λ c. is_lower_hex c ≡ true) (to_ascii_lowercase s)
unfolding to_ascii_lowercase
All-lowered s h =
    All-map (λ c. is_lower_hex c ≡ true) lower s
      (All-imp lower-lower_hex s (all→All is_ascii_hexdigit s h))

lowered-fixed : (s : Text) → All (λ c. is_lower_hex c ≡ true) s → to_ascii_lowercase s ≡ s
unfolding to_ascii_lowercase
lowered-fixed [] h = refl
lowered-fixed (c ∷ rest) h = cc (lower_hex-lower c h.0, lowered-fixed rest h.1)

strip_hex_prefix-prefixed : (s : Text) → strip_hex_prefix (b'0' ∷ b'x' ∷ s) ≡ s
unfolding strip_hex_prefix
strip_hex_prefix-prefixed s = refl

-- A text in normal form is normalized to itself.
pub IsNormal-fixed : (text : Text) → IsNormal text → normalize_hex text ≡ ok text
unfolding normalize_hex
IsNormal-fixed text h =
    let plain : trim (b'0' ∷ b'x' ∷ h.digits) ≡ b'0' ∷ b'x' ∷ h.digits =
      trim-Plain (b'0' ∷ b'x' ∷ h.digits)
        (ground arith, (ground arith, All-imp lower_hex-Plain h.digits h.lower_hex)) in
    rw h.prefixed (
      rw plain (
        rw (strip_hex_prefix-prefixed h.digits) (
          rw (All→all is_ascii_hexdigit h.digits (All-imp lower_hex-digit h.digits h.lower_hex))
            (rw (lowered-fixed h.digits h.lower_hex) refl))))

IsNormal-digits :
    (digits text : Text)
    → (if all is_ascii_hexdigit digits
        then ok (b'0' ∷ b'x' ∷ to_ascii_lowercase digits)
        else err Error.invalid_hex)
      ≡ ok text
    → IsNormal text
IsNormal-digits digits text h = elim (Bool-cases (all is_ascii_hexdigit digits)) [
  | inl hex ↦ record {
    digits = to_ascii_lowercase digits;
    prefixed = let e : ok (b'0' ∷ b'x' ∷ to_ascii_lowercase digits) ≡ ok text = rw hex at h in cc;
    lower_hex = All-lowered digits hex;
  }
  | inr other ↦ let e : err Error.invalid_hex ≡ ok text = rw other at h in cc
]

-- What `normalize_hex` returns is in normal form.
pub normalize_hex-IsNormal : (value text : Text) → normalize_hex value ≡ ok text → IsNormal text
unfolding normalize_hex
normalize_hex-IsNormal value text h = IsNormal-digits (strip_hex_prefix (trim value)) text h

-- What `normalize_hex` returns is `0x` and lower-case digits, and is normalized to itself.
pub normalize_hex_lem :
    (value text : Text)
    → normalize_hex value ≡ ok text
    → IsNormal text × (normalize_hex text ≡ ok text)
normalize_hex_lem value text h =
    let normal = normalize_hex-IsNormal value text h in (normal, IsNormal-fixed text normal)

timestamp_window :
    (seconds : Bool) (value : ℕ)
    → (leb 1000000000 value && ltb value 10000000000) ≡ seconds
    → (r : ℕ) × ((if seconds then checked_mul value 1000 else some value) ≡ some r)
      × ((leb 1000000000 r && ltb r 10000000000) ≡ false)
timestamp_window true value h = (value * 1000, ground arith, ground arith)
timestamp_window false value h = (value, refl, h)

-- The normalization of a timestamp never overflows, and what it returns is normalized to itself.
pub normalize_block_timestamp_lem :
    (value : ℕ)
    → (r : ℕ) × (normalize_block_timestamp value ≡ some r) × (normalize_block_timestamp r ≡ some r)
unfolding normalize_block_timestamp
normalize_block_timestamp_lem value =
    let (r, found, outside) =
      timestamp_window (leb 1000000000 value && ltb value 10000000000) value refl in
    (r, found, rw outside refl)
