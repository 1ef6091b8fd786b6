-- ===== src/Words.antt =====
-- What the program uses of Rust's `u64`: decimal parsing and checked arithmetic, and the ASCII
-- classes of characters. Texts are lists of code points.
use mathlib.Core.List.{foldl}
use signet_sandbox.Prelude.{
  ℕ, ◌+◌, ◌-◌, ◌*◌, ◌^◌, ◌≤◌, ◌≡◌, refl, ◌≢◌, ◌⊎◌, ◌<◌, Bool, ◌&&◌, List, [], ◌∷◌, Option, none,
  some, arith, leb, if◌then◌else◌,
}

abbrev pub u64_max : ℕ
u64_max = 2 ^ 64 - 1

-- `char::is_ascii_digit`, `is_ascii_lowercase`, `is_ascii_uppercase`.
abbrev pub is_digit : ℕ → Bool
is_digit c = leb b'0' c && leb c b'9'

abbrev pub is_lower : ℕ → Bool
is_lower c = leb b'a' c && leb c b'z'

abbrev pub is_upper : ℕ → Bool
is_upper c = leb b'A' c && leb c b'Z'

abbrev pub IsDigit : ℕ → Type 0
IsDigit digit = (b'0' ≤ digit) × (digit ≤ b'9')

-- One more digit behind a number.
abbrev pub with_digit : ℕ → ℕ → ℕ
with_digit acc digit = acc * 10 + (digit - b'0')

-- The number that decimal digits spell behind `acc`, with no bound.
abbrev pub value : ℕ → List ℕ → ℕ
value = foldl with_digit

-- `checked_add` and `checked_mul` of `u64`.
abbrev pub checked : ℕ → Option ℕ
checked n = if leb n u64_max then some n else none

-- The loop over the digits, which stops where the number no longer fits.
scan : ℕ → List ℕ → Option ℕ
scan acc [] = some acc
scan acc (digit ∷ digits) =
    let rest = scan (with_digit acc digit) digits in
    if leb (with_digit acc digit) u64_max then rest else none

-- `str::parse::<u64>` of a text of ASCII digits.
unfoldable pub parse_u64 : List ℕ → Option ℕ
unfolding scan
parse_u64 [] = none
parse_u64 (digit ∷ digits) = scan 0 (digit ∷ digits)

pub le-value : (digits : List ℕ) (acc : ℕ) → acc ≤ value acc digits
le-value [] acc = omega arith
le-value (digit ∷ digits) acc = omega (arith, le-value digits (with_digit acc digit))

scan_outcome :
    (acc : ℕ) (digits : List ℕ)
    → acc ≤ u64_max
    → (scan acc digits ≡ some (value acc digits) × (value acc digits ≤ u64_max))
      ⊎ ((scan acc digits ≡ none) × (u64_max < value acc digits))
unfolding scan
scan_outcome acc [] fits = ground arith
scan_outcome acc (digit ∷ digits) fits =
    ground
      (arith, scan_outcome (with_digit acc digit) digits, le-value digits (with_digit acc digit))

pub parse_u64_sound :
    (digits : List ℕ) (r : ℕ) → parse_u64 digits ≡ some r → (r ≡ value 0 digits) × (r ≤ u64_max)
unfolding parse_u64
parse_u64_sound [] r h = cc
parse_u64_sound (digit ∷ digits) r h = ground (arith, h, scan_outcome 0 (digit ∷ digits))

pub parse_u64_complete :
    (digits : List ℕ)
    → digits ≢ []
    → value 0 digits ≤ u64_max
    → parse_u64 digits ≡ some (value 0 digits)
unfolding parse_u64
parse_u64_complete [] h fits = absurd (h refl)
parse_u64_complete (digit ∷ digits) h fits = ground (arith, fits, scan_outcome 0 (digit ∷ digits))
