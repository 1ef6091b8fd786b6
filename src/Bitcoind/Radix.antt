-- ===== src/Bitcoind/Radix.antt =====
-- `de_hex_i32` of crates/signet-bitcoind/src/types.rs and the hexadecimal `from_str_radix` of the
-- standard library.
use signet_sandbox.Prelude.{
  ℕ, zero, suc, ◌+◌, ◌-◌, ◌*◌, ◌%◌, ◌^◌, ◌==◌, String, List, [], ◌∷◌, none, some, Result, ok, err,
  if◌then◌else◌, leb,
}
use signet_sandbox.Integers.{ℤ, pos, negsuc}
use signet_sandbox.Encoding.{hex_value}
use signet_sandbox.Texts.{codes}
use signet_sandbox.Bitcoind.{Json, integer, number, string}

abbrev pub invalid_digit : String
invalid_digit = "invalid digit found in string"

abbrev pub too_large : String
too_large = "number too large to fit in target type"

abbrev pub too_small : String
too_small = "number too small to fit in target type"

-- The digits behind a number that stays within `max`, and what is said where it does not.
unfoldable pub hex_scan : ℕ → String → ℕ → List ℕ → Result String ℕ
unfolding hex_value
hex_scan max past acc [] = ok acc
hex_scan max past acc (c ∷ s) = elim (hex_value c) [
  | none ↦ err invalid_digit
  | some digit ↦
      let rest = hex_scan max past (acc * 16 + digit) s in
      if leb (acc * 16 + digit) max then rest else err past
]

-- `u32::from_str_radix(s, 16)`. A sign alone has no digits.
unfoldable pub u32_from_hex : List ℕ → Result String ℕ
unfolding hex_scan
u32_from_hex [] = err "cannot parse integer from empty string"
u32_from_hex (c ∷ []) = hex_scan (2 ^ 32 - 1) too_large 0 (c ∷ [])
u32_from_hex (c ∷ d ∷ s) =
    if c == b'+'
    then hex_scan (2 ^ 32 - 1) too_large 0 (d ∷ s)
    else hex_scan (2 ^ 32 - 1) too_large 0 (c ∷ d ∷ s)

abbrev negate : ℕ → ℤ
negate zero = pos 0
negate (suc n) = negsuc n

abbrev as_positive : Result String ℕ → Result String ℤ
as_positive (ok n) = ok (pos n)
as_positive (err e) = err e

abbrev as_negative : Result String ℕ → Result String ℤ
as_negative (ok n) = ok (negate n)
as_negative (err e) = err e

-- `i64::from_str_radix(s, 16)`.
unfoldable pub i64_from_hex : List ℕ → Result String ℤ
unfolding hex_scan
i64_from_hex [] = err "cannot parse integer from empty string"
i64_from_hex (c ∷ []) = as_positive (hex_scan (2 ^ 63 - 1) too_large 0 (c ∷ []))
i64_from_hex (c ∷ d ∷ s) =
    if c == b'-'
    then as_negative (hex_scan (2 ^ 63) too_small 0 (d ∷ s))
    else if c == b'+'
    then as_positive (hex_scan (2 ^ 63 - 1) too_large 0 (d ∷ s))
    else as_positive (hex_scan (2 ^ 63 - 1) too_large 0 (c ∷ d ∷ s))

-- `as i32`: the low 32 bits.
unfoldable pub as_i32 : ℤ → ℕ
as_i32 (pos n) = n % 2 ^ 32
as_i32 (negsuc n) = 2 ^ 32 - 1 - n % 2 ^ 32

abbrev bits_of : Result String ℤ → Result String ℕ
unfolding as_i32
bits_of (ok n) = ok (as_i32 n)
bits_of (err e) = err e

unfoldable pub de_hex_i32 : Json → Result String ℕ
unfolding i64_from_hex bits_of as_i32
de_hex_i32 (string s) = bits_of (i64_from_hex (codes s))
de_hex_i32 (integer n) = ok (as_i32 n)
de_hex_i32 (number text) = err "number out of range"
de_hex_i32 _ = err "expected string or number"
