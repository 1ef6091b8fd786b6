-- ===== src/Encoding/Hex.antt =====
-- Hex of bytes reads back.
use signet_sandbox.Prelude.{ℕ, ◌/◌, ◌%◌, ◌<◌, ◌≡◌, refl, List, [], ◌∷◌, some, All, arith}
use signet_sandbox.Encoding.{hex_value, hex_byte, decode_hex, hex_digit, encode_hex}

value-digit : (n : ℕ) → n < 16 → hex_value (hex_digit n) ≡ some n
unfolding hex_value hex_digit
value-digit n h = ground arith

digit_not_plus : (n : ℕ) → n < 16 → (hex_digit n ≡ b'+') → ⊥
unfolding hex_digit
digit_not_plus n h e = ground arith

byte-digits : (b : ℕ) → b < 256 → hex_byte (hex_digit (b / 16)) (hex_digit (b % 16)) ≡ some b
unfolding hex_byte
byte-digits b h = ground (
  arith,
  value-digit (b / 16) (omega arith),
  value-digit (b % 16) (omega arith),
  digit_not_plus (b / 16) (omega arith),
)

-- Decoding the hex of a list of bytes gives the bytes.
pub decode_hex-encode_hex :
    (bytes : List ℕ) → All (λ b. b < 256) bytes → decode_hex (encode_hex bytes) ≡ some bytes
unfolding decode_hex encode_hex
decode_hex-encode_hex [] h = refl
decode_hex-encode_hex (b ∷ bytes) h =
    ground (arith, byte-digits b h.0, decode_hex-encode_hex bytes h.1)
