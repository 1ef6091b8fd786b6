-- ===== src/Encoding.antt =====
-- Byte encodings: hex and compact sizes of crates/signet-orchestrator/src/lib.rs, and compact sizes,
-- script pushes and heights of crates/signet-signer/src/signet.rs. A byte is a number below 256.
pub mod Hex
pub mod Sizes
pub mod Heights
use signet_sandbox.Prelude.{
  ℕ, zero, suc, ◌+◌, ◌-◌, ◌*◌, ◌/◌, ◌%◌, ◌^◌, Bool, true, false, ◌&&◌, List, [], ◌∷◌, ◌++◌, Option,
  none, some, ltb, leb, ◌==◌, if◌then◌else◌, length,
}
use signet_sandbox.Words.{is_digit}

-- `to_digit(16)`.
unfoldable pub hex_value : ℕ → Option ℕ
hex_value c =
    if is_digit c
    then some (c - b'0')
    else if leb b'a' c && leb c b'f'
    then some (c - b'a' + 10)
    else if leb b'A' c && leb c b'F'
    then some (c - b'A' + 10)
    else none

-- `u8::from_str_radix` of two characters; it accepts a leading `+`.
unfoldable pub hex_byte : ℕ → ℕ → Option ℕ
unfolding hex_value
hex_byte a b = if a == b'+' then hex_value b else elim (hex_value a) [
  | none ↦ none
  | some high ↦ elim (hex_value b) [ none ↦ none | some low ↦ some (high * 16 + low) ]
]

-- An odd length is refused; the loop takes two characters at a time. (A text that is not ASCII
-- makes the slice panic; challenges are ASCII.)
unfoldable pub decode_hex : List ℕ → Option (List ℕ)
unfolding hex_byte
decode_hex [] = some []
decode_hex (a ∷ []) = none
decode_hex (a ∷ b ∷ s) = elim (hex_byte a b) [
  | none ↦ none
  | some byte ↦ elim (decode_hex s) [ none ↦ none | some bytes ↦ some (byte ∷ bytes) ]
]

unfoldable pub hex_digit : ℕ → ℕ
hex_digit n = if ltb n 10 then b'0' + n else b'a' + (n - 10)

-- `{b:02x}` of each byte.
unfoldable pub encode_hex : List ℕ → List ℕ
unfolding hex_digit
encode_hex [] = []
encode_hex (b ∷ bytes) = hex_digit (b / 16) ∷ hex_digit (b % 16) ∷ encode_hex bytes

-- `to_le_bytes` of a number of `n` bytes, after the cast to that width.
unfoldable pub le_bytes : ℕ → ℕ → List ℕ
le_bytes zero x = []
le_bytes (suc n) x = x % 256 ∷ le_bytes n (x / 256)

unfoldable pub write_compact_size : List ℕ → ℕ → List ℕ
unfolding le_bytes
write_compact_size out len =
    if ltb len 253
    then out ++ len % 256 ∷ []
    else if leb len 65535
    then (out ++ 253 ∷ []) ++ le_bytes 2 (len % 2 ^ 16)
    else (out ++ 254 ∷ []) ++ le_bytes 4 (len % 2 ^ 32)

-- The signer's version.
unfoldable pub compact_size : ℕ → List ℕ
unfolding le_bytes
compact_size len =
    if leb len 0xfc
    then len % 256 ∷ []
    else if leb len 0xffff
    then 0xfd ∷ le_bytes 2 (len % 2 ^ 16)
    else 0xfe ∷ le_bytes 4 (len % 2 ^ 32)

-- A script with one more push.
unfoldable pub append_push : List ℕ → List ℕ → List ℕ
unfolding le_bytes
append_push script bytes =
    (if leb (length bytes) 0x4b
      then script ++ length bytes % 256 ∷ []
      else if leb (length bytes) 0xff
      then (script ++ 0x4c ∷ []) ++ length bytes % 256 ∷ []
      else (script ++ 0x4d ∷ []) ++ le_bytes 2 (length bytes % 2 ^ 16))
    ++ bytes

-- The loop `while n > 0`, on fuel.
height_loop : ℕ → ℕ → List ℕ
height_loop zero n = []
height_loop (suc fuel) n =
    let rest = height_loop fuel (n / 256) in if n == 0 then [] else n % 256 ∷ rest

last_is_high : List ℕ → Bool
last_is_high [] = false
last_is_high (b ∷ []) = leb 0x80 b
last_is_high (b ∷ c ∷ bytes) = last_is_high (c ∷ bytes)

-- The number in little-endian, with a zero byte where the top bit would read as a sign. A `u32`
-- has four bytes, so five rounds end the loop.
unfoldable pub bip34_height_bytes : ℕ → List ℕ
unfolding height_loop last_is_high
bip34_height_bytes height =
    if height == 0
    then 0 ∷ []
    else (let v = height_loop 5 height in if last_is_high v then v ++ 0 ∷ [] else v)

unfoldable pub bip34_coinbase_scriptsig : ℕ → List ℕ
unfolding bip34_height_bytes
bip34_coinbase_scriptsig height =
    if height == 0
    then 0 ∷ 0 ∷ []
    else if leb height 16
    then ((0x50 + height) % 256) ∷ 0 ∷ []
    else (let num = bip34_height_bytes height in length num % 256 ∷ num)
