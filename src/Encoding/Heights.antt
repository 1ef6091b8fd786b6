-- ===== src/Encoding/Heights.antt =====
-- The height in a coinbase reads back as a positive script number.
use signet_sandbox.Prelude.{
  ℕ, zero, suc, ◌+◌, ◌*◌, ◌/◌, ◌^◌, ◌<◌, ◌≤◌, ◌≡◌, List, [], ◌∷◌, arith, length,
}
use signet_sandbox.Encoding.{height_loop, bip34_height_bytes}

-- The number that little-endian bytes stand for.
pub le_value : List ℕ → ℕ
le_value [] = 0
le_value (b ∷ bytes) = b + 256 * le_value bytes

Fits : ℕ → ℕ → Type 0
Fits zero n = n ≡ 0
Fits (suc f) n = Fits f (n / 256)

loop_value : (fuel n : ℕ) → Fits fuel n → le_value (height_loop fuel n) ≡ n
unfolding Fits le_value height_loop
loop_value zero n h = omega arith
loop_value (suc f) n h = ground (arith, loop_value f (n / 256) h)

-- The last byte is not zero, unless the one before it has its top bit set; it has its own unset.
pub IsMinimal : List ℕ → Type 0
IsMinimal [] = Unit
IsMinimal (b ∷ []) = (0 < b) × (b < 128)
IsMinimal (b ∷ c ∷ []) = (c < 128) × (c ≡ 0 → 128 ≤ b)
IsMinimal (b ∷ c ∷ d ∷ bytes) = IsMinimal (c ∷ d ∷ bytes)

-- The bytes of a positive 32-bit height are, in little-endian, that height, at most five of them,
-- without a sign bit and without a zero byte that could be left out.
pub bip34_height_bytes-IsMinimal :
    (h : ℕ)
    → 0 < h
    → h < 2 ^ 32
    → (le_value (bip34_height_bytes h) ≡ h)
      × IsMinimal (bip34_height_bytes h)
      × (length (bip34_height_bytes h) ≤ 5)
unfolding bip34_height_bytes le_value IsMinimal
bip34_height_bytes-IsMinimal h pos fits = ground arith
