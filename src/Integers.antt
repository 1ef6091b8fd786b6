-- ===== src/Integers.antt =====
-- Signed integers. `negsuc n` is -(n + 1).
use signet_sandbox.Prelude.{ℕ}

pub data ℤ : Type 0 where
  pos : ℕ → ℤ
  negsuc : ℕ → ℤ
