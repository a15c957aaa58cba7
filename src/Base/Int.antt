-- ===== src/Base/Int.antt =====
-- Whole numbers, for what the source checks to be non-negative.
use Prim.Native.Nat.{ℕ}

-- `negsuc n` is -(n + 1).
pub data ℤ : Type 0 where
  pos : ℕ → ℤ
  negsuc : ℕ → ℤ
