-- ===== src/Base/Integer.antt =====
-- Signed numbers, for values that the program reads as int64.
use Prim.Native.Nat.{ℕ}

-- `negsuc n` is -(n + 1).
pub data ℤ : Type 0 where
  pos : ℕ → ℤ
  negsuc : ℕ → ℤ
