-- ===== src/Common/Int.antt =====
-- Integers over the native numbers: the values of a JavaScript number that is an integer.
use Prim.Native.Nat.{ℕ}

-- `negsuc n` is -(n + 1).
pub data ℤ : Type 0 where
  pos : ℕ → ℤ
  negsuc : ℕ → ℤ
