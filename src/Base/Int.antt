-- ===== src/Base/Int.antt =====
-- Integers over the native numbers: the values of `long long` literals.
use Prim.Native.Nat.{ℕ}

-- `negsuc n` is -(n + 1).
pub data ℤ : Type 0 where
  pos : ℕ → ℤ
  negsuc : ℕ → ℤ
