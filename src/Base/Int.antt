-- ===== src/Base/Int.antt =====
-- Signed integers, for the `int` arguments of the source.
use Prim.Native.Nat.{ℕ}

-- `negsuc n` is -(n + 1).
pub data ℤ : Type 0 where
  pos : ℕ → ℤ
  negsuc : ℕ → ℤ
