-- ===== src/Common/Int.antt =====
-- `i64` values by their sign. No operation wraps where they are used.
use Prim.Native.Nat.{ℕ}

-- `negsuc n` is -(n + 1).
pub data ℤ : Type 0 where
  pos : ℕ → ℤ
  negsuc : ℕ → ℤ
