-- ===== src/Prelude/Int.antt =====
-- The integers that `int` and the underlying values of enumerations range over.
use Prim.Native.Nat.{ℕ}

-- `negsuc n` is -(n + 1).
pub data ℤ : Type 0 where
  pos : ℕ → ℤ
  negsuc : ℕ → ℤ
