-- ===== src/Base/Integers.antt =====
-- A C int, where a test of its sign matters.
use Prim.Native.Nat.{ℕ}

pub data ℤ : Type 0 where
  pos : ℕ → ℤ
  negsuc : ℕ → ℤ
