-- ===== src/Base/Ints.antt =====
-- Go's `int`, as far as the code compares it: a number or a negative one.
use Prim.Native.Nat.{ℕ}

pub data ℤ : Type 0 where
  pos : ℕ → ℤ
  negsuc : ℕ → ℤ
