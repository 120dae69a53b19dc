-- ===== src/Base/Values.antt =====
-- Python values as far as the program validates them: `negsuc n` is -(n + 1).
use Prim.Native.Nat.{ℕ}
use mathlib.Core.Bool.{Bool}

pub data ℤ : Type 0 where
  pos : ℕ → ℤ
  negsuc : ℕ → ℤ

-- An argument of type `object`: what an `isinstance` test may meet.
pub data Value : Type 0 where
  int : ℤ → Value
  float : ℤ → Value
  bool : Bool → Value
  other : Value
