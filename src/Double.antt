-- ===== src/Double.antt =====
-- What the code takes from the C type `double`: the compiler's arithmetic is not part of the
-- repository, so the type and its operations are a parameter of the definitions that use them.
pub mod Whole
use nmxptool.Prelude.{ℕ, Bool}
use nmxptool.Prelude.Int.{ℤ}

pub record Double : Type 1 where
  pub Num : Type 0
  pub add : Num → Num → Num
  pub sub : Num → Num → Num
  pub mul : Num → Num → Num
  pub div : Num → Num → Num
  -- `a < b` and `a <= b`.
  pub lt : Num → Num → Bool
  pub le : Num → Num → Bool
  -- `(double) n` of an integer, and the constant `n / 10 ^ k` of a literal with k decimals.
  pub of_int : ℤ → Num
  pub literal : ℤ → ℕ → Num
  -- `(int) x`.
  pub to_int : Num → ℤ
