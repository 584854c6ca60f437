-- ===== src/Double/Whole.antt =====
-- Whole numbers in place of the type `double`, to run the definitions at examples.
use nmxptool.Prelude.Int.{ℤ, ◌+ℤ◌, ◌-ℤ◌, ◌*ℤ◌, ltb_ℤ, leb_ℤ}
use nmxptool.Double.{Double}

abbrev pub whole : Double
whole = record {
  Num = ℤ;
  add = ◌+ℤ◌;
  sub = ◌-ℤ◌;
  mul = ◌*ℤ◌;
  div = λ a b. a;
  lt = ltb_ℤ;
  le = leb_ℤ;
  of_int = λ n. n;
  literal = λ n k. n;
  to_int = λ n. n;
}
