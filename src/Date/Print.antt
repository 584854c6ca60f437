-- ===== src/Date/Print.antt =====
-- nmxp_data_to_str, nmxp_data_year_from_epoch and nmxp_data_yday_from_epoch. Of the C library: the
-- conversion %0wd of an int, which has at most ten digits.
pub mod Digits
use nmxptool.Prelude.{
  ℕ, zero, suc, ◌+◌, ◌-◌, ◌/◌, ◌%◌, Bool, true, false, List, [], ◌∷◌, ◌++◌, length, replicate, ltb,
  if◌then◌else◌,
}
use nmxptool.Prelude.Int.{ℤ, pos, negsuc, ◌+ℤ◌, eqb_ℤ}
use nmxptool.Double.{Double}
use nmxptool.Text.{Str}
use nmxptool.Date.{Tm}

-- The digits of a number below 10 ^ (n + 1).
unfoldable pub decimal : ℕ → ℕ → Str
decimal zero m = (b'0' + m % 10) ∷ []
decimal (suc n) m =
    if ltb m 10 then (b'0' + m) ∷ [] else decimal n (m / 10) ++ ((b'0' + m % 10) ∷ [])

unfoldable pub zero_padded : ℕ → ℕ → Str
zero_padded w m = let s = decimal 9 m in replicate (w - length s) b'0' ++ s

unfoldable pub padded_int : ℕ → ℤ → Str
padded_int w (pos m) = zero_padded w m
padded_int w (negsuc m) = b'-' ∷ zero_padded (w - 1) (suc m)

-- "%04d.%03d,%02d:%02d:%02d.%04d".
unfoldable pub date_line : ℤ → ℤ → ℤ → ℤ → ℤ → ℤ → Str
date_line year yday hour minute second fraction =
    padded_int 4 year
    ++ b'.'
      ∷ (padded_int 3 yday
          ++ b','
            ∷ (padded_int 2 hour
                ++ b':'
                  ∷ (padded_int 2 minute
                      ++ b':' ∷ (padded_int 2 second ++ b'.' ∷ padded_int 4 fraction))))

-- gmtime_r() and the conversion to time_t are parameters.
module _ (dbl : Double) (to_time_t : dbl.Num → ℤ) (gmtime : ℤ → Tm) where
  open dbl use {Num, sub, mul, lt, of_int, literal, to_int}

  unfoldable pub whole_seconds : Num → ℤ
  whole_seconds time_d = if lt (literal (pos 0) 1) time_d then to_time_t time_d else pos 0

  unfoldable pub to_str : Num → Str
  to_str time_d =
      let t = whole_seconds time_d in
      let tm = gmtime t in
      date_line (tm.year +ℤ pos 1900) (tm.yday +ℤ pos 1) tm.hour tm.min tm.sec (
        if eqb_ℤ t (pos 0)
        then pos 0
        else to_int (mul (sub time_d (of_int t)) (literal (pos 100000) 1)))

  unfoldable pub year_from_epoch : Num → ℤ
  year_from_epoch time_d = (gmtime (whole_seconds time_d)).year +ℤ pos 1900

  unfoldable pub yday_from_epoch : Num → ℤ
  yday_from_epoch time_d = (gmtime (whole_seconds time_d)).yday +ℤ pos 1
