-- ===== src/Date.antt =====
-- Dates: nmxp_data_parse_date and nmxp_data_to_str of lib/nmxp_data.c.
mod Tests
pub mod Strtol
pub mod Months
pub mod Parse
pub mod Print
use nmxptool.Prelude.{
  ℕ, suc, ◌+◌, ◌%◌, ◌==◌, Bool, ◌&&◌, ◌||◌, not, Option, none, some, List, [], ◌∷◌, if◌then◌else◌,
}
use nmxptool.Prelude.Int.{ℤ, pos, negsuc, ltb_ℤ, ◌-ℤ◌}

-- NMXP_TM_T: struct tm with the ten thousandths of a second.
pub record Tm : Type 0 where
  pub sec : ℤ
  pub min : ℤ
  pub hour : ℤ
  pub mday : ℤ
  pub mon : ℤ
  pub year : ℤ
  pub wday : ℤ
  pub yday : ℤ
  pub isdst : ℤ
  pub d : ℕ

-- `z % k == 0`.
abbrev pub divides : ℕ → ℤ → Bool
divides k (pos n) = n % k == 0
divides k (negsuc n) = suc n % k == 0

-- NMXP_DATA_IS_LEAP.
unfoldable pub is_leap : ℤ → Bool
is_leap yr = divides 400 yr || divides 4 yr && not (divides 100 yr)

-- `month_days`, after its second cell was counted up in a leap year.
unfoldable pub month_days : Bool → List ℕ
month_days leap =
    31 ∷ (if leap then 29 else 28) ∷ 31 ∷ 30 ∷ 31 ∷ 30 ∷ 31 ∷ 31 ∷ 30 ∷ 31 ∷ 30 ∷ 31 ∷ []

-- The loop over the months, from month m on with `left` days: the month and the day in it. `none` is a
-- read past the end of `month_days`.
unfoldable pub walk_months : ℕ → List ℕ → ℤ → Option (ℕ × ℤ)
walk_months m [] left = none
walk_months m (days ∷ rest) left =
    let later = walk_months (suc m) rest (left -ℤ pos days) in
    if ltb_ℤ (pos days) left then later else some (m, left)
