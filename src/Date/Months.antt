-- ===== src/Date/Months.antt =====
-- Days of the year and days of the months: the loop over the months, and its test for leap years.
use nmxptool.Prelude.{
  ℕ, zero, suc, ◌+◌, ◌-◌, ◌%◌, ◌≤◌, ◌<◌, ◌≡◌, ◌≢◌, refl, ◌∙◌, ap, Bool, true, false, ◌&&◌, ◌||◌,
  not, ◌==◌, none, some, List, [], ◌∷◌, get_or, length, arith,
}
use nmxptool.Prelude.Int.{pos, ltb_ℤ, ◌-ℤ◌}
use nmxptool.Date.{is_leap, month_days, walk_months}

-- The leap years of the Gregorian calendar.
abbrev pub gregorian : ℕ → Bool
gregorian y = y % 400 == 0 || y % 4 == 0 && not (y % 100 == 0)

-- The days before a month of a list.
abbrev pub days_before : List ℕ → ℕ → ℕ
days_before [] m = 0
days_before (days ∷ rest) zero = 0
days_before (days ∷ rest) (suc m) = days + days_before rest m

-- A day of a month of a list, both counted from the front; the day from 1.
pub record IsDay (days : List ℕ) (m d : ℕ) : Type 0 where
  pub month : m < length days
  pub first : 1 ≤ d
  pub last : d ≤ get_or days m 0

abbrev pub total : List ℕ → ℕ
total [] = 0
total (n ∷ days) = n + total days

before-total : (days : List ℕ) (m d : ℕ) → IsDay days m d → days_before days m + d ≤ total days
before-total [] m d h = absurd (omega (arith, h.month))
before-total (n ∷ days) zero d h = omega (arith, h.last)
before-total (n ∷ days) (suc m) d h = omega (
  arith,
  before-total days m d (record { month = omega (arith, h.month); first = h.first; last = h.last }),
)

-- No day of a year is later than the 366th.
pub day_upto :
    (leap : Bool) (m d : ℕ)
    → IsDay (month_days leap) m d
    → days_before (month_days leap) m + d ≤ 366
unfolding month_days
day_upto true m d h = before-total (month_days true) m d h
day_upto false m d h = omega (arith, before-total (month_days false) m d h)

pub pos_sub : (a b : ℕ) → b ≤ a → pos a -ℤ pos b ≡ pos (a - b)
unfolding ◌-ℤ◌
pos_sub a b h = ground arith

pub walk_months-IsDay :
    (days : List ℕ) (k m d : ℕ)
    → IsDay days m d
    → walk_months k days (pos (days_before days m + d)) ≡ some (k + m, pos d)
unfolding walk_months
walk_months-IsDay [] k m d h = absurd (omega (arith, h.month))
walk_months-IsDay (n ∷ days) k zero d h =
    rw (stays n d h.last)
      (ap (λ j. some (j, pos (0 + d))) (omega arith) ∙ ap (λ e. some (k + 0, pos e)) (omega arith))
  where
    stays : (n d : ℕ) → d ≤ n → ltb_ℤ (pos n) (pos (0 + d)) ≡ false
    stays n d h = ground arith
walk_months-IsDay (n ∷ days) k (suc m) d h = rw (goes n (days_before days m) d h.first) (
    ap (walk_months (suc k) days) (left n (days_before days m) d)
    ∙ walk_months-IsDay days (suc k) m d
        (record { month = omega (arith, h.month); first = h.first; last = h.last })
    ∙ ap (λ j. some (j, pos d)) (omega arith))
  where
    goes : (n b d : ℕ) → 1 ≤ d → ltb_ℤ (pos n) (pos (n + b + d)) ≡ true
    goes n b d h = ground arith

    left : (n b d : ℕ) → pos (n + b + d) -ℤ pos n ≡ pos (b + d)
    left n b d = pos_sub (n + b + d) n (omega arith) ∙ ap pos (omega arith)

-- For a year that is no century the test, which the code gives the year less 1900, is that of the
-- Gregorian calendar.
pub is_leap-gregorian : (y : ℕ) → 1900 ≤ y → y % 100 ≢ 0 → is_leap (pos y -ℤ pos 1900) ≡ gregorian y
unfolding is_leap
is_leap-gregorian y h n = rw (pos_sub y 1900 h) (same y h n)
  where
    same :
        (y : ℕ)
        → 1900 ≤ y
        → y % 100 ≢ 0
        → ((y - 1900) % 400 == 0 || (y - 1900) % 4 == 0 && not ((y - 1900) % 100 == 0))
          ≡ gregorian y
    same y h n = ground arith

-- In every fourth century the test fails in a leap year.
pub is_leap-century :
    (y : ℕ) → 1900 ≤ y → y % 400 ≡ 0 → (gregorian y ≡ true) × (is_leap (pos y -ℤ pos 1900) ≡ false)
unfolding is_leap
is_leap-century y h e = rw (pos_sub y 1900 h) (leap y e, common y h e)
  where
    leap : (y : ℕ) → y % 400 ≡ 0 → gregorian y ≡ true
    leap y e = ground arith

    common :
        (y : ℕ)
        → 1900 ≤ y
        → y % 400 ≡ 0
        → ((y - 1900) % 400 == 0 || (y - 1900) % 4 == 0 && not ((y - 1900) % 100 == 0)) ≡ false
    common y h e = ground arith

-- A day past the last one of the year is past the end of the list.
pub walk_months-over :
    (days : List ℕ) (k left : ℕ) → total days < left → walk_months k days (pos left) ≡ none
unfolding walk_months
walk_months-over [] k left h = refl
walk_months-over (n ∷ days) k left h = rw (goes n (total days) left h) (
    ap (walk_months (suc k) days) (pos_sub left n (omega arith))
    ∙ walk_months-over days (suc k) (left - n) (omega arith))
  where
    goes : (n b left : ℕ) → n + b < left → ltb_ℤ (pos n) (pos left) ≡ true
    goes n b left h = ground arith
