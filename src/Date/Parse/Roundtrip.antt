-- ===== src/Date/Parse/Roundtrip.antt =====
-- A date that nmxp_data_to_str prints, read back by nmxp_data_parse_date.
use nmxptool.Prelude.{
  ℕ, ◌+◌, ◌%◌, ◌<◌, ◌≡◌, ◌≢◌, refl, ◌∙◌, ap, true, false, none, some, List, ◌∷◌, ◌++◌, replicate,
  drop, arith,
}
use nmxptool.Prelude.Int.{ℤ, pos, ◌-ℤ◌}
use nmxptool.Chan.{word32}
use nmxptool.Date.{Tm, is_leap, month_days, walk_months}
use nmxptool.Date.Months.{
  gregorian, days_before, IsDay, walk_months-IsDay, walk_months-over, is_leap-gregorian,
  is_leap-century,
}
use nmxptool.Date.Print.{zero_padded}
use nmxptool.Date.Parse.{
  julian, hour, minute, second, fraction, Machine, ends_or, only, take_julian, take_part, next_part,
  round, goes_on, rounds, parsed, parse_date,
}
use nmxptool.Date.Parse.Rounds.{mach, rounds-round, read_number-Printed, read_fraction-Printed}
use nmxptool.Date.Parse.Line.{
  Moment, IsMoment, line_of, year_tm, behind_day, parse_date-julian, Printed-hour, Printed-minute,
  Printed-second, Printed-fraction,
}

module _ (t : Moment) (v : IsMoment t) (junk : List ℕ) where
  abbrev finished_at : List ℕ → Tm → Machine
  finished_at cursor tm = record {
    state = fraction;
    app = pos t.fraction;
    cursor = cursor;
    wrong = false;
    finished = true;
    bad_errno = false;
    tm = tm;
  }

  word32-small : (n : ℕ) → n < 10000 → word32 (pos n) ≡ n
  word32-small n h = ground arith

  -- The rounds from the day of the year on.
  rounds-julian :
      (tm : Tm) (mon : ℕ) (mday : ℤ)
      → walk_months 0 (month_days (is_leap tm.year)) (pos t.jday) ≡ some (mon, mday)
      → rounds junk 7 (mach julian (pos t.jday) (behind_day t v) tm)
        ≡ some (
            finished_at (0 ∷ drop 6 junk) (record tm {
              sec = pos t.second;
              min = pos t.minute;
              hour = pos t.hour;
              mday = mday;
              mon = pos mon;
              yday = pos t.jday -ℤ pos 1;
              d = t.fraction;
            }))
  unfolding round take_part take_julian only ends_or next_part rounds goes_on
  rounds-julian tm mon mday e =
      let zeros = 0 ∷ replicate 7 0 in
      let f = zero_padded 4 t.fraction ++ zeros in
      let s = zero_padded 2 t.second ++ b'.' ∷ f in
      let m = zero_padded 2 t.minute ++ b':' ∷ s in
      let tm1 = record tm { yday = pos t.jday -ℤ pos 1; mon = pos mon; mday = mday } in
      let tm2 = record tm1 { hour = pos t.hour } in
      let tm3 = record tm2 { min = pos t.minute } in
      let tm4 = record tm3 { sec = pos t.second } in
      rounds-round junk 6 julian (pos t.jday) (behind_day t v) tm
        (mach hour (pos t.hour) (b':' ∷ m) tm1)
        (rw (e, round, take_part, take_julian)
          (read_number-Printed hour (pos t.jday) (behind_day t v) tm1 1 t.hour b':'
            (zero_padded 2 t.hour) m (Printed-hour t v) (omega (arith, v.hour)) refl))
      ∙ rounds-round junk 5 hour (pos t.hour) (b':' ∷ m) tm1
          (mach minute (pos t.minute) (b':' ∷ s) tm2)
          (read_number-Printed minute (pos t.hour) (b':' ∷ m) tm2 1 t.minute b':'
            (zero_padded 2 t.minute) s (Printed-minute t v) (omega (arith, v.minute)) refl)
      ∙ rounds-round junk 4 minute (pos t.minute) (b':' ∷ s) tm2
          (mach second (pos t.second) (b'.' ∷ f) tm3)
          (read_number-Printed second (pos t.minute) (b':' ∷ s) tm3 1 t.second b'.'
            (zero_padded 2 t.second) f (Printed-second t v) (omega (arith, v.second)) refl)
      ∙ rounds-round junk 3 second (pos t.second) (b'.' ∷ f) tm3
          (mach fraction (pos t.fraction) (0 ∷ drop 6 junk) tm4)
          (read_fraction-Printed junk (pos t.second) (b'.' ∷ f) tm4 t.fraction
            (zero_padded 4 t.fraction) (replicate 7 0) (Printed-fraction t v))
      ∙ rounds-round junk 2 fraction (pos t.fraction) (0 ∷ drop 6 junk) tm4
          (finished_at (0 ∷ drop 6 junk) (record tm4 { d = t.fraction }))
          (ap (λ n. some (finished_at (0 ∷ drop 6 junk) (record tm4 { d = n })))
            (word32-small t.fraction v.fraction))

-- What is read back.
abbrev pub tm_of : Moment → ℕ → ℕ → Tm → Tm
tm_of t m d now = record now {
  sec = pos t.second;
  min = pos t.minute;
  hour = pos t.hour;
  mday = pos d;
  mon = pos m;
  year = pos t.year -ℤ pos 1900;
  yday = pos t.jday -ℤ pos 1;
  d = t.fraction;
}

-- A line that nmxp_data_to_str prints for a year from 1900 to 9999 that is no century, with a day of the
-- Gregorian calendar as the day of the year, is read back: the call returns 0 and sets year, month, day, day
-- of the year and time, whatever the buffer for the fraction held, when `errno` is neither EINVAL nor ERANGE.
pub parse_date-date_line :
    (t : Moment) (m d : ℕ) (junk : List ℕ) (now : Tm)
    → IsMoment t
    → t.year % 100 ≢ 0
    → IsDay (month_days (gregorian t.year)) m d
    → t.jday ≡ days_before (month_days (gregorian t.year)) m + d
    → parse_date false junk now (line_of t)
      ≡ some (record { result = pos 0; tm = tm_of t m d now; errno = false })
parse_date-date_line t m d junk now v n h e =
    let days = month_days (gregorian t.year) in
    let walk =
      ap (λ b. walk_months 0 (month_days b) (pos t.jday)) (is_leap-gregorian t.year v.from n)
      ∙ ap (λ j. walk_months 0 days (pos j)) e
      ∙ walk_months-IsDay days 0 m d h
      ∙ ap (λ k. some (k, pos d)) (none_added m) in
    parse_date-julian t v junk now
    ∙ ap parsed (rounds-julian t v junk (year_tm t v now) m (pos d) walk)
  where
    none_added : (m : ℕ) → 0 + m ≡ m
    none_added m = omega arith

-- In a year that 400 divides, the last day of the year, which is its 366th, is taken for one past the end of
-- a common year: the loop over the months reads past the end of its array.
pub parse_date-century :
    (t : Moment) (junk : List ℕ) (now : Tm)
    → IsMoment t
    → t.year % 400 ≡ 0
    → t.jday ≡ 366
    → (gregorian t.year ≡ true) × (parse_date false junk now (line_of t) ≡ none)
unfolding rounds round take_part take_julian goes_on month_days
parse_date-century t junk now v e f =
    let century = is_leap-century t.year v.from e in
    (
      century.0,
      parse_date-julian t v junk now
          ∙ rw (century.1, take_julian)
              (rw (f, take_julian)
                (rw (walk_months-over (month_days false) 0 366 (omega arith), take_julian) refl)),
    )
