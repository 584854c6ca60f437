-- ===== src/Date/Tests.antt =====
-- The 2nd of September 2010, and the last day of the year 2000.
use nmxptool.Prelude.{
  ◌+◌, ◌%◌, ◌≡◌, ◌≢◌, refl, true, false, none, some, [], ◌∷◌, replicate, take, arith,
}
use nmxptool.Prelude.Int.{pos}
use nmxptool.Text.{Str}
use nmxptool.Date.{Tm, month_days}
use nmxptool.Date.Months.{gregorian, days_before, IsDay}
use nmxptool.Date.Print.{decimal, zero_padded, padded_int, date_line}
use nmxptool.Date.Parse.{
  Machine, second, parse_date, rounds, goes_on, round, take_part, ends_or, next_part,
}
use nmxptool.Date.Parse.Line.{Moment, IsMoment, line_of}
use nmxptool.Date.Parse.Roundtrip.{tm_of, parse_date-date_line, parse_date-century}
use nmxptool.Date.Parse.Ends.{rounds-ends}

abbrev today : Tm
today = record {
  sec = pos 0;
  min = pos 0;
  hour = pos 0;
  mday = pos 1;
  mon = pos 0;
  year = pos 110;
  wday = pos 5;
  yday = pos 0;
  isdst = pos 0;
  d = 0;
}

abbrev september : Moment
september = record { year = 2010; jday = 245; hour = 12; minute = 34; second = 56; fraction = 123 }

september-IsMoment : IsMoment september
september-IsMoment = record {
  from = omega arith;
  upto = omega arith;
  jday = omega arith;
  hour = omega arith;
  minute = omega arith;
  second = omega arith;
  fraction = omega arith;
}

no_century : 2010 % 100 ≢ 0
no_century e = omega arith

september-IsDay : IsDay (month_days (gregorian 2010)) 8 2
unfolding month_days
september-IsDay = record { month = omega arith; first = omega arith; last = omega arith }

september-jday : 245 ≡ days_before (month_days (gregorian 2010)) 8 + 2
unfolding month_days
september-jday = refl

abbrev date_text : Str
date_text = b'2' ∷ b'0' ∷ b'1' ∷ b'0' ∷ b'.' ∷ b'2' ∷ b'4' ∷ b'5' ∷ []

september_line : take 8 (line_of september) ≡ date_text
unfolding date_line padded_int zero_padded decimal
september_line = refl

parse_date-date_line_example :
    parse_date false (replicate 20 7) today (line_of september)
    ≡ some (record { result = pos 0; tm = tm_of september 8 2 today; errno = false })
parse_date-date_line_example =
    parse_date-date_line september 8 2 (replicate 20 7) today september-IsMoment no_century
      september-IsDay september-jday

abbrev new_years_eve : Moment
new_years_eve = record { year = 2000; jday = 366; hour = 0; minute = 0; second = 0; fraction = 0 }

new_years_eve-IsMoment : IsMoment new_years_eve
new_years_eve-IsMoment = record {
  from = omega arith;
  upto = omega arith;
  jday = omega arith;
  hour = omega arith;
  minute = omega arith;
  second = omega arith;
  fraction = omega arith;
}

parse_date-century_example :
    (gregorian 2000 ≡ true)
    × (parse_date false (replicate 20 7) today (line_of new_years_eve) ≡ none)
parse_date-century_example =
    parse_date-century new_years_eve (replicate 20 7) today new_years_eve-IsMoment refl refl

-- The last part of a time.
abbrev seconds : Machine
seconds = record {
  state = second;
  app = pos 56;
  cursor = 0 ∷ [];
  wrong = false;
  finished = false;
  bad_errno = false;
  tm = today;
}

abbrev seconds_read : Machine
seconds_read = record seconds { finished = true; tm = record today { sec = pos 56 } }

seconds-rounds : rounds [] 8 seconds ≡ some seconds_read
unfolding rounds goes_on round take_part ends_or next_part
seconds-rounds = refl

rounds-ends_example : goes_on seconds_read ≡ false
rounds-ends_example = rounds-ends [] 8 seconds seconds_read (omega arith) seconds-rounds
