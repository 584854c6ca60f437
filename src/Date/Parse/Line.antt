-- ===== src/Date/Parse/Line.antt =====
-- nmxp_data_parse_date on a line that nmxp_data_to_str prints: its cells, and the round for the year.
use nmxptool.Prelude.{
  ℕ, ◌-◌, ◌≤◌, ◌<◌, ◌≡◌, refl, sym, ◌∙◌, ap, false, List, [], ◌∷◌, ◌++◌, append-nil, append_assoc,
  length, length-append, replicate, take, arith,
}
use nmxptool.Prelude.Int.{pos, ◌-ℤ◌}
use nmxptool.Text.{Str}
use nmxptool.Date.{Tm}
use nmxptool.Date.Print.{zero_padded, padded_int, date_line}
use nmxptool.Date.Print.Digits.{Printed, zero_padded-Printed}
use nmxptool.Date.Parse.{
  year, julian, take_part, next_part, round, rounds, start, parsed, parse_date,
}
use nmxptool.Date.Parse.Rounds.{
  mach, rounds-round, wrap_32-small, strtol-Printed, read_number-Printed, copied,
}

-- A moment that a date line can show; the day of the year is counted from 1.
pub record Moment : Type 0 where
  pub year : ℕ
  pub jday : ℕ
  pub hour : ℕ
  pub minute : ℕ
  pub second : ℕ
  pub fraction : ℕ

pub record IsMoment (t : Moment) : Type 0 where
  pub from : 1900 ≤ t.year
  pub upto : t.year < 10000
  pub jday : t.jday < 1000
  pub hour : t.hour < 100
  pub minute : t.minute < 100
  pub second : t.second < 100
  pub fraction : t.fraction < 10000

abbrev pub line_of : Moment → Str
line_of t =
    date_line (pos t.year) (pos t.jday) (pos t.hour) (pos t.minute) (pos t.second) (pos t.fraction)

-- The line with cells behind it.
abbrev pub cells : Moment → List ℕ → List ℕ
cells t rest =
    zero_padded 4 t.year
    ++ b'.'
      ∷ (zero_padded 3 t.jday
          ++ b','
            ∷ (zero_padded 2 t.hour
                ++ b':'
                  ∷ (zero_padded 2 t.minute
                      ++ b':'
                        ∷ (zero_padded 2 t.second ++ b'.' ∷ (zero_padded 4 t.fraction ++ rest)))))

abbrev pub time_cells : Moment → List ℕ → List ℕ
time_cells t rest =
    zero_padded 2 t.hour
    ++ b':'
      ∷ (zero_padded 2 t.minute
          ++ b':' ∷ (zero_padded 2 t.second ++ b'.' ∷ (zero_padded 4 t.fraction ++ rest)))

pub line_of-append : (t : Moment) (rest : List ℕ) → line_of t ++ rest ≡ cells t rest
unfolding date_line padded_int
line_of-append t rest =
    let y = zero_padded 4 t.year in
    let j = zero_padded 3 t.jday in
    let h = zero_padded 2 t.hour in
    let m = zero_padded 2 t.minute in
    let s = zero_padded 2 t.second in
    let f = zero_padded 4 t.fraction in
    append_assoc y (b'.' ∷ (j ++ b',' ∷ (h ++ b':' ∷ (m ++ b':' ∷ (s ++ b'.' ∷ f))))) rest
    ∙ ap (λ x. y ++ b'.' ∷ x)
        (append_assoc j (b',' ∷ (h ++ b':' ∷ (m ++ b':' ∷ (s ++ b'.' ∷ f)))) rest
          ∙ ap (λ x. j ++ b',' ∷ x)
              (append_assoc h (b':' ∷ (m ++ b':' ∷ (s ++ b'.' ∷ f))) rest
                ∙ ap (λ x. h ++ b':' ∷ x)
                    (append_assoc m (b':' ∷ (s ++ b'.' ∷ f)) rest
                      ∙ ap (λ x. m ++ b':' ∷ x) (append_assoc s (b'.' ∷ f) rest))))

module _ (t : Moment) (v : IsMoment t) where
  pub Printed-year : Printed 4 t.year (zero_padded 4 t.year)
  Printed-year = zero_padded-Printed 3 t.year (omega (arith, v.upto)) (omega (arith, v.upto))

  pub Printed-jday : Printed 3 t.jday (zero_padded 3 t.jday)
  Printed-jday = zero_padded-Printed 2 t.jday (omega (arith, v.jday)) (omega (arith, v.jday))

  pub Printed-hour : Printed 2 t.hour (zero_padded 2 t.hour)
  Printed-hour = zero_padded-Printed 1 t.hour (omega (arith, v.hour)) (omega (arith, v.hour))

  pub Printed-minute : Printed 2 t.minute (zero_padded 2 t.minute)
  Printed-minute =
      zero_padded-Printed 1 t.minute (omega (arith, v.minute)) (omega (arith, v.minute))

  pub Printed-second : Printed 2 t.second (zero_padded 2 t.second)
  Printed-second =
      zero_padded-Printed 1 t.second (omega (arith, v.second)) (omega (arith, v.second))

  pub Printed-fraction : Printed 4 t.fraction (zero_padded 4 t.fraction)
  Printed-fraction =
      zero_padded-Printed 3 t.fraction (omega (arith, v.fraction)) (omega (arith, v.fraction))

  pub length-line_of : length (line_of t) ≡ 22
  length-line_of =
      let s = zero_padded 2 t.second in
      let f = zero_padded 4 t.fraction in
      ap length (sym (append-nil (line_of t)) ∙ line_of-append t [])
      ∙ omega (
        arith,
        length-append (zero_padded 4 t.year)
            (b'.' ∷ (zero_padded 3 t.jday ++ b',' ∷ time_cells t [])),
        length-append (zero_padded 3 t.jday) (b',' ∷ time_cells t []),
        length-append (zero_padded 2 t.hour)
            (b':' ∷ (zero_padded 2 t.minute ++ b':' ∷ (s ++ b'.' ∷ (f ++ [])))),
        length-append (zero_padded 2 t.minute) (b':' ∷ (s ++ b'.' ∷ (f ++ []))),
        length-append s (b'.' ∷ (f ++ [])),
        length-append f [],
        Printed-year.width,
        Printed-jday.width,
        Printed-hour.width,
        Printed-minute.width,
        Printed-second.width,
        Printed-fraction.width,
      )

  -- The cells of `str_date`.
  copied-line_of : take 30 (line_of t ++ replicate 30 0) ≡ cells t (0 ∷ replicate 7 0)
  copied-line_of =
      copied 30 30 (line_of t) (omega (arith, length-line_of)) (omega arith)
      ∙ ap (λ n. line_of t ++ 0 ∷ replicate (30 - n - 1) 0) length-line_of
      ∙ line_of-append t (0 ∷ replicate 7 0)

  -- `*ret_tmt` after the year.
  abbrev pub year_tm : Tm → Tm
  year_tm now = record now {
    sec = pos 0;
    min = pos 0;
    hour = pos 0;
    d = 0;
    year = pos t.year -ℤ pos 1900;
  }

  abbrev pub behind_day : List ℕ
  behind_day = b',' ∷ time_cells t (0 ∷ replicate 7 0)

  -- Up to the day of the year.
  pub parse_date-julian :
      (junk : List ℕ) (now : Tm)
      → parse_date false junk now (line_of t)
        ≡ parsed (rounds junk 7 (mach julian (pos t.jday) behind_day (year_tm now)))
  unfolding parse_date start round take_part next_part
  parse_date-julian junk now =
      let tail = zero_padded 3 t.jday ++ behind_day in
      let tm0 = record now { sec = pos 0; min = pos 0; hour = pos 0; d = 0 } in
      rw (copied-line_of, parse_date)
        (rw
          (
            strtol-Printed 3 t.year b'.' (zero_padded 4 t.year) tail Printed-year
                (omega (arith, v.upto)) refl,
            parse_date,
          )
          (ap parsed (
            ap (λ z. rounds junk 8 (mach year z (b'.' ∷ tail) tm0))
              (wrap_32-small t.year (omega (arith, v.upto)))
            ∙ rounds-round junk 7 year (pos t.year) (b'.' ∷ tail) tm0
                (mach julian (pos t.jday) behind_day (year_tm now))
                (read_number-Printed julian (pos t.year) (b'.' ∷ tail) (year_tm now) 2 t.jday b','
                  (zero_padded 3 t.jday) (time_cells t (0 ∷ replicate 7 0)) Printed-jday
                  (omega (arith, v.jday)) refl))))
