-- ===== src/Date/Parse.antt =====
-- nmxp_data_parse_date: the machine that reads a date. Its array `str_date` of 30 bytes and `str_tt` of 20
-- are the cells from `pEnd` on; `none` is an access past the end of an array.
pub mod Rounds
pub mod Ends
pub mod Line
pub mod Roundtrip
use nmxptool.Prelude.{
  ℕ, zero, suc, ◌+◌, ◌-◌, ◌==◌, Bool, true, false, not, ◌&&◌, ◌||◌, Option, none, some, List, [],
  ◌∷◌, ◌++◌, length, take, drop, replicate, ltb, if◌then◌else◌,
}
use nmxptool.Prelude.Int.{ℤ, pos, negsuc, ◌-ℤ◌}
use nmxptool.Text.{Str}
use nmxptool.Word.{wrap_32}
use nmxptool.Chan.{word32}
use nmxptool.Date.{Tm, is_leap, month_days, walk_months}
use nmxptool.Date.Strtol.{Strtol, strtol}

-- The values of `state`.
pub data State : Type 0 where
  year month day julian hour minute second fraction : State

-- `state`, `app`, the cells from `pEnd` on, `ret == -1`, `flag_finished`, whether `errno` is EINVAL or
-- ERANGE, and `*ret_tmt`.
pub record Machine : Type 0 where
  pub state : State
  pub app : ℤ
  pub cursor : List ℕ
  pub wrong : Bool
  pub finished : Bool
  pub bad_errno : Bool
  pub tm : Tm

abbrev pub fails : Machine → Machine
fails p = record p { wrong = true }

abbrev pub finishes : Machine → Machine
finishes p = record p { finished = true }

abbrev pub goes : State → Machine → Machine
goes st p = record p { state = st }

-- The end of the date, a separator before a next part, or an error.
unfoldable pub ends_or : ℕ → ℕ → State → Machine → Machine
ends_or c separator st p =
    if c == 0 then finishes p else if c == separator then goes st p else fails p

-- A separator, or an error.
unfoldable pub only : ℕ → ℕ → State → Machine → Machine
only c separator st p = if c == separator then goes st p else fails p

-- The case of a day of the year.
unfoldable pub take_julian : ℕ → Machine → Option Machine
take_julian c p = elim (walk_months 0 (month_days (is_leap p.tm.year)) p.app) [
  | none ↦ none
  | some r ↦ some (
      ends_or c b',' hour
        (record p { tm = record p.tm { yday = p.app -ℤ pos 1; mon = pos r.0; mday = r.1 } }))
]

-- The switch on the state; c is `pEnd[0]`.
unfoldable pub take_part : State → ℕ → Machine → Option Machine
take_part year c p =
    let q = record p { tm = record p.tm { year = p.app -ℤ pos 1900 } } in
    some (if c == b'/' then goes month q else if c == b'.' then goes julian q else fails q)
take_part month c p =
    some (only c b'/' day (record p { tm = record p.tm { mon = p.app -ℤ pos 1 } }))
take_part day c p = some (ends_or c b',' hour (record p { tm = record p.tm { mday = p.app } }))
take_part julian c p = take_julian c p
take_part hour c p = some (only c b':' minute (record p { tm = record p.tm { hour = p.app } }))
take_part minute c p = some (ends_or c b':' second (record p { tm = record p.tm { min = p.app } }))
take_part second c p =
    some (ends_or c b'.' fraction (record p { tm = record p.tm { sec = p.app } }))
take_part fraction c p =
    let q = record p { tm = record p.tm { d = word32 p.app } } in
    some (if c == 0 then finishes q else fails q)

-- strlen() from a cell on.
unfoldable pub strlen : List ℕ → Option ℕ
strlen [] = none
strlen (c ∷ cs) =
    let rest = strlen cs in
    if c == 0 then some 0 else elim rest [ none ↦ none | some n ↦ some (suc n) ]

-- Cells 0 to 4, of which the zeros become '0', and the terminator in cell 5.
unfoldable pub fill_zeros : ℕ → List ℕ → List ℕ
fill_zeros n [] = []
fill_zeros zero (c ∷ cs) = 0 ∷ cs
fill_zeros (suc n) (c ∷ cs) = (if c == 0 then b'0' else c) ∷ fill_zeros n cs

-- `str_tt`, of which `junk` is what the array of 20 bytes held: '1' and the n bytes of the fraction with
-- a terminator, in five cells.
unfoldable pub ten_thousandths : List ℕ → List ℕ → ℕ → List ℕ
ten_thousandths junk cs n = fill_zeros 5 (b'1' ∷ (take n cs ++ 0 ∷ drop (suc (suc n)) junk))

-- The next number, into `app`.
unfoldable pub store_number : ℤ → Machine → Strtol → Machine
store_number less p r = record p {
  app = wrap_32 r.value -ℤ less;
  cursor = r.rest;
  wrong = p.bad_errno || r.erange;
  bad_errno = p.bad_errno || r.erange;
}

unfoldable pub read_number : ℤ → Machine → List ℕ → Option Machine
read_number less p xs = elim (strtol xs) [ none ↦ none | some r ↦ some (store_number less p r) ]

-- The fraction, which has one to four bytes.
unfoldable pub read_fraction : List ℕ → Machine → List ℕ → Option Machine
read_fraction junk p cs = elim (strlen cs) [
  | none ↦ none
  | some n ↦
      if n == 0 || ltb 4 n
      then some (fails p)
      else read_number (pos 10000) p (ten_thousandths junk cs n)
]

-- Behind the switch: over the separator to the next number.
unfoldable pub next_part : List ℕ → ℕ → List ℕ → Machine → Option Machine
next_part junk c cs p = if c == 0 || (p.finished || p.wrong) then some p else elim p.state [
  | fraction ↦ read_fraction junk p cs
  | other ↦ read_number (pos 0) p (b' ' ∷ cs)
]

-- One round of the loop.
unfoldable pub round : List ℕ → Machine → Option Machine
round junk p = elim p.cursor [
  | [] ↦ none
  | c ∷ cs ↦ elim (take_part p.state c p) [ none ↦ none | some q ↦ next_part junk c cs q ]
]

-- The condition of the loop.
unfoldable pub goes_on : Machine → Bool
goes_on p = not p.finished && (not p.wrong && not p.bad_errno)

-- The loop; the argument bounds its rounds.
unfoldable pub rounds : List ℕ → ℕ → Machine → Option Machine
rounds junk zero p = some p
rounds junk (suc n) p =
    if goes_on p then elim (round junk p) [ none ↦ none | some q ↦ rounds junk n q ] else some p

-- The year, before the loop; `now` is the present day, with 0 for the time of day.
unfoldable pub start : Bool → Tm → Strtol → Machine
start errno now r = record {
  state = year;
  app = wrap_32 r.value;
  cursor = r.rest;
  wrong = errno || r.erange || elim r.rest [ [] ↦ true | c ∷ cs ↦ c == 0 ];
  finished = false;
  bad_errno = errno || r.erange;
  tm = record now { sec = pos 0; min = pos 0; hour = pos 0; d = 0 };
}

-- The value, `*ret_tmt`, and whether `errno` is EINVAL or ERANGE.
pub record Parsed : Type 0 where
  pub result : ℤ
  pub tm : Tm
  pub errno : Bool

-- What is behind the loop.
abbrev pub parsed : Option Machine → Option Parsed
parsed none = none
parsed (some p) = some (record {
  result = if p.wrong || not p.finished then negsuc 0 else pos 0;
  tm = p.tm;
  errno = p.bad_errno;
})

-- `nmxp_data_parse_date`. `errno` says whether it is EINVAL or ERANGE before the call, which does not reset
-- it; `junk` is what `str_tt` holds. No date has more than eight parts.
unfoldable pub parse_date : Bool → List ℕ → Tm → Str → Option Parsed
parse_date errno junk now s = elim (strtol (take 30 (s ++ replicate 30 0))) [
  | none ↦ none
  | some r ↦ parsed (rounds junk 8 (start errno now r))
]
