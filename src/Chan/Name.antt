-- ===== src/Chan/Name.antt =====
-- nmxp_chan_cpy_sta_chan: a channel name NET.STA.CHAN.LOC taken apart, NET and LOC optional.
pub mod Roundtrip
use nmxptool.Prelude.{
  ℕ, zero, suc, ◌+◌, ◌-◌, Bool, true, false, ◌&&◌, Option, none, some, List, [], ◌∷◌, length, take,
  drop, ltb, ◌==◌, if◌then◌else◌,
}
use nmxptool.Text.{Str, strncpy, slice, dot}
use nmxptool.Chan.{max_size_str_pattern}

-- The pointers `period1` to `period3` as offsets, and `errors`.
pub record Periods : Type 0 where
  pub period1 : Option ℕ
  pub period2 : Option ℕ
  pub period3 : Option ℕ
  pub errors : ℕ

-- A '.' at offset i.
unfoldable pub note : ℕ → Periods → Periods
note i p = elim p.period1 [
  | none ↦ record p { period1 = some i }
  | some _ ↦ elim p.period2 [
    | none ↦ record p { period2 = some i }
    | some _ ↦ elim p.period3 [
      | none ↦ record p { period3 = some i }
      | some _ ↦ record p { errors = p.errors + 1 }
    ]
  ]
]

-- "count '.'": the loop over the name, which stops at the first error.
unfoldable pub scan : ℕ → Str → Periods → Periods
scan i [] p = p
scan i (c ∷ s) p =
    let rest = scan (suc i) s (if c == dot then note i p else p) in
    if p.errors == 0 then rest else p

-- The four output arrays, of NMXP_CHAN_MAX_SIZE_STR_PATTERN bytes each.
pub record Codes : Type 0 where
  pub station_code : Str
  pub channel_code : Str
  pub network_code : Str
  pub location_code : Str

abbrev pub no_codes : Codes
no_codes = record { station_code = []; channel_code = []; network_code = []; location_code = [] }

abbrev pub fresh_periods : Periods
fresh_periods = record { period1 = none; period2 = none; period3 = none; errors = 0 }

-- NET.STA.CHAN.LOC, with periods at a, b and c.
unfoldable pub four_parts : Str → ℕ → ℕ → ℕ → Codes
four_parts s a b c = record {
  network_code = strncpy max_size_str_pattern (take a s);
  station_code = strncpy max_size_str_pattern (slice (a + 1) b s);
  channel_code = strncpy max_size_str_pattern (slice (b + 1) c s);
  location_code = strncpy max_size_str_pattern (drop (c + 1) s);
}

-- STA.CHAN.LOC or NET.STA.CHAN, told apart by the lengths; else the arrays stay empty.
unfoldable pub three_parts : Str → ℕ → ℕ → Codes
three_parts s a b =
    let first = take a s in
    let second = slice (a + 1) b s in
    let third = drop (b + 1) s in
    if length second == 3 && length third == 2
    then record no_codes {
      station_code = strncpy max_size_str_pattern first;
      channel_code = strncpy max_size_str_pattern second;
      location_code = strncpy max_size_str_pattern third;
    }
    else if length first == 2 && length third == 3
    then record no_codes {
      network_code = strncpy max_size_str_pattern first;
      station_code = strncpy max_size_str_pattern second;
      channel_code = strncpy max_size_str_pattern third;
    }
    else no_codes

-- STA.CHAN.
unfoldable pub two_parts : Str → ℕ → Codes
two_parts s a = record no_codes {
  station_code = strncpy max_size_str_pattern (take a s);
  channel_code = strncpy max_size_str_pattern (drop (a + 1) s);
}

-- The branches on the periods that were found.
unfoldable pub parts : Str → Option ℕ → Option ℕ → Option ℕ → Bool × Codes
parts s none q r = (false, no_codes)
parts s (some a) none none = (true, two_parts s a)
parts s (some a) none (some c) = (true, two_parts s a)
parts s (some a) (some b) none = (true, three_parts s a b)
parts s (some a) (some b) (some c) = (true, four_parts s a b c)

-- `nmxp_chan_cpy_sta_chan` with no NULL argument: the result is `ret`, then the arrays.
unfoldable pub cpy_sta_chan : Str → Bool × Codes
cpy_sta_chan s =
    let p = scan 0 s fresh_periods in
    if p.errors == 0 then parts s p.period1 p.period2 p.period3 else (false, no_codes)
