-- ===== src/Chan/Match/Total.antt =====
-- nmxp_chan_match reads no array past its end, and what it may return.
use nmxptool.Prelude.{
  ℕ, ◌+◌, ◌-◌, ◌≤◌, ◌<◌, inl, inr, Bool, Option, none, some, length, length-take, length-drop, take,
  drop, arith, Bool-cases, Option-cases, ◌&&◌, ◌==◌,
}
use nmxptool.Prelude.Int.{ℤ, pos, negsuc}
use nmxptool.Text.{Str, strchr, dot, slice}
use nmxptool.Text.Laws.{c_str_short}
use nmxptool.Chan.{max_size_str_pattern}
use nmxptool.Chan.Name.{
  Codes, four_parts, three_parts, two_parts, parts, scan, fresh_periods, cpy_sta_chan,
}
use nmxptool.Chan.Match.{match_name, match_codes, checked, match_pattern, chan_match}

-- Every array holds its terminator.
pub record AreShort (c : Codes) : Type 0 where
  pub sta : length c.station_code < max_size_str_pattern
  pub cha : length c.channel_code < max_size_str_pattern
  pub net : length c.network_code < max_size_str_pattern
  pub loc : length c.location_code < max_size_str_pattern

take-le : (n : ℕ) (s : Str) → length (take n s) ≤ length s
take-le n s = omega (arith, length-take {0} n s)

drop-le : (n : ℕ) (s : Str) → length (drop n s) ≤ length s
drop-le n s = omega (arith, length-drop {0} n s)

copied :
    (s t : Str)
    → length t ≤ length s
    → length s < max_size_str_pattern
    → length (take max_size_str_pattern t) < max_size_str_pattern
copied s t h k = omega (arith, take-le max_size_str_pattern t)

slice-le : (a b : ℕ) (s : Str) → length (slice a b s) ≤ length s
slice-le a b s = omega (arith, take-le (b - a) (drop a s), drop-le a s)

four_short : (s : Str) (a b c : ℕ) → length s < max_size_str_pattern → AreShort (four_parts s a b c)
unfolding four_parts
four_short s a b c h = record {
  sta = copied s _ (slice-le (a + 1) b s) h;
  cha = copied s _ (slice-le (b + 1) c s) h;
  net = copied s _ (take-le a s) h;
  loc = copied s _ (drop-le (c + 1) s) h;
}

three_short : (s : Str) (a b : ℕ) → length s < max_size_str_pattern → AreShort (three_parts s a b)
unfolding three_parts
three_short s a b h =
    let t1 = copied s _ (take-le a s) h in
    let t2 = copied s _ (slice-le (a + 1) b s) h in
    let t3 = copied s _ (drop-le (b + 1) s) h in
    elim (Bool-cases (length (slice (a + 1) b s) == 3 && length (drop (b + 1) s) == 2)) [
      | inl e ↦ rw e (record { sta = t1; cha = t2; net = omega arith; loc = t3 })
      | inr e ↦ rw e (elim (Bool-cases (length (take a s) == 2 && length (drop (b + 1) s) == 3)) [
        | inl f ↦ rw f (record { sta = t2; cha = t3; net = t1; loc = omega arith })
        | inr f ↦ rw f (omega arith)
      ])
    ]

two_short : (s : Str) (a : ℕ) → length s < max_size_str_pattern → AreShort (two_parts s a)
unfolding two_parts
two_short s a h = record {
  sta = copied s _ (take-le a s) h;
  cha = copied s _ (drop-le (a + 1) s) h;
  net = omega arith;
  loc = omega arith;
}

parts-AreShort :
    (s : Str) (p q r : Option ℕ) → length s < max_size_str_pattern → AreShort (parts s p q r).1
unfolding parts
parts-AreShort s none q r h = omega arith
parts-AreShort s (some a) none none h = two_short s a h
parts-AreShort s (some a) none (some c) h = two_short s a h
parts-AreShort s (some a) (some b) none h = three_short s a b h
parts-AreShort s (some a) (some b) (some c) h = four_short s a b c h

pub cpy-AreShort : (s : Str) → length s < max_size_str_pattern → AreShort (cpy_sta_chan s).1
unfolding cpy_sta_chan
cpy-AreShort s h = elim (Bool-cases ((scan 0 s fresh_periods).errors == 0)) [
  | inl e ↦ rw e (parts-AreShort s _ _ _ h)
  | inr e ↦ rw e (omega arith)
]

-- The documented results.
abbrev pub IsResult : Option ℤ → Type 0
IsResult none = ⊥
IsResult (some (pos n)) = n ≤ 1
IsResult (some (negsuc n)) = n ≤ 1

checked-IsResult :
    (b : Str) (p : Str → Bool) (k : Str → Option ℤ)
    → length b < max_size_str_pattern
    → ((s : Str) → IsResult (k s))
    → IsResult (checked b p k)
unfolding checked
checked-IsResult b p k h r =
    rw (c_str_short _ b h)
      (elim (Bool-cases (p b)) [ inl e ↦ rw e (r b) | inr e ↦ rw e (omega arith) ])

match_codes-IsResult : (s c p q : Str) → IsResult (some (match_codes s c p q))
unfolding match_codes
match_codes-IsResult s c p q = ground arith

match_name-IsResult : (sdc p q : Str) → IsResult (some (match_name sdc p q))
unfolding match_name
match_name-IsResult sdc p q = elim (Option-cases (strchr sdc dot)) [
  | inl e ↦ rw (e, match_name) (omega arith)
  | inr (k, e) ↦
      rw (e, match_name)
        (elim (Bool-cases (length (drop (k + 1) sdc) == 3)) [
          | inl f ↦ rw f (match_codes-IsResult _ _ p q)
          | inr f ↦ rw f (omega arith)
        ])
]

-- With a name and a pattern of less than 20 characters no array is read past its end, and the result
-- is 1, 0, -1 or -2.
pub chan_match-IsResult :
    (name pattern : Str)
    → length name < max_size_str_pattern
    → length pattern < max_size_str_pattern
    → IsResult (chan_match name pattern)
unfolding chan_match match_pattern
chan_match-IsResult name pattern h k =
    let short = cpy-AreShort pattern k in
    let codes = (cpy_sta_chan pattern).1 in
    elim (Bool-cases (cpy_sta_chan pattern).0) [
      | inl e ↦ rw e (
          checked-IsResult _ _ _ short.loc (λ loc. checked-IsResult _ _ _ short.net (λ net.
            checked-IsResult _ _ _ short.sta (λ sta. checked-IsResult _ _ _ short.cha (λ cha.
              rw
                (c_str_short max_size_str_pattern (take max_size_str_pattern name)
                  (omega (arith, take-le max_size_str_pattern name)))
                (match_name-IsResult _ sta cha))))))
      | inr e ↦ rw e (omega arith)
    ]
