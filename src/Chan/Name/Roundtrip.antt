-- ===== src/Chan/Name/Roundtrip.antt =====
-- Names that are put together from their codes come apart again.
use nmxptool.Prelude.{
  ℕ, suc, ◌+◌, ◌<◌, ◌≡◌, ◌≢◌, ◌∙◌, refl, ap, ap₂, true, false, some, [], ◌∷◌, ◌++◌, length, take,
  drop, All, arith, ◌&&◌, ◌==◌, if◌then◌else◌,
}
use nmxptool.Text.{Str, slice, dot}
use nmxptool.Text.Laws.{take_all, take-append, drop_past, drop-add}
use nmxptool.Chan.Name.{
  Periods, note, scan, Codes, no_codes, four_parts, three_parts, two_parts, parts, fresh_periods,
  cpy_sta_chan,
}
use nmxptool.Chan.{max_size_str_pattern}

-- No '.' inside.
abbrev pub IsCode : Str → Type 0
IsCode = All (λ c. c ≢ dot)

scan-append :
    (i : ℕ) (s t : Str) (p : Periods)
    → IsCode s
    → p.errors ≡ 0
    → scan i (s ++ t) p ≡ scan (i + length s) t p
unfolding scan
scan-append i [] t p h e = ap (λ k. scan k t p) (omega arith)
scan-append i (c ∷ s) t p h e = ground (arith, scan-append (suc i) s t p h.1 e)

scan-dot :
    (i : ℕ) (t : Str) (p : Periods) → p.errors ≡ 0 → scan i (dot ∷ t) p ≡ scan (suc i) t (note i p)
unfolding scan
scan-dot i t p e = ground arith

scan_last : (i : ℕ) (s : Str) (p : Periods) → IsCode s → p.errors ≡ 0 → scan i s p ≡ p
unfolding scan
scan_last i [] p h e = refl
scan_last i (c ∷ s) p h e = ground (arith, scan_last (suc i) s p h.1 e)

-- One code and the '.' behind it.
scan_part :
    (i : ℕ) (s t : Str) (p : Periods)
    → IsCode s
    → p.errors ≡ 0
    → scan i (s ++ dot ∷ t) p ≡ scan (suc (i + length s)) t (note (i + length s) p)
scan_part i s t p h e = scan-append i s (dot ∷ t) p h e ∙ scan-dot (i + length s) t p e

-- What the loop finds in a name of two, three or four codes.
scan_two :
    (s t : Str)
    → IsCode s
    → IsCode t
    → scan 0 (s ++ dot ∷ t) fresh_periods ≡ record fresh_periods { period1 = some (length s) }
unfolding note
scan_two s t hs ht =
    scan_part 0 s t fresh_periods hs refl
    ∙ scan_last _ t _ ht refl
    ∙ ap (λ k. record fresh_periods { period1 = some k }) (omega arith)

abbrev pub second_at : Str → Str → ℕ
second_at s t = length s + 1 + length t

abbrev pub third_at : Str → Str → Str → ℕ
third_at s t u = second_at s t + 1 + length u

scan_three :
    (s t u : Str)
    → IsCode s
    → IsCode t
    → IsCode u
    → scan 0 (s ++ dot ∷ (t ++ dot ∷ u)) fresh_periods
      ≡ record fresh_periods { period1 = some (length s); period2 = some (second_at s t) }
unfolding note
scan_three s t u hs ht hu =
    scan_part 0 s (t ++ dot ∷ u) fresh_periods hs refl
    ∙ scan_part _ t u _ ht refl
    ∙ scan_last _ u _ hu refl
    ∙ ap₂ (λ j k. record fresh_periods { period1 = some j; period2 = some k }) (omega arith)
        (omega arith)

scan_four :
    (s t u v : Str)
    → IsCode s
    → IsCode t
    → IsCode u
    → IsCode v
    → scan 0 (s ++ dot ∷ (t ++ dot ∷ (u ++ dot ∷ v))) fresh_periods ≡ record {
      period1 = some (length s);
      period2 = some (second_at s t);
      period3 = some (third_at s t u);
      errors = 0;
    }
unfolding note
scan_four s t u v hs ht hu hv =
    scan_part 0 s (t ++ dot ∷ (u ++ dot ∷ v)) fresh_periods hs refl
    ∙ scan_part _ t (u ++ dot ∷ v) _ ht refl
    ∙ scan_part _ u v _ hu refl
    ∙ scan_last _ v _ hv refl
    ∙ ground arith

-- A code fits its array with the terminator.
abbrev pub IsShort : Str → Type 0
IsShort s = IsCode s × (length s < max_size_str_pattern)

-- What stands behind one, two or three codes.
behind_one : (n : ℕ) (s r : Str) → n ≡ length s + 1 → drop n (s ++ dot ∷ r) ≡ r
behind_one n s r e = drop_past n dot s r e

behind_two : (n : ℕ) (s t r : Str) → n ≡ second_at s t + 1 → drop n (s ++ dot ∷ (t ++ dot ∷ r)) ≡ r
behind_two n s t r e =
    let S = s ++ dot ∷ (t ++ dot ∷ r) in
    ap (λ k. drop k S) {x = n} {y = length s + 1 + (length t + 1)} (omega arith)
    ∙ drop-add (length s + 1) (length t + 1) S
    ∙ ap (drop (length t + 1)) (behind_one (length s + 1) s (t ++ dot ∷ r) refl)
    ∙ behind_one (length t + 1) t r refl

behind_three :
    (n : ℕ) (s t u r : Str)
    → n ≡ third_at s t u + 1
    → drop n (s ++ dot ∷ (t ++ dot ∷ (u ++ dot ∷ r))) ≡ r
behind_three n s t u r e =
    let S = s ++ dot ∷ (t ++ dot ∷ (u ++ dot ∷ r)) in
    ap (λ k. drop k S) {x = n} {y = length s + 1 + (second_at t u + 1)} (omega arith)
    ∙ drop-add (length s + 1) (second_at t u + 1) S
    ∙ ap (drop (second_at t u + 1)) (behind_one (length s + 1) s _ refl)
    ∙ behind_two (second_at t u + 1) t u r refl

second_slice : (s t r : Str) → slice (length s + 1) (second_at s t) (s ++ dot ∷ (t ++ dot ∷ r)) ≡ t
second_slice s t r =
    rw (behind_one (length s + 1) s (t ++ dot ∷ r) refl) (take-append _ t (dot ∷ r) (omega arith))

third_slice :
    (s t u r : Str)
    → slice (second_at s t + 1) (third_at s t u) (s ++ dot ∷ (t ++ dot ∷ (u ++ dot ∷ r))) ≡ u
third_slice s t u r =
    rw (behind_two (second_at s t + 1) s t (u ++ dot ∷ r) refl)
      (take-append _ u (dot ∷ r) (omega arith))

fits : (s : Str) → IsShort s → take max_size_str_pattern s ≡ s
fits s h = take_all max_size_str_pattern s (omega (arith, h.1))

-- A name NET.STA.CHAN.LOC of four codes without a period, each of a length that fits, comes apart
-- into its codes.
pub cpy_four :
    (s t u v : Str)
    → IsShort s
    → IsShort t
    → IsShort u
    → IsShort v
    → cpy_sta_chan (s ++ dot ∷ (t ++ dot ∷ (u ++ dot ∷ v)))
      ≡ (true, record { network_code = s; station_code = t; channel_code = u; location_code = v })
unfolding cpy_sta_chan parts four_parts
cpy_four s t u v hs ht hu hv = rw (
  scan_four s t u v hs.0 ht.0 hu.0 hv.0,
  take-append (length s) s (dot ∷ (t ++ dot ∷ (u ++ dot ∷ v))) refl,
  second_slice s t (u ++ dot ∷ v),
  third_slice s t u v,
  behind_three (third_at s t u + 1) s t u v refl,
  fits s hs,
  fits t ht,
  fits u hu,
  fits v hv,
)

-- A name STA.CHAN comes apart into two codes; the others are empty.
pub cpy_two :
    (s t : Str)
    → IsShort s
    → IsShort t
    → cpy_sta_chan (s ++ dot ∷ t) ≡ (true, record no_codes { station_code = s; channel_code = t })
unfolding cpy_sta_chan parts two_parts
cpy_two s t hs ht = rw (
  scan_two s t hs.0 ht.0,
  take-append (length s) s (dot ∷ t) refl,
  behind_one (length s + 1) s t refl,
  fits s hs,
  fits t ht,
)

-- With three codes the lengths decide: 3 and 2 at the end are CHAN and LOC, else 2 in front and 3 at
-- the end are NET and CHAN, else the codes stay empty although the call succeeds.
abbrev pub three_codes : Str → Str → Str → Codes
three_codes s t u =
    if length t == 3 && length u == 2
    then record no_codes { station_code = s; channel_code = t; location_code = u }
    else if length s == 2 && length u == 3
    then record no_codes { network_code = s; station_code = t; channel_code = u }
    else no_codes

-- A name of three codes without a period, each of a length that fits, is taken as STA.CHAN.LOC or
-- NET.STA.CHAN by the lengths of the codes; with other lengths the call succeeds and all codes are
-- empty.
pub cpy_three :
    (s t u : Str)
    → IsShort s
    → IsShort t
    → IsShort u
    → cpy_sta_chan (s ++ dot ∷ (t ++ dot ∷ u)) ≡ (true, three_codes s t u)
unfolding cpy_sta_chan parts three_parts
cpy_three s t u hs ht hu = rw (
  scan_three s t u hs.0 ht.0 hu.0,
  take-append (length s) s (dot ∷ (t ++ dot ∷ u)) refl,
  second_slice s t u,
  behind_two (second_at s t + 1) s t u refl,
  fits s hs,
  fits t ht,
  fits u hu,
)

scan_stopped : (i : ℕ) (s : Str) (p : Periods) → p.errors ≡ 1 → scan i s p ≡ p
unfolding scan
scan_stopped i [] p e = refl
scan_stopped i (c ∷ s) p e = ground arith

scan_five :
    (s t u v w : Str)
    → IsCode s
    → IsCode t
    → IsCode u
    → IsCode v
    → (p : Periods) × (scan 0 (s ++ dot ∷ (t ++ dot ∷ (u ++ dot ∷ (v ++ dot ∷ w)))) fresh_periods
        ≡ p)
      × (p.errors ≡ 1)
unfolding note
scan_five s t u v w hs ht hu hv = (
  _,
  scan_part 0 s (t ++ dot ∷ (u ++ dot ∷ (v ++ dot ∷ w))) fresh_periods hs refl
      ∙ scan_part _ t (u ++ dot ∷ (v ++ dot ∷ w)) _ ht refl
      ∙ scan_part _ u (v ++ dot ∷ w) _ hu refl
      ∙ scan_part _ v w _ hv refl
      ∙ scan_stopped _ w _ refl,
  refl,
)

-- A name with no '.', or with a fifth code, is refused and leaves the arrays empty.
pub cpy_bad :
    (s t u v w : Str)
    → IsCode s
    → IsCode t
    → IsCode u
    → IsCode v
    → (cpy_sta_chan s ≡ (false, no_codes))
      × (cpy_sta_chan (s ++ dot ∷ (t ++ dot ∷ (u ++ dot ∷ (v ++ dot ∷ w)))) ≡ (false, no_codes))
unfolding cpy_sta_chan parts
cpy_bad s t u v w hs ht hu hv =
    let (p, e, one) = scan_five s t u v w hs ht hu hv in
    (rw (scan_last 0 s fresh_periods hs refl), rw (e, one))
