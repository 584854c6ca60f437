-- ===== src/Chan/Match/Spec.antt =====
-- nmxp_chan_match against what a pattern means.
use nmxptool.Prelude.{
  ℕ, zero, suc, ◌+◌, ◌<◌, ◌≡◌, ◌≢◌, ◌↔◌, ◌⊎◌, inl, inr, refl, ap, ap₂, &&-true, ◌∙◌, Bool, true,
  false, Option, some, [], ◌∷◌, ◌++◌, map, length, arith, Bool-cases, ==_iff, ◌||◌, if◌then◌else◌,
}
use nmxptool.Prelude.Int.{ℤ, pos, eqb_ℤ}
use nmxptool.Text.{Str, strchr, same_case, tolower, every, dot}
use nmxptool.Text.Laws.{c_str_short, take_all, take-append, drop_past}
use nmxptool.Chan.{max_size_str_pattern}
use nmxptool.Chan.Name.Roundtrip.{IsCode, IsShort, cpy_two}
use nmxptool.Chan.Match.{
  is_loc_char, is_alnum, is_star, is_sta_pattern, is_cha_pattern, match_cha, match_name,
  match_codes, checked, match_pattern, chan_match,
}

-- The station is the pattern's but for case, or the pattern's is `*`.
abbrev pub StaMatches : Str → Str → Type 0
StaMatches sta p = (map tolower sta ≡ map tolower p) ⊎ (p ≡ b'*' ∷ [])

-- Each character is the pattern's, or the pattern's is `?`.
abbrev pub ChaMatches : Str → Str → Type 0
ChaMatches [] [] = Unit {0}
ChaMatches [] (d ∷ s) = ⊥
ChaMatches (c ∷ p) [] = ⊥
ChaMatches (c ∷ p) (d ∷ s) = ((c ≡ b'?') ⊎ (c ≡ d)) × ChaMatches p s

same_case_iff : (s t : Str) → (same_case s t ≡ true) ↔ (map tolower s ≡ map tolower t)
unfolding same_case
same_case_iff [] [] = (λ h. refl, λ h. refl)
same_case_iff [] (y ∷ t) = (λ h. cc, λ h. cc)
same_case_iff (x ∷ s) [] = (λ h. cc, λ h. cc)
same_case_iff (x ∷ s) (y ∷ t) =
    let ih = same_case_iff s t in
    (
      (λ h. let (e, f) = &&-true _ _ h in ap₂ ◌∷◌ ((==_iff _ _).0 e) (ih.0 f)),
      (λ h. ground (arith, ih.1)),
    )

is_star_iff : (s : Str) → (is_star s ≡ true) ↔ (s ≡ b'*' ∷ [])
unfolding is_star
is_star_iff [] = (λ h. cc, λ h. cc)
is_star_iff (c ∷ []) = (λ h. ground arith, λ h. ground arith)
is_star_iff (c ∷ d ∷ s) = (λ h. cc, λ h. cc)

match_cha_iff :
    (n : ℕ) (p s : Str) → length p ≡ n → length s ≡ n → (match_cha n p s ≡ true) ↔ ChaMatches p s
unfolding match_cha
match_cha_iff zero [] [] h k = (λ m. tt, λ m. refl)
match_cha_iff zero [] (d ∷ s) h k = absurd (omega arith)
match_cha_iff zero (c ∷ p) s h k = absurd (omega arith)
match_cha_iff (suc n) [] s h k = absurd (omega arith)
match_cha_iff (suc n) (c ∷ p) [] h k = absurd (omega arith)
match_cha_iff (suc n) (c ∷ p) (d ∷ s) h k =
    let ih = match_cha_iff n p s (omega arith) (omega arith) in
    ((λ m. ground (arith, ih.0)), (λ m. ground (arith, ih.1)))

-- The first '.' of a name STA.CHAN.
strchr-code : (s t : Str) → IsCode s → strchr (s ++ dot ∷ t) dot ≡ some (length s)
unfolding strchr
strchr-code [] t h = refl
strchr-code (c ∷ s) t h = ground (arith, strchr-code s t h.1)

match_name-code :
    (s t p q : Str) → IsCode s → length t ≡ 3 → match_name (s ++ dot ∷ t) p q ≡ match_codes s t p q
unfolding match_name
match_name-code s t p q h e =
    rw (strchr-code s t h, match_name)
      (rw (drop_past (length s + 1) dot s t refl, take-append (length s) s (dot ∷ t) refl, e))

result_one :
    (u v m : Bool)
    → (if u || v then (if m then pos 1 else pos 0) else pos 0) ≡ pos 1
    → ((u ≡ true) ⊎ (v ≡ true)) × (m ≡ true)
result_one u v m h = ground arith

result_zero :
    (u v m : Bool)
    → (if u || v then (if m then pos 1 else pos 0) else pos 0) ≢ pos 1
    → (if u || v then (if m then pos 1 else pos 0) else pos 0) ≡ pos 0
result_zero u v m h = ground arith

match_codes_iff :
    (s t p q : Str)
    → length t ≡ 3
    → length q ≡ 3
    → (match_codes s t p q ≡ pos 1) ↔ (StaMatches s p × ChaMatches q t)
unfolding match_codes
match_codes_iff s t p q h k =
    let a = same_case_iff s p in
    let b = is_star_iff p in
    let c = match_cha_iff 3 q t k h in
    (
      (λ e.
          let (uv, m) = result_one _ _ _ e in
          (elim uv [ inl x ↦ inl (a.0 x) | inr x ↦ inr (b.0 x) ], c.0 m)),
      (λ e. elim (e.0) [ inl x ↦ rw (a.1 x, c.1 e.1) | inr x ↦ ground (arith, b.1 x, c.1 (e.1)) ]),
    )

match_codes_else : (s t p q : Str) → match_codes s t p q ≢ pos 1 → match_codes s t p q ≡ pos 0
unfolding match_codes
match_codes_else s t p q h = result_zero (same_case s p) (is_star p) (match_cha 3 q t) h

checked-pass :
    (b : Str) (p : Str → Bool) (k : Str → Option ℤ)
    → length b < max_size_str_pattern
    → p b ≡ true
    → checked b p k ≡ k b
unfolding checked
checked-pass b p k h e = rw (c_str_short _ b h) (rw e)

every-nil : (f : ℕ → Bool) → every f [] ≡ true
unfolding every
every-nil f = refl

length-cha : (q : Str) → is_cha_pattern q ≡ true → length q ≡ 3
unfolding is_cha_pattern
length-cha q h = (==_iff _ _).0 (&&-true _ _ h).0

-- The result is that of the last test.
chan_match-codes :
    (sta cha p q : Str)
    → IsCode sta
    → length cha ≡ 3
    → length (sta ++ dot ∷ cha) < max_size_str_pattern
    → IsShort p
    → IsShort q
    → is_sta_pattern p ≡ true
    → is_cha_pattern q ≡ true
    → chan_match (sta ++ dot ∷ cha) (p ++ dot ∷ q) ≡ some (match_codes sta cha p q)
unfolding chan_match match_pattern
chan_match-codes sta cha p q hs hc short hp hq vp vq = rw (cpy_two p q hp hq) (
    checked-pass [] (every is_loc_char) _ (omega arith) (every-nil is_loc_char)
    ∙ checked-pass [] (every is_alnum) _ (omega arith) (every-nil is_alnum)
    ∙ checked-pass p is_sta_pattern _ hp.1 vp
    ∙ checked-pass q is_cha_pattern _ hq.1 vq
    ∙ rw (
      take_all max_size_str_pattern (sta ++ dot ∷ cha) (omega arith),
      c_str_short max_size_str_pattern (sta ++ dot ∷ cha) short,
      match_name-code sta cha p q hs hc,
    ))

-- For a name STA.CHAN of less than 20 characters with CHAN of three, and a pattern P.Q of two valid
-- and short codes: the call returns 1 when P is the station but for case, or `*`, and Q the channel
-- but for `?`, and 0 when that is not so.
pub chan_match-cases :
    (sta cha p q : Str)
    → IsCode sta
    → length cha ≡ 3
    → length (sta ++ dot ∷ cha) < max_size_str_pattern
    → IsShort p
    → IsShort q
    → is_sta_pattern p ≡ true
    → is_cha_pattern q ≡ true
    → ((StaMatches sta p × ChaMatches q cha)
        × (chan_match (sta ++ dot ∷ cha) (p ++ dot ∷ q) ≡ some (pos 1)))
      ⊎ (¬ (StaMatches sta p × ChaMatches q cha)
          × (chan_match (sta ++ dot ∷ cha) (p ++ dot ∷ q) ≡ some (pos 0)))
chan_match-cases sta cha p q hs hc short hp hq vp vq =
    let e = chan_match-codes sta cha p q hs hc short hp hq vp vq in
    let i = match_codes_iff sta cha p q hc (length-cha q vq) in
    elim (Bool-cases (eqb_ℤ (match_codes sta cha p q) (pos 1))) [
      | inl one ↦ let m = is_one (match_codes sta cha p q) one in inl (i.0 m, e ∙ ap some m)
      | inr other ↦
          let m = is_other (match_codes sta cha p q) other in
          inr ((λ h. m (i.1 h)), e ∙ ap some (match_codes_else sta cha p q m))
    ]
  where
    is_one : (z : ℤ) → eqb_ℤ z (pos 1) ≡ true → z ≡ pos 1
    is_one z h = ground arith

    is_other : (z : ℤ) → eqb_ℤ z (pos 1) ≡ false → z ≡ pos 1 → ⊥
    is_other z h k = ground arith
