-- ===== src/ChanSeq/States/Scan.antt =====
-- sscanf() and fgets() on the lines of channel states.
use nmxptool.Prelude.{
  ℕ, zero, suc, ◌+◌, ◌-◌, ◌/◌, ◌%◌, ◌≤◌, ◌<◌, ◌==◌, ◌≡◌, refl, sym, ◌∙◌, ap, subst, true, false,
  ◌||◌, inl, inr, some, [], ◌∷◌, ◌++◌, append-nil, append_assoc, length, replicate, ltb, All,
  All-append, Bool-cases, arith,
}
use nmxptool.Prelude.Each.{All_mono}
use nmxptool.Prelude.Int.{ℤ, pos, negsuc}
use nmxptool.Text.{Str}
use nmxptool.Date.Strtol.{is_space, is_digit}
use nmxptool.Date.Print.{decimal, zero_padded}
use nmxptool.Date.Print.Digits.{AreDigits, decimal-AreDigits}
use nmxptool.Date.Parse.Line.{
  Moment, IsMoment, line_of, line_of-append, cells, Printed-year, Printed-jday, Printed-hour,
  Printed-minute, Printed-second, Printed-fraction,
}
use nmxptool.ChanSeq.States.{
  int_str, key_str, state_line, skip_blanks, skip_digits, scan_digits, scan_int, word, scan_word,
  scan_line, fgets,
}

-- A word without blanks.
abbrev pub IsWord : Str → Type 0
IsWord s = All (λ c. is_space c ≡ false) s

digit-space : (c : ℕ) → (b'0' ≤ c) × (c ≤ b'9') → is_space c ≡ false
digit-space c h = low c h.0
  where
    low : (c : ℕ) → b'0' ≤ c → is_space c ≡ false
    low c h = ground arith

pub digits-IsWord : (s : Str) → AreDigits s → IsWord s
digits-IsWord s h =
    All_mono (λ c. (b'0' ≤ c) × (c ≤ b'9')) (λ c. is_space c ≡ false) s digit-space h

word-append :
    (s rest : Str) (c : ℕ) → IsWord s → is_space c ≡ true → word (s ++ c ∷ rest) ≡ (s, c ∷ rest)
unfolding word
word-append [] rest c h e = rw e refl
word-append (x ∷ s) rest c h e =
    rw (h.0, word) (ap (λ r. (x ∷ r.0, r.1)) (word-append s rest c h.1 e))

-- A word behind a blank.
pub scan_word-append :
    (x c : ℕ) (s rest : Str)
    → IsWord (x ∷ s)
    → is_space c ≡ true
    → scan_word (b' ' ∷ (x ∷ (s ++ c ∷ rest))) ≡ some (x ∷ s, c ∷ rest)
unfolding scan_word skip_blanks
scan_word-append x c s rest h e =
    rw (h.0, scan_word, skip_blanks) (ap some (word-append (x ∷ s) rest c h e))

skip_blanks-blanks : (k : ℕ) (s : Str) → skip_blanks (replicate k b' ' ++ s) ≡ skip_blanks s
unfolding skip_blanks
skip_blanks-blanks zero s = refl
skip_blanks-blanks (suc k) s = skip_blanks-blanks k s

digit_true : (c : ℕ) → (b'0' ≤ c) × (c ≤ b'9') → is_digit c ≡ true
digit_true c h = both c h.0 h.1
  where
    both : (c : ℕ) → b'0' ≤ c → c ≤ b'9' → is_digit c ≡ true
    both c h k = ground arith

skip_digits-append : (s rest : Str) → AreDigits s → skip_digits (s ++ b' ' ∷ rest) ≡ b' ' ∷ rest
unfolding skip_digits
skip_digits-append [] rest h = refl
skip_digits-append (x ∷ s) rest h = rw (digit_true x h.0) (skip_digits-append s rest h.1)

-- A number has a first digit.
decimal-cons : (n m : ℕ) → (x : ℕ) × (s : Str) × (decimal n m ≡ x ∷ s)
unfolding decimal
decimal-cons zero m = (b'0' + m % 10, [], refl)
decimal-cons (suc n) m = elim (Bool-cases (ltb m 10)) [
  | inl e ↦ rw e (b'0' + m, [], refl)
  | inr e ↦ rw e (
      let r = decimal-cons n (m / 10) in
      (r.0, r.1 ++ ((b'0' + m % 10) ∷ []), ap (λ s. s ++ ((b'0' + m % 10) ∷ [])) r.2))
]

scan_digits-decimal :
    (n m : ℕ) (rest : Str) → scan_digits (decimal n m ++ b' ' ∷ rest) ≡ some (b' ' ∷ rest)
unfolding scan_digits
scan_digits-decimal n m rest =
    let (x, s, e) = decimal-cons n m in
    let h = subst AreDigits e (decimal-AreDigits n m) in
    rw (e, scan_digits)
      (rw (digit_true x h.0, scan_digits) (ap some (skip_digits-append s rest h.1)))

scan_int-str :
    (z : ℤ) (k : ℕ) (rest : Str)
    → scan_int (replicate k b' ' ++ (int_str z ++ b' ' ∷ rest)) ≡ some (b' ' ∷ rest)
unfolding scan_int int_str skip_blanks
scan_int-str (negsuc n) k rest =
    rw (skip_blanks-blanks k (b'-' ∷ (decimal 9 (suc n) ++ b' ' ∷ rest)), scan_int)
      (scan_digits-decimal 9 (suc n) rest)
scan_int-str (pos n) k rest =
    let (x, s, e) = decimal-cons 9 n in
    let h = subst AreDigits e (decimal-AreDigits 9 n) in
    let digits =
      ap scan_digits (ap (λ t. t ++ b' ' ∷ rest) (sym e)) ∙ scan_digits-decimal 9 n rest in
    rw (skip_blanks-blanks k (decimal 9 n ++ b' ' ∷ rest), scan_int)
      (rw (e, scan_int, skip_blanks)
        (rw (digit-space x h.0, scan_int, skip_blanks) (rw (no_sign x h.0.0, scan_int) digits)))
  where
    no_sign : (x : ℕ) → b'0' ≤ x → (x == b'-' || x == b'+') ≡ false
    no_sign x h = ground arith

-- The key is over-read, whatever its width.
pub scan_int-key_str :
    (z : ℤ) (rest : Str) → scan_int (key_str z ++ b' ' ∷ rest) ≡ some (b' ' ∷ rest)
unfolding key_str
scan_int-key_str z rest =
    ap scan_int (append_assoc (replicate (10 - length (int_str z)) b' ') (int_str z) (b' ' ∷ rest))
    ∙ scan_int-str z (10 - length (int_str z)) rest

-- The parts of a line that was written.
pub scan_line-state_line :
    (key : ℤ) (x y z : ℕ) (name last raw : Str)
    → IsWord (x ∷ name)
    → IsWord (y ∷ last)
    → IsWord (z ∷ raw)
    → scan_line (state_line key (x ∷ name) (y ∷ last) (z ∷ raw))
      ≡ record { complete = true; chan = x ∷ name; noraw = y ∷ last; raw = z ∷ raw }
unfolding scan_line state_line
scan_line-state_line key x y z name last raw hn hl hr =
    rw
      (
        scan_int-key_str key ((x ∷ name) ++ b' ' ∷ ((y ∷ last) ++ b' ' ∷ ((z ∷ raw) ++ 10 ∷ []))),
        scan_line,
      )
      (rw
        (
          scan_word-append x b' ' name ((y ∷ last) ++ b' ' ∷ ((z ∷ raw) ++ 10 ∷ [])) hn refl,
          scan_line,
        )
        (rw (scan_word-append y b' ' last ((z ∷ raw) ++ 10 ∷ []) hl refl, scan_line)
          (rw (scan_word-append z 10 raw [] hr refl, scan_line) refl)))

-- A line of fewer than n bytes is read whole.
pub fgets-line :
    (n : ℕ) (s rest : Str)
    → length s < n
    → All (λ c. (c == 10) ≡ false) s
    → fgets n (s ++ 10 ∷ rest) ≡ (s ++ 10 ∷ [], rest)
unfolding fgets
fgets-line zero s rest l h = absurd (omega arith)
fgets-line (suc n) [] rest l h = refl
fgets-line (suc n) (c ∷ s) rest l h =
    rw (h.0, fgets) (ap (λ r. (c ∷ r.0, r.1)) (fgets-line n s rest (omega arith) h.1))

-- A line of a date is a word.
pub line_of-IsWord : (t : Moment) → IsMoment t → IsWord (line_of t)
line_of-IsWord t v = subst IsWord (sym (line_of-append t []) ∙ append-nil (line_of t)) whole
  where
    joined :
        (s rest : Str) (c : ℕ)
        → AreDigits s
        → is_space c ≡ false
        → IsWord rest
        → IsWord (s ++ c ∷ rest)
    joined s rest c h e k =
        All-append (λ x. is_space x ≡ false) s (c ∷ rest) (digits-IsWord s h) (e, k)

    whole : IsWord (cells t [])
    whole = joined (zero_padded 4 t.year) _ b'.' (Printed-year t v).digits refl (
        joined (zero_padded 3 t.jday) _ b',' (Printed-jday t v).digits refl (
          joined (zero_padded 2 t.hour) _ b':' (Printed-hour t v).digits refl (
            joined (zero_padded 2 t.minute) _ b':' (Printed-minute t v).digits refl (
              joined (zero_padded 2 t.second) _ b'.' (Printed-second t v).digits refl (
                All-append (λ x. is_space x ≡ false) (zero_padded 4 t.fraction) []
                  (digits-IsWord (zero_padded 4 t.fraction) (Printed-fraction t v).digits) tt)))))
