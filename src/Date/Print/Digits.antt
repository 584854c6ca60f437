-- ===== src/Date/Print/Digits.antt =====
-- What is printed with %0wd is read back by strtol().
use nmxptool.Prelude.{
  ℕ, zero, suc, ◌+◌, ◌-◌, ◌*◌, ◌/◌, ◌%◌, ◌≤◌, ◌<◌, ◌==◌, ◌≡◌, refl, ◌∙◌, ap, true, false, inl, inr,
  some, List, [], ◌∷◌, ◌++◌, length, length-append, length-replicate, replicate, ltb, All,
  All-append, Bool-cases, ltb→lt, arith,
}
use nmxptool.Prelude.Int.{pos}
use nmxptool.Text.{Str}
use nmxptool.Date.Strtol.{
  Strtol, is_space, is_digit, skip_spaces, read_digits, clamp, convert, strtol,
}
use nmxptool.Date.Print.{decimal, zero_padded}

abbrev pub AreDigits : Str → Type 0
AreDigits s = All (λ c. (b'0' ≤ c) × (c ≤ b'9')) s

-- The number that digits mean behind n.
abbrev pub number_of : ℕ → Str → ℕ
number_of n [] = n
number_of n (c ∷ cs) = number_of (10 * n + (c - b'0')) cs

number_of-append : (n : ℕ) (s t : Str) → number_of n (s ++ t) ≡ number_of (number_of n s) t
number_of-append n [] t = refl
number_of-append n (c ∷ s) t = number_of-append (10 * n + (c - b'0')) s t

digit_true : (c : ℕ) → b'0' ≤ c → c ≤ b'9' → is_digit c ≡ true
digit_true c h k = ground arith

-- A first character that is no digit ends the number.
read_digits-append :
    (n c : ℕ) (s rest : Str)
    → AreDigits s
    → is_digit c ≡ false
    → read_digits n (s ++ c ∷ rest) ≡ some (number_of n s, c ∷ rest)
unfolding read_digits
read_digits-append n c [] rest h e = rw e refl
read_digits-append n c (x ∷ s) rest h e =
    rw (digit_true x h.0.0 h.0.1) (read_digits-append (10 * n + (x - b'0')) c s rest h.1 e)

abbrev pub read_back : ℕ → List ℕ → Strtol
read_back n rest = record { value = pos n; rest = rest; erange = false }

convert-digits :
    (x c : ℕ) (s rest xs : Str)
    → AreDigits (x ∷ s)
    → is_digit c ≡ false
    → number_of 0 (x ∷ s) < 9223372036854775808
    → convert false xs (x ∷ (s ++ c ∷ rest)) ≡ some (read_back (number_of 0 (x ∷ s)) (c ∷ rest))
unfolding convert clamp
convert-digits x c s rest xs h e l =
    rw (digit_true x h.0.0 h.0.1)
      (rw (read_digits-append 0 c (x ∷ s) rest h e) (rw (small (number_of 0 (x ∷ s)) l) refl))
  where
    small : (n : ℕ) → n < 9223372036854775808 → ltb n 9223372036854775808 ≡ true
    small n h = ground arith

-- strtol() on digits, with at most one blank before them.
pub strtol-digits :
    (x c : ℕ) (s rest : Str)
    → AreDigits (x ∷ s)
    → is_digit c ≡ false
    → number_of 0 (x ∷ s) < 9223372036854775808
    → (strtol (x ∷ (s ++ c ∷ rest)) ≡ some (read_back (number_of 0 (x ∷ s)) (c ∷ rest)))
      × (strtol (b' ' ∷ (x ∷ (s ++ c ∷ rest))) ≡ some (read_back (number_of 0 (x ∷ s)) (c ∷ rest)))
unfolding strtol skip_spaces
strtol-digits x c s rest h e l = (
  rw (no_space x h.0.0, strtol, skip_spaces)
      (rw (no_minus x h.0.0, strtol)
        (rw (no_plus x h.0.0, strtol) (convert-digits x c s rest (x ∷ (s ++ c ∷ rest)) h e l))),
  rw (no_space x h.0.0, strtol, skip_spaces)
      (rw (no_minus x h.0.0, strtol)
        (rw (no_plus x h.0.0, strtol)
          (convert-digits x c s rest (b' ' ∷ (x ∷ (s ++ c ∷ rest))) h e l))),
)
  where
    no_space : (x : ℕ) → b'0' ≤ x → is_space x ≡ false
    no_space x h = ground arith

    no_minus : (x : ℕ) → b'0' ≤ x → (x == b'-') ≡ false
    no_minus x h = ground arith

    no_plus : (x : ℕ) → b'0' ≤ x → (x == b'+') ≡ false
    no_plus x h = ground arith

pub decimal-AreDigits : (n m : ℕ) → AreDigits (decimal n m)
unfolding decimal
decimal-AreDigits zero m = ((omega arith, omega arith), tt)
decimal-AreDigits (suc n) m = elim (Bool-cases (ltb m 10)) [
  | inl e ↦ rw e ((omega arith, omega (arith, ltb→lt m 10 e)), tt)
  | inr e ↦ rw e (
      All-append (λ c. (b'0' ≤ c) × (c ≤ b'9')) (decimal n (m / 10)) ((b'0' + m % 10) ∷ [])
        (decimal-AreDigits n (m / 10)) ((omega arith, omega arith), tt))
]

-- 10 ^ (n + 1).
abbrev pub limit : ℕ → ℕ
limit zero = 10
limit (suc n) = 10 * limit n

number_of-decimal : (n m : ℕ) → m < limit n → number_of 0 (decimal n m) ≡ m
unfolding decimal
number_of-decimal zero m h = omega arith
number_of-decimal (suc n) m h = elim (Bool-cases (ltb m 10)) [
  | inl e ↦ rw e (omega arith)
  | inr e ↦ rw e (
      number_of-append 0 (decimal n (m / 10)) ((b'0' + m % 10) ∷ [])
      ∙ ap (λ k. number_of k ((b'0' + m % 10) ∷ [])) (number_of-decimal n (m / 10) (omega arith))
      ∙ omega arith)
]

-- A number below 10 ^ (k + 1) has at most k + 1 digits.
length-decimal : (n k m : ℕ) → m < limit k → length (decimal n m) ≤ suc k
unfolding decimal
length-decimal zero k m h = omega arith
length-decimal (suc n) k m h = elim (Bool-cases (ltb m 10)) [
  | inl e ↦ rw e (omega arith)
  | inr e ↦ rw e (tens k m e h (λ j. length-decimal n j (m / 10)))
]
  where
    tens :
        (k m : ℕ)
        → ltb m 10 ≡ false
        → m < limit k
        → ((j : ℕ) → m / 10 < limit j → length (decimal n (m / 10)) ≤ suc j)
        → length (decimal n (m / 10) ++ ((b'0' + m % 10) ∷ [])) ≤ suc k
    tens zero m e h again = absurd (ground arith)
    tens (suc k) m e h again =
        omega
          (arith, length-append (decimal n (m / 10)) ((b'0' + m % 10) ∷ []), again k (omega arith))

zeros-AreDigits : (k : ℕ) → AreDigits (replicate k b'0')
zeros-AreDigits zero = tt
zeros-AreDigits (suc k) = ((omega arith, omega arith), zeros-AreDigits k)

number_of-zeros : (k : ℕ) → number_of 0 (replicate k b'0') ≡ 0
number_of-zeros zero = refl
number_of-zeros (suc k) = number_of-zeros k

-- A number of at most w digits, at most ten, is printed as w digits that mean it.
pub record Printed (w m : ℕ) (s : Str) : Type 0 where
  pub digits : AreDigits s
  pub width : length s ≡ w
  pub value : number_of 0 s ≡ m

pub zero_padded-Printed :
    (k m : ℕ) → m < limit 9 → m < limit k → Printed (suc k) m (zero_padded (suc k) m)
unfolding zero_padded
zero_padded-Printed k m h l =
    let s = decimal 9 m in
    let short = length-decimal 9 k m l in
    record {
      digits =
          All-append (λ c. (b'0' ≤ c) × (c ≤ b'9')) (replicate (suc k - length s) b'0') s
            (zeros-AreDigits (suc k - length s)) (decimal-AreDigits 9 m);
      width = omega (
        arith,
        short,
        length-append (replicate (suc k - length s) b'0') s,
        length-replicate {A = ℕ} (suc k - length s) b'0',
      );
      value =
          number_of-append 0 (replicate (suc k - length s) b'0') s
          ∙ ap (λ n. number_of n s) (number_of-zeros (suc k - length s))
          ∙ number_of-decimal 9 m h;
    }
