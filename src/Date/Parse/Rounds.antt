-- ===== src/Date/Parse/Rounds.antt =====
-- Rounds of nmxp_data_parse_date over printed numbers.
use nmxptool.Prelude.{
  ℕ, zero, suc, ◌-◌, ◌≤◌, ◌<◌, ◌==◌, ◌≡◌, refl, ◌∙◌, ap, false, some, List, [], ◌∷◌, ◌++◌, length,
  replicate, take, drop, arith,
}
use nmxptool.Prelude.Int.{ℤ, pos, ◌-ℤ◌}
use nmxptool.Word.{wrap_32}
use nmxptool.Date.{Tm}
use nmxptool.Date.Strtol.{is_digit, strtol}
use nmxptool.Date.Months.{pos_sub}
use nmxptool.Date.Print.Digits.{AreDigits, number_of, Printed, strtol-digits, read_back}
use nmxptool.Date.Parse.{
  State, fraction, Machine, strlen, fill_zeros, ten_thousandths, store_number, read_number,
  read_fraction, round, goes_on, rounds,
}

-- A machine on its way.
abbrev pub mach : State → ℤ → List ℕ → Tm → Machine
mach st app cursor tm = record {
  state = st;
  app = app;
  cursor = cursor;
  wrong = false;
  finished = false;
  bad_errno = false;
  tm = tm;
}

pub rounds-round :
    (junk : List ℕ) (n : ℕ) (st : State) (app : ℤ) (cursor : List ℕ) (tm : Tm) (q : Machine)
    → round junk (mach st app cursor tm) ≡ some q
    → rounds junk (suc n) (mach st app cursor tm) ≡ rounds junk n q
unfolding rounds goes_on
rounds-round junk n st app cursor tm q e = rw e refl

pub wrap_32-small : (m : ℕ) → m < 2147483648 → wrap_32 (pos m) ≡ pos m
wrap_32-small m h = ground arith

pub strtol-Printed :
    (w m c : ℕ) (s rest : List ℕ)
    → Printed (suc w) m s
    → m < 2147483648
    → is_digit c ≡ false
    → strtol (s ++ c ∷ rest) ≡ some (read_back m (c ∷ rest))
strtol-Printed w m c [] rest p h d = absurd (omega (arith, p.width))
strtol-Printed w m c (x ∷ s) rest p h d =
    (strtol-digits x c s rest p.digits d (omega (arith, p.value))).0
    ∙ ap (λ n. some (read_back n (c ∷ rest))) p.value

-- The next number, behind a blank.
pub read_number-Printed :
    (st : State) (app : ℤ) (cursor : List ℕ) (tm : Tm) (w m c : ℕ) (s rest : List ℕ)
    → Printed (suc w) m s
    → m < 2147483648
    → is_digit c ≡ false
    → read_number (pos 0) (mach st app cursor tm) (b' ' ∷ (s ++ c ∷ rest))
      ≡ some (mach st (pos m) (c ∷ rest) tm)
unfolding read_number store_number
read_number-Printed st app cursor tm w m c [] rest p h d = absurd (omega (arith, p.width))
read_number-Printed st app cursor tm w m c (x ∷ s) rest p h d =
    rw ((strtol-digits x c s rest p.digits d (omega (arith, p.value))).1, read_number)
      (ap (λ z. some (mach st z (c ∷ rest) tm))
        (ap (λ z. z -ℤ pos 0) (wrap_32-small (number_of 0 (x ∷ s)) (omega (arith, p.value)))
          ∙ pos_sub (number_of 0 (x ∷ s)) 0 (omega arith)
          ∙ ap pos (omega (arith, p.value))))

strlen-digits : (s rest : List ℕ) → AreDigits s → strlen (s ++ 0 ∷ rest) ≡ some (length s)
unfolding strlen
strlen-digits [] rest h = refl
strlen-digits (x ∷ s) rest h = rw (not_zero x h.0.0) (rw (strlen-digits s rest h.1) refl)
  where
    not_zero : (x : ℕ) → b'0' ≤ x → (x == 0) ≡ false
    not_zero x h = ground arith

fill_zeros-digits :
    (s rest : List ℕ) → AreDigits s → fill_zeros (length s) (s ++ 0 ∷ rest) ≡ s ++ 0 ∷ rest
unfolding fill_zeros
fill_zeros-digits [] rest h = refl
fill_zeros-digits (x ∷ s) rest h =
    rw (not_zero x h.0.0) (ap (λ t. x ∷ t) (fill_zeros-digits s rest h.1))
  where
    not_zero : (x : ℕ) → b'0' ≤ x → (x == 0) ≡ false
    not_zero x h = ground arith

-- A fraction of four digits.
pub read_fraction-Printed :
    (junk : List ℕ) (app : ℤ) (cursor : List ℕ) (tm : Tm) (m : ℕ) (s rest : List ℕ)
    → Printed 4 m s
    → read_fraction junk (mach fraction app cursor tm) (s ++ 0 ∷ rest)
      ≡ some (mach fraction (pos m) (0 ∷ drop 6 junk) tm)
unfolding read_fraction ten_thousandths read_number store_number
read_fraction-Printed junk app cursor tm m (a ∷ b ∷ c ∷ d ∷ []) rest p =
    let h : AreDigits (b'1' ∷ a ∷ b ∷ c ∷ d ∷ []) = ((omega arith, omega arith), p.digits) in
    let s = a ∷ b ∷ c ∷ d ∷ [] in
    let back = strtol-digits b'1' 0 s (drop 6 junk) h refl (omega (arith, p.value, p.digits)) in
    rw (strlen-digits s rest p.digits, read_fraction)
      (rw (fill_zeros-digits (b'1' ∷ s) (drop 6 junk) h, read_fraction, ten_thousandths)
        (rw (back.0, read_number)
          (ap (λ z. some (mach fraction z (0 ∷ drop 6 junk) tm)) (value p.value p.digits))))
  where
    value :
        number_of 0 (a ∷ b ∷ c ∷ d ∷ []) ≡ m
        → AreDigits (a ∷ b ∷ c ∷ d ∷ [])
        → wrap_32 (pos (number_of 0 (b'1' ∷ a ∷ b ∷ c ∷ d ∷ []))) -ℤ pos 10000 ≡ pos m
    value e h =
        ap (λ z. z -ℤ pos 10000)
          (wrap_32-small (number_of 0 (b'1' ∷ a ∷ b ∷ c ∷ d ∷ [])) (omega (arith, h)))
        ∙ pos_sub (number_of 0 (b'1' ∷ a ∷ b ∷ c ∷ d ∷ [])) 10000 (omega (arith, h))
        ∙ ap pos (omega (arith, e, h))
read_fraction-Printed junk app cursor tm m [] rest p = absurd (omega (arith, p.width))
read_fraction-Printed junk app cursor tm m (a ∷ []) rest p = absurd (omega (arith, p.width))
read_fraction-Printed junk app cursor tm m (a ∷ b ∷ []) rest p = absurd (omega (arith, p.width))
read_fraction-Printed junk app cursor tm m (a ∷ b ∷ c ∷ []) rest p = absurd (omega (arith, p.width))
read_fraction-Printed junk app cursor tm m (a ∷ b ∷ c ∷ d ∷ e ∷ s) rest p =
    absurd (omega (arith, p.width))

take-zeros : (n k : ℕ) → n ≤ k → take n (replicate {A = ℕ} k 0) ≡ replicate n 0
take-zeros zero k h = refl
take-zeros (suc n) zero h = absurd (omega arith)
take-zeros (suc n) (suc k) h = ap (λ xs. 0 ∷ xs) (take-zeros n k (omega arith))

-- strncpy() of a short string into an array of n zeros.
pub copied :
    (n k : ℕ) (s : List ℕ)
    → length s < n
    → n ≤ k
    → take n (s ++ replicate k 0) ≡ s ++ 0 ∷ replicate (n - length s - 1) 0
copied zero k s h l = absurd (omega arith)
copied (suc n) k [] h l = take-zeros (suc n) k l ∙ ap (λ i. 0 ∷ replicate i 0) (rest n)
  where
    rest : (n : ℕ) → n ≡ suc n - 0 - 1
    rest n = omega arith
copied (suc n) k (x ∷ s) h l =
    ap (λ xs. x ∷ xs)
      (copied n k s (omega arith) (omega arith)
        ∙ ap (λ i. s ++ 0 ∷ replicate i 0) (rest n (length s)))
  where
    rest : (n m : ℕ) → n - m - 1 ≡ suc n - suc m - 1
    rest n m = omega arith
