-- ===== src/ChanSeq/States/Lines.antt =====
-- The lines of channel states that the tool writes, taken apart again.
use nmxptool.Prelude.{
  ℕ, zero, suc, ◌+◌, ◌-◌, ◌/◌, ◌%◌, ◌≤◌, ◌<◌, ◌==◌, ◌≡◌, ◌≢◌, refl, sym, ◌∙◌, ap, subst, true,
  false, inl, inr, List, [], ◌∷◌, ◌++◌, append-nil, append_assoc, length, length-append,
  length-replicate, replicate, ltb, lt→ltb, All, All-append, Bool-cases, arith,
}
use nmxptool.Prelude.Each.{All_mono}
use nmxptool.Prelude.Int.{ℤ, pos, negsuc}
use nmxptool.Text.{Str}
use nmxptool.Date.{month_days}
use nmxptool.Date.Months.{gregorian, days_before, IsDay}
use nmxptool.Date.Strtol.{is_space}
use nmxptool.Date.Print.{decimal}
use nmxptool.Date.Print.Digits.{decimal-AreDigits}
use nmxptool.Date.Parse.Line.{Moment, IsMoment, line_of, length-line_of}
use nmxptool.ChanSeq.States.{int_str, key_str, state_line, scan_line, words_fit, fgets}
use nmxptool.ChanSeq.States.Scan.{
  IsWord, digits-IsWord, scan_line-state_line, fgets-line, line_of-IsWord,
}

-- A moment and the month and day that its day of the year is.
pub record Dated : Type 0 where
  pub moment : Moment
  pub month : ℕ
  pub day : ℕ

pub record IsDated (t : Dated) : Type 0 where
  pub moment : IsMoment t.moment
  pub no_century : t.moment.year % 100 ≢ 0
  pub day : IsDay (month_days (gregorian t.moment.year)) t.month t.day
  pub jday : t.moment.jday ≡ days_before (month_days (gregorian t.moment.year)) t.month + t.day

abbrev pub line : Dated → Str
line t = line_of t.moment

-- What a line of the file says.
pub record Saved : Type 0 where
  pub key : ℤ
  pub name : Str
  pub last : Dated
  pub raw : Dated

-- A name without blanks that has room in its array.
pub record IsSaved (v : Saved) : Type 0 where
  pub word : IsWord v.name
  pub some_name : 0 < length v.name
  pub short : length v.name < 128
  pub last : IsDated v.last
  pub raw : IsDated v.raw

abbrev pub saved_line : Saved → Str
saved_line v = state_line v.key v.name (line v.last) (line v.raw)

abbrev pub saved_text : List Saved → Str
saved_text [] = []
saved_text (v ∷ vs) = saved_line v ++ saved_text vs

pub cons_form : (s : Str) → 0 < length s → (x : ℕ) × (t : Str) × (s ≡ x ∷ t)
cons_form [] h = absurd (omega arith)
cons_form (x ∷ t) h = (x, t, refl)

pub scan_line-saved :
    (v : Saved)
    → IsSaved v
    → scan_line (saved_line v)
      ≡ record { complete = true; chan = v.name; noraw = line v.last; raw = line v.raw }
scan_line-saved v h =
    let (x, name, ex) = cons_form v.name h.some_name in
    let (y, last, ey) =
      cons_form (line v.last) (omega (arith, length-line_of v.last.moment h.last.moment)) in
    let (z, raw, ez) =
      cons_form (line v.raw) (omega (arith, length-line_of v.raw.moment h.raw.moment)) in
    let wx = subst IsWord ex h.word in
    let wy = subst IsWord ey (line_of-IsWord v.last.moment h.last.moment) in
    let wz = subst IsWord ez (line_of-IsWord v.raw.moment h.raw.moment) in
    rw ex (rw ey (rw ez (scan_line-state_line v.key x y z name last raw wx wy wz)))

pub words_fit-saved :
    (v : Saved)
    → IsSaved v
    → words_fit (record { complete = true; chan = v.name; noraw = line v.last; raw = line v.raw })
      ≡ true
unfolding words_fit
words_fit-saved v h = rw (lt→ltb (length v.name) 128 h.short) (
    rw (length-line_of v.last.moment h.last.moment)
      (rw (length-line_of v.raw.moment h.raw.moment) refl))

-- The line without its newline.
abbrev body : Saved → Str
body v = key_str v.key ++ b' ' ∷ (v.name ++ b' ' ∷ (line v.last ++ b' ' ∷ line v.raw))

saved_line-append : (v : Saved) (rest : Str) → saved_line v ++ rest ≡ body v ++ 10 ∷ rest
unfolding state_line
saved_line-append v rest =
    let k = key_str v.key in
    let l = line v.last in
    let r = line v.raw in
    append_assoc k (b' ' ∷ (v.name ++ b' ' ∷ (l ++ b' ' ∷ (r ++ 10 ∷ [])))) rest
    ∙ ap (λ x. k ++ b' ' ∷ x)
        (append_assoc v.name (b' ' ∷ (l ++ b' ' ∷ (r ++ 10 ∷ []))) rest
          ∙ ap (λ x. v.name ++ b' ' ∷ x)
              (append_assoc l (b' ' ∷ (r ++ 10 ∷ [])) rest
                ∙ ap (λ x. l ++ b' ' ∷ x) (append_assoc r (10 ∷ []) rest)
                ∙ sym (append_assoc l (b' ' ∷ r) (10 ∷ rest)))
          ∙ sym (append_assoc v.name (b' ' ∷ (l ++ b' ' ∷ r)) (10 ∷ rest)))
    ∙ sym (append_assoc k (b' ' ∷ (v.name ++ b' ' ∷ (l ++ b' ' ∷ r))) (10 ∷ rest))

length-decimal : (n m : ℕ) → length (decimal n m) ≤ suc n
unfolding decimal
length-decimal zero m = omega arith
length-decimal (suc n) m = elim (Bool-cases (ltb m 10)) [
  | inl e ↦ rw e (omega arith)
  | inr e ↦ rw e (
      omega (
        arith,
        length-append (decimal n (m / 10)) ((b'0' + m % 10) ∷ []),
        length-decimal n (m / 10),
      ))
]

length-int_str : (z : ℤ) → length (int_str z) ≤ 11
unfolding int_str
length-int_str (pos n) = omega (arith, length-decimal 9 n)
length-int_str (negsuc n) = omega (arith, length-decimal 9 (suc n))

length-key_str : (z : ℤ) → length (key_str z) ≤ 11
unfolding key_str
length-key_str z = omega (
  arith,
  length-int_str z,
  length-append (replicate (10 - length (int_str z)) b' ') (int_str z),
  length-replicate {A = ℕ} (10 - length (int_str z)) b' ',
)

abbrev IsPart : Str → Type 0
IsPart s = All (λ c. (c == 10) ≡ false) s

word-IsPart : (s : Str) → IsWord s → IsPart s
word-IsPart s h = All_mono (λ c. is_space c ≡ false) (λ c. (c == 10) ≡ false) s no_newline h
  where
    no_newline : (c : ℕ) → is_space c ≡ false → (c == 10) ≡ false
    no_newline c e = ground arith

blanks-IsPart : (k : ℕ) → IsPart (replicate k b' ')
blanks-IsPart zero = tt
blanks-IsPart (suc k) = (refl, blanks-IsPart k)

int_str-IsPart : (z : ℤ) → IsPart (int_str z)
unfolding int_str
int_str-IsPart (pos n) =
    word-IsPart (decimal 9 n) (digits-IsWord (decimal 9 n) (decimal-AreDigits 9 n))
int_str-IsPart (negsuc n) = (
  refl,
  word-IsPart (decimal 9 (suc n)) (digits-IsWord (decimal 9 (suc n)) (decimal-AreDigits 9 (suc n))),
)

IsPart-append : (s rest : Str) → IsPart s → IsPart rest → IsPart (s ++ b' ' ∷ rest)
IsPart-append s rest h k = All-append (λ c. (c == 10) ≡ false) s (b' ' ∷ rest) h (refl, k)

body-IsPart : (v : Saved) → IsSaved v → IsPart (body v)
unfolding key_str
body-IsPart v h =
    IsPart-append (key_str v.key) _
      (All-append (λ c. (c == 10) ≡ false) (replicate (10 - length (int_str v.key)) b' ')
        (int_str v.key) (blanks-IsPart (10 - length (int_str v.key))) (int_str-IsPart v.key))
      (IsPart-append v.name _ (word-IsPart v.name h.word) (
        IsPart-append (line v.last) (line v.raw)
          (word-IsPart (line v.last) (line_of-IsWord v.last.moment h.last.moment))
          (word-IsPart (line v.raw) (line_of-IsWord v.raw.moment h.raw.moment))))

pub fgets-saved :
    (v : Saved) (rest : Str) → IsSaved v → fgets 2047 (saved_line v ++ rest) ≡ (saved_line v, rest)
fgets-saved v rest h =
    ap (fgets 2047) (saved_line-append v rest)
    ∙ fgets-line 2047 (body v) rest
        (omega (
          arith,
          length-key_str v.key,
          h.short,
          length-line_of v.last.moment h.last.moment,
          length-line_of v.raw.moment h.raw.moment,
          length-append (key_str v.key)
              (b' ' ∷ (v.name ++ b' ' ∷ (line v.last ++ b' ' ∷ line v.raw))),
          length-append v.name (b' ' ∷ (line v.last ++ b' ' ∷ line v.raw)),
          length-append (line v.last) (b' ' ∷ line v.raw),
        ))
        (body-IsPart v h)
    ∙ ap (λ s. (s, rest)) (sym (saved_line-append v []) ∙ append-nil (saved_line v))

pub length-saved_line : (v : Saved) → 0 < length (saved_line v)
length-saved_line v = omega (
  arith,
  ap length (sym (append-nil (saved_line v)) ∙ saved_line-append v []),
  length-append (body v) (10 ∷ []),
)
