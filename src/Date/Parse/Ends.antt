-- ===== src/Date/Parse/Ends.antt =====
-- The loop of nmxp_data_parse_date ends: no part is read twice.
use nmxptool.Prelude.{
  ℕ, zero, suc, ◌≤◌, ◌<◌, ◌==◌, ◌≡◌, refl, sym, ◌∙◌, ap, subst, Bool, true, false, not, ◌&&◌, ◌||◌,
  inl, inr, ◌⊎◌, Option, none, some, List, [], ◌∷◌, &&-true, Bool-cases, Option-cases, arith, ltb,
  take, replicate, ◌++◌, if◌then◌else◌,
}
use nmxptool.Prelude.Int.{ℤ, pos, negsuc}
use nmxptool.Text.{Str}
use nmxptool.Date.{Tm, is_leap, month_days, walk_months}
use nmxptool.Date.Strtol.{Strtol, strtol}
use nmxptool.Date.Parse.{
  State, year, month, day, julian, hour, minute, second, fraction, Machine, fails, ends_or, only,
  take_julian, take_part, strlen, ten_thousandths, store_number, read_number, read_fraction,
  next_part, round, goes_on, rounds, start, Parsed, parse_date,
}

-- The parts that may still follow.
abbrev left : State → ℕ
left year = 7
left month = 6
left day = 5
left julian = 5
left hour = 4
left minute = 3
left second = 2
left fraction = 1

-- After the switch the machine stops, or it has gone to a later state.
abbrev Later : State → Machine → Type 0
Later st q = (q.finished ≡ true) ⊎ ((q.wrong ≡ true) ⊎ (left q.state < left st))

ends_or-Later :
    (st : State) (c separator : ℕ) (to : State) (p : Machine)
    → left to < left st
    → Later st (ends_or c separator to p)
unfolding ends_or
ends_or-Later st c separator to p l = elim (Bool-cases (c == 0)) [
  | inl e ↦ rw e (inl refl)
  | inr e ↦ rw e (elim (Bool-cases (c == separator)) [
    | inl f ↦ rw f (inr (inr l))
    | inr f ↦ rw f (inr (inl refl))
  ])
]

only-Later :
    (st : State) (c separator : ℕ) (to : State) (p : Machine)
    → left to < left st
    → Later st (only c separator to p)
unfolding only
only-Later st c separator to p l = elim (Bool-cases (c == separator)) [
  | inl f ↦ rw f (inr (inr l))
  | inr f ↦ rw f (inr (inl refl))
]

some_inj : {A : Type 0} (a b : A) → some a ≡ some b → a ≡ b
some_inj a b e = cc

none-some : {A : Type 0} (a : A) → none ≡ some a → ⊥
none-some a e = cc

abbrev After : State → Option Machine → Type 0
After st o = (q : Machine) → o ≡ some q → Later st q

After-some : (st : State) (p : Machine) → Later st p → After st (some p)
After-some st p l q e = subst (Later st) (some_inj p q e) l

take_julian-Later : (c : ℕ) (p : Machine) → After julian (take_julian c p)
unfolding take_julian
take_julian-Later c p = elim (Option-cases (walk_months 0 (month_days (is_leap p.tm.year)) p.app)) [
  | inl e ↦ rw (e, take_julian) (λ q f. absurd (none-some q f))
  | inr (r, e) ↦
      rw (e, take_julian) (After-some julian _ (ends_or-Later julian c b',' hour _ (omega arith)))
]

take_part-Later : (st : State) (c : ℕ) (p : Machine) → After st (take_part st c p)
unfolding take_part
take_part-Later year c p = After-some year _ (elim (Bool-cases (c == b'/')) [
  | inl f ↦ rw f (inr (inr (omega arith)))
  | inr f ↦ rw f (elim (Bool-cases (c == b'.')) [
    | inl g ↦ rw g (inr (inr (omega arith)))
    | inr g ↦ rw g (inr (inl refl))
  ])
])
take_part-Later month c p = After-some month _ (only-Later month c b'/' day _ (omega arith))
take_part-Later day c p = After-some day _ (ends_or-Later day c b',' hour _ (omega arith))
take_part-Later julian c p = take_julian-Later c p
take_part-Later hour c p = After-some hour _ (only-Later hour c b':' minute _ (omega arith))
take_part-Later minute c p =
    After-some minute _ (ends_or-Later minute c b':' second _ (omega arith))
take_part-Later second c p =
    After-some second _ (ends_or-Later second c b'.' fraction _ (omega arith))
take_part-Later fraction c p =
    After-some fraction _
      (elim (Bool-cases (c == 0)) [ inl f ↦ rw f (inl refl) | inr f ↦ rw f (inr (inl refl)) ])

-- To read a number leaves the state.
abbrev Keeps : Machine → Option Machine → Type 0
Keeps p o = (q : Machine) → o ≡ some q → q.state ≡ p.state

Keeps-some : (p r : Machine) → r.state ≡ p.state → Keeps p (some r)
Keeps-some p r k q e = subst (λ m. m.state ≡ p.state) (some_inj r q e) k

Keeps-none : (p : Machine) → Keeps p none
Keeps-none p q e = absurd (none-some q e)

read_number-Keeps : (less : ℤ) (p : Machine) (xs : List ℕ) → Keeps p (read_number less p xs)
unfolding read_number store_number
read_number-Keeps less p xs = elim (Option-cases (strtol xs)) [
  | inl e ↦ rw (e, read_number) (Keeps-none p)
  | inr (r, e) ↦ rw (e, read_number) (Keeps-some p _ refl)
]

read_fraction-Keeps :
    (junk : List ℕ) (p : Machine) (cs : List ℕ) → Keeps p (read_fraction junk p cs)
unfolding read_fraction
read_fraction-Keeps junk p cs = elim (Option-cases (strlen cs)) [
  | inl e ↦ rw (e, read_fraction) (Keeps-none p)
  | inr (n, e) ↦
      rw (e, read_fraction)
        (elim (Bool-cases (n == 0 || ltb 4 n)) [
          | inl f ↦ rw f (Keeps-some p (fails p) refl)
          | inr f ↦ rw f (read_number-Keeps (pos 10000) p (ten_thousandths junk cs n))
        ])
]

number-Keeps :
    (junk : List ℕ) (st : State) (cs : List ℕ) (p : Machine)
    → Keeps p
        (elim st [ fraction ↦ read_fraction junk p cs | other ↦ read_number (pos 0) p (b' ' ∷ cs) ])
number-Keeps junk year cs p = read_number-Keeps (pos 0) p (b' ' ∷ cs)
number-Keeps junk month cs p = read_number-Keeps (pos 0) p (b' ' ∷ cs)
number-Keeps junk day cs p = read_number-Keeps (pos 0) p (b' ' ∷ cs)
number-Keeps junk julian cs p = read_number-Keeps (pos 0) p (b' ' ∷ cs)
number-Keeps junk hour cs p = read_number-Keeps (pos 0) p (b' ' ∷ cs)
number-Keeps junk minute cs p = read_number-Keeps (pos 0) p (b' ' ∷ cs)
number-Keeps junk second cs p = read_number-Keeps (pos 0) p (b' ' ∷ cs)
number-Keeps junk fraction cs p = read_fraction-Keeps junk p cs

-- A machine that goes on after a round has gone to a later state.
abbrev Less : State → Option Machine → Type 0
Less st o = (q : Machine) → o ≡ some q → goes_on q ≡ true → left q.state < left st

still-Less : (st : State) (p : Machine) → Later st p → Less st (some p)
unfolding goes_on
still-Less st p l q e g = still l
  where
    on : (not p.finished && (not p.wrong && not p.bad_errno)) ≡ true
    on =
        subst (λ m. (not m.finished && (not m.wrong && not m.bad_errno)) ≡ true)
          (sym (some_inj p q e)) g

    stopped : {b : Bool} → not b ≡ true → b ≡ true → ⊥
    stopped e f = cc

    still : Later st p → left q.state < left st
    still (inl f) = absurd (stopped (&&-true _ _ on).0 f)
    still (inr (inl w)) = absurd (stopped (&&-true _ _ (&&-true _ _ on).1).0 w)
    still (inr (inr l)) = subst (λ m. left m.state < left st) (some_inj p q e) l

next_part-Less :
    (junk : List ℕ) (st : State) (c : ℕ) (cs : List ℕ) (p : Machine)
    → Later st p
    → Less st (next_part junk c cs p)
unfolding next_part
next_part-Less junk st c cs p l = elim (Bool-cases (c == 0 || (p.finished || p.wrong))) [
  | inl e ↦ rw e (still-Less st p l)
  | inr e ↦ rw e (λ q f g.
      subst (λ x. left x < left st) (sym (number-Keeps junk p.state cs p q f)) (going e l))
]
  where
    both : (a b c : Bool) → (a || (b || c)) ≡ false → (b ≡ true) ⊎ (c ≡ true) → ⊥
    both false false false e (inl f) = cc
    both false false false e (inr f) = cc
    both a b c e f = cc

    going : (c == 0 || (p.finished || p.wrong)) ≡ false → Later st p → left p.state < left st
    going e (inl f) = absurd (both (c == 0) p.finished p.wrong e (inl f))
    going e (inr (inl w)) = absurd (both (c == 0) p.finished p.wrong e (inr w))
    going e (inr (inr l)) = l

round-Less : (junk : List ℕ) (p : Machine) → Less p.state (round junk p)
unfolding round
round-Less junk p = from p.cursor
  where
    from :
        (xs : List ℕ)
        → Less p.state (elim xs [
          | [] ↦ none
          | c ∷ cs ↦ elim (take_part p.state c p) [ none ↦ none | some q ↦ next_part junk c cs q ]
        ])
    from [] = λ q e g. absurd (none-some q e)
    from (c ∷ cs) = elim (Option-cases (take_part p.state c p)) [
      | inl e ↦ rw e (λ q f g. absurd (none-some q f))
      | inr (r, e) ↦ rw e (next_part-Less junk p.state c cs r (take_part-Later p.state c p r e))
    ]

rounds-stopped :
    (junk : List ℕ) (n : ℕ) (p : Machine) → goes_on p ≡ false → rounds junk n p ≡ some p
unfolding rounds
rounds-stopped junk zero p e = refl
rounds-stopped junk (suc n) p e = rw e refl

rounds-left :
    (junk : List ℕ) (n : ℕ) (p q : Machine)
    → left p.state ≤ n
    → rounds junk n p ≡ some q
    → goes_on q ≡ false
unfolding rounds
rounds-left junk zero p q h e = absurd (positive p.state h)
  where
    positive : (st : State) → left st ≤ 0 → ⊥
    positive year h = omega arith
    positive month h = omega arith
    positive day h = omega arith
    positive julian h = omega arith
    positive hour h = omega arith
    positive minute h = omega arith
    positive second h = omega arith
    positive fraction h = omega arith
rounds-left junk (suc n) p q h e = elim (Bool-cases (goes_on p)) [
  | inr f ↦
      subst (λ m. goes_on m ≡ false) (some_inj p q (sym (rounds-stopped junk (suc n) p f) ∙ e)) f
  | inl f ↦ elim (Option-cases (round junk p)) [
    | inl r ↦ absurd (none-some q (sym (ap (λ b. chosen b) f ∙ ap continued r) ∙ e))
    | inr (p', r) ↦
        let e' : rounds junk n p' ≡ some q = sym (ap (λ b. chosen b) f ∙ ap continued r) ∙ e in
        elim (Bool-cases (goes_on p')) [
          | inl g ↦ rounds-left junk n p' q (omega (arith, round-Less junk p p' r g)) e'
          | inr g ↦
              subst (λ m. goes_on m ≡ false) (some_inj p' q (sym (rounds-stopped junk n p' g) ∙ e'))
                g
        ]
  ]
]
  where
    continued : Option Machine → Option Machine
    continued o = elim o [ none ↦ none | some m ↦ rounds junk n m ]

    chosen : Bool → Option Machine
    chosen b = if b then continued (round junk p) else some p

-- Seven rounds, fewer than the eight that are allowed, are enough from any state: when the loop has not run
-- past the end of an array, its condition is false at its end.
pub rounds-ends :
    (junk : List ℕ) (n : ℕ) (p q : Machine) → 7 ≤ n → rounds junk n p ≡ some q → goes_on q ≡ false
rounds-ends junk n p q h e = rounds-left junk n p q (omega (arith, bound p.state)) e
  where
    bound : (st : State) → left st ≤ 7
    bound year = omega arith
    bound month = omega arith
    bound day = omega arith
    bound julian = omega arith
    bound hour = omega arith
    bound minute = omega arith
    bound second = omega arith
    bound fraction = omega arith

wrong-stays : (junk : List ℕ) (n : ℕ) (p : Machine) → p.wrong ≡ true → rounds junk n p ≡ some p
unfolding goes_on
wrong-stays junk n p e = rounds-stopped junk n p (stops p e)
  where
    second_false : (b c : Bool) → (b && (false && c)) ≡ false
    second_false true c = refl
    second_false false c = refl

    stops : (p : Machine) → p.wrong ≡ true → goes_on p ≡ false
    stops p e = rw (e, goes_on) (second_false (not p.finished) (not p.bad_errno))

-- When `errno` is EINVAL or ERANGE before a call, which does not reset it, the call refuses every date that
-- begins with a number inside the array.
pub parse_date-errno :
    (junk : List ℕ) (now : Tm) (s : Str) (r : Strtol)
    → strtol (take 30 (s ++ replicate 30 0)) ≡ some r
    → (p : Parsed) × (parse_date true junk now s ≡ some p) × (p.result ≡ negsuc 0)
unfolding parse_date start
parse_date-errno junk now s r e =
    rw (e, parse_date) (rw (wrong-stays junk 8 (start true now r) refl) (_, refl, refl))
