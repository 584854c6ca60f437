-- ===== src/RawStream/Order.antt =====
-- The order of the sequence numbers in the raw stream buffer of lib/nmxp.c: what keeps the queue
-- sorted and ahead of the last number sent, and the packets that are handled ascending.
use nmxptool.Prelude.{◌+◌, ◌<◌, List, [], ◌∷◌, ◌++◌, All, arith}
use nmxptool.Prelude.Int.{ℤ, pos, pos_part, neg_part, ◌<ℤ◌, ◌≤ℤ◌}
use nmxptool.Packet.{DataProcess}

module _ {Num : Type 0} where
  -- Ascending sequence numbers, equal ones allowed.
  abbrev pub IsSorted : List (DataProcess Num) → Type 0
  IsSorted [] = Unit {0}
  IsSorted (x ∷ xs) = All (λ y. x.seq_no ≤ℤ y.seq_no) xs × IsSorted xs

  -- Each number is above the one before, from `lo` (left out) up to `hi` (allowed).
  abbrev pub Ascends : ℤ → List (DataProcess Num) → ℤ → Type 0
  Ascends lo [] hi = lo ≤ℤ hi
  Ascends lo (x ∷ xs) hi = (lo <ℤ x.seq_no) × Ascends x.seq_no xs hi

  pub Ascends-snoc :
      (lo : ℤ) (xs : List (DataProcess Num)) (mid : ℤ) (x : DataProcess Num)
      → Ascends lo xs mid
      → mid <ℤ x.seq_no
      → Ascends lo (xs ++ x ∷ []) x.seq_no
  Ascends-snoc lo [] mid x a h = (omega arith, omega arith)
  Ascends-snoc lo (y ∷ ys) mid x a h = (a.0, Ascends-snoc y.seq_no ys mid x a.1 h)

  pub Ascends-append :
      (lo : ℤ) (xs : List (DataProcess Num)) (mid : ℤ) (ys : List (DataProcess Num)) (hi : ℤ)
      → Ascends lo xs mid
      → Ascends mid ys hi
      → Ascends lo (xs ++ ys) hi
  Ascends-append lo [] mid [] hi a b = omega arith
  Ascends-append lo [] mid (y ∷ ys) hi a b = (omega arith, b.1)
  Ascends-append lo (x ∷ xs) mid ys hi a b = (a.0, Ascends-append x.seq_no xs mid ys hi a.1 b)

  pub Ascends-from :
      (lo lo' : ℤ) (xs : List (DataProcess Num)) (hi : ℤ)
      → lo' ≤ℤ lo
      → Ascends lo xs hi
      → Ascends lo' xs hi
  Ascends-from lo lo' [] hi h a = omega arith
  Ascends-from lo lo' (x ∷ xs) hi h a = (omega arith, a.1)

  -- The same with equal numbers allowed.
  abbrev pub Climbs : ℤ → List (DataProcess Num) → ℤ → Type 0
  Climbs lo [] hi = lo ≤ℤ hi
  Climbs lo (x ∷ xs) hi = (lo ≤ℤ x.seq_no) × Climbs x.seq_no xs hi

  pub Climbs-of_Ascends :
      (lo lo' : ℤ) (xs : List (DataProcess Num)) (hi : ℤ)
      → lo' ≤ℤ lo
      → Ascends lo xs hi
      → Climbs lo' xs hi
  Climbs-of_Ascends lo lo' [] hi h a = omega arith
  Climbs-of_Ascends lo lo' (x ∷ xs) hi h a =
      (omega arith, Climbs-of_Ascends x.seq_no x.seq_no xs hi (omega arith) a.1)

  pub Climbs-append :
      (lo : ℤ) (xs : List (DataProcess Num)) (mid : ℤ) (ys : List (DataProcess Num)) (hi : ℤ)
      → Climbs lo xs mid
      → Climbs mid ys hi
      → Climbs lo (xs ++ ys) hi
  Climbs-append lo [] mid [] hi a b = omega arith
  Climbs-append lo [] mid (y ∷ ys) hi a b = (omega arith, b.1)
  Climbs-append lo (x ∷ xs) mid ys hi a b = (a.0, Climbs-append x.seq_no xs mid ys hi a.1 b)

  -- The packet leaves a gap after the number `last`, which is not the initial -1.
  abbrev pub IsAhead : ℤ → DataProcess Num → Type 0
  IsAhead last x =
      (pos_part last + neg_part x.seq_no + 1 < pos_part x.seq_no + neg_part last) × (pos 0 ≤ℤ last)
