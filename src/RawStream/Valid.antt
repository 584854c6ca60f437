-- ===== src/RawStream/Valid.antt =====
-- The invariant of the raw stream buffer between two calls, and what its parts need of it.
use mathlib.Core.HLevel.{Π_prop}
use native.Mathlib.Nat.{ℕ_set}
use nmxptool.Prelude.{◌≡◌, true, false, Option, none, some, List, [], ◌∷◌, length, All, arith}
use nmxptool.Prelude.Int.{ℤ, pos, negsuc, ◌≤ℤ◌, ◌<ℤ◌, eqb_ℤ}
use nmxptool.Packet.{DataProcess}
use nmxptool.RawStream.{RawStream}
use nmxptool.RawStream.Drained.{IsReady}
use nmxptool.RawStream.Order.{IsSorted, IsAhead}

module _ {Num : Type 0} where
  pub record IsValid (p : RawStream Num) : Type 0 where
    pub capacity : pos 1 ≤ℤ p.max_pdlist_items
    pub bounded : pos (length p.pdlist) ≤ℤ p.max_pdlist_items
    pub started : negsuc 0 ≤ℤ p.last_seq_no_sent
    pub ordered : IsSorted p.pdlist
    pub ahead : All (IsAhead p.last_seq_no_sent) p.pdlist

  -- Packets carry numbers that are not negative.
  abbrev pub IsNumbered : Option (DataProcess Num) → Type 0
  IsNumbered none = Unit {0}
  IsNumbered (some pd) = pos 0 ≤ℤ pd.seq_no

  abbrev pub to_list : Option (DataProcess Num) → List (DataProcess Num)
  to_list none = []
  to_list (some pd) = pd ∷ []

  pub IsReady-prop : (last : ℤ) (x : DataProcess Num) → IsProp (IsReady last x)
  IsReady-prop last x = Π_prop (λ _. ℕ_set _ _)

  pub late-IsReady : (last : ℤ) (x : DataProcess Num) → pos 0 ≤ℤ last → IsReady last x
  late-IsReady last x h k = absurd (omega arith)

  pub none-IsAhead :
      (last l : ℤ) (xs : List (DataProcess Num))
      → last <ℤ pos 0
      → All (IsAhead last) xs
      → All (IsAhead l) xs
  none-IsAhead last l [] h a = tt
  none-IsAhead last l (x ∷ xs) h a = absurd (omega arith)

pub fresh : (last : ℤ) → eqb_ℤ last (negsuc 0) ≡ true → last <ℤ pos 0
fresh last h = ground arith

pub not_fresh : (last : ℤ) → eqb_ℤ last (negsuc 0) ≡ false → negsuc 0 ≤ℤ last → pos 0 ≤ℤ last
not_fresh last h k = ground arith
