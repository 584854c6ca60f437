-- ===== src/Date/Strtol.antt =====
-- strtol() of the C library in base 10, in the "C" locale, over the cells of an array that begin at its
-- argument. `none` is a read past the end of the array.
use nmxptool.Prelude.{
  ℕ, zero, suc, ◌+◌, ◌-◌, ◌*◌, ◌==◌, Bool, true, false, ◌&&◌, ◌||◌, Option, none, some, List, [],
  ◌∷◌, leb, ltb, if◌then◌else◌,
}
use nmxptool.Prelude.Int.{ℤ, pos, negsuc}

-- The value, what `endptr` points to, and whether `errno` is set to ERANGE.
pub record Strtol : Type 0 where
  pub value : ℤ
  pub rest : List ℕ
  pub erange : Bool

abbrev pub is_space : ℕ → Bool
is_space c = c == 32 || leb 9 c && leb c 13

abbrev pub is_digit : ℕ → Bool
is_digit c = leb b'0' c && leb c b'9'

unfoldable pub skip_spaces : List ℕ → List ℕ
skip_spaces [] = []
skip_spaces (c ∷ cs) = let rest = skip_spaces cs in if is_space c then rest else c ∷ cs

unfoldable pub read_digits : ℕ → List ℕ → Option (ℕ × List ℕ)
read_digits n [] = none
read_digits n (c ∷ cs) =
    let rest = read_digits (10 * n + (c - b'0')) cs in if is_digit c then rest else some (n, c ∷ cs)

abbrev pub minus : ℕ → ℤ
minus zero = pos 0
minus (suc n) = negsuc n

-- A long has 64 bits.
unfoldable pub clamp : Bool → ℕ → List ℕ → Strtol
clamp false n rest =
    if ltb n 9223372036854775808
    then record { value = pos n; rest = rest; erange = false }
    else record { value = pos 9223372036854775807; rest = rest; erange = true }
clamp true n rest =
    if leb n 9223372036854775808
    then record { value = minus n; rest = rest; erange = false }
    else record { value = minus 9223372036854775808; rest = rest; erange = true }

-- Behind the sign; without a digit nothing is converted and `endptr` is the argument.
unfoldable pub convert : Bool → List ℕ → List ℕ → Option Strtol
convert negative xs [] = none
convert negative xs (c ∷ cs) =
    if is_digit c
    then elim (read_digits 0 (c ∷ cs)) [ none ↦ none | some r ↦ some (clamp negative r.0 r.1) ]
    else some (record { value = pos 0; rest = xs; erange = false })

unfoldable pub strtol : List ℕ → Option Strtol
strtol xs = elim (skip_spaces xs) [
  | [] ↦ none
  | c ∷ cs ↦
      if c == b'-'
      then convert true xs cs
      else (if c == b'+' then convert false xs cs else convert false xs (c ∷ cs))
]
