-- ===== src/Text.antt =====
-- C strings: the bytes before the terminator, and a character array that strncpy() has filled.
-- Of the C library: strncpy, strlen, strchr, strcmp, strcasecmp in the "C" locale.
pub mod Laws
use nmxptool.Prelude.{
  ℕ, zero, suc, ◌+◌, ◌-◌, Bool, true, false, ◌&&◌, ◌||◌, Option, none, some, List, [], ◌∷◌, length,
  take, drop, ltb, leb, ◌==◌, if◌then◌else◌,
}
use nmxptool.Prelude.Int.{ℤ, pos, negsuc}

abbrev pub Str : Type 0
Str = List ℕ

-- strncpy(dst, s, n): what stands in `dst` before a terminator or its end.
abbrev pub strncpy : ℕ → Str → Str
strncpy n s = take n s

-- Reading an array of n bytes as a string: `none` is a read past its end, with no terminator inside.
unfoldable pub c_str : ℕ → Str → Option Str
c_str n b = if ltb (length b) n then some b else none

-- `s[a..b)`.
abbrev pub slice : ℕ → ℕ → Str → Str
slice a b s = take (b - a) (drop a s)

-- strchr(s, c), as an offset.
unfoldable pub strchr : Str → ℕ → Option ℕ
strchr [] c = none
strchr (x ∷ s) c =
    if x == c then some 0 else elim (strchr s c) [ none ↦ none | some i ↦ some (suc i) ]

unfoldable pub tolower : ℕ → ℕ
tolower c = if leb b'A' c && leb c b'Z' then c + 32 else c

-- strcasecmp(a, b) == 0.
unfoldable pub same_case : Str → Str → Bool
same_case [] [] = true
same_case [] (y ∷ t) = false
same_case (x ∷ s) [] = false
same_case (x ∷ s) (y ∷ t) = tolower x == tolower y && same_case s t

-- The sign of strcmp(a, b).
unfoldable pub strcmp : Str → Str → ℤ
strcmp [] [] = pos 0
strcmp [] (y ∷ t) = negsuc 0
strcmp (x ∷ s) [] = pos 1
strcmp (x ∷ s) (y ∷ t) =
    let rest = strcmp s t in if ltb x y then negsuc 0 else if ltb y x then pos 1 else rest

-- Every byte passes a test.
unfoldable pub every : (ℕ → Bool) → Str → Bool
every p [] = true
every p (x ∷ s) = p x && every p s

abbrev pub is_nil : Str → Bool
is_nil [] = true
is_nil (x ∷ s) = false

abbrev pub dot : ℕ
dot = b'.'
