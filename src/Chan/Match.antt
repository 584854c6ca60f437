-- ===== src/Chan/Match.antt =====
-- nmxp_chan_match: a channel name STA.CHAN against a pattern NET.STA.CHAN.LOC.
pub mod Total
pub mod Spec
use nmxptool.Prelude.{
  ℕ, zero, suc, ◌+◌, Bool, true, false, ◌&&◌, ◌||◌, Option, none, some, List, [], ◌∷◌, length, take,
  drop, leb, ◌==◌, if◌then◌else◌,
}
use nmxptool.Prelude.Int.{ℤ, pos, negsuc}
use nmxptool.Text.{Str, strncpy, c_str, strchr, same_case, every, dot}
use nmxptool.Chan.{max_size_str_pattern}
use nmxptool.Chan.Name.{Codes, cpy_sta_chan}

abbrev pub is_letter : ℕ → Bool
is_letter c = leb b'A' c && leb c b'Z' || leb b'a' c && leb c b'z'

abbrev pub is_alnum : ℕ → Bool
is_alnum c = is_letter c || leb b'0' c && leb c b'9'

-- The characters that the four loops let pass.
abbrev pub is_loc_char : ℕ → Bool
is_loc_char c = is_alnum c || c == b'-'

abbrev pub is_sta_char : ℕ → Bool
is_sta_char c = is_alnum c || c == b'_'

abbrev pub is_cha_char : ℕ → Bool
is_cha_char c = is_letter c || c == b'_' || c == b'?'

-- `(l == 1) && sta_pattern[0] == '*'`.
unfoldable pub is_star : Str → Bool
is_star [] = false
is_star (c ∷ []) = c == b'*'
is_star (c ∷ d ∷ s) = false

-- The tests of the station and of the channel code of a pattern.
unfoldable pub is_sta_pattern : Str → Bool
unfolding is_star every
is_sta_pattern s = is_star s || every is_sta_char s

unfoldable pub is_cha_pattern : Str → Bool
unfolding every
is_cha_pattern s = length s == 3 && every is_cha_char s

-- "matching CHAN": `ret` after the loop over three characters, which stops at a mismatch.
unfoldable pub match_cha : ℕ → Str → Str → Bool
match_cha zero p s = true
match_cha (suc n) [] s = true
match_cha (suc n) (c ∷ p) [] = false
match_cha (suc n) (c ∷ p) (d ∷ s) = (c == b'?' || c == d) && match_cha n p s

-- The two codes of the channel name, tested against the pattern's.
unfoldable pub match_codes : Str → Str → Str → Str → ℤ
unfolding is_star
match_codes sta cha sta_pattern cha_pattern =
    if same_case sta sta_pattern || is_star sta_pattern
    then (if match_cha 3 cha_pattern cha then pos 1 else pos 0)
    else pos 0

-- The part after the validation: `sta_sdc` is cut at its first '.'.
unfoldable pub match_name : Str → Str → Str → ℤ
match_name sdc sta_pattern cha_pattern = elim (strchr sdc dot) [
  | none ↦ negsuc 1
  | some k ↦
      if length (drop (k + 1) sdc) == 3
      then match_codes (take k sdc) (drop (k + 1) sdc) sta_pattern cha_pattern
      else negsuc 0
]

infixl 5 ◌>>=◌
abbrev ◌>>=◌ {ℓ κ} : {A : Type ℓ} {B : Type κ} → Option A → (A → Option B) → Option B
none >>= f = none
some a >>= f = f a

-- One code of the pattern: its array is read, and -1 returned unless it passes the test.
unfoldable pub checked : Str → (Str → Bool) → (Str → Option ℤ) → Option ℤ
checked b p k = do s ← c_str max_size_str_pattern b; if p s then k s else some (negsuc 0)

-- What follows the splitting of the pattern.
unfoldable pub match_pattern : Str → Codes → Option ℤ
match_pattern name codes = checked codes.location_code (every is_loc_char) λ loc.
    checked codes.network_code (every is_alnum) λ net.
      checked codes.station_code is_sta_pattern λ sta.
        checked codes.channel_code is_cha_pattern λ cha. do
          sdc ← c_str max_size_str_pattern (strncpy max_size_str_pattern name)
          some (match_name sdc sta cha)

-- `nmxp_chan_match`: 1, 0, -1 or -2; `none` where it reads past the end of an array.
unfoldable pub chan_match : Str → Str → Option ℤ
chan_match name pattern =
    let (split, codes) = cpy_sta_chan pattern in
    if split then match_pattern name codes else some (negsuc 0)
