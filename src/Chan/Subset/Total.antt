-- ===== src/Chan/Subset/Total.antt =====
-- nmxp_chan_subset returns a list when the names and the patterns are short enough for its arrays.
use nmxptool.Prelude.{◌<◌, Option, none, some, List, length, All}
use nmxptool.Text.{Str}
use nmxptool.Chan.{ChanList, max_size_str_pattern}

abbrev pub IsSome : Option ChanList → Type 0
IsSome none = ⊥
IsSome (some r) = Unit {0}

-- Names and patterns of less than 20 characters.
abbrev pub AreShortNames : ChanList → Type 0
AreShortNames = All (λ c. length c.name < max_size_str_pattern)

abbrev pub AreShortPatterns : List Str → Type 0
AreShortPatterns = All (λ p. length p < max_size_str_pattern)
