-- ===== src/Chan/Subset.antt =====
-- nmxp_chan_subset: the channels that a comma-separated list of patterns selects.
pub mod Patterns
pub mod Keys
pub mod Total
use nmxptool.Prelude.{
  ℕ, zero, suc, ◌+◌, Bool, true, false, ◌&&◌, ◌||◌, Option, none, some, List, [], ◌∷◌, ◌++◌, length,
  take, ltb, ◌==◌, if◌then◌else◌,
}
use nmxptool.Prelude.Int.{ℤ, pos, negsuc, eqb_ℤ}
use nmxptool.Text.{Str, c_str, strncpy, is_nil, dot}
use nmxptool.Chan.{ChanKey, ChanList, data_type_from_key, max_size_name, max_size_str_pattern}
use nmxptool.Chan.Name.{Codes, cpy_sta_chan}
use nmxptool.Chan.Match.{chan_match}
use nmxptool.Chan.Lookup.{lookup_name}

abbrev pub sep_chan_list : ℕ
sep_chan_list = b','

-- The patterns of `sta_chan_list`, `cur` being what the inner loop has copied of the next one. The
-- outer loop ends at the end of the text, and also at an empty pattern.
unfoldable pub patterns_from : Str → Str → List Str
patterns_from cur [] = if is_nil cur then [] else cur ∷ []
patterns_from cur (c ∷ s) = elim (c == sep_chan_list) [
  | true ↦ elim (is_nil cur) [ true ↦ [] | false ↦ cur ∷ patterns_from [] s ]
  | false ↦ patterns_from (cur ++ c ∷ []) s
]

-- snprintf("%s.%s.%s") into the NMXP_CHAN_MAX_SIZE_NAME bytes of a name.
unfoldable pub full_name : Str → Str → Str → Str
full_name net name loc = take 23 (net ++ dot ∷ (name ++ dot ∷ loc))

-- The choice `code[0] != 0 ? code : default`.
abbrev pub or_default : Str → Str → Str
or_default [] d = d
or_default (c ∷ s) d = c ∷ s

module _ (data_type : ℕ) (network_code_default location_code_default : Str) where
  -- A channel that matches: it is added unless its type differs or its key is there.
  unfoldable pub add_channel : Str → ChanKey → ChanList → Option ChanList
  add_channel pattern c ret =
      if data_type_from_key c.key == data_type
      then elim (lookup_name c.key ret) [
        | none ↦ elim (c_str max_size_str_pattern (cpy_sta_chan pattern).1.network_code) [
          | none ↦ none
          | some net ↦ elim (c_str max_size_str_pattern (cpy_sta_chan pattern).1.location_code) [
            | none ↦ none
            | some loc ↦ some (
                ret
                ++ record {
                  key = c.key;
                  name =
                      full_name (or_default net network_code_default) c.name
                        (or_default loc location_code_default);
                }
                  ∷ [])
          ]
        ]
        | some name ↦ some ret
      ]
      else some ret

  -- The loop over the channels, which stops when `ret_match` is -1.
  unfoldable pub select : Str → ChanList → ChanList → Option ChanList
  select pattern [] ret = some ret
  select pattern (c ∷ cs) ret = elim (chan_match c.name pattern) [
    | none ↦ none
    | some r ↦ elim (eqb_ℤ r (pos 1)) [
      | true ↦ elim (add_channel pattern c ret) [ none ↦ none | some ret' ↦ select pattern cs ret' ]
      | false ↦ elim (eqb_ℤ r (negsuc 0)) [ true ↦ some ret | false ↦ select pattern cs ret ]
    ]
  ]

  -- The loop over the patterns; each is copied to an array of 100 bytes.
  unfoldable pub select_all : List Str → ChanList → ChanList → Option ChanList
  select_all [] channels ret = some ret
  select_all (p ∷ ps) channels ret = elim (c_str 100 p) [
    | none ↦ none
    | some pattern ↦ elim (select pattern channels ret) [
      | none ↦ none
      | some ret' ↦ select_all ps channels ret'
    ]
  ]

  -- `nmxp_chan_subset`; `none` where an array is read or written past its end.
  unfoldable pub subset : ChanList → Str → Option ChanList
  subset channels sta_chan_list = select_all (patterns_from [] sta_chan_list) channels []
