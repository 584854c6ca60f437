-- ===== src/Chan/Tests.antt =====
-- Channel names, lists and patterns at concrete inputs.
use nmxptool.Prelude.{◌≡◌, refl, ◌⊎◌, true, none, some, [], ◌∷◌, ◌++◌, arith}
use nmxptool.Prelude.Int.{pos}
use nmxptool.Text.{Str, dot, same_case, tolower, every, strchr, c_str}
use nmxptool.Chan.{ChanKey, ChanList, data_type_from_key}
use nmxptool.Chan.Name.{cpy_sta_chan, scan, note, parts, two_parts}
use nmxptool.Chan.Name.Roundtrip.{cpy_four, cpy_three, three_codes, IsShort}
use nmxptool.Chan.Match.{
  chan_match, is_sta_pattern, is_cha_pattern, match_cha, match_codes, match_name, match_pattern,
  checked,
}
use nmxptool.Chan.Match.Total.{IsResult, chan_match-IsResult}
use nmxptool.Chan.Match.Spec.{StaMatches, ChaMatches, chan_match-cases}
use nmxptool.Chan.Lookup.{lookup_name, name_from}
use nmxptool.Chan.Subset.{subset, patterns_from, select, select_all, add_channel, full_name}
use nmxptool.Chan.Subset.Keys.{IsSubset, subset-IsSubset}
use nmxptool.Chan.Meta.{MetaChan, sort_key, meta_chan_add, meta_chan_free}
use nmxptool.Chan.Meta.Order.{IsSortedByKey, meta_chan_add-IsSorted}
use nmxptool.Chan.Meta.Free.{meta_chan_free_faults}

abbrev net : Str
net = b'I' ∷ b'V' ∷ []

abbrev sta : Str
sta = b'A' ∷ b'Q' ∷ b'U' ∷ []

abbrev cha : Str
cha = b'B' ∷ b'H' ∷ b'Z' ∷ []

abbrev loc : Str
loc = b'0' ∷ b'1' ∷ []

net-IsShort : IsShort net
net-IsShort = ((omega arith, (omega arith, tt)), omega arith)

sta-IsShort : IsShort sta
sta-IsShort = ((omega arith, (omega arith, (omega arith, tt))), omega arith)

cha-IsShort : IsShort cha
cha-IsShort = ((omega arith, (omega arith, (omega arith, tt))), omega arith)

loc-IsShort : IsShort loc
loc-IsShort = ((omega arith, (omega arith, tt)), omega arith)

-- A time-series channel, as lists of the server have them.
abbrev channel : ChanKey
channel = record { key = pos 256; name = sta ++ dot ∷ cha }

abbrev meta : MetaChan
meta = record { key = pos 4; name = []; start_time = pos 0; end_time = pos 0; network = [] }

abbrev rename : MetaChan → MetaChan
rename x = record x { name = sta }

cpy_four_example : cpy_sta_chan (net ++ dot ∷ (sta ++ dot ∷ (cha ++ dot ∷ loc))) ≡ (
  true,
  record { network_code = net; station_code = sta; channel_code = cha; location_code = loc },
)
cpy_four_example = cpy_four net sta cha loc net-IsShort sta-IsShort cha-IsShort loc-IsShort

cpy_three_example : cpy_sta_chan (sta ++ dot ∷ (cha ++ dot ∷ loc)) ≡ (true, three_codes sta cha loc)
cpy_three_example = cpy_three sta cha loc sta-IsShort cha-IsShort loc-IsShort

sta_pattern : is_sta_pattern sta ≡ true
unfolding is_sta_pattern every
sta_pattern = refl

cha_pattern : is_cha_pattern cha ≡ true
unfolding is_cha_pattern every
cha_pattern = refl

chan_match-cases_example :
    ((StaMatches sta sta × ChaMatches cha cha)
      × (chan_match (sta ++ dot ∷ cha) (sta ++ dot ∷ cha) ≡ some (pos 1)))
    ⊎ (¬ (StaMatches sta sta × ChaMatches cha cha)
        × (chan_match (sta ++ dot ∷ cha) (sta ++ dot ∷ cha) ≡ some (pos 0)))
chan_match-cases_example =
    chan_match-cases sta cha sta cha sta-IsShort.0 refl (omega arith) sta-IsShort cha-IsShort
      sta_pattern cha_pattern

chan_match-IsResult_example : IsResult (chan_match (sta ++ dot ∷ cha) sta)
chan_match-IsResult_example = chan_match-IsResult (sta ++ dot ∷ cha) sta (omega arith) (omega arith)

abbrev selected : ChanList
selected = record { key = pos 256; name = full_name net (sta ++ dot ∷ cha) loc } ∷ []

subset_selected : subset 1 net loc (channel ∷ []) (sta ++ dot ∷ cha) ≡ some selected
unfolding subset full_name select_all select add_channel patterns_from chan_match match_pattern
    checked match_name match_codes match_cha cpy_sta_chan scan note parts two_parts lookup_name
    name_from data_type_from_key is_sta_pattern is_cha_pattern every strchr c_str same_case tolower
subset_selected = refl

subset-IsSubset_example : IsSubset (channel ∷ []) 1 net loc selected
subset-IsSubset_example =
    subset-IsSubset 1 net loc (channel ∷ []) (sta ++ dot ∷ cha) selected subset_selected

meta_chan_add-IsSorted_example :
    IsSortedByKey (meta_chan_add (meta ∷ []) (pos 3) none (pos 0) (pos 0) none sort_key)
meta_chan_add-IsSorted_example =
    meta_chan_add-IsSorted (meta ∷ []) (pos 3) none (pos 0) (pos 0) none sort_key (λ e. cc) (tt, tt)

meta_chan_free_faults_example : meta_chan_free (meta ∷ []) ≡ none
meta_chan_free_faults_example = meta_chan_free_faults meta []
