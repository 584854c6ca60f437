-- ===== src/Chan/Lookup.antt =====
-- Searches in channel lists: nmxp_chan_lookupKey, nmxp_chan_lookupKeyIndex, nmxp_chan_lookupName,
-- nmxp_chan_getType and the two orders for sorting.
use nmxptool.Prelude.{ℕ, suc, Option, none, some, [], ◌∷◌, ◌==◌, if◌then◌else◌}
use nmxptool.Prelude.Int.{ℤ, pos, negsuc, eqb_ℤ, ltb_ℤ}
use nmxptool.Text.{Str, strncpy, same_case, strcmp}
use nmxptool.Chan.{ChanKey, ChanList, data_type_from_key, max_size_name}

-- The key of the first channel of that name, but for case, or -1.
unfoldable pub lookup_key : Str → ChanList → ℤ
lookup_key name [] = negsuc 0
lookup_key name (c ∷ cs) = if same_case name c.name then c.key else lookup_key name cs

-- The loop of nmxp_chan_lookupKeyIndex from index i on: the first channel with that key, or -1.
unfoldable pub key_index_from : ℕ → ℤ → ChanList → ℤ
key_index_from i key [] = negsuc 0
key_index_from i key (c ∷ cs) = if eqb_ℤ key c.key then pos i else key_index_from (suc i) key cs

unfoldable pub lookup_key_index : ℤ → ChanList → ℤ
lookup_key_index key cs = key_index_from 0 key cs

-- The loop of nmxp_chan_lookupName: the name of the last channel with that key overwrites `ret`.
unfoldable pub name_from : Str → ℤ → ChanList → Str
name_from ret key [] = ret
name_from ret key (c ∷ cs) =
    name_from (if eqb_ℤ key c.key then strncpy max_size_name c.name else ret) key cs

-- NULL if no name, or an empty one, was copied.
unfoldable pub lookup_name : ℤ → ChanList → Option Str
lookup_name key cs = elim (name_from [] key cs) [ [] ↦ none | x ∷ s ↦ some (x ∷ s) ]

-- The channels of a data type, in their order.
unfoldable pub get_type : ChanList → ℕ → ChanList
get_type [] data_type = []
get_type (c ∷ cs) data_type =
    let rest = get_type cs data_type in
    if data_type_from_key c.key == data_type
    then record { key = c.key; name = strncpy max_size_name c.name } ∷ rest
    else rest

-- chan_key_compare and chan_name_compare, the orders that qsort() is given.
unfoldable pub chan_key_compare : ChanKey → ChanKey → ℤ
chan_key_compare a b =
    if ltb_ℤ b.key a.key then pos 1 else if ltb_ℤ a.key b.key then negsuc 0 else pos 0

unfoldable pub chan_name_compare : ChanKey → ChanKey → ℤ
chan_name_compare a b = strcmp a.name b.name

-- nmxp_chan_sortByKey and nmxp_chan_sortByName: `qsort` is the library's, over an order.
unfoldable pub sort_by_key : ((ChanKey → ChanKey → ℤ) → ChanList → ChanList) → ChanList → ChanList
sort_by_key qsort cs = qsort chan_key_compare cs

unfoldable pub sort_by_name : ((ChanKey → ChanKey → ℤ) → ChanList → ChanList) → ChanList → ChanList
sort_by_name qsort cs = qsort chan_name_compare cs
