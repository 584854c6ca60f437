-- ===== src/Chan/Meta.antt =====
-- NMXP_META_CHAN_LIST: the linked list of channels of lib/nmxp_chan.c with their times. A list is the
-- list of its nodes; NULL is the empty list.
pub mod Order
pub mod Free
use nmxptool.Prelude.{
  ℕ, Bool, true, false, Option, none, some, List, [], ◌∷◌, ◌++◌, map, if◌then◌else◌,
}
use nmxptool.Prelude.Int.{ℤ, pos, negsuc, eqb_ℤ, ltb_ℤ}
use nmxptool.Text.{Str, strncpy, strcmp}

pub record MetaChan : Type 0 where
  pub key : ℤ
  pub name : Str
  pub start_time : ℤ
  pub end_time : ℤ
  pub network : Str

-- NMXP_META_CHAN_LIST_SORT_TYPE.
pub data SortType : Type 0 where
  sort_key sort_name sort_start_time sort_end_time : SortType

-- The sign by which two int32_t compare.
unfoldable pub compare_int : ℤ → ℤ → ℤ
compare_int a b = if ltb_ℤ b a then pos 1 else if ltb_ℤ a b then negsuc 0 else pos 0

unfoldable pub meta_chan_compare : MetaChan → MetaChan → SortType → ℤ
meta_chan_compare a b sort_key = compare_int a.key b.key
meta_chan_compare a b sort_name = strcmp a.name b.name
meta_chan_compare a b sort_start_time = compare_int a.start_time b.start_time
meta_chan_compare a b sort_end_time = compare_int a.end_time b.end_time

-- "can only accept NMXP_META_SORT_KEY or NMXP_META_SORT_NAME".
abbrev pub accepted : SortType → SortType
accepted sort_name = sort_name
accepted other = sort_key

abbrev pub or_empty : Option Str → Str
or_empty none = []
or_empty (some s) = strncpy 12 s

-- The new item; NULL strings leave it empty.
unfoldable pub new_item : ℤ → Option Str → ℤ → ℤ → Option Str → MetaChan
new_item key name start_time end_time network = record {
  key = key;
  name = or_empty name;
  start_time = start_time;
  end_time = end_time;
  network = or_empty network;
}

-- The loop behind the first item, which stops at the end or where the new item is not above.
unfoldable pub insert_behind : MetaChan → List MetaChan → SortType → List MetaChan
insert_behind new [] t = new ∷ []
insert_behind new (x ∷ xs) t =
    let rest = insert_behind new xs t in
    if ltb_ℤ (pos 0) (meta_chan_compare new x t) then x ∷ rest else new ∷ x ∷ xs

-- The three ways to link the new item.
unfoldable pub insert : MetaChan → List MetaChan → SortType → List MetaChan
insert new [] t = new ∷ []
insert new (x ∷ xs) t =
    if ltb_ℤ (meta_chan_compare new x t) (pos 0) then new ∷ x ∷ xs else x ∷ insert_behind new xs t

-- `nmxp_meta_chan_add`: the new list.
unfoldable pub meta_chan_add :
    List MetaChan → ℤ → Option Str → ℤ → ℤ → Option Str → SortType → List MetaChan
meta_chan_add chan_list key name start_time end_time network t =
    insert (new_item key name start_time end_time network) chan_list (accepted t)

-- `nmxp_meta_chan_search_key`: the first item with the key.
unfoldable pub meta_chan_search_key : List MetaChan → ℤ → Option MetaChan
meta_chan_search_key [] key = none
meta_chan_search_key (x ∷ xs) key = if eqb_ℤ x.key key then some x else meta_chan_search_key xs key

-- A write to the item that the search returns.
unfoldable pub update_first : (MetaChan → MetaChan) → List MetaChan → ℤ → List MetaChan
update_first f [] key = []
update_first f (x ∷ xs) key = if eqb_ℤ x.key key then f x ∷ xs else x ∷ update_first f xs key

unfoldable pub meta_chan_set_name : List MetaChan → ℤ → Str → List MetaChan
meta_chan_set_name l key name = update_first (λ x. record x { name = strncpy 12 name }) l key

unfoldable pub meta_chan_set_times : List MetaChan → ℤ → ℤ → ℤ → List MetaChan
meta_chan_set_times l key start_time end_time =
    update_first (λ x. record x { start_time = start_time; end_time = end_time }) l key

unfoldable pub meta_chan_set_network : List MetaChan → ℤ → Str → List MetaChan
meta_chan_set_network l key network =
    update_first (λ x. record x { network = strncpy 12 network }) l key

-- The loop of `nmxp_meta_chan_free`, with `iter` and `iter_next`, and the list that is left. The loop ends
-- when `iter` is NULL. A round frees `iter`, moves it to `iter_next` and takes `next` of that; where
-- `iter_next` is NULL that reads through NULL, a fault (`none`).
unfoldable pub free_from : List MetaChan → List MetaChan → Option (List MetaChan)
free_from [] iter_next = some []
free_from (x ∷ iter) [] = none
free_from (x ∷ iter) (y ∷ next) = free_from (y ∷ next) next

-- `nmxp_meta_chan_free`: the list it leaves.
unfoldable pub meta_chan_free : List MetaChan → Option (List MetaChan)
meta_chan_free [] = some []
meta_chan_free (x ∷ xs) = free_from (x ∷ xs) xs
