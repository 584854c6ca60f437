-- ===== src/Chan/Meta/Order.antt =====
-- nmxp_meta_chan_add keeps the list in order; searches and writes.
use mathlib.Core.List.Perm
use nmxptool.Prelude.{
  ◌≡◌, ◌≢◌, inl, inr, refl, sym, ◌∙◌, true, false, Option, none, some, List, [], ◌∷◌, All, Perm,
  arith, Bool-cases,
}
use nmxptool.Prelude.Each.{All_mono, All-perm}
use nmxptool.Prelude.Int.{ℤ, pos, ◌≤ℤ◌, ltb_ℤ, eqb_ℤ}
use native.Mathlib.Bridge.{le_prop}
use nmxptool.Text.{Str}
use nmxptool.Chan.Meta.{
  MetaChan, SortType, sort_key, sort_name, compare_int, meta_chan_compare, accepted, new_item,
  insert_behind, insert, meta_chan_add, meta_chan_search_key, update_first,
}

-- The order of the keys, for a list sorted by key.
abbrev pub IsSortedByKey : List MetaChan → Type 0
IsSortedByKey [] = Unit {0}
IsSortedByKey (x ∷ xs) = All (λ y. x.key ≤ℤ y.key) xs × IsSortedByKey xs

insert_behind-perm :
    (new : MetaChan) (xs : List MetaChan) (t : SortType) → Perm (insert_behind new xs t) (new ∷ xs)
unfolding insert_behind
insert_behind-perm new [] t = Perm.rfl
insert_behind-perm new (x ∷ xs) t = elim (Bool-cases (ltb_ℤ (pos 0) (meta_chan_compare new x t))) [
  | inl e ↦ rw e (Perm.trans (Perm.cons x (insert_behind-perm new xs t)) (Perm.swap new x xs))
  | inr e ↦ rw e Perm.rfl
]

insert-perm :
    (new : MetaChan) (xs : List MetaChan) (t : SortType) → Perm (insert new xs t) (new ∷ xs)
unfolding insert
insert-perm new [] t = Perm.rfl
insert-perm new (x ∷ xs) t = elim (Bool-cases (ltb_ℤ (meta_chan_compare new x t) (pos 0))) [
  | inl e ↦ rw e Perm.rfl
  | inr e ↦ rw e (Perm.trans (Perm.cons x (insert_behind-perm new xs t)) (Perm.swap new x xs))
]

-- The list afterwards holds the new item and the old ones, each as often as before.
pub meta_chan_add-perm :
    (l : List MetaChan) (key : ℤ) (name : Option Str) (start_time end_time : ℤ)
    (network : Option Str) (t : SortType)
    → Perm
        (meta_chan_add l key name start_time end_time network t)
        (new_item key name start_time end_time network ∷ l)
unfolding meta_chan_add
meta_chan_add-perm l key name start_time end_time network t =
    insert-perm (new_item key name start_time end_time network) l (accepted t)

above_first : (a b : ℤ) → ltb_ℤ (pos 0) (compare_int a b) ≡ true → b ≤ℤ a
unfolding compare_int
above_first a b h = ground arith

not_above : (a b : ℤ) → ltb_ℤ (pos 0) (compare_int a b) ≡ false → a ≤ℤ b
unfolding compare_int
not_above a b h = ground arith

below_first : (a b : ℤ) → ltb_ℤ (compare_int a b) (pos 0) ≡ true → a ≤ℤ b
unfolding compare_int
below_first a b h = ground arith

not_below : (a b : ℤ) → ltb_ℤ (compare_int a b) (pos 0) ≡ false → b ≤ℤ a
unfolding compare_int
not_below a b h = ground arith

front-IsSorted :
    (new x : MetaChan) (xs : List MetaChan)
    → new.key ≤ℤ x.key
    → IsSortedByKey (x ∷ xs)
    → IsSortedByKey (new ∷ x ∷ xs)
front-IsSorted new x xs h s = ((h, All_mono (λ y. x.key ≤ℤ y.key) _ xs (λ y k. omega arith) s.0), s)

insert_behind-IsSorted :
    (new : MetaChan) (xs : List MetaChan)
    → IsSortedByKey xs
    → IsSortedByKey (insert_behind new xs sort_key)
unfolding insert_behind meta_chan_compare
insert_behind-IsSorted new [] s = (tt, tt)
insert_behind-IsSorted new (x ∷ xs) s =
    elim (Bool-cases (ltb_ℤ (pos 0) (compare_int new.key x.key))) [
      | inl e ↦ rw e (
        All-perm (λ y. x.key ≤ℤ y.key) (λ y. le_prop)
            (Perm.symm (insert_behind-perm new xs sort_key)) (above_first _ _ e, s.0),
        insert_behind-IsSorted new xs s.1,
      )
      | inr e ↦ rw e (front-IsSorted new x xs (not_above _ _ e) s)
    ]

insert-IsSorted :
    (new : MetaChan) (xs : List MetaChan)
    → IsSortedByKey xs
    → IsSortedByKey (insert new xs sort_key)
unfolding insert meta_chan_compare
insert-IsSorted new [] s = (tt, tt)
insert-IsSorted new (x ∷ xs) s = elim (Bool-cases (ltb_ℤ (compare_int new.key x.key) (pos 0))) [
  | inl e ↦ rw e (front-IsSorted new x xs (below_first _ _ e) s)
  | inr e ↦ rw e (
    All-perm (λ y. x.key ≤ℤ y.key) (λ y. le_prop) (Perm.symm (insert_behind-perm new xs sort_key))
        (not_below _ _ e, s.0),
    insert_behind-IsSorted new xs s.1,
  )
]

-- Adding an item in any order but that of the names, to a list sorted by key, gives a list sorted
-- by key.
pub meta_chan_add-IsSorted :
    (l : List MetaChan) (key : ℤ) (name : Option Str) (start_time end_time : ℤ)
    (network : Option Str) (t : SortType)
    → t ≢ sort_name
    → IsSortedByKey l
    → IsSortedByKey (meta_chan_add l key name start_time end_time network t)
unfolding meta_chan_add
meta_chan_add-IsSorted l key name start_time end_time network sort_name h s = absurd (h refl)
meta_chan_add-IsSorted l key name start_time end_time network other h s =
    insert-IsSorted (new_item key name start_time end_time network) l s

abbrev pub map_option : (MetaChan → MetaChan) → Option MetaChan → Option MetaChan
map_option f none = none
map_option f (some x) = some (f x)

eqb_ℤ-≡ : (a b : ℤ) → eqb_ℤ a b ≡ true → a ≡ b
eqb_ℤ-≡ a b h = ground arith

eqb_ℤ-self : (a : ℤ) → eqb_ℤ a a ≡ true
eqb_ℤ-self a = ground arith

-- After a write that keeps the key, to the item found by a key, a search for that key finds what
-- the write made of the item found before.
pub search-update :
    (f : MetaChan → MetaChan) (l : List MetaChan) (key : ℤ)
    → ((x : MetaChan) → (f x).key ≡ x.key)
    → meta_chan_search_key (update_first f l key) key ≡ map_option f (meta_chan_search_key l key)
unfolding meta_chan_search_key update_first
search-update f [] key h = refl
search-update f (x ∷ xs) key h = elim (Bool-cases (eqb_ℤ x.key key)) [
  | inl e ↦ rw (e, h x, e) refl
  | inr e ↦ rw (e, e) (search-update f xs key h)
]

-- A search for another key sees no change.
pub search-update_other :
    (f : MetaChan → MetaChan) (l : List MetaChan) (key j : ℤ)
    → ((x : MetaChan) → (f x).key ≡ x.key)
    → j ≢ key
    → meta_chan_search_key (update_first f l key) j ≡ meta_chan_search_key l j
unfolding meta_chan_search_key update_first
search-update_other f [] key j h n = refl
search-update_other f (x ∷ xs) key j h n = elim (Bool-cases (eqb_ℤ x.key key)) [
  | inl e ↦ elim (Bool-cases (eqb_ℤ x.key j)) [
    | inl q ↦ absurd (n (sym (eqb_ℤ-≡ x.key j q) ∙ eqb_ℤ-≡ x.key key e))
    | inr q ↦ rw (e, h x, q) refl
  ]
  | inr e ↦ rw e (rw (search-update_other f xs key j h n) refl)
]
