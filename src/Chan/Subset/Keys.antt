-- ===== src/Chan/Subset/Keys.antt =====
-- nmxp_chan_subset selects no key twice, and only channels of the list with the asked data type.
use mathlib.Core.List.{Mem, mem-cons_self, mem-cons_of_mem}
use nmxptool.Prelude.{
  ℕ, ◌≡◌, ◌≢◌, refl, sym, subst, Bool, true, false, Option, none, some, List, [], ◌∷◌, ◌++◌, map,
  All, All-append, arith, Bool-cases, Option-cases, inl, inr, ◌==◌, ==_iff,
}
use nmxptool.Prelude.Int.{ℤ, pos, negsuc, eqb_ℤ}
use nmxptool.Text.{Str, c_str, strncpy}
use nmxptool.Chan.{ChanKey, ChanList, data_type_from_key, max_size_name, max_size_str_pattern}
use nmxptool.Chan.Name.{cpy_sta_chan}
use nmxptool.Chan.Match.{chan_match}
use nmxptool.Chan.Lookup.{name_from, lookup_name}
use nmxptool.Chan.Subset.{
  full_name, or_default, add_channel, select, select_all, subset, patterns_from,
}

-- No two entries have one key.
abbrev pub HasDistinctKeys : ChanList → Type 0
HasDistinctKeys [] = Unit {0}
HasDistinctKeys (c ∷ cs) = All (λ d. d.key ≢ c.key) cs × HasDistinctKeys cs

-- Every entry has a name.
abbrev pub AreNamed : ChanList → Type 0
AreNamed = All (λ c. c.name ≢ [])

eqb_refl : (a b : ℤ) → eqb_ℤ a b ≡ false → a ≢ b
eqb_refl a b h e = ground arith

take_ne_nil : (s : Str) → s ≢ [] → strncpy max_size_name s ≢ []
take_ne_nil [] h = h
take_ne_nil (c ∷ s) h = λ e. cc

-- A name that was found is only replaced by another one.
name_from-ne-nil :
    (ret : Str) (key : ℤ) (cs : ChanList) → AreNamed cs → ret ≢ [] → name_from ret key cs ≢ []
unfolding name_from
name_from-ne-nil ret key [] h k = k
name_from-ne-nil ret key (c ∷ cs) h k = elim (Bool-cases (eqb_ℤ key c.key)) [
  | inl e ↦
      rw e (name_from-ne-nil (strncpy max_size_name c.name) key cs h.1 (take_ne_nil c.name h.0))
  | inr e ↦ rw e (name_from-ne-nil ret key cs h.1 k)
]

-- NULL for a key means that the key is new.
lookup_name-none :
    (key : ℤ) (cs : ChanList) → AreNamed cs → name_from [] key cs ≡ [] → All (λ c. c.key ≢ key) cs
unfolding name_from
lookup_name-none key [] h e = tt
lookup_name-none key (c ∷ cs) h e = elim (Bool-cases (eqb_ℤ key c.key)) [
  | inl q ↦ absurd (
      name_from-ne-nil (strncpy max_size_name c.name) key cs h.1 (take_ne_nil c.name h.0)
        (rw q at e))
  | inr q ↦ ((λ p. eqb_refl key c.key q (sym p)), lookup_name-none key cs h.1 (rw q at e))
]

snoc-HasDistinctKeys :
    (cs : ChanList) (c : ChanKey)
    → HasDistinctKeys cs
    → All (λ d. d.key ≢ c.key) cs
    → HasDistinctKeys (cs ++ c ∷ [])
snoc-HasDistinctKeys [] c h k = (tt, tt)
snoc-HasDistinctKeys (d ∷ cs) c h k =
    (All-append _ cs (c ∷ []) h.0 ((λ e. k.0 (sym e)), tt), snoc-HasDistinctKeys cs c h.1 k.1)

full_name-ne-nil : (net name loc : Str) → full_name net name loc ≢ []
unfolding full_name
full_name-ne-nil [] name loc e = cc
full_name-ne-nil (c ∷ s) name loc e = cc

lookup_name_new :
    (key : ℤ) (cs : ChanList) → AreNamed cs → lookup_name key cs ≡ none → All (λ c. c.key ≢ key) cs
unfolding lookup_name
lookup_name_new key cs h e = lookup_name-none key cs h (nil_of (name_from [] key cs) e)
  where
    nil_of :
        (s : Str) → ◌≡◌ {A = Option Str} (elim s [ [] ↦ none | x ∷ t ↦ some (x ∷ t) ]) none → s ≡ []
    nil_of [] q = refl
    nil_of (x ∷ t) q = cc

abbrev AreListed : ChanList → ChanList → Type 0
AreListed channels = All (λ c. Mem c.key (map (λ d. d.key) channels))

module _ (channels : ChanList) (data_type : ℕ) (net loc : Str) where
  -- The key of the entry is that of a channel of the list, and has the data type.
  abbrev pub IsSelected : ChanKey → Type 0
  IsSelected c = (data_type_from_key c.key ≡ data_type) × Mem c.key (map (λ d. d.key) channels)

  pub record IsSubset (ret : ChanList) : Type 0 where
    pub distinct : HasDistinctKeys ret
    pub named : AreNamed ret
    pub selected : All IsSelected ret

  -- A result, if there is one, is a subset.
  abbrev OnSome : Option ChanList → Type 0
  OnSome none = Unit {0}
  OnSome (some r) = IsSubset r

  added :
      (c : ChanKey) (name : Str) (ret : ChanList)
      → IsSubset ret
      → IsSelected c
      → name ≢ []
      → lookup_name c.key ret ≡ none
      → IsSubset (ret ++ record { key = c.key; name = name } ∷ [])
  added c name ret v s h e = record {
    distinct = snoc-HasDistinctKeys ret _ v.distinct (lookup_name_new c.key ret v.named e);
    named = All-append _ ret _ v.named (h, tt);
    selected = All-append _ ret _ v.selected (s, tt);
  }

  add_channel-IsSubset :
      (pattern : Str) (c : ChanKey) (ret : ChanList)
      → IsSubset ret
      → Mem c.key (map (λ d. d.key) channels)
      → OnSome (add_channel data_type net loc pattern c ret)
  unfolding add_channel
  add_channel-IsSubset pattern c ret v m =
      elim (Bool-cases (data_type_from_key c.key == data_type)) [
        | inl e ↦ rw e (elim (Option-cases (lookup_name c.key ret)) [
          | inl q ↦
              rw q
                (elim (Option-cases
                  (c_str max_size_str_pattern (cpy_sta_chan pattern).1.network_code)) [
                    | inl a ↦ rw a tt
                    | inr (n, a) ↦
                        rw a
                          (elim (Option-cases
                            (c_str max_size_str_pattern (cpy_sta_chan pattern).1.location_code)) [
                              | inl b ↦ rw b tt
                              | inr (l, b) ↦ rw b (
                                  added c _ ret v ((==_iff _ _).0 e, m)
                                    (full_name-ne-nil (or_default n net) c.name (or_default l loc))
                                    q)
                            ])
                  ])
          | inr (name, q) ↦ rw q v
        ])
        | inr e ↦ rw e v
      ]

  -- The rest of the loop, once the channel has been matched.
  after_match :
      (pattern : Str) (c : ChanKey) (cs ret : ChanList) (o : Option ℤ)
      → IsSubset ret
      → Mem c.key (map (λ d. d.key) channels)
      → ((r : ChanList) → IsSubset r → OnSome (select data_type net loc pattern cs r))
      → OnSome (elim o [
        | none ↦ none
        | some r ↦ elim (eqb_ℤ r (pos 1)) [
          | true ↦ elim (add_channel data_type net loc pattern c ret) [
            | none ↦ none
            | some ret' ↦ select data_type net loc pattern cs ret'
          ]
          | false ↦ elim (eqb_ℤ r (negsuc 0)) [
            | true ↦ some ret
            | false ↦ select data_type net loc pattern cs ret
          ]
        ]
      ])
  after_match pattern c cs ret none v m k = tt
  after_match pattern c cs ret (some r) v m k = by_result (eqb_ℤ r (pos 1)) (eqb_ℤ r (negsuc 0))
    where
      after_add :
          (o : Option ChanList)
          → OnSome o
          → OnSome (elim o [ none ↦ none | some ret' ↦ select data_type net loc pattern cs ret' ])
      after_add none h = tt
      after_add (some ret') h = k ret' h

      by_result :
          (one stop : Bool)
          → OnSome (elim one [
            | true ↦ elim (add_channel data_type net loc pattern c ret) [
              | none ↦ none
              | some ret' ↦ select data_type net loc pattern cs ret'
            ]
            | false ↦ elim stop [
              | true ↦ some ret
              | false ↦ select data_type net loc pattern cs ret
            ]
          ])
      by_result true stop =
          after_add (add_channel data_type net loc pattern c ret)
            (add_channel-IsSubset pattern c ret v m)
      by_result false true = v
      by_result false false = k ret v

  select-IsSubset :
      (pattern : Str) (cs ret : ChanList)
      → AreListed channels cs
      → IsSubset ret
      → OnSome (select data_type net loc pattern cs ret)
  unfolding select
  select-IsSubset pattern [] ret m v = v
  select-IsSubset pattern (c ∷ cs) ret m v =
      after_match pattern c cs ret (chan_match c.name pattern) v m.0
        (λ r w. select-IsSubset pattern cs r m.1 w)

  select_all-IsSubset :
      (ps : List Str) (ret : ChanList)
      → AreListed channels channels
      → IsSubset ret
      → OnSome (select_all data_type net loc ps channels ret)
  unfolding select_all
  select_all-IsSubset [] ret m v = v
  select_all-IsSubset (p ∷ ps) ret m v =
      after_copy (c_str 100 p) (λ r w. select_all-IsSubset ps r m w)
    where
      after_select :
          (o : Option ChanList)
          → OnSome o
          → ((r : ChanList) → IsSubset r → OnSome (select_all data_type net loc ps channels r))
          → OnSome
              (elim o [ none ↦ none | some ret' ↦ select_all data_type net loc ps channels ret' ])
      after_select none h k = tt
      after_select (some r) h k = k r h

      after_copy :
          (o : Option Str)
          → ((r : ChanList) → IsSubset r → OnSome (select_all data_type net loc ps channels r))
          → OnSome (elim o [
            | none ↦ none
            | some pattern ↦ elim (select data_type net loc pattern channels ret) [
              | none ↦ none
              | some ret' ↦ select_all data_type net loc ps channels ret'
            ]
          ])
      after_copy none k = tt
      after_copy (some pattern) k =
          after_select (select data_type net loc pattern channels ret)
            (select-IsSubset pattern channels ret m v) k

listed_self :
    (cs ds : ChanList)
    → ((k : ℤ) → Mem k (map (λ d. d.key) cs) → Mem k (map (λ d. d.key) ds))
    → AreListed ds cs
listed_self [] ds h = tt
listed_self (c ∷ cs) ds h =
    (h c.key mem-cons_self, listed_self cs ds (λ k m. h k (mem-cons_of_mem c.key m)))

-- A list that nmxp_chan_subset returns has no key twice, a name for each entry, and only keys of
-- channels of the given list that have the asked data type.
pub subset-IsSubset :
    (data_type : ℕ) (net loc : Str) (channels : ChanList) (sta_chan_list : Str) (r : ChanList)
    → subset data_type net loc channels sta_chan_list ≡ some r
    → IsSubset channels data_type net loc r
unfolding subset
subset-IsSubset data_type net loc channels sta_chan_list r e =
    subst (OnSome channels data_type net loc) e (
      select_all-IsSubset channels data_type net loc (patterns_from [] sta_chan_list) []
        (listed_self channels channels (λ k m. m))
        (record { distinct = tt; named = tt; selected = tt }))
