-- ===== src/Session/Lists.antt =====
-- The structures that the server sends: NMXP_CHAN_LIST, NMXP_CHAN_PRECISLIST and
-- NMXP_CHANNELINFORESPONSE, as lib/nmxp.c reads them from a block of the size of the message.
pub mod Roundtrip
use nmxptool.Prelude.{
  ℕ, zero, suc, ◌+◌, ◌-◌, ◌==◌, Bool, true, false, Option, none, some, List, [], ◌∷◌, length, drop,
  ltb, if◌then◌else◌,
}
use nmxptool.Prelude.Int.{ℤ, pos_part}
use nmxptool.Text.{Str}
use nmxptool.Chan.{ChanKey, ChanList}
use nmxptool.Decode.{ntohl_at}

-- strncpy() from an array inside a block: it stops at a terminator or after n bytes, and `none` is a
-- read past the end of the block.
unfoldable pub array_str : ℕ → List ℕ → Option Str
array_str zero xs = some []
array_str (suc n) [] = none
array_str (suc n) (x ∷ xs) =
    let rest = array_str n xs in
    if x == 0 then some [] else elim rest [ none ↦ none | some s ↦ some (x ∷ s) ]

-- NMXP_CHAN_KEY: sixteen bytes.
unfoldable pub read_channel : List ℕ → Option ChanKey
read_channel xs = if ltb (length xs) 4 then none else elim (array_str 12 (drop 4 xs)) [
  | none ↦ none
  | some name ↦ some (record { key = ntohl_at xs 0; name = name })
]

-- NMXP_CHAN_PRECISITEM, 24 bytes, without its name, which is only logged.
pub record PrecisItem : Type 0 where
  pub key : ℤ
  pub start_time : ℤ
  pub end_time : ℤ

unfoldable pub read_precis : List ℕ → Option PrecisItem
read_precis xs =
    if ltb (length xs) 24
    then none
    else some
        (record { key = ntohl_at xs 0; start_time = ntohl_at xs 16; end_time = ntohl_at xs 20 })

-- A loop over `n` items of `size` bytes.
unfoldable pub read_items : {A : Type 0} → (List ℕ → Option A) → ℕ → ℕ → List ℕ → Option (List A)
read_items read size zero xs = some []
read_items read size (suc n) xs =
    let rest = read_items read size n (drop size xs) in
    elim (read xs) [
      | none ↦ none
      | some a ↦ elim rest [ none ↦ none | some items ↦ some (a ∷ items) ]
    ]

-- The structures with a number in front. No item is read when it is negative.
unfoldable pub read_list : {A : Type 0} → (List ℕ → Option A) → ℕ → List ℕ → Option (List A)
read_list read size xs =
    if ltb (length xs) 4 then none else read_items read size (pos_part (ntohl_at xs 0)) (drop 4 xs)

unfoldable pub read_channel_list : List ℕ → Option ChanList
read_channel_list xs = read_list read_channel 16 xs

unfoldable pub read_precis_list : List ℕ → Option (List PrecisItem)
read_precis_list xs = read_list read_precis 24 xs

-- NMXP_CHANNELINFORESPONSE: the key and the network.
unfoldable pub read_channel_info : List ℕ → Option (ℤ × Str)
read_channel_info xs = if ltb (length xs) 4 then none else elim (array_str 12 (drop 16 xs)) [
  | none ↦ none
  | some network ↦ some (ntohl_at xs 0, network)
]
