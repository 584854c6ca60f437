-- ===== src/Chan.antt =====
-- lib/nmxp_chan.c and include/nmxp_chan.h: channel names, keys and lists.
mod Tests
pub mod Name
pub mod Match
pub mod Lookup
pub mod Subset
pub mod Meta
use nmxptool.Prelude.{ℕ, ◌/◌, ◌%◌, ◌^◌, ◌-◌, List}
use nmxptool.Prelude.Int.{ℤ, pos, negsuc}
use nmxptool.Text.{Str}

-- NMXP_CHAN_MAX_SIZE_STR_PATTERN and NMXP_CHAN_MAX_SIZE_NAME.
abbrev pub max_size_str_pattern : ℕ
max_size_str_pattern = 20

abbrev pub max_size_name : ℕ
max_size_name = 24

-- NMXP_CHAN_KEY and NMXP_CHAN_KEY_NET; a list is NMXP_CHAN_LIST or NMXP_CHAN_LIST_NET.
pub record ChanKey : Type 0 where
  pub key : ℤ
  pub name : Str

abbrev pub ChanList : Type 0
ChanList = List ChanKey

-- The bit pattern of an int32_t.
abbrev pub word32 : ℤ → ℕ
word32 (pos n) = n % 2 ^ 32
word32 (negsuc n) = 2 ^ 32 - 1 - n % 2 ^ 32

-- getDataTypeFromKey(key): bits 8 to 15.
unfoldable pub data_type_from_key : ℤ → ℕ
data_type_from_key key = word32 key / 256 % 256
