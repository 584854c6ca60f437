-- ===== src/Word.antt =====
-- Machine integers of lib/nmxp_data.c and lib/nmxp_base.c: bytes in memory, as a host with either
-- byte order reads them, the swaps of the bytes, and int32_t sums that wrap around.
pub mod Laws
use nmxptool.Prelude.{
  ℕ, ◌+◌, ◌-◌, ◌*◌, ◌/◌, ◌%◌, ◌^◌, Bool, true, false, not, List, [], ◌∷◌, ltb, if◌then◌else◌,
}
use nmxptool.Prelude.Int.{ℤ, pos, negsuc, ◌+ℤ◌, ◌-ℤ◌}

-- The two, four or eight bytes of an object, in the order of their addresses.
pub record Two : Type 0 where
  pub b0 : ℕ
  pub b1 : ℕ

pub record Four : Type 0 where
  pub b0 : ℕ
  pub b1 : ℕ
  pub b2 : ℕ
  pub b3 : ℕ

pub record Eight : Type 0 where
  pub low : Four
  pub high : Four

-- `nmxp_data_swap_2b`, `nmxp_data_swap_4b` and `nmxp_data_swap_8b`.
unfoldable pub swap_2b : Two → Two
swap_2b w = record { b0 = w.b1; b1 = w.b0 }

unfoldable pub swap_4b : Four → Four
swap_4b w = record { b0 = w.b3; b1 = w.b2; b2 = w.b1; b3 = w.b0 }

unfoldable pub swap_8b : Eight → Eight
swap_8b w = record {
  low = record { b0 = w.high.b3; b1 = w.high.b2; b2 = w.high.b1; b3 = w.high.b0 };
  high = record { b0 = w.low.b3; b1 = w.low.b2; b2 = w.low.b1; b3 = w.low.b0 };
}

-- The unsigned number that a host reads from an object; `big` is its byte order.
abbrev pub load_2 : Bool → Two → ℕ
load_2 true w = 256 * w.b0 + w.b1
load_2 false w = w.b0 + 256 * w.b1

abbrev pub load_4 : Bool → Four → ℕ
load_4 true w = 16777216 * w.b0 + 65536 * w.b1 + 256 * w.b2 + w.b3
load_4 false w = w.b0 + 256 * w.b1 + 65536 * w.b2 + 16777216 * w.b3

-- The two's complement number whose bits are those of n, of twice `half` values.
abbrev pub signed : ℕ → ℕ → ℤ
signed half n = if ltb n half then pos n else negsuc (half + half - 1 - n)

abbrev pub signed_8 : ℕ → ℤ
signed_8 n = signed 128 n

abbrev pub signed_16 : ℕ → ℤ
signed_16 n = signed 32768 n

abbrev pub signed_32 : ℕ → ℤ
signed_32 n = signed 2147483648 n

-- A sum in int32_t.
abbrev pub wrap_32 : ℤ → ℤ
wrap_32 (pos n) = signed_32 (n % 4294967296)
wrap_32 (negsuc n) = signed_32 (4294967295 - n % 4294967296)

-- What the decoders read from the packet is little-endian: a big-endian host swaps it.
unfoldable pub little_2 : Bool → Two → ℤ
unfolding swap_2b
little_2 big w = signed_16 (load_2 big (if big then swap_2b w else w))

unfoldable pub little_4 : Bool → Four → ℤ
unfolding swap_4b
little_4 big w = signed_32 (load_4 big (if big then swap_4b w else w))
