-- ===== src/Crc.antt =====
-- lib/nmxp_crc32.c: the checksum of a connection request.
mod Tests
pub mod Bits
pub mod Bitwise
use nmxptool.Prelude.{
  ℕ, zero, suc, ◌+◌, ◌*◌, ◌/◌, ◌%◌, bit_and, bit_xor, List, [], ◌∷◌, get_or, set, replicate, ◌==◌,
  if◌then◌else◌,
}

-- POLYNOMIAL, 0xedb88320.
abbrev pub polynomial : ℕ
polynomial = 3988292384

-- `(h >> 1) ^ ((h & 1) ? POLYNOMIAL : 0)`.
unfoldable pub half_step : ℕ → ℕ
half_step h = bit_xor (h / 2) (if bit_and h 1 == 1 then polynomial else 0)

-- The loop over j: `n` rounds from j on, in steps of 2 * i.
unfoldable pub fill_every : ℕ → ℕ → ℕ → ℕ → List ℕ → List ℕ
fill_every zero i j h tab = tab
fill_every (suc n) i j h tab =
    fill_every n i (j + 2 * i) h (set tab (i + j) (bit_xor (get_or tab j 0) h))

-- The loop over i, which is halved until it is 0; 128 takes eight rounds.
unfoldable pub fill_table : ℕ → ℕ → ℕ → List ℕ → List ℕ
fill_table zero i h tab = tab
fill_table (suc fuel) i h tab =
    let h' = half_step h in fill_table fuel (i / 2) h' (fill_every (256 / (2 * i)) i 0 h' tab)

-- `crc32_init_table`: only cells that have been written are read.
unfoldable pub crc32_table : List ℕ
crc32_table = fill_table 8 128 1 (replicate 256 0)

-- The loop over the bytes. A byte that is a negative `char` is extended, of which the mask keeps nothing.
unfoldable pub crc32_loop : List ℕ → ℕ → List ℕ → ℕ
crc32_loop tab crc [] = crc
crc32_loop tab crc (b ∷ s) =
    crc32_loop tab (bit_xor (get_or tab (bit_and (bit_xor crc b) 255) 0) (crc / 256)) s

unfoldable pub crc32 : ℕ → List ℕ → ℕ
crc32 crc s = bit_xor (crc32_loop crc32_table (bit_xor crc 4294967295) s) 4294967295
