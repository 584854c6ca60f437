-- ===== src/Crc/Tests.antt =====
-- The checksum of "123456789".
use nmxptool.Prelude.{ℕ, ◌≡◌, refl, List, [], ◌∷◌, arith}
use nmxptool.Crc.{half_step, fill_every, fill_table, crc32_table, crc32_loop, crc32}
use nmxptool.Crc.Bitwise.{crc_bitwise, crc32-crc_bitwise}

abbrev check_string : List ℕ
check_string = b'1' ∷ b'2' ∷ b'3' ∷ b'4' ∷ b'5' ∷ b'6' ∷ b'7' ∷ b'8' ∷ b'9' ∷ []

-- The value that tables of checksums give for it.
check_value : crc32 0 check_string ≡ 3421780262
unfolding half_step fill_every fill_table crc32_table crc32_loop crc32
check_value = refl

crc32-crc_bitwise_example : crc32 0 check_string ≡ crc_bitwise 0 check_string
crc32-crc_bitwise_example = crc32-crc_bitwise 0 check_string (
  omega arith,
  (
    omega arith,
    (
      omega arith,
      (omega arith, (omega arith, (omega arith, (omega arith, (omega arith, (omega arith, tt)))))),
    ),
  ),
)
