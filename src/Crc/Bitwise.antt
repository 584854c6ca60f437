-- ===== src/Crc/Bitwise.antt =====
-- The table of lib/nmxp_crc32.c against the checksum bit by bit.
use nmxptool.Prelude.{
  ℕ, zero, suc, ◌+◌, ◌*◌, ◌/◌, ◌%◌, ◌<◌, ◌≡◌, refl, sym, ◌∙◌, ap, ap₂, bit_and, bit_xor, false, inl,
  inr, List, [], ◌∷◌, All, get_or, ◌==◌, if◌then◌else◌, Bool-cases, arith,
}
use nmxptool.Crc.{polynomial, half_step, fill_every, fill_table, crc32_table, crc32_loop, crc32}
use nmxptool.Crc.Bits.{xor_step, xor_half, xor_low, xor_zero, xor_zero_left, xor_swap, and_255}

-- One bit of a reflected checksum: shift, and subtract the polynomial if a one goes out.
abbrev pub bit_step : ℕ → ℕ
bit_step r = if r % 2 == 1 then bit_xor (r / 2) polynomial else r / 2

abbrev pub bit_steps : ℕ → ℕ → ℕ
bit_steps zero r = r
bit_steps (suc n) r = bit_steps n (bit_step r)

-- The checksum bit by bit, with no table.
abbrev pub crc_bits : ℕ → List ℕ → ℕ
crc_bits crc [] = crc
crc_bits crc (b ∷ s) = crc_bits (bit_steps 8 (bit_xor crc b)) s

abbrev pub crc_bitwise : ℕ → List ℕ → ℕ
crc_bitwise crc s = bit_xor (crc_bits (bit_xor crc 4294967295) s) 4294967295

abbrev tabulate : (ℕ → ℕ) → ℕ → ℕ → List ℕ
tabulate f i zero = []
tabulate f i (suc n) = f i ∷ tabulate f (suc i) n

get_or-tabulate : (f : ℕ → ℕ) (i n k j : ℕ) → k < n → j ≡ i + k → get_or (tabulate f i n) k 0 ≡ f j
get_or-tabulate f i zero k j h e = absurd (omega arith)
get_or-tabulate f i (suc n) zero j h e = ap f (omega arith)
get_or-tabulate f i (suc n) (suc k) j h e =
    get_or-tabulate f (suc i) n k j (omega arith) (omega arith)

table-tabulate : crc32_table ≡ tabulate (bit_steps 8) 0 256
unfolding half_step fill_every fill_table crc32_table
table-tabulate = refl

-- A cell of the table is the checksum step of its index, bit by bit.
pub crc32_table-steps : (i : ℕ) → i < 256 → get_or crc32_table i 0 ≡ bit_steps 8 i
crc32_table-steps i h =
    ap (λ t. get_or t i 0) table-tabulate ∙ get_or-tabulate (bit_steps 8) 0 256 i i h (omega arith)

-- What is added when a bit goes out.
mask : ℕ → ℕ
mask b = if b == 1 then polynomial else 0

bit_step-mask : (r : ℕ) → bit_step r ≡ bit_xor (r / 2) (mask (r % 2))
unfolding mask
bit_step-mask r = elim (Bool-cases (r % 2 == 1)) [
  | inl e ↦ rw e refl
  | inr e ↦ rw e (sym (xor_zero (r / 2)))
]

mask-xor : (x y : ℕ) → x < 2 → y < 2 → mask ((x + y) % 2) ≡ bit_xor (mask x) (mask y)
unfolding mask
mask-xor zero zero h k = refl
mask-xor zero (suc zero) h k = refl
mask-xor (suc zero) zero h k = refl
mask-xor (suc zero) (suc zero) h k = refl
mask-xor (suc (suc x)) y h k = absurd (omega arith)
mask-xor zero (suc (suc y)) h k = absurd (omega arith)
mask-xor (suc zero) (suc (suc y)) h k = absurd (omega arith)

-- The steps respect sums of bits.
bit_step-xor : (a b : ℕ) → bit_step (bit_xor a b) ≡ bit_xor (bit_step a) (bit_step b)
bit_step-xor a b =
    bit_step-mask (bit_xor a b)
    ∙ ap₂ bit_xor (xor_half a b)
        (ap mask (xor_low a b) ∙ mask-xor (a % 2) (b % 2) (omega arith) (omega arith))
    ∙ xor_swap (a / 2) (b / 2) (mask (a % 2)) (mask (b % 2))
    ∙ ap₂ bit_xor (sym (bit_step-mask a)) (sym (bit_step-mask b))

bit_steps-xor : (n a b : ℕ) → bit_steps n (bit_xor a b) ≡ bit_xor (bit_steps n a) (bit_steps n b)
bit_steps-xor zero a b = refl
bit_steps-xor (suc n) a b =
    ap (bit_steps n) (bit_step-xor a b) ∙ bit_steps-xor n (bit_step a) (bit_step b)

bit_step-even : (r k : ℕ) → r ≡ 2 * k → bit_step r ≡ k
bit_step-even r k h = rw (even r k h) (omega arith)
  where
    even : (r k : ℕ) → r ≡ 2 * k → (r % 2 == 1) ≡ false
    even r k h = ground arith

-- Eight zeros go out unchanged.
bit_steps-shift : (h : ℕ) → bit_steps 8 (256 * h) ≡ h
bit_steps-shift h =
    ap (bit_steps 7) (bit_step-even (256 * h) (128 * h) (omega arith))
    ∙ ap (bit_steps 6) (bit_step-even (128 * h) (64 * h) (omega arith))
    ∙ ap (bit_steps 5) (bit_step-even (64 * h) (32 * h) (omega arith))
    ∙ ap (bit_steps 4) (bit_step-even (32 * h) (16 * h) (omega arith))
    ∙ ap (bit_steps 3) (bit_step-even (16 * h) (8 * h) (omega arith))
    ∙ ap (bit_steps 2) (bit_step-even (8 * h) (4 * h) (omega arith))
    ∙ ap (bit_steps 1) (bit_step-even (4 * h) (2 * h) (omega arith))
    ∙ bit_step-even (2 * h) h refl

low_bit : (a g h : ℕ) → g ≡ 2 * h → bit_xor a g ≡ bit_xor (a / 2) h * 2 + a % 2
low_bit a g h e = omega (arith, xor_step a g, ap (bit_xor (a / 2)) (half g h e))
  where
    half : (g h : ℕ) → g ≡ 2 * h → g / 2 ≡ h
    half g h e = omega arith

-- Low and high bits side by side.
xor-disjoint : (a h : ℕ) → a < 256 → bit_xor a (256 * h) ≡ a + 256 * h
xor-disjoint a h l = omega (
  arith,
  low_bit a (256 * h) (128 * h) (omega arith),
  low_bit (a / 2) (128 * h) (64 * h) (omega arith),
  low_bit (a / 2 / 2) (64 * h) (32 * h) (omega arith),
  low_bit (a / 2 / 2 / 2) (32 * h) (16 * h) (omega arith),
  low_bit (a / 2 / 2 / 2 / 2) (16 * h) (8 * h) (omega arith),
  low_bit (a / 2 / 2 / 2 / 2 / 2) (8 * h) (4 * h) (omega arith),
  low_bit (a / 2 / 2 / 2 / 2 / 2 / 2) (4 * h) (2 * h) (omega arith),
  low_bit (a / 2 / 2 / 2 / 2 / 2 / 2 / 2) (2 * h) h refl,
  ap (λ z. bit_xor z h) (gone a l),
  xor_zero_left h,
)
  where
    gone : (a : ℕ) → a < 256 → a / 2 / 2 / 2 / 2 / 2 / 2 / 2 / 2 ≡ 0
    gone a l = omega arith

-- A byte leaves the bits above it alone.
xor-high : (a b : ℕ) → b < 256 → bit_xor a b / 256 ≡ a / 256
xor-high a b l = omega (
  arith,
  xor_half a b,
  xor_half (a / 2) (b / 2),
  xor_half (a / 2 / 2) (b / 2 / 2),
  xor_half (a / 2 / 2 / 2) (b / 2 / 2 / 2),
  xor_half (a / 2 / 2 / 2 / 2) (b / 2 / 2 / 2 / 2),
  xor_half (a / 2 / 2 / 2 / 2 / 2) (b / 2 / 2 / 2 / 2 / 2),
  xor_half (a / 2 / 2 / 2 / 2 / 2 / 2) (b / 2 / 2 / 2 / 2 / 2 / 2),
  xor_half (a / 2 / 2 / 2 / 2 / 2 / 2 / 2) (b / 2 / 2 / 2 / 2 / 2 / 2 / 2),
  ap (bit_xor (a / 2 / 2 / 2 / 2 / 2 / 2 / 2 / 2)) (gone b l),
  xor_zero (a / 2 / 2 / 2 / 2 / 2 / 2 / 2 / 2),
)
  where
    gone : (a : ℕ) → a < 256 → a / 2 / 2 / 2 / 2 / 2 / 2 / 2 / 2 ≡ 0
    gone a l = omega arith

-- The step of the code for one byte.
byte_step :
    (crc b : ℕ)
    → b < 256
    → bit_xor (get_or crc32_table (bit_and (bit_xor crc b) 255) 0) (crc / 256)
      ≡ bit_steps 8 (bit_xor crc b)
byte_step crc b l =
    let x = bit_xor crc b in
    ap₂ bit_xor
      (ap (λ i. get_or crc32_table i 0) (and_255 x) ∙ crc32_table-steps (x % 256) (omega arith))
      (sym (xor-high crc b l) ∙ sym (bit_steps-shift (x / 256)))
    ∙ sym (bit_steps-xor 8 (x % 256) (256 * (x / 256)))
    ∙ ap (bit_steps 8) (xor-disjoint (x % 256) (x / 256) (omega arith) ∙ omega arith)

crc32_loop-crc_bits :
    (crc : ℕ) (s : List ℕ) → All (λ b. b < 256) s → crc32_loop crc32_table crc s ≡ crc_bits crc s
unfolding crc32_loop
crc32_loop-crc_bits crc [] h = refl
crc32_loop-crc_bits crc (b ∷ s) h =
    ap (λ r. crc32_loop crc32_table r s) (byte_step crc b h.0)
    ∙ crc32_loop-crc_bits (bit_steps 8 (bit_xor crc b)) s h.1

-- The checksum of any string of bytes, by the table, is the one that is computed bit by bit: each bit is
-- shifted out, and the polynomial is added when it is a one.
pub crc32-crc_bitwise :
    (crc : ℕ) (s : List ℕ) → All (λ b. b < 256) s → crc32 crc s ≡ crc_bitwise crc s
unfolding crc32
crc32-crc_bitwise crc s h =
    ap (λ r. bit_xor r 4294967295) (crc32_loop-crc_bits (bit_xor crc 4294967295) s h)
