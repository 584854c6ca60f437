-- ===== src/Word/Laws.antt =====
-- The swaps are involutions, the readings of either host agree, and a signed number has its bits.
use nmxptool.Prelude.{◌+◌, ◌≤◌, ◌<◌, ◌≡◌, refl, ap, ◌⊎◌, Bool, true, false, arith}
use nmxptool.Prelude.Int.{
  ℤ, pos, negsuc, pos_part, neg_part, ◌+ℤ◌, ◌-ℤ◌, -ℤ_parts, +ℤ_parts, eq_of_parts,
}
use nmxptool.Word.{
  Two, Four, Eight, swap_2b, swap_4b, swap_8b, signed_16, signed_32, wrap_32, little_2, little_4,
}

pub swap_2b_twice : (w : Two) → swap_2b (swap_2b w) ≡ w
unfolding swap_2b
swap_2b_twice w = refl

pub swap_4b_twice : (w : Four) → swap_4b (swap_4b w) ≡ w
unfolding swap_4b
swap_4b_twice w = refl

pub swap_8b_twice : (w : Eight) → swap_8b (swap_8b w) ≡ w
unfolding swap_8b
swap_8b_twice w = refl

pub little_2_host : (big : Bool) (w : Two) → little_2 big w ≡ little_2 false w
unfolding little_2 swap_2b
little_2_host true w = ap signed_16 (omega arith)
little_2_host false w = refl

pub little_4_host : (big : Bool) (w : Four) → little_4 big w ≡ little_4 false w
unfolding little_4 swap_4b
little_4_host true w = ap signed_32 (omega arith)
little_4_host false w = refl

-- A number in the range of an int32_t.
abbrev pub IsInt32 : ℤ → Type 0
IsInt32 z = (pos_part z < 2147483648) × (neg_part z ≤ 2147483648)

pub wrap_32-id : (z : ℤ) → IsInt32 z → wrap_32 z ≡ z
wrap_32-id (pos n) h = ground arith
wrap_32-id (negsuc n) h = ground arith

pub wrap_32-IsInt32 : (z : ℤ) → IsInt32 (wrap_32 z)
wrap_32-IsInt32 (pos n) = ground arith
wrap_32-IsInt32 (negsuc n) = ground arith

-- Two numbers that are equal or differ by 2 ^ 32.
abbrev IsNear : ℤ → ℤ → Type 0
IsNear y z =
    (pos_part y + neg_part z ≡ neg_part y + pos_part z)
    ⊎ ((pos_part y + neg_part z + 4294967296 ≡ neg_part y + pos_part z)
        ⊎ (pos_part y + neg_part z ≡ neg_part y + pos_part z + 4294967296))

wrap_32-IsNear : (z : ℤ) → pos_part z < 6442450944 → neg_part z < 6442450944 → IsNear (wrap_32 z) z
wrap_32-IsNear (pos n) h k = ground arith
wrap_32-IsNear (negsuc n) h k = ground arith

bound_sub :
    (a b : ℤ)
    → (pos_part (a -ℤ b) ≤ pos_part a + neg_part b) × (neg_part (a -ℤ b) ≤ neg_part a + pos_part b)
unfolding ◌-ℤ◌
bound_sub a b = ground arith

bound_add :
    (a b : ℤ)
    → (pos_part (a +ℤ b) ≤ pos_part a + pos_part b) × (neg_part (a +ℤ b) ≤ neg_part a + neg_part b)
unfolding ◌+ℤ◌
bound_add a b = ground arith

-- Adding the wrapped difference of two such numbers reaches the second.
pub wrap_32-diff : (a b : ℤ) → IsInt32 a → IsInt32 b → wrap_32 (a +ℤ wrap_32 (b -ℤ a)) ≡ b
wrap_32-diff a b h k =
    let s = bound_sub b a in
    let d = wrap_32 (b -ℤ a) in
    let dr = wrap_32-IsInt32 (b -ℤ a) in
    let dn = wrap_32-IsNear (b -ℤ a) (omega arith) (omega arith) in
    let t = bound_add a d in
    let er = wrap_32-IsInt32 (a +ℤ d) in
    let en = wrap_32-IsNear (a +ℤ d) (omega arith) (omega arith) in
    eq_of_parts (wrap_32 (a +ℤ d)) b (omega (arith, -ℤ_parts b a, +ℤ_parts a d))
