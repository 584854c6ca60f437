-- ===== src/Bundle/Encode.antt =====
-- A packer of bundles, which the repository does not have, and that unpacking is its inverse.
use nmxptool.Prelude.{
  ℕ, ◌+◌, ◌-◌, ◌*◌, ◌/◌, ◌%◌, ◌≤◌, ◌<◌, ◌≡◌, ◌≢◌, refl, sym, ◌∙◌, ap, ap₂, inl, inr, Bool, false,
  none, some, List, [], ◌∷◌, ◌++◌, length, arith, All, length-append, ◌==◌, ==_iff, Bool-cases, map,
}
use nmxptool.Prelude.Int.{ℤ, pos, negsuc, pos_part, neg_part}
use nmxptool.Word.{Four, signed_8, signed_16, signed_32, little_2, little_4}
use nmxptool.Word.Laws.{IsInt32}
use nmxptool.Bundle.{compression_bits, differences, emit, unpack_words, unpack_bundle}
use nmxptool.Bundle.Sums.{emit-append, unpack_bundle_host, deltas, emit-deltas, last_or}

-- One word of a bundle: unused, or one to four differences.
pub data Group : Type 0 where
  unused : Four → Group
  four_bytes : ℤ → ℤ → ℤ → ℤ → Group
  two_halves : ℤ → ℤ → Group
  one_word : ℤ → Group

abbrev pub group_code : Group → ℕ
group_code (unused w) = 0
group_code (four_bytes a b c d) = 1
group_code (two_halves a b) = 2
group_code (one_word a) = 3

abbrev pub group_differences : Group → List ℤ
group_differences (unused w) = []
group_differences (four_bytes a b c d) = a ∷ b ∷ c ∷ d ∷ []
group_differences (two_halves a b) = a ∷ b ∷ []
group_differences (one_word a) = a ∷ []

-- The bits of a number in two's complement, of twice `half` values.
abbrev pub bits : ℕ → ℤ → ℕ
bits half (pos n) = n
bits half (negsuc n) = half + half - 1 - n

abbrev pub IsWithin : ℕ → ℤ → Type 0
IsWithin half z = (pos_part z < half) × (neg_part z ≤ half)

abbrev pub group_word : Group → Four
group_word (unused w) = w
group_word (four_bytes a b c d) = record {
  b0 = bits 128 a;
  b1 = bits 128 b;
  b2 = bits 128 c;
  b3 = bits 128 d;
}
group_word (two_halves a b) = record {
  b0 = bits 32768 a % 256;
  b1 = bits 32768 a / 256;
  b2 = bits 32768 b % 256;
  b3 = bits 32768 b / 256;
}
group_word (one_word a) = record {
  b0 = bits 2147483648 a % 256;
  b1 = bits 2147483648 a / 256 % 256;
  b2 = bits 2147483648 a / 65536 % 256;
  b3 = bits 2147483648 a / 16777216;
}

-- Each difference has room in the form that the group takes.
abbrev pub IsFit : Group → Type 0
IsFit (unused w) = Unit {0}
IsFit (four_bytes a b c d) = IsWithin 128 a × IsWithin 128 b × IsWithin 128 c × IsWithin 128 d
IsFit (two_halves a b) = IsWithin 32768 a × IsWithin 32768 b
IsFit (one_word a) = IsInt32 a

abbrev pub bytes_of : Four → List ℕ → List ℕ
bytes_of w rest = w.b0 ∷ w.b1 ∷ w.b2 ∷ w.b3 ∷ rest

abbrev pub encode_groups : List Group → List ℕ
encode_groups [] = []
encode_groups (g ∷ gs) = bytes_of (group_word g) (encode_groups gs)

abbrev pub all_differences : List Group → List ℤ
all_differences [] = []
all_differences (g ∷ gs) = group_differences g ++ all_differences gs

-- The first byte, and the 17 bytes of a bundle.
abbrev pub head_byte : Group → Group → Group → Group → ℕ
head_byte g0 g1 g2 g3 = 64 * group_code g0 + 16 * group_code g1 + 4 * group_code g2 + group_code g3

abbrev pub encode_bundle : Group → Group → Group → Group → List ℕ
encode_bundle g0 g1 g2 g3 = head_byte g0 g1 g2 g3 ∷ encode_groups (g0 ∷ g1 ∷ g2 ∷ g3 ∷ [])

four_≡ {ℓ} :
    {A : Type ℓ} {a b c d a' b' c' d' : A}
    → a ≡ a'
    → b ≡ b'
    → c ≡ c'
    → d ≡ d'
    → a ∷ b ∷ c ∷ d ∷ [] ≡ a' ∷ b' ∷ c' ∷ d' ∷ []
four_≡ p q r s = ap₂ ◌∷◌ p (ap₂ ◌∷◌ q (ap₂ ◌∷◌ r (ap (λ x. x ∷ []) s)))

signed-bits_8 : (z : ℤ) → IsWithin 128 z → signed_8 (bits 128 z) ≡ z
signed-bits_8 (pos n) h = ground arith
signed-bits_8 (negsuc n) h = ground arith

signed-bits_16 :
    (z : ℤ) → IsWithin 32768 z → signed_16 (bits 32768 z % 256 + 256 * (bits 32768 z / 256)) ≡ z
signed-bits_16 (pos n) h = ground arith
signed-bits_16 (negsuc n) h = ground arith

joined :
    (n : ℕ)
    → n % 256 + 256 * (n / 256 % 256) + 65536 * (n / 65536 % 256) + 16777216 * (n / 16777216) ≡ n
joined n = omega arith

signed-bits_32 : (z : ℤ) → IsInt32 z → signed_32 (bits 2147483648 z) ≡ z
signed-bits_32 (pos n) h = ground arith
signed-bits_32 (negsuc n) h = ground arith

differences-word :
    (g : Group) → IsFit g → differences false (group_code g) (group_word g) ≡ group_differences g
unfolding differences little_2 little_4
differences-word (unused w) h = refl
differences-word (four_bytes a b c d) (ha, hb, hc, hd) =
    four_≡ (signed-bits_8 a ha) (signed-bits_8 b hb) (signed-bits_8 c hc) (signed-bits_8 d hd)
differences-word (two_halves a b) (ha, hb) =
    ap₂ (λ x y. x ∷ y ∷ []) (signed-bits_16 a ha) (signed-bits_16 b hb)
differences-word (one_word a) h =
    ap (λ x. x ∷ []) (ap signed_32 (joined (bits 2147483648 a)) ∙ signed-bits_32 a h)

-- The sum over one group after another.
words-group :
    (g : Group) (gs : List Group) (prev : ℤ)
    → IsFit g
    → ((p : ℤ)
        → unpack_words false (map group_code gs) (encode_groups gs) p
          ≡ some (emit p (all_differences gs)))
    → unpack_words false (map group_code (g ∷ gs)) (encode_groups (g ∷ gs)) prev
      ≡ some (emit prev (all_differences (g ∷ gs)))
unfolding unpack_words
words-group g gs prev h k =
    ap
      (λ ds. elim (unpack_words false (map group_code gs) (encode_groups gs) (emit prev ds).1) [
        | none ↦ none
        | some rest ↦ some ((emit prev ds).0 ++ rest.0, rest.1)
      ])
      (differences-word g h)
    ∙ ap
        (λ o. elim o [
          | none ↦ none
          | some rest ↦ some ((emit prev (group_differences g)).0 ++ rest.0, rest.1)
        ])
        (k (emit prev (group_differences g)).1)
    ∙ ap some (sym (emit-append prev (group_differences g) (all_differences gs)))

unpack_words-encode :
    (gs : List Group) (prev : ℤ)
    → All IsFit gs
    → unpack_words false (map group_code gs) (encode_groups gs) prev
      ≡ some (emit prev (all_differences gs))
unfolding unpack_words emit
unpack_words-encode [] prev h = refl
unpack_words-encode (g ∷ gs) prev h = words-group g gs prev h.0 (λ p. unpack_words-encode gs p h.1)

code_le : (g : Group) → group_code g ≤ 3
code_le (unused w) = omega arith
code_le (four_bytes a b c d) = omega arith
code_le (two_halves a b) = omega arith
code_le (one_word a) = omega arith

compression_bits-join :
    (a b c d : ℕ)
    → a ≤ 3
    → b ≤ 3
    → c ≤ 3
    → d ≤ 3
    → compression_bits (64 * a + 16 * b + 4 * c + d) ≡ a ∷ b ∷ c ∷ d ∷ []
unfolding compression_bits
compression_bits-join a b c d ha hb hc hd =
    four_≡ (omega arith) (omega arith) (omega arith) (omega arith)

-- Unpacking a packed bundle sums up its differences; the first byte 9 is that of a null bundle.
pub unpack-encode :
    (big : Bool) (g0 g1 g2 g3 : Group) (prev : ℤ)
    → All IsFit (g0 ∷ g1 ∷ g2 ∷ g3 ∷ [])
    → head_byte g0 g1 g2 g3 ≢ 9
    → unpack_bundle big (encode_bundle g0 g1 g2 g3) prev ≡ (
        let r = emit prev (all_differences (g0 ∷ g1 ∷ g2 ∷ g3 ∷ [])) in
        some (record { result = pos (length r.0); samples = r.0; prev = r.1 }))
unfolding unpack_bundle
unpack-encode big g0 g1 g2 g3 prev h n =
    unpack_bundle_host big (encode_bundle g0 g1 g2 g3) prev
    ∙ (elim (Bool-cases (head_byte g0 g1 g2 g3 == 9)) [
      | inl e ↦ absurd (n ((==_iff _ _).0 e))
      | inr e ↦ rw e (
          rw
            (compression_bits-join (group_code g0) (group_code g1) (group_code g2) (group_code g3)
              (code_le g0) (code_le g1) (code_le g2) (code_le g3))
            (rw (unpack_words-encode (g0 ∷ g1 ∷ g2 ∷ g3 ∷ []) prev h) refl))
    ])

-- A run of int32_t samples behind an int32_t value, whose differences four groups hold, is unpacked
-- on either host to the same samples, with their number as the result and the last as `*prev`, if
-- the first byte is not 9, that of a null bundle.
pub unpack-encode_samples :
    (big : Bool) (g0 g1 g2 g3 : Group) (prev : ℤ) (xs : List ℤ)
    → All IsFit (g0 ∷ g1 ∷ g2 ∷ g3 ∷ [])
    → head_byte g0 g1 g2 g3 ≢ 9
    → IsInt32 prev
    → All IsInt32 xs
    → all_differences (g0 ∷ g1 ∷ g2 ∷ g3 ∷ []) ≡ deltas prev xs
    → unpack_bundle big (encode_bundle g0 g1 g2 g3) prev
      ≡ some (record { result = pos (length xs); samples = xs; prev = last_or prev xs })
unpack-encode_samples big g0 g1 g2 g3 prev xs h n p k e =
    unpack-encode big g0 g1 g2 g3 prev h n
    ∙ ap (λ r. some (record { result = pos (length r.0); samples = r.0; prev = r.1 }))
        (ap (emit prev) e ∙ emit-deltas prev xs p k)

length-group_differences : (g : Group) → length (group_differences g) ≤ 4
length-group_differences (unused w) = omega arith
length-group_differences (four_bytes a b c d) = omega arith
length-group_differences (two_halves a b) = omega arith
length-group_differences (one_word a) = omega arith

length-step :
    (g : Group) (gs : List Group) (n : ℕ)
    → length (all_differences gs) ≤ n
    → length (all_differences (g ∷ gs)) ≤ 4 + n
length-step g gs n h =
    omega
      (arith, length-append (group_differences g) (all_differences gs), length-group_differences g)

pub length-all_differences :
    (g0 g1 g2 g3 : Group) → length (all_differences (g0 ∷ g1 ∷ g2 ∷ g3 ∷ [])) ≤ 16
length-all_differences g0 g1 g2 g3 = length-step g0 (g1 ∷ g2 ∷ g3 ∷ []) 12 (
    length-step g1 (g2 ∷ g3 ∷ []) 8
      (length-step g2 (g3 ∷ []) 4 (length-step g3 [] 0 (omega arith))))
