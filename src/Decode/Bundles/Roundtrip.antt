-- ===== src/Decode/Bundles/Roundtrip.antt =====
-- The loop over packed bundles gives back the samples that were packed.
use nmxptool.Prelude.{
  ℕ, zero, suc, ◌+◌, ◌*◌, ◌≤◌, ◌≡◌, ◌≢◌, refl, sym, ◌∙◌, ap, Bool, false, some, List, [], ◌∷◌, ◌++◌,
  append-nil, append_assoc, length, length-append, take, drop, ltb, arith, All,
}
use nmxptool.Prelude.Int.{ℤ, pos, ltb_ℤ}
use nmxptool.Word.Laws.{IsInt32}
use nmxptool.Bundle.{emit, unpack_bundle}
use nmxptool.Bundle.Sums.{emit-append, length-emit, emit-deltas, deltas}
use nmxptool.Bundle.Encode.{
  Group, encode_groups, encode_bundle, all_differences, IsFit, head_byte, unpack-encode,
  length-all_differences,
}
use nmxptool.Decode.Bundles.{finished, unpack_bundles}

-- Four groups that hold their differences and that are not taken for a null bundle.
pub record Packed : Type 0 where
  pub g0 : Group
  pub g1 : Group
  pub g2 : Group
  pub g3 : Group
  pub fit : All IsFit (g0 ∷ g1 ∷ g2 ∷ g3 ∷ [])
  pub used : head_byte g0 g1 g2 g3 ≢ 9

abbrev pub encode_all : List Packed → List ℕ
encode_all [] = []
encode_all (p ∷ ps) = encode_bundle p.g0 p.g1 p.g2 p.g3 ++ encode_all ps

abbrev pub packed_differences : List Packed → List ℤ
packed_differences [] = []
packed_differences (p ∷ ps) =
    all_differences (p.g0 ∷ p.g1 ∷ p.g2 ∷ p.g3 ∷ []) ++ packed_differences ps

-- One round of the loop, over a bundle whose call returns u.
round :
    (big : Bool) (fuel b : ℕ) (bs : List ℕ) (outdata : List ℤ) (prev : ℤ) (n : ℕ) (samples : List ℤ)
    (last : ℤ)
    → 17 ≤ length (b ∷ bs)
    → length outdata + 16 ≤ 4096
    → unpack_bundle big (take 17 (b ∷ bs)) prev
      ≡ some (record { result = pos n; samples = samples; prev = last })
    → unpack_bundles big (suc fuel) (b ∷ bs) outdata prev
      ≡ unpack_bundles big fuel (drop 17 (b ∷ bs)) (outdata ++ samples) last
unfolding unpack_bundles
round big fuel b bs outdata prev n samples last h k e =
    rw (long (length (b ∷ bs)) 17 h, unpack_bundles)
      (rw (long 4096 (length outdata + 16) k, unpack_bundles)
        (rw (e, unpack_bundles) (rw (not_negative n) refl)))
  where
    long : (x y : ℕ) → y ≤ x → ltb x y ≡ false
    long x y l = ground arith

    not_negative : (m : ℕ) → ltb_ℤ (pos m) (pos 0) ≡ false
    not_negative m = ground arith

pub unpack_bundles-encode :
    (big : Bool) (fuel : ℕ) (ps : List Packed) (outdata : List ℤ) (prev : ℤ)
    → 17 * length ps ≤ fuel
    → length outdata + 16 * length ps ≤ 4096
    → unpack_bundles big fuel (encode_all ps) outdata prev
      ≡ finished (outdata ++ (emit prev (packed_differences ps)).0)
unfolding unpack_bundles emit
unpack_bundles-encode big fuel [] outdata prev h k = ap finished (sym (append-nil outdata))
unpack_bundles-encode big zero (p ∷ ps) outdata prev h k = absurd (omega arith)
unpack_bundles-encode big (suc fuel) (p ∷ ps) outdata prev h k =
    let ds = all_differences (p.g0 ∷ p.g1 ∷ p.g2 ∷ p.g3 ∷ []) in
    let r = emit prev ds in
    let l = length-emit prev ds in
    round big fuel (head_byte p.g0 p.g1 p.g2 p.g3)
      (encode_groups (p.g0 ∷ p.g1 ∷ p.g2 ∷ p.g3 ∷ []) ++ encode_all ps) outdata prev (length r.0)
      r.0 r.1 (omega arith) (omega arith) (unpack-encode big p.g0 p.g1 p.g2 p.g3 prev p.fit p.used)
    ∙ unpack_bundles-encode big fuel ps (outdata ++ r.0) r.1 (omega arith)
        (omega (arith, length-append outdata r.0, length-all_differences p.g0 p.g1 p.g2 p.g3))
    ∙ ap finished (
        append_assoc outdata r.0 (emit r.1 (packed_differences ps)).0
        ∙ ap (λ s. outdata ++ s.0) (sym (emit-append prev ds (packed_differences ps))))

-- Samples that are packed as differences over any number of bundles come back behind the first sample.
pub unpack_bundles-encode_samples :
    (big : Bool) (fuel : ℕ) (ps : List Packed) (x0 : ℤ) (xs : List ℤ)
    → 17 * length ps ≤ fuel
    → 1 + 16 * length ps ≤ 4096
    → IsInt32 x0
    → All IsInt32 xs
    → packed_differences ps ≡ deltas x0 xs
    → unpack_bundles big fuel (encode_all ps) (x0 ∷ []) x0 ≡ finished (x0 ∷ xs)
unpack_bundles-encode_samples big fuel ps x0 xs h k i all e =
    unpack_bundles-encode big fuel ps (x0 ∷ []) x0 h k
    ∙ ap (λ r. finished (x0 ∷ r.0)) (ap (emit x0) e ∙ emit-deltas x0 xs i all)
