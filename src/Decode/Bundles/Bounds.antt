-- ===== src/Decode/Bundles/Bounds.antt =====
-- The loop over the bundles stays inside its arrays, and the number of bytes is fuel enough.
use nmxptool.Prelude.{
  ℕ, zero, suc, ◌+◌, ◌*◌, ◌≤◌, ◌≡◌, refl, ap, inl, inr, Bool, false, none, some, List, [], ◌∷◌,
  ◌++◌, length, length-append, length-take, length-drop, take, drop, ltb, arith, ◌==◌, Bool-cases,
}
use nmxptool.Prelude.Int.{ℤ, pos, negsuc, ltb_ℤ}
use nmxptool.Word.{Four}
use nmxptool.Bundle.{compression_bits, differences, emit, unpack_words, Unpacked, unpack_bundle}
use nmxptool.Bundle.Sums.{length-emit, length-differences}
use nmxptool.Decode.Bundles.{Loop, finished, loop_exit, loop_fault, no_fuel, unpack_bundles}

-- As many words as codes are unpacked, each to at most four samples.
unpack_words_total :
    (big : Bool) (cbs indata : List ℕ) (prev : ℤ)
    → length indata ≡ 4 * length cbs
    → (r : List ℤ × ℤ) × (unpack_words big cbs indata prev ≡ some r) × (length r.0 ≤ 4 * length cbs)
unfolding unpack_words
unpack_words_total big [] indata prev h = (([], prev), refl, omega arith)
unpack_words_total big (cb ∷ cbs) [] prev h = absurd (omega arith)
unpack_words_total big (cb ∷ cbs) (a ∷ []) prev h = absurd (omega arith)
unpack_words_total big (cb ∷ cbs) (a ∷ b ∷ []) prev h = absurd (omega arith)
unpack_words_total big (cb ∷ cbs) (a ∷ b ∷ c ∷ []) prev h = absurd (omega arith)
unpack_words_total big (cb ∷ cbs) (a ∷ b ∷ c ∷ d ∷ indata) prev h =
    let w : Four = record { b0 = a; b1 = b; b2 = c; b3 = d } in
    let first = emit prev (differences big cb w) in
    let rest = unpack_words_total big cbs indata first.1 (omega arith) in
    (
      (first.0 ++ rest.0.0, rest.0.1),
      ap (λ o. elim o [ none ↦ none | some r ↦ some (first.0 ++ r.0, r.1) ]) rest.1,
      omega (
        arith,
        length-append first.0 rest.0.0,
        length-emit prev (differences big cb w),
        length-differences big cb w,
        rest.2,
      ),
    )

-- What the loop relies on: 17 bytes are unpacked, to at most 16 samples.
pub unpack_bundle_total :
    (big : Bool) (indata : List ℕ) (prev : ℤ)
    → length indata ≡ 17
    → (u : Unpacked) × (unpack_bundle big indata prev ≡ some u) × (length u.samples ≤ 16)
unfolding unpack_bundle compression_bits
unpack_bundle_total big [] prev h = absurd (omega arith)
unpack_bundle_total big (cbits ∷ indata) prev h = elim (Bool-cases (cbits == 9)) [
  | inl e ↦ (record { result = negsuc 0; samples = []; prev = prev }, rw e refl, omega arith)
  | inr e ↦
      let t = unpack_words_total big (compression_bits cbits) indata prev (omega arith) in
      (
        record { result = pos (length t.0.0); samples = t.0.0; prev = t.0.1 },
        rw e (rw t.1 refl),
        omega (arith, t.2),
      )
]

-- The cells that are written are cells of `outdata`, and the loop comes to an end in its data.
abbrev pub IsSafe : Loop → Type 0
IsSafe (finished outdata) = length outdata ≤ 4096
IsSafe (loop_exit n) = Unit {0}
IsSafe loop_fault = ⊥
IsSafe no_fuel = ⊥

-- With fuel for every byte and no more than 4096 cells written before, the loop neither runs out of
-- fuel nor reads past the data, and at its end at most the 4096 cells of `outdata` are written,
-- whatever the bytes are.
pub unpack_bundles-IsSafe :
    (big : Bool) (fuel : ℕ) (indata : List ℕ) (outdata : List ℤ) (prev_xn : ℤ)
    → length indata ≤ fuel
    → length outdata ≤ 4096
    → IsSafe (unpack_bundles big fuel indata outdata prev_xn)
unfolding unpack_bundles
unpack_bundles-IsSafe big fuel [] outdata prev_xn h k = k
unpack_bundles-IsSafe big zero (b ∷ bs) outdata prev_xn h k = absurd (omega arith)
unpack_bundles-IsSafe big (suc fuel) (b ∷ bs) outdata prev_xn h k =
    elim (Bool-cases (ltb (length (b ∷ bs)) 17)) [
      | inl short ↦ rw (short, IsSafe) tt
      | inr e ↦
          rw (e, IsSafe)
            (elim (Bool-cases (ltb 4096 (length outdata + 16))) [
              | inl full ↦ rw (full, IsSafe) tt
              | inr room ↦
                  rw (room, IsSafe)
                    (let t = unpack_bundle_total big (take 17 (b ∷ bs)) prev_xn (length_17 e) in
                      rw (t.1, IsSafe)
                        (elim (Bool-cases (ltb_ℤ t.0.result (pos 0))) [
                          | inl stop ↦ rw (stop, IsSafe) k
                          | inr go ↦
                              rw (go, IsSafe)
                                (unpack_bundles-IsSafe big fuel (drop 17 (b ∷ bs))
                                  (outdata ++ t.0.samples) t.0.prev (shorter e)
                                  (fits room t.0.samples t.2))
                        ]))
            ])
    ]
  where
    length_17 : ltb (length (b ∷ bs)) 17 ≡ false → length (take 17 (b ∷ bs)) ≡ 17
    length_17 e = grind (arith, length-take 17 (b ∷ bs))

    shorter : ltb (length (b ∷ bs)) 17 ≡ false → length (drop 17 (b ∷ bs)) ≤ fuel
    shorter e = grind (arith, length-drop 17 (b ∷ bs))

    fits :
        ltb 4096 (length outdata + 16) ≡ false
        → (s : List ℤ) → length s ≤ 16
        → length (outdata ++ s) ≤ 4096
    fits e s l = grind (arith, length-append outdata s)
