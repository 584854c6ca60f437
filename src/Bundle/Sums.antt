-- ===== src/Bundle/Sums.antt =====
-- The running sum of the samples: how it splits, where it ends, and that either host computes it.
use nmxptool.Prelude.{
  ℕ, zero, suc, ◌≤◌, ◌≡◌, refl, ◌∙◌, ap, ap₂, Bool, false, none, some, List, [], ◌∷◌, ◌++◌, length,
  arith, All,
}
use nmxptool.Prelude.Int.{ℤ, ◌+ℤ◌, ◌-ℤ◌}
use nmxptool.Word.{Four, wrap_32}
use nmxptool.Word.Laws.{little_2_host, little_4_host, IsInt32, wrap_32-diff}
use nmxptool.Bundle.{compression_bits, differences, emit, unpack_words, unpack_bundle}

-- The last element, or the value before the list.
abbrev pub last_or : ℤ → List ℤ → ℤ
last_or p [] = p
last_or p (x ∷ xs) = last_or x xs

-- `*prev` is the last sample that was written.
pub emit-last : (prev : ℤ) (ds : List ℤ) → (emit prev ds).1 ≡ last_or prev (emit prev ds).0
unfolding emit
emit-last prev [] = refl
emit-last prev (d ∷ ds) = emit-last (wrap_32 (prev +ℤ d)) ds

pub length-emit : (prev : ℤ) (ds : List ℤ) → length (emit prev ds).0 ≡ length ds
unfolding emit
length-emit prev [] = refl
length-emit prev (d ∷ ds) = ap suc (length-emit (wrap_32 (prev +ℤ d)) ds)

pub emit-append :
    (prev : ℤ) (ds es : List ℤ)
    → emit prev (ds ++ es)
      ≡ ((emit prev ds).0 ++ (emit (emit prev ds).1 es).0, (emit (emit prev ds).1 es).1)
unfolding emit
emit-append prev [] es = refl
emit-append prev (d ∷ ds) es =
    ap (λ r. (wrap_32 (prev +ℤ d) ∷ r.0, r.1)) (emit-append (wrap_32 (prev +ℤ d)) ds es)

-- The differences of a run of samples, from the value before it.
abbrev pub deltas : ℤ → List ℤ → List ℤ
deltas p [] = []
deltas p (x ∷ xs) = wrap_32 (x -ℤ p) ∷ deltas x xs

-- Summing up the differences of int32_t samples gives the samples back.
pub emit-deltas :
    (p : ℤ) (xs : List ℤ) → IsInt32 p → All IsInt32 xs → emit p (deltas p xs) ≡ (xs, last_or p xs)
unfolding emit
emit-deltas p [] h k = refl
emit-deltas p (x ∷ xs) h k = rw (wrap_32-diff p x h k.0) (rw (emit-deltas x xs k.0 k.1) refl)

differences_host : (big : Bool) (cb : ℕ) (w : Four) → differences big cb w ≡ differences false cb w
unfolding differences
differences_host big zero w = refl
differences_host big (suc zero) w = refl
differences_host big (suc (suc zero)) w =
    ap₂ (λ a b. a ∷ b ∷ []) (little_2_host big _) (little_2_host big _)
differences_host big (suc (suc (suc n))) w = ap (λ a. a ∷ []) (little_4_host big w)

unpack_words_host :
    (big : Bool) (cbs indata : List ℕ) (prev : ℤ)
    → unpack_words big cbs indata prev ≡ unpack_words false cbs indata prev
unfolding unpack_words
unpack_words_host big [] indata prev = refl
unpack_words_host big (cb ∷ cbs) [] prev = refl
unpack_words_host big (cb ∷ cbs) (a ∷ []) prev = refl
unpack_words_host big (cb ∷ cbs) (a ∷ b ∷ []) prev = refl
unpack_words_host big (cb ∷ cbs) (a ∷ b ∷ c ∷ []) prev = refl
unpack_words_host big (cb ∷ cbs) (a ∷ b ∷ c ∷ d ∷ indata) prev =
    let w : Four = record { b0 = a; b1 = b; b2 = c; b3 = d } in
    ap
      (λ ds. elim (unpack_words big cbs indata (emit prev ds).1) [
        | none ↦ none
        | some rest ↦ some ((emit prev ds).0 ++ rest.0, rest.1)
      ])
      (differences_host big cb w)
    ∙ ap
        (λ o. elim o [
          | none ↦ none
          | some rest ↦ some ((emit prev (differences false cb w)).0 ++ rest.0, rest.1)
        ])
        (unpack_words_host big cbs indata (emit prev (differences false cb w)).1)

-- A big-endian host, which swaps what it reads, unpacks what a little-endian one does.
pub unpack_bundle_host :
    (big : Bool) (indata : List ℕ) (prev : ℤ)
    → unpack_bundle big indata prev ≡ unpack_bundle false indata prev
unfolding unpack_bundle
unpack_bundle_host big [] prev = refl
unpack_bundle_host big (cbits ∷ indata) prev =
    rw (unpack_words_host big (compression_bits cbits) indata prev) refl

pub length-differences : (big : Bool) (cb : ℕ) (w : Four) → length (differences big cb w) ≤ 4
unfolding differences
length-differences big zero w = omega arith
length-differences big (suc zero) w = omega arith
length-differences big (suc (suc zero)) w = omega arith
length-differences big (suc (suc (suc n))) w = omega arith
