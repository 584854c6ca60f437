-- ===== src/Bundle.antt =====
-- nmxp_data_unpack_bundle of lib/nmxp_data.c: the differences of one bundle of 17 bytes, summed up.
pub mod Encode
pub mod Sums
use nmxptool.Prelude.{
  ℕ, zero, suc, ◌+◌, ◌/◌, ◌%◌, Bool, true, false, Option, none, some, List, [], ◌∷◌, ◌++◌, length,
  ◌==◌, if◌then◌else◌,
}
use nmxptool.Prelude.Int.{ℤ, pos, negsuc, ◌+ℤ◌}
use nmxptool.Word.{Two, Four, signed_8, wrap_32, little_2, little_4}

-- The array `cb`: `(cbits >> j) & 3` for j = 6, 4, 2, 0.
unfoldable pub compression_bits : ℕ → List ℕ
compression_bits cbits = cbits / 64 % 4 ∷ cbits / 16 % 4 ∷ cbits / 4 % 4 ∷ cbits % 4 ∷ []

-- The switch on `cb[j]`: what it leaves in `d4[0..k)`. `big` is `my_host_is_bigendian`.
unfoldable pub differences : Bool → ℕ → Four → List ℤ
differences big zero w = []
differences big (suc zero) w = signed_8 w.b0 ∷ signed_8 w.b1 ∷ signed_8 w.b2 ∷ signed_8 w.b3 ∷ []
differences big (suc (suc zero)) w =
    little_2 big (record { b0 = w.b0; b1 = w.b1 })
    ∷ little_2 big (record { b0 = w.b2; b1 = w.b3 })
    ∷ []
differences big (suc (suc (suc n))) w = little_4 big w ∷ []

-- The loop over `d4`: the samples written and `*prev` afterwards.
unfoldable pub emit : ℤ → List ℤ → List ℤ × ℤ
emit prev [] = ([], prev)
emit prev (d ∷ ds) =
    let out = wrap_32 (prev +ℤ d) in let rest = emit out ds in (out ∷ rest.0, rest.1)

-- The loop over the four words; `none` is a read past the end of `indata`.
unfoldable pub unpack_words : Bool → List ℕ → List ℕ → ℤ → Option (List ℤ × ℤ)
unpack_words big [] indata prev = some ([], prev)
unpack_words big (cb ∷ cbs) (b0 ∷ b1 ∷ b2 ∷ b3 ∷ indata) prev =
    let first = emit prev (differences big cb (record { b0 = b0; b1 = b1; b2 = b2; b3 = b3 })) in
    elim (unpack_words big cbs indata first.1) [
      | none ↦ none
      | some rest ↦ some (first.0 ++ rest.0, rest.1)
    ]
unpack_words big (cb ∷ cbs) indata prev = none

-- What a call returns, the samples it has written from `outdata` on, and `*prev`.
pub record Unpacked : Type 0 where
  pub result : ℤ
  pub samples : List ℤ
  pub prev : ℤ

unfoldable pub unpack_bundle : Bool → List ℕ → ℤ → Option Unpacked
unpack_bundle big [] prev = none
unpack_bundle big (cbits ∷ indata) prev =
    if cbits == 9
    then some (record { result = negsuc 0; samples = []; prev = prev })
    else elim (unpack_words big (compression_bits cbits) indata prev) [
      | none ↦ none
      | some (samples, last) ↦
          some (record { result = pos (length samples); samples = samples; prev = last })
    ]
