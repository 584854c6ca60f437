-- ===== src/Decode/Tests.antt =====
-- A bundle and a packet with four differences.
use nmxptool.Prelude.{ℕ, ◌≡◌, refl, true, false, some, List, [], ◌∷◌, arith}
use nmxptool.Prelude.Int.{ℤ, pos, negsuc, ◌-ℤ◌}
use nmxptool.Double.Whole.{whole}
use nmxptool.Packet.{DataProcess}
use nmxptool.Word.{little_2, little_4}
use nmxptool.Chan.{ChanList}
use nmxptool.Chan.Lookup.{lookup_name, name_from}
use nmxptool.Bundle.{unpack_bundle}
use nmxptool.Bundle.Encode.{Group, four_bytes, unused, encode_bundle, unpack-encode_samples}
use nmxptool.Bundle.Sums.{unpack_bundle_host}
use nmxptool.Decode.{returned}
use nmxptool.Decode.Bundles.{unpack_bundles}
use nmxptool.Decode.Bundles.Bounds.{IsSafe, unpack_bundles-IsSafe}
use nmxptool.Decode.Bundles.Roundtrip.{Packed, encode_all}
use nmxptool.Decode.Compressed.{first_sample, packet_key, process_compressed}
use nmxptool.Decode.Compressed.Samples.{
  IsSafeCall, process_compressed-IsSafe, process_compressed-encode,
}

abbrev rest_word : Group
rest_word = unused (record { b0 = 0; b1 = 0; b2 = 0; b3 = 0 })

abbrev steps : Group
steps = four_bytes (pos 1) (pos 2) (negsuc 2) (pos 4)

abbrev samples : List ℤ
samples = pos 11 ∷ pos 13 ∷ pos 10 ∷ pos 14 ∷ []

abbrev packed : Packed
packed = record {
  g0 = steps;
  g1 = rest_word;
  g2 = rest_word;
  g3 = rest_word;
  fit = (
    (
      (omega arith, omega arith),
      (omega arith, omega arith),
      (omega arith, omega arith),
      (omega arith, omega arith),
    ),
    (tt, (tt, (tt, tt))),
  );
  used = omega arith;
}

abbrev buffer : List ℕ
buffer =
    0
    ∷ 0
    ∷ 0
    ∷ 0
    ∷ 1
    ∷ 0
    ∷ 0
    ∷ 0
    ∷ 0
    ∷ 0
    ∷ 0
    ∷ 0
    ∷ 0
    ∷ 0
    ∷ 0
    ∷ 0
    ∷ 0
    ∷ 72
    ∷ 10
    ∷ 0
    ∷ 0
    ∷ encode_all (packed ∷ [])

abbrev channels : ChanList
channels = record { key = pos 256; name = b'A' ∷ [] } ∷ []

unpack-encode_samples_example :
    unpack_bundle true (encode_bundle steps rest_word rest_word rest_word) (pos 10)
    ≡ some (record { result = pos 4; samples = samples; prev = pos 14 })
unfolding ◌-ℤ◌
unpack-encode_samples_example =
    unpack-encode_samples true steps rest_word rest_word rest_word (pos 10) samples packed.fit
      packed.used (omega arith, omega arith)
      (
        (omega arith, omega arith),
        (
          (omega arith, omega arith),
          ((omega arith, omega arith), ((omega arith, omega arith), tt)),
        ),
      )
      refl

unpack_bundle_host_example :
    unpack_bundle true (encode_all (packed ∷ [])) (pos 10)
    ≡ unpack_bundle false (encode_all (packed ∷ [])) (pos 10)
unpack_bundle_host_example = unpack_bundle_host true (encode_all (packed ∷ [])) (pos 10)

unpack_bundles-IsSafe_example : IsSafe (unpack_bundles true 3 (1 ∷ 2 ∷ 3 ∷ []) (pos 5 ∷ []) (pos 5))
unpack_bundles-IsSafe_example =
    unpack_bundles-IsSafe true 3 (1 ∷ 2 ∷ 3 ∷ []) (pos 5 ∷ []) (pos 5) (omega arith) (omega arith)

process_compressed-IsSafe_example :
    IsSafeCall whole (process_compressed whole false (1 ∷ 2 ∷ []) buffer channels [] [])
process_compressed-IsSafe_example =
    process_compressed-IsSafe whole false (1 ∷ 2 ∷ []) buffer channels [] [] (omega arith)

process_compressed-encode_example :
    (pd : DataProcess ℤ) × (process_compressed whole false buffer (0 ∷ []) channels [] []
      ≡ returned pd)
    × (pd.data_ptr ≡ some (first_sample false buffer ∷ samples))
    × (pd.n_samp ≡ pos 4)
    × (pd.x0 ≡ first_sample false buffer)
    × (pd.xn ≡ pos 14)
unfolding first_sample little_4 little_2 packet_key lookup_name name_from ◌-ℤ◌
process_compressed-encode_example =
    process_compressed-encode whole false buffer (0 ∷ []) channels [] [] (b'A' ∷ []) (packed ∷ [])
      samples (omega arith) (omega arith) (omega arith) (omega arith) (omega arith) refl refl
      (omega arith) (omega arith)
      (
        (omega arith, omega arith),
        (
          (omega arith, omega arith),
          ((omega arith, omega arith), ((omega arith, omega arith), tt)),
        ),
      )
      refl
