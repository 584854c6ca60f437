-- ===== src/Decode/Compressed/Samples.antt =====
-- nmxp_processCompressedData reads and writes inside its arrays, and decodes packed samples.
use nmxptool.Prelude.{
  ℕ, ◌+◌, ◌-◌, ◌*◌, ◌/◌, ◌%◌, ◌≤◌, ◌<◌, ◌≡◌, ◌≢◌, refl, sym, ◌∙◌, ap, subst, inl, inr, Bool, false,
  some, List, [], ◌∷◌, ◌++◌, ltb, lt→ltb, length, length-drop, drop, arith, All, ◌==◌, ==_iff,
  if◌then◌else◌, Bool-cases, Option-cases,
}
use nmxptool.Prelude.Int.{ℤ, pos, pos_part, neg_part, ◌-ℤ◌, ◌≤ℤ◌}
use nmxptool.Double.{Double}
use nmxptool.Packet.{DataProcess}
use nmxptool.Text.{Str}
use nmxptool.Word.{little_2, little_4, signed_32}
use nmxptool.Word.Laws.{IsInt32, little_4_host}
use nmxptool.Chan.{ChanList, word32, data_type_from_key}
use nmxptool.Chan.Name.{cpy_sta_chan}
use nmxptool.Chan.Lookup.{lookup_name}
use nmxptool.Bundle.Sums.{deltas, last_or}
use nmxptool.Decode.{Outcome, returned, exited, faulted, byte_at, two_at}
use nmxptool.Decode.Bundles.{Loop, finished, loop_exit, loop_fault, no_fuel, unpack_bundles}
use nmxptool.Decode.Bundles.Bounds.{IsSafe, unpack_bundles-IsSafe}
use nmxptool.Decode.Bundles.Roundtrip.{
  Packed, encode_all, packed_differences, unpack_bundles-encode_samples,
}
use nmxptool.Decode.Compressed.{
  first_sample, packet_key, compressed_packet, after_loop, decode_compressed, process_compressed,
}

ltb_not : (n : ℕ) → 21 ≤ n → ltb n 21 ≡ false
ltb_not n h = ground arith

abbrev pub IsByte : ℕ → Type 0
IsByte b = b < 256

-- The key of a compressed packet is that of a time-series channel.
pub data_type-packet_key :
    (instr_id : ℤ) (sample_rate : ℕ) → data_type_from_key (packet_key instr_id sample_rate) ≡ 1
unfolding data_type_from_key packet_key
data_type-packet_key instr_id sample_rate =
    low_bits (word32 instr_id % 65536) (sample_rate % 8) (omega arith) (omega arith)
  where
    low_bits :
        (h c : ℕ) → h < 65536 → c < 8 → word32 (signed_32 (h * 65536 + 256 + c)) / 256 % 256 ≡ 1
    low_bits h c l m = ground arith

-- A number of 24 bits, less 2 ^ 24 when bit 23 is set.
abbrev sign_24 : ℤ → ℤ
sign_24 x0 = if word32 x0 / 8388608 % 2 == 1 then x0 -ℤ pos 16777216 else x0

abbrev Is24 : ℤ → Type 0
Is24 z = (pos_part z < 8388608) × (neg_part z ≤ 8388608)

sign_24-Is24 : (n : ℕ) → n < 16777216 → Is24 (sign_24 (signed_32 n))
unfolding ◌-ℤ◌
sign_24-Is24 n lt = ground arith

-- The first sample is a signed number of 24 bits.
pub first_sample-bounds :
    (big : Bool) (buffer : List ℕ)
    → IsByte (byte_at buffer 18)
    → IsByte (byte_at buffer 19)
    → IsByte (byte_at buffer 20)
    → IsInt32 (first_sample big buffer)
unfolding first_sample little_4
first_sample-bounds big buffer h k l =
    let z =
      subst (λ x0. Is24 (sign_24 x0))
        (sym (
          little_4_host big (record {
            b0 = byte_at buffer 18;
            b1 = byte_at buffer 19;
            b2 = byte_at buffer 20;
            b3 = 0;
          })))
        (sign_24-Is24
          (byte_at buffer 18 + 256 * byte_at buffer 19 + 65536 * byte_at buffer 20 + 16777216 * 0)
          (omega arith)) in
    (omega arith, omega arith)

module _ (dbl : Double) where
  open dbl use {Num}

  -- A call returns a packet with no more samples than `outdata` has cells for, or it calls exit()
  -- with 0 or 1; it does not fault.
  abbrev pub IsSafeCall : Outcome (DataProcess Num) → Type 0
  IsSafeCall (returned pd) = pd.n_samp ≤ℤ pos 4095
  IsSafeCall (exited n) = Unit {0}
  IsSafeCall faulted = ⊥

  after_loop-IsSafe :
      (l : Loop) (k : List ℤ → DataProcess Num)
      → ((o : List ℤ) → (k o).n_samp ≡ pos (length o - 1))
      → IsSafe l
      → IsSafeCall (after_loop dbl l k)
  unfolding after_loop
  after_loop-IsSafe (finished o) k e s = subst (λ n. n ≤ℤ pos 4095) (sym (e o)) (omega arith)
  after_loop-IsSafe (loop_exit n) k e s = tt
  after_loop-IsSafe loop_fault k e s = s
  after_loop-IsSafe no_fuel k e s = s

  decode_compressed-IsSafe :
      (big : Bool) (message buffer : List ℕ) (channels : ChanList) (net loc : Str)
      → IsSafeCall (decode_compressed dbl big message buffer channels net loc)
  unfolding decode_compressed compressed_packet
  decode_compressed-IsSafe big message buffer channels net loc =
      elim (Bool-cases (byte_at buffer 4 % 16 == 9)) [
        | inl e ↦ rw (e, IsSafeCall) tt
        | inr e ↦
            rw (e, IsSafeCall)
              (elim (Option-cases (
                lookup_name (packet_key (little_2 big (two_at buffer 11)) (byte_at buffer 17))
                  channels)) [
                    | inl q ↦ rw (q, IsSafeCall) (omega arith)
                    | inr (name, q) ↦
                        rw (q, IsSafeCall)
                          (after_loop-IsSafe _ _ (λ o. refl)
                            (unpack_bundles-IsSafe big (length message) (drop 21 message) _ _
                              (omega (arith, length-drop 21 message)) (omega arith)))
                  ])
      ]

  -- In an array of at least 21 cells the decoder stays inside the array and inside `outdata`, whatever the
  -- array and the message in it hold, and however short the message is: it returns at most 4095 samples, or it
  -- calls exit().
  pub process_compressed-IsSafe :
      (big : Bool) (message behind : List ℕ) (channels : ChanList) (net loc : Str)
      → 21 ≤ length (message ++ behind)
      → IsSafeCall (process_compressed dbl big message behind channels net loc)
  unfolding process_compressed
  process_compressed-IsSafe big message behind channels net loc h =
      rw (ltb_not (length (message ++ behind)) h, process_compressed)
        (decode_compressed-IsSafe big message (message ++ behind) channels net loc)

  -- In an array of fewer cells it reads past the end, as it does not test the length.
  process_compressed-short :
      (big : Bool) (message behind : List ℕ) (channels : ChanList) (net loc : Str)
      → length (message ++ behind) < 21
      → process_compressed dbl big message behind channels net loc ≡ faulted
  unfolding process_compressed
  process_compressed-short big message behind channels net loc h =
      rw (lt→ltb (length (message ++ behind)) 21 h, process_compressed) refl

  -- A message whose array has room for a header, that is no filler, for a channel whose name is known, with bundles that pack the
  -- differences of int32_t samples behind the first sample and that have room in `outdata`: the
  -- call returns a packet with the first sample and the packed ones in `pDataPtr`, the number of
  -- the packed ones as `nSamp`, and the first and the last as `x0` and `xn`.
  pub process_compressed-encode :
      (big : Bool) (message behind : List ℕ) (channels : ChanList) (net loc name : Str)
      (ps : List Packed) (xs : List ℤ)
      → let buffer = message ++ behind in
        21 ≤ length buffer
        → byte_at buffer 4 % 16 ≢ 9
        → IsByte (byte_at buffer 18)
        → IsByte (byte_at buffer 19)
        → IsByte (byte_at buffer 20)
        → lookup_name (packet_key (little_2 big (two_at buffer 11)) (byte_at buffer 17)) channels
          ≡ some name
        → drop 21 message ≡ encode_all ps
        → 17 * length ps ≤ length message
        → 1 + 16 * length ps ≤ 4096
        → All IsInt32 xs
        → packed_differences ps ≡ deltas (first_sample big buffer) xs
        → (pd : DataProcess Num) × (process_compressed dbl big message behind channels net loc
            ≡ returned pd)
          × (pd.data_ptr ≡ some (first_sample big buffer ∷ xs))
          × (pd.n_samp ≡ pos (length xs))
          × (pd.x0 ≡ first_sample big buffer)
          × (pd.xn ≡ last_or (first_sample big buffer) xs)
  unfolding process_compressed decode_compressed compressed_packet after_loop
  process_compressed-encode big message behind channels net loc name ps xs header filler h k l q b
        fuel room all e =
      let buffer = message ++ behind in
      let key = packet_key (little_2 big (two_at buffer 11)) (byte_at buffer 17) in
      let run : unpack_bundles big (length message) (drop 21 message) (first_sample big buffer ∷ [])
            (first_sample big buffer)
          ≡ finished (first_sample big buffer ∷ xs) =
        ap
          (λ i.
            unpack_bundles big (length message) i (first_sample big buffer ∷ [])
              (first_sample big buffer))
          b
        ∙ unpack_bundles-encode_samples big (length message) ps (first_sample big buffer) xs fuel
            room (first_sample-bounds big buffer h k l) all e in
      (
        compressed_packet dbl big buffer key (cpy_sta_chan name).1 net loc
            (first_sample big buffer ∷ xs),
        elim (Bool-cases (byte_at buffer 4 % 16 == 9)) [
          | inl f ↦ absurd (filler ((==_iff _ _).0 f))
          | inr f ↦
              rw (ltb_not (length buffer) header, process_compressed)
                (rw (f, decode_compressed)
                  (rw (q, decode_compressed) (rw (run, decode_compressed) refl)))
        ],
        refl,
        ap pos (omega arith),
        refl,
        refl,
      )
