-- ===== src/Decode/Compressed.antt =====
-- nmxp_processCompressedData.
pub mod Samples
use nmxptool.Prelude.{
  ℕ, zero, suc, ◌+◌, ◌-◌, ◌*◌, ◌/◌, ◌%◌, Bool, true, false, Option, none, some, List, [], ◌∷◌, ◌++◌,
  length, take, drop, get_or, ltb, ◌==◌, if◌then◌else◌,
}
use nmxptool.Prelude.Int.{ℤ, pos, negsuc, ltb_ℤ, ◌-ℤ◌}
use nmxptool.Double.{Double}
use nmxptool.Packet.{DataProcess}
use nmxptool.Text.{Str}
use nmxptool.Word.{Two, Four, little_2, little_4, signed_32}
use nmxptool.Chan.{ChanList, word32}
use nmxptool.Chan.Name.{Codes, cpy_sta_chan}
use nmxptool.Chan.Lookup.{lookup_name}
use nmxptool.Bundle.Sums.{last_or}
use nmxptool.Decode.{
  Outcome, returned, exited, faulted, byte_at, two_at, four_at, fresh_packet, set_codes,
}
use nmxptool.Decode.Bundles.{Loop, finished, loop_exit, loop_fault, no_fuel, unpack_bundles}

-- `nmx_rate_code_to_sample_rate`.
abbrev pub sample_rates : List ℕ
sample_rates =
    0 ∷ 1 ∷ 2 ∷ 5 ∷ 10 ∷ 20 ∷ 40 ∷ 50 ∷ 80 ∷ 100 ∷ 125 ∷ 200 ∷ 250 ∷ 500 ∷ 1000 ∷ 25 ∷ 120 ∷ []

-- The entry of a rate code; those that are not listed are 0.
unfoldable pub sample_rate_of : ℕ → ℕ
sample_rate_of rate_code = get_or sample_rates rate_code 0

-- `nmx_x0`: three bytes, and minus 2 ^ 24 when bit 23 is set.
unfoldable pub first_sample : Bool → List ℕ → ℤ
first_sample big buffer =
    let x0 =
      little_4 big (record {
        b0 = byte_at buffer 18;
        b1 = byte_at buffer 19;
        b2 = byte_at buffer 20;
        b3 = 0;
      }) in
    if word32 x0 / 8388608 % 2 == 1 then x0 -ℤ pos 16777216 else x0

-- `(nmx_instr_id << 16) | (1 << 8) | chan_code`: the three have no bit in common.
unfoldable pub packet_key : ℤ → ℕ → ℤ
packet_key instr_id sample_rate =
    signed_32 (word32 instr_id % 65536 * 65536 + 256 + sample_rate % 8)

module _ (dbl : Double) where
  open dbl use {Num, add, div, of_int, literal}

  -- `nmx_seconds_double`.
  unfoldable pub packet_time : Bool → List ℕ → Num
  packet_time big buffer =
      add (of_int (little_4 big (four_at buffer 5)))
        (div (of_int (little_2 big (two_at buffer 9))) (literal (pos 100000) 1))

  -- The fields that are set once the bundles are unpacked, `outdata` holding `nout` + 1 samples.
  unfoldable pub compressed_packet :
      Bool → List ℕ → ℤ → Codes → Str → Str → List ℤ → DataProcess Num
  compressed_packet big buffer key codes network_code_default location_code_default outdata =
      record (set_codes dbl codes network_code_default location_code_default (fresh_packet dbl)) {
        key = key;
        packet_type = pos (byte_at buffer 4);
        x0 = first_sample big buffer;
        xn = last_or (pos 0) outdata;
        x0n_significant = pos 1;
        oldest_seq_no = little_4 big (four_at buffer 0);
        seq_no = little_4 big (four_at buffer 13);
        time = packet_time big buffer;
        n_samp = pos (length outdata - 1);
        data_ptr = some outdata;
        samp_rate = pos (sample_rate_of (byte_at buffer 17 / 8));
      }

  -- What the end of the loop makes of the call.
  unfoldable pub after_loop : Loop → (List ℤ → DataProcess Num) → Outcome (DataProcess Num)
  after_loop (finished outdata) k = returned (k outdata)
  after_loop (loop_exit n) k = exited n
  after_loop loop_fault k = faulted
  after_loop no_fuel k = faulted

  -- What follows the copies of the header, which is in `buffer`, the cells of `buffer_data`. The bundles are
  -- those of the message; the fuel is the number of its bytes.
  unfoldable pub decode_compressed :
      Bool → List ℕ → List ℕ → ChanList → Str → Str → Outcome (DataProcess Num)
  decode_compressed big message buffer channels network_code_default location_code_default =
      elim (byte_at buffer 4 % 16 == 9) [
        | true ↦ exited 0
        | false ↦
            let key = packet_key (little_2 big (two_at buffer 11)) (byte_at buffer 17) in
            let x0 = first_sample big buffer in
            elim (lookup_name key channels) [
              | none ↦ returned (fresh_packet dbl)
              | some name ↦
                  after_loop (unpack_bundles big (length message) (drop 21 message) (x0 ∷ []) x0) (
                    compressed_packet big buffer key (cpy_sta_chan name).1 network_code_default
                      location_code_default)
            ]
      ]

  -- `buffer_data` holds the `length_data` bytes of the message and, behind them, the rest of its array. The
  -- 21 bytes of the header are copied whatever `length_data` is: in an array that is shorter they are read
  -- past its end.
  unfoldable pub process_compressed :
      Bool → List ℕ → List ℕ → ChanList → Str → Str → Outcome (DataProcess Num)
  process_compressed big message behind channels network_code_default location_code_default =
      elim (ltb (length (message ++ behind)) 21) [
        | true ↦ faulted
        | false ↦
            decode_compressed big message (message ++ behind) channels network_code_default
              location_code_default
      ]
