-- ===== src/Decode/Decompressed.antt =====
-- nmxp_processDecompressedData.
use nmxptool.Prelude.{
  ℕ, zero, suc, ◌+◌, ◌-◌, ◌*◌, Bool, true, false, ◌||◌, none, some, List, [], ◌∷◌, ◌++◌, length,
  ltb, if◌then◌else◌,
}
use nmxptool.Prelude.Int.{ℤ, pos, negsuc, eqb_ℤ, pos_part}
use nmxptool.Double.{Double}
use nmxptool.Packet.{DataProcess}
use nmxptool.Text.{Str}
use nmxptool.Word.{Eight, swap_8b, load_4, signed_32}
use nmxptool.Chan.{ChanList}
use nmxptool.Chan.Name.{Codes, cpy_sta_chan}
use nmxptool.Chan.Lookup.{lookup_name}
use nmxptool.Decode.{
  Outcome, returned, faulted, max_outdata, four_at, eight_at, ntohl_at, fresh_packet, set_codes,
}

-- The loop that swaps the samples, over `n` words from offset i on.
unfoldable pub swapped_samples : ℕ → ℕ → List ℕ → List ℤ
swapped_samples zero i buffer = []
swapped_samples (suc n) i buffer = ntohl_at buffer i ∷ swapped_samples n (i + 4) buffer

-- `swap`: whether ntohl() has changed the key.
unfoldable pub needs_swap : Bool → List ℕ → Bool
needs_swap big buffer =
    if eqb_ℤ (ntohl_at buffer 0) (signed_32 (load_4 big (four_at buffer 0))) then false else true

module _ (dbl : Double) (double_of : Eight → dbl.Num) where
  open dbl use {Num}

  -- `pTime`; `double_of` reads an object of type double in the byte order of the host.
  unfoldable pub decompressed_time : Bool → List ℕ → Num
  decompressed_time big buffer =
      double_of (if needs_swap big buffer then swap_8b (eight_at buffer 4) else eight_at buffer 4)

  unfoldable pub decompressed_packet : Bool → List ℕ → Codes → Str → Str → DataProcess Num
  decompressed_packet big buffer codes network_code_default location_code_default =
      record (set_codes dbl codes network_code_default location_code_default (fresh_packet dbl)) {
        key = ntohl_at buffer 0;
        packet_type = pos 4;
        x0 = negsuc 0;
        xn = negsuc 0;
        x0n_significant = pos 0;
        time = decompressed_time big buffer;
        n_samp = ntohl_at buffer 12;
        data_ptr = some (swapped_samples (pos_part (ntohl_at buffer 12)) 20 buffer);
        samp_rate = ntohl_at buffer 16;
      }

  -- Nothing compares the number of samples in the message with the data that came: past the
  -- `length_data` - 20 bytes that were copied, or past the end of `outdata`, is a fault. With a message of
  -- fewer than 20 bytes memcpy() is given a negative length. The key is read before the channel is known:
  -- `behind` is what the array holds behind the message.
  unfoldable pub process_decompressed :
      Bool → List ℕ → List ℕ → ChanList → Str → Str → Outcome (DataProcess Num)
  process_decompressed big message behind channels network_code_default location_code_default =
      if ltb (length (message ++ behind)) 4
      then faulted
      else elim (lookup_name (ntohl_at (message ++ behind) 0) channels) [
        | none ↦ returned (fresh_packet dbl)
        | some name ↦
            if ltb (length message) 20
              || ltb (4 * max_outdata) (length message - 20)
              || ltb (length message - 20) (4 * pos_part (ntohl_at message 12))
            then faulted
            else returned (
                decompressed_packet big message (cpy_sta_chan name).1 network_code_default
                  location_code_default)
      ]
