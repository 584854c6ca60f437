-- ===== src/Request/Receive.antt =====
-- nmxp_receiveData on a stream.
use nmxptool.Prelude.{ℕ, suc, ◌≤◌, ◌≡◌, refl, Bool, some, List, ◌++◌, ◌-◌, replicate, length, arith}
use nmxptool.Prelude.Int.{pos}
use nmxptool.Double.{Double}
use nmxptool.Text.{Str}
use nmxptool.Word.{Eight}
use nmxptool.Chan.{ChanList}
use nmxptool.Decode.Compressed.{process_compressed}
use nmxptool.Decode.Decompressed.{process_decompressed}
use nmxptool.Transport.{Socket}
use nmxptool.Transport.Stream.{IsStream}
use nmxptool.Transport.Message.{header_bytes}
use nmxptool.Transport.Message.Roundtrip.{receive_message-Stored}
use nmxptool.Request.{receive_data, msg_compressed, msg_decompressed, max_length_data_buffer}

not_zero : (n : ℕ) → pos (suc n) ≡ pos 0 → ⊥
not_zero n e = ground arith

module _ (sock : Socket) (stream : IsStream sock) (dbl : Double) (double_of : Eight → dbl.Num) where
  -- A message of compressed data on the stream, not longer than the buffer, is decoded as such.
  pub receive_data-compressed :
      (big : Bool) (channels : ChanList) (net loc : Str) (s : sock.State) (body rest : List ℕ)
      → length body ≤ max_length_data_buffer
      → stream.content s ≡ header_bytes msg_compressed (pos (length body)) ++ (body ++ rest)
      → receive_data sock dbl double_of big channels net loc s
        ≡ some (
            process_compressed dbl big body
              (replicate (max_length_data_buffer - length body) 0)
              channels
              net
              loc)
  unfolding receive_data
  receive_data-compressed big channels net loc s body rest h e =
      let t =
        receive_message-Stored sock stream s msg_compressed body rest max_length_data_buffer
          (omega arith, omega arith) (λ q. not_zero 0 q) (omega arith) h e in
      rw t.0 (rw t.1 (rw t.3 refl))

  -- A message of decompressed data on the stream, not longer than the buffer, is decoded as such.
  pub receive_data-decompressed :
      (big : Bool) (channels : ChanList) (net loc : Str) (s : sock.State) (body rest : List ℕ)
      → length body ≤ max_length_data_buffer
      → stream.content s ≡ header_bytes msg_decompressed (pos (length body)) ++ (body ++ rest)
      → receive_data sock dbl double_of big channels net loc s
        ≡ some (
            process_decompressed dbl double_of big body
              (replicate (max_length_data_buffer - length body) 0)
              channels
              net
              loc)
  unfolding receive_data
  receive_data-decompressed big channels net loc s body rest h e =
      let t =
        receive_message-Stored sock stream s msg_decompressed body rest max_length_data_buffer
          (omega arith, omega arith) (λ q. not_zero 3 q) (omega arith) h e in
      rw t.0 (rw t.1 (rw t.3 refl))
