-- ===== src/Request.antt =====
-- lib/nmxp.c: requests of the client, and the reception of one data message.
mod Tests
pub mod Words
pub mod Receive
pub mod Pace
use nmxptool.Prelude.{
  ℕ, ◌+◌, ◌*◌, ◌-◌, Bool, true, false, Option, none, some, List, [], ◌∷◌, ◌++◌, length, take, map,
  replicate, ltb, if◌then◌else◌,
}
use nmxptool.Prelude.Int.{ℤ, pos, negsuc, eqb_ℤ}
use nmxptool.Double.{Double}
use nmxptool.Packet.{DataProcess}
use nmxptool.Text.{Str}
use nmxptool.Word.{Eight}
use nmxptool.Chan.{ChanKey, ChanList}
use nmxptool.Decode.{Outcome, returned, exited, faulted}
use nmxptool.Decode.Compressed.{process_compressed}
use nmxptool.Decode.Decompressed.{process_decompressed}
use nmxptool.Transport.{Socket, socket_ok}
use nmxptool.Transport.Message.{Message, htonl, send_header, send_message, receive_message}

-- NMXP_MSG_CONNECT, NMXP_MSG_TERMINATESUBSCRIPTION, NMXP_MSG_ADDTIMESERIESCHANNELS and the two types
-- of data messages.
abbrev pub msg_connect : ℤ
msg_connect = pos 100

abbrev pub msg_terminate : ℤ
msg_terminate = pos 200

abbrev pub msg_add_time_series : ℤ
msg_add_time_series = pos 120

abbrev pub msg_compressed : ℤ
msg_compressed = pos 1

abbrev pub msg_decompressed : ℤ
msg_decompressed = pos 4

-- NMXP_MAX_LENGTH_DATA_BUFFER.
abbrev pub max_length_data_buffer : ℕ
max_length_data_buffer = 16368

-- The keys of the channels, each in four bytes.
unfoldable pub key_bytes : ChanList → List ℕ
key_bytes [] = []
key_bytes (c ∷ cs) = htonl c.key ++ key_bytes cs

-- The buffer that nmxp_sendAddTimeSeriesChannel_raw fills.
unfoldable pub add_channels_body : ChanList → ℤ → ℤ → ℤ → List ℕ
add_channels_body channels short_term_completion out_format buffer_flag =
    htonl (pos (length channels))
    ++ (key_bytes channels
        ++ (htonl short_term_completion ++ (htonl out_format ++ htonl buffer_flag)))

module _ (sock : Socket) where
  open sock use {State}

  unfoldable pub send_connect : State → ℤ × State
  send_connect s = send_message sock s msg_connect []

  -- `message` is NULL or a string; its last byte is not sent. With an empty string the header says -1.
  unfoldable pub send_terminate_subscription : State → Option Str → ℤ × State
  send_terminate_subscription s none = send_message sock s msg_terminate []
  send_terminate_subscription s (some []) = send_header sock s msg_terminate (negsuc 0)
  send_terminate_subscription s (some (c ∷ message)) =
      send_message sock s msg_terminate (take (length message) (c ∷ message))

  unfoldable pub send_add_channels : State → ChanList → ℤ → ℤ → ℤ → ℤ × State
  send_add_channels s channels short_term_completion out_format buffer_flag =
      send_message sock s msg_add_time_series
        (add_channels_body channels short_term_completion out_format buffer_flag)

  -- What `buffer`, an array of zeros at first, holds behind the body of a message.
  abbrev pub behind : Message sock → List ℕ
  behind m = replicate (max_length_data_buffer - length m.buffer) 0

  -- `nmxp_receiveData`: NULL unless a data message came.
  unfoldable pub receive_data :
      (dbl : Double)
      → (Eight → dbl.Num)
      → Bool
      → ChanList
      → Str
      → Str
      → State
      → Option (Outcome (DataProcess dbl.Num))
  receive_data dbl double_of big channels network_code location_code s =
      let m = receive_message sock max_length_data_buffer s in
      if eqb_ℤ m.result socket_ok
      then (if eqb_ℤ m.type msg_compressed
          then some
              (process_compressed dbl big m.buffer (behind m) channels network_code location_code)
          else (if eqb_ℤ m.type msg_decompressed
              then some (
                  process_decompressed dbl double_of big m.buffer (behind m) channels network_code
                    location_code)
              else none))
      else none
