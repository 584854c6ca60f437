-- ===== src/Session/Login.antt =====
-- nmxp_sendConnectRequest, nmxp_sendDataRequest and nmxp_sendRequestPending of lib/nmxp.c.
pub mod Sent
use nmxptool.Prelude.{
  ℕ, ◌+◌, ◌-◌, ◌/◌, ◌%◌, Bool, true, false, ◌&&◌, not, Option, none, some, List, [], ◌∷◌, ◌++◌,
  length, take, replicate, ltb, if◌then◌else◌,
}
use nmxptool.Prelude.Int.{ℤ, pos}
use nmxptool.Text.{Str, is_nil, strncpy}
use nmxptool.Word.{Four, swap_4b}
use nmxptool.Chan.{word32}
use nmxptool.Crc.{crc32}
use nmxptool.Decode.{Outcome, returned, exited, faulted}
use nmxptool.Transport.{Socket}
use nmxptool.Transport.Message.{htonl, send_message}

-- NMXP_MSG_CONNECTREQUEST, NMXP_MSG_DATAREQUEST and NMXP_MSG_REQUESTPENDING.
abbrev pub msg_connect_request : ℤ
msg_connect_request = pos 206

abbrev pub msg_data_request : ℤ
msg_data_request = pos 227

abbrev pub msg_request_pending : ℤ
msg_request_pending = pos 110

-- An int32_t in memory, on a host with either byte order.
unfoldable pub store_4 : Bool → ℤ → Four
store_4 big z =
    let w : Four = record {
      b0 = word32 z / 16777216 % 256;
      b1 = word32 z / 65536 % 256;
      b2 = word32 z / 256 % 256;
      b3 = word32 z % 256;
    } in
    if big then w else swap_4b w

abbrev pub four_list : Four → List ℕ
four_list w = w.b0 ∷ w.b1 ∷ w.b2 ∷ w.b3 ∷ []

-- A string that may be NULL, as its length and its bytes count.
abbrev pub or_nil : Option Str → Str
or_nil none = []
or_nil (some s) = s

-- What is put into `crc32buf`: nothing unless there are a name and a password. `connection_time` has been
-- swapped on a little-endian host, the version is 0.
unfoldable pub checked_bytes : Bool → Str → Str → ℤ → List ℕ
checked_bytes big username password connection_time =
    let time = store_4 big connection_time in
    if not (is_nil username) && not (is_nil password)
    then username
      ++ (four_list (store_4 big (pos 0))
          ++ (four_list (if big then time else swap_4b time) ++ password))
    else []

-- strncpy() into an array of n zeros.
unfoldable pub padded : ℕ → Str → List ℕ
padded n s = strncpy n s ++ replicate (n - length (strncpy n s)) 0

-- The NMXP_CONNECT_REQUEST.
unfoldable pub connect_request_body : Bool → Str → Str → ℤ → List ℕ
connect_request_body big username password connection_time =
    padded 12 username
    ++ (htonl (pos 0)
        ++ (htonl connection_time
            ++ htonl (pos (crc32 0 (checked_bytes big username password connection_time)))))

module _ (sock : Socket) where
  open sock use {State}

  -- `nmxp_sendConnectRequest`. More than 100 bytes do not fit into `crc32buf`.
  unfoldable pub send_connect_request :
      Bool → State → Option Str → Option Str → ℤ → Outcome (ℤ × State)
  send_connect_request big s username password connection_time =
      if ltb 100 (length (checked_bytes big (or_nil username) (or_nil password) connection_time))
      then faulted
      else returned (
          send_message sock s msg_connect_request
            (connect_request_body big (or_nil username) (or_nil password) connection_time))

  unfoldable pub send_data_request : State → ℤ → ℤ → ℤ → ℤ × State
  send_data_request s key start_time end_time =
      send_message sock s msg_data_request (htonl key ++ (htonl start_time ++ htonl end_time))

  unfoldable pub send_request_pending : State → ℤ × State
  send_request_pending s = send_message sock s msg_request_pending []
