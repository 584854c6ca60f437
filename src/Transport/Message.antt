-- ===== src/Transport/Message.antt =====
-- The messages: nmxp_sendHeader, nmxp_sendMessage, nmxp_receiveHeader and nmxp_receiveMessage.
pub mod Roundtrip
pub mod Bounds
use nmxptool.Prelude.{
  ℕ, zero, suc, ◌+◌, ◌-◌, ◌/◌, ◌%◌, Bool, true, false, not, ◌&&◌, ◌||◌, List, [], ◌∷◌, ◌++◌, length,
  ltb, ◌==◌, get_or, if◌then◌else◌,
}
use nmxptool.Prelude.Int.{ℤ, pos, negsuc, eqb_ℤ, ltb_ℤ, leb_ℤ, pos_part}
use nmxptool.Chan.{word32}
use nmxptool.Decode.{ntohl_at}
use nmxptool.Transport.{Socket, Received, send_ctrl, recv_ctrl, socket_ok, socket_error}

-- NMX_SIGNATURE, 0x7abcde0f.
abbrev pub nmx_signature : ℤ
nmx_signature = pos 2059197967

-- The four bytes of `htonl(z)`.
abbrev pub htonl : ℤ → List ℕ
htonl z =
    word32 z / 16777216 % 256 ∷ word32 z / 65536 % 256 ∷ word32 z / 256 % 256 ∷ word32 z % 256 ∷ []

-- NMXP_MESSAGE_HEADER as nmxp_sendHeader fills it.
unfoldable pub header_bytes : ℤ → ℤ → List ℕ
header_bytes type len = htonl nmx_signature ++ htonl type ++ htonl len

module _ (sock : Socket) where
  open sock use {State}

  unfoldable pub send_header : State → ℤ → ℤ → ℤ × State
  send_header s type len = send_ctrl sock s (header_bytes type len)

  -- `nmxp_sendMessage`; the length is that of the buffer, 0 without one.
  unfoldable pub send_message : State → ℤ → List ℕ → ℤ × State
  send_message s type buffer =
      let r = send_header s type (pos (length buffer)) in
      let body = send_ctrl sock r.1 buffer in
      if eqb_ℤ r.0 socket_ok && ltb 0 (length buffer) then body else r

  -- What nmxp_receiveHeader and nmxp_receiveMessage leave: `buffer` is what the body has received.
  pub record Message : Type 0 where
    pub result : ℤ
    pub type : ℤ
    pub len : ℤ
    pub recv_errno : ℤ
    pub buffer : List ℕ
    pub state : State

  -- The part of nmxp_receiveHeader behind its call of nmxp_recv_ctrl.
  unfoldable pub read_header : Received sock → Message
  read_header r =
      let empty : Message = record {
        result = r.result;
        type = pos 0;
        len = pos 0;
        recv_errno = r.recv_errno;
        buffer = [];
        state = r.state;
      } in
      if eqb_ℤ r.result socket_ok && not (eqb_ℤ (ntohl_at r.received 4) (pos 0))
      then (if eqb_ℤ (ntohl_at r.received 0) nmx_signature
          then record empty { type = ntohl_at r.received 4; len = ntohl_at r.received 8 }
          else record empty { result = socket_error })
      else empty

  unfoldable pub receive_header : State → Message
  receive_header s = read_header (recv_ctrl sock 12 s)

  -- The part of nmxp_receiveMessage behind its call of nmxp_receiveHeader.
  unfoldable pub read_body : ℕ → Message → Message
  read_body buffer_length m =
      let r = recv_ctrl sock (pos_part m.len) m.state in
      if eqb_ℤ m.result socket_ok
      then (if ltb_ℤ (pos buffer_length) m.len
          then record m { result = socket_error }
          else (if ltb_ℤ (pos 0) m.len
              then record m {
                result = r.result;
                recv_errno = r.recv_errno;
                buffer = r.received;
                state = r.state;
              }
              else m))
      else m

  unfoldable pub receive_message : ℕ → State → Message
  receive_message buffer_length s = read_body buffer_length (receive_header s)
