-- ===== src/Transport.antt =====
-- lib/nmxp_base.c: nmxp_send_ctrl, nmxp_recv_ctrl and the messages of the protocol over them.
pub mod Tests
pub mod Message
pub mod Receive
pub mod Stream
pub mod Duplex
use nmxptool.Prelude.{
  ℕ, zero, suc, ◌+◌, ◌-◌, Bool, true, false, not, ◌&&◌, ◌||◌, List, [], ◌∷◌, ◌++◌, length, ltb,
  ◌==◌, if◌then◌else◌,
}
use nmxptool.Prelude.Int.{ℤ, pos, negsuc, eqb_ℤ, ltb_ℤ, leb_ℤ}

-- What one call of recv() or send() does: the value it returns, `errno`, and the bytes that recv()
-- has stored or send() has taken.
pub record Reply : Type 0 where
  pub cc : ℤ
  pub errno : ℤ
  pub bytes : List ℕ

-- The socket belongs to the system: its states and its two calls are a parameter. `recv` takes the
-- size of the room in the buffer, `send` the bytes.
pub record Socket : Type 1 where
  pub State : Type 0
  pub recv : State → ℕ → Reply × State
  pub send : State → List ℕ → ℤ × State

-- EWOULDBLOCK, NMXP_SOCKET_OK and NMXP_SOCKET_ERROR.
abbrev pub ewouldblock : ℤ
ewouldblock = pos 11

abbrev pub socket_ok : ℤ
socket_ok = pos 0

abbrev pub socket_error : ℤ
socket_error = negsuc 0

module _ (sock : Socket) where
  open sock use {State, recv, send}

  unfoldable pub send_ctrl : State → List ℕ → ℤ × State
  send_ctrl s buffer =
      let r = send s buffer in
      (if eqb_ℤ r.0 (pos (length buffer)) then socket_ok else socket_error, r.1)

  -- The variables of the loop of nmxp_recv_ctrl; `recvCount` is the length of `received`.
  pub record Receiving : Type 0 where
    pub cc : ℤ
    pub recv_errno : ℤ
    pub received : List ℕ
    pub state : State

  -- The body of the loop behind its call. `-2` is what a replacement of recv() returns at a time-out.
  unfoldable pub store : Receiving → Reply → State → Receiving
  store v r s = record {
    cc = r.cc;
    recv_errno = if eqb_ℤ r.cc (negsuc 1) then ewouldblock else r.errno;
    received = if leb_ℤ r.cc (pos 0) then v.received else v.received ++ r.bytes;
    state = s;
  }

  unfoldable pub recv_once : ℕ → Receiving → Receiving
  recv_once len v = let r = recv v.state (len - length v.received) in store v r.0 r.1

  -- The condition of the loop.
  unfoldable pub keeps_receiving : ℕ → Receiving → Bool
  keeps_receiving len v =
      ltb_ℤ (pos 0) v.cc && eqb_ℤ v.recv_errno (pos 0) && ltb (length v.received) len

  unfoldable pub recv_loop : ℕ → ℕ → Receiving → Receiving
  recv_loop zero len v = v
  recv_loop (suc fuel) len v =
      let rest = recv_loop fuel len (recv_once len v) in if keeps_receiving len v then rest else v

  -- What a call leaves: its value, `*recv_errno`, the buffer and the socket.
  pub record Received : Type 0 where
    pub result : ℤ
    pub recv_errno : ℤ
    pub received : List ℕ
    pub state : State

  -- The part behind the loop.
  unfoldable pub recv_result : ℕ → Receiving → Received
  recv_result len v =
      let complete = length v.received == len in
      let bad = not complete || not (eqb_ℤ v.recv_errno (pos 0)) || leb_ℤ v.cc (pos 0) in
      let errno =
        if bad && eqb_ℤ v.cc (pos 0) && eqb_ℤ v.recv_errno (pos 0)
        then negsuc 99
        else v.recv_errno in
      record {
        result =
            if bad && (not complete || not (eqb_ℤ errno ewouldblock))
            then socket_error
            else socket_ok;
        recv_errno = errno;
        received = v.received;
        state = v.state;
      }

  -- `nmxp_recv_ctrl`, with one round of fuel for each byte that is asked for. The two calls of
  -- setsockopt() set how long recv() waits, which is the socket's.
  unfoldable pub recv_ctrl : ℕ → State → Received
  recv_ctrl len s =
      recv_result len
        (recv_loop len len (record { cc = pos 1; recv_errno = pos 0; received = []; state = s }))
