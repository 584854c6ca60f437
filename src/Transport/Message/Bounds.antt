-- ===== src/Transport/Message/Bounds.antt =====
-- nmxp_receiveMessage stores no more bytes than the buffer of its caller has room for.
use nmxptool.Prelude.{
  ℕ, ◌≤◌, ◌≡◌, refl, inl, inr, true, false, not, ◌&&◌, [], length, arith, Bool-cases,
}
use nmxptool.Prelude.Int.{ℤ, pos, eqb_ℤ, ltb_ℤ, pos_part}
use nmxptool.Decode.{ntohl_at}
use nmxptool.Transport.{Socket, Received, recv_ctrl, socket_ok}
use nmxptool.Transport.Receive.{KeepsContract, recv_ctrl-cases}
use nmxptool.Transport.Message.{
  Message, read_header, receive_header, read_body, receive_message, nmx_signature,
}

module _ (sock : Socket) (contract : KeepsContract sock) where
  open sock use {State}

  at_most : (len : ℕ) (s : State) → length (recv_ctrl sock len s).received ≤ len
  at_most len s = elim (recv_ctrl-cases sock contract len s) [
    | inl t ↦ omega (arith, t.1)
    | inr t ↦ omega (arith, t.1)
  ]

  header_empty : (s : State) → (receive_header sock s).buffer ≡ []
  unfolding receive_header read_header
  header_empty s = no_buffer (recv_ctrl sock 12 s)
    where
      no_buffer : (r : Received sock) → (read_header sock r).buffer ≡ []
      no_buffer r =
          elim (Bool-cases
            (eqb_ℤ r.result socket_ok && not (eqb_ℤ (ntohl_at r.received 4) (pos 0)))) [
              | inl e ↦ rw e (elim (Bool-cases (eqb_ℤ (ntohl_at r.received 0) nmx_signature)) [
                | inl q ↦ rw q refl
                | inr q ↦ rw q refl
              ])
              | inr e ↦ rw e refl
            ]

  body-le :
      (buffer_length : ℕ) (m : Message sock)
      → m.buffer ≡ []
      → length (read_body sock buffer_length m).buffer ≤ buffer_length
  unfolding read_body
  body-le buffer_length m h = elim (Bool-cases (eqb_ℤ m.result socket_ok)) [
    | inl e ↦ rw e (elim (Bool-cases (ltb_ℤ (pos buffer_length) m.len)) [
      | inl q ↦ rw q nothing
      | inr q ↦ rw q (elim (Bool-cases (ltb_ℤ (pos 0) m.len)) [
        | inl r ↦ rw r (
            within m.len q r (length (recv_ctrl sock (pos_part m.len) m.state).received)
              (at_most (pos_part m.len) m.state))
        | inr r ↦ rw r nothing
      ])
    ])
    | inr e ↦ rw e nothing
  ]
    where
      nothing : length m.buffer ≤ buffer_length
      nothing = rw h (omega arith)

      within :
          (z : ℤ)
          → ltb_ℤ (pos buffer_length) z ≡ false
          → ltb_ℤ (pos 0) z ≡ true
          → (n : ℕ) → n ≤ pos_part z
          → n ≤ buffer_length
      within z a b n c = ground arith

  -- Over a socket that keeps the contract of recv(), whatever length a header announces, the bytes
  -- that are stored have room in the buffer.
  pub receive_message-bounds :
      (buffer_length : ℕ) (s : State)
      → length (receive_message sock buffer_length s).buffer ≤ buffer_length
  unfolding receive_message
  receive_message-bounds buffer_length s =
      body-le buffer_length (receive_header sock s) (header_empty s)
