-- ===== src/Transport/Duplex.antt =====
-- A connection with two directions: the bytes on their way to the client, and those it has sent.
use nmxptool.Prelude.{
  ℕ, zero, suc, ◌-◌, ◌≤◌, ◌≡◌, refl, sym, ◌∙◌, ap, inl, inr, true, false, not, ◌&&◌, List, [], ◌++◌,
  append-nil, append_assoc, length, ltb, Bool-cases, arith, nil_of_length,
}
use nmxptool.Prelude.Int.{ℤ, pos, ltb_ℤ, eqb_ℤ, pos_part}
use nmxptool.Decode.{ntohl_at}
use nmxptool.Transport.{
  Socket, Receiving, Received, store, recv_once, keeps_receiving, recv_loop, recv_result, recv_ctrl,
  send_ctrl, socket_ok,
}
use nmxptool.Transport.Stream.{IsStream}
use nmxptool.Transport.Message.{
  Message, header_bytes, nmx_signature, send_header, send_message, read_header, receive_header,
  read_body, receive_message,
}

-- send() takes all bytes and leaves what is on its way alone; recv() leaves alone what was sent.
pub record IsDuplex (sock : Socket) (stream : IsStream sock) : Type 0 where
  pub sent : sock.State → List ℕ
  pub sends :
      (s : sock.State) (bytes : List ℕ)
      → ((sock.send s bytes).0 ≡ pos (length bytes))
        × (stream.content (sock.send s bytes).1 ≡ stream.content s)
        × (sent (sock.send s bytes).1 ≡ sent s ++ bytes)
  pub receives : (s : sock.State) (n : ℕ) → sent (sock.recv s n).1 ≡ sent s

abbrev pub message_of : ℤ → List ℕ → List ℕ
message_of type body = header_bytes type (pos (length body)) ++ body

module _ (sock : Socket) (stream : IsStream sock) (duplex : IsDuplex sock stream) where
  open sock use {State}
  open stream use {content}
  open duplex use {sent}

  pub send_ctrl-sent :
      (s : State) (bytes : List ℕ)
      → ((send_ctrl sock s bytes).0 ≡ socket_ok)
        × (content (send_ctrl sock s bytes).1 ≡ content s)
        × (sent (send_ctrl sock s bytes).1 ≡ sent s ++ bytes)
  unfolding send_ctrl
  send_ctrl-sent s bytes =
      let t = duplex.sends s bytes in (rw t.0 (rw (same (length bytes)) refl), t.1, t.2)
    where
      same : (m : ℕ) → eqb_ℤ (pos m) (pos m) ≡ true
      same m = ground arith

  -- A message is sent whole, and what is on its way to the client stays.
  pub send_message-sent :
      (s : State) (type : ℤ) (body : List ℕ)
      → ((send_message sock s type body).0 ≡ socket_ok)
        × (content (send_message sock s type body).1 ≡ content s)
        × (sent (send_message sock s type body).1 ≡ sent s ++ message_of type body)
  unfolding send_message send_header
  send_message-sent s type body =
      let header = header_bytes type (pos (length body)) in
      let t = send_ctrl-sent s header in
      let b = send_ctrl-sent (send_ctrl sock s header).1 body in
      rw t.0 (elim (Bool-cases (ltb 0 (length body))) [
        | inl some_bytes ↦
            rw some_bytes
              (b.0, b.1 ∙ t.1, b.2 ∙ ap (λ x. x ++ body) t.2 ∙ append_assoc (sent s) header body)
        | inr no_bytes ↦ rw no_bytes (
          refl,
          t.1,
          t.2
              ∙ ap (λ x. sent s ++ x)
                  (sym (append-nil header)
                    ∙ ap (λ x. header ++ x)
                        (sym (nil_of_length body (at_most_0 (length body) no_bytes)))),
        )
      ])
    where
      at_most_0 : (m : ℕ) → ltb 0 m ≡ false → m ≤ 0
      at_most_0 m p = ground arith

  loop-sent :
      (fuel len : ℕ) (v : Receiving sock) → sent (recv_loop sock fuel len v).state ≡ sent v.state
  unfolding recv_loop recv_once store
  loop-sent zero len v = refl
  loop-sent (suc fuel) len v = elim (Bool-cases (keeps_receiving sock len v)) [
    | inl k ↦ rw k (
        loop-sent fuel len (recv_once sock len v)
        ∙ duplex.receives v.state (len - length v.received))
    | inr k ↦ rw k refl
  ]

  pub recv_ctrl-sent : (len : ℕ) (s : State) → sent (recv_ctrl sock len s).state ≡ sent s
  unfolding recv_ctrl recv_result
  recv_ctrl-sent len s =
      loop-sent len len (record { cc = pos 1; recv_errno = pos 0; received = []; state = s })

  header-state : (r : Received sock) → (read_header sock r).state ≡ r.state
  unfolding read_header
  header-state r =
      elim (Bool-cases (eqb_ℤ r.result socket_ok && not (eqb_ℤ (ntohl_at r.received 4) (pos 0)))) [
        | inl e ↦ rw e (elim (Bool-cases (eqb_ℤ (ntohl_at r.received 0) nmx_signature)) [
          | inl f ↦ rw f refl
          | inr f ↦ rw f refl
        ])
        | inr e ↦ rw e refl
      ]

  body-sent : (n : ℕ) (m : Message sock) → sent (read_body sock n m).state ≡ sent m.state
  unfolding read_body
  body-sent n m = elim (Bool-cases (eqb_ℤ m.result socket_ok)) [
    | inl e ↦ rw e (elim (Bool-cases (ltb_ℤ (pos n) m.len)) [
      | inl f ↦ rw f refl
      | inr f ↦ rw f (elim (Bool-cases (ltb_ℤ (pos 0) m.len)) [
        | inl g ↦ rw g (recv_ctrl-sent (pos_part m.len) m.state)
        | inr g ↦ rw g refl
      ])
    ])
    | inr e ↦ rw e refl
  ]

  -- To receive a message sends nothing.
  pub receive_message-sent : (n : ℕ) (s : State) → sent (receive_message sock n s).state ≡ sent s
  unfolding receive_message receive_header
  receive_message-sent n s =
      body-sent n (receive_header sock s)
      ∙ ap sent (header-state (recv_ctrl sock 12 s))
      ∙ recv_ctrl-sent 12 s
