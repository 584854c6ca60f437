-- ===== src/Transport/Message/Roundtrip.antt =====
-- A message that nmxp_sendMessage has put on a stream is the one that nmxp_receiveMessage returns.
use nmxptool.Prelude.{
  ℕ, ◌+◌, ◌*◌, ◌/◌, ◌%◌, ◌≤◌, ◌<◌, ◌≡◌, ◌≢◌, refl, sym, ◌∙◌, ap, inl, inr, true, false, List, [],
  ◌++◌, append-nil, append_assoc, length, nil_of_length, ltb, arith, Bool-cases,
}
use nmxptool.Prelude.Int.{ℤ, pos, negsuc, eqb_ℤ, ltb_ℤ}
use nmxptool.Word.{signed_32}
use nmxptool.Word.Laws.{IsInt32}
use nmxptool.Chan.{word32}
use nmxptool.Decode.{ntohl_at}
use nmxptool.Transport.{Socket, send_ctrl, recv_ctrl, socket_ok}
use nmxptool.Transport.Stream.{IsStream, recv_ctrl-Stored}
use nmxptool.Transport.Message.{
  nmx_signature, htonl, header_bytes, send_header, send_message, read_header, receive_header,
  read_body, receive_message,
}

pub word32_lt : (z : ℤ) → word32 z < 4294967296
word32_lt (pos n) = ground arith
word32_lt (negsuc n) = ground arith

pub signed-word32 : (z : ℤ) → IsInt32 z → signed_32 (word32 z) ≡ z
signed-word32 (pos n) h = ground arith
signed-word32 (negsuc n) h = ground arith

pub joined :
    (w : ℕ)
    → w < 4294967296
    → 16777216 * (w / 16777216 % 256) + 65536 * (w / 65536 % 256) + 256 * (w / 256 % 256) + w % 256
      ≡ w
joined w h = omega arith

pub four_back : (z : ℤ) (xs : List ℕ) → IsInt32 z → ntohl_at (htonl z ++ xs) 0 ≡ z
unfolding ntohl_at
four_back z xs h = ap signed_32 (joined (word32 z) (word32_lt z)) ∙ signed-word32 z h

-- The three words of a header are read back.
pub ntohl-header :
    (type len : ℤ)
    → IsInt32 type
    → IsInt32 len
    → (ntohl_at (header_bytes type len) 0 ≡ nmx_signature)
      × (ntohl_at (header_bytes type len) 4 ≡ type)
      × (ntohl_at (header_bytes type len) 8 ≡ len)
unfolding header_bytes ntohl_at
ntohl-header type len h k = (refl, four_back type [] h, four_back len [] k)

module _ (sock : Socket) (stream : IsStream sock) where
  open sock use {State}
  open stream use {content}

  -- A header on the stream is accepted and taken off it.
  pub receive_header-Stored :
      (s : State) (type len : ℤ) (rest : List ℕ)
      → IsInt32 type
      → IsInt32 len
      → type ≢ pos 0
      → content s ≡ header_bytes type len ++ rest
      → ((receive_header sock s).result ≡ socket_ok)
        × ((receive_header sock s).type ≡ type)
        × ((receive_header sock s).len ≡ len)
        × (content (receive_header sock s).state ≡ rest)
        × ((receive_header sock s).buffer ≡ [])
        × ((receive_header sock s).recv_errno ≡ pos 0)
  unfolding receive_header read_header header_bytes
  receive_header-Stored s type len rest h k n e =
      let t = recv_ctrl-Stored sock stream s (header_bytes type len) rest e in
      let back = ntohl-header type len h k in
      let same : (recv_ctrl sock 12 s).received ≡ header_bytes type len = t.1 in
      rw t.0 (
        rw (ap (λ b. ntohl_at b 4) same ∙ back.1) (
          rw (ap (λ b. ntohl_at b 0) same ∙ back.0) (
            rw (ap (λ b. ntohl_at b 8) same ∙ back.2)
              (rw (not_zero type n) (refl, refl, refl, t.2, refl, t.3)))))
    where
      not_zero : (z : ℤ) → z ≢ pos 0 → eqb_ℤ z (pos 0) ≡ false
      not_zero z q = elim (Bool-cases (eqb_ℤ z (pos 0))) [
        | inl e ↦ absurd (q (zero_of z e))
        | inr e ↦ e
      ]
        where
          zero_of : (y : ℤ) → eqb_ℤ y (pos 0) ≡ true → y ≡ pos 0
          zero_of y e = ground arith

  -- A message on the stream is returned whole, and nothing behind it is taken.
  pub receive_message-Stored :
      (s : State) (type : ℤ) (body rest : List ℕ) (buffer_length : ℕ)
      → IsInt32 type
      → type ≢ pos 0
      → length body < 2147483648
      → length body ≤ buffer_length
      → content s ≡ header_bytes type (pos (length body)) ++ (body ++ rest)
      → ((receive_message sock buffer_length s).result ≡ socket_ok)
        × ((receive_message sock buffer_length s).type ≡ type)
        × ((receive_message sock buffer_length s).len ≡ pos (length body))
        × ((receive_message sock buffer_length s).buffer ≡ body)
        × (content (receive_message sock buffer_length s).state ≡ rest)
  unfolding receive_message read_body
  receive_message-Stored s type body rest buffer_length h n small fits e =
      let t =
        receive_header-Stored s type (pos (length body)) (body ++ rest) h (small, omega arith) n
          e in
      let b = recv_ctrl-Stored sock stream (receive_header sock s).state body rest t.3 in
      rw t.0 (
        rw t.2 (
          rw (room (length body) fits) (elim (Bool-cases (ltb_ℤ (pos 0) (pos (length body)))) [
            | inl some_bytes ↦ rw some_bytes (b.0, t.1, refl, b.1, b.2)
            | inr no_bytes ↦ rw no_bytes (
              refl,
              t.1,
              refl,
              t.4 ∙ sym (none_left body no_bytes),
              t.3 ∙ ap (λ x. x ++ rest) (none_left body no_bytes),
            )
          ])))
    where
      room : (m : ℕ) → m ≤ buffer_length → ltb_ℤ (pos buffer_length) (pos m) ≡ false
      room m l = ground arith

      none_left : (xs : List ℕ) → ltb_ℤ (pos 0) (pos (length xs)) ≡ false → xs ≡ []
      none_left xs q = nil_of_length xs (at_most_0 (length xs) q)
        where
          at_most_0 : (m : ℕ) → ltb_ℤ (pos 0) (pos m) ≡ false → m ≤ 0
          at_most_0 m p = ground arith

  -- send() on the other end of the stream puts all bytes behind those that are on their way.
  pub record Appends : Type 0 where
    pub appends :
        (s : State) (bytes : List ℕ)
        → ((sock.send s bytes).0 ≡ pos (length bytes))
          × (content (sock.send s bytes).1 ≡ content s ++ bytes)

  send_ctrl-appends :
      Appends
      → (s : State) (bytes : List ℕ)
      → ((send_ctrl sock s bytes).0 ≡ socket_ok)
        × (content (send_ctrl sock s bytes).1 ≡ content s ++ bytes)
  unfolding send_ctrl
  send_ctrl-appends a s bytes =
      (rw ((a.appends s bytes).0) (rw (same (length bytes)) refl), (a.appends s bytes).1)
    where
      same : (m : ℕ) → eqb_ℤ (pos m) (pos m) ≡ true
      same m = ground arith

  send_message-appends :
      Appends
      → (s : State) (type : ℤ) (body : List ℕ)
      → ((send_message sock s type body).0 ≡ socket_ok)
        × (content (send_message sock s type body).1
            ≡ content s ++ (header_bytes type (pos (length body)) ++ body))
  unfolding send_message send_header
  send_message-appends a s type body =
      let t = send_ctrl-appends a s (header_bytes type (pos (length body))) in
      let b =
        send_ctrl-appends a (send_ctrl sock s (header_bytes type (pos (length body)))).1 body in
      rw t.0 (elim (Bool-cases (ltb 0 (length body))) [
        | inl some_bytes ↦ rw some_bytes (
          b.0,
          b.1
              ∙ ap (λ x. x ++ body) t.1
              ∙ append_assoc (content s) (header_bytes type (pos (length body))) body,
        )
        | inr no_bytes ↦ rw no_bytes (
          refl,
          t.1
              ∙ ap (λ x. content s ++ x)
                  (sym (append-nil (header_bytes type (pos (length body))))
                    ∙ ap (λ x. header_bytes type (pos (length body)) ++ x)
                        (sym (nil_of_length body (at_most_0 (length body) no_bytes)))),
        )
      ])
    where
      at_most_0 : (m : ℕ) → ltb 0 m ≡ false → m ≤ 0
      at_most_0 m p = ground arith

  -- A message with an int32_t type that is not 0 and a body that has room in the buffer and its
  -- length in an int32_t, put by nmxp_sendMessage on an empty stream to which send() appends, is
  -- what nmxp_receiveMessage returns, however recv() divides it.
  pub receive_message-send_message :
      Appends
      → (s : State) (type : ℤ) (body : List ℕ) (buffer_length : ℕ) → content s ≡ []
      → IsInt32 type
      → type ≢ pos 0
      → length body < 2147483648
      → length body ≤ buffer_length
      → let m = receive_message sock buffer_length (send_message sock s type body).1 in
        (m.result ≡ socket_ok) × (m.type ≡ type) × (m.len ≡ pos (length body)) × (m.buffer ≡ body)
  receive_message-send_message a s type body buffer_length e h n small fits =
      let t =
        receive_message-Stored (send_message sock s type body).1 type body [] buffer_length h n
          small fits
          ((send_message-appends a s type body).1
            ∙ ap (λ c. c ++ (header_bytes type (pos (length body)) ++ body)) e
            ∙ ap (λ b. header_bytes type (pos (length body)) ++ b) (sym (append-nil body))) in
      (t.0, t.1, t.2, t.3)
