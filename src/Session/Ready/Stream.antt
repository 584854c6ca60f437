-- ===== src/Session/Ready/Stream.antt =====
-- nmxp_waitReady on a stream of messages.
use nmxptool.Prelude.{
  ℕ, zero, suc, ◌+◌, ◌≤◌, ◌<◌, ◌≡◌, ◌≢◌, refl, sym, ◌∙◌, ap, subst, inl, inr, Bool, true, false,
  not, ◌&&◌, List, [], ◌∷◌, ◌++◌, length, arith, All, Bool-cases,
}
use nmxptool.Prelude.Int.{ℤ, pos, eqb_ℤ, ltb_ℤ, pos_part}
use nmxptool.Word.Laws.{IsInt32}
use nmxptool.Decode.{returned, ntohl_at}
use nmxptool.Transport.{Socket, recv_ctrl, socket_ok}
use nmxptool.Transport.Stream.{IsStream, recv_ctrl-Stored}
use nmxptool.Transport.Duplex.{IsDuplex, recv_ctrl-sent}
use nmxptool.Transport.Message.{nmx_signature, htonl, header_bytes}
use nmxptool.Transport.Message.Roundtrip.{four_back}
use nmxptool.Session.Ready.{
  msg_ready, msg_terminated, recv_word, read_other, read_ready, read_signature, ready_round,
  ready_rounds, wait_ready, Answer,
}

eqb_ℤ-self : (z : ℤ) → eqb_ℤ z z ≡ true
eqb_ℤ-self z = ground arith

pub eqb_ℤ-ne : (a b : ℤ) → a ≢ b → eqb_ℤ a b ≡ false
eqb_ℤ-ne a b n = elim (Bool-cases (eqb_ℤ a b)) [ inl e ↦ absurd (n (same a b e)) | inr e ↦ e ]
  where
    same : (x y : ℤ) → eqb_ℤ x y ≡ true → x ≡ y
    same x y h = ground arith

-- A message before the Ready message, and whether a word of zeros stands before it.
pub record Before : Type 0 where
  pub zeros : Bool
  pub type : ℤ
  pub body : List ℕ

pub record IsBefore (m : Before) : Type 0 where
  pub word : IsInt32 m.type
  pub not_ready : m.type ≢ msg_ready
  pub not_terminated : m.type ≢ msg_terminated
  pub short : length m.body < 2147483648

abbrev pub zero_word : Bool → List ℕ → List ℕ
zero_word true xs = 0 ∷ 0 ∷ 0 ∷ 0 ∷ xs
zero_word false xs = xs

abbrev pub message_bytes : Bool → ℤ → List ℕ → List ℕ → List ℕ
message_bytes zeros type body rest =
    zero_word zeros (header_bytes type (pos (length body)) ++ (body ++ rest))

abbrev pub messages_bytes : List Before → List ℕ → List ℕ
messages_bytes [] rest = rest
messages_bytes (m ∷ ms) rest = message_bytes m.zeros m.type m.body (messages_bytes ms rest)

module _ (sock : Socket) (stream : IsStream sock) (duplex : IsDuplex sock stream) where
  open sock use {State}
  open stream use {content}
  open duplex use {sent}

  pub recv_word-Stored :
      (s : State) (z : ℤ) (rest : List ℕ)
      → IsInt32 z
      → content s ≡ htonl z ++ rest
      → ((recv_word sock s).result ≡ socket_ok)
        × ((recv_word sock s).value ≡ z)
        × (content (recv_word sock s).state ≡ rest)
        × (sent (recv_word sock s).state ≡ sent s)
  unfolding recv_word
  recv_word-Stored s z rest h e =
      let t = recv_ctrl-Stored sock stream s (htonl z) rest e in
      (
        t.0,
        ap (λ b. ntohl_at b 0) t.1 ∙ four_back z [] h,
        t.2,
        recv_ctrl-sent sock stream duplex 4 s,
      )

  -- The signature, with or without zeros before it.
  signature-Stored :
      (s : State) (zeros : Bool) (rest : List ℕ)
      → content s ≡ zero_word zeros (htonl nmx_signature ++ rest)
      → let w = read_signature sock (recv_word sock s) in
        ((recv_word sock s).result ≡ socket_ok)
        × (w.value ≡ nmx_signature)
        × (content w.state ≡ rest)
        × (sent w.state ≡ sent s)
  unfolding read_signature
  signature-Stored s true rest e =
      let z =
        recv_word-Stored s (pos 0) (htonl nmx_signature ++ rest) (omega arith, omega arith) e in
      let t =
        recv_word-Stored (recv_word sock s).state nmx_signature rest (omega arith, omega arith)
          z.2 in
      rw z.1 (z.0, t.1, t.2, t.3 ∙ z.3)
  signature-Stored s false rest e =
      let t = recv_word-Stored s nmx_signature rest (omega arith, omega arith) e in
      rw t.1 (t.0, refl, t.2, t.3)

  -- The body of a message is taken off, whatever its length.
  read_other-Stored :
      (s : State) (type : ℤ) (body rest : List ℕ)
      → type ≢ msg_terminated
      → length body < 2147483648
      → content s ≡ htonl (pos (length body)) ++ (body ++ rest)
      → (s' : State) × (content s' ≡ rest)
        × (sent s' ≡ sent s)
        × ((k : ℤ → State → Answer sock) → read_other sock type s k ≡ k socket_ok s')
  unfolding read_other
  read_other-Stored s type [] rest n h e =
      let t = recv_word-Stored s (pos 0) rest (omega arith, omega arith) e in
      (
        (recv_word sock s).state,
        t.2,
        t.3,
        (λ k.
            rw (t.0, read_other)
              (rw (t.1, read_other) (ap (λ z. k z (recv_word sock s).state) t.0))),
      )
  read_other-Stored s type (b ∷ body) rest n h e =
      let t =
        recv_word-Stored s (pos (length (b ∷ body))) ((b ∷ body) ++ rest) (h, omega arith) e in
      let len = recv_word sock s in
      let r = recv_ctrl-Stored sock stream len.state (b ∷ body) rest t.2 in
      let done =
        subst (λ z. (recv_ctrl sock (pos_part z) len.state).result ≡ socket_ok) (sym t.1) r.0 in
      (
        (recv_ctrl sock (pos_part len.value) len.state).state,
        subst (λ z. content (recv_ctrl sock (pos_part z) len.state).state ≡ rest) (sym t.1) r.2,
        recv_ctrl-sent sock stream duplex (pos_part len.value) len.state ∙ t.3,
        (λ k.
            rw (t.0, read_other)
              (rw (t.1, read_other)
                (rw (positive (length body), read_other)
                  (rw (eqb_ℤ-ne type msg_terminated n, read_other)
                    (rw (done, read_other)
                      (rw (never (eqb_ℤ len.value (pos 4)), read_other)
                        (ap (λ z. k z (recv_ctrl sock (pos_part len.value) len.state).state) done
                          ∙ ap (λ z. k socket_ok (recv_ctrl sock (pos_part z) len.state).state)
                              t.1))))))),
      )
    where
      positive : (m : ℕ) → ltb_ℤ (pos 0) (pos (suc m)) ≡ true
      positive m = ground arith

      never : (b : Bool) → (b && false) ≡ false
      never true = refl
      never false = refl

  round-other :
      (s : State) (m : Before) (rest : List ℕ)
      → IsBefore m
      → content s ≡ message_bytes m.zeros m.type m.body rest
      → (s' : State) × (content s' ≡ rest)
        × (sent s' ≡ sent s)
        × ((k : ℤ → ℤ → State → Answer sock) → ready_round sock s k ≡ k socket_ok m.type s')
  unfolding ready_round header_bytes
  round-other s m rest v e =
      let w =
        signature-Stored s m.zeros
          (htonl m.type ++ (htonl (pos (length m.body)) ++ (m.body ++ rest))) e in
      let signature = read_signature sock (recv_word sock s) in
      let t =
        recv_word-Stored signature.state m.type (htonl (pos (length m.body)) ++ (m.body ++ rest))
          v.word w.2 in
      let b =
        read_other-Stored (recv_word sock signature.state).state m.type m.body rest v.not_terminated
          v.short t.2 in
      (
        b.0,
        b.1,
        b.2 ∙ t.3 ∙ w.3,
        (λ k.
            rw (w.0, ready_round)
              (rw (w.1, ready_round)
                (rw (t.0, ready_round)
                  (rw (t.1, ready_round)
                    (rw (eqb_ℤ-ne m.type msg_ready v.not_ready, ready_round)
                      (ap
                          (λ z.
                            read_other sock z (recv_word sock signature.state).state
                              (λ rc s'. k rc z s'))
                          t.1
                        ∙ b.3 (λ rc s'. k rc m.type s'))))))),
      )

  read_ready-Stored :
      (s : State) (rest : List ℕ)
      → content s ≡ htonl (pos 0) ++ rest
      → (s' : State) × (content s' ≡ rest)
        × (sent s' ≡ sent s)
        × ((k : ℤ → State → Answer sock) → read_ready sock s k ≡ k socket_ok s')
  unfolding read_ready
  read_ready-Stored s rest e =
      let t = recv_word-Stored s (pos 0) rest (omega arith, omega arith) e in
      (
        (recv_word sock s).state,
        t.2,
        t.3,
        (λ k.
            rw (t.0, read_ready)
              (rw (t.1, read_ready) (ap (λ z. k z (recv_word sock s).state) t.0))),
      )

  round-ready :
      (s : State) (zeros : Bool) (rest : List ℕ)
      → content s ≡ message_bytes zeros msg_ready [] rest
      → (s' : State) × (content s' ≡ rest)
        × (sent s' ≡ sent s)
        × ((k : ℤ → ℤ → State → Answer sock) → ready_round sock s k ≡ k socket_ok msg_ready s')
  unfolding ready_round header_bytes
  round-ready s zeros rest e =
      let w = signature-Stored s zeros (htonl msg_ready ++ (htonl (pos 0) ++ rest)) e in
      let signature = read_signature sock (recv_word sock s) in
      let t =
        recv_word-Stored signature.state msg_ready (htonl (pos 0) ++ rest)
          (omega arith, omega arith) w.2 in
      let b = read_ready-Stored (recv_word sock signature.state).state rest t.2 in
      (
        b.0,
        b.1,
        b.2 ∙ t.3 ∙ w.3,
        (λ k.
            rw (w.0, ready_round)
              (rw (w.1, ready_round)
                (rw (t.0, ready_round)
                  (rw (t.1, ready_round)
                    (ap
                        (λ z.
                          read_ready sock (recv_word sock signature.state).state
                            (λ rc s'. k rc z s'))
                        t.1
                      ∙ b.3 (λ rc s'. k rc msg_ready s')))))),
      )

  rounds-Stored :
      (n : ℕ) (s : State) (ms : List Before) (zeros : Bool) (rest : List ℕ)
      → 2 + length ms ≤ n
      → All IsBefore ms
      → content s ≡ messages_bytes ms (message_bytes zeros msg_ready [] rest)
      → (s' : State) × (ready_rounds sock n s ≡ returned (socket_ok, s'))
        × (content s' ≡ rest)
        × (sent s' ≡ sent s)
  unfolding ready_rounds
  rounds-Stored zero s ms zeros rest h v e = absurd (omega arith)
  rounds-Stored (suc zero) s ms zeros rest h v e = absurd (omega arith)
  rounds-Stored (suc (suc n)) s [] zeros rest h v e =
      let r = round-ready s zeros rest e in (r.0, r.3 _, r.1, r.2)
  rounds-Stored (suc (suc n)) s (m ∷ ms) zeros rest h v e =
      let r = round-other s m (messages_bytes ms (message_bytes zeros msg_ready [] rest)) v.0 e in
      let t = rounds-Stored (suc n) r.0 ms zeros rest (omega arith) v.1 r.1 in
      (
        t.0,
        r.3 _
            ∙ ap
                (λ b. elim (not b) [
                  | true ↦ ready_rounds sock (suc n) r.0
                  | false ↦ returned (socket_ok, r.0)
                ])
                (eqb_ℤ-ne m.type msg_ready v.0.not_ready)
            ∙ t.1,
        t.2,
        t.3 ∙ r.2,
      )

  -- When at most nine messages, none a Ready or a TerminateSubscription, stand on the stream before a Ready
  -- message, each with or without a word of zeros, the call returns NMXP_SOCKET_OK, takes exactly these and
  -- sends nothing.
  pub wait_ready-Stored :
      (s : State) (ms : List Before) (zeros : Bool) (rest : List ℕ)
      → length ms ≤ 9
      → All IsBefore ms
      → content s ≡ messages_bytes ms (message_bytes zeros msg_ready [] rest)
      → (s' : State) × (wait_ready sock s ≡ returned (socket_ok, s'))
        × (content s' ≡ rest)
        × (sent s' ≡ sent s)
  unfolding wait_ready
  wait_ready-Stored s ms zeros rest h v e = rounds-Stored 11 s ms zeros rest (omega arith) v e
