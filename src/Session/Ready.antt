-- ===== src/Session/Ready.antt =====
-- nmxp_readConnectionTime and nmxp_waitReady of lib/nmxp.c.
pub mod Stream
use nmxptool.Prelude.{
  ℕ, zero, suc, ◌+◌, ◌-◌, Bool, true, false, not, ◌&&◌, List, [], ◌∷◌, ltb, if◌then◌else◌,
}
use nmxptool.Prelude.Int.{ℤ, pos, negsuc, eqb_ℤ, ltb_ℤ, leb_ℤ, pos_part}
use nmxptool.Decode.{Outcome, returned, exited, faulted, ntohl_at}
use nmxptool.Transport.{Socket, recv_ctrl, socket_ok, socket_error}
use nmxptool.Transport.Message.{nmx_signature}

-- NMXP_MSG_READY, and NMXP_MSG_TERMINATESUBSCRIPTION.
abbrev pub msg_ready : ℤ
msg_ready = pos 208

abbrev pub msg_terminated : ℤ
msg_terminated = pos 200

module _ (sock : Socket) where
  open sock use {State}

  -- A call of nmxp_recv_ctrl for one word, and ntohl(): the result, the word and the socket. The cells
  -- that are not received are zero, as they are where the code uses the word after an error: only the
  -- signature, which is zero before it is received again.
  pub record Word : Type 0 where
    pub result : ℤ
    pub value : ℤ
    pub state : State

  unfoldable pub recv_word : State → Word
  recv_word s =
      let r = recv_ctrl sock 4 s in
      record { result = r.result; value = ntohl_at r.received 0; state = r.state }

  -- `nmxp_readConnectionTime`.
  unfoldable pub read_connection_time : State → Word
  read_connection_time s = recv_word s

  -- What a call comes to: its result and the socket, or exit(), or an access out of an array or to
  -- cells that have not been written.
  abbrev pub Answer : Type 0
  Answer = Outcome (ℤ × State)

  -- The branch of a wrong signature, which is always an error. The length of the message is used even if it
  -- could not be received, a read of cells that have not been written; one of 200 or more is written out of
  -- `err_buff`, an array of 200 bytes.
  unfoldable pub wrong_signature : ℤ → State → Answer
  wrong_signature signature s =
      let err_length = recv_word s in
      let err_reason = recv_word err_length.state in
      elim (eqb_ℤ signature (pos 200)) [
        | false ↦ returned (socket_error, s)
        | true ↦ elim (eqb_ℤ err_length.result socket_ok) [
          | false ↦ faulted
          | true ↦ elim (ltb_ℤ (pos 4) err_length.value) [
            | false ↦ returned (socket_error, err_reason.state)
            | true ↦ elim (ltb_ℤ err_length.value (pos 200)) [
              | true ↦ returned (
                socket_error,
                (recv_ctrl sock (pos_part err_length.value - 4) err_reason.state).state,
              )
              | false ↦ faulted
            ]
          ]
        ]
      ]

  -- A message that is not Ready; `k` is the rest of the round. A TerminateSubscription ends the program:
  -- its reason is read from four bytes of the new buffer.
  unfoldable pub read_other : ℤ → State → (ℤ → State → Answer) → Answer
  read_other type s k =
      let len = recv_word s in
      elim (eqb_ℤ len.result socket_ok) [
        | false ↦ returned (len.result, len.state)
        | true ↦ elim (ltb_ℤ (pos 0) len.value) [
          | false ↦ k len.result len.state
          | true ↦ elim (eqb_ℤ type msg_terminated) [
            | true ↦ if ltb_ℤ len.value (pos 4) then faulted else exited 255
            | false ↦
                let body = recv_ctrl sock (pos_part len.value) len.state in
                elim (eqb_ℤ len.value (pos 4) && not (eqb_ℤ body.result socket_ok)) [
                  | true ↦ returned (body.result, body.state)
                  | false ↦ k body.result body.state
                ]
          ]
        ]
      ]

  -- The Ready message, which has no body.
  unfoldable pub read_ready : State → (ℤ → State → Answer) → Answer
  read_ready s k =
      let len = recv_word s in
      elim (eqb_ℤ len.result socket_ok) [
        | false ↦ returned (len.result, len.state)
        | true ↦ elim (eqb_ℤ len.value (pos 0)) [
          | false ↦ returned (socket_error, len.state)
          | true ↦ k len.result len.state
        ]
      ]

  -- The signature, read again when it is zero.
  unfoldable pub read_signature : Word → Word
  read_signature w = if eqb_ℤ w.value (pos 0) then recv_word w.state else w

  -- The body of the loop; `k` takes `rc`, `type` and the socket at its end.
  unfoldable pub ready_round : State → (ℤ → ℤ → State → Answer) → Answer
  ready_round s k =
      let first = recv_word s in
      elim (eqb_ℤ first.result socket_ok) [
        | false ↦ returned (first.result, first.state)
        | true ↦
            let signature = read_signature first in
            elim (eqb_ℤ signature.value nmx_signature) [
              | false ↦ wrong_signature signature.value signature.state
              | true ↦
                  let type = recv_word signature.state in
                  elim (eqb_ℤ type.result socket_ok) [
                    | false ↦ returned (type.result, type.state)
                    | true ↦ elim (eqb_ℤ type.value msg_ready) [
                      | true ↦ read_ready type.state (λ rc s'. k rc type.value s')
                      | false ↦ read_other type.value type.state (λ rc s'. k rc type.value s')
                    ]
                  ]
            ]
      ]

  -- The loop; the argument is the number of rounds after which `times > 10`.
  unfoldable pub ready_rounds : ℕ → State → Answer
  ready_rounds zero s = returned (socket_error, s)
  ready_rounds (suc zero) s = ready_round s (λ rc type s'. returned (socket_error, s'))
  ready_rounds (suc (suc n)) s = ready_round s (λ rc type s'.
      elim (eqb_ℤ rc socket_ok && not (eqb_ℤ type msg_ready)) [
        | true ↦ ready_rounds (suc n) s'
        | false ↦ returned (rc, s')
      ])

  -- `nmxp_waitReady`.
  unfoldable pub wait_ready : State → Answer
  wait_ready s = ready_rounds 11 s
