-- ===== src/Transport/Tests.antt =====
-- Messages over a socket that keeps bytes in a list and hands them out one by one.
use nmxptool.Prelude.{
  ℕ, zero, suc, ◌+◌, ◌-◌, ◌≤◌, ◌<◌, ◌≡◌, ◌≢◌, refl, ◌⊎◌, inl, inr, Bool, true, false, List, [], ◌∷◌,
  ◌++◌, length, arith,
}
use nmxptool.Prelude.Int.{pos, ltb_ℤ}
use nmxptool.Transport.{
  Socket, Reply, recv_ctrl, recv_loop, keeps_receiving, socket_ok, socket_error,
}
use nmxptool.Transport.Receive.{KeepsContract, recv_ctrl-cases, recv_ctrl-ends}
use nmxptool.Transport.Stream.{IsStream}
use nmxptool.Transport.Message.{nmx_signature, htonl, send_message, receive_message}
use nmxptool.Transport.Message.Roundtrip.{receive_message-send_message}
use nmxptool.Transport.Message.Bounds.{receive_message-bounds}

abbrev pub pipe_recv : List ℕ → ℕ → Reply × List ℕ
pipe_recv [] n = (record { cc = pos 0; errno = pos 0; bytes = [] }, [])
pipe_recv (b ∷ bs) zero = (record { cc = pos 0; errno = pos 0; bytes = [] }, b ∷ bs)
pipe_recv (b ∷ bs) (suc n) = (record { cc = pos 1; errno = pos 0; bytes = b ∷ [] }, bs)

abbrev pub pipe : Socket
pipe = record {
  State = List ℕ;
  recv = pipe_recv;
  send = λ s bytes. (pos (length bytes), s ++ bytes);
}

pipe-stores :
    (s : List ℕ) (n : ℕ)
    → ltb_ℤ (pos 0) (pipe_recv s n).0.cc ≡ true
    → ((pipe_recv s n).0.cc ≡ pos (length (pipe_recv s n).0.bytes))
      × (length (pipe_recv s n).0.bytes ≤ n)
      × ((pipe_recv s n).0.errno ≡ pos 0)
pipe-stores [] n h = (refl, omega arith, refl)
pipe-stores (b ∷ bs) zero h = (refl, omega arith, refl)
pipe-stores (b ∷ bs) (suc n) h = (refl, omega arith, refl)

pub pipe-KeepsContract : KeepsContract pipe
pipe-KeepsContract = record { stores = pipe-stores }

abbrev pub pipe-IsStream : IsStream pipe
pipe-IsStream = record { content = λ s. s; takes = taken }
  where
    taken :
        (s : List ℕ) (n : ℕ)
        → 0 < n
        → s ≢ []
        → (k : ℕ) × (0 < k)
          × (k ≤ n)
          × ((pipe_recv s n).0
              ≡ record { cc = pos k; errno = pos 0; bytes = nmxptool.Prelude.take k s })
          × ((pipe_recv s n).1 ≡ nmxptool.Prelude.drop k s)
    taken [] n h k = absurd (k refl)
    taken (b ∷ bs) zero h k = absurd (omega arith)
    taken (b ∷ bs) (suc n) h k = (1, omega arith, omega arith, refl, refl)

-- The first bytes of a header are those of NMX_SIGNATURE, 7a bc de 0f.
signature_test : htonl nmx_signature ≡ 122 ∷ 188 ∷ 222 ∷ 15 ∷ []
signature_test = refl

recv_ctrl-cases_example :
    ((recv_ctrl pipe 3 (1 ∷ 2 ∷ [])).result ≡ socket_ok)
      × (length (recv_ctrl pipe 3 (1 ∷ 2 ∷ [])).received ≡ 3)
    ⊎ ((recv_ctrl pipe 3 (1 ∷ 2 ∷ [])).result ≡ socket_error)
      × (length (recv_ctrl pipe 3 (1 ∷ 2 ∷ [])).received < 3)
recv_ctrl-cases_example = recv_ctrl-cases pipe pipe-KeepsContract 3 (1 ∷ 2 ∷ [])

recv_ctrl-ends_example :
    keeps_receiving pipe 3 (
      recv_loop pipe 3 3
        (record { cc = pos 1; recv_errno = pos 0; received = []; state = 1 ∷ 2 ∷ [] }))
    ≡ false
recv_ctrl-ends_example = recv_ctrl-ends pipe pipe-KeepsContract 3 (1 ∷ 2 ∷ [])

receive_message-bounds_example : length (receive_message pipe 2 (1 ∷ 2 ∷ [])).buffer ≤ 2
receive_message-bounds_example = receive_message-bounds pipe pipe-KeepsContract 2 (1 ∷ 2 ∷ [])

receive_message-send_message_example :
    let m = receive_message pipe 8 (send_message pipe [] (pos 120) (7 ∷ 9 ∷ [])).1 in
    (m.result ≡ socket_ok) × (m.type ≡ pos 120) × (m.len ≡ pos 2) × (m.buffer ≡ 7 ∷ 9 ∷ [])
receive_message-send_message_example =
    receive_message-send_message pipe pipe-IsStream (record { appends = λ s bytes. (refl, refl) })
      [] (pos 120) (7 ∷ 9 ∷ []) 8 refl (omega arith, omega arith) (λ e. distinct e) (omega arith)
      (omega arith)
  where
    distinct : pos 120 ≡ pos 0 → ⊥
    distinct e = ground arith
