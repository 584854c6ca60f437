-- ===== src/Transport/Receive.antt =====
-- nmxp_recv_ctrl over a socket that keeps the contract of recv(): how its loop ends.
use nmxptool.Prelude.{
  ℕ, zero, suc, ◌+◌, ◌-◌, ◌≤◌, ◌<◌, ◌≡◌, refl, sym, ◌∙◌, subst, ◌⊎◌, inl, inr, true, false, &&-true,
  [], length, length-append, arith, ltb→lt, ◌==◌, Bool-cases,
}
use nmxptool.Prelude.Int.{ℤ, pos, negsuc, eqb_ℤ, ltb_ℤ, leb_ℤ}
use nmxptool.Transport.{
  Socket, Reply, Receiving, store, recv_once, keeps_receiving, recv_loop, recv_result, recv_ctrl,
  socket_ok, socket_error,
}

-- recv() stores at most as many bytes as there is room for, returns their number if there are any,
-- and then leaves `errno`, which was set to 0, alone.
pub record KeepsContract (sock : Socket) : Type 0 where
  pub stores :
      (s : sock.State) (n : ℕ)
      → ltb_ℤ (pos 0) (sock.recv s n).0.cc ≡ true
      → ((sock.recv s n).0.cc ≡ pos (length (sock.recv s n).0.bytes))
        × (length (sock.recv s n).0.bytes ≤ n)
        × ((sock.recv s n).0.errno ≡ pos 0)

module _ (sock : Socket) (contract : KeepsContract sock) where
  open sock use {State, recv}

  -- What holds at the head of the loop: the room is kept, and a call that has filled the buffer has
  -- ended well.
  record IsReceiving (len : ℕ) (v : Receiving sock) : Type 0 where
    inside : length v.received ≤ len
    good : ltb_ℤ (pos 0) v.cc ≡ true → v.recv_errno ≡ pos 0
    ended : leb_ℤ v.cc (pos 0) ≡ true → length v.received < len

  keeps_parts :
      (len : ℕ) (v : Receiving sock)
      → keeps_receiving sock len v ≡ true
      → (ltb_ℤ (pos 0) v.cc ≡ true) × (v.recv_errno ≡ pos 0) × (length v.received < len)
  unfolding keeps_receiving
  keeps_parts len v k =
      let a = &&-true _ _ k in
      let b = &&-true _ _ a.0 in (b.0, is_zero v.recv_errno b.1, ltb→lt _ _ a.1)
    where
      is_zero : (z : ℤ) → eqb_ℤ z (pos 0) ≡ true → z ≡ pos 0
      is_zero z e = ground arith

  store-IsReceiving :
      (len : ℕ) (v : Receiving sock) (r : Reply) (s : State)
      → length v.received < len
      → (ltb_ℤ (pos 0) r.cc ≡ true
          → (r.cc ≡ pos (length r.bytes))
            × (length r.bytes ≤ len - length v.received)
            × (r.errno ≡ pos 0))
      → IsReceiving len (store sock v r s)
  unfolding store
  store-IsReceiving len v r s room c = elim (Bool-cases (ltb_ℤ (pos 0) r.cc)) [
    | inl e ↦
        let f = c e in
        rw (no_timeout r.cc e, no_end r.cc e)
          (record {
            inside = omega (arith, length-append v.received r.bytes, f.1);
            good = λ q. f.2;
            ended = λ q. absurd (both r.cc e q);
          })
    | inr e ↦ rw (at_end r.cc e) (record {
      inside = omega arith;
      good = λ q. absurd (true_false (sym q ∙ e));
      ended = λ q. room;
    })
  ]
    where
      no_timeout : (z : ℤ) → ltb_ℤ (pos 0) z ≡ true → eqb_ℤ z (negsuc 1) ≡ false
      no_timeout z e = ground arith

      no_end : (z : ℤ) → ltb_ℤ (pos 0) z ≡ true → leb_ℤ z (pos 0) ≡ false
      no_end z e = ground arith

      at_end : (z : ℤ) → ltb_ℤ (pos 0) z ≡ false → leb_ℤ z (pos 0) ≡ true
      at_end z e = ground arith

      both : (z : ℤ) → ltb_ℤ (pos 0) z ≡ true → leb_ℤ z (pos 0) ≡ true → ⊥
      both z e f = ground arith

      true_false : true ≡ false → ⊥
      true_false e = cc

  loop-IsReceiving :
      (fuel len : ℕ) (v : Receiving sock)
      → IsReceiving len v
      → IsReceiving len (recv_loop sock fuel len v)
  unfolding recv_loop recv_once
  loop-IsReceiving zero len v h = h
  loop-IsReceiving (suc fuel) len v h = elim (Bool-cases (keeps_receiving sock len v)) [
    | inl k ↦ rw k (
        loop-IsReceiving fuel len (recv_once sock len v) (
          store-IsReceiving len v _ _ (keeps_parts len v k).2
            (contract.stores v.state (len - length v.received))))
    | inr k ↦ rw k h
  ]

  grows :
      (len : ℕ) (v : Receiving sock) (r : Reply) (s : State)
      → (ltb_ℤ (pos 0) r.cc ≡ true
          → (r.cc ≡ pos (length r.bytes))
            × (length r.bytes ≤ len - length v.received)
            × (r.errno ≡ pos 0))
      → (keeps_receiving sock len (store sock v r s) ≡ false)
        ⊎ (length v.received < length (store sock v r s).received)
  unfolding keeps_receiving store
  grows len v r s c = elim (Bool-cases (ltb_ℤ (pos 0) r.cc)) [
    | inl e ↦
        let f = c e in
        inr (
          rw (no_end r.cc e) (
            omega
              (arith, length-append v.received r.bytes, some_bytes r.cc (length r.bytes) e f.0)))
    | inr e ↦ inl (rw e refl)
  ]
    where
      no_end : (z : ℤ) → ltb_ℤ (pos 0) z ≡ true → leb_ℤ z (pos 0) ≡ false
      no_end z e = ground arith

      some_bytes : (z : ℤ) (n : ℕ) → ltb_ℤ (pos 0) z ≡ true → z ≡ pos n → 0 < n
      some_bytes z n e q = ground arith

  stopped :
      (fuel len : ℕ) (v : Receiving sock)
      → keeps_receiving sock len v ≡ false
      → recv_loop sock fuel len v ≡ v
  unfolding recv_loop
  stopped zero len v k = refl
  stopped (suc fuel) len v k = rw k refl

  -- One round for each byte that is missing is fuel enough.
  loop-ends :
      (fuel len : ℕ) (v : Receiving sock)
      → len ≤ fuel + length v.received
      → keeps_receiving sock len (recv_loop sock fuel len v) ≡ false
  unfolding recv_loop recv_once
  loop-ends zero len v h = full
    where
      full : keeps_receiving sock len v ≡ false
      full = elim (Bool-cases (keeps_receiving sock len v)) [
        | inl k ↦ absurd (omega (arith, (keeps_parts len v k).2))
        | inr k ↦ k
      ]
  loop-ends (suc fuel) len v h = elim (Bool-cases (keeps_receiving sock len v)) [
    | inl k ↦ rw k (elim (grows len v _ _ (contract.stores v.state (len - length v.received))) [
      | inl e ↦ subst (λ w. keeps_receiving sock len w ≡ false) (sym (stopped fuel len _ e)) e
      | inr l ↦ loop-ends fuel len (recv_once sock len v) (omega arith)
    ])
    | inr k ↦ rw k k
  ]

  result-cases :
      (len : ℕ) (v : Receiving sock)
      → IsReceiving len v
      → ((recv_result sock len v).result ≡ socket_ok) × (length v.received ≡ len)
        ⊎ ((recv_result sock len v).result ≡ socket_error) × (length v.received < len)
  unfolding recv_result
  result-cases len v h = elim (Bool-cases (length v.received == len)) [
    | inl e ↦ elim (Bool-cases (leb_ℤ v.cc (pos 0))) [
      | inl q ↦ absurd (differ (length v.received) len e (h.ended q))
      | inr q ↦ inl (rw e (rw (h.good (positive v.cc q)) (rw q refl)), equal _ _ e)
    ]
    | inr e ↦ inr (rw e refl, less (length v.received) len e h.inside)
  ]
    where
      differ : (a b : ℕ) → (a == b) ≡ true → a < b → ⊥
      differ a b e l = ground arith

      equal : (a b : ℕ) → (a == b) ≡ true → a ≡ b
      equal a b e = ground arith

      less : (a b : ℕ) → (a == b) ≡ false → a ≤ b → a < b
      less a b e l = ground arith

      positive : (z : ℤ) → leb_ℤ z (pos 0) ≡ false → ltb_ℤ (pos 0) z ≡ true
      positive z e = ground arith

  -- Over a socket that keeps the contract of recv(), a call has filled the buffer and returns
  -- NMXP_SOCKET_OK, or it has stored less than was asked for and returns NMXP_SOCKET_ERROR.
  pub recv_ctrl-cases :
      (len : ℕ) (s : State)
      → ((recv_ctrl sock len s).result ≡ socket_ok) × (length (recv_ctrl sock len s).received ≡ len)
        ⊎ ((recv_ctrl sock len s).result ≡ socket_error)
          × (length (recv_ctrl sock len s).received < len)
  unfolding recv_ctrl recv_result
  recv_ctrl-cases len s = result-cases len _ (
      loop-IsReceiving len len _
        (record { inside = omega arith; good = λ q. refl; ended = λ q. absurd (one q) }))
    where
      one : leb_ℤ (pos 1) (pos 0) ≡ true → ⊥
      one q = ground arith

  -- Over a socket that keeps the contract of recv(), the loop of a call ends within one round for
  -- each byte that is asked for.
  pub recv_ctrl-ends :
      (len : ℕ) (s : State)
      → keeps_receiving sock len (
          recv_loop sock len len
            (record { cc = pos 1; recv_errno = pos 0; received = []; state = s }))
        ≡ false
  recv_ctrl-ends len s = loop-ends len len _ (omega arith)
