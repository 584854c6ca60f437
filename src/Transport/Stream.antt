-- ===== src/Transport/Stream.antt =====
-- nmxp_recv_ctrl on a stream of bytes, of which each recv() takes a first part of any size.
use nmxptool.Prelude.{
  ℕ, zero, suc, ◌+◌, ◌-◌, ◌≤◌, ◌<◌, ◌≡◌, ◌≢◌, refl, sym, ◌∙◌, ap, subst, true, false, List, [], ◌∷◌,
  ◌++◌, append-nil, append_assoc, length, length-append, length-take, length-drop, take, drop,
  take-append-drop, ltb, arith, lt→ltb, ◌==◌,
}
use nmxptool.Prelude.Int.{ℤ, pos, negsuc, eqb_ℤ, ltb_ℤ, leb_ℤ}
use nmxptool.Transport.{
  Socket, Reply, Receiving, store, recv_once, keeps_receiving, recv_loop, recv_result, recv_ctrl,
  socket_ok,
}

module _ {A : Type 0} where
  take-append_le : (k : ℕ) (xs ys : List A) → k ≤ length xs → take k (xs ++ ys) ≡ take k xs
  take-append_le zero xs ys h = refl
  take-append_le (suc k) [] ys h = absurd (omega arith)
  take-append_le (suc k) (x ∷ xs) ys h = ap (λ zs. x ∷ zs) (take-append_le k xs ys (omega arith))

  drop-append_le : (k : ℕ) (xs ys : List A) → k ≤ length xs → drop k (xs ++ ys) ≡ drop k xs ++ ys
  drop-append_le zero xs ys h = refl
  drop-append_le (suc k) [] ys h = absurd (omega arith)
  drop-append_le (suc k) (x ∷ xs) ys h = drop-append_le k xs ys (omega arith)

-- The bytes on their way to a socket; recv() with room for n takes between 1 and n of them.
pub record IsStream (sock : Socket) : Type 0 where
  pub content : sock.State → List ℕ
  pub takes :
      (s : sock.State) (n : ℕ)
      → 0 < n
      → content s ≢ []
      → (k : ℕ) × (0 < k)
        × (k ≤ n)
        × ((sock.recv s n).0 ≡ record { cc = pos k; errno = pos 0; bytes = take k (content s) })
        × (content (sock.recv s n).1 ≡ drop k (content s))

module _ (sock : Socket) (stream : IsStream sock) where
  open sock use {State, recv}
  open stream use {content}

  -- After a call that went well: what is stored, and what is left on the way.
  abbrev Stored : Receiving sock → List ℕ → List ℕ → Type 0
  Stored w received rest =
      (w.received ≡ received)
      × (content w.state ≡ rest)
      × (ltb_ℤ (pos 0) w.cc ≡ true)
      × (w.recv_errno ≡ pos 0)

  store-Stored :
      (v : Receiving sock) (r : Reply) (s : State) (k : ℕ) (bytes rest : List ℕ)
      → 0 < k
      → r ≡ record { cc = pos k; errno = pos 0; bytes = bytes }
      → content s ≡ rest
      → Stored (store sock v r s) (v.received ++ bytes) rest
  unfolding store
  store-Stored v r s k bytes rest h e c =
      subst (λ q. Stored (store sock v q s) (v.received ++ bytes) rest) (sym e)
        (rw (no_end k h) (rw (no_timeout k) (refl, c, more k h, refl)))
    where
      no_end : (n : ℕ) → 0 < n → leb_ℤ (pos n) (pos 0) ≡ false
      no_end n l = ground arith

      no_timeout : (n : ℕ) → eqb_ℤ (pos n) (negsuc 1) ≡ false
      no_timeout n = ground arith

      more : (n : ℕ) → 0 < n → ltb_ℤ (pos 0) (pos n) ≡ true
      more n l = ground arith

  keeps_true :
      (len : ℕ) (v : Receiving sock)
      → ltb_ℤ (pos 0) v.cc ≡ true
      → v.recv_errno ≡ pos 0
      → keeps_receiving sock len v ≡ ltb (length v.received) len
  unfolding keeps_receiving
  keeps_true len v h e = rw h (rw e refl)

  loop-Stored :
      (fuel len : ℕ) (v : Receiving sock) (xs rest : List ℕ)
      → length xs ≤ fuel
      → length v.received + length xs ≡ len
      → Stored v v.received (xs ++ rest)
      → Stored (recv_loop sock fuel len v) (v.received ++ xs) rest
  unfolding recv_loop recv_once
  loop-Stored zero len v [] rest h l st = (sym (append-nil v.received), st.1, st.2, st.3)
  loop-Stored zero len v (x ∷ xs) rest h l st = absurd (omega arith)
  loop-Stored (suc fuel) len v [] rest h l st =
      rw (keeps_true len v st.2 st.3 ∙ full (length v.received) len (omega arith))
        (sym (append-nil v.received), st.1, st.2, st.3)
    where
      full : (a b : ℕ) → a ≡ b → ltb a b ≡ false
      full a b e = ground arith
  loop-Stored (suc fuel) len v (x ∷ xs) rest h l st =
      let t =
        stream.takes v.state (len - length v.received) (omega arith)
          (λ e. some_left (sym st.1 ∙ e)) in
      let k = t.0 in
      let le : k ≤ length (x ∷ xs) = omega (arith, t.2) in
      let w = recv_once sock len v in
      let s =
        store-Stored v _ _ k (take k (x ∷ xs)) (drop k (x ∷ xs) ++ rest) t.1
          (t.3
            ∙ ap (λ b. record { cc = pos k; errno = pos 0; bytes = b })
                (ap (take k) st.1 ∙ take-append_le k (x ∷ xs) rest le))
          (t.4 ∙ ap (drop k) st.1 ∙ drop-append_le k (x ∷ xs) rest le) in
      let again =
        loop-Stored fuel len w (drop k (x ∷ xs)) rest (omega (arith, t.1, length-drop k (x ∷ xs)))
          (ap (λ r. length r + length (drop k (x ∷ xs))) s.0
            ∙ omega (
              arith,
              length-append v.received (take k (x ∷ xs)),
              length-take k (x ∷ xs),
              length-drop k (x ∷ xs),
            ))
          (refl, s.1, s.2, s.3) in
      let joined =
        ap (λ r. r ++ drop k (x ∷ xs)) s.0
        ∙ append_assoc v.received (take k (x ∷ xs)) (drop k (x ∷ xs))
        ∙ ap (λ r. v.received ++ r) (take-append-drop k (x ∷ xs)) in
      rw (keeps_true len v st.2 st.3 ∙ lt→ltb (length v.received) len (omega arith))
        (again.0 ∙ joined, again.1, again.2, again.3)
    where
      some_left : x ∷ (xs ++ rest) ≡ [] → ⊥
      some_left e = cc

  -- When the bytes asked for are on their way, a call stores exactly these and leaves those behind them.
  pub recv_ctrl-Stored :
      (s : State) (xs rest : List ℕ)
      → content s ≡ xs ++ rest
      → ((recv_ctrl sock (length xs) s).result ≡ socket_ok)
        × ((recv_ctrl sock (length xs) s).received ≡ xs)
        × (content (recv_ctrl sock (length xs) s).state ≡ rest)
        × ((recv_ctrl sock (length xs) s).recv_errno ≡ pos 0)
  unfolding recv_ctrl recv_result
  recv_ctrl-Stored s xs rest e =
      let t =
        loop-Stored (length xs) (length xs)
          (record { cc = pos 1; recv_errno = pos 0; received = []; state = s }) xs rest
          (omega arith) (omega arith) (refl, e, refl, refl) in
      rw (complete (length xs) _ (ap length t.0))
        (rw (t.3) (rw (going _ t.2) (refl, t.0, t.1, refl)))
    where
      complete : (a b : ℕ) → b ≡ a → (b == a) ≡ true
      complete a b q = ground arith

      going : (z : ℤ) → ltb_ℤ (pos 0) z ≡ true → leb_ℤ z (pos 0) ≡ false
      going z q = ground arith
