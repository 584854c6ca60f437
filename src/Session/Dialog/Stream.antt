-- ===== src/Session/Dialog/Stream.antt =====
-- The loop on a connection: it folds its body over the messages before the Ready message.
use nmxptool.Prelude.{
  ℕ, zero, suc, ◌≤◌, ◌<◌, ◌≡◌, ◌≢◌, refl, ◌∙◌, ap, ap₂, some, List, [], ◌∷◌, ◌++◌, append_assoc,
  length, All, arith,
}
use nmxptool.Prelude.Int.{ℤ, pos}
use nmxptool.Word.Laws.{IsInt32}
use nmxptool.Decode.{Outcome, returned, exited, faulted}
use nmxptool.Transport.{Socket, socket_ok}
use nmxptool.Transport.Stream.{IsStream}
use nmxptool.Transport.Duplex.{IsDuplex, message_of, receive_message-sent}
use nmxptool.Transport.Message.{receive_message, header_bytes}
use nmxptool.Transport.Message.Roundtrip.{receive_message-Stored}
use nmxptool.Request.{max_length_data_buffer}
use nmxptool.Session.Ready.{msg_ready}
use nmxptool.Session.Ready.Stream.{eqb_ℤ-ne}
use nmxptool.Session.Dialog.{then_run, until_ready}

-- A message before the Ready message.
pub record Reply : Type 0 where
  pub type : ℤ
  pub body : List ℕ

pub record IsReply (m : Reply) : Type 0 where
  pub word : IsInt32 m.type
  pub not_zero : m.type ≢ pos 0
  pub not_ready : m.type ≢ msg_ready
  pub fits : length m.body ≤ max_length_data_buffer

-- The replies and the Ready message that ends them.
abbrev pub replies_bytes : List Reply → List ℕ → List ℕ
replies_bytes [] rest = message_of msg_ready [] ++ rest
replies_bytes (m ∷ ms) rest = message_of m.type m.body ++ replies_bytes ms rest

abbrev pub and_then : {A B : Type 0} → Outcome A → (A → Outcome B) → Outcome B
and_then (returned a) k = k a
and_then (exited code) k = exited code
and_then faulted k = faulted

-- The bodies one after the other.
abbrev pub fold_replies : {A : Type 0} → (A → ℤ → List ℕ → Outcome A) → A → List Reply → Outcome A
fold_replies f a [] = returned a
fold_replies f a (m ∷ ms) = and_then (f a (pos (length m.body)) m.body) (λ a'. fold_replies f a' ms)

and_then-returned :
    {A B : Type 0} (o : Outcome A) (k : A → Outcome B) (b : B)
    → and_then o k ≡ returned b
    → (a : A) × (o ≡ returned a) × (k a ≡ returned b)
and_then-returned (returned a) k b e = (a, refl, e)
and_then-returned (exited code) k b e = absurd (exits code b e)
  where
    exits : {A : Type 0} (code : ℕ) (b : A) → exited code ≡ returned b → ⊥
    exits code b e = cc
and_then-returned faulted k b e = absurd (faults b e)
  where
    faults : {A : Type 0} (b : A) → faulted ≡ returned b → ⊥
    faults b e = cc

returned_inj : {A : Type 0} (a b : A) → returned a ≡ returned b → a ≡ b
returned_inj a b e = cc

module _ (sock : Socket) (stream : IsStream sock) (duplex : IsDuplex sock stream) where
  open sock use {State}
  open stream use {content}
  open duplex use {sent}

  reply-Stored :
      (s : State) (type : ℤ) (body rest : List ℕ)
      → IsInt32 type
      → type ≢ pos 0
      → length body ≤ max_length_data_buffer
      → content s ≡ message_of type body ++ rest
      → let m = receive_message sock max_length_data_buffer s in
        (m.result ≡ socket_ok)
        × (m.type ≡ type)
        × (m.len ≡ pos (length body))
        × (m.buffer ≡ body)
        × (content m.state ≡ rest)
  reply-Stored s type body rest w n h e =
      receive_message-Stored sock stream s type body rest max_length_data_buffer w n (omega arith) h
        (e ∙ append_assoc (header_bytes type (pos (length body))) body rest)

  -- On a connection with replies, a Ready message behind them and more rounds than replies, the loop ends
  -- with what its body makes of the replies in their order, takes these and the Ready message, and sends
  -- nothing. It is stated for replies of which the body makes something.
  pub until_ready-Stored :
      {A : Type 0} (f : A → ℤ → List ℕ → Outcome A) (rounds : ℕ) (s : State) (a b : A)
      (ms : List Reply)
      → (rest : List ℕ) → length ms < rounds
      → All IsReply ms
      → fold_replies f a ms ≡ returned b
      → content s ≡ replies_bytes ms rest
      → (s' : State) × (until_ready sock f rounds s a ≡ some (returned (b, s')))
        × (content s' ≡ rest)
        × (sent s' ≡ sent s)
  unfolding until_ready
  until_ready-Stored f zero s a b ms rest h v q e = absurd (omega arith)
  until_ready-Stored f (suc rounds) s a b [] rest h v q e =
      let m = receive_message sock max_length_data_buffer s in
      let t =
        reply-Stored s msg_ready [] rest (omega arith, omega arith) (λ q. differs q) (omega arith)
          e in
      (
        m.state,
        rw (t.0, until_ready)
            (rw (t.1, until_ready) (ap (λ x. some (returned (x, m.state))) (returned_inj a b q))),
        t.4,
        receive_message-sent sock stream duplex max_length_data_buffer s,
      )
    where
      differs : msg_ready ≡ pos 0 → ⊥
      differs e = ground arith
  until_ready-Stored f (suc rounds) s a b (r ∷ ms) rest h v q e =
      let m = receive_message sock max_length_data_buffer s in
      let t =
        reply-Stored s r.type r.body (replies_bytes ms rest) v.0.word v.0.not_zero v.0.fits e in
      let f' =
        and_then-returned (f a (pos (length r.body)) r.body) (λ a'. fold_replies f a' ms) b q in
      let u = until_ready-Stored f rounds m.state f'.0 b ms rest (omega arith) v.1 f'.2 t.4 in
      (
        u.0,
        rw (t.0, until_ready)
            (rw (t.1, until_ready)
              (rw (eqb_ℤ-ne r.type msg_ready v.0.not_ready, until_ready)
                (ap₂ (λ z bytes. then_run (some (f a z bytes)) (until_ready sock f rounds m.state))
                    t.2 t.3
                  ∙ ap (λ o. then_run (some o) (until_ready sock f rounds m.state)) f'.1
                  ∙ u.1))),
        u.2,
        u.3 ∙ receive_message-sent sock stream duplex max_length_data_buffer s,
      )
