-- ===== src/Session/Dialog.antt =====
-- The loop that nmxp_getMetaChannelList of lib/nmxp.c has after each of its requests: messages are received
-- until one is Ready, or there is an error.
pub mod Stream
use nmxptool.Prelude.{
  ℕ, zero, suc, Bool, true, false, not, ◌&&◌, Option, none, some, List, [], ◌∷◌, if◌then◌else◌,
}
use nmxptool.Prelude.Int.{ℤ, eqb_ℤ}
use nmxptool.Decode.{Outcome, returned, exited, faulted}
use nmxptool.Transport.{Socket, socket_ok}
use nmxptool.Transport.Message.{Message, receive_message}
use nmxptool.Request.{max_length_data_buffer}
use nmxptool.Session.Ready.{msg_ready}

-- What a part of a session comes to; `none` is a loop that has used up its rounds.
abbrev pub Run : Type 0 → Type 0
Run A = Option (Outcome A)

abbrev pub then_run : {A B : Type 0} → Run A → (A → Run B) → Run B
then_run none k = none
then_run (some (returned a)) k = k a
then_run (some (exited code)) k = some (exited code)
then_run (some faulted) k = some faulted

module _ (sock : Socket) {A : Type 0} where
  open sock use {State}

  -- `f` is the body, with the length and the buffer of the message; the argument bounds the messages.
  unfoldable pub until_ready : (A → ℤ → List ℕ → Outcome A) → ℕ → State → A → Run (A × State)
  until_ready f zero s a = none
  until_ready f (suc rounds) s a =
      let m = receive_message sock max_length_data_buffer s in
      elim (eqb_ℤ m.result socket_ok && not (eqb_ℤ m.type msg_ready)) [
        | false ↦ some (returned (a, m.state))
        | true ↦ then_run (some (f a m.len m.buffer)) (until_ready f rounds m.state)
      ]
