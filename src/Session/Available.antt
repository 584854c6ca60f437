-- ===== src/Session/Available.antt =====
-- nmxp_receiveChannelList and nmxp_getAvailableChannelList of lib/nmxp.c.
pub mod Stream
use nmxptool.Prelude.{
  ℕ, Bool, true, false, Option, none, some, List, [], ◌∷◌, ltb, length, if◌then◌else◌,
}
use nmxptool.Prelude.Int.{ℤ, pos, ltb_ℤ, eqb_ℤ}
use nmxptool.Text.{Str, c_str}
use nmxptool.Chan.{ChanKey, ChanList}
use nmxptool.Chan.Lookup.{get_type, sort_by_name}
use nmxptool.Decode.{Outcome, returned, exited, faulted}
use nmxptool.Transport.{Socket, socket_ok, socket_error}
use nmxptool.Transport.Message.{receive_message}
use nmxptool.Request.{send_connect, send_terminate_subscription, max_length_data_buffer}
use nmxptool.Session.Lists.{read_channel_list}

-- NMXP_MSG_CHANNELLIST.
abbrev pub msg_channel_list : ℤ
msg_channel_list = pos 150

-- The names are logged: one without a terminator in its array is read past the end of it.
unfoldable pub terminated : ChanList → Bool
terminated [] = true
terminated (c ∷ cs) =
    let rest = terminated cs in elim (c_str 12 c.name) [ none ↦ false | some s ↦ rest ]

-- "Good Bye!".
abbrev pub good_bye : Str
good_bye = b'G' ∷ b'o' ∷ b'o' ∷ b'd' ∷ b' ' ∷ b'B' ∷ b'y' ∷ b'e' ∷ b'!' ∷ []

module _ (sock : Socket) where
  open sock use {State}

  -- What nmxp_receiveChannelList leaves: its value, the list (NULL is `none`) and the socket.
  pub record Listed : Type 0 where
    pub result : ℤ
    pub list : Option ChanList
    pub state : State

  -- The copy of a message of that length. A negative length is more than malloc() gives.
  unfoldable pub copy_list : ℤ → List ℕ → State → Outcome Listed
  copy_list len buffer s =
      if ltb_ℤ len (pos 0)
      then returned (record { result = socket_error; list = none; state = s })
      else elim (read_channel_list buffer) [
        | none ↦ faulted
        | some cs ↦
            if terminated cs
            then returned (record { result = socket_ok; list = some cs; state = s })
            else faulted
      ]

  -- `nmxp_receiveChannelList`: a message of another type leaves the list NULL, and is no error.
  unfoldable pub receive_channel_list : State → Outcome Listed
  receive_channel_list s =
      let m = receive_message sock max_length_data_buffer s in
      if eqb_ℤ m.result socket_ok
      then (if eqb_ℤ m.type msg_channel_list
          then copy_list m.len m.buffer m.state
          else returned (record { result = m.result; list = none; state = m.state }))
      else returned (record { result = m.result; list = none; state = m.state })

  -- What follows the reception: the channels of the type, by name, and the farewell. nmxp_chan_getType
  -- reads through the list, NULL or not.
  unfoldable pub select_channels :
      ((ChanKey → ChanKey → ℤ) → ChanList → ChanList)
      → ℕ
      → Listed
      → Outcome (Option ChanList × State)
  select_channels qsort data_type r =
      if eqb_ℤ r.result socket_ok
      then elim r.list [
        | none ↦ faulted
        | some cs ↦ returned (
          some (sort_by_name qsort (get_type cs data_type)),
          (send_terminate_subscription sock r.state (some good_bye)).1,
        )
      ]
      else returned (none, r.state)

  -- `nmxp_getAvailableChannelList`, with what nmxp_openSocket returns (NMXP_SOCKET_ERROR is `none`):
  -- the list, or NULL, and the socket as it is closed.
  unfoldable pub available_channels :
      ((ChanKey → ChanKey → ℤ) → ChanList → ChanList)
      → ℕ
      → Option State
      → Outcome (Option ChanList × Option State)
  available_channels qsort data_type none = returned (none, none)
  available_channels qsort data_type (some s) =
      let r = send_connect sock s in
      if eqb_ℤ r.0 socket_ok
      then elim (receive_channel_list r.1) [
        | returned listed ↦ elim (select_channels qsort data_type listed) [
          | returned a ↦ returned (a.0, some a.1)
          | exited code ↦ exited code
          | faulted ↦ faulted
        ]
        | exited code ↦ exited code
        | faulted ↦ faulted
      ]
      else returned (none, some r.1)
