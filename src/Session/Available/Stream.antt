-- ===== src/Session/Available/Stream.antt =====
-- nmxp_receiveChannelList and nmxp_getAvailableChannelList on a connection.
use nmxptool.Prelude.{
  ℕ, suc, ◌≤◌, ◌<◌, ◌≡◌, ◌≢◌, refl, ◌∙◌, ap, true, false, some, List, [], ◌∷◌, ◌++◌, append_assoc,
  length, All, arith, lt→ltb,
}
use nmxptool.Prelude.Each.{All_mono}
use nmxptool.Prelude.Int.{ℤ, pos, ltb_ℤ}
use nmxptool.Text.{c_str}
use nmxptool.Word.Laws.{IsInt32}
use nmxptool.Chan.{ChanKey, ChanList}
use nmxptool.Decode.{returned, faulted}
use nmxptool.Transport.{Socket, socket_ok}
use nmxptool.Transport.Stream.{IsStream}
use nmxptool.Transport.Duplex.{IsDuplex, message_of, send_message-sent}
use nmxptool.Transport.Message.{receive_message, header_bytes}
use nmxptool.Transport.Message.Roundtrip.{receive_message-Stored}
use nmxptool.Request.{send_connect, max_length_data_buffer, msg_connect, msg_terminate}
use nmxptool.Session.Ready.Stream.{eqb_ℤ-ne}
use nmxptool.Session.Lists.{read_channel, read_channel_list}
use nmxptool.Session.Lists.Roundtrip.{
  IsItem, IsChannel, channel-IsItem, channel_bytes, list_bytes, length-list_bytes,
  read_channel_list-list_bytes,
}
use nmxptool.Session.Available.{
  msg_channel_list, terminated, copy_list, receive_channel_list, select_channels,
  available_channels,
}

-- A channel as a server sends it: its name has a terminator in its array.
pub record IsSent (c : ChanKey) : Type 0 where
  pub channel : IsChannel c
  pub ended : length c.name < 12

terminated-sent : (cs : ChanList) → All IsSent cs → terminated cs ≡ true
unfolding terminated c_str
terminated-sent [] h = refl
terminated-sent (c ∷ cs) h =
    rw (lt→ltb (length c.name) 12 h.0.ended, terminated) (terminated-sent cs h.1)

not_zero : (n : ℕ) → pos (suc n) ≡ pos 0 → ⊥
not_zero n e = ground arith

positive : (n : ℕ) → ltb_ℤ (pos n) (pos 0) ≡ false
positive n = ground arith

-- 1022 channels are the most that a message has room for.
pub list_fits :
    (cs : ChanList)
    → length cs ≤ 1022
    → All IsSent cs
    → length (list_bytes channel_bytes cs) ≤ max_length_data_buffer
list_fits cs n h = omega (
  arith,
  length-list_bytes read_channel 16 channel_bytes cs (
      All_mono IsSent (IsItem read_channel 16 channel_bytes) cs (λ c s. channel-IsItem c s.channel)
        h),
)

module _ (sock : Socket) (stream : IsStream sock) where
  open sock use {State}
  open stream use {content}

  -- The list of a server with at most 1022 channels, each with an int32_t key and a name of less than 12
  -- bytes, is returned, and nothing behind it is taken.
  pub receive_channel_list-Stored :
      (s : State) (cs : ChanList) (rest : List ℕ)
      → length cs ≤ 1022
      → All IsSent cs
      → content s ≡ message_of msg_channel_list (list_bytes channel_bytes cs) ++ rest
      → let m = receive_message sock max_length_data_buffer s in
        (receive_channel_list sock s
          ≡ returned (record { result = socket_ok; list = some cs; state = m.state }))
        × (content m.state ≡ rest)
  unfolding receive_channel_list copy_list
  receive_channel_list-Stored s cs rest n h e =
      let body = list_bytes channel_bytes cs in
      let fits = list_fits cs n h in
      let t =
        receive_message-Stored sock stream s msg_channel_list body rest max_length_data_buffer
          (omega arith, omega arith) (λ q. not_zero 149 q) (omega arith) fits
          (e ∙ append_assoc (header_bytes msg_channel_list (pos (length body))) body rest) in
      let back =
        read_channel_list-list_bytes cs (omega arith)
          (All_mono IsSent IsChannel cs (λ c s. s.channel) h) in
      (
        rw t.0 (
            rw t.1 (
              rw t.2 (
                rw (positive (length body))
                  (rw (ap read_channel_list t.3 ∙ back) (rw (terminated-sent cs h) refl))))),
        t.4,
      )

-- "Good Bye!" without its last byte.
abbrev pub farewell : List ℕ
farewell = message_of msg_terminate (b'G' ∷ b'o' ∷ b'o' ∷ b'd' ∷ b' ' ∷ b'B' ∷ b'y' ∷ b'e' ∷ [])

module _ (sock : Socket) (stream : IsStream sock) (duplex : IsDuplex sock stream) where
  open sock use {State}
  open stream use {content}
  open duplex use {sent}

  -- When the server of an open connection answers with a message of another type than a list of channels, which
  -- has room in the buffer and is neither 0 nor the list's type, the call reads through a null pointer.
  pub available_channels-other :
      (qsort : (ChanKey → ChanKey → ℤ) → ChanList → ChanList) (data_type : ℕ)
      → (s : State) (type : ℤ) (body rest : List ℕ) → IsInt32 type
      → type ≢ pos 0
      → type ≢ msg_channel_list
      → length body ≤ max_length_data_buffer
      → content s ≡ message_of type body ++ rest
      → available_channels sock qsort data_type (some s) ≡ faulted
  unfolding available_channels select_channels receive_channel_list send_connect
  available_channels-other qsort data_type s type body rest w z n h e =
      let c = send_message-sent sock stream duplex s msg_connect [] in
      let t =
        receive_message-Stored sock stream (send_connect sock s).1 type body rest
          max_length_data_buffer w z (omega arith) h
          (c.1 ∙ e ∙ append_assoc (header_bytes type (pos (length body))) body rest) in
      rw c.0 (rw t.0 (rw t.1 (rw (eqb_ℤ-ne type msg_channel_list n) refl)))
