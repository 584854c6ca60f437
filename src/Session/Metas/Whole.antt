-- ===== src/Session/Metas/Whole.antt =====
-- nmxp_getMetaChannelList on a connection: the whole session.
use nmxptool.Prelude.{
  ℕ, ◌+◌, ◌≤◌, ◌<◌, ◌≡◌, refl, sym, ◌∙◌, ap, Bool, true, inl, inr, Bool-cases, Option, none, some,
  List, [], ◌∷◌, ◌++◌, append-nil, append_assoc, length, map, All, if◌then◌else◌,
}
use nmxptool.Prelude.Each.{All_mono}
use nmxptool.Prelude.Int.{ℤ, pos}
use nmxptool.Text.{Str}
use nmxptool.Word.Laws.{IsInt32}
use nmxptool.Chan.{ChanList}
use nmxptool.Chan.Meta.{MetaChan}
use nmxptool.Decode.{returned}
use nmxptool.Transport.{Socket}
use nmxptool.Transport.Stream.{IsStream}
use nmxptool.Transport.Duplex.{IsDuplex, message_of, send_ctrl-sent, send_message-sent}
use nmxptool.Transport.Message.{htonl, header_bytes, send_header, send_message}
use nmxptool.Request.{send_terminate_subscription, msg_terminate}
use nmxptool.Session.Ready.{recv_word, read_connection_time, msg_ready}
use nmxptool.Session.Ready.Stream.{
  Before, IsBefore, message_bytes, messages_bytes, recv_word-Stored, wait_ready-Stored,
}
use nmxptool.Session.Lists.{PrecisItem}
use nmxptool.Session.Lists.Roundtrip.{channel_bytes, precis_bytes, list_bytes}
use nmxptool.Session.Login.{or_nil, msg_connect_request}
use nmxptool.Session.Login.Sent.{request_of, AreBytes, send_connect_request-sent}
use nmxptool.Session.Dialog.{Run, then_run}
use nmxptool.Session.Dialog.Stream.{replies_bytes}
use nmxptool.Session.Metas.{
  Metas, take_channel_list, take_precis_list, precis_list_request, msg_channel_list_request,
  msg_precis_list_request, MetaAnswer, ask_infos, ask_times, ask_channels, log_in,
  get_meta_channel_list, bye,
}
use nmxptool.Session.Metas.Stream.{
  IsType, replies_of, after, Takes, until_ready-replies_of, IsChannelReply, hear_channels,
  channels-Takes, IsPrecisReply, hear_times, times-Takes, Info, IsInfo,
}
use nmxptool.Session.Metas.Infos.{infos_bytes, infos_asked, infos_heard, request_infos-Stored}

-- What a server answers: lists of channels, lists of times, and the networks for each key, in messages of
-- three types; and the names that stand in the lists of times.
pub record Server : Type 0 where
  pub channels_type : ℤ
  pub times_type : ℤ
  pub infos_type : ℤ
  pub channels : List ChanList
  pub times : List (List PrecisItem)
  pub names : PrecisItem → Str
  pub infos : ℤ → List Info

-- Each answer has room in a message, and there are fewer than `rounds` to each request.
pub record IsServer (rounds : ℕ) (v : Server) : Type 0 where
  pub channels_type : IsType v.channels_type
  pub times_type : IsType v.times_type
  pub infos_type : IsType v.infos_type
  pub names : (p : PrecisItem) → length (v.names p) ≤ 12
  pub channels : All IsChannelReply v.channels
  pub times : All IsPrecisReply v.times
  pub infos : (key : ℤ) → All IsInfo (v.infos key)
  pub few_channels : length v.channels < rounds
  pub few_times : length v.times < rounds
  pub few_infos : (key : ℤ) → length (v.infos key) < rounds

module _ (data_type : ℕ) (flag : Bool) (v : Server) where
  abbrev pub keys_of : List MetaChan → List ℤ
  keys_of l = map (λ x. x.key) l

  abbrev pub times_write : List PrecisItem → List ℕ
  times_write ps = list_bytes (λ p. precis_bytes (v.names p) p) ps

  -- What the client makes of the answers.
  abbrev pub channels_heard : Metas
  channels_heard =
      after (take_channel_list data_type) (list_bytes channel_bytes) v.channels_type
        (hear_channels data_type) (record { channels = none; list = [] }) v.channels

  abbrev pub times_heard : List MetaChan → List MetaChan
  times_heard l = after take_precis_list times_write v.times_type hear_times l v.times

  abbrev pub nets_heard : List MetaChan → List MetaChan
  nets_heard l = if flag then infos_heard v.infos_type v.infos (keys_of l) l else l

  -- The bytes of the answers, with the Ready messages between them.
  abbrev pub nets_bytes : List MetaChan → List ℕ → List ℕ
  nets_bytes l rest = if flag then infos_bytes v.infos_type v.infos (keys_of l) rest else rest

  abbrev pub times_bytes : List MetaChan → List ℕ → List ℕ
  times_bytes l rest =
      replies_bytes (replies_of take_precis_list times_write v.times_type hear_times v.times)
        (nets_bytes (times_heard l) rest)

  abbrev pub server_bytes : List ℕ → List ℕ
  server_bytes rest =
      replies_bytes
        (replies_of (take_channel_list data_type) (list_bytes channel_bytes) v.channels_type
          (hear_channels data_type) v.channels)
        (times_bytes channels_heard.list rest)

  -- The bytes of the requests.
  abbrev pub nets_asked : List MetaChan → List ℕ
  nets_asked l = if flag then infos_asked v.infos_type v.infos (keys_of l) else []

  abbrev pub times_asked : List MetaChan → List ℕ
  times_asked l =
      message_of msg_precis_list_request precis_list_request ++ nets_asked (times_heard l)

  -- "Bye!" without its last byte.
  abbrev pub bye_bye : List ℕ
  bye_bye = message_of msg_terminate (b'B' ∷ b'y' ∷ b'e' ∷ [])

  abbrev pub server_asked : List ℕ
  server_asked =
      message_of msg_channel_list_request [] ++ (times_asked channels_heard.list ++ bye_bye)

  module _ (sock : Socket) (stream : IsStream sock) (duplex : IsDuplex sock stream) (rounds : ℕ)
      (is : IsServer rounds v) where
    open sock use {State}
    open stream use {content}
    open duplex use {sent}

    ask_infos-Stored :
        (s : State) (l : List MetaChan) (rest : List ℕ)
        → content s ≡ nets_bytes l rest
        → (s' : State) × (ask_infos sock rounds flag s l ≡ some (returned (nets_heard l, s')))
          × (content s' ≡ rest)
          × (sent s' ≡ sent s ++ nets_asked l)
    unfolding ask_infos
    ask_infos-Stored s l rest e = elim (Bool-cases flag) [
      | inl asked ↦ rw asked (
          request_infos-Stored sock stream duplex v.infos_type v.infos rounds (keys_of l) s l rest
            is.infos_type is.infos is.few_infos
            (e
              ∙ ap (λ b. if b then infos_bytes v.infos_type v.infos (keys_of l) rest else rest)
                  asked))
      | inr quiet ↦ rw quiet (
        s,
        refl,
        e ∙ ap (λ b. if b then infos_bytes v.infos_type v.infos (keys_of l) rest else rest) quiet,
        sym (append-nil (sent s)),
      )
    ]

    ask_times-Stored :
        (s : State) (l : List MetaChan) (rest : List ℕ)
        → content s ≡ times_bytes l rest
        → (s' : State) × (ask_times sock rounds flag s l
            ≡ some (returned (nets_heard (times_heard l), s')))
          × (content s' ≡ rest)
          × (sent s' ≡ sent s ++ times_asked l)
    unfolding ask_times
    ask_times-Stored s l rest e =
        let request = message_of msg_precis_list_request precis_list_request in
        let sending =
          send_message-sent sock stream duplex s msg_precis_list_request precis_list_request in
        let d =
          until_ready-replies_of take_precis_list times_write v.times_type hear_times sock stream
            duplex rounds (send_message sock s msg_precis_list_request precis_list_request).1 l
            v.times (nets_bytes (times_heard l) rest) is.few_times is.times_type
            (All_mono IsPrecisReply (Takes take_precis_list times_write v.times_type hear_times)
              v.times (times-Takes v.names is.names v.times_type) is.times)
            (sending.1 ∙ e) in
        let r = ask_infos-Stored d.0 (times_heard l) rest d.2 in
        (
          r.0,
          ap (λ o. then_run o (λ r. ask_infos sock rounds flag r.1 r.0)) d.1 ∙ r.1,
          r.2,
          r.3
              ∙ ap (λ x. x ++ nets_asked (times_heard l)) (d.3 ∙ sending.2)
              ∙ append_assoc (sent s) request (nets_asked (times_heard l)),
        )

    -- The session behind the login.
    ask_channels-Stored :
        (s : State) (rest : List ℕ)
        → content s ≡ server_bytes rest
        → (s' : State) × (ask_channels sock rounds data_type flag s
            ≡ some (
                returned (record {
                  list = nets_heard (times_heard channels_heard.list);
                  channel_list = some channels_heard.channels;
                  socket = some s';
                  closed = true;
                })))
          × (content s' ≡ rest)
          × (sent s' ≡ sent s ++ server_asked)
    unfolding ask_channels send_header send_terminate_subscription
    ask_channels-Stored s rest e =
        let header = header_bytes msg_channel_list_request (pos 0) in
        let sending = send_ctrl-sent sock stream duplex s header in
        let d =
          until_ready-replies_of (take_channel_list data_type) (list_bytes channel_bytes)
            v.channels_type (hear_channels data_type) sock stream duplex rounds
            (send_header sock s msg_channel_list_request (pos 0)).1
            (record { channels = none; list = [] }) v.channels
            (times_bytes channels_heard.list rest) is.few_channels is.channels_type
            (All_mono IsChannelReply
              (Takes (take_channel_list data_type) (list_bytes channel_bytes) v.channels_type
                (hear_channels data_type))
              v.channels (channels-Takes data_type v.channels_type) is.channels)
            (sending.1 ∙ e) in
        let r = ask_times-Stored d.0 channels_heard.list rest d.2 in
        let last =
          send_message-sent sock stream duplex r.0 msg_terminate (b'B' ∷ b'y' ∷ b'e' ∷ []) in
        let times = times_asked channels_heard.list in
        (
          (send_message sock r.0 msg_terminate (b'B' ∷ b'y' ∷ b'e' ∷ [])).1,
          ap
                (λ o.
                  then_run o
                    (λ a. then_run (ask_times sock rounds flag a.1 a.0.list) (finish a.0.channels)))
                d.1
              ∙ ap (λ o. then_run o (finish channels_heard.channels)) r.1,
          last.1 ∙ r.2,
          last.2
              ∙ ap (λ x. x ++ bye_bye) (r.3 ∙ ap (λ x. x ++ times) (d.3 ∙ sending.2))
              ∙ append_assoc (sent s ++ header) times bye_bye
              ∙ append_assoc (sent s) header (times ++ bye_bye)
              ∙ ap (λ h. sent s ++ (h ++ (times ++ bye_bye))) (sym (append-nil header)),
        )
      where
        finish : Option ChanList → List MetaChan × State → Run (MetaAnswer sock)
        finish channels r = some (
            returned (record {
              list = r.0;
              channel_list = some channels;
              socket = some (send_terminate_subscription sock r.1 (some bye)).1;
              closed = true;
            }))

    -- With a name and a password of at most 92 bytes together and a server that sends the time of the
    -- connection, at most nine messages and a Ready message, and then its answers, each with room in a message
    -- and fewer than `rounds` to each request, the session ends and the socket is closed. The channels of
    -- the type that the server has listed are added to the list by name, in their order, and the times and, when
    -- they are asked for, the networks that it has sent are written to the channels with their keys, one after
    -- the other. The client has sent the connection request, the requests for channels,
    -- times and networks, and the farewell, and it has taken nothing behind the last answer.
    pub get_meta_channel_list-Stored :
        (big : Bool) (username password : Option Str) (s : State) (time : ℤ) (ms : List Before)
        (zeros : Bool)
        → (rest : List ℕ) → length (or_nil username) + length (or_nil password) ≤ 92
        → AreBytes (or_nil username)
        → AreBytes (or_nil password)
        → IsInt32 time
        → length ms ≤ 9
        → All IsBefore ms
        → content s
          ≡ htonl time ++ messages_bytes ms (message_bytes zeros msg_ready [] (server_bytes rest))
        → (s' : State) × (get_meta_channel_list sock rounds data_type flag big username password
              (some s)
            ≡ some (
                returned (record {
                  list = nets_heard (times_heard channels_heard.list);
                  channel_list = some channels_heard.channels;
                  socket = some s';
                  closed = true;
                })))
          × (content s' ≡ rest)
          × (sent s'
              ≡ sent s
                ++ (message_of msg_connect_request
                      (request_of (or_nil username) (or_nil password) time)
                    ++ server_asked))
    unfolding get_meta_channel_list log_in read_connection_time
    get_meta_channel_list-Stored big username password s time ms zeros rest n hu hp ht hm vm e =
        let before = messages_bytes ms (message_bytes zeros msg_ready [] (server_bytes rest)) in
        let w = recv_word-Stored sock stream duplex s time before ht e in
        let s1 = (recv_word sock s).state in
        let c =
          send_connect_request-sent sock stream duplex big s1 username password time n hu hp in
        let r =
          wait_ready-Stored sock stream duplex c.0 ms zeros (server_bytes rest) hm vm (c.2 ∙ w.2) in
        let a = ask_channels-Stored r.0 rest r.2 in
        let request =
          message_of msg_connect_request (request_of (or_nil username) (or_nil password) time) in
        (
          a.0,
          rw w.0 (rw w.1 (rw c.1 (rw r.1 a.1))),
          a.2,
          a.3
              ∙ ap (λ x. x ++ server_asked) (r.3 ∙ c.3 ∙ ap (λ x. x ++ request) w.3)
              ∙ append_assoc (sent s) request server_asked,
        )
