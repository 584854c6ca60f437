-- ===== src/Session/Metas.antt =====
-- nmxp_getMetaChannelList of lib/nmxp.c: a session with a DataServer.
pub mod Stream
pub mod Infos
pub mod Whole
use nmxptool.Prelude.{
  ℕ, ◌%◌, ◌==◌, Bool, true, false, Option, none, some, List, [], ◌∷◌, ◌++◌, map, if◌then◌else◌,
}
use nmxptool.Prelude.Int.{ℤ, pos, negsuc, ltb_ℤ, eqb_ℤ}
use nmxptool.Text.{Str}
use nmxptool.Chan.{ChanList, word32, data_type_from_key}
use nmxptool.Chan.Meta.{
  MetaChan, sort_name, meta_chan_add, meta_chan_set_times, meta_chan_set_network,
}
use nmxptool.Decode.{Outcome, returned, exited, faulted}
use nmxptool.Transport.{Socket, socket_ok}
use nmxptool.Transport.Message.{htonl, send_header, send_message}
use nmxptool.Request.{send_terminate_subscription}
use nmxptool.Session.Ready.{read_connection_time, wait_ready}
use nmxptool.Session.Lists.{PrecisItem, read_channel_list, read_precis_list, read_channel_info}
use nmxptool.Session.Login.{send_connect_request}
use nmxptool.Session.Dialog.{Run, then_run, until_ready}

-- NMXP_MSG_CHANNELLISTREQUEST, NMXP_MSG_PRECISLISTREQUEST and NMXP_MSG_CHANNELINFOREQUEST.
abbrev pub msg_channel_list_request : ℤ
msg_channel_list_request = pos 209

abbrev pub msg_precis_list_request : ℤ
msg_precis_list_request = pos 203

abbrev pub msg_channel_info_request : ℤ
msg_channel_info_request = pos 226

-- "Bye!".
abbrev pub bye : Str
bye = b'B' ∷ b'y' ∷ b'e' ∷ b'!' ∷ []

-- getChannelNumberFromKey(key): the low four bits.
unfoldable pub channel_number_from_key : ℤ → ℕ
channel_number_from_key key = word32 key % 16

-- `channelList`, NULL at first, and `chan_list`.
pub record Metas : Type 0 where
  pub channels : Option ChanList
  pub list : List MetaChan

-- The loop over a list of channels.
unfoldable pub add_channels : ℕ → ChanList → List MetaChan → List MetaChan
add_channels data_type [] l = l
add_channels data_type (c ∷ cs) l = add_channels data_type cs (
    if data_type_from_key c.key == data_type
    then meta_chan_add l c.key (some c.name) (pos 0) (pos 0) none sort_name
    else l)

-- The body of the first loop: whatever the type of the message is, it is read as a list of channels. A
-- negative length is more than malloc() gives, and leaves NULL.
unfoldable pub take_channel_list : ℕ → Metas → ℤ → List ℕ → Outcome Metas
take_channel_list data_type a len buffer =
    if ltb_ℤ len (pos 0)
    then returned (record { channels = none; list = a.list })
    else elim (read_channel_list buffer) [
      | none ↦ faulted
      | some cs ↦ returned (record { channels = some cs; list = add_channels data_type cs a.list })
    ]

-- The loop over a list of times; an unknown key is only logged.
unfoldable pub set_times : List PrecisItem → List MetaChan → List MetaChan
set_times [] l = l
set_times (p ∷ ps) l = set_times ps (meta_chan_set_times l p.key p.start_time p.end_time)

unfoldable pub take_precis_list : List MetaChan → ℤ → List ℕ → Outcome (List MetaChan)
take_precis_list l len buffer =
    if ltb_ℤ len (pos 0)
    then returned l
    else elim (read_precis_list buffer) [ none ↦ faulted | some ps ↦ returned (set_times ps l) ]

unfoldable pub take_channel_info : List MetaChan → ℤ → List ℕ → Outcome (List MetaChan)
take_channel_info l len buffer =
    if ltb_ℤ len (pos 0) then returned l else elim (read_channel_info buffer) [
      | none ↦ faulted
      | some info ↦ returned (meta_chan_set_network l info.0 info.1)
    ]

-- NMXP_PRECISLISTREQUEST and NMXP_CHANNELINFOREQUEST; NMXP_DATA_TIMESERIES is 1.
abbrev pub precis_list_request : List ℕ
precis_list_request = htonl (negsuc 0) ++ (htonl (pos 1) ++ htonl (negsuc 0))

abbrev pub channel_info_request : ℤ → List ℕ
channel_info_request key = htonl key ++ htonl (pos 0)

module _ (sock : Socket) where
  open sock use {State}

  -- What the call leaves: its value, what it has written to `*pchannelList`, if it has, and the socket,
  -- with whether it has been closed.
  pub record MetaAnswer : Type 0 where
    pub list : List MetaChan
    pub channel_list : Option (Option ChanList)
    pub socket : Option State
    pub closed : Bool

  -- An early return, which leaves the socket open.
  abbrev pub stopped : State → Run MetaAnswer
  stopped s =
      some (returned (record { list = []; channel_list = none; socket = some s; closed = false }))

  -- The requests for the networks, over the keys of `chan_list`, which keep while its networks are set.
  unfoldable pub request_infos : ℕ → List ℤ → State → List MetaChan → Run (List MetaChan × State)
  request_infos rounds [] s l = some (returned (l, s))
  request_infos rounds (key ∷ keys) s l =
      if channel_number_from_key key == 0
      then then_run
          (until_ready sock take_channel_info rounds
            (send_message sock s msg_channel_info_request (channel_info_request key)).1 l)
          (λ r. request_infos rounds keys r.1 r.0)
      else request_infos rounds keys s l

  unfoldable pub ask_infos : ℕ → Bool → State → List MetaChan → Run (List MetaChan × State)
  ask_infos rounds flag s l =
      if flag then request_infos rounds (map (λ x. x.key) l) s l else some (returned (l, s))

  -- From the request for the times on.
  unfoldable pub ask_times : ℕ → Bool → State → List MetaChan → Run (List MetaChan × State)
  ask_times rounds flag s l =
      then_run
        (until_ready sock take_precis_list rounds
          (send_message sock s msg_precis_list_request precis_list_request).1 l)
        (λ r. ask_infos rounds flag r.1 r.0)

  -- From the request for the channels on, and the farewell.
  unfoldable pub ask_channels : ℕ → ℕ → Bool → State → Run MetaAnswer
  ask_channels rounds data_type flag s =
      then_run
        (until_ready sock (take_channel_list data_type) rounds
          (send_header sock s msg_channel_list_request (pos 0)).1
          (record { channels = none; list = [] }))
        (λ a. then_run (ask_times rounds flag a.1 a.0.list) (λ r. some (
          returned (record {
            list = r.0;
            channel_list = some a.0.channels;
            socket = some (send_terminate_subscription sock r.1 (some bye)).1;
            closed = true;
          }))))

  unfoldable pub log_in : ℕ → ℕ → Bool → Bool → Option Str → Option Str → ℤ → State → Run MetaAnswer
  log_in rounds data_type flag big username password connection_time s =
      then_run (some (send_connect_request sock big s username password connection_time)) (λ c.
        if eqb_ℤ c.0 socket_ok
        then then_run (some (wait_ready sock c.1)) (λ r.
          if eqb_ℤ r.0 socket_ok then ask_channels rounds data_type flag r.1 else stopped r.1)
        else stopped c.1)

  -- `nmxp_getMetaChannelList`, with what nmxp_openSocket returns; `rounds` bounds the messages that are
  -- received after each request, and `big` is the byte order of the host.
  unfoldable pub get_meta_channel_list :
      ℕ → ℕ → Bool → Bool → Option Str → Option Str → Option State → Run MetaAnswer
  get_meta_channel_list rounds data_type flag big username password none =
      some (returned (record { list = []; channel_list = none; socket = none; closed = false }))
  get_meta_channel_list rounds data_type flag big username password (some s) =
      let time = read_connection_time sock s in
      if eqb_ℤ time.result socket_ok
      then log_in rounds data_type flag big username password time.value time.state
      else stopped time.state
