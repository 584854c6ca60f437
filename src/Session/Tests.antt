-- ===== src/Session/Tests.antt =====
-- Sessions with servers of one channel, over a connection that hands out its bytes one by one.
use nmxptool.Prelude.{
  ℕ, zero, suc, ◌≤◌, ◌<◌, ◌≡◌, ◌≢◌, refl, true, false, Option, some, List, [], ◌∷◌, ◌++◌, length,
  replicate, take, drop, arith,
}
use nmxptool.Prelude.Int.{ℤ, pos}
use nmxptool.Text.{Str}
use nmxptool.Chan.{ChanKey, ChanList}
use nmxptool.Decode.{returned, faulted}
use nmxptool.Transport.{Socket, socket_ok}
use nmxptool.Transport.Stream.{IsStream}
use nmxptool.Transport.Duplex.{IsDuplex, message_of}
use nmxptool.Transport.Message.{htonl}
use nmxptool.Transport.Tests.{pipe_recv}
use nmxptool.Session.Ready.{wait_ready, msg_ready}
use nmxptool.Session.Ready.Stream.{
  Before, IsBefore, message_bytes, messages_bytes, wait_ready-Stored,
}
use nmxptool.Session.Lists.Roundtrip.{IsName, IsChannel, channel_bytes, list_bytes}
use nmxptool.Session.Available.{msg_channel_list, available_channels}
use nmxptool.Session.Available.Stream.{available_channels-other}
use nmxptool.Session.Login.{msg_connect_request, send_connect_request, or_nil}
use nmxptool.Session.Login.Sent.{
  request_of, send_connect_request-sent, send_connect_request-overflow,
}
use nmxptool.Session.Metas.{get_meta_channel_list}
use nmxptool.Session.Metas.Stream.{Info}
use nmxptool.Session.Metas.Whole.{
  Server, IsServer, channels_heard, times_heard, nets_heard, server_bytes, server_asked,
  get_meta_channel_list-Stored,
}

-- The bytes on their way, and those that were sent.
abbrev wire : Socket
wire = record {
  State = List ℕ × List ℕ;
  recv = λ s n. let r = pipe_recv s.0 n in (r.0, (r.1, s.1));
  send = λ s bytes. (pos (length bytes), (s.0, s.1 ++ bytes));
}

abbrev wire-IsStream : IsStream wire
wire-IsStream = record { content = λ s. s.0; takes = λ s n h k. taken s.0 n h k }
  where
    taken :
        (s : List ℕ) (n : ℕ)
        → 0 < n
        → s ≢ []
        → (k : ℕ) × (0 < k)
          × (k ≤ n)
          × ((pipe_recv s n).0 ≡ record { cc = pos k; errno = pos 0; bytes = take k s })
          × ((pipe_recv s n).1 ≡ drop k s)
    taken [] n h k = absurd (k refl)
    taken (b ∷ bs) zero h k = absurd (omega arith)
    taken (b ∷ bs) (suc n) h k = (1, omega arith, omega arith, refl, refl)

abbrev wire-IsDuplex : IsDuplex wire wire-IsStream
wire-IsDuplex = record {
  sent = λ s. s.1;
  sends = λ s bytes. (refl, refl, refl);
  receives = λ s n. refl;
}

-- A message before the Ready message.
abbrev notice : Before
notice = record { zeros = true; type = pos 205; body = 1 ∷ 2 ∷ [] }

differs : (a b : ℕ) → a < b → pos a ≡ pos b → ⊥
differs a b h e = ground arith

above : (a b : ℕ) → b < a → pos a ≡ pos b → ⊥
above a b h e = ground arith

notice-IsBefore : IsBefore notice
notice-IsBefore = record {
  word = (omega arith, omega arith);
  not_ready = differs 205 208 (omega arith);
  not_terminated = above 205 200 (omega arith);
  short = omega arith;
}

abbrev ready_wire : List ℕ × List ℕ
ready_wire = (messages_bytes (notice ∷ []) (message_bytes false msg_ready [] (7 ∷ [])), [])

wait_ready-Stored_example :
    (s' : List ℕ × List ℕ) × (wait_ready wire ready_wire ≡ returned (socket_ok, s'))
    × (s'.0 ≡ 7 ∷ [])
    × (s'.1 ≡ [])
wait_ready-Stored_example =
    wait_ready-Stored wire wire-IsStream wire-IsDuplex ready_wire (notice ∷ []) false (7 ∷ [])
      (omega arith) (notice-IsBefore, tt) refl

-- A channel of time series.
abbrev channel : ChanKey
channel = record { key = pos 256; name = b'A' ∷ b'B' ∷ [] }

IsName-codes : IsName 12 (b'A' ∷ b'B' ∷ [])
IsName-codes = record {
  inside = omega arith;
  visible = ((λ e. omega arith), ((λ e. omega arith), tt));
}

channel-IsChannel : IsChannel channel
channel-IsChannel = record { key = (omega arith, omega arith); name = IsName-codes }

abbrev as_it_is : (ChanKey → ChanKey → ℤ) → ChanList → ChanList
as_it_is order cs = cs

abbrev list_wire : List ℕ × List ℕ
list_wire = (message_of msg_channel_list (list_bytes channel_bytes (channel ∷ [])) ++ (7 ∷ []), [])

available_channels-other_example :
    available_channels wire as_it_is 1 (some (message_of (pos 205) (1 ∷ []) ++ [], [])) ≡ faulted
available_channels-other_example =
    available_channels-other wire wire-IsStream wire-IsDuplex as_it_is 1
      (message_of (pos 205) (1 ∷ []) ++ [], []) (pos 205) (1 ∷ []) [] (omega arith, omega arith)
      (above 205 0 (omega arith)) (above 205 150 (omega arith)) (omega arith) refl

abbrev user : Option Str
user = some (b'u' ∷ [])

abbrev pass : Option Str
pass = some (b'p' ∷ [])

send_connect_request-sent_example :
    (s' : List ℕ × List ℕ) × (send_connect_request wire false ([], []) user pass (pos 1)
      ≡ returned (socket_ok, s'))
    × (s'.0 ≡ [])
    × (s'.1 ≡ [] ++ message_of msg_connect_request (request_of (or_nil user) (or_nil pass) (pos 1)))
send_connect_request-sent_example =
    send_connect_request-sent wire wire-IsStream wire-IsDuplex false ([], []) user pass (pos 1)
      (omega arith) (omega arith, tt) (omega arith, tt)

abbrev long_word : Str
long_word = replicate 100 b'x'

send_connect_request-overflow_example :
    send_connect_request wire false ([], []) (some (b'u' ∷ long_word)) pass (pos 1) ≡ faulted
send_connect_request-overflow_example =
    send_connect_request-overflow wire wire-IsStream wire-IsDuplex false ([], []) b'u' b'p'
      long_word [] (pos 1) (omega arith)

-- A server with one channel, its times and its network.
abbrev info : Info
info = record { key = pos 256; name = b'A' ∷ []; network = b'N' ∷ [] }

abbrev server : Server
server = record {
  channels_type = pos 150;
  times_type = pos 253;
  infos_type = pos 256;
  channels = (channel ∷ []) ∷ [];
  times = (record { key = pos 256; start_time = pos 1; end_time = pos 2 } ∷ []) ∷ [];
  names = λ p. b'A' ∷ [];
  infos = λ key. info ∷ [];
}

server-IsServer : IsServer 2 server
server-IsServer = record {
  channels_type = record {
    word = (omega arith, omega arith);
    not_zero = above 150 0 (omega arith);
    not_ready = differs 150 208 (omega arith);
  };
  times_type = record {
    word = (omega arith, omega arith);
    not_zero = above 253 0 (omega arith);
    not_ready = above 253 208 (omega arith);
  };
  infos_type = record {
    word = (omega arith, omega arith);
    not_zero = above 256 0 (omega arith);
    not_ready = above 256 208 (omega arith);
  };
  names = λ p. omega arith;
  channels = (record { short = omega arith; each = (channel-IsChannel, tt) }, tt);
  times = (
    record {
      short = omega arith;
      each = (
        record {
          key = (omega arith, omega arith);
          start_time = (omega arith, omega arith);
          end_time = (omega arith, omega arith);
        },
        tt,
      );
    },
    tt,
  );
  infos = λ key. (
    record {
      key = (omega arith, omega arith);
      name = omega arith;
      network = record { inside = omega arith; visible = ((λ e. omega arith), tt) };
    },
    tt,
  );
  few_channels = omega arith;
  few_times = omega arith;
  few_infos = λ key. omega arith;
}

abbrev server_wire : List ℕ × List ℕ
server_wire = (
  htonl (pos 9)
      ++ messages_bytes (notice ∷ [])
          (message_bytes false msg_ready [] (server_bytes 1 true server (7 ∷ []))),
  [],
)

get_meta_channel_list-Stored_example :
    (s' : List ℕ × List ℕ) × (get_meta_channel_list wire 2 1 true false user pass (some server_wire)
      ≡ some (
          returned (record {
            list =
                nets_heard 1 true server
                  (times_heard 1 true server (channels_heard 1 true server).list);
            channel_list = some (channels_heard 1 true server).channels;
            socket = some s';
            closed = true;
          })))
    × (s'.0 ≡ 7 ∷ [])
    × (s'.1
        ≡ []
          ++ (message_of msg_connect_request (request_of (or_nil user) (or_nil pass) (pos 9))
              ++ server_asked 1 true server))
get_meta_channel_list-Stored_example =
    get_meta_channel_list-Stored 1 true server wire wire-IsStream wire-IsDuplex 2 server-IsServer
      false user pass server_wire (pos 9) (notice ∷ []) false (7 ∷ []) (omega arith)
      (omega arith, tt) (omega arith, tt) (omega arith, omega arith) (omega arith)
      (notice-IsBefore, tt) refl
