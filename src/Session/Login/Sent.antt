-- ===== src/Session/Login/Sent.antt =====
-- What a connection request says, and when its checksum buffer is too short.
use nmxptool.Prelude.{
  ℕ, ◌+◌, ◌≤◌, ◌<◌, ◌/◌, ◌%◌, ◌≡◌, refl, ◌∙◌, ap, Bool, true, false, Option, some, List, [], ◌∷◌,
  ◌++◌, length, length-append, ltb, lt→ltb, All, All-append, arith,
}
use nmxptool.Prelude.Int.{ℤ, pos}
use nmxptool.Text.{Str}
use nmxptool.Word.{swap_4b}
use nmxptool.Chan.{word32}
use nmxptool.Crc.{crc32}
use nmxptool.Crc.Bitwise.{crc_bitwise, crc32-crc_bitwise}
use nmxptool.Decode.{returned, faulted}
use nmxptool.Transport.{Socket, socket_ok}
use nmxptool.Transport.Stream.{IsStream}
use nmxptool.Transport.Duplex.{IsDuplex, message_of, send_message-sent}
use nmxptool.Transport.Message.{htonl, send_message}
use nmxptool.Session.Login.{
  msg_connect_request, store_4, or_nil, checked_bytes, padded, connect_request_body,
  send_connect_request,
}

-- What the checksum is taken of, as it is sent: the same on either host.
abbrev pub signed_bytes : Str → Str → ℤ → List ℕ
signed_bytes [] password connection_time = []
signed_bytes (c ∷ username) [] connection_time = []
signed_bytes (c ∷ username) (d ∷ password) connection_time =
    (c ∷ username) ++ (htonl (pos 0) ++ (htonl connection_time ++ d ∷ password))

pub checked_bytes-signed_bytes :
    (big : Bool) (username password : Str) (connection_time : ℤ)
    → checked_bytes big username password connection_time
      ≡ signed_bytes username password connection_time
unfolding checked_bytes store_4 swap_4b
checked_bytes-signed_bytes true [] password t = refl
checked_bytes-signed_bytes false [] password t = refl
checked_bytes-signed_bytes true (c ∷ username) [] t = refl
checked_bytes-signed_bytes false (c ∷ username) [] t = refl
checked_bytes-signed_bytes true (c ∷ username) (d ∷ password) t = refl
checked_bytes-signed_bytes false (c ∷ username) (d ∷ password) t = refl

abbrev pub AreBytes : List ℕ → Type 0
AreBytes xs = All (λ b. b < 256) xs

htonl-AreBytes : (z : ℤ) → AreBytes (htonl z)
htonl-AreBytes z = (
  low (word32 z / 16777216),
  (low (word32 z / 65536), (low (word32 z / 256), (low (word32 z), tt))),
)
  where
    low : (n : ℕ) → n % 256 < 256
    low n = omega arith

signed_bytes-AreBytes :
    (username password : Str) (t : ℤ)
    → AreBytes username
    → AreBytes password
    → AreBytes (signed_bytes username password t)
signed_bytes-AreBytes [] password t h k = tt
signed_bytes-AreBytes (c ∷ username) [] t h k = tt
signed_bytes-AreBytes (c ∷ username) (d ∷ password) t h k =
    All-append (λ b. b < 256) (c ∷ username) (htonl (pos 0) ++ (htonl t ++ d ∷ password)) h
      (All-append (λ b. b < 256) (htonl (pos 0)) (htonl t ++ d ∷ password) (htonl-AreBytes (pos 0))
        (All-append (λ b. b < 256) (htonl t) (d ∷ password) (htonl-AreBytes t) k))

length-signed_bytes :
    (username password : Str) (t : ℤ)
    → length (signed_bytes username password t) ≤ length username + 8 + length password
length-signed_bytes [] password t = omega arith
length-signed_bytes (c ∷ username) [] t = omega arith
length-signed_bytes (c ∷ username) (d ∷ password) t =
    omega (arith, length-append username (htonl (pos 0) ++ (htonl t ++ d ∷ password)))

-- The request that a connection calls for: the name in twelve bytes, version 0, the time, and the checksum.
abbrev pub request_of : Str → Str → ℤ → List ℕ
request_of username password t =
    padded 12 username
    ++ (htonl (pos 0)
        ++ (htonl t ++ htonl (pos (crc_bitwise 0 (signed_bytes username password t)))))

pub connect_request_body-request_of :
    (big : Bool) (username password : Str) (t : ℤ)
    → AreBytes username
    → AreBytes password
    → connect_request_body big username password t ≡ request_of username password t
unfolding connect_request_body
connect_request_body-request_of big username password t h k =
    ap (λ n. padded 12 username ++ (htonl (pos 0) ++ (htonl t ++ htonl (pos n))))
      (ap (crc32 0) (checked_bytes-signed_bytes big username password t)
        ∙ crc32-crc_bitwise 0 (signed_bytes username password t)
            (signed_bytes-AreBytes username password t h k))

module _ (sock : Socket) (stream : IsStream sock) (duplex : IsDuplex sock stream) where
  open sock use {State}
  open stream use {content}
  open duplex use {sent}

  -- With a name and a password of at most 92 bytes together, either of which may be NULL, a connection
  -- request is sent whole: the first twelve bytes of the name, version 0, the time, and the checksum of name,
  -- version, time and password, computed bit by bit, or of nothing when name or password are missing. It is
  -- the same on hosts with either byte order, and takes nothing off the connection.
  pub send_connect_request-sent :
      (big : Bool) (s : State) (username password : Option Str) (t : ℤ)
      → length (or_nil username) + length (or_nil password) ≤ 92
      → AreBytes (or_nil username)
      → AreBytes (or_nil password)
      → (s' : State) × (send_connect_request sock big s username password t
          ≡ returned (socket_ok, s'))
        × (content s' ≡ content s)
        × (sent s'
            ≡ sent s
              ++ message_of msg_connect_request (request_of (or_nil username) (or_nil password) t))
  unfolding send_connect_request
  send_connect_request-sent big s username password t n h k =
      let u = or_nil username in
      let p = or_nil password in
      let body = connect_request_body big u p t in
      let m = send_message-sent sock stream duplex s msg_connect_request body in
      (
        (send_message sock s msg_connect_request body).1,
        rw
            (fits (length (checked_bytes big u p t)) (
              omega (
                arith,
                length-signed_bytes u p t,
                ap length (checked_bytes-signed_bytes big u p t),
              )))
            (ap (λ r. returned (r, (send_message sock s msg_connect_request body).1)) m.0),
        m.1,
        m.2
            ∙ ap (λ b. sent s ++ message_of msg_connect_request b)
                (connect_request_body-request_of big u p t h k),
      )
    where
      fits : (m : ℕ) → m ≤ 100 → ltb 100 m ≡ false
      fits m l = ground arith

  -- A name and a password, none of them empty, of more than 92 bytes together are written past the end of
  -- the buffer of 100 bytes of which the checksum is taken.
  pub send_connect_request-overflow :
      (big : Bool) (s : State) (c d : ℕ) (username password : Str) (t : ℤ)
      → 92 < length (c ∷ username) + length (d ∷ password)
      → send_connect_request sock big s (some (c ∷ username)) (some (d ∷ password)) t ≡ faulted
  unfolding send_connect_request
  send_connect_request-overflow big s c d username password t n =
      rw (ap length (checked_bytes-signed_bytes big (c ∷ username) (d ∷ password) t)) (
        rw
          (lt→ltb 100 (length (signed_bytes (c ∷ username) (d ∷ password) t))
            (omega (arith, length-append username (htonl (pos 0) ++ (htonl t ++ d ∷ password)))))
          refl)
