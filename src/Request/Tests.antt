-- ===== src/Request/Tests.antt =====
-- A request for one channel, and a short message of data.
use nmxptool.Prelude.{◌≡◌, refl, true, List, [], ◌∷◌, arith}
use nmxptool.Prelude.Int.{ℤ, pos, negsuc, ◌+ℤ◌, ◌-ℤ◌, ◌*ℤ◌}
use nmxptool.Word.{Eight}
use nmxptool.Chan.{ChanList}
use nmxptool.Request.{add_channels_body}
use nmxptool.Request.Pace.{Timeval, Pace, elapsed, next_batch, begun}
use nmxptool.Request.Pace.Order.{batches, AreDue, batches-all}
use nmxptool.Request.Words.{words, words-add_channels_body}

abbrev channels : ChanList
channels = record { key = pos 256; name = b'A' ∷ [] } ∷ []

abbrev zero_of : Eight → ℤ
zero_of e = pos 0

words-add_channels_body_example :
    words (add_channels_body channels (pos 10) (negsuc 0) (pos 1))
    ≡ pos 1 ∷ pos 256 ∷ pos 10 ∷ negsuc 0 ∷ pos 1 ∷ []
words-add_channels_body_example =
    words-add_channels_body channels (pos 10) (negsuc 0) (pos 1) (omega arith)
      ((omega arith, omega arith), tt) (omega arith, omega arith) (omega arith, omega arith)
      (omega arith, omega arith)

-- Two channels, one in each call, the second call two seconds after the first.
abbrev two_channels : ChanList
two_channels =
    record { key = pos 256; name = b'A' ∷ [] } ∷ record { key = pos 257; name = b'B' ∷ [] } ∷ []

abbrev idle : Pace
idle = record { index = 0; first_time = true; last = record { sec = pos 0; usec = pos 0 } }

abbrev calls : List Timeval
calls = record { sec = pos 10; usec = pos 0 } ∷ record { sec = pos 12; usec = pos 0 } ∷ []

calls-AreDue : AreDue (pos 1) (pos 500000) two_channels calls idle
unfolding elapsed next_batch begun ◌+ℤ◌ ◌-ℤ◌ ◌*ℤ◌
calls-AreDue = (refl, (refl, tt))

batches-all_example : batches (pos 1) (pos 500000) two_channels calls idle ≡ two_channels
batches-all_example =
    batches-all (pos 1) (pos 500000) two_channels calls idle (omega arith) calls-AreDue
      (omega arith)
