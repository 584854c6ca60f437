-- ===== src/Request/Pace.antt =====
-- nmxp_sendAddTimeSeriesChannel of lib/nmxp.c: the channels are requested in batches, one for each interval.
-- The line that is logged for a batch is not modelled.
pub mod Order
use nmxptool.Prelude.{
  ℕ, ◌+◌, ◌-◌, Bool, true, false, ◌&&◌, not, List, [], ◌∷◌, length, take, drop, ltb, leb,
  if◌then◌else◌,
}
use nmxptool.Prelude.Int.{ℤ, pos, negsuc, pos_part, eqb_ℤ, leb_ℤ, ◌+ℤ◌, ◌-ℤ◌, ◌*ℤ◌}
use nmxptool.Double.{Double}
use nmxptool.Chan.{ChanKey, ChanList}
use nmxptool.Transport.{Socket}
use nmxptool.Request.{send_add_channels}

-- A struct timeval.
pub record Timeval : Type 0 where
  pub sec : ℤ
  pub usec : ℤ

-- The static variables: `i`, `first_time` and `last_tp_now`.
pub record Pace : Type 0 where
  pub index : ℕ
  pub first_time : Bool
  pub last : Timeval

-- NMXP_MAX_MSCHAN_MSEC.
abbrev pub max_mschan_msec : ℤ
max_mschan_msec = pos 15000

-- No interval and no number of channels mean all channels at once.
unfoldable pub batch_size : ℤ → ℤ → ChanList → ℤ
batch_size n_channel n_usec channels =
    if eqb_ℤ n_usec (pos 0) && eqb_ℤ n_channel (pos 0) then pos (length channels) else n_channel

-- Where the batches take their channels from.
unfoldable pub restart : Bool → Pace → Pace
restart flag p = if flag then record p { index = 0; first_time = true } else p

-- `diff_usec`.
unfoldable pub elapsed : ℤ → Timeval → Pace → ℤ
elapsed n_usec now p =
    if p.first_time
    then n_usec +ℤ pos 1
    else (now.sec -ℤ p.last.sec) *ℤ pos 1000000 +ℤ (now.usec -ℤ p.last.usec)

-- The variables after the test for the first time.
unfoldable pub begun : Pace → Pace
begun p =
    if p.first_time
    then record p { first_time = false; last = record { sec = pos 0; usec = pos 0 } }
    else p

-- The batch of a call, `split_channelList`, and the variables after it; `size` and `n_usec` are the
-- adjusted ones.
unfoldable pub next_batch : ℤ → ℤ → Timeval → ChanList → Pace → ChanList × Pace
next_batch size n_usec now channels p =
    if ltb p.index (length channels)
    then (if leb_ℤ n_usec (elapsed n_usec now p)
        then (let batch = take (pos_part size) (drop p.index channels) in
            (batch, record { index = p.index + length batch; first_time = false; last = now }))
        else ([], begun p))
    else ([], p)

module _ (dbl : Double) where
  open dbl use {Num, mul, div, lt, of_int, literal, to_int}

  -- `estimated_time`.
  unfoldable pub estimated_time : ℤ → ℤ → ℤ → Num
  estimated_time number n_usec n_channel =
      mul (of_int number) (div (div (of_int n_usec) (literal (pos 10000000) 1)) (of_int n_channel))

  -- The interval, shortened if the requests would take too long.
  unfoldable pub adjusted_usec : ℤ → ℤ → ℤ → ℤ
  adjusted_usec number n_usec n_channel =
      if lt (div (of_int max_mschan_msec) (literal (pos 10000) 1))
        (estimated_time number n_usec n_channel)
      then to_int (
          mul (mul (of_int max_mschan_msec) (literal (pos 10000) 1))
            (div (of_int n_channel) (of_int number)))
      else n_usec

  -- `nmxp_sendAddTimeSeriesChannel`, with the time of the call: its value, the static variables and the socket.
  unfoldable pub send_paced :
      (sock : Socket)
      → sock.State
      → Pace
      → Timeval
      → ChanList
      → ℤ
      → ℤ
      → ℤ
      → ℤ
      → ℤ
      → Bool
      → ℤ × (Pace × sock.State)
  send_paced sock s p now channels short_term_completion out_format buffer_flag n_channel n_usec
        flag_restart =
      let size = batch_size n_channel n_usec channels in
      let usec = adjusted_usec (pos (length channels)) n_usec size in
      let b = next_batch size usec now channels (restart flag_restart p) in
      elim b.0 [
        | [] ↦ (pos 0, (b.1, s))
        | c ∷ cs ↦
            let r =
              send_add_channels sock s (c ∷ cs) short_term_completion out_format buffer_flag in
            (r.0, (b.1, r.1))
      ]
