-- ===== src/ChanSeq.antt =====
-- src/nmxptool_chanseq.c: what the tool keeps for each channel, and its test for gaps.
pub mod Last
pub mod States
mod Tests
use nmxptool.Prelude.{ℕ, Bool, true, false, not, ◌&&◌, List, [], ◌∷◌, replicate, if◌then◌else◌}
use nmxptool.Prelude.Int.{ℤ, pos, negsuc, ltb_ℤ, eqb_ℤ}
use nmxptool.Double.{Double}
use nmxptool.Packet.{DataProcess, end_time}
use nmxptool.RawStream.{RawStream, init}

-- NMXPTOOL_CHAN_SEQ.
pub record ChanSeq (Num : Type 0) : Type 0 where
  pub significant : Bool
  pub last_time : Num
  pub last_time_call_raw_stream : ℤ
  pub x_1 : ℤ
  pub after_start_time : Num
  pub raw_stream_buffer : RawStream Num

module _ (dbl : Double) where
  open dbl use {Num, sub, lt, of_int, literal}

  -- `nmxptool_chanseq_init`: one entry for each channel.
  unfoldable pub chanseq_init : ℕ → Num → ℤ → ℤ → List (ChanSeq Num)
  chanseq_init number default_after_start_time max_tolerable_latency timeoutrecv =
      replicate number (record {
        significant = false;
        last_time = literal (pos 0) 1;
        last_time_call_raw_stream = pos 0;
        x_1 = pos 0;
        after_start_time = default_after_start_time;
        raw_stream_buffer = init dbl max_tolerable_latency timeoutrecv;
      })

  -- `nmxptool_chanseq_check_and_log_gap`: 1 for a gap, -1 for an overlap, 0 for neither.
  unfoldable pub check_gap : Num → Num → Num → ℤ
  check_gap time1 time2 gap_tolerance =
      if lt gap_tolerance (sub time1 time2)
      then pos 1
      else (if lt (sub time1 time2) (sub (of_int (pos 0)) gap_tolerance) then negsuc 0 else pos 0)

  -- GAP_TOLLERANCE, 0.001.
  abbrev pub gap_tolerance : Num
  gap_tolerance = literal (pos 1) 3

  -- `nmxptool_chanseq_gap`: what it returns, and the entry afterwards.
  unfoldable pub chanseq_gap : ChanSeq Num → DataProcess Num → ℤ × ChanSeq Num
  chanseq_gap item pd =
      if ltb_ℤ (pos 0) pd.n_samp
      then (if item.significant
          then (let ret = check_gap pd.time item.last_time gap_tolerance in
              (
                ret,
                record item {
                  x_1 = if eqb_ℤ ret (pos 0) then item.x_1 else pos 0;
                  last_time = end_time dbl pd;
                },
              ))
          else (pos 0, record item { significant = true; last_time = end_time dbl pd }))
      else (pos 0, item)
