-- ===== src/Packet.antt =====
-- include/nmxp_data.h: the structure NMXP_DATA_PROCESS, one packet of samples, and the functions of
-- lib/nmxp_data.c that only read or initialise it.
pub mod Trim
use nmxptool.Prelude.{ℕ, Option, none, List, []}
use nmxptool.Prelude.Int.{ℤ, pos, negsuc}
use nmxptool.Double.{Double}

-- A character array is the list of the bytes before its terminator. `pDataPtr` is NULL or an array.
pub record DataProcess (Num : Type 0) : Type 0 where
  pub key : ℤ
  pub network : List ℕ
  pub station : List ℕ
  pub channel : List ℕ
  pub location : List ℕ
  pub packet_type : ℤ
  pub x0 : ℤ
  pub xn : ℤ
  pub x0n_significant : ℤ
  pub oldest_seq_no : ℤ
  pub seq_no : ℤ
  pub time : Num
  pub data_ptr : Option (List ℤ)
  pub n_samp : ℤ
  pub samp_rate : ℤ
  pub timing_quality : ℤ
  pub quality_indicator : ℕ

module _ (dbl : Double) where
  open dbl use {Num, add, sub, div, of_int, literal}

  -- `nmxp_data_init` leaves `quality_indicator` alone.
  unfoldable pub data_init : DataProcess Num → DataProcess Num
  data_init pd = record pd {
    key = negsuc 0;
    network = [];
    station = [];
    channel = [];
    location = [];
    packet_type = negsuc 0;
    x0 = negsuc 0;
    xn = negsuc 0;
    x0n_significant = pos 0;
    oldest_seq_no = negsuc 0;
    seq_no = negsuc 0;
    time = literal (negsuc 9) 1;
    data_ptr = none;
    n_samp = pos 0;
    samp_rate = negsuc 0;
    timing_quality = negsuc 0;
  }

  -- `pd->time + ((double) pd->nSamp / (double) pd->sampRate)`.
  unfoldable pub end_time : DataProcess Num → Num
  end_time pd = add pd.time (div (of_int pd.n_samp) (of_int pd.samp_rate))

  -- `nmxp_data_latency` of a packet that is not NULL; `now` is what `time()` returns.
  unfoldable pub data_latency : ℤ → DataProcess Num → Num
  unfolding end_time
  data_latency now pd = sub (of_int now) (end_time pd)
