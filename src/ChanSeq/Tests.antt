-- ===== src/ChanSeq/Tests.antt =====
-- One packet with samples, and an empty one behind it.
use nmxptool.Prelude.{◌≡◌, refl, true, false, none, some, [], ◌∷◌, ◌++◌, replicate, arith}
use nmxptool.Prelude.Int.{ℤ, pos, negsuc}
use nmxptool.Double.Whole.{whole}
use nmxptool.Packet.{DataProcess, end_time}
use nmxptool.RawStream.{init}
use nmxptool.ChanSeq.{ChanSeq}
use nmxptool.ChanSeq.States.{save_states, load_states}
use nmxptool.ChanSeq.States.Lines.{IsDated, line, Saved, IsSaved}
use nmxptool.ChanSeq.States.Whole.{channels_of, AreDistinct, restored, load_states-save_states}
use nmxptool.Date.{Tm, month_days}
use nmxptool.Text.{Str, same_case, tolower}
use nmxptool.ChanSeq.Last.{feed, feed-last_time}

abbrev no_samples : DataProcess ℤ
no_samples = record {
  key = pos 256;
  network = [];
  station = [];
  channel = [];
  location = [];
  packet_type = pos 4;
  x0 = negsuc 0;
  xn = negsuc 0;
  x0n_significant = pos 0;
  oldest_seq_no = negsuc 0;
  seq_no = negsuc 0;
  time = pos 100;
  data_ptr = none;
  n_samp = pos 0;
  samp_rate = pos 1;
  timing_quality = negsuc 0;
  quality_indicator = 0;
}

abbrev ten_samples : DataProcess ℤ
ten_samples = record no_samples { n_samp = pos 10 }

abbrev fresh : ChanSeq ℤ
fresh = record {
  significant = false;
  last_time = pos 0;
  last_time_call_raw_stream = pos 0;
  x_1 = pos 0;
  after_start_time = pos 0;
  raw_stream_buffer = init whole (pos 2) (pos 0);
}

feed-last_time_example :
    ((feed whole fresh ([] ++ ten_samples ∷ no_samples ∷ [])).last_time
      ≡ end_time whole ten_samples)
    × ((feed whole fresh ([] ++ ten_samples ∷ no_samples ∷ [])).significant ≡ true)
feed-last_time_example = feed-last_time whole fresh [] (no_samples ∷ []) ten_samples refl (refl, tt)

-- The states of two channels.
abbrev first_saved : Saved
first_saved = record {
  key = pos 256;
  name = b'A' ∷ b'A' ∷ [];
  last = record {
    moment = record {
      year = 2010;
      jday = 245;
      hour = 12;
      minute = 34;
      second = 56;
      fraction = 123;
    };
    month = 8;
    day = 2;
  };
  raw = record {
    moment = record {
      year = 2010;
      jday = 245;
      hour = 12;
      minute = 34;
      second = 56;
      fraction = 123;
    };
    month = 8;
    day = 2;
  };
}

abbrev second_saved : Saved
second_saved = record first_saved { key = negsuc 4; name = b'B' ∷ [] }

september-IsDated : IsDated first_saved.last
unfolding month_days
september-IsDated = record {
  moment = record {
    from = omega arith;
    upto = omega arith;
    jday = omega arith;
    hour = omega arith;
    minute = omega arith;
    second = omega arith;
    fraction = omega arith;
  };
  no_century = λ e. omega arith;
  day = record { month = omega arith; first = omega arith; last = omega arith };
  jday = refl;
}

first-IsSaved : IsSaved first_saved
first-IsSaved = record {
  word = (refl, (refl, tt));
  some_name = omega arith;
  short = omega arith;
  last = september-IsDated;
  raw = september-IsDated;
}

second-IsSaved : IsSaved second_saved
second-IsSaved = record {
  word = (refl, tt);
  some_name = omega arith;
  short = omega arith;
  last = september-IsDated;
  raw = september-IsDated;
}

both-AreDistinct : AreDistinct (first_saved ∷ second_saved ∷ [])
unfolding same_case tolower
both-AreDistinct = ((refl, tt), (tt, tt))

abbrev always : ℤ → Str
always t = line first_saved.last

abbrev year_of : Tm → ℤ
year_of tm = tm.year

abbrev any_day : Tm
any_day = record {
  sec = pos 0;
  min = pos 0;
  hour = pos 0;
  mday = pos 1;
  mon = pos 0;
  year = pos 110;
  wday = pos 5;
  yday = pos 0;
  isdst = pos 0;
  d = 0;
}

load_states-save_states_example :
    (text : Str) × (save_states whole always
        (channels_of (first_saved ∷ second_saved ∷ []))
        (fresh ∷ fresh ∷ [])
      ≡ some text)
    × (load_states whole year_of
          (replicate 20 7)
          any_day
          (negsuc 0)
          (channels_of (first_saved ∷ second_saved ∷ []))
          text
          false
          (fresh ∷ fresh ∷ [])
        ≡ some (
            restored whole year_of
              (replicate 20 7)
              any_day
              (negsuc 0)
              (first_saved ∷ second_saved ∷ [])
              (fresh ∷ fresh ∷ [])))
load_states-save_states_example =
    load_states-save_states whole year_of (replicate 20 7) any_day (negsuc 0) always
      (first_saved ∷ second_saved ∷ []) (fresh ∷ fresh ∷ []) (fresh ∷ fresh ∷ [])
      (first-IsSaved, (second-IsSaved, tt)) both-AreDistinct (refl, refl, (refl, refl, tt)) refl
