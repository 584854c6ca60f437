-- ===== src/Packet/Trim/Tests.antt =====
-- Four samples, of which the first and the last are cut off.
use nmxptool.Prelude.{◌≡◌, refl, some, List, [], ◌∷◌, arith}
use nmxptool.Prelude.Int.{ℤ, pos, negsuc}
use nmxptool.Double.Whole.{whole}
use nmxptool.Packet.{DataProcess}
use nmxptool.Packet.Trim.{trim_by}
use nmxptool.Packet.Trim.Kept.{IsKept, trim_by-IsKept}

abbrev samples : List ℤ
samples = pos 3 ∷ pos 1 ∷ pos 4 ∷ pos 1 ∷ []

abbrev four_samples : DataProcess ℤ
four_samples = record {
  key = pos 256;
  network = [];
  station = [];
  channel = [];
  location = [];
  packet_type = pos 4;
  x0 = negsuc 0;
  xn = negsuc 0;
  x0n_significant = pos 0;
  oldest_seq_no = negsuc 0;
  seq_no = negsuc 0;
  time = pos 100;
  data_ptr = some samples;
  n_samp = pos 4;
  samp_rate = pos 1;
  timing_quality = negsuc 0;
  quality_indicator = 0;
}

trim_by-IsKept_example :
    (pd : DataProcess ℤ) × (trim_by whole four_samples (pos 1) (pos 1) ≡ some (pos 1, pd))
    × IsKept whole pd samples 1 2
trim_by-IsKept_example =
    trim_by-IsKept whole four_samples samples 4 1 1 refl refl (omega arith) (omega arith)
      (omega arith)
