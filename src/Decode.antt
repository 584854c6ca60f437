-- ===== src/Decode.antt =====
-- The two packet decoders of lib/nmxp_base.c: what they share, and a child for each.
mod Tests
pub mod Bundles
pub mod Compressed
pub mod Decompressed
use nmxptool.Prelude.{
  ℕ, ◌+◌, ◌-◌, Bool, true, false, Option, none, some, List, [], ◌∷◌, length, take, drop, get_or,
}
use nmxptool.Prelude.Int.{ℤ, pos, negsuc}
use nmxptool.Double.{Double}
use nmxptool.Packet.{DataProcess, data_init}
use nmxptool.Text.{Str, strncpy}
use nmxptool.Word.{Two, Four, Eight, load_4, signed_32}
use nmxptool.Chan.Name.{Codes}
use nmxptool.Chan.Subset.{or_default}

-- MAX_OUTDATA, and the cell count of `outdata`.
abbrev pub max_outdata : ℕ
max_outdata = 4096

-- A decoder returns, calls exit(), or reads or writes past the end of an array.
pub data Outcome {ℓ} (A : Type ℓ) : Type ℓ where
  returned : A → Outcome A
  exited : ℕ → Outcome A
  faulted : Outcome A

-- A cell of `buffer_data`; the decoders test first that the cells of the header are in the array.
abbrev pub byte_at : List ℕ → ℕ → ℕ
byte_at buffer i = get_or buffer i 0

abbrev pub two_at : List ℕ → ℕ → Two
two_at buffer i = record { b0 = byte_at buffer i; b1 = byte_at buffer (i + 1) }

abbrev pub four_at : List ℕ → ℕ → Four
four_at buffer i = record {
  b0 = byte_at buffer i;
  b1 = byte_at buffer (i + 1);
  b2 = byte_at buffer (i + 2);
  b3 = byte_at buffer (i + 3);
}

abbrev pub eight_at : List ℕ → ℕ → Eight
eight_at buffer i = record { low = four_at buffer i; high = four_at buffer (i + 4) }

-- `ntohl` of the word that memcpy() took from the buffer.
unfoldable pub ntohl_at : List ℕ → ℕ → ℤ
ntohl_at buffer i = signed_32 (load_4 true (four_at buffer i))

module _ (dbl : Double) where
  open dbl use {Num, literal}

  -- The structure after memset() and nmxp_data_init().
  abbrev pub fresh_packet : DataProcess Num
  fresh_packet = record {
    key = negsuc 0;
    network = [];
    station = [];
    channel = [];
    location = [];
    packet_type = negsuc 0;
    x0 = negsuc 0;
    xn = negsuc 0;
    x0n_significant = pos 0;
    oldest_seq_no = negsuc 0;
    seq_no = negsuc 0;
    time = literal (negsuc 9) 1;
    data_ptr = none;
    n_samp = pos 0;
    samp_rate = negsuc 0;
    timing_quality = negsuc 0;
    quality_indicator = 0;
  }

  -- The codes of the channel, or the defaults, copied to the arrays of the structure.
  unfoldable pub set_codes : Codes → Str → Str → DataProcess Num → DataProcess Num
  set_codes c network_code_default location_code_default pd = record pd {
    network = strncpy 10 (or_default c.network_code network_code_default);
    station = or_default (strncpy 10 c.station_code) pd.station;
    channel = or_default (strncpy 10 c.channel_code) pd.channel;
    location = strncpy 3 (or_default c.location_code location_code_default);
  }
