-- ===== src/Packet/Trim.antt =====
-- nmxp_data_trim of lib/nmxp_data.c.
mod Tests
pub mod Kept
use nmxptool.Prelude.{
  ℕ, zero, suc, ◌+◌, ◌-◌, ◌/◌, ◌%◌, Bool, true, false, not, ◌&&◌, ◌||◌, Option, none, some, List,
  [], ◌∷◌, length, set, get_elem?, ◌==◌, if◌then◌else◌,
}
use nmxptool.Prelude.Int.{ℤ, pos, negsuc, ◌+ℤ◌, ◌-ℤ◌, ltb_ℤ, eqb_ℤ, pos_part}
use nmxptool.Double.{Double}
use nmxptool.Packet.{DataProcess}

-- `pDataPtr[i]`; `none` is a read out of the array.
abbrev pub sample_at : Option (List ℤ) → ℤ → Option ℤ
sample_at none i = none
sample_at (some d) (pos i) = get_elem? d i
sample_at (some d) (negsuc i) = none

-- The loop `pDataPtr[i] = pDataPtr[k + i]` for n values from i on; `none` is an access out of the array.
unfoldable pub shift_left : ℕ → ℕ → ℕ → List ℤ → Option (List ℤ)
shift_left zero i k d = some d
shift_left (suc n) i k d = elim (get_elem? d (k + i)) [
  | none ↦ none
  | some x ↦ shift_left n (suc i) k (set d i x)
]

abbrev pub shift_samples : ℤ → ℤ → Option (List ℤ) → Option (List ℤ)
shift_samples n (pos k) (some d) = shift_left (pos_part n) 0 k d
shift_samples n (negsuc k) (some d) = none
shift_samples n k none = none

module _ (dbl : Double) where
  open dbl use {Num, add, sub, mul, div, lt, le, of_int, literal, to_int}

  -- `first_time` and `last_time` are the times of the first sample and behind the last.
  unfoldable pub last_time : DataProcess Num → Num
  last_time pd = add pd.time (div (of_int pd.n_samp) (of_int pd.samp_rate))

  -- `(int)(x * sampRate + 0.5)`, plus one when the sample at the border is left out.
  unfoldable pub count_removed : DataProcess Num → Num → Bool → ℤ
  count_removed pd x exclude =
      let n = to_int (add (mul x (of_int pd.samp_rate)) (literal (pos 5) 1)) in
      if exclude then n +ℤ pos 1 else n

  -- `first_nsamples_to_remove`; NMXP_DATA_TRIM_EXCLUDE_FIRST is 2.
  unfoldable pub first_removed : DataProcess Num → Num → Num → ℕ → ℤ
  first_removed pd trim_start trim_end bitmap =
      let count =
        if le pd.time trim_start && le trim_start (last_time pd)
        then count_removed pd (sub trim_start pd.time) (bitmap / 2 % 2 == 1)
        else pos 0 in
      if (lt pd.time trim_start && lt (last_time pd) trim_start)
        || (lt trim_end pd.time && lt trim_end (last_time pd))
      then pd.n_samp
      else count

  -- `last_nsamples_to_remove`; NMXP_DATA_TRIM_EXCLUDE_LAST is 4.
  unfoldable pub last_removed : DataProcess Num → Num → ℕ → ℤ
  last_removed pd trim_end bitmap =
      if le pd.time trim_end && le trim_end (last_time pd)
      then count_removed pd (sub (last_time pd) trim_end) (bitmap / 4 % 2 == 1)
      else pos 0

  -- The branch with samples left: x0, xn, the shifted samples, their number and the time.
  unfoldable pub keep_samples : DataProcess Num → ℤ → ℤ → Option (DataProcess Num)
  keep_samples pd first last =
      elim (if ltb_ℤ (pos 0) first then sample_at pd.data_ptr first else some pd.x0) [
        | none ↦ none
        | some x0 ↦
            elim (if ltb_ℤ (pos 0) last
              then sample_at pd.data_ptr (pd.n_samp -ℤ last)
              else some pd.xn) [
                | none ↦ none
                | some xn ↦ elim (shift_samples (pd.n_samp -ℤ first) first pd.data_ptr) [
                  | none ↦ none
                  | some d ↦ some (record pd {
                    x0 = x0;
                    xn = xn;
                    data_ptr = some d;
                    n_samp = pd.n_samp -ℤ (first +ℤ last);
                    time = add pd.time (div (of_int first) (of_int pd.samp_rate));
                  })
                ]
              ]
      ]

  -- The branches on the counts: `ret` and the structure; `none` is an access out of the array.
  unfoldable pub trim_by : DataProcess Num → ℤ → ℤ → Option (ℤ × DataProcess Num)
  trim_by pd first last =
      if ltb_ℤ (pos 0) first || ltb_ℤ (pos 0) last
      then (if ltb_ℤ (pos 0) (pd.n_samp -ℤ (first +ℤ last))
          then elim (keep_samples pd first last) [ none ↦ none | some pd' ↦ some (pos 1, pd') ]
          else (if eqb_ℤ (pd.n_samp -ℤ (first +ℤ last)) (pos 0)
              then some (pos 1, record pd { n_samp = pos 0; x0 = negsuc 0; xn = negsuc 0 })
              else some (pos 0, pd)))
      else some (pos 2, pd)

  -- `nmxp_data_trim` of a packet that is not NULL.
  unfoldable pub data_trim : DataProcess Num → Num → Num → ℕ → Option (ℤ × DataProcess Num)
  data_trim pd trim_start trim_end bitmap =
      trim_by pd (first_removed pd trim_start trim_end bitmap) (last_removed pd trim_end bitmap)
