-- ===== src/ChanSeq/States.antt =====
-- nmxptool_chanseq_save_states and nmxptool_chanseq_load_states of src/nmxptool_chanseq.c: the file of channel
-- states, as the text that is written to it or read from it. `none` is an access past the end of an array.
pub mod Scan
pub mod Lines
pub mod Roundtrip
pub mod Whole
use nmxptool.Prelude.{
  ℕ, zero, suc, ◌+◌, ◌-◌, ◌==◌, Bool, true, false, not, ◌&&◌, ◌||◌, Option, none, some, List, [],
  ◌∷◌, ◌++◌, length, replicate, ltb, leb, if◌then◌else◌,
}
use nmxptool.Prelude.Int.{ℤ, pos, negsuc, eqb_ℤ}
use nmxptool.Double.{Double}
use nmxptool.Text.{Str, same_case}
use nmxptool.Chan.{ChanKey, ChanList}
use nmxptool.ChanSeq.{ChanSeq}
use nmxptool.Date.{Tm}
use nmxptool.Date.Strtol.{is_space, is_digit}
use nmxptool.Date.Parse.{Parsed, parse_date}
use nmxptool.Date.Print.{decimal, to_str}

-- "%10d".
unfoldable pub int_str : ℤ → Str
int_str (pos n) = decimal 9 n
int_str (negsuc n) = b'-' ∷ decimal 9 (suc n)

unfoldable pub key_str : ℤ → Str
key_str z = let s = int_str z in replicate (10 - length s) b' ' ++ s

-- "%10d %s %s %s" and a newline.
unfoldable pub state_line : ℤ → Str → Str → Str → Str
state_line key name last raw =
    key_str key ++ b' ' ∷ (name ++ b' ' ∷ (last ++ b' ' ∷ (raw ++ 10 ∷ [])))

-- sscanf() over the parts of a line, after the blanks before them: a number, and a word.
unfoldable pub skip_blanks : Str → Str
skip_blanks [] = []
skip_blanks (c ∷ cs) = let rest = skip_blanks cs in if is_space c then rest else c ∷ cs

unfoldable pub skip_digits : Str → Str
skip_digits [] = []
skip_digits (c ∷ cs) = let rest = skip_digits cs in if is_digit c then rest else c ∷ cs

unfoldable pub scan_digits : Str → Option Str
scan_digits [] = none
scan_digits (c ∷ cs) = if is_digit c then some (skip_digits cs) else none

unfoldable pub scan_int : Str → Option Str
scan_int s = elim (skip_blanks s) [
  | [] ↦ none
  | c ∷ cs ↦ if c == b'-' || c == b'+' then scan_digits cs else scan_digits (c ∷ cs)
]

unfoldable pub word : Str → Str × Str
word [] = ([], [])
word (c ∷ cs) = let rest = word cs in if is_space c then ([], c ∷ cs) else (c ∷ rest.0, rest.1)

unfoldable pub scan_word : Str → Option (Str × Str)
scan_word s = elim (skip_blanks s) [ [] ↦ none | c ∷ cs ↦ some (word (c ∷ cs)) ]

-- `n_scanf == 4`, `s_chan`, `s_noraw_time_s` and `s_rawtime_s`.
pub record Scanned : Type 0 where
  pub complete : Bool
  pub chan : Str
  pub noraw : Str
  pub raw : Str

unfoldable pub scan_line : Str → Scanned
scan_line line = elim (scan_int line) [
  | none ↦ record { complete = false; chan = []; noraw = []; raw = [] }
  | some s ↦ elim (scan_word s) [
    | none ↦ record { complete = false; chan = []; noraw = []; raw = [] }
    | some a ↦ elim (scan_word a.1) [
      | none ↦ record { complete = false; chan = a.0; noraw = []; raw = [] }
      | some b ↦ elim (scan_word b.1) [
        | none ↦ record { complete = false; chan = a.0; noraw = b.0; raw = [] }
        | some c ↦ record { complete = true; chan = a.0; noraw = b.0; raw = c.0 }
      ]
    ]
  ]
]

-- The words have 128 bytes each.
unfoldable pub words_fit : Scanned → Bool
words_fit w = ltb (length w.chan) 128 && (ltb (length w.noraw) 128 && ltb (length w.raw) 128)

-- fgets(): up to `n` bytes, a newline included.
unfoldable pub fgets : ℕ → Str → Str × Str
fgets zero s = ([], s)
fgets (suc n) [] = ([], [])
fgets (suc n) (c ∷ cs) = let r = fgets n cs in if c == 10 then (c ∷ [], cs) else (c ∷ r.0, r.1)

module _ (dbl : Double) where
  open dbl use {Num, add, div, le, of_int, literal}

  -- DEFAULT_BUFFERED_TIME.
  abbrev pub default_buffered_time : Num
  default_buffered_time = literal (negsuc 9) 1

  -- `a == b` of numbers.
  abbrev pub same_num : Num → Num → Bool
  same_num a b = le a b && le b a

  -- `nmxp_data_tm_to_time`; timegm() is a parameter.
  unfoldable pub tm_to_time : (Tm → ℤ) → Tm → Num
  tm_to_time timegm tm = add (of_int (timegm tm)) (div (of_int (pos tm.d)) (literal (pos 100000) 1))

  -- The loop of nmxptool_chanseq_save_states: the text. The strings of the times have 30 bytes.
  unfoldable pub save_states : (Num → Str) → ChanList → List (ChanSeq Num) → Option Str
  save_states str [] seqs = some []
  save_states str (c ∷ cs) [] = none
  save_states str (c ∷ cs) (q ∷ qs) =
      let last = str q.last_time in
      let raw = str q.raw_stream_buffer.last_sample_time in
      let rest = save_states str cs qs in
      if ltb (length last) 30 && ltb (length raw) 30
      then elim rest [ none ↦ none | some text ↦ some (state_line c.key c.name last raw ++ text) ]
      else none

  -- The entry of a channel with the two times of a line; `stc` is the short-term completion.
  unfoldable pub update_entry : ℤ → Num → Num → ChanSeq Num → ChanSeq Num
  update_entry stc noraw raw q =
      let set : Num → ChanSeq Num = λ t. record q {
        last_time = t;
        raw_stream_buffer = record q.raw_stream_buffer { last_sample_time = t };
      } in
      let timed =
        if not (same_num raw default_buffered_time) && not (same_num raw (literal (pos 0) 1))
        then set raw
        else (if not (same_num noraw default_buffered_time) then set noraw else q) in
      record timed { after_start_time = if eqb_ℤ stc (negsuc 0) then raw else noraw }

  -- The first channel of that name, but for case, and a write to its entry.
  unfoldable pub update_named :
      Str
      → (ChanSeq Num → ChanSeq Num)
      → ChanList
      → List (ChanSeq Num)
      → Option (List (ChanSeq Num))
  update_named name f [] seqs = some seqs
  update_named name f (c ∷ cs) [] = none
  update_named name f (c ∷ cs) (q ∷ qs) =
      let rest = update_named name f cs qs in
      if same_case name c.name
      then some (f q ∷ qs)
      else elim rest [ none ↦ none | some qs' ↦ some (q ∷ qs') ]

  -- A time of a line, or DEFAULT_BUFFERED_TIME, and `errno` behind it.
  unfoldable pub time_of : (Tm → ℤ) → List ℕ → Tm → Bool → Str → Option (Num × Bool)
  time_of timegm junk now errno s = elim (parse_date errno junk now s) [
    | none ↦ none
    | some p ↦ some (
      if eqb_ℤ p.result (negsuc 0) then default_buffered_time else tm_to_time timegm p.tm,
      p.errno,
    )
  ]

  unfoldable pub times_of : (Tm → ℤ) → List ℕ → Tm → Bool → Scanned → Option (Num × (Num × Bool))
  times_of timegm junk now errno w =
      if w.complete
      then elim (time_of timegm junk now errno w.noraw) [
        | none ↦ none
        | some a ↦ elim (time_of timegm junk now a.1 w.raw) [ none ↦ none | some b ↦ some (a.0, b) ]
      ]
      else some (default_buffered_time, (default_buffered_time, errno))

  -- One line of the file, and `errno` behind it.
  unfoldable pub load_scanned :
      (Tm → ℤ)
      → List ℕ
      → Tm
      → ℤ
      → ChanList
      → Scanned
      → Bool
      → List (ChanSeq Num)
      → Option (List (ChanSeq Num) × Bool)
  load_scanned timegm junk now stc channels w errno seqs =
      if words_fit w
      then elim (times_of timegm junk now errno w) [
        | none ↦ none
        | some t ↦ elim (update_named w.chan (update_entry stc t.0 t.1.0) channels seqs) [
          | none ↦ none
          | some seqs' ↦ some (seqs', t.1.1)
        ]
      ]
      else none

  unfoldable pub load_line :
      (Tm → ℤ)
      → List ℕ
      → Tm
      → ℤ
      → ChanList
      → Str
      → Bool
      → List (ChanSeq Num)
      → Option (List (ChanSeq Num) × Bool)
  load_line timegm junk now stc channels line errno seqs =
      load_scanned timegm junk now stc channels (scan_line line) errno seqs

  -- The loop of nmxptool_chanseq_load_states over the text, a line of at most 2047 bytes at a time; each line
  -- takes a byte at least, so as many rounds as bytes are enough.
  unfoldable pub load_lines :
      (Tm → ℤ)
      → List ℕ
      → Tm
      → ℤ
      → ChanList
      → ℕ
      → Str
      → Bool
      → List (ChanSeq Num)
      → Option (List (ChanSeq Num))
  load_lines timegm junk now stc channels zero text errno seqs = some seqs
  load_lines timegm junk now stc channels (suc n) [] errno seqs = some seqs
  load_lines timegm junk now stc channels (suc n) (c ∷ text) errno seqs =
      let r = fgets 2047 (c ∷ text) in
      elim (load_line timegm junk now stc channels r.0 errno seqs) [
        | none ↦ none
        | some a ↦ load_lines timegm junk now stc channels n r.1 a.1 a.0
      ]

  unfoldable pub load_states :
      (Tm → ℤ)
      → List ℕ
      → Tm
      → ℤ
      → ChanList
      → Str
      → Bool
      → List (ChanSeq Num)
      → Option (List (ChanSeq Num))
  load_states timegm junk now stc channels text errno seqs =
      load_lines timegm junk now stc channels (length text) text errno seqs
