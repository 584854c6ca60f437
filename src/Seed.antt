-- ===== src/Seed.antt =====
-- lib/nmxp_data.c: the table of the miniSEED files that are open, nmxp_data_mkdirp and nmxp_data_dir_exists.
-- The file system is a parameter.
pub mod Find
pub mod Table
pub mod Disk
pub mod Tied
mod Tests
use nmxptool.Prelude.{
  ℕ, zero, suc, ◌+◌, ◌%◌, ◌==◌, Bool, true, false, not, ◌&&◌, Option, none, some, List, [], ◌∷◌,
  ◌++◌, take, set, get_elem?, replicate, ltb, if◌then◌else◌,
}
use nmxptool.Prelude.Int.{ℤ, pos, negsuc, pos_part, eqb_ℤ, ◌+ℤ◌}
use nmxptool.Text.{Str, is_nil, strcmp, strncpy}
use nmxptool.Date.{Tm}
use nmxptool.Double.{Double}
use nmxptool.Date.Print.{padded_int, year_from_epoch, yday_from_epoch}
use nmxptool.ChanSeq.States.{int_str}

-- NMXP_DATA_MAX_SIZE_FILENAME and NMXP_DATA_MAX_NUM_OPENED_FILE.
abbrev pub max_size_filename : ℕ
max_size_filename = 1024

abbrev pub max_num_opened_file : ℕ
max_num_opened_file = 200

-- What the code asks of the system: chdir() and mkdir() say whether they succeed; getcwd() and fopen() may
-- give NULL.
pub record Files : Type 1 where
  pub State : Type 0
  pub File : Type 0
  pub getcwd : State → Option Str
  pub chdir : State → Str → Bool × State
  pub mkdir : State → Str → Bool × State
  pub fopen : State → Str → Option File × State
  pub fclose : State → File → State

-- NMXP_DATA_SEED_TYPEWRITE.
pub data WriteType : Type 0 where
  sds bud : WriteType

-- The fields of MSRecord that are used; `start` is its start time as an epoch.
pub record Record (Num : Type 0) : Type 0 where
  pub network : Str
  pub station : Str
  pub location : Str
  pub channel : Str
  pub start : Num

-- A cell of `filename_mseed` and of `outfile_mseed`.
pub record Slot (File : Type 0) : Type 0 where
  pub name : Str
  pub file : Option File

-- NMXP_DATA_SEED without its record and the errors of the files, which these operations do not change.
pub record Seed (File : Type 0) : Type 0 where
  pub n_open_files : ℕ
  pub last_open_file : ℤ
  pub cur_open_file : ℤ
  pub err_general : ℕ
  pub slots : List (Slot File)
  pub outdirseed : Str
  pub default_network : Str
  pub write_type : WriteType

abbrev pub slash : Str
slash = b'/' ∷ []

-- NMXP_DATA_NETCODE_OR_DEFAULT_NETWORK.
unfoldable pub network_or_default : {Num : Type 0} → Str → Record Num → Str
network_or_default default_network r = if is_nil r.network then default_network else r.network

-- The first cell below `n` with a name.
unfoldable pub find_name : {File : Type 0} → Str → ℕ → ℕ → List (Slot File) → Option ℕ
find_name name i zero slots = none
find_name name i (suc n) [] = none
find_name name i (suc n) (x ∷ slots) =
    let rest = find_name name (suc i) n slots in
    if eqb_ℤ (strcmp name x.name) (pos 0) then some i else rest

-- The names of directory and file, which snprintf() cuts.
module _ (dbl : Double) (to_time_t : dbl.Num → ℤ) (gmtime : ℤ → Tm) where
  open dbl use {Num}

  unfoldable pub day_str : Num → Str
  day_str start =
      int_str (year_from_epoch dbl to_time_t gmtime start)
      ++ b'.' ∷ padded_int 3 (yday_from_epoch dbl to_time_t gmtime start)

  -- `nmxp_data_get_filename_ms`.
  unfoldable pub get_filename_ms : {File : Type 0} → Seed File → Record Num → Str × Str
  get_filename_ms seed r =
      let network = network_or_default seed.default_network r in
      let tail = r.location ++ b'.' ∷ r.channel in
      elim seed.write_type [
        | sds ↦ (
          take 1023 (
              seed.outdirseed
              ++ slash
              ++ int_str (year_from_epoch dbl to_time_t gmtime r.start)
              ++ slash
              ++ network
              ++ slash
              ++ r.station
              ++ slash
              ++ r.channel
              ++ b'.' ∷ b'D' ∷ []),
          take 1023 (
              network
              ++ b'.' ∷ (r.station ++ b'.' ∷ (tail ++ b'.' ∷ b'D' ∷ b'.' ∷ day_str r.start))),
        )
        | bud ↦ (
          take 1023 (seed.outdirseed ++ slash ++ network ++ slash ++ r.station),
          take 1023 (r.station ++ b'.' ∷ (network ++ b'.' ∷ (tail ++ b'.' ∷ day_str r.start))),
        )
      ]

-- The cell that is opened next.
abbrev pub next_slot : {File : Type 0} → Seed File → ℕ
next_slot seed = pos_part (seed.last_open_file +ℤ pos 1) % max_num_opened_file

module _ (fs : Files) where
  open fs use {State, File}

  unfoldable pub go_back : Option Str → State → State
  go_back none s = s
  go_back (some dir) s = (fs.chdir s dir).1

  -- `nmxp_data_dir_exists`.
  unfoldable pub dir_exists : State → Str → Bool × State
  dir_exists s dirname = let r = fs.chdir s dirname in (r.0, go_back (fs.getcwd s) r.1)

  -- The loop of nmxp_data_mkdirp, with what is before and behind its position, and the last directory: whether
  -- there was no error.
  unfoldable pub make_dirs : Str → Str → State → Bool × State
  make_dirs before [] s = fs.mkdir s before
  make_dirs before (c ∷ behind) s =
      let more = make_dirs (before ++ c ∷ []) behind in
      if c == b'/' && not (is_nil before)
      then (let c = fs.chdir s before in
          let m = fs.mkdir c.1 before in if c.0 then more c.1 else if m.0 then more m.1 else m)
      else more s

  -- `nmxp_data_mkdirp` of a string that is not NULL.
  unfoldable pub mkdirp : State → Str → Bool × State
  mkdirp s dirname = let r = make_dirs [] dirname s in (r.0, go_back (fs.getcwd s) r.1)

  -- The directory of the file: whether it is there.
  unfoldable pub ensure_dir : State → Str → Bool × State
  ensure_dir s dirname =
      let there = dir_exists s dirname in
      if there.0
      then there
      else (let made = mkdirp there.1 dirname in if made.0 then dir_exists made.1 dirname else made)

  abbrev pub closed_slot : Slot File
  closed_slot = record { name = []; file = none }

  -- `nmxp_data_seed_init`, with the directory that nmxp_data_dir_abspath or nmxp_data_gnu_getcwd gives.
  unfoldable pub seed_init : Str → Str → WriteType → Seed File
  seed_init dirname network type = record {
    n_open_files = 0;
    last_open_file = negsuc 0;
    cur_open_file = negsuc 0;
    err_general = 0;
    slots = replicate max_num_opened_file closed_slot;
    outdirseed = strncpy max_size_filename dirname;
    default_network = strncpy 5 network;
    write_type = type;
  }

  -- fclose() of a cell, and the cell behind it.
  unfoldable pub close_slot : State → Slot File → Slot File × State
  close_slot s x = elim x.file [ none ↦ (x, s) | some f ↦ (closed_slot, fs.fclose s f) ]

  -- `nmxp_data_seed_fclose`.
  unfoldable pub seed_fclose : Seed File → ℕ → State → Seed File × State
  seed_fclose seed i s = elim (get_elem? seed.slots i) [
    | none ↦ (seed, s)
    | some x ↦ let r = close_slot s x in (record seed { slots = set seed.slots i r.0 }, r.1)
  ]

  -- The loop of nmxp_data_seed_fclose_all.
  unfoldable pub close_slots : List (Slot File) → State → List (Slot File) × State
  close_slots [] s = ([], s)
  close_slots (x ∷ slots) s =
      let r = close_slot s x in let rest = close_slots slots r.1 in (r.0 ∷ rest.0, rest.1)

  -- `nmxp_data_seed_fclose_all`.
  unfoldable pub seed_fclose_all : Seed File → State → Seed File × State
  seed_fclose_all seed s =
      let r = close_slots seed.slots s in
      (
        record seed {
          slots = r.0;
          n_open_files = 0;
          last_open_file = negsuc 0;
          cur_open_file = negsuc 0;
        },
        r.1,
      )

  -- The cell `app` with what fopen() gives: the number of errors.
  unfoldable pub opened : Seed File → ℕ → Str → Option File → ℕ × Seed File
  opened seed app name none =
      (1, record seed { slots = set seed.slots app (record { name = name; file = none }) })
  opened seed app name (some f) = (
    0,
    record seed {
      slots = set seed.slots app (record { name = name; file = some f });
      n_open_files =
          if ltb seed.n_open_files max_num_opened_file
          then suc seed.n_open_files
          else seed.n_open_files;
      last_open_file = pos app;
      cur_open_file = pos app;
    },
  )

  -- A file that is not in the table: the oldest cell is closed for it.
  unfoldable pub open_next : Seed File → Str → Str → State → ℕ × (Seed File × State)
  open_next seed dirname name s =
      let app = next_slot seed in
      let c = seed_fclose seed app s in
      let stored = strncpy max_size_filename name in
      let f = fs.fopen c.1 (take 1023 (dirname ++ slash ++ stored)) in
      let r = opened c.0 app stored f.0 in (r.0, (r.1, f.1))

  -- `nmxp_data_seed_fopen`, with the names that nmxp_data_get_filename_ms gives: the number of errors.
  unfoldable pub seed_fopen : Seed File → Str → Str → State → ℕ × (Seed File × State)
  seed_fopen seed dirname name s =
      if is_nil name then (0, (seed, s)) else elim (find_name name 0 seed.n_open_files seed.slots) [
        | some i ↦ (0, (record seed { cur_open_file = pos i }, s))
        | none ↦
            let there = ensure_dir s dirname in
            if there.0
            then open_next seed dirname name there.1
            else (1, (record seed { err_general = suc seed.err_general }, there.1))
      ]
