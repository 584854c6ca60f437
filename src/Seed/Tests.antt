-- ===== src/Seed/Tests.antt =====
-- Runs of nmxp_data_seed_fopen on a file system at concrete values.
use nmxptool.Prelude.{
  ℕ, zero, suc, ◌<◌, ◌≡◌, refl, sym, ◌∙◌, ap, true, some, List, [], ◌∷◌, ◌++◌, length, get_elem?,
  arith,
}
use nmxptool.Text.{Str}
use nmxptool.Seed.{
  Files, Seed, sds, seed_init, seed_fopen, find_name, ensure_dir, dir_exists, go_back, open_next,
  opened,
}
use nmxptool.Seed.Find.{some_inj}
use nmxptool.Seed.Table.{IsTable, seed_init-IsTable}
use nmxptool.Seed.Disk.{IsDisk}
use nmxptool.Seed.Tied.{IsTied, IsServed, seed_fopen-IsServed, seed_init-IsTied}

-- A file system in which all directories are there and any file opens; the state holds the paths of the
-- files, which stay open, in the order of their numbers.
abbrev any_files : Files
any_files = record {
  State = List Str;
  File = ℕ;
  getcwd = λ s. some (b'/' ∷ []);
  chdir = λ s dir. (true, s);
  mkdir = λ s dir. (true, s);
  fopen = λ s path. (some (length s), s ++ path ∷ []);
  fclose = λ s f. s;
}

last_path : (s : List Str) (path : Str) → get_elem? (s ++ path ∷ []) (length s) ≡ some path
last_path [] path = refl
last_path (x ∷ s) path = last_path s path

inside : (s : List Str) (g : ℕ) (path : Str) → get_elem? s g ≡ some path → g < length s
inside [] g path e = cc
inside (x ∷ s) zero path e = omega arith
inside (x ∷ s) (suc g) path e = omega (arith, inside s g path e)

kept :
    (s : List Str) (path : Str) (g : ℕ) (other : Str)
    → get_elem? s g ≡ some other
    → get_elem? (s ++ path ∷ []) g ≡ some other
kept [] path g other e = cc
kept (x ∷ s) path zero other e = e
kept (x ∷ s) path (suc g) other e = kept s path g other e

all_open : IsDisk any_files
all_open = record {
  IsAt = λ s f path. get_elem? s f ≡ some path;
  opens = λ s path f e.
      ap (get_elem? (s ++ path ∷ [])) (sym (some_inj (length s) f e)) ∙ last_path s path;
  opens_new = λ s path f g other e h same.
      absurd (omega (arith, inside s g other h, some_inj (length s) f e, same));
  fopen_keeps = kept;
  fclose_keeps = λ s f g other ne h. h;
  chdir_keeps = λ s dir g other h. h;
  mkdir_keeps = λ s dir g other h. h;
}

abbrev empty_table : Seed ℕ
empty_table = seed_init any_files (b'/' ∷ []) (b'I' ∷ b'V' ∷ []) sds

abbrev directory : Str
directory = b'/' ∷ b'd' ∷ []

abbrev file_name : Str
file_name = b'A' ∷ b'.' ∷ b'B' ∷ []

abbrev at_root : Str → Str
at_root name = directory

no_errors : (seed_fopen any_files empty_table directory file_name []).0 ≡ 0
unfolding seed_fopen seed_init find_name ensure_dir dir_exists go_back open_next opened
no_errors = refl

seed_fopen-IsServed_example :
    let r = (seed_fopen any_files empty_table directory file_name []).1 in
    IsTable r.0
    × IsTied any_files all_open at_root r.0.slots r.1
    × IsServed any_files all_open at_root r.0 file_name r.1
seed_fopen-IsServed_example =
    seed_fopen-IsServed any_files all_open at_root empty_table b'A' (b'.' ∷ b'B' ∷ []) []
      (seed_init-IsTable any_files (b'/' ∷ []) (b'I' ∷ b'V' ∷ []) sds)
      (seed_init-IsTied any_files all_open at_root (b'/' ∷ []) (b'I' ∷ b'V' ∷ []) sds [])
      (omega arith) no_errors
