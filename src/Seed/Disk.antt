-- ===== src/Seed/Disk.antt =====
-- What nmxp_data_seed_fopen relies on in fopen() and fclose(): the contract of the file system, and that the
-- search for a directory opens and closes no file.
use nmxptool.Prelude.{
  ◌≡◌, ◌≢◌, not, ◌&&◌, Option, none, some, [], ◌∷◌, ◌++◌, inl, inr, ◌==◌, Bool-cases,
}
use nmxptool.Text.{Str, is_nil}
use nmxptool.Seed.{Files, go_back, dir_exists, make_dirs, mkdirp, ensure_dir}

-- `IsAt s f path`: the file f is open, and it is the one that was opened with this path. fopen() gives a file
-- that was not open; until fclose() gets it, it stays open.
pub record IsDisk (fs : Files) : Type 1 where
  pub IsAt : fs.State → fs.File → Str → Type 0
  pub opens :
      (s : fs.State) (path : Str) (f : fs.File)
      → (fs.fopen s path).0 ≡ some f
      → IsAt (fs.fopen s path).1 f path
  pub opens_new :
      (s : fs.State) (path : Str) (f g : fs.File) (other : Str)
      → (fs.fopen s path).0 ≡ some f
      → IsAt s g other
      → f ≢ g
  pub fopen_keeps :
      (s : fs.State) (path : Str) (g : fs.File) (other : Str)
      → IsAt s g other
      → IsAt (fs.fopen s path).1 g other
  pub fclose_keeps :
      (s : fs.State) (f g : fs.File) (other : Str)
      → f ≢ g
      → IsAt s g other
      → IsAt (fs.fclose s f) g other
  pub chdir_keeps :
      (s : fs.State) (dir : Str) (g : fs.File) (other : Str)
      → IsAt s g other
      → IsAt (fs.chdir s dir).1 g other
  pub mkdir_keeps :
      (s : fs.State) (dir : Str) (g : fs.File) (other : Str)
      → IsAt s g other
      → IsAt (fs.mkdir s dir).1 g other

module _ (fs : Files) (disk : IsDisk fs) (g : fs.File) (path : Str) where
  open fs use {State}

  abbrev Stays : State → Type 0
  Stays s = disk.IsAt s g path

  go_back-Stays : (o : Option Str) (s : State) → Stays s → Stays (go_back fs o s)
  unfolding go_back
  go_back-Stays none s h = h
  go_back-Stays (some dir) s h = disk.chdir_keeps s dir g path h

  dir_exists-Stays : (s : State) (dir : Str) → Stays s → Stays (dir_exists fs s dir).1
  unfolding dir_exists
  dir_exists-Stays s dir h =
      go_back-Stays (fs.getcwd s) (fs.chdir s dir).1 (disk.chdir_keeps s dir g path h)

  make_dirs-Stays :
      (before behind : Str) (s : State) → Stays s → Stays (make_dirs fs before behind s).1
  unfolding make_dirs
  make_dirs-Stays before [] s h = disk.mkdir_keeps s before g path h
  make_dirs-Stays before (c ∷ behind) s h =
      let c1 = fs.chdir s before in
      let m = fs.mkdir c1.1 before in
      let there = disk.chdir_keeps s before g path h in
      let made = disk.mkdir_keeps c1.1 before g path there in
      elim (Bool-cases (c == b'/' && not (is_nil before))) [
        | inl e ↦
            rw (e, make_dirs)
              (elim (Bool-cases c1.0) [
                | inl k ↦ rw (k, make_dirs) (make_dirs-Stays (before ++ c ∷ []) behind c1.1 there)
                | inr k ↦
                    rw (k, make_dirs)
                      (elim (Bool-cases m.0) [
                        | inl j ↦
                            rw (j, make_dirs) (make_dirs-Stays (before ++ c ∷ []) behind m.1 made)
                        | inr j ↦ rw (j, make_dirs) made
                      ])
              ])
        | inr e ↦ rw (e, make_dirs) (make_dirs-Stays (before ++ c ∷ []) behind s h)
      ]

  mkdirp-Stays : (s : State) (dir : Str) → Stays s → Stays (mkdirp fs s dir).1
  unfolding mkdirp
  mkdirp-Stays s dir h =
      go_back-Stays (fs.getcwd s) (make_dirs fs [] dir s).1 (make_dirs-Stays [] dir s h)

  pub ensure_dir-Stays :
      (s : State) (dir : Str) → disk.IsAt s g path → disk.IsAt (ensure_dir fs s dir).1 g path
  unfolding ensure_dir
  ensure_dir-Stays s dir h =
      let d = dir_exists fs s dir in
      let there = dir_exists-Stays s dir h in
      let m = mkdirp fs d.1 dir in
      let made = mkdirp-Stays d.1 dir there in
      elim (Bool-cases d.0) [
        | inl e ↦ rw (e, ensure_dir) there
        | inr e ↦
            rw (e, ensure_dir)
              (elim (Bool-cases m.0) [
                | inl k ↦ rw (k, ensure_dir) (dir_exists-Stays m.1 dir made)
                | inr k ↦ rw (k, ensure_dir) made
              ])
      ]
