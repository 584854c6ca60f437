-- ===== src/Seed/Tied.antt =====
-- nmxp_data_seed_fopen: the open files of the table are those with the paths of its names.
use nmxptool.Prelude.{
  ℕ, zero, suc, replicate, ◌<◌, ◌≤◌, ◌≡◌, ◌≢◌, refl, sym, ◌∙◌, ap, subst, ◌⊎◌, inl, inr, false,
  Option, none, some, List, [], ◌∷◌, ◌++◌, length, take, set, get_elem?, length-set,
  get_elem?-set_self, get_elem?-set_ne, Bool-cases, Option-cases, ◌==◌, ==_iff, arith,
}
use nmxptool.Prelude.Int.{pos}
use nmxptool.Text.{Str, strncpy}
use nmxptool.Text.Laws.{take_all}
use nmxptool.Seed.{
  Files, Slot, Seed, slash, max_size_filename, find_name, close_slot, seed_fclose, next_slot,
  opened, open_next, ensure_dir, seed_fopen, WriteType, seed_init,
}
use nmxptool.Seed.Find.{some_inj, set_past}
use nmxptool.Seed.Table.{IsTable, seed_fopen-Current}
use nmxptool.Seed.Disk.{IsDisk, ensure_dir-Stays}

differs : (a b : ℕ) → (a == b) ≡ false → a ≢ b
differs a b e = ground arith

-- A cell after two writes to the cell `app`.
cell_of :
    {A : Type 0} (xs : List A) (app i : ℕ) (y z x : A)
    → app < length xs
    → get_elem? (set (set xs app y) app z) i ≡ some x
    → ((i ≡ app) × (x ≡ z)) ⊎ ((app ≢ i) × (get_elem? xs i ≡ some x))
cell_of xs app i y z x h e = elim (Bool-cases (app == i)) [
  | inl q ↦
      let same = (==_iff app i).0 q in
      inl (
        sym same,
        some_inj x z (
            sym e
            ∙ ap (get_elem? (set (set xs app y) app z)) (sym same)
            ∙ get_elem?-set_self (set xs app y) app z (omega (arith, length-set xs app y, h))),
      )
  | inr q ↦
      let ne = differs app i q in
      inr (ne, sym (get_elem?-set_ne (set xs app y) z ne ∙ get_elem?-set_ne xs y ne) ∙ e)
]

replicated : {A : Type 0} (n i : ℕ) (a x : A) → get_elem? (replicate n a) i ≡ some x → x ≡ a
replicated zero i a x e = cc
replicated (suc n) zero a x e = sym (some_inj a x e)
replicated (suc n) (suc i) a x e = replicated n i a x e

-- `dir_of` is the directory that belongs to the name of a file.
module _ (fs : Files) (disk : IsDisk fs) (dir_of : Str → Str) where
  open fs use {State, File}

  abbrev pub path_of : Str → Str
  path_of name = take 1023 (dir_of name ++ slash ++ name)

  -- Each file of the table is open, with the path of the name of its cell, and stands in one cell.
  pub record IsTied (slots : List (Slot File)) (s : State) : Type 0 where
    pub at :
        (i : ℕ) (x : Slot File) (f : File)
        → get_elem? slots i ≡ some x
        → x.file ≡ some f
        → disk.IsAt s f (path_of x.name)
    pub one_cell :
        (i j : ℕ) (x y : Slot File) (f : File)
        → get_elem? slots i ≡ some x
        → get_elem? slots j ≡ some y
        → x.file ≡ some f
        → y.file ≡ some f
        → i ≡ j

  -- The current file is open, with the path of the name.
  abbrev pub IsServed : Seed File → Str → State → Type 0
  IsServed seed name s =
      (i : ℕ) × (x : Slot File) × (f : File) × (seed.cur_open_file ≡ pos i)
      × (get_elem? seed.slots i ≡ some x)
      × (x.name ≡ name)
      × (x.file ≡ some f)
      × disk.IsAt s f (path_of name)

  -- fclose() of a cell leaves the files of the others open.
  abbrev Others : List (Slot File) → ℕ → State → Type 0
  Others slots app s =
      (i : ℕ) (x : Slot File) (f : File)
      → app ≢ i
      → get_elem? slots i ≡ some x
      → x.file ≡ some f
      → disk.IsAt s f (path_of x.name)

  close_slot-Others :
      (slots : List (Slot File)) (app : ℕ) (y : Slot File) (s : State)
      → IsTied slots s
      → get_elem? slots app ≡ some y
      → Others slots app (close_slot fs s y).1
  unfolding close_slot
  close_slot-Others slots app y s t e = elim (Option-cases y.file) [
    | inl n ↦ rw (n, close_slot) (λ i x f ne p q. t.at i x f p q)
    | inr (g, m) ↦
        rw (m, close_slot)
          (λ i x f ne p q.
            disk.fclose_keeps s g f (path_of x.name)
              (λ same. ne (t.one_cell app i y x g e p m (q ∙ ap some (sym same)))) (t.at i x f p q))
  ]

  seed_fclose-Others :
      (seed : Seed File) (app : ℕ) (s : State)
      → IsTied seed.slots s
      → (y : Slot File) × ((seed_fclose fs seed app s).0.slots ≡ set seed.slots app y)
        × Others seed.slots app (seed_fclose fs seed app s).1
  unfolding seed_fclose
  seed_fclose-Others seed app s t = elim (Option-cases (get_elem? seed.slots app)) [
    | inl e ↦
        rw (e, seed_fclose)
          (
            record { name = []; file = none },
            sym (set_past seed.slots app (record { name = []; file = none }) e),
            λ i x f ne p q. t.at i x f p q,
          )
    | inr (y, e) ↦
        rw (e, seed_fclose) ((close_slot fs s y).0, refl, close_slot-Others seed.slots app y s t e)
  ]

  -- A new file in the cell `app`.
  placed-IsTied :
      (slots : List (Slot File)) (app : ℕ) (y : Slot File) (name : Str) (f : File) (s0 s : State)
      → app < length slots
      → IsTied slots s0
      → (fs.fopen s (path_of name)).0 ≡ some f
      → Others slots app s
      → IsTied
          (set (set slots app y) app (record { name = name; file = some f }))
          (fs.fopen s (path_of name)).1
  placed-IsTied slots app y name f s0 s h t o others =
      let z : Slot File = record { name = name; file = some f } in
      let new = disk.opens s (path_of name) f o in
      let path = path_of name in
      record {
        at = λ i x g p q. elim (cell_of slots app i y z x h p) [
          | inl same ↦
              subst (λ u. disk.IsAt (fs.fopen s path).1 u (path_of x.name))
                (some_inj f g (sym (ap (λ u. u.file) same.1) ∙ q))
                (subst (λ u. disk.IsAt (fs.fopen s path).1 f (path_of u.name)) (sym same.1) new)
          | inr old ↦ disk.fopen_keeps s path g (path_of x.name) (others i x g old.0 old.1 q)
        ];
        one_cell = λ i j x w g p r q k. elim (cell_of slots app i y z x h p) [
          | inl a ↦ elim (cell_of slots app j y z w h r) [
            | inl b ↦ a.0 ∙ sym b.0
            | inr b ↦ absurd (
                disk.opens_new s path f g (path_of w.name) o (others j w g b.0 b.1 k)
                  (some_inj f g (sym (ap (λ u. u.file) a.1) ∙ q)))
          ]
          | inr a ↦ elim (cell_of slots app j y z w h r) [
            | inl b ↦ absurd (
                disk.opens_new s path f g (path_of x.name) o (others i x g a.0 a.1 q)
                  (some_inj f g (sym (ap (λ u. u.file) b.1) ∙ k)))
            | inr b ↦ t.one_cell i j x w g a.1 b.1 q k
          ]
        ];
      }

  -- `r` is what fopen() gave.
  opened-IsTied :
      (slots : List (Slot File)) (c : Seed File) (app : ℕ) (y : Slot File) (name : Str)
      (r : Option File) (s0 s : State)
      → app < length slots
      → IsTied slots s0
      → c.slots ≡ set slots app y
      → (fs.fopen s (path_of name)).0 ≡ r
      → Others slots app s
      → (opened fs c app name r).0 ≡ 0
      → IsTied (opened fs c app name r).1.slots (fs.fopen s (path_of name)).1
  unfolding opened
  opened-IsTied slots c app y name none s0 s h t e o others k = absurd (omega (arith, k))
  opened-IsTied slots c app y name (some f) s0 s h t e o others k =
      subst
        (λ cells.
          IsTied (set cells app (record { name = name; file = some f }))
            (fs.fopen s (path_of name)).1)
        (sym e) (placed-IsTied slots app y name f s0 s h t o others)

  open_next-IsTied :
      (seed : Seed File) (name : Str) (s : State)
      → IsTable seed
      → IsTied seed.slots s
      → length name ≤ 1023
      → (open_next fs seed (dir_of name) name s).0 ≡ 0
      → IsTied
          (open_next fs seed (dir_of name) name s).1.0.slots
          (open_next fs seed (dir_of name) name s).1.1
  unfolding open_next
  open_next-IsTied seed name s h t l =
      let app = next_slot seed in
      let small : app < 200 = omega arith in
      let c = seed_fclose fs seed app s in
      let o = seed_fclose-Others seed app s t in
      let stored : strncpy max_size_filename name ≡ name =
        take_all max_size_filename name (omega (arith, l)) in
      subst
        (λ n.
          let f = fs.fopen c.1 (take 1023 (dir_of name ++ slash ++ n)) in
          (opened fs c.0 app n f.0).0 ≡ 0 → IsTied (opened fs c.0 app n f.0).1.slots f.1)
        (sym stored)
        (opened-IsTied seed.slots c.0 app o.0 name (fs.fopen c.1 (path_of name)).0 s c.1
          (omega (arith, small, h.size)) t o.1 refl o.2)

  -- The files of the table stay tied to their names.
  seed_fopen-IsTied :
      (seed : Seed File) (c : ℕ) (name : Str) (s : State)
      → IsTable seed
      → IsTied seed.slots s
      → length (c ∷ name) ≤ 1023
      → (seed_fopen fs seed (dir_of (c ∷ name)) (c ∷ name) s).0 ≡ 0
      → IsTied
          (seed_fopen fs seed (dir_of (c ∷ name)) (c ∷ name) s).1.0.slots
          (seed_fopen fs seed (dir_of (c ∷ name)) (c ∷ name) s).1.1
  unfolding seed_fopen
  seed_fopen-IsTied seed c name s h t l =
      let dir = dir_of (c ∷ name) in
      elim (Option-cases (find_name (c ∷ name) 0 seed.n_open_files seed.slots)) [
        | inl e ↦
            rw (e, seed_fopen)
              (elim (Bool-cases (ensure_dir fs s dir).0) [
                | inl there ↦
                    rw (there, seed_fopen)
                      (open_next-IsTied seed (c ∷ name) (ensure_dir fs s dir).1 h
                        (record {
                          at = λ i x f p q.
                              ensure_dir-Stays fs disk f (path_of x.name) s dir (t.at i x f p q);
                          one_cell = t.one_cell;
                        })
                        l)
                | inr missing ↦ rw (missing, seed_fopen) (λ k. absurd (omega (arith, k)))
              ])
        | inr found ↦ rw (found.1, seed_fopen) (λ k. t)
      ]

  -- In a table that is as it should be, a call that returns 0 for a name of at most 1023 bytes, not empty, and
  -- its directory makes the file with the path of directory and name the current one: that file is open,
  -- whether it was found in the table or opened in its next cell. The table is as it should be again: each
  -- of its files is open, with the path of the name of its cell, in one cell of 200, and there is one in each
  -- below n_open_files. No name may have two directories, and the system is to keep its contract.
  pub seed_fopen-IsServed :
      (seed : Seed File) (c : ℕ) (name : Str) (s : State)
      → IsTable seed
      → IsTied seed.slots s
      → length (c ∷ name) ≤ 1023
      → (seed_fopen fs seed (dir_of (c ∷ name)) (c ∷ name) s).0 ≡ 0
      → let r = (seed_fopen fs seed (dir_of (c ∷ name)) (c ∷ name) s).1 in
        IsTable r.0 × IsTied r.0.slots r.1 × IsServed r.0 (c ∷ name) r.1
  seed_fopen-IsServed seed c name s h t l k =
      let (table, (i, x, f, cur, cell, named, file)) =
        seed_fopen-Current fs seed c (dir_of (c ∷ name)) name s h l k in
      let tied = seed_fopen-IsTied seed c name s h t l k in
      let r = (seed_fopen fs seed (dir_of (c ∷ name)) (c ∷ name) s).1 in
      (
        table,
        tied,
        (
          i,
          x,
          f,
          cur,
          cell,
          named,
          file,
          subst (λ n. disk.IsAt r.1 f (path_of n)) named (tied.at i x f cell file),
        ),
      )

  -- The table as nmxp_data_seed_init leaves it, without a file.
  pub seed_init-IsTied :
      (dirname network : Str) (type : WriteType) (s : State)
      → IsTied (seed_init fs dirname network type).slots s
  unfolding seed_init
  seed_init-IsTied dirname network type s =
      let nothing =
        λ (i : ℕ) (x : Slot File) (f : File)
            (p : get_elem? (replicate 200 (record { name = []; file = none })) i ≡ some x)
            (q : x.file ≡ some f).
          no_file f (
            sym (ap (λ u. u.file) (replicated 200 i (record { name = []; file = none }) x p))
            ∙ q) in
      record {
        at = λ i x f p q. absurd (nothing i x f p q);
        one_cell = λ i j x y f p r q k. absurd (nothing i x f p q);
      }
    where
      no_file : (f : File) → none ≡ some f → ⊥
      no_file f e = cc
