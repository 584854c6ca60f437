-- ===== src/Seed/Table.antt =====
-- The table of open miniSEED files: what nmxp_data_seed_fopen keeps true of it.
use nmxptool.Prelude.{
  ℕ, suc, ◌+◌, ◌%◌, ◌<◌, ◌≤◌, ◌≡◌, ◌≢◌, refl, sym, ◌∙◌, ap, subst, ◌⊎◌, true, false, Option, none,
  some, List, [], ◌∷◌, ◌++◌, inl, inr, length, take, set, get_elem?, length-set, get_elem?-set_self,
  get_elem?-set_ne, ltb, ◌==◌, if◌then◌else◌, Bool-cases, Option-cases, ==_iff, arith,
}
use nmxptool.Prelude.Int.{pos, pos_part, ◌+ℤ◌}
use nmxptool.Text.{Str, strncpy}
use nmxptool.Text.Laws.{take_all}
use nmxptool.Seed.Find.{some_inj, find_name-found, set_past}
use nmxptool.Seed.{
  Files, Slot, Seed, slash, max_size_filename, find_name, close_slot, seed_fclose, next_slot,
  opened, open_next, ensure_dir, seed_fopen, WriteType, seed_init,
}

-- A cell with a file.
abbrev pub IsOpenAt : {File : Type 0} → List (Slot File) → ℕ → Type 0
IsOpenAt {File = File} slots i =
    (x : Slot File) × (f : File) × (get_elem? slots i ≡ some x) × (x.file ≡ some f)

-- The cells below `n_open_files` have files, and the next cell is the one behind them, or, when all are
-- in use, any.
pub record IsTable {File : Type 0} (seed : Seed File) : Type 0 where
  pub size : length seed.slots ≡ 200
  pub at_most : seed.n_open_files ≤ 200
  pub next : seed.n_open_files < 200 → next_slot seed ≡ seed.n_open_files
  pub each : (i : ℕ) → i < seed.n_open_files → IsOpenAt seed.slots i

-- The current cell has a name and a file.
abbrev pub IsCurrent : {File : Type 0} → Seed File → Str → Type 0
IsCurrent {File = File} seed name =
    (i : ℕ) × (x : Slot File) × (f : File) × (seed.cur_open_file ≡ pos i)
    × (get_elem? seed.slots i ≡ some x)
    × (x.name ≡ name)
    × (x.file ≡ some f)

-- The number of open files after one more, and the cells below it.
abbrev more : ℕ → ℕ
more n = if ltb n 200 then suc n else n

below_or_all : (n : ℕ) → n ≤ 200 → (n < 200) ⊎ (n ≡ 200)
below_or_all n h = elim (Bool-cases (ltb n 200)) [
  | inl e ↦ inl (below n e)
  | inr e ↦ inr (all n h e)
]
  where
    below : (n : ℕ) → ltb n 200 ≡ true → n < 200
    below n e = ground arith

    all : (n : ℕ) → n ≤ 200 → ltb n 200 ≡ false → n ≡ 200
    all n h e = ground arith

more_upto : (n : ℕ) → n ≤ 200 → more n ≤ 200
more_upto n h = ground arith

more-next : (n app : ℕ) → n ≤ 200 → (n < 200 → app ≡ n) → more n < 200 → (app + 1) % 200 ≡ more n
more-next n app h k l = elim (below_or_all n h) [
  | inl b ↦ one n app b (k b) l
  | inr a ↦ absurd (none_left n a l)
]
  where
    one : (n app : ℕ) → n < 200 → app ≡ n → more n < 200 → (app + 1) % 200 ≡ more n
    one n app b e l = ground arith

    none_left : (n : ℕ) → n ≡ 200 → more n < 200 → ⊥
    none_left n a l = ground arith

older : (n app i : ℕ) → n ≤ 200 → (n < 200 → app ≡ n) → i < more n → app ≢ i → i < n
older n app i h k l ne = elim (below_or_all n h) [
  | inl b ↦ kept n i l (λ e. ne (k b ∙ sym e))
  | inr a ↦ upto n i a l
]
  where
    kept : (n i : ℕ) → i < more n → i ≢ n → i < n
    kept n i l ne = ground arith

    upto : (n i : ℕ) → n ≡ 200 → i < more n → i < n
    upto n i a l = ground arith

pos_part-next : (a : ℕ) → pos_part (pos a +ℤ pos 1) ≡ a + 1
unfolding ◌+ℤ◌
pos_part-next a = ground arith

module _ (fs : Files) where
  open fs use {State, File}

  -- Only one cell changes.
  seed_fclose-set :
      (seed : Seed File) (i : ℕ) (s : State)
      → (y : Slot File) × ((seed_fclose fs seed i s).0 ≡ record seed { slots = set seed.slots i y })
  unfolding seed_fclose
  seed_fclose-set seed i s = elim (Option-cases (get_elem? seed.slots i)) [
    | inl e ↦
        rw (e, seed_fclose)
          (
            record { name = []; file = none },
            ap (λ t. record seed { slots = t })
                (sym (set_past seed.slots i (record { name = []; file = none }) e)),
          )
    | inr t ↦ rw (t.1, seed_fclose) ((close_slot fs s t.0).0, refl)
  ]

  -- The table with a new file in its next cell.
  opened-IsTable :
      (seed : Seed File) (y : Slot File) (name : Str) (f : File)
      → IsTable seed
      → IsTable
          (opened fs
            (record seed { slots = set seed.slots (next_slot seed) y })
            (next_slot seed)
            name
            (some f)).1
  unfolding opened
  opened-IsTable seed y name f h =
      let app = next_slot seed in
      let slots = set seed.slots app y in
      let z : Slot File = record { name = name; file = some f } in
      let small : app < 200 = omega arith in
      record {
        size = length-set slots app z ∙ length-set seed.slots app y ∙ h.size;
        at_most = more_upto seed.n_open_files h.at_most;
        next = λ l.
            ap (λ m. m % 200) (pos_part-next app)
            ∙ more-next seed.n_open_files app h.at_most h.next l;
        each = λ i l. elim (Bool-cases (app == i)) [
          | inl e ↦ (
            z,
            f,
            ap (get_elem? (set slots app z)) (sym ((==_iff app i).0 e))
                ∙ get_elem?-set_self slots app z
                    (omega (arith, length-set seed.slots app y, h.size, small)),
            refl,
          )
          | inr e ↦
              let ne = differs app i e in
              let o = h.each i (older seed.n_open_files app i h.at_most h.next l ne) in
              (o.0, o.1, get_elem?-set_ne slots z ne ∙ get_elem?-set_ne seed.slots y ne ∙ o.2, o.3)
        ];
      }
    where
      differs : (a b : ℕ) → (a == b) ≡ false → a ≢ b
      differs a b e = ground arith

  -- The table and the current file after a call, `r` being what fopen() gave.
  opened-Current :
      (seed c : Seed File) (y : Slot File) (name : Str) (r : Option File)
      → IsTable seed
      → length name ≤ 1023
      → c ≡ record seed { slots = set seed.slots (next_slot seed) y }
      → (opened fs c (next_slot seed) (strncpy max_size_filename name) r).0 ≡ 0
      → IsTable (opened fs c (next_slot seed) (strncpy max_size_filename name) r).1
        × IsCurrent (opened fs c (next_slot seed) (strncpy max_size_filename name) r).1 name
  unfolding opened
  opened-Current seed c y name none h l e k = absurd (omega (arith, k))
  opened-Current seed c y name (some f) h l e k =
      let app = next_slot seed in
      let stored = strncpy max_size_filename name in
      let slots = set seed.slots app y in
      let small : app < 200 = omega arith in
      subst
        (λ d.
          IsTable (opened fs d app stored (some f)).1
          × IsCurrent (opened fs d app stored (some f)).1 name)
        (sym e)
        (
          opened-IsTable seed y stored f h,
          (
            app,
            record { name = stored; file = some f },
            f,
            refl,
            get_elem?-set_self slots app (record { name = stored; file = some f })
                (omega (arith, length-set seed.slots app y, h.size, small)),
            take_all max_size_filename name (omega (arith, l)),
            refl,
          ),
        )

  open_next-Current :
      (seed : Seed File) (dirname name : Str) (s : State)
      → IsTable seed
      → length name ≤ 1023
      → (open_next fs seed dirname name s).0 ≡ 0
      → IsTable (open_next fs seed dirname name s).1.0
        × IsCurrent (open_next fs seed dirname name s).1.0 name
  unfolding open_next
  open_next-Current seed dirname name s h l k =
      let t = seed_fclose-set seed (next_slot seed) s in
      let c = seed_fclose fs seed (next_slot seed) s in
      let stored = strncpy max_size_filename name in
      opened-Current seed c.0 t.0 name (fs.fopen c.1 (take 1023 (dirname ++ slash ++ stored))).0 h l
        t.1 k

  -- In a table whose cells below n_open_files have files, a call that returns 0 for a name of at most 1023
  -- bytes, not empty, leaves a cell with that name and a file as the current one, whether it was found in the table
  -- or opened in its next cell, and the table as it should be: of 200 cells, with a file in each below
  -- n_open_files.
  pub seed_fopen-Current :
      (seed : Seed File) (c : ℕ) (dirname name : Str) (s : State)
      → IsTable seed
      → length (c ∷ name) ≤ 1023
      → (seed_fopen fs seed dirname (c ∷ name) s).0 ≡ 0
      → IsTable (seed_fopen fs seed dirname (c ∷ name) s).1.0
        × IsCurrent (seed_fopen fs seed dirname (c ∷ name) s).1.0 (c ∷ name)
  unfolding seed_fopen
  seed_fopen-Current seed c dirname name s h l =
      elim (Option-cases (find_name (c ∷ name) 0 seed.n_open_files seed.slots)) [
        | inl e ↦
            rw (e, seed_fopen)
              (elim (Bool-cases (ensure_dir fs s dirname).0) [
                | inl there ↦
                    rw (there, seed_fopen)
                      (open_next-Current seed dirname (c ∷ name) (ensure_dir fs s dirname).1 h l)
                | inr missing ↦ rw (missing, seed_fopen) (λ k. absurd (omega (arith, k)))
              ])
        | inr t ↦
            let d = find_name-found (c ∷ name) 0 seed.n_open_files seed.slots t.0 t.1 in
            let o = h.each d.0 d.3 in
            rw (t.1, seed_fopen)
              (λ k. (
                record { size = h.size; at_most = h.at_most; next = h.next; each = h.each },
                (
                  d.0,
                  o.0,
                  o.1,
                  ap pos (omega (arith, d.2)),
                  o.2,
                  ap (λ x. x.name) (some_inj o.0 d.1 (sym o.2 ∙ d.4)) ∙ sym d.5,
                  o.3,
                ),
              ))
      ]

  -- The table as nmxp_data_seed_init leaves it.
  pub seed_init-IsTable :
      (dirname network : Str) (type : WriteType) → IsTable (seed_init fs dirname network type)
  unfolding seed_init ◌+ℤ◌
  seed_init-IsTable dirname network type = record {
    size = refl;
    at_most = omega arith;
    next = λ l. refl;
    each = λ i l. absurd (omega arith);
  }
