-- ===== src/Packet/Trim/Kept.antt =====
-- What nmxp_data_trim keeps of the samples.
use nmxptool.Prelude.{
  ℕ, zero, suc, ◌+◌, ◌-◌, ◌≤◌, ◌<◌, ◌≡◌, refl, sym, ◌∙◌, ap, ◌⊎◌, inl, inr, Bool, true, false, ◌||◌,
  Option, none, some, List, [], ◌∷◌, length, set, get_elem?, length-set, get_elem?-set_self,
  get_elem?-set_ne, arith, if◌then◌else◌,
}
use nmxptool.Prelude.Int.{ℤ, pos, ◌+ℤ◌, ◌-ℤ◌, ltb_ℤ}
use nmxptool.Double.{Double}
use nmxptool.Packet.{DataProcess}
use nmxptool.Packet.Trim.{sample_at, shift_left, keep_samples, trim_by}

get_some : (d : List ℤ) (i : ℕ) → i < length d → (x : ℤ) × (get_elem? d i ≡ some x)
get_some [] i h = absurd (omega arith)
get_some (x ∷ d) zero h = (x, refl)
get_some (x ∷ d) (suc i) h = get_some d i (omega arith)

-- The loop moves n values down by k and leaves those before i.
pub shift_left-get :
    (n i k : ℕ) (d : List ℤ)
    → k + i + n ≤ length d
    → (d' : List ℤ) × (shift_left n i k d ≡ some d')
      × (length d' ≡ length d)
      × ((j : ℕ) → i ≤ j → j < i + n → get_elem? d' j ≡ get_elem? d (k + j))
      × ((j : ℕ) → j < i → get_elem? d' j ≡ get_elem? d j)
unfolding shift_left
shift_left-get zero i k d h = (d, refl, refl, (λ j a b. absurd (omega arith)), (λ j a. refl))
shift_left-get (suc n) i k d h =
    let g = get_some d (k + i) (omega arith) in
    let t = shift_left-get n (suc i) k (set d i g.0) (omega (arith, length-set d i g.0)) in
    (
      t.0,
      ap (λ o. elim o [ none ↦ none | some x ↦ shift_left n (suc i) k (set d i x) ]) g.1 ∙ t.1,
      t.2 ∙ length-set d i g.0,
      (λ j a b. elim (first_or_later j a) [
        | inl e ↦
            t.4 j (omega arith)
            ∙ ap (get_elem? (set d i g.0)) e
            ∙ get_elem?-set_self d i g.0 (omega arith)
            ∙ sym g.1
            ∙ ap (λ z. get_elem? d (k + z)) (sym e)
        | inr l ↦ t.3 j l (omega arith) ∙ get_elem?-set_ne d g.0 (λ e. apart j e l)
      ]),
      (λ j a. t.4 j (omega arith) ∙ get_elem?-set_ne d g.0 (λ e. before j e a)),
    )
  where
    first_or_later : (j : ℕ) → i ≤ j → (j ≡ i) ⊎ (suc i ≤ j)
    first_or_later j a = omega arith

    apart : (j : ℕ) → i ≡ k + j → suc i ≤ j → ⊥
    apart j e l = omega arith

    before : (j : ℕ) → i ≡ j → j < i → ⊥
    before j e l = omega arith

chosen :
    (b : Bool) (o : Option ℤ) (a : ℤ)
    → (b ≡ true → (x : ℤ) × (o ≡ some x))
    → (x : ℤ) × ((if b then o else some a) ≡ some x)
chosen true o a h = h refl
chosen false o a h = (a, refl)

sub_pos : (a b : ℕ) → b ≤ a → pos a -ℤ pos b ≡ pos (a - b)
unfolding ◌-ℤ◌
sub_pos a b h = ground arith

add_pos : (a b : ℕ) → pos a +ℤ pos b ≡ pos (a + b)
unfolding ◌+ℤ◌
add_pos a b = ground arith

positive : (a : ℕ) → ltb_ℤ (pos 0) (pos a) ≡ true → 0 < a
positive a h = ground arith

module _ (dbl : Double) where
  open dbl use {Num}

  -- The structure afterwards: its number of samples, and each of them one of those before.
  abbrev pub IsKept : DataProcess Num → List ℤ → ℕ → ℕ → Type 0
  IsKept pd d f n =
      (pd.n_samp ≡ pos n)
      × ((d' : List ℤ) × (pd.data_ptr ≡ some d')
          × ((j : ℕ) → j < n → get_elem? d' j ≡ get_elem? d (f + j)))

  keep_samples-IsKept :
      (pd : DataProcess Num) (d : List ℤ) (n f l : ℕ)
      → pd.data_ptr ≡ some d
      → pd.n_samp ≡ pos n
      → n ≤ length d
      → f + l < n
      → (pd' : DataProcess Num) × (keep_samples dbl pd (pos f) (pos l) ≡ some pd')
        × IsKept pd' d f (n - (f + l))
  unfolding keep_samples
  keep_samples-IsKept pd d n f l e k h r =
      let x0 =
        chosen (ltb_ℤ (pos 0) (pos f)) (sample_at (some d) (pos f)) pd.x0
          (λ b. get_some d f (omega arith)) in
      let xn =
        chosen (ltb_ℤ (pos 0) (pos l)) (sample_at (some d) (pos (n - l))) pd.xn
          (λ b. get_some d (n - l) (omega (arith, positive l b))) in
      let t = shift_left-get (n - f) 0 f d (omega arith) in
      (
        record pd {
          x0 = x0.0;
          xn = xn.0;
          data_ptr = some t.0;
          n_samp = pos n -ℤ (pos f +ℤ pos l);
          time = dbl.add pd.time (dbl.div (dbl.of_int (pos f)) (dbl.of_int pd.samp_rate));
        },
        rw (e, k)
            (rw (x0.1, keep_samples)
              (rw (sub_pos n l (omega arith), keep_samples)
                (rw (xn.1, keep_samples)
                  (rw (sub_pos n f (omega arith), keep_samples) (rw (t.1, keep_samples) refl))))),
        (
          ap (λ z. pos n -ℤ z) (add_pos f l) ∙ sub_pos n (f + l) (omega arith),
          (t.0, refl, (λ j q. t.3 j (omega arith) (omega arith))),
        ),
      )

  -- Removing f samples at the front and l at the end of n samples that are in the array, some of
  -- them but not all, returns 1 and leaves those between, in their order.
  pub trim_by-IsKept :
      (pd : DataProcess Num) (d : List ℤ) (n f l : ℕ)
      → pd.data_ptr ≡ some d
      → pd.n_samp ≡ pos n
      → n ≤ length d
      → f + l < n
      → 0 < f + l
      → (pd' : DataProcess Num) × (trim_by dbl pd (pos f) (pos l) ≡ some (pos 1, pd'))
        × IsKept pd' d f (n - (f + l))
  unfolding trim_by keep_samples
  trim_by-IsKept pd d n f l e k h r s =
      let t = keep_samples-IsKept pd d n f l e k h r in
      (
        t.0,
        rw (some_removed f l s) (
            rw (k, add_pos f l)
              (rw (sub_pos n (f + l) (omega arith))
                (rw (some_left (n - (f + l)) (omega arith)) (rw t.1 refl)))),
        t.2,
      )
    where
      some_removed : (a b : ℕ) → 0 < a + b → (ltb_ℤ (pos 0) (pos a) || ltb_ℤ (pos 0) (pos b)) ≡ true
      some_removed a b q = ground arith

      some_left : (a : ℕ) → 0 < a → ltb_ℤ (pos 0) (pos a) ≡ true
      some_left a q = ground arith
