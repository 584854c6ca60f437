-- ===== src/Seed/Find.antt =====
-- The search for a name in the table of open files, and cells past its end.
use nmxptool.Prelude.{
  ℕ, zero, suc, ◌+◌, ◌<◌, ◌≡◌, refl, ap, ap₂, ◌⊎◌, Bool, true, false, Option, none, some, List, [],
  ◌∷◌, inl, inr, set, get_elem?, ltb, if◌then◌else◌, arith,
}
use nmxptool.Prelude.Int.{ℤ, pos, negsuc, eqb_ℤ}
use nmxptool.Text.{Str, strcmp}
use nmxptool.Seed.{Slot, find_name}

both_false :
    (p q : Bool) (z : ℤ)
    → (if p then negsuc 0 else if q then pos 1 else z) ≡ pos 0
    → (p ≡ false) × (q ≡ false) × (z ≡ pos 0)
both_false true q z e = cc
both_false false true z e = cc
both_false false false z e = (refl, refl, e)

strcmp_eq : (a b : Str) → strcmp a b ≡ pos 0 → a ≡ b
unfolding strcmp
strcmp_eq [] [] e = refl
strcmp_eq [] (y ∷ b) e = cc
strcmp_eq (x ∷ a) [] e = cc
strcmp_eq (x ∷ a) (y ∷ b) e =
    let t = both_false (ltb x y) (ltb y x) (strcmp a b) e in
    ap₂ (λ z zs. z ∷ zs) (same x y t.0 t.1) (strcmp_eq a b t.2)
  where
    same : (x y : ℕ) → ltb x y ≡ false → ltb y x ≡ false → x ≡ y
    same x y p q = ground arith

pub some_inj : {A : Type 0} (a b : A) → some a ≡ some b → a ≡ b
some_inj a b e = cc

split_found :
    (p : Bool) (k j : ℕ) (o : Option ℕ)
    → (if p then some k else o) ≡ some j
    → ((p ≡ true) × (j ≡ k)) ⊎ (o ≡ some j)
split_found true k j o e = inl (refl, cc)
split_found false k j o e = inr e

zero_of : (z : ℤ) → eqb_ℤ z (pos 0) ≡ true → z ≡ pos 0
zero_of (pos n) e = ap pos (ground arith)
zero_of (negsuc n) e = absurd (ground arith)

pub find_name-found :
    {File : Type 0} (name : Str) (k n : ℕ) (slots : List (Slot File)) (j : ℕ)
    → find_name name k n slots ≡ some j
    → (i : ℕ) × (x : Slot File) × (j ≡ k + i)
      × (i < n)
      × (get_elem? slots i ≡ some x)
      × (name ≡ x.name)
unfolding find_name
find_name-found name k zero slots j e = cc
find_name-found name k (suc n) [] j e = cc
find_name-found name k (suc n) (x ∷ slots) j e =
    elim (split_found (eqb_ℤ (strcmp name x.name) (pos 0)) k j (find_name name (suc k) n slots) e) [
      | inl t ↦ (
        0,
        x,
        omega (arith, t.1),
        omega arith,
        refl,
        strcmp_eq name x.name (zero_of (strcmp name x.name) t.0),
      )
      | inr r ↦
          let t = find_name-found name (suc k) n slots j r in
          (suc t.0, t.1, omega (arith, t.2), omega (arith, t.3), t.4, t.5)
    ]

pub set_past : {A : Type 0} (xs : List A) (i : ℕ) (y : A) → get_elem? xs i ≡ none → set xs i y ≡ xs
set_past [] i y e = refl
set_past (x ∷ xs) zero y e = cc
set_past (x ∷ xs) (suc i) y e = ap (λ t. x ∷ t) (set_past xs i y e)
