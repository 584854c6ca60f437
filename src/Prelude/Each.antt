-- ===== src/Prelude/Each.antt =====
-- A predicate on every element of a list, and what a permutation keeps.
use mathlib.Core.Logic.Or
use mathlib.Core.List.{Mem, mem-cons, mem-cons_self, mem-cons_of_mem, not-mem-nil, foldr, Perm}
use mathlib.Core.List.Perm
use mathlib.Core.List.{List, [], ◌∷◌, ◌++◌}
use mathlib.Core.Path.{◌≡◌, refl, sym, ap, ◌∙◌, subst}
use Prim.Native.Nat.{ℕ, suc}
use native.Mathlib.Nat.{ℕ_set}
use nmxptool.Prelude.Lists.{length}

-- It computes to tuples, which the tactics read and build.
abbrev pub All {ℓ κ} : {A : Type ℓ} → (A → Type κ) → List A → Type κ
All P [] = Unit
All P (x ∷ xs) = P x × All P xs

module _ {ℓ κ} {A : Type ℓ} (P : A → Type κ) where
  pub All_of_mem : (xs : List A) → ((x : A) → Mem x xs → P x) → All P xs
  All_of_mem [] h = tt
  All_of_mem (x ∷ xs) h = (h x mem-cons_self, All_of_mem xs (λ y m. h y (mem-cons_of_mem x m)))

  pub mem_of_All : ((x : A) → IsProp (P x)) → (xs : List A) → All P xs → (x : A) → Mem x xs → P x
  mem_of_All prop [] h x m = absurd (not-mem-nil m)
  mem_of_All prop (y ∷ ys) h x m =
      Or.elim (prop x) (mem-cons.0 m) (λ e. subst P (sym e) h.0) (mem_of_All prop ys h.1 x)

  pub All-perm : ((x : A) → IsProp (P x)) → {xs ys : List A} → Perm xs ys → All P xs → All P ys
  All-perm prop {xs} {ys} p h = All_of_mem ys (λ x m. mem_of_All prop xs h x ((Perm.mem_iff p).1 m))

  pub All-append : (xs ys : List A) → All P xs → All P ys → All P (xs ++ ys)
  All-append [] ys hx hy = hy
  All-append (x ∷ xs) ys hx hy = (hx.0, All-append xs ys hx.1 hy)

pub All_mono {ℓ κ μ} :
    {A : Type ℓ} (P : A → Type κ) (Q : A → Type μ) (xs : List A)
    → ((x : A) → P x → Q x)
    → All P xs
    → All Q xs
All_mono P Q [] f h = tt
All_mono P Q (x ∷ xs) f h = (f x h.0, All_mono P Q xs f h.1)

module _ {ℓ} {A : Type ℓ} where
  count_one : A → ℕ → ℕ
  count_one x n = suc n

  length-foldr : (xs : List A) → foldr count_one 0 xs ≡ length xs
  unfolding count_one
  length-foldr [] = refl
  length-foldr (x ∷ xs) = ap suc (length-foldr xs)

  pub length-perm : {xs ys : List A} → Perm xs ys → length xs ≡ length ys
  unfolding count_one
  length-perm {xs} {ys} p =
      sym (length-foldr xs) ∙ Perm.foldr-eq ℕ_set count_one (λ a b n. refl) p 0 ∙ length-foldr ys
