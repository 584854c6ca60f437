-- ===== src/Text/Laws.antt =====
-- Laws of the C strings: parts of a joined string.
use nmxptool.Prelude.{
  ℕ, zero, suc, ◌+◌, ◌≤◌, ◌<◌, ◌≡◌, refl, sym, ◌∙◌, ap, [], ◌∷◌, ◌++◌, some, length, take, drop,
  arith,
}
use nmxptool.Text.{Str, c_str}

pub take_all : (n : ℕ) (s : Str) → length s ≤ n → take n s ≡ s
take_all zero [] h = refl
take_all zero (x ∷ s) h = absurd (omega arith)
take_all (suc n) [] h = refl
take_all (suc n) (x ∷ s) h = ap (◌∷◌ x) (take_all n s (omega arith))

pub take-append : (n : ℕ) (s t : Str) → n ≡ length s → take n (s ++ t) ≡ s
take-append zero [] t h = refl
take-append zero (x ∷ s) t h = absurd (omega arith)
take-append (suc n) [] t h = absurd (omega arith)
take-append (suc n) (x ∷ s) t h = ap (◌∷◌ x) (take-append n s t (omega arith))

pub drop-append : (n : ℕ) (s t : Str) → n ≡ length s → drop n (s ++ t) ≡ t
drop-append zero [] t h = refl
drop-append zero (x ∷ s) t h = absurd (omega arith)
drop-append (suc n) [] t h = absurd (omega arith)
drop-append (suc n) (x ∷ s) t h = drop-append n s t (omega arith)

pub c_str_short : (n : ℕ) (s : Str) → length s < n → c_str n s ≡ some s
unfolding c_str
c_str_short n s h = ground arith

drop-nil : (n : ℕ) → drop {A = ℕ} n [] ≡ []
drop-nil zero = refl
drop-nil (suc n) = refl

pub drop-add : (m n : ℕ) (s : Str) → drop (m + n) s ≡ drop n (drop m s)
drop-add zero n s = ap (λ k. drop k s) (omega arith)
drop-add (suc m) n [] = drop-nil (suc m + n) ∙ sym (drop-nil n)
drop-add (suc m) n (x ∷ s) =
    ap (λ k. drop k (x ∷ s)) {x = suc m + n} {y = suc (m + n)} (omega arith) ∙ drop-add m n s

-- What stands behind the code `u` and one byte.
pub drop_past : (n x : ℕ) (u t : Str) → n ≡ length u + 1 → drop n (u ++ x ∷ t) ≡ t
drop_past zero x u t h = absurd (omega arith)
drop_past (suc n) x [] t h = ap (λ k. drop k t) {x = n} {y = 0} (omega arith)
drop_past (suc n) x (y ∷ u) t h = drop_past n x u t (omega arith)
