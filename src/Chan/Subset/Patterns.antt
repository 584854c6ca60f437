-- ===== src/Chan/Subset/Patterns.antt =====
-- The separation of a list of patterns.
use nmxptool.Prelude.{
  ◌≡◌, ◌≢◌, ◌∙◌, refl, ap, sym, List, [], ◌∷◌, ◌++◌, append-nil, append_assoc, All, arith,
}
use nmxptool.Text.{Str}
use nmxptool.Chan.Subset.{sep_chan_list, patterns_from}

-- A pattern is not empty and holds no comma.
abbrev pub IsPattern : Str → Type 0
IsPattern p = (p ≢ []) × All (λ c. c ≢ sep_chan_list) p

-- The patterns with a comma between each two.
abbrev pub join : List Str → Str
join [] = []
join (p ∷ []) = p
join (p ∷ q ∷ ps) = p ++ sep_chan_list ∷ join (q ∷ ps)

copy_pattern :
    (cur p s : Str)
    → All (λ c. c ≢ sep_chan_list) p
    → patterns_from cur (p ++ s) ≡ patterns_from (cur ++ p) s
unfolding patterns_from
copy_pattern cur [] s h = ap (λ x. patterns_from x s) (sym (append-nil cur))
copy_pattern cur (c ∷ p) s h =
    ground arith
    ∙ copy_pattern (cur ++ c ∷ []) p s h.1
    ∙ ap (λ x. patterns_from x s) (append_assoc cur (c ∷ []) p)

last_pattern : (p : Str) → p ≢ [] → patterns_from p [] ≡ p ∷ []
unfolding patterns_from
last_pattern [] h = absurd (h refl)
last_pattern (c ∷ p) h = refl

next_pattern : (p s : Str) → p ≢ [] → patterns_from p (sep_chan_list ∷ s) ≡ p ∷ patterns_from [] s
unfolding patterns_from
next_pattern [] s h = absurd (h refl)
next_pattern (c ∷ p) s h = refl

-- Patterns that are not empty and have no comma, joined by commas, come apart into the same
-- patterns.
pub patterns_from-join : (ps : List Str) → All IsPattern ps → patterns_from [] (join ps) ≡ ps
unfolding patterns_from
patterns_from-join [] h = refl
patterns_from-join (p ∷ []) h =
    ap (patterns_from []) (sym (append-nil p)) ∙ copy_pattern [] p [] h.0.1 ∙ last_pattern p h.0.0
patterns_from-join (p ∷ q ∷ ps) h =
    copy_pattern [] p (sep_chan_list ∷ join (q ∷ ps)) h.0.1
    ∙ next_pattern p (join (q ∷ ps)) h.0.0
    ∙ ap (◌∷◌ p) (patterns_from-join (q ∷ ps) h.1)
