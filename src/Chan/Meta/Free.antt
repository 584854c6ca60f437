-- ===== src/Chan/Meta/Free.antt =====
-- nmxp_meta_chan_free on a list that is not empty.
use nmxptool.Prelude.{◌≡◌, refl, none, List, [], ◌∷◌}
use nmxptool.Chan.Meta.{MetaChan, free_from, meta_chan_free}

-- Some round comes to an item that has none behind it.
free_from-none : (x : MetaChan) (iter next : List MetaChan) → free_from (x ∷ iter) next ≡ none
unfolding free_from
free_from-none x iter [] = refl
free_from-none x iter (y ∷ next) = free_from-none y next next

-- Freeing any list but the empty one does not come to the end of the loop: it reads through NULL.
pub meta_chan_free_faults : (x : MetaChan) (xs : List MetaChan) → meta_chan_free (x ∷ xs) ≡ none
unfolding meta_chan_free
meta_chan_free_faults x xs = free_from-none x xs xs
