-- ===== src/RawStream/Timeout.antt =====
-- nmxp_raw_stream_manage on a time-out (a NULL packet): it makes progress, and where it may repeat itself.
use mathlib.Core.List.Perm
use mathlib.Core.HLevel.{×_prop}
use native.Mathlib.Bridge.{le_prop}
use nmxptool.Prelude.{ℕ, suc, ◌≡◌, refl, false, Option, none, List, [], ◌∷◌, length, All, arith}
use nmxptool.Prelude.Each.{All_mono, All-perm, length-perm}
use nmxptool.Prelude.Int.{ℤ, pos, negsuc, ◌≤ℤ◌, -ℤ_parts}
use nmxptool.Double.{Double}
use nmxptool.Packet.{DataProcess}
use nmxptool.RawStream.{
  RawStream, Readings, Progress, start_at, compact, skip_gap, drain, admit, settle, manage,
}
use nmxptool.RawStream.Drained.{IsReady, Drained, drain-Drained}
use nmxptool.RawStream.Order.{IsSorted}
use nmxptool.RawStream.Valid.{IsValid}
use nmxptool.RawStream.Start.{start_at-Started}
use nmxptool.RawStream.Admit.{Admitted, admit-Admitted}
use nmxptool.RawStream.{finish, handle, sent}
use nmxptool.RawStream.Drain.{IsNext}
use nmxptool.RawStream.Order.{Climbs, Climbs-of_Ascends, Climbs-append}
use nmxptool.RawStream.Valid.{late-IsReady}
use nmxptool.RawStream.Manage.{IsOrdered-IsSorted, Sorts, Drained-IsValid}

-- A packet that is due is handled, and the loop goes on behind it.
pub drain_head :
    (dbl : Double) {W : Type 0} (funcs : List (DataProcess dbl.Num → W → W)) (rs : Readings) (j : ℕ)
    (x : DataProcess dbl.Num) (xs : List (DataProcess dbl.Num)) (g : Progress dbl.Num W)
    → IsNext g.stream.last_seq_no_sent x.seq_no
    → drain dbl funcs rs j (x ∷ xs) g
      ≡ drain dbl funcs rs (suc j) xs (handle dbl funcs (rs.handled j) x g)
unfolding drain
drain_head dbl funcs rs j x xs g h = ground (arith, -ℤ_parts x.seq_no g.stream.last_seq_no_sent)

module _ (dbl : Double) {W : Type 0} (funcs : List (DataProcess dbl.Num → W → W))
    (qsort : List (DataProcess dbl.Num) → List (DataProcess dbl.Num)) (sorted : Sorts qsort) where
  abbrev IsBehind : ℤ → DataProcess dbl.Num → Type 0
  IsBehind last y = (last ≤ℤ y.seq_no) × (pos 1 ≤ℤ y.seq_no)

  -- The state and the log after the loop, from a log that climbs to `last`.
  abbrev Outcome : ℤ → Progress dbl.Num W → Type 0
  Outcome lo q = IsValid q.stream × Climbs lo q.handled q.stream.last_seq_no_sent

  finish-Climbs :
      (queue : List (DataProcess dbl.Num)) (lo : ℤ) (m : Progress dbl.Num W)
      (r : Progress dbl.Num W × List (DataProcess dbl.Num))
      → Climbs lo m.handled m.stream.last_seq_no_sent
      → Drained queue m r
      → Climbs lo (finish dbl funcs r).handled (finish dbl funcs r).stream.last_seq_no_sent
  unfolding finish
  finish-Climbs queue lo m r a d = rw d.grows (
      Climbs-append lo m.handled _ d.more _ a
        (Climbs-of_Ascends _ _ d.more _ (omega arith) d.climbs))

  loop_outcome :
      (rs : Readings) (j : ℕ) (lo : ℤ) (queue : List (DataProcess dbl.Num)) (m : Progress dbl.Num W)
      → pos 1 ≤ℤ m.stream.max_pdlist_items
      → pos (length queue) ≤ℤ m.stream.max_pdlist_items
      → negsuc 0 ≤ℤ m.stream.last_seq_no_sent
      → IsSorted queue
      → All (IsReady m.stream.last_seq_no_sent) queue
      → Climbs lo m.handled m.stream.last_seq_no_sent
      → Outcome lo (finish dbl funcs (drain dbl funcs rs j queue m))
  loop_outcome rs j lo queue m room fits start s ready a =
      let d = drain-Drained dbl funcs rs j queue m start s ready in
      (
        Drained-IsValid dbl funcs qsort sorted queue m _ room start fits d,
        finish-Climbs queue lo m _ a d,
      )

  flush :
      (rs : Readings) (lo : ℤ) (queue : List (DataProcess dbl.Num)) (m : Progress dbl.Num W)
      → pos 1 ≤ℤ m.stream.max_pdlist_items
      → negsuc 0 ≤ℤ m.stream.last_seq_no_sent
      → pos (length queue) ≤ℤ m.stream.max_pdlist_items
      → IsSorted queue
      → All (IsBehind m.stream.last_seq_no_sent) queue
      → Climbs lo m.handled m.stream.last_seq_no_sent
      → Outcome lo (
          finish dbl funcs (
            drain dbl funcs rs 0 queue
              (record m { stream = skip_gap dbl rs false m.stream queue })))
  unfolding skip_gap handle sent
  flush rs lo [] m room start fits s h a = loop_outcome rs 0 lo [] m room fits start tt tt a
  flush rs lo (x ∷ xs) m room start fits s h a =
      rw
        (drain_head dbl funcs rs 0 x xs
          (record m { stream = skip_gap dbl rs false m.stream (x ∷ xs) })
          (omega (arith, -ℤ_parts x.seq_no (pos 1))))
        (loop_outcome rs 1 lo xs _ room (omega arith) (omega arith) s.1
          (All_mono (λ y. x.seq_no ≤ℤ y.seq_no) _ xs (λ y k. late-IsReady x.seq_no y (omega arith))
            s.0)
          (Climbs-append lo m.handled _ (x ∷ []) x.seq_no a (h.0.0, omega arith)))

  settle_timeout :
      (rs : Readings) (g : Progress dbl.Num W)
      (r : Progress dbl.Num W × List (Option (DataProcess dbl.Num)))
      → g.handled ≡ []
      → pos 1 ≤ℤ g.stream.max_pdlist_items
      → Admitted dbl funcs none g r
      → Outcome g.stream.last_seq_no_sent (settle dbl funcs qsort rs false r)
  unfolding settle
  settle_timeout rs g (m, slots) empty room a =
      flush rs g.stream.last_seq_no_sent (qsort (compact dbl slots)) m (rw a.same_capacity room)
        a.started (rw (length-perm (sorted.permutes (compact dbl slots))) a.fits)
        (IsOrdered-IsSorted _ (sorted.orders _))
        (All-perm (IsBehind m.stream.last_seq_no_sent) (λ y. ×_prop le_prop le_prop)
          (Perm.symm (sorted.permutes (compact dbl slots))) (a.behind refl))
        (rw (a.grows, empty) (Climbs-of_Ascends _ _ a.more _ (omega arith) a.climbs))

  -- With a qsort() that sorts, a time-out keeps a valid buffer valid, and the numbers that it
  -- handles never fall below the last number sent.
  pub timeout-Climbs :
      (rs : Readings) (p : RawStream dbl.Num) (w : W)
      → IsValid p
      → Outcome p.last_seq_no_sent (manage dbl funcs qsort rs none p w)
  unfolding manage start_at
  timeout-Climbs rs p w v =
      let g : Progress dbl.Num W = record { stream = p; world = w; handled = []; discarded = [] } in
      settle_timeout rs g (admit dbl funcs rs none g) refl v.capacity
        (admit-Admitted dbl funcs rs p none g v (start_at-Started dbl rs p none v tt))
