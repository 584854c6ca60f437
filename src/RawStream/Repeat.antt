-- ===== src/RawStream/Repeat.antt =====
-- nmxp_raw_stream_manage on a time-out of a full buffer: a duplicated packet is handled twice.
use mathlib.Core.List.Perm
use native.Mathlib.Bridge.{le_prop}
use nmxptool.Prelude.{
  ◌≡◌, ◌∙◌, refl, true, false, none, List, [], ◌∷◌, ◌++◌, subst, ap, sym, All, arith, Perm,
}
use nmxptool.Prelude.Each.{All_mono, All-perm, length-perm}
use nmxptool.Prelude.Int.{ℤ, pos, negsuc, ◌≤ℤ◌, ◌<ℤ◌, -ℤ_parts}
use nmxptool.Double.{Double}
use nmxptool.Packet.{DataProcess}
use nmxptool.RawStream.{
  RawStream, Readings, Progress, start_at, compact, skip_gap, drain, admit, make_room, must_force,
  settle, manage,
}
use nmxptool.RawStream.Drained.{Drained, drain-Drained}
use nmxptool.RawStream.Order.{IsSorted}
use nmxptool.RawStream.Valid.{IsValid}
use nmxptool.RawStream.Start.{compact-map}
use nmxptool.RawStream.Admit.{force-handle}
use nmxptool.RawStream.{finish, handle, sent}
use nmxptool.RawStream.Valid.{late-IsReady}
use nmxptool.RawStream.Timeout.{drain_head}
use nmxptool.RawStream.Manage.{IsOrdered-IsSorted, Sorts}

-- The buffer p with other packets in its queue.
abbrev pub holding : {Num : Type 0} → RawStream Num → List (DataProcess Num) → RawStream Num
holding p xs = record p { pdlist = xs }

module _ (dbl : Double) {W : Type 0} (funcs : List (DataProcess dbl.Num → W → W))
    (qsort : List (DataProcess dbl.Num) → List (DataProcess dbl.Num)) (sorted : Sorts qsort) where
  -- The first packet of the sorted queue has the number of the oldest one.
  least :
      (x : DataProcess dbl.Num) (xs queue : List (DataProcess dbl.Num))
      → IsSorted (x ∷ xs)
      → Perm queue (x ∷ xs)
      → All (λ y. x.seq_no ≤ℤ y.seq_no) queue
  least x xs queue s perm =
      All-perm (λ y. x.seq_no ≤ℤ y.seq_no) (λ y. le_prop) (Perm.symm perm) (omega arith, s.0)

  -- The log begins with the packet x and another one with its number.
  abbrev pub Repeats : DataProcess dbl.Num → List (DataProcess dbl.Num) → Type 0
  Repeats x log =
      (z : DataProcess dbl.Num) × (more : List (DataProcess dbl.Num)) × (log ≡ x ∷ z ∷ more)
      × (z.seq_no ≡ x.seq_no)

  first_two :
      (queue : List (DataProcess dbl.Num)) (x z : DataProcess dbl.Num) (m : Progress dbl.Num W)
      (r : Progress dbl.Num W × List (DataProcess dbl.Num))
      → m.handled ≡ x ∷ z ∷ []
      → z.seq_no ≡ x.seq_no
      → Drained queue m r
      → Repeats x (finish dbl funcs r).handled
  unfolding finish
  first_two queue x z m r e same d = (z, d.more, d.grows ∙ ap (λ xs. xs ++ d.more) e, same)

  equal_ℤ : (a b : ℤ) → a ≤ℤ b → b ≤ℤ a → a ≡ b
  equal_ℤ (pos a) (pos b) h k = ap pos (omega (arith, h, k))
  equal_ℤ (pos a) (negsuc b) h k = absurd (omega (arith, h, k))
  equal_ℤ (negsuc a) (pos b) h k = absurd (omega (arith, h, k))
  equal_ℤ (negsuc a) (negsuc b) h k = ap negsuc (omega (arith, h, k))

  -- The log of a time-out that starts from the packet x and a sorted queue.
  abbrev flushed : Readings → List (DataProcess dbl.Num) → Progress dbl.Num W → Progress dbl.Num W
  flushed rs queue m =
      finish dbl funcs
        (drain dbl funcs rs 0 queue (record m { stream = skip_gap dbl rs false m.stream queue }))

  repeats :
      (rs : Readings) (x y : DataProcess dbl.Num) (ys queue : List (DataProcess dbl.Num))
      (m : Progress dbl.Num W)
      → m.handled ≡ x ∷ []
      → x.seq_no ≡ y.seq_no
      → pos 1 ≤ℤ x.seq_no
      → IsSorted (y ∷ ys)
      → IsSorted queue
      → Perm queue (y ∷ ys)
      → Repeats x (flushed rs queue m).handled
  unfolding skip_gap handle sent
  repeats rs x y ys [] m e same num s t perm = absurd (omega (arith, length-perm perm))
  repeats rs x y ys (z ∷ zs) m e same num s t perm =
      let above = least y ys (z ∷ zs) s perm in
      let below : All (λ v. z.seq_no ≤ℤ v.seq_no) (y ∷ ys) =
        least z zs (y ∷ ys) t (Perm.symm perm) in
      let start =
        drain_head dbl funcs rs 0 z zs
          (record m { stream = skip_gap dbl rs false m.stream (z ∷ zs) })
          (omega (arith, -ℤ_parts z.seq_no (pos 1))) in
      let g = record m { stream = skip_gap dbl rs false m.stream (z ∷ zs) } in
      let num' : pos 1 ≤ℤ y.seq_no = rw same at num in
      let d =
        drain-Drained dbl funcs rs 1 zs (handle dbl funcs (rs.handled 0) z g) (omega arith) t.1 (
          All_mono (λ v. z.seq_no ≤ℤ v.seq_no) _ zs (λ v k. late-IsReady z.seq_no v (omega arith))
            t.0) in
      subst (λ r. Repeats x (finish dbl funcs r).handled) (sym start)
        (first_two zs x z _ _ (ap (λ xs. xs ++ z ∷ []) e)
          (equal_ℤ z.seq_no y.seq_no below.0 above.0 ∙ sym same) d)

  abbrev after_force : Readings → DataProcess dbl.Num → RawStream dbl.Num → W → Progress dbl.Num W
  after_force rs x p w =
      handle dbl funcs rs.forced x (record { stream = p; world = w; handled = []; discarded = [] })

  forced_log :
      (rs : Readings) (x : DataProcess dbl.Num) (xs : List (DataProcess dbl.Num))
      (p : RawStream dbl.Num) (w : W)
      → must_force dbl rs (holding p (x ∷ xs)) ≡ true
      → p.last_seq_no_sent <ℤ x.seq_no
      → manage dbl funcs qsort rs none (holding p (x ∷ xs)) w
        ≡ flushed rs (qsort xs) (after_force rs x (holding p (x ∷ xs)) w)
  unfolding manage start_at settle admit make_room compact
  forced_log rs x xs p w full ahead =
      let g : Progress dbl.Num W = record {
        stream = holding p (x ∷ xs);
        world = w;
        handled = [];
        discarded = [];
      } in
      rw (full, force-handle dbl funcs rs x g ahead, compact-map dbl xs)

  -- On a time-out, a valid buffer that must make room hands over its oldest packet; if the next one has the
  -- same number, the packet that is handled behind it has that number too, with a qsort() that sorts.
  pub timeout-Repeats :
      (rs : Readings) (x y : DataProcess dbl.Num) (ys : List (DataProcess dbl.Num))
      (p : RawStream dbl.Num) (w : W)
      → IsValid (holding p (x ∷ y ∷ ys))
      → must_force dbl rs (holding p (x ∷ y ∷ ys)) ≡ true
      → x.seq_no ≡ y.seq_no
      → Repeats x (manage dbl funcs qsort rs none (holding p (x ∷ y ∷ ys)) w).handled
  unfolding handle
  timeout-Repeats rs x y ys p w v full same =
      subst (λ q. Repeats x q.handled)
        (sym (forced_log rs x (y ∷ ys) p w full (omega (arith, v.ahead.0))))
        (repeats rs x y ys (qsort (y ∷ ys)) (after_force rs x (holding p (x ∷ y ∷ ys)) w) refl same
          (omega (arith, v.ahead.0)) v.ordered.1 (IsOrdered-IsSorted _ (sorted.orders _))
          (sorted.permutes _))
