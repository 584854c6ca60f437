-- ===== src/RawStream/Liveness.antt =====
-- nmxp_raw_stream_manage on a time-out: no packet waits for ever.
use native.Mathlib.Decide.{dec_lt}
use nmxptool.Prelude.{
  ℕ, suc, ◌≤◌, ◌<◌, ◌≡◌, refl, false, Option, none, List, [], ◌∷◌, ◌++◌, length, length-append,
  nil_of_length, arith,
}
use nmxptool.Prelude.Each.{length-perm}
use nmxptool.Prelude.Int.{pos, -ℤ_parts}
use nmxptool.Double.{Double}
use nmxptool.Packet.{DataProcess}
use nmxptool.RawStream.{
  RawStream, Readings, Progress, start_at, compact, skip_gap, drain, admit, settle, manage,
}
use nmxptool.RawStream.{finish, handle}
use nmxptool.RawStream.Timeout.{drain_head}
use nmxptool.RawStream.Drain.{drain_ind}
use nmxptool.RawStream.Conserve.{admit-account, manage-account}
use nmxptool.RawStream.Manage.{Sorts}

module _ (dbl : Double) {W : Type 0} (funcs : List (DataProcess dbl.Num → W → W))
    (qsort : List (DataProcess dbl.Num) → List (DataProcess dbl.Num)) where
  -- Time-outs in a row, each with its own readings of the clock.
  pub timeouts : List Readings → RawStream dbl.Num → W → RawStream dbl.Num
  timeouts [] p w = p
  timeouts (rs ∷ calls) p w =
      let q = manage dbl funcs qsort rs none p w in timeouts calls (q.stream) (q.world)

module _ (dbl : Double) {W : Type 0} (funcs : List (DataProcess dbl.Num → W → W))
    (qsort : List (DataProcess dbl.Num) → List (DataProcess dbl.Num)) (sorted : Sorts qsort) where
  drain_fewer :
      (rs : Readings) (j : ℕ) (queue : List (DataProcess dbl.Num)) (g : Progress dbl.Num W)
      → length (drain dbl funcs rs j queue g).1 ≤ length queue
  drain_fewer rs =
      drain_ind dbl funcs rs (λ queue g r. length (r.1) ≤ length queue) (λ g. omega arith)
        (λ x xs g r h ih. omega arith) (λ now x xs g r h ih. omega arith) (λ x xs g h. omega arith)

  flush_fewer :
      (rs : Readings) (n : ℕ) (queue : List (DataProcess dbl.Num)) (m : Progress dbl.Num W)
      → 0 < n
      → length queue ≤ n
      → length
          (drain dbl funcs rs 0 queue
            (record m { stream = skip_gap dbl rs false m.stream queue })).1
        < n
  unfolding skip_gap
  flush_fewer rs n [] m h k = omega (arith, drain_fewer rs 0 [] m)
  flush_fewer rs n (x ∷ xs) m h k =
      let g : Progress dbl.Num W = record m { stream = skip_gap dbl rs false m.stream (x ∷ xs) } in
      rw (drain_head dbl funcs rs 0 x xs g (omega (arith, -ℤ_parts x.seq_no (pos 1))))
        (omega (arith, drain_fewer rs 1 xs (handle dbl funcs (rs.handled 0) x g)))

  settle_fewer :
      (rs : Readings) (n : ℕ) (r : Progress dbl.Num W × List (Option (DataProcess dbl.Num)))
      → 0 < n
      → length (compact dbl r.1) ≤ n
      → length (settle dbl funcs qsort rs false r).stream.pdlist < n
  unfolding settle finish
  settle_fewer rs n (m, slots) h k =
      flush_fewer rs n (qsort (compact dbl slots)) m h
        (rw (length-perm (sorted.permutes (compact dbl slots))) k)

  -- A time-out on a buffer that is not empty leaves fewer packets waiting.
  pub timeout_shrinks :
      (rs : Readings) (p : RawStream dbl.Num) (w : W)
      → 0 < length p.pdlist
      → length (manage dbl funcs qsort rs none p w).stream.pdlist < length p.pdlist
  unfolding manage start_at
  timeout_shrinks rs p w h =
      let g : Progress dbl.Num W = record { stream = p; world = w; handled = []; discarded = [] } in
      let r = admit dbl funcs rs none g in
      let (perm, _) = admit-account dbl funcs rs w none g refl in
      settle_fewer rs (length p.pdlist) r h (
        omega (
          arith,
          length-perm perm,
          length-append {0} (r.0.handled) (r.0.discarded ++ compact dbl (r.1)),
          length-append {0} (r.0.discarded) (compact dbl (r.1)),
        ))

  timeout_keeps :
      (rs : Readings) (p : RawStream dbl.Num) (w : W)
      → length (manage dbl funcs qsort rs none p w).stream.pdlist ≤ length p.pdlist
  timeout_keeps rs p w =
      let q = manage dbl funcs qsort rs none p w in
      let (perm, _) = manage-account dbl funcs qsort sorted rs none p w in
      omega (
        arith,
        length-perm perm,
        length-append {0} (q.handled) (q.discarded ++ q.stream.pdlist),
        length-append {0} (q.discarded) (q.stream.pdlist),
      )

  one_less :
      (rs : Readings) (n : ℕ) (p : RawStream dbl.Num) (w : W)
      → length p.pdlist ≤ suc n
      → length (manage dbl funcs qsort rs none p w).stream.pdlist ≤ n
  one_less rs n p w h = elim (dec_lt 0 (length p.pdlist)) [
    | yes k ↦ omega (arith, timeout_shrinks rs p w k)
    | no k ↦ omega (arith, timeout_keeps rs p w)
  ]

  -- With a qsort() that sorts, at least as many time-outs as packets wait, at any times, empty the buffer.
  pub timeouts-nil :
      (calls : List Readings) (p : RawStream dbl.Num) (w : W)
      → length p.pdlist ≤ length calls
      → (timeouts dbl funcs qsort calls p w).pdlist ≡ []
  unfolding timeouts
  timeouts-nil [] p w h = nil_of_length p.pdlist h
  timeouts-nil (rs ∷ calls) p w h = timeouts-nil calls _ _ (one_less rs (length calls) p w h)
