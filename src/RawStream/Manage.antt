-- ===== src/RawStream/Manage.antt =====
-- nmxp_raw_stream_manage as a whole: the order of what it handles, and its invariant.
use mathlib.Core.List.Perm
use nmxptool.Prelude.{
  ◌≡◌, refl, true, Option, some, List, [], ◌∷◌, length, All, arith, Perm, if◌then◌else◌,
}
use nmxptool.Prelude.Each.{All_mono, All-perm, length-perm}
use nmxptool.Prelude.Int.{ℤ, pos, negsuc, ◌≤ℤ◌, leb_ℤ, ltb_ℤ}
use nmxptool.Double.{Double}
use nmxptool.Packet.{DataProcess}
use nmxptool.RawStream.{
  RawStream, Readings, Progress, seq_no_compare, copy, start_at, compact, skip_gap, admit, settle,
  manage,
}
use nmxptool.RawStream.{finish}
use nmxptool.RawStream.Drained.{IsReady, Drained, drain-Drained}
use nmxptool.RawStream.Order.{IsSorted, Ascends, Ascends-append, Ascends-from}
use nmxptool.RawStream.Valid.{IsValid, IsReady-prop}
use nmxptool.RawStream.Start.{start_at-Started}
use nmxptool.RawStream.Admit.{Admitted, admit-Admitted}

-- No packet compares as larger than one behind it.
abbrev pub IsOrdered : {Num : Type 0} → List (DataProcess Num) → Type 0
IsOrdered [] = Unit {0}
IsOrdered (x ∷ xs) = All (λ y. leb_ℤ (seq_no_compare x y) (pos 0) ≡ true) xs × IsOrdered xs

-- What `qsort` with `nmxp_raw_stream_seq_no_compare` promises.
pub record Sorts {Num : Type 0} (qsort : List (DataProcess Num) → List (DataProcess Num))
    : Type 0 where
  pub permutes : (xs : List (DataProcess Num)) → Perm (qsort xs) xs
  pub orders : (xs : List (DataProcess Num)) → IsOrdered (qsort xs)

pub IsOrdered-IsSorted : {Num : Type 0} (xs : List (DataProcess Num)) → IsOrdered xs → IsSorted xs
unfolding seq_no_compare
IsOrdered-IsSorted [] h = tt
IsOrdered-IsSorted (x ∷ xs) h = (
  All_mono (λ y. leb_ℤ (seq_no_compare x y) (pos 0) ≡ true) (λ y. x.seq_no ≤ℤ y.seq_no) xs
      (λ y k. above x.seq_no y.seq_no k) h.0,
  IsOrdered-IsSorted xs h.1,
)
  where
    above :
        (a b : ℤ)
        → leb_ℤ (if ltb_ℤ b a then pos 1 else if ltb_ℤ a b then negsuc 0 else pos 0) (pos 0) ≡ true
        → a ≤ℤ b
    above a b k = ground arith

skip_gap_arrived :
    (dbl : Double) (rs : Readings) (p : RawStream dbl.Num) (queue : List (DataProcess dbl.Num))
    → skip_gap dbl rs true p queue ≡ p
unfolding skip_gap
skip_gap_arrived dbl rs p [] = refl
skip_gap_arrived dbl rs p (x ∷ xs) = refl

seq_no-copy : (dbl : Double) (a : DataProcess dbl.Num) → (copy dbl a).seq_no ≡ a.seq_no
unfolding copy
seq_no-copy dbl a = refl

module _ (dbl : Double) {W : Type 0} (funcs : List (DataProcess dbl.Num → W → W))
    (qsort : List (DataProcess dbl.Num) → List (DataProcess dbl.Num)) (sorted : Sorts qsort) where
  pub sorted-IsReady :
      (last : ℤ) (xs : List (DataProcess dbl.Num))
      → All (IsReady last) xs
      → All (IsReady last) (qsort xs)
  sorted-IsReady last xs =
      All-perm (IsReady last) (IsReady-prop last) (Perm.symm (sorted.permutes xs))

  pub Drained-IsValid :
      (queue : List (DataProcess dbl.Num)) (g : Progress dbl.Num W)
      (r : Progress dbl.Num W × List (DataProcess dbl.Num))
      → pos 1 ≤ℤ g.stream.max_pdlist_items
      → negsuc 0 ≤ℤ g.stream.last_seq_no_sent
      → pos (length queue) ≤ℤ g.stream.max_pdlist_items
      → Drained queue g r
      → IsValid (finish dbl funcs r).stream
  unfolding finish
  Drained-IsValid queue g r room start fits d = record {
    capacity = rw d.capacity room;
    bounded = rw d.capacity (omega (arith, d.fewer));
    started = omega (arith, d.from_start);
    ordered = d.ordered;
    ahead = d.ahead;
  }

  pub finish-Ascends :
      (queue : List (DataProcess dbl.Num)) (lo : ℤ) (more : List (DataProcess dbl.Num))
      (m : Progress dbl.Num W) (r : Progress dbl.Num W × List (DataProcess dbl.Num))
      → m.handled ≡ more
      → Ascends lo more m.stream.last_seq_no_sent
      → Drained queue m r
      → Ascends lo (finish dbl funcs r).handled (finish dbl funcs r).stream.last_seq_no_sent
  unfolding finish
  finish-Ascends queue lo more m r e a d =
      rw (d.grows, e) (Ascends-append lo more _ d.more _ a d.climbs)

  -- A packet that arrives: the loop goes on from the last number sent.
  settle_arrived :
      (rs : Readings) (pd : DataProcess dbl.Num) (g : Progress dbl.Num W)
      (r : Progress dbl.Num W × List (Option (DataProcess dbl.Num)))
      → g.handled ≡ []
      → pos 1 ≤ℤ g.stream.max_pdlist_items
      → Admitted dbl funcs (some pd) g r
      → let q = settle dbl funcs qsort rs true r in
        IsValid q.stream × Ascends g.stream.last_seq_no_sent q.handled q.stream.last_seq_no_sent
  unfolding settle
  settle_arrived rs pd g (m, slots) empty room a =
      let queue = qsort (compact dbl slots) in
      let d =
        drain-Drained dbl funcs rs 0 queue m a.started (IsOrdered-IsSorted _ (sorted.orders _))
          (sorted-IsReady m.stream.last_seq_no_sent (compact dbl slots) a.ready) in
      rw (skip_gap_arrived dbl rs m.stream queue) (
        Drained-IsValid queue m _ (rw a.same_capacity room) a.started
            (rw (length-perm (sorted.permutes (compact dbl slots))) a.fits) d,
        finish-Ascends queue _ a.more m _ (rw (a.grows, empty)) a.climbs d,
      )

  -- A call with a packet whose number is not negative, on a valid buffer and with a qsort() that
  -- sorts: the numbers of the packets that are handled ascend from the last number sent, none of
  -- them twice, and the buffer stays valid.
  pub manage-Ascends :
      (rs : Readings) (a : DataProcess dbl.Num) (p : RawStream dbl.Num) (w : W)
      → IsValid p
      → pos 0 ≤ℤ a.seq_no
      → let q = manage dbl funcs qsort rs (some a) p w in
        IsValid q.stream × Ascends p.last_seq_no_sent q.handled q.stream.last_seq_no_sent
  unfolding manage
  manage-Ascends rs a p w v n =
      let pd = some (copy dbl a) in
      let started = start_at-Started dbl rs p pd v (rw (seq_no-copy dbl a) n) in
      let g : Progress dbl.Num W = record {
        stream = start_at dbl rs p pd;
        world = w;
        handled = [];
        discarded = [];
      } in
      let (valid, climbs) =
        settle_arrived rs (copy dbl a) g (admit dbl funcs rs pd g) refl
          (rw started.same_capacity v.capacity) (admit-Admitted dbl funcs rs p pd g v started) in
      (valid, Ascends-from _ _ _ _ started.grown climbs)
