-- ===== src/RawStream/Admit.antt =====
-- nmxp_raw_stream_manage, "Add pd and sort array": the new packet takes a slot, by force if need be.
use nmxptool.Prelude.{
  ◌≤◌, ◌≡◌, refl, inl, inr, Option, none, some, List, [], ◌∷◌, ◌++◌, map, length, length-append,
  append-nil, sym, ap, All, All-append, arith, Bool-cases,
}
use nmxptool.Prelude.Each.{All_mono, All_of_mem}
use nmxptool.Prelude.Int.{ℤ, pos, negsuc, ◌≤ℤ◌, ◌<ℤ◌, -ℤ_parts}
use nmxptool.Double.{Double}
use nmxptool.Packet.{DataProcess}
use nmxptool.RawStream.{
  RawStream, Readings, Progress, must_force, sent, compact, handle, force, slot, make_room, admit,
}
use nmxptool.RawStream.Drained.{IsReady}
use nmxptool.RawStream.Order.{IsSorted, Ascends, IsAhead}
use nmxptool.RawStream.Valid.{IsValid, to_list, late-IsReady}
use nmxptool.RawStream.Start.{Started, room, compact-map, compact-append}

module _ (dbl : Double) {W : Type 0} (funcs : List (DataProcess dbl.Num → W → W)) where
  -- After "Add pd": what the queue and the log look like.
  pub record Admitted (pd : Option (DataProcess dbl.Num)) (g : Progress dbl.Num W)
      (r : Progress dbl.Num W × List (Option (DataProcess dbl.Num))) : Type 0 where
    pub more : List (DataProcess dbl.Num)
    pub grows : r.0.handled ≡ g.handled ++ more
    pub climbs : Ascends g.stream.last_seq_no_sent more r.0.stream.last_seq_no_sent
    pub started : negsuc 0 ≤ℤ r.0.stream.last_seq_no_sent
    pub ready : All (IsReady r.0.stream.last_seq_no_sent) (compact dbl r.1)
    pub fits : pos (length (compact dbl r.1)) ≤ℤ r.0.stream.max_pdlist_items
    pub same_capacity : r.0.stream.max_pdlist_items ≡ g.stream.max_pdlist_items
    pub behind :
        pd ≡ none
        → All
            (λ y. (r.0.stream.last_seq_no_sent ≤ℤ y.seq_no) × (pos 1 ≤ℤ y.seq_no))
            (compact dbl r.1)

  -- The branch of "It should not occur" is not taken for a packet with a larger number than the last one
  -- sent: it is handled, not discarded, when room is made.
  pub force-handle :
      (rs : Readings) (x : DataProcess dbl.Num) (g : Progress dbl.Num W)
      → g.stream.last_seq_no_sent <ℤ x.seq_no
      → force dbl funcs rs x g ≡ handle dbl funcs rs.forced x g
  unfolding force
  force-handle rs x g h = ground (arith, -ℤ_parts x.seq_no g.stream.last_seq_no_sent)

  pub queue-append :
      (xs : List (DataProcess dbl.Num)) (pd : Option (DataProcess dbl.Num))
      → compact dbl (map some xs ++ slot dbl funcs pd) ≡ xs ++ to_list pd
  unfolding compact
  queue-append xs none = rw (compact-append dbl (map some xs) [], compact-map dbl xs)
  queue-append xs (some pd) =
      rw (compact-append dbl (map some xs) (some pd ∷ []), compact-map dbl xs)

  pub queue-room :
      (xs : List (DataProcess dbl.Num)) (pd : Option (DataProcess dbl.Num))
      → compact dbl (pd ∷ map some xs) ≡ to_list pd ++ xs
  unfolding compact
  queue-room xs none = compact-map dbl xs
  queue-room xs (some pd) = ap (◌∷◌ pd) (compact-map dbl xs)

  abbrev IsBehind : ℤ → DataProcess dbl.Num → Type 0
  IsBehind last y = (last ≤ℤ y.seq_no) × (pos 1 ≤ℤ y.seq_no)

  length-to_list : (pd : Option (DataProcess dbl.Num)) → length (to_list pd) ≤ 1
  length-to_list none = omega arith
  length-to_list (some pd) = omega arith

  appended :
      (pd : Option (DataProcess dbl.Num)) (g : Progress dbl.Num W)
      → negsuc 0 ≤ℤ g.stream.last_seq_no_sent
      → All (IsAhead g.stream.last_seq_no_sent) g.stream.pdlist
      → All (IsReady g.stream.last_seq_no_sent) (to_list pd)
      → pos (length g.stream.pdlist) <ℤ g.stream.max_pdlist_items
      → Admitted pd g (g, map some g.stream.pdlist ++ slot dbl funcs pd)
  appended pd g start ahead ready room = record {
    more = [];
    grows = sym (append-nil g.handled);
    climbs = omega arith;
    started = start;
    ready = rw (queue-append g.stream.pdlist pd) (
        All-append _ g.stream.pdlist (to_list pd)
          (All_mono (IsAhead g.stream.last_seq_no_sent) _ g.stream.pdlist
            (λ y h. late-IsReady _ y h.1) ahead)
          ready);
    fits =
        rw (queue-append g.stream.pdlist pd)
          (omega (arith, length-to_list pd, length-append {0} g.stream.pdlist (to_list pd)));
    same_capacity = refl;
    behind = λ e.
        rw (queue-append g.stream.pdlist pd, e, append-nil)
          (All_mono (IsAhead g.stream.last_seq_no_sent) _ g.stream.pdlist
            (λ y h. (omega arith, omega arith)) ahead);
  }

  forced :
      (rs : Readings) (pd : Option (DataProcess dbl.Num)) (x : DataProcess dbl.Num)
      (xs : List (DataProcess dbl.Num)) (g : Progress dbl.Num W)
      → IsSorted (x ∷ xs)
      → IsAhead g.stream.last_seq_no_sent x
      → pos (length (x ∷ xs)) ≤ℤ g.stream.max_pdlist_items
      → Admitted pd g (handle dbl funcs rs.forced x g, pd ∷ map some xs)
  unfolding handle sent
  forced rs pd x xs g sorted ahead fits = record {
    more = x ∷ [];
    grows = refl;
    climbs = (omega arith, omega arith);
    started = omega arith;
    ready = rw (queue-room xs pd) (
        All-append (IsReady x.seq_no) (to_list pd) xs
          (All_of_mem _ _ (λ y _. late-IsReady _ y (omega arith)))
          (All_of_mem _ _ (λ y _. late-IsReady _ y (omega arith))));
    fits =
        rw (queue-room xs pd) (omega (arith, length-to_list pd, length-append {0} (to_list pd) xs));
    same_capacity = refl;
    behind = λ e.
        rw (queue-room xs pd, e)
          (All_mono (λ y. x.seq_no ≤ℤ y.seq_no) _ xs (λ y h. (h, omega arith)) sorted.0);
  }

  made_room :
      (rs : Readings) (pd : Option (DataProcess dbl.Num)) (xs : List (DataProcess dbl.Num))
      (g : Progress dbl.Num W)
      → negsuc 0 ≤ℤ g.stream.last_seq_no_sent
      → IsSorted xs
      → All (IsAhead g.stream.last_seq_no_sent) xs
      → All (IsReady g.stream.last_seq_no_sent) (to_list pd)
      → pos (length xs) ≤ℤ g.stream.max_pdlist_items
      → pos 1 ≤ℤ g.stream.max_pdlist_items
      → Admitted pd g (make_room dbl funcs rs pd xs g)
  unfolding make_room
  made_room rs pd [] g start sorted ahead ready fits cap = record {
    more = [];
    grows = sym (append-nil g.handled);
    climbs = omega arith;
    started = start;
    ready = rw (queue-append [] pd) ready;
    fits = rw (queue-append [] pd) (omega (arith, length-to_list pd));
    same_capacity = refl;
    behind = λ e. rw (queue-append [] pd, e) tt;
  }
  made_room rs pd (x ∷ xs) g start sorted ahead ready fits cap =
      rw (force-handle rs x g (omega arith)) (forced rs pd x xs g sorted ahead.0 fits)

  pub admit-Admitted :
      (rs : Readings) (p : RawStream dbl.Num) (pd : Option (DataProcess dbl.Num))
      (g : Progress dbl.Num W)
      → IsValid p
      → Started dbl p pd g.stream
      → Admitted pd g (admit dbl funcs rs pd g)
  unfolding admit
  admit-Admitted rs p pd g v s =
      let queue = g.stream.pdlist in
      let sorted : IsSorted queue = rw s.same_queue v.ordered in
      let ahead : All (IsAhead g.stream.last_seq_no_sent) queue = rw s.same_queue s.ahead in
      elim (Bool-cases (must_force dbl rs g.stream)) [
        | inl e ↦ rw e (
            made_room rs pd queue g s.started sorted ahead s.ready
              (rw (s.same_capacity, s.same_queue) v.bounded) (rw s.same_capacity v.capacity))
        | inr e ↦ rw e (appended pd g s.started ahead s.ready (room dbl rs g.stream e))
      ]
