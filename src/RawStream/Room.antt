-- ===== src/RawStream/Room.antt =====
-- nmxp_raw_stream_manage, "Add pd and sort array, in case handle the first item", on a valid buffer.
use mathlib.Core.List.{perm_append_comm}
use mathlib.Core.List.Perm
use nmxptool.Prelude.{
  ℕ, ◌≡◌, refl, sym, ap, subst, inl, inr, Option, List, [], ◌∷◌, ◌++◌, append-nil, take, drop, Perm,
  All, arith, Bool-cases, if◌then◌else◌,
}
use nmxptool.Double.{Double}
use nmxptool.Packet.{DataProcess}
use nmxptool.RawStream.{
  RawStream, Readings, Progress, start_at, must_force, compact, handle, make_room, admit,
}
use nmxptool.RawStream.Order.{IsAhead}
use nmxptool.RawStream.Valid.{IsValid, IsNumbered, to_list}
use nmxptool.RawStream.Start.{start_at-Started}
use nmxptool.RawStream.Admit.{force-handle, queue-append, queue-room}

module _ (dbl : Double) {W : Type 0} (funcs : List (DataProcess dbl.Num → W → W)) where
  -- The number of packets that are handled to make room.
  abbrev pub to_force : Readings → RawStream dbl.Num → ℕ
  to_force rs p = if must_force dbl rs p then 1 else 0

  -- After "Add pd": the first `n` packets of the buffer are handled, none is discarded, and the others wait
  -- with the new one.
  abbrev pub IsRoomMade :
      ℕ
      → List (DataProcess dbl.Num)
      → Option (DataProcess dbl.Num)
      → Progress dbl.Num W × List (Option (DataProcess dbl.Num))
      → Type 0
  IsRoomMade n queue pd r =
      (r.0.discarded ≡ [])
      × (r.0.handled ≡ take n queue)
      × Perm (compact dbl r.1) (to_list pd ++ drop n queue)

  -- The beginning of a call.
  abbrev pub call_start :
      Readings → RawStream dbl.Num → Option (DataProcess dbl.Num) → W → Progress dbl.Num W
  call_start rs p pd w = record {
    stream = start_at dbl rs p pd;
    world = w;
    handled = [];
    discarded = [];
  }

  room_made :
      (rs : Readings) (pd : Option (DataProcess dbl.Num)) (queue : List (DataProcess dbl.Num))
      (g : Progress dbl.Num W)
      → g.handled ≡ []
      → g.discarded ≡ []
      → All (IsAhead g.stream.last_seq_no_sent) queue
      → IsRoomMade 1 queue pd (make_room dbl funcs rs pd queue g)
  unfolding make_room handle
  room_made rs pd [] g h d a = (
    d,
    h,
    subst (λ q. Perm q (to_list pd ++ [])) (sym (queue-append dbl funcs [] pd))
        (subst (λ q. Perm (to_list pd) q) (sym (append-nil (to_list pd))) Perm.rfl),
  )
  room_made rs pd (x ∷ xs) g h d a = rw (force-handle dbl funcs rs x g (omega (arith, a.0))) (
    d,
    ap (λ log. log ++ x ∷ []) h,
    subst (λ q. Perm q (to_list pd ++ xs)) (sym (queue-room dbl funcs xs pd)) Perm.rfl,
  )

  -- A valid buffer makes room by handing over its oldest packet, and only if it must: the branch of "It should
  -- not occur", which discards that packet, is not taken. All other packets wait, with the new one, whose
  -- number is not negative.
  pub admit-IsRoomMade :
      (rs : Readings) (p : RawStream dbl.Num) (pd : Option (DataProcess dbl.Num)) (w : W)
      → IsValid p
      → IsNumbered pd
      → IsRoomMade
          (to_force rs (start_at dbl rs p pd))
          p.pdlist
          pd
          (admit dbl funcs rs pd (call_start rs p pd w))
  unfolding admit
  admit-IsRoomMade rs p pd w v n =
      let q = start_at dbl rs p pd in
      let started = start_at-Started dbl rs p pd v n in
      let g = call_start rs p pd w in
      subst (λ queue. IsRoomMade (to_force rs q) queue pd (admit dbl funcs rs pd g))
        started.same_queue
        (elim (Bool-cases (must_force dbl rs q)) [
          | inl e ↦
              rw (e, admit)
                (room_made rs pd q.pdlist g refl refl (rw started.same_queue started.ahead))
          | inr e ↦
              rw (e, admit)
                (
                  refl,
                  refl,
                  subst (λ l. Perm l (to_list pd ++ q.pdlist))
                      (sym (queue-append dbl funcs q.pdlist pd))
                      (perm_append_comm q.pdlist (to_list pd)),
                )
        ])
