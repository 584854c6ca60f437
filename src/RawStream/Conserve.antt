-- ===== src/RawStream/Conserve.antt =====
-- What nmxp_raw_stream_manage does with the packets and the callbacks: no packet is lost or made up,
-- and the callbacks run on the handled packets, each once and in order.
use mathlib.Core.List.Perm
use mathlib.Core.List.{perm_middle, perm_append_comm}
use nmxptool.Prelude.{
  ℕ, ◌≡◌, refl, inl, inr, Bool, Option, none, some, List, [], ◌∷◌, ◌++◌, append-nil, append_assoc,
  ap, subst, Perm, Bool-cases, arith,
}
use nmxptool.Prelude.Int.{ℤ, pos, ◌-ℤ◌, ltb_ℤ}
use nmxptool.Double.{Double}
use nmxptool.Packet.{DataProcess}
use mathlib.Core.Option as Opt
use nmxptool.RawStream.{
  RawStream, Readings, Progress, copy, start_at, compact, skip_gap, drain, finish, is_some, admit,
  settle, manage, handle, discard, force, make_room, must_force, call_all,
}
use nmxptool.RawStream.Drain.{drain_ind}
use nmxptool.RawStream.Valid.{to_list}
use nmxptool.RawStream.Admit.{queue-append, queue-room}
use nmxptool.RawStream.Manage.{Sorts}

module _ (dbl : Double) {W : Type 0} (funcs : List (DataProcess dbl.Num → W → W)) where
  -- The callbacks run on a list of packets, one packet after the other.
  abbrev pub call_each : List (DataProcess dbl.Num) → W → W
  call_each [] w = w
  call_each (x ∷ xs) w = call_each xs (call_all dbl funcs funcs x w)

  call_each-append :
      (xs ys : List (DataProcess dbl.Num)) (w : W)
      → call_each (xs ++ ys) w ≡ call_each ys (call_each xs w)
  call_each-append [] ys w = refl
  call_each-append (x ∷ xs) ys w = call_each-append xs ys (call_all dbl funcs funcs x w)

  -- Where every packet of a run is: handled, discarded, or still waiting.
  abbrev pub account : Progress dbl.Num W → List (DataProcess dbl.Num) → List (DataProcess dbl.Num)
  account g queue = g.handled ++ (g.discarded ++ queue)

  -- The world is what the callbacks made of `w` on the handled packets.
  abbrev pub IsTraced : W → Progress dbl.Num W → Type 0
  IsTraced w g = g.world ≡ call_each g.handled w

  account-discard :
      (x : DataProcess dbl.Num) (xs : List (DataProcess dbl.Num)) (g : Progress dbl.Num W)
      → account (discard dbl funcs x g) xs ≡ account g (x ∷ xs)
  unfolding discard
  account-discard x xs g = ap (◌++◌ g.handled) (append_assoc g.discarded (x ∷ []) xs)

  account-handle :
      (now : ℤ) (x : DataProcess dbl.Num) (xs : List (DataProcess dbl.Num)) (g : Progress dbl.Num W)
      → Perm (account (handle dbl funcs now x g) xs) (account g (x ∷ xs))
  unfolding handle
  account-handle now x xs g =
      rw (append_assoc g.handled (x ∷ []) (g.discarded ++ xs))
        (Perm.append_left g.handled (Perm.symm (perm_middle g.discarded xs)))

  handle-IsTraced :
      (w : W) (now : ℤ) (x : DataProcess dbl.Num) (g : Progress dbl.Num W)
      → IsTraced w g
      → IsTraced w (handle dbl funcs now x g)
  unfolding handle
  handle-IsTraced w now x g t = rw (t, call_each-append g.handled (x ∷ []) w)

  discard-IsTraced :
      (w : W) (x : DataProcess dbl.Num) (g : Progress dbl.Num W)
      → IsTraced w g
      → IsTraced w (discard dbl funcs x g)
  unfolding discard
  discard-IsTraced w x g t = t

  force-account :
      (rs : Readings) (w : W) (x : DataProcess dbl.Num) (xs : List (DataProcess dbl.Num))
      (g : Progress dbl.Num W)
      → IsTraced w g
      → Perm (account (force dbl funcs rs x g) xs) (account g (x ∷ xs))
        × IsTraced w (force dbl funcs rs x g)
  unfolding force
  force-account rs w x xs g t =
      elim (Bool-cases (ltb_ℤ (pos 0) (x.seq_no -ℤ g.stream.last_seq_no_sent))) [
        | inl e ↦ rw e (account-handle rs.forced x xs g, handle-IsTraced w rs.forced x g t)
        | inr e ↦ rw e (
          subst (Perm (account (discard dbl funcs x g) xs)) (account-discard x xs g) Perm.rfl,
          discard-IsTraced w x g t,
        )
      ]

  room-account :
      (rs : Readings) (w : W) (pd : Option (DataProcess dbl.Num)) (xs : List (DataProcess dbl.Num))
      (g : Progress dbl.Num W)
      → IsTraced w g
      → let (m, slots) = make_room dbl funcs rs pd xs g in
        Perm (account m (compact dbl slots)) (account g (to_list pd ++ xs)) × IsTraced w m
  unfolding make_room
  room-account rs w pd [] g t =
      (rw (queue-append dbl funcs [] pd, append-nil (to_list pd)) Perm.rfl, t)
  room-account rs w pd (x ∷ xs) g t =
      let (p, u) = force-account rs w x (to_list pd ++ xs) g t in
      (
        rw (queue-room dbl funcs xs pd) (
            Perm.trans p (
              Perm.append_left g.handled
                (Perm.append_left g.discarded (Perm.symm (perm_middle (to_list pd) xs))))),
        u,
      )

  -- The queue after "Add pd", with what that handled or discarded, is the old queue and the packet.
  pub admit-account :
      (rs : Readings) (w : W) (pd : Option (DataProcess dbl.Num)) (g : Progress dbl.Num W)
      → IsTraced w g
      → let (m, slots) = admit dbl funcs rs pd g in
        Perm (account m (compact dbl slots)) (account g (to_list pd ++ g.stream.pdlist))
        × IsTraced w m
  unfolding admit
  admit-account rs w pd g t = elim (Bool-cases (must_force dbl rs g.stream)) [
    | inl e ↦ rw e (room-account rs w pd g.stream.pdlist g t)
    | inr e ↦ rw e (
      rw (queue-append dbl funcs g.stream.pdlist pd) (
          Perm.append_left g.handled
            (Perm.append_left g.discarded (perm_append_comm g.stream.pdlist (to_list pd)))),
      t,
    )
  ]

  module _ (rs : Readings) where
    abbrev Claim :
        W
        → List (DataProcess dbl.Num)
        → Progress dbl.Num W
        → Progress dbl.Num W × List (DataProcess dbl.Num)
        → Type 0
    Claim w queue g r = IsTraced w g → Perm (account r.0 r.1) (account g queue) × IsTraced w r.0

    drain-account :
        (w : W) (j : ℕ) (queue : List (DataProcess dbl.Num)) (g : Progress dbl.Num W)
        → Claim w queue g (drain dbl funcs rs j queue g)
    drain-account w =
        drain_ind dbl funcs rs (Claim w) (λ g t. (Perm.rfl, t))
          (λ x xs g r _ ih t.
            let (p, u) = ih (discard-IsTraced w x g t) in
            (subst (Perm (account r.0 r.1)) (account-discard x xs g) p, u))
          (λ now x xs g r _ ih t.
            let (p, u) = ih (handle-IsTraced w now x g t) in
            (Perm.trans p (account-handle now x xs g), u))
          (λ x xs g _ t. (Perm.rfl, t))

  finish-account :
      (r : Progress dbl.Num W × List (DataProcess dbl.Num))
      → account (finish dbl funcs r) (finish dbl funcs r).stream.pdlist ≡ account r.0 r.1
  unfolding finish
  finish-account (g, rest) = refl

  pdlist-start_at :
      (rs : Readings) (p : RawStream dbl.Num) (pd : Option (DataProcess dbl.Num))
      → (start_at dbl rs p pd).pdlist ≡ p.pdlist
  unfolding start_at
  pdlist-start_at rs p none = refl
  pdlist-start_at rs p (some pd) = ground arith

  module _ (qsort : List (DataProcess dbl.Num) → List (DataProcess dbl.Num))
      (sorted : Sorts qsort) where
    settle-account :
        (rs : Readings) (w : W) (arrived : Bool) (m : Progress dbl.Num W)
        (slots : List (Option (DataProcess dbl.Num)))
        → IsTraced w m
        → let q = settle dbl funcs qsort rs arrived (m, slots) in
          Perm (account q q.stream.pdlist) (account m (compact dbl slots)) × IsTraced w q
    unfolding settle finish
    settle-account rs w arrived m slots t =
        let queue = qsort (compact dbl slots) in
        let (p, u) =
          drain-account rs w 0 queue (record m { stream = skip_gap dbl rs arrived m.stream queue })
            t in
        (
          Perm.trans p (
              Perm.append_left m.handled
                (Perm.append_left m.discarded (sorted.permutes (compact dbl slots)))),
          u,
        )

    -- With a qsort() that sorts, every packet that waited or came is handled, discarded or waiting
    -- after a call, as often as before; the callbacks ran on the handled packets and on nothing
    -- else.
    pub manage-account :
        (rs : Readings) (a_pd : Option (DataProcess dbl.Num)) (p : RawStream dbl.Num) (w : W)
        → let q = manage dbl funcs qsort rs a_pd p w in
          Perm
            (q.handled ++ (q.discarded ++ q.stream.pdlist))
            (to_list (Opt.map (copy dbl) a_pd) ++ p.pdlist)
          × (q.world ≡ call_each q.handled w)
    unfolding manage
    manage-account rs a_pd p w =
        let pd = Opt.map (copy dbl) a_pd in
        let g : Progress dbl.Num W = record {
          stream = start_at dbl rs p pd;
          world = w;
          handled = [];
          discarded = [];
        } in
        let (a, t) = admit-account rs w pd g refl in
        let (b, u) = settle-account rs w (is_some dbl funcs pd) _ _ t in
        let q = settle dbl funcs qsort rs (is_some dbl funcs pd) (admit dbl funcs rs pd g) in
        (
          subst (λ xs. Perm (account q q.stream.pdlist) (to_list pd ++ xs))
              (pdlist-start_at rs p pd) (Perm.trans b a),
          u,
        )
