-- ===== src/RawStream/Start.antt =====
-- nmxp_raw_stream_manage, "First time" and the test for a full buffer, on a valid buffer.
use nmxptool.Prelude.{
  ◌≡◌, refl, inl, inr, false, Option, none, some, List, [], ◌∷◌, ◌++◌, map, length, ap, All, arith,
  Bool-cases,
}
use nmxptool.Prelude.Int.{pos, negsuc, ◌-ℤ◌, ◌≤ℤ◌, ◌<ℤ◌, eqb_ℤ, -ℤ_parts}
use nmxptool.Double.{Double}
use nmxptool.Packet.{DataProcess}
use nmxptool.RawStream.{RawStream, Readings, start_at, is_full, must_force, compact}
use nmxptool.RawStream.Drained.{IsReady}
use nmxptool.RawStream.Order.{IsAhead}
use nmxptool.RawStream.Valid.{
  IsValid, IsNumbered, to_list, late-IsReady, none-IsAhead, fresh, not_fresh,
}

module _ (dbl : Double) where
  pub compact-map : (xs : List (DataProcess dbl.Num)) → compact dbl (map some xs) ≡ xs
  unfolding compact
  compact-map [] = refl
  compact-map (x ∷ xs) = ap (◌∷◌ x) (compact-map xs)

  pub compact-append :
      (xs ys : List (Option (DataProcess dbl.Num)))
      → compact dbl (xs ++ ys) ≡ compact dbl xs ++ compact dbl ys
  unfolding compact
  compact-append [] ys = refl
  compact-append (none ∷ xs) ys = compact-append xs ys
  compact-append (some x ∷ xs) ys = ap (◌∷◌ x) (compact-append xs ys)

  -- After "First time" the queue is still ahead, and the new packet may be handled.
  pub record Started (p : RawStream dbl.Num) (pd : Option (DataProcess dbl.Num))
      (q : RawStream dbl.Num) : Type 0 where
    pub same_queue : q.pdlist ≡ p.pdlist
    pub same_capacity : q.max_pdlist_items ≡ p.max_pdlist_items
    pub grown : p.last_seq_no_sent ≤ℤ q.last_seq_no_sent
    pub started : negsuc 0 ≤ℤ q.last_seq_no_sent
    pub ahead : All (IsAhead q.last_seq_no_sent) p.pdlist
    pub ready : All (IsReady q.last_seq_no_sent) (to_list pd)

  pub start_at-Started :
      (rs : Readings) (p : RawStream dbl.Num) (pd : Option (DataProcess dbl.Num))
      → IsValid p
      → IsNumbered pd
      → Started p pd (start_at dbl rs p pd)
  unfolding start_at
  start_at-Started rs p none v n = record {
    same_queue = refl;
    same_capacity = refl;
    grown = omega arith;
    started = v.started;
    ahead = v.ahead;
    ready = tt;
  }
  start_at-Started rs p (some pd) v n = elim (Bool-cases (eqb_ℤ p.last_seq_no_sent (negsuc 0))) [
    | inl e ↦
        let first : p.last_seq_no_sent <ℤ pos 0 = fresh p.last_seq_no_sent e in
        elim (Bool-cases (eqb_ℤ p.timeoutrecv (pos 0))) [
          | inl t ↦
              rw (e, t)
                (record {
                  same_queue = refl;
                  same_capacity = refl;
                  grown = omega (arith, v.started, -ℤ_parts pd.seq_no (pos 1));
                  started = omega (arith, -ℤ_parts pd.seq_no (pos 1));
                  ahead =
                      none-IsAhead p.last_seq_no_sent (pd.seq_no -ℤ pos 1) p.pdlist first v.ahead;
                  ready = (λ _. omega (arith, -ℤ_parts pd.seq_no (pos 1)), tt);
                })
          | inr t ↦
              rw (e, t)
                (record {
                  same_queue = refl;
                  same_capacity = refl;
                  grown = omega arith;
                  started = omega arith;
                  ahead = none-IsAhead p.last_seq_no_sent (pos 0) p.pdlist first v.ahead;
                  ready = (late-IsReady (pos 0) pd (omega arith), tt);
                })
        ]
    | inr e ↦ rw e (record {
      same_queue = refl;
      same_capacity = refl;
      grown = omega arith;
      started = v.started;
      ahead = v.ahead;
      ready = (late-IsReady p.last_seq_no_sent pd (not_fresh p.last_seq_no_sent e v.started), tt);
    })
  ]

  -- `p->n_pdlist < p->max_pdlist_items`, where the packet is appended.
  pub room :
      (rs : Readings) (p : RawStream dbl.Num)
      → must_force dbl rs p ≡ false
      → pos (length p.pdlist) <ℤ p.max_pdlist_items
  unfolding must_force is_full
  room rs p h = ground arith
