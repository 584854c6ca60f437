-- ===== src/RawStream/Drained.antt =====
-- What the loop of nmxp_raw_stream_manage leaves behind: an ascending run of handled packets and a
-- queue that starts after a gap.
use nmxptool.Prelude.{
  ℕ, ◌≤◌, ◌≡◌, ◌∙◌, refl, List, [], ◌∷◌, ◌++◌, length, append-nil, append_assoc, sym, All, arith,
}
use nmxptool.Prelude.Each.{All_mono}
use nmxptool.Prelude.Int.{ℤ, pos, negsuc, pos_part, neg_part, ◌≤ℤ◌, ◌<ℤ◌}
use native.Mathlib.Decide.{dec_lt}
use nmxptool.Double.{Double}
use nmxptool.Packet.{DataProcess}
use nmxptool.RawStream.{Readings, Progress, handle, discard, drain, sent}
use nmxptool.RawStream.Drain.{IsNext, IsGap, drain_ind}
use nmxptool.RawStream.Order.{IsSorted, Ascends, IsAhead}

module _ {Num : Type 0} where
  -- A packet of the queue that follows -1 is the first packet of all.
  abbrev pub IsReady : ℤ → DataProcess Num → Type 0
  IsReady last x = last <ℤ pos 0 → IsNext last x.seq_no

  pub record Drained {W : Type 0} (queue : List (DataProcess Num)) (g : Progress Num W)
      (r : Progress Num W × List (DataProcess Num)) : Type 0 where
    pub more : List (DataProcess Num)
    pub grows : r.0.handled ≡ g.handled ++ more
    pub climbs : Ascends g.stream.last_seq_no_sent more r.0.stream.last_seq_no_sent
    pub ahead : All (IsAhead r.0.stream.last_seq_no_sent) r.1
    pub ordered : IsSorted r.1
    pub fewer : length r.1 ≤ length queue
    pub capacity : r.0.stream.max_pdlist_items ≡ g.stream.max_pdlist_items
    pub from_start : g.stream.last_seq_no_sent ≤ℤ r.0.stream.last_seq_no_sent

  gap_late : (last : ℤ) (x : DataProcess Num) → IsGap last x.seq_no → IsReady last x → pos 0 ≤ℤ last
  gap_late last x h r = elim (dec_lt (pos_part last) (neg_part last)) [
    | yes k ↦ absurd (omega (arith, r (omega arith)))
    | no k ↦ omega arith
  ]

  all-IsAhead :
      (last : ℤ) (x : DataProcess Num) (xs : List (DataProcess Num))
      → pos 0 ≤ℤ last
      → IsGap last x.seq_no
      → All (λ y. x.seq_no ≤ℤ y.seq_no) xs
      → All (IsAhead last) xs
  all-IsAhead last x [] s h k = tt
  all-IsAhead last x (y ∷ ys) s h k = ((omega arith, s), all-IsAhead last x ys s h k.1)

module _ (dbl : Double) {W : Type 0} (funcs : List (DataProcess dbl.Num → W → W))
    (rs : Readings) where
  abbrev Claim :
      List (DataProcess dbl.Num)
      → Progress dbl.Num W
      → Progress dbl.Num W × List (DataProcess dbl.Num)
      → Type 0
  Claim queue g r =
      negsuc 0 ≤ℤ g.stream.last_seq_no_sent
      → IsSorted queue
      → All (IsReady g.stream.last_seq_no_sent) queue
      → Drained queue g r

  drained_nil : (g : Progress dbl.Num W) → Claim [] g (g, [])
  drained_nil g start s a = record {
    more = [];
    grows = sym (append-nil g.handled);
    climbs = omega arith;
    ahead = tt;
    ordered = tt;
    fewer = omega arith;
    capacity = refl;
    from_start = omega arith;
  }

  drained_stale :
      (x : DataProcess dbl.Num) (xs : List (DataProcess dbl.Num)) (g : Progress dbl.Num W)
      (r : Progress dbl.Num W × List (DataProcess dbl.Num))
      → x.seq_no ≤ℤ g.stream.last_seq_no_sent
      → Claim xs (discard dbl funcs x g) r
      → Claim (x ∷ xs) g r
  unfolding discard
  drained_stale x xs g r h ih start s a =
      let d = ih start s.1 a.1 in
      record {
        more = d.more;
        grows = d.grows;
        climbs = d.climbs;
        ahead = d.ahead;
        ordered = d.ordered;
        fewer = omega (arith, d.fewer);
        capacity = d.capacity;
        from_start = d.from_start;
      }

  drained_due :
      (now : ℤ) (x : DataProcess dbl.Num) (xs : List (DataProcess dbl.Num)) (g : Progress dbl.Num W)
      (r : Progress dbl.Num W × List (DataProcess dbl.Num))
      → IsNext g.stream.last_seq_no_sent x.seq_no
      → Claim xs (handle dbl funcs now x g) r
      → Claim (x ∷ xs) g r
  unfolding handle sent
  drained_due now x xs g r h ih start s a =
      let ready : All (IsReady x.seq_no) xs = All_mono _ _ xs (λ y _ k. absurd (omega arith)) a.1 in
      let d = ih (omega arith) s.1 ready in
      record {
        more = x ∷ d.more;
        grows = d.grows ∙ append_assoc g.handled (x ∷ []) d.more;
        climbs = (omega arith, d.climbs);
        ahead = d.ahead;
        ordered = d.ordered;
        fewer = omega (arith, d.fewer);
        capacity = d.capacity;
        from_start = omega (arith, d.from_start);
      }

  drained_gap :
      (x : DataProcess dbl.Num) (xs : List (DataProcess dbl.Num)) (g : Progress dbl.Num W)
      → IsGap g.stream.last_seq_no_sent x.seq_no
      → Claim (x ∷ xs) g (g, x ∷ xs)
  drained_gap x xs g h start s a =
      let z : pos 0 ≤ℤ g.stream.last_seq_no_sent = gap_late g.stream.last_seq_no_sent x h a.0 in
      record {
        more = [];
        grows = sym (append-nil g.handled);
        climbs = omega arith;
        ahead = ((h, z), all-IsAhead g.stream.last_seq_no_sent x xs z h s.0);
        ordered = s;
        fewer = omega arith;
        capacity = refl;
        from_start = omega arith;
      }

  pub drain-Drained :
      (j : ℕ) (queue : List (DataProcess dbl.Num)) (g : Progress dbl.Num W)
      → negsuc 0 ≤ℤ g.stream.last_seq_no_sent
      → IsSorted queue
      → All (IsReady g.stream.last_seq_no_sent) queue
      → Drained queue g (drain dbl funcs rs j queue g)
  drain-Drained = drain_ind dbl funcs rs Claim drained_nil drained_stale drained_due drained_gap
