-- ===== src/RawStream/History.antt =====
-- A raw stream buffer over a whole session: the calls of nmxp_raw_stream_manage that
-- src/nmxptool.c makes for one channel, one after the other.
use nmxptool.Prelude.{◌≡◌, Option, none, some, List, [], ◌∷◌, ◌++◌, All, arith}
use nmxptool.Prelude.Int.{ℤ, pos, ◌≤ℤ◌, ◌*ℤ◌}
use nmxptool.Double.{Double}
use nmxptool.Packet.{DataProcess}
use nmxptool.RawStream.{RawStream, Readings, Progress, init, manage}
use nmxptool.RawStream.Order.{Ascends, Ascends-append, Climbs, Climbs-append, Climbs-of_Ascends}
use nmxptool.RawStream.Valid.{IsValid, IsNumbered}
use nmxptool.RawStream.Manage.{Sorts, manage-Ascends}
use nmxptool.RawStream.Timeout.{timeout-Climbs}

module _ (dbl : Double) where
  -- A fresh buffer is valid, if the tolerable latency is a second at least.
  pub init-IsValid : (latency timeout : ℤ) → pos 1 ≤ℤ latency → IsValid (init dbl latency timeout)
  unfolding init ◌*ℤ◌
  init-IsValid latency timeout h = ground arith

  -- One call: what the clock says, and the packet or NULL.
  pub record Call : Type 0 where
    pub readings : Readings
    pub packet : Option (DataProcess dbl.Num)

  -- Every packet of the session has a number; every call brings a packet.
  abbrev pub AllNumbered : List Call → Type 0
  AllNumbered = All (λ c. IsNumbered c.packet)

  abbrev pub IsArrival : Call → Type 0
  IsArrival c = (pd : DataProcess dbl.Num) × (c.packet ≡ some pd) × (pos 0 ≤ℤ pd.seq_no)

  module _ {W : Type 0} (funcs : List (DataProcess dbl.Num → W → W))
      (qsort : List (DataProcess dbl.Num) → List (DataProcess dbl.Num)) where
    -- The calls of a session; the logs are joined.
    pub run : List Call → RawStream dbl.Num → W → Progress dbl.Num W
    run [] p w = record { stream = p; world = w; handled = []; discarded = [] }
    run (c ∷ cs) p w =
        let q = manage dbl funcs qsort (c.readings) (c.packet) p w in
        let r = run cs (q.stream) (q.world) in
        record {
          stream = r.stream;
          world = r.world;
          handled = q.handled ++ r.handled;
          discarded = q.discarded ++ r.discarded;
        }

    module _ (sorted : Sorts qsort) where
      call-Climbs :
          (rs : Readings) (a : Option (DataProcess dbl.Num)) (p : RawStream dbl.Num) (w : W)
          → IsValid p
          → IsNumbered a
          → let q = manage dbl funcs qsort rs a p w in
            IsValid q.stream × Climbs p.last_seq_no_sent q.handled q.stream.last_seq_no_sent
      call-Climbs rs none p w v n = timeout-Climbs dbl funcs qsort sorted rs p w v
      call-Climbs rs (some a) p w v n =
          let (valid, a) = manage-Ascends dbl funcs qsort sorted rs a p w v n in
          (valid, Climbs-of_Ascends _ _ _ _ (omega arith) a)

      -- A session of packets with numbers that are not negative and of time-outs, from a valid
      -- buffer and with a qsort() that sorts, never handles a packet with a smaller number than one
      -- before, and leaves a valid buffer.
      pub run-Climbs :
          (cs : List Call) (p : RawStream dbl.Num) (w : W)
          → IsValid p
          → AllNumbered cs
          → let q = run cs p w in
            IsValid q.stream × Climbs p.last_seq_no_sent q.handled q.stream.last_seq_no_sent
      unfolding run
      run-Climbs [] p w v n = (v, omega arith)
      run-Climbs (c ∷ cs) p w v n =
          let (valid, a) = call-Climbs (c.readings) (c.packet) p w v n.0 in
          let (done, b) = run-Climbs cs _ _ valid n.1 in (done, Climbs-append _ _ _ _ _ a b)

      arrival-Ascends :
          (c : Call) (p : RawStream dbl.Num) (w : W)
          → IsValid p
          → IsArrival c
          → let q = manage dbl funcs qsort (c.readings) (c.packet) p w in
            IsValid q.stream × Ascends p.last_seq_no_sent q.handled q.stream.last_seq_no_sent
      arrival-Ascends c p w v (pd, e, n) =
          rw e (manage-Ascends dbl funcs qsort sorted (c.readings) pd p w v n)

      -- A session without time-outs, whose packets have numbers that are not negative, from a valid
      -- buffer and with a qsort() that sorts, handles its packets by ascending numbers, none of
      -- them twice, and leaves a valid buffer.
      pub run-Ascends :
          (cs : List Call) (p : RawStream dbl.Num) (w : W)
          → IsValid p
          → All IsArrival cs
          → let q = run cs p w in
            IsValid q.stream × Ascends p.last_seq_no_sent q.handled q.stream.last_seq_no_sent
      unfolding run
      run-Ascends [] p w v n = (v, omega arith)
      run-Ascends (c ∷ cs) p w v n =
          let (valid, a) = arrival-Ascends c p w v n.0 in
          let (done, b) = run-Ascends cs _ _ valid n.1 in (done, Ascends-append _ _ _ _ _ a b)
