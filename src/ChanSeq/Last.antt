-- ===== src/ChanSeq/Last.antt =====
-- The time up to which a channel is known.
use nmxptool.Prelude.{
  ◌≡◌, refl, ◌∙◌, ap, Bool, true, false, List, [], ◌∷◌, ◌++◌, All, Bool-cases, inl, inr,
}
use nmxptool.Prelude.Int.{pos, ltb_ℤ}
use nmxptool.Double.{Double}
use nmxptool.Packet.{DataProcess, end_time}
use nmxptool.ChanSeq.{ChanSeq, chanseq_gap}

module _ (dbl : Double) where
  open dbl use {Num}

  -- Whether a packet has samples.
  abbrev pub HasSamples : Bool → DataProcess Num → Type 0
  HasSamples b pd = ltb_ℤ (pos 0) pd.n_samp ≡ b

  -- The entry of a channel after its packets.
  pub feed : ChanSeq Num → List (DataProcess Num) → ChanSeq Num
  feed item [] = item
  feed item (pd ∷ pds) = feed (chanseq_gap dbl item pd).1 pds

  feed-append :
      (item : ChanSeq Num) (ps qs : List (DataProcess Num))
      → feed item (ps ++ qs) ≡ feed (feed item ps) qs
  unfolding feed
  feed-append item [] qs = refl
  feed-append item (p ∷ ps) qs = feed-append (chanseq_gap dbl item p).1 ps qs

  feed_idle :
      (item : ChanSeq Num) (qs : List (DataProcess Num))
      → All (HasSamples false) qs
      → feed item qs ≡ item
  unfolding feed chanseq_gap
  feed_idle item [] h = refl
  feed_idle item (q ∷ qs) h = rw h.0 (feed_idle item qs h.1)

  gap_known :
      (item : ChanSeq Num) (pd : DataProcess Num)
      → HasSamples true pd
      → ((chanseq_gap dbl item pd).1.last_time ≡ end_time dbl pd)
        × ((chanseq_gap dbl item pd).1.significant ≡ true)
  unfolding chanseq_gap
  gap_known item pd h = elim (Bool-cases item.significant) [
    | inl e ↦ rw h (rw e (refl, refl))
    | inr e ↦ rw h (rw e (refl, refl))
  ]

  -- After any packets the entry is significant and its time is the end of the last packet that had
  -- samples, with packets without samples behind it and whatever gaps and overlaps before it.
  pub feed-last_time :
      (item : ChanSeq Num) (ps qs : List (DataProcess Num)) (pd : DataProcess Num)
      → HasSamples true pd
      → All (HasSamples false) qs
      → ((feed item (ps ++ pd ∷ qs)).last_time ≡ end_time dbl pd)
        × ((feed item (ps ++ pd ∷ qs)).significant ≡ true)
  unfolding feed
  feed-last_time item ps qs pd h k =
      let e =
        feed-append item ps (pd ∷ qs) ∙ feed_idle (chanseq_gap dbl (feed item ps) pd).1 qs k in
      let t = gap_known (feed item ps) pd h in
      (ap (λ c. c.last_time) e ∙ t.0, ap (λ c. c.significant) e ∙ t.1)
