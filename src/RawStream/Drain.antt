-- ===== src/RawStream/Drain.antt =====
-- The loop of nmxp_raw_stream_manage that handles packets until the first gap: its induction rule.
use nmxptool.Prelude.{
  ℕ, suc, ◌+◌, ◌<◌, ◌≡◌, inl, inr, true, false, List, [], ◌∷◌, arith, leb→le, Bool-cases, ==_iff,
}
use nmxptool.Prelude.Int.{ℤ, pos, pos_part, neg_part, ◌-ℤ◌, ◌≤ℤ◌, leb_ℤ, eqb_ℤ, -ℤ_parts}
use nmxptool.Double.{Double}
use nmxptool.Packet.{DataProcess}
use nmxptool.RawStream.{Readings, Progress, handle, discard, drain}

-- The number follows `last` at once; it leaves a gap.
abbrev pub IsNext : ℤ → ℤ → Type 0
IsNext last n = pos_part n + neg_part last ≡ pos_part last + neg_part n + 1

abbrev pub IsGap : ℤ → ℤ → Type 0
IsGap last n = pos_part last + neg_part n + 1 < pos_part n + neg_part last

stale_diff : (n last : ℤ) → leb_ℤ (n -ℤ last) (pos 0) ≡ true → n ≤ℤ last
stale_diff n last h = omega (arith, leb→le _ _ h, -ℤ_parts n last)

IsNext-diff : (n last : ℤ) → eqb_ℤ (n -ℤ last) (pos 1) ≡ true → IsNext last n
IsNext-diff n last h = omega (arith, (==_iff _ _).0 h, -ℤ_parts n last)

IsGap-diff :
    (n last : ℤ)
    → leb_ℤ (n -ℤ last) (pos 0) ≡ false
    → eqb_ℤ (n -ℤ last) (pos 1) ≡ false
    → IsGap last n
IsGap-diff n last h k = ground (arith, -ℤ_parts n last)

module _ (dbl : Double) {W : Type 0} (funcs : List (DataProcess dbl.Num → W → W))
    (rs : Readings) where
  abbrev pub Motive : Type 1
  Motive =
      List (DataProcess dbl.Num)
      → Progress dbl.Num W
      → Progress dbl.Num W × List (DataProcess dbl.Num)
      → Type 0

  -- Each packet is stale, due, or behind a gap.
  pub drain_ind :
      (P : Motive)
      → ((g : Progress dbl.Num W) → P [] g (g, []))
      → ((x : DataProcess dbl.Num) (xs : List (DataProcess dbl.Num)) (g : Progress dbl.Num W)
            (r : Progress dbl.Num W × List (DataProcess dbl.Num))
          → x.seq_no ≤ℤ g.stream.last_seq_no_sent
          → P xs (discard dbl funcs x g) r
          → P (x ∷ xs) g r)
      → ((now : ℤ) (x : DataProcess dbl.Num) (xs : List (DataProcess dbl.Num))
            (g : Progress dbl.Num W) (r : Progress dbl.Num W × List (DataProcess dbl.Num))
          → IsNext g.stream.last_seq_no_sent x.seq_no
          → P xs (handle dbl funcs now x g) r
          → P (x ∷ xs) g r)
      → ((x : DataProcess dbl.Num) (xs : List (DataProcess dbl.Num)) (g : Progress dbl.Num W)
          → IsGap g.stream.last_seq_no_sent x.seq_no
          → P (x ∷ xs) g (g, x ∷ xs))
      → (j : ℕ) (queue : List (DataProcess dbl.Num)) (g : Progress dbl.Num W)
      → P queue g (drain dbl funcs rs j queue g)
  unfolding drain
  drain_ind P done stale due gap j [] g = done g
  drain_ind P done stale due gap j (x ∷ xs) g =
      elim (Bool-cases (leb_ℤ (x.seq_no -ℤ g.stream.last_seq_no_sent) (pos 0))) [
        | inl e ↦ rw e (
            stale x xs g _ (stale_diff _ _ e)
              (drain_ind P done stale due gap (suc j) xs (discard dbl funcs x g)))
        | inr e ↦ elim (Bool-cases (eqb_ℤ (x.seq_no -ℤ g.stream.last_seq_no_sent) (pos 1))) [
          | inl n ↦
              rw (e, n)
                (due (rs.handled j) x xs g _ (IsNext-diff _ _ n)
                  (drain_ind P done stale due gap (suc j) xs (handle dbl funcs (rs.handled j) x g)))
          | inr n ↦ rw (e, n) (gap x xs g (IsGap-diff _ _ e n))
        ]
      ]
