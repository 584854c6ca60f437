-- ===== src/Request/Pace/Order.antt =====
-- The batches of a sequence of calls.
use nmxptool.Prelude.{
  ℕ, zero, suc, ◌+◌, ◌≤◌, ◌<◌, ◌≡◌, refl, sym, ◌∙◌, ap, inl, inr, true, false, List, [], ◌∷◌, ◌++◌,
  append_assoc, append-nil, length, length-take, length-drop, take, drop, ltb, Bool-cases, ltb→lt,
  lt→ltb, nil_of_length, arith,
}
use nmxptool.Prelude.Int.{ℤ, pos_part, leb_ℤ}
use nmxptool.Chan.{ChanList}
use nmxptool.Request.Pace.{Timeval, Pace, elapsed, begun, next_batch}

module _ {A : Type 0} where
  take-rest : (n : ℕ) (xs : List A) → take n xs ++ drop (length (take n xs)) xs ≡ xs
  take-rest zero xs = refl
  take-rest (suc n) [] = refl
  take-rest (suc n) (x ∷ xs) = ap (λ ys. x ∷ ys) (take-rest n xs)

  drop-add : (i k j : ℕ) (xs : List A) → j ≡ i + k → drop j xs ≡ drop k (drop i xs)
  drop-add zero k j xs h = ap (λ n. drop n xs) (h ∙ none_added k)
    where
      none_added : (k : ℕ) → 0 + k ≡ k
      none_added k = omega arith
  drop-add (suc i) k zero xs h = absurd (omega arith)
  drop-add (suc i) k (suc j) [] h = no_more k
    where
      no_more : (k : ℕ) → [] ≡ drop {A = A} k []
      no_more zero = refl
      no_more (suc k) = refl
  drop-add (suc i) k (suc j) (x ∷ xs) h = drop-add i k j xs (omega arith)

module _ (size n_usec : ℤ) (channels : ChanList) where
  -- The batches of calls at given times, and the variables after them.
  abbrev pub batches : List Timeval → Pace → ChanList
  batches [] p = []
  batches (now ∷ nows) p = let b = next_batch size n_usec now channels p in b.0 ++ batches nows b.1

  abbrev pub pace_after : List Timeval → Pace → Pace
  pace_after [] p = p
  pace_after (now ∷ nows) p = pace_after nows (next_batch size n_usec now channels p).1

  begun-index : (p : Pace) → (begun p).index ≡ p.index
  unfolding begun
  begun-index p = elim (Bool-cases p.first_time) [ inl e ↦ rw e refl | inr e ↦ rw e refl ]

  next_batch-rest :
      (now : Timeval) (p : Pace)
      → let b = next_batch size n_usec now channels p in
        b.0 ++ drop b.1.index channels ≡ drop p.index channels
  unfolding next_batch
  next_batch-rest now p = elim (Bool-cases (ltb p.index (length channels))) [
    | inl e ↦ rw e (elim (Bool-cases (leb_ℤ n_usec (elapsed n_usec now p))) [
      | inl f ↦ rw f (
          ap (λ ys. take (pos_part size) (drop p.index channels) ++ ys)
            (drop-add p.index (length (take (pos_part size) (drop p.index channels))) _ channels
              refl)
          ∙ take-rest (pos_part size) (drop p.index channels))
      | inr f ↦ rw f (ap (λ i. drop i channels) (begun-index p))
    ])
    | inr e ↦ rw e refl
  ]

  -- Whenever the calls come, their batches and the channels that are left are, in this order, the channels
  -- that were left before: none is left out, and none requested twice.
  pub batches-rest :
      (nows : List Timeval) (p : Pace)
      → batches nows p ++ drop (pace_after nows p).index channels ≡ drop p.index channels
  batches-rest [] p = refl
  batches-rest (now ∷ nows) p =
      let b = next_batch size n_usec now channels p in
      append_assoc b.0 (batches nows b.1) (drop (pace_after nows b.1).index channels)
      ∙ ap (λ ys. b.0 ++ ys) (batches-rest nows b.1)
      ∙ next_batch-rest now p

  -- Each call comes when the interval since the last batch is over.
  abbrev pub AreDue : List Timeval → Pace → Type 0
  AreDue [] p = Unit
  AreDue (now ∷ nows) p =
      (leb_ℤ n_usec (elapsed n_usec now p) ≡ true)
      × AreDue nows (next_batch size n_usec now channels p).1

  next_batch-due :
      (now : Timeval) (p : Pace)
      → 0 < pos_part size
      → leb_ℤ n_usec (elapsed n_usec now p) ≡ true
      → p.index < length channels
      → p.index < (next_batch size n_usec now channels p).1.index
  unfolding next_batch
  next_batch-due now p h d l = rw (lt→ltb p.index (length channels) l) (
      rw d (
        omega (
          arith,
          length-take (pos_part size) (drop p.index channels),
          length-drop p.index channels,
        )))

  next_batch-done :
      (now : Timeval) (p : Pace)
      → length channels ≤ p.index
      → (next_batch size n_usec now channels p).1 ≡ p
  unfolding next_batch
  next_batch-done now p h = rw (past p.index (length channels) h) refl
    where
      past : (a b : ℕ) → b ≤ a → ltb a b ≡ false
      past a b h = ground arith

  done-by :
      (nows : List Timeval) (p : Pace)
      → 0 < pos_part size
      → AreDue nows p
      → length channels ≤ p.index + length nows
      → length channels ≤ (pace_after nows p).index
  done-by [] p h d l = omega arith
  done-by (now ∷ nows) p h d l = elim (Bool-cases (ltb p.index (length channels))) [
    | inl e ↦
        done-by nows (next_batch size n_usec now channels p).1 h d.1
          (omega (arith, next_batch-due now p h d.0 (ltb→lt p.index (length channels) e)))
    | inr e ↦ done-by nows (next_batch size n_usec now channels p).1 h d.1 (
        omega (
          arith,
          ap (λ q. q.index) (next_batch-done now p (over p.index (length channels) e)),
          over p.index (length channels) e,
        ))
  ]
    where
      over : (a b : ℕ) → ltb a b ≡ false → b ≤ a
      over a b e = ground arith

  -- With a batch of at least one channel, as many calls as channels are left, each when the interval is over,
  -- request all of them, each once and in the order of the list.
  pub batches-all :
      (nows : List Timeval) (p : Pace)
      → 0 < pos_part size
      → AreDue nows p
      → length channels ≤ p.index + length nows
      → batches nows p ≡ drop p.index channels
  batches-all nows p h d l =
      sym (append-nil (batches nows p))
      ∙ ap (λ ys. batches nows p ++ ys)
          (sym (
            nil_of_length (drop (pace_after nows p).index channels) (
              omega (arith, length-drop (pace_after nows p).index channels, done-by nows p h d l))))
      ∙ batches-rest nows p
