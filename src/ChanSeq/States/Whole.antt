-- ===== src/ChanSeq/States/Whole.antt =====
-- The whole file of channel states, saved and loaded.
use nmxptool.Prelude.{
  ℕ, ◌≡◌, refl, sym, ◌∙◌, ap, ap₂, true, false, none, some, List, [], ◌∷◌, ◌++◌, append_assoc,
  length, length-append, map, All, All-append, arith, ==_iff, ◌||◌, if◌then◌else◌, inl, inr,
  Bool-cases,
}
use nmxptool.Prelude.Int.{ℤ, pos, negsuc, eqb_ℤ}
use nmxptool.Double.{Double}
use nmxptool.Text.{Str, same_case, tolower}
use nmxptool.Chan.{ChanKey, ChanList}
use nmxptool.ChanSeq.{ChanSeq}
use nmxptool.Date.{Tm}
use nmxptool.Date.Parse.Line.{length-line_of}
use nmxptool.ChanSeq.States.{
  state_line, save_states, update_entry, update_named, load_states, default_buffered_time, same_num,
}
use nmxptool.ChanSeq.States.Lines.{line, Saved, IsSaved, saved_text}
use nmxptool.ChanSeq.States.Roundtrip.{time_from, restore, load_lines-saved}

abbrev pub channel_of : Saved → ChanKey
channel_of v = record { key = v.key; name = v.name }

abbrev pub channels_of : List Saved → ChanList
channels_of vs = map channel_of vs

-- No name is another one but for case.
abbrev pub AreDistinct : List Saved → Type 0
AreDistinct [] = Unit
AreDistinct (v ∷ vs) = All (λ w. same_case w.name v.name ≡ false) vs × AreDistinct vs

same_case_self : (s : Str) → same_case s s ≡ true
unfolding same_case
same_case_self [] = refl
same_case_self (x ∷ s) = rw ((==_iff (tolower x) (tolower x)).1 refl) (same_case_self s)

module _ (dbl : Double) where
  open dbl use {Num, literal}

  -- The entries whose times are printed as the lines.
  abbrev pub AreSaved : (Num → Str) → List Saved → List (ChanSeq Num) → Type 0
  AreSaved str [] [] = Unit
  AreSaved str [] (q ∷ qs) = ⊥
  AreSaved str (v ∷ vs) [] = ⊥
  AreSaved str (v ∷ vs) (q ∷ qs) =
      (str q.last_time ≡ line v.last)
      × (str q.raw_stream_buffer.last_sample_time ≡ line v.raw)
      × AreSaved str vs qs

  save_states-text :
      (str : Num → Str) (vs : List Saved) (qs : List (ChanSeq Num))
      → All IsSaved vs
      → AreSaved str vs qs
      → save_states dbl str (channels_of vs) qs ≡ some (saved_text vs)
  unfolding save_states
  save_states-text str [] [] h e = refl
  save_states-text str [] (q ∷ qs) h e = absurd e
  save_states-text str (v ∷ vs) [] h e = absurd e
  save_states-text str (v ∷ vs) (q ∷ qs) h e =
      rw (e.0, save_states)
        (rw (e.1, save_states)
          (rw (length-line_of v.last.moment h.0.last.moment, save_states)
            (rw (length-line_of v.raw.moment h.0.raw.moment, save_states)
              (rw (save_states-text str vs qs h.1 e.2) (
                ap₂ (λ last raw. some (state_line v.key v.name last raw ++ saved_text vs)) e.0
                  e.1)))))

  update_named-here :
      (v : Saved) (f : ChanSeq Num → ChanSeq Num) (pre rest : ChanList)
      (qpre qs : List (ChanSeq Num)) (q : ChanSeq Num)
      → length pre ≡ length qpre
      → All (λ c. same_case v.name c.name ≡ false) pre
      → update_named dbl v.name f (pre ++ channel_of v ∷ rest) (qpre ++ q ∷ qs)
        ≡ some (qpre ++ f q ∷ qs)
  unfolding update_named
  update_named-here v f [] rest [] qs q l h = rw (same_case_self v.name) refl
  update_named-here v f [] rest (p ∷ qpre) qs q l h = absurd (omega arith)
  update_named-here v f (c ∷ pre) rest [] qs q l h = absurd (omega arith)
  update_named-here v f (c ∷ pre) rest (p ∷ qpre) qs q l h =
      rw (h.0, update_named)
        (rw (update_named-here v f pre rest qpre qs q (omega arith) h.1, update_named) refl)

  fresh_more :
      (pre : ChanList) (v : Saved) (vs : List Saved)
      → All (λ w. All (λ c. same_case w.name c.name ≡ false) pre) vs
      → All (λ w. same_case w.name v.name ≡ false) vs
      → All (λ w. All (λ c. same_case w.name c.name ≡ false) (pre ++ channel_of v ∷ [])) vs
  fresh_more pre v [] h k = tt
  fresh_more pre v (w ∷ vs) h k = (
    All-append (λ c. same_case w.name c.name ≡ false) pre (channel_of v ∷ []) h.0 (k.0, tt),
    fresh_more pre v vs h.1 k.1,
  )

  -- The time that an entry goes on from: that of the raw data, else that of the other data, else what it was.
  abbrev pub goes_on_from : Num → Num → Num → Num
  goes_on_from noraw raw old =
      let unset = default_buffered_time dbl in
      if same_num dbl raw unset || same_num dbl raw (literal (pos 0) 1)
      then (if same_num dbl noraw unset then old else noraw)
      else raw

  abbrev pub entry_after : ℤ → Num → Num → ChanSeq Num → ChanSeq Num
  entry_after stc noraw raw q = record q {
    last_time = goes_on_from noraw raw q.last_time;
    raw_stream_buffer = record q.raw_stream_buffer {
      last_sample_time = goes_on_from noraw raw q.raw_stream_buffer.last_sample_time;
    };
    after_start_time = if eqb_ℤ stc (negsuc 0) then raw else noraw;
  }

  update_entry-entry_after :
      (stc : ℤ) (noraw raw : Num) (q : ChanSeq Num)
      → update_entry dbl stc noraw raw q ≡ entry_after stc noraw raw q
  unfolding update_entry
  update_entry-entry_after stc noraw raw q =
      elim (Bool-cases (same_num dbl raw (default_buffered_time dbl))) [
        | inl e ↦
            rw (e, update_entry)
              (elim (Bool-cases (same_num dbl noraw (default_buffered_time dbl))) [
                | inl f ↦ rw (f, update_entry) refl
                | inr f ↦ rw (f, update_entry) refl
              ])
        | inr e ↦
            rw (e, update_entry)
              (elim (Bool-cases (same_num dbl raw (literal (pos 0) 1))) [
                | inl g ↦
                    rw (g, update_entry)
                      (elim (Bool-cases (same_num dbl noraw (default_buffered_time dbl))) [
                        | inl f ↦ rw (f, update_entry) refl
                        | inr f ↦ rw (f, update_entry) refl
                      ])
                | inr g ↦ rw (g, update_entry) refl
              ])
      ]

  module _ (timegm : Tm → ℤ) (junk : List ℕ) (now : Tm) (stc : ℤ) where
    -- Every entry with its own two times.
    abbrev pub restored : List Saved → List (ChanSeq Num) → List (ChanSeq Num)
    restored [] qs = qs
    restored (v ∷ vs) [] = []
    restored (v ∷ vs) (q ∷ qs) =
        entry_after stc (time_from dbl timegm junk now v.last) (time_from dbl timegm junk now v.raw)
          q
        ∷ restored vs qs

    restore-restored :
        (pre : ChanList) (qpre : List (ChanSeq Num)) (vs : List Saved) (qs : List (ChanSeq Num))
        → length pre ≡ length qpre
        → length vs ≡ length qs
        → AreDistinct vs
        → All (λ w. All (λ c. same_case w.name c.name ≡ false) pre) vs
        → restore dbl timegm junk now stc (pre ++ channels_of vs) vs (qpre ++ qs)
          ≡ some (qpre ++ restored vs qs)
    restore-restored pre qpre [] qs l m d h = refl
    restore-restored pre qpre (v ∷ vs) [] l m d h = absurd (omega arith)
    restore-restored pre qpre (v ∷ vs) (q ∷ qs) l m d h =
        let f =
          update_entry dbl stc (time_from dbl timegm junk now v.last)
            (time_from dbl timegm junk now v.raw) in
        let one = channel_of v ∷ [] in
        let same = append_assoc pre one (channels_of vs) in
        let again =
          restore-restored (pre ++ one) (qpre ++ f q ∷ []) vs qs
            (omega (arith, length-append pre one, length-append qpre (f q ∷ []))) (omega (arith, m))
            d.1 (fresh_more pre v vs h.1 d.0) in
        ap
          (λ o. elim o [
            | none ↦ none
            | some s ↦ restore dbl timegm junk now stc (pre ++ channels_of (v ∷ vs)) vs s
          ])
          (update_named-here v f pre (channels_of vs) qpre qs q l h.0)
        ∙ ap₂ (λ cs s. restore dbl timegm junk now stc cs vs s) (sym same)
            (sym (append_assoc qpre (f q ∷ []) qs))
        ∙ again
        ∙ ap some (append_assoc qpre (f q ∷ []) (restored vs qs))
        ∙ ap (λ x. some (qpre ++ x ∷ restored vs qs))
            (update_entry-entry_after stc (time_from dbl timegm junk now v.last)
              (time_from dbl timegm junk now v.raw) q)

    nothing_before :
        (vs : List Saved)
        → All (λ (w : Saved). All (λ (c : ChanKey). same_case w.name c.name ≡ false) []) vs
    nothing_before [] = tt
    nothing_before (v ∷ vs) = (tt, nothing_before vs)

    -- When the times of the entries are printed as lines for years from 1900 to 9999 that are no centuries, and the
    -- channels have names of less than 128 bytes, not empty, without blanks and distinct but for case, the text
    -- that is saved, loaded for the same channels, sets each of the entries that the program starts with by
    -- its own two times, when `errno` is neither EINVAL nor ERANGE: it goes on from the time of the raw data,
    -- or, when that is unset or 0, from the other, if it is set, and its start is the time of the raw data with
    -- a short-term completion of -1 and else the other.
    pub load_states-save_states :
        (str : Num → Str) (vs : List Saved) (qs seqs : List (ChanSeq Num))
        → All IsSaved vs
        → AreDistinct vs
        → AreSaved str vs qs
        → length vs ≡ length seqs
        → (text : Str) × (save_states dbl str (channels_of vs) qs ≡ some text)
          × (load_states dbl timegm junk now stc (channels_of vs) text false seqs
              ≡ some (restored vs seqs))
    unfolding load_states
    load_states-save_states str vs qs seqs h d e n = (
      saved_text vs,
      save_states-text str vs qs h e,
      load_lines-saved dbl timegm junk now stc (channels_of vs) (length (saved_text vs)) vs seqs
            (omega arith) h
          ∙ restore-restored [] [] vs seqs refl n d (nothing_before vs),
    )
