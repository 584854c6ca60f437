-- ===== src/ChanSeq/States/Roundtrip.antt =====
-- The channel states that the tool saves are those that it loads.
use nmxptool.Prelude.{
  ℕ, zero, suc, ◌≤◌, ◌≡◌, refl, sym, ◌∙◌, ap, Bool, false, Option, none, some, List, [], ◌∷◌,
  length, length-append, All, arith,
}
use nmxptool.Prelude.Int.{ℤ}
use nmxptool.Double.{Double}
use nmxptool.Text.{Str}
use nmxptool.Chan.{ChanList}
use nmxptool.ChanSeq.{ChanSeq}
use nmxptool.Date.{Tm}
use nmxptool.Date.Parse.Roundtrip.{tm_of, parse_date-date_line}
use nmxptool.ChanSeq.States.{
  fgets, tm_to_time, update_entry, update_named, time_of, times_of, load_scanned, load_line,
  load_lines,
}
use nmxptool.ChanSeq.States.Lines.{
  cons_form, length-saved_line, Dated, IsDated, line, Saved, IsSaved, saved_line, saved_text,
  scan_line-saved, words_fit-saved, fgets-saved,
}

module _ (dbl : Double) (timegm : Tm → ℤ) (junk : List ℕ) (now : Tm) where
  open dbl use {Num}

  -- The time that a date stands for.
  abbrev pub time_from : Dated → Num
  time_from t = tm_to_time dbl timegm (tm_of t.moment t.month t.day now)

  time_of-line :
      (t : Dated)
      → IsDated t
      → time_of dbl timegm junk now false (line t) ≡ some (time_from t, false)
  unfolding time_of
  time_of-line t h =
      rw
        (
          parse_date-date_line t.moment t.month t.day junk now h.moment h.no_century h.day h.jday,
          time_of,
        )
        refl

  module _ (stc : ℤ) (channels : ChanList) where
    -- What each line of the file does, in their order: the entry of the first channel of its name gets its
    -- two times.
    abbrev pub restore : List Saved → List (ChanSeq Num) → Option (List (ChanSeq Num))
    restore [] seqs = some seqs
    restore (v ∷ vs) seqs =
        elim (update_named dbl v.name (update_entry dbl stc (time_from v.last) (time_from v.raw))
          channels seqs) [ none ↦ none | some seqs' ↦ restore vs seqs' ]

    load_line-saved :
        (v : Saved) (seqs : List (ChanSeq Num))
        → IsSaved v
        → load_line dbl timegm junk now stc channels (saved_line v) false seqs
          ≡ elim (update_named dbl v.name
              (update_entry dbl stc (time_from v.last) (time_from v.raw))
              channels
              seqs) [ none ↦ none | some seqs' ↦ some (seqs', false) ]
    unfolding load_line load_scanned times_of
    load_line-saved v seqs h =
        ap (λ w. load_scanned dbl timegm junk now stc channels w false seqs) (scan_line-saved v h)
        ∙ rw (words_fit-saved v h, load_scanned)
            (rw (time_of-line v.last h.last, times_of)
              (rw (time_of-line v.raw h.raw, times_of) refl))

    -- The rounds over one line and those behind it.
    abbrev next_lines : ℕ → Str → Option (List (ChanSeq Num) × Bool) → Option (List (ChanSeq Num))
    next_lines n text none = none
    next_lines n text (some a) = load_lines dbl timegm junk now stc channels n text a.1 a.0

    load_lines-step :
        (n c : ℕ) (text line rest : Str) (seqs : List (ChanSeq Num))
        → fgets 2047 (c ∷ text) ≡ (line, rest)
        → load_lines dbl timegm junk now stc channels (suc n) (c ∷ text) false seqs
          ≡ next_lines n rest (load_line dbl timegm junk now stc channels line false seqs)
    unfolding load_lines
    load_lines-step n c text line rest seqs e =
        ap
          (λ r. elim (load_line dbl timegm junk now stc channels r.0 false seqs) [
            | none ↦ none
            | some a ↦ load_lines dbl timegm junk now stc channels n r.1 a.1 a.0
          ])
          e
        ∙ same (load_line dbl timegm junk now stc channels line false seqs)
      where
        same :
            (o : Option (List (ChanSeq Num) × Bool))
            → (elim o [
              | none ↦ none
              | some a ↦ load_lines dbl timegm junk now stc channels n rest a.1 a.0
            ])
              ≡ next_lines n rest o
        same none = refl
        same (some a) = refl

    pub load_lines-saved :
        (n : ℕ) (vs : List Saved) (seqs : List (ChanSeq Num))
        → length (saved_text vs) ≤ n
        → All IsSaved vs
        → load_lines dbl timegm junk now stc channels n (saved_text vs) false seqs ≡ restore vs seqs
    unfolding load_lines
    load_lines-saved zero [] seqs l h = refl
    load_lines-saved (suc n) [] seqs l h = refl
    load_lines-saved zero (v ∷ vs) seqs l h =
        absurd (omega (arith, l, length-append (saved_line v) (saved_text vs), length-saved_line v))
    load_lines-saved (suc n) (v ∷ vs) seqs l h =
        let (c, text, e) =
          cons_form (saved_text (v ∷ vs))
            (omega (arith, length-append (saved_line v) (saved_text vs), length-saved_line v)) in
        let rest = λ (s : List (ChanSeq Num)).
          load_lines-saved n vs s
            (omega (arith, l, length-append (saved_line v) (saved_text vs), length-saved_line v))
            h.1 in
        ap (λ t. load_lines dbl timegm junk now stc channels (suc n) t false seqs) e
        ∙ load_lines-step n c text (saved_line v) (saved_text vs) seqs
            (ap (fgets 2047) (sym e) ∙ fgets-saved v (saved_text vs) h.0)
        ∙ ap (next_lines n (saved_text vs)) (load_line-saved v seqs h.0)
        ∙ after
            (update_named dbl v.name (update_entry dbl stc (time_from v.last) (time_from v.raw))
              channels seqs)
            rest
      where
        after :
            (o : Option (List (ChanSeq Num)))
            → ((s : List (ChanSeq Num))
                → load_lines dbl timegm junk now stc channels n (saved_text vs) false s
                  ≡ restore vs s)
            → next_lines n
                (saved_text vs)
                (elim o [ none ↦ none | some seqs' ↦ some (seqs', false) ])
              ≡ elim o [ none ↦ none | some seqs' ↦ restore vs seqs' ]
        after none rest = refl
        after (some s) rest = rest s
