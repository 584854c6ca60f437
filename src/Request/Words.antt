-- ===== src/Request/Words.antt =====
-- The request for channels, read back word by word.
use nmxptool.Prelude.{
  ℕ, true, ◌≡◌, refl, ◌∙◌, ap, ◌<◌, List, [], ◌∷◌, ◌++◌, length, map, All, arith,
}
use nmxptool.Prelude.Int.{ℤ, pos}
use nmxptool.Word.{load_4, signed_32}
use nmxptool.Word.Laws.{IsInt32}
use nmxptool.Chan.{ChanList, word32}
use nmxptool.Transport.Message.{htonl}
use nmxptool.Transport.Message.Roundtrip.{joined, word32_lt, signed-word32}
use nmxptool.Request.{key_bytes, add_channels_body}

-- The big-endian words of a message.
abbrev pub words : List ℕ → List ℤ
words (a ∷ b ∷ c ∷ d ∷ xs) =
    signed_32 (load_4 true (record { b0 = a; b1 = b; b2 = c; b3 = d })) ∷ words xs
words xs = []

words-htonl : (z : ℤ) (xs : List ℕ) → IsInt32 z → words (htonl z ++ xs) ≡ z ∷ words xs
words-htonl z xs h =
    ap (λ y. y ∷ words xs) (ap signed_32 (joined (word32 z) (word32_lt z)) ∙ signed-word32 z h)

words-key_bytes :
    (cs : ChanList) (xs : List ℕ)
    → All (λ c. IsInt32 c.key) cs
    → words (key_bytes cs ++ xs) ≡ map (λ c. c.key) cs ++ words xs
unfolding key_bytes
words-key_bytes [] xs h = refl
words-key_bytes (c ∷ cs) xs h =
    words-htonl c.key (key_bytes cs ++ xs) h.0 ∙ ap (λ ys. c.key ∷ ys) (words-key_bytes cs xs h.1)

-- For int32_t keys and settings and less than 2 ^ 31 channels, the request holds the number of the
-- channels, their keys in the order of the list and the three settings, as words of four bytes.
pub words-add_channels_body :
    (cs : ChanList) (short_term_completion out_format buffer_flag : ℤ)
    → length cs < 2147483648
    → All (λ c. IsInt32 c.key) cs
    → IsInt32 short_term_completion
    → IsInt32 out_format
    → IsInt32 buffer_flag
    → words (add_channels_body cs short_term_completion out_format buffer_flag)
      ≡ pos (length cs)
        ∷ (map (λ c. c.key) cs ++ short_term_completion ∷ out_format ∷ buffer_flag ∷ [])
unfolding add_channels_body
words-add_channels_body cs s o b n k hs ho hb =
    words-htonl (pos (length cs)) _ (n, omega arith)
    ∙ ap (λ ys. pos (length cs) ∷ ys)
        (words-key_bytes cs _ k
          ∙ ap (λ ys. map (λ c. c.key) cs ++ ys)
              (words-htonl s (htonl o ++ htonl b) hs
                ∙ ap (λ ys. s ∷ ys)
                    (words-htonl o (htonl b) ho ∙ ap (λ ys. o ∷ ys) (words-htonl b [] hb))))
