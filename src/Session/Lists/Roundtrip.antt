-- ===== src/Session/Lists/Roundtrip.antt =====
-- The structures of the server, written and read back.
use nmxptool.Prelude.{
  ℕ, zero, suc, ◌+◌, ◌-◌, ◌*◌, ◌≤◌, ◌<◌, ◌≡◌, ◌≢◌, refl, sym, ◌∙◌, ap, subst, ◌==◌, false, Option,
  some, List, [], ◌∷◌, ◌++◌, append-nil, append_assoc, length, get_or, length-append,
  length-replicate, drop, ltb, replicate, All, arith,
}
use nmxptool.Prelude.Each.{All_mono}
use nmxptool.Prelude.Int.{ℤ, pos}
use nmxptool.Text.{Str}
use nmxptool.Word.Laws.{IsInt32}
use nmxptool.Chan.{ChanKey, ChanList}
use nmxptool.Decode.{ntohl_at}
use nmxptool.Transport.Message.{htonl}
use nmxptool.Transport.Message.Roundtrip.{four_back}
use nmxptool.Session.Lists.{
  array_str, read_channel, PrecisItem, read_precis, read_items, read_list, read_channel_list,
  read_precis_list, read_channel_info,
}

-- An array of n bytes that holds a string, with zeros behind it.
abbrev pub array_bytes : ℕ → Str → List ℕ
array_bytes n s = s ++ replicate (n - length s) 0

-- A string of at most n bytes, none of them a terminator.
pub record IsName (n : ℕ) (s : Str) : Type 0 where
  pub inside : length s ≤ n
  pub visible : All (λ c. c ≢ 0) s

pub length-array_bytes : (n : ℕ) (s : Str) → length s ≤ n → length (array_bytes n s) ≡ n
length-array_bytes n s h =
    omega (
      arith,
      length-append s (replicate (n - length s) 0),
      length-replicate {A = ℕ} (n - length s) 0,
    )

array_str-zeros : (n : ℕ) (rest : List ℕ) → array_str n (replicate n 0 ++ rest) ≡ some []
unfolding array_str
array_str-zeros zero rest = refl
array_str-zeros (suc n) rest = refl

array_str-array_bytes :
    (n : ℕ) (s : Str) (rest : List ℕ) → IsName n s → array_str n (array_bytes n s ++ rest) ≡ some s
unfolding array_str
array_str-array_bytes n [] rest h =
    subst (λ k. array_str n (replicate k 0 ++ rest) ≡ some []) (minus_zero n)
      (array_str-zeros n rest)
  where
    minus_zero : (n : ℕ) → n ≡ n - 0
    minus_zero n = omega arith
array_str-array_bytes zero (c ∷ s) rest h = absurd (omega (arith, h.inside))
array_str-array_bytes (suc n) (c ∷ s) rest h = rw (visible c h.visible.0) (
    rw (less n (length s)) (
      rw
        (array_str-array_bytes n s rest
          (record { inside = omega (arith, h.inside); visible = h.visible.1 }))
        refl))
  where
    less : (n m : ℕ) → suc n - suc m ≡ n - m
    less n m = omega arith

    visible : (c : ℕ) → c ≢ 0 → (c == 0) ≡ false
    visible zero n = absurd (n refl)
    visible (suc c) n = ground arith

drop_exact : (n : ℕ) (xs ys : List ℕ) → length xs ≡ n → drop n (xs ++ ys) ≡ ys
drop_exact zero [] ys h = refl
drop_exact zero (x ∷ xs) ys h = absurd (omega arith)
drop_exact (suc n) [] ys h = absurd (omega arith)
drop_exact (suc n) (x ∷ xs) ys h = drop_exact n xs ys (omega arith)

at_least_4 : (m : ℕ) → ltb (suc (suc (suc (suc m)))) 4 ≡ false
at_least_4 m = ground arith

-- An item of `size` bytes that is read back whatever stands behind it.
pub record IsItem {A : Type 0} (read : List ℕ → Option A) (size : ℕ) (write : A → List ℕ) (a : A)
    : Type 0 where
  pub sized : length (write a) ≡ size
  pub back : (rest : List ℕ) → read (write a ++ rest) ≡ some a

abbrev pub items_bytes : {A : Type 0} → (A → List ℕ) → List A → List ℕ
items_bytes write [] = []
items_bytes write (a ∷ items) = write a ++ items_bytes write items

abbrev pub list_bytes : {A : Type 0} → (A → List ℕ) → List A → List ℕ
list_bytes write items = htonl (pos (length items)) ++ items_bytes write items

module _ {A : Type 0} (read : List ℕ → Option A) (size : ℕ) (write : A → List ℕ) where
  read_items-items_bytes :
      (items : List A)
      → All (IsItem read size write) items
      → read_items read size (length items) (items_bytes write items) ≡ some items
  unfolding read_items
  read_items-items_bytes [] h = refl
  read_items-items_bytes (a ∷ items) h = rw (h.0.back (items_bytes write items)) (
      rw
        (ap (read_items read size (length items))
          (drop_exact size (write a) (items_bytes write items) h.0.sized))
        (rw (read_items-items_bytes items h.1) refl))

  length-items_bytes :
      (items : List A)
      → All (IsItem read size write) items
      → length (items_bytes write items) ≡ length items * size
  length-items_bytes [] h = omega arith
  length-items_bytes (a ∷ items) h = omega (
    arith,
    length-append (write a) (items_bytes write items),
    length-items_bytes items h.1,
    h.0.sized,
    one_more (length items) size,
  )
    where
      one_more : (n m : ℕ) → suc n * m ≡ n * m + m
      one_more n m = ground arith

  pub length-list_bytes :
      (items : List A)
      → All (IsItem read size write) items
      → length (list_bytes write items) ≡ 4 + length items * size
  length-list_bytes items h =
      ap (λ n. suc (suc (suc (suc n)))) (length-items_bytes items h) ∙ four (length items * size)
    where
      four : (n : ℕ) → suc (suc (suc (suc n))) ≡ 4 + n
      four n = omega arith

  pub read_list-list_bytes :
      (items : List A)
      → length items < 2147483648
      → All (IsItem read size write) items
      → read_list read size (list_bytes write items) ≡ some items
  unfolding read_list
  read_list-list_bytes items n h = rw (at_least_4 (length (items_bytes write items))) (
      rw (four_back (pos (length items)) (items_bytes write items) (n, omega arith))
        (read_items-items_bytes items h))

abbrev pub channel_bytes : ChanKey → List ℕ
channel_bytes c = htonl c.key ++ array_bytes 12 c.name

pub record IsChannel (c : ChanKey) : Type 0 where
  pub key : IsInt32 c.key
  pub name : IsName 12 c.name

pub channel-IsItem : (c : ChanKey) → IsChannel c → IsItem read_channel 16 channel_bytes c
unfolding read_channel
channel-IsItem c h = record {
  sized = ap (λ n. suc (suc (suc (suc n)))) (length-array_bytes 12 c.name h.name.inside);
  back = λ rest. rw (at_least_4 (length (array_bytes 12 c.name ++ rest))) (
      rw (array_str-array_bytes 12 c.name rest h.name)
        (rw (four_back c.key (array_bytes 12 c.name ++ rest) h.key) refl));
}

abbrev pub precis_bytes : Str → PrecisItem → List ℕ
precis_bytes name p =
    htonl p.key ++ (array_bytes 12 name ++ (htonl p.start_time ++ htonl p.end_time))

pub record IsPrecis (p : PrecisItem) : Type 0 where
  pub key : IsInt32 p.key
  pub start_time : IsInt32 p.start_time
  pub end_time : IsInt32 p.end_time

get_or-drop : (n i j : ℕ) (xs : List ℕ) → j ≡ n + i → get_or xs j 0 ≡ get_or (drop n xs) i 0
get_or-drop zero i j xs h = ap (λ k. get_or xs k 0) (h ∙ none_added i)
  where
    none_added : (i : ℕ) → 0 + i ≡ i
    none_added i = omega arith
get_or-drop (suc n) i j [] h = refl
get_or-drop (suc n) i zero (x ∷ xs) h = absurd (omega arith)
get_or-drop (suc n) i (suc j) (x ∷ xs) h = get_or-drop n i j xs (omega arith)

-- A word that stands behind the first n bytes.
pub ntohl_at-drop : (n : ℕ) (xs : List ℕ) → ntohl_at xs n ≡ ntohl_at (drop n xs) 0
unfolding ntohl_at
ntohl_at-drop n xs = rw (get_or-drop n 0 n xs (omega arith)) (
    rw (get_or-drop n 1 (n + 1) xs refl)
      (rw (get_or-drop n 2 (n + 2) xs refl) (rw (get_or-drop n 3 (n + 3) xs refl) refl)))

drop_more : (n k m : ℕ) (xs ys : List ℕ) → m ≡ n + k → length xs ≡ n → drop m (xs ++ ys) ≡ drop k ys
drop_more n k m [] ys h e = ap (λ i. drop i ys) (omega arith)
drop_more n k zero (x ∷ xs) ys h e = absurd (omega arith)
drop_more zero k (suc m) (x ∷ xs) ys h e = absurd (omega arith)
drop_more (suc n) k (suc m) (x ∷ xs) ys h e = drop_more n k m xs ys (omega arith) (omega arith)

abbrev pub times_bytes : PrecisItem → List ℕ → List ℕ
times_bytes p rest = htonl p.start_time ++ (htonl p.end_time ++ rest)

precis-parts :
    (name : Str) (p : PrecisItem) (rest : List ℕ)
    → length name ≤ 12
    → IsPrecis p
    → (ntohl_at (precis_bytes name p ++ rest) 0 ≡ p.key)
      × (ntohl_at (precis_bytes name p ++ rest) 16 ≡ p.start_time)
      × (ntohl_at (precis_bytes name p ++ rest) 20 ≡ p.end_time)
precis-parts name p rest n h =
    let whole = array_bytes 12 name ++ (htonl p.start_time ++ htonl p.end_time) in
    let moved = append_assoc (array_bytes 12 name) (htonl p.start_time ++ htonl p.end_time) rest in
    let sized = length-array_bytes 12 name n in
    (
      four_back p.key (whole ++ rest) h.key,
      ntohl_at-drop 16 (htonl p.key ++ (whole ++ rest))
          ∙ ap (λ xs. ntohl_at xs 0)
              (ap (drop 12) moved ∙ drop_exact 12 (array_bytes 12 name) (times_bytes p rest) sized)
          ∙ four_back p.start_time (htonl p.end_time ++ rest) h.start_time,
      ntohl_at-drop 20 (htonl p.key ++ (whole ++ rest))
          ∙ ap (λ xs. ntohl_at xs 0)
              (ap (drop 16) moved
                ∙ drop_more 12 4 16 (array_bytes 12 name) (times_bytes p rest) refl sized)
          ∙ four_back p.end_time rest h.end_time,
    )

pub precis-IsItem :
    (name : PrecisItem → Str) (p : PrecisItem)
    → length (name p) ≤ 12
    → IsPrecis p
    → IsItem read_precis 24 (λ q. precis_bytes (name q) q) p
unfolding read_precis
precis-IsItem name p n h = record {
  sized = sized;
  back = λ rest.
      let t = precis-parts (name p) p rest n h in
      rw
        (at_least_24 (length (precis_bytes (name p) p ++ rest))
          (omega (arith, sized, length-append (precis_bytes (name p) p) rest)))
        (rw t.0 (rw t.1 (rw t.2 refl)));
}
  where
    at_least_24 : (m : ℕ) → 24 ≤ m → ltb m 24 ≡ false
    at_least_24 m l = ground arith

    sized : length (precis_bytes (name p) p) ≡ 24
    sized = omega (
      arith,
      length-array_bytes 12 (name p) n,
      length-append (array_bytes 12 (name p)) (htonl p.start_time ++ htonl p.end_time),
    )

-- A list of channels with int32_t keys and names that fit is read back from its bytes.
pub read_channel_list-list_bytes :
    (cs : ChanList)
    → length cs < 2147483648
    → All IsChannel cs
    → read_channel_list (list_bytes channel_bytes cs) ≡ some cs
unfolding read_channel_list
read_channel_list-list_bytes cs n h =
    read_list-list_bytes read_channel 16 channel_bytes cs n
      (All_mono IsChannel (IsItem read_channel 16 channel_bytes) cs channel-IsItem h)

-- A list of times is read back from its bytes, whatever the names are.
pub read_precis_list-list_bytes :
    (name : PrecisItem → Str) (ps : List PrecisItem)
    → ((p : PrecisItem) → length (name p) ≤ 12)
    → length ps < 2147483648
    → All IsPrecis ps
    → read_precis_list (list_bytes (λ q. precis_bytes (name q) q) ps) ≡ some ps
unfolding read_precis_list
read_precis_list-list_bytes name ps n l h =
    read_list-list_bytes read_precis 24 (λ q. precis_bytes (name q) q) ps l
      (All_mono IsPrecis (IsItem read_precis 24 (λ q. precis_bytes (name q) q)) ps
        (λ p. precis-IsItem name p (n p)) h)

abbrev pub channel_info_bytes : ℤ → Str → Str → List ℕ
channel_info_bytes key name network = htonl key ++ (array_bytes 12 name ++ array_bytes 12 network)

pub read_channel_info-bytes :
    (key : ℤ) (name network : Str)
    → IsInt32 key
    → length name ≤ 12
    → IsName 12 network
    → read_channel_info (channel_info_bytes key name network) ≡ some (key, network)
unfolding read_channel_info
read_channel_info-bytes key name network k n h =
    rw (at_least_4 (length (array_bytes 12 name ++ array_bytes 12 network))) (
      rw
        (drop_exact 12 (array_bytes 12 name) (array_bytes 12 network)
          (length-array_bytes 12 name n))
        (rw
          (ap (array_str 12) (sym (append-nil (array_bytes 12 network)))
            ∙ array_str-array_bytes 12 network [] h)
          (rw (four_back key (array_bytes 12 name ++ array_bytes 12 network) k) refl)))
