-- ===== src/Session/Metas/Stream.antt =====
-- The dialogs of nmxp_getMetaChannelList on a connection.
use nmxptool.Prelude.{
  ℕ, ◌≤◌, ◌<◌, ◌≡◌, ◌≢◌, refl, ◌∙◌, ap, ◌==◌, if◌then◌else◌, inl, inr, none, Bool-cases, false,
  some, List, [], ◌∷◌, length, length-append, map, length-map, All, arith,
}
use nmxptool.Prelude.Each.{All_mono}
use nmxptool.Prelude.Int.{ℤ, pos, ltb_ℤ}
use nmxptool.Text.{Str}
use nmxptool.Word.Laws.{IsInt32}
use nmxptool.Chan.{ChanList, data_type_from_key}
use nmxptool.Chan.Meta.{
  MetaChan, sort_name, meta_chan_add, meta_chan_set_times, meta_chan_set_network,
}
use nmxptool.Decode.{Outcome, returned}
use nmxptool.Transport.{Socket}
use nmxptool.Transport.Stream.{IsStream}
use nmxptool.Transport.Duplex.{IsDuplex}
use nmxptool.Request.{max_length_data_buffer}
use nmxptool.Session.Ready.{msg_ready}
use nmxptool.Session.Lists.{PrecisItem, read_channel, read_precis}
use nmxptool.Session.Lists.Roundtrip.{
  IsItem, IsName, IsChannel, IsPrecis, channel-IsItem, precis-IsItem, channel_bytes, precis_bytes,
  list_bytes, length-list_bytes, array_bytes, length-array_bytes, channel_info_bytes,
  read_channel_list-list_bytes, read_precis_list-list_bytes, read_channel_info-bytes,
}
use nmxptool.Session.Dialog.{until_ready}
use nmxptool.Session.Dialog.Stream.{
  Reply, IsReply, replies_bytes, and_then, fold_replies, until_ready-Stored,
}
use nmxptool.Session.Metas.{
  Metas, add_channels, take_channel_list, set_times, take_precis_list, take_channel_info,
}

-- A type that a reply may have.
pub record IsType (type : ℤ) : Type 0 where
  pub word : IsInt32 type
  pub not_zero : type ≢ pos 0
  pub not_ready : type ≢ msg_ready

IsReply-type :
    (type : ℤ) (body : List ℕ)
    → IsType type
    → length body ≤ max_length_data_buffer
    → IsReply (record { type = type; body = body })
IsReply-type type body t h = record {
  word = t.word;
  not_zero = t.not_zero;
  not_ready = t.not_ready;
  fits = h;
}

natural : (n : ℕ) → ltb_ℤ (pos n) (pos 0) ≡ false
natural n = ground arith

-- Replies that hold something each: `read` takes one back.
module _ {A B : Type 0} (f : A → ℤ → List ℕ → Outcome A) (write : B → List ℕ) (type : ℤ)
    (g : A → B → A) where
  abbrev pub replies_of : List B → List Reply
  replies_of bs = map (λ b. record { type = type; body = write b }) bs

  abbrev pub after : A → List B → A
  after a [] = a
  after a (b ∷ bs) = after (g a b) bs

  abbrev pub Takes : B → Type 0
  Takes b =
      ((a : A) → f a (pos (length (write b))) (write b) ≡ returned (g a b))
      × (length (write b) ≤ max_length_data_buffer)

  fold_replies-replies_of :
      (a : A) (bs : List B)
      → All Takes bs
      → fold_replies f a (replies_of bs) ≡ returned (after a bs)
  fold_replies-replies_of a [] h = refl
  fold_replies-replies_of a (b ∷ bs) h =
      ap (λ o. and_then o (λ c. fold_replies f c (replies_of bs))) (h.0.0 a)
      ∙ fold_replies-replies_of (g a b) bs h.1

  replies_of-IsReply : IsType type → (bs : List B) → All Takes bs → All IsReply (replies_of bs)
  replies_of-IsReply t [] h = tt
  replies_of-IsReply t (b ∷ bs) h =
      (IsReply-type type (write b) t h.0.1, replies_of-IsReply t bs h.1)

  module _ (sock : Socket) (stream : IsStream sock) (duplex : IsDuplex sock stream) where
    open sock use {State}
    open stream use {content}
    open duplex use {sent}

    pub until_ready-replies_of :
        (rounds : ℕ) (s : State) (a : A) (bs : List B) (rest : List ℕ)
        → length bs < rounds
        → IsType type
        → All Takes bs
        → content s ≡ replies_bytes (replies_of bs) rest
        → (s' : State) × (until_ready sock f rounds s a ≡ some (returned (after a bs, s')))
          × (content s' ≡ rest)
          × (sent s' ≡ sent s)
    until_ready-replies_of rounds s a bs rest n t h e =
        until_ready-Stored sock stream duplex f rounds s a (after a bs) (replies_of bs) rest
          (omega (arith, length-map {B = Reply} bs (λ b. record { type = type; body = write b })))
          (replies_of-IsReply t bs h) (fold_replies-replies_of a bs h) e

-- A list of channels that one message has room for.
pub record IsChannelReply (cs : ChanList) : Type 0 where
  pub short : length cs ≤ 1022
  pub each : All IsChannel cs

-- The channels of a type, in their order, and their entry into the list by name.
abbrev pub of_type : ℕ → ChanList → ChanList
of_type data_type [] = []
of_type data_type (c ∷ cs) =
    let rest = of_type data_type cs in
    if data_type_from_key c.key == data_type then c ∷ rest else rest

abbrev pub enlist : ChanList → List MetaChan → List MetaChan
enlist [] l = l
enlist (c ∷ cs) l = enlist cs (meta_chan_add l c.key (some c.name) (pos 0) (pos 0) none sort_name)

add_channels-enlist :
    (data_type : ℕ) (cs : ChanList) (l : List MetaChan)
    → add_channels data_type cs l ≡ enlist (of_type data_type cs) l
unfolding add_channels
add_channels-enlist data_type [] l = refl
add_channels-enlist data_type (c ∷ cs) l =
    elim (Bool-cases (data_type_from_key c.key == data_type)) [
      | inl e ↦
          rw (e, add_channels)
            (add_channels-enlist data_type cs
              (meta_chan_add l c.key (some c.name) (pos 0) (pos 0) none sort_name))
      | inr e ↦ rw (e, add_channels) (add_channels-enlist data_type cs l)
    ]

abbrev pub hear_channels : ℕ → Metas → ChanList → Metas
hear_channels data_type a cs = record {
  channels = some cs;
  list = enlist (of_type data_type cs) a.list;
}

pub channels-Takes :
    (data_type : ℕ) (type : ℤ) (cs : ChanList)
    → IsChannelReply cs
    → Takes
        (take_channel_list data_type)
        (list_bytes channel_bytes)
        type
        (hear_channels data_type)
        cs
unfolding take_channel_list
channels-Takes data_type type cs h = (
  λ a. rw (natural (length (list_bytes channel_bytes cs))) (
      rw (read_channel_list-list_bytes cs (omega (arith, h.short)) h.each) (
        ap (λ l. returned (record { channels = some cs; list = l }))
          (add_channels-enlist data_type cs a.list))),
  omega (
    arith,
    h.short,
    length-list_bytes read_channel 16 channel_bytes cs
        (All_mono IsChannel (IsItem read_channel 16 channel_bytes) cs channel-IsItem h.each),
  ),
)

-- A list of times that one message has room for.
pub record IsPrecisReply (ps : List PrecisItem) : Type 0 where
  pub short : length ps ≤ 681
  pub each : All IsPrecis ps

-- Every item with its start and its end.
abbrev pub hear_times : List MetaChan → List PrecisItem → List MetaChan
hear_times l [] = l
hear_times l (p ∷ ps) = hear_times (meta_chan_set_times l p.key p.start_time p.end_time) ps

set_times-hear_times : (ps : List PrecisItem) (l : List MetaChan) → set_times ps l ≡ hear_times l ps
unfolding set_times
set_times-hear_times [] l = refl
set_times-hear_times (p ∷ ps) l =
    set_times-hear_times ps (meta_chan_set_times l p.key p.start_time p.end_time)

pub times-Takes :
    (name : PrecisItem → Str)
    → ((p : PrecisItem) → length (name p) ≤ 12)
    → (type : ℤ) (ps : List PrecisItem) → IsPrecisReply ps
    → Takes take_precis_list (list_bytes (λ p. precis_bytes (name p) p)) type hear_times ps
unfolding take_precis_list
times-Takes name n type ps h = (
  λ a. rw (natural (length (list_bytes (λ p. precis_bytes (name p) p) ps))) (
      rw (read_precis_list-list_bytes name ps n (omega (arith, h.short)) h.each)
        (ap returned (set_times-hear_times ps a))),
  omega (
    arith,
    h.short,
    length-list_bytes read_precis 24 (λ p. precis_bytes (name p) p) ps
        (All_mono IsPrecis (IsItem read_precis 24 (λ q. precis_bytes (name q) q)) ps
          (λ p. precis-IsItem name p (n p)) h.each),
  ),
)

-- The network of a channel.
pub record Info : Type 0 where
  pub key : ℤ
  pub name : Str
  pub network : Str

pub record IsInfo (i : Info) : Type 0 where
  pub key : IsInt32 i.key
  pub name : length i.name ≤ 12
  pub network : IsName 12 i.network

abbrev pub info_bytes : Info → List ℕ
info_bytes i = channel_info_bytes i.key i.name i.network

abbrev pub hear_info : List MetaChan → Info → List MetaChan
hear_info l i = meta_chan_set_network l i.key i.network

pub info-Takes :
    (type : ℤ) (i : Info) → IsInfo i → Takes take_channel_info info_bytes type hear_info i
unfolding take_channel_info
info-Takes type i h = (
  λ a.
      rw (natural (length (info_bytes i)))
        (rw (read_channel_info-bytes i.key i.name i.network h.key h.name h.network) refl),
  omega (
    arith,
    length-append (array_bytes 12 i.name) (array_bytes 12 i.network),
    length-array_bytes 12 i.name h.name,
    length-array_bytes 12 i.network h.network.inside,
  ),
)
