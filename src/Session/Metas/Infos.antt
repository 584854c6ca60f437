-- ===== src/Session/Metas/Infos.antt =====
-- The requests of nmxp_getMetaChannelList for the networks of the channels, on a connection.
use nmxptool.Prelude.{
  ℕ, ◌<◌, ◌==◌, ◌≡◌, refl, sym, ◌∙◌, ap, Bool, inl, inr, some, List, [], ◌∷◌, ◌++◌, append-nil,
  append_assoc, length, All, Bool-cases, if◌then◌else◌,
}
use nmxptool.Prelude.Each.{All_mono}
use nmxptool.Prelude.Int.{ℤ}
use nmxptool.Chan.Meta.{MetaChan}
use nmxptool.Decode.{returned}
use nmxptool.Transport.{Socket}
use nmxptool.Transport.Stream.{IsStream}
use nmxptool.Transport.Duplex.{IsDuplex, message_of, send_message-sent}
use nmxptool.Transport.Message.{send_message}
use nmxptool.Session.Dialog.{Run, then_run, until_ready}
use nmxptool.Session.Dialog.Stream.{replies_bytes}
use nmxptool.Session.Metas.{
  channel_number_from_key, take_channel_info, channel_info_request, msg_channel_info_request,
  request_infos,
}
use nmxptool.Session.Metas.Stream.{
  IsType, replies_of, after, Takes, until_ready-replies_of, Info, IsInfo, info_bytes, hear_info,
  info-Takes,
}

-- What a server answers: the keys for which a network is asked, and the answers for each.
abbrev pub asks : ℤ → Bool
asks key = channel_number_from_key key == 0

module _ (type : ℤ) (infos : ℤ → List Info) where
  abbrev pub info_replies : ℤ → List nmxptool.Session.Dialog.Stream.Reply
  info_replies key = replies_of take_channel_info info_bytes type hear_info (infos key)

  abbrev pub infos_bytes : List ℤ → List ℕ → List ℕ
  infos_bytes [] rest = rest
  infos_bytes (key ∷ keys) rest =
      let others = infos_bytes keys rest in
      if asks key then replies_bytes (info_replies key) others else others

  abbrev pub infos_asked : List ℤ → List ℕ
  infos_asked [] = []
  infos_asked (key ∷ keys) =
      let others = infos_asked keys in
      if asks key
      then message_of msg_channel_info_request (channel_info_request key) ++ others
      else others

  abbrev pub infos_heard : List ℤ → List MetaChan → List MetaChan
  infos_heard [] l = l
  infos_heard (key ∷ keys) l =
      infos_heard keys
        (if asks key then after take_channel_info info_bytes type hear_info l (infos key) else l)

module _ (sock : Socket) (stream : IsStream sock) (duplex : IsDuplex sock stream) where
  open sock use {State}
  open stream use {content}
  open duplex use {sent}

  -- For each key with channel number 0, in the order of the list, one request is sent and its answers are
  -- taken into the list.
  pub request_infos-Stored :
      (type : ℤ) (infos : ℤ → List Info) (rounds : ℕ) (keys : List ℤ) (s : State)
      (l : List MetaChan)
      → (rest : List ℕ) → IsType type
      → ((key : ℤ) → All IsInfo (infos key))
      → ((key : ℤ) → length (infos key) < rounds)
      → content s ≡ infos_bytes type infos keys rest
      → (s' : State) × (request_infos sock rounds keys s l
          ≡ some (returned (infos_heard type infos keys l, s')))
        × (content s' ≡ rest)
        × (sent s' ≡ sent s ++ infos_asked type infos keys)
  unfolding request_infos
  request_infos-Stored type infos rounds [] s l rest t h n e =
      (s, refl, e, sym (append-nil (sent s)))
  request_infos-Stored type infos rounds (key ∷ keys) s l rest t h n e =
      let others = infos_bytes type infos keys rest in
      let request = message_of msg_channel_info_request (channel_info_request key) in
      elim (Bool-cases (asks key)) [
        | inl asked ↦
            let sending =
              send_message-sent sock stream duplex s msg_channel_info_request
                (channel_info_request key) in
            let here =
              sending.1
              ∙ e
              ∙ ap (λ b. if b then replies_bytes (info_replies type infos key) others else others)
                  asked in
            let d =
              until_ready-replies_of take_channel_info info_bytes type hear_info sock stream duplex
                rounds (send_message sock s msg_channel_info_request (channel_info_request key)).1 l
                (infos key) others (n key) t
                (All_mono IsInfo (Takes take_channel_info info_bytes type hear_info) (infos key)
                  (info-Takes type) (h key))
                here in
            let heard = after take_channel_info info_bytes type hear_info l (infos key) in
            let r = request_infos-Stored type infos rounds keys d.0 heard rest t h n d.2 in
            rw asked (
              r.0,
              ap (λ o. then_run o (λ r. request_infos sock rounds keys r.1 r.0)) d.1 ∙ r.1,
              r.2,
              r.3
                  ∙ ap (λ x. x ++ infos_asked type infos keys) (d.3 ∙ sending.2)
                  ∙ append_assoc (sent s) request (infos_asked type infos keys),
            )
        | inr quiet ↦
            let here =
              e
              ∙ ap (λ b. if b then replies_bytes (info_replies type infos key) others else others)
                  quiet in
            rw quiet (request_infos-Stored type infos rounds keys s l rest t h n here)
      ]
