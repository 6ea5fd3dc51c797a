-- ===== src/Limpet/Transfer/Arrival.antt =====
-- utils/runlimpet.c: what send_message_to_other_limpet sends, read_message_from_other_limpet reads.
use kbus.Prelude.{
  ==_iff, subst, append-nil, ℕ, suc, true, ◌+◌, ◌-◌, ◌^◌, ◌<◌, ◌≤◌, ◌≡◌, ◌≢◌, refl, inl, inr, ap,
  ◌∙◌, sym, Option, none, some, List, [], ◌∷◌, ◌++◌, map, length, length-append, length-take,
  length-replicate, All, arith, ◌==◌, if◌then◌else◌, set, take, replicate, Bool-cases,
}
use kbus.CString.{strncmp_eq, u32_bytes}
use kbus.Size.{padded_name_len, padded_data_len, padded_name_len_lem}
use kbus.Header.{u32_at, msg_start_guard, msg_end_guard}
use kbus.Synthetic.{replier_bind_event}
use kbus.Libkbus.Messages.{UserMsg, name_ptr, data_at}
use kbus.Limpet.Wire.{
  Socket, words_bytes, words_of, convert_event, header_words, words_header,
  unserialise_message_header, send_message_to_other_limpet, read_end_guard, read_data, read_name,
  read_message_from_other_limpet,
}
use kbus.Limpet.Amending.{is_bind_event}
use kbus.Limpet.Words.{
  words_of-words_bytes, length-words_bytes, u32_at-u32_bytes, strncmp_eq-take, set-append,
}
use kbus.Limpet.Events.{
  IsByteOrder, fit_words, words_back, convert_event_back, length-convert_event,
}
use kbus.Limpet.Streams.{IsReliable, recv_whole_lem}
use kbus.Limpet.Transfer.{
  IsSendable, padded_name, padded, received, array_of, on_wire, sent_data, sent, message-Sends,
  length-padded,
}

-- The header alone.
bare : UserMsg → UserMsg
bare msg = record msg { name = none; data_ptr = none; rest = [] }

header_back : (msg : UserMsg) → words_header (header_words msg) ≡ bare msg
unfolding words_header header_words bare
header_back msg = refl

length-taken :
    (msg : UserMsg) → IsSendable msg → length (take msg.name_len (name_ptr msg)) ≡ msg.name_len
length-taken msg v =
    let there = v.name_there in length-take msg.name_len (name_ptr msg) ∙ ground arith

-- The name with its padding is what is read for it, and its terminating zero is there.
length-padded_name :
    (msg : UserMsg) → IsSendable msg → length (padded_name msg) ≡ padded_name_len msg.name_len
length-padded_name msg v =
    let pad = padded_name_len msg.name_len - msg.name_len in
    omega (
      arith,
      length-append {0} (take msg.name_len (name_ptr msg)) (replicate pad 0),
      length-taken msg v,
      length-replicate {0} {A = ℕ} pad 0,
      padded_name_len_lem msg.name_len v.name_small,
    )

terminated :
    (msg : UserMsg) → IsSendable msg → set (padded_name msg) msg.name_len 0 ≡ padded_name msg
terminated msg v =
    let name = take msg.name_len (name_ptr msg) in
    let more : ℕ = padded_name_len msg.name_len - msg.name_len - 1 in
    let one_more : padded_name_len msg.name_len - msg.name_len ≡ suc more =
      omega (arith, padded_name_len_lem msg.name_len v.name_small) in
    rw one_more (
      ap (λ n. set (name ++ 0 ∷ replicate more 0) n 0) (sym (length-taken msg v))
      ∙ set-append name (replicate more 0))

module _ (S : Socket) (R : IsReliable S) (htonl ntohl : ℕ → ℕ) (O : IsByteOrder htonl ntohl) where
  -- Reading, one part after the other, of what is pending.
  Reads : (S.State → S.State × Option UserMsg) → List ℕ → UserMsg → Type 0
  Reads read bytes msg =
      (s : S.State) → R.pending s ≡ bytes → ((read s).1 ≡ some msg) × (R.pending (read s).0 ≡ [])

  last_guard : List ℕ
  last_guard = u32_bytes (htonl msg_end_guard)

  guard-Reads : (msg : UserMsg) → Reads (λ s. read_end_guard S htonl ntohl s msg) last_guard msg
  unfolding read_end_guard Reads last_guard
  guard-Reads msg s next =
      let got = recv_whole_lem S R s 4 last_guard [] (next ∙ sym (append-nil last_guard)) refl in
      let right : (ntohl (u32_at last_guard 0) == msg_end_guard) ≡ true = (==_iff _ _).1 (
        ap ntohl (u32_at-u32_bytes (htonl msg_end_guard) [] (O.fits msg_end_guard (omega arith)))
        ∙ O.back msg_end_guard (omega arith)) in
      (rw (got.0, read_end_guard) (rw right), got.1)

  length-on_wire :
      (msg : UserMsg) → IsSendable msg → length (on_wire htonl msg) ≡ padded_data_len msg.data_len
  unfolding on_wire
  length-on_wire msg v = elim (Bool-cases (is_bind_event msg)) [
    | inl event ↦ rw event (
        length-padded msg (convert_event htonl (data_at msg)) v.data_small
          (omega (arith, v.data_there, length-convert_event htonl (data_at msg))))
    | inr plain ↦ rw plain (length-padded msg (data_at msg) v.data_small v.data_there)
  ]

  data_back :
      (msg : UserMsg)
      → IsSendable msg
      → msg.data_len ≢ 0
      → (if is_bind_event msg then convert_event ntohl (on_wire htonl msg) else on_wire htonl msg)
        ≡ padded msg (data_at msg)
  unfolding on_wire
  data_back msg v some_data = elim (Bool-cases (is_bind_event msg)) [
    | inr plain ↦ rw plain
    | inl event ↦
        let enough = v.event event some_data in
        let after : List ℕ = replicate (padded_data_len msg.data_len - msg.data_len) 0 in
        let cut : 12 + (msg.data_len - 12) ≡ msg.data_len = omega arith in
        let long : 12 ≤ length (data_at msg) = omega (arith, v.data_there) in
        rw event (
          subst
            (λ n.
              convert_event ntohl (take n (convert_event htonl (data_at msg)) ++ after)
              ≡ take n (data_at msg) ++ after)
            cut
            (convert_event_back htonl ntohl O (data_at msg) after (msg.data_len - 12) v.data_bytes
              long))
  ]

  -- The name that is read tells as much of a bind event as the one that was sent.
  event_seen :
      (msg : UserMsg)
      → IsSendable msg
      → strncmp_eq msg.name_len (padded_name msg) replier_bind_event ≡ is_bind_event msg
  unfolding is_bind_event
  event_seen msg v =
      strncmp_eq-take msg.name_len (name_ptr msg) replier_bind_event
        (replicate (padded_name_len msg.name_len - msg.name_len) 0) v.name_there

  data-Reads :
      (msg : UserMsg) (v : IsSendable msg)
      → Reads
          (λ s. read_data S htonl ntohl s (bare msg) (padded_name msg))
          (sent_data htonl msg ++ last_guard)
          (received msg)
  unfolding read_data Reads bare received sent_data
  data-Reads msg v s next = elim (Bool-cases (msg.data_len == 0)) [
    | inl no_data ↦
        let guard : R.pending s ≡ last_guard = next ∙ rw no_data in
        rw no_data (guard-Reads _ s guard)
    | inr some_data ↦
        let there : msg.data_len ≢ 0 = ground arith in
        let after : R.pending s ≡ on_wire htonl msg ++ last_guard = next ∙ rw some_data in
        let got =
          recv_whole_lem S R s (padded_data_len msg.data_len) (on_wire htonl msg) last_guard after
            (length-on_wire msg v) in
        rw some_data
          (rw got.0 (rw (event_seen msg v) (rw (data_back msg v there) (guard-Reads _ _ got.1))))
  ]

  name-Reads :
      (msg : UserMsg) (v : IsSendable msg)
      → Reads
          (λ s. read_name S htonl ntohl s (bare msg))
          (padded_name msg ++ (sent_data htonl msg ++ last_guard))
          (received msg)
  unfolding read_name Reads bare
  name-Reads msg v s next =
      let got =
        recv_whole_lem S R s (padded_name_len msg.name_len) (padded_name msg)
          (sent_data htonl msg ++ last_guard) next (length-padded_name msg v) in
      let start : (msg.start_guard == msg_start_guard) ≡ true = (==_iff _ _).1 v.start in
      let finish : (msg.end_guard == msg_end_guard) ≡ true = (==_iff _ _).1 v.finish in
      rw (start, finish) (rw got.0 (rw (terminated msg v) (data-Reads msg v _ got.1)))

  length-array_of : (msg : UserMsg) → length (array_of htonl msg) ≡ 16
  unfolding array_of header_words
  length-array_of msg = refl

  array-fits : (msg : UserMsg) → IsSendable msg → All (λ w. w < 2 ^ 32) (array_of htonl msg)
  unfolding array_of
  array-fits msg v = fit_words htonl ntohl O (header_words msg) v.fields

  array_back : (msg : UserMsg) → IsSendable msg → map ntohl (array_of htonl msg) ≡ header_words msg
  unfolding array_of
  array_back msg v = words_back htonl ntohl O (header_words msg) v.fields

  header-Reads :
      (msg : UserMsg)
      → IsSendable msg
      → unserialise_message_header ntohl (words_of 16 (words_bytes (array_of htonl msg))) ≡ bare msg
  unfolding unserialise_message_header
  header-Reads msg v =
      let words = array_of htonl msg in
      ap (λ n. words_header (map ntohl (words_of n (words_bytes words))))
        (sym (length-array_of msg))
      ∙ ap (λ b. words_header (map ntohl (words_of (length words) b)))
          (sym (append-nil (words_bytes words)))
      ∙ ap (λ w. words_header (map ntohl w)) (words_of-words_bytes words [] (array-fits msg v))
      ∙ ap words_header (array_back msg v)
      ∙ header_back msg

  message-Reads :
      (msg : UserMsg) (v : IsSendable msg)
      → Reads (λ s. read_message_from_other_limpet S htonl ntohl s) (sent htonl msg) (received msg)
  unfolding read_message_from_other_limpet Reads sent last_guard
  message-Reads msg v s next =
      let array = words_bytes (array_of htonl msg) in
      let long : length array ≡ 64 =
        omega (arith, length-words_bytes (array_of htonl msg), length-array_of msg) in
      let got = recv_whole_lem S R s 64 array _ next long in
      let rest =
        got.1
        ∙ ap (λ g. padded_name msg ++ (sent_data htonl msg ++ u32_bytes (htonl g))) v.finish in
      rw (got.0, read_message_from_other_limpet) (rw (header-Reads msg v) (name-Reads msg v _ rest))

  -- A message that can be sent, is sent to the other limpet over a connection on which nothing is
  -- pending, and the other limpet reads it: the same header, the name and the data with their
  -- padding, and nothing is left over. So it is for bind events too, whose data is sent in network
  -- order.
  pub transfer :
      (s : S.State) (msg : UserMsg)
      → IsSendable msg
      → R.pending s ≡ []
      → (s' : S.State) × (send_message_to_other_limpet S htonl ntohl s msg ≡ some s')
        × ((read_message_from_other_limpet S htonl ntohl s').1 ≡ some (received msg))
        × (R.pending (read_message_from_other_limpet S htonl ntohl s').0 ≡ [])
  unfolding Reads
  transfer s msg v quiet =
      let gone = message-Sends S R htonl ntohl O msg v s in
      let come = message-Reads msg v gone.0 (gone.2 ∙ ap (λ p. p ++ sent htonl msg) quiet) in
      (gone.0, gone.1, come.0, come.1)
