-- ===== src/Limpet/Transfer.antt =====
-- utils/runlimpet.c: the bytes that send_message_to_other_limpet sends.
pub mod Arrival
use kbus.Prelude.{
  ==_iff, subst, append-nil, ℕ, zero, suc, true, false, ◌+◌, ◌-◌, ◌*◌, ◌^◌, ◌<◌, ◌≤◌, ◌≡◌, ◌≢◌,
  refl, inl, inr, ap, ◌∙◌, sym, Option, none, some, List, [], ◌∷◌, ◌++◌, map, append_assoc, length,
  length-append, length-take, length-replicate, All, arith, ◌==◌, if◌then◌else◌, get_or, set, drop,
  take, replicate, sub_u32, Bool-cases,
}
use kbus.CString.{strncmp_eq, u32_bytes}
use kbus.Size.{padded_name_len, padded_data_len, name_pad, data_pad, padded_data_len_lem}
use kbus.Header.{u32_at, msg_start_guard, msg_end_guard}
use kbus.Synthetic.{replier_bind_event}
use kbus.Libkbus.Messages.{UserMsg, name_ptr, data_at}
use kbus.Limpet.Wire.{
  Socket, ◌>>=◌, words_bytes, words_of, convert_event, header_words, words_header,
  serialise_message_header, unserialise_message_header, send_padding, send_data,
  send_message_to_other_limpet, recv_whole, read_end_guard, read_data, read_name,
  read_message_from_other_limpet,
}
use kbus.Limpet.Amending.{is_bind_event}
use kbus.Limpet.Words.{
  words_of-words_bytes, length-words_bytes, u32_at-u32_bytes, strncmp_eq-take, set-append,
}
use kbus.Limpet.Events.{
  IsByteOrder, fit_words, words_back, length-map_words, convert_event_back, length-convert_event,
}
use kbus.Limpet.Streams.{
  IsReliable, Sends, send-Sends, nothing-Sends, >>=-Sends, padding-Sends, recv_whole_lem,
}

-- A message that can be sent: its fields are words, its guards are right, its name and data are as
-- long as it says, and the data of a bind event has its three words.
pub record IsSendable (msg : UserMsg) : Type 0 where
  pub fields : All (λ w. w < 2 ^ 32) (header_words msg)
  pub start : msg.start_guard ≡ msg_start_guard
  pub finish : msg.end_guard ≡ msg_end_guard
  pub name_small : msg.name_len + 4 < 2 ^ 32
  pub data_small : msg.data_len + 3 < 2 ^ 32
  pub name_there : msg.name_len ≤ length (name_ptr msg)
  pub data_there : msg.data_len ≤ length (data_at msg)
  pub data_bytes : All (λ b. b < 256) (data_at msg)
  pub event : is_bind_event msg ≡ true → msg.data_len ≢ 0 → 12 ≤ msg.data_len

-- The name and the data with their padding.
abbrev pub padded_name : UserMsg → List ℕ
padded_name msg =
    take msg.name_len (name_ptr msg) ++ replicate (padded_name_len msg.name_len - msg.name_len) 0

abbrev pub padded : UserMsg → List ℕ → List ℕ
padded msg bytes =
    take msg.data_len bytes ++ replicate (padded_data_len msg.data_len - msg.data_len) 0

pub length-padded :
    (msg : UserMsg) (bytes : List ℕ)
    → msg.data_len + 3 < 2 ^ 32
    → msg.data_len ≤ length bytes
    → length (padded msg bytes) ≡ padded_data_len msg.data_len
length-padded msg bytes small there = omega (
  arith,
  length-append {0} (take msg.data_len bytes)
      (replicate (padded_data_len msg.data_len - msg.data_len) 0),
  taken,
  length-replicate {0} {A = ℕ} (padded_data_len msg.data_len - msg.data_len) 0,
  padded_data_len_lem msg.data_len small,
)
  where
    taken : length (take msg.data_len bytes) ≡ msg.data_len
    taken = length-take msg.data_len bytes ∙ ground arith

-- The message as the other limpet has it: the same header, and its own copies of the name and data.
pub received : UserMsg → UserMsg
received msg = record msg {
  name = some (padded_name msg);
  data_ptr = if msg.data_len == 0 then none else some (padded msg (data_at msg));
  rest = [];
}

module _ (htonl : ℕ → ℕ) where
  pub array_of : UserMsg → List ℕ
  array_of msg = map htonl (header_words msg)

  -- The data as it is sent.
  pub on_wire : UserMsg → List ℕ
  on_wire msg =
      padded msg (if is_bind_event msg then convert_event htonl (data_at msg) else data_at msg)

  pub sent_data : UserMsg → List ℕ
  sent_data msg = if msg.data_len == 0 then [] else on_wire msg

  -- All the bytes of a message.
  pub sent : UserMsg → List ℕ
  sent msg =
      words_bytes (array_of msg)
      ++ (padded_name msg ++ (sent_data msg ++ u32_bytes (htonl msg.end_guard)))

module _ (S : Socket) (R : IsReliable S) (htonl ntohl : ℕ → ℕ) (O : IsByteOrder htonl ntohl) where
  data-Sends :
      (msg : UserMsg)
      → IsSendable msg
      → Sends S R (send_data S htonl ntohl msg) (sent_data htonl msg)
  unfolding send_data sent_data on_wire is_bind_event
  data-Sends msg v = elim (Bool-cases (msg.data_len == 0)) [
    | inl no_data ↦ rw no_data (nothing-Sends S R)
    | inr some_data ↦
        let bytes = if is_bind_event msg then convert_event htonl (data_at msg) else data_at msg in
        let padding = data_pad msg.data_len v.data_small in
        rw (some_data, padding)
          (>>=-Sends S R (λ s. S.send s (take msg.data_len bytes))
            (λ s. send_padding S s (padded_data_len msg.data_len - msg.data_len))
            (take msg.data_len bytes) (replicate (padded_data_len msg.data_len - msg.data_len) 0)
            (send-Sends S R (take msg.data_len bytes))
            (padding-Sends S R (padded_data_len msg.data_len - msg.data_len)))
  ]

  pub message-Sends :
      (msg : UserMsg)
      → IsSendable msg
      → Sends S R (λ s. send_message_to_other_limpet S htonl ntohl s msg) (sent htonl msg)
  unfolding send_message_to_other_limpet serialise_message_header sent array_of header_words
  message-Sends msg v =
      let header = words_bytes (map htonl (header_words msg)) in
      let name = take msg.name_len (name_ptr msg) in
      let pad = padded_name_len msg.name_len - msg.name_len in
      let guard = u32_bytes (htonl msg.end_guard) in
      let to_name =
        >>=-Sends S R (λ s. S.send s header) (λ s. S.send s name) header name
          (send-Sends S R header) (send-Sends S R name) in
      let to_padding =
        >>=-Sends S R _ (λ s. send_padding S s pad) (header ++ name) (replicate pad 0) to_name
          (padding-Sends S R pad) in
      let to_data =
        >>=-Sends S R _ (send_data S htonl ntohl msg) _ (sent_data htonl msg) to_padding
          (data-Sends msg v) in
      let to_guard = >>=-Sends S R _ (λ s. S.send s guard) _ guard to_data (send-Sends S R guard) in
      let regroup : header ++ name ++ replicate pad 0 ++ (sent_data htonl msg) ++ guard
          ≡ sent htonl msg =
        simp append_assoc in
      rw (name_pad msg.name_len v.name_small) (subst (Sends S R _) regroup to_guard)
