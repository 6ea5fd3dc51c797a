-- ===== src/Limpet/Wire.antt =====
-- How a limpet sends a message to the other one: kbus_serialise_message_header,
-- kbus_unserialise_message_header, kbus_limpet_ReplierBindEvent_hton and
-- kbus_limpet_ReplierBindEvent_ntoh of libkbus/limpet.c, and send_message_to_other_limpet and
-- read_message_from_other_limpet of utils/runlimpet.c. `htonl` and `ntohl` are parameters, and so is
-- the socket. Allocation succeeds.
use kbus.Prelude.{
  ℕ, zero, suc, ◌-◌, ◌*◌, not, ◌||◌, Option, none, some, List, [], ◌∷◌, ◌++◌, map, flatten, ◌==◌,
  ltb, if◌then◌else◌, length, get_or, set, take, drop, replicate, sub_u32,
}
use kbus.CString.{strncmp_eq, u32_bytes}
use kbus.Size.{padded_name_len, padded_data_len}
use kbus.Header.{msg_start_guard, msg_end_guard, u32_at}
use kbus.Synthetic.{replier_bind_event}
use kbus.Libkbus.Messages.{UserMsg, name_ptr, data_at}

-- KBUS_SERIALISED_HDR_LEN
abbrev pub serialised_hdr_len : ℕ
serialised_hdr_len = 16

-- The array of kbus_serialise_message_header before `htonl`.
unfoldable pub header_words : UserMsg → List ℕ
header_words msg =
    msg.start_guard ∷ msg.id.network_id ∷ msg.id.serial_num ∷ msg.in_reply_to.network_id
    ∷ msg.in_reply_to.serial_num ∷ msg.to ∷ msg.from ∷ msg.orig_from.network_id
    ∷ msg.orig_from.local_id ∷ msg.final_to.network_id ∷ msg.final_to.local_id ∷ msg.extra
    ∷ msg.flags ∷ msg.name_len ∷ msg.data_len ∷ msg.end_guard ∷ []

-- kbus_serialise_message_header
unfoldable pub serialise_message_header : (ℕ → ℕ) → UserMsg → List ℕ
serialise_message_header htonl msg = map htonl (header_words msg)

-- The header that an array stands for after `ntohl`.
unfoldable pub words_header : List ℕ → UserMsg
words_header serial = record {
  start_guard = get_or serial 0 0;
  id = record { network_id = get_or serial 1 0; serial_num = get_or serial 2 0 };
  in_reply_to = record { network_id = get_or serial 3 0; serial_num = get_or serial 4 0 };
  to = get_or serial 5 0;
  from = get_or serial 6 0;
  orig_from = record { network_id = get_or serial 7 0; local_id = get_or serial 8 0 };
  final_to = record { network_id = get_or serial 9 0; local_id = get_or serial 10 0 };
  extra = get_or serial 11 0;
  flags = get_or serial 12 0;
  name_len = get_or serial 13 0;
  data_len = get_or serial 14 0;
  name = none;
  data_ptr = none;
  end_guard = get_or serial 15 0;
  rest = [];
}

-- kbus_unserialise_message_header
unfoldable pub unserialise_message_header : (ℕ → ℕ) → List ℕ → UserMsg
unserialise_message_header ntohl serial = words_header (map ntohl serial)

-- An array of words in memory, and the words that some bytes are.
unfoldable pub words_bytes : List ℕ → List ℕ
words_bytes words = flatten (map u32_bytes words)

unfoldable pub words_of : ℕ → List ℕ → List ℕ
words_of zero bytes = []
words_of (suc n) bytes = u32_at bytes 0 ∷ words_of n (drop 4 bytes)

-- kbus_limpet_ReplierBindEvent_hton and kbus_limpet_ReplierBindEvent_ntoh, on the data.
unfoldable pub convert_event : (ℕ → ℕ) → List ℕ → List ℕ
convert_event convert event = words_bytes (map convert (words_of 3 event)) ++ drop 12 event

-- `send` gives nothing where it fails; how much it has sent is not looked at. `recv` gives what it
-- has received.
pub record Socket : Type 1 where
  pub State : Type 0
  pub send : State → List ℕ → Option State
  pub recv : State → ℕ → State × List ℕ

infixl 6 ◌>>=◌
abbrev pub ◌>>=◌ : {A B : Type 0} → Option A → (A → Option B) → Option B
none >>= next = none
some a >>= next = next a

module _ (S : Socket) where
  open S use {State, send, recv}

  -- The padding that is sent if there is any.
  unfoldable pub send_padding : State → ℕ → Option State
  send_padding s n = if ltb 0 n then send s (replicate n 0) else some s

  -- `recv` with MSG_WAITALL, which is to give all `n` bytes.
  unfoldable pub recv_whole : State → ℕ → State × Option (List ℕ)
  recv_whole s n =
      let (s', bytes) = recv s n in (s', if length bytes == n then some bytes else none)

module _ (S : Socket) (htonl ntohl : ℕ → ℕ) where
  open S use {State, send}

  -- The data of a message, if it has any.
  unfoldable pub send_data : UserMsg → State → Option State
  send_data msg s =
      let event = strncmp_eq msg.name_len (name_ptr msg) replier_bind_event in
      let bytes = if event then convert_event htonl (data_at msg) else data_at msg in
      if msg.data_len == 0
      then some s
      else (send s (take msg.data_len bytes) >>= λ s'.
          send_padding S s' (sub_u32 (padded_data_len msg.data_len) msg.data_len))

  -- send_message_to_other_limpet
  unfoldable pub send_message_to_other_limpet : State → UserMsg → Option State
  send_message_to_other_limpet s msg =
      let array = serialise_message_header htonl msg in
      send s (words_bytes array)
      >>= (λ s1. send s1 (take msg.name_len (name_ptr msg)))
      >>= (λ s2. send_padding S s2 (sub_u32 (padded_name_len msg.name_len) msg.name_len))
      >>= send_data msg
      >>= (λ s4. send s4 (u32_bytes (get_or array (serialised_hdr_len - 1) 0)))

  -- read_message_from_other_limpet from "And read a final end guard".
  unfoldable pub read_end_guard : State → UserMsg → State × Option UserMsg
  read_end_guard s msg =
      let (s', received) = recv_whole S s 4 in
      (
        s',
        elim received [
          | none ↦ none
          | some final ↦ if ntohl (u32_at final 0) == msg_end_guard then some msg else none
        ],
      )

  -- The same from `if (new_msg->data_len)`.
  unfoldable pub read_data : State → UserMsg → List ℕ → State × Option UserMsg
  read_data s msg name =
      let (s', received) = recv_whole S s (padded_data_len msg.data_len) in
      let event = strncmp_eq msg.name_len name replier_bind_event in
      if msg.data_len == 0
      then read_end_guard s (record msg { name = some name })
      else elim received [
        | none ↦ (s', none)
        | some bytes ↦ read_end_guard s' (record msg {
          name = some name;
          data_ptr = some (if event then convert_event ntohl bytes else bytes);
        })
      ]

  -- The same from the tests of the guards.
  unfoldable pub read_name : State → UserMsg → State × Option UserMsg
  read_name s msg =
      let (s', received) = recv_whole S s (padded_name_len msg.name_len) in
      if not (msg.start_guard == msg_start_guard) || not (msg.end_guard == msg_end_guard)
      then (s, none)
      else elim received [
        | none ↦ (s', none)
        | some name ↦ read_data s' msg (set name msg.name_len 0)
      ]

  -- read_message_from_other_limpet
  unfoldable pub read_message_from_other_limpet : State → State × Option UserMsg
  read_message_from_other_limpet s =
      let (s', received) = recv_whole S s (serialised_hdr_len * 4) in
      elim received [
        | none ↦ (s', none)
        | some array ↦
            read_name s' (unserialise_message_header ntohl (words_of serialised_hdr_len array))
      ]
