-- ===== src/Reading.antt =====
-- Reading a message: kbus_nextmsg, kbus_lenleft and kbus_read of kbus/kbus_main.c. A read hands over
-- bytes as a list, and the copies to user space succeed. The kernel asks for less than 2^31 bytes at a
-- time, so the code's casts of a count to u32 change nothing.
pub mod Unread
pub mod Rounds
pub mod Pieces
pub mod Next
pub mod Lengths
pub mod Left
use kbus.Prelude.{
  ℕ, zero, suc, ◌+◌, ◌-◌, ◌%◌, Bool, true, false, ◌&&◌, Option, none, some, List, [], ◌∷◌, ◌++◌,
  ◌==◌, ltb, if◌then◌else◌, length, get_or, take, drop, flatten, replicate, lesser, has_bit,
  add_u32, sub_u32, u32_mod,
}
use kbus.CString.{u32_bytes}
use kbus.Size.{padded_name_len, padded_data_len, entire_msg_len}
use kbus.Message.{Msg, want_you_to_reply}
use kbus.Ksock.Records.{Ksock, MessageHeader, ReadMsg, part_data, num_parts, no_read_msg}
use kbus.Ksock.Queue.{pop_message}
use kbus.Ksock.Replies.{reply_needed}
use kbus.Header.{msg_start_guard, msg_end_guard, header_size, header_bytes}
use kbus.Device.{Dev, find_ksock, find_open_ksock, on_ksock}
use kbus.Unsent.{maybe_move_unsent_unbind_msg}
use kbus.Lifecycle.{empty_read_msg}

-- The header that user space is given: it has no pointers, as the name and data follow it.
unfoldable pub user_header : Msg → MessageHeader
user_header msg = record {
  start_guard = msg_start_guard;
  id = msg.id;
  in_reply_to = msg.in_reply_to;
  to = msg.to;
  from = msg.from;
  orig_from = msg.orig_from;
  final_to = msg.final_to;
  extra = msg.extra;
  flags = msg.flags;
  name_len = msg.name_len;
  data_len = msg.data_len;
  name = 0;
  data_ptr = 0;
  end_guard = msg_end_guard;
}

-- static_zero_padding
abbrev pub zero_padding : List ℕ
zero_padding = replicate 8 0

-- What kbus_nextmsg sets up in the Ksock's struct kbus_read_msg.
unfoldable pub start_read : Msg → ReadMsg
unfolding user_header header_bytes padded_name_len padded_data_len
start_read msg = record {
  msg = some msg;
  parts =
      header_bytes (user_header msg)
      ∷ msg.name_ref
      ∷ zero_padding
      ∷ []
      ∷ zero_padding
      ∷ u32_bytes msg_end_guard
      ∷ [];
  lengths =
      header_size
      ∷ msg.name_len
      ∷ sub_u32 (padded_name_len msg.name_len) msg.name_len
      ∷ msg.data_len
      ∷ sub_u32 (padded_data_len msg.data_len) msg.data_len
      ∷ 4
      ∷ [];
  which = 0;
  pos = 0;
  ref_data_index = 0;
}

-- The part of kbus_nextmsg on the Ksock alone: a message that was being read is dropped, and a
-- request is one more that is to be replied to.
unfoldable pub next_message : Ksock → Option Msg × Ksock
unfolding empty_read_msg pop_message start_read reply_needed
next_message priv =
    let emptied : Ksock = elim priv.read.msg [ none ↦ priv | some m ↦ empty_read_msg priv ] in
    let (next, popped) = pop_message emptied in
    elim next [
      | none ↦ (none, popped)
      | some msg ↦
          let reading = record popped { read = start_read msg } in
          (
            some msg,
            if has_bit want_you_to_reply msg.flags then reply_needed reading msg else reading,
          )
    ]

-- kbus_nextmsg: the length of the message, if there was one.
unfoldable pub nextmsg : Dev → ℕ → Dev × Option ℕ
unfolding next_message find_ksock entire_msg_len
nextmsg dev our = elim (find_open_ksock dev our) [
  | none ↦ (dev, none)
  | some k ↦
      let dev' = on_ksock dev our (λ j. (next_message j).1) in
      elim (next_message k).0 [
        | none ↦ (dev', none)
        | some msg ↦ (
          if k.maybe_got_unsent_unbind_msgs then maybe_move_unsent_unbind_msg dev' our else dev',
          some (entire_msg_len header_size msg.name_len msg.data_len % u32_mod),
        )
      ]
]

-- The parts of a message's data.
unfoldable pub pages_of : Option Msg → List (List ℕ)
pages_of none = []
pages_of (some msg) = elim msg.data_ref [ none ↦ [] | some dp ↦ dp.parts ]

abbrev pub pages : ReadMsg → List (List ℕ)
pages this = pages_of this.msg

abbrev pub part_length : ReadMsg → ℕ → ℕ
part_length this n = get_or this.lengths n 0

-- The piece that is being read: a part of the data, or else a part of the message.
unfoldable pub segment : ReadMsg → List ℕ
unfolding pages_of
segment this =
    if this.which == part_data
    then get_or (pages this) this.ref_data_index []
    else take (part_length this this.which) (get_or this.parts this.which [])

-- How many bytes one round of the loop in kbus_read gives.
unfoldable pub round_len : ReadMsg → ℕ → ℕ
unfolding segment
round_len this count =
    if part_length this this.which == 0
    then 0
    else lesser
        (if this.which == part_data
          then length (segment this) - this.pos
          else part_length this this.which - this.pos)
        count

-- The end of a part of the data, and of all of the data.
unfoldable pub after_data : ReadMsg → ReadMsg
unfolding pages_of segment
after_data this =
    let next =
      if this.pos == length (segment this)
      then record this { pos = 0; ref_data_index = this.ref_data_index + 1 }
      else this in
    if next.ref_data_index == length (pages this)
    then record next { pos = 0; which = this.which + 1 }
    else next

-- The state after a round that gave `len` bytes.
unfoldable pub after_round : ReadMsg → ℕ → ReadMsg
unfolding after_data
after_round this len =
    if part_length this this.which == 0
    then record this { pos = 0; which = this.which + 1 }
    else if this.which == part_data
    then after_data (record this { pos = this.pos + len })
    else if this.pos + len == part_length this this.which
    then record this { pos = 0; which = this.which + 1 }
    else record this { pos = this.pos + len }

-- The loop of kbus_read, on fuel.
unfoldable pub read_loop : ℕ → ReadMsg → ℕ → List ℕ × ReadMsg
unfolding round_len after_round segment
read_loop zero this count = ([], this)
read_loop (suc fuel) this count =
    let len = round_len this count in
    let (bytes, this') = read_loop fuel (after_round this len) (count - len) in
    if ltb this.which num_parts && ltb 0 count
    then (take len (drop this.pos (segment this)) ++ bytes, this')
    else ([], this)

-- Each round ends a part of the message, ends a part of its data, or ends the loop.
unfoldable pub rounds : ReadMsg → ℕ
unfolding pages_of
rounds this = (num_parts - this.which) + (length (pages this) - this.ref_data_index)

-- kbus_read
unfoldable pub read : Ksock → ℕ → List ℕ × Ksock
unfolding read_loop rounds empty_read_msg
read priv count = elim priv.read.msg [
  | none ↦ ([], priv)
  | some msg ↦
      let (bytes, this) = read_loop (suc (rounds priv.read)) priv.read count in
      (bytes, if ltb this.which num_parts then record priv { read = this } else empty_read_msg priv)
]

-- How far the reader is through the data.
unfoldable pub data_sofar : ReadMsg → ℕ
unfolding pages_of
data_sofar this =
    add_u32 (length (flatten (take this.ref_data_index (pages this))))
      (if ltb this.ref_data_index (length (pages this)) then this.pos else 0)

-- Does kbus_lenleft see the reader as being in the data?
abbrev pub in_data : ReadMsg → Msg → Bool
in_data this msg = this.which == part_data && ltb 0 msg.data_len

-- The loop of kbus_lenleft over the first parts.
unfoldable pub parts_sofar : ReadMsg → Msg → ℕ → ℕ
unfolding data_sofar
parts_sofar this msg zero = 0
parts_sofar this msg (suc ii) =
    add_u32 (parts_sofar this msg ii)
      (if in_data this msg then data_sofar this else part_length this ii)

-- kbus_lenleft
unfoldable pub lenleft : Ksock → ℕ
unfolding parts_sofar data_sofar entire_msg_len
lenleft priv = elim priv.read.msg [
  | none ↦ 0
  | some msg ↦
      let this = priv.read in
      sub_u32 (entire_msg_len header_size msg.name_len msg.data_len) (
        add_u32 (parts_sofar this msg this.which) (
          if ltb this.which num_parts
          then if in_data this msg then data_sofar this else this.pos
          else 0))
]
