-- ===== src/Libkbus/Messages.antt =====
-- Messages as libkbus/libkbus.c makes them: struct kbus_message_header (`kbus_message_t`), kbus_msg_create
-- and the functions that are built on it, kbus_msg_is_…, kbus_msg_sizeof and kbus_msg_split_bind_event.
-- A pointer is the bytes from its address on. Allocation succeeds, and nothing is freed.
use kbus.Prelude.{
  ℕ, ◌+◌, ◌-◌, ◌%◌, ◌^◌, Bool, not, ◌&&◌, ◌||◌, Option, none, some, List, [], ◌++◌, ◌==◌, ltb,
  if◌then◌else◌, length, take, drop, replicate, has_bit, set_bit,
}
use Prim.Native.Nat.{Ordering}
use kbus.CString.{strncpy, u32_bytes}
use kbus.Errno.{Result, ok, err, ebadmsg}
use kbus.Size.{padded_name_len, padded_data_len, entire_msg_len}
use kbus.Message.{MsgId, OrigFrom, no_id, no_origin, want_a_reply, want_you_to_reply}
use kbus.Header.{msg_start_guard, msg_end_guard, header_size, u32_at}

-- `rest` is what follows the header, the `rest` of struct kbus_entire_message.
pub record UserMsg : Type 0 where
  pub start_guard : ℕ
  pub id : MsgId
  pub in_reply_to : MsgId
  pub to : ℕ
  pub from : ℕ
  pub orig_from : OrigFrom
  pub final_to : OrigFrom
  pub extra : ℕ
  pub flags : ℕ
  pub name_len : ℕ
  pub data_len : ℕ
  pub name : Option (List ℕ)
  pub data_ptr : Option (List ℕ)
  pub end_guard : ℕ
  pub rest : List ℕ

-- kbus_msg_is_entire
unfoldable pub is_entire : UserMsg → Bool
is_entire msg = elim msg.name [ none ↦ Bool.true | some n ↦ Bool.false ]

-- kbus_msg_is_reply
unfoldable pub is_reply : UserMsg → Bool
is_reply msg = not (msg.in_reply_to.network_id == 0) || not (msg.in_reply_to.serial_num == 0)

-- kbus_msg_is_request
unfoldable pub is_request : UserMsg → Bool
is_request msg = has_bit want_a_reply msg.flags

-- kbus_msg_is_stateful_request
unfoldable pub is_stateful_request : UserMsg → Bool
is_stateful_request msg = has_bit want_a_reply msg.flags && not (msg.to == 0)

-- kbus_msg_wants_us_to_reply
unfoldable pub wants_us_to_reply : UserMsg → Bool
wants_us_to_reply msg = has_bit want_a_reply msg.flags && has_bit want_you_to_reply msg.flags

-- kbus_msg_compare_ids: -1, 0 and 1 are `lt`, `eq` and `gt`.
unfoldable pub compare_ids : MsgId → MsgId → Ordering
compare_ids id1 id2 =
    if id1.network_id == id2.network_id
    then if id1.serial_num == id2.serial_num
      then Ordering.eq
      else if ltb id1.serial_num id2.serial_num
      then Ordering.lt
      else Ordering.gt
    else if ltb id1.network_id id2.network_id
    then Ordering.lt
    else Ordering.gt

-- kbus_msg_name_ptr
unfoldable pub name_ptr : UserMsg → List ℕ
name_ptr msg = elim msg.name [ none ↦ msg.rest | some n ↦ n ]

-- kbus_msg_data_ptr, where KBUS_ENTIRE_MSG_DATA_INDEX counts words.
unfoldable pub data_at : UserMsg → List ℕ
data_at msg = elim msg.data_ptr [ none ↦ drop (padded_name_len msg.name_len) msg.rest | some d ↦ d ]

-- kbus_msg_create
unfoldable pub create : List ℕ → ℕ → Option (List ℕ) → ℕ → ℕ → UserMsg
create name name_len data_ptr data_len flags = record {
  start_guard = msg_start_guard;
  id = no_id;
  in_reply_to = no_id;
  to = 0;
  from = 0;
  orig_from = no_origin;
  final_to = no_origin;
  extra = 0;
  flags = flags;
  name_len = name_len;
  data_len = data_len;
  name = some name;
  data_ptr = data_ptr;
  end_guard = msg_end_guard;
  rest = [];
}

-- `memcpy` of some bytes to an offset in a buffer.
unfoldable pub overwrite : ℕ → List ℕ → List ℕ → List ℕ
overwrite offset bytes buf = take offset buf ++ (bytes ++ drop (offset + length bytes) buf)

-- What kbus_msg_create_entire puts after the header.
unfoldable pub entire_rest : List ℕ → ℕ → List ℕ → ℕ → List ℕ
unfolding overwrite
entire_rest name name_len data_bytes data_len =
    let blank = replicate (entire_msg_len header_size name_len data_len - header_size) 0 in
    let named = overwrite 0 (take name_len name) blank in
    let filled = overwrite (padded_name_len name_len) (take data_len data_bytes) named in
    overwrite (padded_name_len name_len + padded_data_len data_len) (u32_bytes msg_end_guard) filled

-- kbus_msg_create_entire
unfoldable pub create_entire : List ℕ → ℕ → List ℕ → ℕ → ℕ → UserMsg
unfolding create entire_rest
create_entire name name_len data_bytes data_len flags =
    record (create name name_len none data_len flags) {
      name = none;
      rest = entire_rest name name_len data_bytes data_len;
    }

-- kbus_msg_create_request
unfoldable pub create_request : List ℕ → ℕ → Option (List ℕ) → ℕ → ℕ → UserMsg
unfolding create
create_request name name_len data_ptr data_len flags =
    let msg = create name name_len data_ptr data_len flags in
    record msg { flags = set_bit want_a_reply msg.flags }

-- kbus_msg_create_entire_request
unfoldable pub create_entire_request : List ℕ → ℕ → List ℕ → ℕ → ℕ → UserMsg
unfolding create_entire
create_entire_request name name_len data_bytes data_len flags =
    let msg = create_entire name name_len data_bytes data_len flags in
    record msg { flags = set_bit want_a_reply msg.flags }

-- kbus_msg_create_reply_to
unfoldable pub create_reply_to : UserMsg → Option (List ℕ) → ℕ → ℕ → Result UserMsg
unfolding create wants_us_to_reply name_ptr
create_reply_to in_reply_to data_ptr data_len flags =
    if not (wants_us_to_reply in_reply_to)
    then err ebadmsg
    else ok (record (create (name_ptr in_reply_to) in_reply_to.name_len data_ptr data_len flags) {
      to = in_reply_to.from;
      in_reply_to = in_reply_to.id;
    })

-- kbus_msg_create_entire_reply_to
unfoldable pub create_entire_reply_to : UserMsg → List ℕ → ℕ → ℕ → Result UserMsg
unfolding create_entire wants_us_to_reply name_ptr
create_entire_reply_to in_reply_to data_bytes data_len flags =
    if not (wants_us_to_reply in_reply_to)
    then err ebadmsg
    else ok
        (record (create_entire (name_ptr in_reply_to) in_reply_to.name_len data_bytes data_len
          flags) { to = in_reply_to.from; in_reply_to = in_reply_to.id })

-- `to` and `final_to` of a stateful request after an earlier message, as both functions find them.
unfoldable pub stateful_target : UserMsg → Result (ℕ × OrigFrom)
unfolding is_reply is_stateful_request
stateful_target earlier_msg =
    if is_reply earlier_msg
    then ok (earlier_msg.from, earlier_msg.orig_from)
    else if is_stateful_request earlier_msg
    then ok (earlier_msg.to, earlier_msg.final_to)
    else err ebadmsg

-- kbus_msg_create_stateful_request
unfoldable pub create_stateful_request :
    UserMsg → List ℕ → ℕ → Option (List ℕ) → ℕ → ℕ → Result UserMsg
unfolding create stateful_target
create_stateful_request earlier_msg name name_len data_ptr data_len flags =
    elim (stateful_target earlier_msg) [
      | err e ↦ err e
      | ok (to, final_to) ↦
          ok
            (record (create name name_len data_ptr data_len flags) { final_to = final_to; to = to })
    ]

-- kbus_msg_create_entire_stateful_request
unfoldable pub create_entire_stateful_request :
    UserMsg → List ℕ → ℕ → List ℕ → ℕ → ℕ → Result UserMsg
unfolding create_entire stateful_target
create_entire_stateful_request earlier_msg name name_len data_bytes data_len flags =
    elim (stateful_target earlier_msg) [
      | err e ↦ err e
      | ok (to, final_to) ↦ ok (record (create_entire name name_len data_bytes data_len flags) {
        final_to = final_to;
        to = to;
      })
    ]

-- A C `int` of 32 bits, and what a size_t is as one.
pub data ℤ : Type 0 where
  pos negsuc : ℕ → ℤ

abbrev pub to_int : ℕ → ℤ
to_int n = let low = n % 2 ^ 32 in if ltb low (2 ^ 31) then pos low else negsuc (2 ^ 32 - 1 - low)

-- kbus_msg_sizeof: the lengths go to KBUS_ENTIRE_MSG_LEN with the one of the data first.
unfoldable pub msg_sizeof : UserMsg → ℤ
unfolding is_entire entire_msg_len
msg_sizeof msg =
    to_int
      (if is_entire msg then entire_msg_len header_size msg.data_len msg.name_len else header_size)

-- kbus_msg_split_bind_event: `is_bind`, `binder`, and the copy of the name, without its final zero.
-- The data's address is never NULL.
unfoldable pub split_bind_event : UserMsg → Result (ℕ × ℕ × List ℕ)
unfolding data_at
split_bind_event msg =
    if msg.data_len == 0
    then err ebadmsg
    else let event_data = data_at msg in
      ok (
        u32_at event_data 0,
        u32_at event_data 4,
        strncpy (drop 12 event_data) (u32_at event_data 8),
      )
