-- ===== src/Writing.antt =====
-- Writing a message: kbus_check_message_written, kbus_alloc_ref_data, kbus_write_data_parts,
-- kbus_write_parts and kbus_write of kbus/kbus_main.c. What is written is a list of bytes, and the
-- copies from user space succeed. The kernel writes less than 2^31 bytes at a time.
pub mod Accepted
pub mod Layout
pub mod Filling
pub mod Rounds
pub mod Ending
pub mod Places
pub mod Twice
pub mod Again
pub mod Lasting
pub mod Wholes
pub mod Calls
pub mod Relayed
use kbus.Prelude.{
  ℕ, zero, suc, ◌+◌, ◌-◌, ◌*◌, ◌/◌, ◌%◌, ◌^◌, Bool, true, false, not, ◌&&◌, ◌||◌, Option, none,
  some, List, [], ◌∷◌, ◌++◌, ◌==◌, ltb, if◌then◌else◌, length, get_or, set, take, drop, replicate,
  lesser, has_bit, sub_u32,
}
use kbus.Errno.{
  Errno, Result, ok, err, success, einval, ebadmsg, enametoolong, emsgsize, ealready, efault,
}
use kbus.CString.{byte_at}
use kbus.Size.{max_name_len, padded_name_len, padded_data_len, entire_msg_len}
use kbus.Message.{Msg, DataPtr, no_id, no_origin, all_or_wait, all_or_fail}
use kbus.Name.{invalid_message_name}
use kbus.Ksock.Records.{Ksock, MessageHeader, WriteMsg, num_parts, no_write_msg}
use kbus.Header.{msg_start_guard, msg_end_guard, header_size, header_of, u32_at}
use kbus.Lifecycle.{empty_write_msg}

-- kbus_check_message_written: `msg_size` is an `int`, compared as unsigned.
unfoldable pub check_message_written : ℕ → MessageHeader → Result (Unit {0})
unfolding entire_msg_len
check_message_written max_message_size user_msg =
    if not (user_msg.start_guard == msg_start_guard)
    then err einval
    else if not (user_msg.end_guard == msg_end_guard)
    then err einval
    else if user_msg.name_len == 0
    then err einval
    else if ltb max_name_len user_msg.name_len
    then err enametoolong
    else if user_msg.name == 0 && not (user_msg.data_ptr == 0)
    then err einval
    else if not (user_msg.name == 0) && user_msg.data_ptr == 0 && not (user_msg.data_len == 0)
    then err einval
    else if user_msg.data_len == 0 && not (user_msg.data_ptr == 0)
    then err einval
    else if has_bit all_or_wait user_msg.flags && has_bit all_or_fail user_msg.flags
    then err einval
    else if ltb max_message_size
        (entire_msg_len header_size user_msg.name_len user_msg.data_len % 2 ^ 32)
    then err emsgsize
    else success

-- A `struct kbus_msg` of zero bytes.
abbrev pub zero_message : Msg
zero_message = record {
  id = no_id;
  in_reply_to = no_id;
  to = 0;
  from = 0;
  orig_from = no_origin;
  final_to = no_origin;
  extra = 0;
  flags = 0;
  name_len = 0;
  data_len = 0;
  name_ref = [];
  data_ref = none;
}

-- The message that is being written, which kbus_write has allocated.
unfoldable pub message_of : Option Msg → Msg
message_of none = zero_message
message_of (some msg) = msg

-- The header's fields in the message.
unfoldable pub with_header : Msg → MessageHeader → Msg
with_header msg user_msg = record msg {
  id = user_msg.id;
  in_reply_to = user_msg.in_reply_to;
  to = user_msg.to;
  from = user_msg.from;
  orig_from = user_msg.orig_from;
  final_to = user_msg.final_to;
  extra = user_msg.extra;
  flags = user_msg.flags;
  name_len = user_msg.name_len;
  data_len = user_msg.data_len;
}

-- How long each part of the message is.
unfoldable pub part_len : Msg → ℕ → ℕ
unfolding padded_name_len padded_data_len
part_len msg zero = header_size
part_len msg (suc zero) = msg.name_len
part_len msg (suc (suc zero)) = sub_u32 (padded_name_len msg.name_len) msg.name_len
part_len msg (suc (suc (suc zero))) = msg.data_len
part_len msg (suc (suc (suc (suc zero)))) = sub_u32 (padded_data_len msg.data_len) msg.data_len
part_len msg (suc (suc (suc (suc (suc n))))) = 4

unfoldable pub bytes_of : Option (List ℕ) → List ℕ
bytes_of none = []
bytes_of (some bytes) = bytes

-- Why kbus_write_parts takes no more: the message is finished, or has no such part.
unfoldable pub stopped : WriteMsg → Option Errno
stopped this =
    if this.is_finished
    then some emsgsize
    else if ltb this.which num_parts
    then none
    else some efault

-- How many bytes are missing in the part that is being written.
unfoldable pub needed : WriteMsg → ℕ
unfolding part_len message_of
needed this = part_len (message_of this.msg) this.which - this.pos

-- `page_size` is PAGE_SIZE.
module _ (page_size : ℕ) where
  -- kbus_alloc_ref_data, where allocation succeeds.
  unfoldable pub alloc_ref_data : ℕ → DataPtr
  alloc_ref_data data_len =
      let num = (data_len + page_size - 1) / page_size in
      record {
        as_pages = not (num == 1 && ltb data_len (page_size / 2));
        parts = replicate num [];
        last_page_len = data_len - (num - 1) * page_size;
      }

  -- How much part `ii` of the data can hold.
  abbrev pub this_part_len : DataPtr → ℕ → ℕ
  this_part_len ref_data ii =
      if ii == length ref_data.parts - 1 then ref_data.last_page_len else page_size

  -- The loop of kbus_write_data_parts, on fuel: the data, and the part to go on with.
  unfoldable pub fill_parts : ℕ → DataPtr → ℕ → List ℕ → DataPtr × ℕ
  fill_parts zero ref_data ii bytes = (ref_data, ii)
  fill_parts (suc fuel) ref_data ii [] = (ref_data, ii)
  fill_parts (suc fuel) ref_data ii (b ∷ bs) =
      let sofar = get_or ref_data.parts ii [] in
      let room = this_part_len ref_data ii in
      let to_use = lesser (room - length sofar) (length (b ∷ bs)) in
      let part = sofar ++ take to_use (b ∷ bs) in
      fill_parts fuel (record ref_data { parts = set ref_data.parts ii part })
        (if length part == room then ii + 1 else ii) (drop to_use (b ∷ bs))

  -- kbus_write_data_parts: each round fills a part or is the last one.
  unfoldable pub write_data_parts : WriteMsg → DataPtr → List ℕ → WriteMsg
  unfolding fill_parts
  write_data_parts this ref_data bytes =
      let (filled, ii) =
        fill_parts (suc (length ref_data.parts)) ref_data this.ref_data_index bytes in
      record this { ref_data = some filled; ref_data_index = ii }

  -- Data is allocated when its first bytes come.
  unfoldable pub store_data : WriteMsg → List ℕ → WriteMsg
  store_data this bytes = if (message_of this.msg).data_len == 0 then this else elim this.ref_data [
    | none ↦
        write_data_parts (record this { ref_data_index = 0 })
          (alloc_ref_data (message_of this.msg).data_len) bytes
    | some ref_data ↦ write_data_parts this ref_data bytes
  ]

  -- The copy of bytes into a part of the message: padding is not kept.
  unfoldable pub store_bytes : ℕ → WriteMsg → List ℕ → WriteMsg
  store_bytes zero this bytes = record this { user_msg = this.user_msg ++ bytes }
  store_bytes (suc zero) this bytes = record this {
    ref_name = some (bytes_of this.ref_name ++ bytes);
  }
  store_bytes (suc (suc zero)) this bytes = this
  store_bytes (suc (suc (suc zero))) this bytes = store_data this bytes
  store_bytes (suc (suc (suc (suc zero)))) this bytes = this
  store_bytes (suc (suc (suc (suc (suc n))))) this bytes = record this {
    guard = this.guard ++ bytes;
  }

-- An accepted header: with pointers, it is all of the message.
abbrev pub accept : WriteMsg → WriteMsg
accept this =
    let user_msg = header_of this.user_msg in
    record this {
      msg = some (with_header (message_of this.msg) user_msg);
      user_name_ptr = user_msg.name;
      user_data_ptr = user_msg.data_ptr;
      is_finished = if user_msg.name == 0 then this.is_finished else true;
      pointers_are_local = if user_msg.name == 0 then true else this.pointers_are_local;
    }

-- The start of a message: everything is zero but for the new message itself.
abbrev pub begin_from : Option Msg → WriteMsg → WriteMsg
begin_from none this = record no_write_msg { msg = some zero_message }
begin_from (some msg) this = this

unfoldable pub begin_write : WriteMsg → WriteMsg
begin_write this = begin_from this.msg this

-- The end of kbus_write, for a call with so many bytes.
abbrev pub outcome : Ksock → ℕ → WriteMsg × Result (Unit {0}) → Ksock × Result ℕ
outcome priv count (this, err e) = (empty_write_msg (record priv { write = this }), err e)
outcome priv count (this, ok u) = (record priv { write = this }, ok count)

module _ (isalnum : ℕ → Bool) (page_size max_message_size : ℕ) where
  unfoldable pub finish_header : WriteMsg → Result WriteMsg
  finish_header this = elim (check_message_written max_message_size (header_of this.user_msg)) [
    | err e ↦ err e
    | ok _ ↦ ok (accept this)
  ]

  unfoldable pub finish_name : WriteMsg → Result WriteMsg
  finish_name this =
      let name = bytes_of this.ref_name in
      if invalid_message_name isalnum name (message_of this.msg).name_len
      then err ebadmsg
      else ok (record this {
        msg = some (record (message_of this.msg) { name_ref = name });
        ref_name = none;
      })

  unfoldable pub finish_data : WriteMsg → Result WriteMsg
  finish_data this =
      if (message_of this.msg).data_len == 0
      then ok this
      else ok (record this {
        msg = some (record (message_of this.msg) { data_ref = this.ref_data });
        ref_data = none;
      })

  unfoldable pub finish_guard : WriteMsg → Result WriteMsg
  finish_guard this =
      if u32_at this.guard 0 == msg_end_guard
      then ok (record this { is_finished = true })
      else err einval

  -- What happens when a part is complete.
  unfoldable pub finish_part : ℕ → WriteMsg → Result WriteMsg
  finish_part zero this = finish_header this
  finish_part (suc zero) this = finish_name this
  finish_part (suc (suc zero)) this = ok this
  finish_part (suc (suc (suc zero))) this = finish_data this
  finish_part (suc (suc (suc (suc zero)))) this = ok this
  finish_part (suc (suc (suc (suc (suc n))))) this = finish_guard this

  -- The end of a part, and the bytes after it.
  abbrev pub complete : WriteMsg → List ℕ → List ℕ → WriteMsg × Result (List ℕ)
  complete this part rest =
      let stored = store_bytes page_size this.which this part in
      elim (finish_part this.which stored) [
        | err e ↦ (stored, err e)
        | ok next ↦ (record next { which = this.which + 1; pos = 0 }, ok rest)
      ]

  -- kbus_write_parts: the state, and the bytes that are left or an error.
  unfoldable pub write_parts : WriteMsg → List ℕ → WriteMsg × Result (List ℕ)
  write_parts this bytes = elim (stopped this) [
    | some e ↦ (this, err e)
    | none ↦
        let bytes_to_use = lesser (needed this) (length bytes) in
        if needed this == bytes_to_use
        then complete this (take bytes_to_use bytes) (drop bytes_to_use bytes)
        else (
          record (store_bytes page_size this.which this (take bytes_to_use bytes)) {
            pos = this.pos + bytes_to_use;
          },
          ok (drop bytes_to_use bytes),
        )
  ]

  -- The loop of kbus_write, on fuel.
  unfoldable pub write_loop : ℕ → WriteMsg → List ℕ → WriteMsg × Result (Unit {0})
  unfolding write_parts
  write_loop zero this bytes = (this, success)
  write_loop (suc fuel) this [] = (this, success)
  write_loop (suc fuel) this (b ∷ bs) =
      let (this', left) = write_parts this (b ∷ bs) in
      elim left [ err e ↦ (this', err e) | ok rest ↦ write_loop fuel this' rest ]

  -- kbus_write: each round but the last ends a part, and a seventh one is refused.
  unfoldable pub write : Ksock → List ℕ → Ksock × Result ℕ
  write priv bytes =
      if priv.sending
      then (empty_write_msg priv, err ealready)
      else outcome priv (length bytes) (write_loop 8 (begin_write priv.write) bytes)
