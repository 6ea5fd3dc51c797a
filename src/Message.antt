-- ===== src/Message.antt =====
-- The data of a message: `struct kbus_msg_id`, `struct kbus_orig_from`, `struct kbus_data_ptr` and
-- `struct kbus_msg` of kbus/kbus_internal.h and kbus/linux/kbus_defns.h, and the small functions of
-- kbus/kbus_main.c on them. Reference counts are not modelled: a name or data is its bytes.
use kbus.Prelude.{ℕ, ◌≡◌, ◌↔◌, Bool, not, ◌&&◌, Option, List, arith, ◌==◌, has_bit}

pub record MsgId : Type 0 where
  pub network_id : ℕ
  pub serial_num : ℕ

pub record OrigFrom : Type 0 where
  pub network_id : ℕ
  pub local_id : ℕ

-- The parts of the data with the bytes that each holds so far; `lengths[n]` is the length of part n.
pub record DataPtr : Type 0 where
  pub as_pages : Bool
  pub parts : List (List ℕ)
  pub last_page_len : ℕ

pub record Msg : Type 0 where
  pub id : MsgId
  pub in_reply_to : MsgId
  pub to : ℕ
  pub from : ℕ
  pub orig_from : OrigFrom
  pub final_to : OrigFrom
  pub extra : ℕ
  pub flags : ℕ
  pub name_len : ℕ
  pub data_len : ℕ
  pub name_ref : List ℕ
  pub data_ref : Option DataPtr

-- KBUS_BIT_…
abbrev pub want_a_reply : ℕ
want_a_reply = 1

abbrev pub want_you_to_reply : ℕ
want_you_to_reply = 2

abbrev pub synthetic : ℕ
synthetic = 4

abbrev pub urgent : ℕ
urgent = 8

abbrev pub all_or_wait : ℕ
all_or_wait = 256

abbrev pub all_or_fail : ℕ
all_or_fail = 512

abbrev pub no_id : MsgId
no_id = record { network_id = 0; serial_num = 0 }

abbrev pub no_origin : OrigFrom
no_origin = record { network_id = 0; local_id = 0 }

-- kbus_same_message_id
unfoldable pub same_message_id : MsgId → ℕ → ℕ → Bool
same_message_id msg_id network_id serial_num =
    msg_id.network_id == network_id && msg_id.serial_num == serial_num

-- The same on two whole ids, as its callers use it.
abbrev pub same_id : MsgId → MsgId → Bool
same_id a b = same_message_id a b.network_id b.serial_num

-- kbus_message_is_reply
unfoldable pub message_is_reply : Msg → Bool
unfolding same_message_id
message_is_reply msg = not (same_message_id msg.in_reply_to 0 0)

pub same_id_iff : (a b : MsgId) → (same_id a b ≡ Bool.true) ↔ (a ≡ b)
unfolding same_message_id
same_id_iff a b = ground arith

-- The bits of a message's flags that decide how it is sent.
abbrev pub wants_reply : Msg → Bool
wants_reply msg = has_bit want_a_reply msg.flags
