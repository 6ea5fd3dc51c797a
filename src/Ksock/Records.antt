-- ===== src/Ksock/Records.antt =====
-- The structures of kbus/kbus_internal.h that make up a Ksock. A pointer to a binding is the
-- number of that binding, and a user-space pointer is a number, NULL being 0.
use kbus.Prelude.{ℕ, Bool, false, Option, none, List, [], replicate}
use kbus.Message.{MsgId, OrigFrom, DataPtr, Msg, no_id}
use kbus.MsgIdMem.{MsgIdMem, init_msg_id_memory}

-- struct kbus_message_header of kbus/linux/kbus_defns.h
pub record MessageHeader : Type 0 where
  pub start_guard : ℕ
  pub id : MsgId
  pub in_reply_to : MsgId
  pub to : ℕ
  pub from : ℕ
  pub orig_from : OrigFrom
  pub final_to : OrigFrom
  pub extra : ℕ
  pub flags : ℕ
  pub name_len : ℕ
  pub data_len : ℕ
  pub name : ℕ
  pub data_ptr : ℕ
  pub end_guard : ℕ

pub record QueueItem : Type 0 where
  pub msg : Msg
  pub binding : Option ℕ

pub record UnrepliedItem : Type 0 where
  pub id : MsgId
  pub from : ℕ
  pub name_len : ℕ
  pub name_ref : List ℕ

-- The parts of a message, in the order in which they are written and read.
abbrev pub part_hdr : ℕ
part_hdr = 0

abbrev pub part_name : ℕ
part_name = 1

abbrev pub part_npad : ℕ
part_npad = 2

abbrev pub part_data : ℕ
part_data = 3

abbrev pub part_dpad : ℕ
part_dpad = 4

abbrev pub part_final_guard : ℕ
part_final_guard = 5

abbrev pub num_parts : ℕ
num_parts = 6

-- `parts[n]` is the bytes that the pointer leads to.
pub record ReadMsg : Type 0 where
  pub msg : Option Msg
  pub parts : List (List ℕ)
  pub lengths : List ℕ
  pub which : ℕ
  pub pos : ℕ
  pub ref_data_index : ℕ

-- `user_msg` is the bytes of the header that have been written so far, and `guard` those of the
-- final guard.
pub record WriteMsg : Type 0 where
  pub user_msg : List ℕ
  pub msg : Option Msg
  pub is_finished : Bool
  pub pointers_are_local : Bool
  pub guard : List ℕ
  pub user_name_ptr : ℕ
  pub user_data_ptr : ℕ
  pub which : ℕ
  pub pos : ℕ
  pub ref_name : Option (List ℕ)
  pub ref_data : Option DataPtr
  pub ref_data_index : ℕ

pub record Ksock : Type 0 where
  pub id : ℕ
  pub last_msg_id_sent : MsgId
  pub message_count : ℕ
  pub max_messages : ℕ
  pub message_queue : List QueueItem
  pub read : ReadMsg
  pub write : WriteMsg
  pub sending : Bool
  pub outstanding_requests : MsgIdMem
  pub replies_unsent : List UnrepliedItem
  pub num_replies_unsent : ℕ
  pub max_replies_unsent : ℕ
  pub messages_only_once : Bool
  pub msg_id_just_pushed : MsgId
  pub maybe_got_unsent_unbind_msgs : Bool

-- What a recipient is to the message: enum kbus_recipient_type.
pub data RecipientType : Type 0 where
  for_listener for_replier for_sender : RecipientType

-- A `struct kbus_read_msg` of zero bytes, which is also what kbus_empty_read_msg leaves.
abbrev pub no_read_msg : ReadMsg
no_read_msg = record {
  msg = none;
  parts = replicate num_parts [];
  lengths = replicate num_parts 0;
  which = 0;
  pos = 0;
  ref_data_index = 0;
}

-- A `struct kbus_write_msg` of zero bytes.
abbrev pub no_write_msg : WriteMsg
no_write_msg = record {
  user_msg = [];
  msg = none;
  is_finished = false;
  pointers_are_local = false;
  guard = [];
  user_name_ptr = 0;
  user_data_ptr = 0;
  which = 0;
  pos = 0;
  ref_name = none;
  ref_data = none;
  ref_data_index = 0;
}

-- CONFIG_KBUS_DEF_MAX_MESSAGES
abbrev pub def_max_messages : ℕ
def_max_messages = 100

-- The Ksock that kbus_open sets up: `memset` to zero, then the fields that it assigns.
unfoldable pub new_ksock : ℕ → Ksock
unfolding init_msg_id_memory
new_ksock id = record {
  id = id;
  last_msg_id_sent = no_id;
  message_count = 0;
  max_messages = def_max_messages;
  message_queue = [];
  read = no_read_msg;
  write = no_write_msg;
  sending = false;
  outstanding_requests = init_msg_id_memory;
  replies_unsent = [];
  num_replies_unsent = 0;
  max_replies_unsent = 0;
  messages_only_once = false;
  msg_id_just_pushed = no_id;
  maybe_got_unsent_unbind_msgs = false;
}
