-- ===== src/Tests/Data.antt =====
-- A small bus: Ksock 1 sends, Ksock 2 is the replier for `$.A` and listens to `$.*` twice, and
-- Ksock 3 listens to `$.%`, only once.
use kbus.Prelude.{ℕ, true, false, none, List, [], ◌∷◌}
use kbus.Message.{MsgId, Msg, no_id, no_origin}
use kbus.MsgIdMem.{MsgIdMem}
use kbus.Ksock.Records.{Ksock, no_read_msg, no_write_msg}
use kbus.Device.{Binding, Dev}

abbrev pub name_a : List ℕ
name_a = b'$' ∷ b'.' ∷ b'A' ∷ []

abbrev pub star : List ℕ
star = b'$' ∷ b'.' ∷ b'*' ∷ []

abbrev pub percent : List ℕ
percent = b'$' ∷ b'.' ∷ b'%' ∷ []

abbrev pub id_of : ℕ → MsgId
id_of n = record { network_id = 0; serial_num = n }

-- The ids of some requests, and two free slots.
abbrev pub mem_of : List MsgId → ℕ → ℕ → MsgIdMem
mem_of ids count size = record { count = count; size = size; max_count = count; ids = ids }

abbrev pub no_requests : MsgIdMem
no_requests = mem_of (no_id ∷ no_id ∷ []) 0 2

abbrev pub one_request : MsgIdMem
one_request = mem_of (no_id ∷ id_of 7 ∷ []) 1 2

abbrev pub full_memory : MsgIdMem
full_memory = mem_of (id_of 6 ∷ id_of 7 ∷ []) 2 2

abbrev pub ksock_of : ℕ → MsgIdMem → Ksock
ksock_of id mem = record {
  id = id;
  last_msg_id_sent = no_id;
  message_count = 0;
  max_messages = 3;
  message_queue = [];
  read = no_read_msg;
  write = no_write_msg;
  sending = false;
  outstanding_requests = mem;
  replies_unsent = [];
  num_replies_unsent = 0;
  max_replies_unsent = 0;
  messages_only_once = false;
  msg_id_just_pushed = no_id;
  maybe_got_unsent_unbind_msgs = false;
}

abbrev pub sender : Ksock
sender = ksock_of 1 one_request

abbrev pub replier : Ksock
replier = ksock_of 2 no_requests

abbrev pub once : Ksock
once = record (ksock_of 3 no_requests) { messages_only_once = true }

abbrev pub bind_of : ℕ → ℕ → ℕ → List ℕ → Binding
bind_of addr owner as_replier name = record {
  addr = addr;
  bound_to = owner;
  bound_to_id = owner;
  is_replier = as_replier;
  name_len = 3;
  name = name;
}

abbrev pub bus : Dev
bus = record {
  bound_message_list =
      bind_of 5 2 1 star
      ∷ bind_of 4 3 0 percent
      ∷ bind_of 3 2 0 star
      ∷ bind_of 2 2 0 star
      ∷ bind_of 1 2 1 name_a
      ∷ [];
  open_ksock_list = once ∷ replier ∷ sender ∷ [];
  next_ksock_id = 4;
  next_msg_serial_num = 9;
  verbose = false;
  report_replier_binds = false;
  unsent_unbind_msg_list = [];
  unsent_unbind_msg_count = 0;
  unsent_unbind_is_tragic = false;
  max_message_size = 1024;
  next_binding = 6;
}

abbrev pub message : Msg
message = record {
  id = id_of 8;
  in_reply_to = no_id;
  to = 0;
  from = 1;
  orig_from = no_origin;
  final_to = no_origin;
  extra = 0;
  flags = 0;
  name_len = 3;
  data_len = 0;
  name_ref = name_a;
  data_ref = none;
}

abbrev pub request : Msg
request = record message { flags = 1 }

abbrev pub reply : Msg
reply = record message { in_reply_to = id_of 7; to = 1; from = 2 }

-- Ksock 2 is full.
abbrev pub crowded : Dev
crowded = record bus { open_ksock_list = once ∷ record replier { max_messages = 0 } ∷ sender ∷ [] }
