-- ===== src/Ksock/Queue.antt =====
-- A Ksock's message queue: kbus_copy_message, kbus_push_message, kbus_pop_message and
-- kbus_queue_is_full of kbus/kbus_main.c.
use kbus.Prelude.{
  ℕ, Bool, true, false, not, ◌&&◌, Option, none, some, List, [], ◌∷◌, ◌++◌, ◌==◌, ltb,
  if◌then◌else◌, has_bit, set_bit, clear_bit, add_u32, sub_u32,
}
use kbus.Message.{Msg, want_a_reply, want_you_to_reply, urgent, same_id, message_is_reply}
use kbus.MsgIdMem.{forget_msg_id}
use kbus.Ksock.Records.{Ksock, QueueItem, RecipientType, for_listener, for_replier, for_sender}

-- kbus_copy_message
unfoldable pub copy_message : Msg → Msg
copy_message old_msg = record old_msg {
  data_ref = if old_msg.data_len == 0 then none else old_msg.data_ref;
}

-- The flags of the copy that goes into a recipient's queue.
unfoldable pub pushed_flags : RecipientType → ℕ → ℕ
pushed_flags for_replier flags =
    if has_bit want_a_reply flags then set_bit want_you_to_reply flags else flags
pushed_flags for_listener flags = clear_bit want_you_to_reply flags
pushed_flags for_sender flags = clear_bit want_you_to_reply flags

unfoldable pub pushed_item : Msg → Option ℕ → RecipientType → QueueItem
unfolding copy_message pushed_flags
pushed_item msg binding for_whom = record {
  msg = record (copy_message msg) { flags = pushed_flags for_whom msg.flags };
  binding = binding;
}

abbrev pub is_listener : RecipientType → Bool
is_listener for_listener = true
is_listener for_replier = false
is_listener for_sender = false

abbrev pub is_replier : RecipientType → Bool
is_replier for_listener = false
is_replier for_replier = true
is_replier for_sender = false

abbrev pub is_sender : RecipientType → Bool
is_sender for_listener = false
is_sender for_replier = false
is_sender for_sender = true

-- The "once only" test at the head of kbus_push_message.
unfoldable pub is_repeat : Ksock → Msg → RecipientType → Bool
is_repeat priv msg for_whom =
    priv.messages_only_once && is_listener for_whom && same_id priv.msg_id_just_pushed msg.id

-- `list_add` for an urgent message, `list_add_tail` for any other.
unfoldable pub enqueue : Bool → QueueItem → List QueueItem → List QueueItem
enqueue true item queue = item ∷ queue
enqueue false item queue = queue ++ item ∷ []

-- kbus_push_message, which returns 0 where allocation succeeds.
unfoldable pub push_message : Ksock → Msg → Option ℕ → RecipientType → Ksock
unfolding is_repeat message_is_reply
push_message priv msg binding for_whom = if is_repeat priv msg for_whom then priv else record priv {
  message_queue =
      enqueue (has_bit urgent msg.flags) (pushed_item msg binding for_whom) priv.message_queue;
  message_count = add_u32 priv.message_count 1;
  msg_id_just_pushed = msg.id;
  outstanding_requests =
      if message_is_reply msg && is_sender for_whom
      then (forget_msg_id priv.outstanding_requests msg.in_reply_to).0
      else priv.outstanding_requests;
}

-- kbus_pop_message
unfoldable pub pop_message : Ksock → Option Msg × Ksock
pop_message priv = elim priv.message_queue [
  | [] ↦ (none, priv)
  | item ∷ rest ↦ (
    some item.msg,
    record priv { message_queue = rest; message_count = sub_u32 priv.message_count 1 },
  )
]

-- kbus_queue_is_full: an unsigned comparison, so that `already_accounted_for--` wraps.
unfoldable pub queue_is_full : Ksock → Bool → Bool
queue_is_full priv is_reply =
    let sum = add_u32 priv.message_count priv.outstanding_requests.count in
    not (ltb (if is_reply then sub_u32 sum 1 else sum) priv.max_messages)
