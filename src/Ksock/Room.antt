-- ===== src/Ksock/Room.antt =====
-- kbus/kbus_main.c: the room that a Ksock keeps for the replies to its requests, and what a message
-- looks like when it has been put into a queue.
use kbus.Prelude.{
  ℕ, ◌+◌, ◌/◌, ◌%◌, ◌≤◌, ◌<◌, ◌≡◌, ◌≢◌, ◌↔◌, ◌⊎◌, ◌&&◌, refl, true, false, Option, none, some, List,
  [], ◌∷◌, ◌++◌, arith, if◌then◌else◌, length, u32_mod, has_bit,
}
use kbus.Message.{
  MsgId, Msg, no_id, same_id_iff, message_is_reply, want_a_reply, want_you_to_reply, urgent,
}
use kbus.MsgIdMem.{find_msg_id, forget_msg_id}
use kbus.MsgIdMem.Laws.{times, forget_takes_one, find_iff, times_add}
use kbus.Ksock.Records.{Ksock, QueueItem, RecipientType, for_listener, for_replier, for_sender}
use kbus.Ksock.Queue.{
  enqueue, pushed_flags, pushed_item, is_repeat, is_sender, is_replier, push_message, pop_message,
  queue_is_full,
}
use kbus.Ksock.Validity.{IsValid, length-enqueue, is_reply-ne}

-- The messages that a Ksock has in its queue and those that it is still to get as replies.
abbrev pub load : Ksock → ℕ
load k = length k.message_queue + k.outstanding_requests.count

count-find :
    (k : Ksock) (id : MsgId)
    → id ≢ no_id
    → IsValid k
    → find_msg_id k.outstanding_requests id ≡ true
    → 0 < k.outstanding_requests.count
count-find k id ne v h = omega (
  arith,
  v.outstanding.counted,
  (find_iff k.outstanding_requests id).0 h,
  times_add k.outstanding_requests.ids id no_id ne,
)

-- In a valid Ksock whose load is a u32, `kbus_queue_is_full` says that there is room exactly when
-- the load is below the maximum.
pub queue_is_full-load :
    (k : Ksock)
    → IsValid k
    → load k < u32_mod
    → (queue_is_full k false ≡ false) ↔ (load k < k.max_messages)
unfolding queue_is_full
queue_is_full-load k v small = (λ h. ground (arith, v.queued), λ h. ground (arith, v.queued))

-- For a reply to a request that a valid Ksock has outstanding there is room exactly when the load,
-- which is below 2^32, is not above the maximum: a place for the reply is kept.
pub queue_is_full_reply :
    (k : Ksock) (id : MsgId)
    → id ≢ no_id
    → IsValid k
    → load k < u32_mod
    → find_msg_id k.outstanding_requests id ≡ true
    → (queue_is_full k true ≡ false) ↔ (load k ≤ k.max_messages)
unfolding queue_is_full
queue_is_full_reply k id ne v small out = (
  λ h. ground (arith, v.queued, count-find k id ne v out),
  λ h. ground (arith, v.queued, count-find k id ne v out),
)

pub length-push :
    (k : Ksock) (msg : Msg) (binding : Option ℕ) (for_whom : RecipientType)
    → length (push_message k msg binding for_whom).message_queue
      ≡ length k.message_queue + (if is_repeat k msg for_whom then 0 else 1)
unfolding push_message
length-push k msg binding for_whom = ground (
  arith,
  length-enqueue (has_bit urgent msg.flags) (pushed_item msg binding for_whom) k.message_queue,
)

count-forget :
    (k : Ksock) (id : MsgId)
    → id ≢ no_id
    → IsValid k
    → find_msg_id k.outstanding_requests id ≡ true
    → (forget_msg_id k.outstanding_requests id).0.count + 1 ≡ k.outstanding_requests.count
unfolding forget_msg_id find_msg_id
count-forget k id ne v out = ground (arith, count-find k id ne v out)

-- Only a listener's copy can be a repeat.
pub sender_no_repeat : (k : Ksock) (msg : Msg) → is_repeat k msg for_sender ≡ false
unfolding is_repeat
sender_no_repeat k msg = ground arith

pub push_reply_outstanding :
    (k : Ksock) (msg : Msg) (binding : Option ℕ)
    → message_is_reply msg ≡ true
    → (push_message k msg binding for_sender).outstanding_requests
      ≡ (forget_msg_id k.outstanding_requests msg.in_reply_to).0
unfolding push_message
push_reply_outstanding k msg binding reply =
    rw (sender_no_repeat k msg, push_message) (rw reply refl)

-- Delivering an expected reply to the sender of the request, valid, leaves its load as it was: the reply
-- takes the place that was kept for it. The request is then outstanding once less.
pub push_reply_keeps_load :
    (k : Ksock) (msg : Msg)
    → IsValid k
    → message_is_reply msg ≡ true
    → find_msg_id k.outstanding_requests msg.in_reply_to ≡ true
    → let k' = push_message k msg none for_sender in
      (load k' ≡ load k)
      × (times msg.in_reply_to k'.outstanding_requests.ids + 1
          ≡ times msg.in_reply_to k.outstanding_requests.ids)
push_reply_keeps_load k msg v reply out = rw (push_reply_outstanding k msg none reply) (
  ground (
    arith,
    length-push k msg none for_sender,
    sender_no_repeat k msg,
    count-forget k msg.in_reply_to ne v out,
  ),
  ground (
    arith,
    forget_takes_one k.outstanding_requests msg.in_reply_to msg.in_reply_to ne,
    same_id_iff msg.in_reply_to msg.in_reply_to,
  ),
)
  where
    ne : msg.in_reply_to ≢ no_id
    ne = is_reply-ne msg reply

-- Any other message adds one to the load, unless it is a repeat under the "once only" rule, which
-- changes nothing at all.
pub push_other-load :
    (k : Ksock) (msg : Msg) (binding : Option ℕ) (for_whom : RecipientType)
    → message_is_reply msg && is_sender for_whom ≡ false
    → let k' = push_message k msg binding for_whom in
      (load k' ≡ load k + (if is_repeat k msg for_whom then 0 else 1))
      × (is_repeat k msg for_whom ≡ false ⊎ k' ≡ k)
unfolding push_message
push_other-load k msg binding for_whom other = ground (arith, length-push k msg binding for_whom)

-- Pushed once, a message is not pushed again for a listener that asked for it only once.
pub push_once :
    (k : Ksock) (msg : Msg) (b c : Option ℕ) (for_whom : RecipientType)
    → k.messages_only_once ≡ true
    → let k' = push_message k msg b for_whom in push_message k' msg c for_listener ≡ k'
unfolding push_message is_repeat
push_once k msg b c for_whom once = ground (arith, same_id_iff msg.id msg.id)

-- WANT_YOU_TO_REPLY is set in the flags of a queued request exactly where the recipient is its
-- replier, and no other bit of the flags is changed.
pub pushed_flags_mark :
    (for_whom : RecipientType) (flags : ℕ)
    → has_bit want_a_reply flags ≡ true
    → (has_bit want_you_to_reply (pushed_flags for_whom flags) ≡ is_replier for_whom)
      × (pushed_flags for_whom flags % 2 ≡ flags % 2)
      × (pushed_flags for_whom flags / 4 ≡ flags / 4)
unfolding pushed_flags
pushed_flags_mark for_listener flags h = ground arith
pushed_flags_mark for_replier flags h = ground arith
pushed_flags_mark for_sender flags h = ground arith

-- On a queue that is not empty, a message that is not dropped as a repeat goes to the end, unless it
-- is urgent: then it is the next to be popped, and the queue is as before.
pub pop-push :
    (k : Ksock) (msg : Msg) (binding : Option ℕ) (for_whom : RecipientType) (item : QueueItem)
    (rest : List QueueItem)
    → is_repeat k msg for_whom ≡ false
    → k.message_queue ≡ item ∷ rest
    → let (first, k') = pop_message (push_message k msg binding for_whom) in
      let new = pushed_item msg binding for_whom in
      (first ≡ some (if has_bit urgent msg.flags then new.msg else item.msg))
      × (k'.message_queue
          ≡ (if has_bit urgent msg.flags then k.message_queue else rest ++ new ∷ []))
unfolding push_message pop_message enqueue
pop-push k msg binding for_whom item rest fresh e = ground arith
