-- ===== src/Ksock/Validity.antt =====
-- kbus/kbus_main.c: the counters of a Ksock count what they are said to count, and every operation
-- of Ksock.Queue and Ksock.Replies keeps them right.
use kbus.Prelude.{
  ℕ, ◌+◌, ◌%◌, ◌≡◌, refl, ◌≢◌, inl, inr, Bool, true, false, Option, List, [], ◌∷◌, arith,
  if◌then◌else◌, length, length-append, u32_mod, Bool-cases, List-cases, has_bit, ◌&&◌, ap,
}
use kbus.Message.{MsgId, Msg, no_id, same_id_iff, message_is_reply, urgent}
use kbus.MsgIdMem.{MsgIdMem, forget_msg_id}
use kbus.MsgIdMem.Laws as Mem
use kbus.Ksock.Records.{Ksock, QueueItem, UnrepliedItem, RecipientType, new_ksock}
use kbus.Ksock.Queue.{enqueue, pushed_item, is_repeat, is_sender, push_message, pop_message}
use kbus.Ksock.Replies.{remove_unreplied, has_unreplied, reply_needed, reply_now_sent}

-- The queue's and the replies' counters, which are u32 and wrap.
pub record IsValid (k : Ksock) : Type 0 where
  pub queued : k.message_count ≡ length k.message_queue % u32_mod
  pub unreplied : k.num_replies_unsent ≡ length k.replies_unsent % u32_mod
  pub outstanding : Mem.IsValid k.outstanding_requests

-- A Ksock that has just been opened is valid.
pub new_ksock-IsValid : (id : ℕ) → IsValid (new_ksock id)
unfolding new_ksock
new_ksock-IsValid id = record {
  queued = refl;
  unreplied = refl;
  outstanding = Mem.init_msg_id_memory-IsValid.0;
}

pub length-enqueue :
    (b : Bool) (item : QueueItem) (queue : List QueueItem)
    → length (enqueue b item queue) ≡ length queue + 1
unfolding enqueue
length-enqueue true item queue = omega arith
length-enqueue false item queue = omega (arith, length-append queue (item ∷ []))

-- The memory after the push of a message: an answered request is forgotten.
settled : Ksock → Msg → RecipientType → MsgIdMem
settled k msg for_whom =
    if message_is_reply msg && is_sender for_whom
    then (forget_msg_id k.outstanding_requests msg.in_reply_to).0
    else k.outstanding_requests

pub is_reply-ne : (msg : Msg) → message_is_reply msg ≡ true → msg.in_reply_to ≢ no_id
unfolding message_is_reply
is_reply-ne msg h = λ e. ground (arith, same_id_iff msg.in_reply_to no_id)

settled-IsValid :
    (k : Ksock) (msg : Msg) (for_whom : RecipientType)
    → IsValid k
    → Mem.IsValid (settled k msg for_whom)
unfolding settled
settled-IsValid k msg for_whom v = elim (Bool-cases (message_is_reply msg && is_sender for_whom)) [
  | inl reply ↦ rw reply (
      Mem.forget_msg_id-IsValid k.outstanding_requests msg.in_reply_to
        (is_reply-ne msg (ground arith)) v.outstanding)
  | inr other ↦ rw other v.outstanding
]

-- `kbus_push_message` keeps a Ksock valid, whoever the message is for.
pub push_message-IsValid :
    (k : Ksock) (msg : Msg) (binding : Option ℕ) (for_whom : RecipientType)
    → IsValid k
    → IsValid (push_message k msg binding for_whom)
unfolding push_message settled
push_message-IsValid k msg binding for_whom v = elim (Bool-cases (is_repeat k msg for_whom)) [
  | inl repeat ↦ rw (repeat, push_message) v
  | inr fresh ↦
      rw (fresh, push_message)
        (record {
          queued = omega (
            arith,
            v.queued,
            length-enqueue (has_bit urgent msg.flags) (pushed_item msg binding for_whom)
                k.message_queue,
          );
          unreplied = v.unreplied;
          outstanding = settled-IsValid k msg for_whom v;
        })
]

-- `kbus_pop_message` keeps a Ksock valid.
pub pop_message-IsValid : (k : Ksock) → IsValid k → IsValid (pop_message k).1
unfolding pop_message
pop_message-IsValid k v = elim (List-cases k.message_queue) [
  | inl e ↦ rw (e, pop_message) v
  | inr (item, rest, e) ↦
      rw (e, pop_message)
        (record {
          queued = omega (arith, v.queued, ap length e);
          unreplied = v.unreplied;
          outstanding = v.outstanding;
        })
]

-- `kbus_reply_needed` keeps a Ksock valid.
pub reply_needed-IsValid : (k : Ksock) (msg : Msg) → IsValid k → IsValid (reply_needed k msg)
unfolding reply_needed
reply_needed-IsValid k msg v = record {
  queued = v.queued;
  unreplied = omega (arith, v.unreplied);
  outstanding = v.outstanding;
}

length-remove_unreplied :
    (id : MsgId) (items : List UnrepliedItem)
    → length (remove_unreplied id items) + (if has_unreplied id items then 1 else 0) ≡ length items
unfolding remove_unreplied has_unreplied
length-remove_unreplied id [] = refl
length-remove_unreplied id (item ∷ rest) = ground (arith, length-remove_unreplied id rest)

-- `kbus_reply_now_sent` keeps a Ksock valid.
pub reply_now_sent-IsValid : (k : Ksock) (id : MsgId) → IsValid k → IsValid (reply_now_sent k id).0
unfolding reply_now_sent
reply_now_sent-IsValid k id v = elim (Bool-cases (has_unreplied id k.replies_unsent)) [
  | inl found ↦
      rw (found, reply_now_sent)
        (record {
          queued = v.queued;
          unreplied = ground (arith, v.unreplied, length-remove_unreplied id k.replies_unsent);
          outstanding = v.outstanding;
        })
  | inr missing ↦ rw (missing, reply_now_sent) v
]
