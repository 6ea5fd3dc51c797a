-- ===== src/Recipients/Copies.antt =====
-- How many copies of a message kbus_write_to_recipients of kbus/kbus_main.c delivers, and to whom.
use kbus.Prelude.{
  ℕ, ◌+◌, ◌≤◌, ◌≡◌, refl, Bool, true, false, ◌&&◌, Option, none, some, List, [], ◌∷◌, arith, ◌==◌,
  if◌then◌else◌, length, count, filter, map,
}
use kbus.Errno.{success}
use kbus.Message.{Msg, MsgId, same_id, wants_reply, message_is_reply}
use kbus.Ksock.Records.{Ksock, for_replier, for_sender}
use kbus.Ksock.Queue.{push_message, is_repeat, pushed_flags}
use kbus.Ksock.Replies.{reply_now_sent}
use kbus.Ksock.Room.{length-push, pushed_flags_mark}
use kbus.Device.{Binding, Dev, find_open_ksock}
use kbus.Recipients.Choice.{is_listener_for, find_listeners-filter}
use kbus.Recipients.Plan.{Plan, owner_is_full, write_to_recipients}
use kbus.Recipients.Receive.{
  is_for, push_fixed, wanted, wanted-push, length-receive, wanted-receive, length-receive_once,
  receive_repeat, push_just,
}
use kbus.Recipients.Delivery.{
  found_replier, found_listeners, with_room, the_plan, take_reply, take_request, taken, find-write,
}

-- Is the binding a listener binding of Ksock `j` that matches the message's name?
abbrev pub listens : Msg → ℕ → Binding → Bool
listens msg j b = is_listener_for msg.name_len msg.name_ref b && b.bound_to == j

count-with_room :
    (dev : Dev) (j : ℕ) (bs : List Binding)
    → count (is_for j) (map (with_room dev) bs)
      ≡ (if owner_is_full dev j then 0 else count (λ b. b.bound_to == j) bs)
count-with_room dev j [] = ground arith
count-with_room dev j (b ∷ bs) = ground (arith, count-with_room dev j bs)

count-filter {ℓ} :
    {A : Type ℓ} (p q : A → Bool) (xs : List A) → count p (filter q xs) ≡ count (λ x. q x && p x) xs
count-filter p q [] = refl
count-filter p q (x ∷ xs) = ground (arith, count-filter p q xs)

-- The listener copies in the plan.
count-listeners :
    (dev : Dev) (msg : Msg) (j : ℕ)
    → count (is_for j) (the_plan dev msg).listeners
      ≡ (if owner_is_full dev j then 0 else count (listens msg j) dev.bound_message_list)
count-listeners dev msg j = ground (
  arith,
  count-with_room dev j (found_listeners dev msg),
  find_listeners-filter msg.name_len msg.name_ref dev.bound_message_list,
  count-filter (λ (b : Binding). b.bound_to == j) (is_listener_for msg.name_len msg.name_ref)
      dev.bound_message_list,
)

queue-reply_now_sent :
    (k : Ksock) (id : MsgId)
    → let k' = (reply_now_sent k id).0 in
      (k'.message_queue ≡ k.message_queue) × (k'.messages_only_once ≡ k.messages_only_once)
unfolding reply_now_sent
queue-reply_now_sent k id = ground arith

length-take_reply :
    (our j : ℕ) (msg : Msg) (to : Option ℕ) (k : Ksock)
    → let k' = take_reply our j msg to k in
      (length k'.message_queue
        ≡ length k.message_queue + (elim to [ none ↦ 0 | some i ↦ if i == j then 1 else 0 ]))
      × (k'.messages_only_once ≡ k.messages_only_once)
unfolding take_reply is_repeat
length-take_reply our j msg none k = ground arith
length-take_reply our j msg (some to) k = ground (
  arith,
  queue-reply_now_sent k msg.in_reply_to,
  queue-reply_now_sent (push_message k msg none for_sender) msg.in_reply_to,
  length-push k msg none for_sender,
  push_fixed k msg none for_sender,
)

length-take_request :
    (our j : ℕ) (msg : Msg) (r : Option Binding) (k : Ksock)
    → let k' = take_request our j msg r k in
      (length k'.message_queue ≡ length k.message_queue + (if is_for j r then 1 else 0))
      × (k'.messages_only_once ≡ k.messages_only_once)
unfolding take_request is_repeat
length-take_request our j msg none k = ground arith
length-take_request our j msg (some r) k =
    ground (
      arith,
      length-push k msg (some r.addr) for_replier,
      push_fixed k msg (some r.addr) for_replier,
    )

wanted-take_reply :
    (our j : ℕ) (msg : Msg) (to : Option ℕ) (k : Ksock)
    → wanted (take_reply our j msg to k).message_queue ≡ wanted k.message_queue
unfolding take_reply pushed_flags
wanted-take_reply our j msg none k = refl
wanted-take_reply our j msg (some to) k = ground (
  arith,
  queue-reply_now_sent k msg.in_reply_to,
  queue-reply_now_sent (push_message k msg none for_sender) msg.in_reply_to,
  wanted-push k msg none for_sender,
)

wanted-take_request-none : (our j : ℕ) (msg : Msg) (k : Ksock) → take_request our j msg none k ≡ k
unfolding take_request
wanted-take_request-none our j msg k = refl

wanted-take_request :
    (our j : ℕ) (msg : Msg) (r : Option Binding) (k : Ksock)
    → wants_reply msg ≡ true
    → wanted (take_request our j msg r k).message_queue
      ≡ wanted k.message_queue + (if is_for j r then 1 else 0)
unfolding take_request is_repeat
wanted-take_request our j msg none k asks = omega arith
wanted-take_request our j msg (some r) k asks =
    ground
      (arith, wanted-push k msg (some r.addr) for_replier, pushed_flags_mark for_replier msg.flags)

-- After a successful call the queue of an open Ksock that has not asked for messages only once has
-- grown by one if the message is a reply to it, by one if the message is a request and the Ksock is
-- the replier that was found, and, unless it was full, by one for each of its matching listener
-- bindings.
pub write_copies :
    (our j : ℕ) (dev : Dev) (msg : Msg) (k : Ksock)
    → (write_to_recipients our dev msg).1 ≡ success
    → find_open_ksock dev j ≡ some k
    → k.messages_only_once ≡ false
    → (k' : Ksock) × (find_open_ksock (write_to_recipients our dev msg).0 j ≡ some k')
      × (length k'.message_queue
          ≡ length k.message_queue
            + (if message_is_reply msg && msg.to == j then 1 else 0)
            + (if wants_reply msg && is_for j (found_replier dev msg) then 1 else 0)
            + (if owner_is_full dev j then 0 else count (listens msg j) dev.bound_message_list))
write_copies our j dev msg k done found often = (
  taken our j msg (the_plan dev msg) k,
  find-write our j dev msg k done found,
  ground (
    arith,
    length-receive j msg plan.listeners (take_request our j msg plan.replier replied),
    length-take_request our j msg plan.replier replied,
    length-take_reply our j msg plan.reply_to k,
    count-listeners dev msg j,
  ),
)
  where
    plan : Plan
    plan = the_plan dev msg

    replied : Ksock
    replied = take_reply our j msg plan.reply_to k

-- The number of a Ksock's messages that it is to reply to is one higher after a successful call if
-- the message is a request and the Ksock is the replier that was found, and otherwise unchanged: a
-- request is marked WANT_YOU_TO_REPLY for one recipient only.
pub write_marks_replier :
    (our j : ℕ) (dev : Dev) (msg : Msg) (k : Ksock)
    → (write_to_recipients our dev msg).1 ≡ success
    → find_open_ksock dev j ≡ some k
    → (k' : Ksock) × (find_open_ksock (write_to_recipients our dev msg).0 j ≡ some k')
      × (wanted k'.message_queue
          ≡ wanted k.message_queue
            + (if wants_reply msg && is_for j (found_replier dev msg) then 1 else 0))
write_marks_replier our j dev msg k done found = (
  taken our j msg (the_plan dev msg) k,
  find-write our j dev msg k done found,
  ground (
    arith,
    wanted-receive j msg plan.listeners (take_request our j msg plan.replier replied),
    wanted-take_request our j msg (found_replier dev msg) replied,
    wanted-take_request-none our j msg replied,
    wanted-take_reply our j msg plan.reply_to k,
  ),
)
  where
    plan : Plan
    plan = the_plan dev msg

    replied : Ksock
    replied = take_reply our j msg plan.reply_to k

take_request_just :
    (our j : ℕ) (msg : Msg) (r : Option Binding) (k : Ksock)
    → is_for j r ≡ true
    → same_id (take_request our j msg r k).msg_id_just_pushed msg.id ≡ true
unfolding take_request
take_request_just our j msg none k mine = cc
take_request_just our j msg (some r) k mine =
    ground (arith, push_just k msg (some r.addr) for_replier)

take_reply-none : (our j : ℕ) (msg : Msg) (k : Ksock) → take_reply our j msg none k ≡ k
unfolding take_reply
take_reply-none our j msg k = refl

-- An open Ksock that has asked for messages only once gets at most one copy of a message that is no
-- reply, also where it is the replier and has bound as listener any number of times.
pub write_only_once :
    (our j : ℕ) (dev : Dev) (msg : Msg) (k : Ksock)
    → (write_to_recipients our dev msg).1 ≡ success
    → message_is_reply msg ≡ false
    → find_open_ksock dev j ≡ some k
    → k.messages_only_once ≡ true
    → (k' : Ksock) × (find_open_ksock (write_to_recipients our dev msg).0 j ≡ some k')
      × (length k'.message_queue ≤ length k.message_queue + 1)
write_only_once our j dev msg k done other found once = (
  taken our j msg (the_plan dev msg) k,
  find-write our j dev msg k done found,
  ground (
    arith,
    take_reply-none our j msg k,
    length-take_request our j msg plan.replier k,
    take_request_just our j msg plan.replier k,
    receive_repeat j msg plan.listeners (take_request our j msg plan.replier k),
    length-receive_once j msg plan.listeners (take_request our j msg plan.replier k),
  ),
)
  where
    plan : Plan
    plan = the_plan dev msg
