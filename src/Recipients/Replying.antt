-- ===== src/Recipients/Replying.antt =====
-- Requests and replies in kbus_write_to_recipients of kbus/kbus_main.c: a request is remembered
-- until its reply, and a reply is taken once.
use kbus.Prelude.{
  ℕ, ◌+◌, ◌<◌, ◌≡◌, ◌≢◌, refl, inl, inr, true, false, Option, none, some, arith, ◌∙◌, if◌then◌else◌,
  Option-cases,
}
use kbus.Errno.{err, success, econnrefused}
use kbus.Message.{Msg, MsgId, no_id, same_id, wants_reply, message_is_reply}
use kbus.MsgIdMem.{find_msg_id, forget_msg_id, remember_msg_id}
use kbus.MsgIdMem.Laws.{times, remember_adds_one, forget_forgets}
use kbus.Ksock.Records.{Ksock, for_sender, for_replier}
use kbus.Ksock.Queue.{push_message}
use kbus.Ksock.Replies.{reply_now_sent}
use kbus.Ksock.Validity.{IsValid, is_reply-ne}
use kbus.Ksock.Room.{push_reply_outstanding}
use kbus.Device.{Binding, Dev, find_open_ksock}
use kbus.Recipients.Plan.{Plan, check_reply_to, no_replier, write_to_recipients}
use kbus.Recipients.Receive.{receive-outstanding}
use kbus.Recipients.Delivery.{found_replier, the_plan, take_reply, take_request, taken, find-write}
use kbus.Recipients.Refusal.{find_private_data_lem}

-- A reply, not itself a request, to an open Ksock that does not have the request outstanding is
-- refused with ECONNREFUSED, and the device stays as it was.
pub reply_unexpected :
    (our : ℕ) (dev : Dev) (msg : Msg) (k : Ksock)
    → message_is_reply msg ≡ true
    → wants_reply msg ≡ false
    → find_open_ksock dev msg.to ≡ some k
    → find_msg_id k.outstanding_requests msg.in_reply_to ≡ false
    → write_to_recipients our dev msg ≡ (dev, err econnrefused)
unfolding write_to_recipients check_reply_to
reply_unexpected our dev msg k reply plain found unexpected =
    ground (arith, find_private_data_lem our dev msg.to)

outstanding-reply_now_sent :
    (k : Ksock) (id : MsgId) → (reply_now_sent k id).0.outstanding_requests ≡ k.outstanding_requests
unfolding reply_now_sent
outstanding-reply_now_sent k id = ground arith

-- What the sender of the request has outstanding once the reply is there.
outstanding-take_reply :
    (our : ℕ) (msg : Msg) (k : Ksock)
    → message_is_reply msg ≡ true
    → (take_reply our msg.to msg (some msg.to) k).outstanding_requests
      ≡ (forget_msg_id k.outstanding_requests msg.in_reply_to).0
unfolding take_reply
outstanding-take_reply our msg k reply = ground (
  arith,
  push_reply_outstanding k msg none reply,
  outstanding-reply_now_sent (push_message k msg none for_sender) msg.in_reply_to,
)

take_request_nobody : (our j : ℕ) (msg : Msg) (k : Ksock) → take_request our j msg none k ≡ k
unfolding take_request
take_request_nobody our j msg k = refl

take_reply_nobody : (our j : ℕ) (msg : Msg) (k : Ksock) → take_reply our j msg none k ≡ k
unfolding take_reply
take_reply_nobody our j msg k = refl

outstanding-taken_reply :
    (our : ℕ) (dev : Dev) (msg : Msg) (k : Ksock)
    → message_is_reply msg ≡ true
    → wants_reply msg ≡ false
    → (taken our msg.to msg (the_plan dev msg) k).outstanding_requests
      ≡ (forget_msg_id k.outstanding_requests msg.in_reply_to).0
outstanding-taken_reply our dev msg k reply plain = ground (
  arith,
  receive-outstanding msg.to msg (the_plan dev msg).listeners
      (take_reply our msg.to msg (some msg.to) k),
  take_request_nobody our msg.to msg (take_reply our msg.to msg (some msg.to) k),
  outstanding-take_reply our msg k reply,
)

message_is_reply_cong :
    (a b : Msg) → a.in_reply_to ≡ b.in_reply_to → message_is_reply a ≡ message_is_reply b
unfolding message_is_reply
message_is_reply_cong a b e = rw e

-- Once a reply, not itself a request, has been sent to an open Ksock that had the request
-- outstanding once, every further reply to that request, not itself a request, is refused with
-- ECONNREFUSED and changes nothing, whoever sends it.
pub reply_once :
    (our other : ℕ) (dev : Dev) (msg again : Msg) (k : Ksock)
    → message_is_reply msg ≡ true
    → wants_reply msg ≡ false
    → (write_to_recipients our dev msg).1 ≡ success
    → find_open_ksock dev msg.to ≡ some k
    → times msg.in_reply_to k.outstanding_requests.ids ≡ 1
    → again.in_reply_to ≡ msg.in_reply_to
    → again.to ≡ msg.to
    → wants_reply again ≡ false
    → let dev' = (write_to_recipients our dev msg).0 in
      write_to_recipients other dev' again ≡ (dev', err econnrefused)
reply_once our other dev msg again k reply plain done found one same_request same_sender plain' =
    reply_unexpected other (write_to_recipients our dev msg).0 again k'
      (message_is_reply_cong again msg same_request ∙ reply) plain'
      (rw same_sender (find-write our msg.to dev msg k done found))
      (rw (same_request, outstanding-taken_reply our dev msg k reply plain)
        (forget_forgets k.outstanding_requests msg.in_reply_to (is_reply-ne msg reply) one))
  where
    k' : Ksock
    k' = taken our msg.to msg (the_plan dev msg) k

-- A request that can be sent has a replier.
request-found :
    (our : ℕ) (dev : Dev) (msg : Msg)
    → wants_reply msg ≡ true
    → (write_to_recipients our dev msg).1 ≡ success
    → (r : Binding) × (found_replier dev msg ≡ some r)
unfolding write_to_recipients no_replier
request-found our dev msg asks done = elim (Option-cases (found_replier dev msg)) [
  | inl nobody ↦ absurd (ground (arith, nobody))
  | inr found ↦ found
]

push_replier_outstanding :
    (k : Ksock) (msg : Msg) (binding : Option ℕ)
    → (push_message k msg binding for_replier).outstanding_requests ≡ k.outstanding_requests
unfolding push_message
push_replier_outstanding k msg binding = ground arith

outstanding-take_request :
    (our : ℕ) (msg : Msg) (r : Binding) (k : Ksock)
    → (take_request our our msg (some r) k).outstanding_requests
      ≡ remember_msg_id k.outstanding_requests msg.id
unfolding take_request
outstanding-take_request our msg r k = ground (arith, push_replier_outstanding k msg (some r.addr))

-- After a request that is not also a reply has been sent, its sender, if it was open and valid and
-- its memory had less than 2^31 slots, has the request outstanding once more than before, and every
-- other id as often as before.
pub request_remembered :
    (our : ℕ) (dev : Dev) (msg : Msg) (k : Ksock) (x : MsgId)
    → message_is_reply msg ≡ false
    → wants_reply msg ≡ true
    → (write_to_recipients our dev msg).1 ≡ success
    → find_open_ksock dev our ≡ some k
    → IsValid k
    → k.outstanding_requests.size < 2147483648
    → x ≢ no_id
    → (k' : Ksock) × (find_open_ksock (write_to_recipients our dev msg).0 our ≡ some k')
      × (times x k'.outstanding_requests.ids
          ≡ times x k.outstanding_requests.ids + (if same_id msg.id x then 1 else 0))
request_remembered our dev msg k x other asks done found v small ne = (
  taken our our msg (the_plan dev msg) k,
  find-write our our dev msg k done found,
  ground (
    arith,
    receive-outstanding our msg plan.listeners
        (take_request our our msg (some replier.0) (take_reply our our msg none k)),
    replier.1,
    take_reply_nobody our our msg k,
    outstanding-take_request our msg replier.0 k,
    remember_adds_one k.outstanding_requests msg.id x v.outstanding small ne,
  ),
)
  where
    plan : Plan
    plan = the_plan dev msg

    replier : (r : Binding) × (found_replier dev msg ≡ some r)
    replier = request-found our dev msg asks done
