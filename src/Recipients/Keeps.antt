-- ===== src/Recipients/Keeps.antt =====
-- kbus_write_to_recipients of kbus/kbus_main.c keeps every Ksock valid.
use kbus.Prelude.{
  ℕ, ◌<◌, ◌≡◌, ◌≢◌, inl, inr, Option, none, some, List, [], ◌∷◌, arith, All, All-imp,
}
use kbus.Errno.{Result-cases}
use kbus.Message.{Msg, MsgId, no_id}
use kbus.MsgIdMem.{MsgIdMem, forget_msg_id, remember_msg_id}
use kbus.MsgIdMem.Laws.{remember_msg_id-IsValid}
use kbus.Ksock.Records.{Ksock, RecipientType, for_listener, for_replier, for_sender}
use kbus.Ksock.Queue.{push_message}
use kbus.Ksock.Replies.{reply_now_sent}
use kbus.Ksock.Validity.{IsValid, push_message-IsValid, reply_now_sent-IsValid}
use kbus.Device.{Binding, Dev, update_ksock, on_ksock}
use kbus.Device.Store.{All-update, All-update_imp}
use kbus.Recipients.Plan.{
  plan_recipients, send_reply, send_request, send_to_listeners, write_to_recipients,
}

-- A valid Ksock with an array of outstanding requests that can grow without a wrap.
pub record CanGrow (k : Ksock) : Type 0 where
  pub valid : IsValid k
  pub room : k.outstanding_requests.size < 2147483648

size-forget : (mem : MsgIdMem) (id : MsgId) → (forget_msg_id mem id).0.size ≡ mem.size
unfolding forget_msg_id
size-forget mem id = ground arith

size-push :
    (k : Ksock) (msg : Msg) (binding : Option ℕ) (for_whom : RecipientType)
    → (push_message k msg binding for_whom).outstanding_requests.size ≡ k.outstanding_requests.size
unfolding push_message
size-push k msg binding for_whom =
    ground (arith, size-forget k.outstanding_requests msg.in_reply_to)

push_message-CanGrow :
    (msg : Msg) (binding : Option ℕ) (for_whom : RecipientType) (k : Ksock)
    → CanGrow k
    → CanGrow (push_message k msg binding for_whom)
push_message-CanGrow msg binding for_whom k g = record {
  valid = push_message-IsValid k msg binding for_whom g.valid;
  room = omega (arith, g.room, size-push k msg binding for_whom);
}

size-reply_now_sent :
    (k : Ksock) (id : MsgId)
    → (reply_now_sent k id).0.outstanding_requests.size ≡ k.outstanding_requests.size
unfolding reply_now_sent
size-reply_now_sent k id = ground arith

send_reply-CanGrow :
    (our : ℕ) (dev : Dev) (msg : Msg) (to : Option ℕ)
    → All CanGrow dev.open_ksock_list
    → All CanGrow (send_reply our dev msg to).open_ksock_list
unfolding send_reply
send_reply-CanGrow our dev msg none g = g
send_reply-CanGrow our dev msg (some to) g =
    All-update CanGrow our (λ k. (reply_now_sent k msg.in_reply_to).0)
      (update_ksock to (λ k. push_message k msg none for_sender) dev.open_ksock_list)
      (λ k h. record {
        valid = reply_now_sent-IsValid k msg.in_reply_to h.valid;
        room = omega (arith, h.room, size-reply_now_sent k msg.in_reply_to);
      })
      (All-update CanGrow to _ dev.open_ksock_list (push_message-CanGrow msg none for_sender) g)

send_request-IsValid :
    (our : ℕ) (dev : Dev) (msg : Msg) (r : Option Binding)
    → msg.id ≢ no_id
    → All CanGrow dev.open_ksock_list
    → All IsValid (send_request our dev msg r).open_ksock_list
unfolding send_request
send_request-IsValid our dev msg none ne g =
    All-imp CanGrow IsValid dev.open_ksock_list (λ k h. h.valid) g
send_request-IsValid our dev msg (some r) ne g =
    All-update_imp CanGrow IsValid our
      (λ k. record k { outstanding_requests = remember_msg_id k.outstanding_requests msg.id })
      (update_ksock r.bound_to (λ k. push_message k msg (some r.addr) for_replier)
        dev.open_ksock_list)
      (λ k h. record {
        queued = h.valid.queued;
        unreplied = h.valid.unreplied;
        outstanding =
            remember_msg_id-IsValid k.outstanding_requests msg.id h.valid.outstanding h.room ne;
      })
      (λ k h. h.valid)
      (All-update CanGrow r.bound_to _ dev.open_ksock_list
        (push_message-CanGrow msg (some r.addr) for_replier) g)

send_to_listeners-IsValid :
    (dev : Dev) (msg : Msg) (bs : List (Option Binding))
    → All IsValid dev.open_ksock_list
    → All IsValid (send_to_listeners dev msg bs).open_ksock_list
unfolding send_to_listeners
send_to_listeners-IsValid dev msg [] v = v
send_to_listeners-IsValid dev msg (none ∷ bs) v = send_to_listeners-IsValid dev msg bs v
send_to_listeners-IsValid dev msg (some b ∷ bs) v =
    send_to_listeners-IsValid
      (on_ksock dev b.bound_to (λ k. push_message k msg (some b.addr) for_listener)) msg bs
      (All-update IsValid b.bound_to _ dev.open_ksock_list
        (λ k h. push_message-IsValid k msg (some b.addr) for_listener h) v)

-- Whatever kbus_write_to_recipients returns, every Ksock on the device is valid afterwards, if they
-- all were, could still remember a request, and the message has an id.
pub write-IsValid :
    (our : ℕ) (dev : Dev) (msg : Msg)
    → msg.id ≢ no_id
    → All CanGrow dev.open_ksock_list
    → All IsValid (write_to_recipients our dev msg).0.open_ksock_list
unfolding write_to_recipients
write-IsValid our dev msg ne g = elim (Result-cases (plan_recipients our dev msg)) [
  | inr (e, failed) ↦
      rw (failed, write_to_recipients)
        (All-imp CanGrow IsValid dev.open_ksock_list (λ k h. h.valid) g)
  | inl (plan, planned) ↦
      rw (planned, write_to_recipients)
        (send_to_listeners-IsValid _ msg plan.listeners (
          send_request-IsValid our (send_reply our dev msg plan.reply_to) msg plan.replier ne
            (send_reply-CanGrow our dev msg plan.reply_to g)))
]
