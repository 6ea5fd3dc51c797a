-- ===== src/Recipients/Plan.antt =====
-- kbus_write_to_recipients of kbus/kbus_main.c. Its first half, up to "Actually send the messages",
-- decides who is to get the message or why it cannot be sent; its second half sends it.
use kbus.Prelude.{
  ℕ, Bool, true, false, not, ◌&&◌, Option, none, some, List, [], ◌∷◌, ◌==◌, if◌then◌else◌, has_bit,
}
use kbus.Errno.{
  Errno, Result, ok, err, ◌>>=◌, ◌>>◌, success, eagain, ebusy, eaddrnotavail, econnrefused, epipe,
}
use kbus.Message.{Msg, wants_reply, message_is_reply, all_or_wait, all_or_fail}
use kbus.MsgIdMem.{find_msg_id, remember_msg_id}
use kbus.Ksock.Records.{for_listener, for_replier, for_sender}
use kbus.Ksock.Queue.{push_message, queue_is_full}
use kbus.Ksock.Replies.{reply_now_sent}
use kbus.Device.{Binding, Dev, find_open_ksock, find_private_data, on_ksock}
use kbus.Recipients.Search.{find_listeners}

-- Who is to get the message. An entry `none` is a listener whose queue is full.
pub record Plan : Type 0 where
  pub reply_to : Option ℕ
  pub replier : Option Binding
  pub listeners : List (Option Binding)

-- Why a message cannot be sent to somebody whose queue is full.
abbrev pub full_error : Msg → Errno
full_error msg = if has_bit all_or_wait msg.flags then eagain else ebusy

-- kbus_queue_is_full for the owner of a binding, who is always open.
unfoldable pub owner_is_full : Dev → ℕ → Bool
unfolding find_private_data
owner_is_full dev id = elim (find_open_ksock dev id) [
  | none ↦ true
  | some k ↦ queue_is_full k false
]

unfoldable pub check_reply_to : ℕ → Dev → Msg → Result (Option ℕ)
check_reply_to our dev msg =
    if message_is_reply msg
    then elim (find_private_data our dev msg.to) [
      | none ↦ err eaddrnotavail
      | some k ↦
          if not (find_msg_id k.outstanding_requests msg.in_reply_to)
          then err econnrefused
          else if queue_is_full k true
          then err (full_error msg)
          else ok (some msg.to)
    ]
    else ok none

unfoldable pub check_replier : Dev → Msg → Option Binding → Result (Option Binding)
check_replier dev msg none = ok none
check_replier dev msg (some r) =
    if not (wants_reply msg)
    then ok none
    else if not (msg.to == 0) && not (r.bound_to_id == msg.to)
    then err epipe
    else if owner_is_full dev r.bound_to
    then err (full_error msg)
    else ok (some r)

unfoldable pub check_listeners : Dev → Msg → List Binding → Result (List (Option Binding))
check_listeners dev msg [] = ok []
check_listeners dev msg (b ∷ bs) =
    let rest = check_listeners dev msg bs in
    if owner_is_full dev b.bound_to
    then if has_bit all_or_wait msg.flags
      then err eagain
      else if has_bit all_or_fail msg.flags
      then err ebusy
      else (rest >>= λ ls. ok (none ∷ ls))
    else (rest >>= λ ls. ok (some b ∷ ls))

unfoldable pub no_replier : Option Binding → Bool
no_replier none = true
no_replier (some r) = false

unfoldable pub plan_recipients : ℕ → Dev → Msg → Result Plan
unfolding no_replier
plan_recipients our dev msg = do
  let found = find_listeners msg.name_len msg.name_ref dev.bound_message_list
  if wants_reply msg && no_replier found.replier then err eaddrnotavail else success
  reply_to ← check_reply_to our dev msg
  replier ← check_replier dev msg found.replier
  listeners ← check_listeners dev msg found.listeners
  ok (record { reply_to = reply_to; replier = replier; listeners = listeners })

unfoldable pub send_reply : ℕ → Dev → Msg → Option ℕ → Dev
send_reply our dev msg none = dev
send_reply our dev msg (some to) =
    on_ksock (on_ksock dev to (λ k. push_message k msg none for_sender)) our
      (λ k. (reply_now_sent k msg.in_reply_to).0)

unfoldable pub send_request : ℕ → Dev → Msg → Option Binding → Dev
send_request our dev msg none = dev
send_request our dev msg (some r) =
    on_ksock (on_ksock dev r.bound_to (λ k. push_message k msg (some r.addr) for_replier)) our
      (λ k. record k { outstanding_requests = remember_msg_id k.outstanding_requests msg.id })

unfoldable pub send_to_listeners : Dev → Msg → List (Option Binding) → Dev
send_to_listeners dev msg [] = dev
send_to_listeners dev msg (none ∷ bs) = send_to_listeners dev msg bs
send_to_listeners dev msg (some b ∷ bs) =
    send_to_listeners (on_ksock dev b.bound_to (λ k. push_message k msg (some b.addr) for_listener))
      msg bs

-- kbus_write_to_recipients: `our` is the Ksock that sends.
unfoldable pub write_to_recipients : ℕ → Dev → Msg → Dev × Result (Unit {0})
unfolding plan_recipients
write_to_recipients our dev msg = elim (plan_recipients our dev msg) [
  | err e ↦ (dev, err e)
  | ok plan ↦ (
    send_to_listeners (send_request our (send_reply our dev msg plan.reply_to) msg plan.replier) msg
        plan.listeners,
    success,
  )
]
