-- ===== src/Recipients/Delivery.antt =====
-- kbus_write_to_recipients of kbus/kbus_main.c, as each Ksock sees it.
use kbus.Prelude.{
  ℕ, ◌≡◌, refl, inl, inr, Bool, false, ◌&&◌, Option, none, some, List, [], ◌∷◌, arith, ◌==◌,
  if◌then◌else◌, map, has_bit, ◌||◌, ap,
}
use mathlib.Core.Option
use kbus.Errno.{ok, err, success, eaddrnotavail, >>=-ok, Result-cases}
use kbus.Message.{Msg, MsgId, wants_reply, message_is_reply, all_or_wait, all_or_fail}
use kbus.MsgIdMem.{remember_msg_id}
use kbus.Ksock.Records.{Ksock, for_replier, for_sender}
use kbus.Ksock.Queue.{push_message}
use kbus.Ksock.Replies.{reply_now_sent}
use kbus.Device.{Binding, Dev, find_ksock, find_open_ksock, on_ksock}
use kbus.Device.Store.{find_ksock-update}
use kbus.Recipients.Search.{find_listeners}
use kbus.Recipients.Plan.{
  Plan, full_error, owner_is_full, check_reply_to, check_replier, check_listeners, no_replier,
  plan_recipients, send_reply, send_request, send_to_listeners, write_to_recipients,
}
use kbus.Recipients.Receive.{receive, find-send_to_listeners, push_fixed}

abbrev pub found_replier : Dev → Msg → Option Binding
found_replier dev msg = (find_listeners msg.name_len msg.name_ref dev.bound_message_list).replier

abbrev pub found_listeners : Dev → Msg → List Binding
found_listeners dev msg =
    (find_listeners msg.name_len msg.name_ref dev.bound_message_list).listeners

-- A listener, unless its owner's queue is full.
abbrev pub with_room : Dev → Binding → Option Binding
with_room dev b = if owner_is_full dev b.bound_to then none else some b

-- The plan of a message that can be sent.
abbrev pub the_plan : Dev → Msg → Plan
the_plan dev msg = record {
  reply_to = if message_is_reply msg then some msg.to else none;
  replier = if wants_reply msg then found_replier dev msg else none;
  listeners = map (with_room dev) (found_listeners dev msg);
}

pub check_reply_to-ok :
    (our : ℕ) (dev : Dev) (msg : Msg) (r : Option ℕ)
    → check_reply_to our dev msg ≡ ok r
    → r ≡ (if message_is_reply msg then some msg.to else none)
unfolding check_reply_to
check_reply_to-ok our dev msg r h = ground arith

check_replier-ok :
    (dev : Dev) (msg : Msg) (found r : Option Binding)
    → check_replier dev msg found ≡ ok r
    → r ≡ (if wants_reply msg then found else none)
unfolding check_replier
check_replier-ok dev msg none r h = ground arith
check_replier-ok dev msg (some b) r h = ground arith

-- Is a listener there whose queue is full?
abbrev pub any_full : Dev → List Binding → Bool
any_full dev [] = false
any_full dev (b ∷ bs) = owner_is_full dev b.bound_to || any_full dev bs

abbrev pub is_strict : Msg → Bool
is_strict msg = has_bit all_or_wait msg.flags || has_bit all_or_fail msg.flags

pub check_listeners_lem :
    (dev : Dev) (msg : Msg) (bs : List Binding)
    → check_listeners dev msg bs ≡ (
        if is_strict msg && any_full dev bs
        then err (full_error msg)
        else ok (map (with_room dev) bs))
unfolding check_listeners
check_listeners_lem dev msg [] = ground arith
check_listeners_lem dev msg (b ∷ bs) = ground (arith, check_listeners_lem dev msg bs)

check_listeners-ok :
    (dev : Dev) (msg : Msg) (bs : List Binding) (ls : List (Option Binding))
    → check_listeners dev msg bs ≡ ok ls
    → ls ≡ map (with_room dev) bs
check_listeners-ok dev msg bs ls h = ground (arith, check_listeners_lem dev msg bs)

-- A message that can be sent goes to those that `the_plan` says.
pub plan_recipients-ok :
    (our : ℕ) (dev : Dev) (msg : Msg) (plan : Plan)
    → plan_recipients our dev msg ≡ ok plan
    → plan ≡ the_plan dev msg
unfolding plan_recipients
plan_recipients-ok our dev msg plan h =
    let (u, _, h₁) =
      >>=-ok (if wants_reply msg && no_replier found then err eaddrnotavail else success) _ h in
    let (reply_to, p, h₂) = >>=-ok (check_reply_to our dev msg) _ h₁ in
    let (replier, q, h₃) = >>=-ok (check_replier dev msg found) _ h₂ in
    let (listeners, r, h₄) = >>=-ok (check_listeners dev msg (found_listeners dev msg)) _ h₃ in
    ground (
      arith,
      check_reply_to-ok our dev msg reply_to p,
      check_replier-ok dev msg found replier q,
      check_listeners-ok dev msg (found_listeners dev msg) listeners r,
      h₄,
    )
  where
    found : Option Binding
    found = found_replier dev msg

-- The device after a message has been sent as planned.
abbrev pub sent : ℕ → Dev → Msg → Plan → Dev
sent our dev msg plan =
    send_to_listeners (send_request our (send_reply our dev msg plan.reply_to) msg plan.replier) msg
      plan.listeners

-- A successful call sends the message as planned.
pub write_success :
    (our : ℕ) (dev : Dev) (msg : Msg)
    → (write_to_recipients our dev msg).1 ≡ success
    → (write_to_recipients our dev msg).0 ≡ sent our dev msg (the_plan dev msg)
unfolding write_to_recipients
write_success our dev msg h = elim (Result-cases (plan_recipients our dev msg)) [
  | inl (plan, e) ↦
      rw (e, write_to_recipients) (ap (sent our dev msg) (plan_recipients-ok our dev msg plan e))
  | inr (error, e) ↦ ground (arith, e)
]

-- What a Ksock does with the reply, the request and its own copies as listener.
unfoldable pub take_reply : ℕ → ℕ → Msg → Option ℕ → Ksock → Ksock
take_reply our j msg none k = k
take_reply our j msg (some to) k =
    let k' = if to == j then push_message k msg none for_sender else k in
    if our == j then (reply_now_sent k' msg.in_reply_to).0 else k'

unfoldable pub take_request : ℕ → ℕ → Msg → Option Binding → Ksock → Ksock
take_request our j msg none k = k
take_request our j msg (some r) k =
    let k' = if r.bound_to == j then push_message k msg (some r.addr) for_replier else k in
    if our == j
    then record k' { outstanding_requests = remember_msg_id k'.outstanding_requests msg.id }
    else k'

id-reply_now_sent : (k : Ksock) (id : MsgId) → (reply_now_sent k id).0.id ≡ k.id
unfolding reply_now_sent
id-reply_now_sent k id = ground arith

find-send_reply :
    (our j : ℕ) (dev : Dev) (msg : Msg) (to : Option ℕ)
    → find_ksock j (send_reply our dev msg to).open_ksock_list
      ≡ Option.map (take_reply our j msg to) (find_ksock j dev.open_ksock_list)
unfolding send_reply take_reply
find-send_reply our j dev msg none = ground arith
find-send_reply our j dev msg (some to) = ground (
  arith,
  find_ksock-update our j (λ k. (reply_now_sent k msg.in_reply_to).0)
      (on_ksock dev to (λ k. push_message k msg none for_sender)).open_ksock_list
      (λ k. id-reply_now_sent k msg.in_reply_to),
  find_ksock-update to j (λ k. push_message k msg none for_sender) dev.open_ksock_list
      (λ k. (push_fixed k msg none for_sender).0),
)

find-send_request :
    (our j : ℕ) (dev : Dev) (msg : Msg) (r : Option Binding)
    → find_ksock j (send_request our dev msg r).open_ksock_list
      ≡ Option.map (take_request our j msg r) (find_ksock j dev.open_ksock_list)
unfolding send_request take_request
find-send_request our j dev msg none = ground arith
find-send_request our j dev msg (some r) = ground (
  arith,
  find_ksock-update our j
      (λ k. record k { outstanding_requests = remember_msg_id k.outstanding_requests msg.id })
      (on_ksock dev r.bound_to (λ k. push_message k msg (some r.addr) for_replier)).open_ksock_list
      (λ k. refl),
  find_ksock-update r.bound_to j (λ k. push_message k msg (some r.addr) for_replier)
      dev.open_ksock_list (λ k. (push_fixed k msg (some r.addr) for_replier).0),
)

-- All that a Ksock takes of a message.
abbrev pub taken : ℕ → ℕ → Msg → Plan → Ksock → Ksock
taken our j msg plan k =
    receive j msg plan.listeners
      (take_request our j msg plan.replier (take_reply our j msg plan.reply_to k))

-- A successful call changes each open Ksock by what it takes of the message.
pub find-write :
    (our j : ℕ) (dev : Dev) (msg : Msg) (k : Ksock)
    → (write_to_recipients our dev msg).1 ≡ success
    → find_open_ksock dev j ≡ some k
    → find_open_ksock (write_to_recipients our dev msg).0 j
      ≡ some (taken our j msg (the_plan dev msg) k)
find-write our j dev msg k done found = rw (write_success our dev msg done) (
    ground (
      arith,
      find-send_to_listeners j
          (send_request our (send_reply our dev msg plan.reply_to) msg plan.replier) msg
          plan.listeners,
      find-send_request our j (send_reply our dev msg plan.reply_to) msg plan.replier,
      find-send_reply our j dev msg plan.reply_to,
    ))
  where
    plan : Plan
    plan = the_plan dev msg
