-- ===== src/Recipients/Refusal.antt =====
-- When kbus_write_to_recipients of kbus/kbus_main.c refuses to send, and that it then sends nothing.
use kbus.Prelude.{
  ℕ, ◌≡◌, refl, ◌⊎◌, inl, inr, true, false, not, ◌&&◌, Option, none, some, arith, ◌==◌,
  if◌then◌else◌, Bool-cases, Option-cases,
}
use kbus.Errno.{
  Errno, Result, Result-cases, ok, err, ◌>>=◌, success, eaddrnotavail, econnrefused, epipe,
}
use kbus.Message.{Msg, wants_reply, message_is_reply}
use kbus.MsgIdMem.{find_msg_id}
use kbus.Ksock.Records.{Ksock}
use kbus.Ksock.Queue.{queue_is_full}
use kbus.Device.{Binding, Dev, find_open_ksock, find_private_data}
use kbus.Recipients.Plan.{
  full_error, owner_is_full, check_reply_to, check_replier, check_listeners, no_replier,
  plan_recipients, write_to_recipients,
}
use kbus.Recipients.Delivery.{
  found_replier, found_listeners, any_full, is_strict, check_listeners_lem,
}

-- Why a message is refused.
pub data Refused (dev : Dev) (msg : Msg) (e : Errno) : Type 0 where
  nobody_to_reply :
      e ≡ eaddrnotavail → wants_reply msg ≡ true → found_replier dev msg ≡ none → Refused dev msg e
  sender_gone :
      e ≡ eaddrnotavail
      → message_is_reply msg ≡ true
      → find_open_ksock dev msg.to ≡ none
      → Refused dev msg e
  not_expected :
      (k : Ksock)
      → e ≡ econnrefused
      → message_is_reply msg ≡ true
      → find_open_ksock dev msg.to ≡ some k
      → find_msg_id k.outstanding_requests msg.in_reply_to ≡ false
      → Refused dev msg e
  sender_full :
      (k : Ksock)
      → e ≡ full_error msg
      → message_is_reply msg ≡ true
      → find_open_ksock dev msg.to ≡ some k
      → queue_is_full k true ≡ true
      → Refused dev msg e
  other_replier :
      (r : Binding)
      → e ≡ epipe
      → wants_reply msg ≡ true
      → found_replier dev msg ≡ some r
      → (msg.to == 0) ≡ false
      → (r.bound_to_id == msg.to) ≡ false
      → Refused dev msg e
  replier_full :
      (r : Binding)
      → e ≡ full_error msg
      → wants_reply msg ≡ true
      → found_replier dev msg ≡ some r
      → owner_is_full dev r.bound_to ≡ true
      → Refused dev msg e
  listener_full :
      e ≡ full_error msg
      → is_strict msg ≡ true
      → any_full dev (found_listeners dev msg) ≡ true
      → Refused dev msg e

>>=-cases {ℓ m} :
    {X : Type ℓ} {Y : Type m} (r : Result X) (next : X → Result Y) (e : Errno)
    → r >>= next ≡ err e
    → (r ≡ err e) ⊎ ((x : X) × (r ≡ ok x) × (next x ≡ err e))
>>=-cases (err d) next e failed = inl (cc)
>>=-cases (ok x) next e failed = inr (x, refl, failed)

pub find_private_data_lem :
    (our : ℕ) (dev : Dev) (id : ℕ) → find_private_data our dev id ≡ find_open_ksock dev id
unfolding find_private_data
find_private_data_lem our dev id = ground arith

check_reply_to-err :
    (our : ℕ) (dev : Dev) (msg : Msg) (e : Errno)
    → check_reply_to our dev msg ≡ err e
    → Refused dev msg e
unfolding check_reply_to
check_reply_to-err our dev msg e h = elim (Bool-cases (message_is_reply msg)) [
  | inr other ↦ absurd (ground arith)
  | inl reply ↦ elim (Option-cases (find_open_ksock dev msg.to)) [
    | inl gone ↦ sender_gone (ground (arith, find_private_data_lem our dev msg.to)) reply gone
    | inr (k, found) ↦ elim (Bool-cases (find_msg_id k.outstanding_requests msg.in_reply_to)) [
      | inr unexpected ↦
          not_expected k (ground (arith, find_private_data_lem our dev msg.to)) reply found
            unexpected
      | inl expected ↦
          sender_full k (ground (arith, find_private_data_lem our dev msg.to)) reply found
            (ground (arith, find_private_data_lem our dev msg.to))
    ]
  ]
]

check_replier-err :
    (dev : Dev) (msg : Msg) (e : Errno) (found : Option Binding)
    → found_replier dev msg ≡ found
    → check_replier dev msg found ≡ err e
    → Refused dev msg e
unfolding check_replier
check_replier-err dev msg e none same h = absurd (cc)
check_replier-err dev msg e (some r) same h = elim (Bool-cases (wants_reply msg)) [
  | inr other ↦ absurd (ground arith)
  | inl asks ↦ elim (Bool-cases (not (msg.to == 0) && not (r.bound_to_id == msg.to))) [
    | inl wrong ↦ other_replier r (ground arith) asks same (ground arith) (ground arith)
    | inr right ↦ replier_full r (ground arith) asks same (ground arith)
  ]
]

check_listeners-err :
    (dev : Dev) (msg : Msg) (e : Errno)
    → check_listeners dev msg (found_listeners dev msg) ≡ err e
    → Refused dev msg e
check_listeners-err dev msg e h =
    elim (Bool-cases (is_strict msg && any_full dev (found_listeners dev msg))) [
      | inl full ↦
          listener_full (ground (arith, check_listeners_lem dev msg (found_listeners dev msg)))
            (ground arith) (ground arith)
      | inr room ↦ absurd (ground (arith, check_listeners_lem dev msg (found_listeners dev msg)))
    ]

no_replier-none : (o : Option Binding) → no_replier o ≡ true → o ≡ none
unfolding no_replier
no_replier-none o h = ground arith

plan_recipients-err :
    (our : ℕ) (dev : Dev) (msg : Msg) (e : Errno)
    → plan_recipients our dev msg ≡ err e
    → Refused dev msg e
unfolding plan_recipients
plan_recipients-err our dev msg e h = elim (>>=-cases unanswered _ e h) [
  | inl h₀ ↦
      nobody_to_reply (ground arith) (ground arith)
        (no_replier-none (found_replier dev msg) (ground arith))
  | inr (u, _, h₁) ↦ elim (>>=-cases (check_reply_to our dev msg) _ e h₁) [
    | inl p ↦ check_reply_to-err our dev msg e p
    | inr (to, _, h₂) ↦ elim (>>=-cases (check_replier dev msg (found_replier dev msg)) _ e h₂) [
      | inl q ↦ check_replier-err dev msg e (found_replier dev msg) refl q
      | inr (r, _, h₃) ↦
          elim (>>=-cases (check_listeners dev msg (found_listeners dev msg)) _ e h₃) [
            | inl l ↦ check_listeners-err dev msg e l
            | inr (ls, _, h₄) ↦ absurd (cc)
          ]
    ]
  ]
]
  where
    unanswered : Result (Unit {0})
    unanswered =
        if wants_reply msg && no_replier (found_replier dev msg) then err eaddrnotavail else success

-- A failed kbus_write_to_recipients leaves the device as it was, and its error has a reason:
-- EADDRNOTAVAIL if a request has no replier or a reply's addressee is gone, ECONNREFUSED if the
-- addressee does not have the request outstanding, EPIPE if a request names another replier than the
-- one that is bound, and otherwise EAGAIN, where ALL_OR_WAIT is set, or EBUSY, if the queue of the
-- addressee, of the replier, or for ALL_OR_WAIT or ALL_OR_FAIL of a listener, is full.
pub write-Refused :
    (our : ℕ) (dev : Dev) (msg : Msg) (e : Errno)
    → (write_to_recipients our dev msg).1 ≡ err e
    → ((write_to_recipients our dev msg).0 ≡ dev) × Refused dev msg e
unfolding write_to_recipients
write-Refused our dev msg e h = elim (Result-cases (plan_recipients our dev msg)) [
  | inl (plan, ok_plan) ↦ absurd (ground (arith, ok_plan))
  | inr (d, failed) ↦
      (rw (failed, write_to_recipients), plan_recipients-err our dev msg e (ground (arith, failed)))
]
