-- ===== src/Recipients/Receive.antt =====
-- What one Ksock gets when kbus_write_to_recipients of kbus/kbus_main.c goes through the listeners.
use kbus.Prelude.{
  ℕ, ◌+◌, ◌≤◌, ◌≡◌, refl, inl, inr, Bool, true, false, Option, none, some, List, [], ◌∷◌, arith,
  ◌==◌, if◌then◌else◌, length, count, count-append, has_bit, Bool-cases,
}
use mathlib.Core.Option
use kbus.Message.{Msg, same_id, same_id_iff, urgent, want_you_to_reply}
use kbus.Ksock.Records.{Ksock, QueueItem, RecipientType, for_listener}
use kbus.Ksock.Queue.{enqueue, pushed_flags, pushed_item, is_repeat, push_message}
use kbus.Ksock.Validity.{IsValid, push_message-IsValid}
use kbus.Ksock.Room.{length-push}
use kbus.Device.{Binding, Dev, find_ksock, on_ksock}
use kbus.Device.Store.{find_ksock-update}
use kbus.Recipients.Plan.{send_to_listeners}

-- What a push leaves alone.
pub push_fixed :
    (k : Ksock) (msg : Msg) (binding : Option ℕ) (for_whom : RecipientType)
    → let k' = push_message k msg binding for_whom in
      (k'.id ≡ k.id)
      × (k'.messages_only_once ≡ k.messages_only_once)
      × (k'.max_messages ≡ k.max_messages)
unfolding push_message
push_fixed k msg binding for_whom = ground arith

pub push_listener_outstanding :
    (k : Ksock) (msg : Msg) (binding : Option ℕ)
    → (push_message k msg binding for_listener).outstanding_requests ≡ k.outstanding_requests
unfolding push_message
push_listener_outstanding k msg binding = ground arith

-- After a push the message's id is the one just pushed.
pub push_just :
    (k : Ksock) (msg : Msg) (binding : Option ℕ) (for_whom : RecipientType)
    → same_id (push_message k msg binding for_whom).msg_id_just_pushed msg.id ≡ true
unfolding push_message is_repeat
push_just k msg binding for_whom = ground (arith, same_id_iff msg.id msg.id)

-- The items of a queue that their reader is to reply to.
abbrev pub wanted : List QueueItem → ℕ
wanted = count (λ item. has_bit want_you_to_reply item.msg.flags)

wanted-enqueue :
    (b : Bool) (item : QueueItem) (queue : List QueueItem)
    → wanted (enqueue b item queue)
      ≡ wanted queue + (if has_bit want_you_to_reply item.msg.flags then 1 else 0)
unfolding enqueue
wanted-enqueue true item queue = omega arith
wanted-enqueue false item queue = omega (
  arith,
  count-append (λ (i : QueueItem). has_bit want_you_to_reply i.msg.flags) queue (item ∷ []),
)

flags-pushed_item :
    (msg : Msg) (binding : Option ℕ) (for_whom : RecipientType)
    → (pushed_item msg binding for_whom).msg.flags ≡ pushed_flags for_whom msg.flags
unfolding pushed_item
flags-pushed_item msg binding for_whom = refl

pub wanted-push :
    (k : Ksock) (msg : Msg) (binding : Option ℕ) (for_whom : RecipientType)
    → wanted (push_message k msg binding for_whom).message_queue
      ≡ wanted k.message_queue
        + (if is_repeat k msg for_whom
            then 0
            else if has_bit want_you_to_reply (pushed_flags for_whom msg.flags)
            then 1
            else 0)
unfolding push_message
wanted-push k msg binding for_whom = elim (Bool-cases (is_repeat k msg for_whom)) [
  | inl repeat ↦ rw (repeat, push_message) (omega arith)
  | inr fresh ↦
      rw (fresh, push_message)
        (ground (
          arith,
          wanted-enqueue (has_bit urgent msg.flags) (pushed_item msg binding for_whom)
              k.message_queue,
          flags-pushed_item msg binding for_whom,
        ))
]

-- What Ksock `j` does with the copies for its own bindings.
unfoldable pub receive : ℕ → Msg → List (Option Binding) → Ksock → Ksock
receive j msg [] k = k
receive j msg (none ∷ bs) k = receive j msg bs k
receive j msg (some b ∷ bs) k =
    receive j msg bs (if b.bound_to == j then push_message k msg (some b.addr) for_listener else k)

-- Every Ksock receives its own copies and no others.
pub find-send_to_listeners :
    (j : ℕ) (dev : Dev) (msg : Msg) (bs : List (Option Binding))
    → find_ksock j (send_to_listeners dev msg bs).open_ksock_list
      ≡ Option.map (receive j msg bs) (find_ksock j dev.open_ksock_list)
unfolding send_to_listeners receive
find-send_to_listeners j dev msg [] = ground arith
find-send_to_listeners j dev msg (none ∷ bs) = find-send_to_listeners j dev msg bs
find-send_to_listeners j dev msg (some b ∷ bs) = ground (
  arith,
  find-send_to_listeners j
      (on_ksock dev b.bound_to (λ k. push_message k msg (some b.addr) for_listener)) msg bs,
  find_ksock-update b.bound_to j (λ k. push_message k msg (some b.addr) for_listener)
      dev.open_ksock_list (λ k. (push_fixed k msg (some b.addr) for_listener).0),
)

abbrev pub is_for : ℕ → Option Binding → Bool
is_for j none = false
is_for j (some b) = b.bound_to == j

pub receive-outstanding :
    (j : ℕ) (msg : Msg) (bs : List (Option Binding)) (k : Ksock)
    → (receive j msg bs k).outstanding_requests ≡ k.outstanding_requests
unfolding receive
receive-outstanding j msg [] k = refl
receive-outstanding j msg (none ∷ bs) k = receive-outstanding j msg bs k
receive-outstanding j msg (some b ∷ bs) k = ground (
  arith,
  receive-outstanding j msg bs (push_message k msg (some b.addr) for_listener),
  receive-outstanding j msg bs k,
  push_listener_outstanding k msg (some b.addr),
)

pub receive-IsValid :
    (j : ℕ) (msg : Msg) (bs : List (Option Binding)) (k : Ksock)
    → IsValid k
    → IsValid (receive j msg bs k)
unfolding receive
receive-IsValid j msg [] k v = v
receive-IsValid j msg (none ∷ bs) k v = receive-IsValid j msg bs k v
receive-IsValid j msg (some b ∷ bs) k v = elim (Bool-cases (b.bound_to == j)) [
  | inl mine ↦
      rw mine (receive-IsValid j msg bs _ (push_message-IsValid k msg (some b.addr) for_listener v))
  | inr other ↦ rw other (receive-IsValid j msg bs k v)
]

-- A Ksock that has not asked for each message only once gets a copy for each of its bindings.
pub length-receive :
    (j : ℕ) (msg : Msg) (bs : List (Option Binding)) (k : Ksock)
    → k.messages_only_once ≡ false
    → length (receive j msg bs k).message_queue ≡ length k.message_queue + count (is_for j) bs
unfolding receive is_repeat
length-receive j msg [] k often = omega arith
length-receive j msg (none ∷ bs) k often = omega (arith, length-receive j msg bs k often)
length-receive j msg (some b ∷ bs) k often = ground (
  arith,
  length-receive j msg bs (push_message k msg (some b.addr) for_listener),
  length-receive j msg bs k often,
  length-push k msg (some b.addr) for_listener,
  push_fixed k msg (some b.addr) for_listener,
)

-- No listener's copy is marked for a reply.
pub wanted-receive :
    (j : ℕ) (msg : Msg) (bs : List (Option Binding)) (k : Ksock)
    → wanted (receive j msg bs k).message_queue ≡ wanted k.message_queue
unfolding receive pushed_flags
wanted-receive j msg [] k = refl
wanted-receive j msg (none ∷ bs) k = wanted-receive j msg bs k
wanted-receive j msg (some b ∷ bs) k = ground (
  arith,
  wanted-receive j msg bs (push_message k msg (some b.addr) for_listener),
  wanted-receive j msg bs k,
  wanted-push k msg (some b.addr) for_listener,
)

-- A Ksock that has asked for each message only once, and has just been given this one, gets no more.
pub receive_repeat :
    (j : ℕ) (msg : Msg) (bs : List (Option Binding)) (k : Ksock)
    → k.messages_only_once ≡ true
    → same_id k.msg_id_just_pushed msg.id ≡ true
    → receive j msg bs k ≡ k
unfolding receive push_message is_repeat
receive_repeat j msg [] k once just = refl
receive_repeat j msg (none ∷ bs) k once just = receive_repeat j msg bs k once just
receive_repeat j msg (some b ∷ bs) k once just = ground (arith, receive_repeat j msg bs k once just)

-- So it gets one copy at most, however many of its bindings match.
pub length-receive_once :
    (j : ℕ) (msg : Msg) (bs : List (Option Binding)) (k : Ksock)
    → k.messages_only_once ≡ true
    → length (receive j msg bs k).message_queue ≤ length k.message_queue + 1
unfolding receive
length-receive_once j msg [] k once = omega arith
length-receive_once j msg (none ∷ bs) k once = length-receive_once j msg bs k once
length-receive_once j msg (some b ∷ bs) k once = ground (
  arith,
  length-receive_once j msg bs k once,
  receive_repeat j msg bs (push_message k msg (some b.addr) for_listener),
  length-push k msg (some b.addr) for_listener,
  push_fixed k msg (some b.addr) for_listener,
  push_just k msg (some b.addr) for_listener,
)
