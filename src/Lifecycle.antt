-- ===== src/Lifecycle.antt =====
-- The end of a Ksock: kbus_empty_read_msg, kbus_empty_write_msg, kbus_empty_message_queue,
-- kbus_empty_replies_unsent and kbus_release of kbus/kbus_main.c.
pub mod Gone
pub mod Answers
use kbus.Prelude.{
  ℕ, Bool, true, false, Option, none, some, List, [], ◌∷◌, ◌==◌, length, drop, if◌then◌else◌,
  sub_u32,
}
use kbus.Errno.{Result}
use kbus.MsgIdMem.{empty_msg_id_memory}
use kbus.Ksock.Records.{Ksock, QueueItem, UnrepliedItem, no_read_msg}
use kbus.Device.{Dev, find_ksock, find_open_ksock, forget_open_ksock, on_ksock}
use kbus.Synthetic.{replier_gone_away, replier_ignored, push_synthetic_message}
use kbus.Unsent.{forget_my_unsent_unbind_msgs}
use kbus.Bindings.Table.{answer_for, forget_my_bindings}

-- kbus_empty_read_msg
unfoldable pub empty_read_msg : Ksock → Ksock
empty_read_msg priv = record priv { read = no_read_msg }

-- kbus_empty_write_msg
unfoldable pub empty_write_msg : Ksock → Ksock
empty_write_msg priv = record priv {
  write = record priv.write {
    msg = none;
    ref_name = none;
    ref_data = none;
    is_finished = false;
    pos = 0;
    which = 0;
  };
}

-- One round of the loop of kbus_empty_message_queue: the item is the head of the queue, since all
-- before it have been deleted, and an answer goes to a queue's end.
unfoldable pub empty_one : Dev → ℕ → QueueItem → Dev
unfolding answer_for
empty_one dev priv item = on_ksock (answer_for dev priv item.msg replier_gone_away) priv (λ k.
    record k { message_queue = drop 1 k.message_queue; message_count = sub_u32 k.message_count 1 })

-- The rounds for the answers to this very Ksock, which ask for no reply themselves.
unfoldable pub empty_answers : Dev → ℕ → Dev
empty_answers dev priv = on_ksock dev priv (λ k. record k {
  message_queue = [];
  message_count = sub_u32 k.message_count (length k.message_queue);
})

-- Is the first item of the queue the last?
unfoldable pub is_last : Dev → ℕ → Bool
unfolding find_ksock
is_last dev priv = elim (find_open_ksock dev priv) [
  | none ↦ true
  | some k ↦ length k.message_queue == 1
]

-- The loop of kbus_empty_message_queue, over the queue as it is at the start. Each round finds the
-- next item before it answers, so an answer that the last round adds to this very queue stays.
unfoldable pub empty_queue : Dev → ℕ → List QueueItem → Dev
unfolding empty_one empty_answers is_last
empty_queue dev priv [] = dev
empty_queue dev priv (item ∷ []) =
    if is_last dev priv
    then empty_one dev priv item
    else empty_answers (empty_one dev priv item) priv
empty_queue dev priv (item ∷ next ∷ later) =
    empty_queue (empty_one dev priv item) priv (next ∷ later)

-- kbus_empty_message_queue
unfoldable pub empty_message_queue : Dev → ℕ → Dev
unfolding empty_queue find_ksock
empty_message_queue dev priv = elim (find_open_ksock dev priv) [
  | none ↦ dev
  | some k ↦ empty_queue dev priv k.message_queue
]

-- One round of the loop of kbus_empty_replies_unsent: the item is the head of the list.
unfoldable pub ignore_one : Dev → ℕ → UnrepliedItem → Dev
unfolding push_synthetic_message
ignore_one dev priv item =
    on_ksock (push_synthetic_message dev priv item.from item.id replier_ignored) priv (λ k.
      record k {
        replies_unsent = drop 1 k.replies_unsent;
        num_replies_unsent = sub_u32 k.num_replies_unsent 1;
      })

-- The loop of kbus_empty_replies_unsent over the requests that are not replied to.
unfoldable pub ignore_requests : Dev → ℕ → List UnrepliedItem → Dev
unfolding ignore_one
ignore_requests dev priv [] = dev
ignore_requests dev priv (item ∷ later) = ignore_requests (ignore_one dev priv item) priv later

-- kbus_empty_replies_unsent
unfoldable pub empty_replies_unsent : Dev → ℕ → Dev
unfolding ignore_requests find_ksock
empty_replies_unsent dev priv = elim (find_open_ksock dev priv) [
  | none ↦ dev
  | some k ↦ ignore_requests dev priv k.replies_unsent
]

-- The part of kbus_release on the Ksock alone.
unfoldable pub empty_ksock : Ksock → Ksock
unfolding empty_read_msg empty_write_msg
empty_ksock priv = record (empty_write_msg (empty_read_msg priv)) {
  outstanding_requests = empty_msg_id_memory priv.outstanding_requests;
}

unfoldable pub forget_unsent_for : Dev → ℕ → Dev
unfolding find_ksock
forget_unsent_for dev priv = elim (find_open_ksock dev priv) [
  | none ↦ dev
  | some k ↦ if k.maybe_got_unsent_unbind_msgs then forget_my_unsent_unbind_msgs dev priv else dev
]

-- kbus_release
unfoldable pub release : Dev → ℕ → Dev × Result (Unit {0})
unfolding empty_ksock empty_message_queue forget_unsent_for empty_replies_unsent
release dev priv =
    let emptied = empty_message_queue (on_ksock dev priv empty_ksock) priv in
    let unbound = forget_unsent_for (forget_my_bindings emptied priv) priv in
    forget_open_ksock (empty_replies_unsent unbound priv) priv
