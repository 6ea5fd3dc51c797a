-- ===== src/Tests/Ksocks.antt =====
-- Sizes, the memory of outstanding requests and one Ksock's queue at concrete inputs: the functions
-- of kbus/kbus_main.c and the macros of kbus/linux/kbus_defns.h below kbus_write_to_recipients.
use kbus.Prelude.{◌≡◌, refl, true, none, some, [], ◌∷◌, arith}
use kbus.Message.{same_message_id, message_is_reply}
use kbus.MsgIdMem.{index_of, find_msg_id}
use kbus.MsgIdMem.Laws.{
  times, find_iff, forget_takes_one, remember_adds_one, remember_msg_id-IsValid,
}
use kbus.MsgIdMem.Laws as Mem
use kbus.Ksock.Records.{Ksock, for_listener, for_replier}
use kbus.Ksock.Queue.{enqueue, push_message, pop_message, pushed_item}
use kbus.Ksock.Validity.{IsValid}
use kbus.Ksock.Room.{pop-push}
use kbus.Tests.Data.{id_of, full_memory, one_request, sender, replier, message, request, reply}

full_memory-IsValid : Mem.IsValid full_memory
unfolding same_message_id
full_memory-IsValid = omega arith

sender-IsValid : IsValid sender
unfolding same_message_id
sender-IsValid = omega arith

is_reply : message_is_reply reply ≡ true
unfolding message_is_reply same_message_id
is_reply = refl

reply_expected : find_msg_id one_request (id_of 7) ≡ true
unfolding find_msg_id index_of same_message_id
reply_expected = refl

-- Message 8 waits when an urgent request is pushed, which is popped first.
waiting : Ksock
unfolding push_message pushed_item same_message_id
waiting = push_message replier message none for_listener

pop-push_example :
    let (first, k) =
      pop_message (push_message waiting (record request { flags = 9 }) none for_replier) in
    (first ≡ some (pushed_item (record request { flags = 9 }) none for_replier).msg)
    × (k.message_queue ≡ pushed_item message none for_listener ∷ [])
unfolding waiting enqueue
pop-push_example =
    pop-push waiting (record request { flags = 9 }) none for_replier
      (pushed_item message none for_listener) [] refl refl
