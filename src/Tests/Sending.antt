-- ===== src/Tests/Sending.antt =====
-- kbus_write_to_recipients of kbus/kbus_main.c on the small bus.
use kbus.Prelude.{◌≤◌, ◌≡◌, refl, true, false, some, arith, length, filter, All}
use kbus.CString.{strlen, strncmp_eq, strnchr_found}
use kbus.Errno.{err, ebusy, econnrefused, success}
use kbus.Message.{same_message_id, message_is_reply}
use kbus.MsgIdMem.{index_of, find_msg_id}
use kbus.MsgIdMem.Laws.{times}
use kbus.Ksock.Records.{Ksock}
use kbus.Ksock.Queue.{queue_is_full}
use kbus.Ksock.Validity.{IsValid}
use kbus.Device.{find_ksock, find_open_ksock, find_private_data}
use kbus.Recipients.Search.{find_listeners}
use kbus.Recipients.Choice.{
  is_listener_for, is_replier_for, Chosen, find_listeners-Chosen, find_listeners-filter,
}
use kbus.Recipients.Plan.{
  owner_is_full, check_reply_to, check_replier, check_listeners, write_to_recipients,
}
use kbus.Recipients.Refusal.{Refused, write-Refused}
use kbus.Recipients.Replying.{reply_once, request_remembered}
use kbus.Recipients.Copies.{write_copies, write_marks_replier, write_only_once}
use kbus.Recipients.Keeps.{CanGrow, write-IsValid}
use kbus.Recipients.Receive.{wanted}
use kbus.Tests.Data.{name_a, id_of, sender, replier, once, bus, crowded, message, request, reply}

request_sent : (write_to_recipients 1 bus request).1 ≡ success
unfolding write_to_recipients find_listeners check_reply_to check_replier check_listeners
    owner_is_full queue_is_full message_is_reply same_message_id find_ksock find_private_data strlen
    strncmp_eq strnchr_found find_msg_id index_of
request_sent = refl

reply_sent : (write_to_recipients 2 bus reply).1 ≡ success
unfolding write_to_recipients find_listeners check_reply_to check_replier check_listeners
    owner_is_full queue_is_full message_is_reply same_message_id find_ksock find_private_data strlen
    strncmp_eq strnchr_found find_msg_id index_of
reply_sent = refl

message_sent : (write_to_recipients 1 bus message).1 ≡ success
unfolding write_to_recipients find_listeners check_reply_to check_replier check_listeners
    owner_is_full queue_is_full message_is_reply same_message_id find_ksock find_private_data strlen
    strncmp_eq strnchr_found find_msg_id index_of
message_sent = refl

request_refused : (write_to_recipients 1 crowded request).1 ≡ err ebusy
unfolding write_to_recipients find_listeners check_reply_to check_replier check_listeners
    owner_is_full queue_is_full message_is_reply same_message_id find_ksock find_private_data strlen
    strncmp_eq strnchr_found find_msg_id index_of
request_refused = refl

find_bus :
    (find_open_ksock bus 1 ≡ some sender)
    × (find_open_ksock bus 2 ≡ some replier)
    × (find_open_ksock bus 3 ≡ some once)
unfolding find_ksock
find_bus = (refl, refl, refl)

is_reply : message_is_reply reply ≡ true
unfolding message_is_reply same_message_id
is_reply = refl

is_no_reply : (message_is_reply request ≡ false) × (message_is_reply message ≡ false)
unfolding message_is_reply same_message_id
is_no_reply = (refl, refl)

reply_seven_once : times (id_of 7) sender.outstanding_requests.ids ≡ 1
unfolding same_message_id
reply_seven_once = refl

sender-CanGrow : CanGrow sender
unfolding same_message_id
sender-CanGrow = omega arith

replier-CanGrow : CanGrow replier
unfolding same_message_id
replier-CanGrow = omega arith

once-CanGrow : CanGrow once
unfolding same_message_id
once-CanGrow = omega arith

write-Refused_example :
    ((write_to_recipients 1 crowded request).0 ≡ crowded) × Refused crowded request ebusy
write-Refused_example = write-Refused 1 crowded request ebusy request_refused

reply_once_example :
    let bus' = (write_to_recipients 2 bus reply).0 in
    write_to_recipients 3 bus' reply ≡ (bus', err econnrefused)
reply_once_example =
    reply_once 2 3 bus reply reply sender is_reply refl reply_sent find_bus.0 reply_seven_once refl
      refl refl

request_remembered_example :
    (k : Ksock) × (find_open_ksock (write_to_recipients 1 bus request).0 1 ≡ some k)
    × (times (id_of 8) k.outstanding_requests.ids ≡ 1)
unfolding same_message_id
request_remembered_example =
    request_remembered 1 bus request sender (id_of 8) is_no_reply.0 refl request_sent find_bus.0
      sender-CanGrow.valid (omega arith) (λ e. cc)

write_copies_example :
    (k : Ksock) × (find_open_ksock (write_to_recipients 1 bus request).0 2 ≡ some k)
    × (length k.message_queue ≡ 3)
unfolding write_to_recipients find_listeners check_reply_to check_replier check_listeners
    owner_is_full queue_is_full message_is_reply same_message_id find_ksock find_private_data strlen
    strncmp_eq strnchr_found find_msg_id index_of is_listener_for
write_copies_example = write_copies 1 2 bus request replier request_sent find_bus.1 refl

write_marks_replier_example :
    (k : Ksock) × (find_open_ksock (write_to_recipients 1 bus request).0 2 ≡ some k)
    × (wanted k.message_queue ≡ 1)
unfolding write_to_recipients find_listeners check_reply_to check_replier check_listeners
    owner_is_full queue_is_full message_is_reply same_message_id find_ksock find_private_data strlen
    strncmp_eq strnchr_found find_msg_id index_of
write_marks_replier_example = write_marks_replier 1 2 bus request replier request_sent find_bus.1

write_only_once_example :
    (k : Ksock) × (find_open_ksock (write_to_recipients 1 bus message).0 3 ≡ some k)
    × (length k.message_queue ≤ 1)
write_only_once_example =
    write_only_once 1 3 bus message once message_sent is_no_reply.1 find_bus.2 refl

write-IsValid_example : All IsValid (write_to_recipients 1 bus request).0.open_ksock_list
write-IsValid_example =
    write-IsValid 1 bus request (λ e. cc) (once-CanGrow, (replier-CanGrow, (sender-CanGrow, tt)))

find_listeners-filter_example :
    (find_listeners 3 name_a bus.bound_message_list).listeners
    ≡ filter (is_listener_for 3 name_a) bus.bound_message_list
find_listeners-filter_example = find_listeners-filter 3 name_a bus.bound_message_list

find_listeners-Chosen_example :
    Chosen
      (find_listeners 3 name_a bus.bound_message_list).replier
      (filter (is_replier_for 3 name_a) bus.bound_message_list)
find_listeners-Chosen_example = find_listeners-Chosen 3 name_a bus.bound_message_list
