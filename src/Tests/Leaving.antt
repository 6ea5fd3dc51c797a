-- ===== src/Tests/Leaving.antt =====
-- Ksock 2 of the small bus goes away, and Ksock 1 sends what it has written.
use kbus.Prelude.{
  ℕ, ◌≡◌, refl, Bool, true, false, ◌&&◌, ◌||◌, Option, none, some, List, [], ◌∷◌, ◌++◌, ◌==◌, ltb,
  map, if◌then◌else◌, arith, ◌⊎◌,
}
use kbus.Errno.{err, eagain}
use kbus.Ksock.Records.{Ksock, WriteMsg, UnrepliedItem, no_write_msg}
use kbus.Device.{Dev, find_open_ksock, find_ksock, update_ksock, next_serial_num, find_private_data}
use kbus.Bindings.Owners.{Distinct}
use kbus.Lifecycle.{empty_replies_unsent, release}
use kbus.Lifecycle.Gone.{release-filter}
use kbus.Lifecycle.Answers.{answer_of, ignored, empty_replies_unsent_answers}
use kbus.Sending.{
  poll_try_send_again, send, is_again, attempt, localise, copy_pointy_parts, copy_data, transmit,
  stamp, hold,
}
use kbus.Name.{invalid_message_name, bad_message_name, scan, stem_len, wildcarded_message_name}
use kbus.CString.{strlen, strncmp_eq, strnchr_found}
use kbus.MsgIdMem.{index_of, find_msg_id}
use kbus.Ksock.Queue.{queue_is_full}
use kbus.Recipients.Search.{find_listeners}
use kbus.Recipients.Plan.{
  write_to_recipients, check_reply_to, check_replier, check_listeners, owner_is_full,
}
use kbus.Sending.Held.{IsHeld}
use kbus.Sending.Blocked.{held_back, send_blocked}
use kbus.Sending.Done.{send_done}
use kbus.Sending.Again.{poll_waits_or_done}
use kbus.Message.{Msg, message_is_reply, same_message_id}
use kbus.Tests.Data.{name_a, percent, id_of, sender, replier, once, bus, crowded, bind_of, message}

bus-Distinct : Distinct bus.bound_message_list
bus-Distinct = ground arith

release-filter_example : (release bus 2).0.bound_message_list ≡ bind_of 4 3 0 percent ∷ []
release-filter_example = release-filter bus 2 bus-Distinct

abbrev owes : UnrepliedItem
owes = record { id = id_of 7; from = 1; name_len = 3; name_ref = name_a }

abbrev debtor : Ksock
debtor = record replier { replies_unsent = owes ∷ []; num_replies_unsent = 1 }

abbrev indebted : Dev
indebted = record bus { open_ksock_list = once ∷ debtor ∷ sender ∷ [] }

find_indebted :
    (find_open_ksock indebted 2 ≡ some debtor) × (find_open_ksock indebted 1 ≡ some sender)
unfolding find_ksock
find_indebted = (refl, refl)

empty_replies_unsent_answers_example :
    (k : Ksock) × (find_open_ksock (empty_replies_unsent indebted 2) 1 ≡ some k)
    × (map answer_of k.message_queue ≡ ignored owes ∷ [])
empty_replies_unsent_answers_example =
    empty_replies_unsent_answers indebted 2 1 debtor sender refl find_indebted.0 find_indebted.1

abbrev alphanumeric : ℕ → Bool
alphanumeric c = ltb 47 c && ltb c 58 || ltb 64 c && ltb c 91 || ltb 96 c && ltb c 123

-- The name `$.A` stands at address 100.
abbrev user_memory : ℕ → ℕ → Option (List ℕ)
user_memory address n = if address == 100 then some (name_a ++ 0 ∷ []) else none

-- The message goes to all or waits.
abbrev waiting : Msg
waiting = record message { flags = 256 }

abbrev writer : Ksock
writer = record sender {
  write = record no_write_msg { msg = some waiting; is_finished = true; user_name_ptr = 100 };
}

abbrev jam : Dev
jam = record crowded { open_ksock_list = once ∷ record replier { max_messages = 0 } ∷ writer ∷ [] }

abbrev clear : Dev
clear = record bus { open_ksock_list = once ∷ replier ∷ writer ∷ [] }

find_writer : (find_open_ksock jam 1 ≡ some writer) × (find_open_ksock clear 1 ≡ some writer)
unfolding find_ksock
find_writer = (refl, refl)

jam_blocks : (send alphanumeric 4096 user_memory true jam 1).1 ≡ err eagain
unfolding send attempt localise copy_pointy_parts copy_data transmit stamp hold invalid_message_name
    bad_message_name scan stem_len wildcarded_message_name next_serial_num write_to_recipients
    find_listeners check_reply_to check_replier check_listeners owner_is_full queue_is_full
    message_is_reply same_message_id find_ksock find_private_data strlen strncmp_eq strnchr_found
    find_msg_id index_of update_ksock
jam_blocks = refl

clear_sends : is_again (send alphanumeric 4096 user_memory true clear 1).1 ≡ false
unfolding send attempt localise copy_pointy_parts copy_data transmit stamp hold invalid_message_name
    bad_message_name scan stem_len wildcarded_message_name next_serial_num write_to_recipients
    find_listeners check_reply_to check_replier check_listeners owner_is_full queue_is_full
    message_is_reply same_message_id find_ksock find_private_data strlen strncmp_eq strnchr_found
    find_msg_id index_of update_ksock
clear_sends = refl

send_blocked_example :
    (this : WriteMsg) × (held : Msg) × IsHeld alphanumeric 4096 user_memory jam 1 writer waiting
      this held
    × (find_open_ksock (send alphanumeric 4096 user_memory true jam 1).0 1
        ≡ some (held_back writer this held))
send_blocked_example =
    send_blocked alphanumeric 4096 user_memory jam 1 1 writer waiting find_writer.0 refl jam_blocks

send_done_example :
    (k : Ksock) × (find_open_ksock (send alphanumeric 4096 user_memory false clear 1).0 1 ≡ some k)
    × (k.write.msg ≡ none)
    × (k.sending ≡ false)
send_done_example =
    send_done alphanumeric 4096 user_memory false clear 1 writer waiting find_writer.1 refl
      clear_sends

poll_waits_or_done_example :
    (poll_try_send_again jam 1 waiting ≡ (jam, false))
      × ((write_to_recipients 1 jam waiting).1 ≡ err eagain)
    ⊎ ((poll_try_send_again jam 1 waiting).1 ≡ true)
      × ((k : Ksock) × (find_open_ksock (poll_try_send_again jam 1 waiting).0 1 ≡ some k)
          × (k.write.msg ≡ none)
          × (k.sending ≡ false))
poll_waits_or_done_example = poll_waits_or_done jam 1 waiting writer find_writer.0
