-- ===== src/Tests/Writing.antt =====
-- A message written in two pieces, and a write in the middle of a send.
use kbus.Prelude.{
  ◌≤◌, ◌+◌, ℕ, ◌≡◌, ◌↔◌, refl, inl, Bool, true, false, Option, none, some, List, [], ◌∷◌, ◌++◌,
  arith, flatten, leb, ◌&&◌,
}
use kbus.Errno.{ok, err, success, ealready, enomsg}
use kbus.CString.{u32_bytes}
use kbus.Ksock.Records.{Ksock, MessageHeader, WriteMsg, no_write_msg}
use kbus.Header.{header_size, header_bytes, msg_end_guard}
use kbus.Device.{Dev, find_ksock, find_open_ksock}
use kbus.Sending.{send}
use kbus.Polling.{poll}
use kbus.Lifecycle.{empty_write_msg}
use kbus.Reading.{user_header}
use kbus.Writing.{check_message_written, write, write_loop, zero_message}
use kbus.Writing.Accepted.{
  Acceptable, check_message_written_iff, check_message_written_wraps, write-sending,
}
use kbus.Writing.Ending.{Loop, write_loop-Loop}
use kbus.Size.{entire_msg_len}
use kbus.Name.{invalid_message_name}
use kbus.Reading.{pages_of}
use kbus.Reading.Next.{message_bytes}
use kbus.Writing.Relayed.{the_name, the_data, relayed, write-message_bytes}
use kbus.Tests.Reading.{long_request, long_request-Sized, long_request-FitsC}
use kbus.Writing.Calls.{IsWriting, and_write, write-append, write-IsWriting}
use kbus.Tests.Data.{sender, bus, message}

abbrev is_upper : ℕ → Bool
is_upper c = leb b'A' c && leb c b'Z'

abbrev no_copy : ℕ → ℕ → Option (List ℕ)
no_copy from n = none

abbrev the_header : MessageHeader
the_header = user_header message

-- A message of 100 bytes, and its first 90.
abbrev first_bytes : List ℕ
first_bytes = header_bytes the_header ++ (b'$' ∷ b'.' ∷ [])

abbrev last_bytes : List ℕ
last_bytes = (b'A' ∷ 0 ∷ []) ++ u32_bytes msg_end_guard

sender-IsWriting : IsWriting is_upper 4 1024 (omega arith) sender
sender-IsWriting = inl refl

write-append_example :
    write is_upper 4 1024 sender (first_bytes ++ last_bytes)
    ≡ and_write is_upper 4 1024 (omega arith) (write is_upper 4 1024 sender first_bytes) last_bytes
write-append_example =
    write-append is_upper 4 1024 (omega arith) sender first_bytes last_bytes sender-IsWriting

write-IsWriting_example :
    IsWriting is_upper 4 1024 (omega arith) (write is_upper 4 1024 sender first_bytes).0
write-IsWriting_example =
    write-IsWriting is_upper 4 1024 (omega arith) sender first_bytes sender-IsWriting

abbrev started : WriteMsg
started = record no_write_msg { msg = some zero_message }

write_loop-Loop_example :
    (n : ℕ) × (n + 0 ≤ 7)
    × Loop is_upper 4 1024 started first_bytes (write_loop is_upper 4 1024 8 started first_bytes) n
write_loop-Loop_example =
    write_loop-Loop is_upper 4 1024 8 started first_bytes (omega arith) (omega arith)

check_message_written_iff_example :
    (check_message_written 1024 the_header ≡ success) ↔ Acceptable 1024 the_header
check_message_written_iff_example = check_message_written_iff 1024 the_header

the_header-accepted :
    check_message_written 100 (record the_header { data_len = 0; data_ptr = 0 }) ≡ success
unfolding check_message_written user_header
the_header-accepted = refl

-- A maximum of 100 bytes, and 2^32 - 1 bytes of data.
check_message_written_wraps_example :
    check_message_written 100 (record the_header { data_len = 4294967295; data_ptr = 0 }) ≡ success
unfolding user_header
check_message_written_wraps_example =
    check_message_written_wraps 100 the_header 4294967295 0 the_header-accepted (omega arith)
      (omega arith) ((λ e. refl), λ e. refl)

abbrev blocked : Ksock
blocked = record sender {
  sending = true;
  write = record no_write_msg { msg = some message; is_finished = true };
}

abbrev after_write : Dev
after_write = record bus { open_ksock_list = (write is_upper 4 1024 blocked (1 ∷ [])).0 ∷ [] }

after_write-found : find_open_ksock after_write 1 ≡ some (write is_upper 4 1024 blocked (1 ∷ [])).0
unfolding find_ksock write empty_write_msg
after_write-found = refl

write-sending_example :
    let (after, retval) = write is_upper 4 1024 blocked (1 ∷ []) in
    (retval ≡ err ealready)
    × (after.write.msg ≡ none)
    × (after.sending ≡ true)
    × (poll true after_write after ≡ none)
    × (send is_upper 4 no_copy true after_write 1 ≡ (after_write, err enomsg))
    × (write is_upper 4 1024 after (2 ∷ []) ≡ (after, err ealready))
write-sending_example =
    write-sending is_upper 4 1024 no_copy true after_write 1 blocked (1 ∷ []) (2 ∷ []) refl
      after_write-found

long_request-accepted : check_message_written 1024 (user_header long_request) ≡ success
unfolding check_message_written user_header
long_request-accepted = refl

name_a-valid : invalid_message_name is_upper (the_name long_request) 3 ≡ false
unfolding invalid_message_name
name_a-valid = refl

write-message_bytes_example :
    let (priv', retval) = write is_upper 4 1024 sender (message_bytes long_request) in
    (retval ≡ ok (entire_msg_len header_size 3 5))
    × (priv'.write.is_finished ≡ true)
    × (priv'.write.msg ≡ some (relayed 4 long_request))
    × (flatten (pages_of (some (relayed 4 long_request))) ≡ the_data long_request)
write-message_bytes_example =
    write-message_bytes is_upper 4 1024 (omega arith) long_request long_request-Sized sender refl
      refl long_request-FitsC long_request-accepted name_a-valid
