-- ===== src/Tests/Reading.antt =====
-- A request with two parts of data, read from the queue of the Ksock that replies to it.
use kbus.Prelude.{
  ℕ, Bool, false, Option, List, ◌+◌, ◌<◌, ◌^◌, ◌≡◌, refl, inr, true, none, some, [], ◌∷◌, arith,
  length, take, drop, flatten, has_bit, if◌then◌else◌, sub_u32, ◌*◌, ◌-◌,
}
use kbus.Size.{entire_msg_len, padded_name_len, padded_data_len}
use kbus.Message.{Msg, DataPtr, want_you_to_reply, same_message_id}
use kbus.Ksock.Records.{Ksock, ReadMsg, QueueItem}
use kbus.Ksock.Validity.{IsValid}
use kbus.Header.{FitsC, header_size}
use kbus.Device.{Dev, find_open_ksock, find_ksock}
use kbus.Reading.{pages_of, segment, start_read, user_header, next_message, read, lenleft}
use kbus.Reading.Unread.{at, Placed}
use kbus.Reading.Pieces.{IsReading, unread, read-Advanced}
use kbus.Reading.Next.{
  start_read-Whole, Sized, message_bytes, next_message-replies_unsent, unreplied_to,
}
use kbus.Reading.Left.{data_given, lenleft-unread, lenleft-in_data}
use mathlib.Core.Option
use kbus.Errno.{ok}
use kbus.Libkbus.Transfers.{message, ksock_read_next_msg}
use kbus.Libkbus.OnKbus.{system}
use kbus.Libkbus.Receiving.{device_read, read_next_msg_takes}
use kbus.Tests.Data.{replier, sender, bus, request}

-- Five bytes of data in parts of at most three.
abbrev pub long_request : Msg
long_request = record request { flags = 3; data_len = 5; data_ref = some long_data }
  where
    long_data : DataPtr
    long_data = record {
      as_pages = true;
      parts = (1 ∷ 2 ∷ 3 ∷ []) ∷ (4 ∷ 5 ∷ []) ∷ [];
      last_page_len = 2;
    }

pub long_request-Sized : Sized long_request
unfolding pages_of flatten
long_request-Sized = (omega arith, refl, (λ e. absurd (omega arith)), omega arith, omega arith)

abbrev item : QueueItem
item = record { msg = long_request; binding = none }

abbrev with_long : Ksock
with_long = record replier { message_queue = item ∷ []; message_count = 1 }

with_long-IsValid : IsValid with_long
unfolding same_message_id
with_long-IsValid = omega arith

abbrev long_bus : Dev
long_bus = record bus { open_ksock_list = with_long ∷ sender ∷ [] }

long_bus-found : find_open_ksock long_bus 2 ≡ some with_long
unfolding find_ksock
long_bus-found = refl

pub long_request-FitsC : FitsC (user_header long_request)
unfolding user_header
long_request-FitsC = record {
  start_guard = omega arith;
  id = omega arith;
  in_reply_to = omega arith;
  to = omega arith;
  from = omega arith;
  orig_from = omega arith;
  final_to = omega arith;
  extra = omega arith;
  flags = omega arith;
  name_len = omega arith;
  data_len = omega arith;
  name = omega arith;
  data_ptr = omega arith;
  end_guard = omega arith;
}

no_letter : ℕ → Bool
no_letter c = false

no_memory : ℕ → ℕ → Option (List ℕ)
no_memory addr n = none

long_bus-fits : entire_msg_len header_size 3 5 < 2 ^ 32
unfolding entire_msg_len padded_name_len padded_data_len
long_bus-fits = omega arith

read_next_msg_takes_example :
    (dev' : Dev) × (ksock_read_next_msg device_read (system no_letter 4096 no_memory) 2 long_bus 2
      ≡ some (dev', (ok 0, some (message (message_bytes long_request)))))
    × (Option.map (λ (k : Ksock). k.message_queue) (find_open_ksock dev' 2) ≡ some [])
read_next_msg_takes_example =
    read_next_msg_takes no_letter 4096 no_memory long_bus 2 0 with_long item [] long_bus-found refl
      refl refl long_request-Sized long_bus-fits

next_message-replies_unsent_example :
    IsValid (next_message with_long).1
    × ((next_message with_long).1.message_queue ≡ [])
    × ((next_message with_long).1.replies_unsent
        ≡ (if has_bit want_you_to_reply 3 then unreplied_to long_request ∷ [] else []))
next_message-replies_unsent_example =
    next_message-replies_unsent with_long item [] with_long-IsValid refl

-- One byte into the second part of the data.
abbrev place : ReadMsg
place = at (start_read long_request) 3 1 1

place-Placed : Placed place
unfolding start_read segment pages_of
place-Placed = (omega arith, (λ lt. absurd (omega arith)), λ e some_data. omega arith)

abbrev reading : Ksock
reading = record replier { read = place }

reading-IsReading : IsReading reading
unfolding IsReading
reading-IsReading = inr (start_read-Whole long_request long_request-Sized, place-Placed)

read-Advanced_example :
    ((read reading 3).0 ≡ take 3 (unread reading))
    × (unread (read reading 3).1 ≡ drop 3 (unread reading))
    × IsReading (read reading 3).1
read-Advanced_example = read-Advanced reading 3 reading-IsReading

small : entire_msg_len header_size 3 5 < 2 ^ 32
unfolding entire_msg_len
small = omega arith

-- Two bytes into the name.
abbrev in_name : Ksock
in_name = record replier { read = at (start_read long_request) 1 2 0 }

in_name-Placed : Placed (at (start_read long_request) 1 2 0)
unfolding start_read segment
in_name-Placed = (omega arith, (λ lt. refl), λ is_data. absurd (omega arith))

lenleft-unread_example : lenleft in_name ≡ length (unread in_name)
lenleft-unread_example =
    lenleft-unread replier long_request 1 2 0 long_request-Sized in_name-Placed (omega arith) refl
      small

lenleft-in_data_example :
    (lenleft reading ≡ sub_u32 (entire_msg_len header_size 3 5) (4 * data_given long_request 1 1))
    × (length (unread reading)
        ≡ entire_msg_len header_size 3 5
          - (header_size + padded_name_len 3 + data_given long_request 1 1))
lenleft-in_data_example =
    lenleft-in_data replier long_request 1 1 long_request-Sized place-Placed (omega arith) small
