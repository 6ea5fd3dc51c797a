-- ===== src/Writing/Accepted.antt =====
-- Which headers kbus_check_message_written of kbus/kbus_main.c accepts, and what kbus_write does
-- while a message is being sent.
use kbus.Prelude.{
  ℕ, ◌-◌, ◌%◌, ◌^◌, ◌≤◌, ◌<◌, ◌≡◌, ◌≢◌, ◌↔◌, refl, Bool, true, false, ◌∙◌, Option, none, some, List,
  arith, has_bit, ◌&&◌,
}
use kbus.Errno.{err, success, enomsg, ealready}
use kbus.Size.{padded_data_len, entire_msg_len, max_name_len}
use kbus.Message.{all_or_wait, all_or_fail}
use kbus.Ksock.Records.{Ksock, MessageHeader}
use kbus.Header.{msg_start_guard, msg_end_guard, header_size}
use kbus.Device.{Dev, find_open_ksock}
use kbus.Lifecycle.{empty_write_msg}
use kbus.Sending.{send}
use kbus.Polling.{poll}
use kbus.Writing.{check_message_written, write}

-- A header that may start a message.
abbrev pub Acceptable : ℕ → MessageHeader → Type 0
Acceptable max_message_size h =
    (h.start_guard ≡ msg_start_guard)
    × (h.end_guard ≡ msg_end_guard)
    × (0 < h.name_len)
    × (h.name_len ≤ max_name_len)
    × (h.name ≡ 0 → h.data_ptr ≡ 0)
    × (h.name ≢ 0 → h.data_ptr ≡ 0 → h.data_len ≡ 0)
    × (h.data_len ≡ 0 → h.data_ptr ≡ 0)
    × (has_bit all_or_wait h.flags && has_bit all_or_fail h.flags ≡ false)
    × (entire_msg_len header_size h.name_len h.data_len % 2 ^ 32 ≤ max_message_size)

-- A header is accepted if and only if its guards are right, its name's length is from 1 to 1000, its
-- pointers go together and with the length of the data, it does not ask for both ALL_OR_WAIT and
-- ALL_OR_FAIL, and the length of the "entire" message, modulo 2^32, is at most the maximum.
pub check_message_written_iff :
    (max_message_size : ℕ) (h : MessageHeader)
    → (check_message_written max_message_size h ≡ success) ↔ Acceptable max_message_size h
unfolding check_message_written
check_message_written_iff max_message_size h = ground arith

padded_data_len_wraps :
    (data_len : ℕ)
    → 2 ^ 32 - 3 ≤ data_len
    → data_len < 2 ^ 32
    → padded_data_len data_len ≡ padded_data_len 0
unfolding padded_data_len
padded_data_len_wraps data_len long small = omega arith

-- The length wraps: a header that is accepted with no data and no pointer to it is accepted under the
-- same maximum with any length of data from 2^32 - 3 on, where it has a pointer to the data if and
-- only if it has one to the name.
pub check_message_written_wraps :
    (max_message_size : ℕ) (h : MessageHeader) (data_len data_ptr : ℕ)
    → check_message_written max_message_size (record h { data_len = 0; data_ptr = 0 }) ≡ success
    → 2 ^ 32 - 3 ≤ data_len
    → data_len < 2 ^ 32
    → (h.name ≡ 0) ↔ (data_ptr ≡ 0)
    → check_message_written max_message_size (record h { data_len = data_len; data_ptr = data_ptr })
      ≡ success
unfolding entire_msg_len
check_message_written_wraps max_message_size h data_len data_ptr accepted long small both =
    let bare =
      (check_message_written_iff max_message_size (record h { data_len = 0; data_ptr = 0 })).0
        accepted in
    let none_more : padded_data_len data_len ≡ padded_data_len 0 =
      padded_data_len_wraps data_len long small in
    (check_message_written_iff max_message_size
        (record h { data_len = data_len; data_ptr = data_ptr })).1
      (
        bare.0,
        bare.1,
        bare.2,
        bare.3,
        both.0,
        (λ pointy no_data. absurd (pointy (both.1 no_data))),
        (λ no_data. absurd (omega arith)),
        bare.7,
        rw none_more bare.8,
      )

module _ (isalnum : ℕ → Bool) (page_size max_message_size : ℕ)
    (copy_from_user : ℕ → ℕ → Option (List ℕ)) where
  write_refused :
      (priv : Ksock) (bytes : List ℕ)
      → priv.sending ≡ true
      → write isalnum page_size max_message_size priv bytes ≡ (empty_write_msg priv, err ealready)
  unfolding write
  write_refused priv bytes sending = rw sending refl

  poll_nothing :
      (dev : Dev) (k : Ksock) → k.sending ≡ true → k.write.msg ≡ none → poll true dev k ≡ none
  unfolding poll
  poll_nothing dev k sending nothing = rw (sending, nothing) refl

  send_nothing :
      (writable : Bool) (dev : Dev) (our : ℕ) (k : Ksock)
      → find_open_ksock dev our ≡ some k
      → k.write.msg ≡ none
      → send isalnum page_size copy_from_user writable dev our ≡ (dev, err enomsg)
  unfolding send
  send_nothing writable dev our k found nothing = rw (send, found, nothing) refl

  -- A write to a Ksock that is sending a message is refused, and takes the message away although
  -- the Ksock stays in the state of sending: a poll for writing then goes through the null pointer, a
  -- send on a device that has this Ksock finds no message and changes nothing, and a further write is
  -- refused in the same way.
  pub write-sending :
      (writable : Bool) (dev : Dev) (our : ℕ) (priv : Ksock) (bytes more : List ℕ)
      → priv.sending ≡ true
      → find_open_ksock dev our ≡ some (write isalnum page_size max_message_size priv bytes).0
      → let (after, retval) = write isalnum page_size max_message_size priv bytes in
        (retval ≡ err ealready)
        × (after.write.msg ≡ none)
        × (after.sending ≡ true)
        × (poll true dev after ≡ none)
        × (send isalnum page_size copy_from_user writable dev our ≡ (dev, err enomsg))
        × (write isalnum page_size max_message_size after more ≡ (after, err ealready))
  unfolding empty_write_msg
  write-sending writable dev our priv bytes more sending found =
      let e = write_refused priv bytes sending in
      let after : Ksock = (write isalnum page_size max_message_size priv bytes).0 in
      let nothing : after.write.msg ≡ none = rw e refl in
      let still : after.sending ≡ true = rw e sending in
      (
        rw e refl,
        nothing,
        still,
        poll_nothing dev after still nothing,
        send_nothing writable dev our after found nothing,
        write_refused after more still ∙ rw e refl,
      )
