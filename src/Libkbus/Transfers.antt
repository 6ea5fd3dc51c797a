-- ===== src/Libkbus/Transfers.antt =====
-- Reading and writing whole messages: kbus_ksock_read_msg, kbus_ksock_read_next_msg,
-- kbus_ksock_write_msg, kbus_ksock_write_data and kbus_ksock_send_msg of libkbus/libkbus.c. `read`,
-- `write` and `ioctl` are the system's, on its state `W`. The loops take fuel, as it is for the system
-- to say when they end; `none` is that the fuel ran out.
use kbus.Prelude.{
  ℕ, zero, suc, ◌+◌, ◌-◌, ◌%◌, ◌^◌, Bool, true, false, Option, none, some, List, [], ◌++◌, ◌==◌,
  ltb, if◌then◌else◌, length, take, drop,
}
use kbus.Errno.{Errno, Result, ok, err, eagain, eintr, ebadmsg}
use kbus.Size.{entire_msg_len}
use kbus.Message.{MsgId}
use kbus.Header.{header_size}
use kbus.Ioctl.{Request, Answer}
use kbus.Libkbus.Messages.{UserMsg, is_entire}
use kbus.Libkbus.Calls.{ksock_next_msg, ksock_send}

-- `a - b` on a size_t.
abbrev pub sub_size : ℕ → ℕ → ℕ
sub_size a b = (a + 2 ^ 64 - b % 2 ^ 64) % 2 ^ 64

-- What kbus_ksock_read_msg comes to: 0 with the message's bytes, a negative number, a positive one
-- (`errno` itself), or bytes written beyond the end of the buffer.
pub data Outcome : Type 0 where
  message : List ℕ → Outcome
  negative positive : Errno → Outcome
  overrun : Outcome

-- `errno != EAGAIN && errno != EINTR`, negated.
abbrev pub try_again : Errno → Bool
try_again eagain = true
try_again eintr = true
try_again e = false

module _ {W : Type 0} (read : W → ℕ → ℕ → W × Result (List ℕ)) where
  -- The loop of kbus_ksock_read_msg on a buffer of `size` bytes, `so_far` of which are `buf`.
  unfoldable pub read_msg_loop : ℕ → W → ℕ → ℕ → ℕ → ℕ → List ℕ → Option (W × Outcome)
  read_msg_loop zero w ksock size msg_len so_far buf = none
  read_msg_loop (suc fuel) w ksock size msg_len so_far buf =
      let (w', received) = read w ksock (sub_size msg_len so_far) in
      let again = read_msg_loop fuel w' ksock size msg_len so_far buf in
      let more = λ (bytes : List ℕ).
        read_msg_loop fuel w' ksock size (sub_size msg_len (length bytes)) (so_far + length bytes)
          (buf ++ bytes) in
      if msg_len == 0 then some (w, message buf) else elim received [
        | err e ↦ if try_again e then again else some (w', positive e)
        | ok bytes ↦
            if length bytes == 0
            then some (w', negative ebadmsg)
            else if ltb size (so_far + length bytes)
            then some (w', overrun)
            else more bytes
      ]

  -- kbus_ksock_read_msg
  unfoldable pub ksock_read_msg : ℕ → W → ℕ → ℕ → Option (W × Outcome)
  ksock_read_msg fuel w ksock msg_len = read_msg_loop fuel w ksock msg_len msg_len 0 []

  -- kbus_ksock_read_next_msg: what it returns where it reads no message, or what reading gives.
  unfoldable pub ksock_read_next_msg :
      (W → ℕ → Request → W × Answer) → ℕ → W → ℕ → Option (W × (Result ℕ × Option Outcome))
  ksock_read_next_msg ioctl fuel w ksock =
      let (w', next) = ksock_next_msg ioctl w ksock 0 in
      elim next.0 [
        | err e ↦ some (w', (err e, none))
        | ok rv ↦
            if next.1 == 0
            then some (w', (ok rv, none))
            else elim (ksock_read_msg fuel w' ksock next.1) [
              | none ↦ none
              | some (w'', outcome) ↦ some (w'', (ok 0, some outcome))
            ]
      ]

module _ {W : Type 0} (write : W → ℕ → List ℕ → W × Result ℕ) where
  -- The loop that kbus_ksock_write_msg and kbus_ksock_write_data share, with what is left to write.
  unfoldable pub write_all : ℕ → W → ℕ → List ℕ → Option (W × Result (Unit {0}))
  write_all zero w ksock left = none
  write_all (suc fuel) w ksock left =
      let (w', written) = write w ksock left in
      let go_on = λ (n : ℕ). write_all fuel w' ksock (drop n left) in
      if length left == 0
      then some (w, ok tt)
      else elim written [ err e ↦ some (w', err e) | ok rv ↦ go_on rv ]

  -- kbus_ksock_write_data
  unfoldable pub ksock_write_data : ℕ → W → ℕ → List ℕ → ℕ → Option (W × Result (Unit {0}))
  ksock_write_data fuel w ksock bytes data_len = write_all fuel w ksock (take data_len bytes)

  -- kbus_ksock_write_msg, of a message that stands in memory as these bytes.
  unfoldable pub ksock_write_msg : ℕ → W → ℕ → UserMsg → List ℕ → Option (W × Result (Unit {0}))
  ksock_write_msg fuel w ksock msg bytes =
      let len =
        if is_entire msg
        then entire_msg_len header_size msg.name_len msg.data_len
        else header_size in
      write_all fuel w ksock (take len bytes)

  -- kbus_ksock_send_msg
  unfoldable pub ksock_send_msg :
      (W → ℕ → Request → W × Answer)
      → ℕ
      → W
      → ℕ
      → UserMsg
      → List ℕ
      → MsgId
      → Option (W × (Result ℕ × MsgId))
  ksock_send_msg ioctl fuel w ksock msg bytes old = elim (ksock_write_msg fuel w ksock msg bytes) [
    | none ↦ none
    | some (w', err e) ↦ some (w', (err e, old))
    | some (w', ok u) ↦ some (ksock_send ioctl w' ksock old)
  ]
