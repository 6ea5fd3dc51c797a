-- ===== src/Libkbus/Receiving.antt =====
-- kbus_ksock_read_next_msg of libkbus/libkbus.c on top of the device of kbus/kbus_main.c, whose read
-- is kbus_read.
use kbus.Prelude.{
  ℕ, suc, ◌^◌, ◌%◌, ◌<◌, ◌≡◌, ◌≢◌, refl, inl, inr, ap, ◌∙◌, Bool, false, Option, none, some, List,
  ◌∷◌, arith, ◌==◌, Bool-cases, Option-cases, has_bit,
}
use mathlib.Core.Option
use kbus.Errno.{Result, ok, err, enotty}
use kbus.Size.{entire_msg_len}
use kbus.Message.{want_you_to_reply}
use kbus.Header.{header_size}
use kbus.Ksock.Records.{Ksock, QueueItem}
use kbus.Ksock.Replies.{reply_needed}
use kbus.Lifecycle.{empty_read_msg}
use kbus.Device.{Dev, find_open_ksock, on_ksock}
use kbus.Reading.{read, nextmsg, next_message}
use kbus.Reading.Next.{Sized, message_bytes, length-message_bytes, next_message-item, nextmsg-read}
use kbus.Ioctl.{Request, Answer, nextmsg_request, dispatch}
use kbus.Libkbus.Calls.{ksock_next_msg, stored}
use kbus.Libkbus.Transfers.{Outcome, message, ksock_read_msg, ksock_read_next_msg}
use kbus.Libkbus.Whole.{read_msg_whole}
use kbus.Libkbus.OnKbus.{system, ioctl_open, find-changed}

-- kbus_read of an open Ksock.
unfoldable pub device_read : Dev → ℕ → ℕ → Dev × Result (List ℕ)
device_read dev ksock count = elim (find_open_ksock dev ksock) [
  | none ↦ (dev, err enotty)
  | some k ↦ let (bytes, k') = read k count in (on_ksock dev ksock (λ _. k'), ok bytes)
]

next_id :
    (priv : Ksock) (item : QueueItem) (rest : List QueueItem)
    → priv.message_queue ≡ item ∷ rest
    → ((next_message priv).1.id ≡ priv.id) × ((next_message priv).1.message_queue ≡ rest)
unfolding reply_needed
next_id priv item rest e =
    rw (next_message-item priv item rest e)
      (elim (Bool-cases (has_bit want_you_to_reply item.msg.flags)) [
        | inl asks ↦ rw asks (refl, refl)
        | inr tells ↦ rw tells (refl, refl)
      ])

read_open :
    (dev : Dev) (ksock count : ℕ) (k : Ksock)
    → find_open_ksock dev ksock ≡ some k
    → device_read dev ksock count
      ≡ (on_ksock dev ksock (λ _. (read k count).1), ok (read k count).0)
unfolding device_read
read_open dev ksock count k found = rw (found, device_read) refl

read_keeps :
    (priv : Ksock) (count : ℕ)
    → ((read priv count).1.id ≡ priv.id) × ((read priv count).1.message_queue ≡ priv.message_queue)
unfolding read empty_read_msg
read_keeps priv count = elim (Option-cases priv.read.msg) [
  | inl nothing ↦ rw nothing (refl, refl)
  | inr (msg, some_msg) ↦ rw some_msg (ground arith, ground arith)
]

length_positive : (n d : ℕ) → 0 < entire_msg_len header_size n d
unfolding entire_msg_len
length_positive n d = omega arith

-- kbus_ksock_read_next_msg where there is a next message and it is read.
next_and_read :
    {W : Type 0} (input : W → ℕ → ℕ → W × Result (List ℕ)) (ioctl : W → ℕ → Request → W × Answer)
    (fuel : ℕ) (w w' w'' : W) (ksock len rv : ℕ) (outcome : Outcome)
    → ksock_next_msg ioctl w ksock 0 ≡ (w', (ok rv, len))
    → len ≢ 0
    → ksock_read_msg input fuel w' ksock len ≡ some (w'', outcome)
    → ksock_read_next_msg input ioctl fuel w ksock ≡ some (w'', (ok 0, some outcome))
unfolding ksock_read_next_msg
next_and_read input ioctl fuel w w' w'' ksock len rv outcome next more done =
    let some_left : (len == 0) ≡ false = ground arith in
    rw (ap (λ p. p.1.0) next, ksock_read_next_msg)
      (rw (ap (λ p. p.1.1) next) (rw some_left (rw (ap (λ p. p.0) next) (rw done refl))))

module _ (isalnum : ℕ → Bool) (page_size : ℕ) (copy_from_user : ℕ → ℕ → Option (List ℕ)) where
  -- NEXTMSG through the library.
  next_begun :
      (dev : Dev) (ksock : ℕ) (priv : Ksock) (item : QueueItem) (rest : List QueueItem)
      → find_open_ksock dev ksock ≡ some priv
      → priv.message_queue ≡ item ∷ rest
      → priv.maybe_got_unsent_unbind_msgs ≡ false
      → ksock_next_msg (system isalnum page_size copy_from_user) dev ksock 0 ≡ (
        on_ksock dev ksock (λ j. (next_message j).1),
        (ok 1, entire_msg_len header_size item.msg.name_len item.msg.data_len % 2 ^ 32),
      )
  unfolding ksock_next_msg dispatch nextmsg
  next_begun dev ksock priv item rest found e quiet =
      let first = ap (λ p. p.0) (next_message-item priv item rest e) in
      let taken : nextmsg dev ksock ≡ (
        on_ksock dev ksock (λ j. (next_message j).1),
        some (entire_msg_len header_size item.msg.name_len item.msg.data_len % 2 ^ 32),
      ) =
        rw (found, nextmsg) (rw first (rw quiet refl)) in
      ap (λ p. (p.0, (p.1.0, stored 0 p.1.1)))
        (ioctl_open isalnum page_size copy_from_user dev ksock priv nextmsg_request found)
      ∙ rw (ap (λ p. p.1) taken, dispatch)
          (ap
            (λ p. (
              p.0,
              (ok 1, entire_msg_len header_size item.msg.name_len item.msg.data_len % 2 ^ 32),
            ))
            taken)

  -- The next message of a Ksock that is open, and that has no Replier Unbind Events put aside for it,
  -- is what kbus_ksock_read_next_msg returns: all its bytes, in two rounds of its loop. Then it is
  -- not in the queue any more. (Its lengths are those of its name and data, and not so large that
  -- the length of the message does not fit into a u32.)
  pub read_next_msg_takes :
      (dev : Dev) (ksock fuel : ℕ) (priv : Ksock) (item : QueueItem) (rest : List QueueItem)
      → find_open_ksock dev ksock ≡ some priv
      → priv.id ≡ ksock
      → priv.message_queue ≡ item ∷ rest
      → priv.maybe_got_unsent_unbind_msgs ≡ false
      → Sized item.msg
      → entire_msg_len header_size item.msg.name_len item.msg.data_len < 2 ^ 32
      → (dev' : Dev) × (ksock_read_next_msg device_read
            (system isalnum page_size copy_from_user)
            (suc (suc fuel))
            dev
            ksock
          ≡ some (dev', (ok 0, some (message (message_bytes item.msg)))))
        × (Option.map (λ (k : Ksock). k.message_queue) (find_open_ksock dev' ksock) ≡ some rest)
  unfolding ksock_read_next_msg
  read_next_msg_takes dev ksock fuel priv item rest found same e quiet sized small =
      let len = entire_msg_len header_size item.msg.name_len item.msg.data_len in
      let asked = next_begun dev ksock priv item rest found e quiet in
      let begun = on_ksock dev ksock (λ j. (next_message j).1) in
      let now = next_id priv item rest e in
      let there : find_open_ksock begun ksock ≡ some (next_message priv).1 =
        find-changed ksock priv (λ j. (next_message j).1) dev.open_ksock_list found
          (now.0 ∙ same) in
      let whole = nextmsg-read dev ksock priv item rest found e sized in
      let k = (read (next_message priv).1 len).1 in
      let kept = read_keeps (next_message priv).1 len in
      let fits : len % 2 ^ 32 ≡ len = omega (arith, small) in
      let more : 0 < len = length_positive item.msg.name_len item.msg.data_len in
      let given : device_read begun ksock len
          ≡ (on_ksock begun ksock (λ _. k), ok (message_bytes item.msg)) =
        read_open begun ksock len (next_message priv).1 there
        ∙ ap (λ bytes. (on_ksock begun ksock (λ _. k), ok bytes)) whole.1 in
      let arrived =
        read_msg_whole device_read fuel begun (on_ksock begun ksock (λ _. k)) ksock len
          (message_bytes item.msg) more (omega (arith, small)) given
          (length-message_bytes item.msg sized) in
      (
        on_ksock begun ksock (λ _. k),
        next_and_read device_read (system isalnum page_size copy_from_user) (suc (suc fuel)) dev
            begun (on_ksock begun ksock (λ _. k)) ksock len 1 (message (message_bytes item.msg))
            (asked ∙ ap (λ n. (begun, (ok 1, n))) fits) (omega arith) arrived,
        ap (Option.map (λ (j : Ksock). j.message_queue)) (
              find-changed ksock (next_message priv).1 (λ _. k) begun.open_ksock_list there
                (kept.0 ∙ now.0 ∙ same))
            ∙ ap some (kept.1 ∙ now.1),
      )
