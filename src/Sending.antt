-- ===== src/Sending.antt =====
-- Sending a written message: kbus_alloc_ref_data, kbus_wrap_user_data, kbus_copy_pointy_parts,
-- kbus_discard, kbus_send and kbus_poll_try_send_again of kbus/kbus_main.c.
pub mod Held
pub mod Blocked
pub mod Done
pub mod Again
use kbus.Prelude.{
  ℕ, zero, suc, ◌+◌, ◌-◌, ◌*◌, ◌/◌, Bool, true, false, not, ◌&&◌, Option, none, some, List, [], ◌∷◌,
  ◌==◌, ltb, if◌then◌else◌, has_bit, clear_bit,
}
use kbus.Errno.{
  Errno, Result, ok, err, ◌>>=◌, success, eagain, eaddrnotavail, efault, ebadmsg, enomsg, einval,
  enolck,
}
use kbus.Message.{DataPtr, Msg, synthetic, wants_reply}
use kbus.Name.{invalid_message_name}
use kbus.Ksock.Records.{Ksock, WriteMsg}
use kbus.Ksock.Queue.{queue_is_full}
use kbus.Device.{Dev, next_serial_num, find_ksock, find_open_ksock, on_ksock}
use kbus.Recipients.Plan.{write_to_recipients}
use kbus.Synthetic.{replier_disappeared, error_sending, push_synthetic_message}
use kbus.Lifecycle.{empty_write_msg}

-- kbus_discard
unfoldable pub discard : Ksock → Ksock
unfolding empty_write_msg
discard priv = record (empty_write_msg priv) { sending = false }

-- A user sends no message that is marked as synthetic, and `extra` is reserved.
abbrev pub clean : Msg → Msg
clean msg = record msg { flags = clear_bit synthetic msg.flags; extra = 0 }

-- The message with its sender and, the first time that it is sent, its serial number.
unfoldable pub stamp : Dev → ℕ → Bool → Msg → Msg × Dev
unfolding next_serial_num
stamp dev our sending msg =
    let (serial_num, dev') = next_serial_num dev in
    if not sending && msg.id.network_id == 0
    then (record msg { from = our; id = record { network_id = 0; serial_num = serial_num } }, dev')
    else (record msg { from = our }, dev)

-- The sender's copy of the message, as kbus_write_to_recipients finds it.
unfoldable pub hold : Dev → ℕ → WriteMsg → Msg → Dev
hold dev our this msg =
    on_ksock dev our
      (λ k. record k { write = record this { msg = some msg }; last_msg_id_sent = msg.id })

-- kbus_send from "So, we're actually ready to SEND!" to its call of kbus_write_to_recipients.
unfoldable pub transmit : Dev → ℕ → Bool → WriteMsg → Msg → Dev × Result (Unit {0})
unfolding stamp hold
transmit dev our sending this msg =
    let (stamped, dev') = stamp dev our sending msg in
    write_to_recipients our (hold dev' our this stamped) stamped

abbrev pub is_again : Result (Unit {0}) → Bool
is_again (ok u) = false
is_again (err eagain) = true
is_again (err e) = false

-- kbus_send from its label `done`, up to the copy of the message id.
unfoldable pub finish : Dev → ℕ → Result (Unit {0}) → Dev
unfolding discard
finish dev our retval =
    if is_again retval
    then on_ksock dev our (λ k. record k { sending = true })
    else on_ksock dev our discard

-- What kbus_send returns: `writable` is whether copy_to_user can write the id.
abbrev pub report : Bool → Result (Unit {0}) → Result (Unit {0})
report true retval = retval
report false (ok u) = err efault
report false (err eagain) = err efault
report false (err e) = err e

-- `copy_from_user` gives the bytes at an address, or nothing where it fails; `page_size` is
-- PAGE_SIZE.
module _ (isalnum : ℕ → Bool) (page_size : ℕ) (copy_from_user : ℕ → ℕ → Option (List ℕ)) where
  -- The loop of kbus_wrap_user_data: all parts but the last are full.
  unfoldable pub copy_parts : ℕ → ℕ → ℕ → Option (List (List ℕ))
  copy_parts zero last_page_len data_ptr = some []
  copy_parts (suc zero) last_page_len data_ptr = elim (copy_from_user data_ptr last_page_len) [
    | none ↦ none
    | some part ↦ some (part ∷ [])
  ]
  copy_parts (suc (suc n)) last_page_len data_ptr =
      let rest = copy_parts (suc n) last_page_len (data_ptr + page_size) in
      elim (copy_from_user data_ptr page_size) [
        | none ↦ none
        | some part ↦ elim rest [ none ↦ none | some parts ↦ some (part ∷ parts) ]
      ]

  -- kbus_wrap_user_data, on what kbus_alloc_ref_data sets up for it.
  unfoldable pub wrap_user_data : ℕ → ℕ → Result DataPtr
  unfolding copy_parts
  wrap_user_data data_len user_data_ptr =
      let num_parts = (data_len + page_size - 1) / page_size in
      let last_page_len = data_len - (num_parts - 1) * page_size in
      elim (copy_parts num_parts last_page_len user_data_ptr) [
        | none ↦ err efault
        | some parts ↦ ok (record {
          as_pages = not (num_parts == 1 && ltb data_len (page_size / 2));
          parts = parts;
          last_page_len = last_page_len;
        })
      ]

  unfoldable pub copy_data : ℕ → ℕ → Result (Option DataPtr)
  unfolding wrap_user_data
  copy_data data_len user_data_ptr =
      if data_len == 0
      then ok none
      else (wrap_user_data data_len user_data_ptr >>= λ new_data. ok (some new_data))

  -- kbus_copy_pointy_parts
  unfoldable pub copy_pointy_parts : WriteMsg → Msg → Result (WriteMsg × Msg)
  unfolding copy_data
  copy_pointy_parts this msg = elim (copy_from_user this.user_name_ptr (msg.name_len + 1)) [
    | none ↦ err efault
    | some new_name ↦
        if invalid_message_name isalnum new_name msg.name_len
        then err ebadmsg
        else (copy_data msg.data_len this.user_data_ptr >>= λ new_data. ok (
          record this { user_name_ptr = 0; user_data_ptr = 0; pointers_are_local = true },
          record msg { name_ref = new_name; data_ref = new_data },
        ))
  ]

  unfoldable pub localise : WriteMsg → Msg → Result (WriteMsg × Msg)
  unfolding copy_pointy_parts
  localise this msg =
      if not this.pointers_are_local then copy_pointy_parts this msg else ok (this, msg)

  -- kbus_send up to its label `done`, for a Ksock with a message.
  unfoldable pub attempt : Dev → ℕ → Ksock → Msg → Dev × Result (Unit {0})
  unfolding localise transmit
  attempt dev our k msg =
      if not k.write.is_finished then (dev, err einval) else elim (localise k.write (clean msg)) [
        | err e ↦ (dev, err e)
        | ok (this, local) ↦
            if wants_reply local && queue_is_full k false
            then (dev, err enolck)
            else transmit dev our k.sending this local
      ]

  -- kbus_send
  unfoldable pub send : Bool → Dev → ℕ → Dev × Result (Unit {0})
  unfolding attempt finish find_ksock
  send writable dev our = elim (find_open_ksock dev our) [
    | none ↦ (dev, err enomsg)
    | some k ↦ elim k.write.msg [
      | none ↦ (dev, err enomsg)
      | some msg ↦
          let (dev', retval) = attempt dev our k msg in
          (finish dev' our retval, report writable retval)
    ]
  ]

-- What a failed kbus_poll_try_send_again tells the sender.
abbrev pub failure_answer : Errno → Msg → Option (List ℕ)
failure_answer eaddrnotavail msg = some replier_disappeared
failure_answer e msg = if wants_reply msg then some error_sending else none

unfoldable pub answer_failure : Dev → Msg → Errno → Dev
answer_failure dev msg e = elim (failure_answer e msg) [
  | none ↦ dev
  | some name ↦ push_synthetic_message dev 0 msg.from msg.id name
]

-- kbus_poll_try_send_again: whether it is done with the message, which is the Ksock's `write.msg`.
unfoldable pub poll_try_send_again : Dev → ℕ → Msg → Dev × Bool
unfolding discard answer_failure
poll_try_send_again dev our msg =
    let (dev', retval) = write_to_recipients our dev msg in
    elim retval [
      | ok u ↦ (on_ksock dev' our discard, true)
      | err e ↦
          if is_again (err e)
          then (dev', false)
          else (on_ksock (answer_failure dev' msg e) our discard, true)
    ]
