-- ===== src/Sending/Blocked.antt =====
-- kbus/kbus_main.c: a message that cannot be sent at once stays with its sender.
use kbus.Prelude.{
  ℕ, ◌≡◌, refl, inl, inr, true, false, ◌&&◌, List, arith, ◌==◌, if◌then◌else◌, Bool, Bool-cases,
  Option, some,
}
use mathlib.Core.Option
use kbus.Errno.{Errno, err, eagain, Result-cases}
use kbus.Message.{Msg, wants_reply}
use kbus.Ksock.Records.{Ksock, WriteMsg}
use kbus.Ksock.Queue.{queue_is_full}
use kbus.Device.{Dev, find_open_ksock}
use kbus.Device.Store.{find_ksock-update}
use kbus.Recipients.Refusal.{write-Refused}
use kbus.Sending.Held.{IsHeld, localised-IsHeld}
use kbus.Sending.{
  clean, stamp, hold, is_again, transmit, finish, attempt, localise, copy_pointy_parts, copy_data,
  wrap_user_data, send,
}

-- A Ksock that keeps a message that it could not send.
abbrev pub held_back : Ksock → WriteMsg → Msg → Ksock
held_back k this msg = record k {
  write = record this { msg = some msg };
  last_msg_id_sent = msg.id;
  sending = true;
}

pub ksocks-stamp :
    (dev : Dev) (our : ℕ) (sending : Bool) (msg : Msg)
    → (stamp dev our sending msg).1.open_ksock_list ≡ dev.open_ksock_list
unfolding stamp
ksocks-stamp dev our sending msg = ground arith

-- What a call that would block leaves: the sender alone is changed.
find-transmit_blocked :
    (dev : Dev) (our j : ℕ) (sending : Bool) (this : WriteMsg) (msg : Msg)
    → (transmit dev our sending this msg).1 ≡ err eagain
    → find_open_ksock (finish (transmit dev our sending this msg).0 our (err eagain)) j ≡ (
        if our == j
        then Option.map
            (λ k. held_back k this (stamp dev our sending msg).0)
            (find_open_ksock dev j)
        else find_open_ksock dev j)
unfolding transmit finish hold
find-transmit_blocked dev our j sending this msg blocked =
    let (stamped, dev') = stamp dev our sending msg in
    ground (
      arith,
      (write-Refused our (hold dev' our this stamped) stamped eagain blocked).0,
      find_ksock-update our j
          (λ k. record k {
            write = record this { msg = some stamped };
            last_msg_id_sent = stamped.id;
          })
          dev'.open_ksock_list (λ k. refl),
      find_ksock-update our j (λ k. record k { sending = true })
          (hold dev' our this stamped).open_ksock_list (λ k. refl),
      ksocks-stamp dev our sending msg,
    )

module _ (isalnum : ℕ → Bool) (page_size : ℕ) (copy_from_user : ℕ → ℕ → Option (List ℕ)) where
  copy_data_err :
      (n a : ℕ) (e : Errno)
      → copy_data isalnum page_size copy_from_user n a ≡ err e
      → is_again (err e) ≡ false
  unfolding copy_data wrap_user_data
  copy_data_err n a e h = ground arith

  localise_err :
      (this : WriteMsg) (msg : Msg) (e : Errno)
      → localise isalnum page_size copy_from_user this msg ≡ err e
      → is_again (err e) ≡ false
  unfolding localise copy_pointy_parts
  localise_err this msg e h =
      elim (Result-cases
        (copy_data isalnum page_size copy_from_user msg.data_len this.user_data_ptr)) [
          | inl (new_data, copied) ↦ ground (arith, copied)
          | inr (d, failed) ↦
              ground (arith, failed, copy_data_err msg.data_len this.user_data_ptr d failed)
        ]

  -- If kbus_send of an open Ksock with a message returns EAGAIN, then nobody has been given the
  -- message, every other Ksock is as it was, and the sender is as it was but that it is "sending",
  -- keeps the message, finished, and gives out the id of the message. The message is as it was
  -- written, except that the mark of synthetic messages and `extra` are cleared, that the Ksock is its
  -- sender, that it gets an id if it has no network id and was not being sent before, and that a name
  -- and data that were still in user space have been copied from there.
  pub send_blocked :
      (dev : Dev) (our j : ℕ) (k : Ksock) (msg : Msg)
      → find_open_ksock dev our ≡ some k
      → k.write.msg ≡ some msg
      → (send isalnum page_size copy_from_user true dev our).1 ≡ err eagain
      → (this : WriteMsg) × (held : Msg) × IsHeld isalnum page_size copy_from_user dev our k msg
          this held
        × (find_open_ksock (send isalnum page_size copy_from_user true dev our).0 j
            ≡ (if our == j then some (held_back k this held) else find_open_ksock dev j))
  unfolding send attempt
  send_blocked dev our j k msg found written blocked = elim (Bool-cases k.write.is_finished) [
    | inr e ↦ absurd (ground (arith, found, written, e))
    | inl e ↦ elim (Result-cases (localise isalnum page_size copy_from_user k.write (clean msg))) [
      | inr (d, failed) ↦
          absurd
            (ground (arith, found, written, e, failed, localise_err k.write (clean msg) d failed))
      | inl ((this, local), localised) ↦
          elim (Bool-cases (wants_reply local && queue_is_full k false)) [
            | inl full ↦ absurd (ground (arith, found, written, e, localised, full))
            | inr room ↦
                let sent : (transmit dev our k.sending this local).1 ≡ err eagain =
                  ground (arith, found, written, e, localised, room, blocked) in
                (
                  this,
                  (stamp dev our k.sending local).0,
                  localised-IsHeld isalnum page_size copy_from_user dev our k msg this local e
                      localised,
                  ground (
                    arith,
                    found,
                    written,
                    e,
                    localised,
                    room,
                    sent,
                    find-transmit_blocked dev our j k.sending this local sent,
                  ),
                )
          ]
    ]
  ]
