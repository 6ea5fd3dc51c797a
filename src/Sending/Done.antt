-- ===== src/Sending/Done.antt =====
-- kbus/kbus_main.c: whenever a message is not held back, its sender is done with it.
use kbus.Prelude.{
  ℕ, ◌≡◌, refl, ◌∙◌, ap, inl, inr, true, false, ◌&&◌, List, arith, Bool, Bool-cases, Option, none,
  some,
}
use kbus.Errno.{Result-cases}
use kbus.Message.{Msg, wants_reply}
use kbus.Ksock.Records.{Ksock, WriteMsg}
use kbus.Ksock.Queue.{queue_is_full}
use kbus.Device.{Dev, find_open_ksock}
use kbus.Device.Store.{find_ksock-update}
use kbus.Recipients.Plan.{write_to_recipients}
use kbus.Recipients.Refusal.{write-Refused}
use kbus.Recipients.Delivery.{find-write, taken, the_plan}
use kbus.Lifecycle.{empty_write_msg}
use kbus.Sending.{clean, stamp, hold, is_again, discard, transmit, finish, attempt, localise, send}
use kbus.Sending.Blocked.{ksocks-stamp}

-- A Ksock that is open stays open when a message is written to its recipients.
pub find-write_some :
    (our j : ℕ) (dev : Dev) (msg : Msg) (k : Ksock)
    → find_open_ksock dev j ≡ some k
    → (k' : Ksock) × (find_open_ksock (write_to_recipients our dev msg).0 j ≡ some k')
find-write_some our j dev msg k found = elim (Result-cases (write_to_recipients our dev msg).1) [
  | inr (e, failed) ↦
      (k, ap (λ d. find_open_ksock d j) (write-Refused our dev msg e failed).0 ∙ found)
  | inl (u, done) ↦ (taken our j msg (the_plan dev msg) k, find-write our j dev msg k done found)
]

find-transmit :
    (dev : Dev) (our : ℕ) (sending : Bool) (this : WriteMsg) (msg : Msg) (k : Ksock)
    → find_open_ksock dev our ≡ some k
    → (k' : Ksock) × (find_open_ksock (transmit dev our sending this msg).0 our ≡ some k')
unfolding transmit hold
find-transmit dev our sending this msg k found =
    let (stamped, dev') = stamp dev our sending msg in
    find-write_some our our (hold dev' our this stamped) stamped (written k) (
      ground (
        arith,
        found,
        ksocks-stamp dev our sending msg,
        find_ksock-update our our written dev'.open_ksock_list (λ j. refl),
      ))
  where
    written : Ksock → Ksock
    written j = record j {
      write = record this { msg = some (stamp dev our sending msg).0 };
      last_msg_id_sent = (stamp dev our sending msg).0.id;
    }

module _ (isalnum : ℕ → Bool) (page_size : ℕ) (copy_from_user : ℕ → ℕ → Option (List ℕ)) where
  find-attempt :
      (dev : Dev) (our : ℕ) (k : Ksock) (msg : Msg)
      → find_open_ksock dev our ≡ some k
      → (k' : Ksock) × (find_open_ksock
            (attempt isalnum page_size copy_from_user dev our k msg).0
            our
          ≡ some k')
  unfolding attempt
  find-attempt dev our k msg found = elim (Bool-cases k.write.is_finished) [
    | inr e ↦ (k, ground (arith, found, e))
    | inl e ↦ elim (Result-cases (localise isalnum page_size copy_from_user k.write (clean msg))) [
      | inr (d, failed) ↦ (k, ground (arith, found, e, failed))
      | inl ((this, local), localised) ↦
          elim (Bool-cases (wants_reply local && queue_is_full k false)) [
            | inl full ↦ (k, ground (arith, found, e, localised, full))
            | inr room ↦
                let (k', found') = find-transmit dev our k.sending this local k found in
                (k', ground (arith, found', e, localised, room))
          ]
    ]
  ]

  -- If kbus_send of an open Ksock with a message does not come to EAGAIN, by success or another error,
  -- before it copies the id of the message to its caller, then the Ksock is open afterwards, no longer
  -- "sending", and has no message to send, whether that copy succeeds or not. (What kbus_send comes to
  -- is what it returns where that copy succeeds.)
  pub send_done :
      (writable : Bool) (dev : Dev) (our : ℕ) (k : Ksock) (msg : Msg)
      → find_open_ksock dev our ≡ some k
      → k.write.msg ≡ some msg
      → is_again (send isalnum page_size copy_from_user true dev our).1 ≡ false
      → (k' : Ksock) × (find_open_ksock
            (send isalnum page_size copy_from_user writable dev our).0
            our
          ≡ some k')
        × (k'.write.msg ≡ none)
        × (k'.sending ≡ false)
  unfolding send finish discard empty_write_msg
  send_done writable dev our k msg found written done =
      let (k', found') = find-attempt dev our k msg found in
      (
        discard k',
        ground (
          arith,
          found,
          written,
          found',
          done,
          find_ksock-update our our discard
              (attempt isalnum page_size copy_from_user dev our k msg).0.open_ksock_list
              (λ j. refl),
        ),
        refl,
        refl,
      )
