-- ===== src/Sending/Again.antt =====
-- kbus/kbus_main.c: kbus_poll_try_send_again either waits on or is done.
use kbus.Prelude.{
  ℕ, ◌≡◌, ◌∙◌, ◌⊎◌, refl, ap, inl, inr, true, false, arith, ◌==◌, none, some, Bool-cases,
  Option-cases,
}
use kbus.Errno.{Errno, err, eagain, Result-cases}
use kbus.Message.{Msg}
use kbus.Ksock.Records.{Ksock, for_sender}
use kbus.Ksock.Queue.{push_message}
use kbus.Device.{Dev, find_open_ksock, on_ksock}
use kbus.Device.Store.{find_ksock-update}
use kbus.Recipients.Plan.{write_to_recipients}
use kbus.Recipients.Refusal.{write-Refused}
use kbus.Synthetic.{build_kbus_message}
use kbus.Lifecycle.{empty_write_msg}
use kbus.Lifecycle.Answers.{find-push_synthetic_message}
use kbus.Sending.{is_again, discard, failure_answer, answer_failure, poll_try_send_again}
use kbus.Sending.Done.{find-write_some}

is_again-err : (e : Errno) → is_again (err e) ≡ true → e ≡ eagain
is_again-err eagain h = refl
is_again-err e h = ground arith

find-answer_failure :
    (dev : Dev) (our : ℕ) (msg : Msg) (e : Errno) (k : Ksock)
    → find_open_ksock dev our ≡ some k
    → (k' : Ksock) × (find_open_ksock (answer_failure dev msg e) our ≡ some k')
unfolding answer_failure
find-answer_failure dev our msg e k found = elim (Option-cases (failure_answer e msg)) [
  | inl quiet ↦ (k, rw (quiet, answer_failure) found)
  | inr (name, told) ↦ elim (Bool-cases (msg.from == our)) [
    | inl ours ↦ (
      push_message k (build_kbus_message dev name 0 msg.from msg.id).0 none for_sender,
      rw (told, answer_failure)
          (ground (arith, found, ours, find-push_synthetic_message dev 0 msg.from our msg.id name)),
    )
    | inr other ↦ (
      k,
      rw (told, answer_failure)
          (ground
            (arith, found, other, find-push_synthetic_message dev 0 msg.from our msg.id name)),
    )
  ]
]

find-discard :
    (dev : Dev) (our : ℕ) (k : Ksock)
    → find_open_ksock dev our ≡ some k
    → find_open_ksock (on_ksock dev our discard) our ≡ some (discard k)
unfolding discard empty_write_msg
find-discard dev our k found =
    ground (arith, found, find_ksock-update our our discard dev.open_ksock_list (λ j. refl))

-- kbus_poll_try_send_again of an open Ksock either says that it is still waiting, because the send
-- gave EAGAIN, and then nothing has changed; or that it is done, and then the Ksock has no message to
-- send and is no longer "sending".
pub poll_waits_or_done :
    (dev : Dev) (our : ℕ) (msg : Msg) (k : Ksock)
    → find_open_ksock dev our ≡ some k
    → (poll_try_send_again dev our msg ≡ (dev, false))
        × ((write_to_recipients our dev msg).1 ≡ err eagain)
      ⊎ ((poll_try_send_again dev our msg).1 ≡ true)
        × ((k' : Ksock) × (find_open_ksock (poll_try_send_again dev our msg).0 our ≡ some k')
            × (k'.write.msg ≡ none)
            × (k'.sending ≡ false))
unfolding poll_try_send_again discard empty_write_msg
poll_waits_or_done dev our msg k found = elim (Result-cases (write_to_recipients our dev msg).1) [
  | inl (u, sent) ↦
      let (k', found') = find-write_some our our dev msg k found in
      inr (
        rw (sent, poll_try_send_again) refl,
        (
          discard k',
          rw (sent, poll_try_send_again)
              (find-discard (write_to_recipients our dev msg).0 our k' found'),
          refl,
          refl,
        ),
      )
  | inr (e, failed) ↦ elim (Bool-cases (is_again (err e))) [
    | inl again ↦ inl (
      rw (failed, again, poll_try_send_again)
          (ap (λ d. (d, false)) (write-Refused our dev msg e failed).0),
      failed ∙ ap err (is_again-err e again),
    )
    | inr final ↦
        let (k₁, found₁) = find-write_some our our dev msg k found in
        let (k', found') =
          find-answer_failure (write_to_recipients our dev msg).0 our msg e k₁ found₁ in
        inr (
          rw (failed, final, poll_try_send_again) refl,
          (
            discard k',
            rw (failed, final, poll_try_send_again)
                (find-discard (answer_failure (write_to_recipients our dev msg).0 msg e) our k'
                  found'),
            refl,
            refl,
          ),
        )
  ]
]
