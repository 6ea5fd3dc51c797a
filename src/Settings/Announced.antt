-- ===== src/Settings/Announced.antt =====
-- kbus/kbus_main.c: a Ksock that asks for reports of bindings is told of those that there are.
use kbus.Prelude.{
  ℕ, ◌+◌, ◌≡◌, ◌∙◌, inl, inr, false, not, none, some, List, [], ◌∷◌, ◌==◌, has_bit, arith, length,
  count, Bool-cases,
}
use kbus.Errno.{success}
use kbus.Message.{Msg, urgent}
use kbus.Ksock.Records.{Ksock, for_listener}
use kbus.Ksock.Queue.{push_message, is_repeat, pushed_item}
use kbus.Ksock.Validity.{length-enqueue}
use kbus.Device.{Binding, Dev, find_open_ksock}
use kbus.Device.Store.{find_ksock-update}
use kbus.Recipients.Plan.{owner_is_full}
use kbus.Synthetic.{new_synthetic_bind_message}
use kbus.Settings.{report_one, report_existing_binds}

length-push_listener :
    (k : Ksock) (msg : Msg)
    → k.messages_only_once ≡ false
    → length (push_message k msg none for_listener).message_queue ≡ length k.message_queue + 1
unfolding push_message is_repeat
length-push_listener k msg often = ground (
  arith,
  often,
  length-enqueue (has_bit urgent msg.flags) (pushed_item msg none for_listener) k.message_queue,
)

id-push_listener : (k : Ksock) (msg : Msg) → (push_message k msg none for_listener).id ≡ k.id
unfolding push_message
id-push_listener k msg = ground arith

once-push_listener :
    (k : Ksock) (msg : Msg)
    → (push_message k msg none for_listener).messages_only_once ≡ k.messages_only_once
unfolding push_message
once-push_listener k msg = ground arith

find-report_one :
    (dev : Dev) (our : ℕ) (b : Binding) (k : Ksock)
    → find_open_ksock dev our ≡ some k
    → find_open_ksock (report_one dev our b) our
      ≡ some (
          push_message k
            (new_synthetic_bind_message dev b.bound_to 1 b.name_len b.name).0
            none
            for_listener)
unfolding report_one
find-report_one dev our b k found =
    let new_msg = (new_synthetic_bind_message dev b.bound_to 1 b.name_len b.name).0 in
    ground (
      arith,
      found,
      find_ksock-update our our (λ j. push_message j new_msg none for_listener) dev.open_ksock_list
          (λ j. id-push_listener j new_msg),
    )

-- When kbus_report_existing_binds succeeds for an open Ksock that has not asked for messages only
-- once, that Ksock's queue has grown by one message for each replier binding.
pub report_existing_binds_all :
    (dev : Dev) (our : ℕ) (bs : List Binding) (k : Ksock)
    → find_open_ksock dev our ≡ some k
    → k.messages_only_once ≡ false
    → (report_existing_binds dev our bs).1 ≡ success
    → (k' : Ksock) × (find_open_ksock (report_existing_binds dev our bs).0 our ≡ some k')
      × (length k'.message_queue ≡ length k.message_queue + count (λ b. not (b.is_replier == 0)) bs)
unfolding report_existing_binds
report_existing_binds_all dev our [] k found often done = (k, found, omega arith)
report_existing_binds_all dev our (b ∷ bs) k found often done =
    elim (Bool-cases (b.is_replier == 0)) [
      | inl e ↦
          let (k', found', grown) =
            report_existing_binds_all dev our bs k found often (ground (arith, e, done)) in
          (k', ground (arith, e, found'), ground (arith, e, grown))
      | inr e ↦ elim (Bool-cases (owner_is_full dev our)) [
        | inl full ↦ absurd (ground (arith, e, full, done))
        | inr room ↦
            let new_msg = (new_synthetic_bind_message dev b.bound_to 1 b.name_len b.name).0 in
            let (k', found', grown) =
              report_existing_binds_all (report_one dev our b) our bs
                (push_message k new_msg none for_listener) (find-report_one dev our b k found)
                (once-push_listener k new_msg ∙ often) (ground (arith, e, room, done)) in
            (
              k',
              ground (arith, e, room, found'),
              ground (arith, e, grown, length-push_listener k new_msg often),
            )
      ]
    ]
