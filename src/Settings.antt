-- ===== src/Settings.antt =====
-- The calls of kbus/kbus_main.c that read or set one number: kbus_maxmsgs, kbus_nummsgs,
-- kbus_onlyonce, kbus_set_verbosity, kbus_set_report_binds with kbus_report_existing_binds, and
-- kbus_maxmsgsize. The number from user space is an argument; the one that is put there is the
-- result.
pub mod Announced
pub mod Queries
use kbus.Prelude.{
  ℕ, ◌+◌, ◌≡◌, ◌∙◌, refl, inl, inr, Bool, true, false, not, ◌&&◌, ◌||◌, ◌≤◌, Option, none, some,
  List, [], ◌∷◌, ◌==◌, ltb, if◌then◌else◌, add_u32, has_bit, arith, length, count, Bool-cases,
}
use mathlib.Core.Option
use kbus.Errno.{Result, ok, err, success, ebusy, einval}
use kbus.Message.{Msg, urgent}
use kbus.Ksock.Records.{Ksock, for_listener}
use kbus.Ksock.Queue.{push_message, is_repeat, pushed_item}
use kbus.Ksock.Validity.{length-enqueue}
use kbus.Device.{Binding, Dev, find_ksock, find_open_ksock, on_ksock}
use kbus.Device.Store.{find_ksock-update}
use kbus.Recipients.Plan.{owner_is_full}
use kbus.Synthetic.{new_synthetic_bind_message}
use kbus.Unsent.{count_unsent_unbind_msgs}

-- kbus_maxmsgs
unfoldable pub maxmsgs : Ksock → ℕ → Ksock × ℕ
maxmsgs priv requested_max =
    if ltb 0 requested_max
    then (record priv { max_messages = requested_max }, requested_max)
    else (priv, priv.max_messages)

-- kbus_nummsgs
unfoldable pub nummsgs : Dev → Ksock → ℕ
nummsgs dev priv =
    if priv.maybe_got_unsent_unbind_msgs
    then add_u32 priv.message_count (count_unsent_unbind_msgs dev priv.id)
    else priv.message_count

-- The query that KBUS takes in place of a Boolean.
abbrev pub query : ℕ
query = 4294967295

abbrev pub as_number : Bool → ℕ
as_number true = 1
as_number false = 0

-- The switch that kbus_onlyonce and kbus_set_verbosity make: the new value, if there is to be one.
unfoldable pub switch : Bool → ℕ → Result Bool
switch old value =
    if value == 0
    then ok false
    else if value == 1
    then ok true
    else if value == query
    then ok old
    else err einval

-- kbus_onlyonce
unfoldable pub onlyonce : Ksock → ℕ → Ksock × Result ℕ
unfolding switch
onlyonce priv only_once = elim (switch priv.messages_only_once only_once) [
  | err e ↦ (priv, err e)
  | ok value ↦ (record priv { messages_only_once = value }, ok (as_number priv.messages_only_once))
]

-- kbus_set_verbosity
unfoldable pub set_verbosity : Dev → ℕ → Dev × Result ℕ
unfolding switch
set_verbosity dev verbose = elim (switch dev.verbose verbose) [
  | err e ↦ (dev, err e)
  | ok value ↦ (record dev { verbose = value }, ok (as_number dev.verbose))
]

-- One message of kbus_report_existing_binds, for a replier binding.
unfoldable pub report_one : Dev → ℕ → Binding → Dev
unfolding new_synthetic_bind_message
report_one dev our b =
    let (new_msg, dev') = new_synthetic_bind_message dev b.bound_to 1 b.name_len b.name in
    on_ksock dev' our (λ k. push_message k new_msg none for_listener)

-- The loop of kbus_report_existing_binds: a message that is made for a full queue is freed, but its
-- serial number is used up.
unfoldable pub report_existing_binds : Dev → ℕ → List Binding → Dev × Result (Unit {0})
unfolding report_one owner_is_full
report_existing_binds dev our [] = (dev, success)
report_existing_binds dev our (b ∷ bs) =
    let rest =
      report_existing_binds (if b.is_replier == 0 then dev else report_one dev our b) our bs in
    if not (b.is_replier == 0) && owner_is_full dev our
    then ((new_synthetic_bind_message dev b.bound_to 1 b.name_len b.name).1, err ebusy)
    else rest

-- kbus_set_report_binds
unfoldable pub set_report_binds : Dev → ℕ → ℕ → Dev × Result ℕ
unfolding report_existing_binds
set_report_binds dev our report_replier_binds =
    let old_value = as_number dev.report_replier_binds in
    let on = record dev { report_replier_binds = true } in
    let (reported, retval) = report_existing_binds on our on.bound_message_list in
    if report_replier_binds == 0
    then (record dev { report_replier_binds = false }, ok old_value)
    else if report_replier_binds == 1
    then elim retval [ err e ↦ (reported, err e) | ok u ↦ (reported, ok old_value) ]
    else if report_replier_binds == query
    then (dev, ok old_value)
    else (dev, err einval)

-- CONFIG_KBUS_ABS_MAX_MESSAGE_SIZE
abbrev pub abs_max_message_size : ℕ
abs_max_message_size = 1024

-- kbus_maxmsgsize
unfoldable pub maxmsgsize : Dev → ℕ → Dev × Result ℕ
maxmsgsize dev requested_max =
    if requested_max == 0
    then (dev, ok dev.max_message_size)
    else if requested_max == 1
    then (dev, ok abs_max_message_size)
    else if ltb requested_max 100 || ltb abs_max_message_size requested_max
    then (dev, err einval)
    else (record dev { max_message_size = requested_max }, ok requested_max)
