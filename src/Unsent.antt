-- ===== src/Unsent.antt =====
-- The device's list of Replier Unbind Events that could not be sent yet:
-- kbus_remember_unsent_unbind_event, kbus_listener_already_got_tragic_msg,
-- kbus_safe_report_unbinding, kbus_count_unsent_unbind_msgs, kbus_maybe_move_unsent_unbind_msg and
-- the functions that forget such events, of kbus/kbus_main.c.
use kbus.Prelude.{
  ℕ, ◌+◌, Bool, true, false, not, ◌||◌, Option, none, some, List, [], ◌∷◌, ◌++◌, ◌==◌, ltb,
  if◌then◌else◌, length, filter, count, add_u32, sub_u32,
}
use mathlib.Core.List.{reverse}
use kbus.Errno.{Result, ok, err, ebusy}
use kbus.Message.{Msg, no_id}
use kbus.Name.{message_name_matches}
use kbus.Ksock.Records.{for_listener}
use kbus.Ksock.Queue.{push_message, copy_message}
use kbus.Device.{Binding, UnsentItem, Dev, on_ksock}
use kbus.Recipients.Search.{find_listeners}
use kbus.Recipients.Plan.{write_to_recipients}
use kbus.Synthetic.{
  replier_bind_event, unbind_events_lost, build_kbus_message, new_synthetic_bind_message,
}

-- CONFIG_KBUS_MAX_UNSENT_UNBIND_MESSAGES
abbrev pub max_unsent_unbind_messages : ℕ
max_unsent_unbind_messages = 1000

-- kbus_remember_unsent_unbind_event
unfoldable pub remember_unsent_unbind_event : Dev → ℕ → Msg → Option ℕ → Dev
unfolding copy_message
remember_unsent_unbind_event dev priv msg binding =
    let item : UnsentItem = record {
      send_to = priv;
      send_to_id = priv;
      msg = copy_message msg;
      binding = binding;
    } in
    record dev {
      unsent_unbind_msg_list = dev.unsent_unbind_msg_list ++ item ∷ [];
      unsent_unbind_msg_count = add_u32 dev.unsent_unbind_msg_count 1;
    }

-- The loop of kbus_listener_already_got_tragic_msg, from the end of the list.
unfoldable pub tragic_in : ℕ → List UnsentItem → Bool
unfolding message_name_matches
tragic_in listener [] = false
tragic_in listener (item ∷ rest) =
    if message_name_matches item.msg.name_ref item.msg.name_len replier_bind_event
    then false
    else if item.send_to_id == listener
    then true
    else tragic_in listener rest

-- kbus_listener_already_got_tragic_msg
unfoldable pub listener_already_got_tragic_msg : Dev → ℕ → Bool
unfolding tragic_in
listener_already_got_tragic_msg dev listener =
    tragic_in listener (reverse dev.unsent_unbind_msg_list)

abbrev pub flag_unsent : Dev → ℕ → Dev
flag_unsent dev id = on_ksock dev id (λ k. record k { maybe_got_unsent_unbind_msgs = true })

-- A message is put aside for the owner of one binding.
unfoldable pub put_one_aside : Dev → Msg → Binding → Dev
unfolding remember_unsent_unbind_event
put_one_aside dev msg b =
    flag_unsent (remember_unsent_unbind_event dev b.bound_to msg (some b.addr)) b.bound_to

-- Each listener's copy of the unbind event is put aside.
unfoldable pub put_aside : Dev → Msg → List Binding → Dev
unfolding remember_unsent_unbind_event
put_aside dev msg [] = dev
put_aside dev msg (b ∷ bs) =
    put_aside
      (flag_unsent (remember_unsent_unbind_event dev b.bound_to msg (some b.addr)) b.bound_to) msg
      bs

-- The same for the "gone tragic" message, but only for those who have none yet.
unfoldable pub put_tragic_aside : Dev → Msg → List Binding → Dev
unfolding put_one_aside listener_already_got_tragic_msg
put_tragic_aside dev msg [] = dev
put_tragic_aside dev msg (b ∷ bs) =
    put_tragic_aside
      (if listener_already_got_tragic_msg dev b.bound_to then dev else put_one_aside dev msg b) msg
      bs

-- What kbus_safe_report_unbinding does for listeners that could not all take the message.
unfoldable pub set_aside : Dev → Msg → List Binding → Dev
unfolding put_aside put_tragic_aside build_kbus_message
set_aside dev msg listeners =
    if dev.unsent_unbind_is_tragic
      || ltb max_unsent_unbind_messages (length listeners + dev.unsent_unbind_msg_count)
    then (let (lost, dev') =
          build_kbus_message (record dev { unsent_unbind_is_tragic = true }) unbind_events_lost 0 0
            no_id in
        put_tragic_aside dev' lost listeners)
    else put_aside dev msg listeners

abbrev is_busy : Result (Unit {0}) → Bool
is_busy (ok u) = false
is_busy (err ebusy) = true
is_busy (err e) = false

-- kbus_safe_report_unbinding
unfoldable pub safe_report_unbinding : Dev → ℕ → ℕ → List ℕ → Dev
unfolding new_synthetic_bind_message set_aside
safe_report_unbinding dev priv name_len name =
    let (msg, dev') = new_synthetic_bind_message dev priv 0 name_len name in
    let (dev'', retval) = write_to_recipients priv dev' msg in
    if is_busy retval
    then set_aside dev'' msg
        (find_listeners msg.name_len msg.name_ref dev''.bound_message_list).listeners
    else dev''

-- kbus_count_unsent_unbind_msgs
unfoldable pub count_unsent_unbind_msgs : Dev → ℕ → ℕ
count_unsent_unbind_msgs dev priv =
    count (λ item. item.send_to_id == priv) dev.unsent_unbind_msg_list

-- The first item for a Ksock, and the list without it.
unfoldable pub take_unsent : ℕ → List UnsentItem → Option (UnsentItem × List UnsentItem)
take_unsent priv [] = none
take_unsent priv (item ∷ rest) =
    if item.send_to_id == priv then some (item, rest) else elim (take_unsent priv rest) [
      | none ↦ none
      | some (found, others) ↦ some (found, item ∷ others)
    ]

-- When the list is empty the device is no longer "gone tragic".
unfoldable pub check_tragic : Dev → Dev
check_tragic dev = elim dev.unsent_unbind_msg_list [
  | [] ↦ record dev { unsent_unbind_is_tragic = false }
  | _ ∷ _ ↦ dev
]

-- kbus_maybe_move_unsent_unbind_msg, which returns 0 where allocation succeeds.
unfoldable pub maybe_move_unsent_unbind_msg : Dev → ℕ → Dev
unfolding take_unsent check_tragic
maybe_move_unsent_unbind_msg dev priv = elim (take_unsent priv dev.unsent_unbind_msg_list) [
  | none ↦ check_tragic (on_ksock dev priv (λ k. record k { maybe_got_unsent_unbind_msgs = false }))
  | some (item, rest) ↦
      let pushed = on_ksock dev priv (λ k. push_message k item.msg item.binding for_listener) in
      check_tragic (record pushed {
        unsent_unbind_msg_list = rest;
        unsent_unbind_msg_count = sub_u32 dev.unsent_unbind_msg_count 1;
      })
]

-- Dropping the items that pass a test, each with its decrement of the count.
unfoldable pub drop_unsent : (UnsentItem → Bool) → Dev → Dev
unfolding check_tragic
drop_unsent test dev = check_tragic (record dev {
  unsent_unbind_msg_list = filter (λ item. not (test item)) dev.unsent_unbind_msg_list;
  unsent_unbind_msg_count =
      sub_u32 dev.unsent_unbind_msg_count (count test dev.unsent_unbind_msg_list);
})

abbrev pub is_from : ℕ → Option ℕ → Bool
is_from addr none = false
is_from addr (some b) = b == addr

-- kbus_forget_unbound_unsent_unbind_msgs
unfoldable pub forget_unbound_unsent_unbind_msgs : Dev → ℕ → Dev
unfolding drop_unsent
forget_unbound_unsent_unbind_msgs dev addr = drop_unsent (λ item. is_from addr item.binding) dev

-- kbus_forget_my_unsent_unbind_msgs
unfoldable pub forget_my_unsent_unbind_msgs : Dev → ℕ → Dev
unfolding drop_unsent
forget_my_unsent_unbind_msgs dev priv = drop_unsent (λ item. item.send_to_id == priv) dev

-- kbus_forget_unsent_unbind_msgs
unfoldable pub forget_unsent_unbind_msgs : Dev → Dev
forget_unsent_unbind_msgs dev = record dev {
  unsent_unbind_msg_list = [];
  unsent_unbind_msg_count = sub_u32 dev.unsent_unbind_msg_count (length dev.unsent_unbind_msg_list);
}
