-- ===== src/Bindings/Table.antt =====
-- The device's list of bindings: kbus_remember_binding, kbus_find_binding,
-- kbus_forget_matching_messages, kbus_forget_binding, kbus_forget_my_bindings and
-- kbus_forget_all_bindings of kbus/kbus_main.c.
use kbus.Prelude.{
  ℕ, suc, Bool, true, false, not, ◌&&◌, Option, none, some, List, [], ◌∷◌, ◌==◌, if◌then◌else◌,
  has_bit, sub_u32,
}
use kbus.CString.{strncmp_eq}
use kbus.Errno.{Result, ok, err, success, eaddrinuse, einval}
use kbus.Message.{Msg, want_you_to_reply}
use kbus.Ksock.Records.{QueueItem}
use kbus.Device.{Binding, Dev, find_open_ksock, on_ksock}
use kbus.Recipients.Search.{find_replier}
use kbus.Synthetic.{
  replier_bind_event, replier_unbound, push_synthetic_message, push_synthetic_bind_message,
}
use kbus.Unsent.{is_from, safe_report_unbinding, forget_unbound_unsent_unbind_msgs}

-- Is there a replier for this very name?
unfoldable pub has_replier : Dev → ℕ → List ℕ → Bool
unfolding find_replier
has_replier dev name_len name = elim (find_replier name_len name dev.bound_message_list) [
  | none ↦ false
  | some r ↦ true
]

-- `list_add` of a new binding.
unfoldable pub add_binding : Dev → ℕ → ℕ → ℕ → List ℕ → Dev
add_binding dev priv replier name_len name = record dev {
  bound_message_list = new ∷ dev.bound_message_list;
  next_binding = suc dev.next_binding;
}
  where
    new : Binding
    new = record {
      addr = dev.next_binding;
      bound_to = priv;
      bound_to_id = priv;
      is_replier = replier;
      name_len = name_len;
      name = name;
    }

-- kbus_remember_binding
unfoldable pub remember_binding : Dev → ℕ → ℕ → ℕ → List ℕ → Dev × Result (Unit {0})
unfolding has_replier add_binding
remember_binding dev priv replier name_len name =
    if not (replier == 0) && has_replier dev name_len name
    then (dev, err eaddrinuse)
    else if not (replier == 0) && dev.report_replier_binds
    then (let (dev', retval) = push_synthetic_bind_message dev priv 1 name_len name in
        elim retval [
          | err e ↦ (dev', err e)
          | ok u ↦ (add_binding dev' priv replier name_len name, success)
        ])
    else (add_binding dev priv replier name_len name, success)

-- kbus_find_binding
unfoldable pub find_binding : ℕ → ℕ → ℕ → List ℕ → List Binding → Option Binding
find_binding priv replier name_len name [] = none
find_binding priv replier name_len name (b ∷ bs) =
    if not (priv == b.bound_to)
    then find_binding priv replier name_len name bs
    else if not (replier == b.is_replier)
    then find_binding priv replier name_len name bs
    else if not (name_len == b.name_len)
    then find_binding priv replier name_len name bs
    else if not (strncmp_eq name_len name b.name)
    then find_binding priv replier name_len name bs
    else some b

-- `list_del` of the first item of a queue that is there because of a binding.
unfoldable pub remove_bound : ℕ → List QueueItem → List QueueItem
remove_bound addr [] = []
remove_bound addr (item ∷ rest) =
    if is_from addr item.binding then rest else item ∷ remove_bound addr rest

-- The answer that a message gets when its replier will not reply to it.
unfoldable pub answer_for : Dev → ℕ → Msg → List ℕ → Dev
answer_for dev priv msg answer =
    if has_bit want_you_to_reply msg.flags && not (msg.to == priv)
    then push_synthetic_message dev priv msg.from msg.id answer
    else dev

-- The loop of kbus_forget_matching_messages over the queue as it is at the start: what it adds to
-- the queue itself has no binding.
unfoldable pub forget_matching : Dev → ℕ → ℕ → List QueueItem → Dev
unfolding answer_for remove_bound
forget_matching dev priv addr [] = dev
forget_matching dev priv addr (item ∷ rest) =
    forget_matching
      (if not (is_from addr item.binding)
        then dev
        else on_ksock (answer_for dev priv item.msg replier_unbound) priv (λ k. record k {
          message_queue = remove_bound addr k.message_queue;
          message_count = sub_u32 k.message_count 1;
        }))
      priv addr rest

-- kbus_forget_matching_messages
unfoldable pub forget_matching_messages : Dev → ℕ → ℕ → Dev
unfolding forget_matching
forget_matching_messages dev priv addr = elim (find_open_ksock dev priv) [
  | none ↦ dev
  | some k ↦ forget_matching dev priv addr k.message_queue
]

-- `list_del` of a binding.
unfoldable pub remove_binding : ℕ → List Binding → List Binding
remove_binding addr [] = []
remove_binding addr (b ∷ bs) = if b.addr == addr then bs else b ∷ remove_binding addr bs

-- The second half of kbus_forget_binding, once the unbinding has been reported.
unfoldable pub drop_binding : Dev → ℕ → Binding → Dev
unfolding forget_matching_messages remove_binding
drop_binding dev priv b =
    let dev' = forget_matching_messages dev priv b.addr in
    let dev'' =
      if strncmp_eq b.name_len replier_bind_event b.name
      then forget_unbound_unsent_unbind_msgs dev' b.addr
      else dev' in
    record dev'' { bound_message_list = remove_binding b.addr dev''.bound_message_list }

-- kbus_forget_binding
unfoldable pub forget_binding : Dev → ℕ → ℕ → ℕ → List ℕ → Dev × Result (Unit {0})
unfolding find_binding drop_binding
forget_binding dev priv replier name_len name =
    elim (find_binding priv replier name_len name dev.bound_message_list) [
      | none ↦ (dev, err einval)
      | some b ↦
          if not (replier == 0) && dev.report_replier_binds
          then (let (dev', retval) = push_synthetic_bind_message dev priv 0 name_len name in
              elim retval [ err e ↦ (dev', err e) | ok u ↦ (drop_binding dev' priv b, success) ])
          else (drop_binding dev priv b, success)
    ]

-- A Ksock's own binding is reported, if need be, and deleted.
unfoldable pub forget_one : Dev → ℕ → Binding → Dev
unfolding remove_binding
forget_one dev priv b =
    let dev' =
      if not (b.is_replier == 0) && dev.report_replier_binds
      then safe_report_unbinding dev priv b.name_len b.name
      else dev in
    record dev' { bound_message_list = remove_binding b.addr dev'.bound_message_list }

-- The loop of kbus_forget_my_bindings over the bindings as they are at the start.
unfoldable pub forget_my : Dev → ℕ → List Binding → Dev
unfolding forget_one
forget_my dev priv [] = dev
forget_my dev priv (b ∷ bs) =
    forget_my (if not (priv == b.bound_to_id) then dev else forget_one dev priv b) priv bs

-- kbus_forget_my_bindings
unfoldable pub forget_my_bindings : Dev → ℕ → Dev
unfolding forget_my
forget_my_bindings dev priv = forget_my dev priv dev.bound_message_list

-- kbus_forget_all_bindings
unfoldable pub forget_all_bindings : Dev → Dev
forget_all_bindings dev = record dev { bound_message_list = [] }
