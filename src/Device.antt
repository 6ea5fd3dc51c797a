-- ===== src/Device.antt =====
-- `struct kbus_dev` of kbus/kbus_internal.h with the bindings and Ksocks on it, and the functions of
-- kbus/kbus_main.c that look a Ksock up or put it on and off the list. A pointer to a Ksock is the
-- Ksock's id: ids are not reused before `next_ksock_id` wraps. A pointer to a binding is a number
-- from `next_binding`, which stands for the allocator.
pub mod Store
use kbus.Prelude.{
  ℕ, suc, ◌+◌, Bool, true, false, Option, none, some, List, [], ◌∷◌, ◌==◌, if◌then◌else◌, add_u32,
}
use kbus.Errno.{Result, ok, err, einval}
use kbus.Message.{Msg}
use kbus.Ksock.Records.{Ksock, new_ksock}

pub record Binding : Type 0 where
  pub addr : ℕ
  pub bound_to : ℕ
  pub bound_to_id : ℕ
  pub is_replier : ℕ
  pub name_len : ℕ
  pub name : List ℕ

-- struct kbus_unsent_message_item
pub record UnsentItem : Type 0 where
  pub send_to : ℕ
  pub send_to_id : ℕ
  pub msg : Msg
  pub binding : Option ℕ

pub record Dev : Type 0 where
  pub bound_message_list : List Binding
  pub open_ksock_list : List Ksock
  pub next_ksock_id : ℕ
  pub next_msg_serial_num : ℕ
  pub verbose : Bool
  pub report_replier_binds : Bool
  pub unsent_unbind_msg_list : List UnsentItem
  pub unsent_unbind_msg_count : ℕ
  pub unsent_unbind_is_tragic : Bool
  pub max_message_size : ℕ
  pub next_binding : ℕ

-- kbus_next_serial_num
unfoldable pub next_serial_num : Dev → ℕ × Dev
next_serial_num dev =
    let n = if dev.next_msg_serial_num == 0 then 1 else dev.next_msg_serial_num in
    (n, record dev { next_msg_serial_num = add_u32 n 1 })

-- The loop of kbus_find_open_ksock.
unfoldable pub find_ksock : ℕ → List Ksock → Option Ksock
find_ksock id [] = none
find_ksock id (k ∷ ks) = if id == k.id then some k else find_ksock id ks

-- kbus_find_open_ksock
abbrev pub find_open_ksock : Dev → ℕ → Option Ksock
find_open_ksock dev id = find_ksock id dev.open_ksock_list

-- kbus_find_private_data: `our` is the calling Ksock.
unfoldable pub find_private_data : ℕ → Dev → ℕ → Option Ksock
find_private_data our dev id = if id == our then find_open_ksock dev our else find_open_ksock dev id

-- What is done to a Ksock through a pointer to it.
unfoldable pub update_ksock : ℕ → (Ksock → Ksock) → List Ksock → List Ksock
update_ksock id f [] = []
update_ksock id f (k ∷ ks) = if id == k.id then f k ∷ ks else k ∷ update_ksock id f ks

abbrev pub on_ksock : Dev → ℕ → (Ksock → Ksock) → Dev
on_ksock dev id f = record dev { open_ksock_list = update_ksock id f dev.open_ksock_list }

-- kbus_remember_open_ksock
unfoldable pub remember_open_ksock : Dev → Ksock → Dev
remember_open_ksock dev k = record dev { open_ksock_list = k ∷ dev.open_ksock_list }

unfoldable pub remove_ksock : ℕ → List Ksock → List Ksock
remove_ksock id [] = []
remove_ksock id (k ∷ ks) = if id == k.id then ks else k ∷ remove_ksock id ks

-- kbus_forget_open_ksock
unfoldable pub forget_open_ksock : Dev → ℕ → Dev × Result (Unit {0})
unfolding remove_ksock find_ksock
forget_open_ksock dev id = elim (find_open_ksock dev id) [
  | some k ↦ (record dev { open_ksock_list = remove_ksock id dev.open_ksock_list }, ok tt)
  | none ↦ (dev, err einval)
]

-- kbus_forget_all_open_ksocks
unfoldable pub forget_all_open_ksocks : Dev → Dev
forget_all_open_ksocks dev = record dev { open_ksock_list = [] }

-- kbus_open: the new device, and the id of the new Ksock.
unfoldable pub open_ksock : Dev → Dev × ℕ
unfolding remember_open_ksock new_ksock
open_ksock dev =
    let id = if dev.next_ksock_id == 0 then 1 else dev.next_ksock_id in
    (remember_open_ksock (record dev { next_ksock_id = add_u32 id 1 }) (new_ksock id), id)
