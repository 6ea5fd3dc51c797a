-- ===== src/Bindings/Calls.antt =====
-- The calls BIND, UNBIND and REPLIER: kbus_bind, kbus_unbind and kbus_replier of kbus/kbus_main.c.
-- The bytes that they copy from user space, `name_len` of them for a name, are an argument.
use kbus.Prelude.{ℕ, Bool, not, ◌&&◌, ◌||◌, none, some, List, ◌==◌, ltb, if◌then◌else◌}
use kbus.CString.{strcmp_eq}
use kbus.Size.{max_name_len}
use kbus.Errno.{Result, ok, err, success, einval, ebadmsg, enametoolong}
use kbus.Name.{bad_message_name}
use kbus.Device.{Dev, find_open_ksock}
use kbus.Recipients.Search.{find_replier}
use kbus.Synthetic.{replier_bind_event}
use kbus.Unsent.{maybe_move_unsent_unbind_msg, forget_my_unsent_unbind_msgs}
use kbus.Bindings.Table.{remember_binding, forget_binding}

-- struct kbus_bind_request of kbus/linux/kbus_defns.h, with the name in place of its address.
pub record BindRequest : Type 0 where
  pub is_replier : ℕ
  pub name_len : ℕ
  pub name : List ℕ

module _ (isalnum : ℕ → Bool) where
  -- The tests on the name of a bind request that kbus_bind and kbus_unbind share.
  unfoldable pub check_bind_name : BindRequest → Result (Unit {0})
  unfolding bad_message_name
  check_bind_name request =
      if request.name_len == 0
      then err ebadmsg
      else if ltb max_name_len request.name_len
      then err enametoolong
      else if bad_message_name isalnum request.name request.name_len
      then err ebadmsg
      else success

  -- kbus_bind
  unfoldable pub bind : Dev → ℕ → BindRequest → Dev × Result (Unit {0})
  unfolding check_bind_name remember_binding
  bind dev priv request = elim (check_bind_name request) [
    | err e ↦ (dev, err e)
    | ok u ↦
        if not (request.is_replier == 0) && strcmp_eq request.name replier_bind_event
        then (dev, err ebadmsg)
        else remember_binding dev priv request.is_replier request.name_len request.name
  ]

  -- What kbus_unbind does after kbus_forget_binding: `old_count` is the Ksock's message count
  -- before it.
  unfoldable pub after_unbind : Dev → ℕ → ℕ → List ℕ → Dev
  after_unbind dev priv old_count name = elim (find_open_ksock dev priv) [
    | none ↦ dev
    | some k ↦
        let dev' =
          if k.maybe_got_unsent_unbind_msgs && strcmp_eq name replier_bind_event
          then forget_my_unsent_unbind_msgs dev priv
          else dev in
        if ltb k.message_count old_count && k.maybe_got_unsent_unbind_msgs
        then maybe_move_unsent_unbind_msg dev' priv
        else dev'
  ]

  -- kbus_unbind
  unfoldable pub unbind : Dev → ℕ → BindRequest → Dev × Result (Unit {0})
  unfolding check_bind_name forget_binding after_unbind
  unbind dev priv request = elim (find_open_ksock dev priv) [
    | none ↦ (dev, err einval)
    | some k ↦ elim (check_bind_name request) [
      | err e ↦ (dev, err e)
      | ok u ↦
          let (dev', retval) =
            forget_binding dev priv request.is_replier request.name_len request.name in
          (after_unbind dev' priv k.message_count request.name, retval)
    ]
  ]

-- kbus_replier: what it returns, and the id that it gives back.
unfoldable pub replier : Dev → ℕ → List ℕ → Result (ℕ × ℕ)
unfolding find_replier
replier dev name_len name =
    if name_len == 0 || ltb max_name_len name_len
    then err enametoolong
    else elim (find_replier name_len name dev.bound_message_list) [
      | none ↦ ok (0, 0)
      | some b ↦ ok (1, b.bound_to)
    ]
