-- ===== src/Synthetic.antt =====
-- The messages that KBUS makes itself: kbus_build_kbus_message, kbus_push_synthetic_message,
-- kbus_add_bind_message_data, kbus_new_synthetic_bind_message and kbus_push_synthetic_bind_message
-- of kbus/kbus_main.c.
use kbus.Prelude.{ℕ, ◌+◌, ◌-◌, false, none, some, List, [], ◌∷◌, ◌++◌, replicate, set_bit}
use kbus.CString.{codes, strlen, strncpy, u32_bytes}
use kbus.Size.{padded_name_len}
use kbus.Errno.{Result, ok, err, eagain, ebusy}
use kbus.Message.{DataPtr, Msg, MsgId, no_id, no_origin, synthetic, all_or_fail}
use kbus.Ksock.Records.{for_sender}
use kbus.Ksock.Queue.{push_message}
use kbus.Device.{Dev, next_serial_num, find_open_ksock, on_ksock}
use kbus.Recipients.Plan.{write_to_recipients}

-- KBUS_MSG_NAME_… of kbus/linux/kbus_defns.h
abbrev pub replier_gone_away : List ℕ
replier_gone_away = codes "$.KBUS.Replier.GoneAway"

abbrev pub replier_ignored : List ℕ
replier_ignored = codes "$.KBUS.Replier.Ignored"

abbrev pub replier_unbound : List ℕ
replier_unbound = codes "$.KBUS.Replier.Unbound"

abbrev pub replier_disappeared : List ℕ
replier_disappeared = codes "$.KBUS.Replier.Disappeared"

abbrev pub error_sending : List ℕ
error_sending = codes "$.KBUS.ErrorSending"

abbrev pub unbind_events_lost : List ℕ
unbind_events_lost = codes "$.KBUS.UnbindEventsLost"

abbrev pub replier_bind_event : List ℕ
replier_bind_event = codes "$.KBUS.ReplierBindEvent"

-- kbus_build_kbus_message
unfoldable pub build_kbus_message : Dev → List ℕ → ℕ → ℕ → MsgId → Msg × Dev
unfolding next_serial_num strlen
build_kbus_message dev msg_name from to in_reply_to =
    let (serial_num, dev') = next_serial_num dev in
    (
      record {
        id = record { network_id = 0; serial_num = serial_num };
        in_reply_to = in_reply_to;
        to = to;
        from = from;
        orig_from = no_origin;
        final_to = no_origin;
        extra = 0;
        flags = synthetic;
        name_len = strlen msg_name;
        data_len = 0;
        name_ref = msg_name;
        data_ref = none;
      },
      dev',
    )

-- kbus_push_synthetic_message
unfoldable pub push_synthetic_message : Dev → ℕ → ℕ → MsgId → List ℕ → Dev
unfolding build_kbus_message
push_synthetic_message dev from to in_reply_to name = elim (find_open_ksock dev to) [
  | none ↦ dev
  | some k ↦
      let (new_msg, dev') = build_kbus_message dev name from to in_reply_to in
      on_ksock dev' to (λ k. push_message k new_msg none for_sender)
]

-- `struct kbus_replier_bind_event_data` as its bytes.
unfoldable pub bind_event_data : ℕ → ℕ → ℕ → List ℕ → List ℕ
unfolding padded_name_len strncpy
bind_event_data is_bind binder name_len name =
    u32_bytes is_bind
    ++ (u32_bytes binder
        ++ (u32_bytes name_len
            ++ (strncpy name name_len ++ replicate (padded_name_len name_len - name_len) 0)))

-- kbus_add_bind_message_data
unfoldable pub add_bind_message_data : ℕ → Msg → ℕ → ℕ → List ℕ → Msg
unfolding bind_event_data padded_name_len
add_bind_message_data priv new_msg is_bind name_len name =
    let data_len = 12 + padded_name_len name_len in
    let wrapped : DataPtr = record {
      as_pages = false;
      parts = bind_event_data is_bind priv name_len name ∷ [];
      last_page_len = data_len;
    } in
    record new_msg { data_len = data_len; data_ref = some wrapped }

-- kbus_new_synthetic_bind_message: `priv` is the Ksock that binds or unbinds.
unfoldable pub new_synthetic_bind_message : Dev → ℕ → ℕ → ℕ → List ℕ → Msg × Dev
unfolding build_kbus_message add_bind_message_data
new_synthetic_bind_message dev priv is_bind name_len name =
    let (msg, dev') = build_kbus_message dev replier_bind_event 0 0 no_id in
    (
      add_bind_message_data priv (record msg { flags = set_bit all_or_fail msg.flags }) is_bind
          name_len name,
      dev',
    )

abbrev busy_to_again : Result (Unit {0}) → Result (Unit {0})
busy_to_again (ok u) = ok u
busy_to_again (err ebusy) = err eagain
busy_to_again (err e) = err e

-- kbus_push_synthetic_bind_message
unfoldable pub push_synthetic_bind_message : Dev → ℕ → ℕ → ℕ → List ℕ → Dev × Result (Unit {0})
unfolding new_synthetic_bind_message
push_synthetic_bind_message dev priv is_bind name_len name =
    let (new_msg, dev') = new_synthetic_bind_message dev priv is_bind name_len name in
    let (dev'', retval) = write_to_recipients priv dev' new_msg in (dev'', busy_to_again retval)
