-- ===== src/Limpet/Amending.antt =====
-- libkbus/limpet.c: how a limpet changes the messages that it passes on, kbus_limpet_amend_msg_from_kbus
-- and kbus_limpet_amend_msg_to_kbus, and the errors that it makes. Output is left out. A
-- byte beyond the end of a buffer is read as 0.
use kbus.Prelude.{ℕ, Bool, not, ◌&&◌, Option, none, some, List, [], ◌++◌, ◌==◌, if◌then◌else◌}
use kbus.CString.{codes, strlen, strncmp_eq}
use kbus.Errno.{Errno, Result, ok, err}
use kbus.Message.{MsgId, OrigFrom, no_id}
use kbus.Header.{u32_at}
use kbus.Synthetic.{replier_bind_event, replier_gone_away}
use kbus.Ioctl.{Request, Answer}
use kbus.Libkbus.Messages.{
  UserMsg, is_request, is_reply, is_stateful_request, wants_us_to_reply, name_ptr, data_at, create,
  split_bind_event,
}
use kbus.Libkbus.Calls.{ksock_bind, ksock_unbind, ksock_find_replier}
use kbus.Limpet.Context.{
  Context, find_request_from, forget_request_from, remember_request_from, remember_replier_for,
  forget_replier_for,
}

-- KBUS_MSG_NOT_SAME_KSOCK
abbrev pub not_same_ksock : List ℕ
not_same_ksock = codes "$.KBUS.Replier.NotSameKsock"

-- KBUS_MSG_REMOTE_ERROR_PREFIX
abbrev pub remote_error_prefix : List ℕ
remote_error_prefix = codes "$.KBUS.RemoteError."

-- What is returned: 0, 1, 2 with the message for the other limpet, a negative number, or a positive
-- one that ioctl has returned.
pub data Verdict : Type 0 where
  amended ignored : Verdict
  answered : UserMsg → Verdict
  failed : Errno → Verdict
  other : ℕ → Verdict

-- `!strncmp(name, KBUS_MSG_NAME_REPLIER_BIND_EVENT, msg->name_len)`
unfoldable pub is_bind_event : UserMsg → Bool
unfolding strncmp_eq name_ptr
is_bind_event msg = strncmp_eq msg.name_len (name_ptr msg) replier_bind_event

-- A message of KBUS without a network id, and without an origin, gets the limpet's.
unfoldable pub mark_origin : Context → UserMsg → UserMsg
mark_origin context msg =
    let id : MsgId =
      if msg.id.network_id == 0
      then record { network_id = context.network_id; serial_num = msg.id.serial_num }
      else msg.id in
    let orig_from : OrigFrom =
      if msg.orig_from.network_id == 0
      then record { network_id = context.network_id; local_id = msg.from }
      else msg.orig_from in
    record msg { id = id; orig_from = orig_from }

-- kbus_limpet_amend_msg_from_kbus after the test for our own bind events.
unfoldable pub amend_from_kbus : Context → UserMsg → Context × (UserMsg × Verdict)
amend_from_kbus context msg =
    let expects = is_request msg && wants_us_to_reply msg in
    let (table, remembered) = remember_request_from context.request_from msg.id msg.from in
    let context' = if expects then record context { request_from = table } else context in
    if expects && not remembered
    then (context, (msg, ignored))
    else if msg.id.network_id == context.other_network_id
    then (context', (msg, ignored))
    else (context', (mark_origin context msg, amended))

-- kbus_limpet_amend_msg_from_kbus
unfoldable pub amend_msg_from_kbus : Context → UserMsg → Context × (UserMsg × Verdict)
amend_msg_from_kbus context msg =
    if is_bind_event msg && u32_at (data_at msg) 4 == context.ksock_id
    then (context, (msg, ignored))
    else amend_from_kbus context msg

-- The request that a reply answers has the id that it had before it left this network.
unfoldable pub local_id_of : Context → MsgId → MsgId
local_id_of context id =
    if id.network_id == context.network_id
    then record { network_id = 0; serial_num = id.serial_num }
    else id

-- amend_reply_from_other_limpet
unfoldable pub amend_reply_from_other_limpet : Context → UserMsg → Context × (UserMsg × Verdict)
amend_reply_from_other_limpet context msg =
    let in_reply_to = local_id_of context msg.in_reply_to in
    let from = find_request_from context.request_from in_reply_to in
    if from == 0 then (context, (record msg { in_reply_to = in_reply_to }, ignored)) else (
      record context { request_from = (forget_request_from context.request_from in_reply_to).0 },
      (record msg { in_reply_to = in_reply_to; to = from; id = no_id }, amended),
    )

-- An error message that answers a request.
unfoldable pub error_answer : List ℕ → UserMsg → UserMsg
unfolding create strlen
error_answer name msg = record (create name (strlen name) none 0 0) {
  to = msg.from;
  in_reply_to = msg.id;
}

-- A request that is in the network that it was for.
unfoldable pub arrived : Context → UserMsg → UserMsg
arrived context msg =
    if msg.final_to.network_id == context.network_id
    then record msg { final_to = record { network_id = 0; local_id = msg.final_to.local_id } }
    else msg

-- amend_request_from_other_limpet once kbus_ksock_find_replier has given `replier_id`, for a request
-- that is in its final network or not.
unfoldable pub check_request : Bool → UserMsg → ℕ → UserMsg × Verdict
unfolding error_answer
check_request is_local msg replier_id =
    if replier_id == 0
    then (msg, answered (error_answer replier_gone_away msg))
    else if is_local && not (replier_id == msg.final_to.local_id)
    then (msg, answered (error_answer not_same_ksock msg))
    else (record msg { to = if is_local then msg.final_to.local_id else replier_id }, amended)

-- kbus_limpet_could_not_send_to_kbus_msg, whose `sprintf` puts the digits of the error number after
-- the prefix.
unfoldable pub could_not_send_to_kbus_msg : UserMsg → List ℕ → Option UserMsg
unfolding is_request error_answer
could_not_send_to_kbus_msg msg digits =
    if is_request msg then some (error_answer (remote_error_prefix ++ digits) msg) else none

-- `if (rv) return rv;` for what a call of the library returns.
unfoldable pub refused : Result ℕ → Option Verdict
refused (err e) = some (failed e)
refused (ok rv) = if rv == 0 then none else some (other rv)

-- The characters at a pointer to a name. A name that is NULL, which the code would follow all the same,
-- is taken as one of no characters.
abbrev pub given : Option (List ℕ) → List ℕ
given none = []
given (some n) = n

-- `ioctl` is the system's, on its state `W`.
module _ {W : Type 0} (ioctl : W → ℕ → Request → W × Answer) where
  -- amend_request_from_other_limpet; the name is that of the pointer, not of kbus_msg_name_ptr.
  unfoldable pub amend_request_from_other_limpet : W → Context → UserMsg → W × (UserMsg × Verdict)
  amend_request_from_other_limpet w context msg =
      let (w', found) = ksock_find_replier ioctl w context.ksock (given msg.name) 0 in
      let msg' = arrived context msg in
      elim (refused found.0) [
        | some verdict ↦ (w', (msg', verdict))
        | none ↦ (w', check_request (msg.final_to.network_id == context.network_id) msg' found.1)
      ]

  -- kbus_limpet_amend_msg_to_kbus for a bind event that says that a Ksock has bound as replier.
  unfoldable pub proxy_bind : W → Context → List ℕ → ℕ → W × (Context × Verdict)
  proxy_bind w context bind_name binder =
      let (w', rv) = ksock_bind ioctl w context.ksock bind_name 1 in
      elim (refused rv) [
        | some verdict ↦ (w', (context, verdict))
        | none ↦
            let (table, remembered) = remember_replier_for context.replier_for bind_name binder in
            (w', (record context { replier_for = table }, ignored))
      ]

  -- The same where it has unbound.
  unfoldable pub proxy_unbind : W → Context → List ℕ → W × (Context × Verdict)
  proxy_unbind w context bind_name =
      let (w', rv) = ksock_unbind ioctl w context.ksock bind_name 1 in
      elim (refused rv) [
        | some verdict ↦ (w', (context, verdict))
        | none ↦
            let table = (forget_replier_for context.replier_for bind_name).0 in
            (w', (record context { replier_for = table }, ignored))
      ]

  unfoldable pub proxy : W → Context → UserMsg → W × (Context × Verdict)
  proxy w context msg = elim (split_bind_event msg) [
    | err e ↦ (w, (context, failed e))
    | ok (is_bind, binder, bind_name) ↦
        if not (is_bind == 0)
        then proxy_bind w context bind_name binder
        else proxy_unbind w context bind_name
  ]

  -- kbus_limpet_amend_msg_to_kbus
  unfoldable pub amend_msg_to_kbus : W → Context → UserMsg → W × (Context × (UserMsg × Verdict))
  amend_msg_to_kbus w context msg =
      if is_bind_event msg
      then (let (w', done) = proxy w context msg in (w', (done.0, (msg, done.1))))
      else if is_reply msg
      then (w, amend_reply_from_other_limpet context msg)
      else if is_stateful_request msg && wants_us_to_reply msg
      then (let (w', done) = amend_request_from_other_limpet w context msg in (w', (context, done)))
      else (w, (context, (msg, amended)))
