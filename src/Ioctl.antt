-- ===== src/Ioctl.antt =====
-- kbus_ioctl of kbus/kbus_main.c: which call does what, for a caller that holds the device's mutex.
-- The argument is part of the request, and what is put there is part of the answer; that always
-- succeeds. NEWDEVICE makes kernel objects and is left out.
use kbus.Prelude.{ℕ, Bool, true, Option, none, some, List}
use kbus.Errno.{Result, ok, err, eagain, enotty}
use kbus.Message.{MsgId}
use kbus.Ksock.Records.{Ksock}
use kbus.Device.{Dev, find_open_ksock, on_ksock}
use kbus.Bindings.Calls
use kbus.Bindings.Calls.{BindRequest}
use kbus.Sending.{send, discard}
use kbus.Reading.{nextmsg, lenleft}
use kbus.Settings.{maxmsgs, nummsgs, onlyonce, set_verbosity, set_report_binds, maxmsgsize}

-- KBUS_IOC_…, with the argument that each takes.
pub data Request : Type 0 where
  reset ksockid nextmsg_request lenleft_request send_request discard_request lastsent
        nummsgs_request unrepliedto :
      Request
  bind_request unbind_request : BindRequest → Request
  replier_request : ℕ → List ℕ → Request
  maxmsgs_request msgonlyonce verbose_request reportreplierbinds maxmsgsize_request : ℕ → Request

-- What is put where the argument points.
pub data Out : Type 0 where
  nothing : Out
  number : ℕ → Out
  message_id : MsgId → Out

-- What ioctl returns, and what it puts there.
abbrev pub Answer : Type 0
Answer = Result ℕ × Out

abbrev pub zero_or : {A : Type 0} → Result A → Result ℕ
zero_or (ok a) = ok 0
zero_or (err e) = err e

-- `__put_user` of a number that a call gives.
abbrev pub put_user : Result ℕ → Answer
put_user (ok n) = (ok 0, number n)
put_user (err e) = (err e, nothing)

-- kbus_send writes the id that it gave also where it is to be called again.
abbrev sent_id : Result (Unit {0}) → MsgId → Out
sent_id (ok u) id = message_id id
sent_id (err eagain) id = message_id id
sent_id (err e) id = nothing

abbrev last_sent : Dev → ℕ → MsgId → MsgId
last_sent dev our id = elim (find_open_ksock dev our) [ none ↦ id | some k ↦ k.last_msg_id_sent ]

module _ (isalnum : ℕ → Bool) (page_size : ℕ) (copy_from_user : ℕ → ℕ → Option (List ℕ)) where
  -- The switch of kbus_ioctl, for the Ksock `priv`, which is `k`.
  unfoldable pub dispatch : Dev → ℕ → Ksock → Request → Dev × Answer
  dispatch dev priv k reset = (dev, (ok 0, nothing))
  dispatch dev priv k (bind_request request) =
      let (dev', retval) = Calls.bind isalnum dev priv request in (dev', (zero_or retval, nothing))
  dispatch dev priv k (unbind_request request) =
      let (dev', retval) = Calls.unbind isalnum dev priv request in
      (dev', (zero_or retval, nothing))
  dispatch dev priv k ksockid = (dev, (ok 0, number priv))
  dispatch dev priv k (replier_request name_len name) = elim (Calls.replier dev name_len name) [
    | err e ↦ (dev, (err e, nothing))
    | ok (found, id) ↦ (dev, (ok found, number id))
  ]
  dispatch dev priv k nextmsg_request =
      let (dev', next) = nextmsg dev priv in
      elim next [ none ↦ (dev', (ok 0, number 0)) | some len ↦ (dev', (ok 1, number len)) ]
  dispatch dev priv k lenleft_request = (dev, (ok 0, number (lenleft k)))
  dispatch dev priv k send_request =
      let (dev', retval) = send isalnum page_size copy_from_user true dev priv in
      (dev', (zero_or retval, sent_id retval (last_sent dev' priv k.last_msg_id_sent)))
  dispatch dev priv k discard_request = (on_ksock dev priv discard, (ok 0, nothing))
  dispatch dev priv k lastsent = (dev, (ok 0, message_id k.last_msg_id_sent))
  dispatch dev priv k (maxmsgs_request n) =
      let (k', max) = maxmsgs k n in (on_ksock dev priv (λ _. k'), (ok 0, number max))
  dispatch dev priv k nummsgs_request = (dev, (ok 0, number (nummsgs dev k)))
  dispatch dev priv k unrepliedto = (dev, (ok 0, number k.num_replies_unsent))
  dispatch dev priv k (msgonlyonce n) =
      let (k', old) = onlyonce k n in (on_ksock dev priv (λ _. k'), put_user old)
  dispatch dev priv k (verbose_request n) =
      let (dev', old) = set_verbosity dev n in (dev', put_user old)
  dispatch dev priv k (reportreplierbinds n) =
      let (dev', old) = set_report_binds dev priv n in (dev', put_user old)
  dispatch dev priv k (maxmsgsize_request n) =
      let (dev', max) = maxmsgsize dev n in (dev', put_user max)

  -- kbus_ioctl, of an open Ksock `priv`.
  unfoldable pub ioctl : Dev → ℕ → Request → Dev × Answer
  ioctl dev priv request = elim (find_open_ksock dev priv) [
    | none ↦ (dev, (err enotty, nothing))
    | some k ↦ dispatch dev priv k request
  ]
