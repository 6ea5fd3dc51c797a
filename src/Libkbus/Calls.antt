-- ===== src/Libkbus/Calls.antt =====
-- The calls of libkbus/libkbus.c on a Ksock, each one ioctl. The system's state `W` and `ioctl` on a
-- file descriptor are parameters. An error is `-errno`, as the kernel's functions return it.
use kbus.Prelude.{ℕ, ◌||◌, List, ◌==◌, if◌then◌else◌}
use kbus.CString.{strlen}
use kbus.Errno.{Result, ok, err, einval}
use kbus.Message.{MsgId}
use kbus.Bindings.Calls.{BindRequest}
use kbus.Settings.{query}
use kbus.Ioctl.{
  Request, Out, Answer, number, message_id, bind_request, unbind_request, ksockid, replier_request,
  nextmsg_request, lenleft_request, send_request, discard_request, lastsent, maxmsgs_request,
  nummsgs_request, unrepliedto, msgonlyonce, verbose_request, reportreplierbinds,
  maxmsgsize_request,
}

-- The variable that the call was given the address of.
abbrev pub stored : ℕ → Out → ℕ
stored old (number n) = n
stored old out = old

abbrev stored_id : MsgId → Out → MsgId
stored_id old (message_id id) = id
stored_id old out = old

abbrev pub name_request : List ℕ → ℕ → BindRequest
name_request name is_replier = record {
  is_replier = is_replier;
  name_len = strlen name;
  name = name;
}

-- `if (rv < 0) return -errno; else return rv;`
abbrev pub returned : {W : Type 0} → W × Answer → W × Result ℕ
returned (w, (rv, out)) = (w, rv)

-- What kbus_ksock_find_replier makes of it.
abbrev pub replier_in_answer : {W : Type 0} → W × Answer → ℕ → W × (Result ℕ × ℕ)
replier_in_answer (w, (err e, out)) old = (w, (err e, old))
replier_in_answer (w, (ok rv, out)) old = (w, (ok 0, if rv == 0 then 0 else stored 0 out))

-- What kbus_ksock_only_once and the two functions like it return: the number that is put back only
-- where ioctl returns something else than 0.
abbrev pub old_state : {W : Type 0} → ℕ → W × Answer → W × Result ℕ
old_state request (w, (err e, out)) = (w, err e)
old_state request (w, (ok rv, out)) = (w, if rv == 0 then ok 0 else ok (stored request out))

module _ {W : Type 0} (ioctl : W → ℕ → Request → W × Answer) where
  -- kbus_ksock_bind
  unfoldable pub ksock_bind : W → ℕ → List ℕ → ℕ → W × Result ℕ
  ksock_bind w ksock name is_replier =
      returned (ioctl w ksock (bind_request (name_request name is_replier)))

  -- kbus_ksock_unbind
  unfoldable pub ksock_unbind : W → ℕ → List ℕ → ℕ → W × Result ℕ
  ksock_unbind w ksock name is_replier =
      returned (ioctl w ksock (unbind_request (name_request name is_replier)))

  -- The calls that put one number where the caller asks for it: what they return, and that number,
  -- which was `old` before.
  abbrev ask : W → ℕ → Request → ℕ → W × (Result ℕ × ℕ)
  ask w ksock request old =
      let (w', answer) = ioctl w ksock request in (w', (answer.0, stored old answer.1))

  -- kbus_ksock_id
  unfoldable pub ksock_id : W → ℕ → ℕ → W × (Result ℕ × ℕ)
  ksock_id w ksock old = ask w ksock ksockid old

  -- kbus_ksock_next_msg
  unfoldable pub ksock_next_msg : W → ℕ → ℕ → W × (Result ℕ × ℕ)
  ksock_next_msg w ksock old = ask w ksock nextmsg_request old

  -- kbus_ksock_len_left
  unfoldable pub ksock_len_left : W → ℕ → ℕ → W × (Result ℕ × ℕ)
  ksock_len_left w ksock old = ask w ksock lenleft_request old

  -- kbus_ksock_last_msg_id
  unfoldable pub ksock_last_msg_id : W → ℕ → MsgId → W × (Result ℕ × MsgId)
  ksock_last_msg_id w ksock old =
      let (w', answer) = ioctl w ksock lastsent in (w', (answer.0, stored_id old answer.1))

  -- kbus_ksock_find_replier
  unfoldable pub ksock_find_replier : W → ℕ → List ℕ → ℕ → W × (Result ℕ × ℕ)
  ksock_find_replier w ksock name old =
      replier_in_answer (ioctl w ksock (replier_request (strlen name) name)) old

  -- kbus_ksock_max_messages
  unfoldable pub ksock_max_messages : W → ℕ → ℕ → W × (Result ℕ × ℕ)
  ksock_max_messages w ksock max_messages = ask w ksock (maxmsgs_request max_messages) max_messages

  -- kbus_ksock_num_messages
  unfoldable pub ksock_num_messages : W → ℕ → ℕ → W × (Result ℕ × ℕ)
  ksock_num_messages w ksock old = ask w ksock nummsgs_request old

  -- kbus_ksock_num_unreplied_to
  unfoldable pub ksock_num_unreplied_to : W → ℕ → ℕ → W × (Result ℕ × ℕ)
  ksock_num_unreplied_to w ksock old = ask w ksock unrepliedto old

  -- kbus_ksock_send
  unfoldable pub ksock_send : W → ℕ → MsgId → W × (Result ℕ × MsgId)
  ksock_send w ksock old =
      let (w', answer) = ioctl w ksock send_request in (w', (answer.0, stored_id old answer.1))

  -- kbus_ksock_discard
  unfoldable pub ksock_discard : W → ℕ → W × Result ℕ
  ksock_discard w ksock = let (w', answer) = ioctl w ksock discard_request in (w', answer.0)

  abbrev switch_flag : W → ℕ → ℕ → Request → W × Result ℕ
  switch_flag w ksock request call =
      let answer = ioctl w ksock call in
      if request == 0 || request == 1 || request == query
      then old_state request answer
      else (w, err einval)

  -- kbus_ksock_only_once
  unfoldable pub ksock_only_once : W → ℕ → ℕ → W × Result ℕ
  ksock_only_once w ksock request = switch_flag w ksock request (msgonlyonce request)

  -- kbus_ksock_report_replier_binds
  unfoldable pub ksock_report_replier_binds : W → ℕ → ℕ → W × Result ℕ
  ksock_report_replier_binds w ksock request =
      switch_flag w ksock request (reportreplierbinds request)

  -- kbus_ksock_kernel_module_verbose
  unfoldable pub ksock_kernel_module_verbose : W → ℕ → ℕ → W × Result ℕ
  ksock_kernel_module_verbose w ksock request =
      switch_flag w ksock request (verbose_request request)

  -- kbus_ksock_max_message_size
  unfoldable pub ksock_max_message_size : W → ℕ → ℕ → W × (Result ℕ × ℕ)
  ksock_max_message_size w ksock max_bytes = ask w ksock (maxmsgsize_request max_bytes) max_bytes
