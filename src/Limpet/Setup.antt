-- ===== src/Limpet/Setup.antt =====
-- libkbus/limpet.c: the set-up of a limpet, setup_kbus and kbus_limpet_new_context.
use kbus.Prelude.{ℕ, zero, suc, Option, none, some, List, [], ltb, if◌then◌else◌}
use kbus.CString.{strlen}
use kbus.Errno.{Result, ok, err, ebadmsg}
use kbus.Synthetic.{replier_bind_event}
use kbus.Ioctl.{Request, Answer}
use kbus.Libkbus.Calls.{ksock_bind, ksock_only_once, ksock_report_replier_binds, ksock_id}
use kbus.Limpet.Context.{Context}

module _ {W : Type 0} (ioctl : W → ℕ → Request → W × Answer) where
  -- `if (rv) return rv;` after a step, and the steps that follow it.
  abbrev then_go_on : W × Result ℕ → (W → W × Result ℕ) → W × Result ℕ
  then_go_on (w, err e) next = (w, err e)
  then_go_on (w, ok zero) next = next w
  then_go_on (w, ok (suc n)) next = (w, ok (suc n))

  -- setup_kbus
  unfoldable pub setup_kbus : W → ℕ → List ℕ → W × Result ℕ
  unfolding ksock_only_once ksock_bind ksock_report_replier_binds
  setup_kbus w ksock message_name = then_go_on (ksock_only_once ioctl w ksock 1) λ once.
      then_go_on (ksock_bind ioctl once ksock message_name 0) λ bound.
        then_go_on (ksock_bind ioctl bound ksock replier_bind_event 0)
          λ ready. ksock_report_replier_binds ioctl ready ksock 1

  -- kbus_limpet_new_context; `none` is a name that is NULL.
  unfoldable pub new_context : W → ℕ → ℕ → ℕ → Option (List ℕ) → ℕ → W × (Result ℕ × Option Context)
  unfolding ksock_id setup_kbus
  new_context w ksock network_id other_network_id message_name verbosity =
      let (w', id) = ksock_id ioctl w ksock 0 in
      elim id.0 [
        | err e ↦ (w', (err e, none))
        | ok rv ↦ elim message_name [
          | none ↦ (w', (err ebadmsg, none))
          | some name ↦
              let (w'', rv) = setup_kbus w' ksock name in
              let context : Context = record {
                ksock = ksock;
                ksock_id = id.1;
                network_id = network_id;
                other_network_id = other_network_id;
                message_name = name;
                replier_for = [];
                request_from = [];
                verbosity = verbosity;
              } in
              if ltb (strlen name) 3 then (w', (err ebadmsg, none)) else elim rv [
                | err e ↦ (w'', (err e, none))
                | ok zero ↦ (w'', (ok 0, some context))
                | ok (suc n) ↦ (w'', (ok (suc n), none))
              ]
        ]
      ]

-- kbus_limpet_set_verbosity
unfoldable pub set_verbosity : Context → ℕ → Context
set_verbosity context verbosity = record context { verbosity = verbosity }
