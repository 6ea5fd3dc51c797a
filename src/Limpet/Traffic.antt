-- ===== src/Limpet/Traffic.antt =====
-- libkbus/limpet.c: what the messages that pass through a limpet do to its table of requests.
use kbus.Prelude.{
  subst, sym, ℕ, ◌≡◌, ◌≢◌, ◌⊎◌, refl, inl, inr, ◌∙◌, ap, List, ◌==◌, arith, Bool-cases,
  Option-cases, ◌&&◌, true, false,
}
use kbus.Errno.{Result-cases}
use kbus.Message.{MsgId}
use kbus.Ioctl.{Request, Answer}
use kbus.Libkbus.Messages.{
  UserMsg, split_bind_event, is_request, is_reply, is_stateful_request, wants_us_to_reply, data_at,
}
use kbus.Header.{u32_at}
use kbus.Libkbus.Calls.{ksock_bind, ksock_unbind}
use kbus.Limpet.Context.{
  Context, RequestFrom, are_same, find_request_from, forget_request_from, remember_request_from,
}
use kbus.Limpet.Amending.{
  amend_from_kbus, amend_msg_from_kbus, amend_msg_to_kbus, amend_reply_from_other_limpet, proxy,
  proxy_bind, proxy_unbind, refused, local_id_of, is_bind_event,
}
use kbus.Limpet.Tables.{are_same_iff, Distinct, find-forget, forget-Distinct, remember-Distinct}

request_table :
    (context : Context) (msg : UserMsg)
    → let context' = (amend_from_kbus context msg).0 in
      (context'.network_id ≡ context.network_id)
      × ((context'.request_from ≡ context.request_from)
          ⊎ (context'.request_from
              ≡ (remember_request_from context.request_from msg.id msg.from).0))
unfolding amend_from_kbus
request_table context msg =
    let added = remember_request_from context.request_from msg.id msg.from in
    elim (Bool-cases (is_request msg && wants_us_to_reply msg)) [
      | inr unexpected ↦ elim (Bool-cases (msg.id.network_id == context.other_network_id)) [
        | inl theirs ↦ rw unexpected (rw theirs (refl, inl refl))
        | inr ours ↦ rw unexpected (rw ours (refl, inl refl))
      ]
      | inl expected ↦ elim (Bool-cases added.1) [
        | inr refused ↦ rw expected (rw refused (refl, inl refl))
        | inl done ↦ elim (Bool-cases (msg.id.network_id == context.other_network_id)) [
          | inl theirs ↦ rw expected (rw done (rw theirs (refl, inr refl)))
          | inr ours ↦ rw expected (rw done (rw ours (refl, inr refl)))
        ]
      ]
    ]

-- A message from KBUS leaves the table, or adds the message to it.
from_kbus_table :
    (context : Context) (msg : UserMsg)
    → let context' = (amend_msg_from_kbus context msg).0 in
      (context'.network_id ≡ context.network_id)
      × ((context'.request_from ≡ context.request_from)
          ⊎ (context'.request_from
              ≡ (remember_request_from context.request_from msg.id msg.from).0))
unfolding amend_msg_from_kbus
from_kbus_table context msg =
    elim (Bool-cases (is_bind_event msg && u32_at (data_at msg) 4 == context.ksock_id)) [
      | inl ours ↦ rw ours (refl, inl refl)
      | inr theirs ↦ rw theirs (request_table context msg)
    ]

reply_table :
    (context : Context) (msg : UserMsg)
    → let context' = (amend_reply_from_other_limpet context msg).0 in
      (context'.network_id ≡ context.network_id)
      × ((context'.request_from ≡ context.request_from)
          ⊎ (context'.request_from
              ≡ (forget_request_from context.request_from (local_id_of context msg.in_reply_to)).0))
unfolding amend_reply_from_other_limpet
reply_table context msg =
    elim (Bool-cases
      (find_request_from context.request_from (local_id_of context msg.in_reply_to) == 0)) [
        | inl unknown ↦ rw unknown (refl, inl refl)
        | inr expected ↦ rw expected (refl, inr refl)
      ]

module _ {W : Type 0} (ioctl : W → ℕ → Request → W × Answer) where
  proxy_bind_table :
      (w : W) (context : Context) (bind_name : List ℕ) (binder : ℕ)
      → let context' = (proxy_bind ioctl w context bind_name binder).1.0 in
        (context'.network_id ≡ context.network_id) × (context'.request_from ≡ context.request_from)
  unfolding proxy_bind
  proxy_bind_table w context bind_name binder =
      elim (Option-cases (refused (ksock_bind ioctl w context.ksock bind_name 1).1)) [
        | inl accepted ↦ rw (accepted, proxy_bind) (refl, refl)
        | inr (verdict, stopped) ↦ rw (stopped, proxy_bind) (refl, refl)
      ]

  proxy_unbind_table :
      (w : W) (context : Context) (bind_name : List ℕ)
      → let context' = (proxy_unbind ioctl w context bind_name).1.0 in
        (context'.network_id ≡ context.network_id) × (context'.request_from ≡ context.request_from)
  unfolding proxy_unbind
  proxy_unbind_table w context bind_name =
      elim (Option-cases (refused (ksock_unbind ioctl w context.ksock bind_name 1).1)) [
        | inl accepted ↦ rw (accepted, proxy_unbind) (refl, refl)
        | inr (verdict, stopped) ↦ rw (stopped, proxy_unbind) (refl, refl)
      ]

  proxy_table :
      (w : W) (context : Context) (msg : UserMsg)
      → let context' = (proxy ioctl w context msg).1.0 in
        (context'.network_id ≡ context.network_id) × (context'.request_from ≡ context.request_from)
  unfolding proxy
  proxy_table w context msg = elim (Result-cases (split_bind_event msg)) [
    | inr (e, bad) ↦ rw (bad, proxy) (refl, refl)
    | inl ((is_bind, binder, bind_name), good) ↦ elim (Bool-cases (is_bind == 0)) [
      | inl unbind ↦ rw (good, proxy) (rw unbind (proxy_unbind_table w context bind_name))
      | inr bind ↦ rw (good, proxy) (rw bind (proxy_bind_table w context bind_name binder))
    ]
  ]

  -- One from the other limpet leaves it, or forgets the request that it answers.
  to_kbus_table :
      (w : W) (context : Context) (msg : UserMsg)
      → let context' = (amend_msg_to_kbus ioctl w context msg).1.0 in
        (context'.network_id ≡ context.network_id)
        × ((context'.request_from ≡ context.request_from)
            ⊎ ((is_reply msg ≡ true)
                × (context'.request_from
                    ≡ (forget_request_from context.request_from
                        (local_id_of context msg.in_reply_to)).0)))
  unfolding amend_msg_to_kbus
  to_kbus_table w context msg = elim (Bool-cases (is_bind_event msg)) [
    | inl event ↦ rw event (let kept = proxy_table w context msg in (kept.0, inl kept.1))
    | inr no_event ↦ elim (Bool-cases (is_reply msg)) [
      | inl reply ↦
          let table = reply_table context msg in
          elim table.1 [
            | inl same ↦ rw (no_event, reply) (table.0, inl same)
            | inr gone ↦ rw (no_event, reply) (table.0, inr (refl, gone))
          ]
      | inr no_reply ↦ elim (Bool-cases (is_stateful_request msg && wants_us_to_reply msg)) [
        | inl request ↦ rw (no_event, no_reply, request) (refl, inl refl)
        | inr announcement ↦ rw (no_event, no_reply, announcement) (refl, inl refl)
      ]
    ]
  ]

-- What is in the table is not replaced.
find-remember :
    (table : List RequestFrom) (id j : MsgId) (from : ℕ)
    → find_request_from table j ≢ 0
    → find_request_from (remember_request_from table id from).0 j ≡ find_request_from table j
unfolding remember_request_from
find-remember table id j from present = ground (arith, are_same_iff j id)

-- What a message that passes keeps of the table, as to one request in it.
abbrev pub Keeps : MsgId → Context → Context → Type 0
Keeps id old new =
    (new.network_id ≡ old.network_id)
    × (find_request_from new.request_from id ≡ find_request_from old.request_from id)
    × Distinct new.request_from

from_kbus-Keeps :
    (now : Context) (msg : UserMsg) (id : MsgId)
    → Distinct now.request_from
    → find_request_from now.request_from id ≢ 0
    → Keeps id now (amend_msg_from_kbus now msg).0
from_kbus-Keeps now msg id distinct waits =
    let table = from_kbus_table now msg in
    elim table.1 [
      | inl same ↦
          (table.0, ap (λ t. find_request_from t id) same, subst Distinct (sym same) distinct)
      | inr added ↦ (
        table.0,
        ap (λ t. find_request_from t id) added
            ∙ find-remember now.request_from msg.id id msg.from waits,
        subst Distinct (sym added) (remember-Distinct now.request_from msg.id msg.from distinct),
      )
    ]

-- Messages that pass, in either direction: any from KBUS, its own ones too, and from the other limpet
-- any but a reply to the request with this id.
module _ {W : Type 0} (ioctl : W → ℕ → Request → W × Answer) where
  pub data Passes (id : MsgId) (context : Context) : Context → Type 0 where
    nothing_yet : Passes id context context
    from_kbus :
        {now : Context} (msg : UserMsg)
        → Passes id context now
        → Passes id context (amend_msg_from_kbus now msg).0
    to_kbus :
        {now : Context} (w : W) (msg : UserMsg)
        → Passes id context now
        → (is_reply msg && are_same (local_id_of now msg.in_reply_to) id) ≡ false
        → Passes id context (amend_msg_to_kbus ioctl w now msg).1.0

  to_kbus-Keeps :
      (w : W) (now : Context) (msg : UserMsg) (id : MsgId)
      → Distinct now.request_from
      → (is_reply msg && are_same (local_id_of now msg.in_reply_to) id) ≡ false
      → Keeps id now (amend_msg_to_kbus ioctl w now msg).1.0
  to_kbus-Keeps w now msg id distinct other =
      let table = to_kbus_table ioctl w now msg in
      let answered = local_id_of now msg.in_reply_to in
      elim table.1 [
        | inl same ↦
            (table.0, ap (λ t. find_request_from t id) same, subst Distinct (sym same) distinct)
        | inr (reply, dropped) ↦ (
          table.0,
          ap (λ t. find_request_from t id) dropped
              ∙ ground (
                arith,
                find-forget now.request_from answered id distinct,
                are_same_iff id answered,
                are_same_iff answered id,
                reply,
                other,
              ),
          subst Distinct (sym dropped) (forget-Distinct now.request_from answered distinct),
        )
      ]

  -- While messages pass through a limpet, any messages from KBUS, and any from the other limpet but a
  -- reply to the request with this id, that request stays in the table with the sender that it has,
  -- the table stays in order, and the network id is the same. (The table is in order: behind an
  -- entry there is none that gives its id a sender. The request has a sender other than 0.)
  pub Passes-Keeps :
      {id : MsgId} {context now : Context}
      → Passes id context now
      → Distinct context.request_from
      → find_request_from context.request_from id ≢ 0
      → Keeps id context now
  Passes-Keeps nothing_yet distinct waits = (refl, refl, distinct)
  Passes-Keeps (from_kbus {now} msg before) distinct waits =
      let kept = Passes-Keeps before distinct waits in
      let more = from_kbus-Keeps now msg _ kept.2 (λ gone. waits (sym kept.1 ∙ gone)) in
      (more.0 ∙ kept.0, more.1 ∙ kept.1, more.2)
  Passes-Keeps (to_kbus {now} w msg before other) distinct waits =
      let kept = Passes-Keeps before distinct waits in
      let more = to_kbus-Keeps w now msg _ kept.2 other in
      (more.0 ∙ kept.0, more.1 ∙ kept.1, more.2)
