-- ===== src/Limpet/Replies.antt =====
-- libkbus/limpet.c: a reply finds its way back to the sender of the request.
use kbus.Prelude.{if◌then◌else◌, ℕ, true, false, ◌≡◌, ◌≢◌, refl, ◌∙◌, sym, ap, subst, ◌==◌, arith}
use kbus.Message.{MsgId, no_id}
use kbus.Ioctl.{Request, Answer}
use kbus.Libkbus.Messages.{UserMsg, is_request, is_reply, wants_us_to_reply}
use kbus.Limpet.Context.{Context, find_request_from, remember_request_from}
use kbus.Limpet.Amending.{
  amended, amend_from_kbus, amend_msg_from_kbus, amend_msg_to_kbus, amend_reply_from_other_limpet,
  local_id_of, is_bind_event, mark_origin,
}
use kbus.Limpet.Tables.{are_same_iff, Distinct, find-forget, remember-Distinct}
use kbus.Limpet.Traffic.{Passes, Passes-Keeps}

-- A request that a limpet sends on for the first time.
pub record IsNew (context : Context) (request : UserMsg) : Type 0 where
  pub no_event : is_bind_event request ≡ false
  pub wanted : wants_us_to_reply request ≡ true
  pub sender : request.from ≢ 0
  pub unseen : find_request_from context.request_from request.id ≡ 0
  pub not_own : request.id.network_id ≢ context.network_id
  pub not_other : request.id.network_id ≢ context.other_network_id

remembered : Context → UserMsg → Context
remembered context request = record context {
  request_from = (remember_request_from context.request_from request.id request.from).0;
}

-- It is remembered and marked.
request_goes_out :
    (context : Context) (request : UserMsg)
    → IsNew context request
    → amend_msg_from_kbus context request
      ≡ (remembered context request, (mark_origin context request, amended))
unfolding amend_msg_from_kbus amend_from_kbus remembered remember_request_from wants_us_to_reply
    is_request
request_goes_out context request new = rw new.no_event (ground arith)

remembered-Distinct :
    (context : Context) (request : UserMsg)
    → IsNew context request
    → Distinct context.request_from
    → Distinct (remembered context request).request_from
unfolding remembered
remembered-Distinct context request new distinct =
    remember-Distinct context.request_from request.id request.from distinct

-- From then on its sender is found.
find-remembered :
    (context : Context) (request : UserMsg)
    → IsNew context request
    → find_request_from (remembered context request).request_from request.id ≡ request.from
unfolding remembered remember_request_from find_request_from
find-remembered context request new = ground (arith, are_same_iff request.id request.id)

-- The id under which the other network knows it is changed back, and is not that of no message.
home_id :
    (context now : Context) (request : UserMsg)
    → request.id.network_id ≢ context.network_id
    → context.network_id ≢ 0
    → now.network_id ≡ context.network_id
    → local_id_of now (mark_origin context request).id ≡ request.id
unfolding local_id_of mark_origin
home_id context now request not_own network same = ground arith

marked_id :
    (context : Context) (request : UserMsg)
    → (mark_origin context request).id ≡ (
        if request.id.network_id == 0
        then record { network_id = context.network_id; serial_num = request.id.serial_num }
        else request.id)
unfolding mark_origin
marked_id context request = refl

is_reply_home :
    (context : Context) (request reply : UserMsg)
    → context.network_id ≢ 0
    → reply.in_reply_to ≡ (mark_origin context request).id
    → is_reply reply ≡ true
unfolding is_reply mark_origin
is_reply_home context request reply network answers =
    ground (arith, ap (λ (i : MsgId). i.network_id) answers)

module _ {W : Type 0} (ioctl : W → ℕ → Request → W × Answer) where
  -- What is done to a reply to a request in the table.
  reply_returns :
      (w : W) (now : Context) (reply : UserMsg) (id : MsgId) (from : ℕ)
      → Distinct now.request_from
      → find_request_from now.request_from id ≡ from
      → from ≢ 0
      → is_bind_event reply ≡ false
      → is_reply reply ≡ true
      → local_id_of now reply.in_reply_to ≡ id
      → let home = amend_msg_to_kbus ioctl w now reply in
        (home.0 ≡ w)
        × (home.1.1 ≡ (record reply { in_reply_to = id; to = from; id = no_id }, amended))
        × (find_request_from home.1.0.request_from id ≡ 0)
  unfolding amend_msg_to_kbus amend_reply_from_other_limpet
  reply_returns w now reply id from distinct found sender no_event answer same =
      let here : (from == 0) ≡ false = ground arith in
      rw (no_event, answer, same, found, here)
        (
          refl,
          refl,
          ground (arith, find-forget now.request_from id id distinct, are_same_iff id id),
        )

  -- A request with a sender, to be replied to, that is not in the limpet's table and comes neither
  -- from the limpet's own network nor from the other limpet, is sent on, under its own id, which gets
  -- the limpet's network id if it had none. Then any messages may pass, from KBUS, or from the other
  -- limpet if they are no reply to that request. A reply to that id, when it comes from the other
  -- limpet, is passed on as a reply to the request's own id, to the Ksock that sent the request, with
  -- no id of its own; and then the request is in the table no more. (The table was in order before,
  -- the limpet's network id is not 0, and neither message is a Replier Bind Event.)
  pub reply_comes_home :
      {context now : Context} (w : W) (request reply : UserMsg)
      → Distinct context.request_from
      → IsNew context request
      → context.network_id ≢ 0
      → Passes ioctl request.id (amend_msg_from_kbus context request).0 now
      → is_bind_event reply ≡ false
      → reply.in_reply_to ≡ (amend_msg_from_kbus context request).1.0.id
      → let home = amend_msg_to_kbus ioctl w now reply in
        ((amend_msg_from_kbus context request).1.1 ≡ amended)
        × ((amend_msg_from_kbus context request).1.0.id ≡ (
            if request.id.network_id == 0
            then record { network_id = context.network_id; serial_num = request.id.serial_num }
            else request.id))
        × (home.0 ≡ w)
        × (home.1.1
            ≡ (record reply { in_reply_to = request.id; to = request.from; id = no_id }, amended))
        × (find_request_from home.1.0.request_from request.id ≡ 0)
  unfolding remembered
  reply_comes_home {context} {now} w request reply distinct new network passed no_event answers =
      let out = request_goes_out context request new in
      let added = remembered-Distinct context request new distinct in
      let waits = find-remembered context request new in
      let kept =
        Passes-Keeps ioctl passed
          (subst (λ c. Distinct c.request_from) (sym (ap (λ p. p.0) out)) added)
          (λ gone. new.sender (
            sym waits
            ∙ ap (λ p. find_request_from p.0.request_from request.id) (sym out)
            ∙ gone)) in
      let found = kept.1 ∙ ap (λ p. find_request_from p.0.request_from request.id) out ∙ waits in
      let same_network = kept.0 ∙ ap (λ p. p.0.network_id) out in
      let id = answers ∙ ap (λ p. p.1.0.id) out in
      let home =
        reply_returns w now reply request.id request.from kept.2 found new.sender no_event
          (is_reply_home context request reply network id)
          (ap (local_id_of now) id
            ∙ home_id context now request new.not_own network same_network) in
      (
        ap (λ p. p.1.1) out,
        ap (λ p. p.1.0.id) out ∙ marked_id context request,
        home.0,
        home.1,
        home.2,
      )
