-- ===== src/Limpet/Dialogue.antt =====
-- libkbus/limpet.c and libkbus/libkbus.c: a stateful request reaches the Ksock whose reply it follows,
-- or is refused.
use kbus.Prelude.{ℕ, ◌≡◌, ◌≢◌, ◌↔◌, ◌∙◌, refl, ap, Option, none, List, ◌==◌, arith, true}
use kbus.Errno.{ok}
use kbus.Ioctl.{Request, Answer}
use kbus.Synthetic.{replier_gone_away}
use kbus.Libkbus.Messages.{UserMsg, is_reply, create_stateful_request, stateful_target}
use kbus.Libkbus.Calls.{ksock_find_replier}
use kbus.Limpet.Context.{Context}
use kbus.Limpet.Amending.{
  amended, answered, amend_request_from_other_limpet, mark_origin, arrived, check_request, refused,
  error_answer, not_same_ksock, given,
}

-- A stateful request after a reply is for the origin of the reply.
stateful_origin :
    (reply request : UserMsg) (name : List ℕ) (name_len : ℕ) (data_ptr : Option (List ℕ))
    (data_len flags : ℕ)
    → is_reply reply ≡ true
    → create_stateful_request reply name name_len data_ptr data_len flags ≡ ok request
    → request.final_to ≡ reply.orig_from
unfolding create_stateful_request stateful_target
stateful_origin reply request name name_len data_ptr data_len flags answer made = ground arith

-- A request in its final network goes to the Ksock that it is for, or is answered.
checked_here :
    (msg : UserMsg) (k replier_id : ℕ)
    → k ≢ 0
    → msg.final_to.local_id ≡ k
    → let outcome = check_request true msg replier_id in
      ((outcome.1 ≡ amended) ↔ (replier_id ≡ k))
      × (outcome.1 ≡ amended → outcome.0.to ≡ k)
      × (replier_id ≡ 0 → outcome.1 ≡ answered (error_answer replier_gone_away outcome.0))
      × (replier_id ≢ 0
          → replier_id ≢ k
          → outcome.1 ≡ answered (error_answer not_same_ksock outcome.0))
      × (outcome.0.id ≡ msg.id)
      × (outcome.0.from ≡ msg.from)
unfolding check_request
checked_here msg k replier_id sender here = (
  (λ done. ground arith, λ same. ground arith),
  λ done. ground arith,
  λ gone. ground arith,
  λ there changed. ground arith,
  ground arith,
  ground arith,
)

at_home : UserMsg → UserMsg
at_home msg = record msg { final_to = record { network_id = 0; local_id = msg.final_to.local_id } }

arrived_here :
    (now : Context) (msg : UserMsg)
    → (msg.final_to.network_id == now.network_id) ≡ true
    → arrived now msg ≡ at_home msg
unfolding arrived at_home
arrived_here now msg here = rw here

marked_network :
    (context : Context) (msg : UserMsg)
    → msg.orig_from.network_id ≡ 0
    → (mark_origin context msg).orig_from.network_id ≡ context.network_id
unfolding mark_origin
marked_network context msg local = ground arith

marked_local :
    (context : Context) (msg : UserMsg)
    → msg.orig_from.network_id ≡ 0
    → (mark_origin context msg).orig_from.local_id ≡ msg.from
unfolding mark_origin
marked_local context msg local = ground arith

refused_zero : refused (ok 0) ≡ none
unfolding refused
refused_zero = refl

module _ {W : Type 0} (ioctl : W → ℕ → Request → W × Answer) where
  request_checked :
      (now : Context) (w : W) (msg : UserMsg) (replier_id : ℕ)
      → (ksock_find_replier ioctl w now.ksock (given msg.name) 0).1 ≡ (ok 0, replier_id)
      → (amend_request_from_other_limpet ioctl w now msg).1
        ≡ check_request (msg.final_to.network_id == now.network_id) (arrived now msg) replier_id
  unfolding amend_request_from_other_limpet
  request_checked now w msg replier_id found =
      let accepted = ap (λ p. refused p.0) found ∙ refused_zero in
      rw (accepted, amend_request_from_other_limpet) (rw (ap (λ p. p.1) found) refl)

  -- A reply leaves its network through a limpet for the first time, and somebody makes a stateful
  -- request after it. When a request with that destination comes to this limpet from the other one,
  -- and KBUS has said who replies to its name, then it is passed on just if that is the Ksock that
  -- sent the reply, and to that Ksock; if nobody replies to the name any more the other limpet is
  -- answered Replier.GoneAway, and if it is another Ksock Replier.NotSameKsock, as a reply to the
  -- request. (The Ksock that sent the reply is not 0.)
  pub stateful_returns :
      (context now : Context) (w : W) (reply seen request arriving : UserMsg) (replier_id : ℕ)
      (name : List ℕ) (name_len : ℕ) (data_ptr : Option (List ℕ)) (data_len flags : ℕ)
      → now.network_id ≡ context.network_id
      → reply.from ≢ 0
      → reply.orig_from.network_id ≡ 0
      → seen.orig_from ≡ (mark_origin context reply).orig_from
      → is_reply seen ≡ true
      → create_stateful_request seen name name_len data_ptr data_len flags ≡ ok request
      → arriving.final_to ≡ request.final_to
      → (ksock_find_replier ioctl w now.ksock (given arriving.name) 0).1 ≡ (ok 0, replier_id)
      → let outcome = (amend_request_from_other_limpet ioctl w now arriving).1 in
        ((outcome.1 ≡ amended) ↔ (replier_id ≡ reply.from))
        × (outcome.1 ≡ amended → outcome.0.to ≡ reply.from)
        × (replier_id ≡ 0 → outcome.1 ≡ answered (error_answer replier_gone_away outcome.0))
        × (replier_id ≢ 0
            → replier_id ≢ reply.from
            → outcome.1 ≡ answered (error_answer not_same_ksock outcome.0))
        × (outcome.0.id ≡ arriving.id)
        × (outcome.0.from ≡ arriving.from)
  unfolding at_home
  stateful_returns context now w reply seen request arriving replier_id name name_len data_ptr
        data_len flags same sender local marked answer made bound found =
      let origin = stateful_origin seen request name name_len data_ptr data_len flags answer made in
      let target = bound ∙ origin ∙ marked in
      let network_here : arriving.final_to.network_id ≡ context.network_id =
        ap (λ o. o.network_id) target ∙ marked_network context reply local in
      let local_here : arriving.final_to.local_id ≡ reply.from =
        ap (λ o. o.local_id) target ∙ marked_local context reply local in
      let here : (arriving.final_to.network_id == now.network_id) ≡ true = ground arith in
      let outcome =
        request_checked now w arriving replier_id found
        ∙ ap (λ local. check_request local (arrived now arriving) replier_id) here
        ∙ ap (λ m. check_request true m replier_id) (arrived_here now arriving here) in
      rw outcome (checked_here (at_home arriving) reply.from replier_id sender local_here)
