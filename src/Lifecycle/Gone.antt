-- ===== src/Lifecycle/Gone.antt =====
-- kbus/kbus_main.c: what kbus_release leaves of the bindings.
use kbus.Prelude.{
  arith, ℕ, ◌≡◌, ◌∙◌, refl, ap, sym, subst, inl, inr, not, List, [], ◌∷◌, ◌==◌, filter,
  Option-cases,
}
use kbus.Message.{MsgId}
use kbus.Ksock.Records.{QueueItem, UnrepliedItem}
use kbus.Device.{Dev, find_open_ksock, forget_open_ksock, on_ksock}
use kbus.Synthetic.{push_synthetic_message, replier_gone_away, replier_ignored}
use kbus.Unsent.{forget_my_unsent_unbind_msgs, drop_unsent, check_tragic}
use kbus.Bindings.Table.{answer_for, forget_my_bindings}
use kbus.Bindings.Owners.{Distinct, forget_my_bindings-filter}
use kbus.Lifecycle.{
  empty_ksock, empty_one, empty_answers, empty_queue, empty_message_queue, ignore_one,
  ignore_requests, empty_replies_unsent, forget_unsent_for, release,
}

bindings-push_synthetic_message :
    (dev : Dev) (from to : ℕ) (id : MsgId) (name : List ℕ)
    → (push_synthetic_message dev from to id name).bound_message_list ≡ dev.bound_message_list
unfolding push_synthetic_message
bindings-push_synthetic_message dev from to id name = elim (Option-cases (find_open_ksock dev to)) [
  | inl e ↦ rw (e, push_synthetic_message) refl
  | inr (k, e) ↦ rw (e, push_synthetic_message) refl
]

bindings-empty_one :
    (dev : Dev) (priv : ℕ) (item : QueueItem)
    → (empty_one dev priv item).bound_message_list ≡ dev.bound_message_list
unfolding empty_one answer_for
bindings-empty_one dev priv item =
    ground
      (arith, bindings-push_synthetic_message dev priv item.msg.from item.msg.id replier_gone_away)

bindings-empty_queue :
    (dev : Dev) (priv : ℕ) (queue : List QueueItem)
    → (empty_queue dev priv queue).bound_message_list ≡ dev.bound_message_list
unfolding empty_queue empty_answers
bindings-empty_queue dev priv [] = refl
bindings-empty_queue dev priv (item ∷ []) = ground (arith, bindings-empty_one dev priv item)
bindings-empty_queue dev priv (item ∷ next ∷ later) =
    bindings-empty_queue (empty_one dev priv item) priv (next ∷ later)
    ∙ bindings-empty_one dev priv item

bindings-empty_message_queue :
    (dev : Dev) (priv : ℕ)
    → (empty_message_queue dev priv).bound_message_list ≡ dev.bound_message_list
unfolding empty_message_queue
bindings-empty_message_queue dev priv = elim (Option-cases (find_open_ksock dev priv)) [
  | inl e ↦ rw (e, empty_message_queue) refl
  | inr (k, e) ↦ rw (e, empty_message_queue) (bindings-empty_queue dev priv k.message_queue)
]

bindings-ignore_requests :
    (dev : Dev) (priv : ℕ) (items : List UnrepliedItem)
    → (ignore_requests dev priv items).bound_message_list ≡ dev.bound_message_list
unfolding ignore_requests ignore_one
bindings-ignore_requests dev priv [] = refl
bindings-ignore_requests dev priv (item ∷ later) =
    bindings-ignore_requests (ignore_one dev priv item) priv later
    ∙ bindings-push_synthetic_message dev priv item.from item.id replier_ignored

bindings-empty_replies_unsent :
    (dev : Dev) (priv : ℕ)
    → (empty_replies_unsent dev priv).bound_message_list ≡ dev.bound_message_list
unfolding empty_replies_unsent
bindings-empty_replies_unsent dev priv = elim (Option-cases (find_open_ksock dev priv)) [
  | inl e ↦ rw (e, empty_replies_unsent) refl
  | inr (k, e) ↦ rw (e, empty_replies_unsent) (bindings-ignore_requests dev priv k.replies_unsent)
]

bindings-forget_unsent_for :
    (dev : Dev) (priv : ℕ)
    → (forget_unsent_for dev priv).bound_message_list ≡ dev.bound_message_list
unfolding forget_unsent_for forget_my_unsent_unbind_msgs drop_unsent check_tragic
bindings-forget_unsent_for dev priv = ground arith

bindings-forget_open_ksock :
    (dev : Dev) (priv : ℕ)
    → (forget_open_ksock dev priv).0.bound_message_list ≡ dev.bound_message_list
unfolding forget_open_ksock
bindings-forget_open_ksock dev priv = elim (Option-cases (find_open_ksock dev priv)) [
  | inl e ↦ rw (e, forget_open_ksock) refl
  | inr (k, e) ↦ rw (e, forget_open_ksock) refl
]

-- After kbus_release the list of bindings holds exactly those of the other Ksocks, in the order in
-- which it held them, if no two bindings on it were at one address.
pub release-filter :
    (dev : Dev) (priv : ℕ)
    → Distinct dev.bound_message_list
    → (release dev priv).0.bound_message_list
      ≡ filter (λ b. not (priv == b.bound_to_id)) dev.bound_message_list
unfolding release
release-filter dev priv d =
    bindings-forget_open_ksock (empty_replies_unsent unbound priv) priv
    ∙ (bindings-empty_replies_unsent unbound priv
        ∙ (bindings-forget_unsent_for (forget_my_bindings emptied priv) priv
            ∙ (forget_my_bindings-filter emptied priv (subst Distinct (sym same) d)
                ∙ ap (filter (λ b. not (priv == b.bound_to_id))) same)))
  where
    emptied : Dev
    emptied = empty_message_queue (on_ksock dev priv empty_ksock) priv

    same : emptied.bound_message_list ≡ dev.bound_message_list
    same = bindings-empty_message_queue (on_ksock dev priv empty_ksock) priv

    unbound : Dev
    unbound = forget_unsent_for (forget_my_bindings emptied priv) priv
