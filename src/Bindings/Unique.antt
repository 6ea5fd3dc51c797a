-- ===== src/Bindings/Unique.antt =====
-- kbus/kbus_main.c: there is never more than one replier for a name.
use kbus.Prelude.{
  ℕ, zero, suc, ◌≤◌, ◌≡◌, ◌∙◌, ◌⊎◌, refl, inl, inr, count, Bool, true, false, not, ◌&&◌, Option,
  none, some, List, [], ◌∷◌, arith, ◌==◌, Bool-cases, sym, ap, subst,
}
use kbus.CString.{strncmp_eq}
use kbus.Errno.{Result-cases}
use kbus.Message.{Msg}
use kbus.Device.{Binding, Dev, on_ksock}
use kbus.Ksock.Records.{for_listener}
use kbus.Ksock.Queue.{push_message}
use kbus.Recipients.Search.{find_replier}
use kbus.Recipients.Plan.{
  send_reply, send_request, send_to_listeners, write_to_recipients, plan_recipients,
}
use kbus.Synthetic.{new_synthetic_bind_message, push_synthetic_bind_message}
use kbus.Bindings.Table.{has_replier, add_binding, remember_binding}

-- A replier binding for this very name.
abbrev pub is_replier_of : ℕ → List ℕ → Binding → Bool
is_replier_of name_len name b =
    not (b.is_replier == 0) && b.name_len == name_len && strncmp_eq name_len name b.name

-- At most one replier for each name.
abbrev pub OneReplier : List Binding → Type 0
OneReplier bs = (name_len : ℕ) (name : List ℕ) → count (is_replier_of name_len name) bs ≤ 1

strncmp_eq_euclid :
    (n : ℕ) (a b c : List ℕ)
    → strncmp_eq n a b ≡ true
    → strncmp_eq n a c ≡ true
    → strncmp_eq n b c ≡ true
unfolding strncmp_eq
strncmp_eq_euclid zero a b c p q = refl
strncmp_eq_euclid (suc n) [] [] [] p q = refl
strncmp_eq_euclid (suc n) [] [] (z ∷ c) p q = ground arith
strncmp_eq_euclid (suc n) [] (y ∷ b) [] p q = ground arith
strncmp_eq_euclid (suc n) [] (y ∷ b) (z ∷ c) p q = ground arith
strncmp_eq_euclid (suc n) (x ∷ a) [] [] p q = refl
strncmp_eq_euclid (suc n) (x ∷ a) [] (z ∷ c) p q = ground arith
strncmp_eq_euclid (suc n) (x ∷ a) (y ∷ b) [] p q = ground arith
strncmp_eq_euclid (suc n) (x ∷ a) (y ∷ b) (z ∷ c) p q = ground (arith, strncmp_eq_euclid n a b c)

-- Where kbus_find_replier finds nobody, nobody is bound by a name that is the same to it.
find_replier-none :
    (n : ℕ) (name name' : List ℕ) (bs : List Binding)
    → find_replier n name bs ≡ none
    → strncmp_eq n name' name ≡ true
    → count (is_replier_of n name') bs ≡ 0
unfolding find_replier
find_replier-none n name name' [] h same = refl
find_replier-none n name name' (b ∷ bs) h same =
    ground (arith, find_replier-none n name name' bs, strncmp_eq_euclid n name' name b.name)

has_replier-none :
    (dev : Dev) (n : ℕ) (name : List ℕ)
    → has_replier dev n name ≡ false
    → find_replier n name dev.bound_message_list ≡ none
unfolding has_replier
has_replier-none dev n name h = ground arith

add_binding-OneReplier :
    (dev : Dev) (priv replier n : ℕ) (name : List ℕ)
    → ((replier == 0) ≡ true) ⊎ (find_replier n name dev.bound_message_list ≡ none)
    → OneReplier dev.bound_message_list
    → OneReplier (add_binding dev priv replier n name).bound_message_list
unfolding add_binding
add_binding-OneReplier dev priv replier n name free one n' name' =
    ground (arith, one n' name', find_replier-none n name name' dev.bound_message_list)

bindings-send_to_listeners :
    (dev : Dev) (msg : Msg) (bs : List (Option Binding))
    → (send_to_listeners dev msg bs).bound_message_list ≡ dev.bound_message_list
unfolding send_to_listeners
bindings-send_to_listeners dev msg [] = refl
bindings-send_to_listeners dev msg (none ∷ bs) = bindings-send_to_listeners dev msg bs
bindings-send_to_listeners dev msg (some b ∷ bs) =
    bindings-send_to_listeners
      (on_ksock dev b.bound_to (λ k. push_message k msg (some b.addr) for_listener)) msg bs

bindings-send_reply :
    (our : ℕ) (dev : Dev) (msg : Msg) (to : Option ℕ)
    → (send_reply our dev msg to).bound_message_list ≡ dev.bound_message_list
unfolding send_reply
bindings-send_reply our dev msg none = refl
bindings-send_reply our dev msg (some to) = refl

bindings-send_request :
    (our : ℕ) (dev : Dev) (msg : Msg) (r : Option Binding)
    → (send_request our dev msg r).bound_message_list ≡ dev.bound_message_list
unfolding send_request
bindings-send_request our dev msg none = refl
bindings-send_request our dev msg (some r) = refl

pub bindings-write :
    (our : ℕ) (dev : Dev) (msg : Msg)
    → (write_to_recipients our dev msg).0.bound_message_list ≡ dev.bound_message_list
unfolding write_to_recipients
bindings-write our dev msg = elim (Result-cases (plan_recipients our dev msg)) [
  | inr (e, failed) ↦ rw (failed, write_to_recipients)
  | inl (plan, planned) ↦
      rw (planned, write_to_recipients)
        (bindings-send_to_listeners _ msg plan.listeners
          ∙ (bindings-send_request our (send_reply our dev msg plan.reply_to) msg plan.replier
              ∙ bindings-send_reply our dev msg plan.reply_to))
]

pub bindings-push_synthetic_bind_message :
    (dev : Dev) (priv is_bind n : ℕ) (name : List ℕ)
    → (push_synthetic_bind_message dev priv is_bind n name).0.bound_message_list
      ≡ dev.bound_message_list
unfolding push_synthetic_bind_message
bindings-push_synthetic_bind_message dev priv is_bind n name =
    bindings-write priv (new_synthetic_bind_message dev priv is_bind n name).1
      (new_synthetic_bind_message dev priv is_bind n name).0

OneReplier-push_synthetic_bind_message :
    (dev : Dev) (priv is_bind n : ℕ) (name : List ℕ)
    → OneReplier dev.bound_message_list
    → OneReplier (push_synthetic_bind_message dev priv is_bind n name).0.bound_message_list
OneReplier-push_synthetic_bind_message dev priv is_bind n name one =
    subst OneReplier (sym (bindings-push_synthetic_bind_message dev priv is_bind n name)) one

free-after :
    (dev dev' : Dev) (replier n : ℕ) (name : List ℕ)
    → (not (replier == 0) && has_replier dev n name) ≡ false
    → dev'.bound_message_list ≡ dev.bound_message_list
    → ((replier == 0) ≡ true) ⊎ (find_replier n name dev'.bound_message_list ≡ none)
free-after dev dev' replier n name free same = elim (Bool-cases (replier == 0)) [
  | inl e ↦ inl e
  | inr e ↦ inr (ap (find_replier n name) same ∙ has_replier-none dev n name (ground (arith)))
]

-- kbus_remember_binding keeps it so that there is at most one replier for each name, whether the
-- binding succeeds, is refused, or cannot be announced to the listeners.
pub remember_binding-OneReplier :
    (dev : Dev) (priv replier n : ℕ) (name : List ℕ)
    → OneReplier dev.bound_message_list
    → OneReplier (remember_binding dev priv replier n name).0.bound_message_list
unfolding remember_binding
remember_binding-OneReplier dev priv replier n name one =
    elim (Bool-cases (not (replier == 0) && has_replier dev n name)) [
      | inl e ↦ rw (e, remember_binding) one
      | inr e ↦ elim (Bool-cases (not (replier == 0) && dev.report_replier_binds)) [
        | inr r ↦
            rw (e, r, remember_binding)
              (add_binding-OneReplier dev priv replier n name
                (free-after dev dev replier n name e refl) one)
        | inl r ↦ elim (Result-cases (push_synthetic_bind_message dev priv 1 n name).1) [
          | inl (u, sent) ↦
              rw (e, r, sent, remember_binding)
                (add_binding-OneReplier (push_synthetic_bind_message dev priv 1 n name).0 priv
                  replier n name
                  (free-after dev (push_synthetic_bind_message dev priv 1 n name).0 replier n name e
                    (bindings-push_synthetic_bind_message dev priv 1 n name))
                  (OneReplier-push_synthetic_bind_message dev priv 1 n name one))
          | inr (c, failed) ↦
              rw (e, r, failed, remember_binding)
                (OneReplier-push_synthetic_bind_message dev priv 1 n name one)
        ]
      ]
    ]
