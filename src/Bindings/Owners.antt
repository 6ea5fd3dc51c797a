-- ===== src/Bindings/Owners.antt =====
-- kbus/kbus_main.c: what kbus_forget_my_bindings leaves of the list of bindings.
use kbus.Prelude.{
  ℕ, ◌+◌, ◌||◌, ◌&&◌, ltb, length, true, ◌≡◌, ◌∙◌, refl, sym, ap, subst, inl, inr, false, not, List,
  [], ◌∷◌, ◌++◌, append_assoc, arith, ◌==◌, All, filter, Bool-cases,
}
use kbus.Message.{Msg, no_id}
use kbus.Device.{Binding, Dev}
use kbus.Recipients.Search.{find_listeners}
use kbus.Recipients.Plan.{write_to_recipients}
use kbus.Synthetic.{unbind_events_lost, build_kbus_message, new_synthetic_bind_message}
use kbus.Unsent.{
  listener_already_got_tragic_msg, put_one_aside, put_aside, put_tragic_aside, set_aside,
  safe_report_unbinding, max_unsent_unbind_messages,
}
use kbus.Bindings.Table.{remove_binding, forget_one, forget_my, forget_my_bindings}
use kbus.Bindings.Unique.{bindings-write}

-- No two bindings are at one address.
abbrev pub Distinct : List Binding → Type 0
Distinct [] = Unit
Distinct (b ∷ bs) = All (λ c. (b.addr == c.addr) ≡ false) bs × Distinct bs

All-middle {ℓ κ} :
    {A : Type ℓ} (P : A → Type κ) (l : List A) (x : A) (m : List A)
    → All P (l ++ x ∷ m)
    → P x × All P (l ++ m)
All-middle P [] x m all = all
All-middle P (y ∷ l) x m (here, later) =
    let (at_x, rest) = All-middle P l x m later in (at_x, (here, rest))

Distinct-middle :
    (l : List Binding) (b : Binding) (m : List Binding) → Distinct (l ++ b ∷ m) → Distinct (l ++ m)
Distinct-middle [] b m d = d.1
Distinct-middle (c ∷ l) b m d =
    ((All-middle (λ x. (c.addr == x.addr) ≡ false) l b m d.0).1, Distinct-middle l b m d.1)

remove_binding-middle :
    (l : List Binding) (b : Binding) (m : List Binding)
    → Distinct (l ++ b ∷ m)
    → remove_binding b.addr (l ++ b ∷ m) ≡ l ++ m
unfolding remove_binding
remove_binding-middle [] b m d = ground arith
remove_binding-middle (c ∷ l) b m d =
    rw ((All-middle (λ x. (c.addr == x.addr) ≡ false) l b m d.0).0)
      (ap (λ bs. c ∷ bs) (remove_binding-middle l b m d.1))

bindings-put_aside :
    (dev : Dev) (msg : Msg) (bs : List Binding)
    → (put_aside dev msg bs).bound_message_list ≡ dev.bound_message_list
unfolding put_aside put_one_aside
bindings-put_aside dev msg [] = refl
bindings-put_aside dev msg (b ∷ bs) = bindings-put_aside (put_one_aside dev msg b) msg bs

bindings-put_tragic_aside :
    (dev : Dev) (msg : Msg) (bs : List Binding)
    → (put_tragic_aside dev msg bs).bound_message_list ≡ dev.bound_message_list
unfolding put_tragic_aside put_one_aside
bindings-put_tragic_aside dev msg [] = refl
bindings-put_tragic_aside dev msg (b ∷ bs) =
    elim (Bool-cases (listener_already_got_tragic_msg dev b.bound_to)) [
      | inl got ↦ rw (got, put_tragic_aside) (bindings-put_tragic_aside dev msg bs)
      | inr none_yet ↦
          rw (none_yet, put_tragic_aside)
            (bindings-put_tragic_aside (put_one_aside dev msg b) msg bs)
    ]

bindings-set_aside :
    (dev : Dev) (msg : Msg) (bs : List Binding)
    → (set_aside dev msg bs).bound_message_list ≡ dev.bound_message_list
unfolding set_aside
bindings-set_aside dev msg bs =
    elim (Bool-cases (
      dev.unsent_unbind_is_tragic
      || ltb max_unsent_unbind_messages (length bs + dev.unsent_unbind_msg_count))) [
        | inr room ↦ rw (room, set_aside) (bindings-put_aside dev msg bs)
        | inl tragic ↦
            let (lost, dev') =
              build_kbus_message (record dev { unsent_unbind_is_tragic = true }) unbind_events_lost
                0 0 no_id in
            rw (tragic, set_aside) (bindings-put_tragic_aside dev' lost bs)
      ]

bindings-safe_report_unbinding :
    (dev : Dev) (priv n : ℕ) (name : List ℕ)
    → (safe_report_unbinding dev priv n name).bound_message_list ≡ dev.bound_message_list
unfolding safe_report_unbinding
bindings-safe_report_unbinding dev priv n name =
    let (msg, dev') = new_synthetic_bind_message dev priv 0 n name in
    let dev'' = (write_to_recipients priv dev' msg).0 in
    ground (
      arith,
      bindings-write priv dev' msg,
      bindings-set_aside dev'' msg
          (find_listeners msg.name_len msg.name_ref dev''.bound_message_list).listeners,
    )

bindings-forget_one :
    (dev : Dev) (priv : ℕ) (b : Binding)
    → (forget_one dev priv b).bound_message_list ≡ remove_binding b.addr dev.bound_message_list
unfolding forget_one
bindings-forget_one dev priv b =
    elim (Bool-cases (not (b.is_replier == 0) && dev.report_replier_binds)) [
      | inl reported ↦
          rw reported
            (ap (remove_binding b.addr) (bindings-safe_report_unbinding dev priv b.name_len b.name))
      | inr quiet ↦ rw quiet refl
    ]

forget_my-filter :
    (dev : Dev) (priv : ℕ) (l bs : List Binding)
    → dev.bound_message_list ≡ l ++ bs
    → Distinct (l ++ bs)
    → (forget_my dev priv bs).bound_message_list ≡ l ++ filter (λ b. not (priv == b.bound_to_id)) bs
unfolding forget_my
forget_my-filter dev priv l [] same d = same
forget_my-filter dev priv l (b ∷ bs) same d = elim (Bool-cases (priv == b.bound_to_id)) [
  | inr other ↦
      rw (other, forget_my)
        (forget_my-filter dev priv (l ++ b ∷ []) bs (same ∙ sym (append_assoc l (b ∷ []) bs))
            (subst Distinct (sym (append_assoc l (b ∷ []) bs)) d)
          ∙ append_assoc l (b ∷ []) (filter (λ c. not (priv == c.bound_to_id)) bs))
  | inl own ↦
      rw (own, forget_my)
        (forget_my-filter (forget_one dev priv b) priv l bs
          (bindings-forget_one dev priv b
            ∙ (ap (remove_binding b.addr) same ∙ remove_binding-middle l b bs d))
          (Distinct-middle l b bs d))
]

-- After kbus_forget_my_bindings the list holds, in the same order, exactly the bindings that belong
-- to other Ksocks, whether or not the events that report them could be sent, if no two bindings on
-- the list were at one address.
pub forget_my_bindings-filter :
    (dev : Dev) (priv : ℕ)
    → Distinct dev.bound_message_list
    → (forget_my_bindings dev priv).bound_message_list
      ≡ filter (λ b. not (priv == b.bound_to_id)) dev.bound_message_list
unfolding forget_my_bindings
forget_my_bindings-filter dev priv d = forget_my-filter dev priv [] dev.bound_message_list refl d
