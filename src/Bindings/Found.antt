-- ===== src/Bindings/Found.antt =====
-- kbus_remember_binding and then kbus_find_replier (kbus/kbus_main.c): the replier that was bound.
use kbus.Prelude.{
  ℕ, suc, zero, ◌≡◌, ◌≢◌, refl, inl, inr, ap, ◌∙◌, true, false, ◌||◌, some, List, [], ◌∷◌, ◌==◌,
  ltb, arith, Bool-cases,
}
use kbus.CString.{strncmp_eq}
use kbus.Errno.{ok, err, eaddrinuse, Result-cases}
use kbus.Size.{max_name_len}
use kbus.Device.{Dev, Binding}
use kbus.Recipients.Search.{find_replier}
use kbus.Synthetic.{push_synthetic_bind_message}
use kbus.Bindings.Table.{has_replier, add_binding, remember_binding}
use kbus.Bindings.Calls
use kbus.Bindings.Calls.{BindRequest, check_bind_name}

strncmp_eq_refl : (n : ℕ) (a : List ℕ) → strncmp_eq n a a ≡ true
unfolding strncmp_eq
strncmp_eq_refl zero a = refl
strncmp_eq_refl (suc n) [] = refl
strncmp_eq_refl (suc n) (c ∷ a) = ground (arith, strncmp_eq_refl n a)

-- The replier that has just been bound is the one that is found.
bound_first :
    (dev : Dev) (priv replier name_len : ℕ) (name : List ℕ)
    → replier ≢ 0
    → (b : Binding) × (find_replier name_len name
          (add_binding dev priv replier name_len name).bound_message_list
        ≡ some b)
      × (b.bound_to ≡ priv)
unfolding add_binding find_replier
bound_first dev priv replier name_len name real =
    let real_replier : (replier == 0) ≡ false = ground arith in
    let same : (name_len == name_len) ≡ true = ground arith in
    (
      record {
        addr = dev.next_binding;
        bound_to = priv;
        bound_to_id = priv;
        is_replier = replier;
        name_len = name_len;
        name = name;
      },
      rw (real_replier, same, strncmp_eq_refl name_len name),
      refl,
    )

-- What kbus_remember_binding does where it succeeds.
remembered :
    (dev : Dev) (priv name_len : ℕ) (name : List ℕ)
    → (remember_binding dev priv 1 name_len name).1 ≡ ok tt
    → (d : Dev) × ((remember_binding dev priv 1 name_len name).0
        ≡ add_binding d priv 1 name_len name)
unfolding remember_binding
remembered dev priv name_len name done = elim (Bool-cases (has_replier dev name_len name)) [
  | inl taken ↦ absurd (ground (arith, rw taken at done))
  | inr free ↦ elim (Bool-cases dev.report_replier_binds) [
    | inr quiet ↦ (dev, rw (free, quiet))
    | inl report ↦ elim (Result-cases (push_synthetic_bind_message dev priv 1 name_len name).1) [
      | inr (e, bad) ↦ absurd (ground arith)
      | inl (u, good) ↦ ((push_synthetic_bind_message dev priv 1 name_len name).0, ground arith)
    ]
  ]
]

pub has_one :
    (dev : Dev) (name_len : ℕ) (name : List ℕ) (b : Binding)
    → find_replier name_len name dev.bound_message_list ≡ some b
    → has_replier dev name_len name ≡ true
unfolding has_replier
has_one dev name_len name b replier = rw (replier, has_replier)

pub taken :
    (dev : Dev) (priv name_len : ℕ) (name : List ℕ) (b : Binding)
    → find_replier name_len name dev.bound_message_list ≡ some b
    → remember_binding dev priv 1 name_len name ≡ (dev, err eaddrinuse)
unfolding remember_binding
taken dev priv name_len name b replier =
    let one = has_one dev name_len name b replier in ground arith

pub asks :
    (dev : Dev) (name_len : ℕ) (name : List ℕ) (b : Binding)
    → (name_len == 0 || ltb max_name_len name_len) ≡ false
    → find_replier name_len name dev.bound_message_list ≡ some b
    → Calls.replier dev name_len name ≡ ok (1, b.bound_to)
unfolding Calls.replier
asks dev name_len name b fits replier = rw (fits, Calls.replier) (rw replier)

-- The name that was bound has a replier, the one that bound it.
pub replier_found :
    (dev : Dev) (priv name_len : ℕ) (name : List ℕ)
    → (remember_binding dev priv 1 name_len name).1 ≡ ok tt
    → (b : Binding) × (find_replier name_len name
          (remember_binding dev priv 1 name_len name).0.bound_message_list
        ≡ some b)
      × (b.bound_to ≡ priv)
replier_found dev priv name_len name done =
    let (d, added) = remembered dev priv name_len name done in
    let first = bound_first d priv 1 name_len name (omega arith) in
    (first.0, ap (λ e. find_replier name_len name e.bound_message_list) added ∙ first.1, first.2)
