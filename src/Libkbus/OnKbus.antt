-- ===== src/Libkbus/OnKbus.antt =====
-- libkbus/libkbus.c on top of the device of kbus/kbus_main.c: the calls of the library with its ioctl
-- and its read.
use kbus.Prelude.{
  ℕ, ◌≡◌, refl, inl, inr, ap, ◌∙◌, sym, Bool, true, false, not, ◌&&◌, ◌||◌, Option, some, List, [],
  ◌∷◌, ◌==◌, ltb, if◌then◌else◌, arith, Bool-cases, Option-cases,
}
use mathlib.Core.Option
use kbus.CString.{strlen, strcmp_eq}
use kbus.Errno.{ok, err, einval, eaddrinuse, Result-cases}
use kbus.Size.{max_name_len}
use kbus.Ksock.Records.{Ksock}
use kbus.Device.{Dev, Binding, find_ksock, find_open_ksock, on_ksock, update_ksock}
use kbus.Recipients.Search.{find_replier}
use kbus.Synthetic.{replier_bind_event}
use kbus.Bindings.Table.{remember_binding}
use kbus.Bindings.Calls
use kbus.Bindings.Found.{taken, asks, replier_found}
use kbus.Bindings.Calls.{BindRequest, check_bind_name}
use kbus.Settings.{query, onlyonce, switch, as_number}
use kbus.Ioctl.{
  Request, Answer, number, bind_request, replier_request, msgonlyonce, dispatch, ioctl, zero_or,
  put_user, nothing,
}
use kbus.Libkbus.Calls.{
  ksock_bind, ksock_find_replier, ksock_only_once, name_request, returned, replier_in_answer,
  old_state,
}

-- A Ksock that is changed, but for its id, is found as it then is.
pub find-changed :
    (id : ℕ) (k : Ksock) (f : Ksock → Ksock) (ks : List Ksock)
    → find_ksock id ks ≡ some k
    → (f k).id ≡ id
    → find_ksock id (update_ksock id f ks) ≡ some (f k)
unfolding find_ksock update_ksock
find-changed id k f [] found same = ground arith
find-changed id k f (j ∷ ks) found same = ground (arith, find-changed id k f ks)

module _ (isalnum : ℕ → Bool) (page_size : ℕ) (copy_from_user : ℕ → ℕ → Option (List ℕ)) where
  -- The ioctl of this device.
  abbrev pub system : Dev → ℕ → Request → Dev × Answer
  system dev ksock request = ioctl isalnum page_size copy_from_user dev ksock request

  pub ioctl_open :
      (dev : Dev) (ksock : ℕ) (k : Ksock) (request : Request)
      → find_open_ksock dev ksock ≡ some k
      → system dev ksock request ≡ dispatch isalnum page_size copy_from_user dev ksock k request
  unfolding ioctl
  ioctl_open dev ksock k request there = rw (there, ioctl)

  -- kbus_bind where it succeeds.
  bound_by :
      (dev : Dev) (priv : ℕ) (request : BindRequest)
      → (Calls.bind isalnum dev priv request).1 ≡ ok tt
      → (check_bind_name isalnum request ≡ ok tt)
        × ((not (request.is_replier == 0) && strcmp_eq request.name replier_bind_event) ≡ false)
        × (Calls.bind isalnum dev priv request
            ≡ remember_binding dev priv request.is_replier request.name_len request.name)
  unfolding Calls.bind
  bound_by dev priv request done = elim (Result-cases (check_bind_name isalnum request)) [
    | inr (e, bad) ↦ absurd (ground arith)
    | inl (u, good) ↦
        elim (Bool-cases
          (not (request.is_replier == 0) && strcmp_eq request.name replier_bind_event)) [
            | inl event ↦ absurd (ground arith)
            | inr other ↦ (good, other, rw (good, Calls.bind) (rw other))
          ]
  ]

  ksock_bind-bind :
      (dev : Dev) (ksock : ℕ) (name : List ℕ)
      → (ksock_bind system dev ksock name 1).1 ≡ ok 0
      → ((Calls.bind isalnum dev ksock (name_request name 1)).1 ≡ ok tt)
        × ((ksock_bind system dev ksock name 1).0
            ≡ (Calls.bind isalnum dev ksock (name_request name 1)).0)
  unfolding ksock_bind ioctl dispatch
  ksock_bind-bind dev ksock name done = elim (Option-cases (find_open_ksock dev ksock)) [
    | inl closed ↦ absurd (ground arith)
    | inr (k, open_) ↦ elim (Result-cases (Calls.bind isalnum dev ksock (name_request name 1)).1) [
      | inl (u, good) ↦ (good, rw (open_, ioctl))
      | inr (e, bad) ↦ absurd (ground arith)
    ]
  ]

  -- A name that can be bound can be asked for.
  name_fits :
      (request : BindRequest)
      → check_bind_name isalnum request ≡ ok tt
      → (request.name_len == 0 || ltb max_name_len request.name_len) ≡ false
  unfolding check_bind_name
  name_fits request fine = ground arith

  -- What the library finds where the device has a replier for the name.
  finds :
      (dev : Dev) (asker : ℕ) (name : List ℕ) (old : ℕ) (k : Ksock) (b : Binding)
      → find_open_ksock dev asker ≡ some k
      → (strlen name == 0 || ltb max_name_len (strlen name)) ≡ false
      → find_replier (strlen name) name dev.bound_message_list ≡ some b
      → ksock_find_replier system dev asker name old ≡ (dev, (ok 0, b.bound_to))
  unfolding ksock_find_replier dispatch
  finds dev asker name old k b there fits replier =
      let asked = asks dev (strlen name) name b fits replier in
      let answer : system dev asker (replier_request (strlen name) name)
          ≡ (dev, (ok 1, number b.bound_to)) =
        ioctl_open dev asker k (replier_request (strlen name) name) there ∙ rw (asked, dispatch) in
      ap (λ a. replier_in_answer a old) answer

  refused_again :
      (dev : Dev) (asker : ℕ) (request : BindRequest)
      → check_bind_name isalnum request ≡ ok tt
      → (not (request.is_replier == 0) && strcmp_eq request.name replier_bind_event) ≡ false
      → remember_binding dev asker request.is_replier request.name_len request.name
        ≡ (dev, err eaddrinuse)
      → Calls.bind isalnum dev asker request ≡ (dev, err eaddrinuse)
  unfolding Calls.bind
  refused_again dev asker request fine no_event held = rw (fine, Calls.bind) (rw no_event held)

  -- It cannot be bound again.
  binds_again :
      (dev : Dev) (asker : ℕ) (name : List ℕ) (k : Ksock) (b : Binding)
      → find_open_ksock dev asker ≡ some k
      → check_bind_name isalnum (name_request name 1) ≡ ok tt
      → strcmp_eq name replier_bind_event ≡ false
      → find_replier (strlen name) name dev.bound_message_list ≡ some b
      → ksock_bind system dev asker name 1 ≡ (dev, err eaddrinuse)
  unfolding ksock_bind dispatch
  binds_again dev asker name k b there fine no_event replier = ap returned (
      ioctl_open dev asker k (bind_request (name_request name 1)) there
      ∙ ap (λ p. (p.0, (zero_or p.1, nothing)))
          (refused_again dev asker (name_request name 1) fine no_event
            (taken dev asker (strlen name) name b replier)))

  -- A name that the library has bound as replier has that Ksock as its replier: every Ksock that is
  -- open on the device then finds it, and none can bind the name as replier again (EADDRINUSE).
  pub bind_find :
      (dev : Dev) (ksock asker : ℕ) (name : List ℕ) (old : ℕ) {k : Ksock}
      → (ksock_bind system dev ksock name 1).1 ≡ ok 0
      → let dev' = (ksock_bind system dev ksock name 1).0 in
        find_open_ksock dev' asker ≡ some k
        → (ksock_find_replier system dev' asker name old ≡ (dev', (ok 0, ksock)))
          × (ksock_bind system dev' asker name 1 ≡ (dev', err eaddrinuse))
  bind_find dev ksock asker name old {k} done there =
      let (good, left) = ksock_bind-bind dev ksock name done in
      let (fine, no_event, bound) = bound_by dev ksock (name_request name 1) good in
      let (b, first, owner) =
        replier_found dev ksock (strlen name) name (ap (λ p. p.1) (sym bound) ∙ good) in
      let after = left ∙ ap (λ p. p.0) bound in
      let replier = ap (λ d. find_replier (strlen name) name d.bound_message_list) after ∙ first in
      (
        finds _ asker name old k b there (name_fits (name_request name 1) fine) replier
            ∙ ap (λ id. ((ksock_bind system dev ksock name 1).0, (ok 0, id))) owner,
        binds_again _ asker name k b there fine no_event replier,
      )

  -- What MSGONLYONCE does to a Ksock.
  switched :
      (dev : Dev) (ksock request : ℕ) (k : Ksock)
      → find_open_ksock dev ksock ≡ some k
      → system dev ksock (msgonlyonce request)
        ≡ (on_ksock dev ksock (λ _. (onlyonce k request).0), put_user (onlyonce k request).1)
  unfolding dispatch
  switched dev ksock request k there = ioctl_open dev ksock k (msgonlyonce request) there

  once_set :
      (k : Ksock) (request : ℕ)
      → ((onlyonce k request).0.id ≡ k.id)
        × ((onlyonce k request).0.messages_only_once
            ≡ (if request == 0 then false else if request == 1 then true else k.messages_only_once))
        × ((request == 0 || request == 1 || request == query) ≡ true
            → (onlyonce k request).1 ≡ ok (as_number k.messages_only_once))
  unfolding onlyonce switch
  once_set k request = (ground arith, ground arith, λ fit. ground arith)

  -- kbus_ksock_only_once never tells the state from before: it fails for a number that is not 0, 1 or
  -- the query, which is 2^32 - 1, and otherwise returns 0, whether the flag was set or not, and the
  -- flag of the Ksock is then as was asked for, or for a query as it was.
  pub only_once_zero :
      (dev : Dev) (ksock request : ℕ) {k : Ksock}
      → find_open_ksock dev ksock ≡ some k
      → k.id ≡ ksock
      → let outcome = ksock_only_once system dev ksock request in
        (outcome.1
          ≡ (if request == 0 || request == 1 || request == query then ok 0 else err einval))
        × (Option.map (λ (j : Ksock). j.messages_only_once) (find_open_ksock outcome.0 ksock)
            ≡ some (
                if request == 0
                then false
                else if request == 1
                then true
                else k.messages_only_once))
  unfolding ksock_only_once
  only_once_zero dev ksock request {k} found same =
      let set = once_set k request in
      let after =
        find-changed ksock k (λ _. (onlyonce k request).0) dev.open_ksock_list found
          (set.0 ∙ same) in
      elim (Bool-cases (request == 0 || request == 1 || request == query)) [
        | inl fit ↦
            let all_well : ksock_only_once system dev ksock request
                ≡ (on_ksock dev ksock (λ _. (onlyonce k request).0), ok 0) =
              rw fit (
                ap (old_state request) (
                  switched dev ksock request k found
                  ∙ ap (λ r. (on_ksock dev ksock (λ _. (onlyonce k request).0), put_user r))
                      (set.2 fit))) in
            (
              ap (λ p. p.1) all_well ∙ rw fit,
              ap (λ p. Option.map (λ (j : Ksock). j.messages_only_once) (find_open_ksock p.0 ksock))
                    all_well
                  ∙ ap (Option.map (λ (j : Ksock). j.messages_only_once)) after
                  ∙ ap some set.1,
            )
        | inr unfit ↦
            let none_set : (if request == 0
                  then false
                  else if request == 1
                  then true
                  else k.messages_only_once)
                ≡ k.messages_only_once =
              ground arith in
            rw unfit (
              refl,
              ap (Option.map (λ (j : Ksock). j.messages_only_once)) found ∙ ap some (sym none_set),
            )
      ]
