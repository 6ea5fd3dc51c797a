-- ===== src/Recipients/Choice.antt =====
-- What kbus_find_listeners of kbus/kbus_main.c finds: every listener, in the order of the bindings,
-- and the most specific replier.
use kbus.Prelude.{
  ℕ, ◌≤◌, ◌<◌, ◌≡◌, refl, ◌⊎◌, inl, inr, Bool, true, false, not, ◌&&◌, Option, none, some, List, [],
  ◌∷◌, ◌++◌, arith, ◌==◌, if◌then◌else◌, filter, All, Bool-cases, ap, sym, subst, ◌∙◌, ltb, ltb→lt,
  append-nil, append_assoc, All-append, All-imp,
}
use mathlib.Core.Option
use kbus.Name.{message_name_matches}
use kbus.Device.{Binding}
use kbus.Recipients.Search.{
  rank, replier_type, Found, nothing_found, add_replier, consider, search, find_listeners,
}

module _ (name_len : ℕ) (name : List ℕ) where
  -- A binding as listener, or as replier, to a name that the message's name matches.
  unfoldable pub is_listener_for : Binding → Bool
  is_listener_for b = message_name_matches name name_len b.name && b.is_replier == 0

  unfoldable pub is_replier_for : Binding → Bool
  is_replier_for b = message_name_matches name name_len b.name && not (b.is_replier == 0)

  consider-listeners :
      (s : Found) (b : Binding)
      → (consider name_len name s b).listeners
        ≡ (if is_listener_for b then s.listeners ++ b ∷ [] else s.listeners)
  unfolding consider is_listener_for
  consider-listeners s b = ground arith

  search-listeners :
      (s : Found) (bs : List Binding)
      → (search name_len name s bs).listeners ≡ s.listeners ++ filter is_listener_for bs
  unfolding search
  search-listeners s [] = sym (append-nil _)
  search-listeners s (b ∷ bs) = ground (
    arith,
    search-listeners (consider name_len name s b) bs,
    consider-listeners s b,
    append_assoc s.listeners (b ∷ []) (filter is_listener_for bs),
  )

  consider-replier :
      (s : Found) (b : Binding)
      → (is_replier_for b ≡ false)
          × ((consider name_len name s b).replier ≡ s.replier)
          × ((consider name_len name s b).type ≡ s.type)
        ⊎ (is_replier_for b ≡ true) × (consider name_len name s b ≡ add_replier s b)
  unfolding consider is_replier_for
  consider-replier s b = elim (Bool-cases (message_name_matches name name_len b.name)) [
    | inl matches ↦ elim (Bool-cases (b.is_replier == 0)) [
      | inl listener ↦ inl (ground arith)
      | inr replier ↦ inr (ground arith)
    ]
    | inr differs ↦ inl (ground arith)
  ]

abbrev pub rank_of : Binding → ℕ
rank_of b = rank (replier_type b.name)

-- The choice of a replier among candidates in their order: nobody if there are none, and otherwise
-- the first of the most specific ones.
pub data Chosen (choice : Option Binding) (candidates : List Binding) : Type 0 where
  nobody : candidates ≡ [] → choice ≡ none → Chosen choice candidates
  most_specific :
      (before after : List Binding) (r : Binding)
      → candidates ≡ before ++ r ∷ after
      → choice ≡ some r
      → All (λ b. rank_of b < rank_of r) before
      → All (λ b. rank_of b ≤ rank_of r) after
      → Chosen choice candidates

-- The loop's invariant: the type kept beside the replier is its type.
abbrev Typed : Found → Type 0
Typed s = (r : Binding) → s.replier ≡ some r → rank s.type ≡ rank_of r

add_replier-Chosen :
    (s : Found) (b : Binding) (candidates : List Binding)
    → Typed s
    → Chosen s.replier candidates
    → Typed (add_replier s b) × Chosen (add_replier s b).replier (candidates ++ b ∷ [])
unfolding add_replier
add_replier-Chosen s b candidates typed (nobody empty e) =
    rw (e, add_replier)
      (
        λ r h. ap rank_of (Option.some-injective b r h),
        most_specific [] [] b (ground arith) refl tt tt,
      )
add_replier-Chosen s b candidates typed (most_specific before after r split e below above) =
    elim (Bool-cases (ltb (rank s.type) (rank_of b))) [
      | inl more ↦
          rw (e, add_replier)
            (rw more (
              λ q h. ap rank_of (Option.some-injective b q h),
              most_specific candidates [] b refl refl
                  (rw split (
                    All-append (λ c. rank_of c < rank_of b) before (r ∷ after)
                      (All-imp (λ c. rank_of c < rank_of r) (λ c. rank_of c < rank_of b) before
                        (λ c h. omega (arith, typed r e, ltb→lt _ _ more)) below)
                      (
                        omega (arith, typed r e, ltb→lt _ _ more),
                        All-imp (λ c. rank_of c ≤ rank_of r) (λ c. rank_of c < rank_of b) after
                            (λ c h. omega (arith, typed r e, ltb→lt _ _ more)) above,
                      )))
                  tt,
            ))
      | inr less ↦
          rw (e, add_replier)
            (rw less (
              typed,
              most_specific before (after ++ b ∷ []) r
                  (rw split (append_assoc before (r ∷ after) (b ∷ []))) e below
                  (All-append (λ c. rank_of c ≤ rank_of r) after (b ∷ []) above
                    (ground (arith, typed r e), tt)),
            ))
    ]

search-Chosen :
    (name_len : ℕ) (name : List ℕ) (s : Found) (candidates bs : List Binding)
    → Typed s
    → Chosen s.replier candidates
    → Chosen
        (search name_len name s bs).replier
        (candidates ++ filter (is_replier_for name_len name) bs)
unfolding search
search-Chosen name_len name s candidates [] typed chosen = rw (append-nil candidates) chosen
search-Chosen name_len name s candidates (b ∷ bs) typed chosen =
    elim (consider-replier name_len name s b) [
      | inl (skip, same, type) ↦ rw skip (
          search-Chosen name_len name (consider name_len name s b) candidates bs
            (λ r h. ap rank type ∙ typed r (sym same ∙ h)) (rw same chosen))
      | inr (take, step) ↦
          rw (take, step, search)
            (subst (Chosen _)
              (append_assoc candidates (b ∷ []) (filter (is_replier_for name_len name) bs))
              (search-Chosen name_len name (add_replier s b) (candidates ++ b ∷ []) bs
                (add_replier-Chosen s b candidates typed chosen).0
                (add_replier-Chosen s b candidates typed chosen).1))
    ]

-- The replier that is found is nobody if no replier binding matches the name, and otherwise the
-- first of the most specific ones: a name itself before a `%` binding, and that before a `*` one.
pub find_listeners-Chosen :
    (name_len : ℕ) (name : List ℕ) (bs : List Binding)
    → Chosen (find_listeners name_len name bs).replier (filter (is_replier_for name_len name) bs)
unfolding find_listeners
find_listeners-Chosen name_len name bs =
    search-Chosen name_len name nothing_found [] bs (λ r h. cc) (nobody refl refl)

-- The listeners are exactly the listener bindings whose name matches, in the order of the list of
-- bindings, each as often as it is bound.
pub find_listeners-filter :
    (name_len : ℕ) (name : List ℕ) (bs : List Binding)
    → (find_listeners name_len name bs).listeners ≡ filter (is_listener_for name_len name) bs
unfolding find_listeners
find_listeners-filter name_len name bs = search-listeners name_len name nothing_found bs
