-- ===== src/Writing/Twice.antt =====
-- kbus_write of kbus/kbus_main.c does not see how the bytes of a message are split over its calls.
use kbus.Prelude.{
  ℕ, ◌+◌, ◌-◌, ◌≤◌, ◌<◌, ◌≡◌, ◌≢◌, ◌∙◌, refl, sym, ap, inl, inr, Bool, none, List, [], ◌++◌,
  length-append, arith, ltb, length, take, drop, take-append, drop_exact, drop-drop, length-take,
  Bool-cases,
}
use kbus.Errno.{Result, ok, err}
use kbus.Ksock.Records.{WriteMsg}
use kbus.Writing.{needed, stopped, store_bytes, finish_part, complete, write_parts, write_loop}
use kbus.Writing.Rounds.{go_on, write_parts-short, write_parts-complete}
use kbus.Writing.Places.{
  Good, data_len_of, placed, store_bytes-append, store_bytes-keeps, finish_part-replaced, replaced,
  OnOk, finish_part-keeps,
}

-- The result of the loop, where after an error the place does not count.
abbrev pub settle : WriteMsg × Result (Unit {0}) → WriteMsg × Result (Unit {0})
settle (this, err e) = (placed 0 this, err e)
settle (this, ok u) = (this, ok u)

module _ (isalnum : ℕ → Bool) (page max_message_size fuel : ℕ) (pos : 0 < page) where
  -- The loop, where what was before has not failed.
  abbrev pub then_write : WriteMsg × Result (Unit {0}) → List ℕ → WriteMsg × Result (Unit {0})
  then_write (this, err e) bytes = (this, err e)
  then_write (this, ok u) bytes = write_loop isalnum page max_message_size fuel this bytes

  -- The state at the start of the next part.
  abbrev pub next_part : WriteMsg → WriteMsg → WriteMsg
  next_part this s = record s { which = this.which + 1; pos = 0 }

  next_part-Good :
      (this s : WriteMsg)
      → Good page pos this
      → this.which < 6
      → (s.msg ≢ none) × (this.which < 3 → s.ref_data ≡ this.ref_data)
      → Good page pos (next_part this s)
  next_part-Good this s good lt (has, same) = (
    has,
    omega arith,
    (λ before. same (omega arith) ∙ good.2 (omega arith)),
    λ is_data.
        let unset : s.ref_data ≡ none = same (omega arith) ∙ good.2 (omega arith) in
        elim (Bool-cases (ltb 0 (data_len_of s))) [
          | inl has_data ↦ inr ([], refl, (ground arith, inl (unset, refl)))
          | inr no_data ↦ inl (ground arith)
        ],
  )

  pub finish_part-Good :
      (this : WriteMsg) (part : List ℕ)
      → Good page pos this
      → this.which < 6
      → OnOk isalnum page max_message_size
          (λ s. Good page pos (next_part this s))
          (finish_part isalnum page max_message_size this.which
            (store_bytes page this.which this part))
  finish_part-Good this part good lt =
      let kept = store_bytes-keeps page pos this.which this part in
      let has : (store_bytes page this.which this part).msg ≢ none = λ e. good.0 (sym kept.0 ∙ e) in
      go
        (finish_part isalnum page max_message_size this.which
          (store_bytes page this.which this part))
        (finish_part-keeps isalnum page max_message_size this.which
          (store_bytes page this.which this part) has)
    where
      stored : WriteMsg
      stored = store_bytes page this.which this part

      go :
          (r : Result WriteMsg)
          → OnOk isalnum page max_message_size
              (λ s.
                (s.msg ≢ none)
                × (this.which < 3 → s.ref_data ≡ (store_bytes page this.which this part).ref_data))
              r
          → OnOk isalnum page max_message_size (λ s. Good page pos (next_part this s)) r
      go (err e) kept = tt
      go (ok s) (has, same) =
          next_part-Good this s good lt (
            has,
            λ before. same before ∙ (store_bytes-keeps page pos this.which this part).3 before,
          )

  unfoldable pub Joins : WriteMsg → List ℕ → List ℕ → Type 0
  Joins this a b =
      settle (write_loop isalnum page max_message_size fuel this (a ++ b))
      ≡ settle (then_write (write_loop isalnum page max_message_size fuel this a) b)

  -- A part that ends in the first piece.
  pub complete-Joins :
      (this : WriteMsg) (part rest b : List ℕ)
      → Good page pos this
      → this.which < 6
      → ((next : WriteMsg) → Good page pos next → next.which ≡ this.which + 1 → Joins next rest b)
      → settle (
          go_on isalnum page max_message_size fuel
            (complete isalnum page max_message_size this part (rest ++ b)))
        ≡ settle (
            then_write
              (go_on isalnum page max_message_size fuel
                (complete isalnum page max_message_size this part rest))
              b)
  unfolding Joins
  complete-Joins this part rest b good lt later =
      go
        (finish_part isalnum page max_message_size this.which
          (store_bytes page this.which this part))
        (finish_part-Good this part good lt)
    where
      go :
          (r : Result WriteMsg)
          → OnOk isalnum page max_message_size (λ s. Good page pos (next_part this s)) r
          → settle (
              go_on isalnum page max_message_size fuel (elim r [
                | err e ↦ (store_bytes page this.which this part, err e)
                | ok next ↦ (next_part this next, ok (rest ++ b))
              ]))
            ≡ settle (
                then_write
                  (go_on isalnum page max_message_size fuel (elim r [
                    | err e ↦ (store_bytes page this.which this part, err e)
                    | ok next ↦ (next_part this next, ok rest)
                  ]))
                  b)
      go (err e) good' = refl
      go (ok next) good' = later (next_part this next) good' refl

  -- The end of a part from what has been stored of it.
  abbrev pub ended : ℕ → WriteMsg → List ℕ → WriteMsg × Result (List ℕ)
  ended n stored rest = elim (finish_part isalnum page max_message_size n stored) [
    | err e ↦ (stored, err e)
    | ok next ↦ (record next { which = n + 1; pos = 0 }, ok rest)
  ]

  -- The place of what is stored does not count at the end of a part.
  ended-placed :
      (n p : ℕ) (t : WriteMsg) (rest : List ℕ)
      → settle (go_on isalnum page max_message_size fuel (ended n t rest))
        ≡ settle (go_on isalnum page max_message_size fuel (ended n (placed p t) rest))
  ended-placed n p t rest =
      go (finish_part isalnum page max_message_size n t)
      ∙ ap
          (λ r. settle (
            go_on isalnum page max_message_size fuel (elim r [
              | err e ↦ (placed p t, err e)
              | ok next ↦ (record next { which = n + 1; pos = 0 }, ok rest)
            ])))
          (sym (finish_part-replaced isalnum page max_message_size n p t))
    where
      go :
          (r : Result WriteMsg)
          → settle (
              go_on isalnum page max_message_size fuel (elim r [
                | err e ↦ (t, err e)
                | ok next ↦ (record next { which = n + 1; pos = 0 }, ok rest)
              ]))
            ≡ settle (
                go_on isalnum page max_message_size fuel
                  (elim (replaced isalnum page max_message_size p r) [
                    | err e ↦ (placed p t, err e)
                    | ok next ↦ (record next { which = n + 1; pos = 0 }, ok rest)
                  ]))
      go (err e) = refl
      go (ok next) = refl

  -- A state in the middle of a part, where some bytes of it have been stored.
  abbrev pub Partial : WriteMsg → List ℕ → WriteMsg → Type 0
  Partial this a s =
      (s.which ≡ this.which)
      × (needed s ≡ needed this - length a)
      × (stopped s ≡ none)
      × (s.pos ≡ this.pos + length a)
      × ((b : List ℕ)
          → length a + length b ≤ needed this
          → store_bytes page this.which s b
            ≡ placed (this.pos + length a) (store_bytes page this.which this (a ++ b)))

  pub halfway_lem :
      (this : WriteMsg) (a : List ℕ)
      → Good page pos this
      → stopped this ≡ none
      → length a < needed this
      → Partial this a (placed (this.pos + length a) (store_bytes page this.which this a))
  unfolding stopped needed
  halfway_lem this a good go few =
      let kept = store_bytes-keeps page pos this.which this a in
      (
        kept.2,
        rw (kept.0, kept.2) (omega arith),
        rw (kept.1, kept.2) go,
        refl,
        λ b fit. store_bytes-append page pos this.which this a b good.3 (omega arith),
      )

  -- Both pieces are in one part, which the first does not end.
  pub join_short :
      (this s : WriteMsg) (a b : List ℕ)
      → stopped this ≡ none
      → length a < needed this
      → Partial this a s
      → settle (
          go_on isalnum page max_message_size fuel
            (write_parts isalnum page max_message_size this (a ++ b)))
        ≡ settle (
            go_on isalnum page max_message_size fuel
              (write_parts isalnum page max_message_size s b))
  join_short this s a b goes few (same, left, goes', place, stored) =
      let n = this.which in
      let p = this.pos + length a in
      let both : length (a ++ b) ≡ length a + length b = length-append a b in
      elim (Bool-cases (ltb (length (a ++ b)) (needed this))) [
        | inl short ↦
            let whole = store_bytes page n this (a ++ b) in
            let state : placed (s.pos + length b) (store_bytes page s.which s b)
                ≡ placed (this.pos + length (a ++ b)) whole =
              ap (λ m. placed (s.pos + length b) (store_bytes page m s b)) same
              ∙ (ap (placed (s.pos + length b)) (stored b (ground arith))
                  ∙ ap (λ q. placed q whole) (omega arith)) in
            ap (λ r. settle (go_on isalnum page max_message_size fuel r))
              (write_parts-short isalnum page max_message_size this (a ++ b) goes (ground arith)
                ∙ (ap (λ t. (t, ok [])) (sym state)
                    ∙ sym
                        (write_parts-short isalnum page max_message_size s b goes' (ground arith))))
        | inr long ↦
            let m = needed this - length a in
            let cut : needed this ≡ length a + m = omega arith in
            let part : take (needed this) (a ++ b) ≡ a ++ take m b =
              ap (λ q. take q (a ++ b)) cut ∙ take-append m a b in
            let rest : drop (needed this) (a ++ b) ≡ drop m b =
              ap (λ q. drop q (a ++ b)) cut
              ∙ (sym (drop-drop (length a) m (a ++ b))
                  ∙ ap (drop m) (drop_exact (length a) a b refl)) in
            let first : write_parts isalnum page max_message_size this (a ++ b)
                ≡ ended n (store_bytes page n this (a ++ take m b)) (drop m b) =
              write_parts-complete isalnum page max_message_size this (a ++ b) goes (ground arith)
              ∙ (ap (λ l. ended n (store_bytes page n this l) (drop (needed this) (a ++ b))) part
                  ∙ ap (λ l. ended n (store_bytes page n this (a ++ take m b)) l) rest) in
            let second : write_parts isalnum page max_message_size s b
                ≡ ended n (placed p (store_bytes page n this (a ++ take m b))) (drop m b) =
              write_parts-complete isalnum page max_message_size s b goes' (ground arith)
              ∙ (ap (λ q. ended q (store_bytes page q s (take (needed s) b)) (drop (needed s) b))
                    same
                  ∙ (ap (λ q. ended n (store_bytes page n s (take q b)) (drop q b)) left
                      ∙ ap (λ t. ended n t (drop m b))
                          (stored (take m b) (ground (arith, length-take m b))))) in
            ap (λ r. settle (go_on isalnum page max_message_size fuel r)) first
            ∙ (ended-placed n p (store_bytes page n this (a ++ take m b)) (drop m b)
                ∙ ap (λ r. settle (go_on isalnum page max_message_size fuel r)) (sym second))
      ]
