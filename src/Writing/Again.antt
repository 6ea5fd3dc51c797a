-- ===== src/Writing/Again.antt =====
-- Two calls of kbus_write of kbus/kbus_main.c and one call on their bytes together.
use kbus.Prelude.{
  ℕ, zero, suc, ◌+◌, ◌≤◌, ◌<◌, ◌≡◌, ◌∙◌, refl, sym, ap, inl, inr, Bool, none, List, [], ◌∷◌, ◌++◌,
  append-nil, length-append, arith, ltb, length, take, drop, Bool-cases, Option-cases,
}
use kbus.Errno.{ok}
use kbus.Ksock.Records.{WriteMsg}
use kbus.Writing.{needed, stopped, store_bytes, write_parts, write_loop}
use kbus.Writing.Layout.{take-append_few, drop-append_few}
use kbus.Writing.Rounds.{
  go_on, write_loop-while, write_loop-nil, write_parts-stopped, write_parts-short,
  write_parts-complete, goes-inside,
}
use kbus.Writing.Places.{Good, placed}
use kbus.Writing.Twice.{settle, then_write, Joins, complete-Joins, join_short, halfway_lem, Partial}

module _ (isalnum : ℕ → Bool) (page max_message_size fuel : ℕ) (pos : 0 < page) where
  -- The state in the middle of a part.
  abbrev pub midway : WriteMsg → List ℕ → WriteMsg
  midway this a = placed (this.pos + length a) (store_bytes page this.which this a)

  -- A round on the first piece, and what follows.
  join_round :
      (this : WriteMsg) (x : ℕ) (xs b : List ℕ)
      → 7 ≤ fuel + this.which
      → Good page pos this
      → (this.which < 6
          → (next : WriteMsg) (rest : List ℕ) → Good page pos next
          → next.which ≡ this.which + 1
          → Joins isalnum page max_message_size fuel pos next rest b)
      → settle (
          go_on isalnum page max_message_size fuel
            (write_parts isalnum page max_message_size this ((x ∷ xs) ++ b)))
        ≡ settle (
            then_write isalnum page max_message_size fuel pos
              (go_on isalnum page max_message_size fuel
                (write_parts isalnum page max_message_size this (x ∷ xs)))
              b)
  join_round this x xs b enough good later = elim (Option-cases (stopped this)) [
    | inr (e, stop) ↦
        rw
          (
            write_parts-stopped isalnum page max_message_size this ((x ∷ xs) ++ b) e stop,
            write_parts-stopped isalnum page max_message_size this (x ∷ xs) e stop,
          )
          refl
    | inl goes ↦ elim (Bool-cases (ltb (length (x ∷ xs)) (needed this))) [
      | inl few ↦ short_round goes (ground arith)
      | inr many ↦
          let lt = goes-inside isalnum page max_message_size this goes in
          let size : needed this ≤ length (x ∷ xs) = ground arith in
          rw
            (
              write_parts-complete isalnum page max_message_size this ((x ∷ xs) ++ b) goes
                  (omega (arith, length-append (x ∷ xs) b)),
              write_parts-complete isalnum page max_message_size this (x ∷ xs) goes size,
              take-append_few (needed this) (x ∷ xs) b size,
              drop-append_few (needed this) (x ∷ xs) b size,
            )
            (complete-Joins isalnum page max_message_size fuel pos this
              (take (needed this) (x ∷ xs)) (drop (needed this) (x ∷ xs)) b good lt
              (λ next good' e. later lt next (drop (needed this) (x ∷ xs)) good' e))
    ]
  ]
    where
      short_round :
          stopped this ≡ none
          → length (x ∷ xs) < needed this
          → settle (
              go_on isalnum page max_message_size fuel
                (write_parts isalnum page max_message_size this ((x ∷ xs) ++ b)))
            ≡ settle (
                then_write isalnum page max_message_size fuel pos
                  (go_on isalnum page max_message_size fuel
                    (write_parts isalnum page max_message_size this (x ∷ xs)))
                  b)
      short_round goes few = at_b b ∙ sym rest
        where
          first :
              write_parts isalnum page max_message_size this (x ∷ xs)
              ≡ ((midway this (x ∷ xs)), ok [])
          first = write_parts-short isalnum page max_message_size this (x ∷ xs) goes few

          halfway :
              Partial isalnum page max_message_size fuel pos this (x ∷ xs) (midway this (x ∷ xs))
          halfway = halfway_lem isalnum page max_message_size fuel pos this (x ∷ xs) good goes few

          rest :
              settle (
                then_write isalnum page max_message_size fuel pos
                  (go_on isalnum page max_message_size fuel
                    (write_parts isalnum page max_message_size this (x ∷ xs)))
                  b)
              ≡ settle (write_loop isalnum page max_message_size fuel (midway this (x ∷ xs)) b)
          rest =
              ap
                (λ r. settle (
                  then_write isalnum page max_message_size fuel pos
                    (go_on isalnum page max_message_size fuel r) b))
                first
              ∙ ap (λ r. settle (then_write isalnum page max_message_size fuel pos r b))
                  (write_loop-nil isalnum page max_message_size fuel (midway this (x ∷ xs)))

          at_b :
              (b : List ℕ)
              → settle (
                  go_on isalnum page max_message_size fuel
                    (write_parts isalnum page max_message_size this ((x ∷ xs) ++ b)))
                ≡ settle (write_loop isalnum page max_message_size fuel (midway this (x ∷ xs)) b)
          at_b [] =
              ap
                (λ l. settle (
                  go_on isalnum page max_message_size fuel
                    (write_parts isalnum page max_message_size this l)))
                (append-nil (x ∷ xs))
              ∙ ap (λ r. settle (go_on isalnum page max_message_size fuel r)) first
          at_b (y ∷ ys) =
              join_short isalnum page max_message_size fuel pos this (midway this (x ∷ xs)) (x ∷ xs)
                (y ∷ ys) goes few halfway
              ∙ ap settle (
                  sym (
                    write_loop-while isalnum page max_message_size fuel (midway this (x ∷ xs))
                      (y ∷ ys) (omega (arith, good.1, halfway.0)) (omega (arith, halfway.0))))

  -- The loop on the pieces together is the loop on one and then on the other.
  pub join_loop :
      (k : ℕ) (this : WriteMsg) (a b : List ℕ)
      → this.which + k ≡ 6
      → 7 ≤ fuel + this.which
      → Good page pos this
      → Joins isalnum page max_message_size fuel pos this a b
  unfolding Joins
  join_loop k this [] b parts enough good =
      rw (write_loop-nil isalnum page max_message_size fuel this) refl
  join_loop zero this (x ∷ xs) b parts enough good =
      rw
        (
          write_loop-while isalnum page max_message_size fuel this (x ∷ (xs ++ b)) good.1 enough,
          write_loop-while isalnum page max_message_size fuel this (x ∷ xs) good.1 enough,
        )
        (join_round this x xs b enough good (λ lt. absurd (omega arith)))
  join_loop (suc k) this (x ∷ xs) b parts enough good =
      rw
        (
          write_loop-while isalnum page max_message_size fuel this (x ∷ (xs ++ b)) good.1 enough,
          write_loop-while isalnum page max_message_size fuel this (x ∷ xs) good.1 enough,
        )
        (join_round this x xs b enough good
          (λ lt next rest good' e. join_loop k next rest b (omega arith) (omega arith) good'))
