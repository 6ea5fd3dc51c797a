-- ===== src/Writing/Ending.antt =====
-- The loop of kbus_write in kbus/kbus_main.c as it stands in the code, which nothing bounds, and the
-- loop on fuel that stands for it.
use kbus.Prelude.{
  subst, ap, sym, ◌∙◌, ℕ, zero, suc, ◌+◌, ◌≤◌, ◌<◌, ◌≡◌, refl, inl, inr, List, [], ◌∷◌, arith, ltb,
  length, take, drop, Bool-cases, Option-cases, Bool,
}
use kbus.Errno.{Errno, Result, ok, err, success, Result-cases}
use kbus.Ksock.Records.{WriteMsg}
use kbus.Writing.{complete, stopped, needed, store_bytes, finish_part, write_parts, write_loop}
use kbus.Writing.Rounds.{
  go_on, goes-inside, write_loop-nil, write_loop-suc, write_parts-stopped, write_parts-short,
  write_parts-complete,
}

module _ (isalnum : ℕ → Bool) (page_size max_message_size : ℕ) where
  -- The loop of kbus_write as it stands in the code, without fuel: what it ends with, and after how
  -- many rounds. It ends where no bytes are left or a round fails; otherwise there is another round.
  pub data Loop : WriteMsg → List ℕ → WriteMsg × Result (Unit {0}) → ℕ → Type 0 where
    no_bytes_left : (this : WriteMsg) → Loop this [] (this, success) 0
    failed :
        (this : WriteMsg) (b : ℕ) (bs : List ℕ) (this' : WriteMsg) (e : Errno)
        → write_parts isalnum page_size max_message_size this (b ∷ bs) ≡ (this', err e)
        → Loop this (b ∷ bs) (this', err e) 1
    round :
        (this : WriteMsg) (b : ℕ) (bs : List ℕ) (this' : WriteMsg) (rest : List ℕ)
        (end : WriteMsg × Result (Unit {0})) (n : ℕ)
        → write_parts isalnum page_size max_message_size this (b ∷ bs) ≡ (this', ok rest)
        → Loop this' rest end n
        → Loop this (b ∷ bs) end (suc n)

  Loop-failed :
      (fuel : ℕ) (this this' : WriteMsg) (b : ℕ) (bs : List ℕ) (e : Errno)
      → write_parts isalnum page_size max_message_size this (b ∷ bs) ≡ (this', err e)
      → Loop this
          (b ∷ bs)
          (write_loop isalnum page_size max_message_size (suc fuel) this (b ∷ bs))
          1
  Loop-failed fuel this this' b bs e stop =
      subst (λ r. Loop this (b ∷ bs) r 1)
        (sym (
          write_loop-suc isalnum page_size max_message_size fuel this b bs
          ∙ ap (go_on isalnum page_size max_message_size fuel) stop))
        (failed this b bs this' e stop)

  Loop-round :
      (fuel n : ℕ) (this this' : WriteMsg) (b : ℕ) (bs rest : List ℕ)
      → write_parts isalnum page_size max_message_size this (b ∷ bs) ≡ (this', ok rest)
      → Loop this' rest (write_loop isalnum page_size max_message_size fuel this' rest) n
      → Loop this
          (b ∷ bs)
          (write_loop isalnum page_size max_message_size (suc fuel) this (b ∷ bs))
          (suc n)
  Loop-round fuel n this this' b bs rest done after =
      subst (λ r. Loop this (b ∷ bs) r (suc n))
        (sym (
          write_loop-suc isalnum page_size max_message_size fuel this b bs
          ∙ ap (go_on isalnum page_size max_message_size fuel) done))
        (round this b bs this' rest _ n done after)

  Loop-nil :
      (fuel : ℕ) (this : WriteMsg)
      → Loop this [] (write_loop isalnum page_size max_message_size fuel this []) 0
  Loop-nil fuel this =
      subst (λ r. Loop this [] r 0)
        (sym (write_loop-nil isalnum page_size max_message_size fuel this)) (no_bytes_left this)

  -- A round that ends a part, and the rounds after it.
  Loop-complete :
      (fuel : ℕ) (this : WriteMsg) (b : ℕ) (bs part rest : List ℕ)
      → this.which < 6
      → write_parts isalnum page_size max_message_size this (b ∷ bs)
        ≡ complete isalnum page_size max_message_size this part rest
      → ((next : WriteMsg)
          → next.which ≡ this.which + 1
          → (n : ℕ) × (n + next.which ≤ 7)
            × Loop next rest (write_loop isalnum page_size max_message_size fuel next rest) n)
      → (n : ℕ) × (n + this.which ≤ 7)
        × Loop this
            (b ∷ bs)
            (write_loop isalnum page_size max_message_size (suc fuel) this (b ∷ bs))
            n
  Loop-complete fuel this b bs part rest inside done after =
      let stored = store_bytes page_size this.which this part in
      elim (Result-cases (finish_part isalnum page_size max_message_size this.which stored)) [
        | inr (e, bad) ↦
            (1, omega arith, Loop-failed fuel this stored b bs e (done ∙ rw (bad, complete) refl))
        | inl (next, good) ↦
            let next' : WriteMsg = record next { which = this.which + 1; pos = 0 } in
            let more = after next' refl in
            (
              suc more.0,
              omega (arith, more.1),
              Loop-round fuel more.0 this next' b bs rest (done ∙ rw (good, complete) refl) more.2,
            )
      ]

  -- The loop of kbus_write always ends, after at most one round more than there are parts of the
  -- message to come, and the loop on fuel, with so much fuel, comes to what it ends with.
  pub write_loop-Loop :
      (fuel : ℕ) (this : WriteMsg) (bytes : List ℕ)
      → this.which ≤ 6
      → 7 ≤ fuel + this.which
      → (n : ℕ) × (n + this.which ≤ 7)
        × Loop this bytes (write_loop isalnum page_size max_message_size fuel this bytes) n
  write_loop-Loop fuel this [] within enough = (0, omega arith, Loop-nil fuel this)
  write_loop-Loop zero this (b ∷ bs) within enough = absurd (omega arith)
  write_loop-Loop (suc fuel) this (b ∷ bs) within enough = elim (Option-cases (stopped this)) [
    | inr (e, stop) ↦ (
      1,
      omega arith,
      Loop-failed fuel this this b bs e
          (write_parts-stopped isalnum page_size max_message_size this (b ∷ bs) e stop),
    )
    | inl go ↦ elim (Bool-cases (ltb (length (b ∷ bs)) (needed this))) [
      | inl few ↦ (
        1,
        omega (arith, goes-inside isalnum page_size max_message_size this go),
        Loop-round fuel 0 this _ b bs []
            (write_parts-short isalnum page_size max_message_size this (b ∷ bs) go (ground arith))
            (Loop-nil fuel _),
      )
      | inr many ↦
          Loop-complete fuel this b bs (take (needed this) (b ∷ bs)) (drop (needed this) (b ∷ bs))
            (goes-inside isalnum page_size max_message_size this go)
            (write_parts-complete isalnum page_size max_message_size this (b ∷ bs) go
              (ground arith))
            (λ next e.
              write_loop-Loop fuel next (drop (needed this) (b ∷ bs))
                (omega (arith, goes-inside isalnum page_size max_message_size this go))
                (omega arith))
    ]
  ]
