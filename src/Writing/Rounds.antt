-- ===== src/Writing/Rounds.antt =====
-- The loop of kbus_write in kbus/kbus_main.c, round by round.
use kbus.Prelude.{
  ℕ, zero, suc, ◌+◌, ◌≤◌, ◌<◌, ◌≡◌, ◌∙◌, refl, sym, inl, inr, Bool, true, false, none, some, List,
  [], ◌∷◌, arith, ltb, ◌==◌, length, take, drop, take_all, drop_all, Bool-cases, Option-cases,
  lesser,
}
use kbus.Errno.{Errno, Result, ok, err, success}
use kbus.Ksock.Records.{WriteMsg}
use kbus.Writing.{complete, stopped, needed, store_bytes, finish_part, write_parts, write_loop}

module _ (isalnum : ℕ → Bool) (page_size max_message_size : ℕ) where
  pub write_parts-stopped :
      (this : WriteMsg) (bytes : List ℕ) (e : Errno)
      → stopped this ≡ some e
      → write_parts isalnum page_size max_message_size this bytes ≡ (this, err e)
  unfolding write_parts
  write_parts-stopped this bytes e stop = rw (stop, write_parts) refl

  pub write_parts-short :
      (this : WriteMsg) (bytes : List ℕ)
      → stopped this ≡ none
      → length bytes < needed this
      → write_parts isalnum page_size max_message_size this bytes ≡ (
        record (store_bytes page_size this.which this bytes) { pos = this.pos + length bytes },
        ok [],
      )
  unfolding write_parts
  write_parts-short this bytes go few =
      let all : lesser (needed this) (length bytes) ≡ length bytes = ground arith in
      let more : (needed this == length bytes) ≡ false = ground arith in
      rw
        (
          go,
          write_parts,
          all,
          more,
          take_all (length bytes) bytes (omega arith),
          drop_all (length bytes) bytes (omega arith),
        )
        refl

  pub write_parts-complete :
      (this : WriteMsg) (bytes : List ℕ)
      → stopped this ≡ none
      → needed this ≤ length bytes
      → write_parts isalnum page_size max_message_size this bytes
        ≡ complete isalnum page_size max_message_size this
            (take (needed this) bytes)
            (drop (needed this) bytes)
  unfolding write_parts
  write_parts-complete this bytes go enough =
      let all : lesser (needed this) (length bytes) ≡ needed this = ground arith in
      let same : (needed this == needed this) ≡ true = ground arith in
      rw (go, write_parts, all, same) refl

  -- The loop after a round.
  abbrev pub go_on : ℕ → WriteMsg × Result (List ℕ) → WriteMsg × Result (Unit {0})
  go_on fuel (this, err e) = (this, err e)
  go_on fuel (this, ok rest) = write_loop isalnum page_size max_message_size fuel this rest

  -- The loop of kbus_write: it ends where no bytes are left, and otherwise goes on after a round.
  abbrev pub while : ℕ → WriteMsg → List ℕ → WriteMsg × Result (Unit {0})
  while fuel this [] = (this, success)
  while fuel this (b ∷ bs) =
      go_on fuel (write_parts isalnum page_size max_message_size this (b ∷ bs))

  pub write_loop-nil :
      (fuel : ℕ) (this : WriteMsg)
      → write_loop isalnum page_size max_message_size fuel this [] ≡ (this, success)
  unfolding write_loop
  write_loop-nil zero this = refl
  write_loop-nil (suc fuel) this = refl

  pub write_loop-suc :
      (fuel : ℕ) (this : WriteMsg) (b : ℕ) (bs : List ℕ)
      → write_loop isalnum page_size max_message_size (suc fuel) this (b ∷ bs)
        ≡ go_on fuel (write_parts isalnum page_size max_message_size this (b ∷ bs))
  unfolding write_loop
  write_loop-suc fuel this b bs = go (write_parts isalnum page_size max_message_size this (b ∷ bs))
    where
      go :
          (r : WriteMsg × Result (List ℕ))
          → (elim r.1 [
            | err e ↦ (r.0, err e)
            | ok rest ↦ write_loop isalnum page_size max_message_size fuel r.0 rest
          ])
            ≡ go_on fuel r
      go (s, err e) = refl
      go (s, ok rest) = refl

  pub goes-inside : (this : WriteMsg) → stopped this ≡ none → this.which < 6
  unfolding stopped
  goes-inside this go = ground arith

  -- A round that ends a part, and the loop after it.
  pub go_on-complete :
      (f g : ℕ) (this : WriteMsg) (part rest : List ℕ)
      → ((next : WriteMsg)
          → next.which ≡ this.which + 1
          → write_loop isalnum page_size max_message_size f next rest
            ≡ write_loop isalnum page_size max_message_size g next rest)
      → go_on f (complete isalnum page_size max_message_size this part rest)
        ≡ go_on g (complete isalnum page_size max_message_size this part rest)
  go_on-complete f g this part rest same = go (
      finish_part isalnum page_size max_message_size this.which
        (store_bytes page_size this.which this part))
    where
      go :
          (r : Result WriteMsg)
          → go_on f (elim r [
            | err e ↦ (store_bytes page_size this.which this part, err e)
            | ok next ↦ (record next { which = this.which + 1; pos = 0 }, ok rest)
          ])
            ≡ go_on g (elim r [
              | err e ↦ (store_bytes page_size this.which this part, err e)
              | ok next ↦ (record next { which = this.which + 1; pos = 0 }, ok rest)
            ])
      go (err e) = refl
      go (ok next) = same (record next { which = this.which + 1; pos = 0 }) refl

  -- More rounds than are needed change nothing.
  write_loop_more :
      (f g : ℕ) (this : WriteMsg) (bytes : List ℕ)
      → this.which ≤ 6
      → 7 ≤ f + this.which
      → 7 ≤ g + this.which
      → write_loop isalnum page_size max_message_size f this bytes
        ≡ write_loop isalnum page_size max_message_size g this bytes
  write_loop_more f g this [] within enough enough' =
      write_loop-nil f this ∙ sym (write_loop-nil g this)
  write_loop_more zero g this (b ∷ bs) within enough enough' = absurd (omega arith)
  write_loop_more (suc f) zero this (b ∷ bs) within enough enough' = absurd (omega arith)
  write_loop_more (suc f) (suc g) this (b ∷ bs) within enough enough' =
      let same : go_on f (write_parts isalnum page_size max_message_size this (b ∷ bs))
          ≡ go_on g (write_parts isalnum page_size max_message_size this (b ∷ bs)) =
        elim (Option-cases (stopped this)) [
          | inr (e, stop) ↦ rw (write_parts-stopped this (b ∷ bs) e stop) refl
          | inl go ↦ elim (Bool-cases (ltb (length (b ∷ bs)) (needed this))) [
            | inl few ↦
                rw (write_parts-short this (b ∷ bs) go (ground arith))
                  (write_loop-nil f _ ∙ sym (write_loop-nil g _))
            | inr many ↦ rw (write_parts-complete this (b ∷ bs) go (ground arith)) (
                go_on-complete f g this (take (needed this) (b ∷ bs)) (drop (needed this) (b ∷ bs))
                  (λ next e.
                    write_loop_more f g next (drop (needed this) (b ∷ bs))
                      (omega (arith, goes-inside this go)) (omega arith) (omega arith)))
          ]
        ] in
      write_loop-suc f this b bs ∙ (same ∙ sym (write_loop-suc g this b bs))

  -- With as many rounds as there are parts left and one more, the loop goes on after a round with as
  -- much fuel as before it.
  pub write_loop-while :
      (fuel : ℕ) (this : WriteMsg) (bytes : List ℕ)
      → this.which ≤ 6
      → 7 ≤ fuel + this.which
      → write_loop isalnum page_size max_message_size fuel this bytes ≡ while fuel this bytes
  write_loop-while fuel this [] within enough = write_loop-nil fuel this
  write_loop-while fuel this (b ∷ bs) within enough =
      write_loop_more fuel (suc fuel) this (b ∷ bs) within enough (omega arith)
      ∙ write_loop-suc fuel this b bs
