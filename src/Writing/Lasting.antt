-- ===== src/Writing/Lasting.antt =====
-- A message that is being written by kbus_write of kbus/kbus_main.c stays in good order.
use kbus.Prelude.{
  ℕ, zero, suc, ◌+◌, ◌-◌, ◌≤◌, ◌<◌, ◌≡◌, ◌∙◌, refl, sym, ap, subst, inl, inr, Bool, none, List, [],
  ◌∷◌, ◌++◌, length-append, arith, ltb, length, take, drop, Bool-cases, Option-cases,
}
use kbus.Errno.{Result, ok, err}
use kbus.Ksock.Records.{WriteMsg}
use kbus.Writing.{
  message_of, part_len, store_data, needed, stopped, store_bytes, finish_part, write_parts,
  write_loop,
}
use kbus.Writing.Rounds.{
  go_on, write_loop-while, write_loop-nil, write_parts-stopped, write_parts-short,
  write_parts-complete, goes-inside,
}
use kbus.Writing.Places.{
  Good, DataAt, data_len_of, placed, store_bytes-keeps, OnOk, store_data-Holds, store_data-zero,
}
use kbus.Writing.Twice.{next_part, finish_part-Good}
use kbus.Writing.Again.{midway}

module _ (isalnum : ℕ → Bool) (page max_message_size fuel : ℕ) (pos : 0 < page) where
  -- The data in the middle of it.
  partial-DataAt :
      (this : WriteMsg) (a : List ℕ)
      → Good page pos this
      → length a < needed this
      → this.which ≡ 3
      → DataAt page pos (midway isalnum page max_message_size fuel pos this a)
  unfolding store_bytes needed part_len
  partial-DataAt this a good few is_data =
      let p = this.pos + length a in
      let as_data : store_bytes page this.which this a ≡ store_data page this a =
        ap (λ n. store_bytes page n this a) is_data in
      let room : length a < data_len_of this - this.pos =
        subst (λ n. length a < part_len (message_of this.msg) n - this.pos) is_data few in
      subst (λ s. DataAt page pos (placed p s)) (sym as_data)
        (elim (good.3 is_data) [
          | inl none_there ↦
              subst (λ s. DataAt page pos (placed p s))
                (sym (store_data-zero page pos this a none_there)) (inl none_there)
          | inr (there, len, holds) ↦
              subst (λ s. DataAt page pos (placed p s))
                (sym (store_data-Holds page pos this there a holds (omega arith)))
                (inr
                  (there ++ a, omega (arith, length-append there a), (holds.0, inr (refl, refl))))
        ])

  -- After a part of the message has been given some bytes, the writer can go on.
  partial-Good :
      (this : WriteMsg) (a : List ℕ)
      → Good page pos this
      → stopped this ≡ none
      → length a < needed this
      → Good page pos (midway isalnum page max_message_size fuel pos this a)
  partial-Good this a good goes few =
      let kept = store_bytes-keeps page pos this.which this a in
      (
        (λ e. good.0 (sym kept.0 ∙ e)),
        omega (arith, good.1, kept.2),
        (λ lt. kept.3 (omega (arith, kept.2)) ∙ good.2 (omega (arith, kept.2))),
        λ is_data. partial-DataAt this a good few (sym kept.2 ∙ is_data),
      )

  -- What holds of the writer after the loop, where it has not failed.
  abbrev pub DoneGood : WriteMsg × Result (Unit {0}) → Type 0
  DoneGood (this, err e) = Unit {0}
  DoneGood (this, ok u) = Good page pos this

  round-DoneGood :
      (this : WriteMsg) (x : ℕ) (xs : List ℕ)
      → Good page pos this
      → (this.which < 6
          → (next : WriteMsg) (rest : List ℕ) → Good page pos next
          → next.which ≡ this.which + 1
          → DoneGood (write_loop isalnum page max_message_size fuel next rest))
      → DoneGood (
          go_on isalnum page max_message_size fuel
            (write_parts isalnum page max_message_size this (x ∷ xs)))
  round-DoneGood this x xs good later = elim (Option-cases (stopped this)) [
    | inr (e, stop) ↦ rw (write_parts-stopped isalnum page max_message_size this (x ∷ xs) e stop) tt
    | inl goes ↦ elim (Bool-cases (ltb (length (x ∷ xs)) (needed this))) [
      | inl few ↦
          let short : length (x ∷ xs) < needed this = ground arith in
          subst (λ r. DoneGood (go_on isalnum page max_message_size fuel r))
            (sym (write_parts-short isalnum page max_message_size this (x ∷ xs) goes short))
            (subst DoneGood
              (sym (
                write_loop-nil isalnum page max_message_size fuel
                  (midway isalnum page max_message_size fuel pos this (x ∷ xs))))
              (partial-Good this (x ∷ xs) good goes short))
      | inr many ↦
          subst (λ r. DoneGood (go_on isalnum page max_message_size fuel r))
            (sym (
              write_parts-complete isalnum page max_message_size this (x ∷ xs) goes (ground arith)))
            (go (goes-inside isalnum page max_message_size this goes)
              (finish_part isalnum page max_message_size this.which
                (store_bytes page this.which this (take (needed this) (x ∷ xs))))
              (finish_part-Good isalnum page max_message_size fuel pos this
                (take (needed this) (x ∷ xs)) good
                (goes-inside isalnum page max_message_size this goes)))
    ]
  ]
    where
      go :
          this.which < 6
          → (r : Result WriteMsg)
          → OnOk isalnum page max_message_size
              (λ s. Good page pos (next_part isalnum page max_message_size fuel pos this s))
              r
          → DoneGood (
              go_on isalnum page max_message_size fuel (elim r [
                | err e ↦ (store_bytes page this.which this (take (needed this) (x ∷ xs)), err e)
                | ok next ↦ (
                  next_part isalnum page max_message_size fuel pos this next,
                  ok (drop (needed this) (x ∷ xs)),
                )
              ]))
      go lt (err e) good' = tt
      go lt (ok next) good' =
          later lt (next_part isalnum page max_message_size fuel pos this next)
            (drop (needed this) (x ∷ xs)) good' refl

  pub loop-DoneGood :
      (k : ℕ) (this : WriteMsg) (a : List ℕ)
      → this.which + k ≡ 6
      → 7 ≤ fuel + this.which
      → Good page pos this
      → DoneGood (write_loop isalnum page max_message_size fuel this a)
  loop-DoneGood k this [] parts enough good =
      subst DoneGood (sym (write_loop-nil isalnum page max_message_size fuel this)) good
  loop-DoneGood zero this (x ∷ xs) parts enough good =
      subst DoneGood
        (sym (write_loop-while isalnum page max_message_size fuel this (x ∷ xs) good.1 enough))
        (round-DoneGood this x xs good (λ lt. absurd (omega arith)))
  loop-DoneGood (suc k) this (x ∷ xs) parts enough good =
      subst DoneGood
        (sym (write_loop-while isalnum page max_message_size fuel this (x ∷ xs) good.1 enough))
        (round-DoneGood this x xs good
          (λ lt next rest good' e. loop-DoneGood k next rest (omega arith) (omega arith) good'))
