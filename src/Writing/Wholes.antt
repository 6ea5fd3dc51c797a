-- ===== src/Writing/Wholes.antt =====
-- A round of the loop of kbus_write in kbus/kbus_main.c that takes all of a part.
use kbus.Prelude.{
  ℕ, suc, ◌+◌, ◌≤◌, ◌<◌, ◌≡◌, ◌∙◌, sym, ap, subst, inl, inr, Bool, none, List, ◌∷◌, ◌++◌,
  length-append, arith, length, take, drop, take_exact, drop_exact, List-cases,
}
use kbus.Errno.{ok, err}
use kbus.Ksock.Records.{WriteMsg}
use kbus.Writing.{complete, stopped, needed, store_bytes, finish_part, write_loop}
use kbus.Writing.Rounds.{go_on, write_loop-suc, write_parts-complete}

module _ (isalnum : ℕ → Bool) (page max_message_size : ℕ) where
  -- A round that writes all of a part.
  part_round :
      (f : ℕ) (this : WriteMsg) (part rest : List ℕ)
      → stopped this ≡ none
      → needed this ≡ length part
      → 0 < length part + length rest
      → write_loop isalnum page max_message_size (suc f) this (part ++ rest)
        ≡ go_on isalnum page max_message_size f
            (complete isalnum page max_message_size this part rest)
  part_round f this part rest goes size some_bytes = elim (List-cases (part ++ rest)) [
    | inl e ↦ absurd (omega (arith, length-append part rest, ap (length {A = ℕ}) e))
    | inr (b, bs, e) ↦
        let round : write_loop isalnum page max_message_size (suc f) this (part ++ rest)
            ≡ go_on isalnum page max_message_size f (
                complete isalnum page max_message_size this (take (needed this) (part ++ rest))
                  (drop (needed this) (part ++ rest))) =
          subst
            (λ l.
              needed this ≤ length l
              → write_loop isalnum page max_message_size (suc f) this l
                ≡ go_on isalnum page max_message_size f (
                    complete isalnum page max_message_size this (take (needed this) l)
                      (drop (needed this) l)))
            (sym e)
            (λ enough.
              write_loop-suc isalnum page max_message_size f this b bs
              ∙ ap (go_on isalnum page max_message_size f)
                  (write_parts-complete isalnum page max_message_size this (b ∷ bs) goes enough))
            (omega (arith, length-append part rest)) in
        round
        ∙ (ap
              (λ l.
                go_on isalnum page max_message_size f (
                  complete isalnum page max_message_size this l
                    (drop (needed this) (part ++ rest))))
              (take_exact (needed this) part rest (sym size))
            ∙ ap
                (λ l.
                  go_on isalnum page max_message_size f
                    (complete isalnum page max_message_size this part l))
                (drop_exact (needed this) part rest (sym size)))
  ]

  -- The same, where the part ends well.
  pub part_done :
      (f : ℕ) (this next : WriteMsg) (part rest : List ℕ)
      → stopped this ≡ none
      → needed this ≡ length part
      → 0 < length part + length rest
      → finish_part isalnum page max_message_size this.which (store_bytes page this.which this part)
        ≡ ok next
      → write_loop isalnum page max_message_size (suc f) this (part ++ rest)
        ≡ write_loop isalnum page max_message_size f
            (record next { which = this.which + 1; pos = 0 })
            rest
  part_done f this next part rest goes size some_bytes done =
      part_round f this part rest goes size some_bytes
      ∙ ap
          (λ r. go_on isalnum page max_message_size f (elim r [
            | err e ↦ (store_bytes page this.which this part, err e)
            | ok next' ↦ (record next' { which = this.which + 1; pos = 0 }, ok rest)
          ]))
          done
