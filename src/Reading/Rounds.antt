-- ===== src/Reading/Rounds.antt =====
-- One round of the loop of kbus_read in kbus/kbus_main.c, in each kind of part.
use kbus.Prelude.{
  ℕ, zero, suc, ◌+◌, ◌-◌, ◌≤◌, ◌<◌, ◌≡◌, ◌∙◌, refl, sym, ap, inl, inr, true, false, [], ◌++◌, arith,
  ◌==◌, length, get_or, take, drop, flatten, lesser, drop_all, drop-nil, Bool-cases,
}
use kbus.Ksock.Records.{ReadMsg}
use kbus.Reading.{pages, part_length, segment, round_len, after_data, after_round, rounds}
use kbus.Reading.Unread.{
  part_bytes, six_parts, remaining, Whole, Placed, at, Progress, length-part_bytes, split_at,
  remaining-part, remaining-next, length-piece, split_last, next-Placed, remaining-data,
  remaining-page,
}

-- A round in a part other than the data, which has bytes.
module _ (this : ReadMsg) (n p i count : ℕ) (w : Whole this) (placed : Placed (at this n p i))
    (lt : n < 6) (ne : (n == 3) ≡ false) (some_bytes : (part_length this n == 0) ≡ false) where
  part_round :
      Progress
        (at this n p i)
        (lesser (part_length this n - p) count)
        (after_round (at this n p i) (lesser (part_length this n - p) count))
        count
  unfolding after_round segment rounds
  part_round =
      let len = lesser (part_length this n - p) count in
      let piece = part_bytes this n in
      let later = flatten (drop (suc n) (six_parts this)) in
      let whole : length piece ≡ part_length this n = length-part_bytes this n w lt ne in
      let within : p ≤ length piece = rw ne at placed.0 in
      let taken : length (take len (drop p piece)) ≡ len =
        length-piece p len piece (ground arith) in
      let few : len ≤ count = ground arith in
      elim (Bool-cases (p + len == part_length this n)) [
        | inl ends ↦
            rw (some_bytes, ne, ends)
              (
                remaining-part this n p i ne
                    ∙ (split_last p len piece later (ground arith)
                        ∙ ap (λ l. take len (drop p piece) ++ l)
                            (sym (remaining-next this n i w placed.1))),
                taken,
                few,
                next-Placed this n i w placed.1,
                inr (omega arith),
                refl,
              )
        | inr goes_on ↦
            rw (some_bytes, ne, goes_on)
              (
                remaining-part this n p i ne
                    ∙ (split_at p len piece later
                        ∙ ap (λ l. take len (drop p piece) ++ l)
                            (sym (remaining-part this n (p + len) i ne))),
                taken,
                few,
                (ground arith, placed.1, placed.2),
                inl (ground arith),
                refl,
              )
      ]

-- A round in the data, which has bytes.
module _ (this : ReadMsg) (p i count : ℕ) (w : Whole this) (placed : Placed (at this 3 p i))
    (some_data : (part_length this 3 == 0) ≡ false) where
  data_round :
      Progress
        (at this 3 p i)
        (lesser (length (get_or (pages this) i []) - p) count)
        (after_round (at this 3 p i) (lesser (length (get_or (pages this) i []) - p) count))
        count
  unfolding after_round after_data segment rounds flatten
  data_round =
      let page = get_or (pages this) i [] in
      let len = lesser (length page - p) count in
      let after = flatten (drop (suc i) (pages this)) in
      let rest = flatten (drop 4 (six_parts this)) in
      let within : p ≤ length page = placed.0 in
      let inside : i < length (pages this) = placed.2 refl (ground arith) in
      let taken : length (take len (drop p page)) ≡ len = length-piece p len page (ground arith) in
      let few : len ≤ count = ground arith in
      elim (Bool-cases (p + len == length page)) [
        | inl ends ↦
            let split : remaining (at this 3 p i) ≡ take len (drop p page) ++ (after ++ rest) =
              remaining-data this p i ∙ split_last p len page (after ++ rest) (ground arith) in
            elim (Bool-cases (i + 1 == length (pages this))) [
              | inl last ↦
                  rw (some_data, ends, last)
                    (
                      split
                          ∙ ap (λ l. take len (drop p page) ++ l)
                              (ap (λ ps. flatten ps ++ rest)
                                  (drop_all (suc i) (pages this) (ground arith))
                                ∙ sym
                                    (remaining-next this 3 (i + 1) w (λ lt. absurd (omega arith)))),
                      taken,
                      few,
                      next-Placed this 3 (i + 1) w (λ lt. absurd (omega arith)),
                      inr (omega arith),
                      refl,
                    )
              | inr more ↦
                  rw (some_data, ends, more)
                    (
                      split ∙ ap (λ l. take len (drop p page) ++ l) (sym (remaining-page this i)),
                      taken,
                      few,
                      (omega arith, (λ lt. absurd (omega arith)), λ e1 e2. ground arith),
                      inr (omega arith),
                      refl,
                    )
            ]
        | inr goes_on ↦
            let in_it : (i == length (pages this)) ≡ false = ground arith in
            rw (some_data, goes_on, in_it)
              (
                remaining-data this p i
                    ∙ (split_at p len page (after ++ rest)
                        ∙ ap (λ l. take len (drop p page) ++ l)
                            (sym (remaining-data this (p + len) i))),
                taken,
                few,
                (ground arith, (λ lt. absurd (omega arith)), λ e1 e2. inside),
                inl (ground arith),
                refl,
              )
      ]

-- A round in a part that has no bytes.
module _ (this : ReadMsg) (n p i count : ℕ) (w : Whole this) (placed : Placed (at this n p i))
    (lt : n < 6) (no_bytes : (part_length this n == 0) ≡ true) where
  pub empty_remaining : remaining (at this n p i) ≡ flatten (drop (suc n) (six_parts this))
  unfolding flatten
  empty_remaining = elim (Bool-cases (n == 3)) [
    | inl e ↦
        let is_data : n ≡ 3 = ground arith in
        let none_there : pages this ≡ [] = w.7 (ground arith) in
        rw is_data (
          remaining-data this p i
          ∙ rw none_there (ap (λ l. l ++ flatten (drop 4 (six_parts this))) (drop-nil p)))
    | inr ne ↦
        remaining-part this n p i ne
        ∙ ap (λ l. l ++ flatten (drop (suc n) (six_parts this)))
            (drop_all p (part_bytes this n) (ground (arith, length-part_bytes this n w lt ne)))
  ]

  empty_round : Progress (at this n p i) 0 (after_round (at this n p i) 0) count
  unfolding after_round rounds
  empty_round = rw no_bytes (
    empty_remaining ∙ sym (remaining-next this n i w placed.1),
    refl,
    omega arith,
    next-Placed this n i w placed.1,
    inr (omega arith),
    refl,
  )

-- How long a round is.
round_len-empty :
    (this : ReadMsg) (count : ℕ)
    → (part_length this this.which == 0) ≡ true
    → round_len this count ≡ 0
unfolding round_len
round_len-empty this count no_bytes = rw no_bytes refl

round_len-part :
    (this : ReadMsg) (count : ℕ)
    → (part_length this this.which == 0) ≡ false
    → (this.which == 3) ≡ false
    → round_len this count ≡ lesser (part_length this this.which - this.pos) count
unfolding round_len
round_len-part this count some_bytes ne = rw (some_bytes, ne) refl

round_len-data :
    (this : ReadMsg) (p i count : ℕ)
    → (part_length this 3 == 0) ≡ false
    → round_len (at this 3 p i) count ≡ lesser (length (get_or (pages this) i []) - p) count
unfolding round_len segment
round_len-data this p i count some_bytes = rw some_bytes refl

-- Any round of the loop.
pub round-Progress :
    (this : ReadMsg) (n p i count : ℕ)
    → Whole this
    → Placed (at this n p i)
    → n < 6
    → Progress
        (at this n p i)
        (round_len (at this n p i) count)
        (after_round (at this n p i) (round_len (at this n p i) count))
        count
round-Progress this n p i count w placed lt = elim (Bool-cases (part_length this n == 0)) [
  | inl no_bytes ↦
      rw (round_len-empty (at this n p i) count no_bytes)
        (empty_round this n p i count w placed lt no_bytes)
  | inr some_bytes ↦ go n placed lt some_bytes
]
  where
    Goal : ℕ → Type 0
    Goal n =
        Progress (at this n p i) (round_len (at this n p i) count)
          (after_round (at this n p i) (round_len (at this n p i) count)) count

    outside :
        (n : ℕ)
        → Placed (at this n p i)
        → n < 6
        → (part_length this n == 0) ≡ false
        → (n == 3) ≡ false
        → Goal n
    outside n placed lt some_bytes ne =
        rw (round_len-part (at this n p i) count some_bytes ne)
          (part_round this n p i count w placed lt ne some_bytes)

    go : (n : ℕ) → Placed (at this n p i) → n < 6 → (part_length this n == 0) ≡ false → Goal n
    go (suc (suc (suc zero))) placed lt some_data =
        rw (round_len-data this p i count some_data) (data_round this p i count w placed some_data)
    go zero placed lt some_bytes = outside 0 placed lt some_bytes refl
    go (suc zero) placed lt some_bytes = outside 1 placed lt some_bytes refl
    go (suc (suc zero)) placed lt some_bytes = outside 2 placed lt some_bytes refl
    go (suc (suc (suc (suc n)))) placed lt some_bytes =
        outside (suc (suc (suc (suc n)))) placed lt some_bytes (ground arith)
