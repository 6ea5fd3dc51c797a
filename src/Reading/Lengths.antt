-- ===== src/Reading/Lengths.antt =====
-- How long the parts are of a message that kbus/kbus_main.c gives to a reader.
use kbus.Prelude.{
  ℕ, suc, ◌+◌, ◌-◌, ◌≤◌, ◌<◌, ◌≡◌, ◌∙◌, sym, ap, subst, inl, inr, [], arith, ◌==◌, length, get_or,
  flatten-drop, drop, flatten, length-append, length-drop, Bool-cases,
}
use kbus.Ksock.Records.{ReadMsg}
use kbus.Reading.{pages, part_length, segment}
use kbus.Reading.Unread.{
  part_bytes, six_parts, remaining, remaining-part, get-six_parts, Whole, Placed, at,
  length-part_bytes,
}
use kbus.Reading.Rounds.{empty_remaining}

-- How long the parts are from one on.
unfoldable pub parts_from : ReadMsg → ℕ → ℕ
parts_from this n = length (flatten (drop n (six_parts this)))

length-get_or :
    (this : ReadMsg) (n : ℕ)
    → Whole this
    → n < 6
    → length (get_or (six_parts this) n []) ≡ part_length this n
length-get_or this n w lt = elim (Bool-cases (n == 3)) [
  | inl e ↦ let is_data : n ≡ 3 = ground arith in rw is_data (sym w.4)
  | inr ne ↦ ap (length {A = ℕ}) (get-six_parts this n w ne) ∙ length-part_bytes this n w lt ne
]

pub parts_from-next :
    (this : ReadMsg) (n : ℕ)
    → Whole this
    → n < 6
    → parts_from this n ≡ part_length this n + parts_from this (suc n)
unfolding parts_from
parts_from-next this n w lt = rw (flatten-drop n (six_parts this)) (
    omega (
      arith,
      length-append (get_or (six_parts this) n []) (flatten (drop (suc n) (six_parts this))),
      length-get_or this n w lt,
    ))

-- Where the data has no bytes, the place in it is its start.
empty_place :
    (this : ReadMsg) (p i : ℕ)
    → Whole this
    → Placed (at this 3 p i)
    → part_length this 3 ≡ 0
    → p ≡ 0
unfolding segment
empty_place this p i w placed none_there =
    let within : p ≤ length (get_or (pages this) i []) = placed.0 in
    let no_pages : pages this ≡ [] = w.7 none_there in
    omega (arith, ap (λ ps. length {A = ℕ} (get_or ps i [])) no_pages)

-- Outside the data, what is left of one part and all of the later ones.
pub length-remaining :
    (this : ReadMsg) (n p i : ℕ)
    → Whole this
    → Placed (at this n p i)
    → n < 6
    → (n ≡ 3 → part_length this 3 ≡ 0)
    → (p ≤ part_length this n)
      × (length (remaining (at this n p i)) ≡ (part_length this n - p) + parts_from this (suc n))
unfolding parts_from segment
length-remaining this n p i w placed lt outside = elim (Bool-cases (n == 3)) [
  | inl e ↦
      let is_data : n ≡ 3 = ground arith in
      let none_there : part_length this n ≡ 0 = rw is_data (outside is_data) in
      let start : p ≡ 0 =
        empty_place this p i w (subst (λ m. Placed (at this m p i)) is_data placed)
          (outside is_data) in
      (
        omega arith,
        omega (
          arith,
          none_there,
          ap (length {A = ℕ}) (empty_remaining this n p i 0 w placed lt (ground arith)),
        ),
      )
  | inr ne ↦
      let within : p ≤ length (part_bytes this n) = rw ne at placed.0 in
      (
        omega (arith, length-part_bytes this n w lt ne),
        rw (remaining-part this n p i ne) (
            omega (
              arith,
              length-append (drop p (part_bytes this n)) (flatten (drop (suc n) (six_parts this))),
              length-drop p (part_bytes this n),
              length-part_bytes this n w lt ne,
            )),
      )
]
