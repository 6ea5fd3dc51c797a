-- ===== src/Reading/Unread.antt =====
-- The reader of kbus_read in kbus/kbus_main.c as a place in the bytes of a message: what is still to
-- be read, and what one round of the loop does to it.
use kbus.Prelude.{
  ℕ, zero, suc, ◌+◌, ◌≤◌, ◌<◌, ◌≡◌, ◌≢◌, ◌∙◌, ◌⊎◌, refl, sym, ap, inl, inr, false, List, [], ◌∷◌,
  ◌++◌, append_assoc, arith, ◌==◌, if◌then◌else◌, length, get_or, take, drop, flatten, flatten-drop,
  take-append-drop, drop-drop, drop_all, length-take, length-drop, Bool-cases, get_or_beyond,
}
use kbus.Ksock.Records.{ReadMsg, part_data}
use kbus.Reading.{pages, part_length, segment, rounds}

-- One part of the message other than its data.
abbrev pub part_bytes : ReadMsg → ℕ → List ℕ
part_bytes this n = take (part_length this n) (get_or this.parts n [])

-- The message as its six parts.
abbrev pub six_parts : ReadMsg → List (List ℕ)
six_parts this =
    part_bytes this 0
    ∷ part_bytes this 1
    ∷ part_bytes this 2
    ∷ flatten (pages this)
    ∷ part_bytes this 4
    ∷ part_bytes this 5
    ∷ []

-- What is still to be read of the data after the part that is being read.
abbrev pub later_pages : ReadMsg → List ℕ
later_pages this =
    if this.which == part_data then flatten (drop (suc this.ref_data_index) (pages this)) else []

-- The bytes that are still to be read.
unfoldable pub remaining : ReadMsg → List ℕ
unfolding segment
remaining this =
    drop this.pos (segment this)
    ++ (later_pages this ++ flatten (drop (suc this.which) (six_parts this)))

-- The lengths are those of the parts.
abbrev pub Whole : ReadMsg → Type 0
Whole this =
    (length this.lengths ≡ 6)
    × (length (part_bytes this 0) ≡ part_length this 0)
    × (length (part_bytes this 1) ≡ part_length this 1)
    × (length (part_bytes this 2) ≡ part_length this 2)
    × (part_length this 3 ≡ length (flatten (pages this)))
    × (length (part_bytes this 4) ≡ part_length this 4)
    × (length (part_bytes this 5) ≡ part_length this 5)
    × (part_length this 3 ≡ 0 → pages this ≡ [])

-- The place is within the part, and the index into the data within the data.
abbrev pub Placed : ReadMsg → Type 0
Placed this =
    (this.pos ≤ length (segment this))
    × (this.which < 3 → this.ref_data_index ≡ 0)
    × (this.which ≡ 3 → part_length this 3 ≢ 0 → this.ref_data_index < length (pages this))

pub get-six_parts :
    (this : ReadMsg) (n : ℕ)
    → Whole this
    → (n == 3) ≡ false
    → get_or (six_parts this) n [] ≡ part_bytes this n
get-six_parts this zero w ne = refl
get-six_parts this (suc zero) w ne = refl
get-six_parts this (suc (suc zero)) w ne = refl
get-six_parts this (suc (suc (suc zero))) w ne = cc
get-six_parts this (suc (suc (suc (suc zero)))) w ne = refl
get-six_parts this (suc (suc (suc (suc (suc zero))))) w ne = refl
get-six_parts this (suc (suc (suc (suc (suc (suc n)))))) w ne =
    rw (get_or_beyond this.lengths (suc (suc (suc (suc (suc (suc n)))))) 0 (omega (arith, w.0)))
      refl

-- At the start of a part everything from there on is still to be read.
pub remaining_start :
    (this : ReadMsg) (n : ℕ)
    → Whole this
    → (n ≡ 3 → this.ref_data_index ≡ 0)
    → remaining (record this { pos = 0; which = n }) ≡ flatten (drop n (six_parts this))
unfolding remaining segment flatten
remaining_start this n w fresh = elim (Bool-cases (n == 3)) [
  | inl e ↦
      let is_data : n ≡ 3 = ground (arith) in
      rw (is_data, fresh is_data)
        (sym (
            append_assoc (get_or (pages this) 0 []) (flatten (drop 1 (pages this)))
              (flatten (drop 4 (six_parts this))))
          ∙ ap (λ l. l ++ flatten (drop 4 (six_parts this))) (sym (flatten-drop 0 (pages this))))
  | inr ne ↦ rw ne (
      ap (λ l. l ++ flatten (drop (suc n) (six_parts this))) (sym (get-six_parts this n w ne))
      ∙ sym (flatten-drop n (six_parts this)))
]

-- The reader at a place: a part, a position in it and an index into the data.
abbrev pub at : ReadMsg → ℕ → ℕ → ℕ → ReadMsg
at this n p i = record this { which = n; pos = p; ref_data_index = i }

-- Only the place has changed.
abbrev pub Moved : ReadMsg → ReadMsg → Type 0
Moved this this' = this' ≡ at this this'.which this'.pos this'.ref_data_index

-- What one round of the loop achieves: its bytes are the next ones, and it brings the end nearer.
abbrev pub Progress : ReadMsg → ℕ → ReadMsg → ℕ → Type 0
Progress this len this' count =
    (remaining this ≡ take len (drop this.pos (segment this)) ++ remaining this')
    × (length (take len (drop this.pos (segment this))) ≡ len)
    × (len ≤ count)
    × Placed this'
    × ((len ≡ count) ⊎ (rounds this' < rounds this))
    × Moved this this'

pub length-part_bytes :
    (this : ReadMsg) (n : ℕ)
    → Whole this
    → n < 6
    → (n == 3) ≡ false
    → length (part_bytes this n) ≡ part_length this n
length-part_bytes this zero w lt ne = w.1
length-part_bytes this (suc zero) w lt ne = w.2
length-part_bytes this (suc (suc zero)) w lt ne = w.3
length-part_bytes this (suc (suc (suc zero))) w lt ne = cc
length-part_bytes this (suc (suc (suc (suc zero)))) w lt ne = w.5
length-part_bytes this (suc (suc (suc (suc (suc zero))))) w lt ne = w.6
length-part_bytes this (suc (suc (suc (suc (suc (suc n)))))) w lt ne = absurd (omega arith)

pub split_at {ℓ} :
    {A : Type ℓ} (p len : ℕ) (piece rest : List A)
    → drop p piece ++ rest ≡ take len (drop p piece) ++ (drop (p + len) piece ++ rest)
split_at p len piece rest =
    ap (λ l. l ++ rest)
      (sym (take-append-drop len (drop p piece))
        ∙ ap (λ l. take len (drop p piece) ++ l) (drop-drop p len piece))
    ∙ append_assoc (take len (drop p piece)) (drop (p + len) piece) rest

pub remaining-part :
    (this : ReadMsg) (n p i : ℕ)
    → (n == 3) ≡ false
    → remaining (at this n p i)
      ≡ drop p (part_bytes this n) ++ flatten (drop (suc n) (six_parts this))
unfolding remaining segment
remaining-part this n p i ne = rw ne refl

pub remaining-next :
    (this : ReadMsg) (n i : ℕ)
    → Whole this
    → (n < 3 → i ≡ 0)
    → remaining (at this (n + 1) 0 i) ≡ flatten (drop (suc n) (six_parts this))
remaining-next this n i w fresh =
    let e : n + 1 ≡ suc n = omega arith in
    rw e (remaining_start (at this n 0 i) (suc n) w (λ is_data. fresh (omega arith)))

pub length-piece {ℓ} :
    {A : Type ℓ} (p len : ℕ) (piece : List A)
    → p + len ≤ length piece
    → length (take len (drop p piece)) ≡ len
length-piece p len piece room = ground (arith, length-take len (drop p piece), length-drop p piece)

-- A split of the bytes that are still to be read, where the rest begins with the next part.
pub split_last {ℓ} :
    {A : Type ℓ} (p len : ℕ) (piece rest : List A)
    → length piece ≤ p + len
    → drop p piece ++ rest ≡ take len (drop p piece) ++ rest
split_last p len piece rest ends =
    split_at p len piece rest
    ∙ ap (λ l. take len (drop p piece) ++ (l ++ rest)) (drop_all (p + len) piece ends)

pub pages_nonempty :
    (this : ReadMsg) → Whole this → part_length this 3 ≢ 0 → 0 < length (pages this)
unfolding flatten
pages_nonempty this w some_data = go (pages this) (w.4)
  where
    go : (ps : List (List ℕ)) → part_length this 3 ≡ length (flatten ps) → 0 < length ps
    go [] e = absurd (some_data e)
    go (q ∷ ps) e = omega arith

pub next-Placed :
    (this : ReadMsg) (n i : ℕ) → Whole this → (n < 3 → i ≡ 0) → Placed (at this (n + 1) 0 i)
next-Placed this n i w fresh = (
  omega arith,
  λ lt. fresh (omega arith),
  λ is_data some_data.
      let none_yet : i ≡ 0 = fresh (omega arith) in
      let some_pages : 0 < length (pages this) = pages_nonempty this w some_data in omega arith,
)

pub remaining-data :
    (this : ReadMsg) (p i : ℕ)
    → remaining (at this 3 p i)
      ≡ drop p (get_or (pages this) i [])
        ++ (flatten (drop (suc i) (pages this)) ++ flatten (drop 4 (six_parts this)))
unfolding remaining segment
remaining-data this p i = refl

-- At the start of a page of the data all of the data from there on is still to be read.
pub remaining-page :
    (this : ReadMsg) (i : ℕ)
    → remaining (at this 3 0 (i + 1))
      ≡ flatten (drop (suc i) (pages this)) ++ flatten (drop 4 (six_parts this))
remaining-page this i =
    let e : i + 1 ≡ suc i = omega arith in
    let page = get_or (pages this) (suc i) [] in
    let after = flatten (drop (suc (suc i)) (pages this)) in
    let rest = flatten (drop 4 (six_parts this)) in
    rw e (
      remaining-data this 0 (suc i)
      ∙ (sym (append_assoc page after rest)
          ∙ ap (λ l. l ++ rest) (sym (flatten-drop (suc i) (pages this)))))
