-- ===== src/Prelude/Chunks.antt =====
-- Lists cut into pieces: `take`, `drop` and the library's `flatten`, measured by native numbers.
use Prim.Native.Nat.{ℕ, zero, suc, ◌+◌, ◌-◌, ◌≤◌}
use mathlib.Core.Path.{◌≡◌, refl, sym, ap, ◌∙◌}
use mathlib.Core.List.{List, [], ◌∷◌, ◌++◌, append_assoc, append-nil, flatten}
use native.Mathlib.Omega.{arith}
use kbus.Prelude.Tests.{ltb, if◌then◌else◌}
use kbus.Prelude.Lists.{length, get_or, take, drop, replicate, length-append}
use kbus.Prelude.Tests.{Bool-cases}
use mathlib.Core.Logic.{inl, inr}

-- `min(a, b)`
abbrev pub lesser : ℕ → ℕ → ℕ
lesser a b = if ltb a b then a else b

module _ {ℓ} {A : Type ℓ} where
  pub take-append-drop : (n : ℕ) (xs : List A) → take n xs ++ drop n xs ≡ xs
  take-append-drop zero xs = refl
  take-append-drop (suc n) [] = refl
  take-append-drop (suc n) (x ∷ xs) = ap (◌∷◌ x) (take-append-drop n xs)

  pub length-take : (n : ℕ) (xs : List A) → length (take n xs) ≡ lesser n (length xs)
  length-take zero [] = refl
  length-take zero (x ∷ xs) = ground arith
  length-take (suc n) [] = ground arith
  length-take (suc n) (x ∷ xs) = ground (arith, length-take n xs)

  pub length-drop : (n : ℕ) (xs : List A) → length (drop n xs) ≡ length xs - n
  length-drop zero xs = omega arith
  length-drop (suc n) [] = omega arith
  length-drop (suc n) (x ∷ xs) = omega (arith, length-drop n xs)

  pub drop-nil : (n : ℕ) → drop {A = A} n [] ≡ []
  drop-nil zero = refl
  drop-nil (suc n) = refl

  pub drop-drop : (m n : ℕ) (xs : List A) → drop n (drop m xs) ≡ drop (m + n) xs
  drop-drop zero n xs = ap (λ k. drop k xs) (omega arith)
  drop-drop (suc m) n [] = drop-nil n ∙ sym (drop-nil (suc m + n))
  drop-drop (suc m) n (x ∷ xs) =
      let e : suc m + n ≡ suc (m + n) = omega arith in rw e (drop-drop m n xs)

  pub drop_all : (n : ℕ) (xs : List A) → length xs ≤ n → drop n xs ≡ []
  drop_all zero [] h = refl
  drop_all zero (x ∷ xs) h = absurd (omega arith)
  drop_all (suc n) [] h = refl
  drop_all (suc n) (x ∷ xs) h = drop_all n xs (omega arith)

  pub take_all : (n : ℕ) (xs : List A) → length xs ≤ n → take n xs ≡ xs
  take_all zero [] h = refl
  take_all zero (x ∷ xs) h = absurd (omega arith)
  take_all (suc n) [] h = refl
  take_all (suc n) (x ∷ xs) h = ap (◌∷◌ x) (take_all n xs (omega arith))

  -- Where a list is split, taking and dropping split with it.
  pub take-append : (n : ℕ) (xs ys : List A) → take (length xs + n) (xs ++ ys) ≡ xs ++ take n ys
  take-append n [] ys = ap (λ k. take k ys) (omega arith)
  take-append n (x ∷ xs) ys =
      let e : suc (length xs) + n ≡ suc (length xs + n) = omega arith in
      rw e (ap (◌∷◌ x) (take-append n xs ys))

  -- The piece at an index, and the pieces after it.
  pub flatten-drop :
      (n : ℕ) (pieces : List (List A))
      → flatten (drop n pieces) ≡ get_or pieces n [] ++ flatten (drop (suc n) pieces)
  unfolding flatten
  flatten-drop zero [] = refl
  flatten-drop zero (p ∷ ps) = refl
  flatten-drop (suc n) [] = refl
  flatten-drop (suc n) (p ∷ ps) = flatten-drop n ps

  pub flatten-append : (ps qs : List (List A)) → flatten (ps ++ qs) ≡ flatten ps ++ flatten qs
  unfolding flatten
  flatten-append [] qs = refl
  flatten-append (p ∷ ps) qs =
      ap (λ r. p ++ r) (flatten-append ps qs) ∙ sym (append_assoc p (flatten ps) (flatten qs))

  pub get_or_beyond : (xs : List A) (n : ℕ) (d : A) → length xs ≤ n → get_or xs n d ≡ d
  get_or_beyond [] n d h = refl
  get_or_beyond (x ∷ xs) zero d h = absurd (omega arith)
  get_or_beyond (x ∷ xs) (suc n) d h = get_or_beyond xs n d (omega arith)

  pub take_exact : (n : ℕ) (xs ys : List A) → length xs ≡ n → take n (xs ++ ys) ≡ xs
  take_exact n xs ys e = rw (sym e) (
      ap (λ k. take k (xs ++ ys)) (omega arith)
      ∙ (take-append 0 xs ys ∙ (ap (λ l. xs ++ l) (take_none ys) ∙ append-nil xs)))
    where
      take_none : (zs : List A) → take 0 zs ≡ []
      take_none zs = refl

  pub drop_exact : (n : ℕ) (xs ys : List A) → length xs ≡ n → drop n (xs ++ ys) ≡ ys
  drop_exact n [] ys e = rw (sym e) refl
  drop_exact zero (x ∷ xs) ys e = absurd (omega arith)
  drop_exact (suc n) (x ∷ xs) ys e = drop_exact n xs ys (omega arith)

  -- A split whose first piece has as many elements as were asked for, or all that there are.
  pub take_of_split :
      (n : ℕ) (all xs ys : List A)
      → all ≡ xs ++ ys
      → length xs ≡ lesser n (length all)
      → (xs ≡ take n all) × (ys ≡ drop n all)
  take_of_split n all xs ys split len =
      let both : length all ≡ length xs + length ys = rw split (length-append xs ys) in
      elim (Bool-cases (ltb n (length all))) [
        | inl fewer ↦
            let e : length xs ≡ n = ground arith in
            rw split (sym (take_exact n xs ys e), sym (drop_exact n xs ys e))
        | inr whole ↦
            let few : length all ≤ n = ground arith in
            let no_more : ys ≡ [] = drop_all 0 ys (ground arith) in
            let same : xs ≡ all =
              sym (append-nil xs) ∙ (ap (λ l. xs ++ l) (sym no_more) ∙ sym split) in
            (same ∙ sym (take_all n all few), no_more ∙ sym (drop_all n all few))
      ]

  pub take-replicate : (n m : ℕ) (a : A) → n ≤ m → take n (replicate m a) ≡ replicate n a
  take-replicate zero m a few = refl
  take-replicate (suc n) zero a few = absurd (omega arith)
  take-replicate (suc n) (suc m) a few = ap (◌∷◌ a) (take-replicate n m a (omega arith))

  pub take-take : (m n : ℕ) (xs : List A) → take m xs ++ take n (drop m xs) ≡ take (m + n) xs
  take-take zero n xs = ap (λ k. take k xs) (omega arith)
  take-take (suc m) n [] = take-nil n ∙ sym (take-nil (suc m + n))
    where
      take-nil : (k : ℕ) → take {A = A} k [] ≡ []
      take-nil zero = refl
      take-nil (suc k) = refl
  take-take (suc m) n (x ∷ xs) =
      let e : suc m + n ≡ suc (m + n) = omega arith in rw e (ap (◌∷◌ x) (take-take m n xs))

  -- The pieces before an index, the piece there, and those after it.
  pub length-flatten :
      (i : ℕ) (pieces : List (List A))
      → length (flatten pieces)
        ≡ length (flatten (take i pieces))
          + (length (get_or pieces i []) + length (flatten (drop (suc i) pieces)))
  length-flatten i pieces =
      ap (λ ps. length (flatten ps)) (sym (take_and_drop i pieces))
      ∙ (ap (length {A = A}) (flatten-append (take i pieces) (drop i pieces))
          ∙ (length-append (flatten (take i pieces)) (flatten (drop i pieces))
              ∙ ap (λ n. length (flatten (take i pieces)) + n)
                  (ap (length {A = A}) (flatten-drop i pieces)
                    ∙ length-append (get_or pieces i []) (flatten (drop (suc i) pieces)))))
    where
      take_and_drop : (n : ℕ) (ps : List (List A)) → take n ps ++ drop n ps ≡ ps
      take_and_drop zero ps = refl
      take_and_drop (suc n) [] = refl
      take_and_drop (suc n) (q ∷ ps) = ap (◌∷◌ q) (take_and_drop n ps)
