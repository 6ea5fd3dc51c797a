-- ===== src/Writing/Layout.antt =====
-- Where the bytes of a message's data stand in parts of given lengths.
use kbus.Prelude.{
  ℕ, zero, suc, ◌+◌, ◌≤◌, ◌<◌, ◌≡◌, ◌∙◌, refl, sym, ap, inl, inr, Bool, true, false, List, [], ◌∷◌,
  ◌++◌, arith, ltb, ◌==◌, if◌then◌else◌, length, get_or, set, replicate, take, drop, flatten,
  take_all, drop_all, drop-nil, length-append, length-drop, length-take, take-append-drop,
  Bool-cases, All,
}

-- The bytes cut into parts, each full before the next is begun.
abbrev pub layout : List ℕ → List ℕ → List (List ℕ)
layout [] bytes = []
layout (room ∷ rooms) bytes = take room bytes ∷ layout rooms (drop room bytes)

-- The first part that is not full.
abbrev pub filled : List ℕ → List ℕ → ℕ
filled [] bytes = 0
filled (room ∷ rooms) bytes =
    if ltb (length bytes) room then 0 else suc (filled rooms (drop room bytes))

abbrev pub total : List ℕ → ℕ
total [] = 0
total (room ∷ rooms) = room + total rooms

-- No part is without room.
abbrev pub Roomy : List ℕ → Type 0
Roomy rooms = All (λ room. 0 < room) rooms

pub take-append_few : (n : ℕ) (xs ys : List ℕ) → n ≤ length xs → take n (xs ++ ys) ≡ take n xs
take-append_few zero xs ys few = refl
take-append_few (suc n) [] ys few = absurd (omega arith)
take-append_few (suc n) (x ∷ xs) ys few = ap (◌∷◌ x) (take-append_few n xs ys (omega arith))

pub drop-append_few : (n : ℕ) (xs ys : List ℕ) → n ≤ length xs → drop n (xs ++ ys) ≡ drop n xs ++ ys
drop-append_few zero xs ys few = refl
drop-append_few (suc n) [] ys few = absurd (omega arith)
drop-append_few (suc n) (x ∷ xs) ys few = drop-append_few n xs ys (omega arith)

pub length-layout : (rooms bytes : List ℕ) → length (layout rooms bytes) ≡ length rooms
length-layout [] bytes = refl
length-layout (room ∷ rooms) bytes = omega (arith, length-layout rooms (drop room bytes))

-- Bytes that fit are all there, in order.
pub flatten-layout :
    (rooms bytes : List ℕ) → length bytes ≤ total rooms → flatten (layout rooms bytes) ≡ bytes
unfolding flatten
flatten-layout [] bytes fit = sym (drop_all 0 bytes fit)
flatten-layout (room ∷ rooms) bytes fit =
    ap (λ l. take room bytes ++ l)
      (flatten-layout rooms (drop room bytes) (omega (arith, length-drop room bytes)))
    ∙ take-append-drop room bytes

pub filled-nil : (rooms : List ℕ) → Roomy rooms → filled rooms [] ≡ 0
filled-nil [] roomy = refl
filled-nil (room ∷ rooms) roomy = ground arith

-- There is a part to go on with as long as there is room.
pub filled-in :
    (rooms bytes : List ℕ)
    → Roomy rooms
    → length bytes < total rooms
    → filled rooms bytes < length rooms
filled-in [] bytes roomy fit = absurd (omega arith)
filled-in (room ∷ rooms) bytes roomy fit = elim (Bool-cases (ltb (length bytes) room)) [
  | inl short ↦ rw short (omega arith)
  | inr full ↦ rw full (
      omega
        (arith, filled-in rooms (drop room bytes) roomy.1 (ground (arith, length-drop room bytes))))
]

suc-next : (b : Bool) (i : ℕ) → suc (if b then i + 1 else i) ≡ (if b then suc i + 1 else suc i)
suc-next true i = omega arith
suc-next false i = refl

-- More bytes go to the part that is being filled, as many as it has room for.
pub layout-more :
    (rooms bytes more : List ℕ)
    → Roomy rooms
    → filled rooms bytes < length rooms
    → length more + length (get_or (layout rooms bytes) (filled rooms bytes) [])
      ≤ get_or rooms (filled rooms bytes) 0
    → let ii = filled rooms bytes in
      let part = get_or (layout rooms bytes) ii [] ++ more in
      (layout rooms (bytes ++ more) ≡ set (layout rooms bytes) ii part)
      × (filled rooms (bytes ++ more) ≡ (if length part == get_or rooms ii 0 then ii + 1 else ii))
layout-more [] bytes more roomy inside room = absurd (omega arith)
layout-more (size ∷ rooms) bytes more roomy inside room =
    elim (Bool-cases (ltb (length bytes) size)) [
      | inl short ↦
          let fits : length more + length (take size bytes) ≤ size = rw short at room in
          let all : take size bytes ≡ bytes = take_all size bytes (ground arith) in
          let rest : drop size bytes ≡ [] = drop_all size bytes (ground arith) in
          let both : length (bytes ++ more) ≤ size =
            omega (arith, length-append bytes more, ap (length {A = ℕ}) all) in
          let rest' : drop size (bytes ++ more) ≡ [] = drop_all size (bytes ++ more) both in
          let here : take size (bytes ++ more) ≡ take size bytes ++ more =
            take_all size (bytes ++ more) both ∙ ap (λ l. l ++ more) (sym all) in
          rw (short, rest, rest')
            (ap (λ l. l ∷ layout rooms []) here, rw (filled-nil rooms roomy.1, all) (ground arith))
      | inr full ↦
          let few : size ≤ length bytes = ground arith in
          let longer : ltb (length (bytes ++ more)) size ≡ false =
            ground (arith, length-append bytes more) in
          let here = take-append_few size bytes more few in
          let rest = drop-append_few size bytes more few in
          let inside' : suc (filled rooms (drop size bytes)) < suc (length rooms) =
            rw full at inside in
          let ih =
            layout-more rooms (drop size bytes) more roomy.1 (omega arith) (rw full at room) in
          rw (full, longer, here, rest)
            (
              ap (◌∷◌ (take size bytes)) ih.0,
              ap suc ih.1
                  ∙ suc-next
                      (length (
                          get_or (layout rooms (drop size bytes)) (filled rooms (drop size bytes))
                            []
                          ++ more)
                        == get_or rooms (filled rooms (drop size bytes)) 0)
                      (filled rooms (drop size bytes)),
            )
    ]

-- No part holds more than it has room for.
pub layout-within :
    (rooms bytes : List ℕ) (i : ℕ) → length (get_or (layout rooms bytes) i []) ≤ get_or rooms i 0
layout-within [] bytes i = omega arith
layout-within (room ∷ rooms) bytes zero = ground (arith, length-take room bytes)
layout-within (room ∷ rooms) bytes (suc i) = layout-within rooms (drop room bytes) i

pub layout-nil : (rooms : List ℕ) → layout rooms [] ≡ replicate (length rooms) []
layout-nil [] = refl
layout-nil (room ∷ rooms) =
    rw (take-nil room, drop-nil {A = ℕ} room) (ap (◌∷◌ []) (layout-nil rooms))
  where
    take-nil : (n : ℕ) → take {A = ℕ} n [] ≡ []
    take-nil n = take_all n [] (omega arith)
