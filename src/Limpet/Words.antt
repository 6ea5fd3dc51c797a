-- ===== src/Limpet/Words.antt =====
-- The words of a serialised message header, as the bytes that go over the network and back.
use kbus.Prelude.{
  ℕ, zero, suc, ◌*◌, ◌^◌, ◌<◌, ◌≤◌, ◌≡◌, refl, ap, ◌∙◌, sym, List, [], ◌∷◌, ◌++◌, flatten, length,
  All, arith, drop, take, drop-drop, length-drop, set,
}
use kbus.CString.{strncmp_eq, u32_bytes}
use kbus.Header.{u32_at}
use kbus.Limpet.Wire.{words_bytes, words_of}

-- A word is read back from its bytes, whatever follows them.
pub u32_at-u32_bytes : (w : ℕ) (rest : List ℕ) → w < 2 ^ 32 → u32_at (u32_bytes w ++ rest) 0 ≡ w
u32_at-u32_bytes w rest small = omega arith

pub words_of-words_bytes :
    (words rest : List ℕ)
    → All (λ w. w < 2 ^ 32) words
    → words_of (length words) (words_bytes words ++ rest) ≡ words
unfolding words_of words_bytes flatten
words_of-words_bytes [] rest small = refl
words_of-words_bytes (w ∷ words) rest (fits, small) =
    ap (λ x. x ∷ words_of (length words) (words_bytes words ++ rest))
      (u32_at-u32_bytes w (words_bytes words ++ rest) fits)
    ∙ ap (λ l. w ∷ l) (words_of-words_bytes words rest small)

pub length-words_bytes : (words : List ℕ) → length (words_bytes words) ≡ 4 * length words
unfolding words_bytes flatten
length-words_bytes [] = omega arith
length-words_bytes (w ∷ words) = omega (arith, length-words_bytes words)

-- Four bytes that are taken as a word are the bytes of that word.
u32_bytes-u32_at :
    (bytes : List ℕ)
    → All (λ b. b < 256) bytes
    → 4 ≤ length bytes
    → u32_bytes (u32_at bytes 0) ++ drop 4 bytes ≡ bytes
u32_bytes-u32_at [] small long = absurd (omega arith)
u32_bytes-u32_at (a ∷ []) small long = absurd (omega arith)
u32_bytes-u32_at (a ∷ b ∷ []) small long = absurd (omega arith)
u32_bytes-u32_at (a ∷ b ∷ c ∷ []) small long = absurd (omega arith)
u32_bytes-u32_at (a ∷ b ∷ c ∷ d ∷ rest) (p, (q, (r, (s, t)))) long = ground arith

pub All-drop :
    (n : ℕ) (bytes : List ℕ) → All (λ b. b < 256) bytes → All (λ b. b < 256) (drop n bytes)
All-drop zero bytes small = small
All-drop (suc n) [] small = tt
All-drop (suc n) (b ∷ bytes) small = All-drop n bytes small.1

drop_words : ℕ → List ℕ → List ℕ
drop_words zero bytes = bytes
drop_words (suc n) bytes = drop_words n (drop 4 bytes)

words_bytes-words_of :
    (n : ℕ) (bytes : List ℕ)
    → All (λ b. b < 256) bytes
    → 4 * n ≤ length bytes
    → words_bytes (words_of n bytes) ++ drop_words n bytes ≡ bytes
unfolding words_bytes words_of flatten drop_words
words_bytes-words_of zero bytes small long = refl
words_bytes-words_of (suc n) bytes small long =
    ap (λ l. u32_bytes (u32_at bytes 0) ++ l)
      (words_bytes-words_of n (drop 4 bytes) (All-drop 4 bytes small)
        (omega (arith, length-drop 4 bytes)))
    ∙ u32_bytes-u32_at bytes small (omega arith)

-- The words of a bind event and what follows them are its bytes.
pub event_whole :
    (event : List ℕ)
    → All (λ b. b < 256) event
    → 12 ≤ length event
    → words_bytes (words_of 3 event) ++ drop 12 event ≡ event
unfolding drop_words
event_whole event small long =
    ap (λ l. words_bytes (words_of 3 event) ++ l)
      (sym (ap (drop 4) (drop-drop 4 4 event) ∙ drop-drop 8 4 event))
    ∙ words_bytes-words_of 3 event small long

-- `strncmp` looks at no more bytes than it is told to.
pub strncmp_eq-take :
    (n : ℕ) (a other rest : List ℕ)
    → n ≤ length a
    → strncmp_eq n (take n a ++ rest) other ≡ strncmp_eq n a other
unfolding strncmp_eq
strncmp_eq-take zero a other rest long = refl
strncmp_eq-take (suc n) [] other rest long = absurd (omega arith)
strncmp_eq-take (suc n) (c ∷ a) [] rest long = refl
strncmp_eq-take (suc n) (c ∷ a) (d ∷ other) rest long =
    ground (arith, strncmp_eq-take n a other rest)

-- A zero byte that is put where one is changes nothing.
pub set-append : (xs ys : List ℕ) → set (xs ++ 0 ∷ ys) (length xs) 0 ≡ xs ++ 0 ∷ ys
set-append [] ys = refl
set-append (x ∷ xs) ys = ap (λ l. x ∷ l) (set-append xs ys)
