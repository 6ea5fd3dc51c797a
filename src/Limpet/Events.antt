-- ===== src/Limpet/Events.antt =====
-- libkbus/limpet.c: the words of a bind event on their way over the network, in network order.
use kbus.Prelude.{
  length-append, length-drop, ℕ, zero, suc, ◌+◌, ◌^◌, ◌<◌, ◌≤◌, ◌≡◌, refl, ap, ◌∙◌, sym, List, [],
  ◌∷◌, ◌++◌, map, append_assoc, length, All, arith, drop, take, take-append, take-take, take_exact,
  drop_exact,
}
use kbus.Header.{u32_at}
use kbus.Limpet.Wire.{words_bytes, words_of, convert_event}
use kbus.Limpet.Words.{words_of-words_bytes, length-words_bytes, event_whole, All-drop}

-- What `htonl` and `ntohl` do for a program: words stay words, and come back as they were.
pub record IsByteOrder (htonl ntohl : ℕ → ℕ) : Type 0 where
  pub fits : (w : ℕ) → w < 2 ^ 32 → htonl w < 2 ^ 32
  pub back : (w : ℕ) → w < 2 ^ 32 → ntohl (htonl w) ≡ w

u32_at_small : (bytes : List ℕ) → All (λ b. b < 256) bytes → u32_at bytes 0 < 2 ^ 32
u32_at_small [] small = omega arith
u32_at_small (a ∷ []) (p, q) = omega arith
u32_at_small (a ∷ b ∷ []) (p, (q, r)) = omega arith
u32_at_small (a ∷ b ∷ c ∷ []) (p, (q, (r, s))) = omega arith
u32_at_small (a ∷ b ∷ c ∷ d ∷ rest) (p, (q, (r, (s, t)))) = omega arith

words_of_small :
    (n : ℕ) (bytes : List ℕ) → All (λ b. b < 256) bytes → All (λ w. w < 2 ^ 32) (words_of n bytes)
unfolding words_of
words_of_small zero bytes small = tt
words_of_small (suc n) bytes small =
    (u32_at_small bytes small, words_of_small n (drop 4 bytes) (All-drop 4 bytes small))

length-words_of : (n : ℕ) (bytes : List ℕ) → length (words_of n bytes) ≡ n
unfolding words_of
length-words_of zero bytes = refl
length-words_of (suc n) bytes = ap suc (length-words_of n (drop 4 bytes))

pub length-map_words : (f : ℕ → ℕ) (words : List ℕ) → length (map f words) ≡ length words
length-map_words f [] = refl
length-map_words f (w ∷ words) = ap suc (length-map_words f words)

-- Nothing is lost.
pub length-convert_event :
    (f : ℕ → ℕ) (event : List ℕ) → length event ≤ length (convert_event f event)
unfolding convert_event
length-convert_event f event =
    let words = map f (words_of 3 event) in
    omega (
      arith,
      length-append {0} (words_bytes words) (drop 12 event),
      length-words_bytes words,
      length-map_words f (words_of 3 event),
      length-words_of 3 event,
      length-drop {0} 12 event,
    )

module _ (htonl ntohl : ℕ → ℕ) (O : IsByteOrder htonl ntohl) where
  pub fit_words :
      (words : List ℕ) → All (λ w. w < 2 ^ 32) words → All (λ w. w < 2 ^ 32) (map htonl words)
  fit_words [] small = tt
  fit_words (w ∷ words) (fits, small) = (O.fits w fits, fit_words words small)

  pub words_back :
      (words : List ℕ) → All (λ w. w < 2 ^ 32) words → map ntohl (map htonl words) ≡ words
  words_back [] small = refl
  words_back (w ∷ words) (fits, small) =
      ap (λ x. x ∷ map ntohl (map htonl words)) (O.back w fits)
      ∙ ap (λ l. w ∷ l) (words_back words small)

  -- What is read of an event that starts with these words.
  converted :
      (f : ℕ → ℕ) (words rest : List ℕ)
      → length words ≡ 3
      → All (λ w. w < 2 ^ 32) words
      → convert_event f (words_bytes words ++ rest) ≡ words_bytes (map f words) ++ rest
  unfolding convert_event
  converted f words rest three small =
      let bytes = words_bytes words ++ rest in
      let long : length (words_bytes words) ≡ 12 = omega (arith, length-words_bytes words) in
      let read : words_of 3 bytes ≡ words =
        ap (λ n. words_of n bytes) (sym three) ∙ words_of-words_bytes words rest small in
      ap (λ l. words_bytes (map f l) ++ drop 12 bytes) read
      ∙ ap (λ l. words_bytes (map f words) ++ l) (drop_exact 12 (words_bytes words) rest long)

  first_words :
      (event : List ℕ)
      → All (λ b. b < 256) event
      → 12 ≤ length event
      → take 12 event ≡ words_bytes (words_of 3 event)
  first_words event small long =
      let words = words_of 3 event in
      let twelve : length (words_bytes words) ≡ 12 =
        omega (arith, length-words_bytes words, length-words_of 3 event) in
      ap (take 12) (sym (event_whole event small long))
      ∙ take_exact 12 (words_bytes words) (drop 12 event) twelve

  -- An event whose words are sent in network order, and what follows it, are read as they were.
  pub convert_event_back :
      (event after : List ℕ) (k : ℕ)
      → All (λ b. b < 256) event
      → 12 ≤ length event
      → convert_event ntohl (take (12 + k) (convert_event htonl event) ++ after)
        ≡ take (12 + k) event ++ after
  unfolding convert_event
  convert_event_back event after k small long =
      let words = words_of 3 event in
      let sent = map htonl words in
      let tail = take k (drop 12 event) in
      let fit = words_of_small 3 event small in
      let three : length sent ≡ 3 = length-map_words htonl words ∙ length-words_of 3 event in
      let twelve : length (words_bytes sent) ≡ 12 = omega (arith, length-words_bytes sent) in
      let cut : take (12 + k) (words_bytes sent ++ drop 12 event) ≡ words_bytes sent ++ tail =
        ap (λ n. take (n + k) (words_bytes sent ++ drop 12 event)) (sym twelve)
        ∙ take-append k (words_bytes sent) (drop 12 event) in
      ap (λ l. convert_event ntohl (l ++ after)) cut
      ∙ ap (convert_event ntohl) (append_assoc (words_bytes sent) tail after)
      ∙ converted ntohl sent (tail ++ after) three (fit_words words fit)
      ∙ ap (λ l. words_bytes l ++ (tail ++ after)) (words_back words fit)
      ∙ ap (λ l. l ++ (tail ++ after)) (sym (first_words event small long))
      ∙ sym (append_assoc (take 12 event) tail after)
      ∙ ap (λ l. l ++ after) (take-take 12 k event)
