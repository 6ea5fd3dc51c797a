-- ===== src/Limpet/Streams.antt =====
-- A reliable connection between two limpets: what is sent arrives, in order and whole.
use kbus.Prelude.{
  ℕ, zero, suc, true, length-append, ◌≤◌, ◌≡◌, refl, ap, ◌∙◌, sym, Option, some, List, [], ◌++◌,
  ◌==◌, ltb, length, take, drop, replicate, take_exact, drop_exact, append-nil, append_assoc, arith,
}
use kbus.Limpet.Wire.{Socket, ◌>>=◌, send_padding, recv_whole}

-- `pending` is what has been sent and not yet received. This is what a stream socket promises where
-- neither end closes it or is interrupted.
pub record IsReliable (S : Socket) : Type 0 where
  pub pending : S.State → List ℕ
  pub send-pending :
      (s : S.State) (bytes : List ℕ)
      → (s' : S.State) × (S.send s bytes ≡ some s') × (pending s' ≡ pending s ++ bytes)
  pub recv-pending :
      (s : S.State) (n : ℕ)
      → n ≤ length (pending s)
      → ((S.recv s n).1 ≡ take n (pending s)) × (pending (S.recv s n).0 ≡ drop n (pending s))

module _ (S : Socket) (R : IsReliable S) where
  -- A function that sends these bytes.
  abbrev pub Sends : (S.State → Option S.State) → List ℕ → Type 0
  Sends send bytes =
      (s : S.State) → (s' : S.State) × (send s ≡ some s') × (R.pending s' ≡ R.pending s ++ bytes)

  pub send-Sends : (bytes : List ℕ) → Sends (λ s. S.send s bytes) bytes
  send-Sends bytes s = R.send-pending s bytes

  pub nothing-Sends : Sends (λ s. some s) []
  nothing-Sends s = (s, refl, sym (append-nil (R.pending s)))

  pub >>=-Sends :
      (f g : S.State → Option S.State) (xs ys : List ℕ)
      → Sends f xs
      → Sends g ys
      → Sends (λ s. f s >>= g) (xs ++ ys)
  >>=-Sends f g xs ys first second s =
      let a = first s in
      let b = second a.0 in
      (
        b.0,
        ap (λ o. o >>= g) a.1 ∙ b.1,
        b.2 ∙ ap (λ p. p ++ ys) a.2 ∙ append_assoc (R.pending s) xs ys,
      )

  pub padding-Sends : (n : ℕ) → Sends (λ s. send_padding S s n) (replicate n 0)
  unfolding send_padding
  padding-Sends zero s = (s, refl, sym (append-nil (R.pending s)))
  padding-Sends (suc n) s =
      let more : ltb 0 (suc n) ≡ true = ground arith in
      rw more (R.send-pending s (replicate (suc n) 0))

  -- What comes next is received whole.
  pub recv_whole_lem :
      (s : S.State) (n : ℕ) (bytes rest : List ℕ)
      → R.pending s ≡ bytes ++ rest
      → length bytes ≡ n
      → ((recv_whole S s n).1 ≡ some bytes) × (R.pending (recv_whole S s n).0 ≡ rest)
  unfolding recv_whole
  recv_whole_lem s n bytes rest next long =
      let all_there : n ≤ length (R.pending s) =
        omega (arith, ap length next, length-append {0} bytes rest) in
      let received = R.recv-pending s n all_there in
      let got = received.0 ∙ ap (take n) next ∙ take_exact n bytes rest long in
      let whole : (length bytes == n) ≡ true = ground arith in
      (rw got (rw whole), received.1 ∙ ap (drop n) next ∙ drop_exact n bytes rest long)
