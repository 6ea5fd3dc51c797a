-- ===== src/Libkbus/Whole.antt =====
-- libkbus/libkbus.c: reading a message in one piece and in several, and writing one.
use kbus.Prelude.{
  ltb, ℕ, suc, ◌+◌, ◌^◌, ◌<◌, ◌≤◌, ◌≡◌, ◌≢◌, ap, ◌∙◌, true, false, some, List, [], ◌++◌, ◌==◌,
  length, take, arith,
}
use kbus.Errno.{Result, ok, err, ebadmsg}
use kbus.Libkbus.Transfers.{message, negative, sub_size, read_msg_loop, ksock_read_msg}

module _ {W : Type 0} (read : W → ℕ → ℕ → W × Result (List ℕ)) where
  -- A round that reads some bytes, one that reads none, and the end of the loop.
  read_round :
      (fuel : ℕ) (w w' : W) (ksock size msg_len so_far : ℕ) (buf bytes : List ℕ)
      → msg_len ≢ 0
      → read w ksock (sub_size msg_len so_far) ≡ (w', ok bytes)
      → 0 < length bytes
      → so_far + length bytes ≤ size
      → read_msg_loop read (suc fuel) w ksock size msg_len so_far buf
        ≡ read_msg_loop read fuel w' ksock size
            (sub_size msg_len (length bytes))
            (so_far + length bytes)
            (buf ++ bytes)
  unfolding read_msg_loop
  read_round fuel w w' ksock size msg_len so_far buf bytes more given some_bytes room =
      let going : (msg_len == 0) ≡ false = ground arith in
      let filled : (length bytes == 0) ≡ false = ground arith in
      let fits : ltb size (so_far + length bytes) ≡ false = ground arith in
      rw (going, ap (λ p. p.1) given, filled, fits)
        (ap
          (λ p.
            read_msg_loop read fuel p.0 ksock size (sub_size msg_len (length bytes))
              (so_far + length bytes) (buf ++ bytes))
          given)

  read_nothing :
      (fuel : ℕ) (w w' : W) (ksock size msg_len so_far : ℕ) (buf : List ℕ)
      → msg_len ≢ 0
      → read w ksock (sub_size msg_len so_far) ≡ (w', ok [])
      → read_msg_loop read (suc fuel) w ksock size msg_len so_far buf ≡ some (w', negative ebadmsg)
  unfolding read_msg_loop
  read_nothing fuel w w' ksock size msg_len so_far buf more given =
      let going : (msg_len == 0) ≡ false = ground arith in
      rw (going, ap (λ p. p.1) given) (ap (λ p. some (p.0, negative ebadmsg)) given)

  read_end :
      (fuel : ℕ) (w : W) (ksock size msg_len so_far : ℕ) (buf : List ℕ)
      → msg_len ≡ 0
      → read_msg_loop read (suc fuel) w ksock size msg_len so_far buf ≡ some (w, message buf)
  unfolding read_msg_loop
  read_end fuel w ksock size msg_len so_far buf done =
      let over : (msg_len == 0) ≡ true = ground arith in rw over

  -- Where one read gives all the bytes, they are the message.
  pub read_msg_whole :
      (fuel : ℕ) (w w' : W) (ksock msg_len : ℕ) (bytes : List ℕ)
      → 0 < msg_len
      → msg_len < 2 ^ 64
      → read w ksock msg_len ≡ (w', ok bytes)
      → length bytes ≡ msg_len
      → ksock_read_msg read (suc (suc fuel)) w ksock msg_len ≡ some (w', message bytes)
  unfolding ksock_read_msg
  read_msg_whole fuel w w' ksock msg_len bytes more small given all =
      let asked : sub_size msg_len 0 ≡ msg_len = omega arith in
      let left : sub_size msg_len (length bytes) ≡ 0 = omega arith in
      read_round (suc fuel) w w' ksock msg_len msg_len 0 [] bytes (omega arith)
        (ap (read w ksock) asked ∙ given) (omega arith) (omega arith)
      ∙ read_end fuel w' ksock msg_len _ (0 + length bytes) bytes left

  -- Where the first read gives just half of the bytes, kbus_ksock_read_msg asks for no more of them
  -- and fails with EBADMSG. (A read of no bytes gives none.)
  pub read_msg_half :
      (fuel : ℕ) (w w' w'' : W) (ksock k : ℕ) (bytes : List ℕ)
      → 0 < k
      → k + k < 2 ^ 64
      → read w ksock (k + k) ≡ (w', ok bytes)
      → length bytes ≡ k
      → read w' ksock 0 ≡ (w'', ok [])
      → ksock_read_msg read (suc (suc fuel)) w ksock (k + k) ≡ some (w'', negative ebadmsg)
  unfolding ksock_read_msg
  read_msg_half fuel w w' w'' ksock k bytes more small given half none_left =
      let asked : sub_size (k + k) 0 ≡ k + k = omega arith in
      let left : sub_size (k + k) (length bytes) ≡ k = omega arith in
      let no_more : sub_size (sub_size (k + k) (length bytes)) (0 + length bytes) ≡ 0 =
        omega arith in
      read_round (suc fuel) w w' ksock (k + k) (k + k) 0 [] bytes (omega arith)
        (ap (read w ksock) asked ∙ given) (omega arith) (omega arith)
      ∙ read_nothing fuel w' w'' ksock (k + k) _ (0 + length bytes) bytes (omega arith)
          (ap (read w' ksock) no_more ∙ none_left)

-- A `write` that takes some of the bytes that it is given, where it does not fail: `taken` is all that
-- has been taken.
pub record Takes {W : Type 0} (write : W → ℕ → List ℕ → W × Result ℕ) (ksock : ℕ) : Type 0 where
  pub taken : W → List ℕ
  pub some_taken :
      (w : W) (bytes : List ℕ) (n : ℕ)
      → 0 < length bytes
      → (write w ksock bytes).1 ≡ ok n
      → (0 < n) × (n ≤ length bytes) × (taken (write w ksock bytes).0 ≡ taken w ++ take n bytes)

module _ {W : Type 0} (write : W → ℕ → List ℕ → W × Result ℕ) (ksock : ℕ)
    (T : Takes write ksock) where
  -- What the loop over `write` comes to.
  abbrev pub Written : W → List ℕ → W × Result (Unit {0}) → Type 0
  Written w bytes (w', ok u) = T.taken w' ≡ T.taken w ++ bytes
  Written w bytes (w', err e) = Unit
