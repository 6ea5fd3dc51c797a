-- ===== src/Libkbus/Sizes.antt =====
-- libkbus/libkbus.c: the size of a message.
use kbus.Prelude.{
  ltb, ap, ◌≤◌, ℕ, ◌+◌, ◌%◌, ◌^◌, ◌<◌, ◌≡◌, ◌≢◌, ◌↔◌, inl, inr, none, arith, ◌==◌, Bool-cases,
  ==_iff,
}
use kbus.Size.{entire_msg_len}
use kbus.Header.{header_size}
use kbus.Libkbus.Messages.{UserMsg, pos, to_int, msg_sizeof}

-- The two lengths may be exchanged just if the same of them are multiples of four.
exchanged :
    (n d : ℕ)
    → n + 4 < 2 ^ 32
    → d + 4 < 2 ^ 32
    → (entire_msg_len header_size d n ≡ entire_msg_len header_size n d)
      ↔ ((n % 4 ≡ 0) ↔ (d % 4 ≡ 0))
unfolding entire_msg_len
exchanged n d small_n small_d = (
  λ same. (λ whole. omega arith, λ whole. omega arith),
  λ both. elim (Bool-cases (n % 4 == 0)) [
    | inl whole ↦
        let d_whole = both.0 ((==_iff (n % 4) 0).0 whole) in
        let n_whole = (==_iff (n % 4) 0).0 whole in omega arith
    | inr broken ↦ elim (Bool-cases (d % 4 == 0)) [
      | inl whole ↦ absurd (ground (arith, both.1 ((==_iff (d % 4) 0).0 whole)))
      | inr odd ↦
          let n_odd : n % 4 ≢ 0 = ground arith in
          let d_odd : d % 4 ≢ 0 = ground arith in omega arith
    ]
  ],
)

unpos : {a b : ℕ} → pos a ≡ pos b → a ≡ b
unpos same = cc

-- An `int` is a number that is not negative just if that is the low 32 bits, and its sign bit is 0.
to_int-pos : (n m : ℕ) → (to_int n ≡ pos m) ↔ ((n % 2 ^ 32 ≡ m) × (m < 2 ^ 31))
to_int-pos n m = elim (Bool-cases (ltb (n % 2 ^ 32) (2 ^ 31))) [
  | inl fits ↦
      rw fits (
        (λ same. let low = unpos same in (low, ground (arith, fits, low))),
        (λ both. ap pos both.0),
      )
  | inr wraps ↦
      rw wraps ((λ same. absurd (cc)), (λ both. absurd (ground (arith, wraps, both.0, both.1))))
]

-- The two lengths of a message are nearly the same.
exchanged_close :
    (n d : ℕ)
    → n + 4 < 2 ^ 32
    → d + 4 < 2 ^ 32
    → (entire_msg_len header_size d n ≤ entire_msg_len header_size n d + 4)
      × (entire_msg_len header_size n d ≤ entire_msg_len header_size d n + 4)
unfolding entire_msg_len
exchanged_close n d small_n small_d = (omega arith, omega arith)

-- What kbus_msg_sizeof, which returns an `int`, returns of an entire message is the number of its
-- bytes just if that number is less than 2^31 and the lengths of its name and of its data are both
-- multiples of four, or neither is. (They are not at the end of the range of a u32.)
pub msg_sizeof_iff :
    (msg : UserMsg)
    → msg.name ≡ none
    → msg.name_len + 4 < 2 ^ 32
    → msg.data_len + 4 < 2 ^ 32
    → (msg_sizeof msg ≡ pos (entire_msg_len header_size msg.name_len msg.data_len)) ↔ (
        (entire_msg_len header_size msg.name_len msg.data_len < 2 ^ 31)
        × ((msg.name_len % 4 ≡ 0) ↔ (msg.data_len % 4 ≡ 0)))
unfolding msg_sizeof
msg_sizeof_iff msg entire small_name small_data =
    let n = msg.name_len in
    let d = msg.data_len in
    let whole = entire_msg_len header_size n d in
    let same = exchanged n d small_name small_data in
    let close = exchanged_close n d small_name small_data in
    let as_int = to_int-pos (entire_msg_len header_size d n) whole in
    rw entire (
      (λ right.
          let (low, fits) = as_int.0 right in
          (fits, same.0 (omega (arith, low, fits, close.0, close.1)))),
      (λ (fits, both). as_int.1 (omega (arith, same.1 both, fits), fits)),
    )
