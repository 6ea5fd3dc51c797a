-- ===== src/Errno.antt =====
-- The negative return values of kbus/kbus_main.c, and functions that return them.
use kbus.Prelude.{◌≡◌, refl, ◌⊎◌, inl, inr}

pub data Errno : Type 0 where
  eagain ebusy eaddrnotavail econnrefused epipe eaddrinuse einval ebadmsg enametoolong : Errno
  emsgsize enomsg enolck ealready efault enotty eintr : Errno

-- What an `int` function returns: one of the errors, or 0 (or a count).
pub data Result {ℓ} (X : Type ℓ) : Type ℓ where
  err : Errno → Result X
  ok : X → Result X

abbrev pub success : Result (Unit {0})
success = ok tt

-- `goto done` with the first error.
infixl 6 ◌>>=◌
abbrev pub ◌>>=◌ {ℓ m} : {X : Type ℓ} {Y : Type m} (r : Result X) (next : X → Result Y) → Result Y
r >>= next = elim r [ err e ↦ err e | ok x ↦ next x ]

infixl 6 ◌>>◌
abbrev pub ◌>>◌ {ℓ m} : {X : Type ℓ} {Y : Type m} (check : Result X) (rest : Result Y) → Result Y
check >> rest = elim check [ err e ↦ err e | ok _ ↦ rest ]

pub Result-cases {ℓ} :
    {X : Type ℓ} (r : Result X) → ((x : X) × (r ≡ ok x)) ⊎ ((e : Errno) × (r ≡ err e))
Result-cases (err e) = inr (e, refl)
Result-cases (ok x) = inl (x, refl)

-- A chain that succeeds has succeeded at its first step, and then at the rest.
pub >>=-ok {ℓ m} :
    {X : Type ℓ} {Y : Type m} {y : Y} (r : Result X) (next : X → Result Y)
    → r >>= next ≡ ok y
    → (x : X) × (r ≡ ok x) × (next x ≡ ok y)
>>=-ok (err e) next succeeded = absurd (cc)
>>=-ok (ok x) next succeeded = (x, refl, succeeded)
