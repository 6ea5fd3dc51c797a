-- ===== src/Device/Store.antt =====
-- The laws of the list of Ksocks of kbus/kbus_main.c, seen as a store that ids lead into.
use kbus.Prelude.{
  ℕ, ◌≡◌, inl, inr, subst, some, List, [], ◌∷◌, arith, ◌==◌, if◌then◌else◌, All, All-imp,
  Bool-cases,
}
use mathlib.Core.Option
use kbus.Ksock.Records.{Ksock}
use kbus.Device.{find_ksock, update_ksock}

-- A change that leaves a Ksock its id.
abbrev pub KeepsId : (Ksock → Ksock) → Type 0
KeepsId f = (k : Ksock) → (f k).id ≡ k.id

-- What is found after one Ksock has been changed.
pub find_ksock-update :
    (i j : ℕ) (f : Ksock → Ksock) (ks : List Ksock)
    → KeepsId f
    → find_ksock j (update_ksock i f ks)
      ≡ (if i == j then Option.map f (find_ksock j ks) else find_ksock j ks)
unfolding find_ksock update_ksock
find_ksock-update i j f [] keeps = ground arith
find_ksock-update i j f (k ∷ ks) keeps = ground (arith, keeps k, find_ksock-update i j f ks keeps)

-- A change that gives a property `Q` where there was `P`, which implies it.
pub All-update_imp {ℓ κ} :
    (P : Ksock → Type ℓ) (Q : Ksock → Type κ) (i : ℕ) (f : Ksock → Ksock) (ks : List Ksock)
    → ((k : Ksock) → P k → Q (f k))
    → ((k : Ksock) → P k → Q k)
    → All P ks
    → All Q (update_ksock i f ks)
unfolding update_ksock
All-update_imp P Q i f [] gives implies all = tt
All-update_imp P Q i f (k ∷ ks) gives implies all = elim (Bool-cases (i == k.id)) [
  | inl here ↦ rw here (gives k all.0, All-imp P Q ks implies all.1)
  | inr there ↦ rw there (implies k all.0, All-update_imp P Q i f ks gives implies all.1)
]

-- A property of every Ksock on the list survives a change that keeps it.
pub All-update {ℓ} :
    (P : Ksock → Type ℓ) (i : ℕ) (f : Ksock → Ksock) (ks : List Ksock)
    → ((k : Ksock) → P k → P (f k))
    → All P ks
    → All P (update_ksock i f ks)
All-update P i f ks keeps = All-update_imp P P i f ks keeps (λ k h. h)

-- What holds of every Ksock holds of the one that is found.
pub All-find {ℓ} :
    (P : Ksock → Type ℓ) (i : ℕ) (ks : List Ksock) {k : Ksock}
    → All P ks
    → find_ksock i ks ≡ some k
    → P k
unfolding find_ksock
All-find P i [] all e = cc
All-find P i (k ∷ ks) all e = elim (Bool-cases (i == k.id)) [
  | inl here ↦ subst P (Option.some-injective k _ (rw here at e)) all.0
  | inr there ↦ All-find P i ks all.1 (rw there at e)
]
