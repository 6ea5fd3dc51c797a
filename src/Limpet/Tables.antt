-- ===== src/Limpet/Tables.antt =====
-- libkbus/limpet.c: the table of requests that wait for a reply, as a map from ids to senders.
use kbus.Prelude.{
  ℕ, true, ◌≡◌, ◌↔◌, inl, inr, List, [], ◌∷◌, ◌==◌, if◌then◌else◌, arith, Bool-cases,
}
use kbus.Message.{MsgId}
use kbus.Limpet.Context.{
  RequestFrom, are_same, find_request_from, forget_request_from, remember_request_from,
}

-- Two ids are the same if they are equal.
pub are_same_iff : (a b : MsgId) → (are_same a b ≡ true) ↔ (a ≡ b)
unfolding are_same
are_same_iff a b = ground arith

-- Behind an entry there is none that gives its id a sender.
abbrev pub Distinct : List RequestFrom → Type 0
Distinct [] = Unit
Distinct (this ∷ rest) = (find_request_from rest this.id ≡ 0) × Distinct rest

-- A forgotten id is found no more, and every other id as before.
pub find-forget :
    (table : List RequestFrom) (id j : MsgId)
    → Distinct table
    → find_request_from (forget_request_from table id).0 j
      ≡ (if are_same j id then 0 else find_request_from table j)
unfolding find_request_from forget_request_from
find-forget [] id j d = ground arith
find-forget (this ∷ rest) id j (absent, d) = ground (
  arith,
  find-forget rest id j d,
  are_same_iff j id,
  are_same_iff id this.id,
  are_same_iff j this.id,
)

pub forget-Distinct :
    (table : List RequestFrom) (id : MsgId)
    → Distinct table
    → Distinct (forget_request_from table id).0
unfolding forget_request_from
forget-Distinct [] id d = tt
forget-Distinct (this ∷ rest) id (absent, d) = elim (Bool-cases (are_same id this.id)) [
  | inl here ↦ rw here d
  | inr there ↦
      rw there (ground (arith, find-forget rest id this.id d, absent), forget-Distinct rest id d)
]

pub remember-Distinct :
    (table : List RequestFrom) (id : MsgId) (from : ℕ)
    → Distinct table
    → Distinct (remember_request_from table id from).0
unfolding remember_request_from
remember-Distinct table id from d = elim (Bool-cases (find_request_from table id == 0)) [
  | inl absent ↦ rw absent (ground arith, d)
  | inr present ↦ rw present d
]
