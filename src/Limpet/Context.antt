-- ===== src/Limpet/Context.antt =====
-- struct kbus_limpet_context of libkbus/limpet.c with its two tables: who replies to a name behind
-- the other limpet, and who sent a request that waits for its reply. A C list is a list, and
-- allocation succeeds.
use kbus.Prelude.{ℕ, Bool, true, false, not, List, [], ◌∷◌, ◌==◌, if◌then◌else◌}
use Prim.Native.Nat.{Ordering}
use kbus.CString.{strcmp_eq}
use kbus.Message.{MsgId}
use kbus.Libkbus.Messages.{compare_ids}

pub record ReplierFor : Type 0 where
  pub name : List ℕ
  pub binder : ℕ

pub record RequestFrom : Type 0 where
  pub id : MsgId
  pub from : ℕ

pub record Context : Type 0 where
  pub ksock : ℕ
  pub ksock_id : ℕ
  pub network_id : ℕ
  pub other_network_id : ℕ
  pub message_name : List ℕ
  pub replier_for : List ReplierFor
  pub request_from : List RequestFrom
  pub verbosity : ℕ

-- find_replier_for
unfoldable pub find_replier_for : List ReplierFor → List ℕ → ℕ
find_replier_for [] name = 0
find_replier_for (this ∷ rest) name =
    if strcmp_eq name this.name then this.binder else find_replier_for rest name

-- forget_replier_for: the table, and whether it returns 0.
unfoldable pub forget_replier_for : List ReplierFor → List ℕ → List ReplierFor × Bool
forget_replier_for [] name = ([], false)
forget_replier_for (this ∷ rest) name =
    let (rest', found) = forget_replier_for rest name in
    if strcmp_eq name this.name then (rest, true) else (this ∷ rest', found)

-- remember_replier_for
unfoldable pub remember_replier_for : List ReplierFor → List ℕ → ℕ → List ReplierFor × Bool
unfolding find_replier_for
remember_replier_for table name binder =
    if not (find_replier_for table name == 0)
    then (table, false)
    else (record { name = name; binder = binder } ∷ table, true)

-- `!kbus_msg_compare_ids(&id1, &id2)`
unfoldable pub are_same : MsgId → MsgId → Bool
unfolding compare_ids
are_same id1 id2 = elim (compare_ids id1 id2) [ Ordering.eq ↦ true | _ ↦ false ]

-- find_request_from
unfoldable pub find_request_from : List RequestFrom → MsgId → ℕ
find_request_from [] id = 0
find_request_from (this ∷ rest) id =
    if are_same id this.id then this.from else find_request_from rest id

-- forget_request_from
unfoldable pub forget_request_from : List RequestFrom → MsgId → List RequestFrom × Bool
forget_request_from [] id = ([], false)
forget_request_from (this ∷ rest) id =
    let (rest', found) = forget_request_from rest id in
    if are_same id this.id then (rest, true) else (this ∷ rest', found)

-- remember_request_from
unfoldable pub remember_request_from : List RequestFrom → MsgId → ℕ → List RequestFrom × Bool
unfolding find_request_from
remember_request_from table id from =
    if not (find_request_from table id == 0)
    then (table, false)
    else (record { id = id; from = from } ∷ table, true)
