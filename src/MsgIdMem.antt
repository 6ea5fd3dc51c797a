-- ===== src/MsgIdMem.antt =====
-- `struct kbus_msg_id_mem` of kbus/kbus_internal.h, and the functions of kbus/kbus_main.c that keep
-- a Ksock's outstanding requests in it: an array in which {0:0} marks a free slot. The array is the
-- list `ids`, and allocation succeeds.
pub mod Laws
use kbus.Prelude.{
  ℕ, zero, suc, ◌+◌, ◌-◌, Bool, true, false, Option, none, some, List, [], ◌∷◌, ◌++◌, ◌==◌, ltb,
  if◌then◌else◌, length, set, replicate, add_u32, sub_u32,
}
use kbus.Size.{next_size}
use kbus.Message.{MsgId, no_id, same_message_id, same_id}

pub record MsgIdMem : Type 0 where
  pub count : ℕ
  pub size : ℕ
  pub max_count : ℕ
  pub ids : List MsgId

-- KBUS_INIT_MSG_ID_MEMSIZE
abbrev pub init_msg_id_memsize : ℕ
init_msg_id_memsize = 16

-- kbus_init_msg_id_memory
unfoldable pub init_msg_id_memory : MsgIdMem
init_msg_id_memory = record {
  count = 0;
  size = init_msg_id_memsize;
  max_count = 0;
  ids = replicate init_msg_id_memsize no_id;
}

-- kbus_empty_msg_id_memory
unfoldable pub empty_msg_id_memory : MsgIdMem → MsgIdMem
empty_msg_id_memory mem = record { count = 0; size = 0; max_count = 0; ids = [] }

-- The first index below `size` whose slot holds the id: the loop that three functions share.
unfoldable pub index_of : MsgId → List MsgId → Option ℕ
unfolding same_message_id
index_of id [] = none
index_of id (slot ∷ ids) =
    if same_id slot id
    then some 0
    else elim (index_of id ids) [ none ↦ none | some n ↦ some (suc n) ]

-- The array after the growth that `kbus_remember_msg_id` makes when it is full.
unfoldable pub grow : MsgIdMem → MsgIdMem
grow mem =
    if mem.count == mem.size
    then record mem {
      ids = mem.ids ++ replicate (next_size mem.size - mem.size) no_id;
      size = next_size mem.size;
    }
    else mem

-- `mem->ids[which] = *id; mem->count++; …`
unfoldable pub store_at : MsgIdMem → ℕ → MsgId → MsgIdMem
store_at mem which id = record {
  ids = set mem.ids which id;
  count = add_u32 mem.count 1;
  size = mem.size;
  max_count =
      if ltb mem.max_count (add_u32 mem.count 1) then add_u32 mem.count 1 else mem.max_count;
}

-- kbus_remember_msg_id: the first free slot, or else the slot at `count`.
unfoldable pub remember_msg_id : MsgIdMem → MsgId → MsgIdMem
unfolding grow store_at
remember_msg_id mem id = elim (index_of no_id mem.ids) [
  | some which ↦ store_at mem which id
  | none ↦ store_at (grow mem) mem.count id
]

-- kbus_find_msg_id: whether it returns 0.
unfoldable pub find_msg_id : MsgIdMem → MsgId → Bool
find_msg_id mem id = elim (index_of id mem.ids) [ some which ↦ true | none ↦ false ]

-- kbus_forget_msg_id: the memory, and whether it returns 0.
unfoldable pub forget_msg_id : MsgIdMem → MsgId → MsgIdMem × Bool
forget_msg_id mem id = elim (index_of id mem.ids) [
  | some which ↦ (record mem { ids = set mem.ids which no_id; count = sub_u32 mem.count 1 }, true)
  | none ↦ (mem, false)
]
