-- ===== src/MsgIdMem/Laws.antt =====
-- kbus/kbus_main.c: the memory of outstanding requests behaves as a bag of message ids.
use kbus.Prelude.{
  ◌&&◌, ◌↔◌, ℕ, zero, suc, ◌+◌, ◌-◌, ◌≤◌, ◌<◌, ◌≡◌, refl, ◌≢◌, ◌⊎◌, inl, inr, true, false, none,
  some, List, [], ◌∷◌, ◌++◌, arith, if◌then◌else◌, length, set, replicate, count, length-append,
  length-set, length-replicate, count-le-length, Bool-cases, u32_mod,
}
use kbus.Size.{next_size, next_size_grows}
use kbus.Message.{MsgId, no_id, same_id, same_id_iff}
use kbus.MsgIdMem.{
  MsgIdMem, init_msg_id_memory, index_of, grow, store_at, remember_msg_id, find_msg_id,
  forget_msg_id,
}

-- How many of the slots hold an id.
abbrev pub times : MsgId → List MsgId → ℕ
times id = count (λ slot. same_id slot id)

-- The slots in use are those that do not hold {0:0}.
abbrev pub used : List MsgId → ℕ
used ids = length ids - times no_id ids

-- `size` is the size of the array, `count` the number of its slots in use, and the array is small
-- enough for its size to be a u32.
pub record IsValid (mem : MsgIdMem) : Type 0 where
  pub sized : mem.size ≡ length mem.ids
  pub counted : mem.count ≡ used mem.ids
  pub some_slot : 0 < mem.size
  pub small : mem.size < u32_mod

-- `index_of` finds a slot exactly when the id occurs.
index_of_cases :
    (id : MsgId) (ids : List MsgId)
    → ((index_of id ids ≡ none) × (times id ids ≡ 0))
      ⊎ ((n : ℕ) × (index_of id ids ≡ some n) × (n < length ids) × (0 < times id ids))
unfolding index_of
index_of_cases id [] = inl (refl, refl)
index_of_cases id (slot ∷ ids) = elim (Bool-cases (same_id slot id)) [
  | inl same ↦ inr (0, rw same, omega arith, rw same (omega arith))
  | inr other ↦ elim (index_of_cases id ids) [
    | inl (e, z) ↦ inl (rw (other, e, index_of), rw other (omega (arith, z)))
    | inr (n, e, lt, pos) ↦ inr (suc n, rw (other, e), omega arith, rw other (omega (arith, pos)))
  ]
]

-- Overwriting the slot that `index_of` finds takes one `id` out and puts one `v` in.
times-set :
    (id v x : MsgId) (ids : List MsgId) (n : ℕ)
    → index_of id ids ≡ some n
    → times x (set ids n v) + (if same_id id x then 1 else 0)
      ≡ times x ids + (if same_id v x then 1 else 0)
unfolding index_of
times-set id v x [] n h = cc
times-set id v x (slot ∷ ids) zero h = ground (arith, same_id_iff slot id)
times-set id v x (slot ∷ ids) (suc n) h = ground (arith, times-set id v x ids n)

times-replicate : (n : ℕ) (id : MsgId) → id ≢ no_id → times id (replicate n no_id) ≡ 0
times-replicate zero id ne = refl
times-replicate (suc n) id ne = ground (arith, same_id_iff no_id id, times-replicate n id ne)

times-no_id-replicate : (n : ℕ) → times no_id (replicate n no_id) ≡ n
times-no_id-replicate zero = refl
times-no_id-replicate (suc n) = ground (arith, same_id_iff no_id no_id, times-no_id-replicate n)

-- A fresh memory is valid and holds no id.
pub init_msg_id_memory-IsValid :
    IsValid init_msg_id_memory
    × ((id : MsgId) → id ≢ no_id → find_msg_id init_msg_id_memory id ≡ false)
unfolding init_msg_id_memory find_msg_id
init_msg_id_memory-IsValid = (
  record {
    sized = refl;
    counted = omega (arith, times-no_id-replicate 16);
    some_slot = omega arith;
    small = omega arith;
  },
  λ id ne. ground (arith, index_of_cases id (replicate 16 no_id), times-replicate 16 id ne),
)

-- `kbus_find_msg_id` finds exactly the ids that the memory holds.
pub find_iff : (mem : MsgIdMem) (id : MsgId) → (find_msg_id mem id ≡ true) ↔ (0 < times id mem.ids)
unfolding find_msg_id
find_iff mem id =
    (λ h. ground (arith, index_of_cases id mem.ids), λ h. ground (arith, index_of_cases id mem.ids))

-- `kbus_forget_msg_id` takes one occurrence of the id out of the memory and leaves every other id
-- alone ({0:0} is no id); it fails exactly when the memory does not hold the id.
pub forget_takes_one :
    (mem : MsgIdMem) (id x : MsgId)
    → x ≢ no_id
    → let (mem', found) = forget_msg_id mem id in
      (found ≡ find_msg_id mem id)
      × (times x mem'.ids + (if found && same_id id x then 1 else 0) ≡ times x mem.ids)
unfolding forget_msg_id find_msg_id
forget_takes_one mem id x ne = elim (index_of_cases id mem.ids) [
  | inl (e, z) ↦ rw (e, forget_msg_id, find_msg_id) (refl, omega arith)
  | inr (n, e, lt, pos) ↦
      rw (e, forget_msg_id, find_msg_id)
        (refl, ground (arith, times-set id no_id x mem.ids n e, same_id_iff no_id x))
]

-- An id that the memory holds once is not found any more after it has been forgotten.
pub forget_forgets :
    (mem : MsgIdMem) (id : MsgId)
    → id ≢ no_id
    → times id mem.ids ≡ 1
    → find_msg_id (forget_msg_id mem id).0 id ≡ false
forget_forgets mem id ne one = elim (Bool-cases (find_msg_id (forget_msg_id mem id).0 id)) [
  | inr e ↦ e
  | inl still ↦ absurd (
      ground (
        arith,
        (find_iff mem id).1 (omega (arith, one)),
        (find_iff (forget_msg_id mem id).0 id).0 still,
        forget_takes_one mem id id ne,
        same_id_iff id id,
      ))
]

pub times_add : (ids : List MsgId) (a b : MsgId) → a ≢ b → times a ids + times b ids ≤ length ids
times_add [] a b ne = omega arith
times_add (slot ∷ ids) a b ne =
    ground (arith, same_id_iff slot a, same_id_iff slot b, times_add ids a b ne)

-- `kbus_forget_msg_id` keeps the memory valid.
pub forget_msg_id-IsValid :
    (mem : MsgIdMem) (id : MsgId) → id ≢ no_id → IsValid mem → IsValid (forget_msg_id mem id).0
unfolding forget_msg_id
forget_msg_id-IsValid mem id ne v = elim (index_of_cases id mem.ids) [
  | inl (e, z) ↦ rw (e, forget_msg_id) v
  | inr (n, e, lt, pos) ↦
      rw (e, forget_msg_id)
        (ground (
          arith,
          length-set mem.ids n no_id,
          times-set id no_id no_id mem.ids n e,
          same_id_iff id no_id,
          same_id_iff no_id no_id,
          times_add mem.ids id no_id ne,
        ))
]

times-set-append :
    (id x : MsgId) (xs : List MsgId) (k : ℕ)
    → 0 < k
    → times x (set (xs ++ replicate k no_id) (length xs) id) + (if same_id no_id x then 1 else 0)
      ≡ times x xs + times x (replicate k no_id) + (if same_id id x then 1 else 0)
times-set-append id x [] zero h = elim h [ ]
times-set-append id x [] (suc k) h = omega arith
times-set-append id x (y ∷ xs) k h = omega (arith, times-set-append id x xs k h)

-- The slot that a full memory writes to, after it has grown.
times-grow :
    (mem : MsgIdMem) (id x : MsgId)
    → IsValid mem
    → mem.size < 2147483648
    → times no_id mem.ids ≡ 0
    → times x (set (grow mem).ids mem.count id) + (if same_id no_id x then 1 else 0)
      ≡ times x mem.ids
        + times x (replicate (next_size mem.size - mem.size) no_id)
        + (if same_id id x then 1 else 0)
unfolding grow
times-grow mem id x v small full =
    ground (
      arith,
      times-set-append id x mem.ids (next_size mem.size - mem.size),
      next_size_grows mem.size,
    )

-- `kbus_remember_msg_id` puts one occurrence of the id into a valid memory of less than 2^31 slots,
-- in a free slot or after growing the array, and leaves every other id alone ({0:0} is no id).
pub remember_adds_one :
    (mem : MsgIdMem) (id x : MsgId)
    → IsValid mem
    → mem.size < 2147483648
    → x ≢ no_id
    → times x (remember_msg_id mem id).ids ≡ times x mem.ids + (if same_id id x then 1 else 0)
unfolding remember_msg_id
remember_adds_one mem id x v small ne = elim (index_of_cases no_id mem.ids) [
  | inl (e, z) ↦
      rw (e, remember_msg_id)
        (ground (
          arith,
          times-grow mem id x v small z,
          times-replicate (next_size mem.size - mem.size) x ne,
          same_id_iff no_id x,
        ))
  | inr (n, e, lt, pos) ↦
      rw (e, remember_msg_id)
        (ground (arith, times-set no_id id x mem.ids n e, same_id_iff no_id x))
]

grow_full :
    (mem : MsgIdMem)
    → IsValid mem
    → mem.size < 2147483648
    → times no_id mem.ids ≡ 0
    → (mem.count ≡ mem.size)
      × ((grow mem).count ≡ mem.size)
      × ((grow mem).size ≡ next_size mem.size)
      × (length (grow mem).ids ≡ next_size mem.size)
unfolding grow
grow_full mem v small full = ground (
  arith,
  length-append mem.ids (replicate (next_size mem.size - mem.size) no_id),
  length-replicate (next_size mem.size - mem.size) no_id,
  next_size_grows mem.size,
)

store_at_full-IsValid :
    (mem : MsgIdMem) (id : MsgId)
    → IsValid mem
    → mem.size < 2147483648
    → id ≢ no_id
    → times no_id mem.ids ≡ 0
    → IsValid (store_at (grow mem) mem.count id)
unfolding store_at
store_at_full-IsValid mem id v small ne full = ground (
  arith,
  grow_full mem v small full,
  next_size_grows mem.size,
  length-set (grow mem).ids mem.count id,
  times-grow mem id no_id v small full,
  times-no_id-replicate (next_size mem.size - mem.size),
  same_id_iff id no_id,
  same_id_iff no_id no_id,
)

-- `kbus_remember_msg_id` keeps a memory of less than 2^31 slots valid, for an id other than {0:0}.
pub remember_msg_id-IsValid :
    (mem : MsgIdMem) (id : MsgId)
    → IsValid mem
    → mem.size < 2147483648
    → id ≢ no_id
    → IsValid (remember_msg_id mem id)
unfolding remember_msg_id
remember_msg_id-IsValid mem id v small ne = elim (index_of_cases no_id mem.ids) [
  | inl (e, z) ↦ rw (e, remember_msg_id) (store_at_full-IsValid mem id v small ne z)
  | inr (n, e, lt, pos) ↦
      rw (e, remember_msg_id)
        (ground (
          arith,
          length-set mem.ids n id,
          times-set no_id id no_id mem.ids n e,
          same_id_iff id no_id,
          same_id_iff no_id no_id,
          count-le-length (λ (slot : MsgId). same_id slot no_id) mem.ids,
        ))
]
