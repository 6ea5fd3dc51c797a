-- ===== src/Reading/Left.antt =====
-- kbus_lenleft of kbus/kbus_main.c against the bytes that are still to be read.
use kbus.Prelude.{
  ℕ, zero, suc, ◌+◌, ◌-◌, ◌*◌, ◌≤◌, ◌<◌, ◌≡◌, ◌∙◌, refl, sym, ap, true, false, some, [], ◌++◌,
  arith, ltb, if◌then◌else◌, length, get_or, take, drop, flatten, length-append, length-flatten,
  length-drop, add_u32, sub_u32, ◌%◌, ◌^◌,
}
use kbus.Size.{padded_name_len, entire_msg_len, padded_name_len_lem}
use kbus.Message.{Msg}
use kbus.Ksock.Records.{Ksock, ReadMsg, num_parts}
use kbus.Header.{header_size}
use kbus.Reading.{
  pages_of, part_length, segment, start_read, data_sofar, in_data, parts_sofar, lenleft,
}
use kbus.Reading.Unread.{six_parts, remaining, remaining-data, remaining_start, Placed, at}
use kbus.Reading.Pieces.{unread, of_message}
use kbus.Reading.Lengths.{parts_from, length-remaining, parts_from-next}
use kbus.Reading.Next.{Sized, start_read-Whole, remaining-start_read, length-message_bytes}

lenleft-some :
    (priv : Ksock) (msg : Msg)
    → priv.read.msg ≡ some msg
    → priv.read.which < 6
    → lenleft priv
      ≡ sub_u32 (entire_msg_len header_size msg.name_len msg.data_len) (
          add_u32
            (parts_sofar priv.read msg priv.read.which)
            (if in_data priv.read msg then data_sofar priv.read else priv.read.pos))
unfolding lenleft
lenleft-some priv msg e lt =
    let going : ltb priv.read.which num_parts ≡ true = ground arith in rw (e, going) refl

-- Where the parts before, the part and the parts after make up a total that fits a u32.
sub_read :
    (total before part after p : ℕ)
    → before + (part + after) ≡ total
    → p ≤ part
    → total < 2 ^ 32
    → sub_u32 total (add_u32 (before % 2 ^ 32) p) ≡ (part - p) + after
sub_read total before part after p whole within small = omega arith

-- The parts together are as long as the message.
parts_from-start :
    (msg : Msg)
    → Sized msg
    → parts_from (start_read msg) 0 ≡ entire_msg_len header_size msg.name_len msg.data_len
unfolding parts_from start_read
parts_from-start msg sized =
    ap (length {A = ℕ}) (
      sym (remaining_start (start_read msg) 0 (start_read-Whole msg sized) (λ e. refl))
      ∙ remaining-start_read msg sized)
    ∙ length-message_bytes msg sized

module _ (msg : Msg) (sized : Sized msg) (p i : ℕ) where
  -- A reader of the message, at a part.
  reader : ℕ → ReadMsg
  reader n = at (start_read msg) n p i

  -- The lengths of the parts before one.
  before : ℕ → ℕ
  before zero = 0
  before (suc n) = before n + part_length (start_read msg) n

  parts_sofar-before :
      (n : ℕ) → in_data (reader n) msg ≡ false → parts_sofar (reader n) msg n ≡ before n % 2 ^ 32
  unfolding parts_sofar reader before
  parts_sofar-before n e = go n
    where
      go : (m : ℕ) → parts_sofar (reader n) msg m ≡ before m % 2 ^ 32
      go zero = refl
      go (suc m) = rw e (omega (arith, go m))

  before-total :
      (n : ℕ)
      → n < 6
      → before n + (part_length (start_read msg) n + parts_from (start_read msg) (suc n))
        ≡ entire_msg_len header_size msg.name_len msg.data_len
  unfolding before
  before-total zero lt = omega (
    arith,
    parts_from-next (start_read msg) 0 (start_read-Whole msg sized) lt,
    parts_from-start msg sized,
  )
  before-total (suc n) lt = omega (
    arith,
    parts_from-next (start_read msg) (suc n) (start_read-Whole msg sized) lt,
    before-total n (omega arith),
  )

  no_data : (n : ℕ) → n ≡ 3 → in_data (reader n) msg ≡ false → part_length (start_read msg) 3 ≡ 0
  unfolding reader start_read
  no_data n is_data outside = ground arith

  left-remaining :
      (n : ℕ)
      → Placed (reader n)
      → n < 6
      → in_data (reader n) msg ≡ false
      → entire_msg_len header_size msg.name_len msg.data_len < 2 ^ 32
      → sub_u32
          (entire_msg_len header_size msg.name_len msg.data_len)
          (add_u32 (parts_sofar (reader n) msg n) p)
        ≡ length (remaining (reader n))
  unfolding reader
  left-remaining n placed lt outside small =
      let none_there : n ≡ 3 → part_length (start_read msg) 3 ≡ 0 =
        λ is_data. no_data n is_data outside in
      let (within, left) =
        length-remaining (start_read msg) n p i (start_read-Whole msg sized) placed lt none_there in
      rw (parts_sofar-before n outside) (
        sub_read (entire_msg_len header_size msg.name_len msg.data_len) (before n)
          (part_length (start_read msg) n) (parts_from (start_read msg) (suc n)) p
          (before-total n lt) within small
        ∙ sym left)

-- Outside the data of a message whose lengths are those of its name and data, and whose own length is
-- below 2^32, kbus_lenleft returns the number of bytes that are still to be read.
pub lenleft-unread :
    (priv : Ksock) (msg : Msg) (n p i : ℕ)
    → Sized msg
    → Placed (at (start_read msg) n p i)
    → n < 6
    → in_data (at (start_read msg) n p i) msg ≡ false
    → entire_msg_len header_size msg.name_len msg.data_len < 2 ^ 32
    → let priv' : Ksock = record priv { read = at (start_read msg) n p i } in
      lenleft priv' ≡ length (unread priv')
unfolding unread of_message start_read reader
lenleft-unread priv msg n p i sized placed lt outside small =
    lenleft-some (record priv { read = at (start_read msg) n p i }) msg refl lt
    ∙ rw outside (left-remaining msg sized p i n placed lt outside small)

-- How much of the data a reader in it has given.
abbrev pub data_given : Msg → ℕ → ℕ → ℕ
data_given msg p i = length (flatten (take i (pages_of (some msg)))) + p

parts_sofar-in_data :
    (this : ReadMsg) (msg : Msg)
    → in_data this msg ≡ true
    → parts_sofar this msg 3 ≡ (3 * data_sofar this) % 2 ^ 32
unfolding parts_sofar
parts_sofar-in_data this msg e = rw e (omega arith)

-- What is left in the data.
length-remaining_data :
    (msg : Msg) (p i : ℕ)
    → Sized msg
    → Placed (at (start_read msg) 3 p i)
    → (length (remaining (at (start_read msg) 3 p i)) + data_given msg p i
        ≡ msg.data_len + parts_from (start_read msg) 4)
unfolding parts_from segment start_read
length-remaining_data msg p i sized placed =
    let page = get_or (pages_of (some msg)) i [] in
    let after = flatten (drop (suc i) (pages_of (some msg))) in
    let rest = flatten (drop 4 (six_parts (start_read msg))) in
    let within : p ≤ length page = placed.0 in
    omega (
      arith,
      sized.1,
      ap (length {A = ℕ}) (remaining-data (start_read msg) p i),
      length-append (drop p page) (after ++ rest),
      length-append after rest,
      length-drop p page,
      length-flatten i (pages_of (some msg)),
    )

data_sofar-given :
    (msg : Msg) (p i : ℕ)
    → i < length (pages_of (some msg))
    → data_sofar (at (start_read msg) 3 p i) ≡ data_given msg p i % 2 ^ 32
unfolding data_sofar start_read
data_sofar-given msg p i inside =
    let e : ltb i (length (pages_of (some msg))) ≡ true = ground arith in rw e refl

-- In the data of a message whose lengths are those of its name and data, and whose own length is below
-- 2^32, kbus_lenleft takes the number of bytes of the data that have been read from the length of the
-- message four times, and not the header and the name, which have been read as well.
pub lenleft-in_data :
    (priv : Ksock) (msg : Msg) (p i : ℕ)
    → Sized msg
    → Placed (at (start_read msg) 3 p i)
    → 0 < msg.data_len
    → entire_msg_len header_size msg.name_len msg.data_len < 2 ^ 32
    → let priv' : Ksock = record priv { read = at (start_read msg) 3 p i } in
      let total = entire_msg_len header_size msg.name_len msg.data_len in
      (lenleft priv' ≡ sub_u32 total (4 * data_given msg p i))
      × (length (unread priv')
          ≡ total - (header_size + padded_name_len msg.name_len + data_given msg p i))
unfolding start_read unread of_message before
lenleft-in_data priv msg p i sized placed some_data small =
    let this = at (start_read msg) 3 p i in
    let inside : i < length (pages_of (some msg)) = placed.2 refl (λ e. omega arith) in
    let in_it : in_data this msg ≡ true = ground arith in
    let given = data_sofar-given msg p i inside in
    let left : length (unread (record priv { read = this })) ≡ length (remaining this) = refl in
    let start : header_size
          + padded_name_len msg.name_len
          + (msg.data_len + parts_from (start_read msg) 4)
        ≡ entire_msg_len header_size msg.name_len msg.data_len =
      omega (
        arith,
        before-total msg sized p i 3 (omega arith),
        padded_name_len_lem msg.name_len sized.3,
      ) in
    (
      lenleft-some (record priv { read = this }) msg refl (omega arith)
          ∙ rw (in_it, parts_sofar-in_data this msg in_it, given) (omega arith),
      omega (arith, left, length-remaining_data msg p i sized placed, start),
    )
