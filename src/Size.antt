-- ===== src/Size.antt =====
-- The sizes of kbus/linux/kbus_defns.h and kbus/kbus_internal.h: padding, the length of an
-- "entire" message, and the growth of an array.
use kbus.Prelude.{
  ℕ, ◌+◌, ◌^◌, ◌*◌, ◌/◌, ◌%◌, ◌≤◌, ◌<◌, ◌≡◌, arith, ltb, if◌then◌else◌, add_u32, sub_u32, ◌-◌,
  u32_mod,
}

-- KBUS_MAX_NAME_LEN
abbrev pub max_name_len : ℕ
max_name_len = 1000

-- KBUS_PADDED_NAME_LEN, on a u32.
unfoldable pub padded_name_len : ℕ → ℕ
padded_name_len name_len = 4 * (add_u32 (add_u32 name_len 1) 3 / 4)

-- KBUS_PADDED_DATA_LEN, on a u32.
unfoldable pub padded_data_len : ℕ → ℕ
padded_data_len data_len = 4 * (add_u32 data_len 3 / 4)

-- KBUS_ENTIRE_MSG_LEN, for a header of `header_size` bytes (`sizeof`, which depends on the size of
-- a pointer, and is wider than a u32, so that the sum does not wrap).
unfoldable pub entire_msg_len : ℕ → ℕ → ℕ → ℕ
unfolding padded_name_len padded_data_len
entire_msg_len header_size name_len data_len =
    header_size + padded_name_len name_len + padded_data_len data_len + 4

-- kbus_next_size: `<<` and `>>` on a u32.
unfoldable pub next_size : ℕ → ℕ
next_size old_size =
    if ltb old_size 16 then old_size * 2 % u32_mod else add_u32 old_size (old_size / 8)

-- A padded name has room for its terminating zero byte, is a whole number of words, and wastes at
-- most four bytes, where its length is not at the end of the range of a u32.
pub padded_name_len_lem :
    (n : ℕ)
    → n + 4 < 2 ^ 32
    → (n + 1 ≤ padded_name_len n) × (padded_name_len n ≤ n + 4) × (padded_name_len n % 4 ≡ 0)
unfolding padded_name_len
padded_name_len_lem n small = omega arith

-- The same for data, which needs no terminating byte.
pub padded_data_len_lem :
    (n : ℕ)
    → n + 3 < 2 ^ 32
    → (n ≤ padded_data_len n) × (padded_data_len n ≤ n + 3) × (padded_data_len n % 4 ≡ 0)
unfolding padded_data_len
padded_data_len_lem n small = omega arith

-- The padding after a name and after data is as long as it would be without the wrap of a u32.
pub name_pad : (n : ℕ) → n + 4 < 2 ^ 32 → sub_u32 (padded_name_len n) n ≡ padded_name_len n - n
name_pad n small = omega (arith, padded_name_len_lem n small)

pub data_pad : (n : ℕ) → n + 3 < 2 ^ 32 → sub_u32 (padded_data_len n) n ≡ padded_data_len n - n
data_pad n small = omega (arith, padded_data_len_lem n small)

-- A non-empty array grows, by at most its own size, and while its size is below 2^31 nothing wraps.
pub next_size_grows : (n : ℕ) → 0 < n → n < 2147483648 → (n < next_size n) × (next_size n ≤ n + n)
unfolding next_size
next_size_grows n pos small = ground arith
