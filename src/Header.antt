-- ===== src/Header.antt =====
-- struct kbus_message_header of kbus/linux/kbus_defns.h as its bytes, on a little-endian machine with
-- 64-bit pointers: fifteen u32 fields, four bytes of alignment, two pointers, the end guard, and four
-- bytes of alignment.
use kbus.Prelude.{ℕ, ◌+◌, ◌*◌, ◌/◌, ◌%◌, ◌^◌, ◌<◌, ◌≡◌, List, [], ◌∷◌, ◌++◌, arith}
use kbus.CString.{byte_at, u32_bytes}
use kbus.Message.{MsgId, OrigFrom}
use kbus.Ksock.Records.{MessageHeader}

-- KBUS_MSG_START_GUARD
abbrev pub msg_start_guard : ℕ
msg_start_guard = 0x7375_624B

-- KBUS_MSG_END_GUARD
abbrev pub msg_end_guard : ℕ
msg_end_guard = 0x4B62_7573

-- `sizeof(struct kbus_message_header)`, which is that of struct kbus_entire_message too.
abbrev pub header_size : ℕ
header_size = 88

-- The bytes of a pointer.
abbrev pub pointer_bytes : ℕ → List ℕ
pointer_bytes n = u32_bytes (n % 2 ^ 32) ++ u32_bytes (n / 2 ^ 32)

abbrev pub alignment : List ℕ
alignment = 0 ∷ 0 ∷ 0 ∷ 0 ∷ []

unfoldable pub header_bytes : MessageHeader → List ℕ
header_bytes h =
    u32_bytes h.start_guard
    ++ (u32_bytes h.id.network_id
        ++ (u32_bytes h.id.serial_num
            ++ (u32_bytes h.in_reply_to.network_id
                ++ (u32_bytes h.in_reply_to.serial_num
                    ++ (u32_bytes h.to
                        ++ (u32_bytes h.from
                            ++ (u32_bytes h.orig_from.network_id
                                ++ (u32_bytes h.orig_from.local_id
                                    ++ (u32_bytes h.final_to.network_id
                                        ++ (u32_bytes h.final_to.local_id
                                            ++ (u32_bytes h.extra
                                                ++ (u32_bytes h.flags
                                                    ++ (u32_bytes h.name_len
                                                        ++ (u32_bytes h.data_len
                                                            ++ (alignment
                                                            ++ (pointer_bytes h.name
                                                            ++ (pointer_bytes h.data_ptr
                                                            ++ (u32_bytes h.end_guard
                                                            ++ alignment))))))))))))))))))

-- The u32 and the pointer at an offset.
abbrev pub u32_at : List ℕ → ℕ → ℕ
u32_at bytes i =
    byte_at bytes i
    + 256 * byte_at bytes (i + 1)
    + 65536 * byte_at bytes (i + 2)
    + 16777216 * byte_at bytes (i + 3)

abbrev pub pointer_at : List ℕ → ℕ → ℕ
pointer_at bytes i = u32_at bytes i + 2 ^ 32 * u32_at bytes (i + 4)

abbrev pub id_at : List ℕ → ℕ → MsgId
id_at bytes i = record { network_id = u32_at bytes i; serial_num = u32_at bytes (i + 4) }

abbrev pub origin_at : List ℕ → ℕ → OrigFrom
origin_at bytes i = record { network_id = u32_at bytes i; local_id = u32_at bytes (i + 4) }

-- The header that some bytes are read as.
unfoldable pub header_of : List ℕ → MessageHeader
header_of bytes = record {
  start_guard = u32_at bytes 0;
  id = id_at bytes 4;
  in_reply_to = id_at bytes 12;
  to = u32_at bytes 20;
  from = u32_at bytes 24;
  orig_from = origin_at bytes 28;
  final_to = origin_at bytes 36;
  extra = u32_at bytes 44;
  flags = u32_at bytes 48;
  name_len = u32_at bytes 52;
  data_len = u32_at bytes 56;
  name = pointer_at bytes 64;
  data_ptr = pointer_at bytes 72;
  end_guard = u32_at bytes 80;
}

-- Every field fits its C type.
pub record FitsC (h : MessageHeader) : Type 0 where
  pub start_guard : h.start_guard < 2 ^ 32
  pub id : (h.id.network_id < 2 ^ 32) × (h.id.serial_num < 2 ^ 32)
  pub in_reply_to : (h.in_reply_to.network_id < 2 ^ 32) × (h.in_reply_to.serial_num < 2 ^ 32)
  pub to : h.to < 2 ^ 32
  pub from : h.from < 2 ^ 32
  pub orig_from : (h.orig_from.network_id < 2 ^ 32) × (h.orig_from.local_id < 2 ^ 32)
  pub final_to : (h.final_to.network_id < 2 ^ 32) × (h.final_to.local_id < 2 ^ 32)
  pub extra : h.extra < 2 ^ 32
  pub flags : h.flags < 2 ^ 32
  pub name_len : h.name_len < 2 ^ 32
  pub data_len : h.data_len < 2 ^ 32
  pub name : h.name < 2 ^ 64
  pub data_ptr : h.data_ptr < 2 ^ 64
  pub end_guard : h.end_guard < 2 ^ 32

-- A header whose fields fit their C types is read back from its bytes as it was.
pub header_of-header_bytes : (h : MessageHeader) → FitsC h → header_of (header_bytes h) ≡ h
unfolding header_of header_bytes
header_of-header_bytes h v = ground arith
