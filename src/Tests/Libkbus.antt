-- ===== src/Tests/Libkbus.antt =====
-- The user space library on the small bus, and on a system of two files.
use kbus.Prelude.{
  ◌^◌, ℕ, ◌≡◌, ◌↔◌, ◌%◌, ◌<◌, refl, true, Bool, Option, none, some, List, [], ◌∷◌, ◌++◌, take, drop,
  length, ltb, arith,
}
use kbus.Errno.{Result, ok, err, eaddrinuse, ebadmsg}
use kbus.Size.{padded_name_len, padded_data_len, entire_msg_len}
use kbus.Message.{no_id, no_origin}
use kbus.CString.{u32_bytes}
use kbus.Header.{header_size, msg_start_guard, msg_end_guard}
use kbus.Ksock.Records.{Ksock}
use kbus.Device.{find_open_ksock}
use kbus.Settings.{query}
use mathlib.Core.Option
use kbus.CString.{strlen, strncmp_eq, strcmp_eq}
use kbus.Name.{scan, stem_len, bad_message_name}
use kbus.Device.{find_ksock}
use kbus.Recipients.Search.{find_replier}
use kbus.Bindings.Table.{has_replier, add_binding, remember_binding}
use kbus.Bindings.Calls.{bind, check_bind_name}
use kbus.Ioctl.{dispatch, ioctl}
use kbus.Libkbus.Messages.{UserMsg, create_entire, entire_rest, overwrite, pos, msg_sizeof}
use kbus.Libkbus.Sizes.{msg_sizeof_iff}
use kbus.Libkbus.Calls.{ksock_bind, ksock_find_replier, ksock_only_once}
use kbus.Libkbus.Transfers.{negative, ksock_read_msg}
use kbus.Libkbus.Whole.{read_msg_half}
use kbus.Libkbus.OnKbus.{system, bind_find, only_once_zero}
use kbus.Tests.Data.{bus, replier, once, name_a}

abbrev is_letter : ℕ → Bool
is_letter c = ltb 64 c

abbrev no_memory : ℕ → ℕ → Option (List ℕ)
no_memory addr n = none

abbrev name_b : List ℕ
name_b = b'$' ∷ b'.' ∷ b'B' ∷ []

-- A read gives three bytes at most, and a write takes two.
abbrev read_three : List ℕ → ℕ → ℕ → List ℕ × Result (List ℕ)
read_three w ksock n = (drop 3 (take n w) ++ drop n w, ok (take 3 (take n w)))

abbrev write_two : List ℕ → ℕ → List ℕ → List ℕ × Result ℕ
write_two w ksock bytes = (w ++ take 2 bytes, ok (length (take 2 bytes)))

read_msg_half_example :
    ksock_read_msg read_three 2 (1 ∷ 2 ∷ 3 ∷ 4 ∷ 5 ∷ 6 ∷ []) 1 6
    ≡ some (4 ∷ 5 ∷ 6 ∷ [], negative ebadmsg)
read_msg_half_example =
    read_msg_half read_three 0 (1 ∷ 2 ∷ 3 ∷ 4 ∷ 5 ∷ 6 ∷ []) (4 ∷ 5 ∷ 6 ∷ []) (4 ∷ 5 ∷ 6 ∷ []) 1 3
      (1 ∷ 2 ∷ 3 ∷ []) (omega arith) (omega arith) refl refl refl

abbrev whole_message : UserMsg
whole_message = record {
  start_guard = msg_start_guard;
  id = no_id;
  in_reply_to = no_id;
  to = 0;
  from = 0;
  orig_from = no_origin;
  final_to = no_origin;
  extra = 0;
  flags = 0;
  name_len = 3;
  data_len = 4;
  name = none;
  data_ptr = none;
  end_guard = msg_end_guard;
  rest = 36 ∷ 46 ∷ 65 ∷ 0 ∷ 1 ∷ 2 ∷ 3 ∷ 4 ∷ u32_bytes msg_end_guard;
}

is_created : create_entire name_a 3 (1 ∷ 2 ∷ 3 ∷ 4 ∷ []) 4 0 ≡ whole_message
unfolding create_entire entire_rest overwrite padded_name_len padded_data_len entire_msg_len
is_created = refl

msg_sizeof_iff_example :
    (msg_sizeof whole_message ≡ pos (entire_msg_len header_size 3 4))
    ↔ ((entire_msg_len header_size 3 4 < 2 ^ 31) × ((3 % 4 ≡ 0) ↔ (4 % 4 ≡ 0)))
msg_sizeof_iff_example = msg_sizeof_iff whole_message refl (omega arith) (omega arith)

bound : (ksock_bind (system is_letter 4096 no_memory) bus 1 name_b 1).1 ≡ ok 0
unfolding ksock_bind ioctl dispatch bind check_bind_name remember_binding has_replier find_replier
    bad_message_name scan stem_len strlen strncmp_eq strcmp_eq add_binding find_ksock
bound = refl

bound_there :
    find_open_ksock (ksock_bind (system is_letter 4096 no_memory) bus 1 name_b 1).0 2 ≡ some replier
unfolding ksock_bind ioctl dispatch bind check_bind_name remember_binding has_replier find_replier
    bad_message_name scan stem_len strlen strncmp_eq strcmp_eq add_binding find_ksock
bound_there = refl

once_there : find_open_ksock bus 3 ≡ some once
unfolding find_ksock
once_there = refl

bind_find_example :
    let dev = (ksock_bind (system is_letter 4096 no_memory) bus 1 name_b 1).0 in
    (ksock_find_replier (system is_letter 4096 no_memory) dev 2 name_b 0 ≡ (dev, (ok 0, 1)))
    × (ksock_bind (system is_letter 4096 no_memory) dev 2 name_b 1 ≡ (dev, err eaddrinuse))
bind_find_example = bind_find is_letter 4096 no_memory bus 1 2 name_b 0 bound bound_there

only_once_zero_example :
    let outcome = ksock_only_once (system is_letter 4096 no_memory) bus 3 query in
    (outcome.1 ≡ ok 0)
    × (Option.map (λ (j : Ksock). j.messages_only_once) (find_open_ksock outcome.0 3) ≡ some true)
only_once_zero_example = only_once_zero is_letter 4096 no_memory bus 3 query once_there refl
