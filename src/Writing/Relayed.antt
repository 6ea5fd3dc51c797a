-- ===== src/Writing/Relayed.antt =====
-- What kbus_read gives of a message is what kbus_write takes, in kbus/kbus_main.c.
use kbus.Prelude.{
  ℕ, suc, ◌-◌, ◌<◌, ◌≡◌, ◌∙◌, refl, sym, ap, inl, inr, Bool, true, false, none, some, List, [],
  ◌++◌, length-append, arith, ◌==◌, if◌then◌else◌, length, take, flatten, replicate,
  length-replicate, drop_all, Bool-cases,
}
use kbus.Errno.{Result, ok, err, success}
use kbus.CString.{u32_bytes}
use kbus.Size.{padded_name_len, padded_data_len, entire_msg_len}
use kbus.Message.{Msg}
use kbus.Name.{invalid_message_name}
use kbus.Ksock.Records.{Ksock, MessageHeader, WriteMsg, no_write_msg}
use kbus.Header.{header_bytes, FitsC, header_of-header_bytes, msg_end_guard, header_size}
use kbus.Reading.{user_header, pages_of}
use kbus.Reading.Next.{Sized, message_bytes, length-message_bytes, length-name}
use kbus.Writing.{
  check_message_written, stopped, needed, store_bytes, finish_part, write_loop, write, zero_message,
  with_header, message_of, part_len, finish_header, finish_name, finish_data, finish_guard,
  bytes_of, outcome,
}
use kbus.Writing.Filling.{flatten-data_with, data_with, part_after}
use kbus.Writing.Places.{store_data-Holds, store_data-zero}
use kbus.Writing.Rounds.{write_loop-nil}
use kbus.Writing.Calls.{write-going, begin_write-none}
use kbus.Writing.Wholes.{part_done}

-- The name and the data of a message, as they are read.
abbrev pub the_name : Msg → List ℕ
the_name msg = take msg.name_len msg.name_ref

abbrev pub the_data : Msg → List ℕ
the_data msg = flatten (pages_of (some msg))

-- The message that is written from what is read.
abbrev pub relayed : ℕ → Msg → Msg
relayed page msg = record msg {
  name_ref = the_name msg;
  data_ref = if msg.data_len == 0 then none else some (data_with page msg.data_len (the_data msg));
}

module _ (isalnum : ℕ → Bool) (page max_message_size : ℕ) (pos : 0 < page) (msg : Msg)
    (sized : Sized msg) where
  abbrev name_zeros : List ℕ
  name_zeros = replicate (padded_name_len msg.name_len - msg.name_len) 0

  abbrev data_zeros : List ℕ
  data_zeros = replicate (padded_data_len msg.data_len - msg.data_len) 0

  -- The message while it is written, part by part.
  abbrev with_fields : Msg
  with_fields = with_header zero_message (user_header msg)

  abbrev with_name : Msg
  with_name = record with_fields { name_ref = (the_name msg) }

  abbrev start : WriteMsg
  start = record no_write_msg { msg = some zero_message }

  abbrev after_header : WriteMsg
  after_header = record start {
    user_msg = header_bytes (user_header msg);
    msg = some with_fields;
    pointers_are_local = true;
    which = 1;
  }

  abbrev after_name : WriteMsg
  after_name = record after_header { msg = some with_name; which = 2 }

  header_round :
      (f : ℕ) (rest : List ℕ)
      → FitsC (user_header msg)
      → check_message_written max_message_size (user_header msg) ≡ success
      → write_loop isalnum page max_message_size
          (suc f)
          start
          (header_bytes (user_header msg) ++ rest)
        ≡ write_loop isalnum page max_message_size f after_header rest
  unfolding stopped needed part_len message_of finish_part store_bytes finish_header header_bytes
      user_header
  header_round f rest fits accepted =
      part_done isalnum page max_message_size f start (record after_header { which = 0 })
        (header_bytes (user_header msg)) rest refl refl (omega arith)
        (ap read_as (header_of-header_bytes (user_header msg) fits)
          ∙ ap (λ r. elim r [ err e ↦ err e | ok _ ↦ ok (record after_header { which = 0 }) ])
              accepted)
    where
      read_as : MessageHeader → Result WriteMsg
      read_as h = elim (check_message_written max_message_size h) [
        | err e ↦ err e
        | ok _ ↦ ok (record after_header {
          msg = some (with_header zero_message h);
          user_name_ptr = h.name;
          user_data_ptr = h.data_ptr;
          is_finished = if h.name == 0 then false else true;
          pointers_are_local = if h.name == 0 then true else false;
          which = 0;
        })
      ]

  name_round :
      (f : ℕ) (rest : List ℕ)
      → 0 < length rest
      → invalid_message_name isalnum (the_name msg) msg.name_len ≡ false
      → write_loop isalnum page max_message_size (suc f) after_header ((the_name msg) ++ rest)
        ≡ write_loop isalnum page max_message_size f after_name rest
  unfolding stopped needed part_len message_of finish_part store_bytes finish_name bytes_of
      with_header user_header
  name_round f rest more valid =
      part_done isalnum page max_message_size f after_header (record after_name { which = 1 })
        (the_name msg) rest refl (omega (arith, length-name msg sized)) (omega arith)
        (rw valid refl)

  name_padding_round :
      (f : ℕ) (rest : List ℕ)
      → 0 < length rest
      → write_loop isalnum page max_message_size (suc f) after_name (name_zeros ++ rest)
        ≡ write_loop isalnum page max_message_size f (record after_name { which = 3 }) rest
  unfolding stopped needed part_len message_of finish_part store_bytes with_header user_header
  name_padding_round f rest more =
      let size : length name_zeros ≡ padded_name_len msg.name_len - msg.name_len =
        length-replicate (padded_name_len msg.name_len - msg.name_len) 0 in
      part_done isalnum page max_message_size f after_name after_name name_zeros rest refl
        (omega (arith, size)) (omega arith) refl

  -- After the data, if there is any, the writer has its part of the message.
  abbrev after_data_part : WriteMsg
  after_data_part = record after_name {
    msg = some relayed';
    which = 4;
    ref_data_index = if msg.data_len == 0 then 0 else part_after page msg.data_len (the_data msg);
  }
    where
      relayed' : Msg
      relayed' = record with_name {
        data_ref =
            if msg.data_len == 0 then none else some (data_with page msg.data_len (the_data msg));
      }

  data_round :
      (f : ℕ) (rest : List ℕ)
      → 0 < length rest
      → write_loop isalnum page max_message_size
          (suc f)
          (record after_name { which = 3 })
          ((the_data msg) ++ rest)
        ≡ write_loop isalnum page max_message_size f after_data_part rest
  unfolding stopped needed part_len message_of finish_part store_bytes finish_data with_header
      user_header
  data_round f rest more =
      part_done isalnum page max_message_size f at_data (record after_data_part { which = 3 })
        (the_data msg) rest refl (omega (arith, sized.1)) (omega arith)
        (elim (Bool-cases (msg.data_len == 0)) [
          | inl e ↦
              ap (finish_data isalnum page max_message_size)
                (store_data-zero page pos at_data (the_data msg) (ground arith))
              ∙ rw e refl
          | inr e ↦
              ap (finish_data isalnum page max_message_size) (
                store_data-Holds page pos at_data [] (the_data msg) (ground arith, inl (refl, refl))
                  (omega (arith, sized.1)))
              ∙ rw e refl
        ])
    where
      at_data : WriteMsg
      at_data = record after_name { which = 3 }

  data_padding_round :
      (f : ℕ) (rest : List ℕ)
      → 0 < length rest
      → write_loop isalnum page max_message_size (suc f) after_data_part (data_zeros ++ rest)
        ≡ write_loop isalnum page max_message_size f (record after_data_part { which = 5 }) rest
  unfolding stopped needed part_len message_of finish_part store_bytes with_header user_header
  data_padding_round f rest more =
      let size : length data_zeros ≡ padded_data_len msg.data_len - msg.data_len =
        length-replicate (padded_data_len msg.data_len - msg.data_len) 0 in
      part_done isalnum page max_message_size f after_data_part after_data_part data_zeros rest refl
        (omega (arith, size)) (omega arith) refl

  -- The message is finished, and is what was read.
  abbrev finished : WriteMsg
  finished = record after_data_part {
    guard = u32_bytes msg_end_guard;
    is_finished = true;
    which = 6;
  }

  guard_round :
      (f : ℕ)
      → write_loop isalnum page max_message_size
          (suc f)
          (record after_data_part { which = 5 })
          (u32_bytes msg_end_guard)
        ≡ (finished, success)
  unfolding stopped needed part_len message_of finish_part store_bytes finish_guard with_header
      user_header
  guard_round f =
      part_done isalnum page max_message_size f (record after_data_part { which = 5 })
        (record finished { which = 5 }) (u32_bytes msg_end_guard) [] refl refl (omega arith) refl
      ∙ write_loop-nil isalnum page max_message_size f finished

  finished-relayed : finished.msg ≡ some (relayed page msg)
  unfolding with_header user_header
  finished-relayed = refl

  all_rounds :
      FitsC (user_header msg)
      → check_message_written max_message_size (user_header msg) ≡ success
      → invalid_message_name isalnum (the_name msg) msg.name_len ≡ false
      → write_loop isalnum page max_message_size 8 start (message_bytes msg) ≡ (finished, success)
  unfolding message_bytes
  all_rounds fits accepted valid =
      let guard_bytes = u32_bytes msg_end_guard in
      let last = data_zeros ++ guard_bytes in
      let from_data = (the_data msg) ++ last in
      let from_zeros = name_zeros ++ from_data in
      let some_last : 0 < length last = omega (arith, length-append data_zeros guard_bytes) in
      let some_data : 0 < length from_data = omega (arith, length-append (the_data msg) last) in
      let some_zeros : 0 < length from_zeros = omega (arith, length-append name_zeros from_data) in
      header_round 7 ((the_name msg) ++ from_zeros) fits accepted
      ∙ (name_round 6 from_zeros some_zeros valid
          ∙ (name_padding_round 5 from_data some_data
              ∙ (data_round 4 last some_last
                  ∙ (data_padding_round 3 guard_bytes (omega arith) ∙ guard_round 2))))

  write-result :
      (priv : Ksock)
      → priv.sending ≡ false
      → priv.write.msg ≡ none
      → FitsC (user_header msg)
      → check_message_written max_message_size (user_header msg) ≡ success
      → invalid_message_name isalnum (the_name msg) msg.name_len ≡ false
      → write isalnum page max_message_size priv (message_bytes msg)
        ≡ (record priv { write = finished }, ok (length (message_bytes msg)))
  write-result priv going nothing fits accepted valid =
      write-going isalnum page max_message_size pos priv (message_bytes msg) going
      ∙ (ap
            (λ w.
              outcome priv (length (message_bytes msg))
                (write_loop isalnum page max_message_size 8 w (message_bytes msg)))
            (begin_write-none priv.write nothing)
          ∙ ap (outcome priv (length (message_bytes msg))) (all_rounds fits accepted valid))

  -- The data of the message that has been written is that of the message that was read.
  flatten-relayed : flatten (pages_of (some (relayed page msg))) ≡ (the_data msg)
  unfolding pages_of flatten
  flatten-relayed = elim (Bool-cases (msg.data_len == 0)) [
    | inl e ↦ rw e (sym (drop_all 0 (the_data msg) (ground (arith, sized.1))))
    | inr e ↦ rw e (
        flatten-data_with page msg.data_len pos (ground arith) (the_data msg)
          (omega (arith, sized.1)))
  ]

  -- Where a Ksock is neither sending nor writing a message, the bytes that are read of a message are
  -- written by one call in full, which leaves a finished message with the same fields, name and data.
  -- Of the message that is read, the fields fit their C types, the lengths are those of the name and
  -- the data and not at the end of the range of a u32, the header is accepted and the name is valid.
  -- (A page is not empty.)
  pub write-message_bytes :
      (priv : Ksock)
      → priv.sending ≡ false
      → priv.write.msg ≡ none
      → FitsC (user_header msg)
      → check_message_written max_message_size (user_header msg) ≡ success
      → invalid_message_name isalnum (the_name msg) msg.name_len ≡ false
      → let (priv', retval) = write isalnum page max_message_size priv (message_bytes msg) in
        (retval ≡ ok (entire_msg_len header_size msg.name_len msg.data_len))
        × (priv'.write.is_finished ≡ true)
        × (priv'.write.msg ≡ some (relayed page msg))
        × (flatten (pages_of (some (relayed page msg))) ≡ (the_data msg))
  write-message_bytes priv going nothing fits accepted valid =
      rw (write-result priv going nothing fits accepted valid)
        (ap ok (length-message_bytes msg sized), refl, finished-relayed, flatten-relayed)
