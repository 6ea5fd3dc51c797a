-- ===== src/Tests/Limpet.antt =====
-- Two limpets, 1 and 2, and the messages that pass between them.
use kbus.Prelude.{
  if◌then◌else◌, ◌==◌, ℕ, ◌≡◌, ◌≢◌, true, false, ◌↔◌, refl, none, some, List, [], ◌∷◌, ◌++◌, take,
  drop, arith,
}
use kbus.Message.{no_id, no_origin}
use kbus.Errno.{ok}
use kbus.Header.{msg_start_guard, msg_end_guard}
use kbus.Ioctl.{Request, Answer, number}
use kbus.CString.{strncmp_eq}
use kbus.Synthetic.{replier_gone_away}
use kbus.Libkbus.Messages.{
  UserMsg, name_ptr, data_at, wants_us_to_reply, is_request, is_reply, compare_ids, stateful_target,
  create, create_stateful_request,
}
use kbus.Libkbus.Calls.{ksock_find_replier}
use kbus.Limpet.Context.{Context, are_same, find_request_from, remember_request_from}
use kbus.Limpet.Amending.{
  amended, answered, is_bind_event, amend_from_kbus, mark_origin, not_same_ksock, error_answer,
  amend_msg_from_kbus, amend_msg_to_kbus, amend_request_from_other_limpet,
}
use kbus.Limpet.Traffic.{Passes, from_kbus, nothing_yet, Keeps, Passes-Keeps}
use kbus.Limpet.Replies.{IsNew, reply_comes_home}
use kbus.Limpet.Dialogue.{stateful_returns}
use kbus.Limpet.Wire.{
  Socket, header_words, send_message_to_other_limpet, read_message_from_other_limpet,
}
use kbus.Limpet.Events.{IsByteOrder}
use kbus.Limpet.Streams.{IsReliable}
use kbus.Limpet.Transfer.{IsSendable, received}
use kbus.Limpet.Transfer.Arrival.{transfer}
use kbus.Tests.Data.{name_a, id_of}

-- A system whose ioctl always finds Ksock 7.
abbrev seven : ℕ → ℕ → Request → ℕ × Answer
seven w ksock request = (w, (ok 1, number 7))

abbrev limpet : Context
limpet = record {
  ksock = 3;
  ksock_id = 5;
  network_id = 1;
  other_network_id = 2;
  message_name = b'$' ∷ b'.' ∷ b'*' ∷ [];
  replier_for = [];
  request_from = [];
  verbosity = 0;
}

abbrev letter : UserMsg
letter = record {
  start_guard = msg_start_guard;
  id = no_id;
  in_reply_to = no_id;
  to = 0;
  from = 0;
  orig_from = no_origin;
  final_to = no_origin;
  extra = 0;
  flags = 0;
  name_len = 3;
  data_len = 0;
  name = some name_a;
  data_ptr = none;
  end_guard = msg_end_guard;
  rest = [];
}

-- Ksock 7 of network 1 asks for `$.A`.
abbrev question : UserMsg
question = record letter { id = id_of 9; from = 7; flags = 3 }

abbrev waiting : Context
waiting = record limpet { request_from = record { id = id_of 9; from = 7 } ∷ [] }

-- Ksock 8 of network 2 has answered it.
abbrev answer : UserMsg
answer = record letter {
  data_len = 5;
  data_ptr = some (1 ∷ 2 ∷ 3 ∷ 4 ∷ 5 ∷ []);
  id = record { network_id = 2; serial_num = 4 };
  in_reply_to = record { network_id = 1; serial_num = 9 };
  from = 8;
}

question-IsNew : IsNew limpet question
unfolding is_bind_event strncmp_eq name_ptr wants_us_to_reply find_request_from
question-IsNew = record {
  no_event = refl;
  wanted = refl;
  sender = λ e. omega arith;
  unseen = refl;
  not_own = λ e. omega arith;
  not_other = λ e. omega arith;
}

-- A message of KBUS itself, which has no sender, passes while the question waits.
abbrev later : Context
later = (amend_msg_from_kbus (amend_msg_from_kbus limpet question).0 letter).0

passed : Passes seven (id_of 9) (amend_msg_from_kbus limpet question).0 later
passed = from_kbus letter nothing_yet

answer_is_none : is_bind_event answer ≡ false
unfolding is_bind_event strncmp_eq name_ptr
answer_is_none = refl

answers : answer.in_reply_to ≡ (amend_msg_from_kbus limpet question).1.0.id
unfolding amend_msg_from_kbus is_bind_event strncmp_eq name_ptr amend_from_kbus mark_origin
    wants_us_to_reply is_request remember_request_from
answers = refl

reply_comes_home_example :
    let home = amend_msg_to_kbus seven 0 later answer in
    ((amend_msg_from_kbus limpet question).1.1 ≡ amended)
    × ((amend_msg_from_kbus limpet question).1.0.id
        ≡ (if 0 == 0 then record { network_id = 1; serial_num = 9 } else id_of 9))
    × (home.0 ≡ 0)
    × (home.1.1 ≡ (record answer { in_reply_to = id_of 9; to = 7; id = no_id }, amended))
    × (find_request_from home.1.0.request_from (id_of 9) ≡ 0)
reply_comes_home_example =
    reply_comes_home seven 0 question answer tt question-IsNew (λ e. omega arith) passed
      answer_is_none answers

waits : find_request_from waiting.request_from (id_of 9) ≢ 0
unfolding find_request_from are_same compare_ids
waits e = cc

waits_not : find_request_from [] (id_of 9) ≡ 0
unfolding find_request_from
waits_not = refl

Passes-Keeps_example : Keeps (id_of 9) waiting (amend_msg_from_kbus waiting letter).0
Passes-Keeps_example = Passes-Keeps seven (from_kbus letter nothing_yet) (waits_not, tt) waits

-- A stateful request, made after an answer by Ksock 7 of network 1.
abbrev told : UserMsg
told = record answer { from = 7; orig_from = no_origin }

abbrev seen : UserMsg
seen = record told { orig_from = record { network_id = 1; local_id = 7 } }

abbrev stateful : UserMsg
stateful = record letter { flags = 3; to = 7; final_to = record { network_id = 1; local_id = 7 } }

made : create_stateful_request seen name_a 3 none 0 3 ≡ ok stateful
unfolding create_stateful_request stateful_target is_reply create
made = refl

abbrev is_seven : ℕ
is_seven = 7

found : (ksock_find_replier seven 0 3 name_a 0).1 ≡ (ok 0, 7)
unfolding ksock_find_replier
found = refl

marked : seen.orig_from ≡ (mark_origin limpet told).orig_from
unfolding mark_origin
marked = refl

seen_reply : is_reply seen ≡ true
unfolding is_reply
seen_reply = refl

stateful_returns_example :
    let outcome = (amend_request_from_other_limpet seven 0 limpet stateful).1 in
    ((outcome.1 ≡ amended) ↔ (is_seven ≡ 7))
    × (outcome.1 ≡ amended → outcome.0.to ≡ 7)
    × (is_seven ≡ 0 → outcome.1 ≡ answered (error_answer replier_gone_away outcome.0))
    × (is_seven ≢ 0 → is_seven ≢ 7 → outcome.1 ≡ answered (error_answer not_same_ksock outcome.0))
    × (outcome.0.id ≡ stateful.id)
    × (outcome.0.from ≡ stateful.from)
stateful_returns_example =
    stateful_returns seven limpet limpet 0 told seen stateful stateful 7 name_a 3 none 0 3 refl
      (λ e. omega arith) refl marked seen_reply made refl found

-- A connection that is the bytes on their way, and an order of bytes that changes nothing.
abbrev wire : Socket
wire = record {
  State = List ℕ;
  send = λ s bytes. some (s ++ bytes);
  recv = λ s n. (drop n s, take n s);
}

wire-IsReliable : IsReliable wire
wire-IsReliable = record {
  pending = λ s. s;
  send-pending = λ s bytes. (s ++ bytes, refl, refl);
  recv-pending = λ s n enough. (refl, refl);
}

abbrev same : ℕ → ℕ
same w = w

same-IsByteOrder : IsByteOrder same same
same-IsByteOrder = record { fits = λ w small. small; back = λ w small. refl }

answer-IsSendable : IsSendable answer
unfolding header_words data_at name_ptr is_bind_event strncmp_eq
answer-IsSendable = record {
  fields = ground arith;
  start = refl;
  finish = refl;
  name_small = omega arith;
  data_small = omega arith;
  name_there = omega arith;
  data_there = omega arith;
  data_bytes = ground arith;
  event = λ e more. absurd (cc);
}

transfer_example :
    (s' : List ℕ) × (send_message_to_other_limpet wire same same [] answer ≡ some s')
    × ((read_message_from_other_limpet wire same same s').1 ≡ some (received answer))
    × ((read_message_from_other_limpet wire same same s').0 ≡ [])
unfolding wire-IsReliable
transfer_example =
    transfer wire wire-IsReliable same same same-IsByteOrder [] answer answer-IsSendable refl
