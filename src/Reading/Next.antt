-- ===== src/Reading/Next.antt =====
-- kbus_nextmsg and kbus_lenleft of kbus/kbus_main.c: which bytes the next message is read as, and
-- how many are left.
use kbus.Prelude.{
  ℕ, ◌<◌, ◌+◌, ◌-◌, ◌≤◌, ◌≡◌, ◌∙◌, refl, sym, ap, subst, inl, inr, none, some, List, [], ◌∷◌, ◌++◌,
  arith, if◌then◌else◌, length, take, flatten, take_all, drop_all, ◌⊎◌, Bool-cases, Option-cases,
  length-take, take-replicate, length-replicate, replicate, has_bit, sub_u32, length-append, ◌%◌,
  ◌^◌,
}
use kbus.CString.{u32_bytes}
use kbus.Size.{
  padded_name_len, padded_data_len, entire_msg_len, padded_name_len_lem, padded_data_len_lem,
  name_pad, data_pad,
}
use kbus.Message.{Msg, want_you_to_reply}
use kbus.Ksock.Validity.{IsValid, reply_needed-IsValid}
use kbus.Ksock.Records.{Ksock, UnrepliedItem, QueueItem, ReadMsg}
use kbus.Ksock.Queue.{pop_message}
use kbus.Ksock.Replies.{reply_needed}
use kbus.Lifecycle.{empty_read_msg}
use kbus.Header.{header_size, header_bytes, msg_end_guard}
use kbus.Device.{Dev, find_open_ksock}
use kbus.Reading.{nextmsg, read, pages_of, segment, user_header, start_read, next_message}
use kbus.Reading.Unread.{part_bytes, remaining, remaining_start, Whole, Placed}
use kbus.Reading.Pieces.{read-Advanced, unread, of_message, IsReading}

-- A message whose lengths are those of its name and data, and not at the end of the range of a u32.
abbrev pub Sized : Msg → Type 0
Sized msg =
    (msg.name_len ≤ length msg.name_ref)
    × (msg.data_len ≡ length (flatten (pages_of (some msg))))
    × (msg.data_len ≡ 0 → pages_of (some msg) ≡ [])
    × (msg.name_len + 4 < 2 ^ 32)
    × (msg.data_len + 3 < 2 ^ 32)

-- An "entire" message, as it is read.
unfoldable pub message_bytes : Msg → List ℕ
message_bytes msg =
    header_bytes (user_header msg)
    ++ (take msg.name_len msg.name_ref
        ++ (replicate (padded_name_len msg.name_len - msg.name_len) 0
            ++ (flatten (pages_of (some msg))
                ++ (replicate (padded_data_len msg.data_len - msg.data_len) 0
                    ++ (u32_bytes msg_end_guard)))))

pub length-header_bytes : (msg : Msg) → length (header_bytes (user_header msg)) ≡ 88
unfolding header_bytes
length-header_bytes msg = refl

-- The padding after the name and after the data.
pub name_padding :
    (msg : Msg)
    → Sized msg
    → part_bytes (start_read msg) 2 ≡ replicate (padded_name_len msg.name_len - msg.name_len) 0
unfolding start_read
name_padding msg sized = rw (name_pad msg.name_len sized.3) (
    take-replicate (padded_name_len msg.name_len - msg.name_len) 8 0
      (omega (arith, padded_name_len_lem msg.name_len sized.3)))

pub data_padding :
    (msg : Msg)
    → Sized msg
    → part_bytes (start_read msg) 4 ≡ replicate (padded_data_len msg.data_len - msg.data_len) 0
unfolding start_read
data_padding msg sized = rw (data_pad msg.data_len sized.4) (
    take-replicate (padded_data_len msg.data_len - msg.data_len) 8 0
      (omega (arith, padded_data_len_lem msg.data_len sized.4)))

pub length-name : (msg : Msg) → Sized msg → length (take msg.name_len msg.name_ref) ≡ msg.name_len
length-name msg sized = ground (arith, length-take msg.name_len msg.name_ref)

pub start_read-Whole : (msg : Msg) → Sized msg → Whole (start_read msg)
unfolding start_read header_bytes
start_read-Whole msg sized = (
  refl,
  refl,
  length-name msg sized,
  rw (name_padding msg sized) (
      length-replicate (padded_name_len msg.name_len - msg.name_len) 0
      ∙ sym (name_pad msg.name_len sized.3)),
  sized.1,
  rw (data_padding msg sized) (
      length-replicate (padded_data_len msg.data_len - msg.data_len) 0
      ∙ sym (data_pad msg.data_len sized.4)),
  refl,
  λ e. sized.2 e,
)

start_read-Placed : (msg : Msg) → Placed (start_read msg)
unfolding start_read segment
start_read-Placed msg = (omega arith, (λ lt. refl), λ is_data. absurd (omega arith))

pub remaining-start_read : (msg : Msg) → Sized msg → remaining (start_read msg) ≡ message_bytes msg
unfolding start_read message_bytes flatten header_bytes
remaining-start_read msg sized =
    remaining_start (start_read msg) 0 (start_read-Whole msg sized) (λ e. refl)
    ∙ rw (name_padding msg sized, data_padding msg sized) refl

-- The Ksock that has taken the first message of its queue to be read.
abbrev pub taking : Ksock → Msg → List QueueItem → Ksock
taking priv msg rest = record priv {
  read = start_read msg;
  message_queue = rest;
  message_count = sub_u32 priv.message_count 1;
}

pub next_message-item :
    (priv : Ksock) (item : QueueItem) (rest : List QueueItem)
    → priv.message_queue ≡ item ∷ rest
    → next_message priv ≡ (
      some item.msg,
      if has_bit want_you_to_reply item.msg.flags
          then reply_needed (taking priv item.msg rest) item.msg
          else taking priv item.msg rest,
    )
unfolding next_message pop_message empty_read_msg
next_message-item priv item rest e = elim (Option-cases priv.read.msg) [
  | inl nothing ↦ rw (nothing, e) refl
  | inr partial ↦ rw (partial.1, e) refl
]

read-next_message :
    (priv : Ksock) (item : QueueItem) (rest : List QueueItem)
    → priv.message_queue ≡ item ∷ rest
    → (next_message priv).1.read ≡ start_read item.msg
unfolding reply_needed
read-next_message priv item rest e =
    rw (next_message-item priv item rest e)
      (elim (Bool-cases (has_bit want_you_to_reply item.msg.flags)) [
        | inl asks ↦ rw asks refl
        | inr tells ↦ rw tells refl
      ])

pub length-message_bytes :
    (msg : Msg)
    → Sized msg
    → length (message_bytes msg) ≡ entire_msg_len header_size msg.name_len msg.data_len
unfolding message_bytes entire_msg_len
length-message_bytes msg sized =
    let head = header_bytes (user_header msg) in
    let name = take msg.name_len msg.name_ref in
    let npad : List ℕ = replicate (padded_name_len msg.name_len - msg.name_len) 0 in
    let all_data = flatten (pages_of (some msg)) in
    let dpad : List ℕ = replicate (padded_data_len msg.data_len - msg.data_len) 0 in
    let guard_bytes = u32_bytes msg_end_guard in
    omega (
      arith,
      length-header_bytes msg,
      length-name msg sized,
      length-replicate {A = ℕ} (padded_name_len msg.name_len - msg.name_len) 0,
      length-replicate {A = ℕ} (padded_data_len msg.data_len - msg.data_len) 0,
      sized.1,
      padded_name_len_lem msg.name_len sized.3,
      padded_data_len_lem msg.data_len sized.4,
      length-append head (name ++ (npad ++ (all_data ++ (dpad ++ guard_bytes)))),
      length-append name (npad ++ (all_data ++ (dpad ++ guard_bytes))),
      length-append npad (all_data ++ (dpad ++ guard_bytes)),
      length-append all_data (dpad ++ guard_bytes),
      length-append dpad guard_bytes,
    )

start_read-unread :
    (msg : Msg)
    → Sized msg
    → (of_message (start_read msg).msg (remaining (start_read msg)) ≡ message_bytes msg)
      × (((start_read msg).msg ≡ none) ⊎ (Whole (start_read msg) × Placed (start_read msg)))
unfolding of_message start_read
start_read-unread msg sized =
    (remaining-start_read msg sized, inr (start_read-Whole msg sized, start_read-Placed msg))

-- The next message is the one that is read, from its start.
next_message-unread :
    (priv : Ksock) (item : QueueItem) (rest : List QueueItem)
    → priv.message_queue ≡ item ∷ rest
    → Sized item.msg
    → (unread (next_message priv).1 ≡ message_bytes item.msg) × IsReading (next_message priv).1
unfolding unread of_message IsReading
next_message-unread priv item rest e sized =
    let from_start : ReadMsg → Type 0 = λ s.
      (of_message s.msg (remaining s) ≡ message_bytes item.msg)
      × ((s.msg ≡ none) ⊎ (Whole s × Placed s)) in
    subst from_start (sym (read-next_message priv item rest e)) (start_read-unread item.msg sized)

-- Where the queue of an open Ksock starts with a message whose lengths are those of its name and
-- data, and not at the end of the range of a u32, kbus_nextmsg returns the length of the "entire"
-- message modulo 2^32, one read of that length gives the header without pointers, the name, the data
-- and the final guard with the padding between them, and nothing is left to read.
pub nextmsg-read :
    (dev : Dev) (our : ℕ) (priv : Ksock) (item : QueueItem) (rest : List QueueItem)
    → find_open_ksock dev our ≡ some priv
    → priv.message_queue ≡ item ∷ rest
    → Sized item.msg
    → let len = entire_msg_len header_size item.msg.name_len item.msg.data_len in
      ((nextmsg dev our).1 ≡ some (len % 2 ^ 32))
      × ((read (next_message priv).1 len).0 ≡ message_bytes item.msg)
      × (unread (read (next_message priv).1 len).1 ≡ [])
unfolding nextmsg entire_msg_len
nextmsg-read dev our priv item rest found e sized =
    let msg = item.msg in
    let len = entire_msg_len header_size msg.name_len msg.data_len in
    let (all, ready) = next_message-unread priv item rest e sized in
    let (given, left, still) = read-Advanced (next_message priv).1 len ready in
    let whole : length (unread (next_message priv).1) ≡ len =
      ap (length {A = ℕ}) all ∙ length-message_bytes msg sized in
    (
      rw (nextmsg, found, next_message-item priv item rest e) refl,
      given ∙ (take_all len (unread (next_message priv).1) (omega (arith, whole)) ∙ all),
      left ∙ drop_all len (unread (next_message priv).1) (omega (arith, whole)),
    )

-- The entry that kbus_reply_needed makes.
abbrev pub unreplied_to : Msg → UnrepliedItem
unreplied_to msg = record {
  id = msg.id;
  from = msg.from;
  name_len = msg.name_len;
  name_ref = msg.name_ref;
}

-- kbus_nextmsg takes the first message off the queue of a valid Ksock, which stays valid. Where that
-- message is a request to the Ksock it is added to those that the Ksock has still to reply to, and
-- otherwise these stay as they are.
pub next_message-replies_unsent :
    (priv : Ksock) (item : QueueItem) (rest : List QueueItem)
    → IsValid priv
    → priv.message_queue ≡ item ∷ rest
    → IsValid (next_message priv).1
      × ((next_message priv).1.message_queue ≡ rest)
      × ((next_message priv).1.replies_unsent ≡ (
          if has_bit want_you_to_reply item.msg.flags
          then unreplied_to item.msg ∷ priv.replies_unsent
          else priv.replies_unsent))
unfolding reply_needed
next_message-replies_unsent priv item rest v e =
    let taken : IsValid (taking priv item.msg rest) = record {
      queued = omega (arith, v.queued, ap (length {A = QueueItem}) e);
      unreplied = v.unreplied;
      outstanding = v.outstanding;
    } in
    rw (next_message-item priv item rest e)
      (elim (Bool-cases (has_bit want_you_to_reply item.msg.flags)) [
        | inl asks ↦
            rw asks (reply_needed-IsValid (taking priv item.msg rest) item.msg taken, refl, refl)
        | inr tells ↦ rw tells (taken, refl, refl)
      ])
