-- ===== src/Reading/Pieces.antt =====
-- kbus_read of kbus/kbus_main.c as a cursor: reads of any lengths give the bytes of the message in
-- order.
use kbus.Prelude.{
  ℕ, zero, suc, ◌+◌, ◌-◌, ◌≤◌, ◌<◌, ◌≡◌, ◌≢◌, ◌∙◌, ◌⊎◌, refl, sym, ap, subst, inl, inr, false,
  Option, none, some, List, [], ◌++◌, append_assoc, arith, ◌==◌, ltb, if◌then◌else◌, length, take,
  drop, flatten, lesser, drop_all, take_all, drop-nil, Bool-cases, Option-cases, take_of_split,
  get_or_beyond, length-append,
}
use kbus.Message.{Msg}
use kbus.Ksock.Records.{Ksock, ReadMsg, num_parts}
use kbus.Lifecycle.{empty_read_msg}
use kbus.Reading.{part_length, segment, round_len, after_round, rounds, read_loop, read}
use kbus.Reading.Unread.{six_parts, remaining, Whole, Placed, at, Moved, Progress}
use kbus.Reading.Rounds.{round-Progress}

-- A reader that is at a place in a whole message, or has none.
unfoldable pub IsReading : Ksock → Type 0
IsReading priv = (priv.read.msg ≡ none) ⊎ (Whole priv.read × Placed priv.read)

-- No message has no bytes.
unfoldable pub of_message : Option Msg → List ℕ → List ℕ
of_message none bytes = []
of_message (some msg) bytes = bytes

-- The bytes that a Ksock has still to give to its reader.
unfoldable pub unread : Ksock → List ℕ
unfolding remaining of_message
unread priv = of_message priv.read.msg (remaining priv.read)

-- What the loop promises for a number of bytes that is asked for.
abbrev pub Taken : ReadMsg → ℕ → List ℕ × ReadMsg → Type 0
Taken this count result =
    (remaining this ≡ result.0 ++ remaining result.1)
    × (length result.0 ≡ lesser count (length (remaining this)))
    × Placed result.1
    × Moved this result.1

-- A loop that is asked for nothing changes nothing.
read_loop-zero : (fuel : ℕ) (this : ReadMsg) → read_loop fuel this 0 ≡ ([], this)
unfolding read_loop
read_loop-zero zero this = refl
read_loop-zero (suc fuel) this = elim (Bool-cases (ltb this.which num_parts)) [
  | inl e ↦ rw e refl
  | inr e ↦ rw e refl
]

remaining_done : (this : ReadMsg) → Whole this → 6 ≤ this.which → remaining this ≡ []
unfolding remaining segment flatten
remaining_done this w done =
    let e : (this.which == 3) ≡ false = ground arith in
    let none_there : part_length this this.which ≡ 0 =
      get_or_beyond this.lengths this.which 0 (omega (arith, w.0)) in
    let past : drop (suc this.which) (six_parts this) ≡ [] =
      drop_all (suc this.which) (six_parts this) (omega arith) in
    rw (e, none_there, past) (ap (λ l. l ++ []) (drop-nil this.pos))

-- A round and what follows it.
Taken-join :
    (this mid : ReadMsg) (len count : ℕ) (later : List ℕ × ReadMsg)
    → Progress this len mid count
    → Taken mid (count - len) later
    → Taken this count (take len (drop this.pos (segment this)) ++ later.0, later.1)
Taken-join this mid len count later step rest =
    let piece = take len (drop this.pos (segment this)) in
    let split : remaining this ≡ piece ++ remaining mid = step.0 in
    let whole : length (remaining this) ≡ length piece + length (remaining mid) =
      ap (length {A = ℕ}) split ∙ length-append piece (remaining mid) in
    (
      split ∙ (ap (λ l. piece ++ l) rest.0 ∙ sym (append_assoc piece later.0 (remaining later.1))),
      ground (arith, length-append piece later.0, whole, step.1, step.2, rest.1),
      rest.2,
      subst (λ m. later.1 ≡ at m later.1.which later.1.pos later.1.ref_data_index) step.5 rest.3,
    )

loop-Taken :
    (fuel : ℕ) (this : ReadMsg) (count : ℕ)
    → rounds this < fuel
    → Whole this
    → Placed this
    → Taken this count (read_loop fuel this count)
unfolding read_loop
loop-Taken zero this count enough w placed = absurd (omega arith)
loop-Taken (suc fuel) this count enough w placed = elim (Bool-cases (ltb this.which num_parts)) [
  | inr done ↦ rw done (
    refl,
    ground (arith, ap (length {A = ℕ}) (remaining_done this w (ground arith))),
    placed,
    refl,
  )
  | inl going ↦ elim (Bool-cases (ltb 0 count)) [
    | inr nothing ↦ rw (going, nothing) (refl, ground arith, placed, refl)
    | inl wanted ↦
        rw (going, wanted)
          (let len = round_len this count in
            let next = after_round this len in
            let step : Progress this len next count =
              round-Progress this this.which this.pos this.ref_data_index count w placed
                (ground arith) in
            let w' : Whole next = subst (λ s. Whole s) (sym step.5) w in
            Taken-join this next len count (read_loop fuel next (count - len)) step (elim step.4 [
              | inl all ↦
                  let e : count - len ≡ 0 = omega arith in
                  subst (λ c. Taken next c (read_loop fuel next c)) (sym e)
                    (subst (λ r. Taken next 0 r) (sym (read_loop-zero fuel next))
                      (refl, ground arith, step.3, refl))
              | inr nearer ↦ loop-Taken fuel next (count - len) (omega arith) w' step.3
            ]))
  ]
]

of_message-some : (m : Option Msg) (bytes : List ℕ) → m ≢ none → of_message m bytes ≡ bytes
unfolding of_message
of_message-some none bytes has = absurd (has refl)
of_message-some (some msg) bytes has = refl

unread-read_state :
    (priv : Ksock) (s : ReadMsg) → s.msg ≢ none → unread (record priv { read = s }) ≡ remaining s
unfolding unread
unread-read_state priv s has = of_message-some s.msg (remaining s) has

some-not_none : (msg : Msg) → some msg ≢ none
some-not_none msg = cc

unread-none : (priv : Ksock) → priv.read.msg ≡ none → unread priv ≡ []
unfolding unread of_message
unread-none priv e = ap (λ m. of_message m (remaining priv.read)) e

read-none : (priv : Ksock) (count : ℕ) → priv.read.msg ≡ none → read priv count ≡ ([], priv)
unfolding read
read-none priv count e = rw e refl

-- What a read is, where there is a message to read.
read-some :
    (priv : Ksock) (count : ℕ) (msg : Msg)
    → priv.read.msg ≡ some msg
    → read priv count ≡ (
      (read_loop (suc (rounds priv.read)) priv.read count).0,
      if ltb (read_loop (suc (rounds priv.read)) priv.read count).1.which num_parts
          then record priv { read = (read_loop (suc (rounds priv.read)) priv.read count).1 }
          else empty_read_msg priv,
    )
unfolding read
read-some priv count msg e = rw e refl

-- The reader after a read is in good order, and the bytes it gave are the next ones.
abbrev pub Advanced : Ksock → ℕ → List ℕ × Ksock → Type 0
Advanced priv count result =
    (result.0 ≡ take count (unread priv))
    × (unread result.1 ≡ drop count (unread priv))
    × IsReading result.1

after-Advanced :
    (priv : Ksock) (count : ℕ) (out : List ℕ) (this : ReadMsg)
    → priv.read.msg ≢ none
    → Whole priv.read
    → Taken priv.read count (out, this)
    → Advanced priv count
        (out, if ltb this.which num_parts then record priv { read = this } else empty_read_msg priv)
unfolding unread of_message IsReading empty_read_msg
after-Advanced priv count out this has w taken =
    let split = take_of_split count (remaining priv.read) out (remaining this) taken.0 taken.1 in
    let all : unread priv ≡ remaining priv.read = unread-read_state priv priv.read has in
    let w' : Whole this = subst (λ s. Whole s) (sym taken.3) w in
    let has' : this.msg ≢ none = λ e. has (sym (ap (λ s. s.msg) taken.3) ∙ e) in
    elim (Bool-cases (ltb this.which num_parts)) [
      | inl going ↦
          rw (going, all) (split.0, unread-read_state priv this has' ∙ split.1, inr (w', taken.2))
      | inr done ↦
          rw (done, all) (split.0, sym (remaining_done this w' (ground arith)) ∙ split.1, inl refl)
    ]

-- On a Ksock that is reading no message, or is at a place in a whole one, a read gives the next bytes
-- of the message, as many as were asked for or all that there are, and leaves the Ksock at the bytes
-- after them, in the same good order.
pub read-Advanced :
    (priv : Ksock) (count : ℕ) → IsReading priv → Advanced priv count (read priv count)
unfolding IsReading
read-Advanced priv count reading = elim (Option-cases priv.read.msg) [
  | inl nothing ↦
      subst (λ r. Advanced priv count r) (sym (read-none priv count nothing))
        (
          rw (unread-none priv nothing) (sym (take_all count [] (omega arith))),
          rw (unread-none priv nothing) (sym (drop-nil count)),
          inl nothing,
        )
  | inr found ↦
      let has : priv.read.msg ≢ none = λ e. some-not_none found.0 (sym found.1 ∙ e) in
      subst (λ r. Advanced priv count r) (sym (read-some priv count found.0 found.1))
        (elim reading [
          | inl nothing ↦ absurd (has nothing)
          | inr (w, placed) ↦
              let result = read_loop (suc (rounds priv.read)) priv.read count in
              after-Advanced priv count result.0 result.1 has w
                (loop-Taken (suc (rounds priv.read)) priv.read count (omega arith) w placed)
        ])
]
