-- ===== src/Writing/Calls.antt =====
-- The calls of kbus_write of kbus/kbus_main.c on a Ksock, one after the other.
use kbus.Prelude.{
  ℕ, ◌+◌, ◌-◌, ◌<◌, ◌≡◌, ◌≢◌, ◌⊎◌, ◌∙◌, refl, sym, ap, subst, inl, inr, Bool, true, false, none,
  some, List, ◌++◌, length-append, arith, if◌then◌else◌, length, Bool-cases, Option-cases,
}
use kbus.Errno.{Result, ok, err, ealready}
use kbus.Lifecycle.{empty_write_msg}
use kbus.Message.{Msg}
use kbus.Ksock.Records.{Ksock, WriteMsg, no_write_msg}
use kbus.Writing.{write_loop, begin_from, begin_write, outcome, write, zero_message}
use kbus.Writing.Places.{Good}
use kbus.Writing.Twice.{settle, then_write, Joins}
use kbus.Writing.Again.{join_loop}
use kbus.Writing.Lasting.{loop-DoneGood, DoneGood}

some-not_none : {m : Msg} → some m ≢ none
some-not_none {m} = cc

begin_write-same : (this : WriteMsg) → this.msg ≢ none → begin_write this ≡ this
unfolding begin_write
begin_write-same this has = elim (Option-cases this.msg) [
  | inl e ↦ absurd (has e)
  | inr (m, e) ↦ ap (λ n. begin_from n this) e
]

pub begin_write-none :
    (this : WriteMsg)
    → this.msg ≡ none
    → begin_write this ≡ record no_write_msg { msg = some zero_message }
unfolding begin_write
begin_write-none this e = ap (λ n. begin_from n this) e

module _ (isalnum : ℕ → Bool) (page max_message_size : ℕ) (pos : 0 < page) where
  -- A Ksock that is writing no message, or is at a place in one.
  abbrev pub IsWriting : Ksock → Type 0
  IsWriting priv = (priv.write.msg ≡ none) ⊎ Good page pos priv.write

  -- A further write, where the one before has not failed.
  abbrev pub and_write : Ksock × Result ℕ → List ℕ → Ksock × Result ℕ
  and_write (priv, err e) bytes = (priv, err e)
  and_write (priv, ok count) bytes =
      let (priv', retval) = write isalnum page max_message_size priv bytes in
      (priv', elim retval [ err e ↦ err e | ok more ↦ ok (count + more) ])

  abbrev pub write_loop_8 : WriteMsg → List ℕ → WriteMsg × Result (Unit {0})
  write_loop_8 this bytes = write_loop isalnum page max_message_size 8 this bytes

  pub write-going :
      (priv : Ksock) (bytes : List ℕ)
      → priv.sending ≡ false
      → write isalnum page max_message_size priv bytes
        ≡ outcome priv (length bytes) (write_loop_8 (begin_write priv.write) bytes)
  unfolding write
  write-going priv bytes going =
      ap
        (λ c.
          if c
          then (empty_write_msg priv, err ealready)
          else outcome priv (length bytes)
              (write_loop isalnum page max_message_size 8 (begin_write priv.write) bytes))
        going

  write-sending_state :
      (priv : Ksock) (bytes : List ℕ)
      → priv.sending ≡ true
      → write isalnum page max_message_size priv bytes ≡ (empty_write_msg priv, err ealready)
  unfolding write
  write-sending_state priv bytes sending =
      ap
        (λ c.
          if c
          then (empty_write_msg priv, err ealready)
          else outcome priv (length bytes)
              (write_loop isalnum page max_message_size 8 (begin_write priv.write) bytes))
        sending

  outcome-settle :
      (priv : Ksock) (count : ℕ) (r : WriteMsg × Result (Unit {0}))
      → outcome priv count r ≡ outcome priv count (settle r)
  unfolding empty_write_msg
  outcome-settle priv count (this, err e) = refl
  outcome-settle priv count (this, ok u) = refl

  begin_write-cases :
      (this : WriteMsg) → (this.msg ≡ none) ⊎ Good page pos this → Good page pos (begin_write this)
  begin_write-cases this (inl nothing) =
      subst (Good page pos) (sym (begin_write-none this nothing))
        ((λ e. some-not_none e), omega arith, (λ lt. refl), λ is_data. absurd (omega arith))
  begin_write-cases this (inr good) =
      subst (Good page pos) (sym (begin_write-same this good.0)) good

  -- The place at the start is within the message.
  start_part : (this : WriteMsg) → Good page pos this → (6 - this.which) + this.which ≡ 6
  start_part this good = omega (arith, good.1)

  write-joined :
      (priv : Ksock) (a b : List ℕ)
      → Good page pos (begin_write priv.write)
      → settle (write_loop_8 (begin_write priv.write) (a ++ b))
        ≡ settle (
            then_write isalnum page max_message_size 8 pos
              (write_loop_8 (begin_write priv.write) a)
              b)
  unfolding Joins
  write-joined priv a b good =
      join_loop isalnum page max_message_size 8 pos (6 - (begin_write priv.write).which)
        (begin_write priv.write) a b (omega (arith, good.1)) (omega arith) good

  first_call :
      (priv : Ksock) (a : List ℕ)
      → Good page pos (begin_write priv.write)
      → DoneGood isalnum page max_message_size 8 pos (write_loop_8 (begin_write priv.write) a)
  first_call priv a good =
      loop-DoneGood isalnum page max_message_size 8 pos (6 - (begin_write priv.write).which)
        (begin_write priv.write) a (omega (arith, good.1)) (omega arith) good

  -- The second call goes on where the first one ended.
  second_call :
      (priv : Ksock) (a b : List ℕ) (r : WriteMsg × Result (Unit {0}))
      → priv.sending ≡ false
      → DoneGood isalnum page max_message_size 8 pos r
      → outcome priv (length (a ++ b)) (then_write isalnum page max_message_size 8 pos r b)
        ≡ and_write (outcome priv (length a) r) b
  second_call priv a b (this, err e) going good = refl
  second_call priv a b (this, ok u) going good =
      go (write_loop_8 this b)
      ∙ ap (λ r. (r.0, elim r.1 [ err e ↦ err e | ok more ↦ ok (length a + more) ]))
          (sym (
            write-going (record priv { write = this }) b going
            ∙ ap (λ w. outcome priv (length b) (write_loop_8 w b)) (begin_write-same this good.0)))
    where
      go :
          (r : WriteMsg × Result (Unit {0}))
          → outcome priv (length (a ++ b)) r ≡ (
            (outcome priv (length b) r).0,
            elim (outcome priv (length b) r).1 [ err e ↦ err e | ok more ↦ ok (length a + more) ],
          )
      go (this', err e) = refl
      go (this', ok u') = ap (λ n. (record priv { write = this' }, ok n)) (length-append a b)

  -- On a Ksock that is writing no message, or is at a place in one, two writes one after the other
  -- have the effect of one write of their bytes together, on the Ksock and in the number of bytes
  -- that is returned, and where the first fails the one write fails with the same error. (A page is
  -- not empty.)
  pub write-append :
      (priv : Ksock) (a b : List ℕ)
      → IsWriting priv
      → write isalnum page max_message_size priv (a ++ b)
        ≡ and_write (write isalnum page max_message_size priv a) b
  write-append priv a b writing = elim (Bool-cases priv.sending) [
    | inl sending ↦
        write-sending_state priv (a ++ b) sending
        ∙ ap (λ r. and_write r b) (sym (write-sending_state priv a sending))
    | inr going ↦
        let good = begin_write-cases priv.write writing in
        let first = write_loop_8 (begin_write priv.write) a in
        write-going priv (a ++ b) going
        ∙ (outcome-settle priv (length (a ++ b)) (write_loop_8 (begin_write priv.write) (a ++ b))
            ∙ (ap (outcome priv (length (a ++ b))) (write-joined priv a b good)
                ∙ (sym (
                      outcome-settle priv (length (a ++ b))
                        (then_write isalnum page max_message_size 8 pos first b))
                    ∙ (second_call priv a b first going (first_call priv a good)
                        ∙ ap (λ r. and_write r b) (sym (write-going priv a going))))))
  ]

  -- A Ksock that is writing no message, or is at a place in one, is so again after any write, whether it
  -- fails or not.
  pub write-IsWriting :
      (priv : Ksock) (bytes : List ℕ)
      → IsWriting priv
      → IsWriting (write isalnum page max_message_size priv bytes).0
  unfolding empty_write_msg
  write-IsWriting priv bytes writing = elim (Bool-cases priv.sending) [
    | inl sending ↦
        subst (λ r. IsWriting r.0) (sym (write-sending_state priv bytes sending)) (inl refl)
    | inr going ↦
        let good = begin_write-cases priv.write writing in
        subst (λ r. IsWriting r.0) (sym (write-going priv bytes going))
          (go (write_loop_8 (begin_write priv.write) bytes) (first_call priv bytes good))
  ]
    where
      go :
          (r : WriteMsg × Result (Unit {0}))
          → DoneGood isalnum page max_message_size 8 pos r
          → IsWriting (outcome priv (length bytes) r).0
      go (this, err e) done = inl refl
      go (this, ok u) done = inr done
