-- ===== src/Sending/Held.antt =====
-- kbus/kbus_main.c: the message that kbus_send gives to kbus_write_to_recipients, and keeps where it
-- cannot be sent at once.
use kbus.Prelude.{
  sym, ap, ◌∙◌, subst, not, clear_bit, ◌+◌, ℕ, ◌≡◌, refl, inl, inr, true, false, ◌&&◌, List, arith,
  ◌==◌, if◌then◌else◌, Bool, Bool-cases, Option, some, Option-cases,
}
use kbus.Errno.{Result, ok, Result-cases}
use kbus.Name.{invalid_message_name}
use kbus.Message.{Msg, DataPtr, synthetic}
use kbus.Ksock.Records.{Ksock, WriteMsg}
use kbus.Device.{Dev, next_serial_num}
use kbus.Sending.{clean, stamp, localise, copy_pointy_parts, copy_data}

stamped :
    (dev : Dev) (our : ℕ) (sending : Bool) (msg : Msg)
    → (stamp dev our sending msg).0 ≡ record msg {
      id =
          if not sending && msg.id.network_id == 0
          then record { network_id = 0; serial_num = (next_serial_num dev).0 }
          else msg.id;
      from = our;
    }
unfolding stamp
stamped dev our sending msg = elim (Bool-cases (not sending && msg.id.network_id == 0)) [
  | inl new ↦ rw (new, stamp) refl
  | inr old ↦ rw (old, stamp) refl
]

ok_inj : {A : Type 0} {a b : A} → ok a ≡ ok b → a ≡ b
ok_inj e = cc

module _ (isalnum : ℕ → Bool) (page_size : ℕ) (copy_from_user : ℕ → ℕ → Option (List ℕ)) where
  -- Where the name and the data of a message to send are, and what is there.
  abbrev pub name_from : Ksock → Msg → Option (List ℕ)
  name_from k msg =
      if k.write.pointers_are_local
      then some msg.name_ref
      else copy_from_user k.write.user_name_ptr (msg.name_len + 1)

  abbrev pub data_from : Ksock → Msg → Result (Option DataPtr)
  data_from k msg =
      if k.write.pointers_are_local
      then ok msg.data_ref
      else copy_data isalnum page_size copy_from_user msg.data_len k.write.user_data_ptr

  -- The message that a blocked kbus_send keeps: it is finished, and as it was written but for the
  -- flag that marks synthetic messages and `extra`, which are cleared, for its sender, for its id,
  -- which it gets the first time that it is sent if it has no network id, and for its name and data,
  -- which, if they were still in user space, have been copied from there.
  pub record IsHeld (dev : Dev) (our : ℕ) (k : Ksock) (msg : Msg) (this : WriteMsg) (held : Msg)
      : Type 0 where
    pub finished : this.is_finished ≡ true
    pub writing : this ≡ (
        if k.write.pointers_are_local
        then k.write
        else record k.write { user_name_ptr = 0; user_data_ptr = 0; pointers_are_local = true })
    pub name : name_from k msg ≡ some held.name_ref
    pub data_ : data_from k msg ≡ ok held.data_ref
    pub others : held ≡ record msg {
      id =
          if not k.sending && msg.id.network_id == 0
          then record { network_id = 0; serial_num = (next_serial_num dev).0 }
          else msg.id;
      from = our;
      flags = clear_bit synthetic msg.flags;
      extra = 0;
      name_ref = held.name_ref;
      data_ref = held.data_ref;
    }

  -- What kbus_copy_pointy_parts does where it succeeds.
  copied_from :
      (k : Ksock) (msg : Msg) (this : WriteMsg) (local : Msg)
      → k.write.pointers_are_local ≡ false
      → copy_pointy_parts isalnum page_size copy_from_user k.write (clean msg) ≡ ok (this, local)
      → (name : List ℕ) × (new_data : Option DataPtr) × (copy_from_user k.write.user_name_ptr
            (msg.name_len + 1)
          ≡ some name)
        × (copy_data isalnum page_size copy_from_user msg.data_len k.write.user_data_ptr
            ≡ ok new_data)
        × (this
            ≡ record k.write { user_name_ptr = 0; user_data_ptr = 0; pointers_are_local = true })
        × (local ≡ record (clean msg) { name_ref = name; data_ref = new_data })
  unfolding copy_pointy_parts
  copied_from k msg this local away copied =
      elim (Option-cases (copy_from_user k.write.user_name_ptr (msg.name_len + 1))) [
        | inl nothing ↦ absurd (ground (arith, nothing, copied))
        | inr (name, there) ↦ elim (Bool-cases (invalid_message_name isalnum name msg.name_len)) [
          | inl bad ↦ absurd (ground (arith, there, bad, copied))
          | inr good ↦
              elim (Result-cases
                (copy_data isalnum page_size copy_from_user msg.data_len k.write.user_data_ptr)) [
                  | inr (e, failed) ↦ absurd (ground (arith, there, good, failed, copied))
                  | inl (new_data, done) ↦
                      let given : WriteMsg × Msg = (
                        record k.write {
                          user_name_ptr = 0;
                          user_data_ptr = 0;
                          pointers_are_local = true;
                        },
                        record (clean msg) { name_ref = name; data_ref = new_data },
                      ) in
                      let same : given ≡ (this, local) =
                        ok_inj (ground (arith, there, good, done, copied)) in
                      (
                        name,
                        new_data,
                        there,
                        done,
                        sym (ap (λ p. p.0) same),
                        sym (ap (λ p. p.1) same),
                      )
                ]
        ]
      ]

  gives-IsHeld :
      (dev : Dev) (our : ℕ) (k : Ksock) (msg local : Msg) (this : WriteMsg) (name : List ℕ)
      (new_data : Option DataPtr)
      → this.is_finished ≡ true
      → this ≡ (
          if k.write.pointers_are_local
          then k.write
          else record k.write { user_name_ptr = 0; user_data_ptr = 0; pointers_are_local = true })
      → name_from k msg ≡ some name
      → data_from k msg ≡ ok new_data
      → local ≡ record (clean msg) { name_ref = name; data_ref = new_data }
      → IsHeld dev our k msg this (stamp dev our k.sending local).0
  gives-IsHeld dev our k msg local this name new_data finished writing name_there data_there same =
      subst (λ h. IsHeld dev our k msg this h)
        (sym (
          stamped dev our k.sending local
          ∙ ap
              (λ (m : Msg). record m {
                id =
                    if not k.sending && m.id.network_id == 0
                    then record { network_id = 0; serial_num = (next_serial_num dev).0 }
                    else m.id;
                from = our;
              })
              same))
        record {
          finished = finished;
          writing = writing;
          name = name_there;
          data_ = data_there;
          others = refl;
        }

  pub localised-IsHeld :
      (dev : Dev) (our : ℕ) (k : Ksock) (msg : Msg) (this : WriteMsg) (local : Msg)
      → k.write.is_finished ≡ true
      → localise isalnum page_size copy_from_user k.write (clean msg) ≡ ok (this, local)
      → IsHeld dev our k msg this (stamp dev our k.sending local).0
  unfolding localise
  localised-IsHeld dev our k msg this local finished localised =
      elim (Bool-cases k.write.pointers_are_local) [
        | inl here ↦
            let given : WriteMsg × Msg = (k.write, clean msg) in
            let same : given ≡ (this, local) = ok_inj (ground (arith, here, localised)) in
            gives-IsHeld dev our k msg local this msg.name_ref msg.data_ref
              (sym (ap (λ p. p.0.is_finished) same) ∙ finished)
              (sym (ap (λ p. p.0) same) ∙ rw here refl) (rw here refl) (rw here refl)
              (sym (ap (λ p. p.1) same))
        | inr away ↦
            let copied = copied_from k msg this local away (ground (arith, away, localised)) in
            gives-IsHeld dev our k msg local this copied.0 copied.1
              (ap (λ (t : WriteMsg). t.is_finished) copied.4 ∙ finished) (copied.4 ∙ rw away refl)
              (rw away copied.2) (rw away copied.3) copied.5
      ]
