-- ===== src/Writing/Places.antt =====
-- A message that is being written by kbus_write of kbus/kbus_main.c, in the middle of a part.
use kbus.Prelude.{
  ℕ, zero, suc, ◌+◌, ◌≤◌, ◌<◌, ◌≡◌, ◌≢◌, ◌⊎◌, ◌∙◌, refl, sym, ap, inl, inr, Bool, true, false, none,
  some, List, [], ◌++◌, append_assoc, length-append, arith, ◌==◌, length, Bool-cases, Option-cases,
}
use kbus.Errno.{Result, ok, err}
use kbus.Message.{DataPtr}
use kbus.Ksock.Records.{WriteMsg}
use kbus.Name.{invalid_message_name}
use kbus.Header.{u32_at, msg_end_guard, header_of}
use kbus.Writing.{
  accept, check_message_written, message_of, bytes_of, part_len, store_bytes, store_data,
  write_data_parts, alloc_ref_data, finish_part, finish_header, finish_name, finish_data,
  finish_guard,
}
use kbus.Writing.Filling.{
  data_with, part_after, part_after-nil, fresh-holding, write_data_parts-more,
}

-- The same at another place.
abbrev pub placed : ℕ → WriteMsg → WriteMsg
placed p this = record this { pos = p }

-- The length of the data of the message.
abbrev pub data_len_of : WriteMsg → ℕ
data_len_of this = (message_of this.msg).data_len

module _ (page : ℕ) (pos : 0 < page) where
  -- The data holds some bytes, or has still to be allocated.
  abbrev pub Holds : WriteMsg → List ℕ → Type 0
  Holds this bytes =
      (0 < data_len_of this)
      × (((this.ref_data ≡ none) × (bytes ≡ []))
          ⊎ ((this.ref_data ≡ some (data_with page (data_len_of this) bytes))
              × (this.ref_data_index ≡ part_after page (data_len_of this) bytes)))

  store_data-unset :
      (this : WriteMsg) (bytes : List ℕ)
      → 0 < data_len_of this
      → this.ref_data ≡ none
      → store_data page this bytes
        ≡ write_data_parts page
            (record this { ref_data_index = 0 })
            (alloc_ref_data page (data_len_of this))
            bytes
  unfolding store_data write_data_parts
  store_data-unset this bytes has unset =
      let e : (data_len_of this == 0) ≡ false = ground arith in rw (e, unset) refl

  store_data-set :
      (this : WriteMsg) (ref_data : DataPtr) (bytes : List ℕ)
      → 0 < data_len_of this
      → this.ref_data ≡ some ref_data
      → store_data page this bytes ≡ write_data_parts page this ref_data bytes
  unfolding store_data write_data_parts
  store_data-set this ref_data bytes has set =
      let e : (data_len_of this == 0) ≡ false = ground arith in rw (e, set) refl

  pub store_data-Holds :
      (this : WriteMsg) (there bytes : List ℕ)
      → Holds this there
      → length there + length bytes ≤ data_len_of this
      → store_data page this bytes ≡ record this {
        ref_data = some (data_with page (data_len_of this) (there ++ bytes));
        ref_data_index = part_after page (data_len_of this) (there ++ bytes);
      }
  store_data-Holds this there bytes (has, inl (unset, empty)) fit =
      let len = data_len_of this in
      rw (store_data-unset this bytes has unset, empty)
        (ap (λ dp. write_data_parts page (record this { ref_data_index = 0 }) dp bytes)
            (fresh-holding page len pos has)
          ∙ write_data_parts-more page len pos has (record this { ref_data_index = 0 }) [] bytes
              (omega arith) (sym (part_after-nil page len pos has)))
  store_data-Holds this there bytes (has, inr (set, place)) fit =
      store_data-set this (data_with page (data_len_of this) there) bytes has set
      ∙ write_data_parts-more page (data_len_of this) pos has this there bytes fit place

  pub store_data-zero :
      (this : WriteMsg) (bytes : List ℕ) → data_len_of this ≡ 0 → store_data page this bytes ≡ this
  unfolding store_data
  store_data-zero this bytes none_there =
      let e : (data_len_of this == 0) ≡ true = ground arith in rw e refl

  -- The bytes of the data that have been written, while it is being written.
  abbrev pub DataAt : WriteMsg → Type 0
  DataAt this =
      (data_len_of this ≡ 0) ⊎ ((there : List ℕ) × (length there ≡ this.pos) × Holds this there)

  -- A writer that can go on.
  abbrev pub Good : WriteMsg → Type 0
  Good this =
      (this.msg ≢ none)
      × (this.which ≤ 6)
      × (this.which < 3 → this.ref_data ≡ none)
      × (this.which ≡ 3 → DataAt this)

  -- Two pieces of a part are stored as one.
  pub store_bytes-append :
      (n : ℕ) (this : WriteMsg) (a b : List ℕ)
      → (n ≡ 3 → DataAt this)
      → this.pos + length a + length b ≤ part_len (message_of this.msg) n
      → store_bytes page n (record (store_bytes page n this a) { pos = this.pos + length a }) b
        ≡ record (store_bytes page n this (a ++ b)) { pos = this.pos + length a }
  unfolding store_bytes bytes_of part_len
  store_bytes-append zero this a b held room =
      ap (λ l. record this { user_msg = l; pos = this.pos + length a })
        (append_assoc this.user_msg a b)
  store_bytes-append (suc zero) this a b held room =
      ap (λ l. record this { ref_name = some l; pos = this.pos + length a })
        (append_assoc (bytes_of this.ref_name) a b)
  store_bytes-append (suc (suc zero)) this a b held room = refl
  store_bytes-append (suc (suc (suc zero))) this a b held room = elim (held refl) [
    | inl none_there ↦
        ap (λ s. store_data page (placed (this.pos + length a) s) b)
          (store_data-zero this a none_there)
        ∙ (store_data-zero (placed (this.pos + length a) this) b none_there
            ∙ ap (placed (this.pos + length a)) (sym (store_data-zero this (a ++ b) none_there)))
    | inr (there, len, holds) ↦
        let holding : List ℕ → WriteMsg = λ l. record this {
          pos = this.pos + length a;
          ref_data = some (data_with page (data_len_of this) l);
          ref_data_index = part_after page (data_len_of this) l;
        } in
        ap (λ s. store_data page (placed (this.pos + length a) s) b)
          (store_data-Holds this there a holds (omega arith))
        ∙ (store_data-Holds (holding (there ++ a)) (there ++ a) b (holds.0, inr (refl, refl))
              (omega (arith, length-append there a))
            ∙ (ap holding (append_assoc there a b)
                ∙ ap (placed (this.pos + length a)) (
                    sym (
                      store_data-Holds this there (a ++ b) holds
                        (omega (arith, length-append a b))))))
  ]
  store_bytes-append (suc (suc (suc (suc zero)))) this a b held room = refl
  store_bytes-append (suc (suc (suc (suc (suc n))))) this a b held room =
      ap (λ l. record this { guard = l; pos = this.pos + length a }) (append_assoc this.guard a b)

  -- What a store leaves as it is.
  pub store_bytes-keeps :
      (n : ℕ) (this : WriteMsg) (bytes : List ℕ)
      → ((store_bytes page n this bytes).msg ≡ this.msg)
        × ((store_bytes page n this bytes).is_finished ≡ this.is_finished)
        × ((store_bytes page n this bytes).which ≡ this.which)
        × (n < 3 → (store_bytes page n this bytes).ref_data ≡ this.ref_data)
  unfolding store_bytes store_data write_data_parts
  store_bytes-keeps zero this bytes = (refl, refl, refl, λ lt. refl)
  store_bytes-keeps (suc zero) this bytes = (refl, refl, refl, λ lt. refl)
  store_bytes-keeps (suc (suc zero)) this bytes = (refl, refl, refl, λ lt. refl)
  store_bytes-keeps (suc (suc (suc zero))) this bytes = elim (Bool-cases (data_len_of this == 0)) [
    | inl e ↦ rw e (refl, refl, refl, λ lt. refl)
    | inr e ↦ elim (Option-cases this.ref_data) [
      | inl unset ↦ rw (e, unset) (refl, refl, refl, λ lt. absurd (omega arith))
      | inr (ref_data, set) ↦ rw (e, set) (refl, refl, refl, λ lt. absurd (omega arith))
    ]
  ]
  store_bytes-keeps (suc (suc (suc (suc zero)))) this bytes = (refl, refl, refl, λ lt. refl)
  store_bytes-keeps (suc (suc (suc (suc (suc n))))) this bytes = (refl, refl, refl, λ lt. refl)

module _ (isalnum : ℕ → Bool) (page max_message_size : ℕ) where
  -- The result of the end of a part, at another place.
  abbrev pub replaced : ℕ → Result WriteMsg → Result WriteMsg
  replaced p (err e) = err e
  replaced p (ok s) = ok (record s { pos = p })

  -- The end of a part does not depend on the place.
  pub finish_part-replaced :
      (n p : ℕ) (this : WriteMsg)
      → finish_part isalnum page max_message_size n (record this { pos = p })
        ≡ replaced p (finish_part isalnum page max_message_size n this)
  unfolding finish_part finish_header finish_name finish_data finish_guard
  finish_part-replaced zero p this =
      go (check_message_written max_message_size (header_of this.user_msg))
    where
      go :
          (r : Result (Unit {0}))
          → (elim r [ err e ↦ err e | ok _ ↦ ok (accept (record this { pos = p })) ])
            ≡ replaced p (elim r [ err e ↦ err e | ok _ ↦ ok (accept this) ])
      go (err e) = refl
      go (ok x) = refl
  finish_part-replaced (suc zero) p this =
      elim (Bool-cases
        (invalid_message_name isalnum (bytes_of this.ref_name) (message_of this.msg).name_len)) [
          | inl e ↦ rw e refl
          | inr e ↦ rw e refl
        ]
  finish_part-replaced (suc (suc zero)) p this = refl
  finish_part-replaced (suc (suc (suc zero))) p this = elim (Bool-cases (data_len_of this == 0)) [
    | inl e ↦ rw e refl
    | inr e ↦ rw e refl
  ]
  finish_part-replaced (suc (suc (suc (suc zero)))) p this = refl
  finish_part-replaced (suc (suc (suc (suc (suc n))))) p this =
      elim (Bool-cases (u32_at this.guard 0 == msg_end_guard)) [
        | inl e ↦ rw e refl
        | inr e ↦ rw e refl
      ]

  -- What holds of the state after a part that has ended well.
  abbrev pub OnOk : (WriteMsg → Type 0) → Result WriteMsg → Type 0
  OnOk P (err e) = Unit {0}
  OnOk P (ok s) = P s

  pub finish_part-keeps :
      (n : ℕ) (this : WriteMsg)
      → this.msg ≢ none
      → OnOk
          (λ s. (s.msg ≢ none) × (n < 3 → s.ref_data ≡ this.ref_data))
          (finish_part isalnum page max_message_size n this)
  unfolding finish_part finish_header finish_name finish_data finish_guard
  finish_part-keeps zero this has =
      go (check_message_written max_message_size (header_of this.user_msg))
    where
      go :
          (r : Result (Unit {0}))
          → OnOk
              (λ s. (s.msg ≢ none) × (0 < 3 → s.ref_data ≡ this.ref_data))
              (elim r [ err e ↦ err e | ok _ ↦ ok (accept this) ])
      go (err e) = tt
      go (ok x) = ((λ e. absurd cc), λ lt. refl)
  finish_part-keeps (suc zero) this has =
      elim (Bool-cases
        (invalid_message_name isalnum (bytes_of this.ref_name) (message_of this.msg).name_len)) [
          | inl e ↦ rw e tt
          | inr e ↦ rw e ((λ e. absurd cc), λ lt. refl)
        ]
  finish_part-keeps (suc (suc zero)) this has = (has, λ lt. refl)
  finish_part-keeps (suc (suc (suc zero))) this has = elim (Bool-cases (data_len_of this == 0)) [
    | inl e ↦ rw e (has, λ lt. refl)
    | inr e ↦ rw e ((λ e. absurd cc), λ lt. absurd (omega arith))
  ]
  finish_part-keeps (suc (suc (suc (suc zero)))) this has = (has, λ lt. refl)
  finish_part-keeps (suc (suc (suc (suc (suc n))))) this has =
      elim (Bool-cases (u32_at this.guard 0 == msg_end_guard)) [
        | inl e ↦ rw e (has, λ lt. absurd (omega arith))
        | inr e ↦ rw e tt
      ]
