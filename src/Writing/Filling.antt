-- ===== src/Writing/Filling.antt =====
-- kbus_write_data_parts of kbus/kbus_main.c puts the bytes where Layout says.
use kbus.Prelude.{
  ℕ, zero, suc, ◌+◌, ◌-◌, ◌*◌, ◌/◌, ◌%◌, ◌≤◌, ◌<◌, ◌≡◌, ◌⊎◌, ◌∙◌, refl, sym, ap, inl, inr, List, [],
  ◌∷◌, ◌++◌, append-nil, append_assoc, arith, ◌==◌, if◌then◌else◌, length, get_or, take, drop,
  flatten, take-append-drop, length-append, length-drop, length-take, Bool-cases, lesser, some,
}
use native.Mathlib.Nat.{mod-lt, mod-add-div'}
use kbus.Message.{DataPtr}
use kbus.Ksock.Records.{WriteMsg}
use kbus.Writing.{write_data_parts, this_part_len, fill_parts, alloc_ref_data}
use kbus.Writing.Layout.{
  layout, layout-nil, filled-nil, filled, total, Roomy, length-layout, layout-nil, filled-nil,
  filled-in, layout-more, flatten-layout, layout-within,
}

-- The lengths of the parts: all but the last are pages.
abbrev pub rooms : ℕ → ℕ → ℕ → List ℕ
rooms page last zero = []
rooms page last (suc zero) = last ∷ []
rooms page last (suc (suc n)) = page ∷ rooms page last (suc n)

length-rooms : (page last n : ℕ) → length (rooms page last n) ≡ n
length-rooms page last zero = refl
length-rooms page last (suc zero) = refl
length-rooms page last (suc (suc n)) = omega (arith, length-rooms page last (suc n))

get-rooms :
    (page last n i : ℕ)
    → i < n
    → get_or (rooms page last n) i 0 ≡ (if i == n - 1 then last else page)
get-rooms page last zero i lt = absurd (omega arith)
get-rooms page last (suc zero) zero lt = ground arith
get-rooms page last (suc zero) (suc i) lt = absurd (omega arith)
get-rooms page last (suc (suc n)) zero lt = ground arith
get-rooms page last (suc (suc n)) (suc i) lt = ground (arith, get-rooms page last (suc n) i)

pub total-rooms : (page last n : ℕ) → total (rooms page last (suc n)) ≡ n * page + last
total-rooms page last zero = omega arith
total-rooms page last (suc n) = grind (arith, total-rooms page last n)

pub rooms-Roomy : (page last n : ℕ) → 0 < page → 0 < last → Roomy (rooms page last n)
rooms-Roomy page last zero pos pos' = tt
rooms-Roomy page last (suc zero) pos pos' = (pos', tt)
rooms-Roomy page last (suc (suc n)) pos pos' = (pos, rooms-Roomy page last (suc n) pos pos')

abbrev pub sizes_of : ℕ → ℕ → DataPtr → List ℕ
sizes_of page num ref_data = rooms page ref_data.last_page_len num

-- The data with some bytes in it.
abbrev pub holding_of : ℕ → ℕ → DataPtr → List ℕ → DataPtr
holding_of page num ref_data bytes = record ref_data {
  parts = layout (sizes_of page num ref_data) bytes;
}

module _ (page num : ℕ) (ref_data : DataPtr)
    (roomy : Roomy (rooms page ref_data.last_page_len num)) where
  abbrev sizes : List ℕ
  sizes = sizes_of page num ref_data

  abbrev holding : List ℕ → DataPtr
  holding bytes = holding_of page num ref_data bytes

  room-sizes :
      (bytes : List ℕ) (i : ℕ) → i < num → this_part_len page (holding bytes) i ≡ get_or sizes i 0
  room-sizes bytes i lt =
      rw
        (
          length-layout (rooms page ref_data.last_page_len num) bytes,
          length-rooms page ref_data.last_page_len num,
        )
        (sym (get-rooms page ref_data.last_page_len num i lt))

  -- With enough rounds all of the bytes are put after those that were there.
  pub fill_parts-holding :
      (fuel : ℕ) (there bytes : List ℕ)
      → length there + length bytes ≤ total (sizes_of page num ref_data)
      → (length bytes ≡ 0) ⊎ (num < fuel + filled (sizes_of page num ref_data) there)
      → fill_parts page fuel
          (holding_of page num ref_data there)
          (filled (sizes_of page num ref_data) there)
          bytes
        ≡ (
          holding_of page num ref_data (there ++ bytes),
          filled (sizes_of page num ref_data) (there ++ bytes),
        )
  unfolding fill_parts
  fill_parts-holding zero there [] fit enough = rw (append-nil there) refl
  fill_parts-holding (suc fuel) there [] fit enough = rw (append-nil there) refl
  fill_parts-holding zero there (b ∷ bs) fit enough = absurd (
      omega (
        arith,
        filled-in sizes there roomy (omega arith),
        length-rooms page ref_data.last_page_len num,
      ))
  fill_parts-holding (suc fuel) there (b ∷ bs) fit enough =
      let bytes = b ∷ bs in
      let ii = filled sizes there in
      let sofar = get_or (layout sizes there) ii [] in
      let room = get_or sizes ii 0 in
      let to_use = lesser (room - length sofar) (length bytes) in
      let more = take to_use bytes in
      let within : length sofar ≤ room = layout-within sizes there ii in
      let taken : length more ≡ to_use = ground (arith, length-take to_use bytes) in
      let left : length (drop to_use bytes) ≡ length bytes - to_use = length-drop to_use bytes in
      let inside : ii < length sizes = filled-in sizes there roomy (omega arith) in
      let in_num : ii < num = omega (arith, length-rooms page ref_data.last_page_len num) in
      let (laid, next) = layout-more sizes there more roomy inside (ground arith) in
      let together : (there ++ more) ++ drop to_use bytes ≡ there ++ bytes =
        append_assoc there more (drop to_use bytes)
        ∙ ap (λ l. there ++ l) (take-append-drop to_use bytes) in
      let later =
        fill_parts-holding fuel (there ++ more) (drop to_use bytes)
          (ground (arith, length-append there more))
          (elim (Bool-cases (length (sofar ++ more) == room)) [
            | inl full ↦
                let e : filled sizes (there ++ more) ≡ ii + 1 = next ∙ rw full refl in
                inr (omega arith)
            | inr partial ↦ inl (ground (arith, length-append sofar more))
          ]) in
      rw (room-sizes there ii in_num, sym laid, sym next)
        (later ∙ ap (λ l. (holding l, filled sizes l)) together)

-- The number of pages of some data and the length of the last one.
pages_split :
    (page data_len q : ℕ)
    → 0 < page
    → 0 < data_len
    → (data_len + page - 1) % page + q * page ≡ data_len + page - 1
    → (n : ℕ) × (q ≡ suc n) × (n * page < data_len)
pages_split page data_len zero pos has e = absurd (omega (arith, mod-lt (data_len + page - 1) pos))
pages_split page data_len (suc n) pos has e =
    (n, refl, grind (arith, mod-lt (data_len + page - 1) pos))

-- How many parts some data has.
abbrev pub num_pages : ℕ → ℕ → ℕ
num_pages page data_len = (data_len + page - 1) / page

-- The data as it is allocated.
abbrev pub fresh : ℕ → ℕ → DataPtr
fresh page data_len = alloc_ref_data page data_len

-- What is in the data once some bytes have been written, and the part to go on with.
abbrev pub data_with : ℕ → ℕ → List ℕ → DataPtr
data_with page data_len bytes =
    holding_of page (num_pages page data_len) (fresh page data_len) bytes

abbrev pub part_after : ℕ → ℕ → List ℕ → ℕ
part_after page data_len bytes =
    filled (sizes_of page (num_pages page data_len) (fresh page data_len)) bytes

module _ (page data_len : ℕ) (pos : 0 < page) (some_data : 0 < data_len) where
  split : (n : ℕ) × ((num_pages page data_len) ≡ suc n) × (n * page < data_len)
  split =
      pages_split page data_len (num_pages page data_len) pos some_data
        (mod-add-div' (data_len + page - 1) page)

  last_page-fresh : (fresh page data_len).last_page_len ≡ data_len - split.0 * page
  unfolding alloc_ref_data
  last_page-fresh = rw split.1 (ap (λ m. data_len - m * page) (omega arith))

  pub fresh-Roomy : Roomy (rooms page (fresh page data_len).last_page_len (num_pages page data_len))
  fresh-Roomy =
      rooms-Roomy page (fresh page data_len).last_page_len (num_pages page data_len) pos
        (omega (arith, last_page-fresh, split.2))

  pub total-fresh :
      total (rooms page (fresh page data_len).last_page_len (num_pages page data_len)) ≡ data_len
  total-fresh =
      rw (split.1, last_page-fresh)
        (total-rooms page (data_len - split.0 * page) split.0 ∙ omega (arith, split.2))

  -- What is allocated holds nothing.
  pub fresh-holding :
      (fresh page data_len) ≡ holding_of page (num_pages page data_len) (fresh page data_len) []
  unfolding alloc_ref_data
  fresh-holding =
      rw
        (
          layout-nil (rooms page (fresh page data_len).last_page_len (num_pages page data_len)),
          length-rooms page (fresh page data_len).last_page_len (num_pages page data_len),
        )
        refl

  pub part_after-nil : (part_after page data_len) [] ≡ 0
  part_after-nil =
      filled-nil (sizes_of page (num_pages page data_len) (fresh page data_len)) fresh-Roomy

  pub write_data_parts-more :
      (this : WriteMsg) (there bytes : List ℕ)
      → length there + length bytes ≤ data_len
      → this.ref_data_index ≡ (part_after page data_len) there
      → write_data_parts page this ((data_with page data_len) there) bytes ≡ record this {
        ref_data = some ((data_with page data_len) (there ++ bytes));
        ref_data_index = (part_after page data_len) (there ++ bytes);
      }
  unfolding write_data_parts
  write_data_parts-more this there bytes fit place =
      let filled_parts =
        fill_parts-holding page (num_pages page data_len) (fresh page data_len) fresh-Roomy
          (suc (num_pages page data_len)) there bytes (omega (arith, total-fresh))
          (inr (omega arith)) in
      rw
        (
          length-layout (rooms page (fresh page data_len).last_page_len (num_pages page data_len))
              there,
          length-rooms page (fresh page data_len).last_page_len (num_pages page data_len),
          place,
        )
        (ap (λ q. record this { ref_data = some q.0; ref_data_index = q.1 }) filled_parts)

  -- All of the data that has been written is there, in order.
  pub flatten-data_with :
      (bytes : List ℕ)
      → length bytes ≤ data_len
      → flatten ((data_with page data_len) bytes).parts ≡ bytes
  flatten-data_with bytes fit =
      flatten-layout (sizes_of page (num_pages page data_len) (fresh page data_len)) bytes
        (omega (arith, total-fresh))
