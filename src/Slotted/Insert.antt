-- ===== src/Slotted/Insert.antt =====
-- src/slotted.rs: what `insert` makes of a well-formed page, and the write of the new slot.
use relly.Prelude.{
  ℕ, ◌+◌, ◌-◌, ◌*◌, ◌%◌, ◌≤◌, ◌<◌, ◌≡◌, inl, inr, sym, subst, ◌∙◌, Bytes, length, slice, done, some,
  ltb, leb, true, false, arith, length-overwrite, ltb→lt, ltb→le, Bool-cases,
}
use relly.Slotted.{
  Slotted, Pointer, u16_end, pointer_size, pointers_size, free_space, pointer_in, put_pointer,
  pointer_at, slot_data, slot, insert_pointer, insert, initialize,
}
use relly.Slotted.Bodies.{
  length-put_pointer, pointer_in-overwrite_ne, pointer_in-put_pointer_self,
  pointer_in-put_pointer_ne, moved, pointer_in-moved, slice-put_pointer_ne, slice-moved_ne,
}

-- The pointers end before the data begins, and each points into the data.
pub record IsValid (s : Slotted) : Type 0 where
  pub area : pointers_size s ≤ s.free_space_offset
  pub inside : s.free_space_offset ≤ length s.body
  pub small : length s.body < u16_end
  pub points :
      (i : ℕ)
      → i < s.num_slots
      → (s.free_space_offset ≤ (pointer_in s.body i).offset)
        × ((pointer_in s.body i).offset + (pointer_in s.body i).len ≤ length s.body)

-- On a valid page a slot below the count is read.
abbrev pub data_of : Slotted → ℕ → Bytes
data_of s i = slice (pointer_in s.body i).offset (pointer_in s.body i).len s.body

pub slot-data_of :
    (s : Slotted) (i : ℕ) → IsValid s → i < s.num_slots → slot s i ≡ done (data_of s i)
unfolding slot pointer_at slot_data
slot-data_of s i v h =
    let p = v.points i h in
    let fit : leb (pointers_size s) (length s.body) ≡ true = ground arith in
    let below : ltb i s.num_slots ≡ true = ground arith in
    let whole : leb ((pointer_in s.body i).offset + (pointer_in s.body i).len) (length s.body)
        ≡ true =
      ground arith in
    rw (fit, below, whole)

module _ (index len : ℕ) (s : Slotted) (v : IsValid s) (h : index ≤ s.num_slots)
    (room : pointers_size s + pointer_size + len ≤ s.free_space_offset) where
  abbrev pub new_pointer : Pointer
  new_pointer = record { offset = s.free_space_offset - len; len = len }

  abbrev pub shifted_body : Bytes
  shifted_body = moved s.body (index + 1) index (s.num_slots - index)

  -- The page that `insert` makes.
  abbrev pub inserted : Slotted
  inserted = record s {
    num_slots = s.num_slots + 1;
    free_space_offset = s.free_space_offset - len;
    body = put_pointer shifted_body index new_pointer;
  }

  pub insert-inserted : insert index len s ≡ done (some tt, inserted)
  unfolding insert free_space insert_pointer
  insert-inserted =
      let small = v.small in
      let area = v.area in
      let inside = v.inside in
      let a : ltb s.free_space_offset (pointers_size s) ≡ false = ground arith in
      let b : ltb (s.free_space_offset - pointers_size s) (pointer_size + len) ≡ false =
        ground arith in
      let w : len % u16_end ≡ len = omega arith in
      let c : ltb s.free_space_offset len ≡ false = ground arith in
      let d : ltb (s.num_slots + 1) u16_end ≡ true = ground arith in
      let e : leb (pointer_size * (s.num_slots + 1)) (length s.body) ≡ true = ground arith in
      let f : leb index s.num_slots ≡ true = ground arith in rw (a, b, w, c, d, e, f)

  pub length-inserted : length inserted.body ≡ length s.body
  length-inserted =
      length-put_pointer shifted_body index new_pointer
      ∙ length-overwrite s.body (pointer_size * (index + 1)) _

  pub fits : pointer_size * (s.num_slots + 1) ≤ length s.body
  fits = omega (arith, v.inside)

  pub pointer_in-inserted_self : pointer_in inserted.body index ≡ new_pointer
  pointer_in-inserted_self =
      pointer_in-put_pointer_self shifted_body index new_pointer
        (omega (
          arith,
          length-overwrite s.body (pointer_size * (index + 1))
              (slice (pointer_size * index) (pointer_size * (s.num_slots - index)) s.body),
          fits,
        ))
        (omega (arith, v.small, v.inside)) (omega (arith, v.small, v.inside))

  pub pointer_in-inserted_before :
      (i : ℕ) → i < index → pointer_in inserted.body i ≡ pointer_in s.body i
  pointer_in-inserted_before i k =
      pointer_in-put_pointer_ne shifted_body index i new_pointer (inl k)
      ∙ pointer_in-overwrite_ne s.body _ (pointer_size * (index + 1)) i (inl (omega arith))

  pub pointer_in-inserted_after :
      (i : ℕ) → index ≤ i → i < s.num_slots → pointer_in inserted.body (i + 1) ≡ pointer_in s.body i
  pointer_in-inserted_after i k l =
      pointer_in-put_pointer_ne shifted_body index (i + 1) new_pointer (inr (omega arith))
      ∙ rw (next, this) at
          (pointer_in-moved s.body (index + 1) index (s.num_slots - index) (i - index) (omega arith)
            (omega (arith, fits)) (omega (arith, fits)))
    where
      next : index + 1 + (i - index) ≡ i + 1
      next = omega arith

      this : index + (i - index) ≡ i
      this = omega arith

  -- The data is where it was: no write reaches it.
  slice-inserted : (o n : ℕ) → s.free_space_offset ≤ o → slice o n inserted.body ≡ slice o n s.body
  slice-inserted o n k =
      slice-put_pointer_ne shifted_body index new_pointer o n (omega arith)
      ∙ slice-moved_ne s.body (index + 1) index (s.num_slots - index) o n (omega (arith, fits))
          (omega arith)

  pub data_of-before : (i : ℕ) → i < index → data_of inserted i ≡ data_of s i
  data_of-before i k =
      rw (pointer_in-inserted_before i k) (slice-inserted _ _ (v.points i (omega arith)).0)

  pub data_of-after : (i : ℕ) → index ≤ i → i < s.num_slots → data_of inserted (i + 1) ≡ data_of s i
  data_of-after i k l = rw (pointer_in-inserted_after i k l) (slice-inserted _ _ (v.points i l).0)

  abbrev Points : ℕ → Type 0
  Points i =
      (s.free_space_offset - len ≤ (pointer_in inserted.body i).offset)
      × ((pointer_in inserted.body i).offset + (pointer_in inserted.body i).len
          ≤ length inserted.body)

  inserted-Points : (i : ℕ) → i < s.num_slots + 1 → Points i
  inserted-Points i k = elim (Bool-cases (ltb i index)) [
    | inl before ↦
        rw (pointer_in-inserted_before i (ltb→lt _ _ before), length-inserted)
          (omega (arith, v.points i (omega (arith, ltb→lt _ _ before))))
    | inr rest ↦ elim (Bool-cases (ltb index i)) [
      | inl after ↦
          let b = ltb→lt _ _ after in
          let e : i ≡ i - 1 + 1 = omega arith in
          subst Points (sym e) (
            rw (pointer_in-inserted_after (i - 1) (omega arith) (omega arith), length-inserted)
              (omega (arith, v.points (i - 1) (omega arith))))
      | inr self ↦
          let e : i ≡ index = omega (arith, ltb→le _ _ rest, ltb→le _ _ self) in
          subst Points (sym e)
            (rw (pointer_in-inserted_self, length-inserted) (omega (arith, v.inside)))
    ]
  ]

  pub inserted-IsValid : IsValid inserted
  inserted-IsValid = record {
    area = omega arith;
    inside = omega (arith, length-inserted, v.inside);
    small = omega (arith, length-inserted, v.small);
    points = inserted-Points;
  }

-- An initialised page is valid.
pub initialize-IsValid : (s : Slotted) → length s.body < u16_end → IsValid (initialize s)
unfolding initialize
initialize-IsValid s h = record {
  area = omega arith;
  inside = omega arith;
  small = h;
  points = λ i k. omega (arith, k);
}
