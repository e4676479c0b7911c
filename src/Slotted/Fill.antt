-- ===== src/Slotted/Fill.antt =====
-- src/slotted.rs: `insert` followed by the write of the new slot, as `Leaf` and `Branch` call them.
use relly.Prelude.{
  Returns, unwrap, ◌>>◌, le→ltb, ℕ, ◌+◌, ◌-◌, ◌*◌, ◌≤◌, ◌<◌, ◌≡◌, inl, inr, refl, sym, ap, ◌∙◌,
  Bytes, length, overwrite, done, ◌>>=◌, none, ltb, leb, true, false, arith, length-overwrite,
  slice-overwrite_ne, slice-overwrite_self, length-slice, lt→ltb, le→leb, ==_refl,
}
use relly.Slotted.{
  Slotted, pointer_size, pointers_size, free_space, pointer_in, pointer_at, slot_data, slot,
  write_slot, insert,
}
use relly.Slotted.Bodies.{pointer_in-overwrite_ne}
use relly.Slotted.Insert.{
  IsValid, data_of, slot-data_of, inserted, new_pointer, insert-inserted, length-inserted,
  pointer_in-inserted_self, data_of-before, data_of-after, inserted-IsValid,
  pointer_in-inserted_before, pointer_in-inserted_after,
}

module _ (index : ℕ) (buf : Bytes) (s : Slotted) (v : IsValid s) (h : index ≤ s.num_slots)
    (room : pointers_size s + pointer_size + length buf ≤ s.free_space_offset) where
  abbrev page : Slotted
  page = inserted index (length buf) s v h room

  abbrev filled : Slotted
  filled = record page { body = overwrite page.body (s.free_space_offset - length buf) buf }

  valid : IsValid page
  valid = inserted-IsValid index (length buf) s v h room

  self : pointer_in page.body index ≡ new_pointer index (length buf) s v h room
  self = pointer_in-inserted_self index (length buf) s v h room

  same_length : length page.body ≡ length s.body
  same_length = length-inserted index (length buf) s v h room

  write_slot-filled : write_slot page index buf ≡ done filled
  unfolding write_slot pointer_at slot_data
  write_slot-filled =
      let end : s.free_space_offset - length buf + length buf ≤ length page.body =
        omega (arith, same_length, v.inside) in
      let n = length-slice (s.free_space_offset - length buf) (length buf) page.body end in
      let a : leb (pointer_size * (s.num_slots + 1)) (length page.body) ≡ true =
        le→leb _ _ (omega (arith, same_length, v.inside)) in
      let b : ltb index (s.num_slots + 1) ≡ true = lt→ltb _ _ (omega arith) in
      let c : leb (s.free_space_offset - length buf + length buf) (length page.body) ≡ true =
        le→leb _ _ end in
      rw (a, b, self, c, n, ==_refl (length buf))

  pointer_in-filled :
      (i : ℕ) → i < s.num_slots + 1 → pointer_in filled.body i ≡ pointer_in page.body i
  pointer_in-filled i k =
      pointer_in-overwrite_ne page.body buf (s.free_space_offset - length buf) i (inl (omega arith))

  length-filled : length filled.body ≡ length page.body
  length-filled = length-overwrite page.body (s.free_space_offset - length buf) buf

  filled-IsValid : IsValid filled
  filled-IsValid = record {
    area = valid.area;
    inside = omega (arith, length-filled, valid.inside);
    small = omega (arith, length-filled, valid.small);
    points = λ i k. rw (pointer_in-filled i k, length-filled) (valid.points i k);
  }

  data_of-filled_self : data_of filled index ≡ buf
  data_of-filled_self =
      rw (pointer_in-filled index (omega arith), self)
        (slice-overwrite_self (s.free_space_offset - length buf) page.body buf
          (omega (arith, same_length, v.inside)))

  data_of-filled_ne :
      (i : ℕ)
      → i < s.num_slots + 1
      → s.free_space_offset ≤ (pointer_in page.body i).offset
      → data_of filled i ≡ data_of page i
  data_of-filled_ne i k beside =
      rw (pointer_in-filled i k) (
        slice-overwrite_ne _ _ (s.free_space_offset - length buf) page.body buf (inr (omega arith)))

  slot-filled_before : (i : ℕ) → i < index → slot filled i ≡ slot s i
  slot-filled_before i k =
      let p = pointer_in-inserted_before index (length buf) s v h room i k in
      slot-data_of filled i filled-IsValid (omega arith)
      ∙ ap done (
          data_of-filled_ne i (omega arith) (rw p (v.points i (omega arith)).0)
          ∙ data_of-before index (length buf) s v h room i k)
      ∙ sym (slot-data_of s i v (omega arith))

  slot-filled_after : (i : ℕ) → index ≤ i → i < s.num_slots → slot filled (i + 1) ≡ slot s i
  slot-filled_after i k l =
      let p = pointer_in-inserted_after index (length buf) s v h room i k l in
      slot-data_of filled (i + 1) filled-IsValid (omega arith)
      ∙ ap done (
          data_of-filled_ne (i + 1) (omega arith) (rw p (v.points i l).0)
          ∙ data_of-after index (length buf) s v h room i k l)
      ∙ sym (slot-data_of s i v l)

-- What a page is after a byte string was put in at an index.
pub record PutIn (index : ℕ) (buf : Bytes) (s after : Slotted) : Type 0 where
  pub valid : IsValid after
  pub num_slots : after.num_slots ≡ s.num_slots + 1
  pub at_index : slot after index ≡ done buf
  pub before : (i : ℕ) → i < index → slot after i ≡ slot s i
  pub behind : (i : ℕ) → index ≤ i → i < s.num_slots → slot after (i + 1) ≡ slot s i
  pub size : length after.body ≡ length s.body
  pub pad : after.pad ≡ s.pad

-- On a valid page with room for a pointer and the bytes, at an index up to the number of slots,
-- `insert` followed by the copy into the new slot succeeds. The page stays valid and has one slot
-- more: the one at the index holds the bytes, those before it are unchanged, and those behind it
-- have moved up by one with their bytes unchanged. Neither the page's size nor its padding changes.
pub insert-PutIn :
    (index : ℕ) (buf : Bytes) (s : Slotted)
    → IsValid s
    → index ≤ s.num_slots
    → pointers_size s + pointer_size + length buf ≤ s.free_space_offset
    → Returns
        (do (fitted, s') ← insert index (length buf) s; unwrap fitted; write_slot s' index buf)
        (PutIn index buf s)
insert-PutIn index buf s v h room =
    rw (insert-inserted index (length buf) s v h room, write_slot-filled index buf s v h room)
      (record {
        valid = filled-IsValid index buf s v h room;
        num_slots = refl;
        at_index =
            slot-data_of (filled index buf s v h room) index (filled-IsValid index buf s v h room)
              (omega arith)
            ∙ ap done (data_of-filled_self index buf s v h room);
        before = slot-filled_before index buf s v h room;
        behind = slot-filled_after index buf s v h room;
        size = length-filled index buf s v h room ∙ length-inserted index (length buf) s v h room;
        pad = refl;
      })

-- `insert` on a valid page that is too full.
pub insert_no_room :
    (index len : ℕ) (s : Slotted)
    → IsValid s
    → s.free_space_offset < pointers_size s + pointer_size + len
    → insert index len s ≡ done (none, s)
unfolding insert free_space
insert_no_room index len s v full =
    let a : ltb s.free_space_offset (pointers_size s) ≡ false = le→ltb _ _ v.area in
    let b : ltb (s.free_space_offset - pointers_size s) (pointer_size + len) ≡ true =
      lt→ltb _ _ (omega (arith, v.area)) in
    rw (a, b)
