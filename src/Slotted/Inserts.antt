-- ===== src/Slotted/Inserts.antt =====
-- src/slotted.rs: both answers of `insert` on a well-formed page.
use relly.Prelude.{
  ℕ, ◌+◌, ◌≤◌, ◌<◌, ◌≡◌, ◌⊎◌, inl, inr, refl, sym, ap, ◌∙◌, Option, some, none, done, arith,
  Returns,
}
use relly.Slotted.{Slotted, pointer_size, pointers_size, pointer_in, slot, insert}
use relly.Slotted.Insert.{
  IsValid, slot-data_of, inserted, insert-inserted, inserted-IsValid, pointer_in-inserted_self,
  data_of-before, data_of-after,
}
use relly.Slotted.Apart.{IsDisjoint, inserted-IsDisjoint}
use relly.Slotted.Fill.{insert_no_room}

-- A page with a new slot, whose bytes are not yet written.
pub record Opened (index len : ℕ) (s after : Slotted) : Type 0 where
  pub valid : IsValid after
  pub disjoint : IsDisjoint after
  pub num_slots : after.num_slots ≡ s.num_slots + 1
  pub at_index : (pointer_in after.body index).len ≡ len
  pub before : (i : ℕ) → i < index → slot after i ≡ slot s i
  pub behind : (i : ℕ) → index ≤ i → i < s.num_slots → slot after (i + 1) ≡ slot s i
  pub used : after.free_space_offset + len ≡ s.free_space_offset

-- Whether a page has room for a pointer and so many bytes.
abbrev pub HasSpace : ℕ → Slotted → Type 0
HasSpace len s = pointers_size s + pointer_size + len ≤ s.free_space_offset

-- Both answers of `insert`.
pub data Inserts (index len : ℕ) (s : Slotted) : Option (Unit {0}) × Slotted → Type 0 where
  opened :
      (after : Slotted)
      → HasSpace len s
      → Opened index len s after
      → Inserts index len s (some tt, after)
  refused :
      s.free_space_offset < pointers_size s + pointer_size + len → Inserts index len s (none, s)

space_cases : (a b : ℕ) → (a ≤ b) ⊎ (b < a)
space_cases a b = ground arith

module _ (index len : ℕ) (s : Slotted) (v : IsValid s) (d : IsDisjoint s) (h : index ≤ s.num_slots)
    (room : pointers_size s + pointer_size + len ≤ s.free_space_offset) where
  inserted-Opened : Opened index len s (inserted index len s v h room)
  inserted-Opened =
      let valid = inserted-IsValid index len s v h room in
      record {
        valid = valid;
        disjoint = inserted-IsDisjoint index len s v h room d;
        num_slots = refl;
        at_index = ap (λ p. p.len) (pointer_in-inserted_self index len s v h room);
        before = λ i k.
            slot-data_of (inserted index len s v h room) i valid (omega arith)
            ∙ ap done (data_of-before index len s v h room i k)
            ∙ sym (slot-data_of s i v (omega arith));
        behind = λ i k l.
            slot-data_of (inserted index len s v h room) (i + 1) valid (omega arith)
            ∙ ap done (data_of-after index len s v h room i k l)
            ∙ sym (slot-data_of s i v l);
        used = omega arith;
      }

-- On a valid page whose slots do not overlap, at an index up to the number of slots, `insert`
-- returns. It succeeds exactly if the free space has room for a pointer and the bytes. Then the page
-- stays valid and its slots do not overlap, it has a new slot of that length at the index, taken
-- from the free space, the slots before are as before, and those behind have moved up by one. If it
-- refuses, the page is unchanged.
pub insert-Inserts :
    (index len : ℕ) (s : Slotted)
    → IsValid s
    → IsDisjoint s
    → index ≤ s.num_slots
    → Returns (insert index len s) (Inserts index len s)
insert-Inserts index len s v d h =
    elim (space_cases (pointers_size s + pointer_size + len) s.free_space_offset) [
      | inl room ↦
          rw (insert-inserted index len s v h room)
            (opened (inserted index len s v h room) room (inserted-Opened index len s v d h room))
      | inr full ↦ rw (insert_no_room index len s v full) (refused full)
    ]
