-- ===== src/Slotted/Tests.antt =====
-- src/slotted.rs: its test.
use relly.Prelude.{
  unwrap, Returns, ◌>>◌, arith, ◌≡◌, ◌<◌, refl, [], ◌∷◌, Bytes, length, replicate, ℕ, Run, done,
  ◌>>=◌, overwrite,
}
use relly.Disk.{le_value, le_bytes}
use relly.Slotted.{
  Slotted, new, bytes_of, free_space, pointer_in, put_pointer, pointer_at, slot_data, slot,
  write_slot, initialize, insert_pointer, insert, shift_pointers, copy_within, resize_data, resize,
  remove,
}
use relly.Slotted.Insert.{IsValid, inserted, inserted-IsValid, initialize-IsValid}
use relly.Slotted.Fill.{PutIn, insert-PutIn}
use relly.Slotted.Inserts.{Inserts, insert-Inserts}
use relly.Slotted.Apart.{IsDisjoint, initialize-IsDisjoint, inserted-IsDisjoint}
use relly.Slotted.Resized.{Resizes, resize-Resizes}
use relly.Slotted.Remove.{Removed, remove-Removed}

program : Unit {0}
unfolding le_value le_bytes overwrite new bytes_of free_space pointer_in put_pointer pointer_at
    slot_data slot write_slot initialize insert_pointer insert shift_pointers copy_within
    resize_data resize remove
program = tt

abbrev hello : Bytes
hello = b'h' ∷ b'e' ∷ b'l' ∷ b'l' ∷ b'o' ∷ []

abbrev world : Bytes
world = b'w' ∷ b'o' ∷ b'r' ∷ b'l' ∷ b'd' ∷ []

abbrev comma : Bytes
comma = b',' ∷ b' ' ∷ []

-- The closure of the test.
abbrev insert_buf : ℕ → Bytes → Slotted → Run Slotted
insert_buf index buf s = do (done_, s') ← insert index (length buf) s; write_slot s' index buf

abbrev three : Run Slotted
three = do
  s ← new (replicate 64 0)
  s1 ← insert_buf 0 hello (initialize s)
  s2 ← insert_buf 1 world s1
  insert_buf 1 comma s2

first : (do s ← three; slot s 0) ≡ done hello
unfolding program
first = refl

second : (do s ← three; slot s 1) ≡ done comma
unfolding program
second = refl

third : (do s ← three; slot s 2) ≡ done world
unfolding program
third = refl

removed : (do s ← three; s' ← remove 0 s; slot s' 1) ≡ done world
unfolding program
removed = refl

-- An initialised page of 64 bytes, and that page with one slot of two bytes.
abbrev fresh : Slotted
fresh = record { num_slots = 0; free_space_offset = 56; pad = 0; body = replicate 56 0 }

fresh-IsValid : IsValid fresh
unfolding initialize
fresh-IsValid =
    initialize-IsValid
      (record { num_slots = 7; free_space_offset = 9; pad = 0; body = replicate 56 0 })
      (omega arith)

abbrev one_slot : Slotted
one_slot = inserted 0 2 fresh fresh-IsValid (omega arith) (omega arith)

one_slot-IsValid : IsValid one_slot
one_slot-IsValid = inserted-IsValid 0 2 fresh fresh-IsValid (omega arith) (omega arith)

insert-PutIn_example :
    Returns
      (do (fitted, s') ← insert 0 (length hello) one_slot; unwrap fitted; write_slot s' 0 hello)
      (PutIn 0 hello one_slot)
insert-PutIn_example = insert-PutIn 0 hello one_slot one_slot-IsValid (omega arith) (omega arith)

-- That page with a slot of five bytes before its slot.
abbrev two_slots : Slotted
two_slots = inserted 0 5 one_slot one_slot-IsValid (omega arith) (omega arith)

two_slots-IsValid : IsValid two_slots
two_slots-IsValid = inserted-IsValid 0 5 one_slot one_slot-IsValid (omega arith) (omega arith)

fresh-IsDisjoint : IsDisjoint fresh
unfolding initialize
fresh-IsDisjoint =
    initialize-IsDisjoint
      (record { num_slots = 7; free_space_offset = 9; pad = 0; body = replicate 56 0 })

two_slots-IsDisjoint : IsDisjoint two_slots
two_slots-IsDisjoint =
    inserted-IsDisjoint 0 5 one_slot one_slot-IsValid (omega arith) (omega arith)
      (inserted-IsDisjoint 0 2 fresh fresh-IsValid (omega arith) (omega arith) fresh-IsDisjoint)

insert-Inserts_example : Returns (insert 1 9 two_slots) (Inserts 1 9 two_slots)
insert-Inserts_example =
    insert-Inserts 1 9 two_slots two_slots-IsValid two_slots-IsDisjoint (omega arith)

has_bytes : 0 < (pointer_in two_slots.body 1).len
unfolding program
has_bytes = omega arith

resize-Resizes_example : Returns (resize 1 9 two_slots) (Resizes 1 9 two_slots)
resize-Resizes_example =
    resize-Resizes 1 9 two_slots two_slots-IsValid two_slots-IsDisjoint (omega arith) has_bytes

remove-Removed_example : Returns (remove 0 two_slots) (Removed 0 two_slots)
remove-Removed_example =
    remove-Removed 0 two_slots two_slots-IsValid two_slots-IsDisjoint (omega arith)

-- An empty slot stands at the same offset as the slot before it. When the empty slot grows, the
-- loop over the pointers moves the other's pointer too, whose bytes have not moved.
abbrev grown : Run Bytes
grown = do
  s ← insert_buf 0 hello fresh
  s1 ← insert_buf 1 [] s
  (done_, s2) ← resize 1 2 s1
  slot s2 0

neighbour_moved : grown ≡ done (0 ∷ 0 ∷ b'h' ∷ b'e' ∷ b'l' ∷ [])
unfolding program
neighbour_moved = refl
