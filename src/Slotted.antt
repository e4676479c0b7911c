-- ===== src/Slotted.antt =====
-- src/slotted.rs: a page of slots, at the level of its bytes. The pointers stand at the front of
-- the body, four bytes each, and the data at its end; both are read and written in the same bytes.
-- Arithmetic on `usize` and `u16` panics where it leaves the type's range, and `as` wraps around.
pub mod Bodies
pub mod Insert
pub mod Fill
pub mod Inserts
pub mod Ends
pub mod Apart
pub mod Shift
pub mod Resize
pub mod Resized
pub mod Remove
mod Tests
use relly.Prelude.{
  ℕ, zero, suc, ◌+◌, ◌-◌, ◌*◌, ◌%◌, ◌^◌, List, [], ◌∷◌, ◌++◌, Bytes, length, slice, overwrite,
  Option, none, some, Run, done, panic, hang, ◌>>=◌, ◌>>◌, assert, ltb, leb, ◌==◌, if◌then◌else◌,
  ◌&&◌,
}
use relly.Disk.{le_value, le_bytes}

abbrev pub u16_end : ℕ
u16_end = 2 ^ 16

-- `Header` and the body behind it.
pub record Slotted : Type 0 where
  pub num_slots : ℕ
  pub free_space_offset : ℕ
  pub pad : ℕ
  pub body : Bytes

pub record Pointer : Type 0 where
  pub offset : ℕ
  pub len : ℕ

abbrev pub header_size : ℕ
header_size = 8

abbrev pub pointer_size : ℕ
pointer_size = 4

-- A header that does not fit is the `expect` of `new`; a page is aligned.
unfoldable pub new : Bytes → Run Slotted
new bytes =
    if ltb (length bytes) header_size
    then panic
    else done (record {
      num_slots = le_value (slice 0 2 bytes);
      free_space_offset = le_value (slice 2 2 bytes);
      pad = le_value (slice 4 4 bytes);
      body = slice 8 (length bytes - 8) bytes;
    })

-- The bytes that the struct is a view of.
unfoldable pub bytes_of : Slotted → Bytes
bytes_of s =
    le_bytes 2 s.num_slots ++ (le_bytes 2 s.free_space_offset ++ (le_bytes 4 s.pad ++ s.body))

abbrev pub capacity : Slotted → ℕ
capacity s = length s.body

abbrev pub pointers_size : Slotted → ℕ
pointers_size s = pointer_size * s.num_slots

-- `a - b` on an unsigned type.
abbrev pub checked_sub : ℕ → ℕ → Run ℕ
checked_sub a b = if ltb a b then panic else done (a - b)

unfoldable pub free_space : Slotted → Run ℕ
free_space s = checked_sub s.free_space_offset (pointers_size s)

-- Pointer `i` in the bytes of a body.
unfoldable pub pointer_in : Bytes → ℕ → Pointer
pointer_in body i = record {
  offset = le_value (slice (pointer_size * i) 2 body);
  len = le_value (slice (pointer_size * i + 2) 2 body);
}

unfoldable pub put_pointer : Bytes → ℕ → Pointer → Bytes
put_pointer body i p = overwrite body (pointer_size * i) (le_bytes 2 p.offset ++ le_bytes 2 p.len)

-- `&self.body[..self.pointers_size()]`
abbrev pub pointers_fit : Slotted → Run (Unit {0})
pointers_fit s = if leb (pointers_size s) (length s.body) then done tt else panic

-- `self.pointers()[i]`
unfoldable pub pointer_at : Slotted → ℕ → Run Pointer
pointer_at s i = do pointers_fit s; if ltb i s.num_slots then done (pointer_in s.body i) else panic

-- `self.data(pointer)`
unfoldable pub slot_data : Slotted → Pointer → Run Bytes
slot_data s p =
    if leb (p.offset + p.len) (length s.body) then done (slice p.offset p.len s.body) else panic

-- `slotted[index]`
unfoldable pub slot : Slotted → ℕ → Run Bytes
slot s i = do p ← pointer_at s i; slot_data s p

-- `slotted[index].copy_from_slice(buf)`
unfoldable pub write_slot : Slotted → ℕ → Bytes → Run Slotted
write_slot s i buf = do
  p ← pointer_at s i
  old ← slot_data s p
  assert (length old == length buf)
  done (record s { body = overwrite s.body p.offset buf })

-- `self.body.len() as u16`
unfoldable pub initialize : Slotted → Slotted
initialize s = record s { num_slots = 0; free_space_offset = length s.body % u16_end }

-- The writes of `insert`, once there is room: the pointers from `index` on move up by one, which
-- panics if `index` is past them.
unfoldable pub insert_pointer : ℕ → ℕ → ℕ → Slotted → Run Slotted
insert_pointer num_slots_orig index len s = do
  pointers_fit s
  let moved =
      overwrite s.body (pointer_size * (index + 1))
        (slice (pointer_size * index) (pointer_size * (num_slots_orig - index)) s.body)
  let pointer : Pointer = record { offset = s.free_space_offset; len = len % u16_end }
  if leb index num_slots_orig
      then done (record s { body = put_pointer moved index pointer })
      else panic

unfoldable pub insert : ℕ → ℕ → Slotted → Run (Option (Unit {0}) × Slotted)
insert index len s = do
  free ← free_space s
  let enough = (do
    free_space_offset ← checked_sub s.free_space_offset (len % u16_end)
    assert (ltb (s.num_slots + 1) u16_end)
    s' ←
        insert_pointer s.num_slots index len
          (record s { free_space_offset = free_space_offset; num_slots = s.num_slots + 1 })
    done (some tt, s'))
  if ltb free (pointer_size + len) then done (none, s) else enough

-- `(offset as isize - len_incr) as u16`, with `len_incr = len_new - len_orig`.
abbrev pub shifted : ℕ → ℕ → ℕ → ℕ
shifted offset len_orig len_new = (offset + len_orig + 2 ^ 64 - len_new) % u16_end

-- The `for` loop of `resize`, on the pointers from `i` on, `n` of them.
unfoldable pub shift_pointers : ℕ → ℕ → ℕ → ℕ → ℕ → Bytes → Bytes
shift_pointers zero i offset_orig len_orig len_new body = body
shift_pointers (suc n) i offset_orig len_orig len_new body =
    let p = pointer_in body i in
    let p' : Pointer = record p { offset = shifted p.offset len_orig len_new } in
    shift_pointers n (i + 1) offset_orig len_orig len_new
      (if leb p.offset offset_orig then put_pointer body i p' else body)

-- `copy_within(from..to, dest)` on the body.
unfoldable pub copy_within : ℕ → ℕ → ℕ → Bytes → Run Bytes
copy_within from to dest body =
    if leb from to && (leb to (length body) && leb (dest + (to - from)) (length body))
    then done (overwrite body dest (slice from (to - from) body))
    else panic

-- The writes of `resize`, once there is room.
unfoldable pub resize_data : ℕ → Pointer → ℕ → Slotted → Run Slotted
resize_data index p len_new s = do
  let offset_new = s.free_space_offset + p.len - len_new
  body ← copy_within s.free_space_offset p.offset offset_new s.body
  pointers_fit s
  let shifted_body = shift_pointers s.num_slots 0 p.offset p.len len_new body
  let q = pointer_in shifted_body index
  let q' : Pointer = record {
    offset = if len_new == 0 then offset_new % u16_end else q.offset;
    len = len_new % u16_end;
  }
  done (record s {
    free_space_offset = offset_new % u16_end;
    body = put_pointer shifted_body index q';
  })

unfoldable pub resize : ℕ → ℕ → Slotted → Run (Option (Unit {0}) × Slotted)
resize index len_new s = do
  p ← pointer_at s index
  let changed = (do
    free ← free_space s
    let room = (do s' ← resize_data index p len_new s; done (some tt, s'))
    if ltb (p.len + free) len_new then done (none, s) else room)
  if len_new == p.len then done (some tt, s) else changed

-- After the resize, the pointers behind `index` move down by one.
unfoldable pub remove : ℕ → Slotted → Run Slotted
remove index s = do
  (resized, s') ← resize index 0 s
  pointers_fit s'
  assert (leb (index + 1) s'.num_slots)
  let moved =
      overwrite s'.body (pointer_size * index)
        (slice (pointer_size * (index + 1)) (pointer_size * (s'.num_slots - (index + 1))) s'.body)
  num_slots ← checked_sub s'.num_slots 1
  done (record s' { num_slots = num_slots; body = moved })
