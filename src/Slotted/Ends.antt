-- ===== src/Slotted/Ends.antt =====
-- src/slotted.rs: its operations have no loop that needs fuel, and how many slots they leave.
use relly.Prelude.{
  Bool-cases, inl, inr, ℕ, ◌+◌, ◌≡◌, ◌≢◌, Bytes, Run, done, hang, Option, arith, >>=-ne-hang,
  >>=-eq-done, ltb, ◌==◌, if◌then◌else◌, true, false, Bool,
}
use relly.Slotted.{
  Slotted, Pointer, free_space, pointer_at, slot_data, slot, write_slot, insert_pointer, insert,
  copy_within, resize_data, resize, remove,
}

pub if-ne-hang :
    {A : Type 0} (b : Bool) (x y : Run A) → x ≢ hang → y ≢ hang → (if b then x else y) ≢ hang
if-ne-hang true x y h k = h
if-ne-hang false x y h k = k

pub free_space-ne-hang : (s : Slotted) → free_space s ≢ hang
unfolding free_space
free_space-ne-hang s = ground arith

pointer_at-ne-hang : (s : Slotted) (i : ℕ) → pointer_at s i ≢ hang
unfolding pointer_at
pointer_at-ne-hang s i = ground arith

slot_data-ne-hang : (s : Slotted) (p : Pointer) → slot_data s p ≢ hang
unfolding slot_data
slot_data-ne-hang s p = ground arith

pub slot-ne-hang : (s : Slotted) (i : ℕ) → slot s i ≢ hang
unfolding slot
slot-ne-hang s i =
    >>=-ne-hang (pointer_at s i) (slot_data s) (pointer_at-ne-hang s i)
      (λ p e. slot_data-ne-hang s p)

pub write_slot-ne-hang : (s : Slotted) (i : ℕ) (buf : Bytes) → write_slot s i buf ≢ hang
unfolding write_slot
write_slot-ne-hang s i buf =
    >>=-ne-hang (pointer_at s i) _ (pointer_at-ne-hang s i)
      (λ p e. >>=-ne-hang (slot_data s p) _ (slot_data-ne-hang s p) (λ old f. ground arith))

pub insert-ne-hang : (index len : ℕ) (s : Slotted) → insert index len s ≢ hang
unfolding insert insert_pointer
insert-ne-hang index len s =
    >>=-ne-hang (free_space s) _ (free_space-ne-hang s) (λ free e. ground arith)

resize_data-ne-hang :
    (index : ℕ) (p : Pointer) (len : ℕ) (s : Slotted) → resize_data index p len s ≢ hang
unfolding resize_data copy_within
resize_data-ne-hang index p len s = ground arith

resize-ne-hang : (index len : ℕ) (s : Slotted) → resize index len s ≢ hang
unfolding resize
resize-ne-hang index len s = >>=-ne-hang (pointer_at s index) _ (pointer_at-ne-hang s index) (λ p e.
    if-ne-hang (len == p.len) _ _ (λ h. cc)
      (>>=-ne-hang (free_space s) _ (free_space-ne-hang s) (λ free f.
        if-ne-hang (ltb (p.len + free) len) _ _ (λ h. cc)
          (>>=-ne-hang (resize_data index p len s) _ (resize_data-ne-hang index p len s)
            (λ s' g h. cc)))))

pub remove-ne-hang : (index : ℕ) (s : Slotted) → remove index s ≢ hang
unfolding remove
remove-ne-hang index s =
    >>=-ne-hang (resize index 0 s) _ (resize-ne-hang index 0 s) (λ r e. ground arith)

resize_data-num_slots :
    (index : ℕ) (p : Pointer) (len : ℕ) (s s' : Slotted)
    → resize_data index p len s ≡ done s'
    → s'.num_slots ≡ s.num_slots
unfolding resize_data copy_within
resize_data-num_slots index p len s s' h = ground arith

resize-num_slots :
    (index len : ℕ) (s : Slotted) (r : Option (Unit {0}) × Slotted)
    → resize index len s ≡ done r
    → r.1.num_slots ≡ s.num_slots
unfolding resize
resize-num_slots index len s r h =
    let (p, e, f) = >>=-eq-done (pointer_at s index) _ h in
    elim (Bool-cases (len == p.len)) [
      | inl same ↦ cc (rw same at f)
      | inr apart ↦
          let (free, g, k) = >>=-eq-done (free_space s) _ (rw apart at f) in
          elim (Bool-cases (ltb (p.len + free) len)) [
            | inl full ↦ cc (rw full at k)
            | inr roomy ↦
                let (s', l, d) = >>=-eq-done (resize_data index p len s) _ (rw roomy at k) in
                cc (d, resize_data-num_slots index p len s s' l)
          ]
    ]

pub remove-num_slots :
    (index : ℕ) (s s' : Slotted) → remove index s ≡ done s' → s.num_slots ≡ s'.num_slots + 1
unfolding remove
remove-num_slots index s s' h =
    let (r, e, f) = >>=-eq-done (resize index 0 s) _ h in
    let k = resize-num_slots index 0 s r e in ground arith
