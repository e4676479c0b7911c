-- ===== src/Slotted/Shift.antt =====
-- src/slotted.rs: what the loop over the pointers in `resize` does to a body.
use relly.Prelude.{
  ℕ, zero, suc, ◌+◌, ◌*◌, ◌≤◌, ◌<◌, ◌≡◌, inl, inr, refl, ap, ◌∙◌, Bytes, length, slice, leb,
  Bool-cases, if◌then◌else◌, arith, eq_cases,
}
use relly.Slotted.{Pointer, pointer_in, put_pointer, pointer_size, shifted, shift_pointers, u16_end}
use relly.Slotted.Bodies.{
  length-put_pointer, pointer_in-put_pointer_self, pointer_in-put_pointer_ne, slice-put_pointer_ne,
}

module _ (offset_orig len_orig len_new : ℕ) where
  -- A pointer after the loop.
  abbrev pub relocated : Pointer → Pointer
  relocated p =
      if leb p.offset offset_orig
      then record p { offset = shifted p.offset len_orig len_new }
      else p

  -- One round.
  abbrev round : ℕ → Bytes → Bytes
  round i body =
      if leb (pointer_in body i).offset offset_orig
      then put_pointer body i (record (pointer_in body i) {
        offset = shifted (pointer_in body i).offset len_orig len_new;
      })
      else body

  length-round : (i : ℕ) (body : Bytes) → length (round i body) ≡ length body
  length-round i body = elim (Bool-cases (leb (pointer_in body i).offset offset_orig)) [
    | inl t ↦ rw t (length-put_pointer body i _)
    | inr t ↦ rw t refl
  ]

  pointer_in-round_self :
      (i : ℕ) (body : Bytes)
      → pointer_size * i + pointer_size ≤ length body
      → (pointer_in body i).len < u16_end
      → pointer_in (round i body) i ≡ relocated (pointer_in body i)
  pointer_in-round_self i body h k =
      elim (Bool-cases (leb (pointer_in body i).offset offset_orig)) [
        | inl t ↦ rw t (pointer_in-put_pointer_self body i _ h (omega arith) k)
        | inr t ↦ rw t refl
      ]

  pointer_in-round_ne :
      (i j : ℕ) (body : Bytes) → i < j → pointer_in (round i body) j ≡ pointer_in body j
  pointer_in-round_ne i j body h = elim (Bool-cases (leb (pointer_in body i).offset offset_orig)) [
    | inl t ↦ rw t (pointer_in-put_pointer_ne body i j _ (inr h))
    | inr t ↦ rw t refl
  ]

  slice-round_ne :
      (i o n : ℕ) (body : Bytes)
      → pointer_size * (i + 1) ≤ o
      → slice o n (round i body) ≡ slice o n body
  slice-round_ne i o n body h = elim (Bool-cases (leb (pointer_in body i).offset offset_orig)) [
    | inl t ↦ rw t (slice-put_pointer_ne body i _ o n h)
    | inr t ↦ rw t refl
  ]

  pub length-shift_pointers :
      (n i : ℕ) (body : Bytes)
      → length (shift_pointers n i offset_orig len_orig len_new body) ≡ length body
  unfolding shift_pointers
  length-shift_pointers zero i body = refl
  length-shift_pointers (suc n) i body =
      length-shift_pointers n (i + 1) (round i body) ∙ length-round i body

  pointer_in-shift_pointers_before :
      (n i j : ℕ) (body : Bytes)
      → j < i
      → pointer_in (shift_pointers n i offset_orig len_orig len_new body) j ≡ pointer_in body j
  unfolding shift_pointers
  pointer_in-shift_pointers_before zero i j body h = refl
  pointer_in-shift_pointers_before (suc n) i j body h =
      pointer_in-shift_pointers_before n (i + 1) j (round i body) (omega arith)
      ∙ elim (Bool-cases (leb (pointer_in body i).offset offset_orig)) [
        | inl t ↦ rw t (pointer_in-put_pointer_ne body i j _ (inl h))
        | inr t ↦ rw t refl
      ]

  pub pointer_in-shift_pointers :
      (n i j : ℕ) (body : Bytes)
      → i ≤ j
      → j < i + n
      → pointer_size * (i + n) ≤ length body
      → (pointer_in body j).len < u16_end
      → pointer_in (shift_pointers n i offset_orig len_orig len_new body) j
        ≡ relocated (pointer_in body j)
  unfolding shift_pointers
  pointer_in-shift_pointers zero i j body h k fits small = absurd (omega arith)
  pointer_in-shift_pointers (suc n) i j body h k fits small = elim (eq_cases i j) [
    | inl here ↦
        pointer_in-shift_pointers_before n (i + 1) j (round i body) (omega arith)
        ∙ rw here (pointer_in-round_self j body (omega arith) small)
    | inr there ↦
        let e = pointer_in-round_ne i j body (omega arith) in
        pointer_in-shift_pointers n (i + 1) j (round i body) (omega arith) (omega arith)
          (omega (arith, length-round i body)) (rw e small)
        ∙ ap relocated e
  ]

  pub slice-shift_pointers_ne :
      (n i o k : ℕ) (body : Bytes)
      → pointer_size * (i + n) ≤ o
      → slice o k (shift_pointers n i offset_orig len_orig len_new body) ≡ slice o k body
  unfolding shift_pointers
  slice-shift_pointers_ne zero i o k body h = refl
  slice-shift_pointers_ne (suc n) i o k body h =
      slice-shift_pointers_ne n (i + 1) o k (round i body) (omega arith)
      ∙ slice-round_ne i o k body (omega arith)
