-- ===== src/Slotted/Resize.antt =====
-- src/slotted.rs: `resize` of a slot that has bytes keeps the others.
use relly.Prelude.{
  ℕ, ◌+◌, ◌-◌, ◌%◌, ◌≤◌, ◌<◌, ◌≡◌, ◌≢◌, ◌⊎◌, inl, inr, refl, sym, ap, ◌∙◌, subst, Bytes, length,
  slice, overwrite, done, some, ltb, leb, ◌==◌, true, false, if◌then◌else◌, Bool-cases, arith,
  le→leb, lt→ltb, le→ltb, leb→le, leb→lt, eq_cases, length-overwrite, length-slice,
  slice-overwrite_ne, slice-overwrite_inside, slice-slice,
}
use relly.Slotted.{
  Slotted, Pointer, u16_end, pointers_size, free_space, pointer_in, put_pointer, pointer_at,
  shifted, shift_pointers, copy_within, resize_data, resize,
}
use relly.Slotted.Bodies.{
  length-put_pointer, pointer_in-overwrite_ne, pointer_in-put_pointer_self,
  pointer_in-put_pointer_ne, slice-put_pointer_ne,
}
use relly.Slotted.Insert.{IsValid, data_of}
use relly.Slotted.Apart.{Apart, IsDisjoint, swap}
use relly.Slotted.Shift.{
  relocated, length-shift_pointers, pointer_in-shift_pointers, slice-shift_pointers_ne,
}

module _ (index len : ℕ) (s : Slotted) (v : IsValid s) (d : IsDisjoint s) (h : index < s.num_slots)
    (filled : 0 < (pointer_in s.body index).len)
    (room : len + pointers_size s ≤ (pointer_in s.body index).len + s.free_space_offset) where
  abbrev p : Pointer
  p = pointer_in s.body index

  abbrev offset_new : ℕ
  offset_new = s.free_space_offset + p.len - len

  -- The body after each of the three writes.
  abbrev copied : Bytes
  copied =
      overwrite s.body offset_new
        (slice s.free_space_offset (p.offset - s.free_space_offset) s.body)

  abbrev moved_pointers : Bytes
  moved_pointers = shift_pointers s.num_slots 0 p.offset p.len len copied

  abbrev new_pointer : Pointer
  new_pointer = record {
    offset = if len == 0 then offset_new % u16_end else (pointer_in moved_pointers index).offset;
    len = len % u16_end;
  }

  abbrev pub resized : Slotted
  resized = record s {
    free_space_offset = offset_new % u16_end;
    body = put_pointer moved_pointers index new_pointer;
  }

  bounds :
      (s.free_space_offset ≤ p.offset)
      × (p.offset + p.len ≤ length s.body)
      × (length s.body < u16_end)
      × (pointers_size s ≤ offset_new)
      × (offset_new + (p.offset - s.free_space_offset) ≤ length s.body)
  bounds = omega (arith, v.points index h, v.small, v.inside, v.area)

  length_copy :
      length (slice s.free_space_offset (p.offset - s.free_space_offset) s.body)
      ≡ p.offset - s.free_space_offset
  length_copy = length-slice _ _ s.body (omega (arith, bounds))

  length-copied : length copied ≡ length s.body
  length-copied = length-overwrite s.body offset_new _

  length-moved_pointers : length moved_pointers ≡ length s.body
  length-moved_pointers =
      length-shift_pointers p.offset p.len len s.num_slots 0 copied ∙ length-copied

  length-resized : length resized.body ≡ length s.body
  length-resized = length-put_pointer moved_pointers index new_pointer ∙ length-moved_pointers

  pub resize-resized : len ≢ p.len → resize index len s ≡ done (some tt, resized)
  unfolding resize resize_data copy_within pointer_at free_space
  resize-resized ne =
      let (b0, b1, b2, b3, b4) = bounds in
      let t0 : leb (pointers_size s) (length s.body) ≡ true =
        le→leb _ _ (omega (arith, v.area, v.inside)) in
      let t1 : ltb index s.num_slots ≡ true = lt→ltb _ _ h in
      let t2 : len == p.len ≡ false = ground arith in
      let t3 : ltb s.free_space_offset (pointers_size s) ≡ false = le→ltb _ _ v.area in
      let t4 : ltb (p.len + (s.free_space_offset - pointers_size s)) len ≡ false =
        le→ltb _ _ (omega (arith, v.area)) in
      let t5 : leb s.free_space_offset p.offset ≡ true = le→leb _ _ b0 in
      let t6 : leb p.offset (length s.body) ≡ true = le→leb _ _ (omega arith) in
      let t7 : leb (offset_new + (p.offset - s.free_space_offset)) (length s.body) ≡ true =
        le→leb _ _ b4 in
      rw (t0, t1, t2, t3, t4, t5, t6, t7)

  -- Pointers are beside the bytes that are copied.
  pointer_in-copied : (i : ℕ) → i < s.num_slots → pointer_in copied i ≡ pointer_in s.body i
  pointer_in-copied i k =
      pointer_in-overwrite_ne s.body _ offset_new i (inl (omega (arith, bounds)))

  pointer_in-moved_pointers :
      (i : ℕ)
      → i < s.num_slots
      → pointer_in moved_pointers i ≡ relocated p.offset p.len len (pointer_in s.body i)
  pointer_in-moved_pointers i k =
      let e = pointer_in-copied i k in
      pointer_in-shift_pointers p.offset p.len len s.num_slots 0 i copied (omega arith)
        (omega arith) (omega (arith, length-copied, bounds, v.inside, v.area))
        (rw e (omega (arith, v.points i k, bounds)))
      ∙ ap (relocated p.offset p.len len) e

  -- The shift does not wrap around.
  shifted_lem :
      (i : ℕ)
      → i < s.num_slots
      → (pointer_in s.body i).offset ≤ p.offset
      → shifted (pointer_in s.body i).offset p.len len + len ≡ (pointer_in s.body i).offset + p.len
  shifted_lem i k le = omega (arith, v.points i k, bounds)

  pub pointer_in-resized_ne :
      (i : ℕ)
      → i < s.num_slots
      → i ≢ index
      → pointer_in resized.body i ≡ relocated p.offset p.len len (pointer_in s.body i)
  pointer_in-resized_ne i k ne =
      pointer_in-put_pointer_ne moved_pointers index i new_pointer (omega (arith, ne))
      ∙ pointer_in-moved_pointers i k

  -- Bytes from the new start of the data on are those of the copy.
  slice-resized : (o n : ℕ) → offset_new ≤ o → slice o n resized.body ≡ slice o n copied
  slice-resized o n k =
      slice-put_pointer_ne moved_pointers index new_pointer o n (omega (arith, bounds))
      ∙ slice-shift_pointers_ne p.offset p.len len s.num_slots 0 o n copied (omega (arith, bounds))

  -- Bytes that stood before the slot have moved with the pointers, those behind it have not.
  slice_moved :
      (o n at : ℕ)
      → s.free_space_offset ≤ o
      → o + n ≤ p.offset
      → at + len ≡ o + p.len
      → slice at n copied ≡ slice o n s.body
  slice_moved o n at a b e =
      slice-overwrite_inside offset_new (o - s.free_space_offset) n at s.body _
        (omega (arith, bounds)) (omega (arith, length_copy, bounds)) (omega (arith, length_copy))
      ∙ slice-slice s.free_space_offset (p.offset - s.free_space_offset) (o - s.free_space_offset) n
          o s.body (omega arith) (omega arith)

  slice_behind : (o n : ℕ) → p.offset + p.len ≤ o → slice o n copied ≡ slice o n s.body
  slice_behind o n a =
      slice-overwrite_ne o n offset_new s.body _ (inr (omega (arith, length_copy, bounds)))

  -- Where another slot is: before the resized one, and so shifted, or behind it.
  Moved : Pointer → Pointer → Type 0
  Moved q q' =
      (q.offset + q.len ≤ p.offset) × (q'.offset + len ≡ q.offset + p.len) × (q'.len ≡ q.len)
      ⊎ (p.offset + p.len ≤ q.offset) × (q' ≡ q)

  relocated-Moved :
      (i : ℕ)
      → i < s.num_slots
      → i ≢ index
      → Moved (pointer_in s.body i) (relocated p.offset p.len len (pointer_in s.body i))
  unfolding Moved
  relocated-Moved i k ne = elim (Bool-cases (leb (pointer_in s.body i).offset p.offset)) [
    | inl t ↦ rw t (
        inl (
          omega (arith, d i index k h ne, leb→le _ _ t, filled),
          shifted_lem i k (leb→le _ _ t),
          refl,
        ))
    | inr t ↦ rw t (inr (omega (arith, d i index k h ne, leb→lt _ _ t), refl))
  ]

  Moved-data :
      (q q' : Pointer)
      → s.free_space_offset ≤ q.offset
      → Moved q q'
      → slice q'.offset q'.len copied ≡ slice q.offset q.len s.body
  unfolding Moved
  Moved-data q q' low (inl (a, b, c)) =
      ap (λ x. slice q'.offset x copied) c ∙ slice_moved q.offset q.len q'.offset low a b
  Moved-data q q' low (inr (a, b)) =
      ap (λ (x : Pointer). slice x.offset x.len copied) b ∙ slice_behind q.offset q.len a

  Moved-bounds :
      (q q' : Pointer)
      → s.free_space_offset ≤ q.offset
      → q.offset + q.len ≤ length s.body
      → Moved q q'
      → (offset_new ≤ q'.offset) × (q'.offset + q'.len ≤ length s.body)
  unfolding Moved
  Moved-bounds q q' low high (inl (a, b, c)) = omega (arith, bounds)
  Moved-bounds q q' low high (inr (a, b)) = rw b (omega (arith, bounds), high)

  -- A slot other than the resized one is where its pointer says.
  resized-Moved :
      (i : ℕ)
      → i < s.num_slots
      → i ≢ index
      → Moved (pointer_in s.body i) (pointer_in resized.body i)
  resized-Moved i k ne = rw (pointer_in-resized_ne i k ne) (relocated-Moved i k ne)

  pub data_of-resized : (i : ℕ) → i < s.num_slots → i ≢ index → data_of resized i ≡ data_of s i
  data_of-resized i k ne =
      let q = pointer_in s.body i in
      let q' = pointer_in resized.body i in
      let m = resized-Moved i k ne in
      let (low, high) = v.points i k in
      slice-resized q'.offset q'.len (Moved-bounds q q' low high m).0 ∙ Moved-data q q' low m

  -- The resized slot: at the start of the data if it is empty, and else its end is where it was.
  EndsAt : ℕ → Type 0
  EndsAt o = (len ≡ 0) × (o ≡ offset_new) ⊎ (o + len ≡ p.offset + p.len)

  new_pointer-EndsAt : EndsAt new_pointer.offset
  unfolding EndsAt
  new_pointer-EndsAt = elim (Bool-cases (len == 0)) [
    | inl t ↦ rw t (inl (ground arith, omega (arith, bounds)))
    | inr t ↦
        let e = pointer_in-moved_pointers index h in
        let l : leb p.offset p.offset ≡ true = le→leb _ _ (omega arith) in
        rw (t, e, l) (inr (shifted_lem index h (omega arith)))
  ]

  new_offset_bounds : (offset_new ≤ new_pointer.offset) × (new_pointer.offset + len ≤ length s.body)
  unfolding EndsAt
  new_offset_bounds = elim new_pointer-EndsAt [
    | inl (a, b) ↦ omega (arith, bounds)
    | inr a ↦ omega (arith, bounds)
  ]

  pub pointer_in-resized_self : pointer_in resized.body index ≡ new_pointer
  pointer_in-resized_self =
      pointer_in-put_pointer_self moved_pointers index new_pointer
        (omega (arith, length-moved_pointers, v.inside, v.area))
        (omega (arith, new_offset_bounds, bounds)) (omega arith)

  small_len : len % u16_end ≡ len
  small_len = omega (arith, new_offset_bounds, bounds)

  pub len-resized_self : (pointer_in resized.body index).len ≡ len
  len-resized_self = ap (λ (x : Pointer). x.len) pointer_in-resized_self ∙ small_len

  resized_points :
      (i : ℕ)
      → i < s.num_slots
      → (offset_new ≤ (pointer_in resized.body i).offset)
        × ((pointer_in resized.body i).offset + (pointer_in resized.body i).len ≤ length s.body)
  resized_points i k = elim (eq_cases i index) [
    | inl here ↦ rw (here, pointer_in-resized_self, small_len) new_offset_bounds
    | inr there ↦
        let (low, high) = v.points i k in
        Moved-bounds (pointer_in s.body i) (pointer_in resized.body i) low high
          (resized-Moved i k there)
  ]

  start : offset_new % u16_end ≡ offset_new
  start = omega (arith, bounds)

  pub resized-IsValid : IsValid resized
  resized-IsValid = record {
    area = omega (arith, start, bounds);
    inside = omega (arith, start, bounds, length-resized);
    small = omega (arith, length-resized, v.small);
    points = λ i k. omega (arith, start, length-resized, resized_points i k);
  }

  -- Two other slots, and the resized one and another.
  Moved-Apart : (a b a' b' : Pointer) → Moved a a' → Moved b b' → Apart a b → Apart a' b'
  unfolding Moved
  Moved-Apart a b a' b' (inl (h0, h1, h2)) (inl (k0, k1, k2)) (inl r) = inl (omega arith)
  Moved-Apart a b a' b' (inl (h0, h1, h2)) (inl (k0, k1, k2)) (inr r) = inr (omega arith)
  Moved-Apart a b a' b' (inl (h0, h1, h2)) (inr (k0, k1)) r = inl (rw k1 (omega arith))
  Moved-Apart a b a' b' (inr (h0, h1)) (inl (k0, k1, k2)) r = inr (rw h1 (omega arith))
  Moved-Apart a b a' b' (inr (h0, h1)) (inr (k0, k1)) r = rw (h1, k1) r

  self-Apart :
      (q q' : Pointer)
      → s.free_space_offset ≤ q.offset
      → q.offset + q.len ≤ length s.body
      → Moved q q'
      → (new_pointer.offset + len ≤ q'.offset) ⊎ (q'.offset + q'.len ≤ new_pointer.offset)
  unfolding EndsAt Moved
  self-Apart q q' low high m = elim new_pointer-EndsAt [
    | inl (a, b) ↦ inl (omega (arith, Moved-bounds q q' low high m))
    | inr a ↦ elim m [ inl (x, y, z) ↦ inr (omega arith) | inr (x, y) ↦ inl (rw y (omega arith)) ]
  ]

  resized_self-Apart :
      (j : ℕ)
      → j < s.num_slots
      → j ≢ index
      → Apart (pointer_in resized.body index) (pointer_in resized.body j)
  resized_self-Apart j k ne =
      let (low, high) = v.points j k in
      subst (λ x. Apart x (pointer_in resized.body j)) (sym pointer_in-resized_self)
        (elim (self-Apart (pointer_in s.body j) (pointer_in resized.body j) low high
          (resized-Moved j k ne)) [ inl a ↦ inl (omega (arith, small_len)) | inr a ↦ inr a ])

  pub resized-IsDisjoint : IsDisjoint resized
  resized-IsDisjoint i j hi hj ne = elim (eq_cases i index) [
    | inl here ↦
        subst (λ x. Apart (pointer_in resized.body x) (pointer_in resized.body j)) (sym here)
          (resized_self-Apart j hj (λ e. ne (here ∙ sym e)))
    | inr there ↦ elim (eq_cases j index) [
      | inl here ↦
          subst (λ x. Apart (pointer_in resized.body i) (pointer_in resized.body x)) (sym here)
            (swap (resized_self-Apart i hi there))
      | inr nj ↦
          Moved-Apart (pointer_in s.body i) (pointer_in s.body j) (pointer_in resized.body i)
            (pointer_in resized.body j) (resized-Moved i hi there) (resized-Moved j hj nj)
            (d i j hi hj ne)
    ]
  ]
