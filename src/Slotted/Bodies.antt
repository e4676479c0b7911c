-- ===== src/Slotted/Bodies.antt =====
-- src/slotted.rs: pointers in a body, after a write to it.
use relly.Prelude.{
  ℕ, ◌+◌, ◌-◌, ◌*◌, ◌≤◌, ◌<◌, ◌≡◌, ◌⊎◌, inr, refl, ◌∙◌, ◌++◌, Bytes, length, slice, overwrite,
  arith, length-overwrite, slice-overwrite_ne, slice-overwrite_inside, slice-slice, length-slice,
}
use relly.Disk.{le_value, le_bytes}
use relly.Slotted.{Pointer, pointer_in, put_pointer, u16_end, pointer_size}

u16_round_trip : (x : ℕ) → x < u16_end → le_value (le_bytes 2 x) ≡ x
unfolding le_value le_bytes
u16_round_trip x h = omega arith

pub length-put_pointer :
    (body : Bytes) (i : ℕ) (p : Pointer) → length (put_pointer body i p) ≡ length body
unfolding put_pointer
length-put_pointer body i p =
    length-overwrite body (pointer_size * i) (le_bytes 2 p.offset ++ le_bytes 2 p.len)

-- A pointer beside the bytes written is as before.
pub pointer_in-overwrite_ne :
    (body ys : Bytes) (o j : ℕ)
    → (pointer_size * j + pointer_size ≤ o) ⊎ (o + length ys ≤ pointer_size * j)
    → pointer_in (overwrite body o ys) j ≡ pointer_in body j
unfolding pointer_in
pointer_in-overwrite_ne body ys o j h = rw (
  slice-overwrite_ne (pointer_size * j) 2 o body ys (omega arith),
  slice-overwrite_ne (pointer_size * j + 2) 2 o body ys (omega arith),
)

-- The bytes of two halves.
first_half : (a b : ℕ) → slice 0 2 (le_bytes 2 a ++ le_bytes 2 b) ≡ le_bytes 2 a
unfolding le_bytes
first_half a b = refl

second_half : (a b : ℕ) → slice 2 2 (le_bytes 2 a ++ le_bytes 2 b) ≡ le_bytes 2 b
unfolding le_bytes
second_half a b = refl

length_halves : (a b : ℕ) → length (le_bytes 2 a ++ le_bytes 2 b) ≡ 4
unfolding le_bytes
length_halves a b = refl

pub pointer_in-put_pointer_self :
    (body : Bytes) (i : ℕ) (p : Pointer)
    → pointer_size * i + pointer_size ≤ length body
    → p.offset < u16_end
    → p.len < u16_end
    → pointer_in (put_pointer body i p) i ≡ p
unfolding pointer_in put_pointer
pointer_in-put_pointer_self body i p h a b =
    let n = length_halves p.offset p.len in
    let w = le_bytes 2 p.offset ++ le_bytes 2 p.len in
    let lo : slice (pointer_size * i) 2 (overwrite body (pointer_size * i) w)
        ≡ le_bytes 2 p.offset =
      slice-overwrite_inside (pointer_size * i) 0 2 (pointer_size * i) body w (omega arith)
        (omega (arith, n)) (omega (arith, n))
      ∙ first_half p.offset p.len in
    let hi : slice (pointer_size * i + 2) 2 (overwrite body (pointer_size * i) w)
        ≡ le_bytes 2 p.len =
      slice-overwrite_inside (pointer_size * i) 2 2 (pointer_size * i + 2) body w refl
        (omega (arith, n)) (omega (arith, n))
      ∙ second_half p.offset p.len in
    rw (lo, hi, u16_round_trip p.offset a, u16_round_trip p.len b)

pub pointer_in-put_pointer_ne :
    (body : Bytes) (i j : ℕ) (p : Pointer)
    → (j < i) ⊎ (i < j)
    → pointer_in (put_pointer body i p) j ≡ pointer_in body j
unfolding put_pointer
pointer_in-put_pointer_ne body i j p h =
    pointer_in-overwrite_ne body (le_bytes 2 p.offset ++ le_bytes 2 p.len) (pointer_size * i) j
      (omega (arith, length_halves p.offset p.len))

-- Pointers that are moved to another place: from `from` on, `k` of them, to `dest`.
abbrev pub moved : Bytes → ℕ → ℕ → ℕ → Bytes
moved body dest from k =
    overwrite body (pointer_size * dest) (slice (pointer_size * from) (pointer_size * k) body)

slice-moved :
    (body : Bytes) (dest from k at n source : ℕ)
    → pointer_size * (from + k) ≤ length body
    → pointer_size * (dest + k) ≤ length body
    → pointer_size * dest ≤ at
    → at + n ≤ pointer_size * (dest + k)
    → source + pointer_size * dest ≡ at + pointer_size * from
    → slice at n (moved body dest from k) ≡ slice source n body
slice-moved body dest from k at n source a b c d e =
    let m = length-slice (pointer_size * from) (pointer_size * k) body (omega arith) in
    slice-overwrite_inside (pointer_size * dest) (at - pointer_size * dest) n at body
      (slice (pointer_size * from) (pointer_size * k) body) (omega arith) (omega (arith, m))
      (omega (arith, m))
    ∙ slice-slice (pointer_size * from) (pointer_size * k) (at - pointer_size * dest) n source body
        (omega arith) (omega arith)

pub pointer_in-moved :
    (body : Bytes) (dest from k j : ℕ)
    → j < k
    → pointer_size * (from + k) ≤ length body
    → pointer_size * (dest + k) ≤ length body
    → pointer_in (moved body dest from k) (dest + j) ≡ pointer_in body (from + j)
unfolding pointer_in
pointer_in-moved body dest from k j h a b = rw (
  slice-moved body dest from k (pointer_size * (dest + j)) 2 (pointer_size * (from + j)) a b
      (omega arith) (omega arith) (omega arith),
  slice-moved body dest from k (pointer_size * (dest + j) + 2) 2 (pointer_size * (from + j) + 2) a b
      (omega arith) (omega arith) (omega arith),
)

-- Bytes behind the pointers written are as before.
pub slice-put_pointer_ne :
    (body : Bytes) (i : ℕ) (p : Pointer) (o n : ℕ)
    → pointer_size * (i + 1) ≤ o
    → slice o n (put_pointer body i p) ≡ slice o n body
unfolding put_pointer
slice-put_pointer_ne body i p o n h =
    slice-overwrite_ne o n (pointer_size * i) body (le_bytes 2 p.offset ++ le_bytes 2 p.len)
      (inr (omega (arith, length_halves p.offset p.len)))

pub slice-moved_ne :
    (body : Bytes) (dest from k o n : ℕ)
    → pointer_size * (from + k) ≤ length body
    → pointer_size * (dest + k) ≤ o
    → slice o n (moved body dest from k) ≡ slice o n body
slice-moved_ne body dest from k o n a h =
    slice-overwrite_ne o n (pointer_size * dest) body
      (slice (pointer_size * from) (pointer_size * k) body)
      (inr
        (omega (arith, length-slice (pointer_size * from) (pointer_size * k) body (omega arith))))
