-- ===== src/Slotted/Resized.antt =====
-- src/slotted.rs: what `resize` makes of a well-formed page.
use relly.Prelude.{
  ℕ, ◌+◌, ◌-◌, ◌≤◌, ◌<◌, ◌≡◌, ◌≢◌, ◌⊎◌, inl, inr, refl, sym, ap, subst, ◌∙◌, length, Option, some,
  none, done, ltb, leb, ◌==◌, true, false, arith, le→leb, lt→ltb, le→ltb, eq_cases, Returns,
  Returns-value,
}
use relly.Slotted.{Slotted, pointers_size, free_space, pointer_in, pointer_at, slot, resize}
use relly.Slotted.Insert.{IsValid, slot-data_of}
use relly.Slotted.Apart.{IsDisjoint}
use relly.Slotted.Resize.{
  resize-resized, resized-IsValid, resized-IsDisjoint, len-resized_self, data_of-resized,
}

-- What a page is after a slot was given another length.
pub record Resized (index len : ℕ) (s after : Slotted) : Type 0 where
  pub valid : IsValid after
  pub disjoint : IsDisjoint after
  pub num_slots : after.num_slots ≡ s.num_slots
  pub at_index : (pointer_in after.body index).len ≡ len
  pub others : (i : ℕ) → i < s.num_slots → i ≢ index → slot after i ≡ slot s i

unchanged-Resized :
    (index : ℕ) (s : Slotted)
    → IsValid s
    → IsDisjoint s
    → Resized index (pointer_in s.body index).len s s
unchanged-Resized index s v d = record {
  valid = v;
  disjoint = d;
  num_slots = refl;
  at_index = refl;
  others = λ i k ne. refl;
}

-- Whether a page has room for the new length of a slot.
abbrev pub HasRoom : ℕ → ℕ → Slotted → Type 0
HasRoom index len s = len + pointers_size s ≤ (pointer_in s.body index).len + s.free_space_offset

resize_changed :
    (index len : ℕ) (s : Slotted)
    → IsValid s
    → IsDisjoint s
    → index < s.num_slots
    → 0 < (pointer_in s.body index).len
    → HasRoom index len s
    → len ≢ (pointer_in s.body index).len
    → Returns (resize index len s) (λ r. (r.0 ≡ some tt) × Resized index len s r.1)
resize_changed index len s v d h filled room ne =
    let v' = resized-IsValid index len s v d h filled room in
    rw (resize-resized index len s v d h filled room ne) (
      refl,
      record {
        valid = v';
        disjoint = resized-IsDisjoint index len s v d h filled room;
        num_slots = refl;
        at_index = len-resized_self index len s v d h filled room;
        others = λ i k other.
            slot-data_of _ i v' k
            ∙ ap done (data_of-resized index len s v d h filled room i k other)
            ∙ sym (slot-data_of s i v k);
      },
    )

resize_same :
    (index len : ℕ) (s : Slotted)
    → IsValid s
    → index < s.num_slots
    → len ≡ (pointer_in s.body index).len
    → resize index len s ≡ done (some tt, s)
unfolding resize pointer_at
resize_same index len s v h e =
    let a : leb (pointers_size s) (length s.body) ≡ true =
      le→leb _ _ (omega (arith, v.area, v.inside)) in
    let b : ltb index s.num_slots ≡ true = lt→ltb _ _ h in
    let c : len == (pointer_in s.body index).len ≡ true = ground arith in rw (a, b, c)

resize_full :
    (index len : ℕ) (s : Slotted)
    → IsValid s
    → index < s.num_slots
    → (pointer_in s.body index).len + s.free_space_offset < len + pointers_size s
    → resize index len s ≡ done (none, s)
unfolding resize pointer_at free_space
resize_full index len s v h full =
    let area = v.area in
    let a : leb (pointers_size s) (length s.body) ≡ true = le→leb _ _ (omega (arith, v.inside)) in
    let b : ltb index s.num_slots ≡ true = lt→ltb _ _ h in
    let c : len == (pointer_in s.body index).len ≡ false = ground arith in
    let d : ltb s.free_space_offset (pointers_size s) ≡ false = le→ltb _ _ area in
    let e : ltb ((pointer_in s.body index).len + (s.free_space_offset - pointers_size s)) len
        ≡ true =
      lt→ltb _ _ (omega arith) in
    rw (a, b, c, d, e)

-- Both answers of `resize`.
pub data Resizes (index len : ℕ) (s : Slotted) : Option (Unit {0}) × Slotted → Type 0 where
  changed :
      (after : Slotted)
      → HasRoom index len s
      → Resized index len s after
      → Resizes index len s (some tt, after)
  full :
      (pointer_in s.body index).len + s.free_space_offset < len + pointers_size s
      → Resizes index len s (none, s)

room_cases : (a b : ℕ) → (a ≤ b) ⊎ (b < a)
room_cases a b = ground arith

Resized-Resizes :
    (index len : ℕ) (s : Slotted) (r : Option (Unit {0}) × Slotted)
    → HasRoom index len s
    → (r.0 ≡ some tt) × Resized index len s r.1
    → Resizes index len s r
Resized-Resizes index len s (some tt, after) room (e, a) = changed after room a
Resized-Resizes index len s (none, after) room (e, a) = absurd cc

-- On a valid page whose slots do not overlap, `resize` of a slot that has bytes returns. If the
-- new length fits, the page stays valid, its slots still do not overlap, the slot has the new
-- length, and every other slot holds what it held. If it does not fit, the page is unchanged.
pub resize-Resizes :
    (index len : ℕ) (s : Slotted)
    → IsValid s
    → IsDisjoint s
    → index < s.num_slots
    → 0 < (pointer_in s.body index).len
    → Returns (resize index len s) (Resizes index len s)
resize-Resizes index len s v d h filled =
    elim (room_cases (len + pointers_size s)
      ((pointer_in s.body index).len + s.free_space_offset)) [
        | inr none_left ↦ rw (resize_full index len s v h none_left) (full none_left)
        | inl room ↦ elim (eq_cases len (pointer_in s.body index).len) [
          | inl e ↦ rw (resize_same index len s v h e) (
              changed s room
                (subst (λ x. Resized index x s s) (sym e) (unchanged-Resized index s v d)))
          | inr ne ↦
              let (r, e, a) =
                Returns-value (resize index len s)
                  (resize_changed index len s v d h filled room ne) in
              rw e (Resized-Resizes index len s r room a)
        ]
      ]

-- A slot can always be emptied.
pub resize-zero :
    (index : ℕ) (s : Slotted)
    → IsValid s
    → IsDisjoint s
    → index < s.num_slots
    → Returns (resize index 0 s) (λ r. Resized index 0 s r.1)
resize-zero index s v d h = elim (room_cases (pointer_in s.body index).len 0) [
  | inl empty ↦
      let e : 0 ≡ (pointer_in s.body index).len = omega arith in
      rw (resize_same index 0 s v h e)
        (subst (λ x. Resized index x s s) (sym e) (unchanged-Resized index s v d))
  | inr filled ↦
      let (r, e, a) =
        Returns-value (resize index 0 s)
          (resize_changed index 0 s v d h filled (omega (arith, v.area)) (omega arith)) in
      rw e a.1
]
