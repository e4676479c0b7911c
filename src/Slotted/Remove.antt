-- ===== src/Slotted/Remove.antt =====
-- src/slotted.rs: what `remove` makes of a well-formed page.
use relly.Prelude.{
  ℕ, ◌+◌, ◌-◌, ◌*◌, ◌≤◌, ◌<◌, ◌≡◌, ◌≢◌, inl, inr, sym, ap, ◌∙◌, length, slice, Option, done, ltb,
  leb, true, false, if◌then◌else◌, Bool-cases, arith, le→leb, lt→ltb, le→ltb, ltb→lt, ltb→le,
  length-overwrite, Returns, Returns-value,
}
use relly.Slotted.{Slotted, pointer_size, pointers_size, pointer_in, slot, resize, remove}
use relly.Slotted.Bodies.{pointer_in-overwrite_ne, moved, pointer_in-moved, slice-moved_ne}
use relly.Slotted.Insert.{IsValid, slot-data_of}
use relly.Slotted.Apart.{IsDisjoint}
use relly.Slotted.Resized.{Resized, resize-zero}

-- The pointers behind `index`, each one place further down.
module _ (index : ℕ) (s : Slotted) (v : IsValid s) (d : IsDisjoint s)
    (h : index < s.num_slots) where
  abbrev closed : Slotted
  closed = record s {
    num_slots = s.num_slots - 1;
    body = moved s.body index (index + 1) (s.num_slots - (index + 1));
  }

  -- The slot that has become slot `i`.
  abbrev source : ℕ → ℕ
  source i = if ltb i index then i else i + 1

  length-closed : length closed.body ≡ length s.body
  length-closed = length-overwrite s.body (pointer_size * index) _

  pointers_fit : pointer_size * s.num_slots ≤ length s.body
  pointers_fit = omega (arith, v.area, v.inside)

  pointer_in-closed :
      (i : ℕ) → i + 1 < s.num_slots → pointer_in closed.body i ≡ pointer_in s.body (source i)
  pointer_in-closed i k = elim (Bool-cases (ltb i index)) [
    | inl before ↦ rw before (
        pointer_in-overwrite_ne s.body _ (pointer_size * index) i
          (inl (omega (arith, ltb→lt _ _ before))))
    | inr behind ↦
        let le = ltb→le _ _ behind in
        let at : index + (i - index) ≡ i = omega arith in
        let from : index + 1 + (i - index) ≡ i + 1 = omega arith in
        rw behind (
          rw (at, from) at
            (pointer_in-moved s.body index (index + 1) (s.num_slots - (index + 1)) (i - index)
              (omega arith) (omega (arith, pointers_fit)) (omega (arith, pointers_fit))))
  ]

  source_lt : (i : ℕ) → i + 1 < s.num_slots → source i < s.num_slots
  source_lt i k = ground arith

  source_ne : (i j : ℕ) → i ≢ j → source i ≢ source j
  source_ne i j ne = ground arith

  slice-closed : (o n : ℕ) → s.free_space_offset ≤ o → slice o n closed.body ≡ slice o n s.body
  slice-closed o n k =
      slice-moved_ne s.body index (index + 1) (s.num_slots - (index + 1)) o n
        (omega (arith, pointers_fit)) (omega (arith, v.area))

  closed-IsValid : IsValid closed
  closed-IsValid = record {
    area = omega (arith, v.area);
    inside = omega (arith, length-closed, v.inside);
    small = omega (arith, length-closed, v.small);
    points = λ i k.
        rw (pointer_in-closed i (omega arith), length-closed)
          (v.points (source i) (source_lt i (omega arith)));
  }

  closed-IsDisjoint : IsDisjoint closed
  closed-IsDisjoint i j hi hj ne =
      rw (pointer_in-closed i (omega arith), pointer_in-closed j (omega arith))
        (d (source i) (source j) (source_lt i (omega arith)) (source_lt j (omega arith))
          (source_ne i j ne))

  slot-closed : (i : ℕ) → i + 1 < s.num_slots → slot closed i ≡ slot s (source i)
  slot-closed i k =
      let from = source_lt i k in
      slot-data_of closed i closed-IsValid (omega arith)
      ∙ ap done (rw (pointer_in-closed i k) (slice-closed _ _ (v.points (source i) from).0))
      ∙ sym (slot-data_of s (source i) v from)

-- What a page is after a slot was removed.
pub record Removed (index : ℕ) (s after : Slotted) : Type 0 where
  pub valid : IsValid after
  pub disjoint : IsDisjoint after
  pub num_slots : after.num_slots + 1 ≡ s.num_slots
  pub before : (i : ℕ) → i < index → slot after i ≡ slot s i
  pub behind : (i : ℕ) → index ≤ i → i + 1 < s.num_slots → slot after i ≡ slot s (i + 1)

removed :
    (index : ℕ) (s : Slotted) (v : IsValid s) (d : IsDisjoint s) (h : index < s.num_slots)
    (r : Option (Unit {0}) × Slotted)
    → Resized index 0 s r.1
    → resize index 0 s ≡ done r
    → Returns (remove index s) (Removed index s)
unfolding remove
removed index s v d h (fitted, s') a e =
    let h' : index < s'.num_slots = omega (arith, a.num_slots) in
    let b : leb (pointers_size s') (length s'.body) ≡ true =
      le→leb _ _ (omega (arith, a.valid.area, a.valid.inside)) in
    let c : leb (index + 1) s'.num_slots ≡ true = le→leb _ _ (omega arith) in
    let f : ltb s'.num_slots 1 ≡ false = le→ltb _ _ (omega arith) in
    let n = a.num_slots in
    let same = slot-closed index s' a.valid a.disjoint h' in
    rw (e, b, c, f)
      (record {
        valid = closed-IsValid index s' a.valid a.disjoint h';
        disjoint = closed-IsDisjoint index s' a.valid a.disjoint h';
        num_slots = omega arith;
        before = λ i k.
            let t : ltb i index ≡ true = lt→ltb _ _ k in
            rw t at (same i (omega arith)) ∙ a.others i (omega arith) (omega arith);
        behind = λ i k l.
            let t : ltb i index ≡ false = le→ltb _ _ k in
            rw t at (same i (omega arith)) ∙ a.others (i + 1) (omega arith) (omega arith);
      })

-- On a valid page whose slots do not overlap, `remove` of a slot returns. The page stays valid and
-- its slots do not overlap; it has one slot less: those before the removed one are unchanged, and
-- those behind it have moved down by one with their bytes unchanged.
pub remove-Removed :
    (index : ℕ) (s : Slotted)
    → IsValid s
    → IsDisjoint s
    → index < s.num_slots
    → Returns (remove index s) (Removed index s)
remove-Removed index s v d h =
    let (r, e, a) = Returns-value (resize index 0 s) (resize-zero index s v d h) in
    removed index s v d h r a e
