-- ===== src/Slotted/Apart.antt =====
-- src/slotted.rs: no byte of a page is in two slots, and `insert` keeps that.
use relly.Prelude.{
  ℕ, ◌+◌, ◌-◌, ◌≤◌, ◌<◌, ◌≡◌, ◌≢◌, ◌⊎◌, inl, inr, sym, subst, ◌∙◌, ltb, if◌then◌else◌, arith,
  ltb→lt, ltb→le, Bool-cases, eq_cases,
}
use relly.Slotted.{Slotted, Pointer, pointer_size, pointers_size, pointer_in, initialize}
use relly.Slotted.Insert.{
  IsValid, inserted, pointer_in-inserted_self, pointer_in-inserted_before,
  pointer_in-inserted_after,
}

abbrev pub Apart : Pointer → Pointer → Type 0
Apart p q = (p.offset + p.len ≤ q.offset) ⊎ (q.offset + q.len ≤ p.offset)

abbrev pub IsDisjoint : Slotted → Type 0
IsDisjoint s =
    (i j : ℕ)
    → i < s.num_slots
    → j < s.num_slots
    → i ≢ j
    → Apart (pointer_in s.body i) (pointer_in s.body j)

pub swap : {A B : Type 0} → A ⊎ B → B ⊎ A
swap (inl a) = inr a
swap (inr b) = inl b

pub initialize-IsDisjoint : (s : Slotted) → IsDisjoint (initialize s)
unfolding initialize
initialize-IsDisjoint s i j hi hj ne = absurd (omega (arith, hi))

module _ (index len : ℕ) (s : Slotted) (v : IsValid s) (h : index ≤ s.num_slots)
    (room : pointers_size s + pointer_size + len ≤ s.free_space_offset) (d : IsDisjoint s) where
  abbrev page : Slotted
  page = inserted index len s v h room

  -- The slot of the old page that is at an index of the new one.
  abbrev source : ℕ → ℕ
  source i = if ltb i index then i else i - 1

  pointer_in-page :
      (i : ℕ)
      → i < s.num_slots + 1
      → i ≢ index
      → pointer_in page.body i ≡ pointer_in s.body (source i)
  pointer_in-page i k ne = elim (Bool-cases (ltb i index)) [
    | inl before ↦ rw before (pointer_in-inserted_before index len s v h room i (ltb→lt _ _ before))
    | inr behind ↦
        let le = ltb→le _ _ behind in
        let e : i ≡ i - 1 + 1 = omega arith in
        rw behind (
          subst (λ x. pointer_in page.body x ≡ pointer_in s.body (i - 1)) (sym e)
            (pointer_in-inserted_after index len s v h room (i - 1) (omega arith) (omega arith)))
  ]

  source_lt : (i : ℕ) → i < s.num_slots + 1 → i ≢ index → source i < s.num_slots
  source_lt i k ne = ground arith

  source_ne : (i j : ℕ) → i ≢ index → j ≢ index → i ≢ j → source i ≢ source j
  source_ne i j ni nj ne = ground arith

  page_self-Apart :
      (j : ℕ)
      → j < s.num_slots + 1
      → j ≢ index
      → Apart (pointer_in page.body index) (pointer_in page.body j)
  page_self-Apart j k ne =
      rw (pointer_in-inserted_self index len s v h room, pointer_in-page j k ne)
        (inl (omega (arith, (v.points (source j) (source_lt j k ne)).0)))

  pub inserted-IsDisjoint : IsDisjoint page
  inserted-IsDisjoint i j hi hj ne = elim (eq_cases i index) [
    | inl here ↦
        subst (λ x. Apart (pointer_in page.body x) (pointer_in page.body j)) (sym here)
          (page_self-Apart j hj (λ e. ne (here ∙ sym e)))
    | inr ni ↦ elim (eq_cases j index) [
      | inl here ↦
          subst (λ x. Apart (pointer_in page.body i) (pointer_in page.body x)) (sym here)
            (swap (page_self-Apart i hi ni))
      | inr nj ↦
          rw (pointer_in-page i hi ni, pointer_in-page j hj nj)
            (d (source i) (source j) (source_lt i hi ni) (source_lt j hj nj)
              (source_ne i j ni nj ne))
    ]
  ]
