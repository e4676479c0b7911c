-- ===== src/Btree/Leaf/Pairs.antt =====
-- src/btree/leaf.rs: the sorted list of pairs that a leaf stands for.
use relly.Prelude.{
  ℕ, zero, suc, ◌+◌, ◌≤◌, ◌<◌, ◌≡◌, refl, subst, List, [], ◌∷◌, Bytes, length, get_elem?, Ordering,
  some, done, arith, ◌⊎◌, inl, inr,
}
use relly.Prelude.Cmp.{cmp}
use relly.Bsearch.{Found, ok, err}
use relly.Slotted
use relly.Slotted.{Slotted, slot, u16_end}
use relly.Slotted.Insert.{IsValid, initialize-IsValid}
use relly.Btree.{Pair, Bincode}

-- Every key is less than those behind it.
abbrev pub IsSorted : List Pair → Type 0
IsSorted pairs =
    (i j : ℕ) (p q : Pair)
    → i < j
    → get_elem? pairs i ≡ some p
    → get_elem? pairs j ≡ some q
    → cmp p.key q.key ≡ Ordering.lt

-- The slots of a page are the pairs, in their order.
pub record Holds (bincode : Bincode) (page : Slotted) (pairs : List Pair) : Type 0 where
  pub valid : IsValid page
  pub count : page.num_slots ≡ length pairs
  pub each :
      (i : ℕ) (p : Pair)
      → get_elem? pairs i ≡ some p
      → (bytes : Bytes) × (slot page i ≡ done bytes) × (bincode.deserialize bytes ≡ some p)
  pub sorted : IsSorted pairs

-- An initialised page holds no pair.
pub initialize-Holds :
    (bincode : Bincode) (page : Slotted)
    → length page.body < u16_end
    → Holds bincode (Slotted.initialize page) []
unfolding Slotted.initialize
initialize-Holds bincode page h = record {
  valid = initialize-IsValid page h;
  count = refl;
  each = λ i p e. cc;
  sorted = λ i j p q k e f. cc;
}

-- Where a key is, or belongs.
abbrev pub Position : Bytes → List Pair → Found → Type 0
Position key pairs (ok i) = (p : Pair) × (get_elem? pairs i ≡ some p) × (p.key ≡ key)
Position key pairs (err i) =
    (i ≤ length pairs)
    × ((j : ℕ) (p : Pair) → j < i → get_elem? pairs j ≡ some p → cmp p.key key ≡ Ordering.lt)
    × ((j : ℕ) (p : Pair) → i ≤ j → get_elem? pairs j ≡ some p → cmp p.key key ≡ Ordering.gt)

-- A pair is put in at an index.
unfoldable pub insert_at : ℕ → Pair → List Pair → List Pair
insert_at zero p pairs = p ∷ pairs
insert_at (suc i) p [] = p ∷ []
insert_at (suc i) p (q ∷ pairs) = q ∷ insert_at i p pairs

pub length-insert_at :
    (i : ℕ) (p : Pair) (pairs : List Pair) → length (insert_at i p pairs) ≡ length pairs + 1
unfolding insert_at
length-insert_at zero p pairs = omega arith
length-insert_at (suc i) p [] = omega arith
length-insert_at (suc i) p (q ∷ pairs) = omega (arith, length-insert_at i p pairs)

-- What stands at an index afterwards: a pair from before it, the new one, or one from behind.
abbrev pub Stands : ℕ → Pair → List Pair → ℕ → Pair → Type 0
Stands i p pairs j q =
    (j < i) × (get_elem? pairs j ≡ some q)
    ⊎ (j ≡ i) × (q ≡ p)
    ⊎ (k : ℕ) × (i ≤ k) × (j ≡ k + 1) × (get_elem? pairs k ≡ some q)

pub insert_at-Stands :
    (i j : ℕ) (p q : Pair) (pairs : List Pair)
    → i ≤ length pairs
    → get_elem? (insert_at i p pairs) j ≡ some q
    → Stands i p pairs j q
unfolding insert_at
insert_at-Stands zero zero p q pairs h e = inr (inl (refl, cc))
insert_at-Stands zero (suc j) p q pairs h e = inr (inr (j, omega arith, omega arith, e))
insert_at-Stands (suc i) j p q [] h e = absurd (omega arith)
insert_at-Stands (suc i) zero p q (r ∷ pairs) h e = inl (omega arith, e)
insert_at-Stands (suc i) (suc j) p q (r ∷ pairs) h e =
    elim (insert_at-Stands i j p q pairs (omega arith) e) [
      | inl (a, k) ↦ inl (omega arith, k)
      | inr (inl (a, k)) ↦ inr (inl (omega arith, k))
      | inr (inr (k, a, b, c)) ↦ inr (inr (k + 1, omega arith, omega arith, next k c))
    ]
  where
    suc_eq : (k : ℕ) → suc k ≡ k + 1
    suc_eq k = omega arith

    next : (k : ℕ) → get_elem? pairs k ≡ some q → get_elem? (r ∷ pairs) (k + 1) ≡ some q
    next k c = subst (λ x. get_elem? (r ∷ pairs) x ≡ some q) (suc_eq k) c
