-- ===== src/Btree/Branch/Search.antt =====
-- src/btree/branch.rs: `search_child` picks the child whose range of keys holds the key.
use relly.Prelude.{
  ℕ, ◌+◌, ◌≤◌, ◌<◌, ◌≡◌, ◌≢◌, refl, sym, ap, ◌∙◌, List, Bytes, length, get_elem?, Ordering, some,
  done, arith, Returns, Returns-value, lt-of_get_elem?, get_elem?_lt, some_injective, inl, inr,
  eq_cases, ◌==◌, true, false,
}
use relly.Prelude.Cmp.{cmp}
use relly.Prelude.Order.{cmp-flip, cmp-flip_lt}
use relly.Bsearch.{Found, ok, err}
use relly.Disk.{PageId, u64_end, as_bytes}
use relly.Disk.Ids.{from_bytes-as_bytes}
use relly.Btree.{Pair, Bincode}
use relly.Btree.Leaf
use relly.Btree.Leaf.{Leaf}
use relly.Btree.Leaf.Pairs.{Holds, Position}
use relly.Btree.Leaf.Search.{search_slot_id-Position, pair_at-get_elem?}
use relly.Btree.Branch.{
  Branch, child_idx_of, pair_at, search_slot_id, search_child_idx, child_at, search_child,
}

-- The index splits the pairs into keys up to `key` and keys above it.
pub record Splits (key : Bytes) (pairs : List Pair) (idx : ℕ) : Type 0 where
  pub bound : idx ≤ length pairs
  pub below :
      (j : ℕ) (p : Pair) → j < idx → get_elem? pairs j ≡ some p → cmp p.key key ≢ Ordering.gt
  pub above :
      (j : ℕ) (p : Pair) → idx ≤ j → get_elem? pairs j ≡ some p → cmp p.key key ≡ Ordering.gt

module _ (bincode : Bincode) (key : Bytes) (branch : Branch) (pairs : List Pair)
    (holds : Holds bincode branch.body pairs) where
  -- A leaf with the same page, for what it shares.
  abbrev as_leaf : Leaf
  as_leaf = record { header = record { prev_page_id = 0; next_page_id = 0 }; body = branch.body }

  same_search : search_slot_id bincode key branch ≡ Leaf.search_slot_id bincode key as_leaf
  unfolding search_slot_id pair_at Leaf.search_slot_id Leaf.pair_at
  same_search = refl

  same_pair : (i : ℕ) → pair_at bincode branch i ≡ Leaf.pair_at bincode as_leaf i
  unfolding pair_at Leaf.pair_at
  same_pair i = refl

  below_found :
      (i j : ℕ) (p q : Pair)
      → get_elem? pairs i ≡ some p
      → p.key ≡ key
      → j < i + 1
      → get_elem? pairs j ≡ some q
      → cmp q.key key ≢ Ordering.gt
  below_found i j p q e same h f = elim (eq_cases j i) [
    | inl here ↦ λ more.
        let k : q ≡ p = cc (ap (λ x. get_elem? pairs x) here) in
        self_not_more key
          (sym (ap (λ (x : Pair). cmp x.key key) k ∙ ap (λ x. cmp x key) same) ∙ more)
    | inr apart ↦ λ more.
        let less = holds.sorted j i q p (omega arith) f e in
        let less' : cmp q.key key ≡ Ordering.lt = ap (λ x. cmp q.key x) (sym same) ∙ less in cc
  ]
    where
      self_not_more : (a : Bytes) → cmp a a ≢ Ordering.gt
      self_not_more a more = let less = cmp-flip a a more in cc

  Position-Splits :
      (found : Found) → Position key pairs found → Splits key pairs (child_idx_of found)
  Position-Splits (ok i) (p, e, same) = record {
    bound = omega (arith, lt-of_get_elem? pairs i p e);
    below = λ j q h f. below_found i j p q e same h f;
    above = λ j q h f. rw⁻¹ same (cmp-flip_lt p.key q.key (holds.sorted i j p q (omega arith) e f));
  }
  Position-Splits (err i) (h, less, more) = record {
    bound = h;
    below = λ j q k f g. let l = less j q k f in cc;
    above = more;
  }

  search_child_idx-Splits : Returns (search_child_idx bincode key branch) (Splits key pairs)
  unfolding search_child_idx
  search_child_idx-Splits =
      let (found, e, position) =
        Returns-value (Leaf.search_slot_id bincode key as_leaf)
          (search_slot_id-Position bincode key as_leaf pairs holds) in
      rw (same_search, e) (Position-Splits found position)

-- The values of a branch's pairs are page ids.
abbrev pub HasChildren : List Pair → Type 0
HasChildren pairs =
    (i : ℕ) (p : Pair)
    → get_elem? pairs i ≡ some p
    → (id : PageId) × (id < u64_end) × (p.value ≡ as_bytes id)

-- The child at an index.
pub record ChildAt (idx : ℕ) (branch : Branch) (pairs : List Pair) (child : PageId) : Type 0 where
  pub left :
      (p : Pair) → get_elem? pairs idx ≡ some p → (child < u64_end) × (p.value ≡ as_bytes child)
  pub right : idx ≡ length pairs → child ≡ branch.header.right_child

-- The child to the left of the first key above `key`, or the right child if there is none.
pub record Child (key : Bytes) (branch : Branch) (pairs : List Pair) (child : PageId) : Type 0 where
  pub idx : ℕ
  pub splits : Splits key pairs idx
  pub left :
      (p : Pair) → get_elem? pairs idx ≡ some p → (child < u64_end) × (p.value ≡ as_bytes child)
  pub right : idx ≡ length pairs → child ≡ branch.header.right_child

module _ (bincode : Bincode) (key : Bytes) (branch : Branch) (pairs : List Pair)
    (holds : Holds bincode branch.body pairs) (children : HasChildren pairs) where
  -- The child at an index: the value of the pair there, or the right child behind the last.
  pub child_at-ChildAt :
      (idx : ℕ)
      → idx ≤ length pairs
      → Returns (child_at bincode idx branch) (ChildAt idx branch pairs)
  unfolding child_at
  child_at-ChildAt idx bound = elim (eq_cases idx (length pairs)) [
    | inl last ↦
        let t : idx == branch.body.num_slots ≡ true = ground (arith, holds.count) in
        rw t (record {
          left = λ p e. absurd (omega (arith, lt-of_get_elem? pairs idx p e));
          right = λ e. refl;
        })
    | inr inner ↦
        let (p, e) = get_elem?_lt pairs idx (omega arith) in
        let (id, fits, value) = children idx p e in
        let t : idx == branch.body.num_slots ≡ false = ground (arith, holds.count) in
        let read : pair_at bincode branch idx ≡ done p =
          same_pair bincode key branch pairs holds idx
          ∙ pair_at-get_elem? bincode key (as_leaf bincode key branch pairs holds) pairs holds idx p
              e in
        rw (t, read, value, from_bytes-as_bytes id fits)
          (record {
            left = λ q f. (fits, ap (λ (x : Pair). x.value) (some_injective (sym f ∙ e)) ∙ value);
            right = λ h. absurd (inner h);
          })
  ]

  child_at-Child :
      (idx : ℕ)
      → Splits key pairs idx
      → Returns (child_at bincode idx branch) (Child key branch pairs)
  child_at-Child idx splits =
      let (child, e, there) =
        Returns-value (child_at bincode idx branch) (child_at-ChildAt idx splits.bound) in
      rw e (record { idx = idx; splits = splits; left = there.left; right = there.right })

-- On a branch that holds sorted pairs whose values are page ids, `search_child` returns the child to
-- the left of the first key that is greater than the key searched, all keys before it being at most
-- that, or the right child if no key is greater.
pub search_child-Child :
    (bincode : Bincode) (key : Bytes) (branch : Branch) (pairs : List Pair)
    → Holds bincode branch.body pairs
    → HasChildren pairs
    → Returns (search_child bincode key branch) (Child key branch pairs)
unfolding search_child
search_child-Child bincode key branch pairs holds children =
    let (idx, e, splits) =
      Returns-value (search_child_idx bincode key branch)
        (search_child_idx-Splits bincode key branch pairs holds) in
    rw e (child_at-Child bincode key branch pairs holds children idx splits)
