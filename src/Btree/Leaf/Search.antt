-- ===== src/Btree/Leaf/Search.antt =====
-- src/btree/leaf.rs: `search_slot_id` finds a key, or where it belongs.
use relly.Prelude.{
  ℕ, ◌<◌, ◌≡◌, List, Bytes, get_elem?, Ordering, Option, none, some, done, ◌>>=◌, arith, Returns,
  Returns-value, get_elem?_lt, lt-of_get_elem?, inl, inr, eq_cases,
}
use relly.Prelude.Cmp.{cmp}
use relly.Prelude.Order.{cmp-eq, cmp-lt_trans, cmp-flip, cmp-flip_lt}
use relly.Bsearch.{Found, ok, err, binary_search_by}
use relly.Bsearch.Sound.{IsOrdered, Locates, binary_search_by-Locates}
use relly.Btree.{Pair, Bincode}
use relly.Btree.Leaf.{Leaf, pair_at, search_slot_id}
use relly.Btree.Leaf.Pairs.{Holds, Position}

abbrev order_of : Bytes → Option Pair → Ordering
order_of key none = Ordering.gt
order_of key (some p) = cmp p.key key

module _ (bincode : Bincode) (key : Bytes) (leaf : Leaf) (pairs : List Pair)
    (holds : Holds bincode leaf.body pairs) where
  abbrev order : ℕ → Ordering
  order i = order_of key (get_elem? pairs i)

  pub pair_at-get_elem? :
      (i : ℕ) (p : Pair) → get_elem? pairs i ≡ some p → pair_at bincode leaf i ≡ done p
  unfolding pair_at
  pair_at-get_elem? i p e = let (bytes, read, known) = holds.each i p e in rw (read, known)

  defined :
      (i : ℕ)
      → i < leaf.body.num_slots
      → (do pair ← pair_at bincode leaf i; done (cmp pair.key key)) ≡ done (order i)
  defined i h =
      let (p, e) = get_elem?_lt pairs i (omega (arith, holds.count)) in
      rw (pair_at-get_elem? i p e, e)

  order-IsOrdered : IsOrdered order leaf.body.num_slots
  order-IsOrdered = record {
    below = λ i j le h less. elim (eq_cases i j) [
      | inl same ↦ rw same less
      | inr apart ↦
          let (p, e) = get_elem?_lt pairs i (omega (arith, holds.count)) in
          let (q, f) = get_elem?_lt pairs j (omega (arith, holds.count)) in
          rw e
            (cmp-lt_trans p.key q.key key (holds.sorted i j p q (omega arith) e f) (rw f at less))
    ];
    above = λ i j le h more. elim (eq_cases i j) [
      | inl same ↦ rw⁻¹ same more
      | inr apart ↦
          let (p, e) = get_elem?_lt pairs i (omega (arith, holds.count)) in
          let (q, f) = get_elem?_lt pairs j (omega (arith, holds.count)) in
          rw f (
            cmp-flip_lt key q.key (
              cmp-lt_trans key p.key q.key (cmp-flip p.key key (rw e at more))
                (holds.sorted i j p q (omega arith) e f)))
    ];
  }

  Locates-Position :
      (found : Found) → Locates order leaf.body.num_slots found → Position key pairs found
  Locates-Position (ok i) (h, same) =
      let (p, e) = get_elem?_lt pairs i (omega (arith, holds.count)) in
      (p, e, cmp-eq p.key key (rw e at same))
  Locates-Position (err i) (h, less, more) = (
    omega (arith, holds.count),
    λ j p k e. rw e at (less j k),
    λ j p k e. rw e at (more j k (omega (arith, holds.count, lt-of_get_elem? pairs j p e))),
  )

-- On a leaf that holds pairs sorted by key, the search returns: a slot of a pair with the key, or
-- the index such that the keys before it are less and the keys from it on are greater.
pub search_slot_id-Position :
    (bincode : Bincode) (key : Bytes) (leaf : Leaf) (pairs : List Pair)
    → Holds bincode leaf.body pairs
    → Returns (search_slot_id bincode key leaf) (Position key pairs)
unfolding search_slot_id
search_slot_id-Position bincode key leaf pairs holds =
    let (found, e, located) = Returns-value (binary_search_by leaf.body.num_slots _) (
      binary_search_by-Locates leaf.body.num_slots _ (order bincode key leaf pairs holds)
        (defined bincode key leaf pairs holds) (order-IsOrdered bincode key leaf pairs holds)) in
    rw e (Locates-Position bincode key leaf pairs holds found located)
