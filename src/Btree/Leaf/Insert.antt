-- ===== src/Btree/Leaf/Insert.antt =====
-- src/btree/leaf.rs: `insert` at the index that a search returned.
use relly.Prelude.{
  ℕ, ◌+◌, ◌-◌, ◌/◌, ◌≤◌, ◌<◌, ◌≡◌, refl, sym, ap, ◌∙◌, List, Bytes, length, Ordering, Option, none,
  some, Run, panic, hang, done, ◌>>=◌, ◌>>◌, unwrap, arith, Returns, Returns-value, lt-of_get_elem?,
  inl, inr, Bool-cases, ltb, leb, le→ltb, le→leb, ltb→lt, ltb→le, true, false,
}
use relly.Prelude.Cmp.{cmp}
use relly.Prelude.Order.{cmp-flip}
use relly.Bsearch.{err}
use relly.Slotted.{Slotted, capacity, pointers_size, pointer_size, slot, write_slot}
use relly.Slotted
use relly.Slotted.Fill.{PutIn, insert-PutIn, insert_no_room}
use relly.Btree.{Pair, Bincode}
use relly.Btree.Leaf.{Leaf, max_pair_size, insert}
use relly.Btree.Leaf.Pairs.{Holds, Position, insert_at, length-insert_at, Stands, insert_at-Stands}

module _ (bincode : Bincode) (i : ℕ) (pair : Pair) (bytes : Bytes) (pairs : List Pair)
    (page after : Slotted) (holds : Holds bincode page pairs)
    (place : Position pair.key pairs (err i)) (put : PutIn i bytes page after)
    (known : bincode.deserialize bytes ≡ some pair) where
  Stands-each :
      (j : ℕ) (q : Pair)
      → Stands i pair pairs j q
      → (read : Bytes) × (slot after j ≡ done read) × (bincode.deserialize read ≡ some q)
  Stands-each j q (inl (h, e)) =
      let (read, here, k) = holds.each j q e in (read, put.before j h ∙ here, k)
  Stands-each j q (inr (inl (h, e))) =
      (bytes, ap (λ x. slot after x) h ∙ put.at_index, known ∙ ap some (sym e))
  Stands-each j q (inr (inr (k, h, e, f))) =
      let (read, here, d) = holds.each k q f in
      let below = lt-of_get_elem? pairs k q f in
      (read, ap (λ x. slot after x) e ∙ put.behind k h (omega (arith, holds.count)) ∙ here, d)

  Stands-sorted :
      (a b : ℕ) (p q : Pair)
      → a < b
      → Stands i pair pairs a p
      → Stands i pair pairs b q
      → cmp p.key q.key ≡ Ordering.lt
  Stands-sorted a b p q h (inl (d, e)) (inl (f, g)) = holds.sorted a b p q h e g
  Stands-sorted a b p q h (inl (d, e)) (inr (inl (f, g))) =
      ap (λ (x : Pair). cmp p.key x.key) g ∙ place.1 a p d e
  Stands-sorted a b p q h (inl (d, e)) (inr (inr (k, f, g, l))) =
      holds.sorted a k p q (omega arith) e l
  Stands-sorted a b p q h (inr (inl (d, e))) (inr (inr (k, f, g, l))) =
      ap (λ (x : Pair). cmp x.key q.key) e ∙ cmp-flip q.key pair.key (place.2 k q f l)
  Stands-sorted a b p q h (inr (inr (k, d, e, c))) (inr (inr (l, f, g, m))) =
      holds.sorted k l p q (omega arith) c m
  Stands-sorted a b p q h (inr (inl (d, e))) (inl (f, g)) = absurd (omega arith)
  Stands-sorted a b p q h (inr (inl (d, e))) (inr (inl (f, g))) = absurd (omega arith)
  Stands-sorted a b p q h (inr (inr (k, d, e, c))) (inl (f, g)) = absurd (omega arith)
  Stands-sorted a b p q h (inr (inr (k, d, e, c))) (inr (inl (f, g))) = absurd (omega arith)

  PutIn-Holds : Holds bincode after (insert_at i pair pairs)
  PutIn-Holds = record {
    valid = put.valid;
    count = omega (arith, put.num_slots, holds.count, length-insert_at i pair pairs);
    each = λ j q e. Stands-each j q (insert_at-Stands i j pair q pairs place.0 e);
    sorted = λ a b p q h e f.
        Stands-sorted a b p q h (insert_at-Stands i a pair p pairs place.0 e)
          (insert_at-Stands i b pair q pairs place.0 f);
  }

-- The two calls on the page, from their composition.
composed :
    (r : Run (Option (Unit {0}) × Slotted)) (k : Slotted → Run Slotted) (after : Slotted)
    → (do (fitted, s') ← r; unwrap fitted; k s') ≡ done after
    → (s' : Slotted) × (r ≡ done (some tt, s')) × (k s' ≡ done after)
composed panic k after h = cc
composed hang k after h = cc
composed (done (none, s')) k after h = cc
composed (done (some _, s')) k after h = (s', refl, h)

-- What a leaf is after an insertion that fitted, or did not.
abbrev pub AfterInsert :
    Bincode → ℕ → Pair → Bytes → List Pair → Leaf → Option (Unit {0}) × Leaf → Type 0
AfterInsert bincode i pair bytes pairs leaf (some _, after) =
    Holds bincode after.body (insert_at i pair pairs)
    × (after.header ≡ leaf.header)
    × (length after.body.body ≡ length leaf.body.body)
    × (after.body.pad ≡ leaf.body.pad)
AfterInsert bincode i pair bytes pairs leaf (none, after) =
    (after ≡ leaf)
    × (leaf.body.free_space_offset < pointers_size leaf.body + pointer_size + length bytes)

-- On a leaf that holds sorted pairs, at the index where the key belongs and with a pair of at most
-- the greatest size, `insert` returns. If it reports success, the leaf holds the pairs with the new
-- one at that index, sorted, under the same header, and its page has the same size. Otherwise the leaf is unchanged, and has no
-- room for the pair's bytes and a pointer.
pub insert-AfterInsert :
    (bincode : Bincode) (i : ℕ) (pair : Pair) (bytes : Bytes) (pairs : List Pair) (leaf : Leaf)
    → Holds bincode leaf.body pairs
    → Position pair.key pairs (err i)
    → bincode.serialize pair ≡ some bytes
    → length bytes + pointer_size ≤ capacity leaf.body / 2
    → Returns
        (insert bincode i pair.key pair.value leaf)
        (AfterInsert bincode i pair bytes pairs leaf)
unfolding insert max_pair_size
insert-AfterInsert bincode i pair bytes pairs leaf holds place written small =
    let (bytes', written', known') = bincode.round_trip pair in
    let known : bincode.deserialize bytes ≡ some pair = cc in
    let a : ltb (capacity leaf.body / 2) pointer_size ≡ false = le→ltb _ _ (omega arith) in
    let b : leb (length bytes) (capacity leaf.body / 2 - pointer_size) ≡ true =
      le→leb _ _ (omega arith) in
    elim (Bool-cases
      (ltb leaf.body.free_space_offset (pointers_size leaf.body + pointer_size + length bytes))) [
        | inl full ↦
            let h = ltb→lt _ _ full in
            rw (written, a, b, insert_no_room i (length bytes) leaf.body holds.valid h) (refl, h)
        | inr roomy ↦
            let h = ltb→le _ _ roomy in
            let (after, e, put) = Returns-value _ (
              insert-PutIn i bytes leaf.body holds.valid (omega (arith, place.0, holds.count)) h) in
            let (s', c, d) = composed (Slotted.insert i (length bytes) leaf.body) _ after e in
            rw (written, a, b, c, d)
              (
                PutIn-Holds bincode i pair bytes pairs leaf.body after holds place put known,
                refl,
                put.size,
                put.pad,
              )
      ]
