-- ===== src/Btree/Leaf/Ends.antt =====
-- src/btree/leaf.rs: the loops of `split_insert` end.
use relly.Prelude.{
  ℕ, zero, suc, ◌+◌, ◌<◌, ◌≡◌, ◌≢◌, Bytes, length, Option, none, some, Run, done, hang, unwrap,
  assert, arith, >>=-ne-hang, Bool, true, false, >>=-eq-done, leb,
}
use relly.Prelude.Cmp.{cmp}
use relly.Bsearch.{Found, ok, err}
use relly.Bsearch.Ends.{binary_search_by-ne-hang}
use relly.Slotted.{Slotted, slot, write_slot, free_space, checked_sub}
use relly.Slotted
use relly.Slotted.Ends.{
  if-ne-hang, free_space-ne-hang, slot-ne-hang, write_slot-ne-hang, insert-ne-hang, remove-ne-hang,
  remove-num_slots,
}
use relly.Btree.{Bincode, to_bytes}
use relly.Btree.Leaf.{
  Leaf, num_pairs, is_half_full, expect_err, transfer, fill_loop, pair_at, search_slot_id,
  max_pair_size, insert, insert_old, insert_new, is_less, split_loop, split_insert, initialize,
}

unwrap-ne-hang : {A : Type 0} (o : Option A) → unwrap o ≢ hang
unwrap-ne-hang none = λ e. cc
unwrap-ne-hang (some a) = λ e. cc

option-ne-hang :
    {A B : Type 0} (o : Option A) (x : Run B) (f : A → Run B)
    → x ≢ hang
    → ((a : A) → f a ≢ hang)
    → elim o [ none ↦ x | some a ↦ f a ] ≢ hang
option-ne-hang none x f h k = h
option-ne-hang (some a) x f h k = k a

assert-ne-hang : (b : Bool) → assert b ≢ hang
assert-ne-hang true = λ e. cc
assert-ne-hang false = λ e. cc

expect_err-ne-hang : (found : Found) → expect_err found ≢ hang
expect_err-ne-hang (ok i) = λ e. cc
expect_err-ne-hang (err i) = λ e. cc

max_pair_size-ne-hang : (leaf : Leaf) → max_pair_size leaf ≢ hang
unfolding max_pair_size
max_pair_size-ne-hang leaf = ground arith

is_half_full-ne-hang : (leaf : Leaf) → is_half_full leaf ≢ hang
unfolding is_half_full
is_half_full-ne-hang leaf =
    >>=-ne-hang (free_space leaf.body) _ (free_space-ne-hang leaf.body) (λ free e h. cc)

transfer-ne-hang : (self dest : Leaf) → transfer self dest ≢ hang
unfolding transfer
transfer-ne-hang self dest = >>=-ne-hang (slot self.body 0) _ (slot-ne-hang self.body 0) (λ first e.
    >>=-ne-hang (Slotted.insert (num_pairs dest) (length first) dest.body) _
      (insert-ne-hang (num_pairs dest) (length first) dest.body)
      (λ r f. >>=-ne-hang (unwrap r.0) _ (unwrap-ne-hang r.0) (λ u g.
        >>=-ne-hang (write_slot r.1 (num_pairs dest) first) _
          (write_slot-ne-hang r.1 (num_pairs dest) first)
          (λ w h.
            >>=-ne-hang (Slotted.remove 0 self.body) _ (remove-ne-hang 0 self.body)
              (λ x i j. cc)))))

-- A pair was taken from `self`.
transfer-num_pairs :
    (self dest : Leaf) (r : Leaf × Leaf)
    → transfer self dest ≡ done r
    → num_pairs self ≡ num_pairs r.0 + 1
unfolding transfer
transfer-num_pairs self dest r h =
    let (first, e, h1) = >>=-eq-done (slot self.body 0) _ h in
    let (s, f, h2) = >>=-eq-done (Slotted.insert (num_pairs dest) (length first) dest.body) _ h1 in
    let (u, g, h3) = >>=-eq-done (unwrap s.0) _ h2 in
    let (w, i, h4) = >>=-eq-done (write_slot s.1 (num_pairs dest) first) _ h3 in
    let (x, j, h5) = >>=-eq-done (Slotted.remove 0 self.body) _ h4 in
    let k = remove-num_slots 0 self.body x j in cc (k, h5)

fill_loop-ne-hang :
    (fuel : ℕ) (self new_leaf : Leaf) → num_pairs self < fuel → fill_loop fuel self new_leaf ≢ hang
unfolding fill_loop
fill_loop-ne-hang zero self new_leaf h = absurd (omega arith)
fill_loop-ne-hang (suc fuel) self new_leaf h =
    >>=-ne-hang (is_half_full new_leaf) _ (is_half_full-ne-hang new_leaf) (λ full e.
      if-ne-hang full _ _ (λ i. cc)
        (>>=-ne-hang (transfer self new_leaf) _ (transfer-ne-hang self new_leaf) (λ r f.
          fill_loop-ne-hang fuel r.0 r.1 (omega (arith, transfer-num_pairs self new_leaf r f)))))

module _ (bincode : Bincode) where
  pair_at-ne-hang : (leaf : Leaf) (i : ℕ) → pair_at bincode leaf i ≢ hang
  unfolding pair_at
  pair_at-ne-hang leaf i =
      >>=-ne-hang (slot leaf.body i) _ (slot-ne-hang leaf.body i)
        (λ bytes e. unwrap-ne-hang (bincode.deserialize bytes))

  search_slot_id-ne-hang : (key : Bytes) (leaf : Leaf) → search_slot_id bincode key leaf ≢ hang
  unfolding search_slot_id
  search_slot_id-ne-hang key leaf =
      binary_search_by-ne-hang (num_pairs leaf) _
        (λ i. >>=-ne-hang (pair_at bincode leaf i) _ (pair_at-ne-hang leaf i) (λ p e h. cc))

  insert-ne-hang_leaf :
      (i : ℕ) (key value : Bytes) (leaf : Leaf) → insert bincode i key value leaf ≢ hang
  unfolding insert
  insert-ne-hang_leaf i key value leaf =
      >>=-ne-hang (to_bytes bincode (record { key = key; value = value })) _ (unwrap-ne-hang _)
        (λ bytes e. >>=-ne-hang (max_pair_size leaf) _ (max_pair_size-ne-hang leaf) (λ max f.
          >>=-ne-hang (assert (leb (length bytes) max)) _ (assert-ne-hang _) (λ u g.
            >>=-ne-hang (Slotted.insert i (length bytes) leaf.body) _
              (insert-ne-hang i (length bytes) leaf.body)
              (λ r h.
                option-ne-hang r.0 _ _ (λ k. cc)
                  (λ v.
                    >>=-ne-hang (write_slot r.1 i bytes) _ (write_slot-ne-hang r.1 i bytes)
                      (λ w k l. cc))))))

  insert_old-ne-hang :
      (self new_leaf : Leaf) (key value : Bytes) → insert_old bincode self new_leaf key value ≢ hang
  unfolding insert_old
  insert_old-ne-hang self new_leaf key value =
      >>=-ne-hang (search_slot_id bincode key self) _ (search_slot_id-ne-hang key self) (λ found e.
        >>=-ne-hang (expect_err found) _ (expect_err-ne-hang found) (λ index f.
          >>=-ne-hang (insert bincode index key value self) _
            (insert-ne-hang_leaf index key value self)
            (λ r g. >>=-ne-hang (unwrap r.0) _ (unwrap-ne-hang r.0) (λ u h i. cc))))

  insert_new-ne-hang :
      (self new_leaf : Leaf) (key value : Bytes) → insert_new bincode self new_leaf key value ≢ hang
  unfolding insert_new
  insert_new-ne-hang self new_leaf key value =
      >>=-ne-hang (insert bincode (num_pairs new_leaf) key value new_leaf) _
        (insert-ne-hang_leaf (num_pairs new_leaf) key value new_leaf)
        (λ r e.
          >>=-ne-hang (unwrap r.0) _ (unwrap-ne-hang r.0)
            (λ u f. fill_loop-ne-hang (suc (num_pairs self)) self r.1 (omega arith)))

  split_loop-ne-hang :
      (fuel : ℕ) (self new_leaf : Leaf) (key value : Bytes)
      → num_pairs self < fuel
      → split_loop bincode fuel self new_leaf key value ≢ hang
  unfolding split_loop
  split_loop-ne-hang zero self new_leaf key value h = absurd (omega arith)
  split_loop-ne-hang (suc fuel) self new_leaf key value h =
      >>=-ne-hang (is_half_full new_leaf) _ (is_half_full-ne-hang new_leaf) (λ full e.
        if-ne-hang full _ _ (insert_old-ne-hang self new_leaf key value) (
          >>=-ne-hang (pair_at bincode self 0) _ (pair_at-ne-hang self 0) (λ pair f.
            if-ne-hang (is_less (cmp pair.key key)) _ _
              (>>=-ne-hang (transfer self new_leaf) _ (transfer-ne-hang self new_leaf) (λ r g.
                split_loop-ne-hang fuel r.0 r.1 key value
                  (omega (arith, transfer-num_pairs self new_leaf r g))))
              (insert_new-ne-hang self new_leaf key value))))

-- `split_insert` ends on any two leaves and any pair, with a value or a panic: its loops do not run
-- longer than the old leaf has pairs.
pub split_insert-ne-hang :
    (bincode : Bincode) (self new_leaf : Leaf) (key value : Bytes)
    → split_insert bincode new_leaf key value self ≢ hang
unfolding split_insert
split_insert-ne-hang bincode self new_leaf key value =
    >>=-ne-hang (split_loop bincode (suc (num_pairs self)) self (initialize new_leaf) key value) _
      (split_loop-ne-hang bincode (suc (num_pairs self)) self (initialize new_leaf) key value
        (omega arith))
      (λ r e. >>=-ne-hang (pair_at bincode r.0 0) _ (pair_at-ne-hang bincode r.0 0) (λ p f h. cc))
