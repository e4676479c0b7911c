-- ===== src/Btree/Leaf.antt =====
-- src/btree/leaf.rs: a leaf is a page of slots that hold pairs in the order of their keys.
pub mod Pairs
pub mod Search
pub mod Reached
pub mod Insert
pub mod Ends
use relly.Prelude.{
  ℕ, zero, suc, ◌+◌, ◌-◌, ◌*◌, ◌/◌, Ordering, Bytes, length, slice, Option, none, some, Bool, true,
  false, not, Run, panic, hang, done, ◌>>=◌, ◌>>◌, assert, unwrap, ltb, leb, if◌then◌else◌,
}
use relly.Prelude.Cmp.{cmp}
use relly.Bsearch.{Found, ok, err, binary_search_by}
use relly.Disk.{PageId, invalid_page_id, valid, from_option, le_value}
use relly.Slotted.{Slotted, capacity, free_space, pointer_size, slot, write_slot}
use relly.Slotted
use relly.Btree.{Pair, Bincode, to_bytes, from_bytes}

pub record Header : Type 0 where
  pub prev_page_id : PageId
  pub next_page_id : PageId

pub record Leaf : Type 0 where
  pub header : Header
  pub body : Slotted

unfoldable pub new : Bytes → Run Leaf
new bytes =
    let split = (do
      body ← Slotted.new (slice 16 (length bytes - 16) bytes)
      done (record {
        header = record {
          prev_page_id = le_value (slice 0 8 bytes);
          next_page_id = le_value (slice 8 8 bytes);
        };
        body = body;
      })) in
    if ltb (length bytes) 16 then panic else split

unfoldable pub prev_page_id : Leaf → Option PageId
prev_page_id leaf = valid leaf.header.prev_page_id

unfoldable pub next_page_id : Leaf → Option PageId
next_page_id leaf = valid leaf.header.next_page_id

abbrev pub num_pairs : Leaf → ℕ
num_pairs leaf = leaf.body.num_slots

-- The subtraction on `usize` panics below 0.
unfoldable pub max_pair_size : Leaf → Run ℕ
max_pair_size leaf = Slotted.checked_sub (capacity leaf.body / 2) pointer_size

unfoldable pub initialize : Leaf → Leaf
initialize leaf = record leaf {
  header = record { prev_page_id = invalid_page_id; next_page_id = invalid_page_id };
  body = Slotted.initialize leaf.body;
}

unfoldable pub set_prev_page_id : Option PageId → Leaf → Leaf
set_prev_page_id page_id leaf = record leaf {
  header = record (leaf.header) { prev_page_id = from_option page_id };
}

unfoldable pub set_next_page_id : Option PageId → Leaf → Leaf
set_next_page_id page_id leaf = record leaf {
  header = record (leaf.header) { next_page_id = from_option page_id };
}

unfoldable pub is_half_full : Leaf → Run Bool
is_half_full leaf = do free ← free_space leaf.body; done (ltb (2 * free) (capacity leaf.body))

-- `expect_err` on the result of a search.
abbrev pub expect_err : Found → Run ℕ
expect_err (ok slot_id) = panic
expect_err (err slot_id) = done slot_id

-- The first pair of `self` goes to the end of `dest`.
unfoldable pub transfer : Leaf → Leaf → Run (Leaf × Leaf)
transfer self dest = do
  first ← slot self.body 0
  (fitted, body) ← Slotted.insert (num_pairs dest) (length first) dest.body
  unwrap fitted
  dest_body ← write_slot body (num_pairs dest) first
  self_body ← Slotted.remove 0 self.body
  done (record self { body = self_body }, record dest { body = dest_body })

-- The `while` loop of `split_insert` on fuel.
unfoldable pub fill_loop : ℕ → Leaf → Leaf → Run (Leaf × Leaf)
fill_loop zero self new_leaf = hang
fill_loop (suc fuel) self new_leaf = do
  full ← is_half_full new_leaf
  let round = (do (self', new_leaf') ← transfer self new_leaf; fill_loop fuel self' new_leaf')
  if full then done (self, new_leaf) else round

abbrev pub is_less : Ordering → Bool
is_less Ordering.lt = true
is_less _ = false

module _ (bincode : Bincode) where
  unfoldable pub pair_at : Leaf → ℕ → Run Pair
  pair_at leaf slot_id = do bytes ← slot leaf.body slot_id; from_bytes bincode bytes

  unfoldable pub search_slot_id : Bytes → Leaf → Run Found
  search_slot_id key leaf =
      binary_search_by (num_pairs leaf)
        (λ slot_id. do pair ← pair_at leaf slot_id; done (cmp pair.key key))

  -- `insert(..)?` and the copy into the new slot.
  unfoldable pub insert : ℕ → Bytes → Bytes → Leaf → Run (Option (Unit {0}) × Leaf)
  insert slot_id key value leaf = do
    pair_bytes ← to_bytes bincode (record { key = key; value = value })
    max ← max_pair_size leaf
    assert (leb (length pair_bytes) max)
    (fitted, body) ← Slotted.insert slot_id (length pair_bytes) leaf.body
    elim fitted [
      | none ↦ done (none, record leaf { body = body })
      | some _ ↦ do
        body' ← write_slot body slot_id pair_bytes
        done (some tt, record leaf { body = body' })
    ]

  -- The new pair goes to the old leaf.
  unfoldable pub insert_old : Leaf → Leaf → Bytes → Bytes → Run (Leaf × Leaf)
  insert_old self new_leaf new_key new_value = do
    found ← search_slot_id new_key self
    index ← expect_err found
    (fitted, self') ← insert index new_key new_value self
    unwrap fitted
    done (self', new_leaf)

  -- The new pair goes to the new leaf, which is then filled; each round takes a pair from `self`.
  unfoldable pub insert_new : Leaf → Leaf → Bytes → Bytes → Run (Leaf × Leaf)
  insert_new self new_leaf new_key new_value = do
    (fitted, new_leaf') ← insert (num_pairs new_leaf) new_key new_value new_leaf
    unwrap fitted
    fill_loop (suc (num_pairs self)) self new_leaf'

  -- The `loop` of `split_insert` on fuel.
  unfoldable pub split_loop : ℕ → Leaf → Leaf → Bytes → Bytes → Run (Leaf × Leaf)
  split_loop zero self new_leaf new_key new_value = hang
  split_loop (suc fuel) self new_leaf new_key new_value = do
    full ← is_half_full new_leaf
    let moved = (do
      (self', new_leaf') ← transfer self new_leaf
      split_loop fuel self' new_leaf' new_key new_value)
    let rest = (do
      pair ← pair_at self 0
      if is_less (cmp pair.key new_key) then moved else insert_new self new_leaf new_key new_value)
    if full then insert_old self new_leaf new_key new_value else rest

  -- Each round takes a pair from `self`. The first key left there, and both leaves.
  unfoldable pub split_insert : Leaf → Bytes → Bytes → Leaf → Run (Bytes × Leaf × Leaf)
  split_insert new_leaf new_key new_value self = do
    (self', new_leaf') ←
        split_loop (suc (num_pairs self)) self (initialize new_leaf) new_key new_value
    pair ← pair_at self' 0
    done (pair.key, self', new_leaf')
