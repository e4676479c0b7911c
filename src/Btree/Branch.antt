-- ===== src/Btree/Branch.antt =====
-- src/btree/branch.rs: a branch is a page of slots that hold a key and a child each, with one more
-- child to the right of all keys.
pub mod Search
use relly.Prelude.{
  ℕ, zero, suc, ◌+◌, ◌-◌, ◌*◌, ◌/◌, Ordering, Bytes, length, slice, Option, none, some, Bool, true,
  false, Run, panic, hang, done, ◌>>=◌, ◌>>◌, assert, unwrap, ltb, leb, ◌==◌, if◌then◌else◌,
}
use relly.Prelude.Cmp.{cmp}
use relly.Bsearch.{Found, ok, err, binary_search_by}
use relly.Disk.{PageId, le_value, as_bytes}
use relly.Disk
use relly.Slotted.{Slotted, capacity, free_space, pointer_size, slot, write_slot, checked_sub}
use relly.Slotted
use relly.Btree.{Pair, Bincode, to_bytes, from_bytes}

pub record Header : Type 0 where
  pub right_child : PageId

pub record Branch : Type 0 where
  pub header : Header
  pub body : Slotted

unfoldable pub new : Bytes → Run Branch
new bytes =
    let split = (do
      body ← Slotted.new (slice 8 (length bytes - 8) bytes)
      done
          (record { header = record { right_child = le_value (slice 0 8 bytes) }; body = body })) in
    if ltb (length bytes) 8 then panic else split

abbrev pub num_pairs : Branch → ℕ
num_pairs branch = branch.body.num_slots

unfoldable pub max_pair_size : Branch → Run ℕ
max_pair_size branch = checked_sub (capacity branch.body / 2) pointer_size

unfoldable pub is_half_full : Branch → Run Bool
is_half_full branch = do free ← free_space branch.body; done (ltb (2 * free) (capacity branch.body))

-- `Ok(slot_id) => slot_id + 1, Err(slot_id) => slot_id`
abbrev pub child_idx_of : Found → ℕ
child_idx_of (ok slot_id) = slot_id + 1
child_idx_of (err slot_id) = slot_id

-- `expect_err` on the result of a search.
abbrev pub expect_err : Found → Run ℕ
expect_err (ok slot_id) = panic
expect_err (err slot_id) = done slot_id

-- The first pair of `self` goes to the end of `dest`.
unfoldable pub transfer : Branch → Branch → Run (Branch × Branch)
transfer self dest = do
  first ← slot self.body 0
  (fitted, body) ← Slotted.insert (num_pairs dest) (length first) dest.body
  unwrap fitted
  dest_body ← write_slot body (num_pairs dest) first
  self_body ← Slotted.remove 0 self.body
  done (record self { body = self_body }, record dest { body = dest_body })

-- The `while` loop of `split_insert` on fuel.
unfoldable pub fill_loop : ℕ → Branch → Branch → Run (Branch × Branch)
fill_loop zero self new_branch = hang
fill_loop (suc fuel) self new_branch = do
  full ← is_half_full new_branch
  let round = (do (self', new_branch') ← transfer self new_branch; fill_loop fuel self' new_branch')
  if full then done (self, new_branch) else round

abbrev pub is_less : Ordering → Bool
is_less Ordering.lt = true
is_less _ = false

module _ (bincode : Bincode) where
  unfoldable pub pair_at : Branch → ℕ → Run Pair
  pair_at branch slot_id = do bytes ← slot branch.body slot_id; from_bytes bincode bytes

  unfoldable pub search_slot_id : Bytes → Branch → Run Found
  search_slot_id key branch =
      binary_search_by (num_pairs branch)
        (λ slot_id. do pair ← pair_at branch slot_id; done (cmp pair.key key))

  unfoldable pub search_child_idx : Bytes → Branch → Run ℕ
  search_child_idx key branch = do found ← search_slot_id key branch; done (child_idx_of found)

  unfoldable pub child_at : ℕ → Branch → Run PageId
  child_at child_idx branch =
      let left = (do pair ← pair_at branch child_idx; Disk.from_bytes pair.value) in
      if child_idx == num_pairs branch then done branch.header.right_child else left

  unfoldable pub search_child : Bytes → Branch → Run PageId
  search_child key branch = do child_idx ← search_child_idx key branch; child_at child_idx branch

  -- `insert(..)?` and the copy into the new slot.
  unfoldable pub insert : ℕ → Bytes → PageId → Branch → Run (Option (Unit {0}) × Branch)
  insert slot_id key page_id branch = do
    pair_bytes ← to_bytes bincode (record { key = key; value = as_bytes page_id })
    max ← max_pair_size branch
    assert (leb (length pair_bytes) max)
    (fitted, body) ← Slotted.insert slot_id (length pair_bytes) branch.body
    elim fitted [
      | none ↦ done (none, record branch { body = body })
      | some _ ↦ do
        body' ← write_slot body slot_id pair_bytes
        done (some tt, record branch { body = body' })
    ]

  unfoldable pub initialize : Bytes → PageId → PageId → Branch → Run Branch
  initialize key left_child right_child branch = do
    (fitted, branch') ←
        insert 0 key left_child (record branch { body = Slotted.initialize branch.body })
    unwrap fitted
    done (record branch' { header = record { right_child = right_child } })

  -- The last pair goes, its child becomes the right child, and its key is returned.
  unfoldable pub fill_right_child : Branch → Run (Bytes × Branch)
  fill_right_child branch = do
    last_id ← checked_sub (num_pairs branch) 1
    pair ← pair_at branch last_id
    right_child ← Disk.from_bytes pair.value
    body ← Slotted.remove last_id branch.body
    done (pair.key, record { header = record { right_child = right_child }; body = body })

  -- The new pair goes to the old branch.
  unfoldable pub insert_old : Branch → Branch → Bytes → PageId → Run (Branch × Branch)
  insert_old self new_branch new_key new_page_id = do
    found ← search_slot_id new_key self
    index ← expect_err found
    (fitted, self') ← insert index new_key new_page_id self
    unwrap fitted
    done (self', new_branch)

  -- The new pair goes to the new branch, which is then filled; each round takes a pair of `self`.
  unfoldable pub insert_new : Branch → Branch → Bytes → PageId → Run (Branch × Branch)
  insert_new self new_branch new_key new_page_id = do
    (fitted, new_branch') ← insert (num_pairs new_branch) new_key new_page_id new_branch
    unwrap fitted
    fill_loop (suc (num_pairs self)) self new_branch'

  -- The `loop` of `split_insert` on fuel.
  unfoldable pub split_loop : ℕ → Branch → Branch → Bytes → PageId → Run (Branch × Branch)
  split_loop zero self new_branch new_key new_page_id = hang
  split_loop (suc fuel) self new_branch new_key new_page_id = do
    full ← is_half_full new_branch
    let moved = (do
      (self', new_branch') ← transfer self new_branch
      split_loop fuel self' new_branch' new_key new_page_id)
    let rest = (do
      pair ← pair_at self 0
      if is_less (cmp pair.key new_key)
          then moved
          else insert_new self new_branch new_key new_page_id)
    if full then insert_old self new_branch new_key new_page_id else rest

  -- Each round takes a pair from `self`. The key between the branches, and both.
  unfoldable pub split_insert : Branch → Bytes → PageId → Branch → Run (Bytes × Branch × Branch)
  split_insert new_branch new_key new_page_id self = do
    (self', new_branch') ←
        split_loop (suc (num_pairs self)) self
          (record new_branch { body = Slotted.initialize new_branch.body }) new_key new_page_id
    (mid_key, new_branch'') ← fill_right_child new_branch'
    done (mid_key, self', new_branch'')
