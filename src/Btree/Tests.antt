-- ===== src/Btree/Tests.antt =====
-- src/btree/leaf.rs, src/btree/branch.rs: their tests, and the theorems at an input.
use relly.Prelude.{
  ℕ, zero, suc, ◌≡◌, ◌≢◌, hang, refl, [], ◌∷◌, ◌++◌, Bytes, replicate, Option, none, Run, done,
  ◌>>=◌, ◌>>◌, unwrap, Returns, arith,
}
use relly.Slotted.{Slotted}
use relly.Btree.{Pair}
use relly.Btree.Leaf.{Leaf}
use relly.Btree.Leaf
use relly.Btree.Leaf.Pairs.{Holds, Position, initialize-Holds}
use relly.Btree.Leaf.Ends.{split_insert-ne-hang}
use relly.Btree.Leaf.Insert.{AfterInsert, insert-AfterInsert}
use relly.Btree.Branch.{Branch}
use relly.Btree.Leaf.Search.{search_slot_id-Position}
use relly.Btree.Branch
use relly.Btree.TestData.{bincode, program}
use relly.Btree.Branch.Search.{HasChildren, Child, search_child-Child}

abbrev dead : Bytes
dead = b'd' ∷ b'e' ∷ b'a' ∷ b'd' ∷ b'b' ∷ b'e' ∷ b'e' ∷ b'f' ∷ []

abbrev face : Bytes
face = b'f' ∷ b'a' ∷ b'c' ∷ b'e' ∷ b'b' ∷ b'o' ∷ b'o' ∷ b'k' ∷ []

abbrev beef : Bytes
beef = b'b' ∷ b'e' ∷ b'e' ∷ b'f' ∷ b'd' ∷ b'e' ∷ b'a' ∷ b'd' ∷ []

abbrev hello : Bytes
hello = b'h' ∷ b'e' ∷ b'l' ∷ b'l' ∷ b'o' ∷ []

-- `test_leaf_split_insert`
abbrev insert_fresh : Bytes → Bytes → Leaf → Run Leaf
insert_fresh key value leaf = do
  found ← Leaf.search_slot_id bincode key leaf
  slot_id ← Leaf.expect_err found
  (fitted, leaf') ← Leaf.insert bincode slot_id key value leaf
  unwrap fitted
  done leaf'

abbrev two_pairs : Run Leaf
two_pairs = do
  leaf ← Leaf.new (replicate 62 0)
  leaf1 ← insert_fresh dead hello (Leaf.initialize leaf)
  insert_fresh face (b'!' ∷ []) leaf1

abbrev split : Run (Bytes × Bytes × Bytes)
split = do
  leaf ← two_pairs
  new_leaf ← Leaf.new (replicate 62 0)
  (mid, old, new_leaf') ← Leaf.split_insert bincode new_leaf beef hello leaf
  first ← Leaf.pair_at bincode new_leaf' 0
  second ← Leaf.pair_at bincode new_leaf' 1
  done (mid, first.key, second.key)

full_leaf :
    (do leaf ← two_pairs; (fitted, _) ← Leaf.insert bincode 0 beef hello leaf; done fitted)
    ≡ done none
unfolding program
full_leaf = refl

split_leaf : split ≡ done (face, beef, dead)
unfolding program
split_leaf = refl

-- `test_split` of the branches.
abbrev be : ℕ → Bytes
be n = replicate 7 0 ++ n ∷ []

abbrev three_keys : Run Branch
three_keys = do
  branch ← Branch.new (replicate 100 0)
  branch1 ← Branch.initialize bincode (be 5) 1 2 branch
  (fitted, branch2) ← Branch.insert bincode 1 (be 8) 3 branch1
  unwrap fitted
  (fitted', branch3) ← Branch.insert bincode 2 (be 11) 4 branch2
  unwrap fitted'
  done branch3

abbrev split_branch : Run (Bytes × ℕ × ℕ × ℕ × ℕ)
split_branch = do
  branch ← three_keys
  new_branch ← Branch.new (replicate 100 0)
  (mid, old, new_branch') ← Branch.split_insert bincode new_branch (be 10) 5 branch
  a ← Branch.search_child bincode (be 6) new_branch'
  b ← Branch.search_child bincode (be 9) old
  done (mid, old.body.num_slots, new_branch'.body.num_slots, a, b)

children : (do branch ← three_keys; Branch.search_child bincode (be 8) branch) ≡ done 4
unfolding program
children = refl

splits_branch : split_branch ≡ done (be 8, 2, 1, 3, 5)
unfolding program
splits_branch = refl

-- An initialised leaf, and the leaf with one pair, whose value is a page id.
abbrev empty_page : Slotted
empty_page = record { num_slots = 0; free_space_offset = 80; pad = 0; body = replicate 80 0 }

abbrev empty_leaf : Leaf
empty_leaf = record { header = record { prev_page_id = 0; next_page_id = 0 }; body = empty_page }

empty-Holds : Holds bincode empty_page []
unfolding program
empty-Holds = initialize-Holds bincode (record empty_page { num_slots = 9 }) (omega arith)

abbrev pair : Pair
pair = record { key = dead; value = 7 ∷ replicate 7 0 }

abbrev bytes : Bytes
bytes = 8 ∷ (dead ++ 8 ∷ pair.value)

insert-AfterInsert_example :
    Returns
      (Leaf.insert bincode 0 dead pair.value empty_leaf)
      (AfterInsert bincode 0 pair bytes [] empty_leaf)
insert-AfterInsert_example =
    insert-AfterInsert bincode 0 pair bytes [] empty_leaf empty-Holds
      (omega arith, (λ j p h e. cc), (λ j p h e. cc)) refl (omega arith)

abbrev page_of : Run (Option (Unit {0}) × Leaf) → Slotted
page_of (done (fitted, leaf)) = leaf.body
page_of _ = empty_page

abbrev one_page : Slotted
unfolding program
one_page = page_of (Leaf.insert bincode 0 dead pair.value empty_leaf)

one_page-Holds : Holds bincode one_page (pair ∷ [])
unfolding program
one_page-Holds =
    (insert-AfterInsert bincode 0 pair bytes [] empty_leaf empty-Holds
      (omega arith, (λ j p h e. cc), (λ j p h e. cc)) refl (omega arith)).0

abbrev one_leaf : Leaf
unfolding program
one_leaf = record empty_leaf { body = one_page }

search_slot_id-Position_example :
    Returns (Leaf.search_slot_id bincode face one_leaf) (Position face (pair ∷ []))
unfolding program
search_slot_id-Position_example =
    search_slot_id-Position bincode face one_leaf (pair ∷ []) one_page-Holds

abbrev one_branch : Branch
unfolding program
one_branch = record { header = record { right_child = 9 }; body = one_page }

has_children : HasChildren (pair ∷ [])
unfolding program
has_children zero p e = (7, omega arith, cc)
has_children (suc i) p e = cc

search_child-Child_example :
    Returns (Branch.search_child bincode beef one_branch) (Child beef one_branch (pair ∷ []))
unfolding program
search_child-Child_example =
    search_child-Child bincode beef one_branch (pair ∷ []) one_page-Holds has_children

split_insert-ne-hang_example : Leaf.split_insert bincode one_leaf face hello one_leaf ≢ hang
unfolding program
split_insert-ne-hang_example = split_insert-ne-hang bincode one_leaf one_leaf face hello
