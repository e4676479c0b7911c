-- ===== src/Btree/TestData.antt =====
-- src/btree/: what the tests share, a serialiser and the names that a run unfolds.
use relly.Prelude.{
  ◌≡◌, refl, [], ◌∷◌, ◌++◌, Bytes, length, take, drop, Option, none, some, overwrite, Run, done,
  panic, hang,
}
use relly.Prelude.Exec.{Result}
use relly.Prelude.Cmp.{cmp}
use relly.Bsearch.{binary_search_by, search_loop}
use relly.Disk.{
  le_value, le_bytes, from_bytes, as_bytes, valid, from_option, page_offset, read_moved,
  read_page_data, write_moved, write_page_data, allocate_page,
}
use relly.Disk.File.{seek_start, read_exact, read_with, write_all, write_at}
use relly.Buffer
use relly.Buffer.{
  BufferPoolManager, lookup, fetch_page, fetch_hit, write_back, remap, fetch_loaded, fetch_written,
  fetch_victim, create_written, create_victim, create_page, drop_handle, write_page, set_dirty,
}
use relly.Buffer.Pool
use relly.Buffer.Pool.{evict, evict_loop, total, increment_id}
use relly.Slotted.{
  free_space, pointer_in, put_pointer, pointer_at, slot_data, slot, write_slot, insert_pointer,
  shift_pointers, copy_within, resize_data, resize, remove,
}
use relly.Slotted
use relly.Btree.{Pair, Bincode}
use relly.Btree.Leaf
use relly.Btree.Leaf.Pairs
use relly.Btree.Branch
use relly.Btree.Node
use relly.Btree.Node.{new_body, bytes_eq, initialize_as_leaf, initialize_as_branch}
use relly.Btree.Meta
use relly.Btree.SearchMode.{child_page_id, tuple_slot_id}
use relly.Btree.Views.{
  leaf_bytes, branch_bytes, meta_bytes, node_bytes, open_body, open_leaf, open_branch,
}
use relly.Btree.Client.{fetch, create_buffer, page_of, page_id_of, put_page, mark_dirty, release}
use relly.Btree.Iter.{leaf_of, moved, go_on, advance, get, next}
use relly.Btree.Tree.{
  meta_of, set_root, create_root, create, root_page_id_of, fetch_root_page, search_leaf,
  search_internal, search,
}
use relly.Btree.Insertion.{
  link_prev, fill_new_leaf, split_leaf, insert_at_slot, insert_leaf, fill_new_branch, split_branch,
  insert_overflow, insert_internal, grow, insert,
}

pub take-append : (xs ys : Bytes) → take (length xs) (xs ++ ys) ≡ xs
take-append [] ys = refl
take-append (x ∷ xs) ys = rw (take-append xs ys)

pub drop-append : (xs ys : Bytes) → drop (length xs) (xs ++ ys) ≡ ys
drop-append [] ys = refl
drop-append (x ∷ xs) ys = drop-append xs ys

-- What bincode writes for slices of fewer than 251 bytes.
abbrev pub serialize : Pair → Option Bytes
serialize p = some (length p.key ∷ (p.key ++ (length p.value ∷ p.value)))

abbrev pub value_of : Bytes → Bytes → Option Pair
value_of k [] = none
value_of k (n ∷ rest) = some (record { key = k; value = rest })

abbrev pub deserialize : Bytes → Option Pair
deserialize [] = none
deserialize (n ∷ rest) = value_of (take n rest) (drop n rest)

abbrev pub bincode : Bincode
bincode = record {
  serialize = serialize;
  deserialize = deserialize;
  round_trip = λ p. (
    length p.key ∷ (p.key ++ (length p.value ∷ p.value)),
    refl,
    rw (take-append p.key (length p.value ∷ p.value), drop-append p.key (length p.value ∷ p.value))
        refl,
  );
}

unfoldable pub program : Unit {0}
unfolding le_value le_bytes from_bytes as_bytes overwrite cmp binary_search_by search_loop
    free_space pointer_in put_pointer pointer_at slot_data slot write_slot insert_pointer
    Slotted.insert Slotted.initialize shift_pointers copy_within resize_data resize remove Leaf.new
    Leaf.initialize Leaf.max_pair_size Leaf.is_half_full Leaf.transfer Leaf.fill_loop Leaf.pair_at
    Leaf.search_slot_id Leaf.insert Leaf.insert_old Leaf.insert_new Leaf.split_loop
    Leaf.split_insert Slotted.new Branch.new Branch.max_pair_size Branch.is_half_full
    Branch.transfer Branch.fill_loop Branch.pair_at Branch.search_slot_id Branch.search_child_idx
    Branch.child_at Branch.search_child Branch.insert Branch.initialize Branch.fill_right_child
    Branch.insert_old Branch.insert_new Branch.split_loop Branch.split_insert Pairs.insert_at
    Node.new new_body bytes_eq initialize_as_leaf initialize_as_branch Meta.new leaf_bytes
    branch_bytes meta_bytes node_bytes open_body open_leaf open_branch fetch create_buffer page_of
    page_id_of put_page mark_dirty release Slotted.bytes_of leaf_of moved go_on advance get next
    meta_of set_root create_root create root_page_id_of fetch_root_page search_leaf search_internal
    search link_prev fill_new_leaf split_leaf insert_at_slot insert_leaf fill_new_branch
    split_branch insert_overflow insert_internal grow insert child_page_id tuple_slot_id
    Leaf.prev_page_id Leaf.next_page_id Leaf.set_prev_page_id Leaf.set_next_page_id valid
    from_option Buffer.new Pool.new evict evict_loop total increment_id lookup Buffer.remove
    Buffer.insert fetch_page fetch_hit write_back remap fetch_loaded fetch_written fetch_victim
    create_written create_victim create_page drop_handle write_page set_dirty page_offset read_moved
    read_page_data write_moved write_page_data allocate_page seek_start read_exact read_with
    write_all write_at
program = tt

-- A manager of ten frames over an empty file.
abbrev pub start : BufferPoolManager
start =
    Buffer.new
      (record { heap_file = record { content = []; cursor = 0; faults = [] }; next_page_id = 0 })
      (Pool.new 10)

abbrev pub result : {E A S : Type 0} → Run (Result E A × S) → Run (Result E A)
result (done (r, m)) = done r
result panic = panic
result hang = hang

-- The state that a run leaves, or the one given where it leaves none.
abbrev pub state_of : {R S : Type 0} → S → Run (R × S) → S
state_of s (done (r, m)) = m
state_of s panic = s
state_of s hang = s
