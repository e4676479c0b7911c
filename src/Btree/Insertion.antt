-- ===== src/Btree/Insertion.antt =====
-- src/btree.rs: `BTree::insert`. Where a leaf or a branch has no room, its lower pairs go to a new
-- page on its left, which the caller puts into the branch above.
use relly.Prelude.{ℕ, zero, suc, Bytes, Option, none, some, hang}
use relly.Prelude.Exec.{pure, raise, lift, ◌>>=◌, ◌>>◌}
use relly.Bsearch
use relly.Bsearch.{Found}
use relly.Disk.{PageId}
use relly.Buffer.Pool.{BufferId}
use relly.Btree.{Bincode}
use relly.Btree.Leaf
use relly.Btree.Leaf.{Leaf}
use relly.Btree.Branch
use relly.Btree.Branch.{Branch}
use relly.Btree.Node.{Body, initialize_as_leaf, initialize_as_branch}
use relly.Btree.Views.{
  leaf_bytes, branch_bytes, node_bytes, leaf_page, branch_page, open_body, open_leaf, open_branch,
}
use relly.Btree.Client.{
  duplicate_key, M, fetch, create_buffer, page_of, page_id_of, put_page, mark_dirty, holding,
  holding_some, fetch_some,
}
use relly.Btree.Tree.{BTree, meta_of, set_root}

-- A new page on the left of a node: its least key's bound, and its id.
abbrev pub Overflow : Type 0
Overflow = Option (Bytes × PageId)

-- The leaf before, if there is one, now comes before the new one.
unfoldable pub link_prev : Option BufferId → PageId → M (Unit {0})
link_prev none new_id = pure tt
link_prev (some prev_buffer) new_id = do
  page ← page_of prev_buffer
  (node, prev_leaf) ← lift (open_leaf page)
  put_page prev_buffer (
      node_bytes
        (record node { body = leaf_bytes (Leaf.set_next_page_id (some new_id) prev_leaf) }))
  mark_dirty prev_buffer

module _ (bincode : Bincode) where
  -- With the new page at hand.
  unfoldable pub fill_new_leaf :
      Leaf → BufferId → Option BufferId → BufferId → Bytes → Bytes → M Overflow
  fill_new_leaf leaf b prev_buffer new_buffer key value = do
    new_id ← page_id_of new_buffer
    link_prev prev_buffer new_id
    new_page ← page_of new_buffer
    (node, new_leaf) ← lift (open_leaf new_page)
    (overflow_key, leaf', new_leaf') ← lift (
        Leaf.split_insert bincode (Leaf.initialize new_leaf) key value
          (Leaf.set_prev_page_id (some new_id) leaf))
    page_id ← page_id_of b
    put_page new_buffer (
        node_bytes (record (initialize_as_leaf node) {
          body = leaf_bytes (
              Leaf.set_prev_page_id (Leaf.prev_page_id leaf)
                (Leaf.set_next_page_id (some page_id) new_leaf'));
        }))
    put_page b (leaf_page leaf')
    mark_dirty b
    pure (some (overflow_key, new_id))

  unfoldable pub split_leaf : Leaf → BufferId → Bytes → Bytes → M Overflow
  split_leaf leaf b key value = do
    prev_buffer ← fetch_some (Leaf.prev_page_id leaf)
    holding_some prev_buffer (do
      new_buffer ← create_buffer
      holding new_buffer (fill_new_leaf leaf b prev_buffer new_buffer key value))

  unfoldable pub insert_at_slot : Leaf → BufferId → Bytes → Bytes → Found → M Overflow
  insert_at_slot leaf b key value (Bsearch.ok slot_id) = raise duplicate_key
  insert_at_slot leaf b key value (Bsearch.err slot_id) = do
    (fitted, leaf') ← lift (Leaf.insert bincode slot_id key value leaf)
    elim fitted [
      | some _ ↦ do put_page b (leaf_page leaf'); mark_dirty b; pure none
      | none ↦ split_leaf leaf' b key value
    ]

  unfoldable pub insert_leaf : Leaf → BufferId → Bytes → Bytes → M Overflow
  insert_leaf leaf b key value = do
    found ← lift (Leaf.search_slot_id bincode key leaf)
    insert_at_slot leaf b key value found

  -- With the new page at hand.
  unfoldable pub fill_new_branch : Branch → BufferId → BufferId → Bytes → PageId → M Overflow
  fill_new_branch branch b new_buffer child_key child_id = do
    new_page ← page_of new_buffer
    (node, new_branch) ← lift (open_branch new_page)
    (overflow_key, branch', new_branch') ←
        lift (Branch.split_insert bincode new_branch child_key child_id branch)
    put_page b (branch_page branch')
    put_page new_buffer
        (node_bytes (record (initialize_as_branch node) { body = branch_bytes new_branch' }))
    mark_dirty b
    mark_dirty new_buffer
    new_id ← page_id_of new_buffer
    pure (some (overflow_key, new_id))

  unfoldable pub split_branch : Branch → BufferId → Bytes → PageId → M Overflow
  split_branch branch b child_key child_id = do
    new_buffer ← create_buffer
    holding new_buffer (fill_new_branch branch b new_buffer child_key child_id)

  -- After the insertion below the child.
  unfoldable pub insert_overflow : Branch → BufferId → ℕ → Overflow → M Overflow
  insert_overflow branch b child_idx none = pure none
  insert_overflow branch b child_idx (some (child_key, child_id)) = do
    (fitted, branch') ← lift (Branch.insert bincode child_idx child_key child_id branch)
    elim fitted [
      | some _ ↦ do put_page b (branch_page branch'); mark_dirty b; pure none
      | none ↦ split_branch branch' b child_key child_id
    ]

  unfoldable pub insert_internal : ℕ → BufferId → Bytes → Bytes → M Overflow
  insert_internal zero b key value = λ m. hang
  insert_internal (suc fuel) b key value = holding b (do
    page ← page_of b
    body ← lift (open_body page)
    elim body [
      | Body.leaf leaf ↦ insert_leaf leaf b key value
      | Body.branch branch ↦ do
        child_idx ← lift (Branch.search_child_idx bincode key branch)
        child_id ← lift (Branch.child_at bincode child_idx branch)
        child_buffer ← fetch child_id
        overflow ← insert_internal fuel child_buffer key value
        insert_overflow branch b child_idx overflow
    ])

  -- The root was split: a branch over both halves is the new root.
  unfoldable pub grow : BufferId → PageId → Overflow → M (Unit {0})
  grow meta_buffer root_id none = pure tt
  grow meta_buffer root_id (some (key, child_id)) = do
    new_root_buffer ← create_buffer
    holding new_root_buffer (do
      page ← page_of new_root_buffer
      (node, branch) ← lift (open_branch page)
      branch' ← lift (Branch.initialize bincode key child_id root_id branch)
      put_page new_root_buffer
          (node_bytes (record (initialize_as_branch node) { body = branch_bytes branch' }))
      meta ← meta_of meta_buffer
      new_root_id ← page_id_of new_root_buffer
      set_root meta_buffer meta new_root_id
      mark_dirty meta_buffer)

  unfoldable pub insert : ℕ → BTree → Bytes → Bytes → M (Unit {0})
  insert fuel tree key value = do
    meta_buffer ← fetch tree.meta_page_id
    holding meta_buffer (do
      meta ← meta_of meta_buffer
      root_buffer ← fetch meta.header.root_page_id
      overflow ← insert_internal fuel root_buffer key value
      grow meta_buffer meta.header.root_page_id overflow)
