-- ===== src/Btree/Tree.antt =====
-- src/btree.rs: `BTree`, over the buffer manager. The recursion from the root to a leaf is on fuel:
-- nothing in the code bounds it on pages that are no tree.
use relly.Prelude.{
  ℕ, zero, suc, Bytes, Option, none, some, Run, panic, hang, done, ltb, ◌==◌, if◌then◌else◌,
}
use relly.Prelude
use relly.Prelude.Exec.{Result, ok, err, pure, lift, ◌>>=◌, ◌>>◌}
use relly.Bsearch
use relly.Bsearch.{Found}
use relly.Disk.{PageId}
use relly.Buffer.Pool.{BufferId}
use relly.Buffer.{BufferPoolManager, drop_handle}
use relly.Btree.{Bincode}
use relly.Btree.SearchMode.{SearchMode, child_page_id, tuple_slot_id}
use relly.Btree.Leaf
use relly.Btree.Leaf.{Leaf}
use relly.Btree.Meta
use relly.Btree.Meta.{Meta}
use relly.Btree.Node.{Body, initialize_as_leaf}
use relly.Btree.Views.{leaf_bytes, meta_bytes, node_bytes, open_body, open_leaf}
use relly.Btree.Client.{
  Error, M, fetch, create_buffer, page_of, page_id_of, put_page, release, holding,
}
use relly.Btree.Iter.{Iter, advance}

pub record BTree : Type 0 where
  pub meta_page_id : PageId

abbrev pub new : PageId → BTree
new meta_page_id = record { meta_page_id = meta_page_id }

-- `Meta::new` on the page of a buffer.
unfoldable pub meta_of : BufferId → M Meta
meta_of b = do page ← page_of b; lift (Meta.new page)

unfoldable pub set_root : BufferId → Meta → PageId → M (Unit {0})
set_root b meta root_page_id =
    put_page b (meta_bytes (record meta { header = record { root_page_id = root_page_id } }))

-- The new root is a leaf without pairs.
unfoldable pub create_root : BufferId → Meta → BufferId → M BTree
create_root meta_buffer meta root_buffer = do
  page ← page_of root_buffer
  (node, leaf) ← lift (open_leaf page)
  put_page root_buffer
      (node_bytes (record (initialize_as_leaf node) { body = leaf_bytes (Leaf.initialize leaf) }))
  root_page_id ← page_id_of root_buffer
  set_root meta_buffer meta root_page_id
  meta_page_id ← page_id_of meta_buffer
  pure (new meta_page_id)

unfoldable pub create : M BTree
create = do
  meta_buffer ← create_buffer
  holding meta_buffer (do
    meta ← meta_of meta_buffer
    root_buffer ← create_buffer
    holding root_buffer (create_root meta_buffer meta root_buffer))

unfoldable pub root_page_id_of : BufferId → M PageId
root_page_id_of meta_buffer = do meta ← meta_of meta_buffer; pure meta.header.root_page_id

unfoldable pub fetch_root_page : BTree → M BufferId
fetch_root_page tree = do
  meta_buffer ← fetch tree.meta_page_id
  root_page_id ← holding meta_buffer (root_page_id_of meta_buffer)
  fetch root_page_id

-- `unwrap_or_else(identity)`
abbrev pub either_slot : Found → ℕ
either_slot (Bsearch.ok slot_id) = slot_id
either_slot (Bsearch.err slot_id) = slot_id

-- `iter.advance(bufmgr)?`: on an error the iterator is dropped.
abbrev pub kept_iter :
    Run (Result Error (Unit {0}) × Iter × BufferPoolManager)
    → Run (Result Error Iter × BufferPoolManager)
kept_iter (done (ok _, iter, m)) = done (ok iter, m)
kept_iter (done (err e, iter, m)) =
    Prelude.◌>>=◌ (drop_handle iter.buffer m) (λ m'. done (err e, m'))
kept_iter panic = panic
kept_iter hang = hang

unfoldable pub search_leaf : BufferId → Leaf → Found → M Iter
search_leaf node_buffer leaf found =
    let iter : Iter = record { buffer = node_buffer; slot_id = either_slot found } in
    if Leaf.num_pairs leaf == either_slot found
    then (λ m. kept_iter (advance iter m))
    else pure iter

module _ (bincode : Bincode) where
  unfoldable pub search_internal : ℕ → BufferId → SearchMode → M Iter
  search_internal zero node_buffer search_mode = λ m. hang
  search_internal (suc fuel) node_buffer search_mode = do
    page ← page_of node_buffer
    body ← lift (open_body page)
    elim body [
      | Body.leaf leaf ↦ do
        found ← lift (tuple_slot_id bincode search_mode leaf)
        search_leaf node_buffer leaf found
      | Body.branch branch ↦ do
        child ← lift (child_page_id bincode search_mode branch)
        release node_buffer
        child_buffer ← fetch child
        search_internal fuel child_buffer search_mode
    ]

  unfoldable pub search : ℕ → BTree → SearchMode → M Iter
  search fuel tree search_mode = do
    root ← fetch_root_page tree
    search_internal fuel root search_mode
