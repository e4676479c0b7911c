-- ===== src/Btree/SearchMode.antt =====
-- src/btree.rs: where a search goes on in a branch and in a leaf.
use relly.Prelude.{Bytes, Run, done}
use relly.Bsearch.{Found, err}
use relly.Disk.{PageId}
use relly.Btree.{Bincode}
use relly.Btree.Leaf.{Leaf, search_slot_id}
use relly.Btree.Branch.{Branch, child_at, search_child}

pub data SearchMode : Type 0 where
  start : SearchMode
  key : Bytes → SearchMode

module _ (bincode : Bincode) where
  unfoldable pub child_page_id : SearchMode → Branch → Run PageId
  child_page_id start branch = child_at bincode 0 branch
  child_page_id (key k) branch = search_child bincode k branch

  unfoldable pub tuple_slot_id : SearchMode → Leaf → Run Found
  tuple_slot_id start leaf = done (err 0)
  tuple_slot_id (key k) leaf = search_slot_id bincode k leaf
