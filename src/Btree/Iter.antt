-- ===== src/Btree/Iter.antt =====
-- src/btree.rs: `Iter`, which holds a clone of a leaf's buffer. `next` and `advance` change the
-- iterator in place, so it comes back beside an error too.
use relly.Prelude.{ℕ, ◌+◌, Bytes, Option, none, some, Run, done, ◌>>=◌, index, ltb, if◌then◌else◌}
use relly.Prelude.Exec.{Result, ok, err}
use relly.Disk.{PageId}
use relly.Buffer.Pool.{BufferId}
use relly.Buffer.{BufferPoolManager, drop_handle}
use relly.Btree.{Bincode}
use relly.Btree.Leaf.{Leaf, num_pairs, pair_at, next_page_id}
use relly.Btree.Views.{open_leaf}
use relly.Btree.Client.{Error, fetch}

pub record Iter : Type 0 where
  pub buffer : BufferId
  pub slot_id : ℕ

-- `Leaf::new` on the body of the node in the iterator's buffer.
unfoldable pub leaf_of : Iter → BufferPoolManager → Run Leaf
leaf_of iter m = do
  frame ← index m.pool.buffers iter.buffer
  (node, leaf) ← open_leaf frame.buffer.page
  done leaf

-- After the fetch of the next leaf: the old buffer is dropped as the new one takes its place.
unfoldable pub moved :
    Iter
    → Result Error BufferId × BufferPoolManager
    → Run (Result Error (Unit {0}) × Iter × BufferPoolManager)
moved iter (ok b, m) = do
  m' ← drop_handle iter.buffer m
  done (ok tt, record { buffer = b; slot_id = 0 }, m')
moved iter (err e, m) = done (err e, iter, m)

-- To the next leaf, if there is one.
unfoldable pub go_on :
    Iter
    → Option PageId
    → BufferPoolManager
    → Run (Result Error (Unit {0}) × Iter × BufferPoolManager)
go_on iter none m = done (ok tt, iter, m)
go_on iter (some page_id) m = fetch page_id m >>= moved iter

unfoldable pub advance :
    Iter → BufferPoolManager → Run (Result Error (Unit {0}) × Iter × BufferPoolManager)
advance iter m = do
  leaf ← leaf_of iter m
  let iter' : Iter = record iter { slot_id = iter.slot_id + 1 }
  if ltb (iter.slot_id + 1) (num_pairs leaf)
      then done (ok tt, iter', m)
      else go_on iter' (next_page_id leaf) m

module _ (bincode : Bincode) where
  unfoldable pub get : Iter → BufferPoolManager → Run (Option (Bytes × Bytes))
  get iter m = do
    leaf ← leaf_of iter m
    let found = (do pair ← pair_at bincode leaf iter.slot_id; done (some (pair.key, pair.value)))
    if ltb iter.slot_id (num_pairs leaf) then found else done none

  -- `Ok(value)` once the iterator was advanced.
  unfoldable pub next :
      Iter
      → BufferPoolManager
      → Run (Result Error (Option (Bytes × Bytes)) × Iter × BufferPoolManager)
  next iter m = do
    value ← get iter m
    (advanced, iter', m') ← advance iter m
    elim advanced [ ok _ ↦ done (ok value, iter', m') | err e ↦ done (err e, iter', m') ]
