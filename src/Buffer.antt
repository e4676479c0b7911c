-- ===== src/Buffer.antt =====
-- src/buffer.rs: the pool of frames with its clock sweep, and the manager over pool and disk.
-- The `Rc<Buffer>` that a frame holds is never exchanged, so a clone of it is the frame's index,
-- and a frame counts the clones that are about; a `RefCell` that is borrowed is not modelled.
pub mod Pool
pub mod Table
pub mod Valid
pub mod Clones
pub mod Remap
pub mod Stale
pub mod Handles
pub mod Create
pub mod Fresh
pub mod Entries
pub mod Fetch
pub mod Saved
pub mod Flush
pub mod Stopped
pub mod Survived
pub mod Victim
pub mod Reuse
mod Tests
use relly.Prelude.{
  ℕ, zero, suc, ◌+◌, ◌-◌, List, [], ◌∷◌, Bytes, replicate, get_elem?, set, Bool, true, false,
  Option, none, some, Run, done, panic, hang, ◌>>=◌, ◌>>◌, assert, index, ◌==◌, if◌then◌else◌,
}
use relly.Prelude.Exec.{Result, ok, err}
use relly.Disk.{
  PageId, page_size, invalid_page_id, DiskManager, read_page_data, write_page_data, allocate_page,
  sync,
}
use relly.Disk.File.{IoError}
use relly.Buffer.Pool.{BufferId, Buffer, default_buffer, Frame, BufferPool, evict, put_frame}

pub data Error : Type 0 where
  io : IoError → Error
  no_free_buffer : Error

-- The page table is an association list; an entry that is inserted replaces the key's others.
abbrev pub PageTable : Type 0
PageTable = List (PageId × BufferId)

unfoldable pub lookup : PageId → PageTable → Option BufferId
lookup p [] = none
lookup p ((q, b) ∷ table) = if p == q then some b else lookup p table

unfoldable pub remove : PageId → PageTable → PageTable
remove p [] = []
remove p ((q, b) ∷ table) = if p == q then remove p table else (q, b) ∷ remove p table

unfoldable pub insert : PageId → BufferId → PageTable → PageTable
insert p b table = (p, b) ∷ remove p table

pub record BufferPoolManager : Type 0 where
  pub disk : DiskManager
  pub pool : BufferPool
  pub page_table : PageTable

unfoldable pub new : DiskManager → BufferPool → BufferPoolManager
new disk pool = record { disk = disk; pool = pool; page_table = [] }

abbrev pub Outcome : Type 0
Outcome = Run (Result Error BufferId × BufferPoolManager)

-- `Rc::clone` of the frame's buffer, with the count of uses given.
abbrev pub handed_out : ℕ → Buffer → ℕ → Frame
handed_out usage_count buffer handles = record {
  usage_count = usage_count;
  buffer = buffer;
  handles = handles + 1;
}

-- The first branch of `fetch_page`.
unfoldable pub fetch_hit : BufferId → BufferPoolManager → Outcome
fetch_hit b m = do
  frame ← index m.pool.buffers b
  done (
    ok b,
    record m {
      pool = put_frame m.pool b (handed_out (frame.usage_count + 1) frame.buffer frame.handles);
    },
  )

-- The write of a dirty victim, before its frame is used anew.
unfoldable pub write_back : Buffer → DiskManager → Run (Result IoError (Unit {0}) × DiskManager)
write_back buffer disk =
    if buffer.is_dirty then write_page_data buffer.page_id buffer.page disk else done (ok tt, disk)

-- `page_table.remove(&evict_page_id); page_table.insert(page_id, buffer_id)`, and the result.
unfoldable pub remap : BufferId → Frame → PageId → Buffer → BufferPoolManager → Outcome
remap b frame evict_page_id buffer m = done (
  ok b,
  record m {
    pool = put_frame m.pool b (handed_out 1 buffer frame.handles);
    page_table = insert buffer.page_id b (remove evict_page_id m.page_table);
  },
)

-- After the read of the new page; on an error the frame holds what was read and the table is as
-- before.
unfoldable pub fetch_loaded :
    BufferId
    → Frame
    → PageId
    → BufferPoolManager
    → Result IoError (Unit {0}) × Bytes × DiskManager
    → Outcome
fetch_loaded b frame page_id m (ok _, page, disk) =
    remap b frame frame.buffer.page_id (record { page_id = page_id; page = page; is_dirty = false })
      (record m { disk = disk })
fetch_loaded b frame page_id m (err e, page, disk) = done (
  err (io e),
  record m {
    disk = disk;
    pool =
        put_frame m.pool b
          (record frame { buffer = record { page_id = page_id; page = page; is_dirty = false } });
  },
)

-- After the write of the victim.
unfoldable pub fetch_written :
    BufferId
    → Frame
    → PageId
    → BufferPoolManager
    → Result IoError (Unit {0}) × DiskManager
    → Outcome
fetch_written b frame page_id m (ok _, disk) = do
  loaded ← read_page_data page_id frame.buffer.page disk
  fetch_loaded b frame page_id (record m { disk = disk }) loaded
fetch_written b frame page_id m (err e, disk) = done (err (io e), record m { disk = disk })

-- With the victim chosen; `Rc::get_mut(..).unwrap()` panics if a clone is about.
unfoldable pub fetch_victim : PageId → BufferPoolManager → Option BufferId × BufferPool → Outcome
fetch_victim page_id m (none, pool) = done (err no_free_buffer, record m { pool = pool })
fetch_victim page_id m (some b, pool) = do
  frame ← index pool.buffers b
  assert (frame.handles == 0)
  written ← write_back frame.buffer m.disk
  fetch_written b frame page_id (record m { pool = pool }) written

unfoldable pub fetch_page : PageId → BufferPoolManager → Outcome
fetch_page page_id m = elim (lookup page_id m.page_table) [
  | some b ↦ fetch_hit b m
  | none ↦ evict m.pool >>= fetch_victim page_id m
]

-- After the write of the victim.
unfoldable pub create_written :
    BufferId → Frame → BufferPoolManager → Result IoError (Unit {0}) × DiskManager → Outcome
create_written b frame m (ok _, disk) = do
  (page_id, disk') ← allocate_page disk
  remap b frame frame.buffer.page_id (record default_buffer { page_id = page_id; is_dirty = true })
      (record m { disk = disk' })
create_written b frame m (err e, disk) = done (err (io e), record m { disk = disk })

unfoldable pub create_victim : BufferPoolManager → Option BufferId × BufferPool → Outcome
create_victim m (none, pool) = done (err no_free_buffer, record m { pool = pool })
create_victim m (some b, pool) = do
  frame ← index pool.buffers b
  assert (frame.handles == 0)
  written ← write_back frame.buffer m.disk
  create_written b frame (record m { pool = pool }) written

unfoldable pub create_page : BufferPoolManager → Outcome
create_page m = evict m.pool >>= create_victim m

-- After the write of one page.
unfoldable pub flush_written :
    BufferId
    → Frame
    → BufferPoolManager
    → Result IoError (Unit {0}) × DiskManager
    → Result Error (Unit {0}) × BufferPoolManager
flush_written b frame m (ok _, disk) = (
  ok tt,
  record m {
    disk = disk;
    pool =
        put_frame m.pool b (record frame { buffer = record (frame.buffer) { is_dirty = false } });
  },
)
flush_written b frame m (err e, disk) = (err (io e), record m { disk = disk })

-- The loop of `flush` over the entries of the table: each page is written, dirty or not.
unfoldable pub flush_pages :
    PageTable → BufferPoolManager → Run (Result Error (Unit {0}) × BufferPoolManager)
flush_pages [] m = done (ok tt, m)
flush_pages ((page_id, b) ∷ entries) m = do
  frame ← index m.pool.buffers b
  written ← write_page_data page_id frame.buffer.page m.disk
  let (result, m') = flush_written b frame m written
  elim result [ ok _ ↦ flush_pages entries m' | err e ↦ done (err e, m') ]

abbrev pub synced :
    BufferPoolManager
    → Result IoError (Unit {0}) × DiskManager
    → Result Error (Unit {0}) × BufferPoolManager
synced m (ok _, disk) = (ok tt, record m { disk = disk })
synced m (err e, disk) = (err (io e), record m { disk = disk })

unfoldable pub flush : BufferPoolManager → Run (Result Error (Unit {0}) × BufferPoolManager)
flush m = do
  (result, m') ← flush_pages m.page_table m
  elim result [ ok _ ↦ done (synced m' (sync m'.disk)) | err e ↦ done (err e, m') ]

-- What the owner of a clone does with it, through the standard library: drop it, write the page
-- behind its `RefCell`, and call `is_dirty.set(true)`.
unfoldable pub drop_handle : BufferId → BufferPoolManager → Run BufferPoolManager
drop_handle b m = do
  frame ← index m.pool.buffers b
  done (record m { pool = put_frame m.pool b (record frame { handles = frame.handles - 1 }) })

unfoldable pub write_page : BufferId → Bytes → BufferPoolManager → Run BufferPoolManager
write_page b page m = do
  frame ← index m.pool.buffers b
  done (record m {
    pool = put_frame m.pool b (record frame { buffer = record (frame.buffer) { page = page } });
  })

unfoldable pub set_dirty : BufferId → BufferPoolManager → Run BufferPoolManager
set_dirty b m = do
  frame ← index m.pool.buffers b
  done (record m {
    pool = put_frame m.pool b (record frame { buffer = record (frame.buffer) { is_dirty = true } });
  })
