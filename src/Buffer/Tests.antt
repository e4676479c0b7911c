-- ===== src/Buffer/Tests.antt =====
-- src/buffer.rs: runs, and the theorems at an input.
use relly.Prelude.{
  ℕ, zero, suc, ◌≡◌, refl, ap, [], ◌∷◌, Returns, arith, Bytes, length, replicate, length-replicate,
  none, some, Option, true, false, Run, done, ◌>>=◌, overwrite,
}
use relly.Prelude.Exec.{Result, ok, err}
use relly.Disk.{DiskManager, page_size, page_offset, read_page_data, read_moved, PageId}
use relly.Disk.File.{unexpected_eof, seek_start, read_exact, read_with}
use relly.Disk.Pages.{page_at}
use relly.Buffer.Pool.{
  Frame, BufferId, default_buffer, default_frame, BufferPool, evict, evict_loop, increment_id,
  total,
}
use relly.Buffer.Pool.Sweep.{Evicted, evict-Evicted}
use relly.Buffer.Pool.Chosen.{Chosen, evict-Chosen}
use relly.Buffer.{
  BufferPoolManager, Error, io, lookup, remove, insert, fetch_page, create_page, fetch_victim,
  fetch_written, fetch_loaded, remap, write_back, drop_handle, write_page, fetch_hit,
}
use relly.Buffer.Valid.{IsValid, frame_at, contents, disk_page}
use relly.Buffer.Fresh.{new-IsValid}
use relly.Buffer.Fetch.{AfterFetch, fetch_page-AfterFetch}
use relly.Buffer.Stopped.{Survived}
use relly.Buffer.Survived.{flush-Survived}
use relly.Buffer.Flush.{Flushed, flush-Flushed}
use relly.Buffer.Entries.{AreFound}
use relly.Buffer.Create.{CanAllocate, AfterCreate, create_page-AfterCreate}
use relly.Buffer.Stale.{Stale, fetch_page-Stale}
use relly.Buffer
use relly.Buffer.Pool

abbrev pinned : Frame
pinned = record { usage_count = 2; buffer = default_buffer; handles = 1 }

abbrev unpinned : Frame
unpinned = record { usage_count = 3; buffer = default_buffer; handles = 0 }

abbrev pool : BufferPool
pool = record { buffers = pinned ∷ unpinned ∷ pinned ∷ []; next_victim_id = 2 }

evict-Evicted_example : Returns (evict pool) (Evicted pool)
evict-Evicted_example = evict-Evicted pool (omega arith)

evict-Chosen_example : Returns (evict pool) Chosen
evict-Chosen_example = evict-Chosen pool 1 unpinned (omega arith) refl refl

-- An empty heap file, and a new manager of two frames over it.
abbrev empty_disk : DiskManager
empty_disk = record {
  heap_file = record { content = []; cursor = 0; faults = [] };
  next_page_id = 0;
}

abbrev empty_manager : BufferPoolManager
empty_manager = Buffer.new empty_disk (Pool.new 2)

new-IsValid_example :
    IsValid empty_manager × ((p : PageId) → contents empty_manager p ≡ disk_page empty_manager p)
new-IsValid_example = new-IsValid empty_disk 2 (omega arith)

fetch_page-AfterFetch_example : Returns (fetch_page 5 empty_manager) (AfterFetch 5 empty_manager)
fetch_page-AfterFetch_example =
    fetch_page-AfterFetch 5 empty_manager new-IsValid_example.0 (omega arith)

empty-CanAllocate : CanAllocate empty_manager
unfolding Buffer.new lookup page_at
empty-CanAllocate = record { unmapped = refl; absent = refl; offset = omega arith }

create_page-AfterCreate_example : Returns (create_page empty_manager) (AfterCreate empty_manager)
create_page-AfterCreate_example =
    create_page-AfterCreate empty_manager new-IsValid_example.0 empty-CanAllocate

-- A manager of one frame, which holds page 3 with one clone about.
abbrev blank : Bytes
blank = replicate page_size 0

abbrev blank_whole : length blank ≡ page_size
blank_whole = length-replicate {A = ℕ} page_size 0

abbrev frame3 : Frame
frame3 = record {
  usage_count = 1;
  buffer = record { page_id = 3; page = blank; is_dirty = true };
  handles = 1;
}

abbrev manager3 : BufferPoolManager
manager3 = record {
  disk = empty_disk;
  pool = record { buffers = frame3 ∷ []; next_victim_id = 0 };
  page_table = (3, 0) ∷ [];
}

only3 : (b : ℕ) (f : Frame) → frame_at manager3 b ≡ some f → (b ≡ 0) × (f ≡ frame3)
only3 zero f h = (refl, cc)
only3 (suc b) f h = cc

manager3-IsValid : IsValid manager3
unfolding lookup
manager3-IsValid = record {
  victim = omega arith;
  mapped = λ p b e. (frame3, ground arith, ground arith, ground arith);
  owned = λ b f e valid. let (h, k) = only3 b f e in rw (h, k) refl;
  dirty = λ b f e d. let (h, k) = only3 b f e in rw k (λ i. omega arith);
  clean = λ b f e valid d. let (h, k) = only3 b f e in cc (rw k at d);
  whole = λ b f e. let (h, k) = only3 b f e in rw k blank_whole;
  pinned = λ b f e p. let (h, k) = only3 b f e in rw k (omega arith);
}

manager3-AreFound : AreFound manager3.page_table manager3.page_table
unfolding lookup
manager3-AreFound = (refl, tt)

flush-Flushed_example : Returns (Buffer.flush manager3) (Flushed manager3)
flush-Flushed_example = flush-Flushed manager3 manager3-IsValid manager3-AreFound refl

-- The same manager, on a disk on which the write of the page fails after 7 bytes.
abbrev failing3 : BufferPoolManager
failing3 = record manager3 {
  disk = record {
    heap_file = record { content = []; cursor = 0; faults = none ∷ some 7 ∷ [] };
    next_page_id = 0;
  };
}

failing3-IsValid : IsValid failing3
failing3-IsValid = record {
  victim = manager3-IsValid.victim;
  mapped = manager3-IsValid.mapped;
  owned = manager3-IsValid.owned;
  dirty = manager3-IsValid.dirty;
  clean = manager3-IsValid.clean;
  whole = manager3-IsValid.whole;
  pinned = manager3-IsValid.pinned;
}

flush-Survived_example : Returns (Buffer.flush failing3) (Survived failing3)
flush-Survived_example = flush-Survived failing3 failing3-IsValid manager3-AreFound

-- A heap file of one page, and a manager of one frame that is not in use and holds that page. The
-- read of page 7, which the file does not have, fails; page 0 is then fetched, and the buffer handed
-- out is named 7.
abbrev one_page : DiskManager
one_page = record {
  heap_file = record { content = blank; cursor = 0; faults = [] };
  next_page_id = 1;
}

abbrev frame0 : Frame
frame0 = record {
  usage_count = 0;
  buffer = record { page_id = 0; page = blank; is_dirty = false };
  handles = 0;
}

abbrev idle0 : BufferPoolManager
idle0 = record {
  disk = one_page;
  pool = record { buffers = frame0 ∷ []; next_victim_id = 0 };
  page_table = (0, 0) ∷ [];
}

abbrev named : Option Frame → Option PageId
named none = none
named (some f) = some f.buffer.page_id

abbrev fetched_again : Run (Result Error BufferId × Result Error BufferId × Option PageId)
fetched_again = do
  (failed, m) ← fetch_page 7 idle0
  (fetched, m') ← fetch_page 0 m
  done (failed, fetched, named (frame_at m' 0))

program : Unit {0}
unfolding fetch_page fetch_hit fetch_victim fetch_written fetch_loaded write_back lookup evict
    evict_loop total increment_id read_page_data page_offset read_moved seek_start read_exact
    read_with overwrite page_at
program = tt

stale_mapping : fetched_again ≡ done (err (io unexpected_eof), ok 0, some 7)
unfolding program
stale_mapping = refl

only0 : (b : ℕ) (f : Frame) → frame_at idle0 b ≡ some f → (b ≡ 0) × (f ≡ frame0)
only0 zero f h = (refl, cc)
only0 (suc b) f h = cc

idle0-IsValid : IsValid idle0
unfolding program
idle0-IsValid = record {
  victim = omega arith;
  mapped = λ p b e. (frame0, ground arith, ground arith, ground arith);
  owned = λ b f e valid. let (h, k) = only0 b f e in rw (h, k) refl;
  dirty = λ b f e d. let (h, k) = only0 b f e in cc (rw k at d);
  clean = λ b f e valid d. let (h, k) = only0 b f e in rw k refl;
  whole = λ b f e. let (h, k) = only0 b f e in rw k blank_whole;
  pinned = λ b f e p. let (h, k) = only0 b f e in omega (arith, ap (λ (x : Frame). x.handles) k);
}

abbrev after_read : DiskManager
after_read = record one_page { heap_file = record { content = blank; cursor = 28672; faults = [] } }

fetch_page-Stale_example : Returns (fetch_page 7 idle0) (Stale 0 7 0 unexpected_eof)
unfolding program
fetch_page-Stale_example =
    fetch_page-Stale 7 idle0 0 idle0.pool frame0 unexpected_eof blank after_read idle0-IsValid refl
      refl refl (λ i. omega arith) refl refl
