-- ===== src/Disk.antt =====
-- src/disk.rs: page ids, and the pages of the heap file.
pub mod File
pub mod Ids
pub mod Pages
pub mod Reads
pub mod Rewrites
mod Tests
use relly.Prelude.{
  ℕ, zero, suc, ◌+◌, ◌-◌, ◌*◌, ◌/◌, ◌%◌, ◌^◌, List, [], ◌∷◌, ◌++◌, Bytes, length, Option, none,
  some, Run, done, panic, hang, ◌>>=◌, ltb, ◌==◌, if◌then◌else◌,
}
use relly.Prelude.Exec.{Result, ok, err}
use relly.Disk.File.{
  HeapFile, IoError, other, Fault, next_fault, later_faults, metadata_len, seek_start, read_exact,
  write_all, flush, sync_all,
}

abbrev pub page_size : ℕ
page_size = 4096

-- `PageId(u64)`
abbrev pub PageId : Type 0
PageId = ℕ

abbrev pub u64_end : ℕ
u64_end = 2 ^ 64

abbrev pub invalid_page_id : PageId
invalid_page_id = u64_end - 1

unfoldable pub valid : PageId → Option PageId
valid page_id = if page_id == invalid_page_id then none else some page_id

unfoldable pub to_u64 : PageId → ℕ
to_u64 page_id = page_id

-- `From<Option<PageId>>`, with `Default`.
unfoldable pub from_option : Option PageId → PageId
from_option none = invalid_page_id
from_option (some page_id) = page_id

-- The number that `bytes` stand for, the lowest byte first.
unfoldable pub le_value : Bytes → ℕ
le_value [] = 0
le_value (b ∷ bytes) = b + 256 * le_value bytes

-- The lowest `n` bytes of a number.
unfoldable pub le_bytes : ℕ → ℕ → Bytes
le_bytes zero x = []
le_bytes (suc n) x = x % 256 ∷ le_bytes n (x / 256)

-- `From<&[u8]>`: the slice becomes an array of eight bytes, or the `unwrap` panics.
unfoldable pub from_bytes : Bytes → Run PageId
from_bytes bytes = if length bytes == 8 then done (le_value bytes) else panic

-- `as_bytes`
unfoldable pub as_bytes : PageId → Bytes
as_bytes page_id = le_bytes 8 page_id

pub record DiskManager : Type 0 where
  pub heap_file : HeapFile
  pub next_page_id : ℕ

unfoldable pub new : HeapFile → Result IoError DiskManager × HeapFile
new heap_file =
    let (len, heap_file') = metadata_len heap_file in
    (
      elim len [
        | ok heap_file_size ↦
            ok (record { heap_file = heap_file'; next_page_id = heap_file_size / page_size })
        | err e ↦ err e
      ],
      heap_file',
    )

-- `open`: the file that stands at the path, or an empty one, opened at its start.
unfoldable pub open_path : Option Bytes → List Fault → Result IoError DiskManager × HeapFile
open_path found faults =
    let content : Bytes = elim found [ none ↦ [] | some bytes ↦ bytes ] in
    let heap_file : HeapFile = record {
      content = content;
      cursor = 0;
      faults = later_faults faults;
    } in
    elim (next_fault faults) [ none ↦ new heap_file | some k ↦ (err other, heap_file) ]

-- `PAGE_SIZE as u64 * page_id.to_u64()`, which panics on overflow.
unfoldable pub page_offset : PageId → Run ℕ
page_offset page_id =
    if ltb (page_size * page_id) u64_end then done (page_size * page_id) else panic

-- What follows the seek.
unfoldable pub read_moved :
    Bytes
    → DiskManager
    → Result IoError ℕ × HeapFile
    → Result IoError (Unit {0}) × Bytes × DiskManager
read_moved buf disk (ok _, heap_file) =
    let (read, buf', heap_file') = read_exact buf heap_file in
    (read, buf', record disk { heap_file = heap_file' })
read_moved buf disk (err e, heap_file) = (err e, buf, record disk { heap_file = heap_file })

-- The outcome, the buffer after the call, and the manager.
unfoldable pub read_page_data :
    PageId → Bytes → DiskManager → Run (Result IoError (Unit {0}) × Bytes × DiskManager)
unfolding page_offset read_moved
read_page_data page_id buf disk = do
  offset ← page_offset page_id
  done (read_moved buf disk (seek_start offset disk.heap_file))

-- What follows the seek.
unfoldable pub write_moved :
    Bytes → DiskManager → Result IoError ℕ × HeapFile → Result IoError (Unit {0}) × DiskManager
write_moved buf disk (ok _, heap_file) =
    let (written, heap_file') = write_all buf heap_file in
    (written, record disk { heap_file = heap_file' })
write_moved buf disk (err e, heap_file) = (err e, record disk { heap_file = heap_file })

unfoldable pub write_page_data :
    PageId → Bytes → DiskManager → Run (Result IoError (Unit {0}) × DiskManager)
unfolding page_offset write_moved
write_page_data page_id buf disk = do
  offset ← page_offset page_id
  done (write_moved buf disk (seek_start offset disk.heap_file))

-- The increment panics on overflow.
unfoldable pub allocate_page : DiskManager → Run (PageId × DiskManager)
allocate_page disk =
    if ltb (disk.next_page_id + 1) u64_end
    then done (disk.next_page_id, record disk { next_page_id = disk.next_page_id + 1 })
    else panic

unfoldable pub sync : DiskManager → Result IoError (Unit {0}) × DiskManager
sync disk =
    let (flushed, heap_file) = flush disk.heap_file in
    let (synced, heap_file') = sync_all heap_file in
    elim flushed [
      | ok _ ↦ (synced, record disk { heap_file = heap_file' })
      | err e ↦ (err e, record disk { heap_file = heap_file })
    ]
