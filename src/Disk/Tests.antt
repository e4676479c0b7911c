-- ===== src/Disk/Tests.antt =====
-- src/disk.rs: runs, and the theorems at an input.
use relly.Prelude.{
  ℕ, ◌≤◌, ◌≡◌, ◌↔◌, refl, [], ◌∷◌, Bytes, length, replicate, none, some, done, panic, Returns,
  arith, length-replicate,
}
use relly.Prelude.Exec.{ok, err}
use relly.Disk.{
  DiskManager, invalid_page_id, page_size, valid, from_option, le_value, le_bytes, from_bytes,
  as_bytes, new, open_path, page_offset, read_page_data, write_page_data, allocate_page, sync,
}
use relly.Disk.File.{HeapFile, metadata_len, flush, sync_all, other}
use relly.Disk.Ids.{valid-from_option, from_bytes-as_bytes}
use relly.Disk.Pages.{page_at, Wrote, write_page_data-Wrote}
use relly.Disk.Reads.{WasRead, read_page_data-WasRead, new-page_at}

abbrev blank : Bytes
blank = replicate page_size 7

blank_whole : length blank ≡ page_size
blank_whole = length-replicate {A = ℕ} page_size 7

-- A file of three bytes holds no page; the second call to come fails.
abbrev short_file : HeapFile
short_file = record { content = 1 ∷ 2 ∷ 3 ∷ []; cursor = 0; faults = none ∷ some 5 ∷ [] }

abbrev disk : DiskManager
disk = record { heap_file = short_file; next_page_id = 0 }

ids : (valid invalid_page_id ≡ none) × (valid 7 ≡ some 7) × (from_bytes (as_bytes 258) ≡ done 258)
unfolding valid from_bytes as_bytes le_bytes le_value
ids = (refl, refl, refl)

far_page : page_offset invalid_page_id ≡ panic
unfolding page_offset
far_page = refl

allocates : allocate_page disk ≡ done (0, record disk { next_page_id = 1 })
unfolding allocate_page
allocates = refl

syncs : (sync disk).0 ≡ err other
unfolding sync flush sync_all
syncs = refl

opens :
    (open_path none []).0
    ≡ ok (record { heap_file = record { content = []; cursor = 0; faults = [] }; next_page_id = 0 })
unfolding open_path new metadata_len
opens = refl

valid-from_option_example : valid (from_option (some 3)) ≡ some 3
valid-from_option_example = valid-from_option (some 3) (λ e. ground arith)

from_bytes-as_bytes_example : from_bytes (as_bytes 65_537) ≡ done 65_537
from_bytes-as_bytes_example = from_bytes-as_bytes 65_537 (omega arith)

write_page_data-Wrote_example : Returns (write_page_data 2 blank disk) (Wrote 2 blank disk)
write_page_data-Wrote_example = write_page_data-Wrote 2 blank disk (omega arith) blank_whole

read_page_data-WasRead_example : Returns (read_page_data 2 blank disk) (WasRead 2 disk)
read_page_data-WasRead_example = read_page_data-WasRead 2 blank disk (omega arith) blank_whole

new-page_at_example :
    (opened : DiskManager) × ((new short_file).0 ≡ ok opened)
    × (opened.heap_file.content ≡ short_file.content)
    × ((j : ℕ) → (page_at opened.heap_file.content j ≡ none) ↔ (opened.next_page_id ≤ j))
new-page_at_example = new-page_at short_file refl
