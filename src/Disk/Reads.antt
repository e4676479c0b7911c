-- ===== src/Disk/Reads.antt =====
-- src/disk.rs: what a read of a page returns, and the pages that a new manager finds.
use relly.Prelude.{
  leb→le, ℕ, ◌+◌, ◌*◌, ◌/◌, ◌≤◌, ◌<◌, ◌≡◌, ◌≢◌, ◌↔◌, inl, inr, refl, List, [], ◌∷◌, Bytes, length,
  slice, none, some, Returns, true, ltb, leb, Bool-cases, arith, ltb→lt, ltb→le, lt→ltb,
}
use relly.Prelude.Exec.{Result, ok}
use relly.Disk.{
  PageId, page_size, u64_end, DiskManager, new, page_offset, read_moved, read_page_data,
}
use relly.Disk.File.{
  HeapFile, IoError, Fault, next_fault, later_faults, metadata_len, seek_start, read_exact,
  read_with,
}
use relly.Disk.Pages.{page_at, page_at-eq-some, page_at-eq-none, page_inside, IsQuiet, facing}

-- What a read of a page does, whatever faults come.
pub record WasRead (id : PageId) (disk : DiskManager)
    (after : Result IoError (Unit {0}) × Bytes × DiskManager) : Type 0 where
  pub next_page_id : after.2.next_page_id ≡ disk.next_page_id
  pub content : after.2.heap_file.content ≡ disk.heap_file.content
  pub found : after.0 ≡ ok tt → page_at disk.heap_file.content id ≡ some after.1
  pub quiet :
      IsQuiet disk.heap_file.faults → page_at disk.heap_file.content id ≢ none → after.0 ≡ ok tt
  pub calm : disk.heap_file.faults ≡ [] → after.2.heap_file.faults ≡ []

module _ (id : PageId) (content : Bytes) (cursor next : ℕ) where
  abbrev before : List Fault → DiskManager
  before = facing id content cursor next

  -- What `read_exact` makes of the file at the page when it meets no fault.
  abbrev got : Bytes → List Fault → Result IoError (Unit {0}) × Bytes × HeapFile
  got buf rest =
      read_with none (slice (page_size * id) (length buf) content) buf
        (record { content = content; cursor = page_size * id; faults = rest })

  got-WasRead :
      (buf : Bytes) (faults rest : List Fault)
      → length buf ≡ page_size
      → (faults ≡ [] → later_faults rest ≡ [])
      → WasRead id (before faults) (
        (got buf rest).0,
        (got buf rest).1,
        record (before faults) { heap_file = (got buf rest).2 },
      )
  unfolding read_with
  got-WasRead buf faults rest whole calm =
      let n : length buf ≡ page_size = whole in
      let found = slice (page_size * id) page_size content in
      rw n (elim (Bool-cases (ltb (length found) page_size)) [
        | inl short ↦ rw short (record {
          next_page_id = refl;
          content = refl;
          found = λ h. cc;
          quiet = λ q p. absurd (p (page_at-eq-none content id (ltb→lt _ _ short)));
          calm = calm;
        })
        | inr full ↦ rw full (record {
          next_page_id = refl;
          content = refl;
          found =
              λ h. page_at-eq-some content id found (page_inside content id (ltb→le _ _ full)) refl;
          quiet = λ q p. refl;
          calm = calm;
        })
      ])

  read_moved-WasRead :
      (buf : Bytes) (faults : List Fault)
      → length buf ≡ page_size
      → WasRead id
          (before faults)
          (read_moved buf (before faults) (seek_start (page_size * id) (before faults).heap_file))
  unfolding read_moved seek_start read_exact
  read_moved-WasRead buf [] whole = got-WasRead buf [] [] whole (λ e. refl)
  read_moved-WasRead buf (none ∷ []) whole = got-WasRead buf (none ∷ []) [] whole (λ e. refl)
  read_moved-WasRead buf (none ∷ none ∷ faults) whole =
      got-WasRead buf (none ∷ none ∷ faults) (none ∷ faults) whole (λ e. absurd cc)
  read_moved-WasRead buf (none ∷ some k ∷ faults) whole = record {
    next_page_id = refl;
    content = refl;
    found = λ h. cc;
    quiet = λ q. cc q.1;
    calm = λ e. absurd cc;
  }
  read_moved-WasRead buf (some k ∷ faults) whole = record {
    next_page_id = refl;
    content = refl;
    found = λ h. cc;
    quiet = λ q. cc q.0;
    calm = λ e. absurd cc;
  }

-- A read into a buffer of a page, at an id whose offset fits 64 bits, returns and leaves the file
-- as it is. When it succeeds, the buffer is the page with the id; and it succeeds when the file
-- holds that page and neither of its calls fails.
pub read_page_data-WasRead :
    (id : PageId) (buf : Bytes) (disk : DiskManager)
    → page_size * id < u64_end
    → length buf ≡ page_size
    → Returns (read_page_data id buf disk) (WasRead id disk)
unfolding read_page_data page_offset
read_page_data-WasRead id buf disk fits whole =
    let t : ltb (page_size * id) u64_end ≡ true = lt→ltb _ _ fits in
    rw t (
      read_moved-WasRead id disk.heap_file.content disk.heap_file.cursor disk.next_page_id buf
        disk.heap_file.faults whole)

page_at-none_iff :
    (content : Bytes) (j : PageId)
    → (page_at content j ≡ none) ↔ (length content < page_size * j + page_size)
unfolding page_at
page_at-none_iff content j = elim (Bool-cases (leb (page_size * j + page_size) (length content))) [
  | inl t ↦ rw t (λ e. cc, λ h. absurd (omega (arith, leb→le _ _ t)))
  | inr f ↦ rw f (λ e. ground arith, λ h. refl)
]

-- On a file whose length can be read, `new` returns a manager of that file. The ids from the next
-- one to allocate on are exactly those of which the file does not hold a whole page, so a page
-- that is allocated then is none that the file holds.
pub new-page_at :
    (heap_file : HeapFile)
    → next_fault heap_file.faults ≡ none
    → (disk : DiskManager) × ((new heap_file).0 ≡ ok disk)
      × (disk.heap_file.content ≡ heap_file.content)
      × ((j : PageId) → (page_at disk.heap_file.content j ≡ none) ↔ (disk.next_page_id ≤ j))
unfolding new metadata_len
new-page_at heap_file q = (
  record {
    heap_file = record heap_file { faults = later_faults heap_file.faults };
    next_page_id = length heap_file.content / page_size;
  },
  rw (q, new),
  refl,
  λ j.
      let e = page_at-none_iff heap_file.content j in
      (λ h. omega (arith, e.0 h), λ h. e.1 (omega arith)),
)
