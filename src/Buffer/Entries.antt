-- ===== src/Buffer/Entries.antt =====
-- src/buffer.rs: the entries of the page table, none of which hides another.
use relly.Prelude.{
  ◌∙◌, ◌*◌, ◌<◌, ◌≡◌, inl, inr, refl, [], ◌∷◌, Option, none, some, Run, done, panic, hang, ◌>>=◌,
  assert, index, Returns, ◌==◌, true, false, Bool-cases, arith, Bytes, Option-cases,
}
use relly.Prelude.Exec.{Result, ok, err}
use relly.Disk.{DiskManager, PageId, page_size, u64_end, read_page_data, allocate_page}
use relly.Disk.File.{IoError}
use relly.Buffer.Pool.{BufferId, Buffer, default_buffer, Frame, BufferPool, evict}
use relly.Buffer.{
  Error, PageTable, lookup, remove, insert, BufferPoolManager, Outcome, fetch_page, fetch_hit,
  fetch_victim, fetch_written, fetch_loaded, remap, write_back, create_page, create_victim,
  create_written,
}
use relly.Buffer.Table.{lookup-remove}
use relly.Buffer.Valid.{IsValid}
use relly.Buffer.Fetch.{fetch_page-AfterFetch}
use relly.Buffer.Create.{CanAllocate, create_page-AfterCreate}

-- Each entry is the one that a search for its page finds.
abbrev pub AreFound : PageTable → PageTable → Type 0
AreFound [] table = Unit
AreFound ((p, b) ∷ entries) table = (lookup p table ≡ some b) × AreFound entries table

AreFound-remove :
    (q : PageId) (entries table : PageTable)
    → AreFound entries table
    → AreFound (remove q entries) (remove q table)
unfolding remove
AreFound-remove q [] table h = tt
AreFound-remove q ((p, b) ∷ entries) table (here, later) =
    let rest = AreFound-remove q entries table later in
    elim (Bool-cases (q == p)) [
      | inl t ↦ rw t rest
      | inr t ↦
          let apart : p == q ≡ false = ground arith in
          rw t (rw apart at (lookup-remove p q table) ∙ here, rest)
    ]

AreFound-cons :
    (q : PageId) (b : BufferId) (entries table : PageTable)
    → AreFound (remove q entries) table
    → AreFound (remove q entries) ((q, b) ∷ table)
unfolding remove lookup
AreFound-cons q b [] table h = tt
AreFound-cons q b ((p, c) ∷ entries) table h = elim (Bool-cases (q == p)) [
  | inl t ↦ rw t (AreFound-cons q b entries table (rw t at h))
  | inr t ↦
      let apart : p == q ≡ false = ground arith in
      let (here, later) = rw t at h in rw t (rw apart here, AreFound-cons q b entries table later)
]

AreFound-insert :
    (q : PageId) (b : BufferId) (table : PageTable)
    → AreFound table table
    → AreFound (insert q b table) (insert q b table)
unfolding insert lookup
AreFound-insert q b table h =
    let same : q == q ≡ true = ground arith in
    (rw same refl, AreFound-cons q b table (remove q table) (AreFound-remove q table table h))

-- If the run ends, no entry of its table hides another.
abbrev EndsFound : Outcome → Type 0
EndsFound panic = Unit
EndsFound hang = Unit
EndsFound (done (r, m)) = AreFound m.page_table m.page_table

bind-EndsFound :
    {A : Type 0} (run : Run A) (k : A → Outcome)
    → ((a : A) → EndsFound (k a))
    → EndsFound (run >>= k)
bind-EndsFound (done a) k h = h a
bind-EndsFound panic k h = tt
bind-EndsFound hang k h = tt

remap-EndsFound :
    (b : BufferId) (frame : Frame) (q : PageId) (buffer : Buffer) (m : BufferPoolManager)
    → AreFound m.page_table m.page_table
    → EndsFound (remap b frame q buffer m)
unfolding remap
remap-EndsFound b frame q buffer m h =
    AreFound-insert buffer.page_id b (remove q m.page_table)
      (AreFound-remove q m.page_table m.page_table h)

-- The stages of `fetch_page`.
fetch_loaded-EndsFound :
    (b : BufferId) (frame : Frame) (p : PageId) (m : BufferPoolManager)
    (loaded : Result IoError (Unit {0}) × Bytes × DiskManager)
    → AreFound m.page_table m.page_table
    → EndsFound (fetch_loaded b frame p m loaded)
unfolding fetch_loaded
fetch_loaded-EndsFound b frame p m (ok u, page, disk) h =
    remap-EndsFound b frame frame.buffer.page_id
      (record { page_id = p; page = page; is_dirty = false }) (record m { disk = disk }) h
fetch_loaded-EndsFound b frame p m (err e, page, disk) h = h

fetch_written-EndsFound :
    (b : BufferId) (frame : Frame) (p : PageId) (m : BufferPoolManager)
    (written : Result IoError (Unit {0}) × DiskManager)
    → AreFound m.page_table m.page_table
    → EndsFound (fetch_written b frame p m written)
unfolding fetch_written
fetch_written-EndsFound b frame p m (ok u, disk) h =
    bind-EndsFound (read_page_data p frame.buffer.page disk)
      (fetch_loaded b frame p (record m { disk = disk }))
      (λ loaded. fetch_loaded-EndsFound b frame p (record m { disk = disk }) loaded h)
fetch_written-EndsFound b frame p m (err e, disk) h = h

fetch_victim-EndsFound :
    (p : PageId) (m : BufferPoolManager) (chosen : Option BufferId × BufferPool)
    → AreFound m.page_table m.page_table
    → EndsFound (fetch_victim p m chosen)
unfolding fetch_victim
fetch_victim-EndsFound p m (none, pool) h = h
fetch_victim-EndsFound p m (some b, pool) h = bind-EndsFound (index pool.buffers b) _ (λ frame.
    bind-EndsFound (assert (frame.handles == 0)) _ (λ u.
      bind-EndsFound (write_back frame.buffer m.disk)
        (fetch_written b frame p (record m { pool = pool }))
        (λ written. fetch_written-EndsFound b frame p (record m { pool = pool }) written h)))

fetch_page-EndsFound :
    (p : PageId) (m : BufferPoolManager)
    → AreFound m.page_table m.page_table
    → EndsFound (fetch_page p m)
unfolding fetch_page fetch_hit
fetch_page-EndsFound p m h = elim (Option-cases (lookup p m.page_table)) [
  | inl absent ↦
      rw (absent, fetch_page)
        (bind-EndsFound (evict m.pool) (fetch_victim p m) (λ e. fetch_victim-EndsFound p m e h))
  | inr (b, mapped) ↦
      rw (mapped, fetch_page) (bind-EndsFound (index m.pool.buffers b) _ (λ frame. h))
]

-- The stages of `create_page`.
create_written-EndsFound :
    (b : BufferId) (frame : Frame) (m : BufferPoolManager)
    (written : Result IoError (Unit {0}) × DiskManager)
    → AreFound m.page_table m.page_table
    → EndsFound (create_written b frame m written)
unfolding create_written
create_written-EndsFound b frame m (ok u, disk) h =
    bind-EndsFound (allocate_page disk) _ (λ (p, disk').
      remap-EndsFound b frame frame.buffer.page_id
        (record default_buffer { page_id = p; is_dirty = true }) (record m { disk = disk' }) h)
create_written-EndsFound b frame m (err e, disk) h = h

create_victim-EndsFound :
    (m : BufferPoolManager) (chosen : Option BufferId × BufferPool)
    → AreFound m.page_table m.page_table
    → EndsFound (create_victim m chosen)
unfolding create_victim
create_victim-EndsFound m (none, pool) h = h
create_victim-EndsFound m (some b, pool) h = bind-EndsFound (index pool.buffers b) _ (λ frame.
    bind-EndsFound (assert (frame.handles == 0)) _ (λ u.
      bind-EndsFound (write_back frame.buffer m.disk)
        (create_written b frame (record m { pool = pool }))
        (λ written. create_written-EndsFound b frame (record m { pool = pool }) written h)))

create_page-EndsFound :
    (m : BufferPoolManager) → AreFound m.page_table m.page_table → EndsFound (create_page m)
unfolding create_page
create_page-EndsFound m h =
    bind-EndsFound (evict m.pool) (create_victim m) (λ e. create_victim-EndsFound m e h)

ends :
    (run : Outcome) (Q : Result Error BufferId × BufferPoolManager → Type 0)
    → EndsFound run
    → Returns run Q
    → Returns run (λ r. AreFound r.1.page_table r.1.page_table)
ends (done r) Q h q = h
ends panic Q h q = absurd q
ends hang Q h q = absurd q

-- After `fetch_page` on a well-formed manager in whose table no entry hides another, whatever its
-- outcome, no entry of the table hides another.
pub fetch_page-AreFound :
    (p : PageId) (m : BufferPoolManager)
    → IsValid m
    → AreFound m.page_table m.page_table
    → page_size * p < u64_end
    → Returns (fetch_page p m) (λ r. AreFound r.1.page_table r.1.page_table)
fetch_page-AreFound p m v h offset =
    ends (fetch_page p m) _ (fetch_page-EndsFound p m h) (fetch_page-AfterFetch p m v offset)

-- The same after `create_page`.
pub create_page-AreFound :
    (m : BufferPoolManager)
    → IsValid m
    → AreFound m.page_table m.page_table
    → CanAllocate m
    → Returns (create_page m) (λ r. AreFound r.1.page_table r.1.page_table)
create_page-AreFound m v h can =
    ends (create_page m) _ (create_page-EndsFound m h) (create_page-AfterCreate m v can)
