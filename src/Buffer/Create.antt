-- ===== src/Buffer/Create.antt =====
-- src/buffer.rs: `create_page` on a well-formed manager.
use relly.Prelude.{
  ℕ, ◌+◌, ◌*◌, ◌<◌, ◌≡◌, ◌≢◌, refl, [], replicate, ltb, lt→ltb, true, Option, none, some, Run, done,
  panic, hang, ◌==◌, arith, Returns, Returns-value, length-replicate,
}
use relly.Prelude.Exec.{Result, ok, err}
use relly.Disk.{DiskManager, page_size, u64_end, allocate_page}
use relly.Disk.File.{IoError}
use relly.Buffer.Pool.{BufferId, Buffer, Frame, BufferPool, evict, default_buffer}
use relly.Buffer.Pool.Sweep.{Swept, Evicted, evict-Evicted}
use relly.Buffer.{
  Error, io, no_free_buffer, lookup, BufferPoolManager, handed_out, write_back, remap,
  create_written, create_victim, create_page,
}
use relly.Buffer.Valid.{
  IsValid, contents, frame_at, disk_page, Swept-IsValid, Swept-contents, contents_mapped,
}
use relly.Buffer.Remap.{
  Backed, Fits, remapped, remapped-IsValid, remapped-contents, lookup_self, frame_self, frame_ne,
}
use relly.Buffer.Clones.{set-ClonedOnce}
use relly.Buffer.Victim.{WroteBack, write_back-WroteBack}
use relly.Buffer.Fetch.{Served, Full, Served-Swept, Full-Swept, unused_free, no_victim}

-- The next page id is of no page yet, and its offset fits 64 bits.
pub record CanAllocate (m : BufferPoolManager) : Type 0 where
  pub unmapped : lookup m.disk.next_page_id m.page_table ≡ none
  pub absent : disk_page m m.disk.next_page_id ≡ none
  pub offset : page_size * m.disk.next_page_id < u64_end

-- The next page was handed out, all zeros.
pub record Created (b : BufferId) (m after : BufferPoolManager) : Type 0 where
  pub served : Served m.disk.next_page_id b m after
  pub blank : contents after m.disk.next_page_id ≡ some (replicate page_size 0)
  pub advanced : after.disk.next_page_id ≡ m.disk.next_page_id + 1

abbrev pub AfterCreate : BufferPoolManager → Result Error BufferId × BufferPoolManager → Type 0
AfterCreate m (ok b, after) = Created b m after
AfterCreate m (err no_free_buffer, after) = Full m after
AfterCreate m (err (io e), after) =
    (after.page_table ≡ m.page_table) × (m.disk.heap_file.faults ≢ [])

-- With the victim chosen, from the state after the sweep.
module _ (m : BufferPoolManager) (v : IsValid m) (b : BufferId) (f : Frame)
    (found : frame_at m b ≡ some f) (can : CanAllocate m) where
  abbrev blank_buffer : Buffer
  blank_buffer = record default_buffer { page_id = m.disk.next_page_id; is_dirty = true }

  blank-Fits : (disk : DiskManager) → Fits m blank_buffer disk
  blank-Fits disk = record {
    unmapped = can.unmapped;
    offset = can.offset;
    whole = length-replicate {A = ℕ} page_size 0;
    clean = λ d. cc;
    agrees = λ c held. let none_there = can.absent in cc;
  }

  -- The disk after the id was allocated.
  abbrev allocated : DiskManager → DiskManager
  allocated disk = record disk { next_page_id = m.disk.next_page_id + 1 }

  allocate_page-allocated :
      (disk : DiskManager)
      → disk.next_page_id ≡ m.disk.next_page_id
      → allocate_page disk ≡ done (m.disk.next_page_id, allocated disk)
  unfolding allocate_page
  allocate_page-allocated disk e =
      let t : ltb (m.disk.next_page_id + 1) u64_end ≡ true =
        lt→ltb _ _ (omega (arith, can.offset)) in
      rw (e, t)

  allocated-Backed :
      (disk : DiskManager) → Backed m f.buffer disk → Backed m f.buffer (allocated disk)
  allocated-Backed disk backed = record { others = backed.others; held = backed.held }

  create_written-AfterCreate :
      (written : Result IoError (Unit {0}) × DiskManager)
      → WroteBack m f.buffer written
      → Returns (create_written b f m written) (AfterCreate m)
  unfolding create_written remap
  create_written-AfterCreate (ok _, disk) w =
      let backed = allocated-Backed disk (w.backed refl) in
      let fits = blank-Fits (allocated disk) in
      let after = remapped m v b f found (allocated disk) blank_buffer backed fits in
      let mapped = lookup_self m v b f found (allocated disk) blank_buffer backed fits in
      let here = frame_self m v b f found (allocated disk) blank_buffer backed fits in
      rw (allocate_page-allocated disk w.next_page_id) (record {
        served = record {
          valid = remapped-IsValid m v b f found (allocated disk) blank_buffer backed fits;
          mapped = mapped;
          in_use = (handed_out 1 blank_buffer f.handles, here, refl, omega arith);
          kept = remapped-contents m v b f found (allocated disk) blank_buffer backed fits;
          clones =
              set-ClonedOnce m after b f (handed_out 1 blank_buffer f.handles) found here refl
                (frame_ne m v b f found (allocated disk) blank_buffer backed fits);
          calm = w.calm;
        };
        blank = contents_mapped after m.disk.next_page_id b _ mapped here;
        advanced = refl;
      })
  create_written-AfterCreate (err e, disk) w = (refl, λ q. let good = w.quiet q in cc)

AfterCreate-Swept :
    (m : BufferPoolManager) (pool : BufferPool)
    → Swept m.pool pool
    → (run : Run (Result Error BufferId × BufferPoolManager))
    → Returns run (AfterCreate (record m { pool = pool }))
    → Returns run (AfterCreate m)
AfterCreate-Swept m pool swept panic h = h
AfterCreate-Swept m pool swept hang h = h
AfterCreate-Swept m pool swept (done (ok b, after)) h = record {
  served = Served-Swept m pool swept m.disk.next_page_id b after h.served;
  blank = h.blank;
  advanced = h.advanced;
}
AfterCreate-Swept m pool swept (done (err no_free_buffer, after)) h =
    Full-Swept m pool swept after h
AfterCreate-Swept m pool swept (done (err (io e), after)) h = h

create_victim-AfterCreate :
    (m : BufferPoolManager)
    → IsValid m
    → CanAllocate m
    → (evicted : Option BufferId × BufferPool) → evict m.pool ≡ done evicted
    → Evicted m.pool evicted
    → Returns (create_victim m evicted) (AfterCreate m)
unfolding create_victim
create_victim-AfterCreate m v can (none, pool) e swept = record {
  valid = Swept-IsValid m pool swept v;
  kept = Swept-contents m pool swept;
  all_in_use = λ b f found. no_victim m pool b f v e found;
}
create_victim-AfterCreate m v can (some b, pool) e (swept, (f, found, unused)) =
    let m' : BufferPoolManager = record m { pool = pool } in
    let v' = Swept-IsValid m pool swept v in
    let can' : CanAllocate m' = record {
      unmapped = can.unmapped;
      absent = can.absent;
      offset = can.offset;
    } in
    let free = unused_free m' b f v' found unused in
    let (written, d, w) =
      Returns-value (write_back f.buffer m'.disk) (write_back-WroteBack m' v' b f found) in
    let t : f.handles == 0 ≡ true = ground arith in
    AfterCreate-Swept m pool swept _
      (rw (found, t, d) (create_written-AfterCreate m' v' b f found can' written w))

-- On a well-formed manager whose next page id is of no page yet and has an offset that fits 64
-- bits, `create_page` returns. It hands out a frame with a page of zeros under that id and advances
-- the next id, and then the manager is well formed, that buffer has one clone more and the others as
-- many as before, and no page that the pool or the disk held is lost or changed; if no fault was to
-- come, none is then. It reports that no buffer is free only where every buffer has a clone, and then
-- the manager is well formed with the same pages. It reports an I/O error only where faults
-- may be to come, and then the page table is as it was.
pub create_page-AfterCreate :
    (m : BufferPoolManager) → IsValid m → CanAllocate m → Returns (create_page m) (AfterCreate m)
unfolding create_page
create_page-AfterCreate m v can =
    let (evicted, e, swept) = Returns-value (evict m.pool) (evict-Evicted m.pool v.victim) in
    rw e (create_victim-AfterCreate m v can evicted e swept)
