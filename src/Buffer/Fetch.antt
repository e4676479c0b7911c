-- ===== src/Buffer/Fetch.antt =====
-- src/buffer.rs: `fetch_page` on a well-formed manager.
use relly.Prelude.{
  ◌+◌, ◌*◌, ◌<◌, ◌≡◌, inl, inr, refl, sym, ap, ◌∙◌, [], Bytes, length, length-slice, Bool-cases,
  true, false, Option, none, some, Run, done, panic, hang, ◌==◌, get_elem?, arith, Returns,
  Returns-value, Option-cases, get_elem?-set_ne,
}
use relly.Prelude.Exec.{Result, ok, err}
use relly.Disk.{PageId, DiskManager, page_size, u64_end, read_page_data}
use relly.Disk.File.{IoError}
use relly.Disk.Pages.{page_at, page_at-inv}
use relly.Disk.Reads.{WasRead, read_page_data-WasRead}
use relly.Buffer.Pool.{BufferId, Buffer, Frame, BufferPool, evict}
use relly.Buffer.Pool.Sweep.{Swept, Evicted, evict-Evicted}
use relly.Buffer.Pool.Chosen.{evict-Chosen}
use relly.Buffer.{
  Error, io, no_free_buffer, lookup, BufferPoolManager, handed_out, fetch_hit, write_back, remap,
  fetch_loaded, fetch_written, fetch_victim, fetch_page,
}
use relly.Buffer.Valid.{
  IsValid, contents, frame_at, disk_page, Related-after, Swept-IsValid, Swept-contents,
  contents_unmapped,
}
use relly.Buffer.Remap.{
  Backed, Fits, remapped, remapped-IsValid, remapped-contents, lookup_self, frame_self, frame_ne,
}
use relly.Buffer.Clones.{ClonedOnce, set-ClonedOnce, Swept-ClonedOnce}
use relly.Buffer.Reuse.{reused, reused_self, reused-IsValid, reused-contents}
use relly.Buffer.Victim.{WroteBack, write_back-WroteBack, unmapped_victim}

-- A page was handed out: the manager is well formed, it maps the page to a frame that is now in
-- use, with one clone more than before, and no page was lost or changed.
pub record Served (page_id : PageId) (b : BufferId) (m after : BufferPoolManager) : Type 0 where
  pub valid : IsValid after
  pub mapped : lookup page_id after.page_table ≡ some b
  pub in_use :
      (f : Frame) × (frame_at after b ≡ some f) × (f.buffer.page_id ≡ page_id) × (0 < f.handles)
  pub kept : (p : PageId) (c : Bytes) → contents m p ≡ some c → contents after p ≡ some c
  pub clones : ClonedOnce b m after
  pub calm : m.disk.heap_file.faults ≡ [] → after.disk.heap_file.faults ≡ []

-- Every buffer has a clone, and the pages are as they were.
pub record Full (m after : BufferPoolManager) : Type 0 where
  pub valid : IsValid after
  pub kept : (p : PageId) → contents after p ≡ contents m p
  pub all_in_use : (b : BufferId) (f : Frame) → frame_at m b ≡ some f → 0 < f.handles

-- Faults may have been to come, or neither the pool nor the disk holds the page.
pub record Failed (page_id : PageId) (m after : BufferPoolManager) : Type 0 where
  pub page_table : after.page_table ≡ m.page_table
  pub cause : m.disk.heap_file.faults ≡ [] → contents m page_id ≡ none

abbrev pub AfterFetch :
    PageId → BufferPoolManager → Result Error BufferId × BufferPoolManager → Type 0
AfterFetch page_id m (ok b, after) = Served page_id b m after
AfterFetch page_id m (err no_free_buffer, after) = Full m after
AfterFetch page_id m (err (io e), after) = Failed page_id m after

fetch_hit-AfterFetch :
    (page_id : PageId) (b : BufferId) (m : BufferPoolManager)
    → IsValid m
    → lookup page_id m.page_table ≡ some b
    → Returns (fetch_hit b m) (AfterFetch page_id m)
unfolding fetch_hit
fetch_hit-AfterFetch page_id b m v mapped =
    let (f, found, id, _) = v.mapped page_id b mapped in
    let g = handed_out (f.usage_count + 1) f.buffer f.handles in
    rw found (record {
      valid = reused-IsValid m v b f found g refl (λ h. omega arith);
      mapped = mapped;
      in_use = (g, reused_self m v b f found g refl (λ h. omega arith), id, omega arith);
      kept = λ p c h. reused-contents m v b f found g refl (λ k. omega arith) p ∙ h;
      clones =
          set-ClonedOnce m (reused m v b f found g refl (λ h. omega arith)) b f g found
            (reused_self m v b f found g refl (λ h. omega arith)) refl
            (λ b' ne. get_elem?-set_ne m.pool.buffers b b' g (λ e. ne (sym e)));
      calm = λ e. e;
    })

length_of-page_at :
    (content : Bytes) (p : PageId) (c : Bytes) → page_at content p ≡ some c → length c ≡ page_size
length_of-page_at content p c h =
    let (fits, e) = page_at-inv content p c h in
    sym (ap (λ (x : Bytes). length x) e) ∙ length-slice (page_size * p) page_size content fits

-- With the victim chosen, from the state after the sweep.
module _ (page_id : PageId) (m : BufferPoolManager) (v : IsValid m) (b : BufferId) (f : Frame)
    (found : frame_at m b ≡ some f) (absent : lookup page_id m.page_table ≡ none)
    (offset : page_size * page_id < u64_end) where
  abbrev loaded_buffer : Bytes → Buffer
  loaded_buffer page = record { page_id = page_id; page = page; is_dirty = false }

  -- The disk after the write-back holds the page if the disk before did.
  stored :
      (disk : DiskManager) (c : Bytes)
      → Backed m f.buffer disk
      → disk_page m page_id ≡ some c
      → page_at disk.heap_file.content page_id ≡ some c
  stored disk c backed held =
      backed.others page_id c (unmapped_victim m v b f found page_id absent) held

  loaded-Backed :
      (disk disk' : DiskManager)
      → disk'.heap_file.content ≡ disk.heap_file.content
      → Backed m f.buffer disk
      → Backed m f.buffer disk'
  loaded-Backed disk disk' e backed = record {
    others = λ j c apart held. rw e (backed.others j c apart held);
    held = λ valid. rw e (backed.held valid);
  }

  loaded-Fits :
      (disk disk' : DiskManager) (page : Bytes)
      → disk'.heap_file.content ≡ disk.heap_file.content
      → page_at disk.heap_file.content page_id ≡ some page
      → Backed m f.buffer disk
      → Fits m (loaded_buffer page) disk'
  loaded-Fits disk disk' page e read backed = record {
    unmapped = absent;
    offset = offset;
    whole = length_of-page_at disk.heap_file.content page_id page read;
    clean = λ d. rw e read;
    agrees = λ c held. cc (read, stored disk c backed held);
  }

  fetch_loaded-AfterFetch :
      (disk : DiskManager)
      → Backed m f.buffer disk
      → (m.disk.heap_file.faults ≡ [] → disk.heap_file.faults ≡ [])
      → (read : Result IoError (Unit {0}) × Bytes × DiskManager) → WasRead page_id disk read
      → Returns (fetch_loaded b f page_id (record m { disk = disk }) read) (AfterFetch page_id m)
  unfolding fetch_loaded remap
  fetch_loaded-AfterFetch disk backed calm (ok _, page, disk') r =
      let buffer = loaded_buffer page in
      let backed' = loaded-Backed disk disk' r.content backed in
      let fits = loaded-Fits disk disk' page r.content (r.found refl) backed in
      record {
        valid = remapped-IsValid m v b f found disk' buffer backed' fits;
        mapped = lookup_self m v b f found disk' buffer backed' fits;
        in_use = (
          handed_out 1 buffer f.handles,
          frame_self m v b f found disk' buffer backed' fits,
          refl,
          omega arith,
        );
        kept = remapped-contents m v b f found disk' buffer backed' fits;
        clones =
            set-ClonedOnce m (remapped m v b f found disk' buffer backed' fits) b f
              (handed_out 1 buffer f.handles) found
              (frame_self m v b f found disk' buffer backed' fits) refl
              (frame_ne m v b f found disk' buffer backed' fits);
        calm = λ q. r.calm (calm q);
      }
  fetch_loaded-AfterFetch disk backed calm (err e, page, disk') r = record {
    page_table = refl;
    cause = λ q. elim (Option-cases (disk_page m page_id)) [
      | inl gone ↦ contents_unmapped m page_id absent ∙ gone
      | inr (c, held) ↦
          let here = stored disk c backed held in
          let good = r.quiet (rw (calm q) (refl, refl)) (λ h. cc) in cc
    ];
  }

  fetch_written-AfterFetch :
      (written : Result IoError (Unit {0}) × DiskManager)
      → WroteBack m f.buffer written
      → Returns (fetch_written b f page_id m written) (AfterFetch page_id m)
  unfolding fetch_written
  fetch_written-AfterFetch (ok _, disk) w =
      let (read, e, r) =
        Returns-value (read_page_data page_id f.buffer.page disk)
          (read_page_data-WasRead page_id f.buffer.page disk offset (v.whole b f found)) in
      rw e (fetch_loaded-AfterFetch disk (w.backed refl) w.calm read r)
  fetch_written-AfterFetch (err e, disk) w = record {
    page_table = refl;
    cause = λ q. let good = w.quiet q in cc;
  }

-- Results from the state after a sweep are results from the state before it.
module _ (m : BufferPoolManager) (pool : BufferPool) (swept : Swept m.pool pool) where
  pub Served-Swept :
      (id : PageId) (b : BufferId) (after : BufferPoolManager)
      → Served id b (record m { pool = pool }) after
      → Served id b m after
  Served-Swept id b after h = record {
    valid = h.valid;
    mapped = h.mapped;
    in_use = h.in_use;
    kept = λ p c e. h.kept p c (Swept-contents m pool swept p ∙ e);
    clones = Swept-ClonedOnce m after pool b swept h.clones;
    calm = h.calm;
  }

  pub Full-Swept :
      (after : BufferPoolManager) → Full (record m { pool = pool }) after → Full m after
  Full-Swept after full = record {
    valid = full.valid;
    kept = λ p. full.kept p ∙ Swept-contents m pool swept p;
    all_in_use = λ b f found.
        let (g, found', k) =
          Related-after (frame_at m b) (get_elem? pool.buffers b) f (swept.frames b) found in
        omega (arith, full.all_in_use b g found', k.handles);
  }

  AfterFetch-Swept :
      (page_id : PageId) (run : Run (Result Error BufferId × BufferPoolManager))
      → Returns run (AfterFetch page_id (record m { pool = pool }))
      → Returns run (AfterFetch page_id m)
  AfterFetch-Swept page_id panic h = h
  AfterFetch-Swept page_id hang h = h
  AfterFetch-Swept page_id (done (ok b, after)) h = Served-Swept page_id b after h
  AfterFetch-Swept page_id (done (err no_free_buffer, after)) h = Full-Swept after h
  AfterFetch-Swept page_id (done (err (io e), after)) h = record {
    page_table = h.page_table;
    cause = λ q. sym (Swept-contents m pool swept page_id) ∙ h.cause q;
  }

-- A frame without a use has no clone.
pub unused_free :
    (m : BufferPoolManager) (b : BufferId) (f : Frame)
    → IsValid m
    → frame_at m b ≡ some f
    → f.usage_count ≡ 0
    → f.handles ≡ 0
unused_free m b f v found unused = elim (Bool-cases (f.handles == 0)) [
  | inl free ↦ ground arith
  | inr used ↦ omega (arith, v.pinned b f found (ground arith))
]

fetch_victim-AfterFetch :
    (page_id : PageId) (m : BufferPoolManager)
    → IsValid m
    → lookup page_id m.page_table ≡ none
    → page_size * page_id < u64_end
    → (evicted : Option BufferId × BufferPool) → Evicted m.pool evicted
    → (evicted.0 ≡ none → (b : BufferId) (f : Frame) → frame_at m b ≡ some f → 0 < f.handles)
    → Returns (fetch_victim page_id m evicted) (AfterFetch page_id m)
unfolding fetch_victim
fetch_victim-AfterFetch page_id m v absent offset (none, pool) swept full = record {
  valid = Swept-IsValid m pool swept v;
  kept = Swept-contents m pool swept;
  all_in_use = full refl;
}
fetch_victim-AfterFetch page_id m v absent offset (some b, pool) (swept, (f, found, unused)) full =
    let m' : BufferPoolManager = record m { pool = pool } in
    let v' = Swept-IsValid m pool swept v in
    let free = unused_free m' b f v' found unused in
    let (written, e, w) =
      Returns-value (write_back f.buffer m'.disk) (write_back-WroteBack m' v' b f found) in
    let t : f.handles == 0 ≡ true = ground arith in
    AfterFetch-Swept m pool swept page_id _
      (rw (found, t, e) (fetch_written-AfterFetch page_id m' v' b f found absent offset written w))

-- If the sweep finds no victim, every buffer has a clone.
pub no_victim :
    (m : BufferPoolManager) (pool : BufferPool) (b : BufferId) (f : Frame)
    → IsValid m
    → evict m.pool ≡ done (none, pool)
    → frame_at m b ≡ some f
    → 0 < f.handles
no_victim m pool b f v e found = elim (Bool-cases (f.handles == 0)) [
  | inl free ↦ absurd (rw e at (evict-Chosen m.pool b f v.victim found (ground arith)))
  | inr used ↦ ground arith
]

-- On a well-formed manager and for a page whose offset fits 64 bits, `fetch_page` returns. It hands
-- out a frame that holds the page, and then the manager is well formed, maps the page to that
-- frame, that buffer has one clone more and the others as many as before, and no page that the pool
-- or the disk held is lost or changed; if no fault was to come, none is then. It reports that no buffer
-- is free only where every buffer has a clone, and then the manager is well formed with the same
-- pages. It reports an I/O error only where faults may be to come or neither pool nor disk holds the
-- page, and then the page table is as it was.
pub fetch_page-AfterFetch :
    (page_id : PageId) (m : BufferPoolManager)
    → IsValid m
    → page_size * page_id < u64_end
    → Returns (fetch_page page_id m) (AfterFetch page_id m)
unfolding fetch_page
fetch_page-AfterFetch page_id m v offset = elim (Option-cases (lookup page_id m.page_table)) [
  | inl absent ↦
      let (evicted, e, swept) = Returns-value (evict m.pool) (evict-Evicted m.pool v.victim) in
      rw (absent, fetch_page, e)
        (fetch_victim-AfterFetch page_id m v absent offset evicted swept (full evicted e))
  | inr (b, mapped) ↦ rw (mapped, fetch_page) (fetch_hit-AfterFetch page_id b m v mapped)
]
  where
    full :
        (evicted : Option BufferId × BufferPool)
        → evict m.pool ≡ done evicted
        → evicted.0 ≡ none
        → (b : BufferId) (f : Frame) → frame_at m b ≡ some f
        → 0 < f.handles
    full (none, pool) e h b f found = no_victim m pool b f v e found
    full (some b', pool) e h b f found = cc
