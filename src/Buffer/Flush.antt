-- ===== src/Buffer/Flush.antt =====
-- src/buffer.rs: `flush` on a disk on which no call fails.
use relly.Prelude.{
  Bytes, length, Bool-cases, ◌*◌, ◌<◌, ◌≡◌, ◌≢◌, inl, inr, refl, sym, ap, ◌∙◌, [], ◌∷◌, false, some,
  arith, Returns, Returns-value, subst, Option-cases, done,
}
use relly.Prelude.Exec.{Result, ok}
use relly.Disk.{DiskManager, PageId, page_size, invalid_page_id, u64_end, write_page_data, sync}
use relly.Disk.File.{flush, sync_all}
use relly.Disk.Pages.{Wrote, write_page_data-Wrote}
use relly.Buffer.Pool.{BufferId, Frame}
use relly.Buffer.{PageTable, lookup, BufferPoolManager, Error, flush_written, flush_pages}
use relly.Buffer
use relly.Buffer.Entries.{AreFound}
use relly.Buffer.Valid.{IsValid, contents, frame_at, disk_page, contents_mapped, contents_unmapped}
use relly.Buffer.Saved.{Saved, same-Saved, Flushing, stepped, stepped-IsValid, Flushing-cons}

no_page :
    (m : BufferPoolManager) (p : PageId) (b : BufferId) (g : Frame)
    → lookup p [] ≡ some b
    → frame_at m b ≡ some g
    → g.buffer.is_dirty ≡ false
unfolding lookup
no_page m p b g h e = cc

-- A write that ends as it should ends with `ok`.
calm_write :
    (p : PageId) (buf : Bytes) (disk : DiskManager)
    → page_size * p < u64_end
    → length buf ≡ page_size
    → disk.heap_file.faults ≡ []
    → (after : DiskManager) × (write_page_data p buf disk ≡ done (ok tt, after))
      × Wrote p buf disk (ok tt, after)
calm_write p buf disk fits whole calm =
    let ((result, after), e, w) =
      Returns-value (write_page_data p buf disk) (write_page_data-Wrote p buf disk fits whole) in
    let ended : result ≡ ok tt = w.quiet (rw calm (refl, refl)) in
    (after, e ∙ ap (λ x. done (x, after)) ended, subst (λ x. Wrote p buf disk (x, after)) ended w)

flush_pages-Flushing :
    (entries : PageTable) (m : BufferPoolManager)
    → IsValid m
    → m.disk.heap_file.faults ≡ []
    → AreFound entries m.page_table
    → Returns (flush_pages entries m) (Flushing entries m)
unfolding flush_pages flush_written
flush_pages-Flushing [] m v calm listed = record {
  ends = refl;
  valid = v;
  table = refl;
  calm = calm;
  frames = λ b f e. (f, e, same-Saved f);
  clean = no_page m;
  kept = λ p q h. h;
}
flush_pages-Flushing ((p, b) ∷ entries) m v calm (here, listed) =
    let (f, found, id, fits) = v.mapped p b here in
    let (disk, e, w) = calm_write p f.buffer.page m.disk fits (v.whole b f found) calm in
    let (after, e', r) = Returns-value (flush_pages entries (stepped m v p b here f found disk w)) (
      flush_pages-Flushing entries (stepped m v p b here f found disk w)
        (stepped-IsValid m v p b here f found disk w) (w.calm calm) listed) in
    rw (found, e, e') (Flushing-cons m v p b here f found disk w entries after r)

sync_calm : (disk : DiskManager) → disk.heap_file.faults ≡ [] → sync disk ≡ (ok tt, disk)
unfolding sync flush sync_all
sync_calm disk calm = rw calm

-- All pages of the table were written.
pub record Flushed (m : BufferPoolManager) (after : Result Error (Unit {0}) × BufferPoolManager)
    : Type 0 where
  pub ends : after.0 ≡ ok tt
  pub valid : IsValid after.1
  pub table : after.1.page_table ≡ m.page_table
  pub frames :
      (b : BufferId) (f : Frame)
      → frame_at m b ≡ some f
      → (g : Frame) × (frame_at after.1 b ≡ some g) × Saved f g × (g.buffer.is_dirty ≡ false)
  pub kept : (p : PageId) (q : Bytes) → contents m p ≡ some q → contents after.1 p ≡ some q
  pub durable : (p : PageId) (q : Bytes) → contents m p ≡ some q → disk_page after.1 p ≡ some q

clean_frame :
    (m after : BufferPoolManager) (v : IsValid after) (b : BufferId) (g : Frame)
    → after.page_table ≡ m.page_table
    → ((p : PageId) (b' : BufferId) (h : Frame)
        → lookup p m.page_table ≡ some b'
        → frame_at after b' ≡ some h
        → h.buffer.is_dirty ≡ false)
    → frame_at after b ≡ some g
    → g.buffer.is_dirty ≡ false
clean_frame m after v b g same clean e = elim (Bool-cases g.buffer.is_dirty) [
  | inl d ↦
      clean g.buffer.page_id b g
        (ap (lookup g.buffer.page_id) (sym same) ∙ v.owned b g e (v.dirty b g e d)) e
  | inr d ↦ d
]

-- With all pages written, the heap file is synced.
synced-Flushed :
    (m after : BufferPoolManager)
    → IsValid m
    → Flushing m.page_table m (ok tt, after)
    → Flushed m (ok tt, after)
synced-Flushed m after v r = record {
  ends = refl;
  valid = r.valid;
  table = r.table;
  frames = λ b f e.
      let (g, e', s) = r.frames b f e in
      (g, e', s, clean_frame m after r.valid b g r.table r.clean e');
  kept = r.kept;
  durable = λ p q h. elim (Option-cases (lookup p m.page_table)) [
    | inl e ↦ sym (contents_unmapped after p (ap (lookup p) r.table ∙ e)) ∙ r.kept p q h
    | inr (b, e) ↦
        let (g, e', id, fits) = r.valid.mapped p b (ap (lookup p) r.table ∙ e) in
        ap (disk_page after) (sym id)
        ∙ r.valid.clean b g e' (λ i. invalid_apart p fits (sym id ∙ i))
            (clean_frame m after r.valid b g r.table r.clean e')
        ∙ sym (contents_mapped after p b g (ap (lookup p) r.table ∙ e) e')
        ∙ r.kept p q h
  ];
}
  where
    invalid_apart : (p : PageId) → page_size * p < u64_end → p ≢ invalid_page_id
    invalid_apart p fits = λ i. absurd (omega (arith, fits, i))

calm_pages :
    (m : BufferPoolManager)
    → IsValid m
    → AreFound m.page_table m.page_table
    → m.disk.heap_file.faults ≡ []
    → (after : BufferPoolManager) × (flush_pages m.page_table m ≡ done (ok tt, after))
      × Flushing m.page_table m (ok tt, after)
calm_pages m v listed calm =
    let ((result, after), e, r) =
      Returns-value (flush_pages m.page_table m)
        (flush_pages-Flushing m.page_table m v calm listed) in
    let ended : result ≡ ok tt = r.ends in
    (
      after,
      e ∙ ap (λ x. done (x, after)) ended,
      subst (λ x. Flushing m.page_table m (x, after)) ended r,
    )

-- On a disk on which no call fails, `flush` of a well-formed manager, in whose table no entry hides
-- another, returns `ok`. Every page that the manager holds is then on the disk with those contents,
-- no buffer is dirty, nothing else of any frame has changed, the table is as before, and the
-- manager is well formed and holds the same pages.
pub flush-Flushed :
    (m : BufferPoolManager)
    → IsValid m
    → AreFound m.page_table m.page_table
    → m.disk.heap_file.faults ≡ []
    → Returns (Buffer.flush m) (Flushed m)
unfolding Buffer.flush
flush-Flushed m v listed calm =
    let (after, e, r) = calm_pages m v listed calm in
    rw (e, sync_calm after.disk r.calm) (synced-Flushed m after v r)
