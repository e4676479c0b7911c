-- ===== src/Buffer/Survived.antt =====
-- src/buffer.rs: `flush` on a disk on which any call may fail.
use relly.Prelude.{
  Bytes, length, ◌*◌, ◌<◌, ◌≡◌, inl, inr, refl, sym, ap, ◌∙◌, [], ◌∷◌, none, some, Returns,
  Returns-value, subst, Option-cases, done, List, ℕ,
}
use relly.Prelude.Exec.{Result, ok, err}
use relly.Disk.{DiskManager, PageId, page_size, u64_end, write_page_data, sync}
use relly.Disk.File.{IoError, Fault, flush, sync_all}
use relly.Disk.Pages.{Wrote, write_page_data-Wrote, page_at, facing}
use relly.Disk.Rewrites.{write_page_data-held}
use relly.Buffer.Pool.{BufferId, Frame}
use relly.Buffer.{
  PageTable, lookup, BufferPoolManager, Error, io, flush_written, flush_pages, synced,
}
use relly.Buffer
use relly.Buffer.Entries.{AreFound}
use relly.Buffer.Saved.{stepped, stepped-IsValid, stepped-frames, stepped-kept}
use relly.Buffer.Valid.{IsValid, contents, frame_at, contents_mapped, contents_unmapped}
use relly.Buffer.Stopped.{Survived, stopped-Survived, Survived-trans, ok-Survived}

-- How a write of a page ends.
record WriteEnds (p : PageId) (buf : Bytes) (disk : DiskManager)
    (after : Result IoError (Unit {0}) × DiskManager) : Type 0 where
  wrote : Wrote p buf disk after
  again :
      page_at disk.heap_file.content p ≡ some buf → page_at after.1.heap_file.content p ≡ some buf

write_ends :
    (p : PageId) (buf : Bytes) (disk : DiskManager)
    → page_size * p < u64_end
    → length buf ≡ page_size
    → (after : Result IoError (Unit {0}) × DiskManager) × (write_page_data p buf disk ≡ done after)
      × WriteEnds p buf disk after
write_ends p buf disk fits whole =
    let (after, e, w) =
      Returns-value (write_page_data p buf disk) (write_page_data-Wrote p buf disk fits whole) in
    (
      after,
      e,
      record {
        wrote = w;
        again = λ held. rw e at (write_page_data-held p buf disk fits whole held);
      },
    )

-- After the first entry, with what is known of the others.
flush_written-Survived :
    (m : BufferPoolManager) (p : PageId) (b : BufferId) (entries : PageTable) (f : Frame)
    → IsValid m
    → lookup p m.page_table ≡ some b
    → frame_at m b ≡ some f
    → (after : Result IoError (Unit {0}) × DiskManager) → WriteEnds p f.buffer.page m.disk after
    → ((n : BufferPoolManager)
        → IsValid n
        → n.page_table ≡ m.page_table
        → Returns (flush_pages entries n) (Survived n))
    → Returns
        (elim (flush_written b f m after).0 [
          | ok u ↦ flush_pages entries (flush_written b f m after).1
          | err e ↦ done (err e, (flush_written b f m after).1)
        ])
        (Survived m)
unfolding flush_written
flush_written-Survived m p b entries f v here found (ok u, disk) w later =
    let next : Survived m (ok u, stepped m v p b here f found disk w.wrote) = record {
      valid = stepped-IsValid m v p b here f found disk w.wrote;
      table = refl;
      frames = stepped-frames m v p b here f found disk w.wrote;
      kept = stepped-kept m v p b here f found disk w.wrote;
      failed = λ e h. cc;
    } in
    let (after, e, r) =
      Returns-value (flush_pages entries (stepped m v p b here f found disk w.wrote))
        (later (stepped m v p b here f found disk w.wrote) next.valid refl) in
    rw e (Survived-trans m (stepped m v p b here f found disk w.wrote) after next r)
flush_written-Survived m p b entries f v here found (err x, disk) w later =
    stopped-Survived m v p b here f found x disk w.wrote w.again

flush_pages-Survived :
    (entries : PageTable) (m : BufferPoolManager)
    → IsValid m
    → AreFound entries m.page_table
    → Returns (flush_pages entries m) (Survived m)
unfolding flush_pages
flush_pages-Survived [] m v listed = ok-Survived m v
flush_pages-Survived ((p, b) ∷ entries) m v (here, listed) =
    let (f, found, id, fits) = v.mapped p b here in
    let (after, e, w) = write_ends p f.buffer.page m.disk fits (v.whole b f found) in
    rw (found, e)
      (flush_written-Survived m p b entries f v here found after w λ n valid same.
        flush_pages-Survived entries n valid (subst (AreFound entries) (sym same) listed))

-- The sync changes no byte of the file.
sync_content :
    (content : Bytes) (cursor next : ℕ) (faults : List Fault)
    → (sync (facing 0 content cursor next faults)).1.heap_file.content ≡ content
unfolding sync flush sync_all
sync_content content cursor next [] = refl
sync_content content cursor next (none ∷ []) = refl
sync_content content cursor next (none ∷ none ∷ faults) = refl
sync_content content cursor next (none ∷ some k ∷ faults) = refl
sync_content content cursor next (some k ∷ faults) = refl

module _ (m n : BufferPoolManager) (s : Survived m (ok tt, n)) (disk : DiskManager)
    (same : disk.heap_file.content ≡ n.disk.heap_file.content) where
  abbrev moved_to : BufferPoolManager
  moved_to = record n { disk = disk }

  moved_to-kept : (p : PageId) → contents moved_to p ≡ contents n p
  moved_to-kept p = elim (Option-cases (lookup p n.page_table)) [
    | inl e ↦
        contents_unmapped moved_to p e ∙ ap (λ x. page_at x p) same ∙ sym (contents_unmapped n p e)
    | inr (b, e) ↦
        let (k, at_b, _, _) = s.valid.mapped p b e in
        contents_mapped moved_to p b k e at_b ∙ sym (contents_mapped n p b k e at_b)
  ]

  moved_to-Survived :
      (r : Result Error (Unit {0}))
      → ((e : Error) → r ≡ err e → (x : IoError) × (e ≡ io x))
      → Survived m (r, moved_to)
  moved_to-Survived r failed = record {
    valid = record {
      victim = s.valid.victim;
      mapped = s.valid.mapped;
      owned = s.valid.owned;
      dirty = s.valid.dirty;
      clean =
          λ b f e named d. ap (λ x. page_at x f.buffer.page_id) same ∙ s.valid.clean b f e named d;
      whole = s.valid.whole;
      pinned = s.valid.pinned;
    };
    table = s.table;
    frames = s.frames;
    kept = λ p q h. moved_to-kept p ∙ s.kept p q h;
    failed = failed;
  }

synced-Survived :
    (m n : BufferPoolManager)
    → Survived m (ok tt, n)
    → (after : Result IoError (Unit {0}) × DiskManager)
    → after.1.heap_file.content ≡ n.disk.heap_file.content
    → Survived m (synced n after)
synced-Survived m n s (ok u, disk) same = moved_to-Survived m n s disk same (ok tt) (λ e h. cc)
synced-Survived m n s (err x, disk) same =
    moved_to-Survived m n s disk same (err (io x)) (λ e h. (x, cc))

-- With the pages written, or not all of them.
ended-Survived :
    (m : BufferPoolManager) (after : Result Error (Unit {0}) × BufferPoolManager)
    → Survived m after
    → Returns
        (elim after.0 [
          | ok u ↦ done (synced after.1 (sync after.1.disk))
          | err e ↦ done (err e, after.1)
        ])
        (Survived m)
ended-Survived m (ok u, n) s =
    let disk = n.disk in
    synced-Survived m n s (sync n.disk) (
      sync_content disk.heap_file.content disk.heap_file.cursor disk.next_page_id
        disk.heap_file.faults)
ended-Survived m (err e, n) s = s

-- Whatever calls of the disk fail, `flush` of a well-formed manager in whose table no entry hides
-- another returns, and an error that it returns is one of the disk. Each page that the manager held
-- is held with the same contents, also where its write failed halfway; the manager is well formed,
-- with the same table; and the frames are as before, except that a buffer may be dirty no longer.
pub flush-Survived :
    (m : BufferPoolManager)
    → IsValid m
    → AreFound m.page_table m.page_table
    → Returns (Buffer.flush m) (Survived m)
unfolding Buffer.flush
flush-Survived m v listed =
    let (after, e, s) =
      Returns-value (flush_pages m.page_table m) (flush_pages-Survived m.page_table m v listed) in
    rw e (ended-Survived m after s)
