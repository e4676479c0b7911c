-- ===== src/Buffer/Victim.antt =====
-- src/buffer.rs: a victim is written back before its frame is used anew.
use relly.Prelude.{
  ◌*◌, ◌<◌, ◌≡◌, ◌≢◌, inl, inr, refl, sym, ap, ◌∙◌, [], Bool-cases, true, false, none, some,
  Returns, done, if◌then◌else◌, Returns-value, eq_cases,
}
use relly.Prelude.Exec.{Result, ok}
use relly.Disk.{PageId, DiskManager, page_size, invalid_page_id, u64_end, write_page_data}
use relly.Disk.File.{IoError}
use relly.Disk.Pages.{Wrote, write_page_data-Wrote}
use relly.Buffer.Pool.{BufferId, Buffer, Frame}
use relly.Buffer.{lookup, BufferPoolManager, write_back}
use relly.Buffer.Valid.{IsValid, frame_at}
use relly.Buffer.Remap.{Backed}

-- What writing a victim back does: where it succeeds, the disk holds the victim's page and all
-- other pages, and it succeeds on a disk on which no call fails.
pub record WroteBack (m : BufferPoolManager) (buffer : Buffer)
    (after : Result IoError (Unit {0}) × DiskManager) : Type 0 where
  pub backed : after.0 ≡ ok tt → Backed m buffer after.1
  pub quiet : m.disk.heap_file.faults ≡ [] → after.0 ≡ ok tt
  pub calm : m.disk.heap_file.faults ≡ [] → after.1.heap_file.faults ≡ []
  pub next_page_id : after.1.next_page_id ≡ m.disk.next_page_id

module _ (m : BufferPoolManager) (v : IsValid m) (b : BufferId) (f : Frame)
    (found : frame_at m b ≡ some f) where
  pub offset_fits : f.buffer.page_id ≢ invalid_page_id → page_size * f.buffer.page_id < u64_end
  offset_fits valid =
      let (g, _, _, fits) = v.mapped f.buffer.page_id b (v.owned b f found valid) in fits

  dirty-WroteBack :
      f.buffer.page_id ≢ invalid_page_id
      → (after : Result IoError (Unit {0}) × DiskManager)
      → Wrote f.buffer.page_id f.buffer.page m.disk after
      → WroteBack m f.buffer after
  dirty-WroteBack valid after w = record {
    backed = λ e. record {
      others = λ j c apart held. w.others j c (λ same. valid (apart same)) held;
      held = λ i. w.held e;
    };
    quiet = λ q. w.quiet (rw q (refl, refl));
    calm = w.calm;
    next_page_id = w.next_page_id;
  }

  clean-WroteBack : f.buffer.is_dirty ≡ false → WroteBack m f.buffer (ok tt, m.disk)
  clean-WroteBack d = record {
    backed =
        λ e. record { others = λ j c apart held. held; held = λ valid. v.clean b f found valid d };
    quiet = λ q. refl;
    calm = λ q. q;
    next_page_id = refl;
  }

  write_back_dirty :
      f.buffer.is_dirty ≡ true
      → write_back f.buffer m.disk ≡ write_page_data f.buffer.page_id f.buffer.page m.disk
  unfolding write_back
  write_back_dirty d =
      ap
        (λ x.
          if x then write_page_data f.buffer.page_id f.buffer.page m.disk else done (ok tt, m.disk))
        d

  pub write_back_clean :
      f.buffer.is_dirty ≡ false → write_back f.buffer m.disk ≡ done (ok tt, m.disk)
  unfolding write_back
  write_back_clean d =
      ap
        (λ x.
          if x then write_page_data f.buffer.page_id f.buffer.page m.disk else done (ok tt, m.disk))
        d

  pub write_back-WroteBack : Returns (write_back f.buffer m.disk) (WroteBack m f.buffer)
  write_back-WroteBack = elim (Bool-cases f.buffer.is_dirty) [
    | inl d ↦
        let valid = v.dirty b f found d in
        let (after, e, w) = Returns-value (write_page_data f.buffer.page_id f.buffer.page m.disk) (
          write_page_data-Wrote f.buffer.page_id f.buffer.page m.disk (offset_fits valid)
            (v.whole b f found)) in
        rw (write_back_dirty d, e) (dirty-WroteBack valid after w)
    | inr d ↦ rw (write_back_clean d) (clean-WroteBack d)
  ]

  -- A page that the table does not map is not the victim's.
  pub unmapped_victim :
      (p : PageId)
      → lookup p m.page_table ≡ none
      → p ≡ f.buffer.page_id
      → f.buffer.page_id ≡ invalid_page_id
  unmapped_victim p absent same = elim (eq_cases f.buffer.page_id invalid_page_id) [
    | inl i ↦ i
    | inr valid ↦
        let own = v.owned b f found valid in
        let both : none ≡ some b = sym absent ∙ ap (λ x. lookup x m.page_table) same ∙ own in cc
  ]
