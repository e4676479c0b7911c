-- ===== src/Buffer/Handles.antt =====
-- src/buffer.rs: what clients do through the clones that they were handed.
use relly.Prelude.{
  ◌-◌, ◌<◌, ◌≡◌, ◌≢◌, inl, inr, refl, sym, ap, ◌∙◌, Bytes, length, some, arith, eq_cases, subst,
  true, length-set, get_elem?-set_self, get_elem?-set_ne, lt-of_get_elem?, Option-cases, Returns,
  done, ◌>>=◌, set, [], ◌∷◌, zero, suc, List,
}
use relly.Disk.{PageId, page_size, invalid_page_id}
use relly.Buffer.Pool.{BufferId, Frame, put_frame}
use relly.Buffer.{lookup, BufferPoolManager, drop_handle, write_page, set_dirty}
use relly.Buffer.Table.{set_cases}
use relly.Buffer.Valid.{IsValid, contents, frame_at, contents_mapped, contents_unmapped, same_frame}
use relly.Buffer.Reuse.{reused_self, reused-IsValid, reused-contents}

-- A clone was dropped: only a count has changed.
pub record Dropped (b : BufferId) (f : Frame) (m after : BufferPoolManager) : Type 0 where
  pub valid : IsValid after
  pub frame : frame_at after b ≡ some (record f { handles = f.handles - 1 })
  pub kept : (p : PageId) → contents after p ≡ contents m p
  pub others : (b' : BufferId) → b' ≢ b → frame_at after b' ≡ frame_at m b'
  pub disk : after.disk ≡ m.disk

-- Dropping a clone lowers that buffer's count of clones and changes no other frame, nor the disk;
-- it keeps a manager well formed and every page as it was.
pub drop_handle-Dropped :
    (m : BufferPoolManager) (b : BufferId) (f : Frame)
    → IsValid m
    → frame_at m b ≡ some f
    → Returns (drop_handle b m) (Dropped b f m)
unfolding drop_handle
drop_handle-Dropped m b f v found =
    let g : Frame = record f { handles = f.handles - 1 } in
    let pin : 0 < g.handles → 0 < g.usage_count = λ h. v.pinned b f found (omega arith) in
    rw found (record {
      valid = reused-IsValid m v b f found g refl pin;
      frame = reused_self m v b f found g refl pin;
      kept = reused-contents m v b f found g refl pin;
      others = λ b' ne. get_elem?-set_ne m.pool.buffers b b' g (λ e. ne (sym e));
      disk = refl;
    })

set-set :
    (frames : List Frame) (b : BufferId) (f g : Frame) → set (set frames b f) b g ≡ set frames b g
set-set [] b f g = refl
set-set (x ∷ frames) zero f g = refl
set-set (x ∷ frames) (suc b) f g = ap (λ xs. x ∷ xs) (set-set frames b f g)

module _ (m : BufferPoolManager) (v : IsValid m) (b : BufferId) (f : Frame)
    (found : frame_at m b ≡ some f) (named : f.buffer.page_id ≢ invalid_page_id) (page : Bytes)
    (full : length page ≡ page_size) where
  abbrev written_frame : Frame
  written_frame = record f { buffer = record (f.buffer) { page = page; is_dirty = true } }

  abbrev written : BufferPoolManager
  written = record m { pool = put_frame m.pool b written_frame }

  written_self : frame_at written b ≡ some written_frame
  written_self =
      get_elem?-set_self m.pool.buffers b written_frame (lt-of_get_elem? m.pool.buffers b f found)

  written_ne : (b' : BufferId) → b' ≢ b → frame_at written b' ≡ frame_at m b'
  written_ne b' ne = get_elem?-set_ne m.pool.buffers b b' written_frame (λ e. ne (sym e))

  written-mapped :
      (b' : BufferId) (k : Frame)
      → frame_at m b' ≡ some k
      → (h : Frame) × (frame_at written b' ≡ some h) × (h.buffer.page_id ≡ k.buffer.page_id)
  written-mapped b' k e = elim (eq_cases b' b) [
    | inl here ↦
        let mine : frame_at m b ≡ some k = subst (λ x. frame_at m x ≡ some k) here e in
        (
          written_frame,
          subst (λ x. frame_at written x ≡ some written_frame) (sym here) written_self,
          ap (λ (x : Frame). x.buffer.page_id) (sym (same_frame m b f k found mine)),
        )
    | inr there ↦ (k, written_ne b' there ∙ e, refl)
  ]

  written-IsValid : IsValid written
  written-IsValid = record {
    victim = rw (length-set m.pool.buffers b written_frame) v.victim;
    mapped = λ p b' e.
        let (k, here, id, fits) = v.mapped p b' e in
        let (h, here', s) = written-mapped b' k here in (h, here', s ∙ id, fits);
    owned = λ b' h e valid. elim (set_cases m.pool.buffers b b' written_frame h e) [
      | inl (here, k) ↦ rw (here, k) (v.owned b f found named)
      | inr (there, k) ↦ v.owned b' h k valid
    ];
    dirty = λ b' h e d. elim (set_cases m.pool.buffers b b' written_frame h e) [
      | inl (here, k) ↦ rw k named
      | inr (there, k) ↦ v.dirty b' h k d
    ];
    clean = λ b' h e valid d. elim (set_cases m.pool.buffers b b' written_frame h e) [
      | inl (here, k) ↦ cc
      | inr (there, k) ↦ v.clean b' h k valid d
    ];
    whole = λ b' h e. elim (set_cases m.pool.buffers b b' written_frame h e) [
      | inl (here, k) ↦ rw k full
      | inr (there, k) ↦ v.whole b' h k
    ];
    pinned = λ b' h e p. elim (set_cases m.pool.buffers b b' written_frame h e) [
      | inl (here, k) ↦ rw k (v.pinned b f found (rw k at p))
      | inr (there, k) ↦ v.pinned b' h k p
    ];
  }

  written-contents_self : contents written f.buffer.page_id ≡ some page
  written-contents_self =
      contents_mapped written f.buffer.page_id b written_frame (v.owned b f found named)
        written_self

  written-contents_ne : (p : PageId) → p ≢ f.buffer.page_id → contents written p ≡ contents m p
  written-contents_ne p ne = elim (Option-cases (lookup p m.page_table)) [
    | inl e ↦ contents_unmapped written p e ∙ sym (contents_unmapped m p e)
    | inr (b', e) ↦
        let (k, here, id, _) = v.mapped p b' e in
        let apart : b' ≢ b = λ i. ne (
          sym id
          ∙ ap (λ (x : Frame). x.buffer.page_id)
              (same_frame m b f k found (subst (λ x. frame_at m x ≡ some k) i here))) in
        contents_mapped written p b' k e (written_ne b' apart ∙ here)
        ∙ sym (contents_mapped m p b' k e here)
  ]

-- A page was written through a clone.
pub record PageWritten (id : PageId) (page : Bytes) (m after : BufferPoolManager) : Type 0 where
  pub valid : IsValid after
  pub held : contents after id ≡ some page
  pub others : (p : PageId) → p ≢ id → contents after p ≡ contents m p

-- Writing a whole page through a clone of the buffer of a page, and marking the buffer as dirty,
-- keep a manager well formed, make those bytes the page's contents, and leave every other page as
-- it was.
pub write_page-PageWritten :
    (m : BufferPoolManager) (b : BufferId) (f : Frame) (page : Bytes)
    → IsValid m
    → frame_at m b ≡ some f
    → f.buffer.page_id ≢ invalid_page_id
    → length page ≡ page_size
    → (after : BufferPoolManager) × (write_page b page m >>= set_dirty b ≡ done after)
      × PageWritten f.buffer.page_id page m after
      × (frame_at after b
          ≡ some (record f { buffer = record (f.buffer) { page = page; is_dirty = true } }))
      × ((b' : BufferId) → b' ≢ b → frame_at after b' ≡ frame_at m b')
      × (after.disk ≡ m.disk)
unfolding write_page set_dirty
write_page-PageWritten m b f page v found named full =
    let g : Frame = record f { buffer = record (f.buffer) { page = page } } in
    let there = get_elem?-set_self m.pool.buffers b g (lt-of_get_elem? m.pool.buffers b f found) in
    let h = written_frame m v b f found named page full in
    (
      written m v b f found named page full,
      rw (found, there, set-set m.pool.buffers b g h) refl,
      record {
        valid = written-IsValid m v b f found named page full;
        held = written-contents_self m v b f found named page full;
        others = written-contents_ne m v b f found named page full;
      },
      written_self m v b f found named page full,
      written_ne m v b f found named page full,
      refl,
    )
