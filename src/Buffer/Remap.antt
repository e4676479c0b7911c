-- ===== src/Buffer/Remap.antt =====
-- src/buffer.rs: a victim's frame is given to another page. Its own page is on disk by then.
use relly.Prelude.{
  some_injective, eq_cases, ◌*◌, ◌<◌, ◌≡◌, ◌≢◌, ◌⊎◌, inl, inr, sym, ap, ◌∙◌, Bytes, length, false,
  none, some, arith, length-set, get_elem?-set_self, get_elem?-set_ne, lt-of_get_elem?,
  Option-cases, ◌==◌, if◌then◌else◌, subst,
}
use relly.Disk.{PageId, page_size, invalid_page_id, u64_end, DiskManager}
use relly.Disk.Pages.{page_at}
use relly.Buffer.Pool.{BufferId, Buffer, Frame, put_frame}
use relly.Buffer.{lookup, insert, remove, BufferPoolManager, handed_out}
use relly.Buffer.Table.{lookup-remove, lookup-insert, set_cases}
use relly.Buffer.Valid.{
  IsValid, contents, frame_at, disk_page, contents_mapped, contents_unmapped, same_frame,
}

-- The disk holds what `m`'s disk held, but for the page of the victim's buffer, which it holds as
-- the buffer does.
pub record Backed (m : BufferPoolManager) (buffer : Buffer) (disk : DiskManager) : Type 0 where
  pub others :
      (j : PageId) (c : Bytes)
      → (j ≡ buffer.page_id → buffer.page_id ≡ invalid_page_id)
      → disk_page m j ≡ some c
      → page_at disk.heap_file.content j ≡ some c
  pub held :
      buffer.page_id ≢ invalid_page_id
      → page_at disk.heap_file.content buffer.page_id ≡ some buffer.page

-- The new page of the frame.
pub record Fits (m : BufferPoolManager) (buffer : Buffer) (disk : DiskManager) : Type 0 where
  pub unmapped : lookup buffer.page_id m.page_table ≡ none
  pub offset : page_size * buffer.page_id < u64_end
  pub whole : length buffer.page ≡ page_size
  pub clean :
      buffer.is_dirty ≡ false → page_at disk.heap_file.content buffer.page_id ≡ some buffer.page
  pub agrees : (c : Bytes) → disk_page m buffer.page_id ≡ some c → buffer.page ≡ c

module _ (m : BufferPoolManager) (v : IsValid m) (b : BufferId) (f : Frame)
    (found : frame_at m b ≡ some f) (disk : DiskManager) (buffer : Buffer)
    (backed : Backed m f.buffer disk) (fits : Fits m buffer disk) where
  abbrev pub remapped : BufferPoolManager
  remapped = record {
    disk = disk;
    pool = put_frame m.pool b (handed_out 1 buffer f.handles);
    page_table = insert buffer.page_id b (remove f.buffer.page_id m.page_table);
  }

  lookup-remapped :
      (p : PageId)
      → lookup p remapped.page_table ≡ (
          if p == buffer.page_id
          then some b
          else if p == f.buffer.page_id
          then none
          else lookup p m.page_table)
  lookup-remapped p =
      lookup-insert p buffer.page_id b (remove f.buffer.page_id m.page_table)
      ∙ rw (lookup-remove p f.buffer.page_id m.page_table)

  pub lookup_self : lookup buffer.page_id remapped.page_table ≡ some b
  lookup_self = lookup-remapped buffer.page_id ∙ ground arith

  -- A page that is mapped now is the new one, or was mapped to the same frame.
  mapped_cases :
      (p : PageId) (b' : BufferId)
      → lookup p remapped.page_table ≡ some b'
      → (p ≡ buffer.page_id) × (b' ≡ b) ⊎ (p ≢ f.buffer.page_id) × (lookup p m.page_table ≡ some b')
  mapped_cases p b' h = ground (arith, lookup-remapped p)

  new_valid : buffer.page_id ≢ invalid_page_id
  new_valid e = omega (arith, fits.offset)

  pub frame_self : frame_at remapped b ≡ some (handed_out 1 buffer f.handles)
  frame_self =
      get_elem?-set_self m.pool.buffers b (handed_out 1 buffer f.handles)
        (lt-of_get_elem? m.pool.buffers b f found)

  pub frame_ne : (b' : BufferId) → b' ≢ b → frame_at remapped b' ≡ frame_at m b'
  frame_ne b' ne =
      get_elem?-set_ne m.pool.buffers b b' (handed_out 1 buffer f.handles) (λ e. ne (sym e))

  -- A page that stays mapped is in another frame.
  other_frame :
      (p : PageId) (b' : BufferId) → p ≢ f.buffer.page_id → lookup p m.page_table ≡ some b' → b' ≢ b
  other_frame p b' ne h e =
      let (g, found', id, _) = v.mapped p b' h in
      let here : frame_at m b ≡ some g = subst (λ x. frame_at m x ≡ some g) e found' in
      let k : g ≡ f = same_frame m b f g found here in
      ne (sym id ∙ ap (λ (x : Frame). x.buffer.page_id) k)

  -- A frame is the new one, or stands where it stood.
  frame_cases :
      (b' : BufferId) (g : Frame)
      → frame_at remapped b' ≡ some g
      → (b' ≡ b) × (g ≡ handed_out 1 buffer f.handles) ⊎ (b' ≢ b) × (frame_at m b' ≡ some g)
  frame_cases b' g h = set_cases m.pool.buffers b b' (handed_out 1 buffer f.handles) g h

  -- The page of another frame is neither the new page nor the victim's.
  other_page :
      (b' : BufferId) (g : Frame)
      → b' ≢ b
      → frame_at m b' ≡ some g
      → g.buffer.page_id ≢ invalid_page_id
      → (g.buffer.page_id ≢ buffer.page_id) × (g.buffer.page_id ≢ f.buffer.page_id)
  other_page b' g ne h valid =
      let own = v.owned b' g h valid in
      (
        (λ e. cc (ap (λ x. lookup x m.page_table) e, own, fits.unmapped)),
        λ e.
            let mine = v.owned b f found (λ i. valid (e ∙ i)) in
            ne (some_injective (sym own ∙ ap (λ x. lookup x m.page_table) e ∙ mine)),
      )

  lookup-remapped_other :
      (p : PageId)
      → p ≢ buffer.page_id
      → p ≢ f.buffer.page_id
      → lookup p remapped.page_table ≡ lookup p m.page_table
  lookup-remapped_other p h k = ground (arith, lookup-remapped p)

  remapped-mapped :
      (p : PageId) (b' : BufferId)
      → lookup p remapped.page_table ≡ some b'
      → (g : Frame) × (frame_at remapped b' ≡ some g)
        × (g.buffer.page_id ≡ p)
        × (page_size * p < u64_end)
  remapped-mapped p b' h = elim (mapped_cases p b' h) [
    | inl (e, k) ↦ (handed_out 1 buffer f.handles, rw k frame_self, sym e, rw e fits.offset)
    | inr (ne, k) ↦
        let (g, found', id, offset) = v.mapped p b' k in
        (g, frame_ne b' (other_frame p b' ne k) ∙ found', id, offset)
  ]

  remapped-owned :
      (b' : BufferId) (g : Frame)
      → frame_at remapped b' ≡ some g
      → g.buffer.page_id ≢ invalid_page_id
      → lookup g.buffer.page_id remapped.page_table ≡ some b'
  remapped-owned b' g h valid = elim (frame_cases b' g h) [
    | inl (e, k) ↦ rw (e, k) lookup_self
    | inr (ne, k) ↦
        let (a, c) = other_page b' g ne k valid in
        lookup-remapped_other g.buffer.page_id a c ∙ v.owned b' g k valid
  ]

  remapped-clean :
      (b' : BufferId) (g : Frame)
      → frame_at remapped b' ≡ some g
      → g.buffer.page_id ≢ invalid_page_id
      → g.buffer.is_dirty ≡ false
      → disk_page remapped g.buffer.page_id ≡ some g.buffer.page
  remapped-clean b' g h valid d = elim (frame_cases b' g h) [
    | inl (e, k) ↦ rw k (fits.clean (rw k at d))
    | inr (ne, k) ↦
        backed.others g.buffer.page_id g.buffer.page
          (λ e. absurd ((other_page b' g ne k valid).1 e)) (v.clean b' g k valid d)
  ]

  pub remapped-IsValid : IsValid remapped
  remapped-IsValid = record {
    victim = rw (length-set m.pool.buffers b (handed_out 1 buffer f.handles)) v.victim;
    mapped = remapped-mapped;
    owned = remapped-owned;
    dirty = λ b' g h d. elim (frame_cases b' g h) [
      | inl (e, k) ↦ rw k new_valid
      | inr (ne, k) ↦ v.dirty b' g k d
    ];
    clean = remapped-clean;
    whole = λ b' g h. elim (frame_cases b' g h) [
      | inl (e, k) ↦ rw k fits.whole
      | inr (ne, k) ↦ v.whole b' g k
    ];
    pinned = λ b' g h p. elim (frame_cases b' g h) [
      | inl (e, k) ↦ rw k (omega arith)
      | inr (ne, k) ↦ v.pinned b' g k p
    ];
  }

  -- A page that was mapped: it is now in the same frame, or was the victim's.
  contents_was_mapped :
      (p : PageId) (b' : BufferId) (c : Bytes)
      → lookup p m.page_table ≡ some b'
      → contents m p ≡ some c
      → contents remapped p ≡ some c
  contents_was_mapped p b' c e h =
      let (g, found', id, offset) = v.mapped p b' e in
      let new : p ≢ buffer.page_id =
        λ k. cc (ap (λ x. lookup x m.page_table) k, e, fits.unmapped) in
      let valid : p ≢ invalid_page_id = λ k. omega arith in
      let g_is_c : some g.buffer.page ≡ some c = sym (contents_mapped m p b' g e found') ∙ h in
      elim (eq_cases p f.buffer.page_id) [
        | inl k ↦
            let own = v.owned b f found (λ i. valid (k ∙ i)) in
            let there : b' ≡ b = some_injective (sym e ∙ ap (λ x. lookup x m.page_table) k ∙ own) in
            let same : g ≡ f =
              same_frame m b f g found (subst (λ x. frame_at m x ≡ some g) there found') in
            let gone : lookup p remapped.page_table ≡ none = ground (arith, lookup-remapped p) in
            contents_unmapped remapped p gone
            ∙ ap (λ x. disk_page remapped x) k
            ∙ backed.held (λ i. valid (k ∙ i))
            ∙ ap (λ (x : Frame). some (x.buffer.page)) (sym same)
            ∙ g_is_c
        | inr k ↦
            contents_mapped remapped p b' g (lookup-remapped_other p new k ∙ e)
              (frame_ne b' (other_frame p b' k e) ∙ found')
            ∙ g_is_c
      ]

  -- A page that was on disk alone: it is now in the frame, or still there.
  contents_was_unmapped :
      (p : PageId) (c : Bytes)
      → lookup p m.page_table ≡ none
      → contents m p ≡ some c
      → contents remapped p ≡ some c
  contents_was_unmapped p c e h =
      let stored : disk_page m p ≡ some c = sym (contents_unmapped m p e) ∙ h in
      elim (eq_cases p buffer.page_id) [
        | inl k ↦
            contents_mapped remapped p b (handed_out 1 buffer f.handles)
              (ap (λ x. lookup x remapped.page_table) k ∙ lookup_self) frame_self
            ∙ ap some (fits.agrees c (ap (λ x. disk_page m x) (sym k) ∙ stored))
        | inr k ↦
            let gone : lookup p remapped.page_table ≡ none = ground (arith, lookup-remapped p) in
            contents_unmapped remapped p gone ∙ backed.others p c (stale p e) stored
      ]
    where
      stale :
          (q : PageId)
          → lookup q m.page_table ≡ none
          → q ≡ f.buffer.page_id
          → f.buffer.page_id ≡ invalid_page_id
      stale q e k = elim (eq_cases f.buffer.page_id invalid_page_id) [
        | inl i ↦ i
        | inr i ↦
            let own = v.owned b f found i in
            let both : none ≡ some b = sym e ∙ ap (λ x. lookup x m.page_table) k ∙ own in cc
      ]

  -- No page is lost or changed.
  pub remapped-contents :
      (p : PageId) (c : Bytes) → contents m p ≡ some c → contents remapped p ≡ some c
  remapped-contents p c h = elim (Option-cases (lookup p m.page_table)) [
    | inl e ↦ contents_was_unmapped p c e h
    | inr (b', e) ↦ contents_was_mapped p b' c e h
  ]
