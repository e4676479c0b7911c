-- ===== src/Buffer/Reuse.antt =====
-- src/buffer.rs: a frame is exchanged for one with the same buffer, as where a clone of the buffer
-- is handed out or dropped.
use relly.Prelude.{
  ◌<◌, ◌≡◌, inl, inr, refl, sym, ap, ◌∙◌, some, eq_cases, subst, length-set, get_elem?-set_self,
  get_elem?-set_ne, lt-of_get_elem?, Option-cases,
}
use relly.Disk.{PageId}
use relly.Buffer.Pool.{BufferId, Buffer, Frame, put_frame}
use relly.Buffer.{lookup, BufferPoolManager}
use relly.Buffer.Table.{set_cases}
use relly.Buffer.Valid.{IsValid, contents, frame_at, contents_mapped, contents_unmapped, same_frame}

module _ (m : BufferPoolManager) (v : IsValid m) (b : BufferId) (f : Frame)
    (found : frame_at m b ≡ some f) (g : Frame) (same : g.buffer ≡ f.buffer)
    (pin : 0 < g.handles → 0 < g.usage_count) where
  abbrev pub reused : BufferPoolManager
  reused = record m { pool = put_frame m.pool b g }

  pub reused_self : frame_at reused b ≡ some g
  reused_self = get_elem?-set_self m.pool.buffers b g (lt-of_get_elem? m.pool.buffers b f found)

  before :
      (b' : BufferId) (h : Frame)
      → frame_at reused b' ≡ some h
      → (k : Frame) × (frame_at m b' ≡ some k) × (h.buffer ≡ k.buffer)
  before b' h e = elim (set_cases m.pool.buffers b b' g h e) [
    | inl (here, k) ↦ (
      f,
      subst (λ x. frame_at m x ≡ some f) (sym here) found,
      ap (λ (x : Frame). x.buffer) k ∙ same,
    )
    | inr (there, k) ↦ (h, k, refl)
  ]

  after :
      (b' : BufferId) (k : Frame)
      → frame_at m b' ≡ some k
      → (h : Frame) × (frame_at reused b' ≡ some h) × (h.buffer ≡ k.buffer)
  after b' k e = elim (eq_cases b' b) [
    | inl here ↦
        let mine : frame_at m b ≡ some k = subst (λ x. frame_at m x ≡ some k) here e in
        (
          g,
          subst (λ x. frame_at reused x ≡ some g) (sym here) reused_self,
          same ∙ ap (λ (x : Frame). x.buffer) (sym (same_frame m b f k found mine)),
        )
    | inr there ↦ (k, get_elem?-set_ne m.pool.buffers b b' g (λ i. there (sym i)) ∙ e, refl)
  ]

  pub reused-IsValid : IsValid reused
  reused-IsValid = record {
    victim = rw (length-set m.pool.buffers b g) v.victim;
    mapped = λ p b' e.
        let (k, here, id, fits) = v.mapped p b' e in
        let (h, here', s) = after b' k here in
        (h, here', ap (λ (x : Buffer). x.page_id) s ∙ id, fits);
    owned = λ b' h e valid.
        let (k, here, s) = before b' h e in rw s (v.owned b' k here (rw s at valid));
    dirty = λ b' h e d. let (k, here, s) = before b' h e in rw s (v.dirty b' k here (rw s at d));
    clean = λ b' h e valid d.
        let (k, here, s) = before b' h e in rw s (v.clean b' k here (rw s at valid) (rw s at d));
    whole = λ b' h e. let (k, here, s) = before b' h e in rw s (v.whole b' k here);
    pinned = λ b' h e p. elim (set_cases m.pool.buffers b b' g h e) [
      | inl (here, k) ↦ rw k (pin (rw k at p))
      | inr (there, k) ↦ v.pinned b' h k p
    ];
  }

  pub reused-contents : (p : PageId) → contents reused p ≡ contents m p
  reused-contents p = elim (Option-cases (lookup p m.page_table)) [
    | inl e ↦ contents_unmapped reused p e ∙ sym (contents_unmapped m p e)
    | inr (b', e) ↦
        let (k, here, _, _) = v.mapped p b' e in
        let (h, here', s) = after b' k here in
        contents_mapped reused p b' h e here'
        ∙ ap (λ (x : Buffer). some (x.page)) s
        ∙ sym (contents_mapped m p b' k e here)
  ]
