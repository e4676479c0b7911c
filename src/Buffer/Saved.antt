-- ===== src/Buffer/Saved.antt =====
-- src/buffer.rs: one page is written by `flush`, whose buffer is then no longer dirty.
use relly.Prelude.{
  Bytes, ◌≡◌, ◌≢◌, inl, inr, refl, sym, ap, ◌∙◌, [], ◌∷◌, false, none, some, arith, eq_cases, subst,
  length-set, get_elem?-set_self, get_elem?-set_ne, lt-of_get_elem?, Option-cases, ◌==◌,
  if◌then◌else◌,
}
use relly.Prelude.Exec.{Result, ok}
use relly.Disk.{DiskManager, PageId}
use relly.Disk.Pages.{Wrote}
use relly.Buffer.Pool.{BufferId, Frame, put_frame}
use relly.Buffer.{PageTable, lookup, BufferPoolManager, Error}
use relly.Buffer.Table.{set_cases}
use relly.Buffer.Valid.{IsValid, contents, frame_at, contents_mapped, contents_unmapped, same_frame}

-- A frame is as before, but that its buffer may no longer be dirty.
pub record Saved (f g : Frame) : Type 0 where
  pub usage_count : g.usage_count ≡ f.usage_count
  pub handles : g.handles ≡ f.handles
  pub page_id : g.buffer.page_id ≡ f.buffer.page_id
  pub page : g.buffer.page ≡ f.buffer.page
  pub clean : f.buffer.is_dirty ≡ false → g.buffer.is_dirty ≡ false

pub same-Saved : (f : Frame) → Saved f f
same-Saved f = record {
  usage_count = refl;
  handles = refl;
  page_id = refl;
  page = refl;
  clean = λ h. h;
}

pub Saved-trans : (f g h : Frame) → Saved f g → Saved g h → Saved f h
Saved-trans f g h r s = record {
  usage_count = s.usage_count ∙ r.usage_count;
  handles = s.handles ∙ r.handles;
  page_id = s.page_id ∙ r.page_id;
  page = s.page ∙ r.page;
  clean = λ k. s.clean (r.clean k);
}

-- The pages of `entries` were written.
pub record Flushing (entries : PageTable) (m : BufferPoolManager)
    (after : Result Error (Unit {0}) × BufferPoolManager) : Type 0 where
  pub ends : after.0 ≡ ok tt
  pub valid : IsValid after.1
  pub table : after.1.page_table ≡ m.page_table
  pub calm : after.1.disk.heap_file.faults ≡ []
  pub frames :
      (b : BufferId) (f : Frame)
      → frame_at m b ≡ some f
      → (g : Frame) × (frame_at after.1 b ≡ some g) × Saved f g
  pub clean :
      (p : PageId) (b : BufferId) (g : Frame)
      → lookup p entries ≡ some b
      → frame_at after.1 b ≡ some g
      → g.buffer.is_dirty ≡ false
  pub kept : (p : PageId) (q : Bytes) → contents m p ≡ some q → contents after.1 p ≡ some q

-- One page is written.
module _ (m : BufferPoolManager) (v : IsValid m) (p : PageId) (b : BufferId)
    (here : lookup p m.page_table ≡ some b) (f : Frame) (found : frame_at m b ≡ some f)
    (disk : DiskManager) (wrote : Wrote p f.buffer.page m.disk (ok tt, disk)) where
  abbrev cleaned : Frame
  cleaned = record f { buffer = record (f.buffer) { is_dirty = false } }

  abbrev pub stepped : BufferPoolManager
  stepped = record m { disk = disk; pool = put_frame m.pool b cleaned }

  stepped_self : frame_at stepped b ≡ some cleaned
  stepped_self =
      get_elem?-set_self m.pool.buffers b cleaned (lt-of_get_elem? m.pool.buffers b f found)

  cleaned-Saved : Saved f cleaned
  cleaned-Saved = record {
    usage_count = refl;
    handles = refl;
    page_id = refl;
    page = refl;
    clean = λ h. refl;
  }

  named : f.buffer.page_id ≡ p
  named =
      let (k, at_b, id, _) = v.mapped p b here in
      ap (λ (x : Frame). x.buffer.page_id) (sym (same_frame m b f k found at_b)) ∙ id

  pub stepped-frames :
      (b' : BufferId) (k : Frame)
      → frame_at m b' ≡ some k
      → (g : Frame) × (frame_at stepped b' ≡ some g) × Saved k g
  stepped-frames b' k e = elim (eq_cases b' b) [
    | inl same ↦
        let mine : k ≡ f = same_frame m b f k found (subst (λ x. frame_at m x ≡ some k) same e) in
        (
          cleaned,
          subst (λ x. frame_at stepped x ≡ some cleaned) (sym same) stepped_self,
          rw mine cleaned-Saved,
        )
    | inr apart ↦
        (k, get_elem?-set_ne m.pool.buffers b b' cleaned (λ i. apart (sym i)) ∙ e, same-Saved k)
  ]

  stepped-before :
      (b' : BufferId) (g : Frame)
      → frame_at stepped b' ≡ some g
      → (k : Frame) × (frame_at m b' ≡ some k) × Saved k g
  stepped-before b' g e = elim (set_cases m.pool.buffers b b' cleaned g e) [
    | inl (same, k) ↦ (f, subst (λ x. frame_at m x ≡ some f) (sym same) found, rw k cleaned-Saved)
    | inr (apart, k) ↦ (g, k, same-Saved g)
  ]

  pub stepped-IsValid : IsValid stepped
  stepped-IsValid = record {
    victim = rw (length-set m.pool.buffers b cleaned) v.victim;
    mapped = λ p' b' e.
        let (k, at_b, id, fits) = v.mapped p' b' e in
        let (g, at_b', s) = stepped-frames b' k at_b in (g, at_b', s.page_id ∙ id, fits);
    owned = λ b' g e valid.
        let (k, at_b, s) = stepped-before b' g e in
        rw s.page_id (v.owned b' k at_b (rw s.page_id at valid));
    dirty = λ b' g e d. elim (set_cases m.pool.buffers b b' cleaned g e) [
      | inl (same, k) ↦ cc
      | inr (apart, k) ↦ v.dirty b' g k d
    ];
    clean = λ b' g e valid d. elim (set_cases m.pool.buffers b b' cleaned g e) [
      | inl (same, k) ↦ rw (k, named) (wrote.held refl)
      | inr (apart, k) ↦
          wrote.others g.buffer.page_id g.buffer.page
            (λ i. apart (
              some_eq b' b (sym (v.owned b' g k valid) ∙ ap (λ x. lookup x m.page_table) i ∙ here)))
            (v.clean b' g k valid d)
    ];
    whole = λ b' g e. let (k, at_b, s) = stepped-before b' g e in rw s.page (v.whole b' k at_b);
    pinned = λ b' g e h.
        let (k, at_b, s) = stepped-before b' g e in
        let used = v.pinned b' k at_b (omega (arith, s.handles)) in omega (arith, s.usage_count);
  }
    where
      some_eq : (x y : BufferId) → some x ≡ some y → x ≡ y
      some_eq x y h = cc

  pub stepped-kept :
      (p' : PageId) (q : Bytes) → contents m p' ≡ some q → contents stepped p' ≡ some q
  stepped-kept p' q h = elim (Option-cases (lookup p' m.page_table)) [
    | inl e ↦
        contents_unmapped stepped p' e
        ∙ wrote.others p' q (λ i. absent_eq b (sym e ∙ ap (λ x. lookup x m.page_table) i ∙ here))
            (sym (contents_unmapped m p' e) ∙ h)
    | inr (b', e) ↦
        let (k, at_b, _, _) = v.mapped p' b' e in
        let (g, at_b', s) = stepped-frames b' k at_b in
        contents_mapped stepped p' b' g e at_b'
        ∙ ap some s.page
        ∙ sym (contents_mapped m p' b' k e at_b)
        ∙ h
  ]
    where
      absent_eq : (x : BufferId) → none ≡ some x → ⊥
      absent_eq x i = cc

  -- The entries that follow are written too.
  pub Flushing-cons :
      (entries : PageTable) (after : Result Error (Unit {0}) × BufferPoolManager)
      → Flushing entries stepped after
      → Flushing ((p, b) ∷ entries) m after
  unfolding lookup
  Flushing-cons entries after r = record {
    ends = r.ends;
    valid = r.valid;
    table = r.table;
    calm = r.calm;
    frames = λ b' k e.
        let (g, e', s) = stepped-frames b' k e in
        let (h, e'', s') = r.frames b' g e' in (h, e'', Saved-trans k g h s s');
    clean = λ p' b' g at_p e. elim (eq_cases p' p) [
      | inl same ↦
          let (h, e', s) = r.frames b cleaned stepped_self in
          let mine : b' ≡ b = clean_entry p' b' same at_p in
          let there : frame_at after.1 b ≡ some g =
            subst (λ x. frame_at after.1 x ≡ some g) mine e in
          rw (same_frame after.1 b h g e' there) (s.clean refl)
      | inr apart ↦ r.clean p' b' g (later_entry p' b' apart at_p) e
    ];
    kept = λ p' q h. r.kept p' q (stepped-kept p' q h);
  }
    where
      clean_entry :
          (p' : PageId) (b' : BufferId)
          → p' ≡ p
          → (if p' == p then some b else lookup p' entries) ≡ some b'
          → b' ≡ b
      clean_entry p' b' same h = ground arith

      later_entry :
          (p' : PageId) (b' : BufferId)
          → p' ≢ p
          → (if p' == p then some b else lookup p' entries) ≡ some b'
          → lookup p' entries ≡ some b'
      later_entry p' b' apart h = ground arith
