-- ===== src/Buffer/Valid.antt =====
-- src/buffer.rs: when a manager is well formed, and what it holds of each page.
use relly.Prelude.{
  ◌*◌, ◌<◌, ◌≡◌, ◌≢◌, refl, ap, ◌∙◌, Bytes, length, get_elem?, true, false, Option, none, some,
  arith, Option-cases, inl, inr,
}
use relly.Disk.{PageId, page_size, invalid_page_id, u64_end}
use relly.Disk.Pages.{page_at}
use relly.Buffer.Pool.{BufferId, Buffer, Frame, BufferPool, size}
use relly.Buffer.Pool.Sweep.{Keeps, Related, Swept}
use relly.Buffer.{lookup, BufferPoolManager}

abbrev pub frame_at : BufferPoolManager → BufferId → Option Frame
frame_at m b = get_elem? m.pool.buffers b

abbrev pub disk_page : BufferPoolManager → PageId → Option Bytes
disk_page m p = page_at m.disk.heap_file.content p

abbrev pub page_of : Option Frame → Option Bytes
page_of none = none
page_of (some f) = some f.buffer.page

-- The page with an id as a client sees it: in the pool if the table knows it, and else on disk.
unfoldable pub contents : BufferPoolManager → PageId → Option Bytes
contents m p = elim (lookup p m.page_table) [
  | some b ↦ page_of (frame_at m b)
  | none ↦ disk_page m p
]

-- The table and the frames' page ids agree; a buffer that is not dirty agrees with the disk; a
-- frame with clones is in use.
pub record IsValid (m : BufferPoolManager) : Type 0 where
  pub victim : m.pool.next_victim_id < size m.pool
  pub mapped :
      (p : PageId) (b : BufferId)
      → lookup p m.page_table ≡ some b
      → (f : Frame) × (frame_at m b ≡ some f) × (f.buffer.page_id ≡ p) × (page_size * p < u64_end)
  pub owned :
      (b : BufferId) (f : Frame)
      → frame_at m b ≡ some f
      → f.buffer.page_id ≢ invalid_page_id
      → lookup f.buffer.page_id m.page_table ≡ some b
  pub dirty :
      (b : BufferId) (f : Frame)
      → frame_at m b ≡ some f
      → f.buffer.is_dirty ≡ true
      → f.buffer.page_id ≢ invalid_page_id
  pub clean :
      (b : BufferId) (f : Frame)
      → frame_at m b ≡ some f
      → f.buffer.page_id ≢ invalid_page_id
      → f.buffer.is_dirty ≡ false
      → disk_page m f.buffer.page_id ≡ some f.buffer.page
  pub whole : (b : BufferId) (f : Frame) → frame_at m b ≡ some f → length f.buffer.page ≡ page_size
  pub pinned :
      (b : BufferId) (f : Frame) → frame_at m b ≡ some f → 0 < f.handles → 0 < f.usage_count

-- A frame before and after a sweep.
pub Related-after :
    (o o' : Option Frame) (f : Frame)
    → Related o o'
    → o ≡ some f
    → (g : Frame) × (o' ≡ some g) × Keeps f g
Related-after none o' f r e = cc
Related-after (some f') none f r e = absurd r
Related-after (some f') (some g) f r e = (g, refl, rw (some_eq f' f e) at r)
  where
    some_eq : (x y : Frame) → some x ≡ some y → x ≡ y
    some_eq x y h = cc

Related-before :
    (o o' : Option Frame) (g : Frame)
    → Related o o'
    → o' ≡ some g
    → (f : Frame) × (o ≡ some f) × Keeps f g
Related-before none none g r e = cc
Related-before none (some h) g r e = absurd r
Related-before (some f) none g r e = cc
Related-before (some f) (some h) g r e = (f, refl, rw (some_eq h g e) at r)
  where
    some_eq : (x y : Frame) → some x ≡ some y → x ≡ y
    some_eq x y k = cc

module _ (m : BufferPoolManager) (pool : BufferPool) (swept : Swept m.pool pool) where
  abbrev after : BufferPoolManager
  after = record m { pool = pool }

  before :
      (b : BufferId) (g : Frame)
      → frame_at after b ≡ some g
      → (f : Frame) × (frame_at m b ≡ some f) × Keeps f g
  before b g e = Related-before (frame_at m b) (frame_at after b) g (swept.frames b) e

  pub Swept-IsValid : IsValid m → IsValid after
  Swept-IsValid v = record {
    victim = omega (arith, swept.in_range, swept.size_kept);
    mapped = λ p b e.
        let (f, found, id, fits) = v.mapped p b e in
        let (g, found', k) =
          Related-after (frame_at m b) (frame_at after b) f (swept.frames b) found in
        (g, found', ap (λ (x : Buffer). x.page_id) k.buffer ∙ id, fits);
    owned = λ b g e valid.
        let (f, found, k) = before b g e in rw k.buffer (v.owned b f found (rw k.buffer at valid));
    dirty = λ b g e d.
        let (f, found, k) = before b g e in rw k.buffer (v.dirty b f found (rw k.buffer at d));
    clean = λ b g e valid d.
        let (f, found, k) = before b g e in
        rw k.buffer (v.clean b f found (rw k.buffer at valid) (rw k.buffer at d));
    whole = λ b g e. let (f, found, k) = before b g e in rw k.buffer (v.whole b f found);
    pinned = λ b g e h.
        let (f, found, k) = before b g e in
        let used = v.pinned b f found (omega (arith, k.handles)) in
        omega (arith, k.pinned (omega (arith, k.handles)));
  }

  page_of-Related : (o o' : Option Frame) → Related o o' → page_of o' ≡ page_of o
  page_of-Related none none r = refl
  page_of-Related none (some g) r = absurd r
  page_of-Related (some f) none r = absurd r
  page_of-Related (some f) (some g) r = ap (λ (x : Buffer). some (x.page)) r.buffer

  pub Swept-contents : (p : PageId) → contents after p ≡ contents m p
  unfolding contents
  Swept-contents p = elim (Option-cases (lookup p m.page_table)) [
    | inl absent ↦ rw (absent, contents)
    | inr (b, here) ↦
        rw (here, contents) (page_of-Related (frame_at m b) (frame_at after b) (swept.frames b))
  ]

-- The two ways to read `contents`.
pub contents_mapped :
    (m : BufferPoolManager) (p : PageId) (b : BufferId) (f : Frame)
    → lookup p m.page_table ≡ some b
    → frame_at m b ≡ some f
    → contents m p ≡ some f.buffer.page
unfolding contents
contents_mapped m p b f e h = rw (e, contents, h)

pub contents_unmapped :
    (m : BufferPoolManager) (p : PageId)
    → lookup p m.page_table ≡ none
    → contents m p ≡ disk_page m p
unfolding contents
contents_unmapped m p e = rw (e, contents)

pub same_frame :
    (m : BufferPoolManager) (b : BufferId) (f g : Frame)
    → frame_at m b ≡ some f
    → frame_at m b ≡ some g
    → g ≡ f
same_frame m b f g h k = cc
