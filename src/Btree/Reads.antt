-- ===== src/Btree/Reads.antt =====
-- src/btree.rs: a reader of pages that holds clones of buffers, on a well-formed manager with a free
-- buffer and no fault to come.
use relly.Prelude.{
  ℕ, ◌+◌, ◌-◌, ◌*◌, ◌<◌, ◌≡◌, ◌≢◌, inl, inr, refl, sym, ap, ◌∙◌, subst, [], Bytes, Option, some,
  Run, done, panic, hang, arith, eq_cases, Returns, Returns-value, some_injective,
}
use relly.Prelude.Exec.{Result, ok, err, continue}
use relly.Disk.{PageId, page_size, u64_end}
use relly.Buffer
use relly.Buffer.{BufferPoolManager, no_free_buffer, io, fetch_page, drop_handle}
use relly.Buffer.Pool.{BufferId, Frame}
use relly.Buffer.Valid.{IsValid, contents, frame_at, contents_mapped, same_frame}
use relly.Buffer.Clones.{one_at, ClonedOnce}
use relly.Buffer.Fetch.{AfterFetch, Served, fetch_page-AfterFetch}
use relly.Buffer.Handles.{Dropped, drop_handle-Dropped}
use relly.Btree.Client.{Error, M, fetch, page_of}

-- The reader's view: at least the pages `c`, no fault to come, and so many clones more than in `m0`.
pub record At (m0 : BufferPoolManager) (c : PageId → Option Bytes) (extra : BufferId → ℕ)
    (m : BufferPoolManager) : Type 0 where
  pub valid : IsValid m
  pub kept : (id : PageId) (page : Bytes) → c id ≡ some page → contents m id ≡ some page
  pub calm : m.disk.heap_file.faults ≡ []
  pub clones :
      (b : BufferId) (f : Frame)
      → frame_at m0 b ≡ some f
      → (g : Frame) × (frame_at m b ≡ some g) × (g.handles ≡ f.handles + extra b)

abbrev pub no_more : BufferId → ℕ
no_more b = 0

abbrev pub with_one : (BufferId → ℕ) → BufferId → BufferId → ℕ
with_one extra b b' = extra b' + one_at b b'

-- A buffer without clones.
abbrev pub HasFree : BufferPoolManager → Type 0
HasFree m = (b : BufferId) × (f : Frame) × (frame_at m b ≡ some f) × (f.handles ≡ 0)

-- Another one too.
abbrev pub HasTwoFree : BufferPoolManager → Type 0
HasTwoFree m =
    (b b' : BufferId) × (f f' : Frame) × (b' ≢ b)
    × (frame_at m b ≡ some f)
    × (frame_at m b' ≡ some f')
    × (f.handles ≡ 0)
    × (f'.handles ≡ 0)

-- The reader holds a clone of the buffer of a page.
pub record Holding (m0 : BufferPoolManager) (c : PageId → Option Bytes) (extra : BufferId → ℕ)
    (page : Bytes) (b : BufferId) (m : BufferPoolManager) : Type 0 where
  pub reader : At m0 c (with_one extra b) m
  pub frame : (f : Frame) × (frame_at m b ≡ some f) × (f.buffer.page ≡ page)

-- What a fetch gives: never an error.
abbrev pub Fetched :
    BufferPoolManager
    → (PageId → Option Bytes)
    → (BufferId → ℕ)
    → Bytes
    → BufferPoolManager
    → Result Error BufferId × BufferPoolManager
    → Type 0
Fetched m0 c extra page m (ok b, after) = Holding m0 c extra page b after × ClonedOnce b m after
Fetched m0 c extra page m (err e, after) = ⊥

-- The same, without what it says of the state before.
abbrev pub Got :
    BufferPoolManager
    → (PageId → Option Bytes)
    → (BufferId → ℕ)
    → Bytes
    → Result Error BufferId × BufferPoolManager
    → Type 0
Got m0 c extra page (ok b, after) = Holding m0 c extra page b after
Got m0 c extra page (err e, after) = ⊥

-- The counts after the drop of a clone.
lowered :
    (m after : BufferPoolManager) (b b' : BufferId) (f g' : Frame) (n : ℕ)
    → Dropped b f m after
    → frame_at m b ≡ some f
    → frame_at m b' ≡ some g'
    → g'.handles ≡ n + one_at b b'
    → (k : Frame) × (frame_at after b' ≡ some k) × (k.handles ≡ n)
lowered m after b b' f g' n d found found' e = elim (eq_cases b' b) [
  | inl here ↦
      let mine : g' ≡ f =
        same_frame m b f g' found (subst (λ x. frame_at m x ≡ some g') here found') in
      let same : g'.handles ≡ f.handles = ap (λ (x : Frame). x.handles) mine in
      (
        record f { handles = f.handles - 1 },
        subst (λ x. frame_at after x ≡ some (record f { handles = f.handles - 1 })) (sym here)
            d.frame,
        ground arith,
      )
  | inr there ↦ (g', d.others b' there ∙ found', ground arith)
]

module _ (m0 : BufferPoolManager) (c : PageId → Option Bytes) where
  -- A free buffer is still free where the reader holds none, and one of two where it holds one.
  pub HasFree-At : (m : BufferPoolManager) → HasFree m0 → At m0 c no_more m → HasFree m
  HasFree-At m (b, f, found, z) at_m =
      let (g, found', n) = at_m.clones b f found in (b, g, found', omega arith)

  pub HasFree-with_one :
      (b : BufferId) (m : BufferPoolManager)
      → HasTwoFree m0
      → At m0 c (with_one no_more b) m
      → HasFree m
  HasFree-with_one b m (x, y, f, f', apart, found, found', z, z') at_m = elim (eq_cases x b) [
    | inl here ↦ let (g, found'', n) = at_m.clones y f' found' in (y, g, found'', ground arith)
    | inr there ↦ let (g, found'', n) = at_m.clones x f found in (x, g, found'', ground arith)
  ]

module _ (m0 : BufferPoolManager) (c : PageId → Option Bytes) (extra : BufferId → ℕ) where
  Served-Fetched :
      (id : PageId) (page : Bytes) (b : BufferId) (m after : BufferPoolManager)
      → At m0 c extra m
      → c id ≡ some page
      → Served id b m after
      → Holding m0 c extra page b after
  Served-Fetched id page b m after at_m here s =
      let (f, found, same, used) = s.in_use in
      let kept : (i : PageId) (p : Bytes) → c i ≡ some p → contents after i ≡ some p =
        λ i p e. s.kept i p (at_m.kept i p e) in
      record {
        reader = record {
          valid = s.valid;
          kept = kept;
          calm = s.calm at_m.calm;
          clones = λ b' g e.
              let (h, e', n) = at_m.clones b' g e in
              let (k, e'', n') = s.clones b' h e' in (k, e'', omega arith);
        };
        frame = (
          f,
          found,
          some_injective (sym (contents_mapped after id b f s.mapped found) ∙ kept id page here),
        );
      }

  AfterFetch-Fetched :
      (id : PageId) (page : Bytes) (m : BufferPoolManager)
      (r : Result Buffer.Error BufferId × BufferPoolManager)
      → HasFree m
      → At m0 c extra m
      → c id ≡ some page
      → fetch_page id m ≡ done r
      → AfterFetch id m r
      → Returns (fetch id m) (Fetched m0 c extra page m)
  unfolding fetch
  AfterFetch-Fetched id page m (ok b, after) free at_m here e a =
      rw e (Served-Fetched id page b m after at_m here a, a.clones)
  AfterFetch-Fetched id page m (err no_free_buffer, after) (b, f, found, z) at_m here e a =
      absurd (omega (arith, a.all_in_use b f found))
  AfterFetch-Fetched id page m (err (io x), after) free at_m here e a =
      let gone = a.cause at_m.calm in let there = at_m.kept id page here in absurd cc

  -- A page that is there is fetched.
  pub fetch-Fetched :
      (id : PageId) (page : Bytes) (m : BufferPoolManager)
      → HasFree m
      → At m0 c extra m
      → page_size * id < u64_end
      → c id ≡ some page
      → Returns (fetch id m) (Fetched m0 c extra page m)
  fetch-Fetched id page m free at_m offset here =
      let (r, e, a) =
        Returns-value (fetch_page id m) (fetch_page-AfterFetch id m at_m.valid offset) in
      AfterFetch-Fetched id page m r free at_m here e a

  Got-page :
      (page : Bytes) (m : BufferPoolManager) (r : Run (Result Error BufferId × BufferPoolManager))
      → Returns r (Fetched m0 c extra page m)
      → Returns r (Got m0 c extra page)
  Got-page page m (done (ok b, after)) h = h.0
  Got-page page m (done (err e, after)) h = h
  Got-page page m panic h = h
  Got-page page m hang h = h

  pub fetch-Got :
      (id : PageId) (page : Bytes) (m : BufferPoolManager)
      → HasFree m
      → At m0 c extra m
      → page_size * id < u64_end
      → c id ≡ some page
      → Returns (fetch id m) (Got m0 c extra page)
  fetch-Got id page m free at_m offset here =
      Got-page page m (fetch id m) (fetch-Fetched id page m free at_m offset here)

  pub page_of-Holding :
      (page : Bytes) (b : BufferId) (m : BufferPoolManager)
      → Holding m0 c extra page b m
      → page_of b m ≡ done (ok page, m)
  unfolding page_of
  page_of-Holding page b m h = let (f, found, same) = h.frame in rw (found, same) refl

  -- Dropping the clone takes it from the counts.
  pub drop_handle-At :
      (b : BufferId) (m : BufferPoolManager) (f : Frame)
      → frame_at m b ≡ some f
      → At m0 c (with_one extra b) m
      → Returns (drop_handle b m) (At m0 c extra)
  drop_handle-At b m f found at_m =
      let (after, e, d) =
        Returns-value (drop_handle b m) (drop_handle-Dropped m b f at_m.valid found) in
      rw e (record {
        valid = d.valid;
        kept = λ i p k. d.kept i ∙ at_m.kept i p k;
        calm = rw d.disk at_m.calm;
        clones = λ b' g k.
            let (g', found', n) = at_m.clones b' g k in
            lowered m after b b' f g' (g.handles + extra b') d found found' (omega arith);
      })

  -- What a reader does with the buffer that it fetched.
  pub after_fetch :
      {A : Type 0} (page : Bytes) (r : Result Error BufferId × BufferPoolManager)
      (rest : BufferId → M A) (Q : Result Error A × BufferPoolManager → Type 0)
      → Got m0 c extra page r
      → ((b : BufferId) (after : BufferPoolManager)
          → Holding m0 c extra page b after
          → Returns (rest b after) Q)
      → Returns (continue (done r) rest) Q
  after_fetch page (ok b, after) rest Q h k = k b after h
  after_fetch page (err e, after) rest Q h k = absurd h

-- Of two clones, one is dropped: the other's page is still held.
pub drop_handle-Holding :
    (m0 : BufferPoolManager) (c : PageId → Option Bytes) (page : Bytes) (b b' : BufferId)
    (m : BufferPoolManager) (f : Frame)
    → frame_at m b ≡ some f
    → Holding m0 c (with_one no_more b) page b' m
    → Returns (drop_handle b m) (Holding m0 c no_more page b')
drop_handle-Holding m0 c page b b' m f found h =
    let swapped : At m0 c (with_one (with_one no_more b') b) m = record {
      valid = h.reader.valid;
      kept = h.reader.kept;
      calm = h.reader.calm;
      clones = λ x g e. let (k, e', n) = h.reader.clones x g e in (k, e', omega arith);
    } in
    let (after, e, d) =
      Returns-value (drop_handle b m) (drop_handle-Dropped m b f h.reader.valid found) in
    rw e (record {
      reader = rw e at (drop_handle-At m0 c (with_one no_more b') b m f found swapped);
      frame = kept_frame after d;
    })
  where
    kept_frame :
        (after : BufferPoolManager)
        → Dropped b f m after
        → (k : Frame) × (frame_at after b' ≡ some k) × (k.buffer.page ≡ page)
    kept_frame after d =
        let (g, found', same) = h.frame in
        elim (eq_cases b' b) [
          | inl here ↦
              let mine : g ≡ f =
                same_frame m b f g found (subst (λ x. frame_at m x ≡ some g) here found') in
              (
                record f { handles = f.handles - 1 },
                subst (λ x. frame_at after x ≡ some (record f { handles = f.handles - 1 }))
                    (sym here) d.frame,
                ap (λ (x : Frame). x.buffer.page) (sym mine) ∙ same,
              )
          | inr there ↦ (g, d.others b' there ∙ found', same)
        ]
