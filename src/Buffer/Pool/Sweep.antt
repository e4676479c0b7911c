-- ===== src/Buffer/Pool/Sweep.antt =====
-- src/buffer.rs: the clock sweep on frames: its end, and what it keeps of the buffers.
use relly.Prelude.{
  ℕ, zero, suc, ◌+◌, ◌-◌, ◌*◌, ◌%◌, ◌<◌, ◌≡◌, inl, inr, refl, ap, ◌∙◌, List, [], ◌∷◌, get_elem?,
  set, Option, none, some, Run, done, panic, hang, Returns, leb, ◌==◌, if◌then◌else◌, arith,
  length-set, get_elem?_lt, Bool-cases, ltb,
}
use relly.Buffer.Pool.{
  BufferId, Frame, BufferPool, size, increment_id, put_frame, evict_loop, total, evict,
}

-- The sweep keeps buffers and clones, and the use counts of frames with clones.
pub record Keeps (f g : Frame) : Type 0 where
  pub buffer : g.buffer ≡ f.buffer
  pub handles : g.handles ≡ f.handles
  pub pinned : 0 < f.handles → g.usage_count ≡ f.usage_count

abbrev pub Related : Option Frame → Option Frame → Type 0
Related none none = Unit
Related (some f) (some g) = Keeps f g
Related _ _ = ⊥

pub record Swept (pool after : BufferPool) : Type 0 where
  pub size_kept : size after ≡ size pool
  pub in_range : after.next_victim_id < size pool
  pub frames : (b : BufferId) → Related (get_elem? pool.buffers b) (get_elem? after.buffers b)

Keeps-refl : (f : Frame) → Keeps f f
Keeps-refl f = record { buffer = refl; handles = refl; pinned = λ h. refl }

Related-refl : (f : Option Frame) → Related f f
Related-refl none = tt
Related-refl (some f) = Keeps-refl f

Keeps-trans : (f g h : Frame) → Keeps f g → Keeps g h → Keeps f h
Keeps-trans f g h p q = record {
  buffer = q.buffer ∙ p.buffer;
  handles = q.handles ∙ p.handles;
  pinned = λ r. q.pinned (omega (arith, p.handles)) ∙ p.pinned r;
}

Related-trans : (f g h : Option Frame) → Related f g → Related g h → Related f h
Related-trans none none none p q = tt
Related-trans none none (some h) p q = q
Related-trans none (some g) h p q = absurd p
Related-trans (some f) none h p q = absurd p
Related-trans (some f) (some g) none p q = q
Related-trans (some f) (some g) (some h) p q = Keeps-trans f g h p q

Swept-trans : (p q r : BufferPool) → Swept p q → Swept q r → Swept p r
Swept-trans p q r a b = record {
  size_kept = b.size_kept ∙ a.size_kept;
  in_range = omega (arith, a.size_kept, b.in_range);
  frames = λ i.
      Related-trans (get_elem? p.buffers i) (get_elem? q.buffers i) (get_elem? r.buffers i)
        (a.frames i) (b.frames i);
}

pub increment-lt : (id size : ℕ) → id < size → (id + 1) % size < size
increment-lt id size below = omega arith

-- The two ways to pass a frame by.
passed-Swept :
    (pool : BufferPool) → pool.next_victim_id < size pool → Swept pool (increment_id pool)
unfolding increment_id
passed-Swept pool h = record {
  size_kept = refl;
  in_range = increment-lt pool.next_victim_id (size pool) h;
  frames = λ b. Related-refl (get_elem? pool.buffers b);
}

abbrev pub lowered : Frame → Frame
lowered f = record f { usage_count = f.usage_count - 1 }

pub set-Related :
    (frames : List Frame) (i : ℕ) (f : Frame) (b : BufferId)
    → get_elem? frames i ≡ some f
    → f.handles ≡ 0
    → Related (get_elem? frames b) (get_elem? (set frames i (lowered f)) b)
set-Related [] i f b e h = tt
set-Related (g ∷ frames) zero f zero e h =
    let k : g ≡ f = cc in
    rw k (record { buffer = refl; handles = refl; pinned = λ r. absurd (omega (arith, h)) })
set-Related (g ∷ frames) zero f (suc b) e h = Related-refl (get_elem? frames b)
set-Related (g ∷ frames) (suc i) f zero e h = Keeps-refl g
set-Related (g ∷ frames) (suc i) f (suc b) e h = set-Related frames i f b e h

lowered-Swept :
    (pool : BufferPool) (f : Frame)
    → pool.next_victim_id < size pool
    → get_elem? pool.buffers pool.next_victim_id ≡ some f
    → f.handles ≡ 0
    → Swept pool (increment_id (put_frame pool pool.next_victim_id (lowered f)))
unfolding increment_id
lowered-Swept pool f h e k =
    let n = length-set pool.buffers pool.next_victim_id (lowered f) in
    record {
      size_kept = n;
      in_range = rw n (increment-lt pool.next_victim_id (size pool) h);
      frames = λ b. set-Related pool.buffers pool.next_victim_id f b e k;
    }

total-lowered :
    (frames : List Frame) (i : ℕ) (f : Frame)
    → get_elem? frames i ≡ some f
    → 0 < f.usage_count
    → total (set frames i (lowered f)) + 1 ≡ total frames
unfolding total
total-lowered [] i f e h = cc
total-lowered (g ∷ frames) zero f e h = ground arith
total-lowered (g ∷ frames) (suc i) f e h = ground (arith, total-lowered frames i f e h)

-- A sweep has ended, with a frame out of use or with none.
abbrev pub Evicted : BufferPool → Option BufferId × BufferPool → Type 0
Evicted pool (none, after) = Swept pool after
Evicted pool (some b, after) =
    Swept pool after × ((f : Frame) × (get_elem? after.buffers b ≡ some f) × (f.usage_count ≡ 0))

Evicted-lift :
    (p q : BufferPool) (r : Run (Option BufferId × BufferPool))
    → Swept p q
    → Returns r (Evicted q)
    → Returns r (Evicted p)
Evicted-lift p q (done (none, after)) a e = Swept-trans p q after a e
Evicted-lift p q (done (some b, after)) a e = (Swept-trans p q after a e.0, e.1)
Evicted-lift p q panic a e = e
Evicted-lift p q hang a e = e

Swept-refl : (pool : BufferPool) → pool.next_victim_id < size pool → Swept pool pool
Swept-refl pool h = record {
  size_kept = refl;
  in_range = h;
  frames = λ b. Related-refl (get_elem? pool.buffers b);
}

abbrev pub Bounded : ℕ → ℕ → ℕ → BufferPool → Type 0
Bounded fuel n c pool =
    (size pool ≡ n)
    × (pool.next_victim_id < n)
    × (c < n)
    × (n * total pool.buffers + (n - c) < fuel)

pub lowered-Bounded :
    (fuel n c : ℕ) (pool : BufferPool) (f : Frame)
    → Bounded (suc fuel) n c pool
    → get_elem? pool.buffers pool.next_victim_id ≡ some f
    → 0 < f.usage_count
    → Bounded fuel n 0 (increment_id (put_frame pool pool.next_victim_id (lowered f)))
unfolding increment_id
lowered-Bounded fuel n c pool f h found used =
    let k = length-set pool.buffers pool.next_victim_id (lowered f) in
    let t = total-lowered pool.buffers pool.next_victim_id f found used in
    (
      k ∙ h.0,
      rw (k, h.0) (increment-lt pool.next_victim_id n h.1),
      omega arith,
      omega (arith, ap (λ (x : ℕ). n * x) t),
    )

pub passed-Bounded :
    (fuel n c : ℕ) (pool : BufferPool)
    → Bounded (suc fuel) n c pool
    → c + 1 < n
    → Bounded fuel n (c + 1) (increment_id pool)
unfolding increment_id
passed-Bounded fuel n c pool h k =
    (h.0, rw h.0 (increment-lt pool.next_victim_id n h.1), k, omega arith)

round-Evicted :
    (fuel n c : ℕ) (pool : BufferPool) (f : Frame)
    → Bounded (suc fuel) n c pool
    → get_elem? pool.buffers pool.next_victim_id ≡ some f
    → ((d : ℕ) (q : BufferPool) → Bounded fuel n d q → Returns (evict_loop fuel n d q) (Evicted q))
    → Returns (evict_loop (suc fuel) n c pool) (Evicted pool)
unfolding evict_loop
round-Evicted fuel n c pool f h found ih = rw found (elim (Bool-cases (f.usage_count == 0)) [
  | inl idle ↦ rw idle (Swept-refl pool (omega arith), (f, found, ground arith))
  | inr used ↦ rw used (elim (Bool-cases (f.handles == 0)) [
    | inl free ↦ rw free (
        Evicted-lift pool _ _ (lowered-Swept pool f (omega arith) found (ground arith))
          (ih 0 _ (lowered-Bounded fuel n c pool f h found (ground arith))))
    | inr held ↦ rw held (elim (Bool-cases (leb n (c + 1))) [
      | inl last ↦ rw last (Swept-refl pool (omega arith))
      | inr more ↦ rw more (
          Evicted-lift pool _ _ (passed-Swept pool (omega arith))
            (ih (c + 1) _ (passed-Bounded fuel n c pool h (ground arith))))
    ])
  ])
])

evict_loop-Evicted :
    (fuel n c : ℕ) (pool : BufferPool)
    → Bounded fuel n c pool
    → Returns (evict_loop fuel n c pool) (Evicted pool)
evict_loop-Evicted zero n c pool h = elim h.3 [ ]
evict_loop-Evicted (suc fuel) n c pool h =
    let (f, found) = get_elem?_lt pool.buffers pool.next_victim_id (omega arith) in
    round-Evicted fuel n c pool f h found (evict_loop-Evicted fuel n)

-- On a pool whose hand is in range, which is then not empty, the sweep ends, without a panic. No buffer is changed or lost, no
-- count of clones changes, nor the use count of a frame with clones; and the frame that it
-- chooses has no use left.
pub evict-Evicted :
    (pool : BufferPool) → pool.next_victim_id < size pool → Returns (evict pool) (Evicted pool)
unfolding evict
evict-Evicted pool h =
    evict_loop-Evicted (suc (size pool * total pool.buffers + size pool)) (size pool) 0 pool
      (refl, h, omega arith, omega arith)

-- Frames that the hand passes before it comes to frame `i`.
abbrev pub distance : ℕ → ℕ → ℕ → ℕ
distance n v i = if ltb i v then i + n - v else i - v

-- The outcome is a frame.
