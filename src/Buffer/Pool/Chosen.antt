-- ===== src/Buffer/Pool/Chosen.antt =====
-- src/buffer.rs: the clock sweep finds a victim where there is one.
use relly.Prelude.{
  ℕ, zero, suc, ◌+◌, ◌*◌, ◌%◌, ◌<◌, ◌≡◌, ◌≢◌, ◌⊎◌, inl, inr, refl, sym, subst, ◌∙◌, List, get_elem?,
  set, Option, none, some, Returns, leb, ◌==◌, false, arith, length-set, get_elem?_lt,
  lt-of_get_elem?, Bool-cases, ltb,
}
use native.Mathlib.Nat.{mod_self}
use relly.Buffer.Pool.{
  BufferId, Frame, BufferPool, size, increment_id, put_frame, evict_loop, total, evict,
}
use relly.Buffer.Pool.Sweep.{
  Related, increment-lt, lowered, set-Related, Bounded, lowered-Bounded, passed-Bounded, distance,
}

abbrev pub Chosen : Option BufferId × BufferPool → Type 0
Chosen (none, after) = ⊥
Chosen (some b, after) = Unit {0}

abbrev IsFree : Option Frame → Type 0
IsFree none = ⊥
IsFree (some f) = f.handles ≡ 0

IsFree-Related : (f g : Option Frame) → Related f g → IsFree f → IsFree g
IsFree-Related none g r h = absurd h
IsFree-Related (some f) none r h = r
IsFree-Related (some f) (some g) r h = r.handles ∙ h

distance-lt : (n v i : ℕ) → v < n → i < n → distance n v i < n
distance-lt n v i h k = ground arith

step_cases :
    (v n : ℕ) → v < n → ((v + 1) % n ≡ v + 1) × (v + 1 < n) ⊎ ((v + 1) % n ≡ 0) × (v + 1 ≡ n)
step_cases v n h = elim (Bool-cases (ltb (v + 1) n)) [
  | inl inside ↦ inl (grind arith, ground arith)
  | inr wraps ↦ let e : v + 1 ≡ n = ground arith in inr (rw e (mod_self n), e)
]

distance-next :
    (n v i : ℕ) → v < n → i < n → v ≢ i → distance n ((v + 1) % n) i + 1 ≡ distance n v i
distance-next n v i h k ne = elim (step_cases v n h) [
  | inl (e, inside) ↦ rw e (ground arith)
  | inr (e, wraps) ↦ rw e (ground arith)
]

-- The hand has passed fewer frames since the last free one than there are before frame `i`.
abbrev Nearing : ℕ → ℕ → ℕ → BufferPool → Type 0
Nearing n i c pool =
    (i < n) × (c + distance n pool.next_victim_id i < n) × IsFree (get_elem? pool.buffers i)

lowered-Nearing :
    (n i c : ℕ) (pool : BufferPool) (f : Frame)
    → size pool ≡ n
    → pool.next_victim_id < n
    → get_elem? pool.buffers pool.next_victim_id ≡ some f
    → f.handles ≡ 0
    → Nearing n i c pool
    → Nearing n i 0 (increment_id (put_frame pool pool.next_victim_id (lowered f)))
unfolding increment_id
lowered-Nearing n i c pool f e v found free near =
    let k = length-set pool.buffers pool.next_victim_id (lowered f) in
    (
      near.0,
      rw (k, e)
          (omega
            (arith, distance-lt n ((pool.next_victim_id + 1) % n) i (increment-lt _ n v) near.0)),
      IsFree-Related (get_elem? pool.buffers i)
          (get_elem? (set pool.buffers pool.next_victim_id (lowered f)) i)
          (set-Related pool.buffers pool.next_victim_id f i found free) near.2,
    )

-- A frame that is free is not one that is held.
apart :
    (frames : List Frame) (v i : ℕ) (f : Frame)
    → get_elem? frames v ≡ some f
    → (f.handles == 0) ≡ false
    → IsFree (get_elem? frames i)
    → v ≢ i
apart frames v i f found held free = λ e.
    let here : IsFree (get_elem? frames v) =
      subst (λ x. IsFree (get_elem? frames x)) (sym e) free in
    let here' : IsFree (some f) = rw found at here in ground arith

passed-Nearing :
    (n i c : ℕ) (pool : BufferPool)
    → size pool ≡ n
    → pool.next_victim_id < n
    → pool.next_victim_id ≢ i
    → Nearing n i c pool
    → (c + 1 < n) × Nearing n i (c + 1) (increment_id pool)
unfolding increment_id
passed-Nearing n i c pool e v ne near =
    let d = distance-next n pool.next_victim_id i v near.0 ne in
    (omega (arith, d), (near.0, rw e (omega (arith, d)), near.2))

round-Chosen :
    (fuel n i c : ℕ) (pool : BufferPool) (f : Frame)
    → Bounded (suc fuel) n c pool
    → Nearing n i c pool
    → get_elem? pool.buffers pool.next_victim_id ≡ some f
    → ((d : ℕ) (q : BufferPool)
        → Bounded fuel n d q
        → Nearing n i d q
        → Returns (evict_loop fuel n d q) Chosen)
    → Returns (evict_loop (suc fuel) n c pool) Chosen
unfolding evict_loop
round-Chosen fuel n i c pool f h near found ih = rw found (elim (Bool-cases (f.usage_count == 0)) [
  | inl idle ↦ rw idle tt
  | inr used ↦ rw used (elim (Bool-cases (f.handles == 0)) [
    | inl free ↦ rw free (
        ih 0 _ (lowered-Bounded fuel n c pool f h found (ground arith))
          (lowered-Nearing n i c pool f h.0 h.1 found (ground arith) near))
    | inr held ↦
        let ne = apart pool.buffers pool.next_victim_id i f found held near.2 in
        let (more, near') = passed-Nearing n i c pool h.0 h.1 ne near in
        let go_on : leb n (c + 1) ≡ false = ground arith in
        rw (held, go_on) (ih (c + 1) _ (passed-Bounded fuel n c pool h more) near')
  ])
])

evict_loop-Chosen :
    (fuel n i c : ℕ) (pool : BufferPool)
    → Bounded fuel n c pool
    → Nearing n i c pool
    → Returns (evict_loop fuel n c pool) Chosen
evict_loop-Chosen zero n i c pool h near = elim h.3 [ ]
evict_loop-Chosen (suc fuel) n i c pool h near =
    let (f, found) = get_elem?_lt pool.buffers pool.next_victim_id (omega arith) in
    round-Chosen fuel n i c pool f h near found (evict_loop-Chosen fuel n i)

-- If the hand is in range and the buffer of some frame has no clone, the sweep returns a frame.
pub evict-Chosen :
    (pool : BufferPool) (i : BufferId) (f : Frame)
    → pool.next_victim_id < size pool
    → get_elem? pool.buffers i ≡ some f
    → f.handles ≡ 0
    → Returns (evict pool) Chosen
unfolding evict
evict-Chosen pool i f h found free =
    let k = lt-of_get_elem? pool.buffers i f found in
    evict_loop-Chosen (suc (size pool * total pool.buffers + size pool)) (size pool) i 0 pool
      (refl, h, omega arith, omega arith)
      (k, omega (arith, distance-lt (size pool) pool.next_victim_id i h k), rw found free)
