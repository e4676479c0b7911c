-- ===== src/Buffer/Clones.antt =====
-- src/buffer.rs: how many clones of each buffer are about.
use relly.Prelude.{
  ℕ, ◌+◌, ◌≡◌, ◌≢◌, inl, inr, sym, ap, ◌∙◌, subst, some, ◌==◌, if◌then◌else◌, true, false, arith,
  eq_cases, get_elem?,
}
use relly.Buffer.Pool.{BufferId, Frame, BufferPool}
use relly.Buffer.Pool.Sweep.{Swept}
use relly.Buffer.{BufferPoolManager}
use relly.Buffer.Valid.{frame_at, same_frame, Related-after}

-- One for the buffer, and none for another.
abbrev pub one_at : BufferId → BufferId → ℕ
one_at b b' = if b' == b then 1 else 0

-- Each buffer has as many clones as before, and `b` one more.
abbrev pub ClonedOnce : BufferId → BufferPoolManager → BufferPoolManager → Type 0
ClonedOnce b m after =
    (b' : BufferId) (f : Frame)
    → frame_at m b' ≡ some f
    → (g : Frame) × (frame_at after b' ≡ some g) × (g.handles ≡ f.handles + one_at b b')

pub set-ClonedOnce :
    (m after : BufferPoolManager) (b : BufferId) (f g : Frame)
    → frame_at m b ≡ some f
    → frame_at after b ≡ some g
    → g.handles ≡ f.handles + 1
    → ((b' : BufferId) → b' ≢ b → frame_at after b' ≡ frame_at m b')
    → ClonedOnce b m after
set-ClonedOnce m after b f g found found' more others b' k e = elim (eq_cases b' b) [
  | inl here ↦
      let mine : k ≡ f = same_frame m b f k found (subst (λ x. frame_at m x ≡ some k) here e) in
      let t : b' == b ≡ true = ground arith in
      rw t (
        g,
        subst (λ x. frame_at after x ≡ some g) (sym here) found',
        more ∙ ap (λ (x : Frame). x.handles + 1) (sym mine),
      )
  | inr there ↦ let t : b' == b ≡ false = ground arith in rw t (k, others b' there ∙ e, omega arith)
]

pub Swept-ClonedOnce :
    (m after : BufferPoolManager) (pool : BufferPool) (b : BufferId)
    → Swept m.pool pool
    → ClonedOnce b (record m { pool = pool }) after
    → ClonedOnce b m after
Swept-ClonedOnce m after pool b swept once b' f e =
    let (g, found, k) =
      Related-after (frame_at m b') (get_elem? pool.buffers b') f (swept.frames b') e in
    let (h, found', n) = once b' g found in (h, found', n ∙ ap (λ x. x + one_at b b') k.handles)
