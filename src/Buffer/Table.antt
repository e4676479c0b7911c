-- ===== src/Buffer/Table.antt =====
-- src/buffer.rs: the laws of the page table and of the frames.
use relly.Prelude.{
  zero, suc, ◌≡◌, ◌≢◌, ◌⊎◌, inl, inr, refl, ap, List, [], ◌∷◌, get_elem?, set, none, some, ◌==◌,
  if◌then◌else◌, arith,
}
use relly.Disk.{PageId}
use relly.Buffer.Pool.{BufferId, Frame}
use relly.Buffer.{PageTable, lookup, remove, insert}

pub lookup-remove :
    (p q : PageId) (table : PageTable)
    → lookup p (remove q table) ≡ (if p == q then none else lookup p table)
unfolding lookup remove
lookup-remove p q [] = ground arith
lookup-remove p q ((r, b) ∷ table) = ground (arith, lookup-remove p q table)

pub lookup-insert :
    (p q : PageId) (b : BufferId) (table : PageTable)
    → lookup p (insert q b table) ≡ (if p == q then some b else lookup p table)
unfolding lookup insert
lookup-insert p q b table = ground (arith, lookup-remove p q table)

-- A frame of the pool after one was exchanged.
pub set_cases :
    (frames : List Frame) (b b' : BufferId) (f g : Frame)
    → get_elem? (set frames b f) b' ≡ some g
    → (b' ≡ b) × (g ≡ f) ⊎ (b' ≢ b) × (get_elem? frames b' ≡ some g)
set_cases [] b b' f g h = cc
set_cases (x ∷ frames) zero zero f g h = inl (refl, cc)
set_cases (x ∷ frames) zero (suc b') f g h = inr ((λ e. absurd (ground arith)), h)
set_cases (x ∷ frames) (suc b) zero f g h = inr ((λ e. absurd (ground arith)), h)
set_cases (x ∷ frames) (suc b) (suc b') f g h = elim (set_cases frames b b' f g h) [
  | inl (e, k) ↦ inl (ap suc e, k)
  | inr (e, k) ↦ inr ((λ d. e (ground arith)), k)
]
