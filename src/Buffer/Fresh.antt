-- ===== src/Buffer/Fresh.antt =====
-- src/buffer.rs: a new manager over a new pool.
use relly.Prelude.{
  ℕ, zero, suc, ◌<◌, ◌≡◌, refl, ap, ◌∙◌, length, get_elem?, some, replicate, arith,
  length-replicate,
}
use relly.Disk.{DiskManager, PageId, page_size}
use relly.Buffer.Pool.{Frame, default_frame}
use relly.Buffer.Pool
use relly.Buffer
use relly.Buffer.{lookup}
use relly.Buffer.Valid.{IsValid, contents, disk_page}

get_elem?-replicate : (n i : ℕ) (f g : Frame) → get_elem? (replicate n f) i ≡ some g → g ≡ f
get_elem?-replicate zero i f g h = cc
get_elem?-replicate (suc n) zero f g h = cc
get_elem?-replicate (suc n) (suc i) f g h = get_elem?-replicate n i f g h

frames_default :
    (n b : ℕ) (f : Frame) → get_elem? (replicate n default_frame) b ≡ some f → f ≡ default_frame
frames_default n b f e = get_elem?-replicate n b default_frame f e

-- A new manager over a new pool with a frame is well formed, and its pages are those on the disk.
pub new-IsValid :
    (disk : DiskManager) (pool_size : ℕ)
    → 0 < pool_size
    → IsValid (Buffer.new disk (Pool.new pool_size))
      × ((p : PageId)
          → contents (Buffer.new disk (Pool.new pool_size)) p
            ≡ disk_page (Buffer.new disk (Pool.new pool_size)) p)
unfolding Buffer.new Pool.new lookup contents
new-IsValid disk pool_size h = (
  record {
    victim = rw (length-replicate pool_size default_frame) h;
    mapped = λ p b e. cc;
    owned = λ b f e valid.
        absurd (valid (ap (λ (x : Frame). x.buffer.page_id) (frames_default pool_size b f e)));
    dirty = λ b f e d. let k = frames_default pool_size b f e in cc;
    clean = λ b f e valid d.
        absurd (valid (ap (λ (x : Frame). x.buffer.page_id) (frames_default pool_size b f e)));
    whole = λ b f e.
        ap (λ (x : Frame). length x.buffer.page) (frames_default pool_size b f e)
        ∙ length-replicate {A = ℕ} page_size 0;
    pinned = λ b f e p.
        let k = frames_default pool_size b f e in omega (arith, ap (λ (x : Frame). x.handles) k);
  },
  λ p. refl,
)
