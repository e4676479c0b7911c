-- ===== src/Buffer/Pool.antt =====
-- src/buffer.rs: buffers, frames, and the clock sweep that chooses a victim.
pub mod Sweep
pub mod Chosen
use relly.Prelude.{
  ℕ, zero, suc, ◌+◌, ◌-◌, ◌*◌, ◌%◌, List, [], ◌∷◌, Bytes, length, replicate, set, Bool, true, false,
  Option, none, some, Run, done, hang, ◌>>=◌, index, leb, ◌==◌, if◌then◌else◌,
}
use relly.Disk.{PageId, page_size, invalid_page_id}

abbrev pub BufferId : Type 0
BufferId = ℕ

pub record Buffer : Type 0 where
  pub page_id : PageId
  pub page : Bytes
  pub is_dirty : Bool

-- `Buffer::default()`
abbrev pub default_buffer : Buffer
default_buffer = record {
  page_id = invalid_page_id;
  page = replicate page_size 0;
  is_dirty = false;
}

-- `handles` is `Rc::strong_count` of the buffer, less the frame's own.
pub record Frame : Type 0 where
  pub usage_count : ℕ
  pub buffer : Buffer
  pub handles : ℕ

abbrev pub default_frame : Frame
default_frame = record { usage_count = 0; buffer = default_buffer; handles = 0 }

pub record BufferPool : Type 0 where
  pub buffers : List Frame
  pub next_victim_id : BufferId

unfoldable pub new : ℕ → BufferPool
new pool_size = record { buffers = replicate pool_size default_frame; next_victim_id = 0 }

abbrev pub size : BufferPool → ℕ
size pool = length pool.buffers

-- `self.increment_id(self.next_victim_id)` as the next victim; the remainder by a size of 0 is not
-- reached, as the frame is read first.
unfoldable pub increment_id : BufferPool → BufferPool
increment_id pool = record pool { next_victim_id = (pool.next_victim_id + 1) % size pool }

-- `self[id] = frame`
abbrev pub put_frame : BufferPool → BufferId → Frame → BufferPool
put_frame pool b frame = record pool { buffers = set pool.buffers b frame }

-- The `loop` of `evict` on fuel. `Rc::get_mut` gives the buffer if there is no clone.
unfoldable pub evict_loop : ℕ → ℕ → ℕ → BufferPool → Run (Option BufferId × BufferPool)
evict_loop zero pool_size consecutive_pinned pool = hang
evict_loop (suc fuel) pool_size consecutive_pinned pool = do
  frame ← index pool.buffers pool.next_victim_id
  let used = record frame { usage_count = frame.usage_count - 1 }
  let lowered = evict_loop fuel pool_size 0 (increment_id (put_frame pool pool.next_victim_id used))
  let passed = evict_loop fuel pool_size (consecutive_pinned + 1) (increment_id pool)
  let pinned = (if leb pool_size (consecutive_pinned + 1) then done (none, pool) else passed)
  let held = (if frame.handles == 0 then lowered else pinned)
  if frame.usage_count == 0 then done (some pool.next_victim_id, pool) else held

-- The sum of the use counts.
unfoldable pub total : List Frame → ℕ
total [] = 0
total (frame ∷ frames) = frame.usage_count + total frames

-- A round lowers a use count or adds to the frames passed by, which are fewer than the pool.
unfoldable pub evict : BufferPool → Run (Option BufferId × BufferPool)
unfolding evict_loop total
evict pool = evict_loop (suc (size pool * total pool.buffers + size pool)) (size pool) 0 pool
