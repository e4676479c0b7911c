-- ===== src/Buffer/Stale.antt =====
-- src/buffer.rs: what a read that fails in `fetch_page` leaves behind.
use relly.Prelude.{
  ◌≡◌, ◌≢◌, refl, sym, ap, ◌∙◌, Bytes, get_elem?, get_elem?-set_self, lt-of_get_elem?, none, some,
  true, false, done, ◌==◌, arith, Returns,
}
use relly.Prelude.Exec.{Result, err}
use relly.Disk.{PageId, DiskManager, invalid_page_id, read_page_data}
use relly.Disk.File.{IoError}
use relly.Buffer.Pool.{BufferId, Frame, BufferPool, evict}
use relly.Buffer.Pool.Sweep.{evict-Evicted}
use relly.Buffer.{
  Error, io, lookup, BufferPoolManager, fetch_loaded, fetch_written, fetch_victim, fetch_page,
}
use relly.Buffer.Valid.{IsValid, Swept-IsValid}
use relly.Buffer.Victim.{write_back_clean}
use relly.Buffer.Fetch.{unused_free}

-- The table still maps the victim's page to the frame, whose buffer has another page's id.
pub record Stale (victim page_id : PageId) (b : BufferId) (e : IoError)
    (after : Result Error BufferId × BufferPoolManager) : Type 0 where
  pub failed : after.0 ≡ err (io e)
  pub mapped : lookup victim after.1.page_table ≡ some b
  pub frame :
      (g : Frame) × (get_elem? after.1.pool.buffers b ≡ some g) × (g.buffer.page_id ≡ page_id)
  pub broken : ¬ IsValid after.1

-- When the victim's buffer is clean and names a page, and the read of the new page fails, then
-- `fetch_page` returns the error, but the table still maps the victim's page to the frame, whose
-- buffer has the new page's id by then: the manager is no longer well formed.
pub fetch_page-Stale :
    (page_id : PageId) (m : BufferPoolManager) (b : BufferId) (pool : BufferPool) (f : Frame)
    (e : IoError) (page : Bytes) (disk : DiskManager)
    → IsValid m
    → lookup page_id m.page_table ≡ none
    → evict m.pool ≡ done (some b, pool)
    → get_elem? pool.buffers b ≡ some f
    → f.buffer.page_id ≢ invalid_page_id
    → f.buffer.is_dirty ≡ false
    → read_page_data page_id f.buffer.page m.disk ≡ done (err e, page, disk)
    → Returns (fetch_page page_id m) (Stale f.buffer.page_id page_id b e)
unfolding fetch_page fetch_victim fetch_written fetch_loaded
fetch_page-Stale page_id m b pool f e page disk v absent evicted found named clean failed =
    let (swept, (f', found', unused)) = rw evicted at (evict-Evicted m.pool v.victim) in
    let m' : BufferPoolManager = record m { pool = pool } in
    let v' = Swept-IsValid m pool swept v in
    let same : f' ≡ f = cc in
    let free =
      unused_free m' b f v' found (ap (λ (x : Frame). x.usage_count) (sym same) ∙ unused) in
    let t : f.handles == 0 ≡ true = ground arith in
    let own = v'.owned b f found named in
    let g : Frame = record f {
      buffer = record { page_id = page_id; page = page; is_dirty = false };
    } in
    let here = get_elem?-set_self pool.buffers b g (lt-of_get_elem? pool.buffers b f found) in
    rw (absent, fetch_page, evicted, found, t, write_back_clean m' v' b f found clean, failed)
      (record {
        failed = refl;
        mapped = own;
        frame = (g, here, refl);
        broken = λ w.
            let (h, there, id, _) = w.mapped f.buffer.page_id b own in
            let k : h ≡ g = cc in
            let renamed : page_id ≡ f.buffer.page_id =
              ap (λ (x : Frame). x.buffer.page_id) (sym k) ∙ id in
            cc (ap (λ x. lookup x m.page_table) renamed);
      })
