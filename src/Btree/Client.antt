-- ===== src/Btree/Client.antt =====
-- src/btree.rs: how the tree uses the buffer manager. An `Rc<Buffer>` is a frame's index; what the
-- code holds in a scope is dropped at the scope's end, on an error too. Where clones are dropped at
-- the end of several scopes, the order does not show.
use relly.Prelude.{Bytes, Option, none, some, Run, panic, hang, done, index}
use relly.Prelude
use relly.Prelude.Exec.{Result, ok, err, Exec, pure, ◌>>=◌}
use relly.Disk.{PageId}
use relly.Buffer.Pool.{BufferId}
use relly.Buffer.{BufferPoolManager, drop_handle, write_page, set_dirty}
use relly.Buffer

-- `Error` of the tree.
pub data Error : Type 0 where
  duplicate_key : Error
  buffer : Buffer.Error → Error

abbrev pub M : Type 0 → Type 0
M A = Exec BufferPoolManager Error A

-- `#[from] buffer::Error`, as `?` converts it.
abbrev pub from_buffer :
    {A : Type 0}
    → Run (Result Buffer.Error A × BufferPoolManager)
    → Run (Result Error A × BufferPoolManager)
from_buffer (done (ok a, m)) = done (ok a, m)
from_buffer (done (err e, m)) = done (err (buffer e), m)
from_buffer panic = panic
from_buffer hang = hang

unfoldable pub fetch : PageId → M BufferId
fetch page_id m = from_buffer (Buffer.fetch_page page_id m)

unfoldable pub create_buffer : M BufferId
create_buffer m = from_buffer (Buffer.create_page m)

-- `buffer.page.borrow()`
unfoldable pub page_of : BufferId → M Bytes
page_of b m = Prelude.◌>>=◌ (index m.pool.buffers b) (λ frame. done (ok frame.buffer.page, m))

-- `buffer.page_id`
unfoldable pub page_id_of : BufferId → M PageId
page_id_of b m = Prelude.◌>>=◌ (index m.pool.buffers b) (λ frame. done (ok frame.buffer.page_id, m))

-- The page's new bytes.
unfoldable pub put_page : BufferId → Bytes → M (Unit {0})
put_page b page m = Prelude.◌>>=◌ (write_page b page m) (λ m'. done (ok tt, m'))

-- `buffer.is_dirty.set(true)`
unfoldable pub mark_dirty : BufferId → M (Unit {0})
mark_dirty b m = Prelude.◌>>=◌ (set_dirty b m) (λ m'. done (ok tt, m'))

-- `drop(buffer)`
unfoldable pub release : BufferId → M (Unit {0})
release b m = Prelude.◌>>=◌ (drop_handle b m) (λ m'. done (ok tt, m'))

-- The scope of a clone.
abbrev pub released :
    {A : Type 0}
    → BufferId
    → Run (Result Error A × BufferPoolManager)
    → Run (Result Error A × BufferPoolManager)
released b (done (r, m)) = Prelude.◌>>=◌ (drop_handle b m) (λ m'. done (r, m'))
released b panic = panic
released b hang = hang

abbrev pub holding : {A : Type 0} → BufferId → M A → M A
holding b body m = released b (body m)

abbrev pub holding_some : {A : Type 0} → Option BufferId → M A → M A
holding_some none body = body
holding_some (some b) body = holding b body

-- `page_id.map(|id| bufmgr.fetch_page(id)).transpose()?`
abbrev pub fetch_some : Option PageId → M (Option BufferId)
fetch_some none = pure none
fetch_some (some page_id) = do b ← fetch page_id; pure (some b)
