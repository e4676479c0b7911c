-- ===== src/Btree/Meta.antt =====
-- src/btree/meta.rs: the page that names the root.
use relly.Prelude.{◌-◌, Bytes, length, slice, Run, panic, done, ltb, if◌then◌else◌}
use relly.Disk.{PageId, le_value}

pub record Header : Type 0 where
  pub root_page_id : PageId

pub record Meta : Type 0 where
  pub header : Header
  pub unused : Bytes

-- A page that is shorter than the header is the `expect`.
unfoldable pub new : Bytes → Run Meta
new bytes =
    if ltb (length bytes) 8
    then panic
    else done (record {
      header = record { root_page_id = le_value (slice 0 8 bytes) };
      unused = slice 8 (length bytes - 8) bytes;
    })
