-- ===== src/Disk/Ids.antt =====
-- src/disk.rs: the conversions of `PageId`.
use relly.Prelude.{
  ℕ, zero, suc, ◌/◌, ◌<◌, ◌≡◌, ◌≢◌, refl, ap, length, Option, none, some, done, arith,
}
use relly.Disk.{
  PageId, invalid_page_id, u64_end, valid, from_option, le_value, le_bytes, from_bytes, as_bytes,
}

-- An optional id survives a header field, unless it is the id that stands for none.
pub valid-from_option :
    (page_id : Option PageId)
    → page_id ≢ some invalid_page_id
    → valid (from_option page_id) ≡ page_id
unfolding valid from_option
valid-from_option none h = refl
valid-from_option (some p) h = ground arith

pub length-le_bytes : (n x : ℕ) → length (le_bytes n x) ≡ n
unfolding le_bytes
length-le_bytes zero x = refl
length-le_bytes (suc n) x = ap suc (length-le_bytes n (x / 256))

pub le_value-le_bytes_eight : (x : ℕ) → x < u64_end → le_value (le_bytes 8 x) ≡ x
unfolding le_value le_bytes
le_value-le_bytes_eight x h = omega arith

-- The bytes of a 64-bit page id read back as that id.
pub from_bytes-as_bytes :
    (page_id : PageId) → page_id < u64_end → from_bytes (as_bytes page_id) ≡ done page_id
unfolding from_bytes as_bytes
from_bytes-as_bytes page_id h =
    rw (length-le_bytes 8 page_id) (ap done (le_value-le_bytes_eight page_id h))
