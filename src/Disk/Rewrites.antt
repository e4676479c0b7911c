-- ===== src/Disk/Rewrites.antt =====
-- src/disk.rs: a page is written that the heap file holds already.
use relly.Prelude.{
  ℕ, zero, suc, ◌+◌, ◌-◌, ◌*◌, ◌<◌, ◌≡◌, refl, sym, ap, ◌∙◌, List, [], ◌∷◌, ◌++◌, Bytes, length,
  take, replicate, slice, overwrite, none, some, Returns, true, ltb, arith, length-append,
  slice-append, lt→ltb,
}
use relly.Disk.{PageId, page_size, u64_end, DiskManager, page_offset, write_moved, write_page_data}
use relly.Disk.File.{Fault, write_at, seek_start, write_all}
use relly.Disk.Pages.{page_at, page_at-inv, page_at-eq-some, page_at-write_at_self, facing}

overwrite_same : (xs : Bytes) (i n k : ℕ) → overwrite xs i (take k (slice i n xs)) ≡ xs
unfolding overwrite
overwrite_same [] i n k = refl
overwrite_same (x ∷ xs) zero zero zero = refl
overwrite_same (x ∷ xs) zero zero (suc k) = refl
overwrite_same (x ∷ xs) zero (suc n) zero = refl
overwrite_same (x ∷ xs) zero (suc n) (suc k) = ap (λ ys. x ∷ ys) (overwrite_same xs zero n k)
overwrite_same (x ∷ xs) (suc i) n k = ap (λ ys. x ∷ ys) (overwrite_same xs i n k)

page_at-append :
    (content more : Bytes) (id : PageId) (buf : Bytes)
    → page_at content id ≡ some buf
    → page_at (content ++ more) id ≡ some buf
page_at-append content more id buf held =
    let (inside, e) = page_at-inv content id buf held in
    page_at-eq-some (content ++ more) id buf (omega (arith, length-append content more))
      (slice-append (page_size * id) page_size content more inside ∙ e)

page_at-write_at_part :
    (content : Bytes) (id : PageId) (k : ℕ) (buf part : Bytes)
    → page_at content id ≡ some buf
    → part ≡ take k buf
    → page_at (write_at content (page_size * id) part) id ≡ some buf
unfolding write_at
page_at-write_at_part content id k buf [] held e = held
page_at-write_at_part content id k buf (b ∷ part) held e =
    let gap = replicate (page_size * id + length (b ∷ part) - length content) 0 in
    let (inside, here) = page_at-inv content id buf held in
    let prefix : take k (slice (page_size * id) page_size (content ++ gap)) ≡ b ∷ part =
      ap (take k) (slice-append (page_size * id) page_size content gap inside ∙ here) ∙ sym e in
    let same : overwrite (content ++ gap) (page_size * id) (b ∷ part) ≡ content ++ gap =
      ap (overwrite (content ++ gap) (page_size * id)) (sym prefix)
      ∙ overwrite_same (content ++ gap) (page_size * id) page_size k in
    ap (λ x. page_at x id) same ∙ page_at-append content gap id buf held

-- A page that is written with what the file holds of it already is held afterwards, whatever
-- faults come.
module _ (id : PageId) (content : Bytes) (cursor next : ℕ) (buf : Bytes)
    (whole : length buf ≡ page_size) (held : page_at content id ≡ some buf) where
  write_moved-held :
      (faults : List Fault)
      → page_at
          (write_moved buf (facing id content cursor next faults) (
            seek_start
              (page_size * id)
              (facing id content cursor next faults).heap_file)).1.heap_file.content
          id
        ≡ some buf
  unfolding write_moved seek_start write_all
  write_moved-held [] = page_at-write_at_self content id buf whole
  write_moved-held (none ∷ []) = page_at-write_at_self content id buf whole
  write_moved-held (none ∷ none ∷ faults) = page_at-write_at_self content id buf whole
  write_moved-held (none ∷ some k ∷ faults) =
      page_at-write_at_part content id k buf (take k buf) held refl
  write_moved-held (some k ∷ faults) = held

pub write_page_data-held :
    (id : PageId) (buf : Bytes) (disk : DiskManager)
    → page_size * id < u64_end
    → length buf ≡ page_size
    → page_at disk.heap_file.content id ≡ some buf
    → Returns
        (write_page_data id buf disk)
        (λ after. page_at after.1.heap_file.content id ≡ some buf)
unfolding write_page_data page_offset
write_page_data-held id buf disk fits whole held =
    let t : ltb (page_size * id) u64_end ≡ true = lt→ltb _ _ fits in
    rw t (
      write_moved-held id disk.heap_file.content disk.heap_file.cursor disk.next_page_id buf whole
        held disk.heap_file.faults)
