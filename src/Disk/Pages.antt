-- ===== src/Disk/Pages.antt =====
-- src/disk.rs: the heap file as pages.
use relly.Prelude.{
  leb→le, ℕ, ◌+◌, ◌-◌, ◌*◌, ◌≤◌, ◌<◌, ◌≡◌, ◌≢◌, ◌⊎◌, inl, inr, refl, ap, ◌∙◌, List, [], ◌∷◌, ◌++◌,
  Bytes, length, take, drop, replicate, slice, Option, none, some, Returns, true, false, ltb, leb,
  if◌then◌else◌, Bool-cases, arith, length-append, length-replicate, length-overwrite, length-take,
  length-drop, length-slice, slice-overwrite_self, slice-overwrite_ne, slice-append, lt→ltb,
}
use relly.Prelude.Exec.{Result, ok}
use relly.Disk.{PageId, page_size, u64_end, DiskManager, page_offset, write_moved, write_page_data}
use relly.Disk.File.{IoError, Fault, next_fault, later_faults, write_at, seek_start, write_all}

-- The page with an id, if the file holds all of it.
unfoldable pub page_at : Bytes → PageId → Option Bytes
page_at content page_id =
    if leb (page_size * page_id + page_size) (length content)
    then some (slice (page_size * page_id) page_size content)
    else none

slice-write_at_self :
    (content : Bytes) (o : ℕ) (buf : Bytes) → slice o (length buf) (write_at content o buf) ≡ buf
unfolding write_at
slice-write_at_self content o [] = refl
slice-write_at_self content o (b ∷ buf) =
    slice-overwrite_self o (content ++ replicate (o + length (b ∷ buf) - length content) 0)
      (b ∷ buf)
      (omega (
        arith,
        length-append content (replicate (o + length (b ∷ buf) - length content) 0),
        length-replicate {A = ℕ} (o + length (b ∷ buf) - length content) 0,
      ))

slice-write_at_ne :
    (content : Bytes) (o n i : ℕ) (buf : Bytes)
    → o + n ≤ length content
    → (o + n ≤ i) ⊎ (i + length buf ≤ o)
    → slice o n (write_at content i buf) ≡ slice o n content
unfolding write_at
slice-write_at_ne content o n i [] h d = refl
slice-write_at_ne content o n i (b ∷ buf) h d =
    slice-overwrite_ne o n i _ (b ∷ buf) d ∙ slice-append o n content _ h

length-write_at :
    (content : Bytes) (o : ℕ) (buf : Bytes)
    → (length content ≤ length (write_at content o buf))
      × (0 < length buf → o + length buf ≤ length (write_at content o buf))
unfolding write_at
length-write_at content o [] = (omega arith, λ h. absurd (omega arith))
length-write_at content o (b ∷ buf) =
    let gap = o + length (b ∷ buf) - length content in
    let grown = length-append content (replicate gap 0) in
    let n = length-replicate {A = ℕ} gap 0 in
    rw (length-overwrite (content ++ replicate gap 0) o (b ∷ buf)) (omega arith, λ h. omega arith)

pub page_at-eq-some :
    (content : Bytes) (j : PageId) (p : Bytes)
    → page_size * j + page_size ≤ length content
    → slice (page_size * j) page_size content ≡ p
    → page_at content j ≡ some p
unfolding page_at
page_at-eq-some content j p h e =
    let t : leb (page_size * j + page_size) (length content) ≡ true = ground arith in
    rw t (ap some e)

pub page_at-inv :
    (content : Bytes) (j : PageId) (p : Bytes)
    → page_at content j ≡ some p
    → (page_size * j + page_size ≤ length content) × (slice (page_size * j) page_size content ≡ p)
unfolding page_at
page_at-inv content j p h = elim (Bool-cases (leb (page_size * j + page_size) (length content))) [
  | inl t ↦ (leb→le _ _ t, cc (rw t at h))
  | inr t ↦ cc (rw t at h)
]

pub page_at-eq-none :
    (content : Bytes) (j : PageId)
    → length (slice (page_size * j) page_size content) < page_size
    → page_at content j ≡ none
unfolding page_at
page_at-eq-none content j h =
    let t : leb (page_size * j + page_size) (length content) ≡ false =
      ground (arith, length-slice (page_size * j) page_size content) in
    rw t

pub page_inside :
    (content : Bytes) (j : PageId)
    → page_size ≤ length (slice (page_size * j) page_size content)
    → page_size * j + page_size ≤ length content
page_inside content j h = omega (
  arith,
  length-take page_size (drop (page_size * j) content),
  length-drop (page_size * j) content,
)

-- Writes at a page: others keep what they hold, and a whole page is then held.
pub page_at-write_at_ne :
    (content : Bytes) (id j : PageId) (buf p : Bytes)
    → length buf ≤ page_size
    → j ≢ id
    → page_at content j ≡ some p
    → page_at (write_at content (page_size * id) buf) j ≡ some p
page_at-write_at_ne content id j buf p fits apart held =
    let (inside, e) = page_at-inv content j p held in
    page_at-eq-some _ j p (omega (arith, length-write_at content (page_size * id) buf)) (
      slice-write_at_ne content (page_size * j) page_size (page_size * id) buf inside (omega arith)
      ∙ e)

pub page_at-write_at_self :
    (content : Bytes) (id : PageId) (buf : Bytes)
    → length buf ≡ page_size
    → page_at (write_at content (page_size * id) buf) id ≡ some buf
page_at-write_at_self content id buf whole =
    page_at-eq-some _ id buf
      (omega (arith, (length-write_at content (page_size * id) buf).1 (omega arith)))
      (rw whole at (slice-write_at_self content (page_size * id) buf))

-- The two calls to come end as they should.
abbrev pub IsQuiet : List Fault → Type 0
IsQuiet faults = (next_fault faults ≡ none) × (next_fault (later_faults faults) ≡ none)

-- What a write of a page does, whatever faults come.
pub record Wrote (id : PageId) (buf : Bytes) (disk : DiskManager)
    (after : Result IoError (Unit {0}) × DiskManager) : Type 0 where
  pub next_page_id : after.1.next_page_id ≡ disk.next_page_id
  pub others :
      (j : PageId) (p : Bytes)
      → j ≢ id
      → page_at disk.heap_file.content j ≡ some p
      → page_at after.1.heap_file.content j ≡ some p
  pub held : after.0 ≡ ok tt → page_at after.1.heap_file.content id ≡ some buf
  pub quiet : IsQuiet disk.heap_file.faults → after.0 ≡ ok tt
  pub calm : disk.heap_file.faults ≡ [] → after.1.heap_file.faults ≡ []

module _ (id : PageId) (content : Bytes) (cursor next : ℕ) where
  -- The disk with the faults given.
  abbrev pub facing : List Fault → DiskManager
  facing faults = record {
    heap_file = record { content = content; cursor = cursor; faults = faults };
    next_page_id = next;
  }

  write_moved-Wrote :
      (buf : Bytes) (faults : List Fault)
      → length buf ≡ page_size
      → Wrote id buf
          (facing faults)
          (write_moved buf (facing faults) (seek_start (page_size * id) (facing faults).heap_file))
  unfolding write_moved seek_start write_all
  write_moved-Wrote buf [] whole = record {
    next_page_id = refl;
    others = λ j p apart. page_at-write_at_ne content id j buf p (omega arith) apart;
    held = λ h. page_at-write_at_self content id buf whole;
    quiet = λ q. refl;
    calm = λ e. refl;
  }
  write_moved-Wrote buf (none ∷ []) whole = record {
    next_page_id = refl;
    others = λ j p apart. page_at-write_at_ne content id j buf p (omega arith) apart;
    held = λ h. page_at-write_at_self content id buf whole;
    quiet = λ q. refl;
    calm = λ e. cc;
  }
  write_moved-Wrote buf (none ∷ none ∷ faults) whole = record {
    next_page_id = refl;
    others = λ j p apart. page_at-write_at_ne content id j buf p (omega arith) apart;
    held = λ h. page_at-write_at_self content id buf whole;
    quiet = λ q. refl;
    calm = λ e. cc;
  }
  write_moved-Wrote buf (none ∷ some k ∷ faults) whole = record {
    next_page_id = refl;
    others = λ j p apart.
        page_at-write_at_ne content id j (take k buf) p (omega (arith, length-take k buf)) apart;
    held = λ h. cc;
    quiet = λ q. cc q.1;
    calm = λ e. cc;
  }
  write_moved-Wrote buf (some k ∷ faults) whole = record {
    next_page_id = refl;
    others = λ j p apart h. h;
    held = λ h. cc;
    quiet = λ q. cc q.0;
    calm = λ e. cc;
  }

-- A write of a whole page, at an id whose offset fits 64 bits, returns. No page with another id
-- is lost or changed, by a failed write either; a write that succeeds makes the page readable; a
-- write succeeds when neither of its calls fails; and a disk on which no call fails stays so.
pub write_page_data-Wrote :
    (id : PageId) (buf : Bytes) (disk : DiskManager)
    → page_size * id < u64_end
    → length buf ≡ page_size
    → Returns (write_page_data id buf disk) (Wrote id buf disk)
unfolding write_page_data page_offset
write_page_data-Wrote id buf disk fits whole =
    let t : ltb (page_size * id) u64_end ≡ true = lt→ltb _ _ fits in
    rw t (
      write_moved-Wrote id disk.heap_file.content disk.heap_file.cursor disk.next_page_id buf
        disk.heap_file.faults whole)
