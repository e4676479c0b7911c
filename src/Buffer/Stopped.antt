-- ===== src/Buffer/Stopped.antt =====
-- src/buffer.rs: `flush` stops where the write of a page fails.
use relly.Prelude.{
  Bytes, ◌≡◌, inl, inr, refl, sym, ap, ◌∙◌, none, some, eq_cases, subst, Option-cases,
}
use relly.Prelude.Exec.{Result, ok, err}
use relly.Disk.{DiskManager, PageId}
use relly.Disk.File.{IoError}
use relly.Disk.Pages.{Wrote, page_at}
use relly.Buffer.Pool.{BufferId, Frame}
use relly.Buffer.{lookup, BufferPoolManager, Error, io}
use relly.Buffer.Saved.{Saved, same-Saved, Saved-trans}
use relly.Buffer.Valid.{
  IsValid, contents, frame_at, disk_page, contents_mapped, contents_unmapped, same_frame,
}

-- The pages that a manager holds, and its frames but for the marks of their buffers as dirty, are
-- as before; an error is one of the disk.
pub record Survived (m : BufferPoolManager) (after : Result Error (Unit {0}) × BufferPoolManager)
    : Type 0 where
  pub valid : IsValid after.1
  pub table : after.1.page_table ≡ m.page_table
  pub frames :
      (b : BufferId) (f : Frame)
      → frame_at m b ≡ some f
      → (g : Frame) × (frame_at after.1 b ≡ some g) × Saved f g
  pub kept : (p : PageId) (q : Bytes) → contents m p ≡ some q → contents after.1 p ≡ some q
  pub failed : (e : Error) → after.0 ≡ err e → (x : IoError) × (e ≡ io x)

-- A write of a page failed.
module _ (m : BufferPoolManager) (v : IsValid m) (p : PageId) (b : BufferId)
    (here : lookup p m.page_table ≡ some b) (f : Frame) (found : frame_at m b ≡ some f)
    (x : IoError) (disk : DiskManager) (wrote : Wrote p f.buffer.page m.disk (err x, disk))
    (again : disk_page m p ≡ some f.buffer.page
      → page_at disk.heap_file.content p ≡ some f.buffer.page) where
  abbrev stopped : BufferPoolManager
  stopped = record m { disk = disk }

  the_frame :
      (b' : BufferId) (g : Frame) → frame_at m b' ≡ some g → lookup p m.page_table ≡ some b' → g ≡ f
  the_frame b' g e k =
      let same : b' ≡ b = cc in same_frame m b f g found (subst (λ i. frame_at m i ≡ some g) same e)

  stopped-IsValid : IsValid stopped
  stopped-IsValid = record {
    victim = v.victim;
    mapped = v.mapped;
    owned = v.owned;
    dirty = v.dirty;
    clean = λ b' g e valid d. elim (eq_cases g.buffer.page_id p) [
      | inl same ↦
          let mine : g ≡ f =
            the_frame b' g e (ap (λ i. lookup i m.page_table) (sym same) ∙ v.owned b' g e valid) in
          let held : disk_page m p ≡ some f.buffer.page =
            ap (disk_page m) (sym same)
            ∙ v.clean b' g e valid d
            ∙ ap (λ (k : Frame). some k.buffer.page) mine in
          ap (page_at disk.heap_file.content) same
          ∙ again held
          ∙ ap (λ (k : Frame). some k.buffer.page) (sym mine)
      | inr apart ↦ wrote.others g.buffer.page_id g.buffer.page apart (v.clean b' g e valid d)
    ];
    whole = v.whole;
    pinned = v.pinned;
  }

  stopped-kept : (p' : PageId) (q : Bytes) → contents m p' ≡ some q → contents stopped p' ≡ some q
  stopped-kept p' q h = elim (Option-cases (lookup p' m.page_table)) [
    | inl e ↦
        contents_unmapped stopped p' e
        ∙ wrote.others p' q (λ i. absent b (sym e ∙ ap (λ k. lookup k m.page_table) i ∙ here))
            (sym (contents_unmapped m p' e) ∙ h)
    | inr (b', e) ↦
        let (k, at_b, _, _) = v.mapped p' b' e in
        contents_mapped stopped p' b' k e at_b ∙ sym (contents_mapped m p' b' k e at_b) ∙ h
  ]
    where
      absent : (i : BufferId) → none ≡ some i → ⊥
      absent i k = cc

  pub stopped-Survived : Survived m (err (io x), stopped)
  stopped-Survived = record {
    valid = stopped-IsValid;
    table = refl;
    frames = λ b' g e. (g, e, same-Saved g);
    kept = stopped-kept;
    failed = λ e h. (x, cc);
  }

pub Survived-trans :
    (m n : BufferPoolManager) (after : Result Error (Unit {0}) × BufferPoolManager)
    → Survived m (ok tt, n)
    → Survived n after
    → Survived m after
Survived-trans m n after s r = record {
  valid = r.valid;
  table = r.table ∙ s.table;
  frames = λ b f e.
      let (g, e', k) = s.frames b f e in
      let (h, e'', k') = r.frames b g e' in (h, e'', Saved-trans f g h k k');
  kept = λ p q h. r.kept p q (s.kept p q h);
  failed = r.failed;
}

pub ok-Survived : (m : BufferPoolManager) → IsValid m → Survived m (ok tt, m)
ok-Survived m v = record {
  valid = v;
  table = refl;
  frames = λ b f e. (f, e, same-Saved f);
  kept = λ p q h. h;
  failed = λ e h. cc;
}
