-- ===== src/Btree/TestTree.antt =====
-- src/btree.rs: a tree of four pages for the tests.
use relly.Prelude.{
  ℕ, zero, suc, ap, ◌<◌, ◌≡◌, refl, [], ◌∷◌, ◌++◌, Bytes, length, replicate, Option, some, Run,
  done, arith, true,
}
use relly.Disk.{invalid_page_id, page_size}
use relly.Buffer.{BufferPoolManager, lookup}
use relly.Buffer.Pool.{Frame}
use relly.Buffer.Valid.{IsValid, contents, frame_at, contents_mapped}
use relly.Slotted.{Slotted}
use relly.Btree.{Pair}
use relly.Btree.Leaf.{Leaf}
use relly.Btree.Leaf
use relly.Btree.Leaf.Pairs.{Holds, initialize-Holds}
use relly.Btree.Leaf.Insert.{insert-AfterInsert}
use relly.Btree.Branch.{Branch}
use relly.Btree.Branch.Search.{HasChildren}
use relly.Btree.Meta.{Meta}
use relly.Btree.Views.{leaf_page, branch_page, meta_bytes}
use relly.Btree.Tree
use relly.Btree.Tree.{BTree, search}
use relly.Btree.Stored
use relly.Btree.Stored.{Stored, Children, AreBelow, AreFrom}
use relly.Btree.Stored.{leftmost, leftmost_child}
use relly.Btree.Chain.{LeafAt}
use relly.Btree.Chain
use relly.Btree.Scan.{IsLinked}
use relly.Btree.Found.{IsTree}
use relly.Btree.TestData.{bincode, program}

-- Pages with one pair each: two leaves, and the branch over them.
-- A branch has eight bytes more.
abbrev pub empty_page : ℕ → Slotted
empty_page n = record { num_slots = 0; free_space_offset = n; pad = 0; body = replicate n 0 }

abbrev pub empty_leaf : ℕ → Leaf
empty_leaf n = record {
  header = record { prev_page_id = 0; next_page_id = 0 };
  body = empty_page n;
}

empty-Holds : Holds bincode (empty_page 4064) []
unfolding program
empty-Holds = initialize-Holds bincode (record (empty_page 4064) { num_slots = 9 }) (omega arith)

empty_branch-Holds : Holds bincode (empty_page 4072) []
unfolding program
empty_branch-Holds =
    initialize-Holds bincode (record (empty_page 4072) { num_slots = 9 }) (omega arith)

abbrev pub page_of : Run (Option (Unit {0}) × Leaf) → Slotted
page_of (done (fitted, l)) = l.body
page_of _ = empty_page 0

abbrev pub page_with : ℕ → Pair → Slotted
unfolding program
page_with n p = page_of (Leaf.insert bincode 0 p.key p.value (empty_leaf n))

abbrev pub low : Pair
low = record { key = b'd' ∷ (replicate 7 0 ++ 1 ∷ []); value = b'A' ∷ (replicate 7 0 ++ 1 ∷ []) }

abbrev pub high : Pair
high = record { key = b'f' ∷ (replicate 7 0 ++ 1 ∷ []); value = b'B' ∷ (replicate 7 0 ++ 1 ∷ []) }

abbrev pub sep : Pair
sep = record { key = high.key; value = 2 ∷ replicate 7 0 }

pub low-Holds : Holds bincode (page_with 4064 low) (low ∷ [])
unfolding program
low-Holds =
    (insert-AfterInsert bincode 0 low (9 ∷ (low.key ++ 9 ∷ low.value)) [] (empty_leaf 4064)
      empty-Holds (omega arith, (λ j p h e. cc), (λ j p h e. cc)) refl (omega arith)).0

high-Holds : Holds bincode (page_with 4064 high) (high ∷ [])
unfolding program
high-Holds =
    (insert-AfterInsert bincode 0 high (9 ∷ (high.key ++ 9 ∷ high.value)) [] (empty_leaf 4064)
      empty-Holds (omega arith, (λ j p h e. cc), (λ j p h e. cc)) refl (omega arith)).0

sep-Holds : Holds bincode (page_with 4072 sep) (sep ∷ [])
unfolding program
sep-Holds =
    (insert-AfterInsert bincode 0 sep (9 ∷ (sep.key ++ 8 ∷ sep.value)) [] (empty_leaf 4072)
      empty_branch-Holds (omega arith, (λ j p h e. cc), (λ j p h e. cc)) refl (omega arith)).0

abbrev pub low_leaf : Leaf
low_leaf = record {
  header = record { prev_page_id = invalid_page_id; next_page_id = 3 };
  body = page_with 4064 low;
}

abbrev pub high_leaf : Leaf
high_leaf = record {
  header = record { prev_page_id = 2; next_page_id = invalid_page_id };
  body = page_with 4064 high;
}

abbrev pub root : Branch
root = record { header = record { right_child = 3 }; body = page_with 4072 sep }

abbrev pub meta : Meta
meta = record { header = record { root_page_id = 1 }; unused = replicate 4088 0 }

-- The pages and their frames.
abbrev pub page : ℕ → Bytes
page zero = meta_bytes meta
page (suc zero) = branch_page root
page (suc (suc zero)) = leaf_page low_leaf
page (suc (suc (suc zero))) = leaf_page high_leaf
page _ = []

abbrev pub frame : ℕ → Frame
frame b = record {
  usage_count = 0;
  buffer = record { page_id = b; page = page b; is_dirty = true };
  handles = 0;
}

abbrev pub manager : BufferPoolManager
manager = record {
  disk = record { heap_file = record { content = []; cursor = 0; faults = [] }; next_page_id = 4 };
  pool = record { buffers = frame 0 ∷ frame 1 ∷ frame 2 ∷ frame 3 ∷ []; next_victim_id = 0 };
  page_table = (0, 0) ∷ (1, 1) ∷ (2, 2) ∷ (3, 3) ∷ [];
}

only : (b : ℕ) (f : Frame) → frame_at manager b ≡ some f → (b < 4) × (f ≡ frame b)
only zero f h = (omega arith, cc)
only (suc zero) f h = (omega arith, cc)
only (suc (suc zero)) f h = (omega arith, cc)
only (suc (suc (suc zero))) f h = (omega arith, cc)
only (suc (suc (suc (suc b)))) f h = cc

mapped_to : (p b : ℕ) → lookup p manager.page_table ≡ some b → (b ≡ p) × (p < 4)
unfolding lookup
mapped_to p b e = ground arith

frame_there : (b : ℕ) → b < 4 → frame_at manager b ≡ some (frame b)
frame_there zero h = refl
frame_there (suc zero) h = refl
frame_there (suc (suc zero)) h = refl
frame_there (suc (suc (suc zero))) h = refl
frame_there (suc (suc (suc (suc b)))) h = absurd (omega arith)

mapped_there : (b : ℕ) → b < 4 → lookup b manager.page_table ≡ some b
unfolding lookup
mapped_there b h = ground arith

whole : (b : ℕ) → b < 4 → length (page b) ≡ page_size
unfolding program
whole zero h = refl
whole (suc zero) h = refl
whole (suc (suc zero)) h = refl
whole (suc (suc (suc zero))) h = refl
whole (suc (suc (suc (suc b)))) h = absurd (omega arith)

pub manager-IsValid : IsValid manager
manager-IsValid = record {
  victim = omega arith;
  mapped = λ p b e.
      let (same, lt) = mapped_to p b e in (frame b, frame_there b (omega arith), same, omega arith);
  owned = λ b f e valid. let (lt, k) = only b f e in rw k (mapped_there b lt);
  dirty = λ b f e d. let (lt, k) = only b f e in rw k (λ i. omega arith);
  clean = λ b f e valid d. let (lt, k) = only b f e in cc (rw k at d);
  whole = λ b f e. let (lt, k) = only b f e in rw k (whole b lt);
  pinned = λ b f e p. let (lt, k) = only b f e in omega (arith, ap (λ (x : Frame). x.handles) k);
}

held : (b : ℕ) → b < 4 → contents manager b ≡ some (page b)
held b lt = contents_mapped manager b b (frame b) (mapped_there b lt) (frame_there b lt)

low_stored : Stored bincode (contents manager) 0 2 (low ∷ [])
unfolding program
low_stored =
    Stored.leaf 2 (page 2) low_leaf (low ∷ []) (omega arith) (held 2 (omega arith)) refl low-Holds

high_stored : Stored bincode (contents manager) 0 3 (high ∷ [])
unfolding program
high_stored =
    Stored.leaf 3 (page 3) high_leaf (high ∷ []) (omega arith) (held 3 (omega arith)) refl
      high-Holds

low_is_below : AreBelow sep.key (low ∷ [])
unfolding program
low_is_below zero p e = let same : p ≡ low = cc in rw same refl
low_is_below (suc i) p e = cc

high_is_from : AreFrom sep.key (high ∷ [])
unfolding program
high_is_from zero p e = let same : p ≡ high = cc in rw same (λ h. cc)
high_is_from (suc i) p e = cc

has_children : HasChildren (sep ∷ [])
unfolding program
has_children zero p e = (2, omega arith, cc)
has_children (suc i) p e = cc

stored : Stored bincode (contents manager) 1 1 (low ∷ high ∷ [])
unfolding program
stored =
    Stored.branch 0 1 (page 1) root (sep ∷ []) (low ∷ high ∷ []) (omega arith)
      (held 1 (omega arith)) refl sep-Holds has_children
      (Stored.before 0 sep [] 2 3 (low ∷ []) (high ∷ []) (omega arith) refl low_stored low_is_below
        (Stored.last 0 3 (high ∷ []) high_stored) high_is_from)

pub tree : IsTree bincode (contents manager) (Tree.new 0) 1 (low ∷ high ∷ [])
unfolding program
tree = record {
  page = page 0;
  offset = omega arith;
  here = held 0 (omega arith);
  meta = meta;
  opened = refl;
  stored = stored;
}

low_at : LeafAt bincode (contents manager) 2 (page 2) low_leaf (low ∷ [])
unfolding program
low_at = record {
  offset = omega arith;
  here = held 2 (omega arith);
  opened = refl;
  holds = low-Holds;
}

high_at : LeafAt bincode (contents manager) 3 (page 3) high_leaf (high ∷ [])
unfolding program
high_at = record {
  offset = omega arith;
  here = held 3 (omega arith);
  opened = refl;
  holds = high-Holds;
}

pub linked : IsLinked bincode (contents manager) tree.stored
unfolding program leftmost leftmost_child tree stored low_stored
linked = record {
  first = low ∷ [];
  rest = high ∷ [];
  chain =
      Chain.link 2 3 (page 2) low_leaf (low ∷ []) (high ∷ []) [] low_at refl
        (Chain.end 3 (page 3) high_leaf (high ∷ []) high_at refl) (omega arith);
  all = refl;
  has_some = omega arith;
}
