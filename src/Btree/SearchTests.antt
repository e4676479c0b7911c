-- ===== src/Btree/SearchTests.antt =====
-- src/btree.rs: the theorems on searches and on an insert, at a tree of two leaves.
use relly.Prelude.{[], ◌∷◌, ◌++◌, ◌+◌, ◌≤◌, ◌/◌, length, replicate, refl, Returns, arith}
use relly.Buffer.{BufferPoolManager}
use relly.Buffer.Pool.{Frame, put_frame}
use relly.Buffer.Reuse.{reused-IsValid}
use relly.Slotted.Inserts.{HasSpace}
use relly.Btree.{Pair}
use relly.Btree.Insertion.{insert_internal}
use relly.Btree.Placed.{IsLeafPage, Placed, insert_internal-Placed}
use relly.Buffer.Valid.{IsValid, contents}
use relly.Btree.SearchMode.{key, start}
use relly.Btree.Tree
use relly.Btree.Tree.{search}
use relly.Btree.Found.{FoundPair, search-FoundPair}
use relly.Btree.Scan.{Scanned, search-Scanned}
use relly.Btree.TestData.{bincode, program}
use relly.Btree.TestTree.{
  page, low_leaf, low-Holds, low, high, frame, manager, manager-IsValid, tree, linked,
}

search-FoundPair_example :
    Returns
      (search bincode 2 (Tree.new 0) (key high.key) manager)
      (FoundPair bincode manager (contents manager) high)
search-FoundPair_example =
    search-FoundPair bincode 2 1 (Tree.new 0) (low ∷ high ∷ []) 1 high manager manager-IsValid
      (0, frame 0, refl, refl) refl tree (omega arith) refl

search-Scanned_example :
    Returns
      (search bincode 2 (Tree.new 0) start manager)
      (Scanned bincode manager (low ∷ high ∷ []))
search-Scanned_example =
    search-Scanned bincode 2 1 (Tree.new 0) (low ∷ high ∷ []) manager manager-IsValid
      (0, 1, frame 0, frame 1, (λ e. omega arith), refl, refl, refl, refl) refl tree linked
      (omega arith)

-- A pair between the two, and the manager with a clone of the first leaf's buffer about.
abbrev middle : Pair
middle = record { key = b'e' ∷ (replicate 7 0 ++ 1 ∷ []); value = b'C' ∷ (replicate 7 0 ++ 1 ∷ []) }

abbrev held : Frame
held = record (frame 2) { usage_count = 1; handles = 1 }

abbrev holder : BufferPoolManager
holder = record manager { pool = put_frame manager.pool 2 held }

holder-IsValid : IsValid holder
holder-IsValid =
    reused-IsValid manager manager-IsValid 2 (frame 2) refl held refl (λ h. omega arith)

low_page : IsLeafPage bincode (page 2) low_leaf (low ∷ [])
unfolding program
low_page = record {
  written = refl;
  fits = record {
    prev = omega arith;
    next = omega arith;
    body = record { num_slots = omega arith; free_space_offset = omega arith; pad = omega arith };
  };
  holds = low-Holds;
}

has_space : HasSpace 20 low_leaf.body × (20 + 4 ≤ length low_leaf.body.body / 2)
unfolding program
has_space = (omega arith, omega arith)

insert_internal-Placed_example :
    Returns
      (insert_internal bincode 1 2 middle.key middle.value holder)
      (Placed bincode middle (low ∷ []) 2 held holder)
insert_internal-Placed_example =
    insert_internal-Placed bincode middle (9 ∷ (middle.key ++ 9 ∷ middle.value)) (low ∷ []) low_leaf
      holder holder-IsValid 2 held refl (omega arith) (λ e. omega arith) low_page refl has_space.1
      has_space.0 0
