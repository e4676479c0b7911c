-- ===== src/Btree/TreeTests.antt =====
-- src/btree.rs: its tests. The values of `test` are shorter, and `test_search_iter` has eight of
-- its sixteen pairs.
use relly.Prelude.{
  ℕ, zero, suc, ◌+◌, ◌*◌, ◌≡◌, refl, List, [], ◌∷◌, ◌++◌, Bytes, replicate, Option, none, some, Run,
  done, panic, hang,
}
use relly.Prelude
use relly.Prelude.Exec.{ok, ◌>>=◌, ◌>>◌, pure}
use relly.Btree.SearchMode.{key}
use relly.Btree.Client.{M}
use relly.Btree.Tree.{BTree, create, search}
use relly.Btree.Iter.{get}
use relly.Btree.Insertion.{insert}
use relly.Btree.TestData.{bincode, program, start, result}

abbrev be : ℕ → Bytes
be n = replicate 7 0 ++ n ∷ []

abbrev insert_all : BTree → List (Bytes × Bytes) → M (Unit {0})
insert_all tree [] = pure tt
insert_all tree ((k, v) ∷ pairs) = do insert bincode 4 tree k v; insert_all tree pairs

abbrev found : BTree → Bytes → M (Option (Bytes × Bytes))
found tree k = do
  iter ← search bincode 4 tree (key k)
  λ m. Prelude.◌>>=◌ (get bincode iter m) (λ r. done (ok r, m))

-- `test`: four pairs.
abbrev four : ℕ → M (Option (Bytes × Bytes))
four x = do
  tree ← create
  insert_all tree
      ((be 6, b'w' ∷ []) ∷ (be 3, b'h' ∷ []) ∷ (be 8, b'!' ∷ []) ∷ (be 4, b',' ∷ []) ∷ [])
  found tree (be x)

four_runs :
    (result (four 3 start) ≡ done (ok (some (be 3, b'h' ∷ []))))
    × (result (four 8 start) ≡ done (ok (some (be 8, b'!' ∷ []))))
unfolding program
four_runs = (refl, refl)

-- `test_search_iter`: keys that are not there, before which leaves end or not.
abbrev after_even : ℕ → M (Option (Bytes × Bytes))
after_even x = do
  tree ← create
  insert_all tree (
      (be 0, replicate 1024 0)
      ∷ (be 2, replicate 1024 0)
      ∷ (be 4, replicate 1024 0)
      ∷ (be 6, replicate 1024 0)
      ∷ (be 8, replicate 1024 0)
      ∷ (be 10, replicate 1024 0)
      ∷ (be 12, replicate 1024 0)
      ∷ (be 14, replicate 1024 0)
      ∷ [])
  found tree (be x)

odd_runs :
    (result (after_even 1 start) ≡ done (ok (some (be 2, replicate 1024 0))))
    × (result (after_even 3 start) ≡ done (ok (some (be 4, replicate 1024 0))))
    × (result (after_even 9 start) ≡ done (ok (some (be 10, replicate 1024 0))))
unfolding program
odd_runs = (refl, refl, refl)

-- `test_split`: pairs of 2,000 bytes, so that the root is split, and then a leaf below it.
abbrev long : ℕ → Bytes × Bytes
long x = (replicate 1000 x, replicate 1000 x)

abbrev after_splits : ℕ → M (Option (Bytes × Bytes))
after_splits x = do
  tree ← create
  insert_all tree (
      long 0xC0
      ∷ long 0x01
      ∷ long 0xCA
      ∷ long 0xFE
      ∷ long 0xDE
      ∷ long 0xAD
      ∷ long 0xBE
      ∷ long 0xAE
      ∷ [])
  found tree (replicate 1000 x)

splits_run :
    (result (after_splits 0xC0 start) ≡ done (ok (some (long 0xC0))))
    × (result (after_splits 0x01 start) ≡ done (ok (some (long 0x01))))
    × (result (after_splits 0xCA start) ≡ done (ok (some (long 0xCA))))
    × (result (after_splits 0xFE start) ≡ done (ok (some (long 0xFE))))
unfolding program
splits_run = (refl, refl, refl, refl)

later_splits_run :
    (result (after_splits 0xDE start) ≡ done (ok (some (long 0xDE))))
    × (result (after_splits 0xAD start) ≡ done (ok (some (long 0xAD))))
    × (result (after_splits 0xBE start) ≡ done (ok (some (long 0xBE))))
    × (result (after_splits 0xAE start) ≡ done (ok (some (long 0xAE))))
unfolding program
later_splits_run = (refl, refl, refl, refl)
