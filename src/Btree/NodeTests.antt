-- ===== src/Btree/NodeTests.antt =====
-- src/btree/node.rs: the theorem at the pages of a leaf and of a branch.
use relly.Prelude.{◌≡◌, done, arith}
use relly.Btree.Node.{Body}
use relly.Btree.Views.{leaf_page, branch_page, open_body}
use relly.Btree.Bodies.{FitsLeaf, FitsBranch, open_body-pages}
use relly.Btree.TestData.{program}
use relly.Btree.TestTree.{low_leaf, root}

low_leaf-FitsLeaf : FitsLeaf low_leaf
unfolding program
low_leaf-FitsLeaf = record {
  prev = omega arith;
  next = omega arith;
  body = record { num_slots = omega arith; free_space_offset = omega arith; pad = omega arith };
}

root-FitsBranch : FitsBranch root
unfolding program
root-FitsBranch = record {
  right = omega arith;
  body = record { num_slots = omega arith; free_space_offset = omega arith; pad = omega arith };
}

open_body-pages_example :
    (open_body (leaf_page low_leaf) ≡ done (Body.leaf low_leaf))
    × (open_body (branch_page root) ≡ done (Body.branch root))
open_body-pages_example = open_body-pages low_leaf root low_leaf-FitsLeaf root-FitsBranch
