-- ===== src/Btree/Views.antt =====
-- src/btree/: the pages that the views of nodes, leaves, branches and the meta page are views of.
-- A view writes in place; here it is changed and its bytes are put back.
use relly.Prelude.{◌++◌, Bytes, Run, done, ◌>>=◌}
use relly.Disk.{le_bytes}
use relly.Slotted
use relly.Btree.Leaf
use relly.Btree.Leaf.{Leaf}
use relly.Btree.Branch
use relly.Btree.Branch.{Branch}
use relly.Btree.Meta.{Meta}
use relly.Btree.Node
use relly.Btree.Node.{Node, Body, new_body, node_type_leaf, node_type_branch}

unfoldable pub leaf_bytes : Leaf → Bytes
leaf_bytes leaf =
    le_bytes 8 leaf.header.prev_page_id
    ++ (le_bytes 8 leaf.header.next_page_id ++ Slotted.bytes_of leaf.body)

unfoldable pub branch_bytes : Branch → Bytes
branch_bytes branch = le_bytes 8 branch.header.right_child ++ Slotted.bytes_of branch.body

unfoldable pub meta_bytes : Meta → Bytes
meta_bytes meta = le_bytes 8 meta.header.root_page_id ++ meta.unused

unfoldable pub node_bytes : Node → Bytes
node_bytes node = node.node_type ++ node.body

-- The page of a leaf, and of a branch.
abbrev pub leaf_page : Leaf → Bytes
leaf_page leaf = node_bytes (record { node_type = node_type_leaf; body = leaf_bytes leaf })

abbrev pub branch_page : Branch → Bytes
branch_page branch =
    node_bytes (record { node_type = node_type_branch; body = branch_bytes branch })

-- `Node::new` and `Body::new` on the node's type and body.
unfoldable pub open_body : Bytes → Run Body
open_body page = do node ← Node.new page; new_body node.node_type node.body

-- `Node::new` and `Leaf::new` on the node's body, whatever its type; likewise for a branch.
unfoldable pub open_leaf : Bytes → Run (Node × Leaf)
open_leaf page = do node ← Node.new page; leaf ← Leaf.new node.body; done (node, leaf)

unfoldable pub open_branch : Bytes → Run (Node × Branch)
open_branch page = do node ← Node.new page; branch ← Branch.new node.body; done (node, branch)
