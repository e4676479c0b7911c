-- ===== src/Btree/Node.antt =====
-- src/btree/node.rs: the header that tells leaves from branches, and the body it tells of.
use relly.Prelude.{
  ◌-◌, [], ◌∷◌, Bytes, length, slice, Bool, true, false, ◌&&◌, Run, panic, done, ◌>>=◌, ltb, ◌==◌,
  if◌then◌else◌,
}
use relly.Btree.Leaf
use relly.Btree.Leaf.{Leaf}
use relly.Btree.Branch
use relly.Btree.Branch.{Branch}

abbrev pub node_type_leaf : Bytes
node_type_leaf = b'L' ∷ b'E' ∷ b'A' ∷ b'F' ∷ b' ' ∷ b' ' ∷ b' ' ∷ b' ' ∷ []

abbrev pub node_type_branch : Bytes
node_type_branch = b'B' ∷ b'R' ∷ b'A' ∷ b'N' ∷ b'C' ∷ b'H' ∷ b' ' ∷ b' ' ∷ []

pub record Node : Type 0 where
  pub node_type : Bytes
  pub body : Bytes

unfoldable pub new : Bytes → Run Node
new bytes =
    if ltb (length bytes) 8
    then panic
    else done (record { node_type = slice 0 8 bytes; body = slice 8 (length bytes - 8) bytes })

unfoldable pub initialize_as_leaf : Node → Node
initialize_as_leaf node = record node { node_type = node_type_leaf }

unfoldable pub initialize_as_branch : Node → Node
initialize_as_branch node = record node { node_type = node_type_branch }

pub data Body : Type 0 where
  leaf : Leaf → Body
  branch : Branch → Body

-- Equality of byte arrays.
unfoldable pub bytes_eq : Bytes → Bytes → Bool
bytes_eq [] [] = true
bytes_eq [] (y ∷ ys) = false
bytes_eq (x ∷ xs) [] = false
bytes_eq (x ∷ xs) (y ∷ ys) = (x == y) && bytes_eq xs ys

-- `Body::new`; another type of node is unreachable.
unfoldable pub new_body : Bytes → Bytes → Run Body
new_body node_type bytes =
    let as_leaf = (do l ← Leaf.new bytes; done (leaf l)) in
    let as_branch = (do b ← Branch.new bytes; done (branch b)) in
    if bytes_eq node_type node_type_leaf
    then as_leaf
    else if bytes_eq node_type node_type_branch
    then as_branch
    else panic
