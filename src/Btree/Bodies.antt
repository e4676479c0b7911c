-- ===== src/Btree/Bodies.antt =====
-- src/btree/: the bytes that the views write back, read again.
use relly.Prelude.{
  ℕ, zero, suc, ◌-◌, ◌*◌, ◌<◌, ◌≡◌, refl, ap, ◌∙◌, [], ◌∷◌, ◌++◌, Bytes, length, take, drop, slice,
  done, ltb, false, arith, le→ltb, length-append,
}
use relly.Disk.{le_value, le_bytes, u64_end}
use relly.Disk.Ids.{le_value-le_bytes_eight}
use relly.Slotted
use relly.Slotted.{Slotted, u16_end}
use relly.Btree.Leaf
use relly.Btree.Leaf.{Leaf}
use relly.Btree.Branch
use relly.Btree.Branch.{Branch}
use relly.Btree.Node
use relly.Btree.Node.{Node, Body, new_body, bytes_eq, node_type_leaf, node_type_branch}
use relly.Btree.Views.{leaf_bytes, branch_bytes, node_bytes, leaf_page, branch_page, open_body}

-- The parts of bytes that were put together.
drop-append : (n : ℕ) (xs ys : Bytes) → length xs ≡ n → drop n (xs ++ ys) ≡ ys
drop-append zero [] ys h = refl
drop-append zero (x ∷ xs) ys h = absurd (omega arith)
drop-append (suc n) [] ys h = absurd (omega arith)
drop-append (suc n) (x ∷ xs) ys h = drop-append n xs ys (omega arith)

take-append : (n : ℕ) (xs ys : Bytes) → length xs ≡ n → take n (xs ++ ys) ≡ xs
take-append zero [] ys h = refl
take-append zero (x ∷ xs) ys h = absurd (omega arith)
take-append (suc n) [] ys h = absurd (omega arith)
take-append (suc n) (x ∷ xs) ys h = ap (λ zs. x ∷ zs) (take-append n xs ys (omega arith))

take_all : (n : ℕ) (xs : Bytes) → length xs ≡ n → take n xs ≡ xs
take_all zero [] h = refl
take_all zero (x ∷ xs) h = absurd (omega arith)
take_all (suc n) [] h = refl
take_all (suc n) (x ∷ xs) h = ap (λ zs. x ∷ zs) (take_all n xs (omega arith))

-- What stands behind a part of `n` bytes.
behind : (n : ℕ) (xs ys : Bytes) → length xs ≡ n → slice n (length (xs ++ ys) - n) (xs ++ ys) ≡ ys
behind n xs ys h =
    ap (take (length (xs ++ ys) - n)) (drop-append n xs ys h)
    ∙ take_all (length (xs ++ ys) - n) ys (omega (arith, length-append xs ys))

-- A field of `k` bytes behind `n` bytes.
field :
    (n k : ℕ) (xs ys zs : Bytes) → length xs ≡ n → length ys ≡ k → slice n k (xs ++ (ys ++ zs)) ≡ ys
field n k xs ys zs h e = ap (take k) (drop-append n xs (ys ++ zs) h) ∙ take-append k ys zs e

le_value-le_bytes_two : (x : ℕ) → x < u16_end → le_value (le_bytes 2 x) ≡ x
unfolding le_value le_bytes
le_value-le_bytes_two x h = omega arith

le_value-le_bytes_four : (x : ℕ) → x < u16_end * u16_end → le_value (le_bytes 4 x) ≡ x
unfolding le_value le_bytes
le_value-le_bytes_four x h = omega arith

-- The fields of a page's header fit their types.
pub record Fits (s : Slotted) : Type 0 where
  pub num_slots : s.num_slots < u16_end
  pub free_space_offset : s.free_space_offset < u16_end
  pub pad : s.pad < u16_end * u16_end

pub new-bytes_of : (s : Slotted) → Fits s → Slotted.new (Slotted.bytes_of s) ≡ done s
unfolding Slotted.new Slotted.bytes_of le_bytes
new-bytes_of s f =
    let t : ltb (length (Slotted.bytes_of s)) 8 ≡ false = le→ltb _ _ (omega arith) in
    let rest : slice 8 (length (Slotted.bytes_of s) - 8) (Slotted.bytes_of s) ≡ s.body =
      take_all (length (Slotted.bytes_of s) - 8) s.body (omega arith) in
    rw
      (
        t,
        rest,
        le_value-le_bytes_two s.num_slots f.num_slots,
        le_value-le_bytes_two s.free_space_offset f.free_space_offset,
        le_value-le_bytes_four s.pad f.pad,
      )
      refl

-- The fields of a leaf fit their types; and those of a branch.
pub record FitsLeaf (leaf : Leaf) : Type 0 where
  pub prev : leaf.header.prev_page_id < u64_end
  pub next : leaf.header.next_page_id < u64_end
  pub body : Fits leaf.body

pub record FitsBranch (branch : Branch) : Type 0 where
  pub right : branch.header.right_child < u64_end
  pub body : Fits branch.body

new-leaf_bytes : (leaf : Leaf) → FitsLeaf leaf → Leaf.new (leaf_bytes leaf) ≡ done leaf
unfolding Leaf.new leaf_bytes le_bytes
new-leaf_bytes leaf f =
    let t : ltb (length (leaf_bytes leaf)) 16 ≡ false = le→ltb _ _ (omega arith) in
    let rest : slice 16 (length (leaf_bytes leaf) - 16) (leaf_bytes leaf)
        ≡ Slotted.bytes_of leaf.body =
      take_all (length (leaf_bytes leaf) - 16) (Slotted.bytes_of leaf.body) (omega arith) in
    rw
      (
        t,
        rest,
        new-bytes_of leaf.body f.body,
        le_value-le_bytes_eight leaf.header.prev_page_id f.prev,
        le_value-le_bytes_eight leaf.header.next_page_id f.next,
      )
      refl

new-branch_bytes :
    (branch : Branch) → FitsBranch branch → Branch.new (branch_bytes branch) ≡ done branch
unfolding Branch.new branch_bytes le_bytes
new-branch_bytes branch f =
    let t : ltb (length (branch_bytes branch)) 8 ≡ false = le→ltb _ _ (omega arith) in
    let rest : slice 8 (length (branch_bytes branch) - 8) (branch_bytes branch)
        ≡ Slotted.bytes_of branch.body =
      take_all (length (branch_bytes branch) - 8) (Slotted.bytes_of branch.body) (omega arith) in
    rw
      (
        t,
        rest,
        new-bytes_of branch.body f.body,
        le_value-le_bytes_eight branch.header.right_child f.right,
      )
      refl

-- A node whose type has eight bytes.
new-node_bytes : (node : Node) → length node.node_type ≡ 8 → Node.new (node_bytes node) ≡ done node
unfolding Node.new node_bytes
new-node_bytes node h =
    let t : ltb (length (node_bytes node)) 8 ≡ false =
      le→ltb _ _ (omega (arith, length-append node.node_type node.body)) in
    rw (t, take-append 8 node.node_type node.body h, behind 8 node.node_type node.body h) refl

pub open_leaf_page :
    (leaf : Leaf) → FitsLeaf leaf → open_body (leaf_page leaf) ≡ done (Body.leaf leaf)
unfolding open_body new_body bytes_eq
open_leaf_page leaf f =
    rw
      (
        new-node_bytes (record { node_type = node_type_leaf; body = leaf_bytes leaf }) refl,
        new-leaf_bytes leaf f,
      )
      refl

open_branch_page :
    (branch : Branch)
    → FitsBranch branch
    → open_body (branch_page branch) ≡ done (Body.branch branch)
unfolding open_body new_body bytes_eq
open_branch_page branch f =
    rw
      (
        new-node_bytes (record { node_type = node_type_branch; body = branch_bytes branch }) refl,
        new-branch_bytes branch f,
      )
      refl

-- A page written as that of a leaf reads as that leaf, and one written as that of a branch as that
-- branch, where the fields of their headers are in the ranges of their types.
pub open_body-pages :
    (leaf : Leaf) (branch : Branch)
    → FitsLeaf leaf
    → FitsBranch branch
    → (open_body (leaf_page leaf) ≡ done (Body.leaf leaf))
      × (open_body (branch_page branch) ≡ done (Body.branch branch))
open_body-pages leaf branch f g = (open_leaf_page leaf f, open_branch_page branch g)
