-- ===== src/Btree/Leaf/Reached.antt =====
-- src/btree/leaf.rs: the leaf of a page, and the position of a key that it has.
use relly.Prelude.{
  ℕ, ◌<◌, ◌≡◌, inl, inr, refl, sym, ap, ◌∙◌, List, [], ◌∷◌, Bytes, get_elem?, Ordering, some, done,
  >>=-eq-done, Bool-cases, ltb, ltb→lt, ltb→le, arith,
}
use relly.Prelude.Cmp.{cmp}
use relly.Bsearch
use relly.Bsearch.{Found}
use relly.Btree.{Pair}
use relly.Btree.Leaf
use relly.Btree.Leaf.{Leaf, num_pairs, pair_at, search_slot_id}
use relly.Btree.Leaf.Pairs.{Position, IsSorted}
use relly.Btree.Branch
use relly.Btree.Branch.{Branch, search_child}
use relly.Btree.Node
use relly.Btree.Node.{Node, Body, new_body, bytes_eq, node_type_leaf, node_type_branch}
use relly.Btree.Views.{open_body, open_leaf}

new_body-leaf :
    (node_type bytes : Bytes) (l : Leaf)
    → new_body node_type bytes ≡ done (Body.leaf l)
    → Leaf.new bytes ≡ done l
unfolding new_body
new_body-leaf node_type bytes l e = elim (Bool-cases (bytes_eq node_type node_type_leaf)) [
  | inl t ↦
      let (l', a, b) = >>=-eq-done (Leaf.new bytes) _ (rw t at e) in
      let same : l' ≡ l = cc in a ∙ ap done same
  | inr f ↦ elim (Bool-cases (bytes_eq node_type node_type_branch)) [
    | inl t ↦ let (b', a, b) = >>=-eq-done (Branch.new bytes) _ (rw (f, t) at e) in absurd cc
    | inr f' ↦ let no_body = rw (f, f') at e in absurd cc
  ]
]

-- The leaf that an iterator reads is the one that the search saw.
pub open_leaf-open_body :
    (page : Bytes) (l : Leaf)
    → open_body page ≡ done (Body.leaf l)
    → (node : Node) × (open_leaf page ≡ done (node, l))
unfolding open_body open_leaf
open_leaf-open_body page l e =
    let (node, a, b) = >>=-eq-done (Node.new page) _ e in
    (node, rw (a, new_body-leaf node.node_type node.body l b) refl)

cmp_refl : (a : Bytes) → cmp a a ≡ Ordering.eq
unfolding cmp
cmp_refl [] = refl
cmp_refl (x ∷ xs) = ground (arith, cmp_refl xs)

same_index :
    (pairs : List Pair) (i j : ℕ) (p q : Pair)
    → IsSorted pairs
    → get_elem? pairs i ≡ some p
    → get_elem? pairs j ≡ some q
    → q.key ≡ p.key
    → i < j
    → ⊥
same_index pairs i j p q sorted e f same lt =
    let less = sorted i j p q lt e f in
    let eq : cmp p.key q.key ≡ Ordering.eq = ap (λ x. cmp p.key x) same ∙ cmp_refl p.key in cc

-- The position of a key that is there is its pair.
pub Position-found :
    (pairs : List Pair) (i : ℕ) (p : Pair) (found : Found)
    → IsSorted pairs
    → get_elem? pairs i ≡ some p
    → Position p.key pairs found
    → found ≡ Bsearch.ok i
Position-found pairs i p (Bsearch.ok j) sorted e (q, f, same) = elim (Bool-cases (ltb i j)) [
  | inl before ↦ absurd (same_index pairs i j p q sorted e f same (ltb→lt _ _ before))
  | inr rest ↦ elim (Bool-cases (ltb j i)) [
    | inl behind ↦ absurd (same_index pairs j i q p sorted f e (sym same) (ltb→lt _ _ behind))
    | inr there ↦
        let here : j ≡ i = omega (arith, ltb→le _ _ rest, ltb→le _ _ there) in ap Bsearch.ok here
  ]
]
Position-found pairs i p (Bsearch.err j) sorted e (bound, less, more) =
    elim (Bool-cases (ltb i j)) [
      | inl before ↦ let l = less i p (ltb→lt _ _ before) e in let eq = cmp_refl p.key in absurd cc
      | inr behind ↦ let g = more i p (ltb→le _ _ behind) e in let eq = cmp_refl p.key in absurd cc
    ]
