-- ===== src/Btree/Stored.antt =====
-- src/btree.rs: the sorted list of pairs that a tree of pages stands for.
use relly.Prelude.{
  ℕ, zero, suc, ◌-◌, ◌*◌, ◌<◌, ◌≡◌, ◌≢◌, ◌⊎◌, inl, inr, refl, sym, ap, ◌∙◌, subst, List, [], ◌∷◌,
  ◌++◌, Bytes, length, get_elem?, get_elem?-append, Ordering, Option, some, done, ltb, arith,
  Bool-cases,
}
use relly.Prelude.Cmp.{cmp}
use relly.Prelude.Order.{cmp-flip, cmp-flip_lt}
use relly.Disk.{PageId, page_size, u64_end, as_bytes, from_bytes}
use relly.Disk.Ids.{from_bytes-as_bytes}
use relly.Btree.{Pair, Bincode}
use relly.Btree.Leaf.{Leaf}
use relly.Btree.Branch.{Branch}
use relly.Btree.Node.{Body}
use relly.Btree.Leaf.Pairs.{Holds}
use relly.Btree.Branch.Search.{Splits, HasChildren}
use relly.Btree.Views.{open_body}

-- All keys are less than a bound, or none is.
abbrev pub AreBelow : Bytes → List Pair → Type 0
AreBelow bound pairs =
    (i : ℕ) (p : Pair) → get_elem? pairs i ≡ some p → cmp p.key bound ≡ Ordering.lt

abbrev pub AreFrom : Bytes → List Pair → Type 0
AreFrom bound pairs =
    (i : ℕ) (p : Pair) → get_elem? pairs i ≡ some p → cmp p.key bound ≢ Ordering.lt

-- What the pages `c` hold from a page on: a leaf with its pairs, or a branch of trees that are
-- lower by one, each with the keys between the separators beside it.
module _ (bincode : Bincode) (c : PageId → Option Bytes) where
  mutual
    pub data Stored : ℕ → PageId → List Pair → Type 0 where
      leaf :
          (id : PageId) (page : Bytes) (body : Leaf) (pairs : List Pair)
          → page_size * id < u64_end
          → c id ≡ some page
          → open_body page ≡ done (Body.leaf body)
          → Holds bincode body.body pairs
          → Stored zero id pairs
      branch :
          (height : ℕ) (id : PageId) (page : Bytes) (body : Branch) (seps pairs : List Pair)
          → page_size * id < u64_end
          → c id ≡ some page
          → open_body page ≡ done (Body.branch body)
          → Holds bincode body.body seps
          → HasChildren seps
          → Children height seps body.header.right_child pairs
          → Stored (suc height) id pairs

    -- The trees between the separators, and the one behind them.
    pub data Children : ℕ → List Pair → PageId → List Pair → Type 0 where
      last :
          (height : ℕ) (right : PageId) (pairs : List Pair)
          → Stored height right pairs
          → Children height [] right pairs
      before :
          (height : ℕ) (sep : Pair) (seps : List Pair) (child right : PageId)
          (pairs rest : List Pair)
          → child < u64_end
          → sep.value ≡ as_bytes child
          → Stored height child pairs
          → AreBelow sep.key pairs
          → Children height seps right rest
          → AreFrom sep.key rest
          → Children height (sep ∷ seps) right (pairs ++ rest)

  -- The page at the root of a tree.
  pub root_page :
      (height : ℕ) (id : PageId) (pairs : List Pair)
      → Stored height id pairs
      → (page : Bytes) × (page_size * id < u64_end) × (c id ≡ some page)
  root_page _ id _ (leaf _ page body pairs offset here opened holds) = (page, offset, here)
  root_page _ id _ (branch height _ page body seps pairs offset here opened holds kids children) =
      (page, offset, here)

  -- The tree under a child has the pair.
  abbrev pub HasPair : ℕ → PageId → Pair → Type 0
  HasPair height child p =
      (pairs : List Pair) × (i : ℕ) × Stored height child pairs × (get_elem? pairs i ≡ some p)

  pub same_child :
      (a b : PageId) (value : Bytes)
      → a < u64_end
      → b < u64_end
      → value ≡ as_bytes a
      → value ≡ as_bytes b
      → a ≡ b
  same_child a b value fits fits' e e' =
      let same =
        sym (from_bytes-as_bytes a fits)
        ∙ ap from_bytes (sym e ∙ e')
        ∙ from_bytes-as_bytes b fits' in
      cc

  tail-Splits :
      (key : Bytes) (sep : Pair) (seps : List Pair) (idx : ℕ)
      → Splits key (sep ∷ seps) (suc idx)
      → Splits key seps idx
  tail-Splits key sep seps idx s = record {
    bound = omega (arith, s.bound);
    below = λ j p h e. s.below (suc j) p (omega arith) e;
    above = λ j p h e. s.above (suc j) p (omega arith) e;
  }

  -- A pair is among the first pairs or the others.
  pair_in_append :
      (xs ys : List Pair) (i : ℕ) (p : Pair)
      → get_elem? (xs ++ ys) i ≡ some p
      → (get_elem? xs i ≡ some p) ⊎ (get_elem? ys (i - length xs) ≡ some p)
  pair_in_append xs ys i p e = elim (Bool-cases (ltb i (length xs))) [
    | inl t ↦ inl (rw t at (sym (get_elem?-append xs ys i) ∙ e))
    | inr t ↦ inr (rw t at (sym (get_elem?-append xs ys i) ∙ e))
  ]

  -- The child that the separators give for a key is the root of the tree with the key's pair.
  pub Children-HasPair :
      (height : ℕ) (seps : List Pair) (right : PageId) (pairs : List Pair) (i : ℕ) (p : Pair)
      (idx : ℕ) (child : PageId)
      → Children height seps right pairs
      → get_elem? pairs i ≡ some p
      → Splits p.key seps idx
      → ((sep : Pair)
          → get_elem? seps idx ≡ some sep
          → (child < u64_end) × (sep.value ≡ as_bytes child))
      → (idx ≡ length seps → child ≡ right)
      → HasPair height child p
  Children-HasPair height _ right pairs i p idx child (last _ _ _ t) e s left behind =
      let z : idx ≡ 0 = omega (arith, s.bound) in
      (pairs, i, subst (λ x. Stored height x pairs) (sym (behind z)) t, e)
  Children-HasPair height _ right _ i p zero child
        (before _ sep seps child' _ pairs rest fits v t low k high) e s left behind =
      let (fits', v') = left sep refl in
      let above = s.above 0 sep (omega arith) refl in
      elim (pair_in_append pairs rest i p e) [
        | inl here ↦ (
          pairs,
          i,
          subst (λ x. Stored height x pairs) (same_child child' child sep.value fits fits' v v') t,
          here,
        )
        | inr there ↦ absurd (high (i - length pairs) p there (cmp-flip sep.key p.key above))
      ]
  Children-HasPair height _ right _ i p (suc idx) child
        (before _ sep seps child' _ pairs rest fits v t low k high) e s left behind =
      elim (pair_in_append pairs rest i p e) [
        | inl here ↦
            absurd (s.below 0 sep (omega arith) refl (cmp-flip_lt p.key sep.key (low i p here)))
        | inr there ↦
            Children-HasPair height seps right rest (i - length pairs) p idx child k there
              (tail-Splits p.key sep seps idx s) left (λ h. behind (ap suc h))
      ]

  -- The first leaf of a tree.
  unfoldable mutual
    pub leftmost : {height : ℕ} {id : PageId} {pairs : List Pair} → Stored height id pairs → PageId
    leftmost (leaf id page body pairs offset here opened holds) = id
    leftmost (branch height id page body seps pairs offset here opened holds kids children) =
        leftmost_child children

    pub leftmost_child :
        {height : ℕ} {seps pairs : List Pair} {right : PageId}
        → Children height seps right pairs
        → PageId
    leftmost_child (last height right pairs t) = leftmost t
    leftmost_child (before height sep seps child right pairs rest fits v t low k high) = leftmost t
