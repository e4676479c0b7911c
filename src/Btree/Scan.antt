-- ===== src/Btree/Scan.antt =====
-- src/btree.rs: `search` from the start, and `next` until there is no pair: all pairs of the tree.
use relly.Prelude.{
  ℕ, zero, suc, ◌-◌, ◌<◌, ◌≡◌, refl, sym, ap, ◌∙◌, subst, List, [], ◌++◌, Bytes, length, Option,
  some, some_injective, Run, panic, hang, done, drop, Returns, Returns-value, ◌==◌, false, arith,
}
use relly.Prelude.Exec.{Result, ok, err}
use relly.Disk.{PageId}
use relly.Buffer.{BufferPoolManager, drop_handle}
use relly.Buffer.Pool.{BufferId}
use relly.Buffer.Valid.{IsValid, contents}
use relly.Btree.{Pair, Bincode}
use relly.Btree.Leaf.{Leaf, num_pairs}
use relly.Btree.Branch.{Branch, child_at}
use relly.Btree.Branch.Search.{ChildAt, child_at-ChildAt}
use relly.Btree.Node.{Body}
use relly.Btree.SearchMode.{start, tuple_slot_id, child_page_id}
use relly.Btree.Views.{open_body}
use relly.Btree.Client.{Error, fetch, release}
use relly.Btree.Iter.{Iter}
use relly.Btree.Tree.{BTree, fetch_root_page, search_leaf, search_internal, search}
use relly.Btree.Stored.{
  Stored, Children, leaf, branch, last, before, root_page, same_child, leftmost, leftmost_child,
}
use relly.Btree.Reads.{
  At, no_more, HasFree, HasTwoFree, HasFree-At, Holding, fetch-Got, page_of-Holding, drop_handle-At,
  after_fetch,
}
use relly.Btree.Found.{IsTree, fetch_root_page-Got}
use relly.Btree.Chain.{LeafAt, Chain, Chain-leaf}
use relly.Btree.Chain.Walk.{Walked, Chain-walk}

-- The iterator is at the first slot of a leaf.
abbrev pub AtFirst :
    BufferPoolManager
    → (PageId → Option Bytes)
    → Bytes
    → Result Error Iter × BufferPoolManager
    → Type 0
AtFirst m0 c page (ok iter, m) = (iter.slot_id ≡ 0) × Holding m0 c no_more page iter.buffer m
AtFirst m0 c page (err e, m) = ⊥

module _ (bincode : Bincode) (m0 : BufferPoolManager) (c : PageId → Option Bytes)
    (free : HasFree m0) where
  -- The tree under the first child has the same first leaf.
  abbrev SubTree : ℕ → PageId → PageId → Type 0
  SubTree height child first =
      (pairs : List Pair) × (t : Stored bincode c height child pairs) × (leftmost bincode c t
        ≡ first)

  first_child :
      (height : ℕ) (body : Branch) (seps pairs : List Pair) (right child : PageId)
      → (ch : Children bincode c height seps right pairs) → body.header.right_child ≡ right
      → ChildAt 0 body seps child
      → SubTree height child (leftmost_child bincode c ch)
  unfolding leftmost_child
  first_child height body _ pairs right child (last _ _ _ t) same a =
      subst (λ x. SubTree height x (leftmost bincode c t)) (sym (a.right refl ∙ same))
        (pairs, t, refl)
  first_child height body _ _ right child (before _ sep seps child' _ ps rest fits v t low k high)
        same a =
      let (fits', v') = a.left sep refl in
      subst (λ x. SubTree height x (leftmost bincode c t))
        (same_child bincode c child' child sep.value fits fits' v v') (ps, t, refl)

  search_internal-AtFirst :
      (height fuel : ℕ) (id : PageId) (pairs : List Pair) (page : Bytes) (b : BufferId)
      (m : BufferPoolManager) (page' : Bytes) (body : Leaf) (first : PageId) (ps : List Pair)
      → (t : Stored bincode c height id pairs) → leftmost bincode c t ≡ first
      → LeafAt bincode c first page' body ps
      → 0 < length ps
      → height < fuel
      → c id ≡ some page
      → Holding m0 c no_more page b m
      → Returns (search_internal bincode fuel b start m) (AtFirst m0 c page')
  unfolding search_internal tuple_slot_id child_page_id release search_leaf leftmost
  search_internal-AtFirst height zero id pairs page b m page' body first ps t e l some_there lt here
        h =
      absurd (omega arith)
  search_internal-AtFirst zero (suc fuel) id pairs page b m page' body first ps
        (leaf _ p l' _ offset here' opened holds) e l some_there lt here h =
      let same : page' ≡ page = some_injective (sym l.here ∙ ap c (sym e) ∙ here) in
      let opened' : open_body page ≡ done (Body.leaf body) =
        subst (λ x. open_body x ≡ done (Body.leaf body)) same l.opened in
      let d : num_pairs body == 0 ≡ false = ground (arith, l.holds.count) in
      rw (page_of-Holding m0 c no_more page b m h, opened', d)
        (refl, subst (λ x. Holding m0 c no_more x b m) (sym same) h)
  search_internal-AtFirst (suc height) (suc fuel) id pairs page b m page' body first ps
        (branch _ _ p branch' seps _ offset here' opened holds kids children) e l some_there lt here
        h =
      let same : p ≡ page = some_injective (sym here' ∙ here) in
      let opened' : open_body page ≡ done (Body.branch branch') =
        subst (λ x. open_body x ≡ done (Body.branch branch')) same opened in
      let (child, s, there) =
        Returns-value (child_at bincode 0 branch')
          (child_at-ChildAt bincode [] branch' seps holds kids 0 (omega arith)) in
      let (pairs', t', e') =
        first_child height branch' seps pairs branch'.header.right_child child children refl
          there in
      let (m', d, idle) =
        Returns-value (drop_handle b m)
          (drop_handle-At m0 c no_more b m h.frame.0 h.frame.1 h.reader) in
      let (page'', offset'', here'') = root_page bincode c height child pairs' t' in
      let (r, fetched, got) = Returns-value (fetch child m') (
        fetch-Got m0 c no_more child page'' m' (HasFree-At m0 c m' free idle) idle offset''
          here'') in
      rw (page_of-Holding m0 c no_more page b m h, opened', s, d, fetched)
        (after_fetch m0 c no_more page'' r _ (AtFirst m0 c page') got (λ b' n k.
          search_internal-AtFirst height fuel child pairs' page'' b' n page' body first ps t'
            (e' ∙ e) l some_there (omega arith) here'' k))

-- The leaves of the tree are linked from the first on, in the order of its pairs, and none is empty.
pub record IsLinked (bincode : Bincode) (c : PageId → Option Bytes) {height : ℕ} {root : PageId}
    {pairs : List Pair} (t : Stored bincode c height root pairs) : Type 0 where
  pub first : List Pair
  pub rest : List Pair
  pub chain : Chain bincode c (leftmost bincode c t) first rest
  pub all : first ++ rest ≡ pairs
  pub has_some : 0 < length first

-- What a scan gives: an iterator, from which `next` gives the pairs and then none.
abbrev pub Scanned :
    Bincode → BufferPoolManager → List Pair → Result Error Iter × BufferPoolManager → Type 0
Scanned bincode m0 pairs (ok iter, m) = Walked bincode m0 (contents m0) iter m pairs
Scanned bincode m0 pairs (err e, m) = ⊥

-- On a well-formed manager with two buffers that have no clone and no fault to come, whose pages
-- hold a tree of linked leaves, none of them empty, and with more fuel than the tree's height, the search from the
-- start returns, without an error. The calls of `next` on its iterator give all pairs of the tree
-- in the order of their keys and then none, none of them fails, and at the end the manager is well
-- formed, no page is lost or changed, and the only clone that was added is the iterator's.
pub search-Scanned :
    (bincode : Bincode) (fuel height : ℕ) (tree : BTree) (pairs : List Pair) (m : BufferPoolManager)
    → IsValid m
    → HasTwoFree m
    → m.disk.heap_file.faults ≡ []
    → (t : IsTree bincode (contents m) tree height pairs) → IsLinked bincode (contents m) t.stored
    → height < fuel
    → Returns (search bincode fuel tree start m) (Scanned bincode m pairs)
unfolding search
search-Scanned bincode fuel height tree pairs m v free calm t linked lt =
    let c = contents m in
    let idle : At m c no_more m = record {
      valid = v;
      kept = λ id page k. k;
      calm = calm;
      clones = λ b f k. (f, k, omega arith);
    } in
    let one_free : HasFree m =
      let (b, b', f, f', apart, found, found', z, z') = free in (b, f, found, z) in
    let (page, offset, here) =
      root_page bincode c height t.meta.header.root_page_id pairs t.stored in
    let (page', body, l) =
      Chain-leaf bincode c (leftmost bincode c t.stored) linked.first linked.rest linked.chain in
    let (r, fetched, got) =
      Returns-value (fetch_root_page tree m)
        (fetch_root_page-Got bincode tree height pairs m c one_free t page idle offset here) in
    rw fetched (
      after_fetch m c no_more page r _ (Scanned bincode m pairs) got (λ b n h.
        at_first (search_internal bincode fuel b start n)
          (search_internal-AtFirst bincode m c one_free height fuel t.meta.header.root_page_id pairs
            page b n page' body (leftmost bincode c t.stored) linked.first t.stored refl l
            linked.has_some lt here h)
          l))
  where
    at_first :
        {page' : Bytes} {body : Leaf} (r : Run (Result Error Iter × BufferPoolManager))
        → Returns r (AtFirst m (contents m) page')
        → LeafAt bincode
            (contents m)
            (leftmost bincode (contents m) t.stored)
            page'
            body
            linked.first
        → Returns r (Scanned bincode m pairs)
    at_first {page'} (done (ok iter, n)) (zero', h) l =
        subst (λ x. Walked bincode m (contents m) iter n x) linked.all
          (subst (λ x. Walked bincode m (contents m) iter n (drop x linked.first ++ linked.rest))
            zero'
            (Chain-walk bincode m (contents m) free (leftmost bincode (contents m) t.stored) page'
              linked.first linked.rest (length linked.first - 1) iter n linked.chain l.here h
              (omega (arith, linked.has_some))))
    at_first (done (err e, n)) h l = absurd h
    at_first panic h l = absurd h
    at_first hang h l = absurd h
