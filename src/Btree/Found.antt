-- ===== src/Btree/Found.antt =====
-- src/btree.rs: `search` for a key that the tree has.
use relly.Prelude.{
  ℕ, zero, suc, ◌*◌, ◌<◌, ◌≡◌, refl, sym, ◌∙◌, subst, List, [], Bytes, get_elem?, Option, some,
  done, Returns, Returns-value, true, false, ltb, lt→ltb, some_injective, ◌==◌, arith,
  lt-of_get_elem?,
}
use relly.Prelude.Exec.{Result, ok, err, continue}
use relly.Bsearch
use relly.Bsearch.{Found}
use relly.Disk.{PageId, page_size, u64_end}
use relly.Buffer.{BufferPoolManager, drop_handle}
use relly.Buffer.Pool.{BufferId}
use relly.Buffer.Valid.{IsValid, contents}
use relly.Btree.{Pair, Bincode}
use relly.Btree.Leaf.{Leaf, num_pairs, search_slot_id}
use relly.Btree.Leaf.Pairs.{Holds}
use relly.Btree.Leaf.Search.{search_slot_id-Position, pair_at-get_elem?}
use relly.Btree.Branch.{search_child}
use relly.Btree.Branch.Search.{search_child-Child}
use relly.Btree.Node.{Body}
use relly.Btree.Meta
use relly.Btree.Meta.{Meta}
use relly.Btree.SearchMode.{key, tuple_slot_id, child_page_id}
use relly.Btree.Views.{open_body}
use relly.Btree.Client.{Error, fetch, release, released}
use relly.Btree.Iter.{Iter, leaf_of, get}
use relly.Btree.Tree.{
  BTree, meta_of, root_page_id_of, fetch_root_page, search_leaf, search_internal, search,
}
use relly.Btree.Stored.{Stored, leaf, branch, root_page, Children-HasPair}
use relly.Btree.Reads.{
  At, no_more, with_one, HasFree-At, HasFree, Holding, Got, fetch-Got, page_of-Holding,
  drop_handle-At, after_fetch,
}
use relly.Btree.Leaf.Reached.{open_leaf-open_body, Position-found}

-- What a search for a key ends with: an iterator at the pair, on a clone of its leaf.
abbrev pub FoundPair :
    Bincode
    → BufferPoolManager
    → (PageId → Option Bytes)
    → Pair
    → Result Error Iter × BufferPoolManager
    → Type 0
FoundPair bincode m0 c p (ok iter, m) =
    At m0 c (with_one no_more iter.buffer) m × (get bincode iter m ≡ done (some (p.key, p.value)))
FoundPair bincode m0 c p (err e, m) = ⊥

module _ (bincode : Bincode) (m0 : BufferPoolManager) (c : PageId → Option Bytes)
    (free : HasFree m0) where
  search_leaf-FoundPair :
      (page : Bytes) (l : Leaf) (pairs : List Pair) (i : ℕ) (p : Pair) (b : BufferId)
      (m : BufferPoolManager)
      → open_body page ≡ done (Body.leaf l)
      → Holds bincode l.body pairs
      → Holding m0 c no_more page b m
      → get_elem? pairs i ≡ some p
      → Returns (search_leaf b l (Bsearch.ok i) m) (FoundPair bincode m0 c p)
  unfolding search_leaf get leaf_of
  search_leaf-FoundPair page l pairs i p b m opened holds h e =
      let lt : i < l.body.num_slots = omega (arith, holds.count, lt-of_get_elem? pairs i p e) in
      let (node, o) = open_leaf-open_body page l opened in
      let (f, found, same) = h.frame in
      let a : num_pairs l == i ≡ false = ground arith in
      let d : ltb i (num_pairs l) ≡ true = lt→ltb _ _ lt in
      rw a
        (h.reader, rw (found, same, o, d, pair_at-get_elem? bincode p.key l pairs holds i p e) refl)

  search_internal-FoundPair :
      (height fuel : ℕ) (id : PageId) (pairs : List Pair) (i : ℕ) (p : Pair) (page : Bytes)
      (b : BufferId) (m : BufferPoolManager)
      → Stored bincode c height id pairs
      → height < fuel
      → c id ≡ some page
      → Holding m0 c no_more page b m
      → get_elem? pairs i ≡ some p
      → Returns (search_internal bincode fuel b (key p.key) m) (FoundPair bincode m0 c p)
  unfolding search_internal tuple_slot_id child_page_id release
  search_internal-FoundPair height zero id pairs i p page b m t lt here h e = absurd (omega arith)
  search_internal-FoundPair zero (suc fuel) id pairs i p page b m
        (leaf _ page' l _ offset here' opened holds) lt here h e =
      let same : page' ≡ page = some_injective (sym here' ∙ here) in
      let opened' : open_body page ≡ done (Body.leaf l) =
        subst (λ x. open_body x ≡ done (Body.leaf l)) same opened in
      let (found, s, position) =
        Returns-value (search_slot_id bincode p.key l)
          (search_slot_id-Position bincode p.key l pairs holds) in
      let at_pair = Position-found pairs i p found holds.sorted e position in
      rw (page_of-Holding m0 c no_more page b m h, opened', s, at_pair)
        (search_leaf-FoundPair page l pairs i p b m opened' holds h e)
  search_internal-FoundPair (suc height) (suc fuel) id pairs i p page b m
        (branch _ _ page' body seps _ offset here' opened holds kids children) lt here h e =
      let same : page' ≡ page = some_injective (sym here' ∙ here) in
      let opened' : open_body page ≡ done (Body.branch body) =
        subst (λ x. open_body x ≡ done (Body.branch body)) same opened in
      let (child, s, found) =
        Returns-value (search_child bincode p.key body)
          (search_child-Child bincode p.key body seps holds kids) in
      let (pairs', i', t', e') =
        Children-HasPair bincode c height seps body.header.right_child pairs i p found.idx child
          children e found.splits found.left found.right in
      let (m', d, idle) =
        Returns-value (drop_handle b m)
          (drop_handle-At m0 c no_more b m h.frame.0 h.frame.1 h.reader) in
      let (page'', offset'', here'') = root_page bincode c height child pairs' t' in
      let (r, fetched, held) = Returns-value (fetch child m') (
        fetch-Got m0 c no_more child page'' m' (HasFree-At m0 c m' free idle) idle offset''
          here'') in
      rw (page_of-Holding m0 c no_more page b m h, opened', s, d, fetched)
        (after_fetch m0 c no_more page'' r _ (FoundPair bincode m0 c p) held (λ b' n k.
          search_internal-FoundPair height fuel child pairs' i' p page'' b' n t' (omega arith)
            here'' k e'))

-- The tree that a meta page names.
pub record IsTree (bincode : Bincode) (c : PageId → Option Bytes) (tree : BTree) (height : ℕ)
    (pairs : List Pair) : Type 0 where
  pub page : Bytes
  pub offset : page_size * tree.meta_page_id < u64_end
  pub here : c tree.meta_page_id ≡ some page
  pub meta : Meta
  pub opened : Meta.new page ≡ done meta
  pub stored : Stored bincode c height meta.header.root_page_id pairs

module _ (bincode : Bincode) (tree : BTree) (height : ℕ) (pairs : List Pair) (m : BufferPoolManager)
    (c : PageId → Option Bytes) (free : HasFree m) (t : IsTree bincode c tree height pairs) where
  -- With the meta page at hand.
  root_fetched :
      (page : Bytes) (b : BufferId) (n : BufferPoolManager)
      → page_size * t.meta.header.root_page_id < u64_end
      → c t.meta.header.root_page_id ≡ some page
      → Holding m c no_more t.page b n
      → Returns (continue (released b (root_page_id_of b n)) fetch) (Got m c no_more page)
  unfolding root_page_id_of meta_of
  root_fetched page b n offset here h =
      let (m', d, idle) =
        Returns-value (drop_handle b n)
          (drop_handle-At m c no_more b n h.frame.0 h.frame.1 h.reader) in
      rw (page_of-Holding m c no_more t.page b n h, t.opened, d)
        (fetch-Got m c no_more t.meta.header.root_page_id page m' (HasFree-At m c m' free idle) idle
          offset here)

  pub fetch_root_page-Got :
      (page : Bytes)
      → At m c no_more m
      → page_size * t.meta.header.root_page_id < u64_end
      → c t.meta.header.root_page_id ≡ some page
      → Returns (fetch_root_page tree m) (Got m c no_more page)
  unfolding fetch_root_page
  fetch_root_page-Got page idle offset here =
      let (r, fetched, held) =
        Returns-value (fetch tree.meta_page_id m)
          (fetch-Got m c no_more tree.meta_page_id t.page m free idle t.offset t.here) in
      rw fetched (
        after_fetch m c no_more t.page r _ (Got m c no_more page) held
          (λ b n h. root_fetched page b n offset here h))

-- On a well-formed manager with a buffer that has no clone and no fault to come, whose pages hold a
-- tree, and with more fuel than the tree's height, the search for the key of a pair of the tree
-- returns, without an error. Its iterator is at that pair. The manager stays well formed, no
-- page is lost or changed, and the only clone that was added is the iterator's.
pub search-FoundPair :
    (bincode : Bincode) (fuel height : ℕ) (tree : BTree) (pairs : List Pair) (i : ℕ) (p : Pair)
    (m : BufferPoolManager)
    → IsValid m
    → HasFree m
    → m.disk.heap_file.faults ≡ []
    → IsTree bincode (contents m) tree height pairs
    → height < fuel
    → get_elem? pairs i ≡ some p
    → Returns (search bincode fuel tree (key p.key) m) (FoundPair bincode m (contents m) p)
unfolding search
search-FoundPair bincode fuel height tree pairs i p m v free calm t lt e =
    let c = contents m in
    let start : At m c no_more m = record {
      valid = v;
      kept = λ id page k. k;
      calm = calm;
      clones = λ b f k. (f, k, omega arith);
    } in
    let (page, offset, here) =
      root_page bincode c height t.meta.header.root_page_id pairs t.stored in
    let (r, fetched, held) =
      Returns-value (fetch_root_page tree m)
        (fetch_root_page-Got bincode tree height pairs m c free t page start offset here) in
    rw fetched (
      after_fetch m c no_more page r _ (FoundPair bincode m c p) held (λ b n h.
        search_internal-FoundPair bincode m c free height fuel t.meta.header.root_page_id pairs i p
          page b n t.stored lt here h e))
