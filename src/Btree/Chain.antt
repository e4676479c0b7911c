-- ===== src/Btree/Chain.antt =====
-- src/btree.rs: `Iter::next` along the leaves that are linked to the right.
pub mod Walk
use relly.Prelude.{
  ℕ, zero, suc, ◌+◌, ◌-◌, ◌*◌, ◌≤◌, ◌<◌, ◌≡◌, refl, sym, ◌∙◌, subst, List, [], ◌∷◌, ◌++◌, Bytes,
  length, get_elem?, drop, get_elem?_lt, lt-of_get_elem?, Option, none, some, some_injective, done,
  Returns, Returns-value, ltb, lt→ltb, le→ltb, true, false, arith,
}
use relly.Prelude.Exec.{Result, ok, err}
use relly.Disk.{PageId, page_size, u64_end}
use relly.Buffer.{BufferPoolManager, drop_handle}
use relly.Buffer.Pool.{BufferId}
use relly.Btree.{Pair, Bincode}
use relly.Btree.Leaf.{Leaf, next_page_id, num_pairs}
use relly.Btree.Leaf.Pairs.{Holds}
use relly.Btree.Leaf.Search.{pair_at-get_elem?}
use relly.Btree.Node.{Body}
use relly.Btree.Views.{open_body}
use relly.Btree.Client.{Error, fetch}
use relly.Btree.Iter.{Iter, leaf_of, get, moved, go_on, advance, next}
use relly.Btree.Leaf.Reached.{open_leaf-open_body}
use relly.Btree.Reads.{
  At, no_more, with_one, HasTwoFree, HasFree-with_one, Holding, Fetched, fetch-Fetched,
  drop_handle-Holding,
}
use relly.Btree.Walks.{Walks, ended, gave}

module _ (bincode : Bincode) (c : PageId → Option Bytes) where
  -- A page is that of a leaf with these pairs.
  pub record LeafAt (id : PageId) (page : Bytes) (body : Leaf) (pairs : List Pair) : Type 0 where
    pub offset : page_size * id < u64_end
    pub here : c id ≡ some page
    pub opened : open_body page ≡ done (Body.leaf body)
    pub holds : Holds bincode body.body pairs

  -- From a leaf on: its pairs, and those of the leaves behind it, of which each has some.
  pub data Chain : PageId → List Pair → List Pair → Type 0 where
    end :
        (id : PageId) (page : Bytes) (body : Leaf) (pairs : List Pair)
        → LeafAt id page body pairs
        → next_page_id body ≡ none
        → Chain id pairs []
    link :
        (id after : PageId) (page : Bytes) (body : Leaf) (pairs more rest : List Pair)
        → LeafAt id page body pairs
        → next_page_id body ≡ some after
        → Chain after more rest
        → 0 < length more
        → Chain id pairs (more ++ rest)

  -- The leaf that a chain starts with.
  pub Chain-leaf :
      (id : PageId) (pairs rest : List Pair)
      → Chain id pairs rest
      → (page : Bytes) × (body : Leaf) × LeafAt id page body pairs
  Chain-leaf _ _ _ (end id page body pairs l e) = (page, body, l)
  Chain-leaf _ _ _ (link id after page body pairs more rest l e chain some_there) = (page, body, l)

module _ (bincode : Bincode) (m0 : BufferPoolManager) (c : PageId → Option Bytes)
    (free : HasTwoFree m0) where
  leaf_of-InLeaf :
      (page : Bytes) (body : Leaf) (iter : Iter) (m : BufferPoolManager)
      → open_body page ≡ done (Body.leaf body)
      → Holding m0 c no_more page iter.buffer m
      → leaf_of iter m ≡ done body
  unfolding leaf_of
  leaf_of-InLeaf page body iter m opened h =
      let (f, found, same) = h.frame in
      let (node, o) = open_leaf-open_body page body opened in rw (found, same, o) refl

  -- The pair at the slot.
  pub get-InLeaf :
      (id : PageId) (page : Bytes) (body : Leaf) (pairs : List Pair) (p : Pair) (iter : Iter)
      (m : BufferPoolManager)
      → LeafAt bincode c id page body pairs
      → Holding m0 c no_more page iter.buffer m
      → get_elem? pairs iter.slot_id ≡ some p
      → get bincode iter m ≡ done (some (p.key, p.value))
  unfolding get
  get-InLeaf id page body pairs p iter m l h e =
      let lt = lt-of_get_elem? pairs iter.slot_id p e in
      let d : ltb iter.slot_id (num_pairs body) ≡ true =
        lt→ltb _ _ (omega (arith, l.holds.count)) in
      rw
        (
          leaf_of-InLeaf page body iter m l.opened h,
          d,
          pair_at-get_elem? bincode p.key body pairs l.holds iter.slot_id p e,
        )
        refl

  pub get_past :
      (id : PageId) (page : Bytes) (body : Leaf) (pairs : List Pair) (iter : Iter)
      (m : BufferPoolManager)
      → LeafAt bincode c id page body pairs
      → Holding m0 c no_more page iter.buffer m
      → length pairs ≤ iter.slot_id
      → get bincode iter m ≡ done none
  unfolding get
  get_past id page body pairs iter m l h le =
      let d : ltb iter.slot_id (num_pairs body) ≡ false =
        le→ltb _ _ (omega (arith, l.holds.count)) in
      rw (leaf_of-InLeaf page body iter m l.opened h, d) refl

  -- Inside the leaf, and at its end where no leaf follows.
  pub advance_inside :
      (id : PageId) (page : Bytes) (body : Leaf) (pairs : List Pair) (iter : Iter)
      (m : BufferPoolManager)
      → LeafAt bincode c id page body pairs
      → Holding m0 c no_more page iter.buffer m
      → iter.slot_id + 1 < length pairs
      → advance iter m ≡ done (ok tt, record iter { slot_id = iter.slot_id + 1 }, m)
  unfolding advance
  advance_inside id page body pairs iter m l h lt =
      let d : ltb (iter.slot_id + 1) (num_pairs body) ≡ true =
        lt→ltb _ _ (omega (arith, l.holds.count)) in
      rw (leaf_of-InLeaf page body iter m l.opened h, d) refl

  pub advance_end :
      (id : PageId) (page : Bytes) (body : Leaf) (pairs : List Pair) (iter : Iter)
      (m : BufferPoolManager)
      → LeafAt bincode c id page body pairs
      → Holding m0 c no_more page iter.buffer m
      → next_page_id body ≡ none
      → length pairs ≤ iter.slot_id + 1
      → advance iter m ≡ done (ok tt, record iter { slot_id = iter.slot_id + 1 }, m)
  unfolding advance go_on
  advance_end id page body pairs iter m l h e le =
      let d : ltb (iter.slot_id + 1) (num_pairs body) ≡ false =
        le→ltb _ _ (omega (arith, l.holds.count)) in
      rw (leaf_of-InLeaf page body iter m l.opened h, d, e) refl

  -- To the leaf that follows.
  abbrev pub InFirst : Bytes → Result Error (Unit {0}) × Iter × BufferPoolManager → Type 0
  InFirst page (ok _, iter, m) = (iter.slot_id ≡ 0) × Holding m0 c no_more page iter.buffer m
  InFirst page (err e, iter, m) = ⊥

  moved-InFirst :
      (page page' : Bytes) (iter : Iter) (m : BufferPoolManager)
      (r : Result Error BufferId × BufferPoolManager)
      → Holding m0 c no_more page iter.buffer m
      → Fetched m0 c (with_one no_more iter.buffer) page' m r
      → Returns (moved iter r) (InFirst page')
  unfolding moved
  moved-InFirst page page' iter m (err e, after) h held = absurd held
  moved-InFirst page page' iter m (ok b, after) h (held, once) =
      let (f, found, same) = h.frame in
      let (g, found', n) = once iter.buffer f found in
      let (m', e, k) =
        Returns-value (drop_handle iter.buffer after)
          (drop_handle-Holding m0 c page' iter.buffer b after g found' held) in
      rw e (refl, k)

  pub advance_link :
      (id id' : PageId) (page page' : Bytes) (body : Leaf) (pairs : List Pair) (iter : Iter)
      (m : BufferPoolManager)
      → LeafAt bincode c id page body pairs
      → Holding m0 c no_more page iter.buffer m
      → next_page_id body ≡ some id'
      → page_size * id' < u64_end
      → c id' ≡ some page'
      → length pairs ≤ iter.slot_id + 1
      → Returns (advance iter m) (InFirst page')
  unfolding advance go_on
  advance_link id id' page page' body pairs iter m l h e offset here le =
      let d : ltb (iter.slot_id + 1) (num_pairs body) ≡ false =
        le→ltb _ _ (omega (arith, l.holds.count)) in
      let (r, fetched, held) = Returns-value (fetch id' m) (
        fetch-Fetched m0 c (with_one no_more iter.buffer) id' page' m
          (HasFree-with_one m0 c iter.buffer m free h.reader) h.reader offset here) in
      rw (leaf_of-InLeaf page body iter m l.opened h, d, e, fetched)
        (moved-InFirst page page' (record iter { slot_id = iter.slot_id + 1 }) m r h held)
