-- ===== src/Btree/Placed.antt =====
-- src/btree.rs: `insert_internal` at a leaf that has room.
use relly.Prelude.{
  ℕ, suc, ◌+◌, ◌/◌, ◌≤◌, ◌<◌, ◌≡◌, ◌≢◌, refl, sym, ap, ◌∙◌, List, Bytes, length, get_elem?, Option,
  none, some, done, Returns, Returns-value, >>=-eq-done, arith,
}
use relly.Prelude.Exec.{Result, ok, err, pure, ◌>>◌}
use relly.Bsearch
use relly.Bsearch.{Found}
use relly.Disk.{le_bytes, PageId, page_size, invalid_page_id}
use relly.Buffer.{BufferPoolManager, write_page, set_dirty, drop_handle}
use relly.Buffer.Pool.{BufferId, Frame}
use relly.Buffer.Valid.{IsValid, contents, frame_at}
use relly.Buffer.Handles.{write_page-PageWritten, drop_handle-Dropped}
use relly.Slotted
use relly.Slotted.{Slotted, capacity, pointer_size}
use relly.Slotted.Inserts.{HasSpace}
use relly.Btree.{Pair, Bincode}
use relly.Btree.Leaf
use relly.Btree.Leaf.{Leaf, search_slot_id}
use relly.Btree.Leaf.Pairs.{Holds, Position, insert_at}
use relly.Btree.Leaf.Insert.{AfterInsert, insert-AfterInsert}
use relly.Btree.Leaf.Search.{search_slot_id-Position}
use relly.Btree.Node.{Body}
use relly.Btree.Bodies.{FitsLeaf, open_leaf_page}
use relly.Btree.Views.{leaf_page, leaf_bytes, node_bytes, open_body}
use relly.Btree.Client.{duplicate_key, M, Error, page_of, put_page, mark_dirty, released}
use relly.Btree.Insertion.{Overflow, split_leaf, insert_at_slot, insert_leaf, insert_internal}

-- A page is that of a leaf with these pairs.
pub record IsLeafPage (bincode : Bincode) (page : Bytes) (l : Leaf) (pairs : List Pair)
    : Type 0 where
  pub written : page ≡ leaf_page l
  pub fits : FitsLeaf l
  pub holds : Holds bincode l.body pairs

length-leaf_page : (l : Leaf) → length (leaf_page l) ≡ length l.body.body + 32
unfolding leaf_bytes node_bytes Slotted.bytes_of le_bytes
length-leaf_page l = omega arith

-- The fields of a well-formed page fit their types.
Holds-FitsLeaf :
    (bincode : Bincode) (l after : Leaf) (pairs : List Pair)
    → FitsLeaf l
    → Holds bincode after.body pairs
    → after.header ≡ l.header
    → after.body.pad ≡ l.body.pad
    → FitsLeaf after
Holds-FitsLeaf bincode l after pairs f h same pad =
    let v = h.valid in
    record {
      prev = rw same f.prev;
      next = rw same f.next;
      body = record {
        num_slots = omega (arith, v.area, v.inside, v.small);
        free_space_offset = omega (arith, v.inside, v.small);
        pad = rw pad f.body.pad;
      };
    }

-- How the insertion of a pair into a leaf ends: the key is there already, or the pair is put in
-- where its key belongs.
pub data Placed (bincode : Bincode) (pair : Pair) (pairs : List Pair) (b : BufferId) (f : Frame)
    (m : BufferPoolManager) : Result Error Overflow × BufferPoolManager → Type 0 where
  duplicate :
      (after : BufferPoolManager) (i : ℕ) (p : Pair)
      → get_elem? pairs i ≡ some p
      → p.key ≡ pair.key
      → IsValid after
      → ((q : PageId) → contents after q ≡ contents m q)
      → (g : Frame) → frame_at after b ≡ some g
      → g.handles + 1 ≡ f.handles
      → Placed bincode pair pairs b f m (err duplicate_key, after)
  put :
      (after : BufferPoolManager) (i : ℕ) (page : Bytes) (l : Leaf)
      → Position pair.key pairs (Bsearch.err i)
      → IsValid after
      → contents after f.buffer.page_id ≡ some page
      → IsLeafPage bincode page l (insert_at i pair pairs)
      → ((q : PageId) → q ≢ f.buffer.page_id → contents after q ≡ contents m q)
      → (g : Frame) → frame_at after b ≡ some g
      → g.handles + 1 ≡ f.handles
      → Placed bincode pair pairs b f m (ok none, after)

module _ (bincode : Bincode) (pair : Pair) (bytes : Bytes) (pairs : List Pair) (l : Leaf)
    (m : BufferPoolManager) (v : IsValid m) (b : BufferId) (f : Frame)
    (found : frame_at m b ≡ some f) (clone : 0 < f.handles)
    (named : f.buffer.page_id ≢ invalid_page_id) (leaf : IsLeafPage bincode f.buffer.page l pairs)
    (written : bincode.serialize pair ≡ some bytes)
    (small : length bytes + pointer_size ≤ capacity l.body / 2)
    (room : HasSpace (length bytes) l.body) where
  -- The bytes of the leaf are put back, the buffer is marked, and the clone is dropped.
  put_back :
      (i : ℕ) (after : Leaf)
      → Position pair.key pairs (Bsearch.err i)
      → AfterInsert bincode i pair bytes pairs l (some tt, after)
      → Returns
          (released b ((do put_page b (leaf_page after); mark_dirty b; pure none) m))
          (Placed bincode pair pairs b f m)
  unfolding put_page mark_dirty
  put_back i after place (holds, header, size, pad) =
      let page = leaf_page after in
      let full : length page ≡ page_size =
        length-leaf_page after
        ∙ ap (λ n. n + 32) size
        ∙ sym (length-leaf_page l)
        ∙ ap length (sym leaf.written)
        ∙ v.whole b f found in
      let (m2, both, put_in, marked, _, _) = write_page-PageWritten m b f page v found named full in
      let (m1, e1, e2) = >>=-eq-done (write_page b page m) (set_dirty b) both in
      let (m3, e3, d) =
        Returns-value (drop_handle b m2) (drop_handle-Dropped m2 b _ put_in.valid marked) in
      rw (e1, e2, e3)
        (put m3 i page after place d.valid (d.kept f.buffer.page_id ∙ put_in.held)
          (record {
            written = refl;
            fits =
                Holds-FitsLeaf bincode l after (insert_at i pair pairs) leaf.fits holds header pad;
            holds = holds;
          })
          (λ q ne. d.kept q ∙ put_in.others q ne) _ d.frame (omega (arith, clone)))

  -- A leaf with room does not refuse.
  fitted :
      (i : ℕ)
      → Position pair.key pairs (Bsearch.err i)
      → (after : Option (Unit {0}) × Leaf) → AfterInsert bincode i pair bytes pairs l after
      → (let next : M Overflow = elim after.0 [
        | some _ ↦ do put_page b (leaf_page after.1); mark_dirty b; pure none
        | none ↦ split_leaf bincode after.1 b pair.key pair.value
      ] in
          Returns (released b (next m)) (Placed bincode pair pairs b f m))
  fitted i place (some u, after) r = put_back i after place r
  fitted i place (none, after) r = absurd (omega (arith, r.1))

  -- What the search found.
  at_slot :
      (found_slot : Found)
      → Position pair.key pairs found_slot
      → Returns
          (released b (insert_at_slot bincode l b pair.key pair.value found_slot m))
          (Placed bincode pair pairs b f m)
  unfolding insert_at_slot
  at_slot (Bsearch.ok i) (p, e, same) =
      let (m', d, dropped) = Returns-value (drop_handle b m) (drop_handle-Dropped m b f v found) in
      rw d
        (duplicate m' i p e same dropped.valid dropped.kept _ dropped.frame (omega (arith, clone)))
  at_slot (Bsearch.err i) place =
      let (after, e, r) =
        Returns-value (Leaf.insert bincode i pair.key pair.value l)
          (insert-AfterInsert bincode i pair bytes pairs l leaf.holds place written small) in
      rw e (fitted i place after r)

  -- On a well-formed manager, with a clone of the buffer of a valid page id, whose page is written
  -- as that of a leaf of sorted pairs, its fields in their ranges, and with a pair of at most the
  -- greatest size for which the leaf has room, `insert_internal` with fuel returns. If the key is
  -- there, it reports a duplicate key, and all pages are as before. Otherwise it returns no
  -- overflow; the page is then that of a leaf with the pair put in where its key belongs, and all
  -- other pages are as before. The manager is well formed, and the clone is dropped.
  pub insert_internal-Placed :
      (fuel : ℕ)
      → Returns
          (insert_internal bincode (suc fuel) b pair.key pair.value m)
          (Placed bincode pair pairs b f m)
  unfolding insert_internal insert_leaf page_of
  insert_internal-Placed fuel =
      let (found_slot, e, position) =
        Returns-value (search_slot_id bincode pair.key l)
          (search_slot_id-Position bincode pair.key l pairs leaf.holds) in
      let opened : open_body f.buffer.page ≡ done (Body.leaf l) =
        ap open_body leaf.written ∙ open_leaf_page l leaf.fits in
      rw (found, opened, e) (at_slot found_slot position)
