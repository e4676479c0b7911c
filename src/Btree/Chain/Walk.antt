-- ===== src/Btree/Chain/Walk.antt =====
-- src/btree.rs: the calls of `Iter::next` along a chain of leaves.
use relly.Prelude.{
  ℕ, zero, suc, ◌+◌, ◌-◌, ◌*◌, ◌<◌, ◌≡◌, refl, sym, ◌∙◌, subst, List, [], ◌∷◌, ◌++◌, Bytes, length,
  get_elem?, drop, get_elem?_lt, Option, none, some, some_injective, done, Returns-value, arith,
}
use relly.Prelude.Exec.{Result, ok, err}
use relly.Disk.{PageId, page_size, u64_end}
use relly.Buffer.{BufferPoolManager}
use relly.Btree.{Pair, Bincode}
use relly.Btree.Leaf.{Leaf, next_page_id}
use relly.Btree.Client.{Error}
use relly.Btree.Iter.{Iter, get, advance, next}
use relly.Btree.Reads.{At, no_more, with_one, HasTwoFree, Holding}
use relly.Btree.Walks.{Walks, ended, gave}
use relly.Btree.Chain.{
  LeafAt, Chain, Chain-leaf, end, link, get-InLeaf, get_past, advance_inside, advance_end, InFirst,
  advance_link,
}

abbrev pub entries : List Pair → List (Bytes × Bytes)
entries [] = []
entries (p ∷ pairs) = (p.key, p.value) ∷ entries pairs

drop_cons :
    (i : ℕ) (p : Pair) (pairs : List Pair)
    → get_elem? pairs i ≡ some p
    → drop i pairs ≡ p ∷ drop (suc i) pairs
drop_cons i p [] e = cc
drop_cons zero p (q ∷ pairs) e = let same : q ≡ p = cc in rw same refl
drop_cons (suc i) p (q ∷ pairs) e = drop_cons i p pairs e

drop_all : (pairs : List Pair) → drop (length pairs) pairs ≡ []
drop_all [] = refl
drop_all (p ∷ pairs) = drop_all pairs

module _ (bincode : Bincode) (m0 : BufferPoolManager) (c : PageId → Option Bytes) where
  -- The calls of `next` give these pairs and then none, and the reader still has one clone.
  abbrev pub Walked : Iter → BufferPoolManager → List Pair → Type 0
  Walked iter m pairs =
      (iter' : Iter) × (m' : BufferPoolManager) × Walks bincode iter m (entries pairs)
        (none, iter', m')
      × At m0 c (with_one no_more iter'.buffer) m'

module _ (bincode : Bincode) (m0 : BufferPoolManager) (c : PageId → Option Bytes)
    (free : HasTwoFree m0) where
  next_step :
      (iter iter' : Iter) (m m' : BufferPoolManager) (value : Option (Bytes × Bytes))
      → get bincode iter m ≡ done value
      → advance iter m ≡ done (ok tt, iter', m')
      → next bincode iter m ≡ done (ok value, iter', m')
  unfolding next
  next_step iter iter' m m' value e a = rw (e, a) refl

  -- One pair further.
  Walked-cons :
      (iter iter' : Iter) (m m' : BufferPoolManager) (p : Pair) (pairs rest : List Pair)
      → next bincode iter m ≡ done (ok (some (p.key, p.value)), iter', m')
      → get_elem? pairs iter.slot_id ≡ some p
      → Walked bincode m0 c iter' m' (drop (suc iter.slot_id) pairs ++ rest)
      → Walked bincode m0 c iter m (drop iter.slot_id pairs ++ rest)
  Walked-cons iter iter' m m' p pairs rest e there (i, n, w, a) =
      rw (drop_cons iter.slot_id p pairs there) (i, n, gave (p.key, p.value) e w, a)

  module _ (id : PageId) (page : Bytes) (body : Leaf) (pairs rest : List Pair)
      (l : LeafAt bincode c id page body pairs) where
    -- To the leaf's last pair.
    leaf_walk :
        (k : ℕ) (iter : Iter) (m : BufferPoolManager)
        → Holding m0 c no_more page iter.buffer m
        → iter.slot_id + suc k ≡ length pairs
        → ((iter' : Iter)
            → Holding m0 c no_more page iter'.buffer m
            → iter'.slot_id + 1 ≡ length pairs
            → Walked bincode m0 c iter' m (drop iter'.slot_id pairs ++ rest))
        → Walked bincode m0 c iter m (drop iter.slot_id pairs ++ rest)
    leaf_walk zero iter m h e at_last = at_last iter h (omega arith)
    leaf_walk (suc k) iter m h e at_last =
        let (p, there) = get_elem?_lt pairs iter.slot_id (omega arith) in
        let iter' : Iter = record iter { slot_id = iter.slot_id + 1 } in
        let s : suc iter.slot_id ≡ iter.slot_id + 1 = omega arith in
        Walked-cons iter iter' m m p pairs rest
          (next_step iter iter' m m (some (p.key, p.value))
            (get-InLeaf bincode m0 c free id page body pairs p iter m l h there)
            (advance_inside bincode m0 c free id page body pairs iter m l h (omega arith)))
          there (rw s (leaf_walk k iter' m h (omega arith) at_last))

  -- The last pair of all.
  walk_end :
      (id : PageId) (page : Bytes) (body : Leaf) (pairs : List Pair) (iter : Iter)
      (m : BufferPoolManager)
      → LeafAt bincode c id page body pairs
      → next_page_id body ≡ none
      → Holding m0 c no_more page iter.buffer m
      → iter.slot_id + 1 ≡ length pairs
      → Walked bincode m0 c iter m (drop iter.slot_id pairs ++ [])
  walk_end id page body pairs iter m l none_next h e =
      let (p, there) = get_elem?_lt pairs iter.slot_id (omega arith) in
      let iter' : Iter = record iter { slot_id = iter.slot_id + 1 } in
      let iter'' : Iter = record iter { slot_id = iter.slot_id + 1 + 1 } in
      let z : suc iter.slot_id ≡ length pairs = omega arith in
      Walked-cons iter iter' m m p pairs []
        (next_step iter iter' m m (some (p.key, p.value))
          (get-InLeaf bincode m0 c free id page body pairs p iter m l h there)
          (advance_end bincode m0 c free id page body pairs iter m l h none_next (omega arith)))
        there
        (rw (z, drop_all pairs)
          (
            iter'',
            m,
            ended (
                next_step iter' iter'' m m none
                  (get_past bincode m0 c free id page body pairs iter' m l h (omega arith))
                  (advance_end bincode m0 c free id page body pairs iter' m l h none_next
                    (omega arith))),
            h.reader,
          ))

  -- The last pair of a leaf that another follows.
  walk_link :
      (id id' : PageId) (page page' : Bytes) (body : Leaf) (pairs more rest : List Pair)
      (iter : Iter) (m : BufferPoolManager)
      → LeafAt bincode c id page body pairs
      → next_page_id body ≡ some id'
      → page_size * id' < u64_end
      → c id' ≡ some page'
      → Holding m0 c no_more page iter.buffer m
      → iter.slot_id + 1 ≡ length pairs
      → ((iter' : Iter) (m' : BufferPoolManager)
          → iter'.slot_id ≡ 0
          → Holding m0 c no_more page' iter'.buffer m'
          → Walked bincode m0 c iter' m' (more ++ rest))
      → Walked bincode m0 c iter m (drop iter.slot_id pairs ++ (more ++ rest))
  walk_link id id' page page' body pairs more rest iter m l e offset here h last go =
      let (p, there) = get_elem?_lt pairs iter.slot_id (omega arith) in
      let z : suc iter.slot_id ≡ length pairs = omega arith in
      let (r, a, first) = Returns-value (advance iter m) (
        advance_link bincode m0 c free id id' page page' body pairs iter m l h e offset here
          (omega arith)) in
      go_first r a first (λ iter' m' a' zero' k.
        Walked-cons iter iter' m m' p pairs (more ++ rest)
          (next_step iter iter' m m' (some (p.key, p.value))
            (get-InLeaf bincode m0 c free id page body pairs p iter m l h there) a')
          there (rw (z, drop_all pairs) (go iter' m' zero' k)))
    where
      go_first :
          {W : Type 0} (r : Result Error (Unit {0}) × Iter × BufferPoolManager)
          → advance iter m ≡ done r
          → InFirst bincode m0 c free page' r
          → ((iter' : Iter) (m' : BufferPoolManager)
              → advance iter m ≡ done (ok tt, iter', m')
              → iter'.slot_id ≡ 0
              → Holding m0 c no_more page' iter'.buffer m'
              → W)
          → W
      go_first (ok _, iter', m') a (zero', k) f = f iter' m' a zero' k
      go_first (err x, iter', m') a k f = absurd k

  same_page :
      (id : PageId) (page page' : Bytes) (body : Leaf) (pairs : List Pair)
      → LeafAt bincode c id page body pairs
      → c id ≡ some page'
      → LeafAt bincode c id page' body pairs
  same_page id page page' body pairs l here =
      subst (λ x. LeafAt bincode c id x body pairs) (some_injective (sym l.here ∙ here)) l

  -- From a slot of the chain's first leaf on.
  pub Chain-walk :
      (id : PageId) (page : Bytes) (pairs rest : List Pair) (k : ℕ) (iter : Iter)
      (m : BufferPoolManager)
      → Chain bincode c id pairs rest
      → c id ≡ some page
      → Holding m0 c no_more page iter.buffer m
      → iter.slot_id + suc k ≡ length pairs
      → Walked bincode m0 c iter m (drop iter.slot_id pairs ++ rest)
  Chain-walk _ page _ _ k iter m (end id page' body pairs l e) here h n =
      let l' = same_page id page' page body pairs l here in
      leaf_walk id page body pairs [] l' k iter m h n
        (λ iter' h' last. walk_end id page body pairs iter' m l' e h' last)
  Chain-walk _ page _ _ k iter m (link id after page' body pairs more rest l e chain some_there)
        here h n =
      let l' = same_page id page' page body pairs l here in
      let (page'', body'', next_leaf) = Chain-leaf bincode c after more rest chain in
      leaf_walk id page body pairs (more ++ rest) l' k iter m h n (λ iter' h' last.
        walk_link id after page page'' body pairs more rest iter' m l' e next_leaf.offset
          next_leaf.here h' last
          (λ i m' zero' h''.
            subst (λ x. Walked bincode m0 c i m' (drop x more ++ rest)) zero'
              (Chain-walk after page'' more rest (length more - 1) i m' chain next_leaf.here h''
                (omega arith))))
