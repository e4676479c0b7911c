-- ===== src/Btree/Walks.antt =====
-- src/btree.rs: what a caller of `Iter::next` sees, call by call, until it gets no pair.
use relly.Prelude.{◌≡◌, List, [], ◌∷◌, Bytes, Option, none, some, done}
use relly.Prelude.Exec.{ok, err}
use relly.Buffer.{BufferPoolManager}
use relly.Btree.{Bincode}
use relly.Btree.Client.{Error}
use relly.Btree.Iter.{Iter, next}

module _ (bincode : Bincode) where
  -- The pairs, and how the last call ended.
  abbrev pub Last : Type 0
  Last = Option Error × Iter × BufferPoolManager

  pub data Walks : Iter → BufferPoolManager → List (Bytes × Bytes) → Last → Type 0 where
    ended :
        {i i' : Iter} {m m' : BufferPoolManager}
        → next bincode i m ≡ done (ok none, i', m')
        → Walks i m [] (none, i', m')
    failed :
        {i i' : Iter} {m m' : BufferPoolManager} (x : Error)
        → next bincode i m ≡ done (err x, i', m')
        → Walks i m [] (some x, i', m')
    gave :
        {i i' : Iter} {m m' : BufferPoolManager} (pair : Bytes × Bytes)
        {pairs : List (Bytes × Bytes)} {last : Option Error × Iter × BufferPoolManager}
        → next bincode i m ≡ done (ok (some pair), i', m')
        → Walks i' m' pairs last
        → Walks i m (pair ∷ pairs) last
