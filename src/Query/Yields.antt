-- ===== src/Query/Yields.antt =====
-- src/query.rs: what a caller of `Executor::next` sees, call by call, until it gets no tuple.
use relly.Prelude.{
  ℕ, zero, suc, ◌+◌, ◌≡◌, List, [], ◌∷◌, Bool, true, false, Option, none, some, done, >>=-eq-done,
  arith,
}
use relly.Prelude.Exec.{Result, ok, err}
use relly.Buffer.{BufferPoolManager}
use relly.Btree.{Bincode}
use relly.Btree.Client.{Error}
use relly.Query.{
  Tuple, Condition, Executor, exec_seq_scan, exec_filter, exec_index_scan, exec_index_only_scan,
  filtered, next,
}

-- What a call of `next` ends with.
abbrev pub Answer : Type 0
Answer = Result Error (Option Tuple) × Executor × BufferPoolManager

-- The end of a run of calls: no error or an error, the executor and the manager.
abbrev pub Last : Type 0
Last = Option Error × Executor × BufferPoolManager

module _ (bincode : Bincode) (fuel : ℕ) where
  -- A call ends so, given enough rounds.
  abbrev pub Steps : Executor → BufferPoolManager → Answer → Type 0
  Steps executor m r = (rounds : ℕ) × (next bincode fuel rounds executor m ≡ done r)

  -- Calls until one gives no tuple: the tuples, and how the last call ended.
  pub data Yields : Executor → BufferPoolManager → List Tuple → Last → Type 0 where
    ended :
        {e e' : Executor} {m m' : BufferPoolManager}
        → Steps e m (ok none, e', m')
        → Yields e m [] (none, e', m')
    failed :
        {e e' : Executor} {m m' : BufferPoolManager} (x : Error)
        → Steps e m (err x, e', m')
        → Yields e m [] (some x, e', m')
    gave :
        {e e' : Executor} {m m' : BufferPoolManager} (t : Tuple) {ts : List Tuple} {last : Last}
        → Steps e m (ok (some t), e', m')
        → Yields e' m' ts last
        → Yields e m (t ∷ ts) last

  -- One round more.
  filtered_more :
      (rounds : ℕ) (cond : Condition) (y r : Answer)
      → ((e : Executor) (m : BufferPoolManager) (x : Answer)
          → next bincode fuel rounds e m ≡ done x
          → next bincode fuel (suc rounds) e m ≡ done x)
      → filtered cond (next bincode fuel rounds) y ≡ done r
      → filtered cond (next bincode fuel (suc rounds)) y ≡ done r
  unfolding filtered
  filtered_more rounds cond (ok none, e, m) r more h = h
  filtered_more rounds cond (err x, e, m) r more h = h
  filtered_more rounds cond (ok (some t), e, m) r more h =
      let (holds, a, b) = >>=-eq-done (cond t) _ h in rw a (go holds b)
    where
      go :
          (holds : Bool)
          → elim holds [
            | true ↦ done (ok (some t), exec_filter e cond, m)
            | false ↦ next bincode fuel rounds (exec_filter e cond) m
          ]
            ≡ done r
          → elim holds [
            | true ↦ done (ok (some t), exec_filter e cond, m)
            | false ↦ next bincode fuel (suc rounds) (exec_filter e cond) m
          ]
            ≡ done r
      go true k = k
      go false k = more (exec_filter e cond) m r k

  next-suc :
      (rounds : ℕ) (e : Executor) (m : BufferPoolManager) (x : Answer)
      → next bincode fuel rounds e m ≡ done x
      → next bincode fuel (suc rounds) e m ≡ done x
  unfolding next
  next-suc zero e m x h = absurd cc
  next-suc (suc rounds) (exec_seq_scan e) m x h = h
  next-suc (suc rounds) (exec_index_scan e) m x h = h
  next-suc (suc rounds) (exec_index_only_scan e) m x h = h
  next-suc (suc rounds) (exec_filter e cond) m x h =
      let (y, a, b) = >>=-eq-done (next bincode fuel rounds e m) _ h in
      rw (next-suc rounds e m y a) (filtered_more rounds cond y x (next-suc rounds) b)

  -- More rounds than enough give the same.
  pub next-more :
      (more rounds : ℕ) (e : Executor) (m : BufferPoolManager) (x : Answer)
      → next bincode fuel rounds e m ≡ done x
      → next bincode fuel (more + rounds) e m ≡ done x
  next-more zero rounds e m x h = let z : 0 + rounds ≡ rounds = omega arith in rw z h
  next-more (suc more) rounds e m x h =
      let z : suc more + rounds ≡ suc (more + rounds) = omega arith in
      rw z (next-suc (more + rounds) e m x (next-more more rounds e m x h))

  -- An executor whose first call is the first call of another.
  pub Yields-step :
      (e f : Executor) (m n : BufferPoolManager) (ts : List Tuple) (last : Last)
      → ((r : Answer) → Steps f n r → Steps e m r)
      → Yields f n ts last
      → Yields e m ts last
  Yields-step e f m n _ _ same (ended s) = ended (same _ s)
  Yields-step e f m n _ _ same (failed x s) = failed x (same _ s)
  Yields-step e f m n _ _ same (gave t s rest) = gave t (same _ s) rest
