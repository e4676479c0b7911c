-- ===== src/Query/Whole.antt =====
-- src/query.rs: a sequential scan of a table from the start, through the tree and the buffers.
use relly.Prelude.{
  ℕ, ◌<◌, ◌≡◌, refl, ap, subst, List, [], ◌∷◌, Bool, none, done, Returns, Returns-value, Bool-cases,
  inl, inr,
}
use relly.Prelude.Exec.{Result, ok, err, continue}
use relly.Buffer.{BufferPoolManager}
use relly.Buffer.Valid.{IsValid, contents}
use relly.Tuple.RoundTrip.{encodings}
use relly.Btree.{Pair, Bincode}
use relly.Btree.SearchMode
use relly.Btree.Client.{Error}
use relly.Btree.Iter.{Iter}
use relly.Btree.Tree
use relly.Btree.Tree.{BTree}
use relly.Btree.Reads.{HasTwoFree}
use relly.Btree.Found.{IsTree}
use relly.Btree.Chain.Walk.{entries}
use relly.Btree.Scan.{IsLinked, Scanned, search-Scanned}
use relly.Btree.Walks.{Walks}
use relly.Query
use relly.Query.{
  Tuple, Condition, Executor, TupleSearchMode, encode, SeqScan, PlanNode, seq_scan, search_tuple,
  start_seq_scan, start_plan,
}
use relly.Query.Yields.{Yields}
use relly.Query.Scan.{Row, stored_all, AnswersKeys, rows_while, scan_error, scans-Scans}

-- The pairs that stand for rows.
abbrev pub pairs_of : List Row → List Pair
pairs_of [] = []
pairs_of ((key, value) ∷ rows) =
    record { key = encodings key; value = encodings value } ∷ pairs_of rows

entries-pairs_of : (rows : List Row) → entries (pairs_of rows) ≡ stored_all rows
entries-pairs_of [] = refl
entries-pairs_of ((key, value) ∷ rows) =
    ap (◌∷◌ (encodings key, encodings value)) (entries-pairs_of rows)

no_scan_error : (p : Tuple → Bool) (rows : List Row) → scan_error p rows none ≡ none
no_scan_error p [] = refl
no_scan_error p ((key, value) ∷ rows) = elim (Bool-cases (p key)) [
  | inl t ↦ rw t (no_scan_error p rows)
  | inr f ↦ rw f refl
]

-- The plan started, and its calls give these tuples and then none.
abbrev pub Runs : Bincode → ℕ → List Tuple → Result Error Executor × BufferPoolManager → Type 0
Runs bincode fuel tuples (ok e, m) =
    (e' : Executor) × (m' : BufferPoolManager) × Yields bincode fuel e m tuples (none, e', m')
Runs bincode fuel tuples (err x, m) = ⊥

module _ (bincode : Bincode) (fuel : ℕ) (p : Tuple → Bool) (rows : List Row) (plan : SeqScan)
    (answers : AnswersKeys plan.while_cond p rows) where
  Scanned-Runs :
      (m0 : BufferPoolManager) (r : Result Error Iter × BufferPoolManager)
      → Scanned bincode m0 (pairs_of rows) r
      → Returns
          (continue (done r) (λ table_iter. (λ m. done (
            ok (
                Query.exec_seq_scan
                  (record { table_iter = table_iter; while_cond = plan.while_cond })),
            m,
          ))))
          (Runs bincode fuel (rows_while p rows))
  Scanned-Runs m0 (err x, m) s = absurd s
  Scanned-Runs m0 (ok iter, m) (iter', m', w, a) =
      let w' : Walks bincode iter m (stored_all rows) (none, iter', m') =
        subst (λ x. Walks bincode iter m x (none, iter', m')) (entries-pairs_of rows) w in
      let (i, n, y) =
        (scans-Scans bincode fuel plan.while_cond p iter m rows none iter' m' answers w').0 in
      (
        Query.exec_seq_scan (record { table_iter = i; while_cond = plan.while_cond }),
        n,
        rw (no_scan_error p rows) at y,
      )

  -- On a well-formed manager with two buffers that have no clone and no fault to come, whose pages
  -- hold the table's tree of linked leaves, none of them empty, whose pairs stand for rows, with more
  -- fuel than the tree's height, and with a condition that answers on the key of each row, a
  -- sequential scan from the start runs without an error: it gives the rows as tuples, in the order
  -- of the keys, up to the first whose key is refused.
  pub seq_scan-Runs :
      (height : ℕ) (m : BufferPoolManager)
      → IsValid m
      → HasTwoFree m
      → m.disk.heap_file.faults ≡ []
      → (t : IsTree bincode (contents m) (Tree.new plan.table_meta_page_id) height (pairs_of rows))
      → IsLinked bincode (contents m) t.stored
      → height < fuel
      → plan.search_mode ≡ TupleSearchMode.start
      → Returns (start_plan bincode fuel (seq_scan plan) m) (Runs bincode fuel (rows_while p rows))
  unfolding start_plan start_seq_scan search_tuple encode
  seq_scan-Runs height m v free calm t linked lt mode =
      let (r, e, s) =
        Returns-value
          (Tree.search bincode fuel (Tree.new plan.table_meta_page_id) SearchMode.start m)
          (search-Scanned bincode fuel height (Tree.new plan.table_meta_page_id) (pairs_of rows) m v
            free calm t linked lt) in
      rw (mode, e) (Scanned-Runs m r s)
