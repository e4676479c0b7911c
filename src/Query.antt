-- ===== src/Query.antt =====
-- src/query.rs: plans and executors. An executor is changed in place, so it comes back beside an
-- error too. The trait objects are the plans and executors of the file. The conditions of a plan
-- are functions that may panic. What an executor holds is dropped by its owner.
pub mod Yields
pub mod Filter
pub mod Scan
pub mod Whole
mod Tests
use relly.Prelude.{
  ℕ, zero, suc, List, [], Bytes, Bool, true, false, Option, none, some, Run, done, panic, hang,
  ◌>>=◌, unwrap,
}
use relly.Prelude.Exec
use relly.Prelude.Exec.{Result, ok, err}
use relly.Disk.{PageId}
use relly.Buffer.{BufferPoolManager, drop_handle}
use relly.Tuple.{decode, encode as encode_tuple}
use relly.Btree.{Bincode}
use relly.Btree.SearchMode
use relly.Btree.SearchMode.{SearchMode}
use relly.Btree.Client.{Error, M}
use relly.Btree.Tree
use relly.Btree.Tree.{BTree}
use relly.Btree.Iter
use relly.Btree.Iter.{Iter}

abbrev pub Tuple : Type 0
Tuple = List Bytes

abbrev pub Condition : Type 0
Condition = Tuple → Run Bool

pub data TupleSearchMode : Type 0 where
  start : TupleSearchMode
  key : Tuple → TupleSearchMode

unfoldable pub encode : TupleSearchMode → Run SearchMode
encode start = done SearchMode.start
encode (key tuple) = do bytes ← encode_tuple tuple []; done (SearchMode.key bytes)

pub record ExecSeqScan : Type 0 where
  pub table_iter : Iter
  pub while_cond : Condition

pub record ExecIndexScan : Type 0 where
  pub table_btree : BTree
  pub index_iter : Iter
  pub while_cond : Condition

pub record ExecIndexOnlyScan : Type 0 where
  pub index_iter : Iter
  pub while_cond : Condition

-- The implementations of `Executor`; a filter has an inner executor and a condition.
pub data Executor : Type 0 where
  exec_seq_scan : ExecSeqScan → Executor
  exec_filter : Executor → Condition → Executor
  exec_index_scan : ExecIndexScan → Executor
  exec_index_only_scan : ExecIndexOnlyScan → Executor

-- What the `next` of an implementation returns: the tuple, the executor afterwards and the manager.
abbrev pub Step : Type 0 → Type 0
Step E = Run (Result Error (Option Tuple) × E × BufferPoolManager)

-- What the `next` of an iterator returns.
abbrev pub IterStep : Type 0
IterStep = Result Error (Option (Bytes × Bytes)) × Iter × BufferPoolManager

-- A pair of an iterator's tree, decoded: the key's tuple for the condition, and both together.
unfoldable pub decode_pair : Condition → Bytes × Bytes → Run (Option Tuple)
decode_pair while_cond (key_bytes, value_bytes) = do
  key_tuple ← decode key_bytes []
  holds ← while_cond key_tuple
  elim holds [
    | true ↦ do tuple ← decode value_bytes key_tuple; done (some tuple)
    | false ↦ done none
  ]

-- After `self.table_iter.next(bufmgr)`.
unfoldable pub seq_scanned : Condition → IterStep → Step ExecSeqScan
seq_scanned while_cond (ok none, iter, m) =
    done (ok none, record { table_iter = iter; while_cond = while_cond }, m)
seq_scanned while_cond (ok (some pair), iter, m) = do
  tuple ← decode_pair while_cond pair
  done (ok tuple, record { table_iter = iter; while_cond = while_cond }, m)
seq_scanned while_cond (err e, iter, m) =
    done (err e, record { table_iter = iter; while_cond = while_cond }, m)

-- After `self.index_iter.next(bufmgr)`.
unfoldable pub index_only_scanned : Condition → IterStep → Step ExecIndexOnlyScan
index_only_scanned while_cond (ok none, iter, m) =
    done (ok none, record { index_iter = iter; while_cond = while_cond }, m)
index_only_scanned while_cond (ok (some pair), iter, m) = do
  tuple ← decode_pair while_cond pair
  done (ok tuple, record { index_iter = iter; while_cond = while_cond }, m)
index_only_scanned while_cond (err e, iter, m) =
    done (err e, record { index_iter = iter; while_cond = while_cond }, m)

-- `table_iter.next(bufmgr)?.unwrap()`; the iterator is dropped at the end of the scope.
unfoldable pub looked_up : ExecIndexScan → IterStep → Step ExecIndexScan
looked_up executor (ok none, iter, m) = panic
looked_up executor (ok (some (pkey_bytes, tuple_bytes)), iter, m) = do
  pkey ← decode pkey_bytes []
  tuple ← decode tuple_bytes pkey
  m' ← drop_handle iter.buffer m
  done (ok (some tuple), executor, m')
looked_up executor (err e, iter, m) = do m' ← drop_handle iter.buffer m; done (err e, executor, m')

module _ (bincode : Bincode) (fuel : ℕ) where
  -- The search for the primary key that the index names.
  unfoldable pub look_up :
      ExecIndexScan → Result Error Iter × BufferPoolManager → Step ExecIndexScan
  look_up executor (ok iter, m) = Iter.next bincode iter m >>= looked_up executor
  look_up executor (err e, m) = done (err e, executor, m)

  unfoldable pub index_scanned : ExecIndexScan → IterStep → Step ExecIndexScan
  index_scanned executor (ok none, iter, m) =
      done (ok none, record executor { index_iter = iter }, m)
  index_scanned executor (ok (some (skey_bytes, pkey_bytes)), iter, m) = do
    skey ← decode skey_bytes []
    holds ← executor.while_cond skey
    elim holds [
      | true ↦
          Tree.search bincode fuel executor.table_btree (SearchMode.key pkey_bytes) m
          >>= look_up (record executor { index_iter = iter })
      | false ↦ done (ok none, record executor { index_iter = iter }, m)
    ]
  index_scanned executor (err e, iter, m) = done (err e, record executor { index_iter = iter }, m)

  -- `ExecSeqScan::next`
  unfoldable pub seq_scan_next : ExecSeqScan → BufferPoolManager → Step ExecSeqScan
  seq_scan_next executor m =
      Iter.next bincode executor.table_iter m >>= seq_scanned executor.while_cond

  -- `ExecIndexScan::next`
  unfoldable pub index_scan_next : ExecIndexScan → BufferPoolManager → Step ExecIndexScan
  index_scan_next executor m = Iter.next bincode executor.index_iter m >>= index_scanned executor

  -- `ExecIndexOnlyScan::next`
  unfoldable pub index_only_scan_next :
      ExecIndexOnlyScan → BufferPoolManager → Step ExecIndexOnlyScan
  index_only_scan_next executor m =
      Iter.next bincode executor.index_iter m >>= index_only_scanned executor.while_cond

-- The implementation's step as one of the trait object.
abbrev pub boxed : {E : Type 0} → (E → Executor) → Step E → Step Executor
boxed box (done (r, executor, m)) = done (r, box executor, m)
boxed box panic = panic
boxed box hang = hang

-- A round of the loop of `ExecFilter::next`; `again` is the next round.
unfoldable pub filtered :
    Condition
    → (Executor → BufferPoolManager → Step Executor)
    → Result Error (Option Tuple) × Executor × BufferPoolManager
    → Step Executor
filtered cond again (ok none, inner_iter, m) = done (ok none, exec_filter inner_iter cond, m)
filtered cond again (ok (some tuple), inner_iter, m) = do
  holds ← cond tuple
  elim holds [
    | true ↦ done (ok (some tuple), exec_filter inner_iter cond, m)
    | false ↦ again (exec_filter inner_iter cond) m
  ]
filtered cond again (err e, inner_iter, m) = done (err e, exec_filter inner_iter cond, m)

module _ (bincode : Bincode) (fuel : ℕ) where
  -- `next` of a trait object, on fuel for the loops of filters.
  unfoldable pub next : ℕ → Executor → BufferPoolManager → Step Executor
  next zero executor m = hang
  next (suc rounds) (exec_seq_scan executor) m =
      boxed exec_seq_scan (seq_scan_next bincode fuel executor m)
  next (suc rounds) (exec_filter inner_iter cond) m =
      next rounds inner_iter m >>= filtered cond (next rounds)
  next (suc rounds) (exec_index_scan executor) m =
      boxed exec_index_scan (index_scan_next bincode fuel executor m)
  next (suc rounds) (exec_index_only_scan executor) m =
      boxed exec_index_only_scan (index_only_scan_next bincode fuel executor m)

pub record SeqScan : Type 0 where
  pub table_meta_page_id : PageId
  pub search_mode : TupleSearchMode
  pub while_cond : Condition

pub record IndexScan : Type 0 where
  pub table_meta_page_id : PageId
  pub index_meta_page_id : PageId
  pub search_mode : TupleSearchMode
  pub while_cond : Condition

pub record IndexOnlyScan : Type 0 where
  pub index_meta_page_id : PageId
  pub search_mode : TupleSearchMode
  pub while_cond : Condition

-- The implementations of `PlanNode`; a filter has an inner plan and a condition.
pub data PlanNode : Type 0 where
  seq_scan : SeqScan → PlanNode
  filter : PlanNode → Condition → PlanNode
  index_scan : IndexScan → PlanNode
  index_only_scan : IndexOnlyScan → PlanNode

module _ (bincode : Bincode) (fuel : ℕ) where
  -- `btree.search(bufmgr, self.search_mode.encode())`
  unfoldable pub search_tuple : BTree → TupleSearchMode → M Iter
  search_tuple btree search_mode =
      Exec.◌>>=◌ (Exec.lift (encode search_mode)) (Tree.search bincode fuel btree)

  -- `SeqScan::start`, `IndexScan::start`, `IndexOnlyScan::start`
  unfoldable pub start_seq_scan : SeqScan → M Executor
  start_seq_scan plan =
      Exec.◌>>=◌ (search_tuple (Tree.new plan.table_meta_page_id) plan.search_mode) (λ table_iter.
        Exec.pure
          (exec_seq_scan (record { table_iter = table_iter; while_cond = plan.while_cond })))

  unfoldable pub start_index_scan : IndexScan → M Executor
  start_index_scan plan =
      Exec.◌>>=◌ (search_tuple (Tree.new plan.index_meta_page_id) plan.search_mode) (λ index_iter.
        Exec.pure (
          exec_index_scan (record {
            table_btree = Tree.new plan.table_meta_page_id;
            index_iter = index_iter;
            while_cond = plan.while_cond;
          })))

  unfoldable pub start_index_only_scan : IndexOnlyScan → M Executor
  start_index_only_scan plan =
      Exec.◌>>=◌ (search_tuple (Tree.new plan.index_meta_page_id) plan.search_mode) (λ index_iter.
        Exec.pure
          (exec_index_only_scan (record { index_iter = index_iter; while_cond = plan.while_cond })))

  -- `start` of a trait object.
  unfoldable pub start_plan : PlanNode → M Executor
  start_plan (seq_scan plan) = start_seq_scan plan
  start_plan (filter inner_plan cond) =
      Exec.◌>>=◌ (start_plan inner_plan) (λ inner_iter. Exec.pure (exec_filter inner_iter cond))
  start_plan (index_scan plan) = start_index_scan plan
  start_plan (index_only_scan plan) = start_index_only_scan plan
