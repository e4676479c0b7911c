-- ===== src/Query/Tests.antt =====
-- src/query.rs: a plan that is run, and the theorems at it.
use relly.Prelude.{
  Returns, arith, ℕ, ◌≡◌, refl, List, [], ◌∷◌, ◌++◌, Bytes, Bool, Option, none, some, Run, done,
  panic, hang, ◌>>=◌, leb, ◌==◌, get_or,
}
use relly.Prelude.Exec
use relly.Prelude.Exec.{Result, ok, err}
use relly.Memcmpable
use relly.Memcmpable.Blocks.{padded, blocks, encoding}
use relly.Tuple
use relly.Tuple.RoundTrip.{encodings}
use relly.Buffer.{BufferPoolManager}
use relly.Btree.Client.{Error, M}
use relly.Btree.Tree
use relly.Btree.Iter
use relly.Btree.Iter.{Iter}
use relly.Btree.Walks
use relly.Btree.TestData.{bincode, program, start, result, state_of}
use relly.Table.{
  SimpleTable, encode_record, split_record, create_simple, simple_created, insert_simple,
}
use relly.Query.{
  Tuple, Condition, Executor, exec_filter, TupleSearchMode, SeqScan, PlanNode, start_plan,
  start_seq_scan, search_tuple, next, seq_scan_next, seq_scanned, decode_pair, filtered, encode,
}
use relly.Buffer.Valid.{contents}
use relly.Btree.Found.{IsTree}
use relly.Btree.Scan.{IsLinked}
use relly.Btree.TestTree.{frame, manager, manager-IsValid, tree, linked}
use relly.Query.Whole.{pairs_of, Runs, seq_scan-Runs}
use relly.Query.Scan.{
  Row, Scans, AnswersKeys, rows_while, stored, stored_all, seq_scan, index_only_scan, scans-Scans,
  cons, nil,
}
use relly.Query.Filter.{Answers, select, filter-Yields}
use relly.Query.Filter
use relly.Query.Yields.{Yields}

queries : Unit {0}
unfolding program padded blocks encoding encodings Memcmpable.encode Memcmpable.decode Tuple.encode
    Tuple.decode encode_record split_record create_simple simple_created insert_simple start_plan
    start_seq_scan search_tuple next seq_scan_next seq_scanned decode_pair filtered encode
queries = tt

abbrev row : ℕ → ℕ → Row
row key value = ((key ∷ []) ∷ [], (value ∷ []) ∷ [])

abbrev rows : List Row
rows = row b'x' b'A' ∷ row b'y' b'B' ∷ row b'z' b'A' ∷ []

abbrev users : SimpleTable
users = record { meta_page_id = 0; num_key_elems = 1 }

abbrev put : Row → BufferPoolManager → BufferPoolManager
put (key, value) m = state_of m (insert_simple bincode 4 (key ++ value) users m)

-- The meta page has id 0.
abbrev filled : BufferPoolManager
filled =
    put (row b'y' b'B')
      (put (row b'z' b'A') (put (row b'x' b'A') (created (create_simple users start))))
  where
    created : Run (Result Error (Unit {0}) × SimpleTable × BufferPoolManager) → BufferPoolManager
    created (done (r, table, m)) = m
    created panic = start
    created hang = start

-- Keys below `z`.
abbrev below : Tuple → Bool
below [] = Bool.false
below (key ∷ rest) = leb (get_or key 0 0) b'y'

abbrev while_cond : Condition
while_cond key = done (below key)

abbrev has_a : Tuple → Bool
has_a [] = Bool.false
has_a (key ∷ []) = Bool.false
has_a (key ∷ value ∷ rest) = get_or value 0 0 == b'A'

abbrev cond : Condition
cond tuple = done (has_a tuple)

abbrev plan : PlanNode
plan =
    PlanNode.filter
      (PlanNode.seq_scan (record {
        table_meta_page_id = 0;
        search_mode = TupleSearchMode.start;
        while_cond = while_cond;
      }))
      cond

-- The plan's first tuple, and then no other.
abbrev first_two : Executor → M (Option Tuple × Option Tuple)
first_two e m = next bincode 4 9 e m >>= again
  where
    again :
        Result Error (Option Tuple) × Executor × BufferPoolManager
        → Run (Result Error (Option Tuple × Option Tuple) × BufferPoolManager)
    again (err x, e', m') = done (err x, m')
    again (ok t, e', m') = next bincode 4 9 e' m' >>= both
      where
        both :
            Result Error (Option Tuple) × Executor × BufferPoolManager
            → Run (Result Error (Option Tuple × Option Tuple) × BufferPoolManager)
        both (err x, e'', m'') = done (err x, m'')
        both (ok u, e'', m'') = done (ok (t, u), m'')

plan_runs :
    result (Exec.◌>>=◌ (start_plan bincode 4 plan) first_two filled)
    ≡ done (ok (some ((b'x' ∷ []) ∷ (b'A' ∷ []) ∷ []), none))
unfolding queries
plan_runs = refl

-- The iterator at the start of the table, and its state after each call.
abbrev at_start : Iter × BufferPoolManager
at_start = opened (search_tuple bincode 4 (Tree.new 0) TupleSearchMode.start filled)
  where
    opened : Run (Result Error Iter × BufferPoolManager) → Iter × BufferPoolManager
    opened (done (ok i, m)) = (i, m)
    opened (done (err x, m)) = (record { buffer = 0; slot_id = 0 }, m)
    opened panic = (record { buffer = 0; slot_id = 0 }, filled)
    opened hang = (record { buffer = 0; slot_id = 0 }, filled)

abbrev IterAnswer : Type 0
IterAnswer = Result Error (Option (Bytes × Bytes)) × Iter × BufferPoolManager

abbrev after : Iter × BufferPoolManager → Run IterAnswer → Iter × BufferPoolManager
after s (done (r, i', m')) = (i', m')
after s panic = s
after s hang = s

abbrev answer : Run IterAnswer → Run (Result Error (Option (Bytes × Bytes)))
answer (done (r, i, m)) = done r
answer panic = panic
answer hang = hang

abbrev stepped : Iter × BufferPoolManager → Iter × BufferPoolManager
stepped (i, m) = after (i, m) (Iter.next bincode i m)

-- The state after a run that ends.
run_of_answer :
    (s : Iter × BufferPoolManager) (run : Run IterAnswer)
    (r : Result Error (Option (Bytes × Bytes)))
    → answer run ≡ done r
    → run ≡ done (r, (after s run).0, (after s run).1)
run_of_answer s (done (x, i, m)) r h = let e : x ≡ r = cc in rw e refl
run_of_answer s panic r h = absurd cc
run_of_answer s hang r h = absurd cc

abbrev at_second : Iter × BufferPoolManager
at_second = stepped at_start

abbrev at_third : Iter × BufferPoolManager
at_third = stepped at_second

abbrev at_end : Iter × BufferPoolManager
at_end = stepped at_third

abbrev past_end : Iter × BufferPoolManager
past_end = stepped at_end

first_answer :
    answer (Iter.next bincode at_start.0 at_start.1) ≡ done (ok (some (stored (row b'x' b'A'))))
unfolding queries
first_answer = refl

second_answer :
    answer (Iter.next bincode at_second.0 at_second.1) ≡ done (ok (some (stored (row b'y' b'B'))))
unfolding queries
second_answer = refl

third_answer :
    answer (Iter.next bincode at_third.0 at_third.1) ≡ done (ok (some (stored (row b'z' b'A'))))
unfolding queries
third_answer = refl

last_answer : answer (Iter.next bincode at_end.0 at_end.1) ≡ done (ok none)
unfolding queries
last_answer = refl

walk : Walks.Walks bincode at_start.0 at_start.1 (stored_all rows) (none, past_end.0, past_end.1)
walk =
    Walks.gave (stored (row b'x' b'A'))
      (run_of_answer at_start (Iter.next bincode at_start.0 at_start.1) _ first_answer)
      (Walks.gave (stored (row b'y' b'B'))
        (run_of_answer at_second (Iter.next bincode at_second.0 at_second.1) _ second_answer)
        (Walks.gave (stored (row b'z' b'A'))
          (run_of_answer at_third (Iter.next bincode at_third.0 at_third.1) _ third_answer)
          (Walks.ended (run_of_answer at_end (Iter.next bincode at_end.0 at_end.1) _ last_answer))))

keys_answered : AnswersKeys while_cond below rows
keys_answered = cons _ _ refl (cons _ _ refl (cons _ _ refl nil))

scans-Scans_example :
    Scans bincode 4 while_cond (seq_scan bincode 4 while_cond) below at_start.0 at_start.1 rows none
    × Scans bincode 4 while_cond
        (index_only_scan bincode 4 while_cond)
        below
        at_start.0
        at_start.1
        rows
        none
scans-Scans_example =
    scans-Scans bincode 4 while_cond below at_start.0 at_start.1 rows none past_end.0 past_end.1
      keys_answered walk

-- The scan as the inner executor of a filter: what it gives.
abbrev scanned : List Tuple
scanned = rows_while below rows

scan_yields :
    Scans bincode 4 while_cond (seq_scan bincode 4 while_cond) below at_start.0 at_start.1 rows none
scan_yields =
    (scans-Scans bincode 4 while_cond below at_start.0 at_start.1 rows none past_end.0 past_end.1
      keys_answered walk).0

tuples_answered : Answers cond has_a scanned
tuples_answered = Filter.cons _ _ refl (Filter.cons _ _ refl Filter.nil)

filter-Yields_example :
    Yields bincode 4
      (exec_filter (seq_scan bincode 4 while_cond at_start.0) cond)
      at_start.1
      (select has_a scanned)
      (none, exec_filter (seq_scan bincode 4 while_cond scan_yields.0) cond, scan_yields.1)
filter-Yields_example =
    filter-Yields bincode 4 cond has_a (seq_scan bincode 4 while_cond at_start.0)
      (seq_scan bincode 4 while_cond scan_yields.0) at_start.1 scan_yields.1 scanned none
      tuples_answered scan_yields.2

-- The rows of a tree of two leaves.
abbrev two_rows : List Row
two_rows = ((b'd' ∷ []) ∷ [], (b'A' ∷ []) ∷ []) ∷ ((b'f' ∷ []) ∷ [], (b'B' ∷ []) ∷ []) ∷ []

abbrev from_start : SeqScan
from_start = record {
  table_meta_page_id = 0;
  search_mode = TupleSearchMode.start;
  while_cond = while_cond;
}

two_answered : AnswersKeys from_start.while_cond below two_rows
two_answered = cons _ _ refl (cons _ _ refl nil)

two_tree : IsTree bincode (contents manager) (Tree.new 0) 1 (pairs_of two_rows)
unfolding queries
two_tree = tree

two-IsLinked : IsLinked bincode (contents manager) two_tree.stored
unfolding queries two_tree
two-IsLinked = linked

seq_scan-Runs_example :
    Returns
      (start_plan bincode 2 (PlanNode.seq_scan from_start) manager)
      (Runs bincode 2 (rows_while below two_rows))
seq_scan-Runs_example =
    seq_scan-Runs bincode 2 below two_rows from_start two_answered 1 manager manager-IsValid
      (0, 1, frame 0, frame 1, (λ e. omega arith), refl, refl, refl, refl) refl two_tree
      two-IsLinked (omega arith) refl
