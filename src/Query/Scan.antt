-- ===== src/Query/Scan.antt =====
-- src/query.rs: `ExecSeqScan` and `ExecIndexOnlyScan`, over what their iterator gives.
use relly.Prelude.{
  ℕ, ◌≡◌, refl, ap, ◌∙◌, List, [], ◌∷◌, ◌++◌, Bytes, Bool, true, false, Option, none, some, done,
  Bool-cases, inl, inr, if◌then◌else◌,
}
use relly.Prelude.Exec.{ok, err}
use relly.Buffer.{BufferPoolManager}
use relly.Tuple.{decode}
use relly.Tuple.RoundTrip.{encodings, encode-encodings, decode-encode_tuple}
use relly.Btree.{Bincode}
use relly.Btree.Client.{Error}
use relly.Btree.Iter
use relly.Btree.Iter.{Iter}
use relly.Btree.Walks.{Walks, ended as walk_ended, failed as walk_failed, gave as walk_gave}
use relly.Query.{
  Tuple, Condition, Executor, exec_seq_scan, exec_index_only_scan, decode_pair, seq_scanned,
  index_only_scanned, seq_scan_next, index_only_scan_next, next,
}
use relly.Query.Yields.{Steps, Yields, ended, failed, gave}

-- The columns of the key and those of the value of a pair.
abbrev pub Row : Type 0
Row = Tuple × Tuple

-- The pair that is stored for a row.
abbrev pub stored : Row → Bytes × Bytes
stored (key, value) = (encodings key, encodings value)

abbrev pub stored_all : List Row → List (Bytes × Bytes)
stored_all [] = []
stored_all (row ∷ rows) = stored row ∷ stored_all rows

-- What the condition answers on the key of each row.
pub data AnswersKeys (cond : Condition) (p : Tuple → Bool) : List Row → Type 0 where
  nil : AnswersKeys cond p []
  cons :
      (row : Row) (rows : List Row)
      → cond row.0 ≡ done (p row.0)
      → AnswersKeys cond p rows
      → AnswersKeys cond p (row ∷ rows)

-- The rows up to the first whose key is refused, as tuples.
abbrev pub rows_while : (Tuple → Bool) → List Row → List Tuple
rows_while p [] = []
rows_while p ((key, value) ∷ rows) = if p key then (key ++ value) ∷ rows_while p rows else []

-- A scan's error is its iterator's, unless a key was refused before.
abbrev pub scan_error : (Tuple → Bool) → List Row → Option Error → Option Error
scan_error p [] x = x
scan_error p ((key, value) ∷ rows) x = if p key then scan_error p rows x else none

decode-encodings :
    (tuple elems : List Bytes) → decode (encodings tuple) elems ≡ done (elems ++ tuple)
decode-encodings tuple elems = rw (encode-encodings tuple []) at (decode-encode_tuple tuple elems)

pub decode_pair-stored :
    (cond : Condition) (b : Bool) (row : Row)
    → cond row.0 ≡ done b
    → decode_pair cond (stored row) ≡ done (if b then some (row.0 ++ row.1) else none)
unfolding decode_pair
decode_pair-stored cond true (key, value) h =
    rw (decode-encodings key [], h, decode-encodings value key) refl
decode_pair-stored cond false (key, value) h = rw (decode-encodings key [], h) refl

-- An executor over an iterator that decodes each pair, as both scans do.
pub record IsScan (bincode : Bincode) (fuel : ℕ) (cond : Condition) (scan : Iter → Executor)
    : Type 0 where
  pub on_none :
      (i i' : Iter) (m m' : BufferPoolManager)
      → Iter.next bincode i m ≡ done (ok none, i', m')
      → Steps bincode fuel (scan i) m (ok none, scan i', m')
  pub on_err :
      (i i' : Iter) (m m' : BufferPoolManager) (x : Error)
      → Iter.next bincode i m ≡ done (err x, i', m')
      → Steps bincode fuel (scan i) m (err x, scan i', m')
  pub on_pair :
      (i i' : Iter) (m m' : BufferPoolManager) (pair : Bytes × Bytes) (t : Option Tuple)
      → Iter.next bincode i m ≡ done (ok (some pair), i', m')
      → decode_pair cond pair ≡ done t
      → Steps bincode fuel (scan i) m (ok t, scan i', m')

module _ (bincode : Bincode) (fuel : ℕ) (cond : Condition) where
  abbrev pub seq_scan : Iter → Executor
  seq_scan i = exec_seq_scan (record { table_iter = i; while_cond = cond })

  abbrev pub index_only_scan : Iter → Executor
  index_only_scan i = exec_index_only_scan (record { index_iter = i; while_cond = cond })

  pub seq_scan-IsScan : IsScan bincode fuel cond seq_scan
  unfolding next seq_scan_next seq_scanned
  seq_scan-IsScan = record {
    on_none = λ i i' m m' h. (1, rw h refl);
    on_err = λ i i' m m' x h. (1, rw h refl);
    on_pair = λ i i' m m' pair t h k. (1, rw (h, k) refl);
  }

  pub index_only_scan-IsScan : IsScan bincode fuel cond index_only_scan
  unfolding next index_only_scan_next index_only_scanned
  index_only_scan-IsScan = record {
    on_none = λ i i' m m' h. (1, rw h refl);
    on_err = λ i i' m m' x h. (1, rw h refl);
    on_pair = λ i i' m m' pair t h k. (1, rw (h, k) refl);
  }

  -- How a scan ends.
  abbrev pub Scans :
      (Iter → Executor)
      → (Tuple → Bool)
      → Iter
      → BufferPoolManager
      → List Row
      → Option Error
      → Type 0
  Scans scan p i m rows x =
      (i' : Iter) × (m' : BufferPoolManager) × Yields bincode fuel (scan i) m (rows_while p rows)
        (scan_error p rows x, scan i', m')

  scan-Scans :
      (scan : Iter → Executor)
      → IsScan bincode fuel cond scan
      → (p : Tuple → Bool) (i : Iter) (m : BufferPoolManager) (rows : List Row) (x : Option Error)
        (i' : Iter) (m' : BufferPoolManager)
      → AnswersKeys cond p rows
      → Walks bincode i m (stored_all rows) (x, i', m')
      → Scans scan p i m rows x
  scan-Scans scan is p i m [] _ i' m' a (walk_ended h) = (i', m', ended (is.on_none i i' m m' h))
  scan-Scans scan is p i m [] _ i' m' a (walk_failed x h) =
      (i', m', failed x (is.on_err i i' m m' x h))
  scan-Scans scan is p i m (_ ∷ _) x i' m' (cons row rows a rest)
        (walk_gave {i' = j} {m' = n} _ h more) =
      elim (Bool-cases (p row.0)) [
        | inl yes_kept ↦
            let (i1, m1, y) = scan-Scans scan is p j n rows x i' m' rest more in
            let d = decode_pair-stored cond true row (a ∙ ap done yes_kept) in
            rw yes_kept (i1, m1, gave (row.0 ++ row.1) (is.on_pair i j m n _ _ h d) y)
        | inr refused ↦
            let d = decode_pair-stored cond false row (a ∙ ap done refused) in
            rw refused (j, n, ended (is.on_pair i j m n _ _ h d))
      ]

  -- Over an iterator that gives the stored pairs of some rows and then nothing or an error, and with
  -- a condition that answers on the key of each row, a sequential scan and an index-only scan give
  -- the rows as tuples, key columns first, up to the first whose key is refused, and then no tuple;
  -- if none is refused, they end as the iterator does, whose error they pass on.
  pub scans-Scans :
      (p : Tuple → Bool) (i : Iter) (m : BufferPoolManager) (rows : List Row) (x : Option Error)
      (i' : Iter) (m' : BufferPoolManager)
      → AnswersKeys cond p rows
      → Walks bincode i m (stored_all rows) (x, i', m')
      → Scans seq_scan p i m rows x × Scans index_only_scan p i m rows x
  scans-Scans p i m rows x i' m' a w = (
    scan-Scans seq_scan seq_scan-IsScan p i m rows x i' m' a w,
    scan-Scans index_only_scan index_only_scan-IsScan p i m rows x i' m' a w,
  )
