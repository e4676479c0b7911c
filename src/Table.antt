-- ===== src/Table.antt =====
-- src/table.rs: tables over trees. `anyhow` passes the tree's errors on.
pub mod Records
mod Tests
use relly.Prelude.{
  ℕ, List, [], ◌∷◌, Bytes, length, take, drop, get_elem?, Run, done, panic, hang, assert, unwrap,
  leb,
}
use relly.Prelude
use relly.Prelude.Exec.{Result, ok, err, pure, lift, ◌>>=◌, ◌>>◌}
use relly.Disk.{PageId}
use relly.Buffer.{BufferPoolManager}
use relly.Tuple
use relly.Btree.{Bincode}
use relly.Btree.Client.{Error, M}
use relly.Btree.Tree
use relly.Btree.Tree.{BTree}
use relly.Btree.Insertion

pub record SimpleTable : Type 0 where
  pub meta_page_id : PageId
  pub num_key_elems : ℕ

pub record UniqueIndex : Type 0 where
  pub meta_page_id : PageId
  pub skey : List ℕ

pub record Table : Type 0 where
  pub meta_page_id : PageId
  pub num_key_elems : ℕ
  pub unique_indices : List UniqueIndex

-- What `create` on `&mut self` ends with: the table comes back beside an error too.
abbrev pub Created : Type 0 → Type 0
Created T = Run (Result Error (Unit {0}) × T × BufferPoolManager)

unfoldable pub simple_created :
    SimpleTable → Result Error BTree × BufferPoolManager → Created SimpleTable
simple_created table (ok btree, m) =
    done (ok tt, record table { meta_page_id = btree.meta_page_id }, m)
simple_created table (err e, m) = done (err e, table, m)

-- `SimpleTable::create`
unfoldable pub create_simple : SimpleTable → BufferPoolManager → Created SimpleTable
create_simple table m = Prelude.◌>>=◌ (Tree.create m) (simple_created table)

unfoldable pub index_created :
    UniqueIndex → Result Error BTree × BufferPoolManager → Created UniqueIndex
index_created index (ok btree, m) =
    done (ok tt, record index { meta_page_id = btree.meta_page_id }, m)
index_created index (err e, m) = done (err e, index, m)

-- `UniqueIndex::create`
unfoldable pub create_index : UniqueIndex → BufferPoolManager → Created UniqueIndex
create_index index m = Prelude.◌>>=◌ (Tree.create m) (index_created index)

-- The loop of `Table::create`; `rest` are the indices that it has not come to.
abbrev pub continue_indices :
    List UniqueIndex
    → (BufferPoolManager → Created (List UniqueIndex))
    → Result Error (Unit {0}) × UniqueIndex × BufferPoolManager
    → Created (List UniqueIndex)
continue_indices rest go_on (ok _, index, m) =
    Prelude.◌>>=◌ (go_on m) (λ r. done (r.0, index ∷ r.1, r.2))
continue_indices rest go_on (err e, index, m) = done (err e, index ∷ rest, m)

unfoldable pub create_indices : List UniqueIndex → BufferPoolManager → Created (List UniqueIndex)
create_indices [] m = done (ok tt, [], m)
create_indices (index ∷ indices) m =
    Prelude.◌>>=◌ (create_index index m) (continue_indices indices (create_indices indices))

unfoldable pub table_created : Table → Result Error BTree × BufferPoolManager → Created Table
table_created table (ok btree, m) =
    Prelude.◌>>=◌ (create_indices table.unique_indices m) (λ (r, indices, m').
      done (r, record table { meta_page_id = btree.meta_page_id; unique_indices = indices }, m'))
table_created table (err e, m) = done (err e, table, m)

-- `Table::create`
unfoldable pub create : Table → BufferPoolManager → Created Table
create table m = Prelude.◌>>=◌ (Tree.create m) (table_created table)

-- `record[..n]` and `record[n..]`
unfoldable pub split_record : ℕ → List Bytes → Run (List Bytes × List Bytes)
split_record n columns =
    Prelude.◌>>◌ (assert (leb n (length columns))) (done (take n columns, drop n columns))

-- The encoded key and value of a record.
unfoldable pub encode_record : ℕ → List Bytes → Run (Bytes × Bytes)
encode_record n columns = Prelude.◌>>=◌ (split_record n columns) (λ parts.
    Prelude.◌>>=◌ (Tuple.encode parts.0 [])
      (λ key. Prelude.◌>>=◌ (Tuple.encode parts.1 []) (λ value. done (key, value))))

-- The columns of a secondary key; an index out of range panics.
unfoldable pub skey_of : List ℕ → List Bytes → Run (List Bytes)
skey_of [] columns = done []
skey_of (i ∷ indices) columns =
    Prelude.◌>>=◌ (unwrap (get_elem? columns i))
      (λ column. Prelude.◌>>=◌ (skey_of indices columns) (λ rest. done (column ∷ rest)))

module _ (bincode : Bincode) (fuel : ℕ) where
  unfoldable pub insert_simple : List Bytes → SimpleTable → M (Unit {0})
  insert_simple columns table = do
    (key, value) ← lift (encode_record table.num_key_elems columns)
    Insertion.insert bincode fuel (Tree.new table.meta_page_id) key value

  -- `UniqueIndex::insert`
  unfoldable pub insert_index : Bytes → List Bytes → UniqueIndex → M (Unit {0})
  insert_index pkey columns index = do
    elems ← lift (skey_of index.skey columns)
    skey ← lift (Tuple.encode elems [])
    Insertion.insert bincode fuel (Tree.new index.meta_page_id) skey pkey

  -- The loop of `Table::insert`.
  unfoldable pub insert_indices : Bytes → List Bytes → List UniqueIndex → M (Unit {0})
  insert_indices pkey columns [] = pure tt
  insert_indices pkey columns (index ∷ indices) = do
    insert_index pkey columns index
    insert_indices pkey columns indices

  unfoldable pub insert : List Bytes → Table → M (Unit {0})
  insert columns table = do
    (key, value) ← lift (encode_record table.num_key_elems columns)
    Insertion.insert bincode fuel (Tree.new table.meta_page_id) key value
    insert_indices key columns table.unique_indices
