-- ===== src/Table/Tests.antt =====
-- src/table.rs: a duplicate in a unique index, and the theorems at an input.
use relly.Prelude.{
  ◌≡◌, refl, List, [], ◌∷◌, Bytes, Option, some, Run, done, panic, hang, ◌>>=◌, length, arith, leb,
  true,
}
use relly.Prelude.Exec.{Result, ok, err}
use relly.Buffer.{BufferPoolManager}
use relly.Memcmpable
use relly.Tuple
use relly.Btree.Client.{Error, duplicate_key}
use relly.Btree.SearchMode.{SearchMode}
use relly.Btree.Tree
use relly.Btree.Iter
use relly.Btree.TestData.{bincode, program, start, state_of, result}
use relly.Table.{
  Table, create, create_index, create_indices, index_created, table_created, split_record,
  encode_record, skey_of, insert_index, insert_indices, insert,
}
use relly.Table.Records.{decode_pair-encode_record}
use relly.Query.{decode_pair}

tables : Unit {0}
unfolding program Memcmpable.encode create create_index create_indices index_created table_created
    split_record encode_record skey_of insert_index insert_indices insert Tuple.encode Tuple.decode
tables = tt

abbrev users : Table
users = record {
  meta_page_id = 0;
  num_key_elems = 1;
  unique_indices = record { meta_page_id = 0; skey = 1 ∷ [] } ∷ [];
}

abbrev alice : List Bytes
alice = (b'z' ∷ []) ∷ (b'A' ∷ []) ∷ []

-- Another key, the same second column.
abbrev other_alice : List Bytes
other_alice = (b'x' ∷ []) ∷ (b'A' ∷ []) ∷ []

abbrev created_table : Run (Result Error (Unit {0}) × Table × BufferPoolManager) → Table
created_table (done (r, table, m)) = table
created_table panic = users
created_table hang = users

abbrev table : Table
table = created_table (create users start)

ids : table.unique_indices ≡ record { meta_page_id = 2; skey = 1 ∷ [] } ∷ []
unfolding tables
ids = refl

-- The managers after the table was created, after the first record, and after the other record's
-- insert into the table's tree.
abbrev m0 : BufferPoolManager
m0 = (elim (create users start) as (λ x. BufferPoolManager) [
  | done (r, t, m) ↦ m
  | panic ↦ start
  | hang ↦ start
])

abbrev m1 : BufferPoolManager
m1 = state_of start (insert bincode 4 alice table m0)

first_inserted : result (insert bincode 4 alice table m0) ≡ done (ok tt)
unfolding tables
first_inserted = refl

second_refused : result (insert bincode 4 other_alice table m1) ≡ done (err duplicate_key)
unfolding tables
second_refused = refl

-- What is stored under a primary key.
abbrev looked : Result Error Iter.Iter × BufferPoolManager → Run (Option (Bytes × Bytes))
looked (ok iter, m) = Iter.get bincode iter m
looked (err e, m) = panic

abbrev read : Bytes → BufferPoolManager → Run (Option (Bytes × Bytes))
read key m = Tree.search bincode 4 (Tree.new table.meta_page_id) (SearchMode.key key) m >>= looked

abbrev other_pair : Bytes × Bytes
other_pair = elim (encode_record 1 other_alice) as (λ x. Bytes × Bytes) [
  | done pair ↦ pair
  | panic ↦ ([], [])
  | hang ↦ ([], [])
]

-- The refused record is in the table's tree.
refused_is_stored :
    read other_pair.0 (state_of start (insert bincode 4 other_alice table m1))
    ≡ done (some other_pair)
unfolding tables
refused_is_stored = refl

decode_pair-encode_record_example :
    (do pair ← encode_record 1 alice; decode_pair (λ key. done (leb (length key) 1)) pair)
    ≡ done (some alice)
decode_pair-encode_record_example =
    decode_pair-encode_record 1 alice (λ key. done (leb (length key) 1)) true (omega arith) refl
