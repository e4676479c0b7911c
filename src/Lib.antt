-- ===== src/Lib.antt =====
-- relly: a small relational database. A table's rows are encoded as byte strings that compare as
-- the rows do (src/memcmpable.rs, src/tuple.rs); pages of slots hold them (src/slotted.rs); a
-- buffer pool (src/buffer.rs) keeps pages of the heap file (src/disk.rs) in memory.
--
-- The files, and the code that each is about:
-- - Prelude: the shared vocabulary. `Run` is what Rust code does: it ends with a value (`done`),
--   panics, or, on fuel, would go on (`hang`). Prelude/Slices has the reads and writes of byte
--   ranges.
-- - Bsearch: `binary_search_by` of src/bsearch.rs, with a closure that may panic.
-- - Memcmpable: `encoded_size`, `encode` and `decode` of src/memcmpable.rs.
-- - Tuple: `encode` and `decode` of src/tuple.rs, over Memcmpable.
-- - Disk/File: the operations of `std::fs::File` that src/disk.rs calls, on a state of the file's
--   bytes, the cursor, and a list that says which of the next system calls fail and how far a
--   failing one gets. Disk: `PageId` with its conversions, and every method of `DiskManager`.
-- - Buffer/Pool: `BufferPool` with the clock sweep `evict`. Buffer: `BufferPoolManager` with
--   `fetch_page`, `create_page` and `flush`, and what a client does through an `Rc<Buffer>`.
--   Buffer/Valid says when a manager is well formed and which page contents it holds,
--   Buffer/Clones counts the clones of a buffer; Buffer/Entries is about the entries of the page
--   table; Buffer/Saved, Flush, Stopped and Survived are about `flush`; the other files are
--   about one operation each, and Buffer/Stale about a read that fails. Disk/Pages and Disk/Reads:
--   the heap file as pages; Disk/Rewrites: a page is written that the file holds.
-- - Slotted: every operation of `Slotted` in src/slotted.rs, at the level of the page's bytes.
--   Slotted/Inserts: the answers of `insert`. Slotted/Apart, Shift, Resize and Resized are about
--   pages whose records lie apart, and the move of the records that lie before a resized one.
-- - Btree: `Pair` of src/btree.rs, serialised by the crate bincode, which is a parameter with its
--   round trip as a law. Btree/Leaf and Btree/Branch: every operation of src/btree/leaf.rs and
--   src/btree/branch.rs on a page of slots; Btree/Leaf/Pairs has the sorted list of pairs that a
--   page stands for. Btree/Node, Btree/Meta: src/btree/node.rs and src/btree/meta.rs.
--   Btree/SearchMode: the search modes of src/btree.rs.
-- - Btree/Client: what the tree does with buffers: fetch, create, read, write, mark
--   as dirty, drop. Btree/Views:
--   the bytes of the pages that nodes, leaves and branches are views of. Btree/Tree: `BTree` of
--   src/btree.rs with `create` and `search`; Btree/Iter: `Iter`, and Btree/Walks what its caller
--   sees; Btree/Insertion: `insert`. Btree/Bodies: the pages that the views write, read again;
--   Btree/Placed: an insert at a leaf with room. Btree/TreeTests runs the tests of src/btree.rs,
--   with shorter values in `test` and eight of the sixteen pairs in `test_search_iter`.
--   Btree/Reads: a reader that holds clones of buffers. Btree/Stored: the pairs that the pages of
--   a tree hold. Btree/Chain and Btree/Chain/Walk: `Iter::next` along linked leaves. Btree/Found and
--   Btree/Scan: the search for a key, and from the start; Btree/TestTree: a tree of four pages for
--   the tests.
-- - Table: `SimpleTable`, `Table` and `UniqueIndex` of src/table.rs, over the trees. Table/Records:
--   a record and its pair.
-- - Query: the plans and executors of src/query.rs. The trait objects are one data type with a
--   constructor for each implementation. Query/Yields: what an executor yields until its end;
--   Query/Filter, Query/Scan and Query/Whole: the filter, the scans, and a plan from its start.
--
-- Operations that change an object return it. Machine integers are natural numbers: where Rust's
-- arithmetic would leave the type's range, which panics in a debug build, the model panics, and an
-- `as` cast is written out as a remainder. Numbers in pages are little-endian, as on the targets
-- that the code is built for.
--
-- Fuel: the binary search has `size + 1` tests, since each shortens the range; `decode` of a byte
-- string has one step for each byte and one more, since each consumes at least one; the clock
-- sweep has a bound from the use counts of the frames; the loops of `split_insert` have a step for
-- each pair of the old node and one more, since each takes a pair from it. `search` and `insert` have
-- a step for each level of the tree; nothing in the code bounds the levels. `next` of an executor
-- has a step for each filter and for each tuple that a filter drops.
--
-- Not modelled: the borrows of a `RefCell`, which panic when two overlap; an overflow of the 64-bit
-- use counts; the printing of tuples and of tables; the alignment of pages; the drop of an executor
-- at the end of a query; the examples.
pub mod Prelude
pub mod Bsearch
pub mod Memcmpable
pub mod Tuple
pub mod Disk
pub mod Buffer
pub mod Slotted
pub mod Btree
pub mod Table
pub mod Query
