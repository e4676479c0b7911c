-- ===== src/Btree.antt =====
-- src/btree.rs: the pairs that nodes hold, and the search modes. A pair is serialised by the crate
-- bincode, which is a parameter.
pub mod Node
pub mod Meta
pub mod Views
pub mod Client
pub mod Iter
pub mod Walks
pub mod Stored
pub mod Reads
pub mod Found
pub mod Chain
pub mod Scan
pub mod Tree
pub mod Insertion
pub mod Placed
pub mod Bodies
pub mod Leaf
pub mod SearchMode
pub mod TestData
mod Tests
mod TreeTests
pub mod TestTree
mod SearchTests
mod NodeTests
pub mod Branch
use relly.Prelude.{◌≡◌, Bytes, Option, none, some, Run, panic, done, unwrap, ◌>>=◌}

pub record Pair : Type 0 where
  pub key : Bytes
  pub value : Bytes

-- `bincode::options()`: what it writes for a pair it reads back as that pair.
pub record Bincode : Type 0 where
  pub serialize : Pair → Option Bytes
  pub deserialize : Bytes → Option Pair
  pub round_trip :
      (p : Pair) → (bytes : Bytes) × (serialize p ≡ some bytes) × (deserialize bytes ≡ some p)

module _ (bincode : Bincode) where
  abbrev pub to_bytes : Pair → Run Bytes
  to_bytes pair = unwrap (bincode.serialize pair)

  abbrev pub from_bytes : Bytes → Run Pair
  from_bytes bytes = unwrap (bincode.deserialize bytes)
