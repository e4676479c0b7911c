-- ===== src/Table/Records.antt =====
-- src/table.rs: the pair that a record is stored as, and what a scan of src/query.rs reads back.
use relly.Prelude.{
  ℕ, ◌≤◌, ◌≡◌, refl, ◌∙◌, List, [], Bytes, Bool, length, take, drop, take-append-drop, some, none,
  done, ◌>>=◌, leb, true, le→leb, if◌then◌else◌,
}
use relly.Tuple.RoundTrip.{encode-encodings}
use relly.Table.{split_record, encode_record}
use relly.Query.{Condition, decode_pair}
use relly.Query.Scan.{stored, decode_pair-stored}

pub encode_record-stored :
    (n : ℕ) (columns : List Bytes)
    → n ≤ length columns
    → encode_record n columns ≡ done (stored (take n columns, drop n columns))
unfolding encode_record split_record
encode_record-stored n columns h =
    let a : leb n (length columns) ≡ true = le→leb _ _ h in
    rw (a, encode-encodings (take n columns) [], encode-encodings (drop n columns) []) refl

-- The pair that an insert stores for a record with at least the key's columns is decoded by a scan
-- to the whole record if the scan's condition holds on the key's columns, and to no tuple if it
-- does not.
pub decode_pair-encode_record :
    (n : ℕ) (columns : List Bytes) (cond : Condition) (b : Bool)
    → n ≤ length columns
    → cond (take n columns) ≡ done b
    → (do pair ← encode_record n columns; decode_pair cond pair)
      ≡ done (if b then some columns else none)
decode_pair-encode_record n columns cond b h holds = rw (encode_record-stored n columns h) (
    decode_pair-stored cond b (take n columns, drop n columns) holds
    ∙ rw (take-append-drop n columns) refl)
