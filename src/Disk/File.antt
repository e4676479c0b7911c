-- ===== src/Disk/File.antt =====
-- src/disk.rs: the `std::fs::File` behind it, as bytes, a cursor and the faults to come.
use relly.Prelude.{
  ℕ, ◌+◌, ◌-◌, List, [], ◌∷◌, ◌++◌, Bytes, length, is_empty, take, replicate, slice, overwrite,
  Option, none, some, ltb, if◌then◌else◌,
}
use relly.Prelude.Exec.{Result, ok, err}

pub data IoError : Type 0 where
  unexpected_eof : IoError
  other : IoError

-- How the next call ends: as it should, or with an error when so many bytes are moved.
abbrev pub Fault : Type 0
Fault = Option ℕ

pub record HeapFile : Type 0 where
  pub content : Bytes
  pub cursor : ℕ
  -- One for each call to come; when there are no more, calls end as they should.
  pub faults : List Fault

abbrev pub next_fault : List Fault → Fault
next_fault [] = none
next_fault (fault ∷ faults) = fault

abbrev pub later_faults : List Fault → List Fault
later_faults [] = []
later_faults (fault ∷ faults) = faults

abbrev pub called : HeapFile → HeapFile
called f = record f { faults = later_faults f.faults }

-- What a call that moves no bytes returns.
abbrev pub outcome : {A : Type 0} → Fault → A → Result IoError A
outcome none a = ok a
outcome (some k) a = err other

-- `metadata()?.len()`
unfoldable pub metadata_len : HeapFile → Result IoError ℕ × HeapFile
metadata_len f = (outcome (next_fault f.faults) (length f.content), called f)

seek_with : Fault → ℕ → HeapFile → Result IoError ℕ × HeapFile
seek_with none offset f = (ok offset, record (called f) { cursor = offset })
seek_with (some k) offset f = (err other, called f)

-- `seek(SeekFrom::Start(offset))`
unfoldable pub seek_start : ℕ → HeapFile → Result IoError ℕ × HeapFile
unfolding seek_with
seek_start offset f = seek_with (next_fault f.faults) offset f

-- `flush` and `sync_all`: all that was written is in `content` already.
unfoldable pub flush : HeapFile → Result IoError (Unit {0}) × HeapFile
flush f = (outcome (next_fault f.faults) tt, called f)

unfoldable pub sync_all : HeapFile → Result IoError (Unit {0}) × HeapFile
sync_all f = (outcome (next_fault f.faults) tt, called f)

-- The bytes from `offset` on become `written`; a gap before them is filled with zeros.
unfoldable pub write_at : Bytes → ℕ → Bytes → Bytes
write_at content offset written =
    if is_empty written
    then content
    else overwrite (content ++ replicate (offset + length written - length content) 0) offset
        written

write_with : Fault → Bytes → HeapFile → Result IoError (Unit {0}) × HeapFile
write_with none buf f = (
  ok tt,
  record (called f) { content = write_at f.content f.cursor buf; cursor = f.cursor + length buf },
)
write_with (some k) buf f = (
  err other,
  record (called f) {
    content = write_at f.content f.cursor (take k buf);
    cursor = f.cursor + length (take k buf);
  },
)

-- `write_all(buf)`; a fault leaves the first bytes of the buffer written.
unfoldable pub write_all : Bytes → HeapFile → Result IoError (Unit {0}) × HeapFile
unfolding write_with
write_all buf f = write_with (next_fault f.faults) buf f

-- `found` are the bytes of the file that would fill the buffer.
unfoldable pub read_with :
    Fault → Bytes → Bytes → HeapFile → Result IoError (Unit {0}) × Bytes × HeapFile
read_with none found buf f =
    if ltb (length found) (length buf)
    then (
      err unexpected_eof,
      overwrite buf 0 found,
      record (called f) { cursor = f.cursor + length found },
    )
    else (ok tt, found, record (called f) { cursor = f.cursor + length found })
read_with (some k) found buf f = (
  err other,
  overwrite buf 0 (take k found),
  record (called f) { cursor = f.cursor + length (take k found) },
)

-- `read_exact(buf)`: the outcome, the buffer after the call, and the file. Where the file ends
-- before the buffer is full, or on a fault, only the first bytes are filled.
unfoldable pub read_exact : Bytes → HeapFile → Result IoError (Unit {0}) × Bytes × HeapFile
unfolding read_with
read_exact buf f = read_with (next_fault f.faults) (slice f.cursor (length buf) f.content) buf f
