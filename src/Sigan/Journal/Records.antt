-- ===== src/Sigan/Journal/Records.antt =====
-- The records of a journal and their bytes (`JournalRecord`, `Journal::writeRecord` and the calls of
-- it).
use mari_paint.Prelude.{ℕ, ◌^◌, ◌<◌, List, [], ◌∷◌, ◌++◌, length}
use mari_paint.Sigan.Wire.{IsU64, put_u32, put_u64}
use mari_paint.Sigan.Frame.{StrokeFrame, IsWire, encode_frame, crc32}

-- A record with its payload: a frame, the end of a stroke with its number, a note's bytes.
pub data Record : Type 0 where
  frame : StrokeFrame → Record
  stroke_end : ℕ → Record
  note : List ℕ → Record

-- `JournalRecord`
unfoldable pub tag : Record → ℕ
tag (frame _) = 1
tag (stroke_end _) = 2
tag (note _) = 3

unfoldable pub payload : Record → List ℕ
payload (frame f) = encode_frame f
payload (stroke_end seq) = put_u64 seq
payload (note text) = text

-- `kRecordOverhead`: tag, length and checksum.
abbrev pub record_overhead : ℕ
record_overhead = 9

-- The bytes before the checksum, and all of them.
unfoldable pub record_head : ℕ → List ℕ → List ℕ
record_head t bytes = t ∷ (put_u32 (length bytes) ++ bytes)

unfoldable pub record_bytes : ℕ → List ℕ → List ℕ
unfolding record_head
record_bytes t bytes = record_head t bytes ++ put_u32 (crc32 (record_head t bytes) 0)

abbrev pub bytes_of : Record → List ℕ
bytes_of r = record_bytes (tag r) (payload r)

-- The journal that holds these records, without its header.
unfoldable pub encode_records : List Record → List ℕ
encode_records [] = []
encode_records (r ∷ rs) = bytes_of r ++ encode_records rs

-- Records as the writer makes them: words in range, and a payload that the length field can hold.
abbrev pub IsValid : Record → Type 0
IsValid (frame f) = IsWire f
IsValid (stroke_end seq) = IsU64 seq
IsValid (note text) = length text < 2 ^ 32
