-- ===== src/Sigan/Journal/Scan.antt =====
-- `Journal::scan`, `Journal::framesAfter` over a scan, and `recoverJournal`.
-- The index that the source moves through the file is the list of the bytes behind it.
use mari_paint.Prelude.{
  ℕ, zero, suc, ◌+◌, Bool, true, false, ◌||◌, not, Option, none, some, List, [], ◌∷◌, ◌++◌, ltb,
  ◌==◌, if◌then◌else◌, length, take, drop, get_or,
}
use mari_paint.Core.Errors.{Result, ok, err, map_ok, not_found, parse_error}
use mari_paint.Sigan.Wire.{same_bytes, get_u32, get_u64}
use mari_paint.Sigan.Frame.{StrokeFrame, frame_size, decode_frame, crc32}
use mari_paint.Sigan.Journal.Records.{record_overhead}

-- `JournalScan`. The session's start is a signed word; it is kept as its bits.
pub record JournalScan : Type 0 where
  pub version : ℕ
  pub session_id : ℕ
  pub wall_anchor_unix_ms : ℕ
  pub frames : List StrokeFrame
  pub complete_count : ℕ
  pub last_complete_seq : ℕ
  pub truncated : Bool
  pub notes : List (List ℕ)

-- `getU32` and `getU64` at an offset that the caller has checked to be in the file.
abbrev pub value_of : Option (ℕ × List ℕ) → ℕ
value_of none = 0
value_of (some (v, _)) = v

unfoldable pub u32_at : List ℕ → ℕ → ℕ
unfolding get_u32
u32_at bytes i = value_of (get_u32 (drop i bytes))

unfoldable pub u64_at : List ℕ → ℕ → ℕ
unfolding get_u64
u64_at bytes i = value_of (get_u64 (drop i bytes))

-- One round of the loop: it breaks off, or goes on at the bytes behind the record.
pub data Round : Type 0 where
  stop : JournalScan → Round
  go : List ℕ → JournalScan → Round

abbrev pub cut : JournalScan → Round
cut s = stop (record s { truncated = true })

-- The `switch` on the tag, at a record whose checksum holds. The frame is read from 64 bytes, so
-- its reader does not run past the end.
unfoldable pub read_record : ℕ → List ℕ → List ℕ → JournalScan → Round
read_record t bytes rest s =
    if t == 1
    then (if not (length bytes == frame_size) then cut s else elim (decode_frame bytes) [
      | none ↦ cut s
      | some (f, _) ↦ go rest (record s { frames = s.frames ++ f ∷ [] })
    ])
    else if t == 2
    then (if length bytes == 8
        then go rest
            (record s { last_complete_seq = u64_at bytes 0; complete_count = length s.frames })
        else go rest s)
    else if t == 3
    then go rest (record s { notes = s.notes ++ bytes ∷ [] })
    else go rest s

unfoldable pub scan_round : List ℕ → JournalScan → Round
scan_round bytes s =
    if ltb (length bytes) 5
    then cut s
    else let t = get_or bytes 0 0 in
      let len = u32_at bytes 1 in
      if ltb (length bytes) (record_overhead + len)
      then cut s
      else if not (crc32 (take (5 + len) bytes) 0 == u32_at bytes (5 + len))
      then cut s
      else read_record t (take len (drop 5 bytes)) (drop (record_overhead + len) bytes) s

-- The loop, on fuel: a round that goes on takes at least nine bytes off.
unfoldable pub scan_loop : ℕ → List ℕ → JournalScan → JournalScan
scan_loop zero bytes s = s
scan_loop (suc fuel) [] s = s
scan_loop (suc fuel) (b ∷ bytes) s = elim (scan_round (b ∷ bytes) s) [
  | stop s' ↦ s'
  | go rest s' ↦ scan_loop fuel rest s'
]

-- `kJournalMagic`, `kJournalHeaderSize`
abbrev pub journal_magic : List ℕ
journal_magic = b'M' ∷ b'A' ∷ b'R' ∷ b'I' ∷ b'J' ∷ b'R' ∷ b'N' ∷ b'L' ∷ []

abbrev pub journal_header_size : ℕ
journal_header_size = 32

-- The file's bytes, or `none` if it cannot be opened.
unfoldable pub scan : Option (List ℕ) → Result JournalScan
unfolding scan_round read_record u32_at u64_at same_bytes
scan none = err not_found
scan (some file) =
    if ltb (length file) journal_header_size || not (same_bytes (take 8 file) journal_magic)
    then err parse_error
    else let header_size = u32_at file 12 in
      let start =
        if ltb header_size journal_header_size then journal_header_size else header_size in
      ok (
        scan_loop (length file) (drop start file) (record {
          version = u32_at file 8;
          session_id = u64_at file 16;
          wall_anchor_unix_ms = u64_at file 24;
          frames = [];
          complete_count = 0;
          last_complete_seq = 0;
          truncated = false;
          notes = [];
        }))

-- The filter of `Journal::framesAfter`, over the frames of a scan.
unfoldable pub frames_after : ℕ → List StrokeFrame → List StrokeFrame
frames_after after [] = []
frames_after after (f ∷ fs) =
    let rest = frames_after after fs in if ltb after f.seq then f ∷ rest else rest

-- `recoverJournal`
unfoldable pub keep_complete : JournalScan → JournalScan
keep_complete s =
    if ltb s.complete_count (length s.frames)
    then record s { frames = take s.complete_count s.frames; truncated = true }
    else s

unfoldable pub recover_journal : Option (List ℕ) → Result JournalScan
unfolding scan keep_complete
recover_journal file = map_ok keep_complete (scan file)
