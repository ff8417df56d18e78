-- ===== src/Examples/Journals.antt =====
-- Journals: a session, a crash, a recovery.
use mari_paint.Prelude.{◌≡◌, refl, true, false, some, List, [], ◌∷◌, ◌++◌, take, map, arith}
use mari_paint.Core.Errors.{ok}
use mari_paint.Sigan.Frame.{encode_frame}
use mari_paint.Sigan.Wire.{put_u32, put_u64}
use mari_paint.Sigan.Journal.Records.{
  Record, frame, stroke_end, note, bytes_of, encode_records, record_bytes, record_head, payload,
}
use mari_paint.Sigan.Journal.Scan.{JournalScan, scan, recover_journal}
use mari_paint.Sigan.Journal.Writer.{
  create, journal_header, append_frame, mark_stroke_end, append_note, write_record, flush,
  flush_stream, push,
}
use mari_paint.Sigan.Journal.Recovery.{AllValid, add_records, survivors, torn, mark, finished}
use mari_paint.Sigan.Journal.Crash.{fresh, scan-crash, recover_journal-crash}
use mari_paint.Sigan.Journal.Intact.{
  stored, append, session, session-honest, mark_stroke_end-durable,
}
use mari_paint.Examples.Channels.{good_disk, a_frame, a_frame-IsWire, new_journal}

-- One stroke, a note, and a stroke that is not finished.
abbrev records : List Record
records = frame a_frame ∷ stroke_end 1 ∷ note (104 ∷ 105 ∷ []) ∷ frame a_frame ∷ []

valid : AllValid records
valid = (a_frame-IsWire, (omega arith, (omega arith, (a_frame-IsWire, tt))))

-- The crash cuts the last frame.
scan-crash_example :
    scan (some (journal_header 7 2 ++ take 120 (encode_records records)))
    ≡ ok (mark (torn 120 records) (add_records (fresh 7 2) (survivors 120 records)))
scan-crash_example = scan-crash 7 2 (omega arith) (omega arith) records 120 valid

recover_journal-crash_example :
    (s : JournalScan) × (recover_journal
        (some (journal_header 7 2 ++ take 120 (encode_records records)))
      ≡ ok s)
    × (s.frames ≡ finished [] [] (survivors 120 records))
recover_journal-crash_example =
    recover_journal-crash 7 2 (omega arith) (omega arith) records 120 valid

fine : (session good_disk records new_journal).failed ≡ false
unfolding session append append_frame mark_stroke_end append_note write_record push record_bytes
    record_head payload encode_frame put_u64 put_u32 flush flush_stream journal_header
fine = refl

session-honest_example :
    (session good_disk records new_journal).file ++ (session good_disk records new_journal).buf
    ≡ journal_header 7 2 ++ encode_records (map stored records)
unfolding create
session-honest_example = session-honest good_disk true 32 7 2 records new_journal refl fine

ended : (mark_stroke_end good_disk 2 (session good_disk records new_journal)).1 ≡ true
unfolding session append append_frame mark_stroke_end append_note write_record push record_bytes
    record_head payload encode_frame put_u64 put_u32 flush flush_stream journal_header
ended = refl

ended_fine : (mark_stroke_end good_disk 2 (session good_disk records new_journal)).0.failed ≡ false
unfolding session append append_frame mark_stroke_end append_note write_record push record_bytes
    record_head payload encode_frame put_u64 put_u32 flush flush_stream journal_header
ended_fine = refl

mark_stroke_end-durable_example :
    (mark_stroke_end good_disk 2 (session good_disk records new_journal)).0.file
    ≡ (journal_header 7 2 ++ encode_records (map stored records)) ++ bytes_of (stroke_end 2)
unfolding create
mark_stroke_end-durable_example =
    mark_stroke_end-durable good_disk true 32 7 2 records 2 new_journal refl ended ended_fine
