-- ===== src/Examples/Publishers.antt =====
-- A session of a publisher.
use mari_paint.Core.Errors.{ok}
use mari_paint.Sigan.Journal.Scan.{JournalScan, scan, recover_journal}
use mari_paint.Sigan.Journal.Gaps.{seq_gaps}
use mari_paint.Sigan.Publisher.Recovered.{recover_journal-gapless}
use mari_paint.Sigan.Journal.Prefix.{Begins}
use mari_paint.Prelude.{◌+◌, ◌++◌, some, take, ◌≡◌, refl, true, false, List, [], ◌∷◌, arith}
use mari_paint.Sigan.Journal.Records.{record_bytes, record_head, payload}
use mari_paint.Sigan.Frame.{encode_frame, has_flag}
use mari_paint.Sigan.Wire.{put_u32, put_u64}
use mari_paint.Sigan.Journal.Writer.{
  create, append_frame, mark_stroke_end, write_record, flush, flush_stream, push, journal_header,
}
use mari_paint.Sigan.Publisher.State.{open_publisher, make_frame}
use mari_paint.Sigan.Publisher.Steps.{
  sent_frame, send, settle, record_frame, publish, end_stroke, resend_backlog, pump, set_sink,
}
use mari_paint.Sigan.Publisher.Steady.{Steady}
use mari_paint.Sigan.Publisher.Run.{
  Call, frames_made, published, stroke_ended, pumped, sink_set, call, run,
}
use mari_paint.Sigan.Publisher.Complete.{session_complete}
use mari_paint.Sigan.Publisher.Totals.{brush_stroke_stats-publisher}
use mari_paint.Sigan.Prooflog.{brush_stroke_stats, region_op_stats, summarize_strokes}
use mari_paint.Examples.Channels.{
  good_disk, good_sink, millis, millis-Is64, a_sample, a_sample-Fits, new_publisher,
}

abbrev calls : List Call
calls = sink_set true ∷ published 3 a_sample ∷ pumped ∷ stroke_ended ∷ []

fine : (run good_disk good_sink millis calls new_publisher).journal.failed ≡ false
unfolding run call publish record_frame append_frame write_record push record_bytes record_head
    payload encode_frame put_u64 put_u32 flush flush_stream send sent_frame settle end_stroke
    mark_stroke_end pump resend_backlog set_sink journal_header make_frame
fine = refl

pumped_fine :
    (pump good_disk good_sink (run good_disk good_sink millis calls new_publisher)).1.journal.failed
    ≡ false
unfolding run call publish record_frame append_frame write_record push record_bytes record_head
    payload encode_frame put_u64 put_u32 flush flush_stream send sent_frame settle end_stroke
    mark_stroke_end pump resend_backlog set_sink journal_header make_frame
pumped_fine = refl

on : (run good_disk good_sink millis calls new_publisher).attached ≡ true
unfolding run call publish record_frame append_frame write_record push record_bytes record_head
    payload encode_frame put_u64 put_u32 flush flush_stream send sent_frame settle end_stroke
    mark_stroke_end pump resend_backlog set_sink journal_header make_frame
on = refl

session_complete_example :
    (pump good_disk good_sink (run good_disk good_sink millis calls new_publisher)).1.sent_seq
    ≡ (pump good_disk good_sink (run good_disk good_sink millis calls new_publisher)).1.seq
unfolding open_publisher create
session_complete_example =
    session_complete good_disk good_sink millis calls [] [] 7 1 2 true 32 new_publisher refl
      (omega arith) (omega arith) millis-Is64 refl (a_sample-Fits, tt) (omega arith)
      (λ bytes s. refl) (λ calls size. refl) on refl refl pumped_fine

-- The file is cut inside the record of the stroke's end.
recover_journal-gapless_example :
    (s : JournalScan) × (recover_journal (
        some (
          take (32 + 80) (
            (run good_disk good_sink millis calls new_publisher).journal.file
            ++ (run good_disk good_sink millis calls new_publisher).journal.buf)))
      ≡ ok s)
    × Begins s.frames (frames_made good_disk good_sink millis 1 0 calls)
    × (seq_gaps s ≡ [])
unfolding open_publisher create
recover_journal-gapless_example =
    recover_journal-gapless good_disk good_sink millis calls [] [] 7 1 2 true 32 new_publisher 80
      refl (omega arith) (omega arith) millis-Is64 refl (a_sample-Fits, tt) (omega arith) fine

-- The publisher's call is a stroke of one point.
brush_stroke_stats-publisher_example :
    (s : JournalScan) × (scan (
        some (
          (run good_disk good_sink millis calls new_publisher).journal.file
          ++ (run good_disk good_sink millis calls new_publisher).journal.buf))
      ≡ ok s)
    × (brush_stroke_stats (summarize_strokes s)
        ≡ (run good_disk good_sink millis calls new_publisher).stats.origins)
    × (region_op_stats (summarize_strokes s)
        ≡ (run good_disk good_sink millis calls new_publisher).stats.region_ops)
unfolding open_publisher create make_frame has_flag
brush_stroke_stats-publisher_example =
    brush_stroke_stats-publisher good_disk good_sink millis calls [] [] 7 1 2 true 32 new_publisher
      refl (omega arith) (omega arith) millis-Is64 refl (a_sample-Fits, tt) (omega arith)
      (λ _. refl, tt) fine
