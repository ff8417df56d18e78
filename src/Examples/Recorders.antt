-- ===== src/Examples/Recorders.antt =====
-- Recorders: a stroke, an operation on a region, an empty region, and the factory's journals.
use mari_paint.Prelude.{ℕ, ◌^◌, ◌%◌, ◌≤◌, ◌≡◌, refl, true, false, List, [], ◌∷◌, ◌++◌, arith}
use mari_paint.Prelude.Int.{ℤ, pos, pos_part, ◌-ℤ◌}
use mari_paint.Core.Errors.{ok, err, io_error}
use mari_paint.Core.Geometry.{Rect, right, bottom, is_empty}
use mari_paint.Core.Origin.{StrokeSource, human_pen, no_agent}
use mari_paint.Sigan.Journal.Records.{Record, record_bytes, record_head, payload}
use mari_paint.Sigan.Frame.{encode_frame}
use mari_paint.Sigan.Wire.{put_u32, put_u64}
use mari_paint.Sigan.Journal.Whole.{frames_of}
use mari_paint.Sigan.Journal.Writer.{
  create, append_frame, append_note, mark_stroke_end, write_record, flush, flush_stream, push,
  journal_header,
}
use mari_paint.Sigan.Publisher.State.{open_publisher, make_frame}
use mari_paint.Sigan.Publisher.Steps.{
  sent_frame, send, settle, record_frame, publish, end_stroke, resend_backlog, pump, set_sink,
}
use mari_paint.Sigan.Publisher.Steady.{Steady}
use mari_paint.Sigan.Publisher.Publish.{Fits}
use mari_paint.Sigan.Publisher.Run.{AllFit}
use mari_paint.Sigan.Publisher.Backlog.{Holds}
use mari_paint.Sigan.Prooflog.Groups.{Group, groups, summary_of}
use mari_paint.Record.Tally.{RecordingTally, no_tally}
use mari_paint.Record.Recorder.{
  StrokePointRecord, RegionOpRecord, RegionOpKind, Recorder, sample_of, corner, open_recorder,
  check_journal, on_stroke_point, on_stroke_end, record_region, count_region, on_region_op,
  region_note,
}
use mari_paint.Record.Recorder.Calls.{
  RecorderCall, point, ended, region, due, recorder_call, recorder_run,
}
use mari_paint.Record.Recorder.Logged.{IsRegion, groups-region}
use mari_paint.Record.Factory.{new_factory, retire, total_tally}
use mari_paint.Record.Factory.Totals.{FactoryStep, opened, retired, factory_run, total_tally-retire}
use mari_paint.Record.Factory.Journals.{Distinct, journals-Distinct}
use mari_paint.Examples.Channels.{good_disk, good_sink, millis, millis-Is64, new_publisher}

-- A conversion that keeps small numbers.
abbrev to_f32 : ℤ → ℕ
to_f32 i = pos_part i % 2 ^ 32

abbrev pen : StrokeSource
pen = record { origin = human_pen; agent_id = no_agent }

abbrev a_point : StrokePointRecord
a_point = record {
  x = 10;
  y = 20;
  pressure = 30;
  tilt_x = 1;
  tilt_y = 2;
  rotation = 3;
  velocity = 4;
  layer_id = 5;
  brush_id = 6;
  flags = 5;
}

abbrev area : Rect
area = record { x = pos 1; y = pos 2; width = pos 3; height = pos 4 }

abbrev a_region : RegionOpRecord
a_region = record {
  kind = RegionOpKind.fill;
  area = area;
  layer_id = 5;
  changed_tiles = 2;
  is_eraser = false;
}

abbrev nothing : RegionOpRecord
nothing = record a_region { area = record area { width = pos 0 } }

abbrev calls : List RecorderCall
calls = point 3 pen a_point ∷ ended pen 1 ∷ region 4 5 pen a_region ∷ region 6 7 pen nothing ∷ []

abbrev new_recorder : Recorder (List (List ℕ))
new_recorder = record {
  publisher = new_publisher;
  tally = no_tally;
  session_id = 7;
  broken = false;
}

point-Fits : Fits (sample_of pen a_point)
unfolding sample_of
point-Fits = record {
  x = omega arith;
  y = omega arith;
  pressure = omega arith;
  tilt_x = omega arith;
  tilt_y = omega arith;
  rotation = omega arith;
  velocity = omega arith;
  flags = omega arith;
  origin = omega arith;
  digest = omega arith;
}

corner-Fits : (x y flag : ℕ) → flag ≤ 4 → Fits (corner pen a_region (x % 2 ^ 32) (y % 2 ^ 32) flag)
unfolding corner
corner-Fits x y flag le = record {
  x = omega arith;
  y = omega arith;
  pressure = omega arith;
  tilt_x = omega arith;
  tilt_y = omega arith;
  rotation = omega arith;
  velocity = omega arith;
  flags = omega arith;
  origin = omega arith;
  digest = omega arith;
}

sound : (recorder_run good_disk good_sink millis to_f32 calls new_recorder).broken ≡ false
unfolding recorder_run recorder_call on_stroke_point on_stroke_end on_region_op record_region
    count_region check_journal region_note publish record_frame append_frame append_note
    write_record push record_bytes record_head payload encode_frame put_u64 put_u32 flush
    flush_stream send sent_frame settle end_stroke mark_stroke_end pump resend_backlog set_sink
    journal_header make_frame is_empty corner sample_of
sound = refl

unfailed :
    (recorder_run good_disk good_sink millis to_f32 calls new_recorder).publisher.journal.failed
    ≡ false
unfolding recorder_run recorder_call on_stroke_point on_stroke_end on_region_op record_region
    count_region check_journal region_note publish record_frame append_frame append_note
    write_record push record_bytes record_head payload encode_frame put_u64 put_u32 flush
    flush_stream send sent_frame settle end_stroke mark_stroke_end pump resend_backlog set_sink
    journal_header make_frame is_empty corner sample_of
unfailed = refl

calls-AllFit : AllFit (due good_disk good_sink millis to_f32 calls)
unfolding is_empty
calls-AllFit = (
  point-Fits,
  (
    corner-Fits 1 2 1 (omega arith),
    (
      corner-Fits (pos_part (right area -ℤ pos 1)) (pos_part (bottom area -ℤ pos 1)) 4
          (omega arith),
      tt,
    ),
  ),
)

groups-region_example :
    (rs : List Record) × (gs : List Group) × (g : Group) × (hs : List Group) × Holds 7 2 rs
      (recorder_run good_disk good_sink millis to_f32 calls new_recorder).publisher.journal
    × (groups (frames_of rs) ≡ gs ++ g ∷ hs)
    × IsRegion good_disk good_sink millis to_f32 pen a_region (summary_of g)
unfolding open_publisher create open_recorder set_sink is_empty
groups-region_example =
    groups-region good_disk good_sink millis to_f32 (point 3 pen a_point ∷ ended pen 1 ∷ []) 4 5 pen
      a_region (region 6 7 pen nothing ∷ []) false [] [] 7 1 2 true 32 new_publisher new_recorder
      refl refl refl (omega arith) (omega arith) millis-Is64 refl calls-AllFit (omega arith) sound
      unfailed

-- Each recorder has changed as many tiles as its number says.
abbrev tallies : ℕ → RecordingTally
tallies r = record no_tally { changed_tiles = r ∷ 0 ∷ 0 ∷ 0 ∷ 0 ∷ 0 ∷ [] }

-- A factory whose second journal does not open.
abbrev steps : List FactoryStep
steps =
    opened true (b'a' ∷ []) (λ path segment. ok segment)
    ∷ opened true (b'a' ∷ []) (λ path segment. err io_error)
    ∷ opened true (b'a' ∷ []) (λ path segment. ok segment)
    ∷ retired tallies 1
    ∷ []

total_tally-retire_example :
    total_tally tallies (retire tallies 3 (factory_run (λ p. p) steps new_factory))
    ≡ total_tally tallies (factory_run (λ p. p) steps new_factory)
total_tally-retire_example = total_tally-retire (λ p. p) steps tallies 3

journals-Distinct_example : Distinct (factory_run (λ p. p) steps new_factory).journals
journals-Distinct_example = journals-Distinct (λ p. p) steps (λ a b e. e) (omega arith)
