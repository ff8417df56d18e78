-- ===== src/Record/Recorder.antt =====
-- `SiganRecorder` of record/src/sigan_recorder.cpp (and the records that it is given, of
-- include/mari/agent/recording.hpp): the one place where samples are published. The conversion of an
-- integer to `float` is a parameter, as are the clock, the stream and the channel.
pub mod Calls
pub mod Run
pub mod Logged
use mari_paint.Prelude.{ℕ, ◌+◌, Bool, true, false, ◌||◌, List, [], ◌∷◌, ◌++◌, if◌then◌else◌}
use mari_paint.Prelude.Int.{ℤ, pos, ◌-ℤ◌}
use mari_paint.Core.Errors.{ErrorCode, Result, ok, err}
use mari_paint.Core.Geometry.{Rect, is_empty, right, bottom}
use mari_paint.Core.Origin.{StrokeSource, add}
use mari_paint.Sigan.Frame.{down, up, eraser, synthetic}
use mari_paint.Sigan.Handshake.{codes}
use mari_paint.Sigan.Handshake.Fields.{decimal}
use mari_paint.Sigan.Journal.Writer.{Disk, append_note}
use mari_paint.Sigan.Sink.{Sink}
use mari_paint.Sigan.Publisher.State.{StrokeSample, Publisher}
use mari_paint.Sigan.Publisher.Steps.{publish, end_stroke, pump, set_sink}
use mari_paint.Record.Tally.{RecordingTally, no_tally, add_tiles}

-- `StrokePointRecord`: the numbers of a point are bit patterns.
pub record StrokePointRecord : Type 0 where
  pub x : ℕ
  pub y : ℕ
  pub pressure : ℕ
  pub tilt_x : ℕ
  pub tilt_y : ℕ
  pub rotation : ℕ
  pub velocity : ℕ
  pub layer_id : ℕ
  pub brush_id : ℕ
  pub flags : ℕ

pub data RegionOpKind : Type 0 where
  fill erase gradient transform : RegionOpKind

-- `regionOpKindName`
unfoldable pub region_op_kind_name : RegionOpKind → List ℕ
region_op_kind_name fill = codes "fill"
region_op_kind_name erase = codes "erase"
region_op_kind_name gradient = codes "gradient"
region_op_kind_name transform = codes "transform"

pub record RegionOpRecord : Type 0 where
  pub kind : RegionOpKind
  pub area : Rect
  pub layer_id : ℕ
  pub changed_tiles : ℕ
  pub is_eraser : Bool

-- The state of a recorder over the state of its sink. What is only kept for the text of the log
-- (the names of the program and of the agents, the journal's path) is left out.
pub record Recorder (S : Type 0) : Type 0 where
  pub publisher : Publisher S
  pub tally : RecordingTally
  pub session_id : ℕ
  pub broken : Bool

-- The sample of a point.
unfoldable pub sample_of : StrokeSource → StrokePointRecord → StrokeSample
sample_of src p = record {
  source = src;
  x = p.x;
  y = p.y;
  pressure = p.pressure;
  tilt_x = p.tilt_x;
  tilt_y = p.tilt_y;
  rotation = p.rotation;
  velocity = p.velocity;
  layer_id = p.layer_id;
  brush_id = p.brush_id;
  flags = p.flags;
}

-- The sample of a corner of a region: nothing but the position, the layer and the flags is set. The
-- flags of `base` and of the end of the stroke have no bit in common, so their join is a sum.
unfoldable pub corner : StrokeSource → RegionOpRecord → ℕ → ℕ → ℕ → StrokeSample
corner src op x y flag = record {
  source = src;
  x = x;
  y = y;
  pressure = 0;
  tilt_x = 0;
  tilt_y = 0;
  rotation = 0;
  velocity = 0;
  layer_id = op.layer_id;
  brush_id = 0;
  flags = (if op.is_eraser then synthetic + eraser else synthetic) + flag;
}

-- The note on a region.
unfoldable pub region_note : RegionOpRecord → List ℕ
unfolding region_op_kind_name decimal
region_note op =
    codes "{\"op\":\""
    ++ (region_op_kind_name op.kind
        ++ (codes "\",\"layer\":"
            ++ (decimal op.layer_id
                ++ (codes ",\"tiles\":" ++ (decimal op.changed_tiles ++ codes "}")))))

module _ (disk : Disk) (channel : Sink) (to_ms : ℕ → ℕ) (to_f32 : ℤ → ℕ) where
  open channel use {State}

  -- `open`, given the answer of `SiganPublisher::open` and whether there is a sink.
  unfoldable pub open_recorder : Bool → Result (Publisher State) → Result (Recorder State)
  open_recorder has_sink (err e) = err e
  open_recorder has_sink (ok p) =
      let p' = set_sink disk channel has_sink p in
      ok (record {
        publisher = if has_sink then (pump disk channel p').1 else p';
        tally = no_tally;
        session_id = p'.session_id;
        broken = false;
      })

  unfoldable pub check_journal : Recorder State → Recorder State
  check_journal r = if r.publisher.journal.failed then record r { broken = true } else r

  unfoldable pub on_stroke_point :
      ℕ → StrokeSource → StrokePointRecord → Recorder State → Recorder State
  unfolding sample_of check_journal
  on_stroke_point now src p r =
      check_journal
        (record r { publisher = publish disk channel to_ms now (sample_of src p) r.publisher })

  unfoldable pub on_stroke_end : StrokeSource → ℕ → Recorder State → Recorder State
  unfolding check_journal
  on_stroke_end src changed_tiles r =
      let r' = check_journal (record r { publisher = end_stroke disk channel r.publisher }) in
      let t = record r'.tally { strokes = add r'.tally.strokes src.origin 1 } in
      record r' { tally = add_tiles t src.origin changed_tiles }

  -- The frames of a region and its note: the corners of the area, at two readings of the clock.
  unfoldable pub record_region :
      ℕ → ℕ → StrokeSource → RegionOpRecord → Publisher State → Publisher State
  unfolding corner region_note
  record_region now now' src op p =
      let a = corner src op (to_f32 op.area.x) (to_f32 op.area.y) down in
      let b =
        corner src op (to_f32 (right op.area -ℤ pos 1)) (to_f32 (bottom op.area -ℤ pos 1)) up in
      let p' = publish disk channel to_ms now' b (publish disk channel to_ms now a p) in
      let p'' = end_stroke disk channel p' in
      record p'' { journal = (append_note disk (region_note op) p''.journal).0 }

  -- The end of `onRegionOp`, behind the look at the journal.
  unfoldable pub count_region :
      StrokeSource → RegionOpRecord → Recorder State → Result (Unit {0}) × Recorder State
  count_region src op r = if r.broken then (err ErrorCode.io_error, r) else (
    ok tt,
    record r {
      tally =
          add_tiles (record r.tally { region_ops = add r.tally.region_ops src.origin 1 }) src.origin
            op.changed_tiles;
    },
  )

  unfoldable pub on_region_op :
      ℕ → ℕ → StrokeSource → RegionOpRecord → Recorder State → Result (Unit {0}) × Recorder State
  unfolding record_region check_journal count_region
  on_region_op now now' src op r =
      if is_empty op.area
      then (err ErrorCode.invalid_argument, r)
      else if r.broken
      then (err ErrorCode.io_error, r)
      else count_region src op
          (check_journal (record r { publisher = record_region now now' src op r.publisher }))

  -- `pump`
  unfoldable pub pump_recorder : Recorder State → Result (Unit {0}) × Recorder State
  pump_recorder r =
      let (answer, p) = pump disk channel r.publisher in (answer, record r { publisher = p })
