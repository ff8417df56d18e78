-- ===== src/Record/Recorder/Calls.antt =====
-- Any calls of a recorder, what is due to its publisher for them, and that a broken recorder stays
-- broken.
use mari_paint.Prelude.{ℕ, ◌≡◌, true, false, List, [], ◌∷◌, arith, if◌then◌else◌}
use mari_paint.Prelude.Int.{ℤ, pos, ◌-ℤ◌}
use mari_paint.Core.Geometry.{is_empty, right, bottom}
use mari_paint.Core.Origin.{StrokeSource}
use mari_paint.Sigan.Frame.{down, up}
use mari_paint.Sigan.Journal.Writer.{Disk}
use mari_paint.Sigan.Sink.{Sink}
use mari_paint.Sigan.Publisher.State.{StrokeSample}
use mari_paint.Sigan.Publisher.Run.{Call, published, stroke_ended, pumped}
use mari_paint.Record.Recorder.{
  StrokePointRecord, RegionOpRecord, Recorder, sample_of, corner, check_journal, on_stroke_point,
  on_stroke_end, record_region, count_region, on_region_op, pump_recorder,
}

-- A call of a recorder, with the readings of the clock.
pub data RecorderCall : Type 0 where
  point : ℕ → StrokeSource → StrokePointRecord → RecorderCall
  ended : StrokeSource → ℕ → RecorderCall
  region : ℕ → ℕ → StrokeSource → RegionOpRecord → RecorderCall
  flushed : RecorderCall

module _ (disk : Disk) (channel : Sink) (to_ms : ℕ → ℕ) (to_f32 : ℤ → ℕ) where
  open channel use {State, received}

  unfoldable pub recorder_call : RecorderCall → Recorder State → Recorder State
  recorder_call (point now src p) r = on_stroke_point disk channel to_ms to_f32 now src p r
  recorder_call (ended src n) r = on_stroke_end disk channel to_ms to_f32 src n r
  recorder_call (region now now' src op) r =
      (on_region_op disk channel to_ms to_f32 now now' src op r).1
  recorder_call flushed r = (pump_recorder disk channel to_ms to_f32 r).1

  unfoldable pub recorder_run : List RecorderCall → Recorder State → Recorder State
  unfolding recorder_call
  recorder_run [] r = r
  recorder_run (c ∷ cs) r = recorder_run cs (recorder_call c r)

  -- The two corners of a region as samples.
  abbrev pub first_corner : StrokeSource → RegionOpRecord → StrokeSample
  first_corner src op = corner src op (to_f32 op.area.x) (to_f32 op.area.y) down

  abbrev pub last_corner : StrokeSource → RegionOpRecord → StrokeSample
  last_corner src op =
      corner src op (to_f32 (right op.area -ℤ pos 1)) (to_f32 (bottom op.area -ℤ pos 1)) up

  -- What is due to the publisher: a region that is not empty is a stroke of its two corners.
  abbrev pub due : List RecorderCall → List Call
  due [] = []
  due (point now src p ∷ cs) = published now (sample_of src p) ∷ due cs
  due (ended src n ∷ cs) = stroke_ended ∷ due cs
  due (region now now' src op ∷ cs) =
      if is_empty op.area
      then due cs
      else published now (first_corner src op)
        ∷ published now' (last_corner src op)
        ∷ stroke_ended
        ∷ due cs
  due (flushed ∷ cs) = pumped ∷ due cs

  check_broken :
      (r : Recorder State)
      → (check_journal disk channel to_ms to_f32 r).broken ≡ false
      → r.broken ≡ false
  unfolding check_journal
  check_broken r h = ground arith

  pub check_publisher :
      (r : Recorder State) → (check_journal disk channel to_ms to_f32 r).publisher ≡ r.publisher
  unfolding check_journal
  check_publisher r = ground arith

  count_broken :
      (src : StrokeSource) (op : RegionOpRecord) (r : Recorder State)
      → (count_region disk channel to_ms to_f32 src op r).1.broken ≡ r.broken
  unfolding count_region
  count_broken src op r = ground arith

  count_publisher :
      (src : StrokeSource) (op : RegionOpRecord) (r : Recorder State)
      → (count_region disk channel to_ms to_f32 src op r).1.publisher ≡ r.publisher
  unfolding count_region
  count_publisher src op r = ground arith

  -- A recorder that is broken stays so.
  region_broken :
      (now now' : ℕ) (src : StrokeSource) (op : RegionOpRecord) (r : Recorder State)
      → (on_region_op disk channel to_ms to_f32 now now' src op r).1.broken ≡ false
      → r.broken ≡ false
  unfolding on_region_op
  region_broken now now' src op r h =
      let drawn = record r {
        publisher = record_region disk channel to_ms to_f32 now now' src op r.publisher;
      } in
      ground (
        arith,
        h,
        check_broken drawn,
        count_broken src op (check_journal disk channel to_ms to_f32 drawn),
      )

  call_broken :
      (c : RecorderCall) (r : Recorder State)
      → (recorder_call c r).broken ≡ false
      → r.broken ≡ false
  unfolding recorder_call on_stroke_point on_stroke_end pump_recorder
  call_broken (point now src p) r h = check_broken _ h
  call_broken (ended src n) r h = check_broken _ h
  call_broken (region now now' src op) r h = region_broken now now' src op r h
  call_broken flushed r h = h

  pub run_broken :
      (cs : List RecorderCall) (r : Recorder State)
      → (recorder_run cs r).broken ≡ false
      → r.broken ≡ false
  unfolding recorder_run
  run_broken [] r h = h
  run_broken (c ∷ cs) r h = call_broken c r (run_broken cs (recorder_call c r) h)

  -- What a region leaves of the publisher, when it is taken.
  pub region_publisher :
      (now now' : ℕ) (src : StrokeSource) (op : RegionOpRecord) (r : Recorder State)
      → is_empty op.area ≡ false
      → r.broken ≡ false
      → (on_region_op disk channel to_ms to_f32 now now' src op r).1.publisher
        ≡ record_region disk channel to_ms to_f32 now now' src op r.publisher
  unfolding on_region_op
  region_publisher now now' src op r e b =
      let drawn = record r {
        publisher = record_region disk channel to_ms to_f32 now now' src op r.publisher;
      } in
      ground (
        arith,
        e,
        b,
        check_publisher drawn,
        count_publisher src op (check_journal disk channel to_ms to_f32 drawn),
      )

  pub region_refused :
      (now now' : ℕ) (src : StrokeSource) (op : RegionOpRecord) (r : Recorder State)
      → is_empty op.area ≡ true
      → (on_region_op disk channel to_ms to_f32 now now' src op r).1 ≡ r
  unfolding on_region_op
  region_refused now now' src op r e = ground (arith, e)
