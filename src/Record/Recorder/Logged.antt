-- ===== src/Record/Recorder/Logged.antt =====
-- What a process log says of an operation on a region.
use mari_paint.Prelude.{
  ℕ, suc, ◌+◌, ◌%◌, ◌^◌, ◌<◌, ◌≡◌, refl, ap, ◌∙◌, Bool, true, false, List, [], ◌∷◌, ◌++◌, length,
  if◌then◌else◌, Bool-cases, inl, inr,
}
use mari_paint.Prelude.Int.{ℤ, pos, ◌-ℤ◌}
use mari_paint.Core.Errors.{ok}
use mari_paint.Core.Geometry.{is_empty, right, bottom}
use mari_paint.Core.Origin.{StrokeSource}
use mari_paint.Sigan.Wire.{IsU64}
use mari_paint.Sigan.Frame.{StrokeFrame, has_flag, down, up, eraser, synthetic}
use mari_paint.Sigan.Journal.Records.{Record}
use mari_paint.Sigan.Journal.Writer.{Disk, create}
use mari_paint.Sigan.Journal.Whole.{frames_of}
use mari_paint.Sigan.Sink.{Sink}
use mari_paint.Sigan.Publisher.State.{Publisher, open_publisher, make_frame}
use mari_paint.Sigan.Publisher.Backlog.{Holds}
use mari_paint.Sigan.Publisher.Publish.{Is64}
use mari_paint.Sigan.Publisher.Run.{
  Call, published, stroke_ended, pumped, sink_set, AllFit, frames_made,
}
use mari_paint.Sigan.Prooflog.{ProofStrokeSummary}
use mari_paint.Sigan.Prooflog.Groups.{Group, join, groups, summary_of}
use mari_paint.Record.Recorder.{RegionOpRecord, Recorder, corner, open_recorder}
use mari_paint.Record.Recorder.Calls.{
  RecorderCall, point, ended, region, flushed, recorder_run, due, first_corner, last_corner,
}
use mari_paint.Record.Recorder.Run.{recorder_run-Steady}

-- The flags of the two corners.
record Marks (is_eraser : Bool) (a b : ℕ) : Type 0 where
  first_down : has_flag a down ≡ true
  first_stays : has_flag a up ≡ false
  last_up : has_flag b up ≡ true
  last_stays : has_flag b down ≡ false
  is_region : has_flag a synthetic ≡ true
  erases : has_flag a eraser ≡ is_eraser

corner-Marks :
    (e : Bool)
    → Marks e
        ((if e then synthetic + eraser else synthetic) + down)
        ((if e then synthetic + eraser else synthetic) + up)
unfolding has_flag
corner-Marks true = record {
  first_down = refl;
  first_stays = refl;
  last_up = refl;
  last_stays = refl;
  is_region = refl;
  erases = refl;
}
corner-Marks false = record {
  first_down = refl;
  first_stays = refl;
  last_up = refl;
  last_stays = refl;
  is_region = refl;
  erases = refl;
}

-- A frame that sets the pen down and does not lift it, and one that only lifts it, are a stroke.
groups-pair :
    (f g : StrokeFrame) (fs : List StrokeFrame)
    → has_flag f.flags up ≡ false
    → has_flag g.flags up ≡ true
    → has_flag g.flags down ≡ false
    → groups (f ∷ g ∷ fs) ≡ (f, g ∷ []) ∷ groups fs
groups-pair f g fs fu gu gd = rw (fu, gu, gd) refl

-- A frame that sets the pen down begins a stroke, whatever frames come before it.
join-append :
    (x : Group) (gs : List Group) (h : Group) (hs : List Group)
    → has_flag h.0.flags down ≡ true
    → join x (gs ++ h ∷ hs) ≡ join x gs ++ h ∷ hs
join-append (x, xs) [] (h, ts) hs e = rw e refl
join-append (x, xs) ((g, ts) ∷ gs) h hs e = elim (Bool-cases (has_flag g.flags down)) [
  | inl yes' ↦ rw yes' refl
  | inr no' ↦ rw no' refl
]

groups-append :
    (fs : List StrokeFrame) (f g : StrokeFrame) (rest : List StrokeFrame) (gs : List Group)
    → has_flag f.flags down ≡ true
    → groups (f ∷ g ∷ rest) ≡ (f, g ∷ []) ∷ gs
    → groups (fs ++ f ∷ g ∷ rest) ≡ groups fs ++ (f, g ∷ []) ∷ gs
groups-append [] f g rest gs d e = e
groups-append (x ∷ fs) f g rest gs d e =
    let ih = groups-append fs f g rest gs d e in
    elim (Bool-cases (has_flag x.flags up)) [
      | inl yes' ↦ rw yes' (ap ((x, []) ∷◌) ih)
      | inr no' ↦ rw no' (ap (join (x, [])) ih ∙ join-append (x, []) (groups fs) (f, g ∷ []) gs d)
    ]

module _ (disk : Disk) (channel : Sink) (to_ms : ℕ → ℕ) (to_f32 : ℤ → ℕ) where
  open channel use {State, received}

  due-append :
      (cs ds : List RecorderCall)
      → due disk channel to_ms to_f32 (cs ++ ds)
        ≡ due disk channel to_ms to_f32 cs ++ due disk channel to_ms to_f32 ds
  due-append [] ds = refl
  due-append (point now src p ∷ cs) ds = rw (due-append cs ds) refl
  due-append (ended src n ∷ cs) ds = rw (due-append cs ds) refl
  due-append (flushed ∷ cs) ds = rw (due-append cs ds) refl
  due-append (region now now' src op ∷ cs) ds =
      let ih = due-append cs ds in
      elim (Bool-cases (is_empty op.area)) [ inl yes' ↦ rw yes' ih | inr no' ↦ rw (no', ih) refl ]

  frames_made-append :
      (origin n : ℕ) (cs ds : List Call)
      → (m : ℕ) × (frames_made disk channel to_ms origin n (cs ++ ds)
          ≡ frames_made disk channel to_ms origin n cs
            ++ frames_made disk channel to_ms origin m ds)
  frames_made-append origin n [] ds = (n, refl)
  frames_made-append origin n (published now s ∷ cs) ds =
      let (m, e) = frames_made-append origin (suc n) cs ds in (m, rw e refl)
  frames_made-append origin n (stroke_ended ∷ cs) ds = frames_made-append origin n cs ds
  frames_made-append origin n (pumped ∷ cs) ds = frames_made-append origin n cs ds
  frames_made-append origin n (sink_set b ∷ cs) ds = frames_made-append origin n cs ds

  -- What a summary says of an operation on a region.
  pub record IsRegion (src : StrokeSource) (op : RegionOpRecord) (s : ProofStrokeSummary)
      : Type 0 where
    pub marked : s.is_synthetic ≡ true
    pub erases : s.is_eraser ≡ op.is_eraser
    pub made_by : s.origin ≡ src.origin
    pub layer : s.layer_id ≡ op.layer_id % 2 ^ 32
    pub points : s.point_count ≡ 2
    pub from_x : s.x0 ≡ to_f32 op.area.x
    pub from_y : s.y0 ≡ to_f32 op.area.y
    pub to_x : s.x1 ≡ to_f32 (right op.area -ℤ pos 1)
    pub to_y : s.y1 ≡ to_f32 (bottom op.area -ℤ pos 1)

  due-region :
      (origin now now' : ℕ) (src : StrokeSource) (op : RegionOpRecord)
      (before behind : List RecorderCall)
      → is_empty op.area ≡ false
      → (gs : List Group) × (g : Group) × (hs : List Group) × (groups (
            frames_made disk channel to_ms origin 0
              (due disk channel to_ms to_f32 (before ++ region now now' src op ∷ behind)))
          ≡ gs ++ g ∷ hs)
        × IsRegion src op (summary_of g)
  unfolding corner make_frame
  due-region origin now now' src op before behind e =
      let ds =
        published now (first_corner disk channel to_ms to_f32 src op)
        ∷ published now' (last_corner disk channel to_ms to_f32 src op)
        ∷ stroke_ended
        ∷ due disk channel to_ms to_f32 behind in
      let taken : due disk channel to_ms to_f32 (region now now' src op ∷ behind) ≡ ds =
        rw e refl in
      let (n, made) = frames_made-append origin 0 (due disk channel to_ms to_f32 before) ds in
      let fs = frames_made disk channel to_ms origin 0 (due disk channel to_ms to_f32 before) in
      let m = corner-Marks op.is_eraser in
      let a =
        (make_frame to_ms (suc n) origin now (first_corner disk channel to_ms to_f32 src op)).0 in
      let b =
        (make_frame to_ms (suc (suc n)) origin now'
          (last_corner disk channel to_ms to_f32 src op)).0 in
      let rest =
        frames_made disk channel to_ms origin (suc (suc n))
          (due disk channel to_ms to_f32 behind) in
      (
        groups fs,
        (a, b ∷ []),
        groups rest,
        ap (λ xs. groups (frames_made disk channel to_ms origin 0 xs))
              (due-append before (region now now' src op ∷ behind)
                ∙ ap (due disk channel to_ms to_f32 before ++◌) taken)
            ∙ ap groups made
            ∙ groups-append fs a b rest (groups rest) m.first_down
                (groups-pair a b rest m.first_stays m.last_up m.last_stays),
        record {
          marked = m.is_region;
          erases = m.erases;
          made_by = refl;
          layer = refl;
          points = refl;
          from_x = refl;
          from_y = refl;
          to_x = refl;
          to_y = refl;
        },
      )

  -- Take any calls of a new recorder with an operation on a region that is not empty among them,
  -- for which fewer than 2^64 calls of its publisher are due, over any stream and any sink that
  -- has received nothing yet, where the fields of samples, the session's id and the wall clock
  -- have their widths. If the recorder is not broken and its journal has not failed at the end,
  -- the frames that the journal holds, cut into strokes, have between others a stroke for the
  -- operation: of two points, marked as no stroke of a brush, from the first pixel of the area to
  -- the last one, with the layer (its low 32 bits), the origin and the mark of an eraser that the
  -- operation has.
  pub groups-region :
      (before : List RecorderCall) (now now' : ℕ) (src : StrokeSource) (op : RegionOpRecord)
      (behind : List RecorderCall) (has_sink : Bool) (sink : State) (app : List ℕ)
      (session_id origin wall : ℕ) (opens : Bool) (taken : ℕ) (p : Publisher State)
      (r : Recorder State)
      → is_empty op.area ≡ false
      → open_publisher sink false app session_id origin wall (λ id. create opens taken id wall)
        ≡ ok p
      → open_recorder disk channel to_ms to_f32 has_sink (ok p) ≡ ok r
      → IsU64 p.session_id
      → IsU64 wall
      → Is64 to_ms
      → received sink ≡ []
      → AllFit (due disk channel to_ms to_f32 (before ++ region now now' src op ∷ behind))
      → length (due disk channel to_ms to_f32 (before ++ region now now' src op ∷ behind)) < 2 ^ 64
      → (recorder_run disk channel to_ms to_f32
          (before ++ region now now' src op ∷ behind)
          r).broken
        ≡ false
      → (recorder_run disk channel to_ms to_f32
          (before ++ region now now' src op ∷ behind)
          r).publisher.journal.failed
        ≡ false
      → (rs : List Record) × (gs : List Group) × (g : Group) × (hs : List Group) × Holds
          p.session_id wall rs
          (recorder_run disk channel to_ms to_f32
            (before ++ region now now' src op ∷ behind)
            r).publisher.journal
        × (groups (frames_of rs) ≡ gs ++ g ∷ hs)
        × IsRegion src op (summary_of g)
  groups-region before now now' src op behind has_sink sink app session_id origin wall opens taken p
        r e made opened hs hw h64 silent fit len sound fine =
      let (rs, same, st) =
        recorder_run-Steady disk channel to_ms to_f32 (before ++ region now now' src op ∷ behind)
          has_sink sink app session_id origin wall opens taken p r made opened hs hw h64 silent fit
          len sound fine in
      let (gs, g, ts, cut, is) = due-region origin now now' src op before behind e in
      (rs, gs, g, ts, st.holds, ap groups same ∙ cut, is)
