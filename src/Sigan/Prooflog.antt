-- ===== src/Sigan/Prooflog.antt =====
-- The strokes of a process log (include/mari/sigan/prooflog.hpp, sigan/src/prooflog.cpp): what the
-- frames of a scanned journal say of each stroke, and the counts of strokes by origin. The text of
-- the log itself is not modelled.
pub mod Groups
pub mod Counted
use mari_paint.Prelude.{ℕ, Bool, true, false, ◌&&◌, ◌||◌, not, List, [], ◌∷◌, ◌++◌, if◌then◌else◌}
use mari_paint.Core.Origin.{StrokeOriginStats, no_stats, unspecified, add}
use mari_paint.Sigan.Frame.{StrokeFrame, has_flag, down, up, eraser, synthetic}
use mari_paint.Sigan.Journal.Scan.{JournalScan}
use mari_paint.Sigan.Publisher.State.{next64}

-- `ProofStrokeSummary`
pub record ProofStrokeSummary : Type 0 where
  pub seq_first : ℕ
  pub seq_last : ℕ
  pub t_start_ms : ℕ
  pub t_end_ms : ℕ
  pub layer_id : ℕ
  pub brush_id : ℕ
  pub point_count : ℕ
  pub is_eraser : Bool
  pub origin : ℕ
  pub agent_id : ℕ
  pub is_synthetic : Bool
  pub x0 : ℕ
  pub y0 : ℕ
  pub x1 : ℕ
  pub y1 : ℕ

abbrev pub no_summary : ProofStrokeSummary
no_summary = record {
  seq_first = 0;
  seq_last = 0;
  t_start_ms = 0;
  t_end_ms = 0;
  layer_id = 0;
  brush_id = 0;
  point_count = 0;
  is_eraser = false;
  origin = unspecified;
  agent_id = 0;
  is_synthetic = false;
  x0 = 0;
  y0 = 0;
  x1 = 0;
  y1 = 0;
}

-- What a frame that begins a stroke sets.
unfoldable pub begin_summary : StrokeFrame → ProofStrokeSummary
unfolding has_flag
begin_summary f = record no_summary {
  seq_first = f.seq;
  t_start_ms = f.t_ms;
  layer_id = f.layer_id;
  brush_id = f.brush_id;
  is_eraser = has_flag f.flags eraser;
  origin = f.origin;
  agent_id = f.agent_id;
  is_synthetic = has_flag f.flags synthetic;
  x0 = f.cx;
  y0 = f.cy;
}

-- What every frame of a stroke sets.
unfoldable pub extend_summary : StrokeFrame → ProofStrokeSummary → ProofStrokeSummary
extend_summary f cur = record cur {
  seq_last = f.seq;
  t_end_ms = f.t_ms;
  x1 = f.cx;
  y1 = f.cy;
  point_count = next64 cur.point_count;
}

-- The loop of `summarizeStrokes`, with its variables `open`, `cur` and `out`. A frame that does not
-- lift the pen leaves the stroke open.
unfoldable pub summarize_loop :
    List StrokeFrame → Bool → ProofStrokeSummary → List ProofStrokeSummary → List ProofStrokeSummary
unfolding begin_summary extend_summary
summarize_loop [] is_open cur out = if is_open then out ++ cur ∷ [] else out
summarize_loop (f ∷ fs) is_open cur out =
    let starts = not is_open || has_flag f.flags down in
    let out' = if starts && is_open then out ++ cur ∷ [] else out in
    let cur' = extend_summary f (if starts then begin_summary f else cur) in
    let lifted = has_flag f.flags up in
    summarize_loop fs (not lifted) cur' (if lifted then out' ++ cur' ∷ [] else out')

unfoldable pub summarize_strokes : JournalScan → List ProofStrokeSummary
unfolding summarize_loop
summarize_strokes s = summarize_loop s.frames false no_summary []

-- The loops of `originStats`, `brushStrokeStats` and `regionOpStats` from given counts.
unfoldable pub origin_stats_from : StrokeOriginStats → List ProofStrokeSummary → StrokeOriginStats
origin_stats_from t [] = t
origin_stats_from t (s ∷ ss) = origin_stats_from (add t s.origin 1) ss

unfoldable pub origin_stats : List ProofStrokeSummary → StrokeOriginStats
unfolding origin_stats_from
origin_stats = origin_stats_from no_stats

unfoldable pub brush_stats_from : StrokeOriginStats → List ProofStrokeSummary → StrokeOriginStats
brush_stats_from t [] = t
brush_stats_from t (s ∷ ss) = brush_stats_from (if s.is_synthetic then t else add t s.origin 1) ss

unfoldable pub brush_stroke_stats : List ProofStrokeSummary → StrokeOriginStats
unfolding brush_stats_from
brush_stroke_stats = brush_stats_from no_stats

unfoldable pub region_stats_from : StrokeOriginStats → List ProofStrokeSummary → StrokeOriginStats
region_stats_from t [] = t
region_stats_from t (s ∷ ss) = region_stats_from (if s.is_synthetic then add t s.origin 1 else t) ss

unfoldable pub region_op_stats : List ProofStrokeSummary → StrokeOriginStats
unfolding region_stats_from
region_op_stats = region_stats_from no_stats
