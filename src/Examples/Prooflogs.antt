-- ===== src/Examples/Prooflogs.antt =====
-- Process logs: a stroke of two points, an operation on a region, and a lost frame.
use mari_paint.Prelude.{ℕ, ◌+◌, ◌≡◌, refl, [], ◌∷◌, map, take, arith}
use mari_paint.Sigan.Frame.{StrokeFrame}
use mari_paint.Sigan.Journal.Scan.{JournalScan}
use mari_paint.Sigan.Journal.Crash.{fresh}
use mari_paint.Sigan.Journal.Gaps.{gap_limit, missing, seq_gaps, seq_gaps-missing}
use mari_paint.Sigan.Prooflog.{summarize_strokes}
use mari_paint.Sigan.Prooflog.Groups.{groups, ungroup, summary_of, summarize_strokes-groups}
use mari_paint.Examples.Channels.{a_frame}

abbrev point : ℕ → ℕ → ℕ → StrokeFrame
point seq flags origin = record a_frame { seq = seq; flags = flags; origin = origin }

-- The bits of the flags: 1 the pen is set down, 2 it moves, 4 it is lifted, 16 a region.
abbrev a_scan : JournalScan
a_scan = record (fresh 7 2) {
  frames = point 1 1 1 ∷ point 2 6 1 ∷ point 3 17 3 ∷ point 5 20 3 ∷ [];
}

summarize_strokes-groups_example :
    (summarize_strokes a_scan ≡ map summary_of (groups a_scan.frames))
    × (ungroup (groups a_scan.frames) ≡ a_scan.frames)
summarize_strokes-groups_example = summarize_strokes-groups a_scan

seq_gaps-missing_example : seq_gaps a_scan ≡ take (gap_limit + 1) (missing a_scan.frames)
seq_gaps-missing_example =
    seq_gaps-missing a_scan
      (omega arith, omega arith, (omega arith, omega arith, (omega arith, omega arith, tt)))

-- Frame 4 is the hole.
lost : seq_gaps a_scan ≡ 4 ∷ []
unfolding seq_gaps
lost = refl
