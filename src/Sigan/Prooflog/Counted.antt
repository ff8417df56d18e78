-- ===== src/Sigan/Prooflog/Counted.antt =====
-- The counts of a process log against a count of its frames.
use mari_paint.Prelude.{
  ◌≡◌, refl, sym, Bool, true, false, not, inl, inr, List, [], ◌∷◌, ◌++◌, map, arith, Bool-cases,
  subst,
}
use mari_paint.Sigan.Frame.{StrokeFrame, has_flag, down, up}
use mari_paint.Sigan.Journal.Scan.{JournalScan}
use mari_paint.Sigan.Publisher.State.{PublisherStats, no_publisher_stats, count_stroke}
use mari_paint.Sigan.Prooflog.{
  ProofStrokeSummary, summarize_strokes, brush_stats_from, region_stats_from, brush_stroke_stats,
  region_op_stats,
}
use mari_paint.Sigan.Prooflog.Groups.{
  join, groups, summary_of, join-down, join-join, summarize_strokes-groups,
}

-- The counting of `publish`, frame by frame.
abbrev pub count_frames : List StrokeFrame → PublisherStats → PublisherStats
count_frames [] t = t
count_frames (f ∷ fs) t = count_frames fs (count_stroke f.flags f.origin t)

-- No frame lies outside a stroke: the first one, and one behind a frame that lifts the pen, sets it
-- down.
abbrev pub Bracketed : Bool → List StrokeFrame → Type 0
Bracketed is_open [] = Unit
Bracketed is_open (f ∷ fs) =
    (is_open ≡ false → has_flag f.flags down ≡ true) × Bracketed (not (has_flag f.flags up)) fs

-- What the summaries add to the counts is what the publisher added.
pub record Agrees (t : PublisherStats) (ss : List ProofStrokeSummary) (t' : PublisherStats)
    : Type 0 where
  pub brush : t'.origins ≡ brush_stats_from t.origins ss
  pub region : t'.region_ops ≡ region_stats_from t.region_ops ss

Agrees-nil : (t : PublisherStats) → Agrees t [] t
unfolding brush_stats_from region_stats_from
Agrees-nil t = record { brush = refl; region = refl }

Agrees-cons :
    (t t' : PublisherStats) (f : StrokeFrame) (hs : List StrokeFrame) (ss : List ProofStrokeSummary)
    → has_flag f.flags down ≡ true
    → Agrees (count_stroke f.flags f.origin t) ss t'
    → Agrees t (summary_of (f, hs) ∷ ss) t'
unfolding brush_stats_from region_stats_from count_stroke
Agrees-cons t t' f hs ss h a = ground (arith, a, h)

no_down :
    (f : StrokeFrame) (t : PublisherStats)
    → has_flag f.flags down ≡ false
    → count_stroke f.flags f.origin t ≡ t
unfolding count_stroke
no_down f t h = rw h refl

abbrev Closed : List StrokeFrame → Type 0
Closed fs =
    (t : PublisherStats)
    → Bracketed false fs
    → Agrees t (map summary_of (groups fs)) (count_frames fs t)

abbrev Opened : List StrokeFrame → Type 0
Opened fs =
    (t : PublisherStats) (f : StrokeFrame) (hs : List StrokeFrame)
    → has_flag f.flags down ≡ true
    → Bracketed true fs
    → Agrees t (map summary_of (join (f, hs) (groups fs)))
        (count_frames fs (count_stroke f.flags f.origin t))

Closed-cons : (f : StrokeFrame) (fs : List StrokeFrame) → Closed fs → Opened fs → Closed (f ∷ fs)
Closed-cons f fs closed opened t (starts, b) =
    let h = starts refl in
    elim (Bool-cases (has_flag f.flags up)) [
      | inl lifts ↦ rw lifts (
          Agrees-cons t _ f [] (map summary_of (groups fs)) h
            (closed (count_stroke f.flags f.origin t) (rw lifts at b)))
      | inr stays ↦ rw stays (opened t f [] h (rw stays at b))
    ]

Opened-cons : (g : StrokeFrame) (fs : List StrokeFrame) → Closed fs → Opened fs → Opened (g ∷ fs)
Opened-cons g fs closed opened t f hs h (_, b) = elim (Bool-cases (has_flag g.flags down)) [
  | inl yes' ↦
      subst
        (λ gs.
          Agrees t (map summary_of gs) (count_frames (g ∷ fs) (count_stroke f.flags f.origin t)))
        (sym (join-down (f, hs) g fs yes'))
        (Agrees-cons t _ f hs (map summary_of (groups (g ∷ fs))) h
          (Closed-cons g fs closed opened (count_stroke f.flags f.origin t) (λ _. yes', b)))
  | inr no' ↦ elim (Bool-cases (has_flag g.flags up)) [
    | inl lifts ↦
        rw (lifts, no', no_down g (count_stroke f.flags f.origin t) no')
          (Agrees-cons t _ f (hs ++ g ∷ []) (map summary_of (groups fs)) h
            (closed (count_stroke f.flags f.origin t) (rw lifts at b)))
    | inr stays ↦
        rw
          (
            stays,
            no_down g (count_stroke f.flags f.origin t) no',
            join-join f hs g [] (groups fs) no',
          )
          (opened t f (hs ++ g ∷ []) h (rw stays at b))
  ]
]

counted : (fs : List StrokeFrame) → Closed fs × Opened fs
counted [] = (
  λ t b. Agrees-nil t,
  λ t f hs h b. Agrees-cons t _ f hs [] h (Agrees-nil (count_stroke f.flags f.origin t)),
)
counted (f ∷ fs) =
    let (closed, opened) = counted fs in
    (Closed-cons f fs closed opened, Opened-cons f fs closed opened)

-- When no frame of a journal lies outside a stroke, the strokes of brushes and the operations on
-- regions that the log counts, by origin, are what counting frame by frame gives.
pub stats-count_frames :
    (s : JournalScan)
    → Bracketed false s.frames
    → (brush_stroke_stats (summarize_strokes s)
        ≡ (count_frames s.frames no_publisher_stats).origins)
      × (region_op_stats (summarize_strokes s)
          ≡ (count_frames s.frames no_publisher_stats).region_ops)
unfolding brush_stroke_stats region_op_stats
stats-count_frames s b =
    let (same, _) = summarize_strokes-groups s in
    let a = (counted s.frames).0 no_publisher_stats b in
    (rw same (sym a.brush), rw same (sym a.region))
