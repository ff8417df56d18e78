-- ===== src/Sigan/Prooflog/Groups.antt =====
-- The strokes that `summarizeStrokes` makes of the frames of a journal, against a description that
-- cuts the frames before every one that sets the pen down and behind every one that lifts it.
use mari_paint.Prelude.{
  suc, ◌+◌, ◌%◌, ◌^◌, ◌≡◌, refl, sym, ap, ◌∙◌, true, false, inl, inr, List, [], ◌∷◌, ◌++◌, map,
  arith, length, length-append, append_assoc, append-nil, Bool-cases, if◌then◌else◌,
}
use mari_paint.Sigan.Frame.{StrokeFrame, has_flag, down, up, eraser, synthetic}
use mari_paint.Sigan.Journal.Scan.{JournalScan}
use mari_paint.Sigan.Prooflog.{
  ProofStrokeSummary, no_summary, begin_summary, extend_summary, summarize_loop, summarize_strokes,
}

-- A stroke as its frames: the first one, and those behind it.
abbrev pub Group : Type 0
Group = StrokeFrame × List StrokeFrame

-- Frames before those of the first stroke: they belong to it, unless it sets the pen down.
abbrev pub join : Group → List Group → List Group
join (f, fs) [] = (f, fs) ∷ []
join (f, fs) ((g, gs) ∷ rest) =
    if has_flag g.flags down then (f, fs) ∷ (g, gs) ∷ rest else (f, fs ++ g ∷ gs) ∷ rest

abbrev pub groups : List StrokeFrame → List Group
groups [] = []
groups (f ∷ fs) =
    let rest = groups fs in if has_flag f.flags up then (f, []) ∷ rest else join (f, []) rest

-- The frames of the strokes, one stroke behind the other.
abbrev pub ungroup : List Group → List StrokeFrame
ungroup [] = []
ungroup ((f, fs) ∷ rest) = f ∷ fs ++ ungroup rest

abbrev pub last_of : StrokeFrame → List StrokeFrame → StrokeFrame
last_of f [] = f
last_of f (g ∷ gs) = last_of g gs

-- What a summary says of a stroke.
abbrev pub summary_of : Group → ProofStrokeSummary
summary_of (f, fs) = record {
  seq_first = f.seq;
  seq_last = (last_of f fs).seq;
  t_start_ms = f.t_ms;
  t_end_ms = (last_of f fs).t_ms;
  layer_id = f.layer_id;
  brush_id = f.brush_id;
  point_count = suc (length fs) % 2 ^ 64;
  is_eraser = has_flag f.flags eraser;
  origin = f.origin;
  agent_id = f.agent_id;
  is_synthetic = has_flag f.flags synthetic;
  x0 = f.cx;
  y0 = f.cy;
  x1 = (last_of f fs).cx;
  y1 = (last_of f fs).cy;
}

last_of-append : (f g : StrokeFrame) (fs : List StrokeFrame) → last_of f (fs ++ g ∷ []) ≡ g
last_of-append f g [] = refl
last_of-append f g (h ∷ fs) = last_of-append h g fs

begin_summary_lem : (f : StrokeFrame) → extend_summary f (begin_summary f) ≡ summary_of (f, [])
unfolding extend_summary begin_summary
begin_summary_lem f = refl

extend_summary_lem :
    (f g : StrokeFrame) (fs : List StrokeFrame)
    → extend_summary g (summary_of (f, fs)) ≡ summary_of (f, fs ++ g ∷ [])
unfolding extend_summary
extend_summary_lem f g fs =
    let n : (suc (length fs) % 2 ^ 64 + 1) % 2 ^ 64 ≡ suc (length (fs ++ g ∷ [])) % 2 ^ 64 =
      omega (arith, length-append fs (g ∷ [])) in
    rw (last_of-append f g fs, n)

-- The first stroke begins with the first frame.
join-head :
    (f : StrokeFrame) (fs : List StrokeFrame) (gs : List Group)
    → (tl : List StrokeFrame) × (rest : List Group) × (join (f, fs) gs ≡ (f, tl) ∷ rest)
join-head f fs [] = (fs, [], refl)
join-head f fs ((g, hs) ∷ rest) = elim (Bool-cases (has_flag g.flags down)) [
  | inl yes' ↦ (fs, (g, hs) ∷ rest, rw yes' refl)
  | inr no' ↦ (fs ++ g ∷ hs, rest, rw no' refl)
]

groups-head :
    (f : StrokeFrame) (fs : List StrokeFrame)
    → (tl : List StrokeFrame) × (rest : List Group) × (groups (f ∷ fs) ≡ (f, tl) ∷ rest)
groups-head f fs = elim (Bool-cases (has_flag f.flags up)) [
  | inl yes' ↦ ([], groups fs, rw yes' refl)
  | inr no' ↦ let (tl, rest, e) = join-head f [] (groups fs) in (tl, rest, rw no' e)
]

pub join-down :
    (g : Group) (f : StrokeFrame) (fs : List StrokeFrame)
    → has_flag f.flags down ≡ true
    → join g (groups (f ∷ fs)) ≡ g ∷ groups (f ∷ fs)
join-down g f fs h =
    let (tl, rest, e) = groups-head f fs in ap (join g) e ∙ first tl rest ∙ ap (g ∷◌) (sym e)
  where
    first :
        (tl : List StrokeFrame) (rest : List Group) → join g ((f, tl) ∷ rest) ≡ g ∷ (f, tl) ∷ rest
    first tl rest = rw h refl

pub join-join :
    (f : StrokeFrame) (fs : List StrokeFrame) (g : StrokeFrame) (hs : List StrokeFrame)
    (gs : List Group)
    → has_flag g.flags down ≡ false
    → join (f, fs) (join (g, hs) gs) ≡ join (f, fs ++ g ∷ hs) gs
join-join f fs g hs [] h = rw h refl
join-join f fs g hs ((k, ks) ∷ rest) h = elim (Bool-cases (has_flag k.flags down)) [
  | inl yes' ↦ rw (yes', h) refl
  | inr no' ↦ rw (no', h) (ap (λ ls. (f, ls) ∷ rest) (sym (append_assoc fs (g ∷ hs) (k ∷ ks))))
]

-- The frames are all there, in their order.
ungroup-join :
    (f : StrokeFrame) (fs : List StrokeFrame) (gs : List Group)
    → ungroup (join (f, fs) gs) ≡ f ∷ fs ++ ungroup gs
ungroup-join f fs [] = refl
ungroup-join f fs ((g, hs) ∷ rest) = elim (Bool-cases (has_flag g.flags down)) [
  | inl yes' ↦ rw yes' refl
  | inr no' ↦ rw no' (ap (f ∷◌) (append_assoc fs (g ∷ hs) (ungroup rest)))
]

ungroup-groups : (fs : List StrokeFrame) → ungroup (groups fs) ≡ fs
ungroup-groups [] = refl
ungroup-groups (f ∷ fs) = elim (Bool-cases (has_flag f.flags up)) [
  | inl yes' ↦ rw yes' (ap (f ∷◌) (ungroup-groups fs))
  | inr no' ↦ rw no' (ungroup-join f [] (groups fs) ∙ ap (f ∷◌) (ungroup-groups fs))
]

-- The loop between two strokes, and inside one.
abbrev Closed : List StrokeFrame → Type 0
Closed fs =
    (cur : ProofStrokeSummary) (out : List ProofStrokeSummary)
    → summarize_loop fs false cur out ≡ out ++ map summary_of (groups fs)

abbrev Opened : List StrokeFrame → Type 0
Opened fs =
    (f : StrokeFrame) (hs : List StrokeFrame) (out : List ProofStrokeSummary)
    → summarize_loop fs true (summary_of (f, hs)) out
      ≡ out ++ map summary_of (join (f, hs) (groups fs))

Closed-cons : (f : StrokeFrame) (fs : List StrokeFrame) → Closed fs → Opened fs → Closed (f ∷ fs)
unfolding summarize_loop
Closed-cons f fs closed opened cur out = elim (Bool-cases (has_flag f.flags up)) [
  | inl yes' ↦
      rw (yes', begin_summary_lem f)
        (closed (summary_of (f, [])) (out ++ summary_of (f, []) ∷ [])
          ∙ append_assoc out (summary_of (f, []) ∷ []) (map summary_of (groups fs)))
  | inr no' ↦ rw (no', begin_summary_lem f) (opened f [] out)
]

summarize_loop-down :
    (g : StrokeFrame) (fs : List StrokeFrame) (cur : ProofStrokeSummary)
    (out : List ProofStrokeSummary)
    → has_flag g.flags down ≡ true
    → summarize_loop (g ∷ fs) true cur out ≡ summarize_loop (g ∷ fs) false cur (out ++ cur ∷ [])
unfolding summarize_loop
summarize_loop-down g fs cur out h = rw h refl

Opened-cons : (g : StrokeFrame) (fs : List StrokeFrame) → Closed fs → Opened fs → Opened (g ∷ fs)
unfolding summarize_loop
Opened-cons g fs closed opened f hs out = elim (Bool-cases (has_flag g.flags down)) [
  | inl yes' ↦
      let cur = summary_of (f, hs) in
      summarize_loop-down g fs cur out yes'
      ∙ Closed-cons g fs closed opened cur (out ++ cur ∷ [])
      ∙ append_assoc out (cur ∷ []) (map summary_of (groups (g ∷ fs)))
      ∙ ap (λ gs. out ++ map summary_of gs) (sym (join-down (f, hs) g fs yes'))
  | inr no' ↦
      let cur = summary_of (f, hs ++ g ∷ []) in
      elim (Bool-cases (has_flag g.flags up)) [
        | inl lifts ↦
            rw (lifts, no', extend_summary_lem f g hs)
              (closed cur (out ++ cur ∷ [])
                ∙ append_assoc out (cur ∷ []) (map summary_of (groups fs)))
        | inr stays ↦
            rw (stays, no', extend_summary_lem f g hs, join-join f hs g [] (groups fs) no')
              (opened f (hs ++ g ∷ []) out)
      ]
]

loop_lem : (fs : List StrokeFrame) → Closed fs × Opened fs
unfolding summarize_loop
loop_lem [] = (λ cur out. sym (append-nil out), λ f hs out. refl)
loop_lem (f ∷ fs) =
    let (closed, opened) = loop_lem fs in
    (Closed-cons f fs closed opened, Opened-cons f fs closed opened)

-- The strokes of a scanned journal are exactly the pieces of its frames that one gets by a cut
-- before every frame that sets the pen down and behind every frame that lifts it: no frame is left
-- out, none is counted twice, and each summary says of its piece the first and the last frame, the
-- number of frames, and the ids, the origin and the flags of the first one.
pub summarize_strokes-groups :
    (s : JournalScan)
    → (summarize_strokes s ≡ map summary_of (groups s.frames))
      × (ungroup (groups s.frames) ≡ s.frames)
unfolding summarize_strokes
summarize_strokes-groups s = ((loop_lem s.frames).0 no_summary [], ungroup-groups s.frames)
