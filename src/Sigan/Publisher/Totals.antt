-- ===== src/Sigan/Publisher/Totals.antt =====
-- The counts of strokes that a publisher keeps, against those of the process log of its journal.
use mari_paint.Prelude.{
  ℕ, suc, ◌^◌, ◌<◌, ◌≡◌, refl, sym, ap, ◌∙◌, Bool, false, not, List, [], ◌∷◌, ◌++◌, arith, length,
  some, if_both, leb,
}
use mari_paint.Core.Errors.{Result, ok, err, map_ok-inverted}
use mari_paint.Sigan.Wire.{IsU64}
use mari_paint.Sigan.Frame.{StrokeFrame}
use mari_paint.Sigan.Journal.Scan.{JournalScan, scan}
use mari_paint.Sigan.Journal.Writer.{Disk, create}
use mari_paint.Sigan.Journal.Crash.{fresh}
use mari_paint.Sigan.Journal.Whole.{frames-add_records, scan-encode_records}
use mari_paint.Sigan.Handshake.{Handshake}
use mari_paint.Sigan.Prooflog.{brush_stroke_stats, region_op_stats, summarize_strokes}
use mari_paint.Sigan.Prooflog.Counted.{count_frames, Bracketed, stats-count_frames}
use mari_paint.Sigan.Publisher.State.{
  Publisher, PublisherStats, StrokeSample, no_publisher_stats, next64, count_stroke, make_frame,
  open_publisher,
}
use mari_paint.Sigan.Publisher.Steps.{
  sent_frame, send, settle, record_frame, publish, end_stroke, count_resent, resend_loop,
  frames_of_backlog, finish_backlog, resend_backlog, answer_to, meet, no_answer, greet,
  connected_or_not, pump, set_sink,
}
use mari_paint.Sigan.Publisher.Publish.{Is64}
use mari_paint.Sigan.Publisher.Run.{
  Call, published, stroke_ended, pumped, sink_set, AllFit, call, run, frames_made, session-Steady,
}
use mari_paint.Sigan.Sink.{Sink}

-- Two counts with the same strokes.
record Same (t t' : PublisherStats) : Type 0 where
  origins : t'.origins ≡ t.origins
  region_ops : t'.region_ops ≡ t.region_ops

Same-refl : {t : PublisherStats} → Same t t
Same-refl = record { origins = refl; region_ops = refl }

Same-trans : {t u v : PublisherStats} → Same t u → Same u v → Same t v
Same-trans a b = record {
  origins = b.origins ∙ a.origins;
  region_ops = b.region_ops ∙ a.region_ops;
}

Same-count :
    (flags origin : ℕ) (t u : PublisherStats)
    → Same t u
    → Same (count_stroke flags origin t) (count_stroke flags origin u)
unfolding count_stroke
Same-count flags origin t u a = record {
  origins = ground (arith, a.origins, a.region_ops);
  region_ops = ground (arith, a.origins, a.region_ops);
}

Same-count_frames :
    (fs : List StrokeFrame) (t u : PublisherStats)
    → Same t u
    → Same (count_frames fs t) (count_frames fs u)
Same-count_frames [] t u a = a
Same-count_frames (f ∷ fs) t u a = Same-count_frames fs _ _ (Same-count f.flags f.origin t u a)

module _ (disk : Disk) (channel : Sink) (to_ms : ℕ → ℕ) where
  open channel use {State, connected, connect, handshake, received}

  -- The strokes counted stay.
  record Quiet (p p' : Publisher State) : Type 0 where
    same : Same p.stats p'.stats

  quiet : {p p' : Publisher State} → Same p.stats p'.stats → Quiet p p'
  quiet s = record { same = s }

  send-Quiet :
      (f : StrokeFrame) (p : Publisher State) → Same p.stats (send disk channel f p).0.stats
  unfolding send sent_frame
  send-Quiet f p = record { origins = ground arith; region_ops = ground arith }

  resend_loop-Quiet :
      (fs : List StrokeFrame) (p : Publisher State)
      → Same p.stats (resend_loop disk channel fs p).stats
  unfolding resend_loop
  resend_loop-Quiet [] p = Same-refl
  resend_loop-Quiet (f ∷ fs) p =
      let one = send-Quiet f p in
      let rest = resend_loop-Quiet fs (count_resent disk channel (send disk channel f p).0) in
      record {
        origins = ground (arith, one.origins, rest.origins);
        region_ops = ground (arith, one.region_ops, rest.region_ops);
      }

  finish_backlog-Quiet :
      (pending : Result (List StrokeFrame)) (p : Publisher State)
      → Same p.stats (finish_backlog disk channel pending p).1.stats
  unfolding finish_backlog settle
  finish_backlog-Quiet (err e) p = Same-refl
  finish_backlog-Quiet (ok fs) p =
      let rest = resend_loop-Quiet fs p in
      record { origins = rest.origins; region_ops = rest.region_ops }

  QuietResult : Publisher State → Result (Unit {0}) × Publisher State → Type 0
  QuietResult p r = Same p.stats r.1.stats

  resend_backlog-Quiet :
      (p : Publisher State) → Same p.stats (resend_backlog disk channel p).1.stats
  unfolding resend_backlog QuietResult
  resend_backlog-Quiet p =
      let (pending, j) = frames_of_backlog disk p.sent_seq p.journal in
      if_both (QuietResult p) (not p.attached) Same-refl (
        if_both (QuietResult p) (not (connected p.sink)) Same-refl (
          if_both (QuietResult p) (leb p.seq p.sent_seq) Same-refl
            (finish_backlog-Quiet pending (record p { journal = j }))))

  answer_to-Quiet :
      (l : Handshake) (r : Result Handshake) (p : Publisher State)
      → Same p.stats (answer_to disk channel l r p).stats
  unfolding answer_to meet no_answer
  answer_to-Quiet l (ok r) p = record { origins = refl; region_ops = refl }
  answer_to-Quiet l (err e) p = record { origins = refl; region_ops = refl }

  greet-Quiet : (p : Publisher State) → Same p.stats (greet disk channel p).stats
  unfolding greet
  greet-Quiet p =
      let a = answer_to-Quiet _ _ _ in record { origins = a.origins; region_ops = a.region_ops }

  connected_or_not-Quiet :
      (r : Result (Unit {0})) (p : Publisher State)
      → Same p.stats (connected_or_not disk channel r p).1.stats
  unfolding connected_or_not
  connected_or_not-Quiet (err e) p = Same-refl
  connected_or_not-Quiet (ok _) p = Same-trans (greet-Quiet p) (resend_backlog-Quiet _)

  pump-Quiet : (p : Publisher State) → Same p.stats (pump disk channel p).1.stats
  unfolding pump QuietResult
  pump-Quiet p = if_both (QuietResult p) (not p.attached) {x = (ok tt, p)} Same-refl (
      if_both (QuietResult p) (not (connected p.sink))
        (connected_or_not-Quiet (connect p.sink).0 (record p { sink = (connect p.sink).1 }))
        (resend_backlog-Quiet (record p { sink = channel.pump p.sink })))

  end_stroke-Quiet : (p : Publisher State) → Same p.stats (end_stroke disk channel p).stats
  unfolding end_stroke
  end_stroke-Quiet p = record { origins = ground arith; region_ops = ground arith }

  -- A sample is counted as its frame is, whatever its number and its time.
  publish-counted :
      (n origin now : ℕ) (s : StrokeSample) (p : Publisher State)
      → Same
          (count_stroke
            (make_frame to_ms n origin now s).0.flags
            (make_frame to_ms n origin now s).0.origin
            p.stats)
          (publish disk channel to_ms now s p).stats
  unfolding publish settle record_frame make_frame count_stroke
  publish-counted n origin now s p =
      let sent =
        send-Quiet (make_frame to_ms (next64 p.seq) p.steady_origin_ns now s).0
          (record_frame disk channel to_ms now s p) in
      record {
        origins = ground (arith, sent.origins, sent.region_ops);
        region_ops = ground (arith, sent.origins, sent.region_ops);
      }

  -- The publisher's counts behind some calls are those of the frames for their samples.
  run-counted :
      (n origin : ℕ) (cs : List Call) (p : Publisher State)
      → Same
          (count_frames (frames_made disk channel to_ms origin n cs) p.stats)
          (run disk channel to_ms cs p).stats
  unfolding run call set_sink
  run-counted n origin [] p = Same-refl
  run-counted n origin (published now s ∷ cs) p =
      Same-trans
        (Same-count_frames (frames_made disk channel to_ms origin (suc n) cs) _ _
          (publish-counted (suc n) origin now s p))
        (run-counted (suc n) origin cs (publish disk channel to_ms now s p))
  run-counted n origin (stroke_ended ∷ cs) p =
      Same-trans
        (Same-count_frames (frames_made disk channel to_ms origin n cs) _ _ (end_stroke-Quiet p))
        (run-counted n origin cs (end_stroke disk channel p))
  run-counted n origin (pumped ∷ cs) p =
      Same-trans (Same-count_frames (frames_made disk channel to_ms origin n cs) _ _ (pump-Quiet p))
        (run-counted n origin cs (pump disk channel p).1)
  run-counted n origin (sink_set b ∷ cs) p = run-counted n origin cs (set_sink disk channel b p)

  opened_stats :
      (sink : State) (app : List ℕ) (session_id origin wall : ℕ) (opens : Bool) (taken : ℕ)
      (p : Publisher State)
      → open_publisher sink false app session_id origin wall (λ id. create opens taken id wall)
        ≡ ok p
      → p.stats ≡ no_publisher_stats
  unfolding open_publisher
  opened_stats sink app session_id origin wall opens taken p made =
      let (j, created, same) = map_ok-inverted _ _ made in
      ap (λ (q : Publisher State). q.stats) (sym same)

  -- Take any fewer than 2^64 calls of the owner of a new publisher, over any stream and any sink
  -- that has received nothing yet, where the fields of samples, the session's id and the wall
  -- clock have their widths and no sample lies outside a stroke. If the journal has not failed at
  -- the end, a scan of its file and buffer succeeds, and the strokes of brushes and the operations
  -- on regions that the process log counts in it, by origin, are what the publisher has counted.
  pub brush_stroke_stats-publisher :
      (cs : List Call) (sink : State) (app : List ℕ) (session_id origin wall : ℕ) (opens : Bool)
      (taken : ℕ) (p : Publisher State)
      → open_publisher sink false app session_id origin wall (λ id. create opens taken id wall)
        ≡ ok p
      → IsU64 p.session_id
      → IsU64 wall
      → Is64 to_ms
      → received sink ≡ []
      → AllFit cs
      → length cs < 2 ^ 64
      → Bracketed false (frames_made disk channel to_ms origin 0 cs)
      → (run disk channel to_ms cs p).journal.failed ≡ false
      → (s : JournalScan) × (scan (
            some (
              (run disk channel to_ms cs p).journal.file
              ++ (run disk channel to_ms cs p).journal.buf))
          ≡ ok s)
        × (brush_stroke_stats (summarize_strokes s) ≡ (run disk channel to_ms cs p).stats.origins)
        × (region_op_stats (summarize_strokes s) ≡ (run disk channel to_ms cs p).stats.region_ops)
  brush_stroke_stats-publisher cs sink app session_id origin wall opens taken p made hs hw h64
        silent fit len strokes fine =
      let (rs, same, st) =
        session-Steady disk channel to_ms cs sink app session_id origin wall opens taken p made hs
          hw h64 silent fit len fine in
      let read =
        ap (λ bytes. scan (some bytes)) st.holds.content
        ∙ scan-encode_records p.session_id wall rs hs hw st.holds.valid in
      let frames = frames-add_records (fresh p.session_id wall) rs ∙ same in
      let (brush, region) = stats-count_frames _ (rw frames strokes) in
      let start = opened_stats sink app session_id origin wall opens taken p made in
      let count = run-counted 0 origin cs p in
      (
        _,
        read,
        brush
            ∙ ap (λ fs. (count_frames fs no_publisher_stats).origins) frames
            ∙ ap (λ t. (count_frames (frames_made disk channel to_ms origin 0 cs) t).origins)
                (sym start)
            ∙ sym count.origins,
        region
            ∙ ap (λ fs. (count_frames fs no_publisher_stats).region_ops) frames
            ∙ ap (λ t. (count_frames (frames_made disk channel to_ms origin 0 cs) t).region_ops)
                (sym start)
            ∙ sym count.region_ops,
      )
