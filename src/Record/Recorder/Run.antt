-- ===== src/Record/Recorder/Run.antt =====
-- Any calls of a recorder, and what its journal holds behind them.
use mari_paint.Prelude.{
  ℕ, suc, ◌^◌, ◌<◌, ◌≡◌, sym, ap, ◌∙◌, inl, inr, Bool, false, List, [], ◌∷◌, ◌++◌, length,
  Bool-cases, if◌then◌else◌, if_both, subst,
}
use mari_paint.Prelude.Int.{ℤ}
use mari_paint.Core.Errors.{ok, ok-injective}
use mari_paint.Core.Geometry.{is_empty}
use mari_paint.Core.Origin.{StrokeSource}
use mari_paint.Sigan.Wire.{IsU64}
use mari_paint.Sigan.Journal.Records.{Record}
use mari_paint.Sigan.Journal.Writer.{Disk, create}
use mari_paint.Sigan.Journal.Whole.{frames_of}
use mari_paint.Sigan.Sink.{Sink}
use mari_paint.Sigan.Publisher.State.{StrokeSample, Publisher, open_publisher}
use mari_paint.Sigan.Publisher.Steps.{pump, set_sink}
use mari_paint.Sigan.Publisher.Steady.{Steady}
use mari_paint.Sigan.Publisher.Session.{Log, Alive, end_stroke-Alive, note-Alive, set_sink-Alive}
use mari_paint.Sigan.Publisher.Pump.{pump-Alive}
use mari_paint.Sigan.Publisher.Publish.{Fits, Is64}
use mari_paint.Sigan.Publisher.Run.{
  published, stroke_ended, AllFit, frames_made, log_behind, frame_for, log_behind-published,
  log_behind-quiet, publish-Alive, weaker, opened_session-Alive,
}
use mari_paint.Record.Recorder.{
  StrokePointRecord, RegionOpRecord, Recorder, sample_of, region_note, open_recorder,
  on_stroke_point, on_stroke_end, record_region, pump_recorder,
}
use mari_paint.Record.Recorder.Calls.{
  RecorderCall, point, ended, region, flushed, recorder_call, recorder_run, first_corner,
  last_corner, due, check_publisher, run_broken, region_publisher, region_refused,
}

module _ (disk : Disk) (channel : Sink) (to_ms : ℕ → ℕ) (to_f32 : ℤ → ℕ) where
  open channel use {State, received}

  module _ (session_id wall_anchor : ℕ) (hs : IsU64 session_id) (hw : IsU64 wall_anchor)
      (h64 : Is64 to_ms) where
    abbrev AliveAt : ℕ → Log → Publisher State → Type 0
    AliveAt = Alive session_id wall_anchor disk channel

    -- The log behind one more sample.
    abbrev behind : ℕ → StrokeSample → Log → Log
    behind now s log = record log {
      frames = log.frames ++ frame_for disk channel to_ms log now s ∷ [];
    }

    record_region-Alive :
        (k now now' : ℕ) {log : Log} (src : StrokeSource) (op : RegionOpRecord)
        (p : Publisher State)
        → Fits (first_corner disk channel to_ms to_f32 src op)
        → Fits (last_corner disk channel to_ms to_f32 src op)
        → AliveAt (suc (suc (suc k))) log p
        → AliveAt k
            (behind now'
              (last_corner disk channel to_ms to_f32 src op)
              (behind now (first_corner disk channel to_ms to_f32 src op) log))
            (record_region disk channel to_ms to_f32 now now' src op p)
    unfolding record_region
    record_region-Alive k now now' src op p fa fb a =
        note-Alive session_id wall_anchor disk channel k (region_note op) _ (
          weaker disk channel to_ms session_id wall_anchor hs hw h64 k _ (
            end_stroke-Alive session_id wall_anchor disk channel (suc k) _ (
              publish-Alive disk channel to_ms session_id wall_anchor hs hw h64 (suc k) now' _ _ fb
                (publish-Alive disk channel to_ms session_id wall_anchor hs hw h64 (suc (suc k)) now
                  _ p fa a))))

    on_stroke_point-Alive :
        (k now : ℕ) {log : Log} (src : StrokeSource) (pt : StrokePointRecord) (r : Recorder State)
        → Fits (sample_of src pt)
        → AliveAt (suc k) log r.publisher
        → AliveAt k
            (behind now (sample_of src pt) log)
            (on_stroke_point disk channel to_ms to_f32 now src pt r).publisher
    unfolding on_stroke_point
    on_stroke_point-Alive k now src pt r fit a =
        subst (AliveAt k _) (sym (check_publisher disk channel to_ms to_f32 _)) (
          publish-Alive disk channel to_ms session_id wall_anchor hs hw h64 k now _ r.publisher fit
            a)

    on_stroke_end-Alive :
        (k : ℕ) {log : Log} (src : StrokeSource) (n : ℕ) (r : Recorder State)
        → AliveAt (suc k) log r.publisher
        → AliveAt k log (on_stroke_end disk channel to_ms to_f32 src n r).publisher
    unfolding on_stroke_end
    on_stroke_end-Alive k src n r a =
        subst (AliveAt k _) (sym (check_publisher disk channel to_ms to_f32 _)) (
          end_stroke-Alive session_id wall_anchor disk channel k _
            (weaker disk channel to_ms session_id wall_anchor hs hw h64 k _ a))

    -- What holds behind the calls: `Goal` at the due calls and the recorder.
    abbrev Goal : List RecorderCall → Log → Recorder State → Type 0
    Goal cs log r =
        AliveAt 0 (log_behind disk channel to_ms (due disk channel to_ms to_f32 cs) log)
          (recorder_run disk channel to_ms to_f32 cs r).publisher

    -- The calls behind a region, taken as known.
    abbrev Rest : List RecorderCall → Recorder State → Type 0
    Rest cs r =
        (log : Log)
        → AllFit (due disk channel to_ms to_f32 cs)
        → (recorder_run disk channel to_ms to_f32 cs r).broken ≡ false
        → AliveAt (length (due disk channel to_ms to_f32 cs)) log r.publisher
        → Goal cs log r

    region_taken-Alive :
        (now now' : ℕ) (src : StrokeSource) (op : RegionOpRecord) (cs : List RecorderCall)
        (r : Recorder State) (log : Log)
        → is_empty op.area ≡ false
        → r.broken ≡ false
        → Rest cs (recorder_call disk channel to_ms to_f32 (region now now' src op) r)
        → Fits (first_corner disk channel to_ms to_f32 src op)
        → Fits (last_corner disk channel to_ms to_f32 src op)
        → AllFit (due disk channel to_ms to_f32 cs)
        → (recorder_run disk channel to_ms to_f32 (region now now' src op ∷ cs) r).broken ≡ false
        → AliveAt (suc (suc (suc (length (due disk channel to_ms to_f32 cs))))) log r.publisher
        → AliveAt 0
            (log_behind disk channel to_ms
              (published now (first_corner disk channel to_ms to_f32 src op)
                ∷ published now' (last_corner disk channel to_ms to_f32 src op)
                ∷ stroke_ended
                ∷ due disk channel to_ms to_f32 cs)
              log)
            (recorder_run disk channel to_ms to_f32 (region now now' src op ∷ cs) r).publisher
    unfolding recorder_run recorder_call
    region_taken-Alive now now' src op cs r log e b rest fa fb fit fine a =
        let a' =
          record_region-Alive (length (due disk channel to_ms to_f32 cs)) now now' src op
            r.publisher fa fb a in
        let here =
          subst (AliveAt _ _)
            (sym (region_publisher disk channel to_ms to_f32 now now' src op r e b)) a' in
        subst
          (λ g.
            AliveAt 0 g
              (recorder_run disk channel to_ms to_f32 (region now now' src op ∷ cs) r).publisher)
          (log_behind-published disk channel to_ms now'
              (last_corner disk channel to_ms to_f32 src op) (due disk channel to_ms to_f32 cs)
              (behind now (first_corner disk channel to_ms to_f32 src op) log)
            ∙ log_behind-published disk channel to_ms now
                (first_corner disk channel to_ms to_f32 src op)
                (published now' (last_corner disk channel to_ms to_f32 src op)
                  ∷ due disk channel to_ms to_f32 cs)
                log)
          (rest _ fit fine here)

    -- A region is refused if it is empty, and else taken by a recorder that is not broken.
    region-Alive :
        (now now' : ℕ) (src : StrokeSource) (op : RegionOpRecord) (cs : List RecorderCall)
        (r : Recorder State) (log : Log)
        → Rest cs (recorder_call disk channel to_ms to_f32 (region now now' src op) r)
        → AllFit (due disk channel to_ms to_f32 (region now now' src op ∷ cs))
        → (recorder_run disk channel to_ms to_f32 (region now now' src op ∷ cs) r).broken ≡ false
        → AliveAt
            (length (due disk channel to_ms to_f32 (region now now' src op ∷ cs)))
            log
            r.publisher
        → Goal (region now now' src op ∷ cs) log r
    unfolding recorder_run recorder_call
    region-Alive now now' src op cs r log rest fit fine a = elim (Bool-cases (is_empty op.area)) [
      | inl none' ↦
          let same = region_refused disk channel to_ms to_f32 now now' src op r none' in
          rw none' (
            rest log (rw none' at fit) fine (
              subst
                (λ (q : Recorder State).
                  AliveAt (length (due disk channel to_ms to_f32 cs)) log q.publisher)
                (sym same) (rw none' at a)))
      | inr some' ↦
          let b = run_broken disk channel to_ms to_f32 (region now now' src op ∷ cs) r fine in
          let (fa, (fb, fit')) = rw some' at fit in
          rw some' (
            region_taken-Alive now now' src op cs r log some' b rest fa fb fit' fine
              (rw some' at a))
    ]

    run-Alive :
        (cs : List RecorderCall) (r : Recorder State) (log : Log)
        → AllFit (due disk channel to_ms to_f32 cs)
        → (recorder_run disk channel to_ms to_f32 cs r).broken ≡ false
        → AliveAt (length (due disk channel to_ms to_f32 cs)) log r.publisher
        → Goal cs log r
    unfolding recorder_run recorder_call pump_recorder
    run-Alive [] r log fit fine a =
        subst (λ g. AliveAt 0 g r.publisher) (sym (log_behind-quiet disk channel to_ms log)) a
    run-Alive (point now src pt ∷ cs) r log (f, fit) fine a =
        subst
          (λ g.
            AliveAt 0 g
              (recorder_run disk channel to_ms to_f32 (point now src pt ∷ cs) r).publisher)
          (log_behind-published disk channel to_ms now (sample_of src pt)
            (due disk channel to_ms to_f32 cs) log)
          (run-Alive cs _ _ fit fine (on_stroke_point-Alive _ now src pt r f a))
    run-Alive (ended src n ∷ cs) r log fit fine a =
        run-Alive cs _ log fit fine (on_stroke_end-Alive _ src n r a)
    run-Alive (flushed ∷ cs) r log fit fine a = run-Alive cs _ log fit fine (
        pump-Alive session_id wall_anchor disk channel hs hw
          (length (due disk channel to_ms to_f32 cs)) r.publisher
          (weaker disk channel to_ms session_id wall_anchor hs hw h64 _ _ a))
    run-Alive (region now now' src op ∷ cs) r log fit fine a =
        region-Alive now now' src op cs r log (run-Alive cs _) fit fine a

  opened_recorder :
      (has_sink : Bool) (p : Publisher State) (r : Recorder State)
      → open_recorder disk channel to_ms to_f32 has_sink (ok p) ≡ ok r
      → r.publisher ≡ (
          if has_sink
          then (pump disk channel (set_sink disk channel has_sink p)).1
          else set_sink disk channel has_sink p)
  unfolding open_recorder
  opened_recorder has_sink p r e = ap (λ (q : Recorder State). q.publisher) (sym (ok-injective e))

  pub recorder_run-Steady :
      (cs : List RecorderCall) (has_sink : Bool) (sink : State) (app : List ℕ)
      (session_id origin wall : ℕ) (opens : Bool) (taken : ℕ) (p : Publisher State)
      (r : Recorder State)
      → open_publisher sink false app session_id origin wall (λ id. create opens taken id wall)
        ≡ ok p
      → open_recorder disk channel to_ms to_f32 has_sink (ok p) ≡ ok r
      → IsU64 p.session_id
      → IsU64 wall
      → Is64 to_ms
      → received sink ≡ []
      → AllFit (due disk channel to_ms to_f32 cs)
      → length (due disk channel to_ms to_f32 cs) < 2 ^ 64
      → (recorder_run disk channel to_ms to_f32 cs r).broken ≡ false
      → (recorder_run disk channel to_ms to_f32 cs r).publisher.journal.failed ≡ false
      → (rs : List Record) × (frames_of rs
          ≡ frames_made disk channel to_ms origin 0 (due disk channel to_ms to_f32 cs))
        × Steady p.session_id wall channel rs
            (recorder_run disk channel to_ms to_f32 cs r).publisher
  recorder_run-Steady cs has_sink sink app session_id origin wall opens taken p r made opened hs hw
        h64 silent fit len sound fine =
      let fresh =
        opened_session-Alive disk channel to_ms (length (due disk channel to_ms to_f32 cs)) sink app
          session_id origin wall opens taken p made len silent in
      let set =
        set_sink-Alive p.session_id wall disk channel (length (due disk channel to_ms to_f32 cs))
          has_sink p fresh in
      let start =
        subst (Alive p.session_id wall disk channel (length (due disk channel to_ms to_f32 cs)) _)
          (sym (opened_recorder has_sink p r opened))
          (if_both
            (Alive p.session_id wall disk channel (length (due disk channel to_ms to_f32 cs)) _)
            has_sink
            (pump-Alive p.session_id wall disk channel hs hw
              (length (due disk channel to_ms to_f32 cs)) _ set)
            set) in
      (run-Alive p.session_id wall hs hw h64 cs r _ fit sound start).steady fine
