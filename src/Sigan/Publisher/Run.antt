-- ===== src/Sigan/Publisher/Run.antt =====
-- A session of the publisher: the calls of its owner in any order, over any stream and any channel,
-- and what the other side has been given at the end of it.
use mari_paint.Prelude.{
  ℕ, suc, ◌^◌, ◌<◌, ◌≡◌, refl, sym, ◌∙◌, inl, inr, Bool, true, false, List, [], ◌∷◌, ◌++◌, arith,
  length, Bool-cases, ◌&&◌, ◌==◌, append-nil, subst, ap, append_assoc, length-append,
}
use mari_paint.Core.Errors.{ok, map_ok-inverted}
use mari_paint.Sigan.Wire.{IsU64}
use mari_paint.Sigan.Journal.Records.{Record, encode_records}
use mari_paint.Sigan.Frame.{StrokeFrame}
use mari_paint.Sigan.Journal.Whole.{frames_of}
use mari_paint.Sigan.Journal.Writer.{Disk, Journal, create, journal_header}
use mari_paint.Sigan.Publisher.State.{Publisher, StrokeSample, next64, open_publisher, make_frame}
use mari_paint.Sigan.Publisher.Steps.{record_frame, publish, end_stroke, pump, set_sink}
use mari_paint.Sigan.Publisher.Steady.{Steady}
use mari_paint.Sigan.Publisher.Session.{Log, Alive, end_stroke-Alive, set_sink-Alive}
use mari_paint.Sigan.Publisher.Pump.{pump-Alive}
use mari_paint.Sigan.Publisher.Publish.{
  Fits, Is64, publish_send-Alive, record_frame-Alive, settle-Alive,
}
use mari_paint.Sigan.Sink.{Sink}

-- A call of the publisher's owner; a sample comes with the clock's reading.
pub data Call : Type 0 where
  published : ℕ → StrokeSample → Call
  stroke_ended pumped : Call
  sink_set : Bool → Call

-- Every sample has fields of the widths of their types.
abbrev pub AllFit : List Call → Type 0
AllFit [] = Unit
AllFit (published now s ∷ cs) = Fits s × AllFit cs
AllFit (_ ∷ cs) = AllFit cs

and_right : (a b c : Bool) → (a && b && c) ≡ true → c ≡ true
and_right a b c h = ground arith

module _ (disk : Disk) (channel : Sink) (to_ms : ℕ → ℕ) where
  open channel use {State, connected, received}

  unfoldable pub call : Call → Publisher State → Publisher State
  call (published now s) p = publish disk channel to_ms now s p
  call stroke_ended p = end_stroke disk channel p
  call pumped p = (pump disk channel p).1
  call (sink_set b) p = set_sink disk channel b p

  unfoldable pub run : List Call → Publisher State → Publisher State
  unfolding call
  run [] p = p
  run (c ∷ cs) p = run cs (call c p)

  -- The frames for the samples of some calls, numbered from the one behind `n` on.
  abbrev pub frames_made : ℕ → ℕ → List Call → List StrokeFrame
  frames_made origin n [] = []
  frames_made origin n (published now s ∷ cs) =
      (make_frame to_ms (suc n) origin now s).0 ∷ frames_made origin (suc n) cs
  frames_made origin n (_ ∷ cs) = frames_made origin n cs

  -- The log behind some calls.
  abbrev pub log_behind : List Call → Log → Log
  log_behind cs log = record log {
    frames = log.frames ++ frames_made log.origin_ns (length log.frames) cs;
  }

  abbrev pub frame_for : Log → ℕ → StrokeSample → StrokeFrame
  frame_for log now s = (make_frame to_ms (suc (length log.frames)) log.origin_ns now s).0

  pub log_behind-published :
      (now : ℕ) (s : StrokeSample) (cs : List Call) (log : Log)
      → log_behind cs (record log { frames = log.frames ++ frame_for log now s ∷ [] })
        ≡ log_behind (published now s ∷ cs) log
  log_behind-published now s cs log =
      let n : length (log.frames ++ frame_for log now s ∷ []) ≡ suc (length log.frames) =
        omega (arith, length-append log.frames (frame_for log now s ∷ [])) in
      rw n (
        ap (λ fs. record log { frames = fs })
          (append_assoc log.frames (frame_for log now s ∷ [])
            (frames_made log.origin_ns (suc (length log.frames)) cs)))

  pub log_behind-quiet : (log : Log) → record log { frames = log.frames ++ [] } ≡ log
  log_behind-quiet log = ap (λ fs. record log { frames = fs }) (append-nil log.frames)

  module _ (session_id wall_anchor : ℕ) (hs : IsU64 session_id) (hw : IsU64 wall_anchor)
      (h64 : Is64 to_ms) where
    publish_as_made :
        (k now : ℕ) {log : Log} (s : StrokeSample) (p : Publisher State)
        → Fits s
        → Alive session_id wall_anchor disk channel (suc k) log p
        → Alive session_id wall_anchor disk channel k
            (record log {
              frames =
                  log.frames ++ (make_frame to_ms (next64 p.seq) p.steady_origin_ns now s).0 ∷ [];
            })
            (publish disk channel to_ms now s p)
    unfolding publish record_frame
    publish_as_made k now s p fit a =
        elim (Bool-cases (p.attached && connected p.sink && next64 p.sent_seq == next64 p.seq)) [
          | inl yes' ↦ rw yes' (
              settle-Alive session_id wall_anchor disk channel hs hw k _ (
                publish_send-Alive session_id wall_anchor disk channel hs hw to_ms h64 k now s p fit
                  a (and_right p.attached (connected p.sink) _ yes')))
          | inr no' ↦ rw no' (
              settle-Alive session_id wall_anchor disk channel hs hw k _ (
                record_frame-Alive session_id wall_anchor disk channel hs hw to_ms h64 k now s p fit
                  a))
        ]

    pub publish-Alive :
        (k now : ℕ) {log : Log} (s : StrokeSample) (p : Publisher State)
        → Fits s
        → Alive session_id wall_anchor disk channel (suc k) log p
        → Alive session_id wall_anchor disk channel k
            (record log { frames = log.frames ++ frame_for log now s ∷ [] })
            (publish disk channel to_ms now s p)
    publish-Alive k now {log} s p fit a =
        let n : next64 p.seq ≡ suc (length log.frames) = omega (arith, a.room, a.numbered) in
        subst
          (λ f.
            Alive session_id wall_anchor disk channel k
              (record log { frames = log.frames ++ f ∷ [] }) (publish disk channel to_ms now s p))
          (λ i. (make_frame to_ms (n i) (a.clock i) now s).0) (publish_as_made k now s p fit a)

    pub weaker :
        (k : ℕ) {log : Log} (p : Publisher State)
        → Alive session_id wall_anchor disk channel (suc k) log p
        → Alive session_id wall_anchor disk channel k log p
    weaker k p a = record {
      opened = a.opened;
      room = omega (arith, a.room);
      numbered = a.numbered;
      clock = a.clock;
      steady = a.steady;
    }

    run-Alive :
        (cs : List Call) {log : Log} (p : Publisher State)
        → AllFit cs
        → Alive session_id wall_anchor disk channel (length cs) log p
        → Alive session_id wall_anchor disk channel 0 (log_behind cs log) (run cs p)
    unfolding run
    run-Alive [] {log} p fit a =
        subst (λ g. Alive session_id wall_anchor disk channel 0 g p) (sym (log_behind-quiet log)) a
    run-Alive (published now s ∷ cs) {log} p (f, fit) a =
        subst (λ g. Alive session_id wall_anchor disk channel 0 g (run (published now s ∷ cs) p))
          (log_behind-published now s cs log)
          (run-Alive cs _ fit (publish-Alive (length cs) now s p f a))
    run-Alive (stroke_ended ∷ cs) p fit a =
        run-Alive cs _ fit
          (end_stroke-Alive session_id wall_anchor disk channel (length cs) p (weaker _ p a))
    run-Alive (pumped ∷ cs) p fit a =
        run-Alive cs _ fit
          (pump-Alive session_id wall_anchor disk channel hs hw (length cs) p (weaker _ p a))
    run-Alive (sink_set b ∷ cs) p fit a =
        run-Alive cs _ fit
          (set_sink-Alive session_id wall_anchor disk channel (length cs) b p (weaker _ p a))

  created :
      (opens : Bool) (taken session_id wall : ℕ) (j : Journal)
      → create opens taken session_id wall ≡ ok j
      → (j.is_open ≡ true) × (j.file ++ j.buf ≡ journal_header session_id wall)
  unfolding create
  created opens taken session_id wall j made =
      ground (arith, append-nil (journal_header session_id wall))

  opened-Alive :
      (k wall : ℕ) (p : Publisher State) (opens : Bool) (taken : ℕ)
      → k < 2 ^ 64
      → create opens taken p.session_id wall ≡ ok p.journal
      → p.seq ≡ 0
      → p.sent_seq ≡ 0
      → received p.sink ≡ []
      → Alive p.session_id wall disk channel k
          (record { origin_ns = p.steady_origin_ns; frames = [] })
          p
  unfolding encode_records
  opened-Alive k wall p opens taken lt made none nothing silent =
      let (opened, content) = created opens taken p.session_id wall p.journal made in
      record {
        opened = opened;
        room = omega arith;
        numbered = none;
        clock = refl;
        steady = λ _. (
          [],
          refl,
          record {
            holds = record {
              opened = opened;
              content = content ∙ sym (append-nil (journal_header p.session_id wall));
              valid = tt;
            };
            order = tt;
            count = sym none;
            sent_le = omega arith;
            delivered = record {
              ws = [];
              bytes = silent;
              gapless = tt;
              from_journal = tt;
              reached = omega arith;
            };
          },
        );
      }

  -- A new publisher.
  pub opened_session-Alive :
      (k : ℕ) (sink : State) (app : List ℕ) (session_id origin wall : ℕ) (opens : Bool) (taken : ℕ)
      (p : Publisher State)
      → open_publisher sink false app session_id origin wall (λ id. create opens taken id wall)
        ≡ ok p
      → k < 2 ^ 64
      → received sink ≡ []
      → Alive p.session_id wall disk channel k (record { origin_ns = origin; frames = [] }) p
  unfolding open_publisher
  opened_session-Alive k sink app session_id origin wall opens taken p made len silent =
      let (j, created', same) = map_ok-inverted _ _ made in
      subst
        (λ (q : Publisher State).
          Alive q.session_id wall disk channel k (record { origin_ns = origin; frames = [] }) q)
        same (opened-Alive k wall _ opens taken len created' refl refl silent)

  pub session-Alive :
      (cs : List Call) (sink : State) (app : List ℕ) (session_id origin wall : ℕ) (opens : Bool)
      (taken : ℕ) (p : Publisher State)
      → open_publisher sink false app session_id origin wall (λ id. create opens taken id wall)
        ≡ ok p
      → IsU64 p.session_id
      → IsU64 wall
      → Is64 to_ms
      → received sink ≡ []
      → AllFit cs
      → length cs < 2 ^ 64
      → Alive p.session_id wall disk channel 0
          (record { origin_ns = origin; frames = frames_made origin 0 cs })
          (run cs p)
  session-Alive cs sink app session_id origin wall opens taken p made hs hw h64 silent fit len =
      run-Alive p.session_id wall hs hw h64 cs p fit (
        opened_session-Alive (length cs) sink app session_id origin wall opens taken p made len
          silent)

  pub session-Steady :
      (cs : List Call) (sink : State) (app : List ℕ) (session_id origin wall : ℕ) (opens : Bool)
      (taken : ℕ) (p : Publisher State)
      → open_publisher sink false app session_id origin wall (λ id. create opens taken id wall)
        ≡ ok p
      → IsU64 p.session_id
      → IsU64 wall
      → Is64 to_ms
      → received sink ≡ []
      → AllFit cs
      → length cs < 2 ^ 64
      → (run cs p).journal.failed ≡ false
      → (rs : List Record) × (frames_of rs ≡ frames_made origin 0 cs)
        × Steady p.session_id wall channel rs (run cs p)
  session-Steady cs sink app session_id origin wall opens taken p made hs hw h64 silent fit len =
      (session-Alive cs sink app session_id origin wall opens taken p made hs hw h64 silent fit
        len).steady
