-- ===== src/Sigan/Publisher/Publish.antt =====
-- `publish` and the invariant of a publisher.
use mari_paint.Prelude.{
  ℕ, suc, ◌+◌, ◌^◌, ◌<◌, ◌≡◌, refl, sym, ap, ◌∙◌, true, false, some, List, [], ◌∷◌, ◌++◌, arith,
  length, get_elem?, get_elem?-append-cons, length-append, ◌==◌,
}
use mari_paint.Sigan.Wire.{IsU8, IsU32, IsU64}
use mari_paint.Sigan.Frame.{StrokeFrame, IsWire}
use mari_paint.Sigan.Journal.Records.{Record, frame, bytes_of}
use mari_paint.Sigan.Journal.Writer.{Disk, Journal, append_frame}
use mari_paint.Sigan.Journal.Intact.{Appended, append_frame-Appended}
use mari_paint.Sigan.Journal.Whole.{frames_of, frames_of-append}
use mari_paint.Sigan.Publisher.State.{Publisher, StrokeSample, next64, make_frame}
use mari_paint.Sigan.Publisher.Steps.{send, settle, record_frame}
use mari_paint.Sigan.Publisher.Delivered.{InOrder, Delivered-grow}
use mari_paint.Sigan.Publisher.Backlog.{Holds-write}
use mari_paint.Sigan.Publisher.Steady.{Steady, Steady-stats, send-Tried, send_keeps}
use mari_paint.Sigan.Publisher.Session.{Log, Alive}
use mari_paint.Sigan.Publisher.Pump.{send_clock}
use mari_paint.Sigan.Sink.{Sink}

-- A sample whose fields have the widths of their types.
pub record Fits (s : StrokeSample) : Type 0 where
  pub x : IsU32 s.x
  pub y : IsU32 s.y
  pub pressure : IsU32 s.pressure
  pub tilt_x : IsU32 s.tilt_x
  pub tilt_y : IsU32 s.tilt_y
  pub rotation : IsU32 s.rotation
  pub velocity : IsU32 s.velocity
  pub flags : IsU32 s.flags
  pub origin : IsU8 s.source.origin
  pub digest : IsU32 s.source.agent_id.digest

-- `double` values have 64 bits.
abbrev pub Is64 : (ℕ → ℕ) → Type 0
Is64 to_ms = (n : ℕ) → IsU64 (to_ms n)

-- A frame that is made of a sample of fields of the right widths, with a number and a time of 64
-- bits, has fields of the widths of the wire, also where an id of the sample has more than 32
-- bits.
pub make_frame-IsWire :
    (to_ms : ℕ → ℕ) (seq origin now : ℕ) (s : StrokeSample)
    → Is64 to_ms
    → IsU64 seq
    → Fits s
    → IsWire (make_frame to_ms seq origin now s).0
unfolding make_frame
make_frame-IsWire to_ms seq origin now s h64 hseq h = record {
  seq = hseq;
  t_ms = h64 _;
  cx = h.x;
  cy = h.y;
  pressure = h.pressure;
  tilt_x = h.tilt_x;
  tilt_y = h.tilt_y;
  rotation = h.rotation;
  velocity = h.velocity;
  layer_id = omega arith;
  brush_id = omega arith;
  flags = h.flags;
  origin = h.origin;
  agent_id = h.digest;
}

seq-make_frame :
    (to_ms : ℕ → ℕ) (seq origin now : ℕ) (s : StrokeSample)
    → (make_frame to_ms seq origin now s).0.seq ≡ seq
unfolding make_frame
seq-make_frame to_ms seq origin now s = refl

InOrder-append :
    (n : ℕ) (fs : List StrokeFrame) (f : StrokeFrame)
    → InOrder n fs
    → f.seq ≡ suc (n + length fs)
    → InOrder n (fs ++ f ∷ [])
InOrder-append n [] f o e = (omega arith, tt)
InOrder-append n (g ∷ fs) f (h, o) e = (h, InOrder-append (suc n) fs f o (omega arith))

module _ (session_id wall_anchor : ℕ) (disk : Disk) (channel : Sink) (hs : IsU64 session_id)
    (hw : IsU64 wall_anchor) where
  open channel use {State, connected, connect}

  pub settle-Alive :
      (k : ℕ) {log : Log} (p : Publisher State)
      → Alive session_id wall_anchor disk channel k log p
      → Alive session_id wall_anchor disk channel k log (settle disk channel p)
  unfolding settle
  settle-Alive k p a = record {
    opened = a.opened;
    room = a.room;
    numbered = a.numbered;
    clock = a.clock;
    steady = λ fine.
        let (rs, e', s) = a.steady fine in
        (rs, e', Steady-stats session_id wall_anchor channel rs p _ s);
  }

  -- A new frame: it is in the journal, behind all others.
  module _ (to_ms : ℕ → ℕ) (h64 : Is64 to_ms) where
    abbrev pub new_frame : ℕ → StrokeSample → Publisher State → StrokeFrame
    new_frame now s p = (make_frame to_ms (next64 p.seq) p.steady_origin_ns now s).0

    record_frame-Steady :
        (k now : ℕ) (s : StrokeSample) (rs : List Record) (p : Publisher State)
        → Fits s
        → p.seq + suc k < 2 ^ 64
        → (record_frame disk channel to_ms now s p).journal.failed ≡ false
        → Steady session_id wall_anchor channel rs p
        → Steady session_id wall_anchor channel
            (rs ++ frame (new_frame now s p) ∷ [])
            (record_frame disk channel to_ms now s p)
    unfolding record_frame
    record_frame-Steady k now s rs p fit room fine st = record {
      holds =
          Holds-write session_id wall_anchor (frame (new_frame now s p))
            (make_frame-IsWire to_ms (next64 p.seq) p.steady_origin_ns now s h64 (omega arith) fit)
            (append_frame-Appended disk (new_frame now s p) p.journal st.holds.opened).writes fine
            st.holds;
      order = rw grown (
          InOrder-append 0 (frames_of rs) (new_frame now s p) st.order (
            omega (arith, seq-make_frame to_ms (next64 p.seq) p.steady_origin_ns now s, st.count)));
      count =
          rw grown (omega (arith, length-append (frames_of rs) (new_frame now s p ∷ []), st.count));
      sent_le = omega (arith, st.sent_le);
      delivered = rw grown (Delivered-grow channel (new_frame now s p ∷ []) st.delivered);
    }
      where
        grown :
            frames_of (rs ++ frame (new_frame now s p) ∷ [])
            ≡ frames_of rs ++ new_frame now s p ∷ []
        grown = frames_of-append rs (frame (new_frame now s p) ∷ [])

    record_frame_kept :
        (now : ℕ) (s : StrokeSample) (p : Publisher State)
        → p.journal.is_open ≡ true
        → Appended disk
            (bytes_of (frame (new_frame now s p)))
            p.journal
            (record_frame disk channel to_ms now s p).journal
            (append_frame disk (new_frame now s p) p.journal).1
    unfolding record_frame
    record_frame_kept now s p h = append_frame-Appended disk (new_frame now s p) p.journal h

    record_frame_numbers :
        (now : ℕ) (s : StrokeSample) (p : Publisher State)
        → ((record_frame disk channel to_ms now s p).seq ≡ next64 p.seq)
          × ((record_frame disk channel to_ms now s p).sent_seq ≡ p.sent_seq)
          × ((record_frame disk channel to_ms now s p).steady_origin_ns ≡ p.steady_origin_ns)
    unfolding record_frame
    record_frame_numbers now s p = (refl, refl, refl)

    -- The log behind one more frame.
    abbrev pub logged : StrokeFrame → Log → Log
    logged f log = record log { frames = log.frames ++ f ∷ [] }

    grown_frames :
        (rs : List Record) (f : StrokeFrame) {fs : List StrokeFrame}
        → frames_of rs ≡ fs
        → frames_of (rs ++ frame f ∷ []) ≡ fs ++ f ∷ []
    grown_frames rs f e = frames_of-append rs (frame f ∷ []) ∙ ap (◌++ f ∷ []) e

    pub record_frame-Alive :
        (k now : ℕ) {log : Log} (s : StrokeSample) (p : Publisher State)
        → Fits s
        → Alive session_id wall_anchor disk channel (suc k) log p
        → Alive session_id wall_anchor disk channel k
            (logged (new_frame now s p) log)
            (record_frame disk channel to_ms now s p)
    record_frame-Alive k now {log} s p fit a = record {
      opened = (record_frame_kept now s p a.opened).writes.still_open ∙ a.opened;
      room = omega (arith, a.room, record_frame_numbers now s p);
      numbered = omega (
        arith,
        a.room,
        a.numbered,
        record_frame_numbers now s p,
        length-append log.frames (new_frame now s p ∷ []),
      );
      clock = (record_frame_numbers now s p).2 ∙ a.clock;
      steady = λ fine.
          let w = (record_frame_kept now s p a.opened).writes in
          let (rs, e', st) = a.steady (ground (arith, w, fine)) in
          (
            _,
            grown_frames rs (new_frame now s p) e',
            record_frame-Steady k now s rs p fit a.room fine st,
          );
    }

    -- `publish` sends the frame itself only if it is the next one for the sink.
    pub publish_send-Alive :
        (k now : ℕ) {log : Log} (s : StrokeSample) (p : Publisher State)
        → Fits s
        → Alive session_id wall_anchor disk channel (suc k) log p
        → (next64 p.sent_seq == next64 p.seq) ≡ true
        → Alive session_id wall_anchor disk channel k
            (logged (new_frame now s p) log)
            (send disk channel (new_frame now s p) (record_frame disk channel to_ms now s p)).0
    unfolding record_frame
    publish_send-Alive k now {log} s p fit a e = record {
      opened =
          ap (λ (j : Journal). j.is_open)
            (send_keeps session_id wall_anchor channel disk (new_frame now s p) old).0
          ∙ b.opened;
      room = rw (send_keeps session_id wall_anchor channel disk (new_frame now s p) old).1 b.room;
      numbered =
          (send_keeps session_id wall_anchor channel disk (new_frame now s p) old).1 ∙ b.numbered;
      clock =
          send_clock session_id wall_anchor disk channel hs hw (new_frame now s p) old ∙ b.clock;
      steady = λ fine.
          let fine_old =
            sym (
              ap (λ (j : Journal). j.failed)
                (send_keeps session_id wall_anchor channel disk (new_frame now s p) old).0)
            ∙ fine in
          let w = (record_frame_kept now s p a.opened).writes in
          let (rs, e', st) = a.steady (ground (arith, w, fine_old)) in
          let last : p.sent_seq ≡ length (frames_of rs) =
            ground (arith, e, st.sent_le, st.count, a.room) in
          let at : get_elem? (frames_of (rs ++ frame (new_frame now s p) ∷ [])) p.sent_seq
              ≡ some (new_frame now s p) =
            rw (frames_of-append rs (frame (new_frame now s p) ∷ []), last)
              (get_elem?-append-cons (frames_of rs) [] (new_frame now s p)) in
          (
            _,
            grown_frames rs (new_frame now s p) e',
            (send-Tried session_id wall_anchor channel disk (rs ++ frame (new_frame now s p) ∷ [])
                (new_frame now s p) old at
                (record_frame-Steady k now s rs p fit a.room fine_old st)).steady,
          );
    }
      where
        old : Publisher State
        old = record_frame disk channel to_ms now s p

        b : Alive session_id wall_anchor disk channel k (logged (new_frame now s p) log) old
        b = record_frame-Alive k now s p fit a
