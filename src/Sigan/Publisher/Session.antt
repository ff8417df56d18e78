-- ===== src/Sigan/Publisher/Session.antt =====
-- A session of the publisher: the calls of its owner in any order, over any stream and any channel.
use mari_paint.Prelude.{
  ℕ, ◌+◌, ◌-◌, ◌^◌, ◌≤◌, ◌<◌, ◌≡◌, refl, ap, ◌∙◌, inl, inr, Bool, true, false, List, [], ◌∷◌, ◌++◌,
  arith, length, length-take, if◌then◌else◌, Bool-cases, ltb, append-nil, ◌&&◌,
}
use mari_paint.Core.Errors.{Result, ok, err}
use mari_paint.Sigan.Frame.{StrokeFrame}
use mari_paint.Sigan.Journal.Records.{Record, stroke_end, note, IsValid, bytes_of}
use mari_paint.Sigan.Journal.Writer.{Disk, Journal, append_note, mark_stroke_end}
use mari_paint.Sigan.Journal.Intact.{Writes, stored, mark_stroke_end-Appended, append_note-Appended}
use mari_paint.Sigan.Journal.Whole.{frames_of, frames_of-append}
use mari_paint.Sigan.Handshake.{Handshake, Negotiated}
use mari_paint.Sigan.Publisher.State.{Publisher, PublisherStats, local_handshake}
use mari_paint.Sigan.Publisher.Steps.{end_stroke, answer_to, greet, set_sink}
use mari_paint.Sigan.Publisher.Delivered.{Delivered-quiet, Delivered-lower}
use mari_paint.Sigan.Publisher.Backlog.{Holds-write}
use mari_paint.Sigan.Publisher.Steady.{Steady}
use mari_paint.Sigan.Sink.{Sink}

smaller-le : (a b : ℕ) → (if ltb a b then a else b) ≤ b
smaller-le a b = ground arith

stored_note-IsValid : (text : List ℕ) → IsValid (stored (note text))
stored_note-IsValid text =
    let n : ℕ = if ltb (length text) 65527 then length text else 65527 in
    let le : n ≤ 65527 = smaller-le (length text) 65527 in omega (arith, length-take n text)

same_frames :
    (rs : List Record) (r : Record)
    → frames_of (r ∷ []) ≡ []
    → frames_of (rs ++ r ∷ []) ≡ frames_of rs
same_frames rs r none =
    frames_of-append rs (r ∷ []) ∙ ap (frames_of rs ++◌) none ∙ append-nil (frames_of rs)

-- The start of the clock, and the frames that have been made since.
pub record Log : Type 0 where
  pub origin_ns : ℕ
  pub frames : List StrokeFrame

module _ (session_id wall_anchor : ℕ) (disk : Disk) (channel : Sink) where
  open channel use {State, connected, connect, handshake}

  -- The publisher behind `log`, with room for `k` more numbers: unless its journal has failed, it is
  -- steady, and the journal has exactly the frames of `log`.
  pub record Alive (k : ℕ) (log : Log) (p : Publisher State) : Type 0 where
    pub opened : p.journal.is_open ≡ true
    pub room : p.seq + k < 2 ^ 64
    pub numbered : p.seq ≡ length log.frames
    pub clock : p.steady_origin_ns ≡ log.origin_ns
    pub steady :
        p.journal.failed ≡ false
        → (rs : List Record) × (frames_of rs ≡ log.frames)
          × Steady session_id wall_anchor channel rs p

  -- A record that is no frame goes to the journal.
  Steady-record :
      (r : Record) (rs : List Record) (p : Publisher State) (j : Journal)
      → IsValid r
      → frames_of (r ∷ []) ≡ []
      → Writes (bytes_of r) p.journal j
      → j.failed ≡ false
      → Steady session_id wall_anchor channel rs p
      → Steady session_id wall_anchor channel (rs ++ r ∷ []) (record p { journal = j })
  Steady-record r rs p j v none w fine s = record {
    holds = Holds-write session_id wall_anchor r v w fine s.holds;
    order = rw same s.order;
    count = rw same s.count;
    sent_le = s.sent_le;
    delivered = rw same s.delivered;
  }
    where
      same : frames_of (rs ++ r ∷ []) ≡ frames_of rs
      same = same_frames rs r none

  Alive-record :
      (k : ℕ) {log : Log} (r : Record) (p : Publisher State) (j : Journal)
      → IsValid r
      → frames_of (r ∷ []) ≡ []
      → Writes (bytes_of r) p.journal j
      → Alive k log p
      → Alive k log (record p { journal = j })
  Alive-record k r p j v none w a = record {
    opened = w.still_open ∙ a.opened;
    room = a.room;
    numbered = a.numbered;
    clock = a.clock;
    steady = λ fine.
        let (rs, e', s) = a.steady (ground (arith, w, fine)) in
        (rs ++ r ∷ [], same_frames rs r none ∙ e', Steady-record r rs p j v none w fine s);
  }

  pub Alive-sink :
      (k : ℕ) {log : Log} (p : Publisher State) (s : State)
      → channel.received s ≡ channel.received p.sink
      → Alive k log p
      → Alive k log (record p { sink = s })
  Alive-sink k p s e a = record {
    opened = a.opened;
    room = a.room;
    numbered = a.numbered;
    clock = a.clock;
    steady = λ fine.
        let (rs, e', st) = a.steady fine in
        (
          rs,
          e',
          record {
            holds = st.holds;
            order = st.order;
            count = st.count;
            sent_le = st.sent_le;
            delivered = Delivered-quiet channel e st.delivered;
          },
        );
  }

  pub end_stroke-Alive :
      (k : ℕ) {log : Log} (p : Publisher State)
      → Alive k log p
      → Alive k log (end_stroke disk channel p)
  unfolding end_stroke
  end_stroke-Alive k {log} p a = elim (Bool-cases (p.attached && connected p.sink)) [
    | inl both ↦ rw both (Alive-sink k _ _ (channel.received-pump p.sink) written)
    | inr other ↦ rw other written
  ]
    where
      written : Alive k log (record p { journal = (mark_stroke_end disk p.seq p.journal).0 })
      written =
          Alive-record k (stroke_end p.seq) p _ (omega (arith, a.room)) refl
            (mark_stroke_end-Appended disk p.seq p.journal a.opened).writes a

  pub set_sink-Alive :
      (k : ℕ) {log : Log} (b : Bool) (p : Publisher State)
      → Alive k log p
      → Alive k log (set_sink disk channel b p)
  unfolding set_sink
  set_sink-Alive k b p a = record {
    opened = a.opened;
    room = a.room;
    numbered = a.numbered;
    clock = a.clock;
    steady = λ fine.
        let (rs, e', st) = a.steady fine in
        (
          rs,
          e',
          record {
            holds = st.holds;
            order = st.order;
            count = st.count;
            sent_le = st.sent_le;
            delivered = st.delivered;
          },
        );
  }

  -- The answer to a handshake: what the other side asks for again is marked as not sent.
  lowered-Alive :
      (k : ℕ) {log : Log} (sent : ℕ) (n : Negotiated) (a b : Bool) (t : PublisherStats)
      (p : Publisher State)
      → sent ≤ p.sent_seq
      → Alive k log p
      → Alive k log
          (record p { negotiated = n; cap_layer = a; cap_brush = b; sent_seq = sent; stats = t })
  lowered-Alive k sent n a b t p le al = record {
    opened = al.opened;
    room = al.room;
    numbered = al.numbered;
    clock = al.clock;
    steady = λ fine.
        let (rs, e', st) = al.steady fine in
        (
          rs,
          e',
          record {
            holds = st.holds;
            order = st.order;
            count = st.count;
            sent_le = omega (arith, st.sent_le);
            delivered = Delivered-lower channel sent le st.delivered;
          },
        );
  }

  pub note-Alive :
      (k : ℕ) {log : Log} (text : List ℕ) (p : Publisher State)
      → Alive k log p
      → Alive k log (record p { journal = (append_note disk text p.journal).0 })
  note-Alive k text p a =
      Alive-record k (stored (note text)) p _ (stored_note-IsValid text) refl
        (append_note-Appended disk text p.journal a.opened).writes a

  back_to-le : (n sent : ℕ) → (if ltb 0 n && ltb (n - 1) sent then n - 1 else sent) ≤ sent
  back_to-le n sent = ground arith

  answer_to-Alive :
      (k : ℕ) {log : Log} (l : Handshake) (r : Result Handshake) (p : Publisher State)
      → Alive k log p
      → Alive k log (answer_to disk channel l r p)
  unfolding answer_to
  answer_to-Alive k log (ok r) p a =
      note-Alive k _ _
        (lowered-Alive k _ _ _ _ p.stats p (back_to-le r.resume_from_seq p.sent_seq) a)
  answer_to-Alive k log (err _) p a =
      note-Alive k _ _ (lowered-Alive k p.sent_seq p.negotiated true true p.stats p (omega arith) a)

  pub greet-Alive :
      (k : ℕ) {log : Log} (p : Publisher State) → Alive k log p → Alive k log (greet disk channel p)
  unfolding greet
  greet-Alive k p a = answer_to-Alive k _ _ _ (
      lowered-Alive k p.sent_seq p.negotiated p.cap_layer p.cap_brush _ _ (omega arith)
        (Alive-sink k p _ (channel.received-handshake (local_handshake p) p.sink) a))
