-- ===== src/Sigan/Publisher/Complete.antt =====
-- `pump` over a sink that takes every write.
use mari_paint.Prelude.{
  ℕ, zero, suc, ◌≤◌, ◌<◌, ◌^◌, ◌≡◌, refl, sym, ap, ◌∙◌, Bool, true, false, List, [], ◌∷◌, arith,
  length, drop, drop-cons, not, leb, Bool-cases, inl, inr, if_yes, if_no, subst,
}
use mari_paint.Core.Errors.{Result, ok}
use mari_paint.Sigan.Wire.{IsU64}
use mari_paint.Sigan.Frame.{StrokeFrame}
use mari_paint.Sigan.Journal.Records.{Record}
use mari_paint.Sigan.Journal.Writer.{Disk, Journal, create}
use mari_paint.Sigan.Journal.Intact.{flush-Flushed}
use mari_paint.Sigan.Journal.Whole.{frames_of}
use mari_paint.Sigan.Publisher.State.{Publisher, open_publisher}
use mari_paint.Sigan.Publisher.Steps.{
  sent_frame, settle, send, resend_loop, count_resent, frames_of_backlog, finish_backlog,
  resend_backlog, pump,
}
use mari_paint.Sigan.Publisher.Backlog.{ReadsAll, backlog-Holds, frames_of_backlog_lem}
use mari_paint.Sigan.Publisher.Steady.{Steady, Steady-stats, send-Tried}
use mari_paint.Sigan.Publisher.Session.{Log, Alive, Alive-sink}
use mari_paint.Sigan.Publisher.Pump.{finish_backlog_keeps, backlog_journal}
use mari_paint.Sigan.Publisher.Publish.{Is64}
use mari_paint.Sigan.Publisher.Run.{Call, AllFit, run, session-Alive}
use mari_paint.Sigan.Sink.{SinkStatus, Sink}

module _ (session_id wall_anchor : ℕ) (disk : Disk) (channel : Sink) (hs : IsU64 session_id)
    (hw : IsU64 wall_anchor) where
  open channel use {State, connected}

  -- A sink that takes every write.
  abbrev pub TakesAll : Type 0
  TakesAll = (bytes : List ℕ) (s : State) → (channel.write bytes s).0 ≡ SinkStatus.ok

  send-taken : (f : StrokeFrame) (p : Publisher State) → TakesAll → (send disk channel f p).1 ≡ true
  unfolding send sent_frame
  send-taken f p h = taken _ _ (h _ _)
    where
      taken :
          (status : SinkStatus) (q : Publisher State)
          → status ≡ SinkStatus.ok
          → (sent_frame disk channel status f q).1 ≡ true
      taken status q e = rw e refl

  drop_nil-le : (n : ℕ) (fs : List StrokeFrame) → drop n fs ≡ [] → length fs ≤ n
  drop_nil-le zero fs e = rw e (omega arith)
  drop_nil-le (suc n) [] e = omega arith
  drop_nil-le (suc n) (f ∷ fs) e = omega (arith, drop_nil-le n fs e)

  resend_loop_complete :
      (rs : List Record) (gs : List StrokeFrame) (p : Publisher State)
      → TakesAll
      → drop p.sent_seq (frames_of rs) ≡ gs
      → Steady session_id wall_anchor channel rs p
      → (resend_loop disk channel gs p).sent_seq ≡ p.seq
  unfolding resend_loop
  resend_loop_complete rs [] p h d s =
      omega (arith, s.count, s.sent_le, drop_nil-le p.sent_seq (frames_of rs) d)
  resend_loop_complete rs (f ∷ gs) p h d s =
      let (at, tail) = drop-cons p.sent_seq (frames_of rs) f gs d in
      let t = send-Tried session_id wall_anchor channel disk rs f p at s in
      let taken = send-taken f p h in
      let next = count_resent disk channel (send disk channel f p).0 in
      let ih =
        resend_loop_complete rs gs next h (rw (t.moved taken) tail)
          (Steady-stats session_id wall_anchor channel rs _ _ t.steady) in
      rw taken (ih ∙ t.seq)

  finish_backlog_complete :
      (rs : List Record) (p : Publisher State) (pending : Result (List StrokeFrame))
      → TakesAll
      → pending ≡ ok (drop p.sent_seq (frames_of rs))
      → Steady session_id wall_anchor channel rs p
      → (finish_backlog disk channel pending p).1.sent_seq ≡ p.seq
  unfolding finish_backlog settle
  finish_backlog_complete rs p pending h e s = rw e (resend_loop_complete rs _ p h refl s)

  -- Nothing waits, unless the journal has failed.
  abbrev CaughtUp : Result (Unit {0}) × Publisher State → Type 0
  CaughtUp r = r.1.journal.failed ≡ false → r.1.sent_seq ≡ r.1.seq

  read_back-CaughtUp :
      (k : ℕ) {log : Log} (p : Publisher State)
      → TakesAll
      → ReadsAll disk
      → Alive session_id wall_anchor disk channel k log p
      → CaughtUp (
          finish_backlog disk channel
            (frames_of_backlog disk p.sent_seq p.journal).0
            (record p { journal = (frames_of_backlog disk p.sent_seq p.journal).1 }))
  read_back-CaughtUp k p h all a fine =
      let j = (frames_of_backlog disk p.sent_seq p.journal).1 in
      let pending = (frames_of_backlog disk p.sent_seq p.journal).0 in
      let (same, seq) =
        finish_backlog_keeps session_id wall_anchor disk channel hs hw pending
          (record p { journal = j }) in
      let fine_j : j.failed ≡ false = sym (ap (λ (i : Journal). i.failed) same) ∙ fine in
      let f = flush-Flushed disk p.journal a.opened in
      let flushed =
        backlog_journal session_id wall_anchor disk channel hs hw p.sent_seq p.journal in
      let fine_f = sym (ap (λ (i : Journal). i.failed) flushed) ∙ fine_j in
      let (rs, e', s) = a.steady (ground (arith, f, fine_f)) in
      let (_, _, held) =
        backlog-Holds session_id wall_anchor disk hs hw p.sent_seq rs p.journal s.holds fine_j in
      let read =
        frames_of_backlog_lem session_id wall_anchor disk hs hw p.sent_seq rs p.journal all s.order
          s.holds fine_j in
      finish_backlog_complete rs _ pending h read (record {
        holds = held;
        order = s.order;
        count = s.count;
        sent_le = s.sent_le;
        delivered = s.delivered;
      })
      ∙ sym seq

  resend_backlog-CaughtUp :
      (k : ℕ) {log : Log} (p : Publisher State)
      → TakesAll
      → ReadsAll disk
      → p.attached ≡ true
      → connected p.sink ≡ true
      → Alive session_id wall_anchor disk channel k log p
      → CaughtUp (resend_backlog disk channel p)
  unfolding resend_backlog
  resend_backlog-CaughtUp k p h all at con a =
      subst CaughtUp (sym (if_no _ _ (ap not at) ∙ if_no _ _ (ap not con)))
        (elim (Bool-cases (leb p.seq p.sent_seq)) [
          | inl none' ↦
              subst CaughtUp (sym (if_yes _ _ none'))
                (λ fine. let (rs, e', s) = a.steady fine in ground (arith, s.sent_le, none'))
          | inr some' ↦ subst CaughtUp (sym (if_no _ _ some')) (read_back-CaughtUp k p h all a)
        ])

  pump-CaughtUp :
      (k : ℕ) {log : Log} (p : Publisher State)
      → TakesAll
      → ReadsAll disk
      → p.attached ≡ true
      → connected p.sink ≡ true
      → connected (channel.pump p.sink) ≡ true
      → Alive session_id wall_anchor disk channel k log p
      → CaughtUp (pump disk channel p)
  unfolding pump
  pump-CaughtUp k p h all at con con' a =
      subst CaughtUp (sym (if_no _ _ (ap not at) ∙ if_no _ _ (ap not con))) (
        resend_backlog-CaughtUp k _ h all at con'
          (Alive-sink session_id wall_anchor disk channel k p _ (channel.received-pump p.sink) a))

module _ (disk : Disk) (channel : Sink) (to_ms : ℕ → ℕ) where
  open channel use {State, connected, received}

  -- Take any fewer than 2^64 calls of the owner of a new publisher over a sink that takes every
  -- write, where the fields of samples, the session's id and the wall clock have their widths, and
  -- where the journal's file can always be opened again and read to its end. If then the sink is
  -- attached, and connected before and after its own pump, one more pump that leaves a journal
  -- that has not failed leaves no frame unsent: the number marked as sent is the last number given
  -- out.
  pub session_complete :
      (cs : List Call) (sink : State) (app : List ℕ) (session_id origin wall : ℕ) (opens : Bool)
      (taken : ℕ) (p : Publisher State)
      → open_publisher sink false app session_id origin wall (λ id. create opens taken id wall)
        ≡ ok p
      → IsU64 p.session_id
      → IsU64 wall
      → Is64 to_ms
      → received sink ≡ []
      → AllFit cs
      → length cs < 2 ^ 64
      → ((bytes : List ℕ) (s : State) → (channel.write bytes s).0 ≡ SinkStatus.ok)
      → ReadsAll disk
      → (run disk channel to_ms cs p).attached ≡ true
      → connected (run disk channel to_ms cs p).sink ≡ true
      → connected (channel.pump (run disk channel to_ms cs p).sink) ≡ true
      → (pump disk channel (run disk channel to_ms cs p)).1.journal.failed ≡ false
      → (pump disk channel (run disk channel to_ms cs p)).1.sent_seq
        ≡ (pump disk channel (run disk channel to_ms cs p)).1.seq
  session_complete cs sink app session_id origin wall opens taken p made hs hw h64 silent fit len
        takes all at con con' =
      pump-CaughtUp p.session_id wall disk channel hs hw 0 (run disk channel to_ms cs p) takes all
        at con con'
        (session-Alive disk channel to_ms cs sink app session_id origin wall opens taken p made hs
          hw h64 silent fit len)
