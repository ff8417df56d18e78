-- ===== src/Sigan/Publisher/Pump.antt =====
-- `pump`, `resendBacklog` and the invariant of a publisher.
use mari_paint.Prelude.{ℕ, ◌≡◌, refl, sym, ap, ◌∙◌, List, [], ◌∷◌, arith, drop, if_both, not, leb}
use mari_paint.Core.Errors.{Result, ok, err}
use mari_paint.Sigan.Wire.{IsU64}
use mari_paint.Sigan.Frame.{StrokeFrame}
use mari_paint.Sigan.Journal.Records.{Record}
use mari_paint.Sigan.Journal.Writer.{Disk, Journal, flush}
use mari_paint.Sigan.Journal.Intact.{Flushed, flush-Flushed}
use mari_paint.Sigan.Journal.Whole.{frames_of}
use mari_paint.Sigan.Journal.Prefix.{Begins}
use mari_paint.Sigan.Publisher.State.{Publisher}
use mari_paint.Sigan.Publisher.Steps.{
  count_resent, resend_loop, send, sent_frame, settle, frames_of_backlog, finish_backlog,
  resend_backlog, connected_or_not, pump,
}
use mari_paint.Sigan.Publisher.Backlog.{backlog-Holds, frames_of_backlog-Begins}
use mari_paint.Sigan.Publisher.Steady.{Steady, Steady-stats, resend_loop-Steady, resend_loop_keeps}
use mari_paint.Sigan.Publisher.Session.{Log, Alive, Alive-sink, greet-Alive}
use mari_paint.Sigan.Sink.{Sink}

module _ (session_id wall_anchor : ℕ) (disk : Disk) (channel : Sink) (hs : IsU64 session_id)
    (hw : IsU64 wall_anchor) where
  open channel use {State, connected, connect}

  pub finish_backlog_keeps :
      (pending : Result (List StrokeFrame)) (p : Publisher State)
      → ((finish_backlog disk channel pending p).1.journal ≡ p.journal)
        × ((finish_backlog disk channel pending p).1.seq ≡ p.seq)
  unfolding finish_backlog
  finish_backlog_keeps (ok fs) p = resend_loop_keeps session_id wall_anchor channel disk fs p
  finish_backlog_keeps (err e) p = (refl, refl)

  pub send_clock :
      (f : StrokeFrame) (p : Publisher State)
      → (send disk channel f p).0.steady_origin_ns ≡ p.steady_origin_ns
  unfolding send sent_frame
  send_clock f p = ground arith

  resend_loop_clock :
      (fs : List StrokeFrame) (p : Publisher State)
      → (resend_loop disk channel fs p).steady_origin_ns ≡ p.steady_origin_ns
  unfolding resend_loop
  resend_loop_clock [] p = refl
  resend_loop_clock (f ∷ fs) p = ground (
    arith,
    send_clock f p,
    resend_loop_clock fs (count_resent disk channel (send disk channel f p).0),
  )

  finish_backlog_clock :
      (pending : Result (List StrokeFrame)) (p : Publisher State)
      → (finish_backlog disk channel pending p).1.steady_origin_ns ≡ p.steady_origin_ns
  unfolding finish_backlog settle
  finish_backlog_clock (ok fs) p = resend_loop_clock fs p
  finish_backlog_clock (err e) p = refl

  finish_backlog-Steady :
      (rs : List Record) (p : Publisher State) (pending : Result (List StrokeFrame))
      → ((gs : List StrokeFrame) → pending ≡ ok gs → Begins gs (drop p.sent_seq (frames_of rs)))
      → Steady session_id wall_anchor channel rs p
      → Steady session_id wall_anchor channel rs (finish_backlog disk channel pending p).1
  unfolding finish_backlog
  finish_backlog-Steady rs p (err e) first s = s
  finish_backlog-Steady rs p (ok gs) first s =
      let (zs, e) = first gs refl in
      Steady-stats session_id wall_anchor channel rs _ _
        (resend_loop-Steady session_id wall_anchor channel disk rs gs zs p e s).0

  pub backlog_journal :
      (after : ℕ) (j : Journal) → (frames_of_backlog disk after j).1 ≡ (flush disk j).0
  unfolding frames_of_backlog
  backlog_journal after j = ground arith

  backlog-Alive :
      (k : ℕ) {log : Log} (p : Publisher State)
      → Alive session_id wall_anchor disk channel k log p
      → Alive session_id wall_anchor disk channel k log
          (finish_backlog disk channel
            (frames_of_backlog disk p.sent_seq p.journal).0
            (record p { journal = (frames_of_backlog disk p.sent_seq p.journal).1 })).1
  backlog-Alive k {log} p a = record {
    opened = ap (λ (j : Journal). j.is_open) (kept.0 ∙ same) ∙ f.writes.still_open ∙ a.opened;
    room = rw kept.1 a.room;
    numbered = kept.1 ∙ a.numbered;
    clock = finish_backlog_clock _ _ ∙ a.clock;
    steady = λ fine.
        let fine_j = sym (ap (λ (j : Journal). j.failed) kept.0) ∙ fine in
        let fine_f = sym (ap (λ (j : Journal). j.failed) same) ∙ fine_j in
        let (rs, e', s) = a.steady (ground (arith, f, fine_f)) in
        let (_, _, held) =
          backlog-Holds session_id wall_anchor disk hs hw p.sent_seq rs p.journal s.holds fine_j in
        let first =
          λ (gs : List StrokeFrame) (e : (frames_of_backlog disk p.sent_seq p.journal).0 ≡ ok gs).
            frames_of_backlog-Begins session_id wall_anchor disk hs hw p.sent_seq rs p.journal gs
              s.order s.holds fine_j e in
        (
          rs,
          e',
          finish_backlog-Steady rs _ _ first (record {
            holds = held;
            order = s.order;
            count = s.count;
            sent_le = s.sent_le;
            delivered = s.delivered;
          }),
        );
  }
    where
      kept :
          ((finish_backlog disk channel
              (frames_of_backlog disk p.sent_seq p.journal).0
              (record p { journal = (frames_of_backlog disk p.sent_seq p.journal).1 })).1.journal
            ≡ (frames_of_backlog disk p.sent_seq p.journal).1)
          × ((finish_backlog disk channel
                (frames_of_backlog disk p.sent_seq p.journal).0
                (record p { journal = (frames_of_backlog disk p.sent_seq p.journal).1 })).1.seq
              ≡ p.seq)
      kept = finish_backlog_keeps _ _

      same : (frames_of_backlog disk p.sent_seq p.journal).1 ≡ (flush disk p.journal).0
      same = backlog_journal p.sent_seq p.journal

      f : Flushed disk p.journal (flush disk p.journal).0 (flush disk p.journal).1
      f = flush-Flushed disk p.journal a.opened

  record AliveResult (k : ℕ) (log : Log) (r : Result (Unit {0}) × Publisher State) : Type 0 where
    alive : Alive session_id wall_anchor disk channel k log r.1

  resend_backlog-Alive :
      (k : ℕ) {log : Log} (p : Publisher State)
      → Alive session_id wall_anchor disk channel k log p
      → Alive session_id wall_anchor disk channel k log (resend_backlog disk channel p).1
  unfolding resend_backlog
  resend_backlog-Alive k {log} p a =
      let same : AliveResult k log (ok tt, p) = record { alive = a } in
      let (pending, j) = frames_of_backlog disk p.sent_seq p.journal in
      let again : AliveResult k log
          (finish_backlog disk channel pending (record p { journal = j })) =
        record { alive = backlog-Alive k p a } in
      (if_both (AliveResult k log) (not p.attached) same (
        if_both (AliveResult k log) (not (connected p.sink)) same
          (if_both (AliveResult k log) (leb p.seq p.sent_seq) same again))).alive

  connected_or_not-Alive :
      (k : ℕ) {log : Log} (r : Result (Unit {0})) (p : Publisher State)
      → Alive session_id wall_anchor disk channel k log p
      → Alive session_id wall_anchor disk channel k log (connected_or_not disk channel r p).1
  unfolding connected_or_not
  connected_or_not-Alive k (err e) p a = a
  connected_or_not-Alive k (ok _) p a =
      resend_backlog-Alive k _ (greet-Alive session_id wall_anchor disk channel k p a)

  pub pump-Alive :
      (k : ℕ) {log : Log} (p : Publisher State)
      → Alive session_id wall_anchor disk channel k log p
      → Alive session_id wall_anchor disk channel k log (pump disk channel p).1
  unfolding pump
  pump-Alive k {log} p a =
      (if_both (AliveResult k log) (not p.attached) {x = (ok tt, p)} (record { alive = a })
        (if_both (AliveResult k log) (not (connected p.sink))
          (record {
            alive = connected_or_not-Alive k _ _ (
                Alive-sink session_id wall_anchor disk channel k p _
                  (channel.received-connect p.sink) a);
          })
          (record {
            alive = resend_backlog-Alive k _ (
                Alive-sink session_id wall_anchor disk channel k p _ (channel.received-pump p.sink)
                  a);
          }))).alive
