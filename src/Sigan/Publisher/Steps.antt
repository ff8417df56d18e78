-- ===== src/Sigan/Publisher/Steps.antt =====
-- The operations of `SiganPublisher`, over the stream behind the journal and the channel.
use mari_paint.Prelude.{
  ℕ, ◌+◌, ◌-◌, ◌%◌, ◌^◌, Bool, true, false, ◌&&◌, not, List, [], ◌∷◌, ltb, leb, ◌==◌, if◌then◌else◌,
}
use mari_paint.Core.Errors.{Result, ok, err, map_ok}
use mari_paint.Sigan.Frame.{StrokeFrame, encode_frame}
use mari_paint.Sigan.Journal.Scan.{scan, frames_after}
use mari_paint.Sigan.Journal.Writer.{
  Disk, Journal, flush, reopened, append_frame, mark_stroke_end, append_note,
}
use mari_paint.Core.Errors
use mari_paint.Sigan.Handshake.{Handshake, negotiate, has_cap, layer, brush}
use mari_paint.Sigan.Sink.{Sink, SinkStatus}
use mari_paint.Sigan.Publisher.Text.{rehandshake_note, no_answer_note}
use mari_paint.Sigan.Publisher.State.{
  StrokeSample, Publisher, next64, apply_caps, local_handshake, count_stroke, make_frame,
}

module _ (disk : Disk) where
  -- `Journal::framesAfter`: the journal is flushed, and its file is opened again and scanned.
  unfoldable pub frames_of_backlog : ℕ → Journal → Result (List StrokeFrame) × Journal
  unfolding reopened
  frames_of_backlog after j =
      let (j', done) = flush disk j in
      if not done
      then (err Errors.ErrorCode.io_error, j')
      else (map_ok (λ s. frames_after after s.frames) (scan (reopened disk j')), j')

module _ (disk : Disk) (channel : Sink) where
  open channel use {State, connected, connect, handshake, write}

  -- What the answer of a write changes: a refused frame stays in the journal alone.
  unfoldable pub sent_frame : SinkStatus → StrokeFrame → Publisher State → Publisher State × Bool
  sent_frame SinkStatus.ok f p =
      (record p { sent_seq = f.seq; stats = record p.stats { sent = next64 p.stats.sent } }, true)
  sent_frame _ f p = (p, false)

  -- One frame to the sink: the state behind it, and whether it was taken.
  unfoldable pub send : StrokeFrame → Publisher State → Publisher State × Bool
  unfolding sent_frame
  send f p =
      let (status, sink) = write (encode_frame (apply_caps p f)) p.sink in
      sent_frame status f (record p { sink = sink })

  -- The two ends of `publish` and `resendBacklog`: what waits in the journal.
  unfoldable pub settle : Publisher State → Publisher State
  settle p = record p {
    stats = record p.stats { spooled = (p.seq + 2 ^ 64 - p.sent_seq) % 2 ^ 64 };
  }

  -- The first part of `publish`: the frame, the counts, and the journal.
  unfoldable pub record_frame : (ℕ → ℕ) → ℕ → StrokeSample → Publisher State → Publisher State
  record_frame to_ms now s p =
      let (f, cut) = make_frame to_ms (next64 p.seq) p.steady_origin_ns now s in
      let t = p.stats in
      let t' = record t {
        id_truncations = if cut then next64 t.id_truncations else t.id_truncations;
      } in
      let t'' = count_stroke f.flags f.origin t' in
      record p {
        seq = next64 p.seq;
        journal = (append_frame disk f p.journal).0;
        stats = record t'' { published = next64 t.published };
      }

  unfoldable pub publish : (ℕ → ℕ) → ℕ → StrokeSample → Publisher State → Publisher State
  unfolding send settle record_frame
  publish to_ms now s p =
      let f = (make_frame to_ms (next64 p.seq) p.steady_origin_ns now s).0 in
      let p' = record_frame to_ms now s p in
      settle (
        if p'.attached && connected p'.sink && next64 p'.sent_seq == p'.seq
        then (send f p').0
        else p')

  -- `endStroke`
  unfoldable pub end_stroke : Publisher State → Publisher State
  end_stroke p =
      let p' = record p { journal = (mark_stroke_end disk p.seq p.journal).0 } in
      if p.attached && connected p.sink then record p' { sink = channel.pump p.sink } else p'

  -- The loop of `resendBacklog`.
  abbrev pub count_resent : Publisher State → Publisher State
  count_resent p = record p { stats = record p.stats { resent = next64 p.stats.resent } }

  unfoldable pub resend_loop : List StrokeFrame → Publisher State → Publisher State
  resend_loop [] p = p
  resend_loop (f ∷ fs) p =
      let (p', taken) = send f p in
      let rest = resend_loop fs (count_resent p') in if taken then rest else p'

  -- The end of `resendBacklog`, at the frames that were read back.
  unfoldable pub finish_backlog :
      Result (List StrokeFrame) → Publisher State → Result (Unit {0}) × Publisher State
  unfolding resend_loop settle
  finish_backlog (err e) p = (err e, p)
  finish_backlog (ok fs) p = (ok tt, settle (resend_loop fs p))

  unfoldable pub resend_backlog : Publisher State → Result (Unit {0}) × Publisher State
  resend_backlog p =
      if not p.attached
      then (ok tt, p)
      else if not (connected p.sink)
      then (ok tt, p)
      else if leb p.seq p.sent_seq
      then (ok tt, p)
      else let (pending, j) = frames_of_backlog disk p.sent_seq p.journal in
        finish_backlog pending (record p { journal = j })

  -- The other side's answer to a handshake.
  unfoldable pub meet : Handshake → Handshake → Publisher State → Publisher State
  meet l remote p =
      let n = negotiate l remote in
      let from = remote.resume_from_seq - 1 in
      record p {
        negotiated = n;
        cap_layer = has_cap n.caps layer;
        cap_brush = has_cap n.caps brush;
        sent_seq = if ltb 0 remote.resume_from_seq && ltb from p.sent_seq then from else p.sent_seq;
        journal = (append_note disk (rehandshake_note n.proto) p.journal).0;
      }

  unfoldable pub no_answer : Publisher State → Publisher State
  no_answer p = record p {
    cap_layer = true;
    cap_brush = true;
    journal = (append_note disk no_answer_note p.journal).0;
  }

  -- A new connection, up to the answer: the handshake is counted whatever the answer is.
  unfoldable pub answer_to : Handshake → Result Handshake → Publisher State → Publisher State
  unfolding meet no_answer
  answer_to l (ok r) p = meet l r p
  answer_to l (err _) p = no_answer p

  unfoldable pub greet : Publisher State → Publisher State
  unfolding answer_to
  greet p =
      let l = local_handshake p in
      let (remote, sink) = handshake l p.sink in
      answer_to l remote (record p {
        sink = sink;
        stats = record p.stats { reconnects = next64 p.stats.reconnects };
      })

  -- The rest of `pump` behind an attempt to connect.
  unfoldable pub connected_or_not :
      Result (Unit {0}) → Publisher State → Result (Unit {0}) × Publisher State
  connected_or_not (err e) p = (err e, p)
  connected_or_not (ok _) p = resend_backlog (greet p)

  unfoldable pub pump : Publisher State → Result (Unit {0}) × Publisher State
  unfolding connected_or_not
  pump p =
      if not p.attached
      then (ok tt, p)
      else if not (connected p.sink)
      then (let (answer, sink) = connect p.sink in
          connected_or_not answer (record p { sink = sink }))
      else resend_backlog (record p { sink = channel.pump p.sink })

  -- `setSink` for the one channel of this section: it is attached or taken off.
  unfoldable pub set_sink : Bool → Publisher State → Publisher State
  set_sink attached p = record p { attached = attached }
