-- ===== src/Sigan/Publisher/Recovered.antt =====
-- What is read back from the journal of a publisher whose program stopped at any time.
use mari_paint.Prelude.{
  ℕ, ◌+◌, ◌^◌, ◌<◌, ◌≡◌, sym, ap, ◌∙◌, Bool, false, some, List, [], ◌∷◌, ◌++◌, arith, length, take,
  append_assoc, append-nil, length-append, subst,
}
use mari_paint.Core.Errors.{ok}
use mari_paint.Sigan.Wire.{IsU64}
use mari_paint.Sigan.Frame.{StrokeFrame}
use mari_paint.Sigan.Journal.Records.{Record, frame, stroke_end, note, encode_records}
use mari_paint.Sigan.Journal.Scan.{JournalScan, recover_journal}
use mari_paint.Sigan.Journal.Recovery.{survivors, finished}
use mari_paint.Sigan.Journal.Writer.{Disk, create}
use mari_paint.Sigan.Journal.Crash.{recover_journal-crash}
use mari_paint.Sigan.Journal.Prefix.{Begins, survivors-Begins, frames_of-Begins, take-header}
use mari_paint.Sigan.Journal.Whole.{frames_of}
use mari_paint.Sigan.Journal.Gaps.{seq_gaps, seq_gaps-InOrder}
use mari_paint.Sigan.Publisher.State.{Publisher, open_publisher}
use mari_paint.Sigan.Publisher.Delivered.{InOrder}
use mari_paint.Sigan.Publisher.Backlog.{InOrder-Begins}
use mari_paint.Sigan.Publisher.Publish.{Is64}
use mari_paint.Sigan.Publisher.Run.{Call, AllFit, frames_made, run, session-Alive}
use mari_paint.Sigan.Sink.{Sink}

finished-Begins :
    (done pending : List StrokeFrame) (rs : List Record)
    → Begins (finished done pending rs) ((done ++ pending) ++ frames_of rs)
unfolding finished
finished-Begins done pending [] = (pending, append-nil (done ++ pending))
finished-Begins done pending (frame f ∷ rs) =
    let (zs, e) = finished-Begins done (pending ++ f ∷ []) rs in
    let here = append_assoc pending (f ∷ []) (frames_of rs) in
    (
      zs,
      append_assoc done pending (frames_of (frame f ∷ rs))
          ∙ ap (done ++◌) (sym here)
          ∙ sym (append_assoc done (pending ++ f ∷ []) (frames_of rs))
          ∙ e,
    )
finished-Begins done pending (stroke_end _ ∷ rs) =
    let (zs, e) = finished-Begins (done ++ pending) [] rs in (zs, rw append-nil at e)
finished-Begins done pending (note _ ∷ rs) = finished-Begins done pending rs

-- The beginning of frames that are numbered without a hole has none either.
kept_gapless :
    (s : JournalScan) (fs zs : List StrokeFrame)
    → fs ≡ s.frames ++ zs
    → InOrder 0 fs
    → length fs < 2 ^ 64
    → InOrder 0 s.frames × (seq_gaps s ≡ [])
kept_gapless s fs zs e o lt =
    let o' = InOrder-Begins 0 s.frames zs (subst (InOrder 0) e o) in
    let n = ap length e ∙ length-append s.frames zs in
    (o', seq_gaps-InOrder s 0 o' (omega (arith, n)))

module _ (disk : Disk) (channel : Sink) (to_ms : ℕ → ℕ) where
  open channel use {State, received}

  -- Take any fewer than 2^64 calls of the owner of a new publisher, over any stream and any sink
  -- that has received nothing yet, where the fields of samples, the session's id and the wall
  -- clock have their widths. If the journal has not failed, and what it has taken is cut anywhere
  -- behind its header, recovery succeeds, gives the first of the frames for the samples of these
  -- calls, in order, and lists no hole.
  pub recover_journal-gapless :
      (cs : List Call) (sink : State) (app : List ℕ) (session_id origin wall : ℕ) (opens : Bool)
      (taken : ℕ) (p : Publisher State) (k : ℕ)
      → open_publisher sink false app session_id origin wall (λ id. create opens taken id wall)
        ≡ ok p
      → IsU64 p.session_id
      → IsU64 wall
      → Is64 to_ms
      → received sink ≡ []
      → AllFit cs
      → length cs < 2 ^ 64
      → (run disk channel to_ms cs p).journal.failed ≡ false
      → (s : JournalScan) × (recover_journal (
            some (
              take (32 + k) (
                (run disk channel to_ms cs p).journal.file
                ++ (run disk channel to_ms cs p).journal.buf)))
          ≡ ok s)
        × Begins s.frames (frames_made disk channel to_ms origin 0 cs)
        × (seq_gaps s ≡ [])
  recover_journal-gapless cs sink app session_id origin wall opens taken p k made hs hw h64 silent
        fit len fine =
      let a =
        session-Alive disk channel to_ms cs sink app session_id origin wall opens taken p made hs hw
          h64 silent fit len in
      let (rs, e', st) = a.steady fine in
      let (s, read, e) = recover_journal-crash p.session_id wall hs hw rs k st.holds.valid in
      let (zs, b) = frames_of-Begins (survivors k rs) (survivors-Begins k rs) in
      let (ws, c) = finished-Begins [] [] (survivors k rs) in
      let whole = b ∙ ap (◌++ zs) (c ∙ ap (◌++ ws) (sym e)) ∙ append_assoc s.frames ws zs in
      let (_, g) =
        kept_gapless s (frames_of rs) (ws ++ zs) whole st.order (omega (arith, st.count, a.room)) in
      (
        s,
        ap (λ bytes. recover_journal (some (take (32 + k) bytes))) st.holds.content
            ∙ ap (λ bytes. recover_journal (some bytes))
                (take-header p.session_id wall k (encode_records rs))
            ∙ read,
        (ws ++ zs, sym e' ∙ whole),
        g,
      )
