-- ===== src/Sigan/Publisher/Steady.antt =====
-- The invariant of the publisher, over a list of the journal's records, and the parts of its
-- operations that touch the sink.
use mari_paint.Prelude.{
  ℕ, zero, suc, ◌+◌, ◌≤◌, ◌<◌, ◌≡◌, ◌≢◌, refl, ◌∙◌, inl, inr, Bool, true, some, List, [], ◌∷◌, ◌++◌,
  arith, length, get_elem?, drop, drop-cons, lt-length_of_get_elem?, Bool-cases,
}
use mari_paint.Sigan.Frame.{StrokeFrame, encode_frame}
use mari_paint.Sigan.Journal.Records.{Record}
use mari_paint.Sigan.Journal.Writer.{Disk}
use mari_paint.Sigan.Journal.Whole.{frames_of}
use mari_paint.Sigan.Publisher.State.{Publisher, PublisherStats, strip, apply_caps}
use mari_paint.Sigan.Publisher.Steps.{sent_frame, send, count_resent, resend_loop}
use mari_paint.Sigan.Publisher.Delivered.{InOrder, Delivered, Delivered-quiet, Delivered-write}
use mari_paint.Sigan.Publisher.Backlog.{Holds}
use mari_paint.Sigan.Sink.{Sink, SinkStatus}

-- The frame at index `i` has the number `n + i + 1`.
seq_at :
    (n i : ℕ) (fs : List StrokeFrame) {f : StrokeFrame}
    → InOrder n fs
    → get_elem? fs i ≡ some f
    → f.seq ≡ suc (n + i)
seq_at n i [] o h = cc
seq_at n zero (g ∷ fs) (e, o) h = ground (arith, e)
seq_at n (suc i) (g ∷ fs) (e, o) h = omega (arith, seq_at (suc n) i fs o h)

module _ (session_id wall_anchor : ℕ) (channel : Sink) where
  open channel use {State, write}

  -- The journal holds these records, their frames are numbered 1, 2, … up to the last number given
  -- out, and the other side has them without a hole up to the number marked as sent.
  pub record Steady (rs : List Record) (p : Publisher State) : Type 0 where
    pub holds : Holds session_id wall_anchor rs p.journal
    pub order : InOrder 0 (frames_of rs)
    pub count : length (frames_of rs) ≡ p.seq
    pub sent_le : p.sent_seq ≤ p.seq
    pub delivered : Delivered channel (frames_of rs) p.sent_seq p.sink

  -- The counts are free.
  pub Steady-stats :
      (rs : List Record) (p : Publisher State) (t : PublisherStats)
      → Steady rs p
      → Steady rs (record p { stats = t })
  Steady-stats rs p t s = record {
    holds = s.holds;
    order = s.order;
    count = s.count;
    sent_le = s.sent_le;
    delivered = s.delivered;
  }

  -- A state behind an attempt to send the next frame: nothing but the sink, the mark and the counts
  -- may have changed, and the mark moves exactly if the frame was taken.
  pub record Tried (rs : List Record) (p p' : Publisher State) (taken : Bool) : Type 0 where
    pub steady : Steady rs p'
    pub moved : taken ≡ true → p'.sent_seq ≡ suc p.sent_seq
    pub journal : p'.journal ≡ p.journal
    pub seq : p'.seq ≡ p.seq

  module _ (disk : Disk) where
    sent_frame-Tried :
        (rs : List Record) (f : StrokeFrame) (p : Publisher State) (status : SinkStatus) (s : State)
        → f.seq ≡ suc p.sent_seq
        → p.sent_seq < p.seq
        → Steady rs p
        → (status ≡ SinkStatus.ok → Delivered channel (frames_of rs) f.seq s)
        → (status ≢ SinkStatus.ok → Delivered channel (frames_of rs) p.sent_seq s)
        → Tried rs p
            (sent_frame disk channel status f (record p { sink = s })).0
            (sent_frame disk channel status f (record p { sink = s })).1
    unfolding sent_frame
    sent_frame-Tried rs f p SinkStatus.ok s e lt h yes' no' = record {
      steady = record {
        holds = h.holds;
        order = h.order;
        count = h.count;
        sent_le = omega arith;
        delivered = yes' refl;
      };
      moved = λ _. e;
      journal = refl;
      seq = refl;
    }
    sent_frame-Tried rs f p _ s e lt h yes' no' = record {
      steady = record {
        holds = h.holds;
        order = h.order;
        count = h.count;
        sent_le = h.sent_le;
        delivered = no' (λ bad. cc);
      };
      moved = λ t. cc;
      journal = refl;
      seq = refl;
    }

    -- Sending the frame behind the last one that was sent.
    pub send-Tried :
        (rs : List Record) (f : StrokeFrame) (p : Publisher State)
        → get_elem? (frames_of rs) p.sent_seq ≡ some f
        → Steady rs p
        → Tried rs p (send disk channel f p).0 (send disk channel f p).1
    unfolding send apply_caps
    send-Tried rs f p at s =
        let e = seq_at 0 p.sent_seq (frames_of rs) {f = f} s.order at in
        let n = lt-length_of_get_elem? (frames_of rs) p.sent_seq at in
        let bytes = encode_frame (strip p.cap_layer p.cap_brush f) in
        let eq : f.seq ≡ suc p.sent_seq = omega arith in
        sent_frame-Tried rs f p (write bytes p.sink).0 (write bytes p.sink).1 eq
          (omega (arith, s.count)) s
          (λ taken.
            Delivered-write channel p.sent_seq f p.cap_layer p.cap_brush at eq (omega arith) taken
              s.delivered)
          (λ refused.
            Delivered-quiet channel (channel.received-write_refused _ _ refused) s.delivered)

    -- What waits, or the first of it, is sent in order until the sink refuses a frame.
    pub resend_loop-Steady :
        (rs : List Record) (gs zs : List StrokeFrame) (p : Publisher State)
        → drop p.sent_seq (frames_of rs) ≡ gs ++ zs
        → Steady rs p
        → Steady rs (resend_loop disk channel gs p)
          × ((resend_loop disk channel gs p).journal ≡ p.journal)
          × ((resend_loop disk channel gs p).seq ≡ p.seq)
    unfolding resend_loop
    resend_loop-Steady rs [] zs p d s = (s, refl, refl)
    resend_loop-Steady rs (f ∷ gs) zs p d s =
        let (at, tail) = drop-cons p.sent_seq (frames_of rs) f (gs ++ zs) d in
        let t = send-Tried rs f p at s in
        elim (Bool-cases (send disk channel f p).1) [
          | inl taken ↦
              let next = count_resent disk channel (send disk channel f p).0 in
              let (a, b, c) =
                resend_loop-Steady rs gs zs next (rw (t.moved taken) tail)
                  (Steady-stats rs _ _ t.steady) in
              rw taken (a, b ∙ t.journal, c ∙ t.seq)
          | inr refused ↦ rw refused (t.steady, t.journal, t.seq)
        ]

    pub send_keeps :
        (f : StrokeFrame) (p : Publisher State)
        → ((send disk channel f p).0.journal ≡ p.journal) × ((send disk channel f p).0.seq ≡ p.seq)
    unfolding send
    send_keeps f p = ground arith

    pub resend_loop_keeps :
        (gs : List StrokeFrame) (p : Publisher State)
        → ((resend_loop disk channel gs p).journal ≡ p.journal)
          × ((resend_loop disk channel gs p).seq ≡ p.seq)
    unfolding resend_loop
    resend_loop_keeps [] p = (refl, refl)
    resend_loop_keeps (f ∷ gs) p = ground (
      arith,
      send_keeps f p,
      resend_loop_keeps gs (count_resent disk channel (send disk channel f p).0),
    )
