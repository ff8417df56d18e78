-- ===== src/Sigan/Journal/Intact.antt =====
-- The operations of the journal's writer, one by one and in a session: what they do to the file and
-- to the buffer together.
use mari_paint.Prelude.{
  nil_of_length, ℕ, ◌≡◌, refl, sym, ◌∙◌, Bool, true, false, List, [], ◌∷◌, ◌++◌, arith, ltb,
  if◌then◌else◌, map, length, take, append_assoc, append-nil, take_all,
}
use mari_paint.Core.Errors.{ok}
use mari_paint.Sigan.Frame.{StrokeFrame}
use mari_paint.Sigan.Journal.Records.{
  Record, frame, stroke_end, note, tag, payload, record_bytes, bytes_of, encode_records,
}
use mari_paint.Sigan.Journal.Writer.{
  Disk, Journal, journal_header, create, flush, write_record, append_frame, mark_stroke_end,
  append_note,
}

-- What an operation that appends `bytes` may do: a failure stays, and without one nothing is lost.
pub record Writes (bytes : List ℕ) (j j' : Journal) : Type 0 where
  pub still_open : j'.is_open ≡ j.is_open
  pub sticky : j.failed ≡ true → j'.failed ≡ true
  pub kept : j'.failed ≡ false → j'.file ++ j'.buf ≡ (j.file ++ j.buf) ++ bytes

-- The record that a call stores: a note may be shortened.
abbrev pub stored : Record → Record
stored (note text) = note (take (if ltb (length text) 65527 then length text else 65527) text)
stored r = r

create-open :
    (opens : Bool) (taken session_id wall_anchor : ℕ) (j : Journal)
    → create opens taken session_id wall_anchor ≡ ok j
    → j.is_open ≡ true
unfolding create
create-open opens taken session_id wall_anchor j made = ground arith

module _ (disk : Disk) where
  -- The outcomes of a flush of an open journal.
  pub record Flushed (j j' : Journal) (done : Bool) : Type 0 where
    pub writes : Writes [] j j'
    pub honest : done ≡ false → j'.failed ≡ true
    pub emptied : j'.buf ≡ []
    pub quiet : done ≡ true → j'.failed ≡ j.failed

  pub flush-Flushed : (j : Journal) → j.is_open ≡ true → Flushed j (flush disk j).0 (flush disk j).1
  unfolding flush
  flush-Flushed j h = ground (
    arith,
    h,
    append-nil (j.file ++ j.buf),
    append-nil j.buf,
    append-nil (j.file ++ take (disk.written j.calls (length j.buf)) j.buf),
    whole,
    nil_of_length j.buf,
  )
    where
      whole :
          disk.written j.calls (length j.buf) ≡ length j.buf
          → take (disk.written j.calls (length j.buf)) j.buf ≡ j.buf
      whole e = take_all j.buf (omega arith)

  -- Appending a record to an open journal: a refusal is a failure, and success changes no flag.
  pub record Appended (bytes : List ℕ) (j j' : Journal) (done : Bool) : Type 0 where
    pub writes : Writes bytes j j'
    pub honest : done ≡ false → j'.failed ≡ true

  write_record-Appended :
      (t : ℕ) (p : List ℕ) (j : Journal)
      → j.is_open ≡ true
      → Appended (record_bytes t p) j (write_record disk t p j).0 (write_record disk t p j).1
  unfolding write_record
  write_record-Appended t p j h = ground (
    arith,
    h,
    flush-Flushed j h,
    append_assoc j.file j.buf (record_bytes t p),
    append_assoc (flush disk j).0.file (flush disk j).0.buf (record_bytes t p),
    append-nil (j.file ++ j.buf),
  )

  pub append_frame-Appended :
      (f : StrokeFrame) (j : Journal)
      → j.is_open ≡ true
      → Appended (bytes_of (frame f)) j (append_frame disk f j).0 (append_frame disk f j).1
  unfolding append_frame
  append_frame-Appended f j h =
      ground (arith, write_record-Appended (tag (frame f)) (payload (frame f)) j h)

  pub mark_stroke_end-Appended :
      (seq : ℕ) (j : Journal)
      → j.is_open ≡ true
      → Appended
          (bytes_of (stroke_end seq))
          j
          (mark_stroke_end disk seq j).0
          (mark_stroke_end disk seq j).1
  unfolding mark_stroke_end
  mark_stroke_end-Appended seq j h =
      let (after, done) = write_record disk (tag (stroke_end seq)) (payload (stroke_end seq)) j in
      let written : Appended (bytes_of (stroke_end seq)) j after done =
        write_record-Appended (tag (stroke_end seq)) (payload (stroke_end seq)) j h in
      ground (
        arith,
        h,
        written,
        flush-Flushed after (written.writes.still_open ∙ h),
        append-nil ((j.file ++ j.buf) ++ bytes_of (stroke_end seq)),
      )

  pub append_note-Appended :
      (text : List ℕ) (j : Journal)
      → j.is_open ≡ true
      → Appended
          (bytes_of (stored (note text)))
          j
          (append_note disk text j).0
          (append_note disk text j).1
  unfolding append_note
  append_note-Appended text j h = write_record-Appended _ _ j h

  unfoldable pub append : Record → Journal → Journal × Bool
  append (frame f) j = append_frame disk f j
  append (stroke_end seq) j = mark_stroke_end disk seq j
  append (note text) j = append_note disk text j

  append-Appended :
      (r : Record) (j : Journal)
      → j.is_open ≡ true
      → Appended (bytes_of (stored r)) j (append r j).0 (append r j).1
  unfolding append
  append-Appended (frame f) j h = append_frame-Appended f j h
  append-Appended (stroke_end seq) j h = mark_stroke_end-Appended seq j h
  append-Appended (note text) j h = append_note-Appended text j h

  -- A session: calls one after another, each whatever the last one answered.
  unfoldable pub session : List Record → Journal → Journal
  session [] j = j
  session (r ∷ rs) j = session rs (append r j).0

  session-Writes :
      (rs : List Record) (j : Journal)
      → j.is_open ≡ true
      → Writes (encode_records (map stored rs)) j (session rs j)
  unfolding session encode_records
  session-Writes [] j h = record {
    still_open = refl;
    sticky = λ e. e;
    kept = λ e. sym (append-nil _);
  }
  session-Writes (r ∷ rs) j h =
      let step = (append-Appended r j h).writes in
      let rest = session-Writes rs (append r j).0 (step.still_open ∙ h) in
      ground (
        arith,
        step,
        rest,
        append_assoc (j.file ++ j.buf) (bytes_of (stored r)) (encode_records (map stored rs)),
      )

  -- After any session on a new journal over any stream: if the journal has not failed, its file
  -- and what is still in its buffer are the header and every record of the session, in order,
  -- whatever the calls answered.
  pub session-honest :
      (opens : Bool) (taken session_id wall_anchor : ℕ) (rs : List Record) (j : Journal)
      → create opens taken session_id wall_anchor ≡ ok j
      → (session rs j).failed ≡ false
      → (session rs j).file ++ (session rs j).buf
        ≡ journal_header session_id wall_anchor ++ encode_records (map stored rs)
  unfolding create
  session-honest opens taken session_id wall_anchor rs j made fine =
      ground (arith, session-Writes rs j, append-nil (journal_header session_id wall_anchor))

  mark_stroke_end-emptied :
      (seq : ℕ) (j : Journal)
      → j.is_open ≡ true
      → (mark_stroke_end disk seq j).1 ≡ true
      → (mark_stroke_end disk seq j).0.buf ≡ []
  unfolding mark_stroke_end
  mark_stroke_end-emptied seq j h done =
      let (after, ok') = write_record disk (tag (stroke_end seq)) (payload (stroke_end seq)) j in
      let open' =
        (write_record-Appended (tag (stroke_end seq)) (payload (stroke_end seq)) j
          h).writes.still_open in
      ground (arith, flush-Flushed after (open' ∙ h))

  -- When, after any session on a new journal, the end of a stroke is answered by success and the
  -- journal has not failed, the stream has taken everything up to and with that end.
  pub mark_stroke_end-durable :
      (opens : Bool) (taken session_id wall_anchor : ℕ) (rs : List Record) (seq : ℕ) (j : Journal)
      → create opens taken session_id wall_anchor ≡ ok j
      → (mark_stroke_end disk seq (session rs j)).1 ≡ true
      → (mark_stroke_end disk seq (session rs j)).0.failed ≡ false
      → (mark_stroke_end disk seq (session rs j)).0.file
        ≡ (journal_header session_id wall_anchor ++ encode_records (map stored rs))
          ++ bytes_of (stroke_end seq)
  mark_stroke_end-durable opens taken session_id wall_anchor rs seq j made done fine =
      let opened = create-open opens taken session_id wall_anchor j made in
      let open' = (session-Writes rs j opened).still_open ∙ opened in
      let step = (mark_stroke_end-Appended seq (session rs j) open').writes in
      let honest = session-honest opens taken session_id wall_anchor rs j made in
      ground (
        arith,
        step,
        honest,
        mark_stroke_end-emptied seq (session rs j) open' done,
        append-nil (mark_stroke_end disk seq (session rs j)).0.file,
      )
