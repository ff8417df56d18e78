-- ===== src/Sigan/Journal/Crash.antt =====
-- The whole file of a session that stopped at any byte: what `Journal::scan` and `recoverJournal`
-- make of it.
use mari_paint.Prelude.{
  ℕ, ◌≡◌, refl, ap, ◌∙◌, false, some, List, [], ◌++◌, arith, length, take, length-append, ltb,
}
use mari_paint.Core.Errors.{ok, map_ok}
use mari_paint.Sigan.Wire.{IsU64, join_u64}
use mari_paint.Sigan.Journal.Records.{Record, encode_records}
use mari_paint.Sigan.Journal.Scan.{JournalScan, scan_loop, scan, keep_complete, recover_journal}
use mari_paint.Sigan.Journal.Recovery.{
  add_records, AllValid, survivors, torn, mark, scan_loop-take, finished, keep_complete-add_records,
}
use mari_paint.Sigan.Journal.Writer.{journal_header}

-- An empty scan of a journal with this session and start.
abbrev pub fresh : ℕ → ℕ → JournalScan
fresh session_id wall_anchor = record {
  version = 1;
  session_id = session_id;
  wall_anchor_unix_ms = wall_anchor;
  frames = [];
  complete_count = 0;
  last_complete_seq = 0;
  truncated = false;
  notes = [];
}

module _ (session_id wall_anchor : ℕ) (hs : IsU64 session_id) (hw : IsU64 wall_anchor) where
  -- The header is read back, and the loop starts behind it.
  scan-header :
      (body : List ℕ)
      → scan (some (journal_header session_id wall_anchor ++ body))
        ≡ ok (
            scan_loop
              (length (journal_header session_id wall_anchor ++ body))
              body
              (fresh session_id wall_anchor))
  unfolding scan journal_header
  scan-header body =
      let enough : ltb (length (journal_header session_id wall_anchor ++ body)) 32 ≡ false =
        ground arith in
      rw enough λ i. ok (
        scan_loop (length (journal_header session_id wall_anchor ++ body)) body
          (fresh (join_u64 session_id hs i) (join_u64 wall_anchor hw i)))

  -- A scan of a journal of records whose words have their widths, cut anywhere behind its header,
  -- succeeds. It gives the records that are whole in what is left, in order, and it says that the
  -- file was cut exactly when a record is torn.
  pub scan-crash :
      (rs : List Record) (k : ℕ)
      → AllValid rs
      → scan (some (journal_header session_id wall_anchor ++ take k (encode_records rs)))
        ≡ ok (mark (torn k rs) (add_records (fresh session_id wall_anchor) (survivors k rs)))
  scan-crash rs k v =
      scan-header _
      ∙ ap ok (
          scan_loop-take rs k _ (fresh session_id wall_anchor) v (
            omega (
              arith,
              length-append (journal_header session_id wall_anchor) (take k (encode_records rs)),
            )))

  -- Recovery of a journal of records whose words have their widths, cut anywhere behind its
  -- header, succeeds and gives exactly the frames of the strokes that were finished in what is
  -- left.
  pub recover_journal-crash :
      (rs : List Record) (k : ℕ)
      → AllValid rs
      → (s : JournalScan) × (recover_journal
            (some (journal_header session_id wall_anchor ++ take k (encode_records rs)))
          ≡ ok s)
        × (s.frames ≡ finished [] [] (survivors k rs))
  unfolding recover_journal
  recover_journal-crash rs k v = (
    keep_complete (mark (torn k rs) (add_records (fresh session_id wall_anchor) (survivors k rs))),
    ap (map_ok keep_complete) (scan-crash rs k v),
    keep_complete-add_records (survivors k rs) [] [] (fresh session_id wall_anchor) (torn k rs)
        (record { all = refl; complete = refl }),
  )
