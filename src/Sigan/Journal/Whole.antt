-- ===== src/Sigan/Journal/Whole.antt =====
-- A journal read back whole, and the frames behind a number.
use mari_paint.Prelude.{
  ℕ, ◌≡◌, refl, ap, ◌∙◌, some, List, [], ◌∷◌, ◌++◌, arith, length, append_assoc, append-nil,
  take_all,
}
use mari_paint.Core.Errors.{ok}
use mari_paint.Sigan.Wire.{IsU64}
use mari_paint.Sigan.Frame.{StrokeFrame}
use mari_paint.Sigan.Journal.Records.{Record, frame, stroke_end, note, bytes_of, encode_records}
use mari_paint.Sigan.Journal.Scan.{JournalScan, scan}
use mari_paint.Sigan.Journal.Recovery.{add_records, AllValid, survivors_all, torn_all}
use mari_paint.Sigan.Journal.Writer.{journal_header}
use mari_paint.Sigan.Journal.Crash.{fresh, scan-crash}

-- The frames among the records.
abbrev pub frames_of : List Record → List StrokeFrame
frames_of [] = []
frames_of (frame f ∷ rs) = f ∷ frames_of rs
frames_of (stroke_end _ ∷ rs) = frames_of rs
frames_of (note _ ∷ rs) = frames_of rs

pub frames_of-append : (rs ss : List Record) → frames_of (rs ++ ss) ≡ frames_of rs ++ frames_of ss
frames_of-append [] ss = refl
frames_of-append (frame f ∷ rs) ss = ap (f ∷◌) (frames_of-append rs ss)
frames_of-append (stroke_end _ ∷ rs) ss = frames_of-append rs ss
frames_of-append (note _ ∷ rs) ss = frames_of-append rs ss

pub frames-add_records :
    (s : JournalScan) (rs : List Record) → (add_records s rs).frames ≡ s.frames ++ frames_of rs
frames-add_records s [] = rw append-nil
frames-add_records s (frame f ∷ rs) =
    frames-add_records _ rs ∙ append_assoc s.frames (f ∷ []) (frames_of rs)
frames-add_records s (stroke_end _ ∷ rs) = frames-add_records _ rs
frames-add_records s (note _ ∷ rs) = frames-add_records _ rs

-- A scan of a whole journal of records whose words have their widths reads back every record, and
-- reports no cut.
pub scan-encode_records :
    (session_id wall_anchor : ℕ) (rs : List Record)
    → IsU64 session_id
    → IsU64 wall_anchor
    → AllValid rs
    → scan (some (journal_header session_id wall_anchor ++ encode_records rs))
      ≡ ok (add_records (fresh session_id wall_anchor) rs)
scan-encode_records session_id wall_anchor rs hs hw v =
    let n = length (encode_records rs) in
    let e = scan-crash session_id wall_anchor hs hw rs n v in
    rw
      (
        survivors_all n rs (omega arith),
        torn_all n rs (omega arith),
        take_all (encode_records rs) {n = n} (omega arith),
      )
      at e

pub encode_records-append :
    (rs ss : List Record) → encode_records (rs ++ ss) ≡ encode_records rs ++ encode_records ss
unfolding encode_records
encode_records-append [] ss = refl
encode_records-append (r ∷ rs) ss =
    rw (
      encode_records-append rs ss,
      append_assoc (bytes_of r) (encode_records rs) (encode_records ss),
    )
