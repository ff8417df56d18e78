-- ===== src/Record/Factory.antt =====
-- `SiganRecorderFactory` of record/src/sigan_recorder.cpp: it opens a journal for each document and
-- keeps the sum of what all recorders count. A recorder is its handle. The file system (whether the
-- directory can be used, the join of a path, the file name of a hint) is given as arguments.
pub mod Totals
pub mod Names
pub mod Journals
use mari_paint.Prelude.{
  ℕ, ◌+◌, ◌%◌, ◌^◌, Bool, true, false, ◌&&◌, ◌||◌, not, List, [], ◌∷◌, ◌++◌, ltb, leb, ◌==◌,
  if◌then◌else◌, length, take, Option, none, some, get_elem?,
}
use mari_paint.Core.Errors.{ErrorCode, Result, ok, err}
use mari_paint.Sigan.Handshake.{codes}
use mari_paint.Sigan.Handshake.Fields.{decimal}
use mari_paint.Record.Tally.{RecordingTally, no_tally, merge}

-- `sanitize`
unfoldable pub is_name_char : ℕ → Bool
is_name_char c =
    (leb b'a' c && leb c b'z')
    || (leb b'A' c && leb c b'Z')
    || (leb b'0' c && leb c b'9')
    || c == b'-'
    || c == b'_'

unfoldable pub replace_chars : List ℕ → List ℕ
unfolding is_name_char
replace_chars [] = []
replace_chars (c ∷ s) = (if is_name_char c then c else b'-') ∷ replace_chars s

unfoldable pub sanitize : List ℕ → List ℕ
unfolding replace_chars
sanitize s =
    let out = replace_chars s in
    let cut' = if ltb 32 (length out) then take 32 out else out in
    if length cut' == 0 then codes "doc" else cut'

-- The name of a segment's journal.
unfoldable pub journal_name : List ℕ → ℕ → List ℕ
unfolding sanitize decimal
journal_name file_name segment =
    codes "mari-" ++ (sanitize file_name ++ (b'-' ∷ (decimal segment ++ codes ".jrnl")))

pub record Factory : Type 0 where
  pub journals : List (List ℕ)
  pub live : List ℕ
  pub closed : RecordingTally
  pub next_segment : ℕ

abbrev pub new_factory : Factory
new_factory = record { journals = []; live = []; closed = no_tally; next_segment = 1 }

-- The end of `openForDocument`, at the answer of the recorder.
unfoldable pub opened_or_not : Result ℕ → List ℕ → Factory → Result ℕ × Factory
opened_or_not (err e) path f = (err e, f)
opened_or_not (ok h) path f =
    (ok h, record f { journals = f.journals ++ path ∷ []; live = f.live ++ h ∷ [] })

-- `openForDocument`: `join` puts a name into the directory, `open_at` opens a recorder for a path
-- and a segment and gives its handle.
unfoldable pub open_for_document :
    Bool → (List ℕ → List ℕ) → List ℕ → (List ℕ → ℕ → Result ℕ) → Factory → Result ℕ × Factory
unfolding journal_name opened_or_not
open_for_document usable join file_name open_at f =
    if not usable
    then (err ErrorCode.io_error, f)
    else let segment = f.next_segment in
      let path = join (journal_name file_name segment) in
      opened_or_not (open_at path segment) path (record f { next_segment = (segment + 1) % 2 ^ 64 })

unfoldable pub is_live : ℕ → List ℕ → Bool
is_live r [] = false
is_live r (h ∷ hs) = h == r || is_live r hs

unfoldable pub erase_live : ℕ → List ℕ → List ℕ
erase_live r [] = []
erase_live r (h ∷ hs) = let rest = erase_live r hs in if h == r then hs else h ∷ rest

-- `retire`, where `tally` says what a recorder has counted.
unfoldable pub retire : (ℕ → RecordingTally) → ℕ → Factory → Factory
unfolding is_live erase_live
retire tally r f =
    if is_live r f.live
    then record f { closed = merge (tally r) f.closed; live = erase_live r f.live }
    else f

-- The loop of `totalTally`.
unfoldable pub total_from : (ℕ → RecordingTally) → List ℕ → RecordingTally → RecordingTally
total_from tally [] out = out
total_from tally (h ∷ hs) out = total_from tally hs (merge (tally h) out)

unfoldable pub total_tally : (ℕ → RecordingTally) → Factory → RecordingTally
unfolding total_from
total_tally tally f = total_from tally f.live f.closed

-- `liveAt`
unfoldable pub live_at : ℕ → Factory → Option ℕ
live_at i f = get_elem? f.live i
