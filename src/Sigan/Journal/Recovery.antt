-- ===== src/Sigan/Journal/Recovery.antt =====
-- The file of a crashed session: how the loop of `Journal::scan` reads the first `k` bytes of a
-- journal, and what `recoverJournal` keeps of them.
use mari_paint.Prelude.{
  ℕ, zero, suc, ◌+◌, ◌-◌, ◌≤◌, ◌<◌, ◌≡◌, refl, sym, ap, ◌∙◌, Bool, true, false, some, List, [], ◌∷◌,
  ◌++◌, arith, leb, ltb, leb→le, if◌then◌else◌, Bool-cases, inl, inr, length, take, length-append,
  length-take, append_assoc, append-nil, take-append_left, take-append_right, take-append_self,
  take_all,
}
use mari_paint.Sigan.Wire.{get_u64, put_u64, get_u64-put_u64, length-put_u64, IsU32}
use mari_paint.Sigan.Frame.{StrokeFrame, decode_frame, encode_frame}
use mari_paint.Sigan.Frame.Laws.{length-encode_frame, decode_frame-encode_frame}
use mari_paint.Sigan.Journal.Records.{
  Record, frame, stroke_end, note, tag, payload, record_bytes, bytes_of, encode_records, IsValid,
}
use mari_paint.Sigan.Journal.Scan.{
  JournalScan, value_of, u64_at, stop, go, read_record, scan_round, scan_loop, keep_complete,
}
use mari_paint.Sigan.Journal.Laws.{length-record_bytes, scan_round-record_bytes, scan_round-take}

-- What one record adds to the result of a scan.
abbrev pub add_record : JournalScan → Record → JournalScan
add_record s (frame f) = record s { frames = s.frames ++ f ∷ [] }
add_record s (stroke_end seq) = record s {
  last_complete_seq = seq;
  complete_count = length s.frames;
}
add_record s (note text) = record s { notes = s.notes ++ text ∷ [] }

abbrev pub add_records : JournalScan → List Record → JournalScan
add_records s [] = s
add_records s (r ∷ rs) = add_records (add_record s r) rs

abbrev pub AllValid : List Record → Type 0
AllValid [] = Unit
AllValid (r ∷ rs) = IsValid r × AllValid rs

abbrev pub size : Record → ℕ
size r = 9 + length (payload r)

-- The records that lie whole within the first `k` bytes, and whether those end inside a record.
unfoldable pub survivors : ℕ → List Record → List Record
survivors k [] = []
survivors k (r ∷ rs) =
    let rest = survivors (k - size r) rs in if leb (size r) k then r ∷ rest else []

pub torn : ℕ → List Record → Bool
torn k [] = false
torn zero (r ∷ rs) = false
torn (suc k) (r ∷ rs) =
    let rest = torn (suc k - size r) rs in if leb (size r) (suc k) then rest else true

abbrev pub mark : Bool → JournalScan → JournalScan
mark b s = if b then record s { truncated = true } else s

payload-IsU32 : (r : Record) → IsValid r → IsU32 (length (payload r))
unfolding payload
payload-IsU32 (frame f) v = omega (arith, length-encode_frame f)
payload-IsU32 (stroke_end seq) v = omega (arith, length-put_u64 seq)
payload-IsU32 (note text) v = v

read_record-valid :
    (r : Record) (rest : List ℕ) (s : JournalScan)
    → IsValid r
    → read_record (tag r) (payload r) rest s ≡ go rest (add_record s r)
unfolding read_record tag payload u64_at
read_record-valid (frame f) rest s v =
    let d : decode_frame (encode_frame f) ≡ some (f, []) =
      rw append-nil at (decode_frame-encode_frame f [] v) in
    ground (arith, length-encode_frame f, d)
read_record-valid (stroke_end seq) rest s v =
    let d : value_of (get_u64 (put_u64 seq)) ≡ seq =
      ap value_of (rw append-nil at (get_u64-put_u64 seq [] v)) in
    ground (arith, length-put_u64 seq, d)
read_record-valid (note text) rest s v = refl

scan_loop-go :
    (fuel : ℕ) (bytes rest : List ℕ) (s s' : JournalScan)
    → 0 < length bytes
    → scan_round bytes s ≡ go rest s'
    → scan_loop (suc fuel) bytes s ≡ scan_loop fuel rest s'
unfolding scan_loop
scan_loop-go fuel [] rest s s' h e = absurd (omega arith)
scan_loop-go fuel (b ∷ bytes) rest s s' h e = rw (e, scan_loop)

scan_loop-stop :
    (fuel : ℕ) (bytes : List ℕ) (s s' : JournalScan)
    → 0 < length bytes
    → scan_round bytes s ≡ stop s'
    → scan_loop (suc fuel) bytes s ≡ s'
unfolding scan_loop
scan_loop-stop fuel [] s s' h e = absurd (omega arith)
scan_loop-stop fuel (b ∷ bytes) s s' h e = rw (e, scan_loop)

scan_loop-nil : (fuel : ℕ) (s : JournalScan) → scan_loop fuel [] s ≡ s
unfolding scan_loop
scan_loop-nil zero s = refl
scan_loop-nil (suc fuel) s = refl

-- Reading the first `k` bytes of a journal gives the records that survived whole, in order, and
-- reports a torn tail exactly where there is one.
pub scan_loop-take :
    (rs : List Record) (k fuel : ℕ) (s : JournalScan)
    → AllValid rs
    → length (take k (encode_records rs)) ≤ fuel
    → scan_loop fuel (take k (encode_records rs)) s
      ≡ mark (torn k rs) (add_records s (survivors k rs))
unfolding encode_records survivors torn record_bytes
scan_loop-take [] zero fuel s v h = scan_loop-nil fuel s
scan_loop-take [] (suc k) fuel s v h = scan_loop-nil fuel s
scan_loop-take (r ∷ rs) zero fuel s v h = scan_loop-nil fuel s ∙ ground arith
scan_loop-take (r ∷ rs) (suc k) zero s v h = absurd (
    omega (
      arith,
      length-take (suc k) (bytes_of r ++ encode_records rs),
      length-append (bytes_of r) (encode_records rs),
      length-record_bytes (tag r) (payload r),
    ))
scan_loop-take (r ∷ rs) (suc k) (suc fuel) s v h = elim (Bool-cases (leb (size r) (suc k))) [
  | inl fits ↦
      rw (fits, take-append_right (suc k) (bytes_of r) (encode_records rs) (ground (arith, n)))
        (scan_loop-go fuel _ _ s (add_record s r)
            (omega (
              arith,
              length-append (bytes_of r) (take (suc k - length (bytes_of r)) (encode_records rs)),
              n,
            ))
            (scan_round-record_bytes (tag r) (payload r) _ s (payload-IsU32 r v.0)
              ∙ read_record-valid r _ s v.0)
          ∙ rw n (scan_loop-take rs (suc k - size r) fuel (add_record s r) v.1 (room fits)))
  | inr short ↦
      rw (short, take-append_left (suc k) (bytes_of r) (encode_records rs) (ground (arith, n)))
        (scan_loop-stop fuel _ s _ (omega (arith, length-take (suc k) (bytes_of r)))
          (scan_round-take (tag r) (payload r) (suc k) s (payload-IsU32 r v.0) (ground (arith, n))))
]
  where
    n : length (bytes_of r) ≡ size r
    n = length-record_bytes (tag r) (payload r)

    room : leb (size r) (suc k) ≡ true → length (take (suc k - size r) (encode_records rs)) ≤ fuel
    room fits =
        let cap : length (take (suc k) (bytes_of r ++ encode_records rs)) ≤ suc fuel = h in
        let fit : size r ≤ suc k = leb→le _ _ fits in
        omega (
          arith,
          length-take (suc k) (bytes_of r ++ encode_records rs),
          length-take (suc k - size r) (encode_records rs),
          length-append (bytes_of r) (encode_records rs),
          n,
        )

-- The frames of finished strokes: what stands before the last end of a stroke.
unfoldable pub finished : List StrokeFrame → List StrokeFrame → List Record → List StrokeFrame
finished done pending [] = done
finished done pending (frame f ∷ rs) = finished done (pending ++ f ∷ []) rs
finished done pending (stroke_end _ ∷ rs) = finished (done ++ pending) [] rs
finished done pending (note _ ∷ rs) = finished done pending rs

-- A scan result whose first frames, `done`, belong to finished strokes.
pub record Splits (done pending : List StrokeFrame) (s : JournalScan) : Type 0 where
  pub all : s.frames ≡ done ++ pending
  pub complete : s.complete_count ≡ length done

keep_complete_prefix :
    (s : JournalScan)
    → s.complete_count ≤ length s.frames
    → (keep_complete s).frames ≡ take s.complete_count s.frames
unfolding keep_complete
keep_complete_prefix s h = elim (Bool-cases (ltb s.complete_count (length s.frames))) [
  | inl more ↦ rw more
  | inr all ↦ rw all (sym (take_all s.frames {n = s.complete_count} (ground arith)))
]

frames-keep_complete :
    (done pending : List StrokeFrame) (s : JournalScan)
    → Splits done pending s
    → (b : Bool) → (keep_complete (mark b s)).frames ≡ done
frames-keep_complete done pending s h b =
    keep_complete_prefix (mark b s) (ground (arith, fits)) ∙ prefix b
  where
    fits : s.complete_count ≤ length s.frames
    fits = rw (h.all, h.complete) (omega (arith, length-append done pending))

    prefix : (b : Bool) → take (mark b s).complete_count (mark b s).frames ≡ done
    prefix true = rw h.all (take-append_self done pending h.complete)
    prefix false = rw h.all (take-append_self done pending h.complete)

-- Recovery keeps exactly the frames of finished strokes.
pub keep_complete-add_records :
    (rs : List Record) (done pending : List StrokeFrame) (s : JournalScan) (b : Bool)
    → Splits done pending s
    → (keep_complete (mark b (add_records s rs))).frames ≡ finished done pending rs
unfolding finished
keep_complete-add_records [] done pending s b h = frames-keep_complete done pending s h b
keep_complete-add_records (frame f ∷ rs) done pending s b h =
    keep_complete-add_records rs done (pending ++ f ∷ []) _ b
      (record { all = rw (h.all, append_assoc); complete = h.complete })
keep_complete-add_records (stroke_end seq ∷ rs) done pending s b h =
    keep_complete-add_records rs (done ++ pending) [] _ b
      (record { all = rw (h.all, append-nil); complete = ap length h.all })
keep_complete-add_records (note text ∷ rs) done pending s b h =
    keep_complete-add_records rs done pending _ b (record { all = h.all; complete = h.complete })

pub survivors_all :
    (k : ℕ) (rs : List Record) → length (encode_records rs) ≤ k → survivors k rs ≡ rs
unfolding survivors encode_records
survivors_all k [] h = refl
survivors_all k (r ∷ rs) h =
    let n = length-record_bytes (tag r) (payload r) in
    let m = length-append (bytes_of r) (encode_records rs) in
    ground (arith, n, m, survivors_all (k - size r) rs)

pub torn_all : (k : ℕ) (rs : List Record) → length (encode_records rs) ≤ k → torn k rs ≡ false
unfolding torn encode_records
torn_all k [] h = refl
torn_all zero (r ∷ rs) h = refl
torn_all (suc k) (r ∷ rs) h =
    let n = length-record_bytes (tag r) (payload r) in
    let m = length-append (bytes_of r) (encode_records rs) in
    ground (arith, n, m, torn_all (suc k - size r) rs)
