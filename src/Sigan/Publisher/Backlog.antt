-- ===== src/Sigan/Publisher/Backlog.antt =====
-- The journal of a publisher: what it holds, and what `framesAfter` reads back from it.
use mari_paint.Prelude.{
  ℕ, zero, suc, ◌-◌, ◌≡◌, refl, sym, ap, ◌∙◌, true, false, some, List, [], ◌∷◌, ◌++◌, arith, ltb,
  drop, append_assoc, append-nil, Bool-cases, inl, inr, Option, none, length, take_all, subst,
}
use mathlib.Core.Path.{◌≡⟨◌⟩◌, ◌∎}
use mari_paint.Core.Errors.{ok, map_ok, map_ok-inverted}
use mari_paint.Sigan.Wire.{IsU64}
use mari_paint.Sigan.Frame.{StrokeFrame}
use mari_paint.Sigan.Journal.Records.{Record, bytes_of, encode_records, IsValid}
use mari_paint.Sigan.Journal.Scan.{JournalScan, scan, frames_after}
use mari_paint.Sigan.Journal.Recovery.{AllValid}
use mari_paint.Sigan.Journal.Writer.{Disk, Journal, journal_header, flush, read_part, reopened}
use mari_paint.Sigan.Journal.Crash.{fresh}
use mari_paint.Sigan.Journal.Prefix.{Begins, scan-Begins}
use mari_paint.Sigan.Journal.Intact.{Writes, flush-Flushed}
use mari_paint.Sigan.Journal.Whole.{
  frames_of, frames-add_records, scan-encode_records, encode_records-append,
}
use mari_paint.Sigan.Publisher.Delivered.{InOrder}
use mari_paint.Sigan.Publisher.Steps.{frames_of_backlog}

drop_nil : (n : ℕ) → drop {A = StrokeFrame} n [] ≡ []
drop_nil zero = refl
drop_nil (suc n) = refl

frames_after-drop :
    (after n : ℕ) (fs : List StrokeFrame)
    → InOrder n fs
    → frames_after after fs ≡ drop (after - n) fs
unfolding frames_after
frames_after-drop after n [] o = sym (drop_nil (after - n))
frames_after-drop after n (f ∷ fs) (e, o) =
    let ih = frames_after-drop after (suc n) fs o in
    elim (Bool-cases (ltb after f.seq)) [
      | inl keep ↦
          let now : after - n ≡ 0 = ground arith in
          let next : after - suc n ≡ 0 = ground arith in rw (keep, now) (ap (f ∷◌) (rw next at ih))
      | inr skip ↦ let now : after - n ≡ suc (after - suc n) = ground arith in rw (skip, now) ih
    ]

pub InOrder-Begins : (n : ℕ) (xs zs : List StrokeFrame) → InOrder n (xs ++ zs) → InOrder n xs
InOrder-Begins n [] zs o = tt
InOrder-Begins n (x ∷ xs) zs (e, o) = (e, InOrder-Begins _ xs zs o)

drop-Begins : (n : ℕ) (xs zs : List StrokeFrame) → Begins (drop n xs) (drop n (xs ++ zs))
drop-Begins zero xs zs = (zs, refl)
drop-Begins (suc n) [] zs = (drop (suc n) zs, refl)
drop-Begins (suc n) (x ∷ xs) zs = drop-Begins n xs zs

-- Every read of a file that has been written gives all of it.
abbrev pub ReadsAll : Disk → Type 0
ReadsAll disk = (calls size : ℕ) → disk.reread calls size ≡ some size

AllValid-append :
    (rs : List Record) (r : Record) → AllValid rs → IsValid r → AllValid (rs ++ r ∷ [])
AllValid-append [] r v w = (w, tt)
AllValid-append (s ∷ rs) r (h, v) w = (h, AllValid-append rs r v w)

module _ (session_id wall_anchor : ℕ) where
  -- An open journal that holds these records, in its file and its buffer.
  pub record Holds (rs : List Record) (j : Journal) : Type 0 where
    pub opened : j.is_open ≡ true
    pub content : j.file ++ j.buf ≡ journal_header session_id wall_anchor ++ encode_records rs
    pub valid : AllValid rs

  pub Holds-write :
      {rs : List Record} {j j' : Journal} (r : Record)
      → IsValid r
      → Writes (bytes_of r) j j'
      → j'.failed ≡ false
      → Holds rs j
      → Holds (rs ++ r ∷ []) j'
  unfolding encode_records
  Holds-write {rs} {j} {j'} r v w fine h = record {
    opened = w.still_open ∙ h.opened;
    content =
        j'.file ++ j'.buf
        ≡⟨ w.kept fine ⟩ (j.file ++ j.buf) ++ bytes_of r
        ≡⟨ ap (◌++ bytes_of r) h.content ⟩
          (journal_header session_id wall_anchor ++ encode_records rs) ++ bytes_of r
        ≡⟨ append_assoc (journal_header session_id wall_anchor) (encode_records rs) (bytes_of r) ⟩
          journal_header session_id wall_anchor ++ (encode_records rs ++ bytes_of r)
        ≡⟨ ap (journal_header session_id wall_anchor ++◌) (
            sym (
              encode_records-append rs (r ∷ [])
              ∙ ap (encode_records rs ++◌) (append-nil (bytes_of r)))) ⟩
          journal_header session_id wall_anchor ++ encode_records (rs ++ r ∷ []) ∎;
    valid = AllValid-append rs r h.valid v;
  }

  module _ (disk : Disk) (hs : IsU64 session_id) (hw : IsU64 wall_anchor) where
    flushed_file :
        (rs : List Record) (j : Journal)
        → Holds rs j
        → (flush disk j).0.failed ≡ false
        → (flush disk j).0.file ≡ journal_header session_id wall_anchor ++ encode_records rs
    flushed_file rs j h fine =
        let f = flush-Flushed disk j h.opened in
        let kept = f.writes.kept fine in
        sym (append-nil (flush disk j).0.file)
        ∙ ap ((flush disk j).0.file ++◌) (sym f.emptied)
        ∙ kept
        ∙ append-nil (j.file ++ j.buf)
        ∙ h.content

    flushed-Holds :
        (rs : List Record) (j : Journal)
        → Holds rs j
        → (flush disk j).0.failed ≡ false
        → Holds rs (flush disk j).0
    flushed-Holds rs j h fine =
        let f = flush-Flushed disk j h.opened in
        record {
          opened = f.writes.still_open ∙ h.opened;
          content = f.writes.kept fine ∙ append-nil (j.file ++ j.buf) ∙ h.content;
          valid = h.valid;
        }

    read_back :
        (after : ℕ) (rs : List Record)
        → InOrder 0 (frames_of rs)
        → AllValid rs
        → map_ok
            (λ s. frames_after after s.frames)
            (scan (some (journal_header session_id wall_anchor ++ encode_records rs)))
          ≡ ok (drop after (frames_of rs))
    read_back after rs o v =
        let e : after - 0 ≡ after = omega arith in
        ap (map_ok (λ s. frames_after after s.frames))
          (scan-encode_records session_id wall_anchor rs hs hw v)
        ∙ ap (λ fs. ok (frames_after after fs))
            (frames-add_records (fresh session_id wall_anchor) rs)
        ∙ ap ok (frames_after-drop after 0 (frames_of rs) o ∙ ap (λ n. drop n (frames_of rs)) e)

    -- Behind a backlog that is read, a journal that has not failed holds what it held.
    pub backlog-Holds :
        (after : ℕ) (rs : List Record) (j : Journal)
        → Holds rs j
        → (frames_of_backlog disk after j).1.failed ≡ false
        → ((flush disk j).1 ≡ true)
          × ((flush disk j).0.failed ≡ false)
          × Holds rs (frames_of_backlog disk after j).1
    unfolding frames_of_backlog
    backlog-Holds after rs j h fine =
        let f = flush-Flushed disk j h.opened in
        let whole : (flush disk j).0.failed ≡ false = ground (arith, fine) in
        let done : (flush disk j).1 ≡ true = ground (arith, f, whole) in
        (done, whole, rw done (flushed-Holds rs j h whole))

    -- The frames of a scan that is read from the first bytes of the file.
    read_part-Begins :
        (after : ℕ) (rs : List Record) (opens : Option ℕ) (gs : List StrokeFrame)
        → InOrder 0 (frames_of rs)
        → AllValid rs
        → map_ok
            (λ (s : JournalScan). frames_after after s.frames)
            (scan (read_part opens (journal_header session_id wall_anchor ++ encode_records rs)))
          ≡ ok gs
        → Begins gs (drop after (frames_of rs))
    unfolding read_part scan
    read_part-Begins after rs none gs o v e = cc e
    read_part-Begins after rs (some n) gs o v e =
        let (s, read, kept) = map_ok-inverted _ _ e in
        let (zs, all) = scan-Begins session_id wall_anchor hs hw rs n s v read in
        let (ws, rest) = drop-Begins after s.frames zs in
        let z : after - 0 ≡ after = omega arith in
        let o' = InOrder-Begins 0 s.frames zs (subst (InOrder 0) all o) in
        let here = sym kept ∙ frames_after-drop after 0 s.frames o' ∙ ap (λ m. drop m s.frames) z in
        (ws, ap (drop after) all ∙ rest ∙ ap (◌++ ws) (sym here))

    -- What a journal that has not failed gives back are the first of the frames behind the number.
    pub frames_of_backlog-Begins :
        (after : ℕ) (rs : List Record) (j : Journal) (gs : List StrokeFrame)
        → InOrder 0 (frames_of rs)
        → Holds rs j
        → (frames_of_backlog disk after j).1.failed ≡ false
        → (frames_of_backlog disk after j).0 ≡ ok gs
        → Begins gs (drop after (frames_of rs))
    unfolding frames_of_backlog reopened
    frames_of_backlog-Begins after rs j gs o h fine e =
        let (done, whole, _) = backlog-Holds after rs j h fine in
        let file = flushed_file rs j h whole in
        let n = disk.reread (flush disk j).0.calls (length (flush disk j).0.file) in
        read_part-Begins after rs n gs o h.valid (
          ap
            (λ bytes.
              map_ok (λ (s : JournalScan). frames_after after s.frames) (scan (read_part n bytes)))
            (sym file)
          ∙ rw done at e)

    -- When all of it is read, they are all of them.
    pub frames_of_backlog_lem :
        (after : ℕ) (rs : List Record) (j : Journal)
        → ReadsAll disk
        → InOrder 0 (frames_of rs)
        → Holds rs j
        → (frames_of_backlog disk after j).1.failed ≡ false
        → (frames_of_backlog disk after j).0 ≡ ok (drop after (frames_of rs))
    unfolding frames_of_backlog reopened read_part
    frames_of_backlog_lem after rs j all o h fine =
        let (done, whole, _) = backlog-Holds after rs j h fine in
        let file = (flush disk j).0.file in
        rw done (
          ap
            (λ n.
              map_ok (λ (s : JournalScan). frames_after after s.frames) (scan (read_part n file)))
            (all (flush disk j).0.calls (length file))
          ∙ ap
              (λ bytes.
                map_ok (λ (s : JournalScan). frames_after after s.frames) (scan (some bytes)))
              (take_all file (omega arith) ∙ flushed_file rs j h whole)
          ∙ read_back after rs o h.valid)
