-- ===== src/Sigan/Journal/Prefix.antt =====
-- What `Journal::scan` gives when the reads of a journal's file stop early.
use mari_paint.Prelude.{
  ℕ, ◌+◌, ◌-◌, ◌≡◌, refl, sym, ap, ◌∙◌, Bool, true, false, some, List, [], ◌∷◌, ◌++◌, arith, length,
  length-take, take, leb, ltb, Bool-cases, inl, inr, take-append_right, subst,
}
use mari_paint.Core.Errors.{ok, err, parse_error, ok-injective}
use mari_paint.Sigan.Wire.{IsU64}
use mari_paint.Sigan.Journal.Records.{Record, encode_records}
use mari_paint.Sigan.Journal.Scan.{JournalScan, scan}
use mari_paint.Sigan.Journal.Recovery.{AllValid, survivors, size, mark, torn}
use mari_paint.Sigan.Journal.Writer.{journal_header}
use mari_paint.Sigan.Journal.Crash.{fresh, scan-crash}
use mari_paint.Sigan.Journal.Whole.{frames_of, frames_of-append, frames-add_records}

-- What is kept is the beginning of what was written.
abbrev pub Begins {ℓ} : {A : Type ℓ} → List A → List A → Type ℓ
Begins {A} xs ys = (zs : List A) × (ys ≡ xs ++ zs)

pub survivors-Begins : (k : ℕ) (rs : List Record) → Begins (survivors k rs) rs
unfolding survivors
survivors-Begins k [] = ([], refl)
survivors-Begins k (r ∷ rs) = elim (Bool-cases (leb (size r) k)) [
  | inl whole ↦ let (zs, e) = survivors-Begins (k - size r) rs in (zs, rw whole (ap (r ∷◌) e))
  | inr cut' ↦ (r ∷ rs, rw cut' refl)
]

pub frames_of-Begins :
    (xs : List Record) {ys : List Record} → Begins xs ys → Begins (frames_of xs) (frames_of ys)
frames_of-Begins xs (zs, e) = (frames_of zs, ap frames_of e ∙ frames_of-append xs zs)

length-journal_header :
    (session_id wall_anchor : ℕ) → length (journal_header session_id wall_anchor) ≡ 32
unfolding journal_header
length-journal_header session_id wall_anchor = refl

pub take-header :
    (session_id wall_anchor k : ℕ) (body : List ℕ)
    → take (32 + k) (journal_header session_id wall_anchor ++ body)
      ≡ journal_header session_id wall_anchor ++ take k body
take-header session_id wall_anchor k body =
    let n = length-journal_header session_id wall_anchor in
    let m : 32 + k - length (journal_header session_id wall_anchor) ≡ k = omega (arith, n) in
    take-append_right (32 + k) (journal_header session_id wall_anchor) body (omega (arith, n))
    ∙ ap (λ i. journal_header session_id wall_anchor ++ take i body) m

mark_frames : (b : Bool) (s : JournalScan) → (mark b s).frames ≡ s.frames
mark_frames true s = refl
mark_frames false s = refl

too_short : (file : List ℕ) → ltb (length file) 32 ≡ true → scan (some file) ≡ err parse_error
unfolding scan
too_short file h = rw h refl

-- However few bytes of a journal are read, the frames of a scan that succeeds are the first ones.
pub scan-Begins :
    (session_id wall_anchor : ℕ)
    → IsU64 session_id
    → IsU64 wall_anchor
    → (rs : List Record) (n : ℕ) (s : JournalScan) → AllValid rs
    → scan (some (take n (journal_header session_id wall_anchor ++ encode_records rs))) ≡ ok s
    → Begins s.frames (frames_of rs)
scan-Begins session_id wall_anchor hs hw rs n s v e = elim (Bool-cases (leb 32 n)) [
  | inl whole ↦
      let k = n - 32 in
      let m : n ≡ 32 + k = ground (arith, whole) in
      let read =
        ap (λ i. scan (some (take i (journal_header session_id wall_anchor ++ encode_records rs))))
          m
        ∙ ap (λ bytes. scan (some bytes)) (take-header session_id wall_anchor k (encode_records rs))
        ∙ scan-crash session_id wall_anchor hs hw rs k v in
      let same = ok-injective (sym e ∙ read) in
      let frames =
        ap (λ (t : JournalScan). t.frames) same
        ∙ mark_frames (torn k rs) _
        ∙ frames-add_records (fresh session_id wall_anchor) (survivors k rs) in
      subst (λ fs. Begins fs (frames_of rs)) (sym frames)
        (frames_of-Begins (survivors k rs) (survivors-Begins k rs))
  | inr cut' ↦
      let file = journal_header session_id wall_anchor ++ encode_records rs in
      let short : ltb (length (take n file)) 32 ≡ true = ground (arith, cut', length-take n file) in
      cc (sym e ∙ too_short (take n file) short)
]
