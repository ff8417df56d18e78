-- ===== src/Sigan/Journal/Gaps.antt =====
-- The holes in the numbers of a scanned journal's frames (`JournalScan::seqGaps` of
-- sigan/src/journal.cpp).
use mari_paint.Prelude.{
  ℕ, zero, suc, ◌+◌, ◌-◌, ◌^◌, ◌≤◌, ◌<◌, ◌≡◌, refl, sym, ap, ◌∙◌, Bool, true, false, List, [], ◌∷◌,
  ◌++◌, arith, length, length-append, take, ltb, append_assoc, append-nil, elim_both, subst,
  take_all, take-append_left, take-append_self,
}
use mari_paint.Sigan.Frame.{StrokeFrame}
use mari_paint.Sigan.Journal.Scan.{JournalScan}
use mari_paint.Sigan.Publisher.State.{next64}
use mari_paint.Sigan.Publisher.Delivered.{InOrder}

-- The limit on the holes that are listed.
abbrev pub gap_limit : ℕ
gap_limit = 1024

-- The inner loop from `s` up to `next`, and whether the function returns inside it. A round adds a
-- hole, and the round that adds the one beyond the limit is the last.
unfoldable pub gap_loop : ℕ → ℕ → ℕ → List ℕ → List ℕ × Bool
gap_loop zero s next gaps = (gaps, true)
gap_loop (suc fuel) s next gaps = elim (ltb s next) [
  | true ↦
      let gaps' = gaps ++ s ∷ [] in
      elim (ltb gap_limit (length gaps')) [
        | true ↦ (gaps', true)
        | false ↦ gap_loop fuel (next64 s) next gaps'
      ]
  | false ↦ (gaps, false)
]

-- The outer loop, at the number of the frame before, with the fuel for each inner loop.
unfoldable pub gaps_behind : ℕ → ℕ → List StrokeFrame → List ℕ → List ℕ
unfolding gap_loop
gaps_behind fuel prev [] gaps = gaps
gaps_behind fuel prev (f ∷ fs) gaps =
    let (gaps', returned) = gap_loop fuel (next64 prev) f.seq gaps in
    elim returned [ true ↦ gaps' | false ↦ gaps_behind fuel f.seq fs gaps' ]

unfoldable pub seq_gaps_of : List StrokeFrame → List ℕ
unfolding gaps_behind
seq_gaps_of [] = []
seq_gaps_of (f ∷ fs) = gaps_behind (gap_limit + 1) f.seq fs []

unfoldable pub seq_gaps : JournalScan → List ℕ
unfolding seq_gaps_of
seq_gaps s = seq_gaps_of s.frames

-- The numbers `s`, `s + 1`, … below `s + n`, and all that are missing.
abbrev pub range : ℕ → ℕ → List ℕ
range s zero = []
range s (suc n) = s ∷ range (suc s) n

abbrev pub missing_behind : ℕ → List StrokeFrame → List ℕ
missing_behind prev [] = []
missing_behind prev (f ∷ fs) = range (suc prev) (f.seq - suc prev) ++ missing_behind f.seq fs

abbrev pub missing : List StrokeFrame → List ℕ
missing [] = []
missing (f ∷ fs) = missing_behind f.seq fs

-- Every frame behind the first has a number of 64 bits, and the one before it is not the last.
abbrev pub Countable : ℕ → List StrokeFrame → Type 0
Countable prev [] = Unit
Countable prev (f ∷ fs) = (prev + 1 < 2 ^ 64) × (f.seq < 2 ^ 64) × Countable f.seq fs

abbrev pub AllCountable : List StrokeFrame → Type 0
AllCountable [] = Unit
AllCountable (f ∷ fs) = Countable f.seq fs

-- A list of holes, and whether the function returns there: all of `all`, or what the limit allows.
record Listed (all : List ℕ) (r : List ℕ × Bool) : Type 0 where
  cut_off : r.1 ≡ true → r.0 ≡ take (gap_limit + 1) all
  full : r.1 ≡ true → gap_limit < length all
  passed : r.1 ≡ false → r.0 ≡ all
  room : r.1 ≡ false → length r.0 ≤ gap_limit

last_hole :
    (s : ℕ) (gaps ss : List ℕ)
    → length gaps ≡ gap_limit
    → Listed (gaps ++ s ∷ ss) (gaps ++ s ∷ [], true)
last_hole s gaps ss e =
    let n : length (gaps ++ s ∷ []) ≡ gap_limit + 1 = omega (arith, length-append gaps (s ∷ [])) in
    record {
      cut_off = λ _. sym (
          ap (take (gap_limit + 1)) (sym (append_assoc gaps (s ∷ []) ss))
          ∙ take-append_self (gaps ++ s ∷ []) ss (sym n));
      full = λ _. omega (arith, e, length-append gaps (s ∷ ss));
      passed = λ b. cc;
      room = λ b. cc;
    }

gap_loop-Listed :
    (fuel s next : ℕ) (gaps : List ℕ)
    → length gaps ≤ gap_limit
    → gap_limit < length gaps + fuel
    → next < 2 ^ 64
    → Listed (gaps ++ range s (next - s)) (gap_loop fuel s next gaps)
unfolding gap_loop
gap_loop-Listed zero s next gaps le enough h = absurd (omega arith)
gap_loop-Listed (suc fuel) s next gaps le enough h =
    elim_both (Listed (gaps ++ range s (next - s))) (ltb s next)
      (λ more.
        let n : next - s ≡ suc (next - suc s) = ground (arith, more) in
        let up : next64 s ≡ suc s = ground (arith, more) in
        let len = length-append gaps (s ∷ []) in
        rw n (
          elim_both (Listed (gaps ++ s ∷ range (suc s) (next - suc s)))
            (ltb gap_limit (length (gaps ++ s ∷ [])))
            (λ over. last_hole s gaps (range (suc s) (next - suc s)) (ground (arith, over, len)))
            (λ under. rw up (
              subst (λ all. Listed all (gap_loop fuel (suc s) next (gaps ++ s ∷ [])))
                (append_assoc gaps (s ∷ []) (range (suc s) (next - suc s)))
                (gap_loop-Listed fuel (suc s) next (gaps ++ s ∷ []) (ground (arith, under))
                  (omega (arith, len)) h)))))
      (λ done.
        let n : next - s ≡ 0 = ground (arith, done) in
        rw (n, append-nil gaps)
          (record { cut_off = λ b. cc; full = λ b. cc; passed = λ _. refl; room = λ _. le }))

gaps_behind_lem :
    (fuel prev : ℕ) (fs : List StrokeFrame) (gaps : List ℕ)
    → gap_limit < fuel
    → Countable prev fs
    → length gaps ≤ gap_limit
    → gaps_behind fuel prev fs gaps ≡ take (gap_limit + 1) (gaps ++ missing_behind prev fs)
unfolding gaps_behind
gaps_behind_lem fuel prev [] gaps enough h le =
    sym (ap (take (gap_limit + 1)) (append-nil gaps) ∙ take_all gaps {n = 1025} (omega arith))
gaps_behind_lem fuel prev (f ∷ fs) gaps enough (h, hf, hs) le =
    let up : next64 prev ≡ suc prev = omega arith in
    let here = range (suc prev) (f.seq - suc prev) in
    let l =
      subst (λ s. Listed (gaps ++ here) (gap_loop fuel s f.seq gaps)) (sym up)
        (gap_loop-Listed fuel (suc prev) f.seq gaps le (omega arith) (omega arith)) in
    let assoc = append_assoc gaps here (missing_behind f.seq fs) in
    elim_both (λ gs. gs ≡ take (gap_limit + 1) (gaps ++ (here ++ missing_behind f.seq fs)))
      (gap_loop fuel (next64 prev) f.seq gaps).1
      (λ out.
        l.cut_off out
        ∙ sym
            (take-append_left (gap_limit + 1) (gaps ++ here) (missing_behind f.seq fs) (l.full out))
        ∙ ap (take (gap_limit + 1)) assoc)
      (λ on.
        gaps_behind_lem fuel f.seq fs _ enough hs (l.room on)
        ∙ ap (λ gs. take (gap_limit + 1) (gs ++ missing_behind f.seq fs)) (l.passed on)
        ∙ ap (take (gap_limit + 1)) assoc)

-- The listed holes are the numbers that are missing between the frames, in order, cut after the
-- first 1025 of them, when the numbers have 64 bits and only the last frame may have the last one.
pub seq_gaps-missing :
    (s : JournalScan) → AllCountable s.frames → seq_gaps s ≡ take (gap_limit + 1) (missing s.frames)
unfolding seq_gaps seq_gaps_of
seq_gaps-missing s h = by_frames s.frames h
  where
    by_frames :
        (fs : List StrokeFrame)
        → AllCountable fs
        → seq_gaps_of fs ≡ take (gap_limit + 1) (missing fs)
    by_frames [] h = refl
    by_frames (f ∷ fs) h = gaps_behind_lem 1025 f.seq fs [] (omega arith) h (omega arith)

missing_behind-InOrder : (n : ℕ) (fs : List StrokeFrame) → InOrder n fs → missing_behind n fs ≡ []
missing_behind-InOrder n [] o = refl
missing_behind-InOrder n (f ∷ fs) (e, o) =
    let z : f.seq - suc n ≡ 0 = omega arith in
    let ih = missing_behind-InOrder (suc n) fs o in rw (z, e) ih

InOrder-Countable :
    (n : ℕ) (fs : List StrokeFrame) → n + length fs < 2 ^ 64 → InOrder n fs → Countable n fs
InOrder-Countable n [] lt o = tt
InOrder-Countable n (f ∷ fs) lt (e, o) = (
  omega arith,
  omega arith,
  subst (λ m. Countable m fs) (sym e) (InOrder-Countable (suc n) fs (omega arith) o),
)

-- Frames that are numbered without a hole have none listed.
pub seq_gaps-InOrder :
    (s : JournalScan) (n : ℕ) → InOrder n s.frames → n + length s.frames < 2 ^ 64 → seq_gaps s ≡ []
seq_gaps-InOrder s n o lt =
    let (some', none') = by_frames s.frames o lt in
    seq_gaps-missing s some' ∙ ap (take (gap_limit + 1)) none'
  where
    by_frames :
        (fs : List StrokeFrame)
        → InOrder n fs
        → n + length fs < 2 ^ 64
        → AllCountable fs × (missing fs ≡ [])
    by_frames [] o lt = (tt, refl)
    by_frames (f ∷ fs) (e, o) lt = (
      subst (λ m. Countable m fs) (sym e) (InOrder-Countable (suc n) fs (omega arith) o),
      rw e (missing_behind-InOrder (suc n) fs o),
    )
