-- ===== src/Sigan/Journal/Laws.antt =====
-- What a scan reads back of the records that a writer made.
use mari_paint.Prelude.{
  ℕ, suc, ◌+◌, ◌≤◌, ◌<◌, ◌⊎◌, inl, inr, dec_lt, ◌≡◌, refl, ap, ◌∙◌, List, [], ◌∷◌, ◌++◌, arith,
  length, take, drop, get_or, length-append, append_assoc, take-append_self, drop-append_self,
  length-take,
}
use mari_paint.Sigan.Wire.{IsU32, put_u32, get_u32, join_u32, length-put_u32, get_u32-put_u32}
use mari_paint.Sigan.Frame.{crc32}
use mari_paint.Sigan.Journal.Records.{record_head, record_bytes}
use mari_paint.Sigan.Journal.Scan.{JournalScan, value_of, u32_at, cut, read_record, scan_round}

crc32-IsU32 : (bytes : List ℕ) → IsU32 (crc32 bytes 0)
unfolding crc32
crc32-IsU32 bytes = omega arith

length-record_head : (t : ℕ) (p : List ℕ) → length (record_head t p) ≡ 5 + length p
unfolding record_head put_u32
length-record_head t p = omega arith

pub length-record_bytes : (t : ℕ) (p : List ℕ) → length (record_bytes t p) ≡ 9 + length p
unfolding record_bytes
length-record_bytes t p = omega (
  arith,
  length-append (record_head t p) (put_u32 (crc32 (record_head t p) 0)),
  length-record_head t p,
  length-put_u32 (crc32 (record_head t p) 0),
)

u32_at_lem :
    (xs ys : List ℕ) (v : ℕ) {n : ℕ}
    → IsU32 v
    → n ≡ length xs
    → u32_at (xs ++ (put_u32 v ++ ys)) n ≡ v
unfolding u32_at
u32_at_lem xs ys v h e =
    ap value_of (ap get_u32 (drop-append_self xs (put_u32 v ++ ys) e) ∙ get_u32-put_u32 v ys h)

module _ (t : ℕ) (p more : List ℕ) where
  abbrev head : List ℕ
  head = record_head t p

  abbrev check : List ℕ
  check = put_u32 (crc32 head 0)

  abbrev whole : List ℕ
  whole = record_bytes t p ++ more

  whole-eq : whole ≡ head ++ (check ++ more)
  unfolding record_bytes
  whole-eq = append_assoc head check more

  u32_at-len : IsU32 (length p) → u32_at whole 1 ≡ length p
  unfolding record_head
  u32_at-len h =
      rw (whole-eq, append_assoc (put_u32 (length p)) p (check ++ more))
        (u32_at_lem (t ∷ []) (p ++ (check ++ more)) (length p) {n = 1} h refl)

  take-head : take (5 + length p) whole ≡ head
  take-head =
      rw whole-eq (take-append_self head (check ++ more) (omega (arith, length-record_head t p)))

  u32_at-crc : u32_at whole (5 + length p) ≡ crc32 head 0
  u32_at-crc = rw whole-eq (
      u32_at_lem head more (crc32 head 0) (crc32-IsU32 head)
        (omega (arith, length-record_head t p)))

  take-payload : take (length p) (drop 5 whole) ≡ p
  unfolding record_head put_u32
  take-payload = rw whole-eq (take-append_self p (check ++ more) refl)

  drop-record : drop (9 + length p) whole ≡ more
  drop-record = drop-append_self (record_bytes t p) more (omega (arith, length-record_bytes t p))

  -- A whole record, of a known kind or not, is handed to the `switch`.
  pub scan_round-record_bytes :
      (s : JournalScan) → IsU32 (length p) → scan_round whole s ≡ read_record t p more s
  unfolding scan_round
  scan_round-record_bytes s h =
      let n : length whole ≡ 9 + length p + length more =
        omega (arith, length-append (record_bytes t p) more, length-record_bytes t p) in
      let first : get_or whole 0 0 ≡ t = unfold record_bytes record_head in refl in
      rw (u32_at-len h, first, take-head, u32_at-crc, take-payload, drop-record) (ground arith)

-- A record that is cut short is noticed, wherever it is cut.
cut_round :
    (bytes : List ℕ) (s : JournalScan)
    → (length bytes < 5) ⊎ (length bytes < 9 + u32_at bytes 1)
    → scan_round bytes s ≡ cut s
unfolding scan_round
cut_round bytes s h = ground arith

u32_at-take :
    (t : ℕ) (p : List ℕ) (k : ℕ)
    → IsU32 (length p)
    → 5 ≤ k
    → u32_at (take k (record_bytes t p)) 1 ≡ length p
unfolding u32_at record_bytes record_head put_u32
u32_at-take t p (suc (suc (suc (suc (suc k))))) h five = join_u32 (length p) h
u32_at-take t p _ h five = absurd (omega arith)

pub scan_round-take :
    (t : ℕ) (p : List ℕ) (k : ℕ) (s : JournalScan)
    → IsU32 (length p)
    → k < length (record_bytes t p)
    → scan_round (take k (record_bytes t p)) s ≡ cut s
scan_round-take t p k s h lt =
    let n : length (take k (record_bytes t p)) ≡ k =
      omega (arith, length-take k (record_bytes t p)) in
    cut_round _ s (elim (dec_lt k 5) [
      | yes small ↦ inl (omega arith)
      | no big ↦ inr (omega (arith, u32_at-take t p k h (omega arith), length-record_bytes t p))
    ])
