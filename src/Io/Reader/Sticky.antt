-- ===== src/Io/Reader/Sticky.antt =====
-- The reader stays in its buffer, and a failure stays.
use mari_paint.Prelude.{
  ℕ, zero, suc, ◌-◌, ◌*◌, ◌%◌, ◌≤◌, ◌≡◌, refl, sym, ap, ◌∙◌, true, ◌&&◌, ◌||◌, not, List, [], ◌∷◌,
  ◌++◌, arith, ltb, leb, ◌==◌, length, Bool-cases, inl, inr, subst, if_both, if_yes, if_no,
  elim_both,
}
use mari_paint.Io.Reader.{
  ByteReader, has_bytes, fail, moved, seek, skip_bytes, align, bytes, unsigned, u64be, key_string,
  utf8, is_high, paired, units, unicode_string,
}

-- The buffer is the same, the position stays in it, and a failed reader stays failed and where it is.
pub record Keeps (r s : ByteReader) : Type 0 where
  pub same : s.data' ≡ r.data'
  pub inside : r.pos ≤ length r.data' → s.pos ≤ length s.data'
  pub sticky : r.failed ≡ true → (s.failed ≡ true) × (s.pos ≡ r.pos)

Keeps-refl : (r : ByteReader) → Keeps r r
Keeps-refl r = record { same = refl; inside = λ h. h; sticky = λ e. (e, refl) }

Keeps-trans : (r s t : ByteReader) → Keeps r s → Keeps s t → Keeps r t
Keeps-trans r s t a b = record {
  same = b.same ∙ a.same;
  inside = λ h. b.inside (a.inside h);
  sticky = λ e. let (f, p) = a.sticky e in let (g, q) = b.sticky f in (g, q ∙ p);
}

fail-Keeps : (r : ByteReader) → Keeps r (fail r)
fail-Keeps r = record { same = refl; inside = λ h. h; sticky = λ e. (refl, refl) }

moved-Keeps : (n : ℕ) (r : ByteReader) → has_bytes r n ≡ true → Keeps r (moved n r)
unfolding has_bytes
moved-Keeps n r e = record {
  same = refl;
  inside = λ h. ground (arith, h, e);
  sticky = λ f. cc (ap (λ b. not b && leb n (length r.data' - r.pos)) f, e);
}

skip_bytes-Keeps : (n : ℕ) (r : ByteReader) → Keeps r (skip_bytes n r)
unfolding skip_bytes
skip_bytes-Keeps n r = elim (Bool-cases (has_bytes r n)) [
  | inl e ↦ subst (Keeps r) (sym (if_yes {b = has_bytes r n} _ _ e)) (moved-Keeps n r e)
  | inr e ↦ subst (Keeps r) (sym (if_no {b = has_bytes r n} _ _ e)) (fail-Keeps r)
]

bytes-Keeps : (n : ℕ) (r : ByteReader) → Keeps r (bytes n r).1
unfolding bytes
bytes-Keeps n r = elim (Bool-cases (has_bytes r n)) [
  | inl e ↦
      subst (λ (x : List ℕ × ByteReader). Keeps r x.1) (sym (if_yes {b = has_bytes r n} _ _ e))
        (moved-Keeps n r e)
  | inr e ↦
      subst (λ (x : List ℕ × ByteReader). Keeps r x.1) (sym (if_no {b = has_bytes r n} _ _ e))
        (fail-Keeps r)
]

seek-Keeps : (p : ℕ) (r : ByteReader) → Keeps r (seek p r)
unfolding seek
seek-Keeps p r = elim (Bool-cases (ltb (length r.data') p)) [
  | inl e ↦ subst (Keeps r) (sym (if_yes {b = ltb (length r.data') p} _ _ e)) (fail-Keeps r)
  | inr e ↦
      subst (Keeps r) (sym (if_no {b = ltb (length r.data') p} _ _ e)) (elim (Bool-cases r.failed) [
        | inl f ↦ subst (Keeps r) (sym (if_yes {b = r.failed} _ _ f)) (Keeps-refl r)
        | inr f ↦
            subst (Keeps r) (sym (if_no {b = r.failed} _ _ f))
              (record { same = refl; inside = λ h. ground (arith, e); sticky = λ g. cc (f, g) })
      ])
]

align-Keeps : (n : ℕ) (r : ByteReader) → Keeps r (align n r)
unfolding align
align-Keeps n r =
    if_both (Keeps r) (n == 0) (Keeps-refl r)
      (if_both (Keeps r) (r.pos % n == 0) (Keeps-refl r) (skip_bytes-Keeps (n - r.pos % n) r))

unsigned-Keeps : (n : ℕ) (r : ByteReader) → Keeps r (unsigned n r).1
unfolding unsigned
unsigned-Keeps n r = bytes-Keeps n r

u64be-Keeps : (r : ByteReader) → Keeps r (u64be r).1
unfolding u64be
u64be-Keeps r = Keeps-trans r _ _ (unsigned-Keeps 4 r) (unsigned-Keeps 4 (unsigned 4 r).1)

key_string-Keeps : (r : ByteReader) → Keeps r (key_string r).1
unfolding key_string
key_string-Keeps r = Keeps-trans r _ _ (unsigned-Keeps 4 r) (bytes-Keeps _ (unsigned 4 r).1)

units-Keeps : (n : ℕ) (out : List ℕ) (r : ByteReader) → Keeps r (units n out r).1
unfolding units
units-Keeps zero out r = Keeps-refl r
units-Keeps (suc zero) out r = unsigned-Keeps 2 r
units-Keeps (suc (suc n)) out r =
    let (u, s) = unsigned 2 r in
    let (lo, t) = unsigned 2 s in
    let two = Keeps-trans r s t (unsigned-Keeps 2 r) (unsigned-Keeps 2 s) in
    elim_both (λ (x : List ℕ × ByteReader). Keeps r x.1) (is_high u)
      (λ _.
        elim_both (λ (x : List ℕ × ByteReader). Keeps r x.1) (paired u lo == 0 && n == 0) (λ _. two)
          (λ _. Keeps-trans r t _ two (units-Keeps n (out ++ utf8 (paired u lo)) t)))
      (λ _. Keeps-trans r s _ (unsigned-Keeps 2 r) (units-Keeps (suc n) (out ++ utf8 u) s))

unicode_string-Keeps : (m : ℕ) (r : ByteReader) → Keeps r (unicode_string m r).1
unfolding unicode_string
unicode_string-Keeps m r =
    let (n, s) = unsigned 4 r in
    let first = unsigned-Keeps 4 r in
    if_both (λ (x : List ℕ × ByteReader). Keeps r x.1) s.failed first
      (if_both (λ (x : List ℕ × ByteReader). Keeps r x.1) (ltb m n || not (has_bytes s (n * 2)))
        (Keeps-trans r s _ first (fail-Keeps s)) (Keeps-trans r s _ first (units-Keeps n [] s)))

-- A call of the reader.
pub data ReaderCall : Type 0 where
  fail_call u64_call key_call : ReaderCall
  seek_call skip_call align_call unsigned_call bytes_call unicode_call : ℕ → ReaderCall

unfoldable pub run_call : ReaderCall → ByteReader → ByteReader
unfolding seek skip_bytes align unsigned bytes u64be key_string unicode_string
run_call fail_call r = fail r
run_call u64_call r = (u64be r).1
run_call key_call r = (key_string r).1
run_call (seek_call n) r = seek n r
run_call (skip_call n) r = skip_bytes n r
run_call (align_call n) r = align n r
run_call (unsigned_call n) r = (unsigned n r).1
run_call (bytes_call n) r = (bytes n r).1
run_call (unicode_call n) r = (unicode_string n r).1

run_call-Keeps : (c : ReaderCall) (r : ByteReader) → Keeps r (run_call c r)
unfolding run_call
run_call-Keeps fail_call r = fail-Keeps r
run_call-Keeps u64_call r = u64be-Keeps r
run_call-Keeps key_call r = key_string-Keeps r
run_call-Keeps (seek_call n) r = seek-Keeps n r
run_call-Keeps (skip_call n) r = skip_bytes-Keeps n r
run_call-Keeps (align_call n) r = align-Keeps n r
run_call-Keeps (unsigned_call n) r = unsigned-Keeps n r
run_call-Keeps (bytes_call n) r = bytes-Keeps n r
run_call-Keeps (unicode_call n) r = unicode_string-Keeps n r

abbrev pub run_reads : List ReaderCall → ByteReader → ByteReader
run_reads [] r = r
run_reads (c ∷ cs) r = run_reads cs (run_call c r)

-- Whatever is called on a reader of bytes, its buffer stays the same, a position inside the buffer
-- stays inside, and a reader that has failed stays failed and where it is.
pub run_reads-Keeps : (cs : List ReaderCall) (r : ByteReader) → Keeps r (run_reads cs r)
run_reads-Keeps [] r = Keeps-refl r
run_reads-Keeps (c ∷ cs) r =
    Keeps-trans r _ _ (run_call-Keeps c r) (run_reads-Keeps cs (run_call c r))
