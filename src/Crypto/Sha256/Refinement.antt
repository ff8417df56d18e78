-- ===== src/Crypto/Sha256/Refinement.antt =====
-- The object against the standard's definition of a digest: the padded message in blocks.
use mari_paint.Prelude.{
  ℕ, zero, suc, ◌*◌, ◌/◌, ◌%◌, ◌≤◌, ◌≡◌, refl, sym, ap, ◌∙◌, true, false, ◌||◌, List, [], ◌∷◌, ◌++◌,
  arith, leb, length, length-append, length-drop, take, drop, nil_of_length, Bool-cases, inl, inr,
  if_yes, if_no, some, subst, ◌==◌,
}
use mari_paint.Crypto.Sha256.{
  Words, initial, compress, Sha256, reset, update, padding, digest_bytes, finish, sha256, to_hex,
  hash_file, sha256_file_hex,
}
use mari_paint.Core.Errors.{ok}
use mari_paint.Crypto.Sha256.Stream.{
  absorb, absorb_stop, absorb_step, Fed, reset-Fed, update-Fed, hash_file-Fed, join,
}
use mari_paint.Crypto.Sha256.Padding.{padding-standard, length-standard_padding}
use mari_paint.Crypto.Sha256.Standard.{
  standard_padding, standard_blocks, words_bytes, standard_digest,
}
use mari_paint.Crypto.Sha256.Compression.{
  initial_lem, digest_bytes_lem, compress_blocks, compress_blocks_lem,
}

absorb_blocks :
    (n : ℕ) (s : Words) (p : List ℕ) → length p ≡ 64 * n → absorb s p ≡ (compress_blocks n s p, [])
absorb_blocks zero s p h =
    absorb_stop s p (omega (arith, h)) ∙ ap (λ x. (s, x)) (nil_of_length p (omega (arith, h)))
absorb_blocks (suc n) s p h =
    absorb_step s p (omega (arith, h))
    ∙ absorb_blocks n _ (drop 64 p) (omega (arith, h, length-drop 64 p))

-- The tail has the length of the message modulo 64.
length-absorb_fuel :
    (n : ℕ) (s : Words) (m : List ℕ) → length m ≤ n → length (absorb s m).1 ≡ length m % 64
length-absorb_fuel zero s m h =
    ap (λ (r : Words × List ℕ). length r.1) (absorb_stop s m (omega arith)) ∙ omega arith
length-absorb_fuel (suc n) s m h = elim (Bool-cases (leb 64 (length m))) [
  | inl more ↦
      let le : 64 ≤ length m = ground (arith, more) in
      ap (λ (r : Words × List ℕ). length r.1) (absorb_step s m le)
      ∙ length-absorb_fuel n (compress s (take 64 m)) (drop 64 m)
          (omega (arith, le, length-drop 64 m))
      ∙ omega (arith, le, length-drop 64 m)
  | inr few ↦
      ap (λ (r : Words × List ℕ). length r.1) (absorb_stop s m (ground (arith, few)))
      ∙ ground (arith, few)
]

length-buf_mod : {m : List ℕ} {s : Sha256} → Fed m s → length s.buf ≡ length m % 64
length-buf_mod {m} w =
    ap (λ (r : Words × List ℕ). length r.1) w.state
    ∙ length-absorb_fuel (length m) initial m (omega arith)

-- `finish` feeds the standard's padding.
finish-Fed : (m : List ℕ) (s : Sha256) → Fed m s → (finish s).0 ≡ standard_digest m
unfolding finish
finish-Fed m s w =
    let pad = padding (length s.buf) s.total in
    let same : pad ≡ standard_padding (length m) =
      padding-standard (length m) (length s.buf) s.total (length-buf_mod w) w.total in
    let padded = m ++ standard_padding (length m) in
    let whole : length padded ≡ 64 * (length padded / 64) =
      omega (
        arith,
        length-standard_padding (length m),
        length-append m (standard_padding (length m)),
      ) in
    let fed = update-Fed (standard_padding (length m)) m s w in
    ap (λ (r : List ℕ × Sha256). r.0) (if_no {b = s.finished} (s.digest, s) _ w.running)
    ∙ ap (λ p. digest_bytes (update p s).words) same
    ∙ ap (λ (r : Words × List ℕ). digest_bytes r.0)
        (fed.state ∙ absorb_blocks (length padded / 64) initial padded whole)
    ∙ digest_bytes_lem (compress_blocks (length padded / 64) initial padded)
    ∙ ap words_bytes (compress_blocks_lem (length padded / 64) initial padded)
    ∙ ap (λ t. words_bytes (standard_blocks (length padded / 64) t padded)) initial_lem

-- Reading a file in any parts and finishing gives the digest that FIPS 180-4 defines for all its
-- bytes, with the standard's own padding, schedule, rounds and constants (32 bits of the fractions
-- of roots of the first primes), written apart from the code.
pub hash_file-standard :
    (parts : List (List ℕ)) → (finish (hash_file parts reset)).0 ≡ standard_digest (join parts)
hash_file-standard parts = finish-Fed (join parts) _ (hash_file-Fed parts [] reset reset-Fed)

-- The text of the hash of a file that is read in any parts without an error is the text of the
-- hash of its bytes taken at once.
pub sha256_file_hex-sha256 :
    (parts : List (List ℕ))
    → sha256_file_hex (some (parts, false)) ≡ ok (to_hex (sha256 (join parts)))
unfolding sha256_file_hex sha256
sha256_file_hex-sha256 parts =
    ap (λ d. ok (to_hex d))
      (hash_file-standard parts
        ∙ sym (finish-Fed (join parts) _ (update-Fed (join parts) [] reset reset-Fed)))

-- The calls on an object behind its end.
pub data Call : Type 0 where
  update_with : List ℕ → Call
  finish_again : Call

abbrev pub run_calls : List Call → Sha256 → Sha256
run_calls [] s = s
run_calls (update_with p ∷ cs) s = run_calls cs (update p s)
run_calls (finish_again ∷ cs) s = run_calls cs (finish s).1

run_calls-finished : (cs : List Call) (s : Sha256) → s.finished ≡ true → run_calls cs s ≡ s
unfolding update finish
run_calls-finished [] s e = refl
run_calls-finished (update_with p ∷ cs) s e =
    let same : update p s ≡ s =
      if_yes {b = s.finished || (length p == 0)} _ _ (ap (λ b. b || (length p == 0)) e) in
    ap (run_calls cs) same ∙ run_calls-finished cs s e
run_calls-finished (finish_again ∷ cs) s e =
    let same : (finish s).1 ≡ s =
      ap (λ (r : List ℕ × Sha256). r.1) (if_yes {b = s.finished} (s.digest, s) _ e) in
    ap (run_calls cs) same ∙ run_calls-finished cs s e

record Ended (r : List ℕ × Sha256) : Type 0 where
  over : r.1.finished ≡ true
  kept : r.1.digest ≡ r.0

finish-Ended : (s : Sha256) → Ended (finish s)
unfolding finish
finish-Ended s = elim (Bool-cases s.finished) [
  | inl e ↦ subst Ended (sym (if_yes {b = s.finished} _ _ e)) (record { over = e; kept = refl })
  | inr e ↦
      subst Ended (sym (if_no {b = s.finished} (s.digest, s) _ e))
        (record { over = refl; kept = refl })
]

-- Behind finish, any calls of update and finish leave the digest that finish gives as it was.
pub finish-run_calls :
    (cs : List Call) (s : Sha256) → (finish (run_calls cs (finish s).1)).0 ≡ (finish s).0
unfolding finish
finish-run_calls cs s =
    let end = finish-Ended s in
    let t = (finish s).1 in
    ap (λ x. (finish x).0) (run_calls-finished cs t end.over)
    ∙ ap (λ (r : List ℕ × Sha256). r.0) (if_yes {b = t.finished} (t.digest, t) _ end.over)
    ∙ end.kept
