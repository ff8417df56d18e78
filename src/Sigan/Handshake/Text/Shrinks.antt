-- ===== src/Sigan/Handshake/Text/Shrinks.antt =====
-- A reader leaves no more than it was given, and less where it read something.
use mari_paint.Prelude.{
  ℕ, zero, suc, ◌≤◌, ◌<◌, ◌≡◌, ap, Bool, true, false, ◌||◌, not, List, [], ◌∷◌, ◌++◌, arith, ◌==◌,
  length, elim_both, if◌then◌else◌,
}
use mari_paint.Sigan.Handshake.Text.{
  Parsed, is_space, skip_ws, unescaped, string_body, string_at, parse_string, is_end, skip_bare,
  Skip, value, items, value_at, value_then, colon_then, item_at, items_at, skip,
}

pub record Shrinks (s : List ℕ) (r : Bool × List ℕ) : Type 0 where
  pub le : length r.1 ≤ length s
  pub lt : r.0 ≡ true → length r.1 < length s

pub length-skip_ws : (s : List ℕ) → length (skip_ws s) ≤ length s
unfolding skip_ws
length-skip_ws [] = omega arith
length-skip_ws (c ∷ s) =
    elim_both (λ t. length t ≤ suc (length s)) (is_space c) {x = skip_ws s} {y = c ∷ s}
      (λ _. omega (arith, length-skip_ws s)) (λ _. omega arith)

length-string_body : (b : Bool) (acc s : List ℕ) → length (string_body b acc s).rest ≤ length s
unfolding string_body
length-string_body true acc [] = omega arith
length-string_body false acc [] = omega arith
length-string_body true acc (c ∷ s) =
    omega (arith, length-string_body false (acc ++ unescaped c ∷ []) s)
length-string_body false acc (c ∷ s) =
    elim_both (λ (p : Parsed (List ℕ)). length p.rest ≤ suc (length s)) (c == 34) (λ _. omega arith)
      (λ _.
        elim_both (λ (p : Parsed (List ℕ)). length p.rest ≤ suc (length s)) (c == 92)
          (λ _. omega (arith, length-string_body true acc s))
          (λ _. omega (arith, length-string_body false (acc ++ c ∷ []) s)))

abbrev pub outcome {ℓ} : {A : Type ℓ} → Parsed A → Bool × List ℕ
outcome p = (p.good, p.rest)

string_at-Shrinks : (old s : List ℕ) → Shrinks s (outcome (string_at old s))
unfolding string_at
string_at-Shrinks old [] = record { le = omega arith; lt = λ e. cc }
string_at-Shrinks old (c ∷ s) =
    elim_both (λ (p : Parsed (List ℕ)). Shrinks (c ∷ s) (outcome p)) (c == 34)
      (λ _. record {
        le = omega (arith, length-string_body false [] s);
        lt = λ _. omega (arith, length-string_body false [] s);
      })
      (λ _. record { le = omega arith; lt = λ e. cc })

-- What shrinks a part of the text shrinks the text.
Shrinks-le : (s t : List ℕ) (r : Bool × List ℕ) → length t ≤ length s → Shrinks t r → Shrinks s r
Shrinks-le s t r h w = record { le = omega (arith, h, w.le); lt = λ e. omega (arith, h, w.lt e) }

pub parse_string-Shrinks : (old s : List ℕ) → Shrinks s (outcome (parse_string old s))
unfolding parse_string
parse_string-Shrinks old s =
    Shrinks-le s (skip_ws s) _ (length-skip_ws s) (string_at-Shrinks old (skip_ws s))

length-skip_bare : (s : List ℕ) → length (skip_bare s) ≤ length s
unfolding skip_bare
length-skip_bare [] = omega arith
length-skip_bare (c ∷ s) =
    elim_both (λ t. length t ≤ suc (length s)) (is_end c) {x = c ∷ s} {y = skip_bare s}
      (λ _. omega arith) (λ _. omega (arith, length-skip_bare s))

skip_bare-less :
    (c : ℕ) (s : List ℕ) → not (is_end c) ≡ true → length (skip_bare (c ∷ s)) < suc (length s)
unfolding skip_bare
skip_bare-less c s h =
    elim_both (λ t. length t < suc (length s)) (is_end c) {x = c ∷ s} {y = skip_bare s}
      (λ e. cc (ap not e, h)) (λ _. omega (arith, length-skip_bare s))

-- The readers shrink if the calls that they make do.
module _ (again : Skip → List ℕ → Bool × List ℕ)
    (h : (m : Skip) (s : List ℕ) → Shrinks s (again m s)) where
  value_at-Shrinks : (s : List ℕ) → Shrinks s (value_at again s)
  unfolding value_at
  value_at-Shrinks [] = record { le = omega arith; lt = λ e. cc }
  value_at-Shrinks (c ∷ s) =
      elim_both (Shrinks (c ∷ s)) (c == 34) (λ _. parse_string-Shrinks [] (c ∷ s))
        (λ _.
          elim_both (Shrinks (c ∷ s)) (c == 123 || c == 91)
            (λ _.
              let w = h (items (c == 123)) s in
              record { le = omega (arith, w.le); lt = λ _. omega (arith, w.le) })
            (λ _. record { le = length-skip_bare (c ∷ s); lt = skip_bare-less c s }))

  value_then-Shrinks : (m : Skip) (s : List ℕ) → Shrinks s (value_then again m s)
  unfolding value_then
  value_then-Shrinks m s =
      let v = again value s in
      elim_both (Shrinks s) v.0 (λ _. Shrinks-le s v.1 _ (h value s).le (h m v.1))
        (λ _. record { le = (h value s).le; lt = λ e. cc })

  colon_then-Shrinks : (s : List ℕ) → Shrinks s (colon_then again s)
  unfolding colon_then
  colon_then-Shrinks [] = record { le = omega arith; lt = λ e. cc }
  colon_then-Shrinks (c ∷ s) =
      elim_both (Shrinks (c ∷ s)) (c == 58)
        (λ _. Shrinks-le (c ∷ s) s _ (omega arith) (value_then-Shrinks (items true) s))
        (λ _. record { le = omega arith; lt = λ e. cc })

  item_at-Shrinks : (object : Bool) (s : List ℕ) → Shrinks s (item_at again object s)
  unfolding item_at
  item_at-Shrinks false s = value_then-Shrinks (items false) s
  item_at-Shrinks true s =
      let key = parse_string [] s in
      let w = parse_string-Shrinks [] s in
      elim_both (Shrinks s) key.good
        (λ _.
          Shrinks-le s (skip_ws key.rest) _ (omega (arith, w.le, length-skip_ws key.rest))
            (colon_then-Shrinks (skip_ws key.rest)))
        (λ _. record { le = w.le; lt = λ e. cc })

  items_at-Shrinks : (object : Bool) (s : List ℕ) → Shrinks s (items_at again object s)
  unfolding items_at
  items_at-Shrinks object [] = record { le = omega arith; lt = λ e. cc }
  items_at-Shrinks object (c ∷ s) =
      elim_both (Shrinks (c ∷ s)) (c == (if object then 125 else 93))
        (λ _. record { le = omega arith; lt = λ _. omega arith })
        (λ _.
          elim_both (Shrinks (c ∷ s)) (c == 44)
            (λ _. Shrinks-le (c ∷ s) s _ (omega arith) (h (items object) s))
            (λ _. item_at-Shrinks object (c ∷ s)))

pub skip-Shrinks : (f : ℕ) (m : Skip) (s : List ℕ) → Shrinks s (skip f m s)
unfolding skip
skip-Shrinks zero m s = record { le = omega arith; lt = λ e. cc }
skip-Shrinks (suc f) value s =
    Shrinks-le s (skip_ws s) _ (length-skip_ws s)
      (value_at-Shrinks (skip f) (skip-Shrinks f) (skip_ws s))
skip-Shrinks (suc f) (items object) s =
    Shrinks-le s (skip_ws s) _ (length-skip_ws s)
      (items_at-Shrinks (skip f) (skip-Shrinks f) object (skip_ws s))
