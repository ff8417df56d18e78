-- ===== src/Sigan/Handshake/Fields/Fuel.antt =====
-- The loops of `parseStringArray` and `decodeHandshake` end: each round takes a byte.
use mari_paint.Prelude.{
  ℕ, zero, suc, ◌+◌, ◌*◌, ◌-◌, ◌≤◌, ◌<◌, min, ◌≡◌, refl, Bool, true, false, ◌||◌, ◌&&◌, not, List,
  [], ◌∷◌, ◌++◌, arith, Option, some, ◌==◌, length, elim_both, elim_ext,
}
use mari_paint.Core.Errors.{Result, ok, err, parse_error}
use mari_paint.Sigan.Wire.{same_bytes}
use mari_paint.Sigan.Handshake.{codes, Handshake}
use mari_paint.Sigan.Handshake.Text.{Parsed, parsed, skip_ws, parse_string, skip_value, value}
use mari_paint.Sigan.Handshake.Text.Shrinks.{
  Shrinks, length-skip_ws, parse_string-Shrinks, skip-Shrinks,
}
use mari_paint.Sigan.Handshake.Fields.{
  is_digit, read_digits, skip_fraction, to_bits, number_from, number_at, parse_number, string_item,
  strings_at, strings, string_array_at, parse_string_array, read_field, settle_field, value_of,
  field_at, fields,
}

skip_value-Shrinks : (s : List ℕ) → Shrinks s (skip_value s)
unfolding skip_value
skip_value-Shrinks s = skip-Shrinks (2 * length s + 2) value s

length-read_digits : (n : ℕ) (s : List ℕ) → length (read_digits n s).1 ≤ length s
unfolding read_digits
length-read_digits n [] = omega arith
length-read_digits n (c ∷ s) =
    elim_both (λ (r : ℕ × List ℕ). length r.1 ≤ suc (length s)) (is_digit c)
      {x = read_digits (n * 10 + (c - 48)) s} {y = (n, c ∷ s)}
      (λ _. omega (arith, length-read_digits (n * 10 + (c - 48)) s)) (λ _. omega arith)

length-skip_fraction : (s : List ℕ) → length (skip_fraction s) ≤ length s
unfolding skip_fraction
length-skip_fraction [] = omega arith
length-skip_fraction (c ∷ s) =
    elim_both (λ t. length t ≤ suc (length s))
      (c == 46 || is_digit c || c == 101 || c == 69 || c == 43 || c == 45) {x = skip_fraction s}
      {y = c ∷ s} (λ _. omega (arith, length-skip_fraction s)) (λ _. omega arith)

length-number_from :
    (negative sign : Bool) (s : List ℕ) (old : ℕ)
    → length (number_from negative sign s old).rest ≤ length s
unfolding number_from
length-number_from negative sign s old =
    let t = (read_digits 0 s).1 in
    elim_both (λ (p : Parsed ℕ). length p.rest ≤ length s) (not sign && (length t == length s))
      {x = parsed false s old}
      {y = parsed true (skip_fraction t) (to_bits negative (read_digits 0 s).0)} (λ _. omega arith)
      (λ _. omega (arith, length-skip_fraction t, length-read_digits 0 s))

length-number_at : (old : ℕ) (s : List ℕ) → length (number_at old s).rest ≤ length s
unfolding number_at
length-number_at old [] = omega arith
length-number_at old (c ∷ s) =
    elim_both (λ (p : Parsed ℕ). length p.rest ≤ suc (length s)) (c == 45 || c == 43)
      {x = number_from (c == 45) true s old} {y = number_from false false (c ∷ s) old}
      (λ _. omega (arith, length-number_from (c == 45) true s old))
      (λ _. length-number_from false false (c ∷ s) old)

length-parse_number : (old : ℕ) (s : List ℕ) → length (parse_number old s).rest ≤ length s
unfolding parse_number
length-parse_number old s = omega (arith, length-skip_ws s, length-number_at old (skip_ws s))

abbrev Strings : Type 0
Strings = List ℕ → List (List ℕ) → Parsed (List (List ℕ))

string_item-le :
    (again : Strings)
    → ((s : List ℕ) (acc : List (List ℕ)) → length (again s acc).rest ≤ length s)
    → (c : ℕ) (s : List ℕ) (acc : List (List ℕ))
    → length (string_item again c s acc).rest ≤ suc (length s)
unfolding string_item
string_item-le again h c s acc =
    let v = parse_string [] (c ∷ s) in
    let w = skip_value (c ∷ s) in
    elim_both (λ (p : Parsed (List (List ℕ))). length p.rest ≤ suc (length s)) (c == 34)
      (λ _.
        elim_both (λ (p : Parsed (List (List ℕ))). length p.rest ≤ suc (length s)) v.good
          {x = again v.rest (acc ++ v.out ∷ [])} {y = parsed false v.rest acc}
          (λ _. omega (arith, h v.rest (acc ++ v.out ∷ []), (parse_string-Shrinks [] (c ∷ s)).le))
          (λ _. (parse_string-Shrinks [] (c ∷ s)).le))
      (λ _.
        elim_both (λ (p : Parsed (List (List ℕ))). length p.rest ≤ suc (length s)) w.0
          {x = again w.1 acc} {y = parsed false w.1 acc}
          (λ _. omega (arith, h w.1 acc, (skip_value-Shrinks (c ∷ s)).le))
          (λ _. (skip_value-Shrinks (c ∷ s)).le))

strings_at-le :
    (again : Strings)
    → ((s : List ℕ) (acc : List (List ℕ)) → length (again s acc).rest ≤ length s)
    → (s : List ℕ) (acc : List (List ℕ)) → length (strings_at again s acc).rest ≤ length s
unfolding strings_at
strings_at-le again h [] acc = omega arith
strings_at-le again h (c ∷ s) acc =
    elim_both (λ (p : Parsed (List (List ℕ))). length p.rest ≤ suc (length s)) (c == 93)
      {x = parsed true s acc} (λ _. omega arith)
      (λ _.
        elim_both (λ (p : Parsed (List (List ℕ))). length p.rest ≤ suc (length s)) (c == 44)
          {x = again s acc} {y = string_item again c s acc} (λ _. omega (arith, h s acc))
          (λ _. string_item-le again h c s acc))

length-strings :
    (f : ℕ) (s : List ℕ) (acc : List (List ℕ)) → length (strings f s acc).rest ≤ length s
unfolding strings
length-strings zero s acc = omega arith
length-strings (suc f) s acc =
    omega (arith, length-skip_ws s, strings_at-le (strings f) (length-strings f) (skip_ws s) acc)

length-string_array_at :
    (acc : List (List ℕ)) (s : List ℕ) → length (string_array_at acc s).rest ≤ length s
unfolding string_array_at
length-string_array_at acc [] = omega arith
length-string_array_at acc (c ∷ s) =
    elim_both (λ (p : Parsed (List (List ℕ))). length p.rest ≤ suc (length s)) (c == 91)
      {x = strings (suc (length s)) s acc} {y = parsed false (c ∷ s) acc}
      (λ _. omega (arith, length-strings (suc (length s)) s acc)) (λ _. omega arith)

length-parse_string_array :
    (acc : List (List ℕ)) (s : List ℕ) → length (parse_string_array acc s).rest ≤ length s
unfolding parse_string_array
length-parse_string_array acc s =
    omega (arith, length-skip_ws s, length-string_array_at acc (skip_ws s))

length-read_field : (key s : List ℕ) (h : Handshake) → length (read_field key s h).rest ≤ length s
unfolding read_field
length-read_field key s h =
    let P = λ (p : Parsed Handshake). length p.rest ≤ length s in
    elim_both P (same_bytes key (codes "proto")) (λ _. length-parse_number 0 s)
      (λ _.
        elim_both P (same_bytes key (codes "app")) (λ _. (parse_string-Shrinks h.app s).le)
          (λ _.
            elim_both P (same_bytes key (codes "caps") || same_bytes key (codes "accepts"))
              (λ _. length-parse_string_array h.caps s)
              (λ _.
                elim_both P (same_bytes key (codes "sessionId")) (λ _. length-parse_number 0 s)
                  (λ _.
                    elim_both P (same_bytes key (codes "resumeFromSeq"))
                      (λ _. length-parse_number 0 s)
                      (λ _.
                        elim_both P (same_bytes key (codes "wallAnchorUnixMs"))
                          (λ _. length-parse_number 0 s) (λ _. omega arith))))))

module _ (n : ℕ) (again other : Strings)
    (agree : (s : List ℕ) (acc : List (List ℕ)) → length s < n → again s acc ≡ other s acc) where
  string_item_agree :
      (c : ℕ) (s : List ℕ) (acc : List (List ℕ))
      → length s < n
      → string_item again c s acc ≡ string_item other c s acc
  unfolding string_item
  string_item_agree c s acc b =
      let v = parse_string [] (c ∷ s) in
      let w = skip_value (c ∷ s) in
      elim_ext (c == 34)
        (λ _.
          elim_ext v.good
            (λ e.
              agree v.rest (acc ++ v.out ∷ [])
                (omega (arith, b, (parse_string-Shrinks [] (c ∷ s)).lt e)))
            (λ _. refl))
        (λ _.
          elim_ext w.0 (λ e. agree w.1 acc (omega (arith, b, (skip_value-Shrinks (c ∷ s)).lt e)))
            (λ _. refl))

  strings_at_agree :
      (s : List ℕ) (acc : List (List ℕ))
      → length s ≤ n
      → strings_at again s acc ≡ strings_at other s acc
  unfolding strings_at
  strings_at_agree [] acc b = refl
  strings_at_agree (c ∷ s) acc b =
      elim_ext (c == 93) (λ _. refl)
        (λ _.
          elim_ext (c == 44) (λ _. agree s acc (omega (arith, b)))
            (λ _. string_item_agree c s acc (omega (arith, b))))

-- The loop of `parseStringArray` needs no more fuel than one for each byte and one more.
strings_fuel :
    (n k : ℕ) (s : List ℕ) (acc : List (List ℕ))
    → length s < n
    → length s < k
    → strings n s acc ≡ strings k s acc
unfolding strings
strings_fuel zero k s acc b d = absurd (omega (arith, b))
strings_fuel (suc n) zero s acc b d = absurd (omega (arith, d))
strings_fuel (suc n) (suc k) s acc b d =
    strings_at_agree (min n k) (strings n) (strings k)
      (λ t a w. strings_fuel n k t a (omega (arith, w)) (omega (arith, w))) (skip_ws s) acc
      (omega (arith, b, d, length-skip_ws s))

-- Two runs of the loop that end with one result.
abbrev Same : Option (Result Handshake) → Option (Result Handshake) → Type 0
Same x y = (r : Result Handshake) × (x ≡ some r) × (y ≡ some r)

failed : Same (some (err parse_error)) (some (err parse_error))
failed = (err parse_error, refl, refl)

elim-Same :
    (b : Bool) {x x' y y' : Option (Result Handshake)}
    → (b ≡ true → Same x x')
    → (b ≡ false → Same y y')
    → Same (elim b [ true ↦ x | false ↦ y ]) (elim b [ true ↦ x' | false ↦ y' ])
elim-Same true h k = h refl
elim-Same false h k = k refl

-- Two ways to go on that end with one result on texts shorter than n.
module _ (n : ℕ) (again other : List ℕ → Handshake → Option (Result Handshake))
    (agree : (s : List ℕ) (h : Handshake) → length s < n → Same (again s h) (other s h)) where
  settle_field-Same :
      (p : Parsed Handshake)
      → length p.rest < n
      → Same (settle_field again p) (settle_field other p)
  unfolding settle_field
  settle_field-Same p b =
      let v = skip_value p.rest in
      elim-Same p.good (λ _. agree p.rest p.out b)
        (λ _.
          elim-Same v.0 (λ _. agree v.1 p.out (omega (arith, b, (skip_value-Shrinks p.rest).le)))
            (λ _. failed))

  value_of-Same :
      (key s : List ℕ) (h : Handshake)
      → length s ≤ n
      → Same (value_of again key s h) (value_of other key s h)
  unfolding value_of
  value_of-Same key [] h b = failed
  value_of-Same key (c ∷ s) h b =
      elim-Same (c == 58)
        (λ _. settle_field-Same (read_field key s h) (omega (arith, b, length-read_field key s h)))
        (λ _. failed)

  field_at-Same :
      (s : List ℕ) (h : Handshake) → length s ≤ n → Same (field_at again s h) (field_at other s h)
  unfolding field_at
  field_at-Same [] h b = failed
  field_at-Same (c ∷ s) h b =
      let key = parse_string [] (c ∷ s) in
      elim-Same (c == 125) (λ _. (ok h, refl, refl))
        (λ _.
          elim-Same (c == 44) (λ _. agree s h (omega (arith, b)))
            (λ _.
              elim-Same key.good
                (λ _.
                  value_of-Same key.out (skip_ws key.rest) h (
                    omega
                      (arith, b, length-skip_ws key.rest, (parse_string-Shrinks [] (c ∷ s)).le)))
                (λ _. failed)))

-- The loop of decodeHandshake ends within one round more than there are bytes: with any two
-- amounts of fuel above the length of the text it has a result, and the same one.
pub fields_fuel :
    (n k : ℕ) (s : List ℕ) (h : Handshake)
    → length s < n
    → length s < k
    → (r : Result Handshake) × (fields n s h ≡ some r) × (fields k s h ≡ some r)
unfolding fields
fields_fuel zero k s h b d = absurd (omega (arith, b))
fields_fuel (suc n) zero s h b d = absurd (omega (arith, d))
fields_fuel (suc n) (suc k) s h b d =
    field_at-Same (min n k) (fields n) (fields k)
      (λ t g w. fields_fuel n k t g (omega (arith, w)) (omega (arith, w))) (skip_ws s) h
      (omega (arith, b, d, length-skip_ws s))
