-- ===== src/Sigan/Handshake/Fields/Numbers.antt =====
-- A number that is written in decimal is read back.
use mari_paint.Prelude.{
  ℕ, zero, suc, ◌+◌, ◌-◌, ◌*◌, ◌/◌, ◌%◌, ◌^◌, ◌<◌, ◌≡◌, refl, sym, ap, ◌∙◌, subst, Bool, true,
  false, ◌&&◌, ◌||◌, not, List, [], ◌∷◌, ◌++◌, arith, ltb, ◌==◌, length, length-append,
  append_assoc, Bool-cases, inl, inr, if_yes, if_no,
}
use mari_paint.Sigan.Handshake.Text.{parsed, is_space, skip_ws}
use mari_paint.Sigan.Handshake.Fields.{
  is_digit, read_digits, skip_fraction, to_bits, number_from, number_at, parse_number, digits,
  decimal, signed_decimal,
}

-- The numbers of at most so many digits.
abbrev bound : ℕ → ℕ
bound zero = 1
bound (suc f) = 10 * bound f

digit_of : (d : ℕ) → d < 10 → is_digit (48 + d) ≡ true
unfolding is_digit
digit_of d h = ground (arith, h)

read_digits_one :
    (n d : ℕ) (t : List ℕ) → d < 10 → read_digits n ((48 + d) ∷ t) ≡ read_digits (n * 10 + d) t
unfolding read_digits
read_digits_one n d t h =
    ap (λ b. elim b [ true ↦ read_digits (n * 10 + (48 + d - 48)) t | false ↦ (n, (48 + d) ∷ t) ])
      (digit_of d h)
    ∙ ap (λ m. read_digits m t) (omega arith)

read_digits-digits :
    (f n : ℕ) (t : List ℕ) → n < bound f → read_digits 0 (digits f n ++ t) ≡ read_digits n t
unfolding digits
read_digits-digits zero n t h = ap (λ m. read_digits m t) (omega (arith, h))
read_digits-digits (suc f) n t h = elim (Bool-cases (ltb n 10)) [
  | inl small ↦
      ap (λ x. read_digits 0 (x ++ t))
        (if_yes {b = ltb n 10} ((48 + n) ∷ []) (digits f (n / 10) ++ (48 + n % 10) ∷ []) small)
      ∙ read_digits_one 0 n t (ground (arith, small))
      ∙ ap (λ m. read_digits m t) (omega arith)
  | inr large ↦
      ap (λ x. read_digits 0 (x ++ t))
        (if_no {b = ltb n 10} ((48 + n) ∷ []) (digits f (n / 10) ++ (48 + n % 10) ∷ []) large)
      ∙ ap (read_digits 0) (append_assoc (digits f (n / 10)) ((48 + n % 10) ∷ []) t)
      ∙ read_digits-digits f (n / 10) ((48 + n % 10) ∷ t) (omega (arith, h))
      ∙ read_digits_one (n / 10) (n % 10) t (omega arith)
      ∙ ap (λ m. read_digits m t) (omega arith)
]

-- A text that begins with a digit.
record Led (s : List ℕ) : Type 0 where
  front : ℕ
  back : List ℕ
  same : s ≡ front ∷ back
  digit : is_digit front ≡ true

digits-Led : (f n d : ℕ) (t : List ℕ) → d < 10 → Led (digits f n ++ (48 + d) ∷ t)
unfolding digits
digits-Led zero n d t h = record { front = 48 + d; back = t; same = refl; digit = digit_of d h }
digits-Led (suc f) n d t h = elim (Bool-cases (ltb n 10)) [
  | inl small ↦
      subst (λ x. Led (x ++ (48 + d) ∷ t))
        (sym
          (if_yes {b = ltb n 10} ((48 + n) ∷ []) (digits f (n / 10) ++ (48 + n % 10) ∷ []) small))
        (record {
          front = 48 + n;
          back = (48 + d) ∷ t;
          same = refl;
          digit = digit_of n (ground (arith, small));
        })
  | inr large ↦
      subst (λ x. Led (x ++ (48 + d) ∷ t))
        (sym (if_no {b = ltb n 10} ((48 + n) ∷ []) (digits f (n / 10) ++ (48 + n % 10) ∷ []) large))
        (subst Led (sym (append_assoc (digits f (n / 10)) ((48 + n % 10) ∷ []) ((48 + d) ∷ t)))
          (digits-Led f (n / 10) (n % 10) ((48 + d) ∷ t) (omega arith)))
]

decimal-Led : (n : ℕ) (t : List ℕ) → Led (decimal n ++ t)
unfolding decimal digits
decimal-Led n t = elim (Bool-cases (ltb n 10)) [
  | inl small ↦
      subst (λ x. Led (x ++ t))
        (sym
          (if_yes {b = ltb n 10} ((48 + n) ∷ []) (digits 19 (n / 10) ++ (48 + n % 10) ∷ []) small))
        (record {
          front = 48 + n;
          back = t;
          same = refl;
          digit = digit_of n (ground (arith, small));
        })
  | inr large ↦
      subst (λ x. Led (x ++ t))
        (sym
          (if_no {b = ltb n 10} ((48 + n) ∷ []) (digits 19 (n / 10) ++ (48 + n % 10) ∷ []) large))
        (subst Led (sym (append_assoc (digits 19 (n / 10)) ((48 + n % 10) ∷ []) t))
          (digits-Led 19 (n / 10) (n % 10) t (omega arith)))
]

-- What stands behind a number here: a comma or a closing brace.
pub record Stops (t : List ℕ) : Type 0 where
  pub digit : (n : ℕ) → read_digits n t ≡ (n, t)
  pub fraction : skip_fraction t ≡ t

pub comma-Stops : (t : List ℕ) → Stops (44 ∷ t)
unfolding read_digits skip_fraction
comma-Stops t = record { digit = λ n. refl; fraction = refl }

pub brace-Stops : (t : List ℕ) → Stops (125 ∷ t)
unfolding read_digits skip_fraction
brace-Stops t = record { digit = λ n. refl; fraction = refl }

pub read_digits-decimal :
    (n : ℕ) (t : List ℕ)
    → n < 2 ^ 64
    → ((k : ℕ) → read_digits k t ≡ (k, t))
    → read_digits 0 (decimal n ++ t) ≡ (n, t)
unfolding decimal
read_digits-decimal n t h w = read_digits-digits 20 n t (omega (arith, h)) ∙ w n

read_decimal : (n : ℕ) (t : List ℕ) → n < 2 ^ 64 → Stops t → read_digits 0 (decimal n ++ t) ≡ (n, t)
read_decimal n t h w = read_digits-decimal n t h w.digit

length-decimal : (n : ℕ) → 0 < length (decimal n)
length-decimal n =
    let led = decimal-Led n [] in omega (arith, ap length led.same, length-append (decimal n) [])

longer : (n : ℕ) (t : List ℕ) → (length t == length (decimal n ++ t)) ≡ false
longer n t = ground (arith, length-append (decimal n) t, length-decimal n)

-- The digits of a number, behind a sign or not.
number_from-decimal :
    (negative sign : Bool) (n old : ℕ) (t : List ℕ)
    → n < 2 ^ 64
    → Stops t
    → number_from negative sign (decimal n ++ t) old ≡ parsed true t (to_bits negative n)
unfolding number_from
number_from-decimal negative sign n old t h w =
    let s = decimal n ++ t in
    ap
      (λ (r : ℕ × List ℕ). elim (not sign && (length r.1 == length s)) [
        | true ↦ parsed false s old
        | false ↦ parsed true (skip_fraction r.1) (to_bits negative r.0)
      ])
      (read_decimal n t h w)
    ∙ ap
        (λ b. elim b [
          | true ↦ parsed false s old
          | false ↦ parsed true (skip_fraction t) (to_bits negative n)
        ])
        (and_false sign (longer n t))
    ∙ ap (λ u. parsed true u (to_bits negative n)) w.fraction
  where
    and_false : (b : Bool) {c : Bool} → c ≡ false → (not b && c) ≡ false
    and_false true e = refl
    and_false false e = e

-- A sign or a digit is no space, and a digit is no sign.
parse_number-Led :
    (old : ℕ) (s : List ℕ) → Led s → parse_number old s ≡ number_from false false s old
unfolding parse_number skip_ws number_at is_space is_digit
parse_number-Led old s l =
    let c = l.front in
    ap (parse_number old) l.same
    ∙ ap (λ b. number_at old (elim b [ true ↦ skip_ws l.back | false ↦ c ∷ l.back ]))
        (space c l.digit)
    ∙ ap
        (λ b. elim b [
          | true ↦ number_from (c == 45) true l.back old
          | false ↦ number_from false false (c ∷ l.back) old
        ])
        (sign c l.digit)
    ∙ ap (λ u. number_from false false u old) (sym l.same)
  where
    space : (c : ℕ) → is_digit c ≡ true → is_space c ≡ false
    space c h = ground (arith, h)

    sign : (c : ℕ) → is_digit c ≡ true → (c == 45 || c == 43) ≡ false
    sign c h = ground (arith, h)

pub parse_number-decimal :
    (n old : ℕ) (t : List ℕ)
    → n < 2 ^ 64
    → Stops t
    → parse_number old (decimal n ++ t) ≡ parsed true t (to_bits false n)
parse_number-decimal n old t h w =
    parse_number-Led old (decimal n ++ t) (decimal-Led n t)
    ∙ number_from-decimal false false n old t h w

-- The bits of 64 as a signed number, and back.
pub parse_number-signed_decimal :
    (n old : ℕ) (t : List ℕ)
    → n < 2 ^ 64
    → Stops t
    → parse_number old (signed_decimal n ++ t) ≡ parsed true t n
unfolding signed_decimal parse_number skip_ws number_at to_bits is_space
parse_number-signed_decimal n old t h w = elim (Bool-cases (ltb n (2 ^ 63))) [
  | inl small ↦
      ap (λ s. parse_number old (s ++ t))
        (if_yes {b = ltb n (2 ^ 63)} (decimal n) (45 ∷ decimal (2 ^ 64 - n)) small)
      ∙ parse_number-decimal n old t h w
      ∙ ap (parsed true t) (ground (arith, small))
  | inr large ↦
      ap (λ s. parse_number old (s ++ t))
        (if_no {b = ltb n (2 ^ 63)} (decimal n) (45 ∷ decimal (2 ^ 64 - n)) large)
      ∙ number_from-decimal true true (2 ^ 64 - n) old t (ground (arith, large)) w
      ∙ ap (parsed true t) (ground (arith, large, h))
]
