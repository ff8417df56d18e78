-- ===== src/Sigan/Handshake/Text/Fuel.antt =====
-- The recursion of `skipValue` ends: more fuel than it is given changes nothing.
use mari_paint.Prelude.{
  ℕ, zero, suc, ◌+◌, ◌*◌, ◌≤◌, min, ◌≡◌, refl, ap, ◌∙◌, Bool, true, false, ◌||◌, List, [], ◌∷◌,
  arith, ◌==◌, length, elim_ext, if◌then◌else◌,
}
use mari_paint.Sigan.Handshake.Text.{
  skip_ws, parse_string, Skip, value, items, value_at, value_then, colon_then, item_at, items_at,
  skip,
}
use mari_paint.Sigan.Handshake.Text.Shrinks.{
  Shrinks, length-skip_ws, parse_string-Shrinks, skip-Shrinks,
}

-- The fuel that a call needs: a value of a text may be a container, which takes a byte more.
abbrev pub weight : Skip → List ℕ → ℕ
weight value s = 2 * length s + 1
weight (items _) s = 2 * length s + 2

-- Two ways to make the calls that agree below a weight.
module _ (n : ℕ) (again other : Skip → List ℕ → Bool × List ℕ)
    (shrinks : (m : Skip) (s : List ℕ) → Shrinks s (other m s))
    (agree : (m : Skip) (s : List ℕ) → weight m s ≤ n → again m s ≡ other m s) where
  value_at_agree : (s : List ℕ) → 2 * length s ≤ n → value_at again s ≡ value_at other s
  unfolding value_at
  value_at_agree [] h = refl
  value_at_agree (c ∷ s) h =
      elim_ext (c == 34) (λ _. refl)
        (λ _.
          elim_ext (c == 123 || c == 91) (λ _. agree (items (c == 123)) s (omega (arith, h)))
            (λ _. refl))

  value_then_agree :
      (object : Bool) (s : List ℕ)
      → 2 * length s + 1 ≤ n
      → value_then again (items object) s ≡ value_then other (items object) s
  unfolding value_then
  value_then_agree object s h =
      let v = other value s in
      ap
        (λ (r : Bool × List ℕ). elim r.0 [ true ↦ again (items object) r.1 | false ↦ (false, r.1) ])
        (agree value s h)
      ∙ elim_ext v.0 (λ e. agree (items object) v.1 (omega (arith, h, (shrinks value s).lt e)))
          (λ _. refl)

  colon_then_agree : (s : List ℕ) → 2 * length s + 1 ≤ n → colon_then again s ≡ colon_then other s
  unfolding colon_then
  colon_then_agree [] h = refl
  colon_then_agree (c ∷ s) h =
      elim_ext (c == 58) (λ _. value_then_agree true s (omega (arith, h))) (λ _. refl)

  item_at_agree :
      (object : Bool) (s : List ℕ)
      → 2 * length s + 1 ≤ n
      → item_at again object s ≡ item_at other object s
  unfolding item_at
  item_at_agree false s h = value_then_agree false s h
  item_at_agree true s h =
      let key = parse_string [] s in
      elim_ext key.good
        (λ _.
          colon_then_agree (skip_ws key.rest)
            (omega (arith, h, length-skip_ws key.rest, (parse_string-Shrinks [] s).le)))
        (λ _. refl)

  items_at_agree :
      (object : Bool) (s : List ℕ)
      → 2 * length s + 1 ≤ n
      → items_at again object s ≡ items_at other object s
  unfolding items_at
  items_at_agree object [] h = refl
  items_at_agree object (c ∷ s) h =
      elim_ext (c == (if object then 125 else 93)) (λ _. refl)
        (λ _.
          elim_ext (c == 44) (λ _. agree (items object) s (omega (arith, h)))
            (λ _. item_at_agree object (c ∷ s) h))

-- The mutual recursion of skipValue and skipContainer ends: any two amounts of fuel of at least
-- twice the length of the text and one (for a value) or two (for the items of a container) give
-- the same result.
pub skip_fuel :
    (n k : ℕ) (m : Skip) (s : List ℕ) → weight m s ≤ n → weight m s ≤ k → skip n m s ≡ skip k m s
unfolding skip
skip_fuel zero k value s h l = absurd (omega (arith, h))
skip_fuel zero k (items object) s h l = absurd (omega (arith, h))
skip_fuel (suc n) zero value s h l = absurd (omega (arith, l))
skip_fuel (suc n) zero (items object) s h l = absurd (omega (arith, l))
skip_fuel (suc n) (suc k) value s h l =
    value_at_agree (min n k) (skip n) (skip k) (skip-Shrinks k)
      (λ m t w. skip_fuel n k m t (omega (arith, w)) (omega (arith, w))) (skip_ws s)
      (omega (arith, h, l, length-skip_ws s))
skip_fuel (suc n) (suc k) (items object) s h l =
    items_at_agree (min n k) (skip n) (skip k) (skip-Shrinks k)
      (λ m t w. skip_fuel n k m t (omega (arith, w)) (omega (arith, w))) object (skip_ws s)
      (omega (arith, h, l, length-skip_ws s))
