-- ===== src/Core/Layers/Counts.antt =====
-- How often a number stands in a list, and what the list operations of the layer tree make of it.
use mari_paint.Prelude.{
  ℕ, zero, suc, ◌+◌, ◌-◌, ◌≤◌, ◌<◌, ◌≡◌, refl, sym, ap, ◌∙◌, Bool, true, false, ◌||◌, List, [], ◌∷◌,
  ◌++◌, arith, ◌==◌, length, take, drop, take-append-drop, Bool-cases, inl, inr, if_yes, if_no,
}
use mari_paint.Core.Layers.{has, insert_at, erase_first}

abbrev pub one_if : Bool → ℕ
one_if true = 1
one_if false = 0

pub one_if_bound : (b : Bool) → one_if b ≤ 1
one_if_bound true = omega arith
one_if_bound false = omega arith

abbrev pub count : ℕ → List ℕ → ℕ
count x [] = 0
count x (y ∷ ys) = one_if (x == y) + count x ys

count-append : (x : ℕ) (xs ys : List ℕ) → count x (xs ++ ys) ≡ count x xs + count x ys
count-append x [] ys = omega arith
count-append x (y ∷ xs) ys = omega (arith, count-append x xs ys)

pub count-insert_at :
    (x i y : ℕ) (xs : List ℕ) → count x (insert_at i y xs) ≡ one_if (x == y) + count x xs
count-insert_at x i y xs =
    let e = ap (count x) (take-append-drop i xs) in
    omega
      (arith, e, count-append x (take i xs) (drop i xs), count-append x (take i xs) (y ∷ drop i xs))

pub has-count : (x : ℕ) (xs : List ℕ) → 0 < count x xs → has x xs ≡ true
has-count x [] h = absurd (omega arith)
has-count x (y ∷ ys) h = elim (Bool-cases (x == y)) [
  | inl e ↦ ap (λ b. b || has x ys) e
  | inr e ↦ ap (λ b. b || has x ys) e ∙ has-count x ys (omega (arith, h, ap one_if e))
]

pub count-erase_first :
    (x y : ℕ) (xs : List ℕ) → count x (erase_first y xs) ≡ count x xs - one_if (x == y)
count-erase_first x y [] = omega arith
count-erase_first x y (z ∷ zs) = elim (Bool-cases (y == z)) [
  | inl e ↦ ap (count x) (if_yes {b = y == z} _ _ e) ∙ ground (arith, e)
  | inr e ↦ ap (count x) (if_no {b = y == z} _ _ e) ∙ ground (arith, e, count-erase_first x y zs)
]

-- A list of numbers below n, none of them twice, has at most n elements.
abbrev pub total : ℕ → List ℕ → ℕ
total zero xs = 0
total (suc n) xs = count n xs + total n xs

total-cons : (n x : ℕ) (xs : List ℕ) → x < n → total n (x ∷ xs) ≡ suc (total n xs)
total-cons zero x xs h = omega arith
total-cons (suc n) x xs h = elim (Bool-cases (n == x)) [
  | inl e ↦ ground (arith, e, above n)
  | inr e ↦ ground (arith, e, total-cons n x xs (ground (arith, e)))
]
  where
    above : (m : ℕ) → m ≤ x → total m (x ∷ xs) ≡ total m xs
    above zero k = refl
    above (suc m) k = ground (arith, k, above m)

total-nil : (n : ℕ) → 0 ≡ total n []
total-nil zero = refl
total-nil (suc n) = omega (arith, total-nil n)

pub count_self : (x : ℕ) (xs : List ℕ) → count x (x ∷ xs) ≡ suc (count x xs)
count_self x xs = ground arith

pub length-total :
    (n : ℕ) (xs : List ℕ) → ((x : ℕ) → 0 < count x xs → x < n) → length xs ≡ total n xs
length-total n [] h = total-nil n
length-total n (x ∷ xs) h = sym (
    total-cons n x xs (h x (omega (arith, count_self x xs)))
    ∙ ap suc (sym (length-total n xs (λ y k. h y (omega arith)))))

pub total_bound : (n : ℕ) (xs : List ℕ) → ((x : ℕ) → count x xs ≤ 1) → total n xs ≤ n
total_bound zero xs h = omega arith
total_bound (suc n) xs h = omega (arith, h n, total_bound n xs h)
