-- ===== src/Core/Layers/Depth.antt =====
-- The depth of a layer: how many steps `parentOf` takes to the root. It bounds the loop of
-- `isDescendant` and the recursion over a subtree.
use mari_paint.Prelude.{
  ℕ, zero, suc, ◌≤◌, ◌<◌, ◌≡◌, ◌≢◌, refl, sym, ap, List, [], ◌∷◌, arith, ◌==◌, subst, length,
  Bool-cases, inl, inr, ◌⊎◌,
}
use mari_paint.Core.Layers.Counts.{one_if, count, length-total, total_bound}

-- d steps lead from x to the root, and no fewer.
abbrev pub At : (ℕ → ℕ) → ℕ → ℕ → Type 0
At f zero x = x ≡ 0
At f (suc d) x = (x ≢ 0) × At f d (f x)

At-unique : (f : ℕ → ℕ) (d e x : ℕ) → At f d x → At f e x → d ≡ e
At-unique f zero zero x h k = refl
At-unique f zero (suc e) x h k = absurd (k.0 h)
At-unique f (suc d) zero x h k = absurd (h.0 k)
At-unique f (suc d) (suc e) x h k = ap suc (At-unique f d e (f x) h.1 k.1)

abbrev ancestors : (ℕ → ℕ) → ℕ → ℕ → List ℕ
ancestors f zero x = []
ancestors f (suc d) x = x ∷ ancestors f d (f x)

length-ancestors : (f : ℕ → ℕ) (d x : ℕ) → length (ancestors f d x) ≡ d
length-ancestors f zero x = refl
length-ancestors f (suc d) x = ap suc (length-ancestors f d (f x))

-- What stands below another is not among its ancestors.
below : (f : ℕ → ℕ) (d e x y : ℕ) → At f d x → At f e y → d < e → count y (ancestors f d x) ≡ 0
below f zero e x y h k lt = refl
below f (suc d) e x y h k lt = elim (Bool-cases (y == x)) [
  | inl same ↦
      let s : y ≡ x = ground (arith, same) in
      absurd (omega (arith, At-unique f (suc d) e x h (subst (At f e) s k), lt))
  | inr other ↦ omega (arith, ap one_if other, below f d e (f x) y h.1 k (omega (arith, lt)))
]

once : (f : ℕ → ℕ) (d x y : ℕ) → At f d x → count y (ancestors f d x) ≤ 1
once f zero x y h = omega arith
once f (suc d) x y h = elim (Bool-cases (y == x)) [
  | inl same ↦
      let s : y ≡ x = ground (arith, same) in
      omega (
        arith,
        ap one_if same,
        below f d (suc d) (f x) y h.1 (subst (At f (suc d)) (sym s) h) (omega arith),
      )
  | inr other ↦ omega (arith, ap one_if other, once f d (f x) y h.1)
]

-- The ancestors satisfy what is kept on the way up.
module _ (f : ℕ → ℕ) (P : ℕ → Type 0) (up : (x : ℕ) → P x → (f x ≡ 0) ⊎ P (f x)) where
  ancestors-all : (d x y : ℕ) → At f d x → (x ≡ 0) ⊎ P x → 0 < count y (ancestors f d x) → P y
  ancestors-all zero x y h p k = absurd (omega arith)
  ancestors-all (suc d) x y h (inl z) k = absurd (h.0 z)
  ancestors-all (suc d) x y h (inr p) k = elim (Bool-cases (y == x)) [
    | inl same ↦ subst P (ground (arith, same)) p
    | inr other ↦ ancestors-all d (f x) y h.1 (up x p) (omega (arith, ap one_if other, k))
  ]

  -- Different ancestors below n are at most n.
  pub At-bound : (n d x : ℕ) → ((y : ℕ) → P y → y < n) → At f d x → (x ≡ 0) ⊎ P x → d ≤ n
  At-bound n d x lt h p =
      let all = ancestors-all d x in
      omega (
        arith,
        length-ancestors f d x,
        length-total n (ancestors f d x) (λ y k. lt y (all y h p k)),
        total_bound n (ancestors f d x) (λ y. once f d x y h),
      )
