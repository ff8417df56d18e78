-- ===== src/App/Events/Within.antt =====
-- A list with some members left out, and how many.
use mari_paint.Prelude.{
  ℕ, suc, ◌≤◌, ◌≡◌, ◌+◌, refl, List, [], ◌∷◌, ◌++◌, arith, length, length-append, append_assoc,
}
use mari_paint.App.Events.Subscriber.{drop_oldest}

-- The first list is the second with `n` of its members left out.
pub data Within {E : Type 0} : List E → List E → ℕ → Type 0 where
  nothing : Within [] [] 0
  kept : (x : E) {xs ys : List E} {n : ℕ} → Within xs ys n → Within (x ∷ xs) (x ∷ ys) n
  lost : (y : E) {xs ys : List E} {n : ℕ} → Within xs ys n → Within xs (y ∷ ys) (suc n)

module _ {E : Type 0} where
  Within-keep :
      (e : E) {xs ys : List E} {n : ℕ} → Within xs ys n → Within (xs ++ e ∷ []) (ys ++ e ∷ []) n
  Within-keep e nothing = kept e nothing
  Within-keep e (kept x w) = kept x (Within-keep e w)
  Within-keep e (lost y w) = lost y (Within-keep e w)

  pub Within-lose :
      (e : E) {xs ys : List E} {n : ℕ} → Within xs ys n → Within xs (ys ++ e ∷ []) (suc n)
  Within-lose e nothing = lost e nothing
  Within-lose e (kept x w) = kept x (Within-lose e w)
  Within-lose e (lost y w) = lost y (Within-lose e w)

  Within-remove :
      (cs : List E) (x : E) (q ys : List E) {n : ℕ}
      → Within (cs ++ x ∷ q) ys n
      → Within (cs ++ q) ys (suc n)
  Within-remove [] x q [] w = elim w [ ]
  Within-remove (c ∷ cs) x q [] w = elim w [ ]
  Within-remove [] x q (y ∷ ys) (kept _ w) = lost x w
  Within-remove [] x q (y ∷ ys) (lost _ w) = lost y (Within-remove [] x q ys w)
  Within-remove (c ∷ cs) x q (y ∷ ys) (kept _ w) = kept c (Within-remove cs x q ys w)
  Within-remove (c ∷ cs) x q (y ∷ ys) (lost _ w) = lost y (Within-remove (c ∷ cs) x q ys w)

  pub Within-clear :
      (cs q ys : List E) {n : ℕ} → Within (cs ++ q) ys n → (m : ℕ) × Within (cs ++ []) ys m
  Within-clear cs [] ys {n = n} w = (n, w)
  Within-clear cs (x ∷ q) ys w = Within-clear cs q ys (Within-remove cs x q ys w)

  pub Within-push :
      (e : E) (cs q ys : List E) {n : ℕ}
      → Within (cs ++ q) ys n
      → Within (cs ++ (q ++ e ∷ [])) (ys ++ e ∷ []) n
  Within-push e cs q ys w = rw⁻¹ (append_assoc cs q (e ∷ [])) (Within-keep e w)

  pub Within-rotate :
      (e : E) (cs q ys : List E) {n : ℕ}
      → 1 ≤ length q
      → Within (cs ++ q) ys n
      → Within (cs ++ (drop_oldest q ++ e ∷ [])) (ys ++ e ∷ []) (suc n)
  unfolding drop_oldest
  Within-rotate e cs [] ys h w = absurd (omega arith)
  Within-rotate e cs (x ∷ q) ys h w = Within-push e cs q ys (Within-remove cs x q ys w)

  pub length-drop_oldest :
      (e : E) (q : List E) → 1 ≤ length q → length (drop_oldest q ++ e ∷ []) ≡ length q
  unfolding drop_oldest
  length-drop_oldest e [] h = absurd (omega arith)
  length-drop_oldest e (x ∷ q) h = omega (arith, length-append q (e ∷ []))

  pub Within-length : {xs ys : List E} {n : ℕ} → Within xs ys n → n + length xs ≡ length ys
  Within-length nothing = refl
  Within-length (kept x w) = omega (arith, Within-length w)
  Within-length (lost y w) = omega (arith, Within-length w)
