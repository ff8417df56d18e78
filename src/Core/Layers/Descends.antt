-- ===== src/Core/Layers/Descends.antt =====
-- The loop of `isDescendant`: its end and its answer.
use mari_paint.Prelude.{
  ℕ, zero, suc, ◌<◌, ◌≡◌, ◌≢◌, ◌↔◌, refl, sym, ap, ◌∙◌, subst, Bool, true, false, Option, none,
  some, arith, eq_of, ◌==◌, Bool-cases, inl, inr, if_yes, if_no,
}
use mari_paint.Core.Layers.{Tree, put, is_descendant, is_refused}
use mari_paint.Core.Layers.Depth.{At}
use mari_paint.Core.Layers.Sound.{Sound, Parent-rooted, depth_bound}

-- So many steps of `parentOf` lead from p to a, and none leaves the root.
abbrev pub Reaches : (ℕ → ℕ) → ℕ → ℕ → ℕ → Type 0
Reaches f zero p a = p ≡ a
Reaches f (suc k) p a = (p ≢ 0) × Reaches f k (f p) a

-- What the loop answers, once it has ended.
pub record Ended (m : ℕ) (t : Tree) (p a : ℕ) : Type 0 where
  pub answer : Bool
  pub ends : is_descendant m t p a ≡ some answer
  pub right : (answer ≡ true) ↔ ((k : ℕ) × Reaches t.parents k p a)

Ended-next :
    (m : ℕ) (t : Tree) (p a : ℕ)
    → (p == 0) ≡ false
    → (p == a) ≡ false
    → Ended m t (t.parents p) a
    → Ended (suc m) t p a
unfolding is_descendant
Ended-next m t p a z o w = record {
  answer = w.answer;
  ends = if_no {b = p == 0} _ _ z ∙ if_no {b = p == a} _ _ o ∙ w.ends;
  right = (
    (λ e. let (k, r) = w.right.0 e in (suc k, ((λ y. ground (arith, y, z)), r))),
    (λ r. back r.0 r.1),
  );
}
  where
    back : (k : ℕ) → Reaches t.parents k p a → w.answer ≡ true
    back zero l = ground (arith, l, o)
    back (suc k) l = w.right.1 (k, l.1)

-- From the root, no step leads anywhere.
root_stays : (t : Tree) (p a k : ℕ) → a ≢ 0 → p ≡ 0 → ¬ Reaches t.parents k p a
root_stays t p a zero h l r = h (sym r ∙ l)
root_stays t p a (suc k) h l r = r.0 l

is_descendant-Ended :
    (m d : ℕ) (t : Tree) (p a : ℕ) → a ≢ 0 → d < m → At t.parents d p → Ended m t p a
unfolding is_descendant
is_descendant-Ended zero d t p a h b l = absurd (omega (arith, b))
is_descendant-Ended (suc m) zero t p a h b l = record {
  answer = false;
  ends = if_yes {b = p == 0} _ _ (ground (arith, l));
  right = ((λ e. cc e), (λ r. absurd (root_stays t p a r.0 h l r.1)));
}
is_descendant-Ended (suc m) (suc d) t p a h b l =
    let z : (p == 0) ≡ false = ground (arith, l.0) in
    elim (Bool-cases (p == a)) [
      | inl s ↦ record {
        answer = true;
        ends = if_no {b = p == 0} _ _ z ∙ if_yes {b = p == a} _ _ s;
        right = ((λ e. (0, eq_of p a s)), (λ r. refl));
      }
      | inr o ↦
          Ended-next m t p a z o
            (is_descendant-Ended m d t (t.parents p) a h (omega (arith, b)) l.1)
    ]

-- On a sound tree, the loop of isDescendant ends within one round more than there are ids, and it
-- answers yes exactly when steps to the parent lead from the parent of the layer to the other.
pub is_descendant_iff :
    (m : ℕ) (t : Tree) (c a : ℕ)
    → Sound t
    → t.index c ≡ true
    → a ≢ 0
    → t.next_id < m
    → (answer : Bool) × (is_descendant m t (t.parents c) a ≡ some answer)
      × ((answer ≡ true) ↔ ((k : ℕ) × Reaches t.parents k (t.parents c) a))
is_descendant_iff m t c a w e h b =
    let p = t.parents c in
    let (d, l) = Parent-rooted t w p (w.up c e) in
    let r =
      is_descendant-Ended m d t p a h (omega (arith, b, depth_bound t w p d (w.up c e) l)) l in
    (r.answer, r.ends, r.right)

pub is_refused-no : (r : Option Bool) → is_refused r ≡ false → r ≡ some false
unfolding is_refused
is_refused-no none e = cc e
is_refused-no (some b) e = ap some e

-- A chain that does not meet x is the same chain once x has another parent.
pub At-put :
    (m d : ℕ) (t : Tree) (p x q : ℕ)
    → At t.parents d p
    → is_descendant m t p x ≡ some false
    → At (put x q t.parents) d p
unfolding is_descendant
At-put m zero t p x q l e = l
At-put zero (suc d) t p x q l e = cc e
At-put (suc m) (suc d) t p x q l e =
    let e1 = sym (if_no {b = p == 0} (some false) _ (ground (arith, l.0))) ∙ e in
    elim (Bool-cases (p == x)) [
      | inl s ↦ cc (sym (if_yes {b = p == x} (some true) _ s) ∙ e1)
      | inr o ↦ (
        l.0,
        subst (At (put x q t.parents) d) (sym (if_no {b = p == x} q (t.parents p) o))
            (At-put m d t (t.parents p) x q l.1 (sym (if_no {b = p == x} (some true) _ o) ∙ e1)),
      )
    ]
