-- ===== src/Core/Layers/Sound.antt =====
-- The invariant of the layer tree, and what the writing of a list does to it.
use mari_paint.Prelude.{
  ℕ, ◌≤◌, ◌<◌, ◌≡◌, ◌≢◌, refl, sym, ◌∙◌, subst, true, false, ◌&&◌, ◌||◌, List, arith, ◌==◌,
  Bool-cases, inl, inr, if_yes, if_no, if_both, ◌⊎◌,
}
use mari_paint.Prelude.Int.{ℤ}
use mari_paint.Core.Errors.{Result, ok, ok-injective}
use mari_paint.Core.Layers.{
  negative, Tree, is_group, make_layer_tree, child_list_of, set_child_list, set_active_layer,
}
use mari_paint.Core.Layers.Counts.{one_if, count}
use mari_paint.Core.Layers.Depth.{At, At-bound}

-- The list of p has x once if x is in the tree below p, and else not at all.
abbrev pub slot : Tree → ℕ → ℕ → ℕ
slot t p x = one_if (t.index x && (t.parents x == p))

abbrev pub Parent : Tree → ℕ → Type 0
Parent t p = (p ≡ 0) ⊎ (t.index p ≡ true)

-- Every layer that `find` finds stands once, in the list of its parent, which is the root or a group of
-- the tree; the parents lead to the root; the active layer is one of the tree.
pub record Sound (t : Tree) : Type 0 where
  pub nil : t.index 0 ≡ false
  pub next : 0 < t.next_id
  pub fresh : (x : ℕ) → t.index x ≡ true → x < t.next_id
  pub up : (x : ℕ) → t.index x ≡ true → Parent t (t.parents x)
  pub groups :
      (x : ℕ) → t.index x ≡ true → t.parents x ≢ 0 → is_group (t.objects (t.parents x)).kind ≡ true
  pub lists : (p x : ℕ) → Parent t p → count x (child_list_of t p) ≡ slot t p x
  pub rooted : (x : ℕ) → t.index x ≡ true → (d : ℕ) × At t.parents d x
  pub active : Parent t t.active

-- No more steps lead to the root than there are ids.
pub depth_bound : (t : Tree) → Sound t → (x d : ℕ) → Parent t x → At t.parents d x → d ≤ t.next_id
depth_bound t w x d p h = At-bound t.parents (λ y. t.index y ≡ true) w.up t.next_id d x w.fresh h p

pub Parent-rooted : (t : Tree) → Sound t → (x : ℕ) → Parent t x → (d : ℕ) × At t.parents d x
Parent-rooted t w x (inl e) = (0, e)
Parent-rooted t w x (inr e) = w.rooted x e

pub child_list_of_set_self :
    (t : Tree) (p : ℕ) (xs : List ℕ) → child_list_of (set_child_list t p xs) p ≡ xs
unfolding child_list_of set_child_list
child_list_of_set_self t p xs = ground arith

pub child_list_of_set_other :
    (t : Tree) (p q : ℕ) (xs : List ℕ)
    → (q == p) ≡ false
    → child_list_of (set_child_list t p xs) q ≡ child_list_of t q
unfolding child_list_of set_child_list
child_list_of_set_other t p q xs h = ground (arith, h)

pub kind_set_child_list :
    (t : Tree) (p q : ℕ) (xs : List ℕ)
    → ((set_child_list t p xs).objects q).kind ≡ (t.objects q).kind
unfolding set_child_list
kind_set_child_list t p q xs = ground arith

pub make_layer_tree-Sound : (w h : ℤ) (t : Tree) → make_layer_tree w h ≡ ok t → Sound t
unfolding make_layer_tree child_list_of
make_layer_tree-Sound w h t e = elim (Bool-cases (negative w || negative h)) [
  | inl bad ↦ cc
  | inr good ↦ subst Sound (ok-injective (sym (if_no _ _ good) ∙ e)) (record {
    nil = refl;
    next = omega arith;
    fresh = λ x k. cc;
    up = λ x k. inl refl;
    groups = λ x k n. absurd (n refl);
    lists = λ p x k. ground arith;
    rooted = λ x k. cc;
    active = inl refl;
  })
]

pub set_active_layer-Sound : (x : ℕ) (t : Tree) → Sound t → Sound (set_active_layer x t).1
unfolding set_active_layer child_list_of
set_active_layer-Sound x t w =
    if_both (λ (r : Result (Unit {0}) × Tree). Sound r.1) (x == 0) (activated 0 (inl refl))
      (elim (Bool-cases (t.index x)) [
        | inl e ↦
            subst (λ (r : Result (Unit {0}) × Tree). Sound r.1) (sym (if_yes {b = t.index x} _ _ e))
              (activated x (inr e))
        | inr e ↦
            subst (λ (r : Result (Unit {0}) × Tree). Sound r.1) (sym (if_no {b = t.index x} _ _ e))
              w
      ])
  where
    activated : (y : ℕ) → Parent t y → Sound (record t { active = y })
    activated y h = record {
      nil = w.nil;
      next = w.next;
      fresh = w.fresh;
      up = w.up;
      groups = w.groups;
      lists = w.lists;
      rooted = w.rooted;
      active = h;
    }
