-- ===== src/Core/Layers/Remove.antt =====
-- The removing of a layer keeps the tree sound.
use mari_paint.Prelude.{
  ℕ, zero, suc, ◌<◌, ◌≡◌, ◌≢◌, refl, sym, ap, ◌∙◌, subst, true, false, not, ◌&&◌, List, [], ◌∷◌,
  arith, true_of_not, eq_of, ◌==◌, if◌then◌else◌, Bool-cases, inl, inr, if_yes, if_no, ◌⊎◌, ◌↔◌,
}
use mari_paint.Core.Errors.{ErrorCode, Result, ok, err, guard_passed, Result-cases}
use mari_paint.Core.Layers.{
  Tree, Layer, is_group, child_list_of, set_child_list, has, remove_guard, cut, remove, if_ok,
}
use mari_paint.Core.Layers.Counts.{one_if, count}
use mari_paint.Core.Layers.Depth.{At}
use mari_paint.Core.Layers.Descends.{Reaches}
use mari_paint.Core.Layers.Sound.{Sound, Parent, slot, kind_set_child_list, depth_bound}
use mari_paint.Core.Layers.Detach.{slot_self, listed, detached, count_detached}
use mari_paint.Core.Layers.Forget.{Frame, Forgot, stays_out, unindex_recursive-Forgot}

slot-inverted : (t : Tree) (p x : ℕ) → 0 < slot t p x → (t.index x ≡ true) × (t.parents x ≡ p)
slot-inverted t p x h = elim (Bool-cases (t.index x)) [
  | inl e ↦ (e, ground (arith, h, e))
  | inr e ↦ absurd (ground (arith, h, e))
]

module _ (t : Tree) (w : Sound t) (x : ℕ) (e : t.index x ≡ true) where
  children_detached :
      (p y : ℕ)
      → t.index p ≡ true
      → count y ((detached x t).objects p).children ≡ (if y == x then 0 else slot t p y)
  unfolding child_list_of
  children_detached p y k =
      ap (count y) (
        sym (
          if_no {b = p == 0} (detached x t).roots ((detached x t).objects p).children
            (nonzero p k)))
      ∙ count_detached t x p y w e (inr k)
    where
      nonzero : (p : ℕ) → t.index p ≡ true → (p == 0) ≡ false
      nonzero p k = elim (Bool-cases (p == 0)) [
        | inl z ↦ cc (w.nil, k, ap t.index (eq_of p 0 z))
        | inr n ↦ n
      ]

  detached-Frame : Frame (detached x t) x
  unfolding set_child_list
  detached-Frame = record {
    nil = w.nil;
    kids = λ p y k h. slot-inverted t p y (elim (Bool-cases (y == x)) [
      | inl s ↦
          absurd (omega (arith, h, children_detached p y k, if_yes {b = y == x} 0 (slot t p y) s))
      | inr s ↦ omega (arith, h, children_detached p y k, if_no {b = y == x} 0 (slot t p y) s)
    ]);
    full = λ p y k a b n.
        let c = if_no {b = y == x} 0 (slot t p y) (ground (arith, n)) in
        omega (arith, children_detached p y k, c, slot_self t p y a b);
    bound = λ y d k l. depth_bound t w y d (inr k) l;
  }

  module _ (u : Tree) (f : Forgot (detached x t) x (detached x t) u (x ∷ [])) where
    top : (y : ℕ) → u.index y ≡ true → y ≢ x
    top y k s = cc (k, f.gone y (ground (arith, s)))

    up_cut : (y : ℕ) → u.index y ≡ true → Parent u (u.parents y)
    unfolding set_child_list
    up_cut y k =
        let (a, b) = f.kept y k in
        elim (w.up y a) [
          | inl z ↦ inl (b ∙ z)
          | inr m ↦ elim (Bool-cases (u.index (t.parents y))) [
            | inl o ↦ inr (ap u.index b ∙ o)
            | inr o ↦ cc (k, f.down (t.parents y) y m o a refl (top y k))
          ]
        ]

    -- Of the tree before, what is not x and has its parent left.
    stays :
        (p y : ℕ)
        → Parent u p
        → (y == x) ≡ false
        → t.index y ≡ true
        → t.parents y ≡ p
        → u.index y ≡ true
    unfolding set_child_list
    stays p y m n a b = elim (Bool-cases (u.index y)) [
      | inl k ↦ k
      | inr k ↦ elim (f.why y a k) [
        | inl h ↦ absurd (ground (arith, h, n))
        | inr h ↦ elim m [
          | inl z ↦ cc (w.nil, h.0, ap t.index (b ∙ z))
          | inr q ↦ cc (q, h.1, ap u.index b)
        ]
      ]
    ]

    lists_cut : (p y : ℕ) → Parent u p → count y (child_list_of u p) ≡ slot u p y
    unfolding child_list_of set_child_list
    lists_cut p y m =
        ap (λ (r : List ℕ). count y (if p == 0 then r else (u.objects p).children)) f.roots
        ∙ ap (λ (o : ℕ → Layer). count y (if p == 0 then (detached x t).roots else (o p).children))
            f.objects
        ∙ count_detached t x p y w e (old m)
        ∙ elim (Bool-cases (y == x)) [
          | inl s ↦ if_yes {b = y == x} 0 _ s ∙ sym (left (f.gone y (ground (arith, s))))
          | inr s ↦ if_no {b = y == x} 0 _ s ∙ other s
        ]
      where
        old : Parent u p → Parent t p
        old (inl z) = inl z
        old (inr k) = inr (f.kept p k).0

        left : u.index y ≡ false → slot u p y ≡ 0
        left k = ap (λ b. one_if (b && (u.parents y == p))) k

        other : (y == x) ≡ false → slot t p y ≡ slot u p y
        other n = elim (Bool-cases (u.index y)) [
          | inl k ↦
              let (a, b) = f.kept y k in
              ap (λ c. one_if (c && (t.parents y == p))) (a ∙ sym k)
              ∙ ap (λ z. one_if (u.index y && (z == p))) (sym b)
          | inr k ↦ elim (Bool-cases (t.index y && (t.parents y == p))) [
            | inl c ↦
                let (a, b) = slot-inverted t p y (omega (arith, ap one_if c)) in
                cc (k, stays p y m n a b)
            | inr c ↦ ap one_if c ∙ sym (left k)
          ]
        ]

    At-cut : (d y : ℕ) → Parent u y → At t.parents d y → At u.parents d y
    unfolding set_child_list
    At-cut zero y m l = l
    At-cut (suc d) y (inl z) l = absurd (l.0 z)
    At-cut (suc d) y (inr k) l =
        let b = (f.kept y k).1 in
        (
          l.0,
          subst (At u.parents d) (sym b)
              (At-cut d (t.parents y) (subst (Parent u) b (up_cut y k)) l.1),
        )

    cut-Sound : Sound u
    unfolding set_child_list
    cut-Sound = record {
      nil = stays_out f 0 w.nil;
      next = omega (arith, f.next_id, w.next);
      fresh = λ y k. omega (arith, f.next_id, w.fresh y (f.kept y k).0);
      up = up_cut;
      groups = λ y k n.
          let (a, b) = f.kept y k in
          ap (λ (o : ℕ → Layer). is_group (o (u.parents y)).kind) f.objects
          ∙ ap is_group (kind_set_child_list t (t.parents x) (u.parents y) _)
          ∙ ap (λ z. is_group (t.objects z).kind) b
          ∙ w.groups y a (λ z. n (b ∙ z));
      lists = lists_cut;
      rooted = λ y k. let (d, l) = w.rooted y (f.kept y k).0 in (d, At-cut d y (inr k) l);
      active = f.active w.active;
    }

    -- What goes is x and what stands below it.
    cut-index :
        (y : ℕ) → (u.index y ≡ true) ↔ ((t.index y ≡ true) × ¬ ((k : ℕ) × Reaches t.parents k y x))
    unfolding set_child_list
    cut-index y = (
      (λ k. ((f.kept y k).0, λ r. above r.0 y k r.1)),
      λ r. elim (Bool-cases (u.index y)) [
        | inl k ↦ k
        | inr k ↦ let (d, l) = w.rooted y r.0 in absurd (r.1 (below d y r.0 k l))
      ],
    )
      where
        root : (k p : ℕ) → p ≡ 0 → Reaches t.parents k p x → ⊥
        root zero p z r = cc (w.nil, e, ap t.index (sym r ∙ z))
        root (suc k) p z r = r.0 z

        above : (k y : ℕ) → u.index y ≡ true → Reaches t.parents k y x → ⊥
        above zero y m r = top y m r
        above (suc k) y m r = elim (up_cut y m) [
          | inl z ↦ root k (t.parents y) (sym (f.kept y m).1 ∙ z) r.1
          | inr q ↦ above k (t.parents y) (ap u.index (sym (f.kept y m).1) ∙ q) r.1
        ]

        below :
            (d y : ℕ)
            → t.index y ≡ true
            → u.index y ≡ false
            → At t.parents d y
            → (k : ℕ) × Reaches t.parents k y x
        below zero y a m l = cc (w.nil, a, ap t.index l)
        below (suc d) y a m l = elim (f.why y a m) [
          | inl h ↦ (0, ground (arith, h))
          | inr h ↦ let (k, r) = below d (t.parents y) h.0 h.1 l.1 in (suc k, (l.0, r))
        ]

-- Behind the guards the recursion has fuel for the whole subtree.
cut-Forgot :
    (x : ℕ) (t : Tree)
    → Sound t
    → t.index x ≡ true
    → Forgot (detached x t) x (detached x t) (cut x t) (x ∷ [])
unfolding cut set_child_list
cut-Forgot x t w e =
    let (d, l) = w.rooted x e in
    unindex_recursive-Forgot (detached x t) x (suc t.next_id) d x (detached x t)
      (detached-Frame t w x e) e l (omega arith) refl

remove_guard-passed : (x : ℕ) (t : Tree) → remove_guard x t ≡ ok tt → t.index x ≡ true
unfolding remove_guard
remove_guard-passed x t e =
    let (_, e1) = guard_passed (x == 0) ErrorCode.invalid_argument e in
    let (known, _) =
      guard_passed (not (t.index x)) ErrorCode.not_found
        {r = if not (has x (child_list_of t (t.parents x))) then err ErrorCode.unknown else ok tt}
        e1 in
    true_of_not known

pub remove-Sound : (x : ℕ) (t : Tree) → Sound t → Sound (remove x t).1
unfolding remove
remove-Sound x t w = elim (Result-cases (remove_guard x t)) [
  | inl e ↦
      let known = remove_guard-passed x t e in
      subst (λ r. Sound (if_ok r tt (cut x t) t).1) (sym e)
        (cut-Sound t w x known _ (cut-Forgot x t w known))
  | inr (c, e) ↦ subst (λ r. Sound (if_ok r tt (cut x t) t).1) (sym e) w
]

-- A layer of a sound tree can be removed.
remove_guard-ok : (x : ℕ) (t : Tree) → Sound t → t.index x ≡ true → remove_guard x t ≡ ok tt
unfolding remove_guard
remove_guard-ok x t w e =
    if_no {b = x == 0} _ _ (nonzero (Bool-cases (x == 0)))
    ∙ if_no {b = not (t.index x)} _ _ (ap not e)
    ∙ if_no {b = not (has x (child_list_of t (t.parents x)))} _ _ (ap not (listed w e))
  where
    nonzero : ((x == 0) ≡ true) ⊎ ((x == 0) ≡ false) → (x == 0) ≡ false
    nonzero (inl z) = cc (w.nil, e, ap t.index (eq_of x 0 z))
    nonzero (inr n) = n

-- The call succeeded, and the maps have the layers of before but x and what stands below it.
abbrev pub Removed : Tree → ℕ → Result (Unit {0}) × Tree → Type 0
Removed t x r =
    (r.0 ≡ ok tt)
    × ((y : ℕ)
        → (r.1.index y ≡ true) ↔ ((t.index y ≡ true) × ¬ ((k : ℕ) × Reaches t.parents k y x)))

-- On a sound tree, remove of a layer of the tree succeeds, and the layers left in the index are
-- those from which no number of steps to the parent, none included, leads to the removed one.
pub remove-index : (x : ℕ) (t : Tree) → Sound t → t.index x ≡ true → Removed t x (remove x t)
unfolding remove
remove-index x t w e =
    subst (λ g. Removed t x (if_ok g tt (cut x t) t)) (sym (remove_guard-ok x t w e))
      (refl, cut-index t w x e _ (cut-Forgot x t w e))
