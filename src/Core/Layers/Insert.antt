-- ===== src/Core/Layers/Insert.antt =====
-- The adding of a layer keeps the tree sound.
use mari_paint.Prelude.{
  ℕ, zero, suc, ◌+◌, ◌<◌, ◌≡◌, ◌≢◌, sym, ap, ◌∙◌, subst, true, false, List, [], arith, true_of_not,
  eq_of, ◌==◌, if◌then◌else◌, length, Bool-cases, inl, inr, if_yes, if_no, if_both,
}
use mari_paint.Prelude.Int.{ℤ}
use mari_paint.Core.Errors.{ok, guard_passed, Result-cases}
use mari_paint.Core.Layers.{
  Tree, is_group, put, child_list_of, set_child_list, clamp_index, insert_at, index_recursive, each,
  put_in_list, insert_guard, if_ok, insert,
}
use mari_paint.Core.Layers.Counts.{one_if, count, count-insert_at}
use mari_paint.Core.Layers.Depth.{At}
use mari_paint.Core.Layers.Sound.{
  Sound, Parent, slot, child_list_of_set_self, child_list_of_set_other, kind_set_child_list,
  Parent-rooted,
}

-- A layer object outside of the tree, with no children.
pub record Leaf (t : Tree) (x : ℕ) : Type 0 where
  pub id : 0 < x
  pub known : x < t.next_id
  pub outside : t.index x ≡ false
  pub bare : (t.objects x).children ≡ []

-- A parent that `insert` takes.
pub record Takes (t : Tree) (p : ℕ) : Type 0 where
  pub parent : Parent t p
  pub group' : p ≢ 0 → is_group (t.objects p).kind ≡ true

-- The tree with the layer in the maps.
abbrev indexed : ℕ → ℕ → Tree → Tree
indexed x p t = record t { index = put x true t.index; parents = put x p t.parents }

index_recursive-Leaf :
    (fuel x p : ℕ) (t : Tree) → Leaf t x → index_recursive (suc fuel) p x t ≡ indexed x p t
unfolding index_recursive
index_recursive-Leaf fuel x p t l =
    ap (λ cs. each (index_recursive fuel x) cs (indexed x p t)) l.bare

module _ (t : Tree) (w : Sound t) (x p : ℕ) (l : Leaf t x) (k : Takes t p) (i : ℤ) where
  old-Parent : (y : ℕ) → Parent (indexed x p t) y → (y == x) ≡ false → Parent t y
  old-Parent y (inl e) n = inl e
  old-Parent y (inr e) n = inr (ground (arith, e, n))

  new-Parent : (y : ℕ) → Parent t y → Parent (indexed x p t) y
  new-Parent y (inl e) = inl e
  new-Parent y (inr e) = inr (ground (arith, e))

  not_new : (y : ℕ) → t.index y ≡ true → (y == x) ≡ false
  not_new y e = elim (Bool-cases (y == x)) [
    | inl same ↦ cc (l.outside, e, ap t.index (eq_of y x same))
    | inr other ↦ other
  ]

  -- Nothing of the tree has the new layer as its parent.
  childless : (y : ℕ) → t.index y ≡ true → t.parents y ≢ x
  childless y e s = elim (w.up y e) [
    | inl z ↦ omega (arith, z, s, l.id)
    | inr q ↦ cc (l.outside, ap t.index s, q)
  ]

  no_children : (y : ℕ) → count y (child_list_of t x) ≡ slot t x y
  unfolding child_list_of
  no_children y =
      ap (count y)
        (if_no {b = x == 0} t.roots (t.objects x).children (ground (arith, l.id)) ∙ l.bare)
      ∙ elim (Bool-cases (t.index y)) [
        | inl e ↦ ground (arith, e, childless y e)
        | inr e ↦ ground (arith, e)
      ]

  -- The lists but the parent's.
  unchanged : (q y : ℕ) → Parent (indexed x p t) q → count y (child_list_of t q) ≡ slot t q y
  unfolding child_list_of
  unchanged q y m = elim (Bool-cases (q == x)) [
    | inl same ↦
        subst (λ z. count y (child_list_of t z) ≡ slot t z y) (sym (eq_of q x same)) (no_children y)
    | inr other ↦ w.lists q y (old-Parent q m other)
  ]

  slot-indexed :
      (q y : ℕ)
      → slot (indexed x p t) q y ≡ (if q == p then one_if (y == x) + slot t q y else slot t q y)
  slot-indexed q y = elim (Bool-cases (y == x)) [
    | inl same ↦
        subst
          (λ z.
            slot (indexed x p t) q z
            ≡ (if q == p then one_if (z == x) + slot t q z else slot t q z))
          (sym (eq_of y x same))
          (elim (Bool-cases (q == p)) [
            | inl e ↦ ground (arith, e, l.outside)
            | inr e ↦ ground (arith, e, l.outside)
          ])
    | inr other ↦ elim (Bool-cases (q == p)) [
      | inl e ↦ ground (arith, e, other)
      | inr e ↦ ground (arith, e, other)
    ]
  ]

  At-new : (d y : ℕ) → Parent t y → At t.parents d y → At (put x p t.parents) d y
  At-new zero y m h = h
  At-new (suc d) y (inl z) h = absurd (h.0 z)
  At-new (suc d) y (inr e) h = (
    h.0,
    subst (At (put x p t.parents) d) (sym (if_no {b = y == x} p (t.parents y) (not_new y e)))
        (At-new d (t.parents y) (w.up y e) h.1),
  )

  rooted_indexed : (y : ℕ) → put x true t.index y ≡ true → (d : ℕ) × At (put x p t.parents) d y
  rooted_indexed y e = elim (Bool-cases (y == x)) [
    | inl same ↦
        let (d, a) = Parent-rooted t w p k.parent in
        (
          suc d,
          (
            (λ z. omega (arith, z, eq_of y x same, l.id)),
            subst (At (put x p t.parents) d) (sym (if_yes {b = y == x} p (t.parents y) same))
                (At-new d p k.parent a),
          ),
        )
    | inr other ↦
        let old : t.index y ≡ true = sym (if_no {b = y == x} true (t.index y) other) ∙ e in
        let (d, a) = w.rooted y old in (d, At-new d y (inr old) a)
  ]

  lists_indexed :
      (j q y : ℕ)
      → Parent (indexed x p t) q
      → count y
          (child_list_of (set_child_list (indexed x p t) p (insert_at j x (child_list_of t p))) q)
        ≡ slot (indexed x p t) q y
  unfolding child_list_of
  lists_indexed j q y m = elim (Bool-cases (q == p)) [
    | inl e ↦
        ap
          (λ z. count y (
            child_list_of (set_child_list (indexed x p t) p (insert_at j x (child_list_of t p))) z))
          (eq_of q p e)
        ∙ ap (count y)
            (child_list_of_set_self (indexed x p t) p (insert_at j x (child_list_of t p)))
        ∙ count-insert_at y j x (child_list_of t p)
        ∙ ap (one_if (y == x) +◌) (w.lists p y k.parent ∙ ap (λ z. slot t z y) (sym (eq_of q p e)))
        ∙ sym (slot-indexed q y ∙ if_yes {b = q == p} _ _ e)
    | inr e ↦
        ap (count y)
          (child_list_of_set_other (indexed x p t) p q (insert_at j x (child_list_of t p)) e)
        ∙ unchanged q y m
        ∙ sym (slot-indexed q y ∙ if_no {b = q == p} _ _ e)
  ]

  kind_indexed :
      (q : ℕ) (xs : List ℕ)
      → is_group ((set_child_list (indexed x p t) p xs).objects q).kind
        ≡ is_group (t.objects q).kind
  kind_indexed q xs = ap is_group (kind_set_child_list (indexed x p t) p q xs)

  groups_indexed :
      (y : ℕ)
      → put x true t.index y ≡ true
      → put x p t.parents y ≢ 0
      → is_group (t.objects (put x p t.parents y)).kind ≡ true
  groups_indexed y e n = elim (Bool-cases (y == x)) [
    | inl same ↦
        let q = sym (if_yes {b = y == x} p (t.parents y) same) in
        subst (λ z. is_group (t.objects z).kind ≡ true) q (k.group' (λ z. n (sym q ∙ z)))
    | inr other ↦
        let q = sym (if_no {b = y == x} p (t.parents y) other) in
        subst (λ z. is_group (t.objects z).kind ≡ true) q
          (w.groups y (sym (if_no {b = y == x} true (t.index y) other) ∙ e) (λ z. n (sym q ∙ z)))
  ]

  up_indexed : (y : ℕ) → put x true t.index y ≡ true → Parent (indexed x p t) (put x p t.parents y)
  up_indexed y e = elim (Bool-cases (y == x)) [
    | inl same ↦
        subst (Parent (indexed x p t)) (sym (if_yes {b = y == x} p (t.parents y) same))
          (new-Parent p k.parent)
    | inr other ↦
        subst (Parent (indexed x p t)) (sym (if_no {b = y == x} p (t.parents y) other))
          (new-Parent (t.parents y) (w.up y (sym (if_no {b = y == x} true (t.index y) other) ∙ e)))
  ]

  put_in_list-Sound : Sound (put_in_list x p i (indexed x p t))
  unfolding put_in_list child_list_of
  put_in_list-Sound = record {
    nil = ground (arith, w.nil, l.id);
    next = w.next;
    fresh = λ y e. elim (Bool-cases (y == x)) [
      | inl same ↦ omega (arith, eq_of y x same, l.known)
      | inr other ↦ w.fresh y (sym (if_no {b = y == x} true (t.index y) other) ∙ e)
    ];
    up = up_indexed;
    groups = λ y e n. kind_indexed _ _ ∙ groups_indexed y e n;
    lists = lists_indexed (clamp_index i (length (child_list_of t p)));
    rooted = rooted_indexed;
    active =
        if_both (Parent (indexed x p t)) _
          (inr (if_yes {b = x == x} true (t.index x) (ground arith)))
          (new-Parent t.active w.active);
  }

insert_guard-Takes : (p : ℕ) (t : Tree) → insert_guard p t ≡ ok tt → Takes t p
unfolding insert_guard
insert_guard-Takes p t e = elim (Bool-cases (p == 0)) [
  | inl z ↦ record { parent = inl (eq_of p 0 z); group' = λ n. absurd (n (eq_of p 0 z)) }
  | inr n ↦
      let (a, e1) = guard_passed _ _ (sym (if_no {b = p == 0} (ok tt) _ n) ∙ e) in
      let (g, e2) = guard_passed _ _ e1 in
      record { parent = inr (true_of_not a); group' = λ _. true_of_not g }
]

pub insert-Sound : (x p : ℕ) (i : ℤ) (t : Tree) → Sound t → Leaf t x → Sound (insert x p i t).1
unfolding insert
insert-Sound x p i t w l = elim (Result-cases (insert_guard p t)) [
  | inl e ↦
      subst (λ r. Sound (if_ok r x (put_in_list x p i (index_recursive (suc t.next_id) p x t)) t).1)
        (sym e)
        (subst (λ u. Sound (put_in_list x p i u)) (sym (index_recursive-Leaf t.next_id x p t l))
          (put_in_list-Sound t w x p l (insert_guard-Takes p t e) i))
  | inr (c, e) ↦
      subst (λ r. Sound (if_ok r x (put_in_list x p i (index_recursive (suc t.next_id) p x t)) t).1)
        (sym e) w
]
