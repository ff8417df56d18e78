-- ===== src/Core/Layers/Move.antt =====
-- The moving of a layer keeps the tree sound: no cycle, and each layer once.
use mari_paint.Prelude.{
  ℕ, zero, suc, ◌+◌, ◌≡◌, ◌≢◌, sym, ap, ◌∙◌, subst, Bool, true, false, not, ◌&&◌, length, arith,
  some, true_of_not, eq_of, ◌==◌, if◌then◌else◌, Bool-cases, inl, inr, if_both, if_yes, if_no, ◌⊎◌,
  ◌↔◌,
}
use mari_paint.Prelude.Int.{ℤ}
use mari_paint.Core.Errors.{ErrorCode, ok, err, guard_passed, Result-cases}
use mari_paint.Core.Layers.{
  Tree, is_refused, is_group, put, child_list_of, set_child_list, clamp_index, insert_at, has,
  is_descendant, relist, move_guard, move, if_ok,
}
use mari_paint.Core.Layers.Counts.{one_if, count, count-insert_at}
use mari_paint.Core.Layers.Depth.{At}
use mari_paint.Core.Layers.Sound.{
  Sound, Parent, slot, child_list_of_set_self, child_list_of_set_other, kind_set_child_list,
  Parent-rooted,
}
use mari_paint.Core.Layers.Descends.{Reaches, is_descendant_iff, is_refused-no, At-put}
use mari_paint.Core.Layers.Detach.{detached, count_detached, listed, if_ok-passed}

-- What the guards of `move` establish.
pub record MayMove (t : Tree) (x q : ℕ) : Type 0 where
  pub known : t.index x ≡ true
  pub parent : Parent t q
  pub group' : q ≢ 0 → is_group (t.objects q).kind ≡ true
  pub other : x ≢ q
  pub above : q ≢ 0 → is_descendant (suc t.next_id) t (t.parents q) x ≡ some false

if_set : (q : ℕ) (b : Bool) → q ≢ 0 → (not (q == 0) && b) ≡ false → b ≡ false
if_set q b n h = elim (Bool-cases (q == 0)) [
  | inl z ↦ absurd (n (eq_of q 0 z))
  | inr o ↦ sym (ap (λ c. not c && b) o) ∙ h
]

move_guard-MayMove : (x q : ℕ) (t : Tree) → move_guard x q t ≡ ok tt → MayMove t x q
unfolding move_guard
move_guard-MayMove x q t e =
    let (_, e1) = guard_passed (x == 0) ErrorCode.invalid_argument e in
    let (known, e2) = guard_passed (not (t.index x)) ErrorCode.not_found e1 in
    let (other, e3) = guard_passed (x == q) ErrorCode.invalid_argument e2 in
    let (inside, e4) = guard_passed (not (q == 0) && not (t.index q)) ErrorCode.not_found e3 in
    let (group', e5) =
      guard_passed (not (q == 0) && not (is_group (t.objects q).kind)) ErrorCode.invalid_argument
        e4 in
    let (above, _) =
      guard_passed (not (q == 0) && is_refused (is_descendant (suc t.next_id) t (t.parents q) x))
        ErrorCode.invalid_argument
        {r = if not (has x (child_list_of t (t.parents x))) then err ErrorCode.unknown else ok tt}
        e5 in
    record {
      known = true_of_not known;
      parent = elim (Bool-cases (q == 0)) [
        | inl z ↦ inl (eq_of q 0 z)
        | inr n ↦ inr (true_of_not (if_set q _ (λ z. ground (arith, z, n)) inside))
      ];
      group' = λ n. true_of_not (if_set q _ n group');
      other = λ s. ground (arith, s, other);
      above = λ n. is_refused-no _ (if_set q _ n above);
    }

module _ (t : Tree) (w : Sound t) (x q : ℕ) (g : MayMove t x q) (i : ℤ) where
  -- The tree with the parent written, before the list is.
  abbrev reparented : Tree
  reparented = record (detached x t) { parents = put x q t.parents }

  target : (d : ℕ) × At (put x q t.parents) d q
  target = let (d, l) = Parent-rooted t w q g.parent in start d l
    where
      start : (d : ℕ) → At t.parents d q → (d : ℕ) × At (put x q t.parents) d q
      start zero l = (0, l)
      start (suc d) l = (
        suc d,
        (
          l.0,
          subst (At (put x q t.parents) d)
              (sym (if_no {b = q == x} q (t.parents q) (ground (arith, g.other))))
              (At-put (suc t.next_id) d t (t.parents q) x q l.1 (g.above l.0)),
        ),
      )

  At-moved : (d y : ℕ) → At t.parents d y → (e : ℕ) × At (put x q t.parents) e y
  At-moved zero y l = (0, l)
  At-moved (suc d) y l = elim (Bool-cases (y == x)) [
    | inl s ↦
        let (e, a) = target in
        (
          suc e,
          (l.0, subst (At (put x q t.parents) e) (sym (if_yes {b = y == x} q (t.parents y) s)) a),
        )
    | inr o ↦
        let (e, a) = At-moved d (t.parents y) l.1 in
        (
          suc e,
          (l.0, subst (At (put x q t.parents) e) (sym (if_no {b = y == x} q (t.parents y) o)) a),
        )
  ]

  slot_moved :
      (r y : ℕ)
      → slot (record t { parents = put x q t.parents }) r y
        ≡ (if r == q then one_if (y == x) else 0) + (if y == x then 0 else slot t r y)
  slot_moved r y = elim (Bool-cases (y == x)) [
    | inl same ↦
        subst
          (λ z.
            slot (record t { parents = put x q t.parents }) r z
            ≡ (if r == q then one_if (z == x) else 0) + (if z == x then 0 else slot t r z))
          (sym (eq_of y x same))
          (elim (Bool-cases (r == q)) [
            | inl e ↦ ground (arith, e, g.known)
            | inr e ↦ ground (arith, e, g.known)
          ])
    | inr other ↦ elim (Bool-cases (r == q)) [
      | inl e ↦ ground (arith, e, other)
      | inr e ↦ ground (arith, e, other)
    ]
  ]

  lists_moved :
      (j r y : ℕ)
      → Parent t r
      → count y (
          child_list_of
            (set_child_list reparented q (insert_at j x (child_list_of (detached x t) q)))
            r)
        ≡ slot reparented r y
  unfolding child_list_of set_child_list
  lists_moved j r y m = elim (Bool-cases (r == q)) [
    | inl s ↦
        ap
          (λ z. count y (
            child_list_of
              (set_child_list reparented q (insert_at j x (child_list_of (detached x t) q))) z))
          (eq_of r q s)
        ∙ ap (count y)
            (child_list_of_set_self reparented q (insert_at j x (child_list_of (detached x t) q)))
        ∙ count-insert_at y j x (child_list_of (detached x t) q)
        ∙ ap (one_if (y == x) +◌) (count_detached t x q y w g.known g.parent)
        ∙ ap (λ z. one_if (y == x) + (if y == x then 0 else slot t z y)) (sym (eq_of r q s))
        ∙ sym (
            slot_moved r y
            ∙ ap (λ n. n + (if y == x then 0 else slot t r y))
                (if_yes {b = r == q} (one_if (y == x)) 0 s))
    | inr o ↦
        ap (count y) (
          child_list_of_set_other reparented q r (insert_at j x (child_list_of (detached x t) q)) o)
        ∙ count_detached t x r y w g.known m
        ∙ omega arith
        ∙ sym (
            slot_moved r y
            ∙ ap (λ n. n + (if y == x then 0 else slot t r y))
                (if_no {b = r == q} (one_if (y == x)) 0 o))
  ]

  relist-Sound : Sound (relist x q i t)
  unfolding relist child_list_of
  relist-Sound = record {
    nil = w.nil;
    next = w.next;
    fresh = w.fresh;
    up = λ y e. if_both (Parent t) (y == x) g.parent (w.up y e);
    groups = λ y e n.
        ap is_group (kind_set_child_list reparented q (put x q t.parents y) _)
        ∙ ap is_group (kind_set_child_list t (t.parents x) (put x q t.parents y) _)
        ∙ if_both (λ z. z ≢ 0 → is_group (t.objects z).kind ≡ true) (y == x) g.group' (w.groups y e)
            n;
    lists = lists_moved (clamp_index i (length (child_list_of (detached x t) q)));
    rooted = λ y e. let (d, l) = w.rooted y e in At-moved d y l;
    active = w.active;
  }

pub move-Sound : (x q : ℕ) (i : ℤ) (t : Tree) → Sound t → Sound (move x q i t).1
unfolding move
move-Sound x q i t w = elim (Result-cases (move_guard x q t)) [
  | inl e ↦
      subst (λ r. Sound (if_ok r tt (relist x q i t) t).1) (sym e)
        (relist-Sound t w x q (move_guard-MayMove x q t e) i)
  | inr (c, e) ↦ subst (λ r. Sound (if_ok r tt (relist x q i t) t).1) (sym e) w
]

-- When `move` succeeds.
pub record Movable (t : Tree) (x q : ℕ) : Type 0 where
  pub known : t.index x ≡ true
  pub parent : Parent t q
  pub group' : q ≢ 0 → is_group (t.objects q).kind ≡ true
  pub apart : (k : ℕ) → ¬ Reaches t.parents k q x

MayMove-Movable : (t : Tree) (x q : ℕ) → Sound t → MayMove t x q → Movable t x q
MayMove-Movable t x q w g = record {
  known = g.known;
  parent = g.parent;
  group' = g.group';
  apart = apart;
}
  where
    apart : (k : ℕ) → ¬ Reaches t.parents k q x
    apart zero r = g.other (sym r)
    apart (suc k) r = elim g.parent [
      | inl z ↦ r.0 z
      | inr e ↦
          let (answer, ends, right) =
            is_descendant_iff (suc t.next_id) t q x w e (λ z. cc (w.nil, g.known, ap t.index z))
              (omega arith) in
          cc (ends, g.above r.0, right.1 (k, r.1))
    ]

Movable-move_guard : (t : Tree) (x q : ℕ) → Sound t → Movable t x q → move_guard x q t ≡ ok tt
unfolding move_guard is_refused
Movable-move_guard t x q w g =
    if_no {b = x == 0} _ _ (nonzero (Bool-cases (x == 0)))
    ∙ if_no {b = not (t.index x)} _ _ (ap not g.known)
    ∙ if_no {b = x == q} _ _ (other (Bool-cases (x == q)))
    ∙ if_no {b = not (q == 0) && not (t.index q)} _ _ (set (λ n. ap not (inside n g.parent)))
    ∙ if_no {b = not (q == 0) && not (is_group (t.objects q).kind)} _ _
        (set (λ n. ap not (g.group' n)))
    ∙ if_no {b = not (q == 0) && is_refused (is_descendant (suc t.next_id) t (t.parents q) x)} _ _
        (set (λ n. above n))
    ∙ if_no {b = not (has x (child_list_of t (t.parents x)))} _ _ (ap not (listed w g.known))
  where
    nonzero : ((x == 0) ≡ true) ⊎ ((x == 0) ≡ false) → (x == 0) ≡ false
    nonzero (inl z) = cc (w.nil, g.known, ap t.index (eq_of x 0 z))
    nonzero (inr n) = n

    other : ((x == q) ≡ true) ⊎ ((x == q) ≡ false) → (x == q) ≡ false
    other (inl s) = absurd (g.apart 0 (sym (eq_of x q s)))
    other (inr n) = n

    set : {b : Bool} → (q ≢ 0 → b ≡ false) → (not (q == 0) && b) ≡ false
    set {b} h = elim (Bool-cases (q == 0)) [
      | inl z ↦ ap (λ c. not c && b) z
      | inr n ↦ ap (λ c. not c && b) n ∙ h (λ z. ground (arith, z, n))
    ]

    inside : q ≢ 0 → Parent t q → t.index q ≡ true
    inside n (inl z) = absurd (n z)
    inside n (inr e) = e

    above : q ≢ 0 → is_refused (is_descendant (suc t.next_id) t (t.parents q) x) ≡ false
    above n = elim g.parent [
      | inl z ↦ absurd (n z)
      | inr e ↦
          let (answer, ends, right) =
            is_descendant_iff (suc t.next_id) t q x w e (λ z. cc (w.nil, g.known, ap t.index z))
              (omega arith) in
          ap is_refused ends ∙ elim (Bool-cases answer) [
            | inl yes' ↦ let (k, r) = right.0 yes' in absurd (g.apart (suc k) (n, r))
            | inr no' ↦ no'
          ]
    ]

-- On a sound tree, move succeeds exactly when the layer is one of the tree, the target is the root
-- or a group of it, and no number of steps to the parent, none included, leads from the target to
-- the layer.
pub move-Movable :
    (x q : ℕ) (i : ℤ) (t : Tree) → Sound t → ((move x q i t).0 ≡ ok tt) ↔ Movable t x q
unfolding move
move-Movable x q i t w = (
  (λ e.
      MayMove-Movable t x q w
        (move_guard-MayMove x q t (if_ok-passed (move_guard x q t) (relist x q i t) t e))),
  (λ g. ap (λ r. (if_ok r tt (relist x q i t) t).0) (Movable-move_guard t x q w g)),
)
