-- ===== src/Core/Geometry/Crossing.antt =====
-- When rectangles are empty and when they intersect, and the rectangle around two others.
use mari_paint.Prelude.{
  ◌+◌, ◌<◌, ◌≡◌, refl, sym, ap, ◌∙◌, inl, inr, Bool, true, false, ◌&&◌, ◌||◌, not, arith,
  Bool-cases, if◌then◌else◌, if_both, if_yes, if_no, subst,
}
use mari_paint.Prelude.Int.{ℤ, pos_part, neg_part, ltb_ℤ, ◌≤ℤ◌, +ℤ_parts}
use mari_paint.Core.Geometry.{
  leb_ℤ, max_ℤ, min_ℤ, Point, Rect, no_rect, right, bottom, is_empty, contains, intersects,
  from_bounds, intersected, united,
}
use mari_paint.Core.Geometry.Laws.{
  Inside, Inside-from_bounds, right-from_bounds, bottom-from_bounds, Inside-contains,
  contains-Inside,
}

-- Emptiness, by the bounds.
is_empty-bounds : (a : Rect) → is_empty a ≡ not (ltb_ℤ a.x (right a) && ltb_ℤ a.y (bottom a))
unfolding is_empty right bottom
is_empty-bounds a = ground (arith, +ℤ_parts a.x a.width, +ℤ_parts a.y a.height)

lt_crossing :
    (x u y v : ℤ)
    → ltb_ℤ (max_ℤ x y) (min_ℤ u v) ≡ (ltb_ℤ x u && (ltb_ℤ y v && (ltb_ℤ x v && ltb_ℤ y u)))
lt_crossing x u y v = ground arith

intersects-bounds :
    (a o : Rect)
    → intersects a o ≡ (
        ltb_ℤ (max_ℤ a.x o.x) (min_ℤ (right a) (right o))
        && ltb_ℤ (max_ℤ a.y o.y) (min_ℤ (bottom a) (bottom o)))
unfolding intersects
intersects-bounds a o =
    let x = lt_crossing a.x (right a) o.x (right o) in
    let y = lt_crossing a.y (bottom a) o.y (bottom o) in
    rw (is_empty-bounds a, is_empty-bounds o, x, y)
      (shuffle (ltb_ℤ a.x (right a)) (ltb_ℤ a.y (bottom a)) (ltb_ℤ o.x (right o))
        (ltb_ℤ o.y (bottom o)) (ltb_ℤ a.x (right o)) (ltb_ℤ o.x (right a)) (ltb_ℤ a.y (bottom o))
        (ltb_ℤ o.y (bottom a)))
  where
    shuffle :
        (ax ay ox oy p q r s : Bool)
        → (not (not (ax && ay)) && (not (not (ox && oy)) && (p && (q && (r && s)))))
          ≡ ((ax && (ox && (p && q))) && (ay && (oy && (r && s))))
    shuffle ax ay ox oy p q r s = ground arith

none_empty : is_empty no_rect ≡ true
unfolding is_empty
none_empty = refl

bounds_or_none :
    (l t r b : ℤ)
    → is_empty (if leb_ℤ r l || leb_ℤ b t then no_rect else from_bounds l t r b)
      ≡ not (ltb_ℤ l r && ltb_ℤ t b)
unfolding from_bounds
bounds_or_none l t r b = elim (Bool-cases (leb_ℤ r l || leb_ℤ b t)) [
  | inl c ↦
      ap is_empty (if_yes {b = leb_ℤ r l || leb_ℤ b t} no_rect (from_bounds l t r b) c)
      ∙ none_empty
      ∙ sym (ap not (by_test (ltb_ℤ l r) (ltb_ℤ t b) c))
  | inr c ↦
      ap is_empty (if_no {b = leb_ℤ r l || leb_ℤ b t} no_rect (from_bounds l t r b) c)
      ∙ is_empty-bounds (from_bounds l t r b)
      ∙ rw (right-from_bounds l t r b, bottom-from_bounds l t r b) refl
]
  where
    by_test : (x y : Bool) → (not x || not y) ≡ true → (x && y) ≡ false
    by_test x y h = ground (arith, h)

is_empty-intersected :
    (a o : Rect)
    → is_empty (intersected a o)
      ≡ not (
          ltb_ℤ (max_ℤ a.x o.x) (min_ℤ (right a) (right o))
          && ltb_ℤ (max_ℤ a.y o.y) (min_ℤ (bottom a) (bottom o)))
unfolding intersected
is_empty-intersected a o =
    let l = max_ℤ a.x o.x in
    let t = max_ℤ a.y o.y in
    let r = min_ℤ (right a) (right o) in
    let b = min_ℤ (bottom a) (bottom o) in bounds_or_none l t r b

-- Two rectangles intersect, by the code's test, exactly if their intersection is not empty.
pub intersects-intersected : (a o : Rect) → intersects a o ≡ not (is_empty (intersected a o))
intersects-intersected a o =
    intersects-bounds a o ∙ sym (twice _) ∙ ap not (sym (is_empty-intersected a o))
  where
    twice : (b : Bool) → not (not b) ≡ b
    twice true = refl
    twice false = refl

-- A rectangle with a point is not empty.
Inside-some : (a : Rect) (p : Point) → Inside a p → is_empty a ≡ false
unfolding is_empty right bottom
Inside-some a p h = ground (arith, h, +ℤ_parts a.x a.width, +ℤ_parts a.y a.height)

min-le_left : (x y c : ℤ) → x ≤ℤ c → min_ℤ x y ≤ℤ c
min-le_left x y c h = ground (arith, h)

min-le_right : (x y c : ℤ) → y ≤ℤ c → min_ℤ x y ≤ℤ c
min-le_right x y c h = ground (arith, h)

lt_max_left :
    (x y c : ℤ)
    → pos_part c + neg_part x < pos_part x + neg_part c
    → pos_part c + neg_part (max_ℤ x y) < pos_part (max_ℤ x y) + neg_part c
lt_max_left x y c h = ground (arith, h)

lt_max_right :
    (x y c : ℤ)
    → pos_part c + neg_part y < pos_part y + neg_part c
    → pos_part c + neg_part (max_ℤ x y) < pos_part (max_ℤ x y) + neg_part c
lt_max_right x y c h = ground (arith, h)

Inside-united_left : (a o : Rect) (p : Point) → Inside a p → Inside (united a o) p
unfolding united
Inside-united_left a o p h =
    let some' = Inside-some a p h in
    subst (λ u. Inside u p) (sym (if_no {b = is_empty a} _ _ some'))
      (if_both (λ u. Inside u p) (is_empty o) h
        ((Inside-from_bounds _ _ _ _ p).1 (record {
          left = min-le_left a.x o.x p.x h.left;
          before_right = lt_max_left (right a) (right o) p.x h.before_right;
          top = min-le_left a.y o.y p.y h.top;
          above_bottom = lt_max_left (bottom a) (bottom o) p.y h.above_bottom;
        })))

Inside-united_right : (a o : Rect) (p : Point) → Inside o p → Inside (united a o) p
unfolding united
Inside-united_right a o p h =
    let some' = Inside-some o p h in
    if_both (λ u. Inside u p) (is_empty a) h
      (subst (λ u. Inside u p) (sym (if_no {b = is_empty o} _ _ some'))
        ((Inside-from_bounds _ _ _ _ p).1 (record {
          left = min-le_right a.x o.x p.x h.left;
          before_right = lt_max_right (right a) (right o) p.x h.before_right;
          top = min-le_right a.y o.y p.y h.top;
          above_bottom = lt_max_right (bottom a) (bottom o) p.y h.above_bottom;
        })))

-- A point of either of two rectangles is in the one around them.
pub contains-united :
    (a o : Rect) (p : Point)
    → (contains a p || contains o p) ≡ true
    → contains (united a o) p ≡ true
contains-united a o p h = elim (Bool-cases (contains a p)) [
  | inl yes' ↦ contains-Inside _ p (Inside-united_left a o p (Inside-contains a p yes'))
  | inr no' ↦ contains-Inside _ p (Inside-united_right a o p (Inside-contains o p (rw no' at h)))
]
