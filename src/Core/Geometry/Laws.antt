-- ===== src/Core/Geometry/Laws.antt =====
-- What points lie in the rectangles that are made of others, and which tile a coordinate lies in.
use mari_paint.Prelude.{
  ◌+◌, ◌<◌, ◌≡◌, ◌↔◌, refl, sym, inl, inr, Bool, true, false, ◌&&◌, ◌||◌, arith, Bool-cases, if_yes,
  if_no, subst,
}
use mari_paint.Prelude.Int.{ℤ, pos, negsuc, pos_part, neg_part, ◌+ℤ◌, ◌*ℤ◌, ◌≤ℤ◌, int_laws}
use mari_paint.Core.Geometry.{
  leb_ℤ, max_ℤ, min_ℤ, Point, Rect, no_rect, right, bottom, contains, from_bounds, intersected,
  tile_index_for, tile_origin,
}

-- Inside, by the order of the integers.
pub record Inside (a : Rect) (p : Point) : Type 0 where
  pub left : a.x ≤ℤ p.x
  pub before_right : pos_part p.x + neg_part (right a) < pos_part (right a) + neg_part p.x
  pub top : a.y ≤ℤ p.y
  pub above_bottom : pos_part p.y + neg_part (bottom a) < pos_part (bottom a) + neg_part p.y

pub Inside-contains : (a : Rect) (p : Point) → contains a p ≡ true → Inside a p
unfolding contains
Inside-contains a p h = ground (arith, h)

pub contains-Inside : (a : Rect) (p : Point) → Inside a p → contains a p ≡ true
unfolding contains
contains-Inside a p h = ground (arith, h)

max-le : (a b c : ℤ) → (max_ℤ a b ≤ℤ c) ↔ ((a ≤ℤ c) × (b ≤ℤ c))
max-le a b c = ground arith

lt_min :
    (a b c : ℤ)
    → (pos_part c + neg_part (min_ℤ a b) < pos_part (min_ℤ a b) + neg_part c) ↔ (
        (pos_part c + neg_part a < pos_part a + neg_part c)
        × (pos_part c + neg_part b < pos_part b + neg_part c))
lt_min a b c = ground arith

-- The width of a rectangle that is given by its bounds.
pub right-from_bounds : (l t r b : ℤ) → right (from_bounds l t r b) ≡ r
unfolding right from_bounds
right-from_bounds l t r b = omega int_laws

pub bottom-from_bounds : (l t r b : ℤ) → bottom (from_bounds l t r b) ≡ b
unfolding bottom from_bounds
bottom-from_bounds l t r b = omega int_laws

-- A point between two bounds.
pub record Between (l t r b : ℤ) (p : Point) : Type 0 where
  pub left : l ≤ℤ p.x
  pub before_right : pos_part p.x + neg_part r < pos_part r + neg_part p.x
  pub top : t ≤ℤ p.y
  pub above_bottom : pos_part p.y + neg_part b < pos_part b + neg_part p.y

pub Inside-from_bounds :
    (l t r b : ℤ) (p : Point) → Inside (from_bounds l t r b) p ↔ Between l t r b p
unfolding from_bounds
Inside-from_bounds l t r b p =
    let x = right-from_bounds l t r b in
    let y = bottom-from_bounds l t r b in
    (
      λ h. record {
        left = h.left;
        before_right = rw x at h.before_right;
        top = h.top;
        above_bottom = rw y at h.above_bottom;
      },
      λ h. record {
        left = h.left;
        before_right = rw x h.before_right;
        top = h.top;
        above_bottom = rw y h.above_bottom;
      },
    )

Between-both :
    (a o : Rect) (p : Point)
    → Between
        (max_ℤ a.x o.x)
        (max_ℤ a.y o.y)
        (min_ℤ (right a) (right o))
        (min_ℤ (bottom a) (bottom o))
        p
      ↔ (Inside a p × Inside o p)
Between-both a o p =
    let x = max-le a.x o.x p.x in
    let y = max-le a.y o.y p.y in
    let r = lt_min (right a) (right o) p.x in
    let b = lt_min (bottom a) (bottom o) p.y in
    (
      λ h. (
        record {
          left = (x.0 h.left).0;
          before_right = (r.0 h.before_right).0;
          top = (y.0 h.top).0;
          above_bottom = (b.0 h.above_bottom).0;
        },
        record {
          left = (x.0 h.left).1;
          before_right = (r.0 h.before_right).1;
          top = (y.0 h.top).1;
          above_bottom = (b.0 h.above_bottom).1;
        },
      ),
      λ h. record {
        left = x.1 (h.0.left, h.1.left);
        before_right = r.1 (h.0.before_right, h.1.before_right);
        top = y.1 (h.0.top, h.1.top);
        above_bottom = b.1 (h.0.above_bottom, h.1.above_bottom);
      },
    )

no_rect-Inside : (p : Point) → Inside no_rect p → ⊥
unfolding right ◌+ℤ◌
no_rect-Inside p h = ground (arith, h)

crossed : (l t r b : ℤ) (p : Point) → (leb_ℤ r l || leb_ℤ b t) ≡ true → Between l t r b p → ⊥
crossed l t r b p c h = ground (arith, c, h)

Inside-intersected :
    (a o : Rect) (p : Point) → Inside (intersected a o) p ↔ (Inside a p × Inside o p)
unfolding intersected
Inside-intersected a o p =
    let l = max_ℤ a.x o.x in
    let t = max_ℤ a.y o.y in
    let r = min_ℤ (right a) (right o) in
    let b = min_ℤ (bottom a) (bottom o) in
    let both = Between-both a o p in
    elim (Bool-cases (leb_ℤ r l || leb_ℤ b t)) [
      | inl c ↦
          subst (λ i. Inside i p ↔ (Inside a p × Inside o p))
            (sym (if_yes {b = leb_ℤ r l || leb_ℤ b t} no_rect (from_bounds l t r b) c))
            (λ h. absurd (no_rect-Inside p h), λ h. absurd (crossed l t r b p c (both.1 h)))
      | inr c ↦
          let bounds = Inside-from_bounds l t r b p in
          subst (λ i. Inside i p ↔ (Inside a p × Inside o p))
            (sym (if_no {b = leb_ℤ r l || leb_ℤ b t} no_rect (from_bounds l t r b) c))
            (λ h. both.0 (bounds.0 h), λ h. bounds.1 (both.1 h))
    ]

pub same_truth : (b c : Bool) → ((b ≡ true) ↔ (c ≡ true)) → b ≡ c
same_truth true true h = refl
same_truth true false h = let e = h.0 refl in cc
same_truth false true h = let e = h.1 refl in cc
same_truth false false h = refl

pub and_true : (b c : Bool) → ((b && c) ≡ true) ↔ ((b ≡ true) × (c ≡ true))
and_true true c = (λ h. (refl, h), λ h. h.1)
and_true false c = (λ h. cc, λ h. cc)

-- A point is in the intersection of two rectangles, empty or not, exactly if it is in both.
pub contains-intersected :
    (a o : Rect) (p : Point) → contains (intersected a o) p ≡ (contains a p && contains o p)
contains-intersected a o p =
    let i = Inside-intersected a o p in
    let both = and_true (contains a p) (contains o p) in
    same_truth _ _ (
      λ h.
          let (x, y) = i.0 (Inside-contains (intersected a o) p h) in
          both.1 (contains-Inside a p x, contains-Inside o p y),
      λ h.
          let (x, y) = both.0 h in
          contains-Inside (intersected a o) p (i.1 (Inside-contains a p x, Inside-contains o p y)),
    )

-- The tile of a coordinate.
pub tile_index_for_lem :
    (c : ℤ)
    → (tile_origin (tile_index_for c) ≤ℤ c)
      × (pos_part c + neg_part (tile_origin (tile_index_for c))
          < pos_part (tile_origin (tile_index_for c)) + neg_part c + 64)
unfolding tile_origin tile_index_for ◌*ℤ◌
tile_index_for_lem (pos n) = ground arith
tile_index_for_lem (negsuc n) = ground arith
