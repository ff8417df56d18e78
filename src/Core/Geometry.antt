-- ===== src/Core/Geometry.antt =====
-- Rectangles of the canvas and indices of tiles (include/mari/core/types.hpp). The numbers are the
-- mathematical values of `int32_t`; a sum that leaves the type has no meaning in the source.
pub mod Laws
pub mod Crossing
use mari_paint.Prelude.{ℕ, ◌+◌, ◌-◌, ◌/◌, ◌^◌, Bool, ◌&&◌, ◌||◌, not, ltb, if◌then◌else◌}
use mari_paint.Prelude.Int.{ℤ, pos, negsuc, pos_part, neg_part, ◌+ℤ◌, ◌-ℤ◌, ◌*ℤ◌, sub_ℕ, ltb_ℤ}

-- `a <= b`
abbrev pub leb_ℤ : ℤ → ℤ → Bool
leb_ℤ a b = not (ltb_ℤ b a)

-- `std::max`, `std::min`
abbrev pub max_ℤ : ℤ → ℤ → ℤ
max_ℤ a b = if ltb_ℤ a b then b else a

abbrev pub min_ℤ : ℤ → ℤ → ℤ
min_ℤ a b = if ltb_ℤ b a then b else a

pub record Point : Type 0 where
  pub x : ℤ
  pub y : ℤ

-- `Rect`: the half-open intervals from `x` and `y` on.
pub record Rect : Type 0 where
  pub x : ℤ
  pub y : ℤ
  pub width : ℤ
  pub height : ℤ

abbrev pub no_rect : Rect
no_rect = record { x = pos 0; y = pos 0; width = pos 0; height = pos 0 }

unfoldable pub right : Rect → ℤ
right a = a.x +ℤ a.width

unfoldable pub bottom : Rect → ℤ
bottom a = a.y +ℤ a.height

unfoldable pub is_empty : Rect → Bool
is_empty a = leb_ℤ a.width (pos 0) || leb_ℤ a.height (pos 0)

unfoldable pub contains : Rect → Point → Bool
unfolding right bottom
contains a p = leb_ℤ a.x p.x && (ltb_ℤ p.x (right a) && (leb_ℤ a.y p.y && ltb_ℤ p.y (bottom a)))

unfoldable pub intersects : Rect → Rect → Bool
unfolding right bottom is_empty
intersects a o =
    not (is_empty a)
    && (not (is_empty o)
        && (ltb_ℤ a.x (right o)
            && (ltb_ℤ o.x (right a) && (ltb_ℤ a.y (bottom o) && ltb_ℤ o.y (bottom a)))))

-- `fromBounds`
unfoldable pub from_bounds : ℤ → ℤ → ℤ → ℤ → Rect
from_bounds l t r b = record { x = l; y = t; width = r -ℤ l; height = b -ℤ t }

unfoldable pub intersected : Rect → Rect → Rect
unfolding right bottom from_bounds
intersected a o =
    let l = max_ℤ a.x o.x in
    let t = max_ℤ a.y o.y in
    let r = min_ℤ (right a) (right o) in
    let b = min_ℤ (bottom a) (bottom o) in
    if leb_ℤ r l || leb_ℤ b t then no_rect else from_bounds l t r b

unfoldable pub united : Rect → Rect → Rect
unfolding right bottom is_empty from_bounds
united a o =
    if is_empty a
    then o
    else if is_empty o
    then a
    else from_bounds (min_ℤ a.x o.x) (min_ℤ a.y o.y) (max_ℤ (right a) (right o))
        (max_ℤ (bottom a) (bottom o))

-- `tileIndexFor`: `(-c + 63) / 64` is at least 1 below 0.
unfoldable pub tile_index_for : ℤ → ℤ
tile_index_for c =
    if leb_ℤ (pos 0) c then pos (pos_part c / 64) else sub_ℕ 0 ((neg_part c + 63) / 64)

-- `tileOrigin`
unfoldable pub tile_origin : ℤ → ℤ
tile_origin i = i *ℤ pos 64
