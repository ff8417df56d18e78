-- ===== src/Core/Tile/Region/Covered.antt =====
-- The bounds of a map cover its tiles.
use mari_paint.Prelude.{
  ◌≡◌, refl, ap, ◌∙◌, inl, inr, Bool, true, false, ◌||◌, List, [], ◌∷◌, Bool-cases,
}
use mari_paint.Core.Geometry.{Point, Rect, no_rect, contains}
use mari_paint.Core.Geometry.Crossing.{contains-united}
use mari_paint.Core.Tile.{TileCoord, same_coord, Tile, TileMap, find, tile_at}
use mari_paint.Core.Tile.Laws.{same_coord-eq}
use mari_paint.Core.Tile.Region.{canvas_rect, bounds_loop, bounds, is_found}

or_left : (b c : Bool) → b ≡ true → (b || c) ≡ true
or_left true c h = refl
or_left false c h = cc

or_right : (b c : Bool) → c ≡ true → (b || c) ≡ true
or_right true c h = refl
or_right false c h = h

bounds_loop_keeps :
    (ts : List (TileCoord × Tile)) (r : Rect) (p : Point)
    → contains r p ≡ true
    → contains (bounds_loop ts r) p ≡ true
unfolding bounds_loop
bounds_loop_keeps [] r p h = h
bounds_loop_keeps ((c, t) ∷ ts) r p h =
    bounds_loop_keeps ts _ p
      (contains-united r (canvas_rect c) p (or_left (contains r p) (contains (canvas_rect c) p) h))

bounds_loop_covers :
    (ts : List (TileCoord × Tile)) (r : Rect) (c : TileCoord) (p : Point)
    → is_found (find c ts) ≡ true
    → contains (canvas_rect c) p ≡ true
    → contains (bounds_loop ts r) p ≡ true
unfolding bounds_loop find
bounds_loop_covers [] r c p f h = cc
bounds_loop_covers ((d, t) ∷ ts) r c p f h = elim (Bool-cases (same_coord d c)) [
  | inl same ↦ bounds_loop_keeps ts _ p (
      contains-united r (canvas_rect d) p (
        or_right (contains r p) _
          (ap (λ k. contains (canvas_rect k) p) (same_coord-eq d c same) ∙ h)))
  | inr other ↦ bounds_loop_covers ts _ c p (rw other at f) h
]

-- Every pixel of every tile of a map lies in the bounds of the map.
pub contains-bounds :
    (m : TileMap) (c : TileCoord) (p : Point)
    → is_found (tile_at m c) ≡ true
    → contains (canvas_rect c) p ≡ true
    → contains (bounds m) p ≡ true
unfolding bounds tile_at
contains-bounds m c p f h = bounds_loop_covers m.tiles no_rect c p f h
