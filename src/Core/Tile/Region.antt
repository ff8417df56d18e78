-- ===== src/Core/Tile/Region.antt =====
-- The tiles of a map in an area of the canvas (`canvasRect` of include/mari/core/tile.hpp, `bounds` and
-- `collectTiles` of core/src/tile.cpp). The map's order, which the source leaves to its hashes, is
-- the order of the list.
pub mod Ranges
pub mod Grid
pub mod Covered
use mari_paint.Prelude.{
  ℕ, zero, suc, ◌+◌, ◌-◌, ◌^◌, Bool, true, false, ◌||◌, Option, none, some, List, [], ◌∷◌, ◌++◌,
  ltb, ◌==◌, if◌then◌else◌, length,
}
use mari_paint.Prelude.Int.{ℤ, pos, negsuc, pos_part, ◌+ℤ◌, ◌-ℤ◌, ◌*ℤ◌}
use mari_paint.Core.Geometry.{
  leb_ℤ, Rect, no_rect, right, bottom, is_empty, intersects, united, tile_index_for, tile_origin,
}
use mari_paint.Core.Tile.{TileCoord, Tile, TileMap, find, tile_at}

-- The value of the bits of an `int32_t`, and the bits of a value.
abbrev pub signed32 : ℕ → ℤ
signed32 w = if ltb w (2 ^ 31) then pos w else negsuc (2 ^ 32 - 1 - w)

abbrev pub bits32 : ℤ → ℕ
bits32 (pos n) = n
bits32 (negsuc n) = 2 ^ 32 - 1 - n

-- `canvasRect`
unfoldable pub canvas_rect : TileCoord → Rect
unfolding tile_origin
canvas_rect c = record {
  x = tile_origin (signed32 c.tx);
  y = tile_origin (signed32 c.ty);
  width = pos 64;
  height = pos 64;
}

unfoldable pub bounds_loop : List (TileCoord × Tile) → Rect → Rect
unfolding canvas_rect
bounds_loop [] r = r
bounds_loop ((c, t) ∷ ts) r = bounds_loop ts (united r (canvas_rect c))

-- `bounds`
unfoldable pub bounds : TileMap → Rect
unfolding bounds_loop
bounds m = bounds_loop m.tiles no_rect

abbrev pub is_found : Option Tile → Bool
is_found none = false
is_found (some t) = true

-- The inner loop over a row of tiles from `tx` on, and the outer one, with how many rounds are left.
unfoldable pub row_loop : TileMap → ℕ → ℤ → ℤ → List TileCoord
unfolding tile_at
row_loop m zero tx ty = []
row_loop m (suc n) tx ty =
    let c : TileCoord = record { tx = bits32 tx; ty = bits32 ty } in
    let rest = row_loop m n (tx +ℤ pos 1) ty in if is_found (tile_at m c) then c ∷ rest else rest

unfoldable pub rows_loop : TileMap → ℕ → ℤ → ℕ → ℤ → List TileCoord
unfolding row_loop
rows_loop m width tx0 zero ty = []
rows_loop m width tx0 (suc n) ty = row_loop m width tx0 ty ++ rows_loop m width tx0 n (ty +ℤ pos 1)

-- The loop over the tiles of the map.
unfoldable pub tiles_loop : Rect → List (TileCoord × Tile) → List TileCoord
unfolding canvas_rect
tiles_loop area [] = []
tiles_loop area ((c, t) ∷ ts) =
    let rest = tiles_loop area ts in if intersects area (canvas_rect c) then c ∷ rest else rest

-- How many integers there are from `a` to `b`.
abbrev pub rounds_to : ℤ → ℤ → ℕ
rounds_to a b = pos_part (b -ℤ a +ℤ pos 1)

-- `collectTiles`, as what is pushed to the output.
unfoldable pub collect_tiles : TileMap → Rect → List TileCoord
unfolding rows_loop tiles_loop
collect_tiles m area =
    let tx0 = tile_index_for area.x in
    let ty0 = tile_index_for area.y in
    let tx1 = tile_index_for (right area -ℤ pos 1) in
    let ty1 = tile_index_for (bottom area -ℤ pos 1) in
    let span = (tx1 -ℤ tx0 +ℤ pos 1) *ℤ (ty1 -ℤ ty0 +ℤ pos 1) in
    if is_empty area || length m.tiles == 0
    then []
    else if leb_ℤ span (pos (length m.tiles))
    then rows_loop m (rounds_to tx0 tx1) tx0 (rounds_to ty0 ty1) ty0
    else tiles_loop area m.tiles
