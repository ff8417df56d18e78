-- ===== src/Examples/Canvases.antt =====
-- A canvas with a tile left of the origin.
use mari_paint.Prelude.{◌-◌, ◌^◌, ◌≡◌, [], ◌∷◌, ◌&&◌, arith}
use mari_paint.Prelude.Int.{pos, negsuc, ◌+ℤ◌, ◌-ℤ◌}
use mari_paint.Core.Geometry.{
  Point, Rect, right, bottom, contains, intersects, intersected, tile_index_for,
}
use mari_paint.Core.Geometry.Laws.{contains-intersected}
use mari_paint.Core.Tile.{PixelFormat, TileCoord, TileMap, new_tile, tile_at}
use mari_paint.Core.Tile.Region.{canvas_rect, is_found, collect_tiles}
use mari_paint.Core.Tile.Region.Grid.{among, Fits32, collect_tiles-among}

abbrev first : Rect
first = record { x = negsuc 69; y = pos 0; width = pos 80; height = pos 10 }

abbrev second : Rect
second = record { x = pos 5; y = pos 5; width = pos 100; height = pos 100 }

abbrev a_point : Point
a_point = record { x = pos 7; y = pos 8 }

contains-intersected_example :
    contains (intersected first second) a_point
    ≡ (contains first a_point && contains second a_point)
contains-intersected_example = contains-intersected first second a_point

-- The tile at -2, whose bits are 2^32 - 2.
abbrev left_tile : TileCoord
left_tile = record { tx = 2 ^ 32 - 2; ty = 0 }

abbrev a_map : TileMap
a_map = record { format = PixelFormat.gray8; tiles = (left_tile, new_tile PixelFormat.gray8) ∷ [] }

first-Fits32 : Fits32 first
unfolding right bottom ◌+ℤ◌ ◌-ℤ◌ tile_index_for
first-Fits32 = record {
  columns = record { low = omega arith; high = omega arith };
  rows = record { low = omega arith; high = omega arith };
}

collect_tiles-among_example :
    among left_tile (collect_tiles a_map first)
    ≡ (is_found (tile_at a_map left_tile) && intersects first (canvas_rect left_tile))
collect_tiles-among_example =
    collect_tiles-among a_map first left_tile (omega arith) (omega arith) first-Fits32
