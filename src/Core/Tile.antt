-- ===== src/Core/Tile.antt =====
-- Tiles and the sparse map of them (include/mari/core/tile.hpp, core/src/tile.cpp). Here a tile is its
-- pixels; the buffers that tiles share copy-on-write are in Tile/Sharing. A signed coordinate is its
-- bit pattern.
use mari_paint.Prelude.{
  ℕ, zero, suc, ◌+◌, ◌-◌, ◌*◌, Bool, true, false, Option, none, some, List, [], ◌∷◌, ◌++◌, length,
  ◌==◌, ◌&&◌, ◌||◌, if◌then◌else◌, map,
}
use mari_paint.Core.Errors.{ErrorCode, Result, ok, err}
pub mod Laws
pub mod Sharing
pub mod Region

pub data PixelFormat : Type 0 where
  unknown rgba8 rgba16 rgba32f gray8 gray16 : PixelFormat

unfoldable pub bytes_per_pixel : PixelFormat → ℕ
bytes_per_pixel PixelFormat.rgba8 = 4
bytes_per_pixel PixelFormat.rgba16 = 8
bytes_per_pixel PixelFormat.rgba32f = 16
bytes_per_pixel PixelFormat.gray8 = 1
bytes_per_pixel PixelFormat.gray16 = 2
bytes_per_pixel PixelFormat.unknown = 0

abbrev pub tile_size : ℕ
tile_size = 64

pub record TileCoord : Type 0 where
  pub tx : ℕ
  pub ty : ℕ

unfoldable pub same_coord : TileCoord → TileCoord → Bool
same_coord a b = a.tx == b.tx && a.ty == b.ty

pub record Tile : Type 0 where
  pub format : PixelFormat
  pub data' : List ℕ

unfoldable pub stride_of : PixelFormat → ℕ
unfolding bytes_per_pixel
stride_of f = tile_size * bytes_per_pixel f

abbrev pub zeros : ℕ → List ℕ
zeros zero = []
zeros (suc n) = 0 ∷ zeros n

-- The constructor of `BufferTile`: all zero.
unfoldable pub new_tile : PixelFormat → Tile
unfolding stride_of
new_tile f = record { format = f; data' = zeros (stride_of f * tile_size) }

pub record TileMap : Type 0 where
  pub format : PixelFormat
  pub tiles : List (TileCoord × Tile)

unfoldable pub is_unknown : PixelFormat → Bool
is_unknown PixelFormat.unknown = true
is_unknown _ = false

unfoldable pub make_tile_map : PixelFormat → Result TileMap
unfolding is_unknown bytes_per_pixel
make_tile_map f =
    if is_unknown f || bytes_per_pixel f == 0
    then err ErrorCode.invalid_argument
    else ok (record { format = f; tiles = [] })

unfoldable pub find : TileCoord → List (TileCoord × Tile) → Option Tile
unfolding same_coord
find c [] = none
find c ((d, t) ∷ ts) = if same_coord d c then some t else find c ts

-- `at`
unfoldable pub tile_at : TileMap → TileCoord → Option Tile
unfolding find
tile_at m c = find c m.tiles

-- `writable`, up to the pointer: there is a tile then.
unfoldable pub writable_found : TileMap → TileCoord → Option Tile → Tile × TileMap
unfolding new_tile
writable_found m c (some t) = (t, m)
writable_found m c none =
    let t = new_tile m.format in (t, record m { tiles = m.tiles ++ (c, t) ∷ [] })

unfoldable pub writable : TileMap → TileCoord → Result (Tile × TileMap)
unfolding is_unknown tile_at writable_found
writable m c =
    if is_unknown m.format
    then err ErrorCode.invalid_argument
    else ok (writable_found m c (tile_at m c))

-- A write through the pointer that `writable` gave.
unfoldable pub store_at : TileCoord → List ℕ → List (TileCoord × Tile) → List (TileCoord × Tile)
unfolding same_coord
store_at c pixels [] = []
store_at c pixels ((d, t) ∷ ts) =
    let rest = store_at c pixels ts in
    if same_coord d c then (d, record t { data' = pixels }) ∷ ts else (d, t) ∷ rest

-- A key leaves the map whole.
unfoldable pub erase_tile : TileCoord → List (TileCoord × Tile) → List (TileCoord × Tile)
unfolding same_coord
erase_tile c [] = []
erase_tile c ((d, t) ∷ ts) =
    let rest = erase_tile c ts in if same_coord d c then rest else (d, t) ∷ rest

-- `erase`
unfoldable pub erase : TileMap → TileCoord → TileMap
unfolding erase_tile
erase m c = record m { tiles = erase_tile c m.tiles }

-- `tileCount`, `clear`
unfoldable pub tile_count : TileMap → ℕ
tile_count m = length m.tiles

unfoldable pub clear : TileMap → TileMap
clear m = record m { tiles = [] }
