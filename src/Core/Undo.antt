-- ===== src/Core/Undo.antt =====
-- Undo (include/mari/core/undo.hpp, core/src/undo.cpp): the snapshot of the tiles of a stroke, and the
-- stack of commands. The vectors of the stack are lists with their back at the front.
use mari_paint.Prelude.{
  ℕ, zero, suc, ◌+◌, ◌-◌, ◌*◌, Bool, true, false, Option, none, some, List, [], ◌∷◌, ◌++◌, length,
  ltb, ◌==◌, ◌&&◌, if◌then◌else◌, map, take, drop, not,
}
use mari_paint.Core.Errors.{ErrorCode, Result, ok, err}
use mari_paint.Core.Tile.{
  PixelFormat, TileCoord, same_coord, Tile, stride_of, tile_size, TileMap, tile_at, writable,
  store_at, erase,
}
use mari_paint.Sigan.Wire.{same_bytes}
pub mod Restore
pub mod Stroke
pub mod Stack
pub mod History
pub mod Bounded

-- The rows of `putTile`: so many bytes of each row are copied.
unfoldable pub copy_rows : ℕ → ℕ → ℕ → ℕ → List ℕ → List ℕ → List ℕ
copy_rows zero dst_stride src_stride bytes dst src = dst
copy_rows (suc rows) dst_stride src_stride bytes dst src =
    take bytes src
    ++ (drop bytes (take dst_stride dst)
        ++ copy_rows rows dst_stride src_stride bytes (drop dst_stride dst) (drop src_stride src))

unfoldable pub smaller : ℕ → ℕ → ℕ
smaller a b = if ltb b a then b else a

-- The pixels go into the tile that `writable` gave.
unfoldable pub put_pixels :
    TileCoord → Tile → Result (Tile × TileMap) → Result (Unit {0}) × Option TileMap
unfolding copy_rows smaller store_at stride_of
put_pixels c tile (err e) = (err e, none)
put_pixels c tile (ok (dst, m)) =
    let bytes = smaller (stride_of dst.format) (stride_of tile.format) in
    let pixels =
      copy_rows tile_size (stride_of dst.format) (stride_of tile.format) bytes dst.data'
        tile.data' in
    (ok tt, some (record m { tiles = store_at c pixels m.tiles }))

abbrev or_else : TileMap → Option TileMap → TileMap
or_else m none = m
or_else m (some n) = n

unfoldable pub put_tile : TileMap → TileCoord → Option Tile → Result (Unit {0}) × TileMap
unfolding erase writable put_pixels
put_tile m c none = (ok tt, erase m c)
put_tile m c (some tile) = let (r, n) = put_pixels c tile (writable m c) in (r, or_else m n)

-- `sameTile`: tiles that are one object are the same in any case.
unfoldable pub same_tile : Option Tile → Option Tile → Bool
unfolding same_bytes stride_of
same_tile none none = true
same_tile (some a) (some b) = stride_of a.format == stride_of b.format && same_bytes a.data' b.data'
same_tile _ _ = false

pub record Entry : Type 0 where
  pub coord : TileCoord
  pub before : Option Tile
  pub after : Option Tile

-- `TileSnapshotCommand`; its target is given to the operations.
pub record TileSnapshotCommand : Type 0 where
  pub text : List ℕ
  pub entries : List Entry

unfoldable pub begin_command : List ℕ → TileSnapshotCommand
begin_command text = record { text = text; entries = [] }

unfoldable pub knows : List Entry → TileCoord → Bool
unfolding same_coord
knows [] c = false
knows (e ∷ es) c = if same_coord e.coord c then true else knows es c

unfoldable pub capture_loop : TileMap → List TileCoord → List Entry → List Entry
unfolding knows
capture_loop m [] es = es
capture_loop m (c ∷ cs) es =
    capture_loop m cs (
      if knows es c
      then es
      else es ++ record { coord = c; before = tile_at m c; after = none } ∷ [])

unfoldable pub capture_before : TileMap → List TileCoord → TileSnapshotCommand → TileSnapshotCommand
unfolding capture_loop
capture_before m tiles cmd = record cmd { entries = capture_loop m tiles cmd.entries }

abbrev pub see_after : TileMap → Entry → Entry
see_after m e = record e { after = tile_at m e.coord }

unfoldable pub capture_after : TileMap → TileSnapshotCommand → TileSnapshotCommand
capture_after m cmd = record cmd { entries = map (see_after m) cmd.entries }

unfoldable pub changed_count : List Entry → ℕ
unfolding same_tile
changed_count [] = 0
changed_count (e ∷ es) =
    let n = changed_count es in if not (same_tile e.before e.after) then suc n else n

unfoldable pub changed_tile_count : TileSnapshotCommand → ℕ
unfolding changed_count
changed_tile_count cmd = changed_count cmd.entries

-- `restore`: the first failure ends the loop.
unfoldable pub stop_or :
    Result (Unit {0}) → TileMap → Result (Unit {0}) × TileMap → Result (Unit {0}) × TileMap
stop_or (err e) m rest = (err e, m)
stop_or (ok _) m rest = rest

unfoldable pub restore_loop : Bool → List Entry → TileMap → Result (Unit {0}) × TileMap
unfolding put_tile stop_or
restore_loop to_before [] m = (ok tt, m)
restore_loop to_before (e ∷ es) m =
    let (r, n) = put_tile m e.coord (if to_before then e.before else e.after) in
    stop_or r n (restore_loop to_before es n)

-- `undo` and `redo` of the command, and its `affectedTiles`.
unfoldable pub undo_command : TileSnapshotCommand → TileMap → Result (Unit {0}) × TileMap
unfolding restore_loop
undo_command cmd m = restore_loop true cmd.entries m

unfoldable pub redo_command : TileSnapshotCommand → TileMap → Result (Unit {0}) × TileMap
unfolding restore_loop
redo_command cmd m = restore_loop false cmd.entries m

unfoldable pub affected_tiles : TileSnapshotCommand → List TileCoord
affected_tiles cmd = map (λ (e : Entry). e.coord) cmd.entries
