-- ===== src/Core/Undo/Stroke.antt =====
-- A stroke and its command: capture, paint, capture again, undo, redo.
use mari_paint.Prelude.{
  ℕ, ◌≡◌, refl, sym, ap, ◌∙◌, Bool, true, false, none, List, [], ◌∷◌, ◌++◌, arith, if◌then◌else◌,
  Bool-cases, inl, inr, if_yes, if_no, map, subst,
}
use mari_paint.Core.Errors.{Result, ok}
use mari_paint.Core.Tile.{TileCoord, same_coord, TileMap, tile_at}
use mari_paint.Core.Undo.{
  Entry, TileSnapshotCommand, begin_command, knows, capture_loop, capture_before, see_after,
  capture_after, restore_loop, undo_command, redo_command,
}
use mari_paint.Core.Undo.Restore.{Good, AllPicked, pick, Restored, restore_loop-Restored}

-- The owner of a stroke captures tiles, paints, and may do so again: each round is what is captured
-- and the map behind the painting.
unfoldable pub paint_rounds :
    TileMap → List (List TileCoord × TileMap) → TileSnapshotCommand → TileSnapshotCommand × TileMap
unfolding capture_before
paint_rounds m [] cmd = (cmd, m)
paint_rounds m ((tiles, next) ∷ rs) cmd = paint_rounds next rs (capture_before m tiles cmd)

-- Only tiles that were captured are painted on.
unfoldable pub Careful : TileMap → List (List TileCoord × TileMap) → TileSnapshotCommand → Type 0
unfolding capture_before
Careful m [] cmd = Unit
Careful m ((tiles, next) ∷ rs) cmd =
    ((d : TileCoord)
      → knows (capture_before m tiles cmd).entries d ≡ false
      → tile_at next d ≡ tile_at m d)
    × Careful next rs (capture_before m tiles cmd)

AllBefore : TileMap → List Entry → Type 0
AllBefore m [] = Unit
AllBefore m (e ∷ es) = (e.before ≡ tile_at m e.coord) × AllBefore m es

AllBefore-append :
    (m : TileMap) (es : List Entry) (e : Entry)
    → AllBefore m es
    → e.before ≡ tile_at m e.coord
    → AllBefore m (es ++ e ∷ [])
unfolding AllBefore
AllBefore-append m [] e a h = (h, tt)
AllBefore-append m (f ∷ es) e (b, a) h = (b, AllBefore-append m es e a h)

knows-append :
    (es : List Entry) (e : Entry) (d : TileCoord)
    → knows (es ++ e ∷ []) d ≡ false
    → knows es d ≡ false
unfolding knows
knows-append [] e d h = refl
knows-append (f ∷ es) e d h = ground (arith, h, knows-append es e d)

-- The entries hold the tiles of the first map, and all others are still as in it.
record Captured (first m : TileMap) (es : List Entry) : Type 0 where
  before : AllBefore first es
  outside : (d : TileCoord) → knows es d ≡ false → tile_at m d ≡ tile_at first d

capture_loop-Captured :
    (first m : TileMap) (cs : List TileCoord) (es : List Entry)
    → Captured first m es
    → Captured first m (capture_loop m cs es)
unfolding capture_loop
capture_loop-Captured first m [] es h = h
capture_loop-Captured first m (c ∷ cs) es h =
    let e : Entry = record { coord = c; before = tile_at m c; after = none } in
    capture_loop-Captured first m cs _ (elim (Bool-cases (knows es c)) [
      | inl yes' ↦ subst (Captured first m) (sym (if_yes _ _ yes')) h
      | inr no' ↦ subst (Captured first m) (sym (if_no _ _ no')) (record {
        before = AllBefore-append first es e h.before (h.outside c no');
        outside = λ d k. h.outside d (knows-append es e d k);
      })
    ])

paint_rounds-Captured :
    (first m : TileMap) (rs : List (List TileCoord × TileMap)) (cmd : TileSnapshotCommand)
    → Captured first m cmd.entries
    → Careful m rs cmd
    → Captured first (paint_rounds m rs cmd).1 (paint_rounds m rs cmd).0.entries
unfolding paint_rounds Careful capture_before
paint_rounds-Captured first m [] cmd h c = h
paint_rounds-Captured first m ((tiles, next) ∷ rs) cmd h (c, cs) =
    let caught = capture_loop-Captured first m tiles cmd.entries h in
    paint_rounds-Captured first next rs (capture_before m tiles cmd)
      (record { before = caught.before; outside = λ d k. c d k ∙ caught.outside d k }) cs

knows-after :
    (m : TileMap) (es : List Entry) (d : TileCoord) → knows (map (see_after m) es) d ≡ knows es d
unfolding knows
knows-after m [] d = refl
knows-after m (e ∷ es) d = ap (λ b. if same_coord e.coord d then true else b) (knows-after m es d)

picked_before :
    (first m : TileMap) (g : Good first) (es : List Entry)
    → AllBefore first es
    → AllPicked true first g (map (see_after m) es)
unfolding AllPicked pick AllBefore
picked_before first m g [] a = tt
picked_before first m g (e ∷ es) (h, a) = (h, picked_before first m g es a)

picked_after :
    (m : TileMap) (g : Good m) (es : List Entry) → AllPicked false m g (map (see_after m) es)
unfolding AllPicked pick
picked_after m g [] = tt
picked_after m g (e ∷ es) = (refl, picked_after m g es)

-- A whole map of tiles is the target's: inside by the entries, outside because nothing was painted.
all_tiles_back :
    (b : Bool) (target m : TileMap) (g : Good target) (es : List Entry)
    (r : Result (Unit {0}) × TileMap)
    → Restored b target g es m r
    → ((d : TileCoord) → knows es d ≡ false → tile_at m d ≡ tile_at target d)
    → (d : TileCoord) → tile_at r.1 d ≡ tile_at target d
all_tiles_back b target m g es r h same d = elim (Bool-cases (knows es d)) [
  | inl yes' ↦ h.inside d yes'
  | inr no' ↦ h.outside d no' ∙ same d no'
]

-- However a stroke captures and paints, as long as it captures a tile before it paints on it:
-- undoing its command gives back every tile of the map from before the stroke, also those that
-- were not there, and redoing it then every tile from behind the stroke. Neither fails. The maps
-- have one known format and whole tiles.
pub stroke-undo-redo :
    (text : List ℕ) (m : TileMap) (rs : List (List TileCoord × TileMap)) (d : TileCoord)
    → Good m
    → Good (paint_rounds m rs (begin_command text)).1
    → (paint_rounds m rs (begin_command text)).1.format ≡ m.format
    → Careful m rs (begin_command text)
    → let (cmd, painted) = paint_rounds m rs (begin_command text) in
      let stored = capture_after painted cmd in
      let (undone, back) = undo_command stored painted in
      let (redone, again) = redo_command stored back in
      (undone ≡ ok tt)
      × (tile_at back d ≡ tile_at m d)
      × (redone ≡ ok tt)
      × (tile_at again d ≡ tile_at painted d)
unfolding undo_command redo_command capture_after begin_command AllBefore
stroke-undo-redo text m rs d g gp same careful =
    let painted = (paint_rounds m rs (begin_command text)).1 in
    let es = (paint_rounds m rs (begin_command text)).0.entries in
    let caught =
      paint_rounds-Captured m m rs (begin_command text)
        (record { before = tt; outside = λ d k. refl }) careful in
    let undone =
      restore_loop-Restored true m g (map (see_after painted) es) painted gp same
        (picked_before m painted g es caught.before) in
    let back = (restore_loop true (map (see_after painted) es) painted).1 in
    let redone =
      restore_loop-Restored false painted gp (map (see_after painted) es) back undone.good
        undone.format (picked_after painted gp es) in
    (
      undone.done,
      all_tiles_back true m painted g _ _ undone
          (λ d k. caught.outside d (sym (knows-after painted es d) ∙ k)) d,
      redone.done,
      all_tiles_back false painted back gp _ _ redone (λ d k. undone.outside d k) d,
    )
