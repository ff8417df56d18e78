-- ===== src/Core/Tile/Region/Grid.antt =====
-- The two ways of `collectTiles` find the same tiles.
use mari_paint.Prelude.{
  ℕ, zero, suc, ◌^◌, ◌<◌, ◌≡◌, refl, sym, ap, ◌∙◌, Bool, true, false, ◌&&◌, ◌||◌, List, [], ◌∷◌,
  ◌++◌, arith, ◌==◌, length, if◌then◌else◌, nil_of_length, eq_of,
}
use mari_paint.Prelude.Int.{ℤ, pos, ◌+ℤ◌, ◌-ℤ◌, ltb_ℤ}
use mari_paint.Core.Geometry.{
  leb_ℤ, Rect, right, bottom, is_empty, intersects, tile_index_for, tile_origin,
}
use mari_paint.Core.Tile.{TileCoord, same_coord, Tile, TileMap, find, tile_at}
use mari_paint.Core.Tile.Laws.{same_coord-eq}
use mari_paint.Core.Tile.Region.{
  signed32, bits32, canvas_rect, is_found, row_loop, rows_loop, tiles_loop, rounds_to,
  collect_tiles,
}
use mari_paint.Core.Tile.Region.Ranges.{
  in_range, Range32, in_range-suc, in_range-zero, bits32_lem, Range32-next, and_assoc,
  in_range-rounds_to, index_le, index_ge,
}

abbrev pub among : TileCoord → List TileCoord → Bool
among c [] = false
among c (d ∷ ds) = same_coord d c || among c ds

among-append :
    (c : TileCoord) (xs ys : List TileCoord) → among c (xs ++ ys) ≡ (among c xs || among c ys)
among-append c [] ys = refl
among-append c (x ∷ xs) ys = ground (arith, among-append c xs ys)

found-cons :
    (c d : TileCoord) (t : Tile) (ts : List (TileCoord × Tile))
    → is_found (find c ((d, t) ∷ ts)) ≡ (same_coord d c || is_found (find c ts))
unfolding find
found-cons c d t ts = ground arith

-- The loop over the map.
tiles_loop_lem :
    (area : Rect) (c : TileCoord) (ts : List (TileCoord × Tile))
    → among c (tiles_loop area ts) ≡ (is_found (find c ts) && intersects area (canvas_rect c))
unfolding tiles_loop find
tiles_loop_lem area c [] = refl
tiles_loop_lem area c ((d, t) ∷ ts) =
    ground (arith, tiles_loop_lem area c ts, moved, found-cons c d t ts)
  where
    moved :
        same_coord d c ≡ true → intersects area (canvas_rect d) ≡ intersects area (canvas_rect c)
    moved same = ap (λ k. intersects area (canvas_rect k)) (same_coord-eq d c same)

module _ (m : TileMap) (c : TileCoord) (hx : c.tx < 2 ^ 32) (hy : c.ty < 2 ^ 32) where
  row_loop_lem :
      (n k : ℕ) (tx ty : ℤ)
      → Range32 tx n
      → Range32 ty (suc k)
      → among c (row_loop m n tx ty) ≡ (
          in_range tx n (signed32 c.tx)
          && (in_range ty 1 (signed32 c.ty) && is_found (tile_at m c)))
  unfolding row_loop same_coord
  row_loop_lem zero k tx ty rx ry = rw (in_range-zero tx (signed32 c.tx)) refl
  row_loop_lem (suc n) k tx ty rx ry =
      let d : TileCoord = record { tx = bits32 tx; ty = bits32 ty } in
      let same : same_coord d c ≡ true → is_found (tile_at m d) ≡ is_found (tile_at m c) =
        λ e. ap (λ g. is_found (tile_at m g)) (same_coord-eq d c e) in
      step (bits32 tx == c.tx) (bits32 ty == c.ty) (is_found (tile_at m d)) (is_found (tile_at m c))
        (in_range tx 1 (signed32 c.tx)) (in_range (tx +ℤ pos 1) n (signed32 c.tx))
        (in_range tx (suc n) (signed32 c.tx)) (in_range ty 1 (signed32 c.ty)) d
        (row_loop m n (tx +ℤ pos 1) ty) refl (bits32_lem tx n c.tx rx hx)
        (bits32_lem ty k c.ty ry hy) (in_range-suc tx (signed32 c.tx) n) same
        (row_loop_lem n k (tx +ℤ pos 1) ty (Range32-next tx n rx) ry)
    where
      step :
          (bx by f g ix inx isx iy : Bool) (d : TileCoord) (rest : List TileCoord)
          → same_coord d c ≡ (bx && by)
          → bx ≡ ix
          → by ≡ iy
          → isx ≡ (ix || inx)
          → (same_coord d c ≡ true → f ≡ g)
          → among c rest ≡ (inx && (iy && g))
          → among c (if f then d ∷ rest else rest) ≡ (isx && (iy && g))
      step bx by f g ix inx isx iy d rest s ex ey es fg ih = ground (arith, s, ex, ey, es, fg, ih)

  rows_loop_lem :
      (width n : ℕ) (tx0 ty : ℤ)
      → Range32 tx0 width
      → Range32 ty n
      → among c (rows_loop m width tx0 n ty) ≡ (
          in_range tx0 width (signed32 c.tx)
          && (in_range ty n (signed32 c.ty) && is_found (tile_at m c)))
  unfolding rows_loop
  rows_loop_lem width zero tx0 ty rx ry =
      rw (in_range-zero ty (signed32 c.ty)) (sym (and_false (in_range tx0 width (signed32 c.tx))))
    where
      and_false : (b : Bool) → (b && false) ≡ false
      and_false true = refl
      and_false false = refl
  rows_loop_lem width (suc n) tx0 ty rx ry =
      step (in_range tx0 width (signed32 c.tx)) (in_range ty 1 (signed32 c.ty))
        (in_range (ty +ℤ pos 1) n (signed32 c.ty)) (in_range ty (suc n) (signed32 c.ty))
        (is_found (tile_at m c)) (row_loop m width tx0 ty) (rows_loop m width tx0 n (ty +ℤ pos 1))
        (row_loop_lem width n tx0 ty rx ry)
        (rows_loop_lem width n tx0 (ty +ℤ pos 1) rx (Range32-next ty n ry))
        (in_range-suc ty (signed32 c.ty) n)
    where
      step :
          (x y ny sy f : Bool) (cs ds : List TileCoord)
          → among c cs ≡ (x && (y && f))
          → among c ds ≡ (x && (ny && f))
          → sy ≡ (y || ny)
          → among c (cs ++ ds) ≡ (x && (sy && f))
      step x y ny sy f cs ds ha hb e = ground (arith, ha, hb, e, among-append c cs ds)

intersects_open :
    (a o : Rect)
    → is_empty a ≡ false
    → is_empty o ≡ false
    → intersects a o ≡ (
        ltb_ℤ a.x (right o)
        && (ltb_ℤ o.x (right a) && (ltb_ℤ a.y (bottom o) && ltb_ℤ o.y (bottom a))))
unfolding intersects
intersects_open a o ha ho = rw (ha, ho) refl

canvas_rect_open :
    (c : TileCoord)
    → (is_empty (canvas_rect c) ≡ false)
      × (right (canvas_rect c) ≡ tile_origin (signed32 c.tx) +ℤ pos 64)
      × (bottom (canvas_rect c) ≡ tile_origin (signed32 c.ty) +ℤ pos 64)
      × ((canvas_rect c).x ≡ tile_origin (signed32 c.tx))
      × ((canvas_rect c).y ≡ tile_origin (signed32 c.ty))
unfolding canvas_rect right bottom is_empty
canvas_rect_open c = (refl, refl, refl, refl, refl)

-- A tile in the grid of an area that is not empty lies in the area.
grid-intersects :
    (area : Rect) (c : TileCoord)
    → is_empty area ≡ false
    → ((leb_ℤ (tile_index_for area.x) (signed32 c.tx)
          && leb_ℤ (signed32 c.tx) (tile_index_for (right area -ℤ pos 1)))
        && (leb_ℤ (tile_index_for area.y) (signed32 c.ty)
            && leb_ℤ (signed32 c.ty) (tile_index_for (bottom area -ℤ pos 1))))
      ≡ intersects area (canvas_rect c)
grid-intersects area c e =
    let (some', r, b, x, y) = canvas_rect_open c in
    rw
      (
        index_le area.x (signed32 c.tx),
        index_ge (right area) (signed32 c.tx),
        index_le area.y (signed32 c.ty),
        index_ge (bottom area) (signed32 c.ty),
        intersects_open area (canvas_rect c) e some',
        r,
        b,
        x,
        y,
      )
      (and_assoc (ltb_ℤ area.x (tile_origin (signed32 c.tx) +ℤ pos 64))
        (ltb_ℤ (tile_origin (signed32 c.tx)) (right area)) _)

-- The tiles of the area have coordinates of 32 bits.
pub record Fits32 (area : Rect) : Type 0 where
  pub columns :
      Range32
        (tile_index_for area.x)
        (rounds_to (tile_index_for area.x) (tile_index_for (right area -ℤ pos 1)))
  pub rows :
      Range32
        (tile_index_for area.y)
        (rounds_to (tile_index_for area.y) (tile_index_for (bottom area -ℤ pos 1)))

collect_grid :
    (m : TileMap) (area : Rect) (c : TileCoord)
    → c.tx < 2 ^ 32
    → c.ty < 2 ^ 32
    → Fits32 area
    → is_empty area ≡ false
    → among c (
        rows_loop m
          (rounds_to (tile_index_for area.x) (tile_index_for (right area -ℤ pos 1)))
          (tile_index_for area.x)
          (rounds_to (tile_index_for area.y) (tile_index_for (bottom area -ℤ pos 1)))
          (tile_index_for area.y))
      ≡ (is_found (tile_at m c) && intersects area (canvas_rect c))
collect_grid m area c hx hy fit e =
    rows_loop_lem m c hx hy _ _ (tile_index_for area.x) (tile_index_for area.y) fit.columns fit.rows
    ∙ turn _ _ (is_found (tile_at m c))
    ∙ ap (is_found (tile_at m c) &&◌) (
        (λ i.
          in_range-rounds_to (tile_index_for area.x) (tile_index_for (right area -ℤ pos 1))
            (signed32 c.tx) i
          && in_range-rounds_to (tile_index_for area.y) (tile_index_for (bottom area -ℤ pos 1))
              (signed32 c.ty) i)
        ∙ grid-intersects area c e)
  where
    turn : (x y f : Bool) → (x && (y && f)) ≡ (f && (x && y))
    turn x y f = ground arith

none_empty : (a o : Rect) → is_empty a ≡ true → intersects a o ≡ false
unfolding intersects
none_empty a o h = rw h refl

none_found :
    (m : TileMap) (c : TileCoord) → (length m.tiles == 0) ≡ true → is_found (tile_at m c) ≡ false
unfolding tile_at find
none_found m c h = rw (nil_of_length m.tiles (eq_of _ _ h)) refl

-- The three ends of the function.
three_ends :
    (empty none' small : Bool) (P : List TileCoord → Type 0) {xs ys : List TileCoord}
    → (empty ≡ true → P [])
    → (none' ≡ true → P [])
    → (empty ≡ false → P xs)
    → P ys
    → P (if empty || none' then [] else if small then xs else ys)
three_ends true none' small P a b g t = a refl
three_ends false true small P a b g t = b refl
three_ends false false true P a b g t = g refl
three_ends false false false P a b g t = t

-- The tiles that are collected for an area are those of the map whose square meets the area, each
-- of them, whether the code goes through the grid of the area or through the map, when the tiles
-- of the area have coordinates of 32 bits.
pub collect_tiles-among :
    (m : TileMap) (area : Rect) (c : TileCoord)
    → c.tx < 2 ^ 32
    → c.ty < 2 ^ 32
    → Fits32 area
    → among c (collect_tiles m area) ≡ (is_found (tile_at m c) && intersects area (canvas_rect c))
unfolding collect_tiles
collect_tiles-among m area c hx hy fit =
    three_ends (is_empty area) (length m.tiles == 0) _
      (λ ds. among c ds ≡ (is_found (tile_at m c) && intersects area (canvas_rect c)))
      (λ e. sym (ap (is_found (tile_at m c) &&◌) (none_empty area (canvas_rect c) e) ∙ no _))
      (λ z. sym (ap (◌&& intersects area (canvas_rect c)) (none_found m c z)))
      (collect_grid m area c hx hy fit) (tiles_loop_lem area c m.tiles)
  where
    no : (b : Bool) → (b && false) ≡ false
    no true = refl
    no false = refl
