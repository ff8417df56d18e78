-- ===== src/Core/Tile/Laws.antt =====
-- Look-ups in the map of tiles behind each of its changes.
use mari_paint.Prelude.{
  ℕ, ◌*◌, ◌≡◌, refl, ap, true, false, none, some, List, [], ◌∷◌, ◌++◌, arith, length, if_both, zero,
  suc,
}
use mari_paint.Core.Tile.{
  PixelFormat, TileCoord, same_coord, Tile, stride_of, tile_size, zeros, new_tile, find, store_at,
  erase_tile,
}

pub same_coord-eq : (a b : TileCoord) → same_coord a b ≡ true → a ≡ b
unfolding same_coord
same_coord-eq a b h =
    let x : a.tx ≡ b.tx = ground (arith, h) in
    let y : a.ty ≡ b.ty = ground (arith, h) in λ i. record { tx = x i; ty = y i }

pub same_coord_refl : (a : TileCoord) → same_coord a a ≡ true
unfolding same_coord
same_coord_refl a = ground arith

pub find-store_at_self :
    (c : TileCoord) (pixels : List ℕ) (ts : List (TileCoord × Tile)) (t : Tile)
    → find c ts ≡ some t
    → find c (store_at c pixels ts) ≡ some (record t { data' = pixels })
unfolding find store_at
find-store_at_self c pixels [] t h = cc
find-store_at_self c pixels ((d, u) ∷ ts) t h = ground (arith, h, find-store_at_self c pixels ts t)

pub find-store_at_other :
    (c d : TileCoord) (pixels : List ℕ) (ts : List (TileCoord × Tile))
    → same_coord c d ≡ false
    → find d (store_at c pixels ts) ≡ find d ts
unfolding find store_at same_coord
find-store_at_other c d pixels [] h = refl
find-store_at_other c d pixels ((e, u) ∷ ts) h =
    ground (arith, h, find-store_at_other c d pixels ts h)

pub find-erase_self :
    (c : TileCoord) (ts : List (TileCoord × Tile)) → find c (erase_tile c ts) ≡ none
unfolding find erase_tile
find-erase_self c [] = refl
find-erase_self c ((d, u) ∷ ts) = ground (arith, find-erase_self c ts)

pub find-erase_other :
    (c d : TileCoord) (ts : List (TileCoord × Tile))
    → same_coord c d ≡ false
    → find d (erase_tile c ts) ≡ find d ts
unfolding find erase_tile same_coord
find-erase_other c d [] h = refl
find-erase_other c d ((e, u) ∷ ts) h = ground (arith, h, find-erase_other c d ts h)

pub find-append_self :
    (c : TileCoord) (t : Tile) (ts : List (TileCoord × Tile))
    → find c ts ≡ none
    → find c (ts ++ (c, t) ∷ []) ≡ some t
unfolding find
find-append_self c t [] h = ground (arith, same_coord_refl c)
find-append_self c t ((d, u) ∷ ts) h = ground (arith, h, find-append_self c t ts)

pub find-append_other :
    (c d : TileCoord) (t : Tile) (ts : List (TileCoord × Tile))
    → same_coord c d ≡ false
    → find d (ts ++ (c, t) ∷ []) ≡ find d ts
unfolding find
find-append_other c d t [] h = ground (arith, h)
find-append_other c d t ((e, u) ∷ ts) h = ground (arith, find-append_other c d t ts h)

-- A tile of the format: all of its pixels are there.
abbrev pub GoodTile : PixelFormat → Tile → Type 0
GoodTile f t = (t.format ≡ f) × (length t.data' ≡ stride_of f * tile_size)

abbrev pub AllGood : PixelFormat → List (TileCoord × Tile) → Type 0
AllGood f [] = Unit
AllGood f ((c, t) ∷ ts) = GoodTile f t × AllGood f ts

pub find-GoodTile :
    (f : PixelFormat) (c : TileCoord) (t : Tile) (ts : List (TileCoord × Tile))
    → AllGood f ts
    → find c ts ≡ some t
    → GoodTile f t
unfolding find
find-GoodTile f c t [] g h = cc
find-GoodTile f c t ((d, u) ∷ ts) (g, gs) h = ground (arith, g, h, find-GoodTile f c t ts gs)

length-zeros : (n : ℕ) → length (zeros n) ≡ n
length-zeros zero = refl
length-zeros (suc n) = ap suc (length-zeros n)

pub new_tile-GoodTile : (f : PixelFormat) → GoodTile f (new_tile f)
unfolding new_tile
new_tile-GoodTile f = (refl, length-zeros (stride_of f * tile_size))

pub AllGood-append :
    (f : PixelFormat) (c : TileCoord) (t : Tile) (ts : List (TileCoord × Tile))
    → AllGood f ts
    → GoodTile f t
    → AllGood f (ts ++ (c, t) ∷ [])
AllGood-append f c t [] g h = (h, tt)
AllGood-append f c t (p ∷ ts) (g, gs) h = (g, AllGood-append f c t ts gs h)

pub AllGood-erase :
    (f : PixelFormat) (c : TileCoord) (ts : List (TileCoord × Tile))
    → AllGood f ts
    → AllGood f (erase_tile c ts)
unfolding erase_tile
AllGood-erase f c [] g = tt
AllGood-erase f c ((d, u) ∷ ts) (g, gs) =
    if_both (AllGood f) (same_coord d c) (AllGood-erase f c ts gs) (g, AllGood-erase f c ts gs)

pub AllGood-store_at :
    (f : PixelFormat) (c : TileCoord) (pixels : List ℕ) (ts : List (TileCoord × Tile))
    → AllGood f ts
    → length pixels ≡ stride_of f * tile_size
    → AllGood f (store_at c pixels ts)
unfolding store_at
AllGood-store_at f c pixels [] g h = tt
AllGood-store_at f c pixels ((d, u) ∷ ts) (g, gs) h =
    if_both (AllGood f) (same_coord d c) {x = (d, record u { data' = pixels }) ∷ ts}
      {y = (d, u) ∷ store_at c pixels ts} ((g.0, h), gs) (g, AllGood-store_at f c pixels ts gs h)
