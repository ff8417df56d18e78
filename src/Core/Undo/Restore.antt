-- ===== src/Core/Undo/Restore.antt =====
-- The loop of `TileSnapshotCommand::restore`, tile by tile.
use mari_paint.Prelude.{
  ℕ, zero, suc, ◌+◌, ◌*◌, ◌≡◌, refl, sym, ap, ◌∙◌, Bool, true, false, Option, none, some, List, [],
  ◌∷◌, arith, length, take, drop, drop_all, take-append-drop, length-take, length-drop,
  if◌then◌else◌, Bool-cases, inl, inr, subst, Option-cases,
}
use mari_paint.Core.Errors.{Result, ok, err}
use mari_paint.Core.Tile.{
  PixelFormat, is_unknown, TileCoord, same_coord, Tile, stride_of, tile_size, TileMap, tile_at,
  find, writable, writable_found, erase, new_tile,
}
use mari_paint.Core.Tile.Laws.{
  same_coord-eq, find-store_at_self, find-store_at_other, find-erase_self, find-erase_other,
  find-append_self, find-append_other, GoodTile, AllGood, find-GoodTile, new_tile-GoodTile,
  AllGood-append, AllGood-erase, AllGood-store_at,
}
use mari_paint.Core.Undo.{
  copy_rows, smaller, put_pixels, put_tile, or_else, Entry, knows, stop_or, restore_loop,
}

abbrev area : ℕ → ℕ → ℕ
area zero s = 0
area (suc n) s = s + area n s

-- Rows of one width, all of them: the pixels are the other tile's.
copy_rows_all :
    (n s : ℕ) (dst src : List ℕ)
    → length dst ≡ area n s
    → length src ≡ area n s
    → copy_rows n s s s dst src ≡ src
unfolding copy_rows
copy_rows_all zero s [] [] h k = refl
copy_rows_all zero s (x ∷ dst) src h k = absurd (omega arith)
copy_rows_all zero s [] (x ∷ src) h k = absurd (omega arith)
copy_rows_all (suc n) s dst src h k =
    let none : drop s (take s dst) ≡ [] =
      drop_all (take s dst) (omega (arith, length-take s dst)) in
    let ih =
      copy_rows_all n s (drop s dst) (drop s src) (omega (arith, length-drop s dst))
        (omega (arith, length-drop s src)) in
    rw (none, ih) (take-append-drop s src)

smaller_self : (a : ℕ) → smaller a a ≡ a
unfolding smaller
smaller_self a = ground arith

-- A map that can be written to, whose tiles have all of their pixels.
pub record Good (m : TileMap) : Type 0 where
  pub known : is_unknown m.format ≡ false
  pub tiles : AllGood m.format m.tiles

GoodOption : PixelFormat → Option Tile → Type 0
GoodOption f none = Unit
GoodOption f (some t) = GoodTile f t

Good-at : (m : TileMap) (c : TileCoord) → Good m → GoodOption m.format (tile_at m c)
unfolding GoodOption tile_at
Good-at m c g = elim (Option-cases (find c m.tiles)) [
  | inl e ↦ rw e tt
  | inr (t, e) ↦ rw e (find-GoodTile m.format c t m.tiles g.tiles e)
]

-- What a change of the tile at `c` to `o` makes of a map.
pub record Changed (c : TileCoord) (o : Option Tile) (m n : TileMap) : Type 0 where
  good : Good n
  format : n.format ≡ m.format
  self : tile_at n c ≡ o
  other : (d : TileCoord) → same_coord c d ≡ false → tile_at n d ≡ tile_at m d

erase-Changed : (m : TileMap) (c : TileCoord) → Good m → Changed c none m (erase m c)
unfolding erase tile_at
erase-Changed m c g = record {
  good = record { known = g.known; tiles = AllGood-erase m.format c m.tiles g.tiles };
  format = refl;
  self = find-erase_self c m.tiles;
  other = λ d ne. find-erase_other c d m.tiles ne;
}

-- The tile that `writable` gives stands in the map that it leaves.
writable-Changed :
    (m : TileMap) (c : TileCoord) (o : Option Tile)
    → tile_at m c ≡ o
    → Good m
    → Changed c (some (writable_found m c o).0) m (writable_found m c o).1
unfolding writable_found tile_at
writable-Changed m c (some t) e g = record {
  good = g;
  format = refl;
  self = e;
  other = λ d ne. refl;
}
writable-Changed m c none e g = record {
  good = record {
    known = g.known;
    tiles =
        AllGood-append m.format c (new_tile m.format) m.tiles g.tiles (new_tile-GoodTile m.format);
  };
  format = refl;
  self = find-append_self c (new_tile m.format) m.tiles e;
  other = λ d ne. find-append_other c d (new_tile m.format) m.tiles ne;
}

tile-eq : (a b : Tile) → a.format ≡ b.format → a.data' ≡ b.data' → a ≡ b
tile-eq a b f d = λ i. record { format = f i; data' = d i }

-- The pixels of a tile go over those of a tile of the same format.
copied :
    (f : PixelFormat) (dst t : Tile)
    → GoodTile f dst
    → GoodTile f t
    → copy_rows tile_size
        (stride_of dst.format)
        (stride_of t.format)
        (smaller (stride_of dst.format) (stride_of t.format))
        dst.data'
        t.data'
      ≡ t.data'
copied f dst t (fd, ld) (ft, lt) =
    rw (fd, ft, smaller_self (stride_of f))
      (copy_rows_all tile_size (stride_of f) dst.data' t.data' (omega (arith, ld))
        (omega (arith, lt)))

put_found-Changed :
    (m n : TileMap) (c : TileCoord) (dst t : Tile)
    → GoodTile m.format t
    → Changed c (some dst) m n
    → ((put_pixels c t (ok (dst, n))).0 ≡ ok tt)
      × Changed c (some t) m (or_else m (put_pixels c t (ok (dst, n))).1)
unfolding put_pixels tile_at
put_found-Changed m n c dst t good ch = (
  refl,
  record {
    good = record {
      known = ch.good.known;
      tiles =
          AllGood-store_at n.format c _ n.tiles ch.good.tiles
            (ap length pixels ∙ good.1 ∙ ap (λ f. stride_of f * tile_size) (sym ch.format));
    };
    format = ch.format;
    self =
        find-store_at_self c _ n.tiles dst ch.self
        ∙ ap some (tile-eq _ t (found.0 ∙ ch.format ∙ sym good.0) pixels);
    other = λ d ne. find-store_at_other c d _ n.tiles ne ∙ ch.other d ne;
  },
)
  where
    found : GoodTile n.format dst
    found = find-GoodTile n.format c dst n.tiles ch.good.tiles ch.self

    pixels :
        copy_rows tile_size
          (stride_of dst.format)
          (stride_of t.format)
          (smaller (stride_of dst.format) (stride_of t.format))
          dst.data'
          t.data'
        ≡ t.data'
    pixels =
        copied m.format dst t
          (found.0 ∙ ch.format, found.1 ∙ ap (λ f. stride_of f * tile_size) ch.format) good

put_tile-Changed :
    (m : TileMap) (c : TileCoord) (o : Option Tile)
    → Good m
    → GoodOption m.format o
    → ((put_tile m c o).0 ≡ ok tt) × Changed c o m (put_tile m c o).1
unfolding put_tile writable GoodOption
put_tile-Changed m c none g h = (refl, erase-Changed m c g)
put_tile-Changed m c (some t) g h =
    rw g.known (put_found-Changed m _ c _ t h (writable-Changed m c (tile_at m c) refl g))

-- The restoring of entries whose tiles are those of another map.
module _ (to_before : Bool) (target : TileMap) (g : Good target) where
  unfoldable pub pick : Entry → Option Tile
  pick e = if to_before then e.before else e.after

  unfoldable pub AllPicked : List Entry → Type 0
  AllPicked [] = Unit
  AllPicked (e ∷ es) = (pick e ≡ tile_at target e.coord) × AllPicked es

  -- The tiles of the entries are the target's, the others are as they were.
  pub record Restored (es : List Entry) (m : TileMap) (r : Result (Unit {0}) × TileMap)
      : Type 0 where
    pub done : r.0 ≡ ok tt
    pub good : Good r.1
    pub format : r.1.format ≡ m.format
    pub inside : (d : TileCoord) → knows es d ≡ true → tile_at r.1 d ≡ tile_at target d
    pub outside : (d : TileCoord) → knows es d ≡ false → tile_at r.1 d ≡ tile_at m d

  Restored-cons :
      (e : Entry) (es : List Entry) (m n : TileMap) (r : Result (Unit {0}))
      (rest : Result (Unit {0}) × TileMap)
      → pick e ≡ tile_at target e.coord
      → r ≡ ok tt
      → Changed e.coord (pick e) m n
      → Restored es n rest
      → Restored (e ∷ es) m (stop_or r n rest)
  unfolding stop_or knows
  Restored-cons e es m n (err c) rest p done ch h = cc
  Restored-cons e es m n (ok _) rest p done ch h = record {
    done = h.done;
    good = h.good;
    format = h.format ∙ ch.format;
    inside = λ d k. elim (Bool-cases (knows es d)) [
      | inl yes' ↦ h.inside d yes'
      | inr no' ↦
          let same = same_coord-eq e.coord d (ground (arith, k, no')) in
          h.outside d no' ∙ subst (λ c. tile_at n c ≡ tile_at target c) same (ch.self ∙ p)
    ];
    outside = λ d k. h.outside d (ground (arith, k)) ∙ ch.other d (ground (arith, k));
  }

  pub restore_loop-Restored :
      (es : List Entry) (m : TileMap)
      → Good m
      → m.format ≡ target.format
      → AllPicked es
      → Restored es m (restore_loop to_before es m)
  unfolding restore_loop AllPicked pick knows
  restore_loop-Restored [] m gm f p = record {
    done = refl;
    good = gm;
    format = refl;
    inside = λ d k. cc;
    outside = λ d k. refl;
  }
  restore_loop-Restored (e ∷ es) m gm f (p, ps) =
      let (done, ch) =
        put_tile-Changed m e.coord (pick e) gm (rw (p, f) (Good-at target e.coord g)) in
      Restored-cons e es m _ _ _ p done ch
        (restore_loop-Restored es (put_tile m e.coord (pick e)).1 ch.good (ch.format ∙ f) ps)
