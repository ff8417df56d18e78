-- ===== src/Core/Tile/Region/Ranges.antt =====
-- Ranges of the indices of tiles: what the loops of `collectTiles` run through, and which indices
-- belong to a stretch of the canvas.
use mari_paint.Prelude.{ℕ, suc, ◌+◌, ◌*◌, ◌^◌, ◌≤◌, ◌<◌, ◌≡◌, Bool, false, ◌&&◌, ◌||◌, arith, ◌==◌}
use mari_paint.Prelude.Int.{
  ℤ, pos, negsuc, pos_part, neg_part, ◌+ℤ◌, ◌-ℤ◌, ◌*ℤ◌, ltb_ℤ, +ℤ_parts, -ℤ_parts,
}
use mari_paint.Core.Geometry.{leb_ℤ, tile_index_for, tile_origin}
use mari_paint.Core.Geometry.Laws.{tile_index_for_lem}
use mari_paint.Core.Tile.Region.{signed32, bits32, rounds_to}

-- The integers from `a` on, `n` of them.
abbrev pub in_range : ℤ → ℕ → ℤ → Bool
in_range a n v = leb_ℤ a v && ltb_ℤ v (a +ℤ pos n)

-- They are values of `int32_t`.
pub record Range32 (a : ℤ) (n : ℕ) : Type 0 where
  pub low : neg_part a ≤ 2 ^ 31
  pub high : pos_part a + n ≤ 2 ^ 31 + neg_part a

pub in_range-suc :
    (a v : ℤ) (n : ℕ) → in_range a (suc n) v ≡ (in_range a 1 v || in_range (a +ℤ pos 1) n v)
in_range-suc a v n =
    ground (arith, +ℤ_parts a (pos (suc n)), +ℤ_parts a (pos 1), +ℤ_parts (a +ℤ pos 1) (pos n))

pub in_range-zero : (a v : ℤ) → in_range a 0 v ≡ false
in_range-zero a v = ground (arith, +ℤ_parts a (pos 0))

pub bits32_lem :
    (a : ℤ) (n w : ℕ) → Range32 a (suc n) → w < 2 ^ 32 → (bits32 a == w) ≡ in_range a 1 (signed32 w)
bits32_lem (pos k) n w r h = ground (arith, r, h, +ℤ_parts (pos k) (pos 1))
bits32_lem (negsuc k) n w r h = ground (arith, r, h, +ℤ_parts (negsuc k) (pos 1))

pub Range32-next : (a : ℤ) (n : ℕ) → Range32 a (suc n) → Range32 (a +ℤ pos 1) n
Range32-next a n r = record {
  low = ground (arith, r, +ℤ_parts a (pos 1));
  high = ground (arith, r, +ℤ_parts a (pos 1));
}

pub and_assoc : (a b c : Bool) → ((a && b) && c) ≡ (a && (b && c))
and_assoc a b c = ground arith

-- From `a` to `b`.
pub in_range-rounds_to : (a b v : ℤ) → in_range a (rounds_to a b) v ≡ (leb_ℤ a v && leb_ℤ v b)
in_range-rounds_to a b v =
    ground (arith, +ℤ_parts a (pos (rounds_to a b)), -ℤ_parts b a, +ℤ_parts (b -ℤ a) (pos 1))

origin_parts :
    (s : ℤ)
    → (pos_part (tile_origin s) ≡ pos_part s * 64) × (neg_part (tile_origin s) ≡ neg_part s * 64)
unfolding tile_origin ◌*ℤ◌
origin_parts (pos n) = ground arith
origin_parts (negsuc n) = ground arith

pub index_le : (x s : ℤ) → leb_ℤ (tile_index_for x) s ≡ ltb_ℤ x (tile_origin s +ℤ pos 64)
index_le x s = ground (
  arith,
  tile_index_for_lem x,
  origin_parts s,
  origin_parts (tile_index_for x),
  +ℤ_parts (tile_origin s) (pos 64),
)

pub index_ge : (y s : ℤ) → leb_ℤ s (tile_index_for (y -ℤ pos 1)) ≡ ltb_ℤ (tile_origin s) y
index_ge y s = ground (
  arith,
  tile_index_for_lem (y -ℤ pos 1),
  origin_parts s,
  origin_parts (tile_index_for (y -ℤ pos 1)),
  -ℤ_parts y (pos 1),
)
