-- ===== src/Record/Tally.antt =====
-- What a recorder counts (`RecordingTally` of include/mari/agent/recording.hpp), and how the factory
-- adds such counts up (the loops of `retire` and `totalTally` in record/src/sigan_recorder.cpp).
pub mod Sums
use mari_paint.Prelude.{ℕ, ◌+◌, ◌%◌, ◌^◌, List, [], ◌∷◌, get_or, set}
use mari_paint.Core.Origin.{
  StrokeOriginStats, no_stats, slot, add, count, agent, human_pen, human_mouse,
}

-- Strokes of brushes, operations on regions, and changed tiles, each by origin.
pub record RecordingTally : Type 0 where
  pub strokes : StrokeOriginStats
  pub region_ops : StrokeOriginStats
  pub changed_tiles : List ℕ

abbrev pub no_tally : RecordingTally
no_tally = record {
  strokes = no_stats;
  region_ops = no_stats;
  changed_tiles = 0 ∷ 0 ∷ 0 ∷ 0 ∷ 0 ∷ 0 ∷ [];
}

-- `changedTiles[i] += n`
unfoldable pub bump : List ℕ → ℕ → ℕ → List ℕ
bump cs i n = set cs i ((get_or cs i 0 + n) % 2 ^ 64)

unfoldable pub add_tiles : RecordingTally → ℕ → ℕ → RecordingTally
unfolding slot bump
add_tiles t o n = record t { changed_tiles = bump t.changed_tiles (slot o) n }

unfoldable pub tiles : RecordingTally → ℕ → ℕ
unfolding slot
tiles t o = get_or t.changed_tiles (slot o) 0

unfoldable pub human_tiles : RecordingTally → ℕ
unfolding tiles
human_tiles t = (tiles t human_pen + tiles t human_mouse) % 2 ^ 64

unfoldable pub agent_tiles : RecordingTally → ℕ
unfolding tiles
agent_tiles t = tiles t agent

-- One round of the loops over the slots: what `t` counts for the slot is added to `out`.
unfoldable pub merge_slot : RecordingTally → ℕ → RecordingTally → RecordingTally
unfolding add count bump
merge_slot t i out = record {
  strokes = add out.strokes i (count t.strokes i);
  region_ops = add out.region_ops i (count t.region_ops i);
  changed_tiles = bump out.changed_tiles i (get_or t.changed_tiles i 0);
}

unfoldable pub merge : RecordingTally → RecordingTally → RecordingTally
unfolding merge_slot
merge t out =
    merge_slot t 5
      (merge_slot t 4 (merge_slot t 3 (merge_slot t 2 (merge_slot t 1 (merge_slot t 0 out)))))
