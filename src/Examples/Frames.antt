-- ===== src/Examples/Frames.antt =====
-- Frames, handshakes and counts by origin.
use mari_paint.Prelude.{ℕ, ◌%◌, ◌^◌, ◌≡◌, min, not, ◌&&◌, ◌==◌, some, List, [], ◌∷◌, ◌++◌}
use mari_paint.Core.Origin.{human_pen, agent, no_stats, slot, count, total}
use mari_paint.Core.Origin.Totals.{add_all, strokes, strokes_of, total-add_all}
use mari_paint.Sigan.Frame.{encode_frame, decode_frame}
use mari_paint.Sigan.Frame.Laws.{decode_frame-encode_frame}
use mari_paint.Sigan.Handshake.{Handshake, negotiate, has_cap, layer, resume, canvas_xy}
use mari_paint.Sigan.Handshake.Laws.{negotiate_lem}
use mari_paint.Examples.Channels.{a_frame, a_frame-IsWire}

decode_frame-encode_frame_example :
    decode_frame (encode_frame a_frame ++ 9 ∷ 8 ∷ []) ≡ some (a_frame, 9 ∷ 8 ∷ [])
decode_frame-encode_frame_example = decode_frame-encode_frame a_frame (9 ∷ 8 ∷ []) a_frame-IsWire

abbrev ours : Handshake
ours = record {
  proto = 1;
  app = [];
  caps = canvas_xy ∷ layer ∷ [];
  session_id = 7;
  resume_from_seq = 0;
  wall_anchor_unix_ms = 2;
}

abbrev theirs : Handshake
theirs = record {
  proto = 2;
  app = [];
  caps = canvas_xy ∷ resume ∷ [];
  session_id = 7;
  resume_from_seq = 0;
  wall_anchor_unix_ms = 2;
}

negotiate_lem_example :
    (has_cap (negotiate ours theirs).caps layer
      ≡ has_cap ours.caps layer && has_cap theirs.caps layer)
    × (has_cap (negotiate ours theirs).dropped layer
        ≡ has_cap ours.caps layer && not (has_cap theirs.caps layer))
    × ((negotiate ours theirs).proto ≡ min 1 2)
    × ((negotiate ours theirs).proto_downgraded ≡ not (1 == 2))
negotiate_lem_example = negotiate_lem ours theirs layer

abbrev drawn : List (ℕ × ℕ)
drawn = (human_pen, 3) ∷ (agent, 2) ∷ (200, 1) ∷ (human_pen, 4) ∷ []

total-add_all_example :
    (count (add_all no_stats drawn) human_pen ≡ strokes_of (slot human_pen) drawn % 2 ^ 64)
    × (total (add_all no_stats drawn) ≡ strokes drawn % 2 ^ 64)
total-add_all_example = total-add_all drawn human_pen
