-- ===== src/Sigan/Publisher/State.antt =====
-- The state of the publisher, what it says of itself, and the frame that it makes of a sample.
use Prim.Native.Nat.{bit_xor}
use mari_paint.Prelude.{
  ℕ, ◌+◌, ◌-◌, ◌%◌, ◌^◌, Bool, true, false, List, [], ◌∷◌, ltb, leb, ◌==◌, if◌then◌else◌,
}
use mari_paint.Core.Errors.{ErrorCode, Result, err, map_ok}
use mari_paint.Core.Origin.{StrokeSource, StrokeOriginStats, no_stats, add}
use mari_paint.Sigan.Frame.{StrokeFrame, narrow_id, has_flag, down, synthetic}
use mari_paint.Sigan.Journal.Writer.{Journal}
use mari_paint.Sigan.Handshake.{
  Handshake, Negotiated, canvas_xy, layer, brush, view, resume, proto_version,
}

-- `StrokeSample`: the numbers of a point are bit patterns, as in a frame.
pub record StrokeSample : Type 0 where
  pub source : StrokeSource
  pub x : ℕ
  pub y : ℕ
  pub pressure : ℕ
  pub tilt_x : ℕ
  pub tilt_y : ℕ
  pub rotation : ℕ
  pub velocity : ℕ
  pub layer_id : ℕ
  pub brush_id : ℕ
  pub flags : ℕ

pub record PublisherStats : Type 0 where
  pub published : ℕ
  pub sent : ℕ
  pub spooled : ℕ
  pub resent : ℕ
  pub reconnects : ℕ
  pub id_truncations : ℕ
  pub origins : StrokeOriginStats
  pub region_ops : StrokeOriginStats

abbrev pub no_publisher_stats : PublisherStats
no_publisher_stats = record {
  published = 0;
  sent = 0;
  spooled = 0;
  resent = 0;
  reconnects = 0;
  id_truncations = 0;
  origins = no_stats;
  region_ops = no_stats;
}

-- A counter of 64 bits, one up.
abbrev pub next64 : ℕ → ℕ
next64 n = (n + 1) % 2 ^ 64

-- `SessionClock::elapsedMs`, up to the division in floating point, which `to_ms` stands for.
unfoldable pub elapsed_ns : ℕ → ℕ → ℕ
elapsed_ns origin now = if ltb origin now then now - origin else 0

-- `SiganPublisher`, over the state of its sink. A sink that is not attached is the null pointer.
pub record Publisher (S : Type 0) : Type 0 where
  pub journal : Journal
  pub attached : Bool
  pub sink : S
  pub steady_origin_ns : ℕ
  pub wall_anchor_ms : ℕ
  pub app : List ℕ
  pub negotiated : Negotiated
  pub stats : PublisherStats
  pub session_id : ℕ
  pub seq : ℕ
  pub sent_seq : ℕ
  pub cap_layer : Bool
  pub cap_brush : Bool

abbrev pub all_caps : List (List ℕ)
all_caps = canvas_xy ∷ layer ∷ brush ∷ view ∷ resume ∷ []

-- `applyCaps`: fields that the other side does not know are zero on the wire.
unfoldable pub strip : Bool → Bool → StrokeFrame → StrokeFrame
strip cap_layer cap_brush f = record f {
  layer_id = if cap_layer then f.layer_id else 0;
  brush_id = if cap_brush then f.brush_id else 0;
}

module _ {S : Type 0} where
  unfoldable pub apply_caps : Publisher S → StrokeFrame → StrokeFrame
  unfolding strip
  apply_caps p f = strip p.cap_layer p.cap_brush f

  -- `localHandshake`
  unfoldable pub local_handshake : Publisher S → Handshake
  local_handshake p = record {
    proto = proto_version;
    app = p.app;
    caps = all_caps;
    session_id = p.session_id;
    resume_from_seq = if leb (next64 p.sent_seq) p.seq then next64 p.sent_seq else 0;
    wall_anchor_unix_ms = p.wall_anchor_ms;
  }

-- The counting of strokes in `publish`.
unfoldable pub count_stroke : ℕ → ℕ → PublisherStats → PublisherStats
unfolding has_flag
count_stroke flags origin t =
    if has_flag flags down
    then (if has_flag flags synthetic
        then record t { region_ops = add t.region_ops origin 1 }
        else record t { origins = add t.origins origin 1 })
    else t

module _ (to_ms : ℕ → ℕ) where
  -- The frame that `publish` builds, and whether an id lost bits.
  unfoldable pub make_frame : ℕ → ℕ → ℕ → StrokeSample → StrokeFrame × Bool
  unfolding narrow_id elapsed_ns
  make_frame seq origin_ns now s =
      let (layer_id, cut_layer) = narrow_id s.layer_id false in
      let (brush_id, cut) = narrow_id s.brush_id cut_layer in
      (
        record {
          seq = seq;
          t_ms = to_ms (elapsed_ns origin_ns now);
          cx = s.x;
          cy = s.y;
          pressure = s.pressure;
          tilt_x = s.tilt_x;
          tilt_y = s.tilt_y;
          rotation = s.rotation;
          velocity = s.velocity;
          layer_id = layer_id;
          brush_id = brush_id;
          flags = s.flags;
          origin = s.source.origin;
          agent_id = s.source.agent_id.digest;
        },
        cut,
      )

-- `SiganPublisher::open`, given whether the journal's path is empty, the clock's readings and the
-- answer of `Journal::create`.
unfoldable pub open_publisher :
    {S : Type 0} → S → Bool → List ℕ → ℕ → ℕ → ℕ → (ℕ → Result Journal) → Result (Publisher S)
open_publisher sink no_path app session_id steady_origin_ns wall_anchor_ms create_journal =
    let id = if session_id == 0 then bit_xor wall_anchor_ms steady_origin_ns else session_id in
    if no_path
    then err ErrorCode.invalid_argument
    else map_ok
        (λ j. record {
          journal = j;
          attached = false;
          sink = sink;
          steady_origin_ns = steady_origin_ns;
          wall_anchor_ms = wall_anchor_ms;
          app = app;
          negotiated = record {
            proto = proto_version;
            caps = all_caps;
            proto_downgraded = false;
            dropped = [];
          };
          stats = no_publisher_stats;
          session_id = id;
          seq = 0;
          sent_seq = 0;
          cap_layer = true;
          cap_brush = true;
        })
        (create_journal id)
