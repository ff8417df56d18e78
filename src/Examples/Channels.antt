-- ===== src/Examples/Channels.antt =====
-- A stream that takes everything, a sink that takes everything, and values of a sample.
use mari_paint.Prelude.{ℕ, ◌%◌, ◌^◌, refl, some, true, false, List, [], ◌∷◌, ◌++◌, arith}
use mari_paint.Core.Errors.{ok}
use mari_paint.Core.Origin.{human_pen, no_agent}
use mari_paint.Sigan.Frame.{StrokeFrame, IsWire}
use mari_paint.Sigan.Journal.Writer.{Disk, Journal, journal_header}
use mari_paint.Sigan.Sink.{Sink, SinkStatus}
use mari_paint.Sigan.Publisher.State.{StrokeSample, Publisher, all_caps, no_publisher_stats}
use mari_paint.Sigan.Publisher.Publish.{Fits, Is64}
use mari_paint.Sigan.Handshake.{proto_version}

abbrev pub good_disk : Disk
good_disk = record {
  written = λ call want. want;
  flushed = λ call. true;
  written-le = λ call want. omega arith;
  reread = λ calls size. some size;
}

-- The state is what has been received. The answer to a handshake is the handshake.
abbrev pub good_sink : Sink
good_sink = record {
  State = List (List ℕ);
  connected = λ s. true;
  connect = λ s. (ok tt, s);
  handshake = λ h s. (ok h, s);
  write = λ bytes s. (SinkStatus.ok, s ++ bytes ∷ []);
  pump = λ s. s;
  received = λ s. s;
  received-connect = λ s. refl;
  received-handshake = λ h s. refl;
  received-pump = λ s. refl;
  received-write = λ bytes s h. refl;
  received-write_refused = λ bytes s h. absurd (h refl);
}

abbrev pub millis : ℕ → ℕ
millis n = n % 2 ^ 64

pub millis-Is64 : Is64 millis
millis-Is64 n = omega arith

abbrev pub a_sample : StrokeSample
a_sample = record {
  source = record { origin = human_pen; agent_id = no_agent };
  x = 10;
  y = 20;
  pressure = 30;
  tilt_x = 1;
  tilt_y = 2;
  rotation = 3;
  velocity = 4;
  layer_id = 5;
  brush_id = 6;
  flags = 1;
}

pub a_sample-Fits : Fits a_sample
a_sample-Fits = record {
  x = omega arith;
  y = omega arith;
  pressure = omega arith;
  tilt_x = omega arith;
  tilt_y = omega arith;
  rotation = omega arith;
  velocity = omega arith;
  flags = omega arith;
  origin = omega arith;
  digest = omega arith;
}

abbrev pub a_frame : StrokeFrame
a_frame = record {
  seq = 1;
  t_ms = 5;
  cx = 10;
  cy = 20;
  pressure = 30;
  tilt_x = 1;
  tilt_y = 2;
  rotation = 3;
  velocity = 4;
  layer_id = 5;
  brush_id = 6;
  flags = 1;
  origin = human_pen;
  agent_id = 0;
}

pub a_frame-IsWire : IsWire a_frame
a_frame-IsWire = record {
  seq = omega arith;
  t_ms = omega arith;
  cx = omega arith;
  cy = omega arith;
  pressure = omega arith;
  tilt_x = omega arith;
  tilt_y = omega arith;
  rotation = omega arith;
  velocity = omega arith;
  layer_id = omega arith;
  brush_id = omega arith;
  flags = omega arith;
  origin = omega arith;
  agent_id = omega arith;
}

abbrev pub new_journal : Journal
new_journal = record {
  is_open = true;
  buf = [];
  file = journal_header 7 2;
  frame_count = 0;
  failed = false;
  calls = 0;
}

-- The publisher that `open` gives for the session 7.
abbrev pub new_publisher : Publisher (List (List ℕ))
new_publisher = record {
  journal = new_journal;
  attached = false;
  sink = [];
  steady_origin_ns = 1;
  wall_anchor_ms = 2;
  app = [];
  negotiated = record {
    proto = proto_version;
    caps = all_caps;
    proto_downgraded = false;
    dropped = [];
  };
  stats = no_publisher_stats;
  session_id = 7;
  seq = 0;
  sent_seq = 0;
  cap_layer = true;
  cap_brush = true;
}
