-- ===== src/Sigan/Frame.antt =====
-- Stroke frames on the wire (include/mari/sigan/frame.hpp, sigan/src/frame.cpp). A `float` or a
-- `double` is the bit pattern that `std::bit_cast` gives: the frame code only copies it.
pub mod Laws
use Prim.Native.Nat.{bit_xor}
use mari_paint.Prelude.{
  ℕ, zero, suc, ◌+◌, ◌-◌, ◌/◌, ◌%◌, ◌^◌, ◌<◌, Bool, Option, none, some, List, [], ◌∷◌, ◌++◌, ltb,
  ◌==◌, if◌then◌else◌, not,
}
use mari_paint.Sigan.Wire.{
  IsU8, IsU32, IsU64, put_u32, put_u64, Read, ◌>>=◌, ◌>>◌, pure, get_u8, get_u32, get_u64,
}

-- `StrokeFrame`, in the order of the wire.
pub record StrokeFrame : Type 0 where
  pub seq : ℕ
  pub t_ms : ℕ
  pub cx : ℕ
  pub cy : ℕ
  pub pressure : ℕ
  pub tilt_x : ℕ
  pub tilt_y : ℕ
  pub rotation : ℕ
  pub velocity : ℕ
  pub layer_id : ℕ
  pub brush_id : ℕ
  pub flags : ℕ
  pub origin : ℕ
  pub agent_id : ℕ

-- `FrameFlag`: one bit each.
abbrev pub down : ℕ
down = 2 ^ 0

abbrev pub move : ℕ
move = 2 ^ 1

abbrev pub up : ℕ
up = 2 ^ 2

abbrev pub eraser : ℕ
eraser = 2 ^ 3

abbrev pub synthetic : ℕ
synthetic = 2 ^ 4

-- `(flags & f) != 0` at a flag of one bit: that bit of `flags`.
unfoldable pub has_flag : ℕ → ℕ → Bool
has_flag flags f = not (flags / f % 2 == 0)

-- `kFrameSize`
abbrev pub frame_size : ℕ
frame_size = 64

unfoldable pub encode_frame : StrokeFrame → List ℕ
unfolding put_u32 put_u64
encode_frame f =
    put_u64 f.seq
    ++ put_u64 f.t_ms
    ++ put_u32 f.cx
    ++ put_u32 f.cy
    ++ put_u32 f.pressure
    ++ put_u32 f.tilt_x
    ++ put_u32 f.tilt_y
    ++ put_u32 f.rotation
    ++ put_u32 f.velocity
    ++ put_u32 f.layer_id
    ++ put_u32 f.brush_id
    ++ put_u32 f.flags
    ++ f.origin % 256 ∷ 0 ∷ 0 ∷ 0 ∷ []
    ++ put_u32 f.agent_id

unfoldable pub decode_frame : Read StrokeFrame
unfolding get_u8 get_u32 get_u64
decode_frame = do
  seq ← get_u64
  t_ms ← get_u64
  cx ← get_u32
  cy ← get_u32
  pressure ← get_u32
  tilt_x ← get_u32
  tilt_y ← get_u32
  rotation ← get_u32
  velocity ← get_u32
  layer_id ← get_u32
  brush_id ← get_u32
  flags ← get_u32
  origin ← get_u8
  get_u8
  get_u8
  get_u8
  agent_id ← get_u32
  pure (record {
    seq = seq;
    t_ms = t_ms;
    cx = cx;
    cy = cy;
    pressure = pressure;
    tilt_x = tilt_x;
    tilt_y = tilt_y;
    rotation = rotation;
    velocity = velocity;
    layer_id = layer_id;
    brush_id = brush_id;
    flags = flags;
    origin = origin;
    agent_id = agent_id;
  })

-- `narrowId`: the low 32 bits, and whether bits were lost (the flag is only ever raised).
unfoldable pub narrow_id : ℕ → Bool → ℕ × Bool
narrow_id id truncated = (id % 2 ^ 32, if ltb 0xFFFFFFFF id then Bool.true else truncated)

-- One of the eight rounds of a table entry, and the entry.
unfoldable pub crc_round : ℕ → ℕ
crc_round c = if c % 2 == 1 then bit_xor 0xEDB88320 (c / 2) else c / 2

unfoldable pub crc_entry : ℕ → ℕ
unfolding crc_round
crc_entry i =
    crc_round (crc_round (crc_round (crc_round (crc_round (crc_round (crc_round (crc_round i)))))))

-- `~c` on 32 bits
abbrev pub complement : ℕ → ℕ
complement c = 2 ^ 32 - 1 - c

unfoldable pub crc_loop : ℕ → List ℕ → ℕ
unfolding crc_entry
crc_loop c [] = c
crc_loop c (b ∷ bytes) = crc_loop (bit_xor (crc_entry (bit_xor c b % 256)) (c / 2 ^ 8)) bytes

unfoldable pub crc32 : List ℕ → ℕ → ℕ
unfolding crc_loop
crc32 bytes seed = complement (crc_loop (complement seed) bytes)

-- Every field has the width of its type.
pub record IsWire (f : StrokeFrame) : Type 0 where
  pub seq : IsU64 f.seq
  pub t_ms : IsU64 f.t_ms
  pub cx : IsU32 f.cx
  pub cy : IsU32 f.cy
  pub pressure : IsU32 f.pressure
  pub tilt_x : IsU32 f.tilt_x
  pub tilt_y : IsU32 f.tilt_y
  pub rotation : IsU32 f.rotation
  pub velocity : IsU32 f.velocity
  pub layer_id : IsU32 f.layer_id
  pub brush_id : IsU32 f.brush_id
  pub flags : IsU32 f.flags
  pub origin : IsU8 f.origin
  pub agent_id : IsU32 f.agent_id
