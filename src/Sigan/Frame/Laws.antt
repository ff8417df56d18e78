-- ===== src/Sigan/Frame/Laws.antt =====
-- The frame codec both ways, and the places of fields.
use mari_paint.Prelude.{ℕ, ◌≡◌, refl, some, List, [], ◌∷◌, ◌++◌, length, get_elem?}
use native.Mathlib.Nat.{mod-eq_of_lt}
use mari_paint.Sigan.Wire.{join_u32, join_u64}
use mari_paint.Sigan.Frame.{StrokeFrame, IsWire, encode_frame, decode_frame, crc32}

-- Every frame takes 64 bytes.
pub length-encode_frame : (f : StrokeFrame) → length (encode_frame f) ≡ 64
unfolding encode_frame
length-encode_frame f = refl

-- Decoding the encoding of a frame whose fields have their widths gives the frame, and leaves what
-- follows it.
pub decode_frame-encode_frame :
    (f : StrokeFrame) (rest : List ℕ)
    → IsWire f
    → decode_frame (encode_frame f ++ rest) ≡ some (f, rest)
unfolding encode_frame decode_frame
decode_frame-encode_frame f rest w = λ i. some (
  record {
    seq = join_u64 f.seq w.seq i;
    t_ms = join_u64 f.t_ms w.t_ms i;
    cx = join_u32 f.cx w.cx i;
    cy = join_u32 f.cy w.cy i;
    pressure = join_u32 f.pressure w.pressure i;
    tilt_x = join_u32 f.tilt_x w.tilt_x i;
    tilt_y = join_u32 f.tilt_y w.tilt_y i;
    rotation = join_u32 f.rotation w.rotation i;
    velocity = join_u32 f.velocity w.velocity i;
    layer_id = join_u32 f.layer_id w.layer_id i;
    brush_id = join_u32 f.brush_id w.brush_id i;
    flags = join_u32 f.flags w.flags i;
    origin = mod-eq_of_lt w.origin i;
    agent_id = join_u32 f.agent_id w.agent_id i;
  },
  rest,
)

-- Byte 56 of the encoding of a frame whose fields have their widths is its origin, and the three
-- bytes behind it are zero.
pub origin-encode_frame :
    (f : StrokeFrame)
    → IsWire f
    → (get_elem? (encode_frame f) 56 ≡ some f.origin)
      × (get_elem? (encode_frame f) 57 ≡ some 0)
      × (get_elem? (encode_frame f) 58 ≡ some 0)
      × (get_elem? (encode_frame f) 59 ≡ some 0)
unfolding encode_frame
origin-encode_frame f w = (λ i. some (mod-eq_of_lt w.origin i), refl, refl, refl)

crc_check : crc32 (b'1' ∷ b'2' ∷ b'3' ∷ b'4' ∷ b'5' ∷ b'6' ∷ b'7' ∷ b'8' ∷ b'9' ∷ []) 0 ≡ 0xCBF43926
unfolding crc32
crc_check = refl
