-- ===== src/Sigan/Handshake.antt =====
-- The negotiation of a connection (include/mari/sigan/handshake.hpp, sigan/src/handshake.cpp): what
-- one side says of itself and what both sides agree on. A string is the list of its bytes.
-- Text and Fields have the JSON text of a handshake.
pub mod Laws
pub mod Text
pub mod Fields
use Prim.Native.Char.{code}
use Prim.Native.String.{String}
use mari_paint.Prelude.{ℕ, min, Bool, true, false, not, List, [], ◌∷◌, ◌==◌, if◌then◌else◌}
use mari_paint.Sigan.Wire.{same_bytes}

-- The bytes of an ASCII literal.
abbrev pub codes : String → List ℕ
codes String.[] = []
codes (String.◌∷◌ c s) = code c ∷ codes s

-- namespace `caps`
abbrev pub canvas_xy : List ℕ
canvas_xy = codes "canvas-xy"

abbrev pub layer : List ℕ
layer = codes "layer"

abbrev pub brush : List ℕ
brush = codes "brush"

abbrev pub view : List ℕ
view = codes "view"

abbrev pub resume : List ℕ
resume = codes "resume"

-- `kProtoVersion`
abbrev pub proto_version : ℕ
proto_version = 1

pub record Handshake : Type 0 where
  pub proto : ℕ
  pub app : List ℕ
  pub caps : List (List ℕ)
  pub session_id : ℕ
  pub resume_from_seq : ℕ
  pub wall_anchor_unix_ms : ℕ

pub record Negotiated : Type 0 where
  pub proto : ℕ
  pub caps : List (List ℕ)
  pub proto_downgraded : Bool
  pub dropped : List (List ℕ)

-- `std::find` over the capabilities, for both `hasCap`s and for `negotiate`.
unfoldable pub has_cap : List (List ℕ) → List ℕ → Bool
unfolding same_bytes
has_cap [] c = false
has_cap (d ∷ caps) c = if same_bytes d c then true else has_cap caps c

-- The loop of `negotiate` over our own capabilities.
unfoldable pub shared_caps : List (List ℕ) → List (List ℕ) → List (List ℕ)
shared_caps remote [] = []
shared_caps remote (c ∷ caps) =
    let rest = shared_caps remote caps in if has_cap remote c then c ∷ rest else rest

unfoldable pub dropped_caps : List (List ℕ) → List (List ℕ) → List (List ℕ)
dropped_caps remote [] = []
dropped_caps remote (c ∷ caps) =
    let rest = dropped_caps remote caps in if has_cap remote c then rest else c ∷ rest

unfoldable pub negotiate : Handshake → Handshake → Negotiated
unfolding shared_caps dropped_caps
negotiate l r = record {
  proto = min l.proto r.proto;
  caps = shared_caps r.caps l.caps;
  proto_downgraded = not (l.proto == r.proto);
  dropped = dropped_caps r.caps l.caps;
}
