-- ===== src/Examples/Handshakes.antt =====
-- Handshakes as text.
use mari_paint.Prelude.{◌+◌, ◌-◌, ◌^◌, ◌≡◌, refl, [], ◌∷◌, arith}
use mari_paint.Core.Errors.{Result, ok, map_ok}
use mari_paint.Sigan.Wire.{same_bytes}
use mari_paint.Sigan.Handshake.{codes, Handshake, canvas_xy, layer}
use mari_paint.Sigan.Handshake.Text.{
  is_space, skip_ws, unescaped, string_body, string_at, parse_string, is_end, skip_bare, value_at,
  value_then, colon_then, item_at, items_at, skip, skip_value,
}
use mari_paint.Sigan.Handshake.Fields.{
  is_digit, read_digits, skip_fraction, to_bits, number_from, number_at, parse_number, string_item,
  strings_at, strings, string_array_at, parse_string_array, read_field, settle_field, value_of,
  field_at, fields, object_at, decode_handshake, digits, decimal, signed_decimal, escaped, quoted,
  more_caps, encode_caps, encode_handshake,
}
use mari_paint.Prelude.{◌++◌, some}
use mari_paint.Sigan.Handshake.Fields.Fuel.{fields_fuel}
use mari_paint.Sigan.Handshake.Fields.Unknown.{Unknown, decode_handshake-Unknown}
use mari_paint.Sigan.Handshake.Fields.RoundTrip.{Fits, decode_handshake-encode_handshake}

-- An escaped quote in the name, two capabilities, an anchor before 1970.
abbrev painter : Handshake
painter = record {
  proto = 1;
  app = 109 ∷ 34 ∷ 10 ∷ [];
  caps = canvas_xy ∷ layer ∷ [];
  session_id = 7;
  resume_from_seq = 12;
  wall_anchor_unix_ms = 2 ^ 64 - 5;
}

painter-Fits : Fits painter
painter-Fits = record {
  proto = omega arith;
  session_id = omega arith;
  resume_from_seq = omega arith;
  wall_anchor_unix_ms = omega arith;
}

decode_handshake-encode_handshake_example : decode_handshake (encode_handshake painter) ≡ ok painter
decode_handshake-encode_handshake_example = decode_handshake-encode_handshake painter painter-Fits

-- An unknown field with an object in it is passed over.
unknown_field :
    map_ok (λ h. h.proto) (decode_handshake (codes "{\"new\":{\"a\":[1,\"]\"]},\"proto\":3}"))
    ≡ ok 3
unfolding decode_handshake skip_ws is_space object_at fields field_at parse_string string_at
    string_body unescaped value_of read_field same_bytes settle_field skip_value skip value_at
    items_at item_at colon_then value_then skip_bare is_end parse_number number_at number_from
    read_digits is_digit skip_fraction to_bits
unknown_field = refl

-- A session number of 64 bits is cut to the greatest signed number.
cut_session :
    map_ok
      (λ h. h.session_id)
      (decode_handshake (encode_handshake (record painter { session_id = 2 ^ 63 + 5 })))
    ≡ ok (2 ^ 63 - 1)
unfolding decode_handshake skip_ws is_space object_at fields field_at parse_string string_at
    string_body unescaped value_of read_field same_bytes settle_field parse_number number_at
    number_from read_digits is_digit skip_fraction to_bits parse_string_array string_array_at
    strings strings_at string_item encode_handshake decimal digits signed_decimal quoted escaped
    encode_caps more_caps
cut_session = refl

new_key : Unknown (codes "new")
unfolding same_bytes
new_key = record {
  proto = refl;
  app = refl;
  caps = refl;
  session_id = refl;
  resume_from_seq = refl;
  wall_anchor_unix_ms = refl;
}

decode_handshake-Unknown_example :
    decode_handshake
      (123 ∷ (quoted (codes "new") ++ 58 ∷ (codes "[1,{}]" ++ 44 ∷ codes "\"proto\":3}")))
    ≡ decode_handshake (123 ∷ codes "\"proto\":3}")
unfolding skip_value skip skip_ws is_space value_at items_at item_at colon_then value_then skip_bare
    is_end parse_string string_at string_body
decode_handshake-Unknown_example =
    decode_handshake-Unknown (codes "new") (codes "[1,{}]") (codes "\"proto\":3}") new_key refl

fields_fuel_example :
    (r : Result Handshake) × (fields 20 (codes "\"proto\":3}") painter ≡ some r)
    × (fields 11 (codes "\"proto\":3}") painter ≡ some r)
fields_fuel_example = fields_fuel 20 11 (codes "\"proto\":3}") painter (omega arith) (omega arith)
