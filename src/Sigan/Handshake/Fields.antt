-- ===== src/Sigan/Handshake/Fields.antt =====
-- The fields of a handshake in JSON: encodeHandshake and decodeHandshake (sigan/src/handshake.cpp).
use mari_paint.Prelude.{
  ℕ, zero, suc, ◌+◌, ◌-◌, ◌*◌, ◌/◌, ◌%◌, ◌^◌, min, Bool, true, false, ◌&&◌, ◌||◌, not, List, [],
  ◌∷◌, ◌++◌, ltb, leb, ◌==◌, if◌then◌else◌, length, Option, none, some,
}
use mari_paint.Core.Errors.{ErrorCode, Result, ok, err, parse_error}
use mari_paint.Sigan.Wire.{same_bytes}
use mari_paint.Sigan.Handshake.{codes, proto_version, Handshake}
use mari_paint.Sigan.Handshake.Text.{Parsed, parsed, skip_ws, parse_string, skip_value}
pub mod Numbers
pub mod Strings
pub mod RoundTrip
pub mod Fuel
pub mod Unknown

unfoldable pub is_digit : ℕ → Bool
is_digit c = leb 48 c && leb c 57

-- The digits at the front, as a number behind the one that is read.
unfoldable pub read_digits : ℕ → List ℕ → ℕ × List ℕ
unfolding is_digit
read_digits n [] = (n, [])
read_digits n (c ∷ s) = elim (is_digit c) [
  | true ↦ read_digits (n * 10 + (c - 48)) s
  | false ↦ (n, c ∷ s)
]

-- The rest of a number that is no integer.
unfoldable pub skip_fraction : List ℕ → List ℕ
unfolding is_digit
skip_fraction [] = []
skip_fraction (c ∷ s) = elim (c == 46 || is_digit c || c == 101 || c == 69 || c == 43 || c == 45) [
  | true ↦ skip_fraction s
  | false ↦ c ∷ s
]

-- `strtoll` of a sign and digits, as the bits of 64: too much is cut to the greatest or the least.
unfoldable pub to_bits : Bool → ℕ → ℕ
to_bits negative n = if negative then (2 ^ 64 - min n (2 ^ 63)) % 2 ^ 64 else min n (2 ^ 63 - 1)

unfoldable pub number_from : Bool → Bool → List ℕ → ℕ → Parsed ℕ
unfolding read_digits skip_fraction to_bits
number_from negative sign s old =
    let (n, t) = read_digits 0 s in
    elim (not sign && length t == length s) [
      | true ↦ parsed false s old
      | false ↦ parsed true (skip_fraction t) (to_bits negative n)
    ]

unfoldable pub number_at : ℕ → List ℕ → Parsed ℕ
unfolding number_from
number_at old [] = parsed false [] old
number_at old (c ∷ s) = elim (c == 45 || c == 43) [
  | true ↦ number_from (c == 45) true s old
  | false ↦ number_from false false (c ∷ s) old
]

-- `parseNumber`
unfoldable pub parse_number : ℕ → List ℕ → Parsed ℕ
unfolding skip_ws number_at
parse_number old s = number_at old (skip_ws s)

-- The loop of `parseStringArray` on fuel: what is read goes behind what is there.
unfoldable pub string_item :
    (List ℕ → List (List ℕ) → Parsed (List (List ℕ)))
    → ℕ
    → List ℕ
    → List (List ℕ)
    → Parsed (List (List ℕ))
unfolding parse_string skip_value
string_item again c s acc = elim (c == 34) [
  | true ↦
      let v = parse_string [] (c ∷ s) in
      elim v.good [ true ↦ again v.rest (acc ++ v.out ∷ []) | false ↦ parsed false v.rest acc ]
  | false ↦
      let v = skip_value (c ∷ s) in elim v.0 [ true ↦ again v.1 acc | false ↦ parsed false v.1 acc ]
]

unfoldable pub strings_at :
    (List ℕ → List (List ℕ) → Parsed (List (List ℕ)))
    → List ℕ
    → List (List ℕ)
    → Parsed (List (List ℕ))
unfolding string_item
strings_at again [] acc = parsed false [] acc
strings_at again (c ∷ s) acc = elim (c == 93) [
  | true ↦ parsed true s acc
  | false ↦ elim (c == 44) [ true ↦ again s acc | false ↦ string_item again c s acc ]
]

unfoldable pub strings : ℕ → List ℕ → List (List ℕ) → Parsed (List (List ℕ))
unfolding skip_ws strings_at
strings zero s acc = parsed false s acc
strings (suc fuel) s acc = strings_at (strings fuel) (skip_ws s) acc

unfoldable pub string_array_at : List (List ℕ) → List ℕ → Parsed (List (List ℕ))
unfolding strings
string_array_at acc [] = parsed false [] acc
string_array_at acc (c ∷ s) = elim (c == 91) [
  | true ↦ strings (suc (length s)) s acc
  | false ↦ parsed false (c ∷ s) acc
]

-- `parseStringArray`
unfoldable pub parse_string_array : List (List ℕ) → List ℕ → Parsed (List (List ℕ))
unfolding skip_ws string_array_at
parse_string_array acc s = string_array_at acc (skip_ws s)

-- What a field makes of the handshake.
abbrev pub with_out {ℓ} : {A : Type ℓ} → (A → Handshake) → Parsed A → Parsed Handshake
with_out f p = parsed p.good p.rest (f p.out)

abbrev as_u32 : ℕ → ℕ
as_u32 v = if leb (2 ^ 63) v then 0 else v % 2 ^ 32

-- A number that is not read leaves its field.
abbrev pub number_field : (ℕ → Handshake) → Handshake → Parsed ℕ → Parsed Handshake
number_field f h p = parsed p.good p.rest (if p.good then f p.out else h)

-- The value of a key: consumed or not, and the handshake then.
unfoldable pub read_field : List ℕ → List ℕ → Handshake → Parsed Handshake
unfolding same_bytes parse_number parse_string parse_string_array
read_field key s h = elim (same_bytes key (codes "proto")) [
  | true ↦ number_field (λ v. record h { proto = as_u32 v }) h (parse_number 0 s)
  | false ↦ elim (same_bytes key (codes "app")) [
    | true ↦ with_out (λ v. record h { app = v }) (parse_string h.app s)
    | false ↦ elim (same_bytes key (codes "caps") || same_bytes key (codes "accepts")) [
      | true ↦ with_out (λ v. record h { caps = v }) (parse_string_array h.caps s)
      | false ↦ elim (same_bytes key (codes "sessionId")) [
        | true ↦ number_field (λ v. record h { session_id = v }) h (parse_number 0 s)
        | false ↦ elim (same_bytes key (codes "resumeFromSeq")) [
          | true ↦ number_field (λ v. record h { resume_from_seq = v }) h (parse_number 0 s)
          | false ↦ elim (same_bytes key (codes "wallAnchorUnixMs")) [
            | true ↦ number_field (λ v. record h { wall_anchor_unix_ms = v }) h (parse_number 0 s)
            | false ↦ parsed false s h
          ]
        ]
      ]
    ]
  ]
]

-- A value that no field consumed is skipped.
unfoldable pub settle_field :
    (List ℕ → Handshake → Option (Result Handshake)) → Parsed Handshake → Option (Result Handshake)
unfolding skip_value
settle_field again p = elim p.good [
  | true ↦ again p.rest p.out
  | false ↦
      let v = skip_value p.rest in
      elim v.0 [ true ↦ again v.1 p.out | false ↦ some (err parse_error) ]
]

unfoldable pub value_of :
    (List ℕ → Handshake → Option (Result Handshake))
    → List ℕ
    → List ℕ
    → Handshake
    → Option (Result Handshake)
unfolding read_field settle_field
value_of again key [] h = some (err parse_error)
value_of again key (c ∷ s) h = elim (c == 58) [
  | true ↦ settle_field again (read_field key s h)
  | false ↦ some (err parse_error)
]

unfoldable pub field_at :
    (List ℕ → Handshake → Option (Result Handshake))
    → List ℕ
    → Handshake
    → Option (Result Handshake)
unfolding parse_string skip_ws value_of
field_at again [] h = some (err parse_error)
field_at again (c ∷ s) h = elim (c == 125) [
  | true ↦ some (ok h)
  | false ↦ elim (c == 44) [
    | true ↦ again s h
    | false ↦
        let key = parse_string [] (c ∷ s) in
        elim key.good [
          | true ↦ value_of again key.out (skip_ws key.rest) h
          | false ↦ some (err parse_error)
        ]
  ]
]

-- The loop of `decodeHandshake`, on fuel: no result when it runs out.
unfoldable pub fields : ℕ → List ℕ → Handshake → Option (Result Handshake)
unfolding skip_ws field_at
fields zero s h = none
fields (suc fuel) s h = field_at (fields fuel) (skip_ws s) h

abbrev pub default_handshake : Handshake
default_handshake = record {
  proto = proto_version;
  app = [];
  caps = [];
  session_id = 0;
  resume_from_seq = 0;
  wall_anchor_unix_ms = 0;
}

-- The result of the loop, which has one: each round takes a byte.
unfoldable pub settled : Option (Result Handshake) → Result Handshake
settled (some r) = r
settled none = err parse_error

unfoldable pub object_at : List ℕ → Result Handshake
unfolding fields settled
object_at [] = err parse_error
object_at (c ∷ s) = elim (c == 123) [
  | true ↦ settled (fields (suc (length s)) s default_handshake)
  | false ↦ err parse_error
]

unfoldable pub decode_handshake : List ℕ → Result Handshake
unfolding skip_ws object_at
decode_handshake s = object_at (skip_ws s)

-- `std::to_string`: 20 digits are enough for 64 bits.
unfoldable pub digits : ℕ → ℕ → List ℕ
digits zero n = []
digits (suc fuel) n =
    let front = digits fuel (n / 10) in
    if ltb n 10 then (48 + n) ∷ [] else front ++ (48 + n % 10) ∷ []

unfoldable pub decimal : ℕ → List ℕ
unfolding digits
decimal n = digits 20 n

-- `std::to_string` of an i64.
unfoldable pub signed_decimal : ℕ → List ℕ
unfolding decimal
signed_decimal n = if ltb n (2 ^ 63) then decimal n else 45 ∷ decimal (2 ^ 64 - n)

-- `appendEscaped`
unfoldable pub escaped : List ℕ → List ℕ
escaped [] = []
escaped (c ∷ s) =
    let rest = escaped s in
    if c == 34 || c == 92 then 92 ∷ c ∷ rest else if c == 10 then 92 ∷ 110 ∷ rest else c ∷ rest

unfoldable pub quoted : List ℕ → List ℕ
unfolding escaped
quoted s = 34 ∷ (escaped s ++ 34 ∷ [])

-- The capabilities behind the first have a comma before them.
unfoldable pub more_caps : List (List ℕ) → List ℕ
unfolding quoted
more_caps [] = []
more_caps (c ∷ cs) = 44 ∷ (quoted c ++ more_caps cs)

unfoldable pub encode_caps : List (List ℕ) → List ℕ
unfolding quoted more_caps
encode_caps [] = []
encode_caps (c ∷ cs) = quoted c ++ more_caps cs

unfoldable pub encode_handshake : Handshake → List ℕ
unfolding decimal quoted encode_caps signed_decimal
encode_handshake h =
    codes "{\"proto\":"
    ++ (decimal h.proto
        ++ (codes ",\"app\":"
            ++ (quoted h.app
                ++ (codes ",\"caps\":["
                    ++ (encode_caps h.caps
                        ++ (codes "],\"sessionId\":"
                            ++ (decimal h.session_id
                                ++ (codes ",\"resumeFromSeq\":"
                                    ++ (decimal h.resume_from_seq
                                        ++ (codes ",\"wallAnchorUnixMs\":"
                                            ++ (signed_decimal h.wall_anchor_unix_ms
                                                ++ codes "}\n")))))))))))
