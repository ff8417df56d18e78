-- ===== src/Sigan/Handshake/Fields/RoundTrip.antt =====
-- A handshake that is encoded is decoded to itself.
use mari_paint.Prelude.{
  ℕ, suc, some, ◌-◌, ◌^◌, ◌<◌, ◌≡◌, refl, ap, ◌∙◌, false, List, [], ◌∷◌, ◌++◌, arith, length,
  length-append,
}
use mari_paint.Core.Errors.{ok}
use mari_paint.Sigan.Wire.{same_bytes}
use mari_paint.Sigan.Handshake.{codes, Handshake}
use mari_paint.Sigan.Handshake.Text.{is_space, skip_ws, string_body, string_at, parse_string}
use mari_paint.Sigan.Handshake.Fields.{
  to_bits, decimal, signed_decimal, quoted, encode_caps, encode_handshake, parse_string_array,
  as_u32, with_out, number_field, read_field, settle_field, value_of, field_at, fields,
  default_handshake, object_at, decode_handshake, settled,
}
use mari_paint.Sigan.Handshake.Fields.Numbers.{
  comma-Stops, brace-Stops, parse_number-decimal, parse_number-signed_decimal,
}
use mari_paint.Sigan.Handshake.Fields.Strings.{parse_string-quoted, parse_string_array-encode_caps}

-- The values that the text can carry: a number is read as a signed one.
pub record Fits (h : Handshake) : Type 0 where
  pub proto : h.proto < 2 ^ 32
  pub session_id : h.session_id < 2 ^ 63
  pub resume_from_seq : h.resume_from_seq < 2 ^ 63
  pub wall_anchor_unix_ms : h.wall_anchor_unix_ms < 2 ^ 64

positive : (n : ℕ) → n < 2 ^ 63 → to_bits false n ≡ n
unfolding to_bits
positive n h = omega (arith, h)

fields-proto :
    (f n : ℕ) (t : List ℕ) (h : Handshake)
    → n < 2 ^ 32
    → fields (suc f) (codes "\"proto\":" ++ (decimal n ++ 44 ∷ t)) h
      ≡ fields f (44 ∷ t) (record h { proto = n })
unfolding fields skip_ws is_space field_at parse_string string_at string_body value_of read_field
    same_bytes settle_field to_bits
fields-proto f n t h b =
    ap (λ p. settle_field (fields f) (number_field (λ v. record h { proto = as_u32 v }) h p))
      (parse_number-decimal n 0 (44 ∷ t) (omega (arith, b)) (comma-Stops t))
    ∙ ap (λ v. fields f (44 ∷ t) (record h { proto = v })) (ground (arith, b))

fields-app :
    (f : ℕ) (s t : List ℕ) (h : Handshake)
    → fields (suc f) (codes "\"app\":" ++ (quoted s ++ t)) h ≡ fields f t (record h { app = s })
unfolding fields skip_ws is_space field_at parse_string string_at string_body value_of read_field
    same_bytes settle_field
fields-app f s t h =
    ap (λ p. settle_field (fields f) (with_out (λ v. record h { app = v }) p))
      (parse_string-quoted h.app s t)

fields-caps :
    (f : ℕ) (cs : List (List ℕ)) (t : List ℕ) (h : Handshake)
    → h.caps ≡ []
    → fields (suc f) (codes "\"caps\":[" ++ (encode_caps cs ++ 93 ∷ t)) h
      ≡ fields f t (record h { caps = cs })
unfolding fields skip_ws is_space field_at parse_string string_at string_body value_of read_field
    same_bytes settle_field
fields-caps f cs t h e =
    ap
      (λ a. settle_field (fields f) (
        with_out (λ v. record h { caps = v })
          (parse_string_array a (91 ∷ (encode_caps cs ++ 93 ∷ t)))))
      e
    ∙ ap (λ p. settle_field (fields f) (with_out (λ v. record h { caps = v }) p))
        (parse_string_array-encode_caps cs t)

fields-session_id :
    (f n : ℕ) (t : List ℕ) (h : Handshake)
    → n < 2 ^ 63
    → fields (suc f) (codes "\"sessionId\":" ++ (decimal n ++ 44 ∷ t)) h
      ≡ fields f (44 ∷ t) (record h { session_id = n })
unfolding fields skip_ws is_space field_at parse_string string_at string_body value_of read_field
    same_bytes settle_field
fields-session_id f n t h b =
    ap (λ p. settle_field (fields f) (number_field (λ v. record h { session_id = v }) h p))
      (parse_number-decimal n 0 (44 ∷ t) (omega (arith, b)) (comma-Stops t))
    ∙ ap (λ v. fields f (44 ∷ t) (record h { session_id = v })) (positive n b)

fields-resume_from_seq :
    (f n : ℕ) (t : List ℕ) (h : Handshake)
    → n < 2 ^ 63
    → fields (suc f) (codes "\"resumeFromSeq\":" ++ (decimal n ++ 44 ∷ t)) h
      ≡ fields f (44 ∷ t) (record h { resume_from_seq = n })
unfolding fields skip_ws is_space field_at parse_string string_at string_body value_of read_field
    same_bytes settle_field
fields-resume_from_seq f n t h b =
    ap (λ p. settle_field (fields f) (number_field (λ v. record h { resume_from_seq = v }) h p))
      (parse_number-decimal n 0 (44 ∷ t) (omega (arith, b)) (comma-Stops t))
    ∙ ap (λ v. fields f (44 ∷ t) (record h { resume_from_seq = v })) (positive n b)

fields-wall_anchor_unix_ms :
    (f n : ℕ) (t : List ℕ) (h : Handshake)
    → n < 2 ^ 64
    → fields (suc f) (codes "\"wallAnchorUnixMs\":" ++ (signed_decimal n ++ 125 ∷ t)) h
      ≡ fields f (125 ∷ t) (record h { wall_anchor_unix_ms = n })
unfolding fields skip_ws is_space field_at parse_string string_at string_body value_of read_field
    same_bytes settle_field
fields-wall_anchor_unix_ms f n t h b =
    ap (λ p. settle_field (fields f) (number_field (λ v. record h { wall_anchor_unix_ms = v }) h p))
      (parse_number-signed_decimal n 0 (125 ∷ t) b (brace-Stops t))

-- A comma takes a round, and the closing brace ends the loop.
fields-comma : (f : ℕ) (t : List ℕ) (h : Handshake) → fields (suc f) (44 ∷ t) h ≡ fields f t h
unfolding fields skip_ws is_space field_at
fields-comma f t h = refl

fields-brace : (f : ℕ) (t : List ℕ) (h : Handshake) → fields (suc f) (125 ∷ t) h ≡ some (ok h)
unfolding fields skip_ws is_space field_at
fields-brace f t h = refl

-- The text from each key on.
abbrev from_wall : Handshake → List ℕ
from_wall h =
    codes "\"wallAnchorUnixMs\":" ++ (signed_decimal h.wall_anchor_unix_ms ++ 125 ∷ 10 ∷ [])

abbrev from_resume : Handshake → List ℕ
from_resume h = codes "\"resumeFromSeq\":" ++ (decimal h.resume_from_seq ++ 44 ∷ from_wall h)

abbrev from_session : Handshake → List ℕ
from_session h = codes "\"sessionId\":" ++ (decimal h.session_id ++ 44 ∷ from_resume h)

abbrev from_caps : Handshake → List ℕ
from_caps h = codes "\"caps\":[" ++ (encode_caps h.caps ++ 93 ∷ 44 ∷ from_session h)

abbrev from_app : Handshake → List ℕ
from_app h = codes "\"app\":" ++ (quoted h.app ++ 44 ∷ from_caps h)

abbrev from_proto : Handshake → List ℕ
from_proto h = codes "\"proto\":" ++ (decimal h.proto ++ 44 ∷ from_app h)

encode_handshake_lem : (h : Handshake) → encode_handshake h ≡ 123 ∷ from_proto h
unfolding encode_handshake
encode_handshake_lem h = refl

-- The last three keys take six rounds with the brace, the first three another six.
fields-numbers :
    (h k : Handshake) (f : ℕ)
    → Fits h
    → fields (suc (suc (suc (suc (suc (suc f)))))) (from_session h) k
      ≡ some (
          ok (record k {
            session_id = h.session_id;
            resume_from_seq = h.resume_from_seq;
            wall_anchor_unix_ms = h.wall_anchor_unix_ms;
          }))
fields-numbers h k f w =
    fields-session_id (suc (suc (suc (suc (suc f))))) h.session_id (from_resume h) k w.session_id
    ∙ fields-comma (suc (suc (suc (suc f)))) (from_resume h) _
    ∙ fields-resume_from_seq (suc (suc (suc f))) h.resume_from_seq (from_wall h) _ w.resume_from_seq
    ∙ fields-comma (suc (suc f)) (from_wall h) _
    ∙ fields-wall_anchor_unix_ms (suc f) h.wall_anchor_unix_ms (10 ∷ []) _ w.wall_anchor_unix_ms
    ∙ fields-brace f (10 ∷ []) _

fields-encoded :
    (h : Handshake) (f : ℕ)
    → Fits h
    → fields
        (suc (suc (suc (suc (suc (suc (suc (suc (suc (suc (suc (suc f))))))))))))
        (from_proto h)
        default_handshake
      ≡ some (ok h)
fields-encoded h f w =
    let g = suc (suc (suc (suc (suc (suc f))))) in
    fields-proto (suc (suc (suc (suc (suc g))))) h.proto (from_app h) default_handshake w.proto
    ∙ fields-comma (suc (suc (suc (suc g)))) (from_app h) _
    ∙ fields-app (suc (suc (suc g))) h.app (44 ∷ from_caps h) _
    ∙ fields-comma (suc (suc g)) (from_caps h) _
    ∙ fields-caps (suc g) h.caps (44 ∷ from_session h) _ refl
    ∙ fields-comma g (from_session h) _
    ∙ fields-numbers h _ f w

-- Decoding the encoding of a handshake gives the handshake, whatever the bytes of its strings,
-- when its protocol has 32 bits, its session and sequence number are below 2^63 and its anchor has
-- 64 bits.
pub decode_handshake-encode_handshake :
    (h : Handshake) → Fits h → decode_handshake (encode_handshake h) ≡ ok h
unfolding decode_handshake skip_ws is_space object_at settled
decode_handshake-encode_handshake h w =
    ap decode_handshake (encode_handshake_lem h)
    ∙ ap (λ f. settled (fields f (from_proto h) default_handshake)) enough
    ∙ ap settled (fields-encoded h (suc (length (from_proto h)) - 12) w)
  where
    enough :
        suc (length (from_proto h))
        ≡ suc (
            suc (
              suc (
                suc (
                  suc
                    (suc (suc (suc (suc (suc (suc (suc (suc (length (from_proto h)) - 12))))))))))))
    enough = omega (arith, length-append (decimal h.proto) (44 ∷ from_app h))
