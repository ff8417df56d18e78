-- ===== src/Sigan/Handshake/Fields/Unknown.antt =====
-- A field that the program does not know is passed over.
use mari_paint.Prelude.{
  elim_no, ℕ, suc, ◌≡◌, sym, ap, some, ◌∙◌, Bool, true, false, ◌||◌, List, [], ◌∷◌, ◌++◌, arith,
  length, length-append,
}
use mari_paint.Core.Errors.{err, parse_error}
use mari_paint.Sigan.Wire.{same_bytes}
use mari_paint.Sigan.Handshake.{codes, Handshake}
use mari_paint.Sigan.Handshake.Text.{Parsed, parsed, is_space, skip_ws, skip_value}
use mari_paint.Sigan.Handshake.Fields.{
  quoted, read_field, settle_field, value_of, field_at, fields, default_handshake, object_at,
  decode_handshake, settled,
}
use mari_paint.Sigan.Handshake.Fields.Strings.{parse_string-quoted}
use mari_paint.Sigan.Handshake.Fields.Fuel.{fields_fuel}

-- No key of `decodeHandshake`.
pub record Unknown (key : List ℕ) : Type 0 where
  pub proto : same_bytes key (codes "proto") ≡ false
  pub app : same_bytes key (codes "app") ≡ false
  pub caps : (same_bytes key (codes "caps") || same_bytes key (codes "accepts")) ≡ false
  pub session_id : same_bytes key (codes "sessionId") ≡ false
  pub resume_from_seq : same_bytes key (codes "resumeFromSeq") ≡ false
  pub wall_anchor_unix_ms : same_bytes key (codes "wallAnchorUnixMs") ≡ false

read_field-Unknown :
    (key s : List ℕ) (h : Handshake) → Unknown key → read_field key s h ≡ parsed false s h
unfolding read_field
read_field-Unknown key s h u =
    elim_no (same_bytes key (codes "proto")) _ _ u.proto
    ∙ elim_no (same_bytes key (codes "app")) _ _ u.app
    ∙ elim_no (same_bytes key (codes "caps") || same_bytes key (codes "accepts")) _ _ u.caps
    ∙ elim_no (same_bytes key (codes "sessionId")) _ _ u.session_id
    ∙ elim_no (same_bytes key (codes "resumeFromSeq")) _ _ u.resume_from_seq
    ∙ elim_no (same_bytes key (codes "wallAnchorUnixMs")) _ _ u.wall_anchor_unix_ms

-- One round takes the key and the value that skipValue reads.
fields-Unknown :
    (f : ℕ) (key v s : List ℕ) (h : Handshake)
    → Unknown key
    → skip_value (v ++ 44 ∷ s) ≡ (true, 44 ∷ s)
    → fields (suc f) (quoted key ++ 58 ∷ (v ++ 44 ∷ s)) h ≡ fields f (44 ∷ s) h
unfolding fields skip_ws is_space field_at value_of settle_field quoted
fields-Unknown f key v s h u e =
    let rest = v ++ 44 ∷ s in
    ap
      (λ (p : Parsed (List ℕ)). elim p.good [
        | true ↦ value_of (fields f) p.out (skip_ws p.rest) h
        | false ↦ some (err parse_error)
      ])
      (parse_string-quoted [] key (58 ∷ rest))
    ∙ ap (settle_field (fields f)) (read_field-Unknown key rest h u)
    ∙ ap
        (λ (r : Bool × List ℕ). elim r.0 [ true ↦ fields f r.1 h | false ↦ some (err parse_error) ])
        e

-- A first field of a handshake whose key is none of the known ones, with any value that skipValue
-- reads up to the comma behind it, changes nothing of what is decoded.
pub decode_handshake-Unknown :
    (key v s : List ℕ)
    → Unknown key
    → skip_value (v ++ 44 ∷ s) ≡ (true, 44 ∷ s)
    → decode_handshake (123 ∷ (quoted key ++ 58 ∷ (v ++ 44 ∷ s))) ≡ decode_handshake (123 ∷ s)
unfolding decode_handshake skip_ws is_space object_at fields field_at settled
decode_handshake-Unknown key v s u e =
    let t = quoted key ++ 58 ∷ (v ++ 44 ∷ s) in
    let (r, whole, rest) =
      fields_fuel (length t) (suc (suc (length s))) (44 ∷ s) default_handshake
        (omega (arith, length-append (quoted key) (58 ∷ (v ++ 44 ∷ s)), length-append v (44 ∷ s)))
        (omega arith) in
    ap settled (fields-Unknown (length t) key v s default_handshake u e ∙ whole ∙ sym rest)
