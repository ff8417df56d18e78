-- ===== src/Sigan/Handshake/Fields/Strings.antt =====
-- A string that is written with its escapes is read back, and so is an array of strings.
use mari_paint.Prelude.{
  ℕ, zero, suc, ◌*◌, ◌≤◌, ◌<◌, ◌≡◌, refl, sym, ap, ◌∙◌, subst, true, false, ◌||◌, List, [], ◌∷◌,
  ◌++◌, arith, ◌==◌, eq_of, if◌then◌else◌, length, length-append, append_assoc, append-nil,
  Bool-cases, inl, inr, if_yes, if_no,
}
use mari_paint.Sigan.Handshake.Text.{
  Parsed, parsed, is_space, skip_ws, unescaped, string_body, string_at, parse_string,
}
use mari_paint.Sigan.Handshake.Fields.{
  escaped, quoted, more_caps, encode_caps, strings, strings_at, string_item, string_array_at,
  parse_string_array,
}

-- The byte as it is written.
abbrev written : ℕ → List ℕ
written c = if c == 34 || c == 92 then 92 ∷ c ∷ [] else if c == 10 then 92 ∷ 110 ∷ [] else c ∷ []

escaped-cons : (c : ℕ) (s : List ℕ) → escaped (c ∷ s) ≡ written c ++ escaped s
unfolding escaped
escaped-cons c s = elim (Bool-cases (c == 34 || c == 92)) [
  | inl e ↦
      if_yes {b = c == 34 || c == 92} _ _ e
      ∙ ap (λ x. x ++ escaped s)
          (sym (
            if_yes {b = c == 34 || c == 92} (92 ∷ c ∷ [])
              (if c == 10 then 92 ∷ 110 ∷ [] else c ∷ []) e))
  | inr e ↦
      if_no {b = c == 34 || c == 92} (92 ∷ c ∷ escaped s) _ e
      ∙ one
      ∙ ap (λ x. x ++ escaped s)
          (sym (
            if_no {b = c == 34 || c == 92} (92 ∷ c ∷ []) (if c == 10 then 92 ∷ 110 ∷ [] else c ∷ [])
              e))
]
  where
    one :
        (if c == 10 then 92 ∷ 110 ∷ escaped s else c ∷ escaped s)
        ≡ (if c == 10 then 92 ∷ 110 ∷ [] else c ∷ []) ++ escaped s
    one = elim (Bool-cases (c == 10)) [
      | inl e ↦
          if_yes {b = c == 10} _ _ e
          ∙ ap (λ x. x ++ escaped s) (sym (if_yes {b = c == 10} (92 ∷ 110 ∷ []) (c ∷ []) e))
      | inr e ↦
          if_no {b = c == 10} (92 ∷ 110 ∷ escaped s) _ e
          ∙ ap (λ x. x ++ escaped s) (sym (if_no {b = c == 10} (92 ∷ 110 ∷ []) (c ∷ []) e))
    ]

-- The loop reads a written byte as the byte.
string_body-written :
    (c : ℕ) (acc t : List ℕ)
    → string_body false acc (written c ++ t) ≡ string_body false (acc ++ c ∷ []) t
unfolding string_body unescaped
string_body-written c acc t = elim (Bool-cases (c == 34)) [
  | inl e ↦ subst at_byte (sym (eq_of c 34 e)) refl
  | inr e ↦ elim (Bool-cases (c == 92)) [
    | inl k ↦ subst at_byte (sym (eq_of c 92 k)) refl
    | inr k ↦ elim (Bool-cases (c == 10)) [
      | inl n ↦ subst at_byte (sym (eq_of c 10 n)) refl
      | inr n ↦ plain e k n
    ]
  ]
]
  where
    at_byte : ℕ → Type 0
    at_byte z = string_body false acc (written z ++ t) ≡ string_body false (acc ++ z ∷ []) t

    plain :
        (c == 34) ≡ false
        → (c == 92) ≡ false
        → (c == 10) ≡ false
        → string_body false acc (written c ++ t) ≡ string_body false (acc ++ c ∷ []) t
    plain e k n =
        ap (λ x. string_body false acc (x ++ t))
          (if_no {b = c == 34 || c == 92} (92 ∷ c ∷ []) _ (ap (λ b. b || (c == 92)) e ∙ k)
            ∙ if_no {b = c == 10} (92 ∷ 110 ∷ []) (c ∷ []) n)
        ∙ ap
            (λ b. elim b [
              | true ↦ parsed true t acc
              | false ↦ elim (c == 92) [
                | true ↦ string_body true acc t
                | false ↦ string_body false (acc ++ c ∷ []) t
              ]
            ])
            e
        ∙ ap
            (λ b. elim b [
              | true ↦ string_body true acc t
              | false ↦ string_body false (acc ++ c ∷ []) t
            ])
            k

string_body-escaped :
    (s acc t : List ℕ) → string_body false acc (escaped s ++ 34 ∷ t) ≡ parsed true t (acc ++ s)
unfolding string_body escaped
string_body-escaped [] acc t = ap (parsed true t) (sym (append-nil acc))
string_body-escaped (c ∷ s) acc t =
    ap (λ x. string_body false acc (x ++ 34 ∷ t)) (escaped-cons c s)
    ∙ ap (string_body false acc) (append_assoc (written c) (escaped s) (34 ∷ t))
    ∙ string_body-written c acc (escaped s ++ 34 ∷ t)
    ∙ string_body-escaped s (acc ++ c ∷ []) t
    ∙ ap (parsed true t) (append_assoc acc (c ∷ []) s)

pub parse_string-quoted : (old s t : List ℕ) → parse_string old (quoted s ++ t) ≡ parsed true t s
unfolding parse_string skip_ws is_space string_at quoted
parse_string-quoted old s t =
    ap (string_body false []) (append_assoc (escaped s) (34 ∷ []) t) ∙ string_body-escaped s [] t

-- An array, behind its opening bracket. Each string takes two rounds, one of them for its comma.
strings-quoted :
    (f : ℕ) (c t : List ℕ) (acc : List (List ℕ))
    → strings (suc f) (quoted c ++ t) acc ≡ strings f t (acc ++ c ∷ [])
unfolding strings skip_ws is_space strings_at string_item quoted
strings-quoted f c t acc =
    ap
      (λ (v : Parsed (List ℕ)). elim v.good [
        | true ↦ strings f v.rest (acc ++ v.out ∷ [])
        | false ↦ parsed false v.rest acc
      ])
      (parse_string-quoted [] c t)

strings-more_caps :
    (cs : List (List ℕ)) (f : ℕ) (t : List ℕ) (acc : List (List ℕ))
    → 2 * length cs < f
    → strings f (more_caps cs ++ 93 ∷ t) acc ≡ parsed true t (acc ++ cs)
unfolding more_caps strings skip_ws is_space strings_at
strings-more_caps cs zero t acc h = absurd (omega (arith, h))
strings-more_caps [] (suc f) t acc h = ap (parsed true t) (sym (append-nil acc))
strings-more_caps (c ∷ cs) (suc zero) t acc h = absurd (omega (arith, h))
strings-more_caps (c ∷ cs) (suc (suc f)) t acc h =
    ap (λ x. strings (suc f) x acc) (append_assoc (quoted c) (more_caps cs) (93 ∷ t))
    ∙ strings-quoted f c (more_caps cs ++ 93 ∷ t) acc
    ∙ strings-more_caps cs f t (acc ++ c ∷ []) (omega (arith, h))
    ∙ ap (parsed true t) (append_assoc acc (c ∷ []) cs)

length-more_caps : (cs : List (List ℕ)) → 2 * length cs ≤ length (more_caps cs)
unfolding more_caps quoted
length-more_caps [] = omega arith
length-more_caps (c ∷ cs) =
    omega (arith, length-more_caps cs, length-append (quoted c) (more_caps cs))

pub parse_string_array-encode_caps :
    (cs : List (List ℕ)) (t : List ℕ)
    → parse_string_array [] (91 ∷ (encode_caps cs ++ 93 ∷ t)) ≡ parsed true t cs
unfolding parse_string_array skip_ws is_space string_array_at encode_caps
parse_string_array-encode_caps [] t = refl
parse_string_array-encode_caps (c ∷ cs) t =
    let back = more_caps cs ++ 93 ∷ t in
    let text = (quoted c ++ more_caps cs) ++ 93 ∷ t in
    ap (λ x. strings (suc (length text)) x []) (append_assoc (quoted c) (more_caps cs) (93 ∷ t))
    ∙ strings-quoted (length text) c back []
    ∙ strings-more_caps cs (length text) t (c ∷ []) (
        omega (
          arith,
          length-more_caps cs,
          length-append (quoted c ++ more_caps cs) (93 ∷ t),
          length-append (quoted c) (more_caps cs),
        ))
