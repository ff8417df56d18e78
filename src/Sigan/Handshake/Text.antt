-- ===== src/Sigan/Handshake/Text.antt =====
-- The JSON text of a handshake (sigan/src/handshake.cpp). An index into
-- the text is the list of the bytes from it on. A reader answers whether it read, what is left, and
-- what it wrote, also where it fails. An i64 is its bits.
use mari_paint.Prelude.{
  ℕ, zero, suc, ◌+◌, ◌*◌, Bool, true, false, ◌||◌, not, List, [], ◌∷◌, ◌++◌, ◌==◌, if◌then◌else◌,
  length,
}
pub mod Shrinks
pub mod Fuel

pub record Parsed {ℓ} (A : Type ℓ) : Type ℓ where
  pub good : Bool
  pub rest : List ℕ
  pub out : A

abbrev pub parsed {ℓ} : {A : Type ℓ} → Bool → List ℕ → A → Parsed A
parsed b s a = record { good = b; rest = s; out = a }

unfoldable pub is_space : ℕ → Bool
is_space c = c == 32 || c == 9 || c == 10 || c == 13

unfoldable pub skip_ws : List ℕ → List ℕ
unfolding is_space
skip_ws [] = []
skip_ws (c ∷ s) = elim (is_space c) [ true ↦ skip_ws s | false ↦ c ∷ s ]

-- `parseString`: the byte that an escape stands for, the loop (behind a backslash or not), the whole.
unfoldable pub unescaped : ℕ → ℕ
unescaped c = if c == 110 then 10 else if c == 116 then 9 else if c == 114 then 13 else c

unfoldable pub string_body : Bool → List ℕ → List ℕ → Parsed (List ℕ)
unfolding unescaped
string_body true acc [] = parsed false [] (acc ++ 92 ∷ [])
string_body false acc [] = parsed false [] acc
string_body true acc (c ∷ s) = string_body false (acc ++ unescaped c ∷ []) s
string_body false acc (c ∷ s) = elim (c == 34) [
  | true ↦ parsed true s acc
  | false ↦ elim (c == 92) [
    | true ↦ string_body true acc s
    | false ↦ string_body false (acc ++ c ∷ []) s
  ]
]

unfoldable pub string_at : List ℕ → List ℕ → Parsed (List ℕ)
unfolding string_body
string_at old [] = parsed false [] old
string_at old (c ∷ s) = elim (c == 34) [
  | true ↦ string_body false [] s
  | false ↦ parsed false (c ∷ s) old
]

-- `out` is what the output was before.
unfoldable pub parse_string : List ℕ → List ℕ → Parsed (List ℕ)
unfolding skip_ws string_at
parse_string old s = string_at old (skip_ws s)

-- `skipValue`, and the loop of `skipContainer` in an object or an array.
pub data Skip : Type 0 where
  value : Skip
  items : Bool → Skip

-- A value that is no string, object or array ends before one of these.
unfoldable pub is_end : ℕ → Bool
unfolding is_space
is_end c = c == 44 || c == 125 || c == 93 || is_space c

unfoldable pub skip_bare : List ℕ → List ℕ
unfolding is_end
skip_bare [] = []
skip_bare (c ∷ s) = elim (is_end c) [ true ↦ c ∷ s | false ↦ skip_bare s ]

unfoldable pub value_at : (Skip → List ℕ → Bool × List ℕ) → List ℕ → Bool × List ℕ
unfolding parse_string is_end skip_bare
value_at again [] = (false, [])
value_at again (c ∷ s) = elim (c == 34) [
  | true ↦ let p = parse_string [] (c ∷ s) in (p.good, p.rest)
  | false ↦ elim (c == 123 || c == 91) [
    | true ↦ again (items (c == 123)) s
    | false ↦ (not (is_end c), skip_bare (c ∷ s))
  ]
]

-- A value, and then the loop again.
unfoldable pub value_then : (Skip → List ℕ → Bool × List ℕ) → Skip → List ℕ → Bool × List ℕ
value_then again m s =
    let v = again value s in elim v.0 [ true ↦ again m v.1 | false ↦ (false, v.1) ]

-- The colon behind a key.
unfoldable pub colon_then : (Skip → List ℕ → Bool × List ℕ) → List ℕ → Bool × List ℕ
unfolding value_then
colon_then again [] = (false, [])
colon_then again (c ∷ s) = elim (c == 58) [
  | true ↦ value_then again (items true) s
  | false ↦ (false, c ∷ s)
]

unfoldable pub item_at : (Skip → List ℕ → Bool × List ℕ) → Bool → List ℕ → Bool × List ℕ
unfolding parse_string skip_ws colon_then value_then
item_at again false s = value_then again (items false) s
item_at again true s =
    let key = parse_string [] s in
    elim key.good [ true ↦ colon_then again (skip_ws key.rest) | false ↦ (false, key.rest) ]

unfoldable pub items_at : (Skip → List ℕ → Bool × List ℕ) → Bool → List ℕ → Bool × List ℕ
unfolding item_at
items_at again object [] = (false, [])
items_at again object (c ∷ s) = elim (c == (if object then 125 else 93)) [
  | true ↦ (true, s)
  | false ↦ elim (c == 44) [ true ↦ again (items object) s | false ↦ item_at again object (c ∷ s) ]
]

-- Each call takes a byte or stands behind one that took it, so twice the bytes are enough fuel.
unfoldable pub skip : ℕ → Skip → List ℕ → Bool × List ℕ
unfolding skip_ws value_at items_at
skip zero m s = (false, s)
skip (suc fuel) value s = value_at (skip fuel) (skip_ws s)
skip (suc fuel) (items object) s = items_at (skip fuel) object (skip_ws s)

unfoldable pub skip_value : List ℕ → Bool × List ℕ
unfolding skip
skip_value s = skip (2 * length s + 2) value s
