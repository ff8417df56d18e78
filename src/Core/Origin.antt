-- ===== src/Core/Origin.antt =====
-- The origin of a stroke (include/mari/core/origin.hpp): the origin codes, the digest of an agent's
-- name, the token that carries an origin, and the counts by origin. An origin is its byte, since a
-- frame read from the wire may hold any byte.
use Prim.Native.Nat.{bit_xor}
use mari_paint.Prelude.{
  ℕ, ◌+◌, ◌*◌, ◌%◌, ◌^◌, Bool, true, ◌&&◌, ◌||◌, List, [], ◌∷◌, ltb, leb, ◌==◌, if◌then◌else◌,
  length, get_or, set,
}
use mari_paint.Core.Errors.{invalid_argument, Result, ok, err}
pub mod Totals

-- The enumerators of `StrokeOrigin`, and `kOriginUnspecified`.
abbrev pub unspecified : ℕ
unspecified = 0

abbrev pub human_pen : ℕ
human_pen = 1

abbrev pub human_mouse : ℕ
human_mouse = 2

abbrev pub agent : ℕ
agent = 3

abbrev pub imported : ℕ
imported = 4

abbrev pub filter : ℕ
filter = 5

-- `kStrokeOriginSlots`
abbrev pub origin_slots : ℕ
origin_slots = 6

unfoldable pub is_known_origin : ℕ → Bool
is_known_origin o = leb human_pen o && leb o filter

unfoldable pub is_human_origin : ℕ → Bool
is_human_origin o = o == human_pen || o == human_mouse

unfoldable pub fnv1a32_from : ℕ → List ℕ → ℕ
fnv1a32_from h [] = h
fnv1a32_from h (c ∷ s) = fnv1a32_from (bit_xor h c * 16777619 % 2 ^ 32) s

unfoldable pub fnv1a32 : List ℕ → ℕ
unfolding fnv1a32_from
fnv1a32 s = fnv1a32_from 2166136261 s

-- `AgentId`: the name's bytes and their digest.
pub record AgentId : Type 0 where
  pub name : List ℕ
  pub digest : ℕ

abbrev pub no_agent : AgentId
no_agent = record { name = []; digest = 0 }

-- `kMaxLen`
abbrev pub max_len : ℕ
max_len = 31

unfoldable pub is_agent_char : ℕ → Bool
is_agent_char c =
    (leb b'a' c && leb c b'z')
    || (leb b'A' c && leb c b'Z')
    || (leb b'0' c && leb c b'9')
    || c == b'.'
    || c == b'_'
    || c == b':'
    || c == b'+'
    || c == b'/'
    || c == b'-'

unfoldable pub all_agent_chars : List ℕ → Bool
unfolding is_agent_char
all_agent_chars [] = true
all_agent_chars (c ∷ s) = is_agent_char c && all_agent_chars s

-- `AgentId::make`
unfoldable pub make_agent_id : List ℕ → Result AgentId
unfolding all_agent_chars fnv1a32
make_agent_id name =
    if length name == 0
    then err invalid_argument
    else if ltb max_len (length name)
    then err invalid_argument
    else if all_agent_chars name
    then ok (record { name = name; digest = fnv1a32 name })
    else err invalid_argument

-- `StrokeSource`: its constructor is private in the source, so a value is made by one of the four
-- factories here, or by the agent gate.
pub record StrokeSource : Type 0 where
  pub origin : ℕ
  pub agent_id : AgentId

-- `StrokeOriginStats`: one count for each slot.
pub record StrokeOriginStats : Type 0 where
  pub counts : List ℕ

abbrev pub no_stats : StrokeOriginStats
no_stats = record { counts = 0 ∷ 0 ∷ 0 ∷ 0 ∷ 0 ∷ 0 ∷ [] }

unfoldable pub slot : ℕ → ℕ
slot o = if ltb o origin_slots then o else 0

-- The counts are `uint64_t`.
unfoldable pub add : StrokeOriginStats → ℕ → ℕ → StrokeOriginStats
unfolding slot
add t o n = record t { counts = set t.counts (slot o) ((get_or t.counts (slot o) 0 + n) % 2 ^ 64) }

unfoldable pub count : StrokeOriginStats → ℕ → ℕ
unfolding slot
count t o = get_or t.counts (slot o) 0

unfoldable pub sum_counts : List ℕ → ℕ
sum_counts [] = 0
sum_counts (c ∷ cs) = c + sum_counts cs

unfoldable pub total : StrokeOriginStats → ℕ
unfolding sum_counts
total t = sum_counts t.counts % 2 ^ 64

unfoldable pub human : StrokeOriginStats → ℕ
unfolding count
human t = (count t human_pen + count t human_mouse) % 2 ^ 64
