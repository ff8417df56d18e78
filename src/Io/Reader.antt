-- ===== src/Io/Reader.antt =====
-- The reader of brush files (include/mari/io/brush/byte_reader.hpp, io/brush/src/byte_reader.cpp): bytes
-- from the front of a buffer, the greater first. A float is its bits.
use mari_paint.Prelude.{
  ℕ, zero, suc, ◌+◌, ◌-◌, ◌*◌, ◌/◌, ◌%◌, ◌^◌, Bool, true, false, ◌&&◌, ◌||◌, not, List, [], ◌∷◌,
  ◌++◌, ltb, leb, ◌==◌, if◌then◌else◌, length, take, drop, get_or,
}
pub mod Sticky

-- `ByteReader`
pub record ByteReader : Type 0 where
  pub data' : List ℕ
  pub pos : ℕ
  pub failed : Bool

abbrev pub open_reader : List ℕ → ByteReader
open_reader d = record { data' = d; pos = 0; failed = false }

unfoldable pub has_bytes : ByteReader → ℕ → Bool
has_bytes r n = not r.failed && leb n (length r.data' - r.pos)

abbrev pub fail : ByteReader → ByteReader
fail r = record r { failed = true }

abbrev pub moved : ℕ → ByteReader → ByteReader
moved n r = record r { pos = r.pos + n }

unfoldable pub seek : ℕ → ByteReader → ByteReader
seek p r = if ltb (length r.data') p then fail r else if r.failed then r else record r { pos = p }

unfoldable pub skip_bytes : ℕ → ByteReader → ByteReader
unfolding has_bytes
skip_bytes n r = if has_bytes r n then moved n r else fail r

unfoldable pub align : ℕ → ByteReader → ByteReader
unfolding skip_bytes
align boundary r =
    if boundary == 0
    then r
    else if r.pos % boundary == 0
    then r
    else skip_bytes (boundary - r.pos % boundary) r

-- So many bytes as a number, the first the greatest.
abbrev pub big_endian : ℕ → List ℕ → ℕ
big_endian v [] = v
big_endian v (b ∷ bs) = big_endian (v * 256 + b) bs

-- `bytes` and `ascii`
unfoldable pub bytes : ℕ → ByteReader → List ℕ × ByteReader
unfolding has_bytes
bytes n r = if has_bytes r n then (take n (drop r.pos r.data'), moved n r) else ([], fail r)

-- `u8v`, `u16be`, `u32be` read one, two or four bytes.
unfoldable pub unsigned : ℕ → ByteReader → ℕ × ByteReader
unfolding bytes
unsigned n r = let (bs, s) = bytes n r in (big_endian 0 bs, s)

unfoldable pub u64be : ByteReader → ℕ × ByteReader
unfolding unsigned
u64be r = let (hi, s) = unsigned 4 r in let (lo, t) = unsigned 4 s in (hi * 2 ^ 32 + lo, t)

unfoldable pub key_string : ByteReader → List ℕ × ByteReader
unfolding unsigned bytes
key_string r = let (n, s) = unsigned 4 r in bytes (if n == 0 then 4 else n) s

-- `appendUtf8`
unfoldable pub utf8 : ℕ → List ℕ
utf8 cp =
    if ltb cp 0x80
    then cp ∷ []
    else if ltb cp 0x800
    then (192 + cp / 2 ^ 6) ∷ (128 + cp % 64) ∷ []
    else if ltb cp 0x10000
    then (224 + cp / 2 ^ 12) ∷ (128 + cp / 2 ^ 6 % 64) ∷ (128 + cp % 64) ∷ []
    else (240 + cp / 2 ^ 18)
      ∷ (128 + cp / 2 ^ 12 % 64)
      ∷ (128 + cp / 2 ^ 6 % 64)
      ∷ (128 + cp % 64)
      ∷ []

-- A unit that begins a pair, and the code point of a pair.
unfoldable pub is_high : ℕ → Bool
is_high u = leb 0xD800 u && leb u 0xDBFF

unfoldable pub paired : ℕ → ℕ → ℕ
paired u lo =
    if leb 0xDC00 lo && leb lo 0xDFFF
    then 0x10000 + (u - 0xD800) * 2 ^ 10 + (lo - 0xDC00)
    else 0xFFFD

-- The loop of `unicodeString`: so many units are left. Of a pair, both are read.
unfoldable pub units : ℕ → List ℕ → ByteReader → List ℕ × ByteReader
unfolding unsigned is_high paired utf8
units zero out r = (out, r)
units (suc zero) out r = let (u, s) = unsigned 2 r in (if u == 0 then out else out ++ utf8 u, s)
units (suc (suc left)) out r =
    let (u, s) = unsigned 2 r in
    elim (is_high u) [
      | true ↦
          let (lo, t) = unsigned 2 s in
          let cp = paired u lo in
          elim (cp == 0 && left == 0) [ true ↦ (out, t) | false ↦ units left (out ++ utf8 cp) t ]
      | false ↦ units (suc left) (out ++ utf8 u) s
    ]

unfoldable pub unicode_string : ℕ → ByteReader → List ℕ × ByteReader
unfolding unsigned has_bytes units
unicode_string max_chars r =
    let (count, s) = unsigned 4 r in
    if s.failed
    then ([], s)
    else if ltb max_chars count || not (has_bytes s (count * 2))
    then ([], fail s)
    else units count [] s
