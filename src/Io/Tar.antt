-- ===== src/Io/Tar.antt =====
-- The reader of tar archives (io/brush/src/tar.cpp). The buffer is the list of its bytes, and a header is
-- the part of it from the header's first byte on. The sizes are those of a 64-bit program.
use mari_paint.Prelude.{
  ℕ, zero, suc, ◌+◌, ◌-◌, ◌*◌, ◌/◌, ◌%◌, ◌^◌, Bool, true, false, ◌&&◌, ◌||◌, not, Option, none,
  some, List, [], ◌∷◌, ◌++◌, ltb, leb, ◌==◌, if◌then◌else◌, length, take, drop, get_or,
}
use mari_paint.Core.Errors.{ErrorCode, Result, ok, err, invalid_argument, parse_error}
use mari_paint.Sigan.Wire.{same_bytes}
use mari_paint.Sigan.Handshake.{codes}
pub mod Bounds

-- `kBlock` and `kMaxEntries`
abbrev pub block : ℕ
block = 512

abbrev pub max_entries : ℕ
max_entries = 4096

-- `TarEntry`
pub record TarEntry : Type 0 where
  pub name : List ℕ
  pub type_flag : ℕ
  pub offset : ℕ
  pub size : ℕ

-- The loop of `parseOctal` over a field: the value, and whether there was a digit.
unfoldable pub octal_loop : List ℕ → ℕ → Bool → Option ℕ
octal_loop [] v any = if any then some v else none
octal_loop (c ∷ s) v any = elim (c == 32 || c == 0) [
  | true ↦ octal_loop s v any
  | false ↦ elim (ltb c 48 || ltb 55 c) [
    | true ↦ none
    | false ↦ octal_loop s ((v * 8 + (c - 48)) % 2 ^ 64) true
  ]
]

unfoldable pub parse_octal : List ℕ → Option ℕ
unfolding octal_loop
parse_octal field = octal_loop field 0 false

abbrev pub sum : List ℕ → ℕ
sum [] = 0
sum (x ∷ xs) = x + sum xs

-- `headerChecksum`: the eight bytes of the checksum count as spaces.
unfoldable pub header_checksum : List ℕ → ℕ
header_checksum h = (sum (take 148 h) + 8 * 32 + sum (take 356 (drop 156 h))) % 2 ^ 32

unfoldable pub is_zero_block : List ℕ → Bool
is_zero_block h = sum (take block h) == 0

-- `fieldString`: up to the first zero.
unfoldable pub field_string : List ℕ → List ℕ
field_string [] = []
field_string (c ∷ s) = let rest = field_string s in if c == 0 then [] else c ∷ rest

unfoldable pub has_ustar : List ℕ → Bool
unfolding same_bytes
has_ustar h = same_bytes (take 5 (drop 257 h)) (codes "ustar")

-- `looksLikeTar` of a buffer.
unfoldable pub looks_like_tar : List ℕ → Bool
unfolding has_ustar parse_octal header_checksum
looks_like_tar data' =
    if ltb (length data') block
    then false
    else if has_ustar data'
    then true
    else elim (parse_octal (take 8 (drop 148 data'))) [
      | none ↦ false
      | some stored ↦ stored == header_checksum data'
    ]

unfoldable pub entry_name : List ℕ → List ℕ
unfolding field_string has_ustar
entry_name h =
    let name = field_string (take 100 h) in
    let prefix = field_string (take 155 (drop 345 h)) in
    if has_ustar h && not (length prefix == 0) then prefix ++ 47 ∷ name else name

-- The size in whole blocks.
abbrev pub padded : ℕ → ℕ
padded n = (n + block - 1) / block * block

-- The entry of the header h at this position, behind the checks of the sizes. A difference of sizes wraps
-- around where it is negative.
unfoldable pub check_entry : ℕ → ℕ → List ℕ → ℕ → Result TarEntry
unfolding entry_name
check_entry total pos h size =
    let offset = pos + block in
    if ltb total size || ltb (total - size) offset
    then err parse_error
    else if ltb ((total + 2 ^ 64 - padded size) % 2 ^ 64) offset && not (padded size == 0)
    then err parse_error
    else ok
        (record { name = entry_name h; type_flag = get_or h 156 0; offset = offset; size = size })

-- The body of the loop of `readTar`.
unfoldable pub read_entry : ℕ → ℕ → List ℕ → Result TarEntry
unfolding parse_octal header_checksum check_entry
read_entry total pos h = elim (parse_octal (take 8 (drop 148 h))) [
  | none ↦ err parse_error
  | some stored ↦ elim (stored == header_checksum h) [
    | true ↦ elim (parse_octal (take 12 (drop 124 h))) [
      | none ↦ err parse_error
      | some size ↦ check_entry total pos h size
    ]
    | false ↦ err parse_error
  ]
]

-- What comes behind a round, with the loop that goes on.
unfoldable pub add_entry :
    (ℕ → List TarEntry → Result (List TarEntry))
    → List TarEntry
    → Result TarEntry
    → Result (List TarEntry)
add_entry again es (err c) = err c
add_entry again es (ok e) =
    let all = es ++ e ∷ [] in
    elim (ltb max_entries (length all)) [
      | true ↦ err parse_error
      | false ↦ again (e.offset + padded e.size) all
    ]

-- The loop of `readTar` on fuel: each round takes a block at least.
unfoldable pub read_loop : ℕ → List ℕ → ℕ → List TarEntry → Result (List TarEntry)
unfolding is_zero_block read_entry add_entry
read_loop zero data' pos es = ok es
read_loop (suc fuel) data' pos es = elim (leb (pos + block) (length data')) [
  | true ↦ elim (is_zero_block (drop pos data')) [
    | true ↦ ok es
    | false ↦ add_entry (read_loop fuel data') es (read_entry (length data') pos (drop pos data'))
  ]
  | false ↦ ok es
]

unfoldable pub read_tar : List ℕ → Result (List TarEntry)
unfolding read_loop
read_tar data' =
    if length data' == 0
    then err invalid_argument
    else if ltb (length data') block
    then err parse_error
    else read_loop (length data' / block + 1) data' 0 []
