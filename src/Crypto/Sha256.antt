-- ===== src/Crypto/Sha256.antt =====
-- SHA-256 (include/mari/crypto/sha256.hpp, crypto/src/sha256.cpp): the compression of a block, and the
-- object that takes a message in parts. Words are numbers below 2^32, a buffer is its used part.
use Prim.Native.Nat.{bit_and, bit_or, bit_xor}
use mari_paint.Prelude.{
  ℕ, zero, suc, ◌+◌, ◌-◌, ◌*◌, ◌/◌, ◌%◌, ◌^◌, Bool, true, false, ◌||◌, List, [], ◌∷◌, ◌++◌, ltb,
  leb, ◌==◌, if◌then◌else◌, length, get_or, take, drop, replicate, Option, none, some,
}
use mari_paint.Core.Errors.{ErrorCode, Result, ok, err, io_error}
pub mod Standard
pub mod Compression
pub mod Padding
pub mod Stream
pub mod Refinement

-- `kSha256BlockSize`
abbrev pub block_size : ℕ
block_size = 64

-- `kK`
abbrev pub round_constants : List ℕ
round_constants =
    0x428a2f98 ∷ 0x71374491 ∷ 0xb5c0fbcf ∷ 0xe9b5dba5 ∷ 0x3956c25b ∷ 0x59f111f1 ∷ 0x923f82a4
    ∷ 0xab1c5ed5 ∷ 0xd807aa98 ∷ 0x12835b01 ∷ 0x243185be ∷ 0x550c7dc3 ∷ 0x72be5d74 ∷ 0x80deb1fe
    ∷ 0x9bdc06a7 ∷ 0xc19bf174 ∷ 0xe49b69c1 ∷ 0xefbe4786 ∷ 0x0fc19dc6 ∷ 0x240ca1cc ∷ 0x2de92c6f
    ∷ 0x4a7484aa ∷ 0x5cb0a9dc ∷ 0x76f988da ∷ 0x983e5152 ∷ 0xa831c66d ∷ 0xb00327c8 ∷ 0xbf597fc7
    ∷ 0xc6e00bf3 ∷ 0xd5a79147 ∷ 0x06ca6351 ∷ 0x14292967 ∷ 0x27b70a85 ∷ 0x2e1b2138 ∷ 0x4d2c6dfc
    ∷ 0x53380d13 ∷ 0x650a7354 ∷ 0x766a0abb ∷ 0x81c2c92e ∷ 0x92722c85 ∷ 0xa2bfe8a1 ∷ 0xa81a664b
    ∷ 0xc24b8b70 ∷ 0xc76c51a3 ∷ 0xd192e819 ∷ 0xd6990624 ∷ 0xf40e3585 ∷ 0x106aa070 ∷ 0x19a4c116
    ∷ 0x1e376c08 ∷ 0x2748774c ∷ 0x34b0bcb5 ∷ 0x391c0cb3 ∷ 0x4ed8aa4a ∷ 0x5b9cca4f ∷ 0x682e6ff3
    ∷ 0x748f82ee ∷ 0x78a5636f ∷ 0x84c87814 ∷ 0x8cc70208 ∷ 0x90befffa ∷ 0xa4506ceb ∷ 0xbef9a3f7
    ∷ 0xc67178f2 ∷ []

-- The eight words `h_`, and the working variables of a round.
pub record Words : Type 0 where
  pub a : ℕ
  pub b : ℕ
  pub c : ℕ
  pub d : ℕ
  pub e : ℕ
  pub f : ℕ
  pub g : ℕ
  pub h : ℕ

-- `kInit`
abbrev pub initial : Words
initial = record {
  a = 0x6a09e667;
  b = 0xbb67ae85;
  c = 0x3c6ef372;
  d = 0xa54ff53a;
  e = 0x510e527f;
  f = 0x9b05688c;
  g = 0x1f83d9ab;
  h = 0x5be0cd19;
}

-- A sum of words, as the source's `u32`.
abbrev pub word : ℕ → ℕ
word x = x % 2 ^ 32

unfoldable pub rotr : ℕ → ℕ → ℕ
rotr x n = bit_or (x / 2 ^ n) (word (x * 2 ^ (32 - n)))

unfoldable pub ch : ℕ → ℕ → ℕ → ℕ
ch x y z = bit_xor (bit_and x y) (bit_and (bit_xor x 0xFFFFFFFF) z)

unfoldable pub maj : ℕ → ℕ → ℕ → ℕ
maj x y z = bit_xor (bit_xor (bit_and x y) (bit_and x z)) (bit_and y z)

unfoldable pub big_sigma0 : ℕ → ℕ
unfolding rotr
big_sigma0 x = bit_xor (bit_xor (rotr x 2) (rotr x 13)) (rotr x 22)

unfoldable pub big_sigma1 : ℕ → ℕ
unfolding rotr
big_sigma1 x = bit_xor (bit_xor (rotr x 6) (rotr x 11)) (rotr x 25)

unfoldable pub small_sigma0 : ℕ → ℕ
unfolding rotr
small_sigma0 x = bit_xor (bit_xor (rotr x 7) (rotr x 18)) (x / 2 ^ 3)

unfoldable pub small_sigma1 : ℕ → ℕ
unfolding rotr
small_sigma1 x = bit_xor (bit_xor (rotr x 17) (rotr x 19)) (x / 2 ^ 10)

-- `beLoad32`, at the front of the bytes.
unfoldable pub be_load32 : List ℕ → ℕ
be_load32 p = get_or p 0 0 * 2 ^ 24 + get_or p 1 0 * 2 ^ 16 + get_or p 2 0 * 2 ^ 8 + get_or p 3 0

unfoldable pub be_store32 : ℕ → List ℕ
be_store32 v = v / 2 ^ 24 % 256 ∷ v / 2 ^ 16 % 256 ∷ v / 2 ^ 8 % 256 ∷ v % 256 ∷ []

-- The message schedule: the words of the block, and then one word at a time.
unfoldable pub block_words : ℕ → List ℕ → List ℕ
unfolding be_load32
block_words zero p = []
block_words (suc n) p = be_load32 p ∷ block_words n (drop 4 p)

unfoldable pub extend : ℕ → List ℕ → List ℕ
unfolding small_sigma0 small_sigma1
extend zero w = w
extend (suc n) w =
    let t = length w in
    let next =
      small_sigma1 (get_or w (t - 2) 0)
      + get_or w (t - 7) 0
      + small_sigma0 (get_or w (t - 15) 0)
      + get_or w (t - 16) 0 in
    extend n (w ++ word next ∷ [])

-- One round.
unfoldable pub round : Words → ℕ → ℕ → Words
unfolding big_sigma0 big_sigma1 ch maj
round v k w =
    let t1 = word (v.h + big_sigma1 v.e + ch v.e v.f v.g + k + w) in
    let t2 = word (big_sigma0 v.a + maj v.a v.b v.c) in
    record {
      a = word (t1 + t2);
      b = v.a;
      c = v.b;
      d = v.c;
      e = word (v.d + t1);
      f = v.e;
      g = v.f;
      h = v.g;
    }

unfoldable pub rounds : Words → List ℕ → List ℕ → Words
unfolding round
rounds v (k ∷ ks) (w ∷ ws) = rounds (round v k w) ks ws
rounds v _ _ = v

unfoldable pub compress : Words → List ℕ → Words
unfolding block_words extend rounds
compress s block =
    let v = rounds s round_constants (extend 48 (block_words 16 block)) in
    record {
      a = word (s.a + v.a);
      b = word (s.b + v.b);
      c = word (s.c + v.c);
      d = word (s.d + v.d);
      e = word (s.e + v.e);
      f = word (s.f + v.f);
      g = word (s.g + v.g);
      h = word (s.h + v.h);
    }

-- Class `Sha256`.
pub record Sha256 : Type 0 where
  pub words : Words
  pub buf : List ℕ
  pub total : ℕ
  pub finished : Bool
  pub digest : List ℕ

abbrev pub reset : Sha256
reset = record { words = initial; buf = []; total = 0; finished = false; digest = replicate 32 0 }

-- The loop over whole blocks. Its fuel is the number of bytes: each round takes 64.
unfoldable pub whole_blocks : ℕ → Words → List ℕ → Words × List ℕ
whole_blocks zero s p = (s, p)
whole_blocks (suc fuel) s p =
    let rest = whole_blocks fuel (compress s (take block_size p)) (drop block_size p) in
    if leb block_size (length p) then rest else (s, p)

-- The end of `update`: the blocks, and the tail that stays.
unfoldable pub take_blocks : List ℕ → Sha256 → Sha256
unfolding whole_blocks
take_blocks p s =
    let (words, tail) = whole_blocks (length p) s.words p in record s { words = words; buf = tail }

-- In `update`: so many bytes go into the buffer, and a full buffer is a block.
unfoldable pub fill : ℕ → List ℕ → Sha256 → Sha256
unfolding take_blocks
fill n p s =
    let buf = s.buf ++ take n p in
    if ltb (length buf) block_size
    then record s { buf = buf }
    else take_blocks (drop n p) (record s { words = compress s.words buf; buf = [] })

-- `update` once the bytes are counted: the buffer is filled first.
unfoldable pub feed : List ℕ → Sha256 → Sha256
unfolding take_blocks fill
feed p s =
    if length s.buf == 0
    then take_blocks p s
    else let need = block_size - length s.buf in
      fill (if ltb (length p) need then length p else need) p s

unfoldable pub update : List ℕ → Sha256 → Sha256
unfolding feed
update p s =
    if s.finished || length p == 0
    then s
    else feed p (record s { total = (s.total + length p) % 2 ^ 64 })

-- The bytes that `finish` appends for a buffer of this length and this count.
unfoldable pub length_bytes : ℕ → List ℕ
length_bytes n =
    n / 2 ^ 56 % 256
    ∷ n / 2 ^ 48 % 256
    ∷ n / 2 ^ 40 % 256
    ∷ n / 2 ^ 32 % 256
    ∷ n / 2 ^ 24 % 256
    ∷ n / 2 ^ 16 % 256
    ∷ n / 2 ^ 8 % 256
    ∷ n % 256
    ∷ []

unfoldable pub padding : ℕ → ℕ → List ℕ
unfolding length_bytes
padding buf_len total =
    let bit_len = total * 8 % 2 ^ 64 in
    let rem = buf_len + 1 in
    let zeros =
      if leb rem (block_size - 8) then block_size - 8 - rem else block_size * 2 - 8 - rem in
    0x80 ∷ (replicate zeros 0 ++ length_bytes bit_len)

unfoldable pub digest_bytes : Words → List ℕ
unfolding be_store32
digest_bytes s =
    be_store32 s.a
    ++ (be_store32 s.b
        ++ (be_store32 s.c
            ++ (be_store32 s.d
                ++ (be_store32 s.e ++ (be_store32 s.f ++ (be_store32 s.g ++ be_store32 s.h))))))

-- `finish`: the digest, and the object behind it.
unfoldable pub finish : Sha256 → List ℕ × Sha256
unfolding update padding digest_bytes
finish s =
    if s.finished
    then (s.digest, s)
    else let u = update (padding (length s.buf) s.total) s in
      let digest = digest_bytes u.words in
      (digest, record u { total = s.total; digest = digest; finished = true })

-- `toHex`
unfoldable pub hex_digit : ℕ → ℕ
hex_digit n = if ltb n 10 then 48 + n else 87 + n

unfoldable pub to_hex : List ℕ → List ℕ
unfolding hex_digit
to_hex [] = []
to_hex (b ∷ bs) = hex_digit (b / 16 % 16) ∷ hex_digit (b % 16) ∷ to_hex bs

-- `sha256`
unfoldable pub sha256 : List ℕ → List ℕ
unfolding update finish
sha256 data' = (finish (update data' reset)).0

-- The loop of `sha256FileHex`: each read of the file is fed.
unfoldable pub hash_file : List (List ℕ) → Sha256 → Sha256
unfolding update
hash_file [] s = s
hash_file (chunk ∷ chunks) s = hash_file chunks (update chunk s)

-- `sha256FileHex`: of a file that opens, what its reads give, up to the short one, and whether the
-- stream has an error then.
unfoldable pub sha256_file_hex : Option (List (List ℕ) × Bool) → Result (List ℕ)
unfolding hash_file finish to_hex
sha256_file_hex none = err io_error
sha256_file_hex (some (chunks, bad)) =
    if bad then err io_error else ok (to_hex (finish (hash_file chunks reset)).0)
