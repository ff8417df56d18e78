-- ===== src/Crypto/Sha256/Standard.antt =====
-- SHA-256 as FIPS 180-4 writes it, with its own constants, functions and schedule.
use Prim.Native.Nat.{bit_and, bit_or, bit_xor}
use mari_paint.Prelude.{
  ℕ, zero, suc, ◌+◌, ◌-◌, ◌*◌, ◌/◌, ◌%◌, ◌^◌, List, [], ◌∷◌, ◌++◌, leb, if◌then◌else◌, length,
  get_or, take, drop, map, replicate,
}
use mari_paint.Crypto.Sha256.{Words}

-- The greatest number whose power is at most `n`, bit by bit below `2 ^ bits`.
abbrev pub root : ℕ → ℕ → ℕ → ℕ → ℕ
root zero power n acc = acc
root (suc bits) power n acc =
    root bits power n (if leb ((acc + 2 ^ bits) ^ power) n then acc + 2 ^ bits else acc)

-- 32 bits of the fraction of a root of a prime.
abbrev pub fraction : ℕ → ℕ → ℕ
fraction power prime = root 36 power (prime * 2 ^ (32 * power)) 0 % 2 ^ 32

abbrev pub primes : List ℕ
primes =
    2 ∷ 3 ∷ 5 ∷ 7 ∷ 11 ∷ 13 ∷ 17 ∷ 19 ∷ 23 ∷ 29 ∷ 31 ∷ 37 ∷ 41 ∷ 43 ∷ 47 ∷ 53 ∷ 59 ∷ 61 ∷ 67 ∷ 71
    ∷ 73 ∷ 79 ∷ 83 ∷ 89 ∷ 97 ∷ 101 ∷ 103 ∷ 107 ∷ 109 ∷ 113 ∷ 127 ∷ 131 ∷ 137 ∷ 139 ∷ 149 ∷ 151 ∷ 157
    ∷ 163 ∷ 167 ∷ 173 ∷ 179 ∷ 181 ∷ 191 ∷ 193 ∷ 197 ∷ 199 ∷ 211 ∷ 223 ∷ 227 ∷ 229 ∷ 233 ∷ 239 ∷ 241
    ∷ 251 ∷ 257 ∷ 263 ∷ 269 ∷ 271 ∷ 277 ∷ 281 ∷ 283 ∷ 293 ∷ 307 ∷ 311 ∷ []

-- 4.2.2: of the cube roots of the first 64 primes.
abbrev pub standard_constants : List ℕ
standard_constants = map (fraction 3) primes

-- 5.3.3: of the square roots of the first eight.
abbrev pub standard_initial : Words
standard_initial = record {
  a = fraction 2 2;
  b = fraction 2 3;
  c = fraction 2 5;
  d = fraction 2 7;
  e = fraction 2 11;
  f = fraction 2 13;
  g = fraction 2 17;
  h = fraction 2 19;
}

-- 2.2.2 and 3.2: addition of words, ROTR and SHR.
abbrev pub sum32 : ℕ → ℕ
sum32 x = x % 2 ^ 32

abbrev pub rotated : ℕ → ℕ → ℕ
rotated n x = bit_or (x / 2 ^ n) (x * 2 ^ (32 - n) % 2 ^ 32)

abbrev pub shifted : ℕ → ℕ → ℕ
shifted n x = x / 2 ^ n

-- 4.1.2.
abbrev pub xor3 : ℕ → ℕ → ℕ → ℕ
xor3 x y z = bit_xor (bit_xor x y) z

abbrev pub choice : ℕ → ℕ → ℕ → ℕ
choice x y z = bit_xor (bit_and x y) (bit_and (bit_xor x (2 ^ 32 - 1)) z)

abbrev pub majority : ℕ → ℕ → ℕ → ℕ
majority x y z = xor3 (bit_and x y) (bit_and x z) (bit_and y z)

abbrev pub upper0 : ℕ → ℕ
upper0 x = xor3 (rotated 2 x) (rotated 13 x) (rotated 22 x)

abbrev pub upper1 : ℕ → ℕ
upper1 x = xor3 (rotated 6 x) (rotated 11 x) (rotated 25 x)

abbrev pub lower0 : ℕ → ℕ
lower0 x = xor3 (rotated 7 x) (rotated 18 x) (shifted 3 x)

abbrev pub lower1 : ℕ → ℕ
lower1 x = xor3 (rotated 17 x) (rotated 19 x) (shifted 10 x)

-- 3.1: bytes as a number and back, the highest first.
abbrev pub number_of : ℕ → List ℕ → ℕ
number_of acc [] = acc
number_of acc (b ∷ bs) = number_of (acc * 256 + b) bs

abbrev pub bytes_of_number : ℕ → ℕ → List ℕ
bytes_of_number zero n = []
bytes_of_number (suc k) n = n / 256 ^ k % 256 ∷ bytes_of_number k n

-- 6.2.2, step 1: the schedule, of a block as sixteen words. Step t appends the word with this index.
abbrev pub parsed_block : ℕ → List ℕ → List ℕ
parsed_block zero p = []
parsed_block (suc n) p =
    number_of 0 (get_or p 0 0 ∷ get_or p 1 0 ∷ get_or p 2 0 ∷ get_or p 3 0 ∷ [])
    ∷ parsed_block n (drop 4 p)

abbrev pub back : List ℕ → ℕ → ℕ
back w n = get_or w (length w - n) 0

abbrev pub schedule : ℕ → List ℕ → List ℕ
schedule zero w = w
schedule (suc n) w =
    schedule n (w ++ sum32 (lower1 (back w 2) + back w 7 + lower0 (back w 15) + back w 16) ∷ [])

-- Step 3.
abbrev pub temporary1 : Words → ℕ → ℕ → ℕ
temporary1 v k w = sum32 (v.h + upper1 v.e + choice v.e v.f v.g + k + w)

abbrev pub temporary2 : Words → ℕ
temporary2 v = sum32 (upper0 v.a + majority v.a v.b v.c)

abbrev pub standard_round : Words → ℕ → ℕ → Words
standard_round v k w = record {
  a = sum32 (temporary1 v k w + temporary2 v);
  b = v.a;
  c = v.b;
  d = v.c;
  e = sum32 (v.d + temporary1 v k w);
  f = v.e;
  g = v.f;
  h = v.g;
}

abbrev pub standard_rounds : Words → List ℕ → List ℕ → Words
standard_rounds v (k ∷ ks) (w ∷ ws) = standard_rounds (standard_round v k w) ks ws
standard_rounds v _ _ = v

-- Step 4.
abbrev pub added : Words → Words → Words
added s v = record {
  a = sum32 (s.a + v.a);
  b = sum32 (s.b + v.b);
  c = sum32 (s.c + v.c);
  d = sum32 (s.d + v.d);
  e = sum32 (s.e + v.e);
  f = sum32 (s.f + v.f);
  g = sum32 (s.g + v.g);
  h = sum32 (s.h + v.h);
}

abbrev pub standard_block : Words → List ℕ → Words
standard_block s block =
    added s (standard_rounds s standard_constants (schedule 48 (parsed_block 16 block)))

abbrev pub standard_blocks : ℕ → Words → List ℕ → Words
standard_blocks zero s p = s
standard_blocks (suc n) s p = standard_blocks n (standard_block s (take 64 p)) (drop 64 p)

-- 5.1.1: a one bit, the fewest zeros that leave eight bytes of a block, the length in bits.
abbrev pub standard_padding : ℕ → List ℕ
standard_padding n =
    0x80 ∷ (replicate ((119 - n % 64) % 64) 0 ++ bytes_of_number 8 (n * 8 % 2 ^ 64))

abbrev pub words_bytes : Words → List ℕ
words_bytes s =
    bytes_of_number 4 s.a
    ++ (bytes_of_number 4 s.b
        ++ (bytes_of_number 4 s.c
            ++ (bytes_of_number 4 s.d
                ++ (bytes_of_number 4 s.e
                    ++ (bytes_of_number 4 s.f
                        ++ (bytes_of_number 4 s.g ++ bytes_of_number 4 s.h))))))

-- 6.2.
abbrev pub standard_digest : List ℕ → List ℕ
standard_digest m =
    let padded = m ++ standard_padding (length m) in
    words_bytes (standard_blocks (length padded / 64) standard_initial padded)
