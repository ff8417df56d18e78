-- ===== src/Crypto/Sha256/Padding.antt =====
-- The standard's padding of a message, and the padding that `finish` appends.
use mari_paint.Prelude.{
  ℕ, ◌+◌, ◌-◌, ◌*◌, ◌%◌, ◌^◌, ◌<◌, ◌≡◌, ap, ◌∙◌, ◌∷◌, ◌++◌, arith, leb, length, length-append,
  length-replicate, replicate, if◌then◌else◌,
}
use mari_paint.Crypto.Sha256.{length_bytes, padding}
use mari_paint.Crypto.Sha256.Standard.{bytes_of_number, standard_padding}
use mari_paint.Crypto.Sha256.Compression.{length_bytes_lem}

zeros_lem :
    (r : ℕ) → r < 64 → (if leb (r + 1) 56 then 56 - (r + 1) else 120 - (r + 1)) ≡ (119 - r) % 64
zeros_lem r h = ground (arith, h)

pub padding-standard : (n r t : ℕ) → r ≡ n % 64 → t ≡ n % 2 ^ 64 → padding r t ≡ standard_padding n
unfolding padding
padding-standard n r t e k =
    let zeros : (if leb (r + 1) 56 then 56 - (r + 1) else 120 - (r + 1)) ≡ (119 - n % 64) % 64 =
      zeros_lem r (omega (arith, e)) ∙ ap (λ x. (119 - x) % 64) e in
    let bits : t * 8 % 2 ^ 64 ≡ n * 8 % 2 ^ 64 = omega (arith, k) in
    ap (λ z. 0x80 ∷ (replicate z 0 ++ length_bytes (t * 8 % 2 ^ 64))) zeros
    ∙ ap (λ b. 0x80 ∷ (replicate ((119 - n % 64) % 64) 0 ++ b))
        (length_bytes_lem (t * 8 % 2 ^ 64) ∙ ap (bytes_of_number 8) bits)

-- A padded message is whole blocks.
pub length-standard_padding : (n : ℕ) → (n + length (standard_padding n)) % 64 ≡ 0
length-standard_padding n =
    let e =
      length-append (replicate ((119 - n % 64) % 64) 0) (bytes_of_number 8 (n * 8 % 2 ^ 64)) in
    let z = length-replicate {A = ℕ} ((119 - n % 64) % 64) 0 in omega (arith, e, z)
