-- ===== src/Crypto/Sha256/Compression.antt =====
-- The compression of the code against the one of the standard.
use mari_paint.Prelude.{ℕ, zero, suc, ◌≡◌, refl, ap, ◌∙◌, List, [], ◌∷◌, arith, drop, take}
use mari_paint.Crypto.Sha256.{
  Words, round_constants, initial, rotr, ch, maj, big_sigma0, big_sigma1, small_sigma0,
  small_sigma1, be_load32, be_store32, block_words, extend, round, rounds, compress, length_bytes,
  digest_bytes,
}
use mari_paint.Crypto.Sha256.Standard.{
  standard_constants, standard_initial, bytes_of_number, parsed_block, schedule, standard_round,
  standard_rounds, added, standard_block, standard_blocks, words_bytes,
}

constants_lem : round_constants ≡ standard_constants
constants_lem = refl

pub initial_lem : initial ≡ standard_initial
initial_lem = refl

pub length_bytes_lem : (n : ℕ) → length_bytes n ≡ bytes_of_number 8 n
unfolding length_bytes
length_bytes_lem n = ground arith

pub digest_bytes_lem : (s : Words) → digest_bytes s ≡ words_bytes s
unfolding digest_bytes be_store32
digest_bytes_lem s = ground arith

block_words_lem : (n : ℕ) (p : List ℕ) → block_words n p ≡ parsed_block n p
unfolding block_words be_load32
block_words_lem zero p = refl
block_words_lem (suc n) p = let ih = block_words_lem n (drop 4 p) in ground (arith, ih)

extend_lem : (n : ℕ) (w : List ℕ) → extend n w ≡ schedule n w
unfolding extend small_sigma0 small_sigma1 rotr
extend_lem zero w = refl
extend_lem (suc n) w = extend_lem n _

round_lem : (v : Words) (k w : ℕ) → round v k w ≡ standard_round v k w
unfolding round big_sigma0 big_sigma1 ch maj rotr
round_lem v k w = refl

rounds_lem : (v : Words) (ks ws : List ℕ) → rounds v ks ws ≡ standard_rounds v ks ws
unfolding rounds
rounds_lem v [] ws = refl
rounds_lem v (k ∷ ks) [] = refl
rounds_lem v (k ∷ ks) (w ∷ ws) =
    ap (λ u. rounds u ks ws) (round_lem v k w) ∙ rounds_lem (standard_round v k w) ks ws

compress_lem : (s : Words) (block : List ℕ) → compress s block ≡ standard_block s block
unfolding compress
compress_lem s block =
    ap (λ ws. added s (rounds s round_constants (extend 48 ws))) (block_words_lem 16 block)
    ∙ ap (λ ws. added s (rounds s round_constants ws)) (extend_lem 48 (parsed_block 16 block))
    ∙ ap (λ ks. added s (rounds s ks (schedule 48 (parsed_block 16 block)))) constants_lem
    ∙ ap (added s) (rounds_lem s standard_constants (schedule 48 (parsed_block 16 block)))

-- The compression of so many blocks, one behind the other.
abbrev pub compress_blocks : ℕ → Words → List ℕ → Words
compress_blocks zero s p = s
compress_blocks (suc n) s p = compress_blocks n (compress s (take 64 p)) (drop 64 p)

pub compress_blocks_lem :
    (n : ℕ) (s : Words) (p : List ℕ) → compress_blocks n s p ≡ standard_blocks n s p
compress_blocks_lem zero s p = refl
compress_blocks_lem (suc n) s p =
    ap (λ t. compress_blocks n t (drop 64 p)) (compress_lem s (take 64 p))
    ∙ compress_blocks_lem n (standard_block s (take 64 p)) (drop 64 p)
