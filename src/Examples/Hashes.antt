-- ===== src/Examples/Hashes.antt =====
-- Hashes.
use mari_paint.Prelude.{ℕ, ◌≡◌, refl, List, [], ◌∷◌, replicate}
use mari_paint.Crypto.Sha256.Stream.{join}
use mari_paint.Crypto.Sha256.Refinement.{hash_file-standard}
use mari_paint.Crypto.Sha256.Standard.{standard_digest}
use mari_paint.Crypto.Sha256.{
  hash_file, reset, sha256, compress, round, rounds, extend, block_words, be_load32, small_sigma0,
  small_sigma1, big_sigma0, big_sigma1, ch, maj, rotr, update, feed, take_blocks, whole_blocks,
  finish, padding, length_bytes, digest_bytes, be_store32,
}

-- The vector of FIPS 180-4 for "abc".
abc :
    sha256 (97 ∷ 98 ∷ 99 ∷ [])
    ≡ 0xba ∷ 0x78 ∷ 0x16 ∷ 0xbf ∷ 0x8f ∷ 0x01 ∷ 0xcf ∷ 0xea ∷ 0x41 ∷ 0x41 ∷ 0x40 ∷ 0xde ∷ 0x5d
      ∷ 0xae ∷ 0x22 ∷ 0x23 ∷ 0xb0 ∷ 0x03 ∷ 0x61 ∷ 0xa3 ∷ 0x96 ∷ 0x17 ∷ 0x7a ∷ 0x9c ∷ 0xb4 ∷ 0x10
      ∷ 0xff ∷ 0x61 ∷ 0xf2 ∷ 0x00 ∷ 0x15 ∷ 0xad ∷ []
unfolding sha256 compress round rounds extend block_words be_load32 small_sigma0 small_sigma1
    big_sigma0 big_sigma1 ch maj rotr update feed take_blocks whole_blocks finish padding
    length_bytes digest_bytes be_store32
abc = refl

-- A message of 70 bytes in two reads, over the end of a block.
abbrev reads : List (List ℕ)
reads = replicate 60 97 ∷ replicate 10 98 ∷ []

hash_file-standard_example : (finish (hash_file reads reset)).0 ≡ standard_digest (join reads)
hash_file-standard_example = hash_file-standard reads
