-- ===== src/Sha256/Tests.antt =====
-- src/sha256.hpp on short messages.
use ninfer_nvfp4_glm_5_3_fla.Prelude.{◌≡◌, ◌/◌, ◌%◌, refl, text, [], ◌∷◌, Bytes, length}
use ninfer_nvfp4_glm_5_3_fla.Sha256.{
  sha256_hex, hex_digest, update, add_byte, pad_zeros, add_length, compress, hex_nibbles, hex_words,
}
use ninfer_nvfp4_glm_5_3_fla.Sha256.Blocks.{padded, hash_blocks, sha256_hex_lem}

abbrev abc : Bytes
abc = 97 ∷ 98 ∷ 99 ∷ []

-- The test vector of the standard.
abc_digest :
    sha256_hex abc ≡ text "ba7816bf8f01cfea414140de5dae2223b00361a396177a9cb410ff61f20015ad"
unfolding sha256_hex hex_digest update add_byte pad_zeros add_length compress hex_nibbles text
abc_digest = refl

sha256_hex_lem_example :
    (sha256_hex abc ≡ hex_words (hash_blocks (length (padded abc) / 64) (padded abc)))
    × (length (padded abc) % 64 ≡ 0)
sha256_hex_lem_example = sha256_hex_lem abc
