-- ===== src/Sha256.antt =====
-- src/sha256.hpp: the incremental hash.
pub mod Blocks
mod Tests
use Prim.Native.Nat.{bit_and, bit_or, bit_xor}
use ninfer_nvfp4_glm_5_3_fla.Prelude.{
  ℕ, zero, suc, ◌+◌, ◌-◌, ◌*◌, ◌/◌, ◌%◌, ◌^◌, List, [], ◌∷◌, ◌++◌, Bool, true, false, ◌&&◌, ◌||◌,
  leb, ◌==◌, if◌then◌else◌, Bytes, length, get_or,
}
use ninfer_nvfp4_glm_5_3_fla.Deployment.Strings.{is_digit}

-- `state_`, and the eight variables of the rounds.
pub record Words : Type 0 where
  pub a : ℕ
  pub b : ℕ
  pub c : ℕ
  pub d : ℕ
  pub e : ℕ
  pub f : ℕ
  pub g : ℕ
  pub h : ℕ

-- `block` holds the first `block_len_` bytes of `block_`; no other is read.
pub record Hasher : Type 0 where
  pub state : Words
  pub bits : ℕ
  pub block : Bytes

abbrev pub initial_state : Words
initial_state = record {
  a = 0x6a09e667;
  b = 0xbb67ae85;
  c = 0x3c6ef372;
  d = 0xa54ff53a;
  e = 0x510e527f;
  f = 0x9b05688c;
  g = 0x1f83d9ab;
  h = 0x5be0cd19;
}

abbrev pub new_hasher : Hasher
new_hasher = record { state = initial_state; bits = 0; block = [] }

abbrev k : List ℕ
k =
    0x428a2f98 ∷ 0x71374491 ∷ 0xb5c0fbcf ∷ 0xe9b5dba5 ∷ 0x3956c25b ∷ 0x59f111f1 ∷ 0x923f82a4
    ∷ 0xab1c5ed5 ∷ 0xd807aa98 ∷ 0x12835b01 ∷ 0x243185be ∷ 0x550c7dc3 ∷ 0x72be5d74 ∷ 0x80deb1fe
    ∷ 0x9bdc06a7 ∷ 0xc19bf174 ∷ 0xe49b69c1 ∷ 0xefbe4786 ∷ 0x0fc19dc6 ∷ 0x240ca1cc ∷ 0x2de92c6f
    ∷ 0x4a7484aa ∷ 0x5cb0a9dc ∷ 0x76f988da ∷ 0x983e5152 ∷ 0xa831c66d ∷ 0xb00327c8 ∷ 0xbf597fc7
    ∷ 0xc6e00bf3 ∷ 0xd5a79147 ∷ 0x06ca6351 ∷ 0x14292967 ∷ 0x27b70a85 ∷ 0x2e1b2138 ∷ 0x4d2c6dfc
    ∷ 0x53380d13 ∷ 0x650a7354 ∷ 0x766a0abb ∷ 0x81c2c92e ∷ 0x92722c85 ∷ 0xa2bfe8a1 ∷ 0xa81a664b
    ∷ 0xc24b8b70 ∷ 0xc76c51a3 ∷ 0xd192e819 ∷ 0xd6990624 ∷ 0xf40e3585 ∷ 0x106aa070 ∷ 0x19a4c116
    ∷ 0x1e376c08 ∷ 0x2748774c ∷ 0x34b0bcb5 ∷ 0x391c0cb3 ∷ 0x4ed8aa4a ∷ 0x5b9cca4f ∷ 0x682e6ff3
    ∷ 0x748f82ee ∷ 0x78a5636f ∷ 0x84c87814 ∷ 0x8cc70208 ∷ 0x90befffa ∷ 0xa4506ceb ∷ 0xbef9a3f7
    ∷ 0xc67178f2 ∷ []

abbrev add32 : ℕ → ℕ → ℕ
add32 x y = (x + y) % 2 ^ 32

rotr : ℕ → ℕ → ℕ
rotr value bits = bit_or (value / 2 ^ bits) (value * 2 ^ (32 - bits) % 2 ^ 32)

-- The big-endian words of the block.
block_words : ℕ → Bytes → List ℕ
block_words zero block = []
block_words (suc n) (p ∷ q ∷ r ∷ s ∷ block) =
    (p * 2 ^ 24 + q * 2 ^ 16 + r * 2 ^ 8 + s) ∷ block_words n block
block_words (suc n) block = []

-- One round of the loop that fills `words`, of which those below `i` are given.
next_word : List ℕ → ℕ → ℕ
unfolding rotr
next_word words i =
    let w15 = get_or words (i - 15) 0 in
    let w2 = get_or words (i - 2) 0 in
    let s0 = bit_xor (bit_xor (rotr w15 7) (rotr w15 18)) (w15 / 2 ^ 3) in
    let s1 = bit_xor (bit_xor (rotr w2 17) (rotr w2 19)) (w2 / 2 ^ 10) in
    add32 (add32 (add32 (get_or words (i - 16) 0) s0) (get_or words (i - 7) 0)) s1

extend : ℕ → List ℕ → List ℕ
unfolding next_word
extend zero words = words
extend (suc n) words = extend n (words ++ next_word words (length words) ∷ [])

round : ℕ → ℕ → Words → Words
unfolding rotr
round ki wi v =
    let s1 = bit_xor (bit_xor (rotr v.e 6) (rotr v.e 11)) (rotr v.e 25) in
    let choose = bit_xor (bit_and v.e v.f) (bit_and (2 ^ 32 - 1 - v.e) v.g) in
    let temp1 = add32 (add32 (add32 (add32 v.h s1) choose) ki) wi in
    let s0 = bit_xor (bit_xor (rotr v.a 2) (rotr v.a 13)) (rotr v.a 22) in
    let majority = bit_xor (bit_xor (bit_and v.a v.b) (bit_and v.a v.c)) (bit_and v.b v.c) in
    let temp2 = add32 s0 majority in
    record {
      a = add32 temp1 temp2;
      b = v.a;
      c = v.b;
      d = v.c;
      e = add32 v.d temp1;
      f = v.e;
      g = v.f;
      h = v.g;
    }

rounds : List ℕ → List ℕ → Words → Words
unfolding round
rounds (ki ∷ ks) (wi ∷ words) v = rounds ks words (round ki wi v)
rounds _ _ v = v

unfoldable pub compress : Words → Bytes → Words
unfolding rounds extend block_words
compress v block =
    let w = rounds k (extend 48 (block_words 16 block)) v in
    record {
      a = add32 v.a w.a;
      b = add32 v.b w.b;
      c = add32 v.c w.c;
      d = add32 v.d w.d;
      e = add32 v.e w.e;
      f = add32 v.f w.f;
      g = add32 v.g w.g;
      h = add32 v.h w.h;
    }

unfoldable pub add_byte : ℕ → Hasher → Hasher
add_byte byte hasher =
    let block = hasher.block ++ byte ∷ [] in
    if length block == 64
    then record hasher { state = compress hasher.state block; block = [] }
    else record hasher { block = block }

unfoldable pub update : Bytes → Hasher → Hasher
update [] hasher = hasher
update (byte ∷ rest) hasher =
    let added = add_byte byte hasher in
    update rest (record added { bits = (added.bits + 8) % 2 ^ 64 })

-- `while (block_len_ != 56U) add_byte(0U);`. In 64 rounds the block passes every length.
unfoldable pub pad_zeros : ℕ → Hasher → Hasher
pad_zeros zero hasher = hasher
pad_zeros (suc fuel) hasher =
    let more = pad_zeros fuel (add_byte 0 hasher) in
    if length hasher.block == 56 then hasher else more

-- The last `n` of the eight bytes of the length, the highest first.
unfoldable pub add_length : ℕ → ℕ → Hasher → Hasher
add_length zero bit_length hasher = hasher
add_length (suc n) bit_length hasher =
    add_length n bit_length (add_byte (bit_length / 2 ^ (8 * n) % 256) hasher)

-- `kDigits[d]`, of "0123456789abcdef".
abbrev hex_digit : ℕ → ℕ
hex_digit d = if leb d 9 then 48 + d else 87 + d

-- The last `n` of the eight digits of a word.
unfoldable pub hex_nibbles : ℕ → ℕ → Bytes
hex_nibbles zero word = []
hex_nibbles (suc n) word = hex_digit (word / 2 ^ (4 * n) % 16) ∷ hex_nibbles n word

abbrev pub hex_words : Words → Bytes
hex_words v =
    hex_nibbles 8 v.a
    ++ (hex_nibbles 8 v.b
        ++ (hex_nibbles 8 v.c
            ++ (hex_nibbles 8 v.d
                ++ (hex_nibbles 8 v.e
                    ++ (hex_nibbles 8 v.f ++ (hex_nibbles 8 v.g ++ hex_nibbles 8 v.h))))))

unfoldable pub hex_digest : Hasher → Bytes
hex_digest hasher = hex_words (add_length 8 hasher.bits (pad_zeros 64 (add_byte 128 hasher))).state

unfoldable pub sha256_hex : Bytes → Bytes
sha256_hex bytes = hex_digest (update bytes new_hasher)

-- `std::isxdigit` in the "C" locale.
abbrev is_xdigit : ℕ → Bool
is_xdigit ch = is_digit ch || leb 65 ch && leb ch 70 || leb 97 ch && leb ch 102

all_xdigit : Bytes → Bool
all_xdigit [] = true
all_xdigit (ch ∷ value) = is_xdigit ch && all_xdigit value

unfoldable pub is_hex40 : Bytes → Bool
unfolding all_xdigit
is_hex40 value = length value == 40 && all_xdigit value
