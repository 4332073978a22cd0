-- ===== src/Sha256/Blocks.antt =====
-- src/sha256.hpp: the incremental hash is the hash of the padded message, block after block.
use ninfer_nvfp4_glm_5_3_fla.Prelude.{
  take-all, take-append, drop-append, drop-all, ℕ, zero, suc, ◌+◌, ◌-◌, ◌*◌, ◌/◌, ◌%◌, ◌^◌, ◌≤◌,
  ◌<◌, ◌≡◌, ◌≢◌, inl, inr, refl, sym, ap, ◌∙◌, [], ◌∷◌, ◌++◌, append_assoc, append-nil, arith, ◌==◌,
  Bytes, length, length-append, length-drop, take, drop, replicate, length-replicate, Bool-cases,
}
use mathlib.Core.Path.{subst}
use ninfer_nvfp4_glm_5_3_fla.Sha256.{
  Words, Hasher, initial_state, new_hasher, compress, add_byte, update, pad_zeros, add_length,
  hex_words, hex_digest, sha256_hex,
}

-- The standard's hash of the first `n` blocks of a message.
unfoldable pub hash_blocks : ℕ → Bytes → Words
hash_blocks zero message = initial_state
hash_blocks (suc n) message = compress (hash_blocks n message) (take 64 (drop (64 * n) message))

hash_blocks-append :
    (n : ℕ) (m ys : Bytes) → 64 * n ≤ length m → hash_blocks n (m ++ ys) ≡ hash_blocks n m
unfolding hash_blocks
hash_blocks-append zero m ys h = refl
hash_blocks-append (suc n) m ys h =
    let later : 64 ≤ length (drop (64 * n) m) = omega (arith, length-drop {0} (64 * n) m) in
    rw
      (
        hash_blocks-append n m ys (omega arith),
        drop-append (64 * n) m ys (omega arith),
        take-append 64 (drop (64 * n) m) ys later,
      )
      refl

-- A hasher that has taken the bytes of `m`: the full blocks are hashed, the others wait.
record Holds (h : Hasher) (m : Bytes) : Type 0 where
  n : ℕ
  hashed : h.state ≡ hash_blocks n m
  waiting : h.block ≡ drop (64 * n) m
  low : 64 * n ≤ length m
  high : length m < 64 * n + 64

add_byte-Holds : (h : Hasher) (m : Bytes) (b : ℕ) → Holds h m → Holds (add_byte b h) (m ++ b ∷ [])
unfolding add_byte hash_blocks
add_byte-Holds h m b holds =
    let n = holds.n in
    let m' = m ++ b ∷ [] in
    let longer = length-append {0} m (b ∷ []) in
    let block : h.block ++ b ∷ [] ≡ drop (64 * n) m' =
      ap (λ t. t ++ b ∷ []) holds.waiting ∙ sym (drop-append (64 * n) m (b ∷ []) holds.low) in
    let size : length (h.block ++ b ∷ []) ≡ length m' - 64 * n =
      ap length block ∙ length-drop {0} (64 * n) m' in
    let state : h.state ≡ hash_blocks n m' =
      holds.hashed ∙ sym (hash_blocks-append n m (b ∷ []) holds.low) in
    elim (Bool-cases (length (h.block ++ b ∷ []) == 64)) [
      | inl e ↦
          let full : length m' ≡ 64 * n + 64 = ground (arith, longer, size, holds.low) in
          let last =
            take-all 64 (drop (64 * n) m') (omega (arith, full, length-drop {0} (64 * n) m')) in
          rw e (record {
            n = suc n;
            hashed = λ i. compress (state i) ((block ∙ sym last) i);
            waiting = sym (drop-all (64 * suc n) m' (omega (arith, full)));
            low = omega (arith, full);
            high = omega (arith, full);
          })
      | inr e ↦
          let short : length m' < 64 * n + 64 =
            ground (arith, longer, size, holds.low, holds.high) in
          rw e (record {
            n = n;
            hashed = state;
            waiting = block;
            low = omega (arith, longer, holds.low);
            high = short;
          })
    ]

update-Holds :
    (bytes : Bytes) (h : Hasher) (m : Bytes) → Holds h m → Holds (update bytes h) (m ++ bytes)
unfolding update
update-Holds [] h m holds = rw append-nil holds
update-Holds (b ∷ bytes) h m holds =
    let added = add_byte-Holds h m b holds in
    let counted : Holds (record (add_byte b h) { bits = ((add_byte b h).bits + 8) % 2 ^ 64 })
        (m ++ b ∷ []) =
      record {
        n = added.n;
        hashed = added.hashed;
        waiting = added.waiting;
        low = added.low;
        high = added.high;
      } in
    rw (sym (append_assoc m (b ∷ []) bytes)) (update-Holds bytes _ (m ++ b ∷ []) counted)

-- The zeros that bring a message to 56 bytes behind the last full block.
abbrev zeros : ℕ → ℕ
zeros n = (120 - n % 64) % 64

block-length : (h : Hasher) (m : Bytes) → Holds h m → length h.block ≡ length m % 64
block-length h m holds =
    omega (arith, ap length holds.waiting, length-drop {0} (64 * holds.n) m, holds.low, holds.high)

zeros-step : (n : ℕ) → n % 64 ≢ 56 → zeros n ≡ suc (zeros (n + 1))
zeros-step n h = omega arith

-- The loop ends by its test, within 64 rounds.
pad_zeros-Holds :
    (fuel : ℕ) (h : Hasher) (m : Bytes)
    → zeros (length m) < fuel
    → Holds h m
    → Holds (pad_zeros fuel h) (m ++ replicate (zeros (length m)) 0)
unfolding pad_zeros
pad_zeros-Holds zero h m enough holds = absurd (omega arith)
pad_zeros-Holds (suc fuel) h m enough holds =
    let size = block-length h m holds in
    elim (Bool-cases (length h.block == 56)) [
      | inl e ↦
          let none : zeros (length m) ≡ 0 = ground (arith, size) in rw (e, none, append-nil) holds
      | inr e ↦
          let longer = length-append {0} m (0 ∷ []) in
          let one : zeros (length m) ≡ suc (zeros (length (m ++ 0 ∷ []))) =
            zeros-step (length m) (λ r. absurd (ground (arith, size, r)))
            ∙ ap (λ k. suc (zeros k)) (sym longer) in
          rw (e, one, sym (append_assoc m (0 ∷ []) (replicate (zeros (length (m ++ 0 ∷ []))) 0)))
            (pad_zeros-Holds fuel (add_byte 0 h) (m ++ 0 ∷ []) (omega (arith, one, enough))
              (add_byte-Holds h m 0 holds))
    ]

-- The eight bytes of a number below 2 ^ 64, of which the last `n`, the highest first.
big_endian : ℕ → ℕ → Bytes
big_endian zero bit_length = []
big_endian (suc n) bit_length = (bit_length / 2 ^ (8 * n) % 256) ∷ big_endian n bit_length

add_length-Holds :
    (n bit_length : ℕ) (h : Hasher) (m : Bytes)
    → Holds h m
    → Holds (add_length n bit_length h) (m ++ big_endian n bit_length)
unfolding add_length big_endian
add_length-Holds zero bit_length h m holds = rw append-nil holds
add_length-Holds (suc n) bit_length h m holds =
    let byte = bit_length / 2 ^ (8 * n) % 256 in
    rw (sym (append_assoc m (byte ∷ []) (big_endian n bit_length))) (
      add_length-Holds n bit_length (add_byte byte h) (m ++ byte ∷ [])
        (add_byte-Holds h m byte holds))

add_byte-bits : (b : ℕ) (h : Hasher) → (add_byte b h).bits ≡ h.bits
unfolding add_byte
add_byte-bits b h = ground arith

update-bits :
    (bytes : Bytes) (h : Hasher)
    → h.bits < 2 ^ 64
    → (update bytes h).bits ≡ (h.bits + 8 * length bytes) % 2 ^ 64
unfolding update
update-bits [] h low = omega arith
update-bits (b ∷ bytes) h low =
    let added = record (add_byte b h) { bits = ((add_byte b h).bits + 8) % 2 ^ 64 } in
    omega (arith, add_byte-bits b h, update-bits bytes added (omega arith))

-- The padding of FIPS 180-4: a one, as few zeros as fill the last block, and the length in bits.
unfoldable pub padded : Bytes → Bytes
unfolding big_endian
padded m =
    ((m ++ 128 ∷ []) ++ replicate (zeros (length m + 1)) 0) ++ big_endian 8 (8 * length m % 2 ^ 64)

length-big_endian : (n bit_length : ℕ) → length (big_endian n bit_length) ≡ n
unfolding big_endian
length-big_endian zero bit_length = refl
length-big_endian (suc n) bit_length = ap suc (length-big_endian n bit_length)

padded-blocks : (m : Bytes) → length (padded m) % 64 ≡ 0
unfolding padded
padded-blocks m =
    let z = zeros (length m + 1) in
    omega (
      arith,
      length-append {0} ((m ++ 128 ∷ []) ++ replicate z 0) (big_endian 8 (8 * length m % 2 ^ 64)),
      length-append {0} (m ++ 128 ∷ []) (replicate z 0),
      length-append {0} m (128 ∷ []),
      length-replicate {0} {A = ℕ} z 0,
      length-big_endian 8 (8 * length m % 2 ^ 64),
    )

new_hasher-Holds : Holds new_hasher []
unfolding hash_blocks
new_hasher-Holds = record {
  n = 0;
  hashed = refl;
  waiting = refl;
  low = omega arith;
  high = omega arith;
}

finished-Holds :
    (m : Bytes)
    → Holds
        (add_length 8
          (update m new_hasher).bits
          (pad_zeros 64 (add_byte 128 (update m new_hasher))))
        (padded m)
unfolding padded
finished-Holds m =
    let fed = update-Holds m new_hasher [] new_hasher-Holds in
    let marked = add_byte-Holds (update m new_hasher) m 128 fed in
    let filled = pad_zeros-Holds 64 _ (m ++ 128 ∷ []) (omega arith) marked in
    let bits : (update m new_hasher).bits ≡ 8 * length m % 2 ^ 64 =
      update-bits m new_hasher (omega arith) ∙ ap (λ n. n % 2 ^ 64) (omega arith) in
    let longer : length (m ++ 128 ∷ []) ≡ length m + 1 = length-append m (128 ∷ []) in
    let marked_bytes = m ++ 128 ∷ [] in
    subst (Holds _) (λ i. (marked_bytes ++ replicate (zeros (longer i)) 0) ++ big_endian 8 (bits i))
      (add_length-Holds 8 (update m new_hasher).bits _
        (marked_bytes ++ replicate (zeros (length marked_bytes)) 0) filled)

-- The digest of a message is the eight words, in hexadecimal, of the hash over the blocks of the
-- padded message, which has whole blocks of 64 bytes: the padding is a byte 0x80, the fewest zeros
-- that leave room for eight bytes, and the length of the message in bits, modulo 2 ^ 64.
pub sha256_hex_lem :
    (m : Bytes)
    → (sha256_hex m ≡ hex_words (hash_blocks (length (padded m) / 64) (padded m)))
      × (length (padded m) % 64 ≡ 0)
unfolding sha256_hex hex_digest
sha256_hex_lem m =
    let done = finished-Holds m in
    let whole = padded-blocks m in
    let count : done.n ≡ length (padded m) / 64 = omega (arith, done.low, done.high, whole) in
    (ap hex_words (done.hashed ∙ ap (λ n. hash_blocks n (padded m)) count), whole)
