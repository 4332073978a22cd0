-- ===== src/TextForward/Bf16.antt =====
-- src/text_forward.cpp: floats as bfloat16 numbers, by their bits.
use ninfer_nvfp4_glm_5_3_fla.Prelude.{
  ℕ, ◌+◌, ◌*◌, ◌/◌, ◌%◌, ◌^◌, ◌≤◌, ◌<◌, ◌≡◌, Bool, false, arith, ltb, if◌then◌else◌, Bool-cases,
  inl, inr,
}

-- `(bits & 0x7fffffffU) > 0x7f800000U`
abbrev is_nan_bits : ℕ → Bool
is_nan_bits bits = ltb 0x7f800000 (bits % 2 ^ 31)

unfoldable pub bf16_to_f32 : ℕ → ℕ
bf16_to_f32 bits = bits * 2 ^ 16 % 2 ^ 32

-- The bits with the rounding added, which wrap.
abbrev pub rounded_up : ℕ → ℕ
rounded_up bits = (bits + (0x7fff + bits / 2 ^ 16 % 2)) % 2 ^ 32

unfoldable pub f32_to_bf16 : ℕ → ℕ
f32_to_bf16 bits = if is_nan_bits bits then bits / 2 ^ 16 else rounded_up bits / 2 ^ 16

unfoldable pub round_bf16_store : ℕ → ℕ
round_bf16_store bits =
    if is_nan_bits bits
    then bits / 2 ^ 16 * 2 ^ 16 % 2 ^ 32
    else rounded_up bits / 2 ^ 16 * 2 ^ 16 % 2 ^ 32

-- What it means that `half` is the bfloat16 number nearest to the bits of a float, the even one of
-- two: their distance is half a unit at most, and half a unit only from an even number.
abbrev pub IsNearest : ℕ → ℕ → Type 0
IsNearest bits half =
    (bits ≤ half * 2 ^ 16 + 2 ^ 15)
    × (half * 2 ^ 16 ≤ bits + 2 ^ 15)
    × (bits % 2 ^ 16 ≡ 2 ^ 15 → half % 2 ≡ 0)

nearest :
    (bits : ℕ) → bits < 2 ^ 32 → bits % 2 ^ 31 ≤ 0x7f800000 → IsNearest bits (f32_to_bf16 bits)
unfolding f32_to_bf16
nearest bits hb number =
    let finite : is_nan_bits bits ≡ false = ground arith in
    let small : bits ≤ 0xff800000 = omega arith in
    let whole : rounded_up bits ≡ bits + (0x7fff + bits / 2 ^ 16 % 2) = omega arith in
    rw (finite, whole) (omega arith, omega arith, λ tie. omega arith)

stored : (bits : ℕ) → round_bf16_store bits ≡ bf16_to_f32 (f32_to_bf16 bits)
unfolding f32_to_bf16 bf16_to_f32 round_bf16_store
stored bits = ground arith

returned : (half : ℕ) → half < 2 ^ 16 → f32_to_bf16 (bf16_to_f32 half) ≡ half
unfolding f32_to_bf16 bf16_to_f32
returned half hh =
    let wide : half * 2 ^ 16 % 2 ^ 32 ≡ half * 2 ^ 16 = omega arith in
    elim (Bool-cases (is_nan_bits (half * 2 ^ 16 % 2 ^ 32))) [
      | inl nan ↦ rw nan (omega arith)
      | inr finite ↦ rw finite (omega arith)
    ]

-- A float that is no NaN is rounded to the nearest bfloat16 number, the even one of two; the store
-- rounds every float, a NaN too, as the conversion there and back does; and a bfloat16 number, a NaN
-- too, comes back from a float as it was.
pub f32_to_bf16-IsNearest :
    (number any half : ℕ)
    → number < 2 ^ 32
    → number % 2 ^ 31 ≤ 0x7f800000
    → half < 2 ^ 16
    → IsNearest number (f32_to_bf16 number)
      × (round_bf16_store any ≡ bf16_to_f32 (f32_to_bf16 any))
      × (f32_to_bf16 (bf16_to_f32 half) ≡ half)
f32_to_bf16-IsNearest number any half hb finite hh =
    (nearest number hb finite, stored any, returned half hh)
