-- ===== src/Nvfp4/Formats.antt =====
-- src/nvfp4_decode.cpp: `e2m1` and `fp8_e4m3_to_f32`. Their values are dyadic, so a value is a sign
-- and a count of units: halves for E2M1, 2 ^ -9 for E4M3FN.
use ninfer_nvfp4_glm_5_3_fla.Prelude.{
  ℕ, zero, suc, ◌+◌, ◌-◌, ◌*◌, ◌/◌, ◌%◌, ◌^◌, ◌≤◌, ◌<◌, ◌≡◌, ◌↔◌, refl, Bool, true, false, not,
  ◌&&◌, List, [], ◌∷◌, arith, ltb, ◌==◌, if◌then◌else◌, get_or, ==_iff, ltb→lt,
}

-- A float that is a multiple of a unit, with its sign bit.
pub record Dyadic : Type 0 where
  pub negative : Bool
  pub units : ℕ

-- A float that `fp8_e4m3_to_f32` gives.
pub data Fp8 : Type 0 where
  nan : Bool → Fp8
  finite : Dyadic → Fp8

-- `kE2M1`, in halves.
abbrev pub e2m1_table : List ℕ
e2m1_table = 0 ∷ 1 ∷ 2 ∷ 3 ∷ 4 ∷ 6 ∷ 8 ∷ 12 ∷ []

unfoldable pub e2m1 : ℕ → Dyadic
e2m1 nibble = record {
  negative = not (nibble / 8 % 2 == 0);
  units = get_or e2m1_table (nibble % 8) 0;
}

unfoldable pub fp8_e4m3_to_f32 : ℕ → Fp8
fp8_e4m3_to_f32 bits =
    let exponent = bits / 8 % 16 in
    let mantissa = bits % 8 in
    let negative = not (bits / 128 % 2 == 0) in
    if exponent == 0
    then finite (record { negative = negative; units = mantissa })
    else if exponent == 15 && mantissa == 7
    then nan negative
    else finite (record { negative = negative; units = (8 + mantissa) * 2 ^ (exponent - 1) })

-- A test that passes on every code below a bound, as a table that is computed.
each_code : ℕ → (ℕ → Bool) → Bool
each_code zero test = true
each_code (suc bound) test = each_code bound test && test bound

each_code_lem :
    (bound code : ℕ) (test : ℕ → Bool)
    → code < bound
    → each_code bound test ≡ true
    → test code ≡ true
unfolding each_code
each_code_lem zero code test below table = absurd (omega arith)
each_code_lem (suc bound) code test below table = ground (arith, each_code_lem bound code test)

-- The magnitude of an E2M1 code by its fields: two bits of exponent and one of mantissa.
abbrev pub e2m1_fields : ℕ → ℕ → ℕ
e2m1_fields exponent mantissa =
    if exponent == 0 then mantissa else (2 + mantissa) * 2 ^ (exponent - 1)

e2m1_fields_table : each_code 16 (λ c. (e2m1 c).units == e2m1_fields (c / 2 % 4) (c % 2)) ≡ true
unfolding each_code e2m1
e2m1_fields_table = refl

-- Of the sixteen codes, the magnitude in halves is that of the E2M1 exponent and mantissa bits, and
-- the sign is bit 3.
pub e2m1-fields :
    (c : ℕ)
    → c < 16
    → ((e2m1 c).units ≡ e2m1_fields (c / 2 % 4) (c % 2)) × (((e2m1 c).negative ≡ true) ↔ (8 ≤ c))
unfolding e2m1
e2m1-fields c h = ((==_iff _ _).0 (each_code_lem 16 c _ h e2m1_fields_table), ground arith)

-- The units of a magnitude code below the NaN code.
abbrev pub magnitude : Fp8 → ℕ
magnitude (nan s) = 0
magnitude (finite d) = d.units

abbrev pub sign : Fp8 → Bool
sign (nan s) = s
sign (finite d) = d.negative

abbrev pub is_nan : Fp8 → Bool
is_nan (nan s) = true
is_nan (finite d) = false

fp8_table :
    each_code 256 (λ b.
      (if b % 128 == 127 then is_nan (fp8_e4m3_to_f32 b) else not (is_nan (fp8_e4m3_to_f32 b)))
      && (if ltb b 128 then not (sign (fp8_e4m3_to_f32 b)) else sign (fp8_e4m3_to_f32 b)))
    ≡ true
unfolding each_code fp8_e4m3_to_f32
fp8_table = refl

rising_table :
    each_code 126 (λ b. ltb (magnitude (fp8_e4m3_to_f32 b)) (magnitude (fp8_e4m3_to_f32 (b + 1))))
    ≡ true
unfolding each_code fp8_e4m3_to_f32
rising_table = refl

-- Of the codes of a byte, the NaN codes are 0x7f and 0xff, and bit 7 is the sign of every code, zero
-- and NaN included.
pub fp8_e4m3_to_f32-classes :
    (b : ℕ)
    → b < 256
    → ((is_nan (fp8_e4m3_to_f32 b) ≡ true) ↔ (b % 128 ≡ 127))
      × ((sign (fp8_e4m3_to_f32 b) ≡ true) ↔ (128 ≤ b))
fp8_e4m3_to_f32-classes b h =
    let row = each_code_lem 256 b _ h fp8_table in (ground arith, ground arith)

fp8_rises : (b : ℕ) → b < 126 → magnitude (fp8_e4m3_to_f32 b) < magnitude (fp8_e4m3_to_f32 (b + 1))
fp8_rises b h = ltb→lt _ _ (each_code_lem 126 b _ h rising_table)

fp8_rises_by :
    (a d : ℕ)
    → a + suc d < 127
    → magnitude (fp8_e4m3_to_f32 a) < magnitude (fp8_e4m3_to_f32 (a + suc d))
fp8_rises_by a zero h = fp8_rises a (omega arith)
fp8_rises_by a (suc d) h =
    let e : a + suc (suc d) ≡ a + suc d + 1 = omega arith in
    rw e (omega (arith, fp8_rises_by a d (omega arith), fp8_rises (a + suc d) (omega arith)))

-- Below the NaN code, a greater code without sign stands for a greater value.
pub fp8_e4m3_to_f32_mono :
    (a b : ℕ) → a < b → b < 127 → magnitude (fp8_e4m3_to_f32 a) < magnitude (fp8_e4m3_to_f32 b)
fp8_e4m3_to_f32_mono a b h hb =
    let e : b ≡ a + suc (b - a - 1) = omega arith in rw e (fp8_rises_by a (b - a - 1) (omega arith))
