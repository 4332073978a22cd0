-- ===== src/Prelude/Doubles.antt =====
-- A `double` by its sign and the other 63 bits, as far as comparisons read it.
use Prim.Native.Nat.{ℕ, ◌+◌, ◌-◌, ◌<◌, ◌^◌, ◌*◌}
use mathlib.Core.Path.{◌≡◌, refl}
use mathlib.Core.Bool.{Bool, true, false, not, ◌&&◌}
use native.Mathlib.Omega.{arith}
use ninfer_nvfp4_glm_5_3_fla.Prelude.Tests.{ltb, leb, ◌==◌, if◌then◌else◌}

pub record Double : Type 0 where
  pub negative : Bool
  pub bits : ℕ

-- The bits of infinity; NaN has more.
abbrev pub infinity_bits : ℕ
infinity_bits = 2047 * 2 ^ 52

unfoldable pub double_is_nan : Double → Bool
double_is_nan d = ltb infinity_bits d.bits

-- Places a value in the order of the line; the two zeros share a place.
unfoldable pub place : Double → ℕ
place d = if d.negative then 2 ^ 63 - d.bits else 2 ^ 63 + d.bits

unfoldable pub double_eq : Double → Double → Bool
double_eq a b = not (double_is_nan a) && not (double_is_nan b) && place a == place b

unfoldable pub double_lt : Double → Double → Bool
double_lt a b = not (double_is_nan a) && not (double_is_nan b) && ltb (place a) (place b)

unfoldable pub double_le : Double → Double → Bool
double_le a b = not (double_is_nan a) && not (double_is_nan b) && leb (place a) (place b)

same_place :
    (s t : Bool) (m n : ℕ)
    → 0 < n
    → double_eq (record { negative = s; bits = m }) (record { negative = t; bits = n }) ≡ true
    → (s ≡ t) × (m ≡ n)
unfolding double_eq double_is_nan place
same_place true true m n h e = (refl, ground arith)
same_place false false m n h e = (refl, ground arith)
same_place true false m n h e = absurd (ground arith)
same_place false true m n h e = absurd (ground arith)

-- What equals a value other than zero is that value.
pub double_eq_lem : (a b : Double) → 0 < b.bits → double_eq a b ≡ true → a ≡ b
double_eq_lem a b h e =
    let (s, m) = same_place a.negative b.negative a.bits b.bits h e in
    λ i. record { negative = s i; bits = m i }
