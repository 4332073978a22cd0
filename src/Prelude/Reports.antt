-- ===== src/Prelude/Reports.antt =====
-- Error lists of validators: a sequence of `if (test) errors.emplace_back(message);`.
use mathlib.Core.Path.{◌≡◌, refl}
use mathlib.Core.Logic.{◌↔◌}
use Prim.Native.Nat.{ℕ, ◌<◌}
use mathlib.Core.Bool.{Bool, true, false, not, ◌||◌}
use mathlib.Core.List.{List, [], ◌∷◌, ◌++◌}
use native.Mathlib.Omega.{arith}
use ninfer_nvfp4_glm_5_3_fla.Prelude.Lists.{All}
use ninfer_nvfp4_glm_5_3_fla.Prelude.Texts.{Bytes, eq_list, eq_list_iff}
use ninfer_nvfp4_glm_5_3_fla.Prelude.Tests.{◌==◌}
use ninfer_nvfp4_glm_5_3_fla.Prelude.Doubles.{Double, double_eq, double_eq_lem}

-- A test with the message for the case that it holds.
infix 10 ◌reports◌
pub data Check : Type 0 where
  ◌reports◌ : Bool → Bytes → Check

abbrev pub failed : Check → Bool
failed (test reports message) = test

unfoldable pub failures : List Check → List Bytes
failures [] = []
failures ((true reports message) ∷ checks) = message ∷ failures checks
failures ((false reports message) ∷ checks) = failures checks

pub failures_iff :
    (checks : List Check) → (failures checks ≡ []) ↔ All (λ c. failed c ≡ false) checks
unfolding failures
failures_iff [] = ground arith
failures_iff ((true reports message) ∷ checks) = ground arith
failures_iff ((false reports message) ∷ checks) = ground (arith, failures_iff checks)

pub append_empty {ℓ} : {A : Type ℓ} (xs ys : List A) → xs ++ ys ≡ [] → (xs ≡ []) × (ys ≡ [])
append_empty [] ys h = (refl, h)
append_empty (x ∷ xs) ys h = cc

-- What a check that does not report says of its test.
pub either : (a b : Bool) → (a || b) ≡ false → (a ≡ false) × (b ≡ false)
either a b h = ground arith

pub holds : (a : Bool) → not a ≡ false → a ≡ true
holds a h = ground arith

pub same_nat : (a b : ℕ) → not (a == b) ≡ false → a ≡ b
same_nat a b h = ground arith

pub same_text : (xs ys : Bytes) → not (eq_list xs ys) ≡ false → xs ≡ ys
same_text xs ys h = (eq_list_iff xs ys).0 (holds _ h)

pub same_double : (a b : Double) → 0 < b.bits → not (double_eq a b) ≡ false → a ≡ b
same_double a b pos h = double_eq_lem a b pos (holds _ h)
