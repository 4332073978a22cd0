-- ===== src/Prelude/Texts.antt =====
-- A `std::string` is the list of its bytes.
use Prim.Native.Nat.{ℕ, zero, suc, ◌+◌, ◌/◌, ◌%◌}
use Prim.Native.Char.{code}
use Prim.Native.String.{String}
use mathlib.Core.Path.{◌≡◌}
use mathlib.Core.Logic.{◌↔◌}
use mathlib.Core.Bool.{Bool, true, false, ◌&&◌}
use mathlib.Core.List.{List, [], ◌∷◌, ◌++◌}
use native.Mathlib.Omega.{arith}
use ninfer_nvfp4_glm_5_3_fla.Prelude.Tests.{◌==◌, ltb, if◌then◌else◌}

abbrev pub Bytes : Type 0
Bytes = List ℕ

-- The bytes of an ASCII literal. It is shut, so that a literal stays short in a proof.
unfoldable pub text : String → Bytes
text String.[] = []
text (String.◌∷◌ c s) = code c ∷ text s

-- `operator==` of `std::string` and of `std::vector` of integers.
unfoldable pub eq_list : List ℕ → List ℕ → Bool
eq_list [] [] = true
eq_list (x ∷ xs) (y ∷ ys) = x == y && eq_list xs ys
eq_list _ _ = false

pub eq_list_iff : (xs ys : List ℕ) → (eq_list xs ys ≡ true) ↔ (xs ≡ ys)
unfolding eq_list
eq_list_iff [] [] = ground arith
eq_list_iff [] (y ∷ ys) = ground arith
eq_list_iff (x ∷ xs) [] = ground arith
eq_list_iff (x ∷ xs) (y ∷ ys) = ground (arith, eq_list_iff xs ys)

-- `std::string::empty`
abbrev pub is_empty : Bytes → Bool
is_empty [] = true
is_empty (c ∷ s) = false

-- The decimal digits of a number, as `std::to_string` gives them.
unfoldable pub digits : ℕ → ℕ → Bytes
digits zero n = []
digits (suc fuel) n =
    let rest = digits fuel (n / 10) in
    if ltb n 10 then (48 + n) ∷ [] else rest ++ ((48 + n % 10) ∷ [])

-- A number has at most as many digits as its value, plus one.
abbrev pub decimal : ℕ → Bytes
decimal n = digits (n + 1) n
