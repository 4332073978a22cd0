-- ===== src/Deployment/Digits.antt =====
-- src/deployment_contract.cpp: `parse_u32` reads back the digits of every 32-bit number.
use ninfer_nvfp4_glm_5_3_fla.Prelude.{
  ℕ, zero, suc, ◌+◌, ◌*◌, ◌/◌, ◌%◌, ◌^◌, ◌≤◌, ◌<◌, ◌≡◌, inl, inr, refl, sym, ap, ◌∙◌, true, false,
  [], ◌∷◌, ◌++◌, append_assoc, some, arith, ltb, leb, Bytes, digits, decimal, is_empty, get_or,
  Bool-cases, tests, ok, bind-eq-ok, Option-cases,
}
use ninfer_nvfp4_glm_5_3_fla.Deployment.Strings.{is_digit, read_digits, from_chars}
use ninfer_nvfp4_glm_5_3_fla.Deployment.Env.{EnvMap, find, require, parse_u32, parse_value}

digit_step :
    (n d : ℕ) (s : Bytes) → d < 10 → read_digits n ((48 + d) ∷ s) ≡ read_digits (n * 10 + d) s
unfolding read_digits
digit_step n d s h =
    let digit : is_digit (48 + d) ≡ true = ground arith in
    rw digit (ap (λ m. read_digits m s) (omega arith))

read_digits-digits :
    (fuel n : ℕ) (s : Bytes) → n < fuel → read_digits 0 (digits fuel n ++ s) ≡ read_digits n s
unfolding digits
read_digits-digits zero n s h = absurd (omega arith)
read_digits-digits (suc fuel) n s h = elim (Bool-cases (ltb n 10)) [
  | inl e ↦ rw e (digit_step 0 n s (omega tests) ∙ ap (λ m. read_digits m s) (omega arith))
  | inr e ↦
      let big : 10 ≤ n = ground arith in
      rw e (
        ap (read_digits 0) (append_assoc (digits fuel (n / 10)) ((48 + n % 10) ∷ []) s)
        ∙ read_digits-digits fuel (n / 10) ((48 + n % 10) ∷ s) (omega arith)
        ∙ digit_step (n / 10) (n % 10) s (omega arith)
        ∙ ap (λ m. read_digits m s) (omega arith))
]

pub front_digit :
    (fuel n : ℕ) (s : Bytes) → n < fuel → is_digit (get_or (digits fuel n ++ s) 0 0) ≡ true
unfolding digits
front_digit zero n s h = absurd (omega arith)
front_digit (suc fuel) n s h = elim (Bool-cases (ltb n 10)) [
  | inl e ↦ rw e (ground (arith, e))
  | inr e ↦
      let big : 10 ≤ n = ground arith in
      rw (e, append_assoc (digits fuel (n / 10)) ((48 + n % 10) ∷ []) s)
        (front_digit fuel (n / 10) ((48 + n % 10) ∷ s) (omega arith))
]

append_nil : (s : Bytes) → s ++ [] ≡ s
append_nil [] = refl
append_nil (c ∷ s) = ap (λ t. c ∷ t) (append_nil s)

append_full : (s : Bytes) (c : ℕ) → is_empty (s ++ (c ∷ [])) ≡ false
append_full [] c = refl
append_full (d ∷ s) c = refl

from_chars-decimal : (n : ℕ) → n < 2 ^ 32 → from_chars (decimal n) ≡ some (n, [])
unfolding from_chars read_digits
from_chars-decimal n h =
    let written = digits (n + 1) n in
    let read : read_digits 0 written ≡ (n, []) =
      ap (read_digits 0) (sym (append_nil written))
      ∙ read_digits-digits (n + 1) n [] (omega arith) in
    let front : is_digit (get_or written 0 0) ≡ true =
      ap (λ s. is_digit (get_or s 0 0)) (sym (append_nil written))
      ∙ front_digit (n + 1) n [] (omega arith) in
    let small : leb (2 ^ 32) n ≡ false = ground arith in rw (front, read, small) refl

digits_full : (fuel n : ℕ) → n < fuel → is_empty (digits fuel n) ≡ false
unfolding digits
digits_full zero n h = absurd (omega arith)
digits_full (suc fuel) n h = elim (Bool-cases (ltb n 10)) [
  | inl e ↦ rw e refl
  | inr e ↦ rw e (append_full (digits fuel (n / 10)) (48 + n % 10))
]

parse_value-decimal : (key : Bytes) (n : ℕ) → n < 2 ^ 32 → parse_value key (decimal n) ≡ ok n
unfolding parse_value
parse_value-decimal key n h = rw (from_chars-decimal n h, parse_value) refl

-- A number below 2 ^ 32 whose decimal digits stand under a key is what `parse_u32` gives for it.
pub parse_u32-decimal :
    (env : EnvMap) (key : Bytes) (n : ℕ)
    → n < 2 ^ 32
    → find key env ≡ some (decimal n)
    → parse_u32 env key ≡ ok n
unfolding parse_u32 require
parse_u32-decimal env key n h e =
    let written = digits (n + 1) n in
    let full : is_empty written ≡ false = digits_full (n + 1) n (omega arith) in
    let required : require env key ≡ ok written = rw (e, require, full) refl in
    rw (required, parse_u32) (parse_value-decimal key n h)

from_chars_bounds : (s : Bytes) {n : ℕ} {rest : Bytes} → from_chars s ≡ some (n, rest) → n < 2 ^ 32
unfolding from_chars
from_chars_bounds s {n} {rest} h = ground arith

parse_value_bounds : (key value : Bytes) (n : ℕ) → parse_value key value ≡ ok n → n < 2 ^ 32
unfolding parse_value
parse_value_bounds key value n h = elim (Option-cases (from_chars value)) [
  | inl e ↦ absurd (ground (arith, rw (e, parse_value) at h))
  | inr ((parsed, rest), e) ↦
      let small = from_chars_bounds value e in ground (arith, small, rw (e, parse_value) at h)
]

-- Every number that `parse_u32` gives is below 2 ^ 32.
pub parse_u32_bounds : (env : EnvMap) (key : Bytes) (n : ℕ) → parse_u32 env key ≡ ok n → n < 2 ^ 32
unfolding parse_u32
parse_u32_bounds env key n h =
    let (value, h1, h2) = bind-eq-ok (require env key) (parse_value key) h in
    parse_value_bounds key value n h2
