-- ===== src/JsonScan/Find.antt =====
-- src/json_scan.hpp: the search for a key in a text, and the value behind it.
use ninfer_nvfp4_glm_5_3_fla.Prelude.{
  ℕ, zero, suc, Bool, ◌||◌, List, [], ◌∷◌, ◌++◌, Option, none, some, ◌==◌, if◌then◌else◌, text,
  Bytes, length, drop, Result, ok, bind, ◌>>=◌,
}
use ninfer_nvfp4_glm_5_3_fla.Schema.{ℤ}
use ninfer_nvfp4_glm_5_3_fla.Deployment.Strings.{is_digit, starts_with}
use ninfer_nvfp4_glm_5_3_fla.JsonScan.{
  out_of_fuel, fail, front, skip_ws, peek, expect, parse_string, parse_int, parse_bool,
}

-- `text.find(pattern, pos)` for a pattern that is not empty: what stands behind it.
unfoldable pub find_part : Bytes → Bytes → Option Bytes
find_part pattern [] = none
find_part pattern (c ∷ s) =
    if starts_with pattern (c ∷ s)
    then some (drop (length pattern) (c ∷ s))
    else find_part pattern s

-- The loop of `find_key_value`, on the text from `pos` on. A round takes the pattern, so that the
-- length of the text is fuel enough.
unfoldable pub key_value_from : Bytes → ℕ → Bytes → Option Bytes
key_value_from pattern zero s = none
key_value_from pattern (suc fuel) s = elim (find_part pattern s) [
  | none ↦ none
  | some behind ↦
      let colon = skip_ws behind in
      let more = key_value_from pattern fuel behind in
      if front colon == 58 then some (drop 1 colon) else more
]

-- What stands behind the colon, in place of its offset; `none` is `npos`.
unfoldable pub find_key_value : Bytes → Bytes → Option Bytes
find_key_value s key = key_value_from (34 ∷ (key ++ 34 ∷ [])) (length s) s

-- A value is read if its first character passes a test.
abbrev pub read_if {ℓ} :
    {A : Type ℓ} → ℕ → (ℕ → Bool) → (Bytes → Result (A × Bytes)) → Bytes → Result (Option A)
read_if size test read s = do
  next ← peek size s
  if test next.0 then bind (read next.1) (λ value. ok (some value.0)) else ok none

unfoldable pub find_string : Bytes → Bytes → Result (Option Bytes)
find_string s key = elim (find_key_value s key) [
  | none ↦ ok none
  | some at ↦ read_if (length s) (λ ch. ch == 34) (parse_string (length s)) at
]

unfoldable pub find_int : Bytes → Bytes → Result (Option ℤ)
find_int s key = elim (find_key_value s key) [
  | none ↦ ok none
  | some at ↦ read_if (length s) (λ ch. ch == 45 || is_digit ch) (parse_int (length s)) at
]

unfoldable pub find_bool : Bytes → Bytes → Result (Option Bool)
find_bool s key = elim (find_key_value s key) [
  | none ↦ ok none
  | some at ↦ read_if (length s) (λ ch. ch == 116 || ch == 102) (parse_bool (length s)) at
]

-- The loop of `find_int_array`; a round takes a character, as in the loops of JsonScan/Skip.
unfoldable pub int_elements : ℕ → ℕ → List ℤ → Bytes → Result (Option (List ℤ))
int_elements size zero values [] = fail size (text "expected integer") []
int_elements size zero values (ch ∷ s) = out_of_fuel
int_elements size (suc fuel) values s = do
  value ← parse_int size s
  next ← peek size value.1
  let more = bind (expect size 44 next.1) (int_elements size fuel (values ++ value.0 ∷ []))
  if next.0 == 44
      then more
      else if next.0 == 93
      then bind (expect size 93 next.1) (λ rest. ok (some (values ++ value.0 ∷ [])))
      else ok none

abbrev pub int_array_at : ℕ → Bytes → Result (Option (List ℤ))
int_array_at size at = do
  next ← peek size at
  let elements = do
    inside ← expect size 91 next.1
    first ← peek size inside
    if first.0 == 93
        then bind (expect size 93 first.1) (λ rest. ok (some []))
        else int_elements size (length first.1) [] first.1
  if next.0 == 91 then elements else ok none

unfoldable pub find_int_array : Bytes → Bytes → Result (Option (List ℤ))
find_int_array s key = elim (find_key_value s key) [
  | none ↦ ok none
  | some at ↦ int_array_at (length s) at
]
