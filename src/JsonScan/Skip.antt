-- ===== src/JsonScan/Skip.antt =====
-- src/json_scan.hpp: `skip_value`, with the depth of the containers that it is in.
use ninfer_nvfp4_glm_5_3_fla.Prelude.{
  ℕ, zero, suc, ◌||◌, ◌∷◌, [], ◌==◌, if◌then◌else◌, text, Bytes, length, drop, Result, ok, bind,
  ◌>>=◌,
}
use ninfer_nvfp4_glm_5_3_fla.Deployment.Strings.{is_digit, starts_with}
use ninfer_nvfp4_glm_5_3_fla.JsonScan.{
  out_of_fuel, fail, front, skip_ws, peek, expect, parse_string, parse_bool,
}

unfoldable pub skip_digits : Bytes → Bytes
skip_digits [] = []
skip_digits (ch ∷ s) = if is_digit ch then skip_digits s else ch ∷ s

-- The exponent, which may be missing.
unfoldable pub skip_exponent : ℕ → Bytes → Result Bytes
skip_exponent size s =
    let marked = drop 1 s in
    let start = if front marked == 43 || front marked == 45 then drop 1 marked else marked in
    if front s == 101 || front s == 69
    then (if is_digit (front start)
        then ok (skip_digits start)
        else fail size (text "expected exponent") start)
    else ok s

unfoldable pub skip_number : ℕ → Bytes → Result Bytes
skip_number size s =
    let start = skip_ws s in
    let unsigned = if front start == 45 then drop 1 start else start in
    let whole = skip_digits unsigned in
    let fraction = if front whole == 46 then skip_digits (drop 1 whole) else whole in
    if is_digit (front unsigned)
    then skip_exponent size fraction
    else fail size (text "expected number") unsigned

unfoldable pub skip_null : ℕ → Bytes → Result Bytes
skip_null size s =
    if starts_with (text "null") s then ok (drop 4 s) else fail size (text "expected null") s

-- What follows an entry of an object or an array: the loop goes on behind a comma, and ends behind
-- the bracket.
abbrev pub separated : ℕ → ℕ → Bytes → (Bytes → Result Bytes) → ℕ × Bytes → Result Bytes
separated size close message more next =
    if next.0 == 44
    then more (drop 1 next.1)
    else if next.0 == close
    then ok (drop 1 next.1)
    else fail size message next.1

-- The loops of `skip_object` and `skip_array`. Their fuel is the length of the rest, of which a round
-- takes a character; at the end of the text, the next `peek` refuses.
unfoldable pub skip_members : ℕ → (Bytes → Result Bytes) → ℕ → Bytes → Result Bytes
skip_members size skip zero [] = fail size (text "unexpected end") []
skip_members size skip zero (ch ∷ s) = out_of_fuel
skip_members size skip (suc fuel) s = do
  key ← parse_string size s
  value ← expect size 58 key.1
  rest ← skip value
  next ← peek size rest
  separated size 125 (text "expected ',' or '}'") (skip_members size skip fuel) next

unfoldable pub skip_elements : ℕ → (Bytes → Result Bytes) → ℕ → Bytes → Result Bytes
skip_elements size skip zero [] = fail size (text "unexpected end") []
skip_elements size skip zero (ch ∷ s) = out_of_fuel
skip_elements size skip (suc fuel) s = do
  rest ← skip s
  next ← peek size rest
  separated size 93 (text "expected ',' or ']'") (skip_elements size skip fuel) next

-- `skip_object` and `skip_array` inside `enter_container`, given how a value inside is skipped.
unfoldable pub skip_object : ℕ → (Bytes → Result Bytes) → Bytes → Result Bytes
skip_object size skip s = do
  inside ← expect size 123 s
  next ← peek size inside
  if next.0 == 125 then ok (drop 1 next.1) else skip_members size skip (length next.1) next.1

unfoldable pub skip_array : ℕ → (Bytes → Result Bytes) → Bytes → Result Bytes
skip_array size skip s = do
  inside ← expect size 91 s
  next ← peek size inside
  if next.0 == 93 then ok (drop 1 next.1) else skip_elements size skip (length next.1) next.1

-- The tests of `skip_value` on the next character, given what it does with both containers.
unfoldable pub skip_kind :
    ℕ → (Bytes → Result Bytes) → (Bytes → Result Bytes) → ℕ → Bytes → Result Bytes
skip_kind size object array ch s =
    if ch == 34
    then bind (parse_string size s) (λ read. ok read.1)
    else if ch == 123
    then object s
    else if ch == 91
    then array s
    else if ch == 116 || ch == 102
    then bind (parse_bool size s) (λ read. ok read.1)
    else if ch == 110
    then skip_null size s
    else if ch == 45 || is_digit ch
    then skip_number size s
    else fail size (text "expected value") s

abbrev pub too_deep : ℕ → Bytes → Result Bytes
too_deep size s = fail size (text "maximum nesting depth exceeded") s

abbrev pub max_nesting_depth : ℕ
max_nesting_depth = 64

-- `room` is what `depth_` leaves up to the greatest depth: `enter_container` takes one for the values
-- inside, and what `leave_container` gives back is the caller's own.
unfoldable pub skip_nested : ℕ → ℕ → Bytes → Result Bytes
skip_nested size zero s = do
  next ← peek size s
  skip_kind size (too_deep size) (too_deep size) next.0 next.1
skip_nested size (suc room) s = do
  next ← peek size s
  skip_kind size (skip_object size (skip_nested size room))
      (skip_array size (skip_nested size room)) next.0 next.1

-- A cursor is made at depth 0, and every call that returns leaves it there.
abbrev pub skip_value : ℕ → Bytes → Result Bytes
skip_value size s = skip_nested size max_nesting_depth s
