-- ===== src/JsonScan.antt =====
-- src/json_scan.hpp: the tokens that a `Cursor` reads from a JSON text.
pub mod Skip
pub mod Find
pub mod Fuel
pub mod Shrink
pub mod Returns
pub mod Numbers
pub mod Values
pub mod Printed
pub mod Nested
pub mod TooDeep
mod Tests
use ninfer_nvfp4_glm_5_3_fla.Prelude.{
  ℕ, zero, suc, ◌+◌, ◌-◌, ◌*◌, ◌/◌, ◌%◌, ◌^◌, Bool, true, false, not, ◌&&◌, ◌||◌, [], ◌∷◌, ◌++◌,
  Option, none, some, ltb, leb, ◌==◌, if◌then◌else◌, text, Bytes, length, drop, get_or, decimal,
  is_empty, runtime_error, logic_error, Result, ok, threw, bind, ◌>>=◌,
}
use ninfer_nvfp4_glm_5_3_fla.Schema.{ℤ, pos, negsuc}
use ninfer_nvfp4_glm_5_3_fla.Deployment.Strings.{is_space, is_digit, starts_with}

-- A cursor over `in_` is what is left of it behind `i_`; `size` is `in_.size()`, so that `i_` is the
-- size less the length of the rest. The member `depth_` stands in JsonScan/Skip.
unfoldable pub fail : {A : Type 0} → ℕ → Bytes → Bytes → Result A
fail size message rest =
    threw (
      runtime_error
        (text "json: " ++ message ++ text " at offset " ++ decimal (size - length rest)))

-- `in_[i_]`; zero, which no test asks for, behind the end.
abbrev pub front : Bytes → ℕ
front s = get_or s 0 0

unfoldable pub skip_ws : Bytes → Bytes
skip_ws [] = []
skip_ws (ch ∷ s) = if is_space ch then skip_ws s else ch ∷ s

abbrev pub peek_at : ℕ → Bytes → Result (ℕ × Bytes)
peek_at size [] = fail size (text "unexpected end") []
peek_at size (ch ∷ s) = ok (ch, ch ∷ s)

-- The character, and the rest that starts with it.
unfoldable pub peek : ℕ → Bytes → Result (ℕ × Bytes)
peek size s = peek_at size (skip_ws s)

-- The character, and the rest behind it.
unfoldable pub get : ℕ → Bytes → Result (ℕ × Bytes)
unfolding peek
get size s = do next ← peek size s; ok (next.0, drop 1 next.1)

unfoldable pub expect : ℕ → ℕ → Bytes → Result Bytes
unfolding get
expect size ch s = do
  next ← get size s
  if next.0 == ch then ok next.1 else fail size (text "expected delimiter") next.1

unfoldable pub hex_value : ℕ → Option ℕ
hex_value h =
    if leb 48 h && leb h 57
    then some (h - 48)
    else if leb 97 h && leb h 102
    then some (h - 97 + 10)
    else if leb 65 h && leb h 70
    then some (h - 65 + 10)
    else none

-- The four rounds of `append_unicode`, behind the test of the length.
unfoldable pub hex_code : ℕ → ℕ → ℕ → Bytes → Result (ℕ × Bytes)
hex_code size zero unit s = ok (unit, s)
hex_code size (suc n) unit [] = fail size (text "truncated unicode escape") []
hex_code size (suc n) unit (h ∷ s) = elim (hex_value h) [
  | none ↦ fail size (text "invalid hex") s
  | some v ↦ hex_code size n (unit * 16 + v) s
]

-- The UTF-8 bytes of a code unit; `0xC0 | x` is `192 + x` where the bits are apart.
unfoldable pub utf8 : ℕ → Bytes
utf8 unit =
    if ltb unit 128
    then unit ∷ []
    else if ltb unit 2048
    then (192 + unit / 64) ∷ (128 + unit % 64) ∷ []
    else (224 + unit / 4096) ∷ (128 + unit / 64 % 64) ∷ (128 + unit % 64) ∷ []

unfoldable pub append_unicode : ℕ → Bytes → Result (Bytes × Bytes)
append_unicode size s =
    if ltb (length s) 4
    then fail size (text "truncated unicode escape") s
    else do read ← hex_code size 4 0 s; ok (utf8 read.0, read.1)

-- What stands for an escape, given what follows the backslash.
unfoldable pub unescape : ℕ → Bytes → Result (Bytes × Bytes)
unescape size [] = fail size (text "truncated escape") []
unescape size (escaped ∷ s) =
    if escaped == 34 || escaped == 92 || escaped == 47
    then ok (escaped ∷ [], s)
    else if escaped == 98
    then ok (8 ∷ [], s)
    else if escaped == 102
    then ok (12 ∷ [], s)
    else if escaped == 110
    then ok (10 ∷ [], s)
    else if escaped == 114
    then ok (13 ∷ [], s)
    else if escaped == 116
    then ok (9 ∷ [], s)
    else if escaped == 117
    then append_unicode size s
    else fail size (text "invalid escape") s

-- A loop whose fuel is spent before its text. The scanner itself throws no `logic_error`.
unfoldable pub out_of_fuel : {A : Type 0} → Result A
out_of_fuel = threw (logic_error (text "out of fuel"))

-- The loop of `parse_string`. Its fuel is the length of the rest, of which a round takes a character.
unfoldable pub string_body : ℕ → ℕ → Bytes → Bytes → Result (Bytes × Bytes)
string_body size zero out [] = fail size (text "unterminated string") []
string_body size zero out (ch ∷ s) = out_of_fuel
string_body size (suc fuel) out [] = fail size (text "unterminated string") []
string_body size (suc fuel) out (ch ∷ s) =
    let plain = string_body size fuel (out ++ ch ∷ []) s in
    let escape = bind (unescape size s) (λ read. string_body size fuel (out ++ read.0) read.1) in
    if ch == 34 then ok (out, s) else if ch == 92 then escape else plain

unfoldable pub parse_string : ℕ → Bytes → Result (Bytes × Bytes)
unfolding get
parse_string size s = do
  next ← get size s
  if next.0 == 34
      then string_body size (length next.1) [] next.1
      else fail size (text "expected string") next.1

abbrev pub int64_max : ℕ
int64_max = 2 ^ 63 - 1

unfoldable pub int_digits : ℕ → ℕ → Bytes → Result (ℕ × Bytes)
int_digits size value [] = ok (value, [])
int_digits size value (ch ∷ s) =
    let next = int_digits size (value * 10 + (ch - 48)) s in
    if is_digit ch
    then (if ltb ((int64_max - (ch - 48)) / 10) value
        then fail size (text "integer overflow") (ch ∷ s)
        else next)
    else ok (value, ch ∷ s)

abbrev pub negated : ℕ → ℤ
negated zero = pos 0
negated (suc n) = negsuc n

-- `parse_int` behind its digits, given the sign and what `int_digits` read.
unfoldable pub signed_value : ℕ → Bool → ℕ × Bytes → Result (ℤ × Bytes)
signed_value size neg (value, s) =
    if front s == 46 || front s == 101 || front s == 69
    then fail size (text "expected integer") s
    else if neg && value == int64_max
    then fail size (text "integer overflow") s
    else ok (if neg then negated value else pos value, s)

unfoldable pub parse_int : ℕ → Bytes → Result (ℤ × Bytes)
parse_int size s =
    let start = skip_ws s in
    let neg = front start == 45 in
    let unsigned = if neg then drop 1 start else start in
    if is_digit (front unsigned)
    then int_digits size 0 unsigned >>= signed_value size neg
    else fail size (text "expected integer") unsigned

unfoldable pub parse_bool : ℕ → Bytes → Result (Bool × Bytes)
parse_bool size s =
    let start = skip_ws s in
    if starts_with (text "true") start
    then ok (true, drop 4 start)
    else if starts_with (text "false") start
    then ok (false, drop 5 start)
    else fail size (text "expected boolean") start
