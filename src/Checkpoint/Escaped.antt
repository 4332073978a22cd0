-- ===== src/Checkpoint/Escaped.antt =====
-- src/checkpoint_binding.cpp and src/json_scan.hpp: what `json_escape` writes, `parse_string` reads.
use ninfer_nvfp4_glm_5_3_fla.Prelude.{
  ℕ, zero, suc, ◌+◌, ◌*◌, ◌/◌, ◌%◌, ◌≤◌, ◌<◌, ◌≡◌, refl, ap, ◌∙◌, [], ◌∷◌, ◌++◌, append_assoc,
  append-nil, length-append, some, arith, Bytes, length, ok,
}
use ninfer_nvfp4_glm_5_3_fla.JsonScan.{
  skip_ws, peek, get, hex_value, hex_code, utf8, append_unicode, unescape, string_body,
  parse_string,
}
use ninfer_nvfp4_glm_5_3_fla.Checkpoint.Escape.{hex_digit, escape_byte, json_escape}

hex_value-hex_digit : (d : ℕ) → d < 16 → hex_value (hex_digit d) ≡ some d
unfolding hex_value
hex_value-hex_digit d h = ground arith

hex_step :
    (size n unit h v : ℕ) (s : Bytes)
    → hex_value h ≡ some v
    → hex_code size (suc n) unit (h ∷ s) ≡ hex_code size n (unit * 16 + v) s
unfolding hex_code
hex_step size n unit h v s e = rw (e, hex_code) refl

module _ (size : ℕ) (out t : Bytes) where
  -- A backslash with the letter `e`, where the pair stands for `ch`.
  escaped :
      (n ch : ℕ) (letters : Bytes)
      → unescape size (letters ++ t) ≡ ok (ch ∷ [], t)
      → string_body size (suc n) out (92 ∷ (letters ++ t)) ≡ string_body size n (out ++ ch ∷ []) t
  unfolding string_body
  escaped n ch letters h = rw h refl

  hex_code-control :
      (ch : ℕ)
      → ch < 32
      → hex_code size 4 0 (48 ∷ 48 ∷ hex_digit (ch / 16) ∷ hex_digit (ch % 16) ∷ t) ≡ ok (ch, t)
  unfolding hex_code
  hex_code-control ch h =
      let high = hex_value-hex_digit (ch / 16) (omega arith) in
      let low = hex_value-hex_digit (ch % 16) (omega arith) in
      hex_step size 3 0 48 0 _ (hex_value-hex_digit 0 (omega arith))
      ∙ hex_step size 2 0 48 0 _ (hex_value-hex_digit 0 (omega arith))
      ∙ hex_step size 1 0 _ (ch / 16) _ high
      ∙ hex_step size 0 (0 * 16 + ch / 16) _ (ch % 16) t low
      ∙ ap (λ n. ok (n, t)) (omega arith)

  unescape-control :
      (ch : ℕ)
      → ch < 32
      → unescape size (117 ∷ 48 ∷ 48 ∷ hex_digit (ch / 16) ∷ hex_digit (ch % 16) ∷ t)
        ≡ ok (ch ∷ [], t)
  unfolding unescape append_unicode utf8
  unescape-control ch h = ground (arith, hex_code-control ch h)

  string_body-escape_byte :
      (n ch : ℕ)
      → string_body size (suc n) out (escape_byte ch ++ t) ≡ string_body size n (out ++ ch ∷ []) t
  unfolding escape_byte unescape string_body
  string_body-escape_byte n ch = ground (arith, unescape-control ch)

escape_byte-full : (ch : ℕ) → 0 < length (escape_byte ch)
unfolding escape_byte
escape_byte-full ch = ground arith

string_body-json_escape :
    (size n : ℕ) (out s rest : Bytes)
    → length (json_escape s ++ 34 ∷ rest) ≤ n
    → string_body size n out (json_escape s ++ 34 ∷ rest) ≡ ok (out ++ s, rest)
unfolding json_escape
string_body-json_escape size zero out [] rest h = absurd (omega arith)
string_body-json_escape size (suc n) out [] rest h = unfold string_body in rw append-nil refl
string_body-json_escape size zero out (ch ∷ s) rest h = absurd (
    omega (
      arith,
      escape_byte-full ch,
      length-append {0} (escape_byte ch ++ json_escape s) (34 ∷ rest),
      length-append {0} (escape_byte ch) (json_escape s),
    ))
string_body-json_escape size (suc n) out (ch ∷ s) rest h =
    rw (append_assoc (escape_byte ch) (json_escape s) (34 ∷ rest)) (
      string_body-escape_byte size out (json_escape s ++ 34 ∷ rest) n ch
      ∙ string_body-json_escape size n (out ++ ch ∷ []) s rest (
          omega (
            arith,
            escape_byte-full ch,
            length-append {0} (escape_byte ch ++ json_escape s) (34 ∷ rest),
            length-append {0} (escape_byte ch) (json_escape s),
            length-append {0} (json_escape s) (34 ∷ rest),
          ))
      ∙ ap (λ t. ok (t, rest)) (append_assoc out (ch ∷ []) s))

-- The parser of strings reads what the escaping writes, between double quotes: any bytes come back,
-- and what follows the closing quote is left.
pub parse_string-json_escape :
    (size : ℕ) (s rest : Bytes)
    → parse_string size (34 ∷ (json_escape s ++ 34 ∷ rest)) ≡ ok (s, rest)
unfolding parse_string get peek skip_ws
parse_string-json_escape size s rest = string_body-json_escape size _ [] s rest (omega arith)
