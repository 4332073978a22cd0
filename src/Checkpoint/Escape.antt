-- ===== src/Checkpoint/Escape.antt =====
-- src/checkpoint_binding.cpp: `json_escape`.
use ninfer_nvfp4_glm_5_3_fla.Prelude.{
  ℕ, ◌+◌, ◌/◌, ◌%◌, [], ◌∷◌, ◌++◌, ltb, ◌==◌, if◌then◌else◌, Bytes,
}

-- `kDigits[d]` below 16, of "0123456789abcdef".
abbrev pub hex_digit : ℕ → ℕ
hex_digit d = if ltb d 10 then 48 + d else 87 + d

unfoldable pub escape_byte : ℕ → Bytes
escape_byte ch =
    if ch == 34
    then 92 ∷ 34 ∷ []
    else if ch == 92
    then 92 ∷ 92 ∷ []
    else if ch == 10
    then 92 ∷ 110 ∷ []
    else if ch == 13
    then 92 ∷ 114 ∷ []
    else if ch == 9
    then 92 ∷ 116 ∷ []
    else if ltb ch 32
    then 92 ∷ 117 ∷ 48 ∷ 48 ∷ hex_digit (ch / 16) ∷ hex_digit (ch % 16) ∷ []
    else ch ∷ []

unfoldable pub json_escape : Bytes → Bytes
json_escape [] = []
json_escape (ch ∷ value) = escape_byte ch ++ json_escape value
