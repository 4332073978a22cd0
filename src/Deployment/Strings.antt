-- ===== src/Deployment/Strings.antt =====
-- src/deployment_contract.cpp: the helpers on strings, and the functions of the C++ library that
-- they call.
use ninfer_nvfp4_glm_5_3_fla.Prelude.{
  ℕ, ◌+◌, ◌-◌, ◌*◌, ◌^◌, Bool, true, false, not, ◌&&◌, ◌||◌, [], ◌∷◌, Option, none, some, leb, ◌==◌,
  if◌then◌else◌, Bytes, length, take, drop, get_or, is_empty,
}

-- `std::isspace` and `std::isalnum` in the "C" locale.
abbrev pub is_space : ℕ → Bool
is_space ch = ch == 32 || leb 9 ch && leb ch 13

abbrev pub is_digit : ℕ → Bool
is_digit ch = leb 48 ch && leb ch 57

abbrev pub is_alnum : ℕ → Bool
is_alnum ch = is_digit ch || leb 65 ch && leb ch 90 || leb 97 ch && leb ch 122

-- `std::string::starts_with`, the prefix first.
unfoldable pub starts_with : Bytes → Bytes → Bool
starts_with [] s = true
starts_with (p ∷ ps) [] = false
starts_with (p ∷ ps) (c ∷ s) = p == c && starts_with ps s

-- `s.find(part) != npos`, the part first.
unfoldable pub contains : Bytes → Bytes → Bool
contains part [] = is_empty part
contains part (c ∷ s) = starts_with part (c ∷ s) || contains part s

-- `s.find(ch)`: what stands before and behind the character.
unfoldable pub split_at : ℕ → Bytes → Option (Bytes × Bytes)
split_at ch [] = none
split_at ch (c ∷ s) =
    if c == ch
    then some ([], s)
    else elim (split_at ch s) [ none ↦ none | some (before, behind) ↦ some (c ∷ before, behind) ]

-- The two calls of `erase` in `trim`.
unfoldable pub trim_start : Bytes → Bytes
trim_start [] = []
trim_start (ch ∷ s) = if is_space ch then trim_start s else ch ∷ s

unfoldable pub trim_end : Bytes → Bytes
trim_end [] = []
trim_end (ch ∷ s) = let rest = trim_end s in if is_empty rest && is_space ch then [] else ch ∷ rest

abbrev pub trim : Bytes → Bytes
trim s = trim_end (trim_start s)

pub record Quotes : Type 0 where
  pub in_single : Bool
  pub in_double : Bool
  pub escaped : Bool

-- One round of the loop of `strip_inline_comment`.
unfoldable pub next_quotes : Quotes → ℕ → Quotes
next_quotes q ch =
    if q.escaped
    then record q { escaped = false }
    else if ch == 92 && q.in_double
    then record q { escaped = true }
    else let in_single = if ch == 39 && not q.in_double then not q.in_single else q.in_single in
      let in_double = if ch == 34 && not in_single then not q.in_double else q.in_double in
      record { in_single = in_single; in_double = in_double; escaped = false }

-- Whether a comment starts at a character, given the quotes in front of it and behind it. The
-- character `#` is no quote and no backslash.
abbrev pub starts_comment : Quotes → Quotes → Bool → ℕ → Bool
starts_comment before behind after_space ch =
    not before.escaped && ch == 35 && not behind.in_single && not behind.in_double && after_space

-- What stands before the comment; `after_space` holds at the start too.
unfoldable pub before_comment : Quotes → Bool → Bytes → Bytes
before_comment q after_space [] = []
before_comment q after_space (ch ∷ s) =
    let next = next_quotes q ch in
    let rest = before_comment next (is_space ch) s in
    if starts_comment q next after_space ch then [] else ch ∷ rest

abbrev pub no_quotes : Quotes
no_quotes = record { in_single = false; in_double = false; escaped = false }

abbrev pub strip_inline_comment : Bytes → Bytes
strip_inline_comment value = trim (before_comment no_quotes true value)

unfoldable pub unquote : Bytes → Bytes
unquote quoted =
    let value = trim quoted in
    let front = get_or value 0 0 in
    let back = get_or value (length value - 1) 0 in
    if leb 2 (length value) && (front == 34 && back == 34 || front == 39 && back == 39)
    then take (length value - 2) (drop 1 value)
    else value

-- `std::from_chars` into a `std::uint32_t`: the digits at the front, and what is left.
unfoldable pub read_digits : ℕ → Bytes → ℕ × Bytes
read_digits n [] = (n, [])
read_digits n (ch ∷ s) = if is_digit ch then read_digits (n * 10 + (ch - 48)) s else (n, ch ∷ s)

unfoldable pub from_chars : Bytes → Option (ℕ × Bytes)
from_chars s =
    let (n, rest) = read_digits 0 s in
    if not (is_digit (get_or s 0 0)) || leb (2 ^ 32) n then none else some (n, rest)
