-- ===== src/JsonScan/Values.antt =====
-- JSON values, for src/json_scan.hpp: how they are written without spaces, and how deep they nest.
use ninfer_nvfp4_glm_5_3_fla.Prelude.{
  ℕ, suc, Bool, true, false, [], ◌∷◌, ◌++◌, text, Bytes, List, Option, none, some, decimal, ◌+◌,
  ◌%◌, if◌then◌else◌,
}
use Prim.Native.Nat.{max}
use ninfer_nvfp4_glm_5_3_fla.Checkpoint.Escape.{json_escape}

-- A digit of a decimal number, by what it is modulo ten, and a row of one or more.
abbrev pub digit_char : ℕ → ℕ
digit_char d = 48 + d % 10

unfoldable pub digit_chars : List ℕ → Bytes
digit_chars [] = []
digit_chars (d ∷ ds) = digit_char d ∷ digit_chars ds

pub record Row : Type 0 where
  pub first : ℕ
  pub more : List ℕ

abbrev pub print_row : Row → Bytes
print_row row = digit_char row.first ∷ digit_chars row.more

-- A mark of either case, a sign that may be missing, and the digits.
pub record Exponent : Type 0 where
  pub is_upper : Bool
  pub sign : Option Bool
  pub power : Row

-- A number as a text has it: `-12.050e+3` is negative, with whole part 12, fraction 050 and exponent
-- `e+3`.
pub record Numeral : Type 0 where
  pub is_negative : Bool
  pub whole : ℕ
  pub fraction : Option Row
  pub exponent : Option Exponent

unfoldable pub print_minus : Bool → Bytes
print_minus true = 45 ∷ []
print_minus false = []

unfoldable pub print_sign : Option Bool → Bytes
print_sign none = []
print_sign (some true) = 45 ∷ []
print_sign (some false) = 43 ∷ []

unfoldable pub print_fraction : Option Row → Bytes
print_fraction none = []
print_fraction (some row) = 46 ∷ print_row row

unfoldable pub print_exponent : Option Exponent → Bytes
print_exponent none = []
print_exponent (some e) =
    (if e.is_upper then 69 else 101) ∷ (print_sign e.sign ++ print_row e.power)

unfoldable pub print_numeral : Numeral → Bytes
print_numeral x =
    print_minus x.is_negative
    ++ (decimal x.whole ++ (print_fraction x.fraction ++ print_exponent x.exponent))

mutual
  pub data Json : Type 0 where
    null : Json
    bool : Bool → Json
    num : Numeral → Json
    str : Bytes → Json
    arr : Items → Json
    obj : Fields → Json

  pub data Items : Type 0 where
    nil : Items
    cons : Json → Items → Items

  pub data Fields : Type 0 where
    end : Fields
    field : Bytes → Json → Fields → Fields

abbrev pub quoted : Bytes → Bytes
quoted s = 34 ∷ (json_escape s ++ 34 ∷ [])

-- `more_items` and `more_fields` write what follows an entry.
unfoldable mutual
  pub print : Json → Bytes
  print null = text "null"
  print (bool true) = text "true"
  print (bool false) = text "false"
  print (num x) = print_numeral x
  print (str s) = quoted s
  print (arr xs) = 91 ∷ print_items xs
  print (obj fs) = 123 ∷ print_fields fs

  pub print_items : Items → Bytes
  print_items nil = 93 ∷ []
  print_items (cons x xs) = print x ++ more_items xs

  pub more_items : Items → Bytes
  more_items nil = 93 ∷ []
  more_items (cons x xs) = 44 ∷ (print x ++ more_items xs)

  pub print_fields : Fields → Bytes
  print_fields end = 125 ∷ []
  print_fields (field key x fs) = quoted key ++ 58 ∷ (print x ++ more_fields fs)

  pub more_fields : Fields → Bytes
  more_fields end = 125 ∷ []
  more_fields (field key x fs) = 44 ∷ (quoted key ++ 58 ∷ (print x ++ more_fields fs))

unfoldable mutual
  pub nesting : Json → ℕ
  nesting null = 0
  nesting (bool b) = 0
  nesting (num x) = 0
  nesting (str s) = 0
  nesting (arr xs) = suc (nesting_items xs)
  nesting (obj fs) = suc (nesting_fields fs)

  pub nesting_items : Items → ℕ
  nesting_items nil = 0
  nesting_items (cons x xs) = max (nesting x) (nesting_items xs)

  pub nesting_fields : Fields → ℕ
  nesting_fields end = 0
  nesting_fields (field key x fs) = max (nesting x) (nesting_fields fs)
