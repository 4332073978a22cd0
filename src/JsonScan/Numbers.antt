-- ===== src/JsonScan/Numbers.antt =====
-- src/json_scan.hpp: `skip_number` on a number, with its fraction and its exponent.
use ninfer_nvfp4_glm_5_3_fla.Prelude.{
  ℕ, zero, suc, ◌+◌, ◌/◌, ◌%◌, ◌<◌, ◌≡◌, inl, inr, refl, ◌∙◌, Bool, true, false, ◌||◌, [], ◌∷◌,
  ◌++◌, append_assoc, arith, ltb, ◌==◌, Bytes, digits, decimal, Bool-cases, ok, List, Option, none,
  some, ap, drop, if◌then◌else◌,
}
use ninfer_nvfp4_glm_5_3_fla.Deployment.Strings.{is_digit, is_space}
use ninfer_nvfp4_glm_5_3_fla.Deployment.Digits.{front_digit}
use ninfer_nvfp4_glm_5_3_fla.JsonScan.{front, skip_ws, peek}
use ninfer_nvfp4_glm_5_3_fla.JsonScan.Values.{
  digit_char, digit_chars, Row, print_row, Exponent, Numeral, print_minus, print_sign,
  print_fraction, print_exponent, print_numeral,
}
use ninfer_nvfp4_glm_5_3_fla.JsonScan.Skip.{skip_digits, skip_exponent, skip_number}

-- A number ends where no digit, point or exponent follows.
abbrev pub goes_on : ℕ → Bool
goes_on ch = is_digit ch || ch == 46 || ch == 101 || ch == 69

pub peek-front :
    (size ch : ℕ) (s : Bytes) → is_space ch ≡ false → peek size (ch ∷ s) ≡ ok (ch, ch ∷ s)
unfolding peek skip_ws
peek-front size ch s h = rw h refl

skip_digits-stop : (s : Bytes) → is_digit (front s) ≡ false → skip_digits s ≡ s
unfolding skip_digits
skip_digits-stop [] h = refl
skip_digits-stop (c ∷ s) h = rw h refl

digit_step : (d : ℕ) (s : Bytes) → d < 10 → skip_digits ((48 + d) ∷ s) ≡ skip_digits s
unfolding skip_digits
digit_step d s h = let digit : is_digit (48 + d) ≡ true = ground arith in rw digit refl

skip_digits-digits : (fuel n : ℕ) (s : Bytes) → skip_digits (digits fuel n ++ s) ≡ skip_digits s
unfolding digits
skip_digits-digits zero n s = refl
skip_digits-digits (suc fuel) n s = elim (Bool-cases (ltb n 10)) [
  | inl e ↦ rw e (digit_step n s (ground arith))
  | inr e ↦
      rw (e, append_assoc (digits fuel (n / 10)) ((48 + n % 10) ∷ []) s)
        (skip_digits-digits fuel (n / 10) ((48 + n % 10) ∷ s) ∙ digit_step (n % 10) s (omega arith))
]

-- The whole part, up to what is no digit.
skip_whole :
    (n : ℕ) (rest : Bytes)
    → is_digit (front rest) ≡ false
    → (is_digit (front (decimal n ++ rest)) ≡ true) × (skip_digits (decimal n ++ rest) ≡ rest)
skip_whole n rest h = (
  front_digit (n + 1) n rest (omega arith),
  skip_digits-digits (n + 1) n rest ∙ skip_digits-stop rest h,
)

skip_digits-digit_chars :
    (ds : List ℕ) (s : Bytes) → skip_digits (digit_chars ds ++ s) ≡ skip_digits s
unfolding digit_chars
skip_digits-digit_chars [] s = refl
skip_digits-digit_chars (d ∷ ds) s =
    digit_step (d % 10) (digit_chars ds ++ s) (omega arith) ∙ skip_digits-digit_chars ds s

-- A row of digits, up to what is no digit.
skip_row :
    (row : Row) (rest : Bytes)
    → is_digit (front rest) ≡ false
    → (is_digit (front (print_row row ++ rest)) ≡ true)
      × (skip_digits (print_row row ++ rest) ≡ rest)
skip_row row rest h = (
  ground arith,
  digit_step (row.first % 10) (digit_chars row.more ++ rest) (omega arith)
      ∙ skip_digits-digit_chars row.more rest
      ∙ skip_digits-stop rest h,
)

-- What a number may end with, and what may follow its fraction.
exponent_front :
    (e : Option Exponent) (rest : Bytes)
    → goes_on (front rest) ≡ false
    → (is_digit (front (print_exponent e ++ rest)) ≡ false)
      × ((front (print_exponent e ++ rest) == 46) ≡ false)
unfolding print_exponent
exponent_front none rest h = (ground arith, ground arith)
exponent_front (some e) rest h = elim (Bool-cases e.is_upper) [
  | inl upper ↦ rw upper (refl, refl)
  | inr lower ↦ rw lower (refl, refl)
]

skip_signed :
    (sign : Option Bool) (row : Row) (rest : Bytes)
    → is_digit (front rest) ≡ false
    → let marked = print_sign sign ++ (print_row row ++ rest) in
      let start = if front marked == 43 || front marked == 45 then drop 1 marked else marked in
      (is_digit (front start) ≡ true) × (skip_digits start ≡ rest)
unfolding print_sign
skip_signed none row rest h =
    let unsigned : (digit_char row.first == 43 || digit_char row.first == 45) ≡ false =
      ground arith in
    rw unsigned (skip_row row rest h)
skip_signed (some true) row rest h = skip_row row rest h
skip_signed (some false) row rest h = skip_row row rest h

skip_exponent-print :
    (size : ℕ) (e : Option Exponent) (rest : Bytes)
    → goes_on (front rest) ≡ false
    → skip_exponent size (print_exponent e ++ rest) ≡ ok rest
unfolding skip_exponent print_exponent
skip_exponent-print size none rest h =
    let ended : (front rest == 101 || front rest == 69) ≡ false = ground arith in rw ended refl
skip_exponent-print size (some e) rest h =
    let (digit, behind) = skip_signed e.sign e.power rest (ground arith) in
    let mark : ((if e.is_upper then 69 else 101) == 101 || (if e.is_upper then 69 else 101) == 69)
        ≡ true =
      ground arith in
    rw (append_assoc (print_sign e.sign) (print_row e.power) rest) (rw (mark, digit, behind) refl)

skip_fraction-print :
    (f : Option Row) (rest : Bytes)
    → is_digit (front rest) ≡ false
    → (front rest == 46) ≡ false
    → let whole = print_fraction f ++ rest in
      (is_digit (front whole) ≡ false)
      × ((if front whole == 46 then skip_digits (drop 1 whole) else whole) ≡ rest)
unfolding print_fraction
skip_fraction-print none rest h k = (h, rw k refl)
skip_fraction-print (some row) rest h k = (refl, (skip_row row rest h).1)

skip_ws-digit : (s : Bytes) → is_digit (front s) ≡ true → skip_ws s ≡ s
unfolding skip_ws
skip_ws-digit [] h = refl
skip_ws-digit (c ∷ s) h = let full : is_space c ≡ false = ground arith in rw full refl

-- A number behind its sign, with what follows it.
abbrev unsigned_of : Numeral → Bytes → Bytes
unsigned_of x rest =
    decimal x.whole ++ (print_fraction x.fraction ++ (print_exponent x.exponent ++ rest))

regrouped :
    (x : Numeral) (rest : Bytes)
    → print_numeral x ++ rest ≡ print_minus x.is_negative ++ unsigned_of x rest
unfolding print_numeral
regrouped x rest =
    let fraction = print_fraction x.fraction in
    let exponent = print_exponent x.exponent in
    append_assoc (print_minus x.is_negative) (decimal x.whole ++ (fraction ++ exponent)) rest
    ∙ ap (λ s. print_minus x.is_negative ++ s)
        (append_assoc (decimal x.whole) (fraction ++ exponent) rest
          ∙ ap (λ s. decimal x.whole ++ s) (append_assoc fraction exponent rest))

-- A number starts with a digit or a minus.
pub numeral_front :
    (x : Numeral) (rest : Bytes)
    → is_digit (front (print_numeral x ++ rest)) || front (print_numeral x ++ rest) == 45 ≡ true
unfolding print_minus
numeral_front x rest = elim (Bool-cases x.is_negative) [
  | inl e ↦ rw (regrouped x rest, e) refl
  | inr e ↦
      rw (regrouped x rest, e)
        (rw
          (front_digit (x.whole + 1) x.whole
            (print_fraction x.fraction ++ (print_exponent x.exponent ++ rest)) (omega arith))
          refl)
]

pub skip_number-print_numeral :
    (size : ℕ) (x : Numeral) (rest : Bytes)
    → goes_on (front rest) ≡ false
    → skip_number size (print_numeral x ++ rest) ≡ ok rest
unfolding skip_number skip_ws print_minus
skip_number-print_numeral size x rest h =
    let (no_digit, no_point) = exponent_front x.exponent rest h in
    let (plain, fraction) =
      skip_fraction-print x.fraction (print_exponent x.exponent ++ rest) no_digit no_point in
    let (digit, whole) =
      skip_whole x.whole (print_fraction x.fraction ++ (print_exponent x.exponent ++ rest)) plain in
    let exponent = skip_exponent-print size x.exponent rest h in
    let positive : (front (unsigned_of x rest) == 45) ≡ false = ground arith in
    elim (Bool-cases x.is_negative) [
      | inl e ↦ rw (regrouped x rest, e) (rw (digit, whole, fraction) exponent)
      | inr e ↦
          rw (regrouped x rest, e)
            (rw (skip_ws-digit (unsigned_of x rest) digit, positive, digit, whole, fraction)
              exponent)
    ]
