-- ===== src/JsonScan/Printed.antt =====
-- src/json_scan.hpp: `skip_value` on a value that is written without spaces.
use ninfer_nvfp4_glm_5_3_fla.Prelude.{
  ℕ, suc, ◌≡◌, refl, Bool, true, false, ◌||◌, [], ◌∷◌, ◌++◌, append_assoc, arith, ◌==◌, text, Bytes,
  Result, ok, bind,
}
use ninfer_nvfp4_glm_5_3_fla.Deployment.Strings.{is_digit, is_space, starts_with}
use ninfer_nvfp4_glm_5_3_fla.Checkpoint.Escape.{json_escape}
use ninfer_nvfp4_glm_5_3_fla.Checkpoint.Escaped.{parse_string-json_escape}
use ninfer_nvfp4_glm_5_3_fla.JsonScan.{front, skip_ws, peek, get, expect, parse_string, parse_bool}
use ninfer_nvfp4_glm_5_3_fla.JsonScan.Skip.{
  separated, skip_members, skip_elements, skip_null, skip_number, skip_kind,
}
use ninfer_nvfp4_glm_5_3_fla.JsonScan.Numbers.{
  goes_on, peek-front, numeral_front, skip_number-print_numeral,
}
use ninfer_nvfp4_glm_5_3_fla.JsonScan.Values.{
  Numeral, Json, null, bool, num, str, arr, obj, Items, nil, cons, Fields, end, field, quoted,
  print, more_items, more_fields,
}

module _ (size : ℕ) where
  pub expect-front : (ch : ℕ) (s : Bytes) → is_space ch ≡ false → expect size ch (ch ∷ s) ≡ ok s
  unfolding expect get
  expect-front ch s h = rw (peek-front size ch s h) (ground arith)

  -- The tests of `skip_value` on what a scalar starts with.
  skip_kind-digit :
      (object array : Bytes → Result Bytes) (ch : ℕ) (s : Bytes)
      → is_digit ch || ch == 45 ≡ true
      → skip_kind size object array ch s ≡ skip_number size s
  unfolding skip_kind
  skip_kind-digit object array ch s h = ground arith

  pub parse_string-quoted : (s rest : Bytes) → parse_string size (quoted s ++ rest) ≡ ok (s, rest)
  parse_string-quoted s rest =
      rw (append_assoc (json_escape s) (34 ∷ []) rest) (parse_string-json_escape size s rest)

  -- What `skip_nested` does at any room, by the calls for both containers.
  abbrev pub dispatch : (Bytes → Result Bytes) → (Bytes → Result Bytes) → Bytes → Result Bytes
  dispatch object array s = bind (peek size s) (λ next. skip_kind size object array next.0 next.1)

  pub dispatch-null :
      (object array : Bytes → Result Bytes) (rest : Bytes)
      → dispatch object array (text "null" ++ rest) ≡ ok rest
  unfolding peek skip_ws skip_kind skip_null text starts_with
  dispatch-null object array rest = refl

  pub dispatch-bool :
      (object array : Bytes → Result Bytes) (b : Bool) (rest : Bytes)
      → dispatch object array (print (bool b) ++ rest) ≡ ok rest
  unfolding peek skip_ws skip_kind parse_bool text starts_with print
  dispatch-bool object array true rest = refl
  dispatch-bool object array false rest = refl

  pub dispatch-str :
      (object array : Bytes → Result Bytes) (s rest : Bytes)
      → dispatch object array (quoted s ++ rest) ≡ ok rest
  unfolding skip_kind
  dispatch-str object array s rest =
      rw (peek-front size 34 ((json_escape s ++ 34 ∷ []) ++ rest) refl, parse_string-quoted s rest)
        refl

  dispatch-number :
      (object array : Bytes → Result Bytes) (s rest : Bytes)
      → is_digit (front s) || front s == 45 ≡ true
      → skip_number size s ≡ ok rest
      → dispatch object array s ≡ ok rest
  dispatch-number object array [] rest h k = absurd (ground arith)
  dispatch-number object array (c ∷ s) rest h k =
      rw (peek-front size c s (ground arith), skip_kind-digit object array c (c ∷ s) h) k

  pub dispatch-num :
      (object array : Bytes → Result Bytes) (x : Numeral) (rest : Bytes)
      → goes_on (front rest) ≡ false
      → dispatch object array (print (num x) ++ rest) ≡ ok rest
  unfolding print
  dispatch-num object array x rest h =
      dispatch-number object array _ rest (numeral_front x rest)
        (skip_number-print_numeral size x rest h)

  -- Where a value starts: no space, and no bracket that closes.
  abbrev pub Starts : Bytes → Type 0
  Starts s =
      (c : ℕ) × (t : Bytes) × (s ≡ c ∷ t)
      × (is_space c ≡ false)
      × ((c == 93) ≡ false)
      × ((c == 125) ≡ false)

  number-Starts : (s : Bytes) → is_digit (front s) || front s == 45 ≡ true → Starts s
  number-Starts [] h = absurd (ground arith)
  number-Starts (c ∷ s) h = (c, s, refl, ground arith, ground arith, ground arith)

  pub print-Starts : (v : Json) (rest : Bytes) → Starts (print v ++ rest)
  unfolding print text
  print-Starts null rest = (_, _, refl, refl, refl, refl)
  print-Starts (bool true) rest = (_, _, refl, refl, refl, refl)
  print-Starts (bool false) rest = (_, _, refl, refl, refl, refl)
  print-Starts (num x) rest = number-Starts _ (numeral_front x rest)
  print-Starts (str s) rest = (_, _, refl, refl, refl, refl)
  print-Starts (arr xs) rest = (_, _, refl, refl, refl, refl)
  print-Starts (obj fs) rest = (_, _, refl, refl, refl, refl)

  -- What follows an entry, in the loops of both containers.
  abbrev pub after_item : (Bytes → Result Bytes) → ℕ → Bytes → Result Bytes
  after_item skip n s =
      bind (peek size s)
        (separated size 93 (text "expected ',' or ']'") (skip_elements size skip n))

  abbrev pub after_field : (Bytes → Result Bytes) → ℕ → Bytes → Result Bytes
  after_field skip n s =
      bind (peek size s)
        (separated size 125 (text "expected ',' or '}'") (skip_members size skip n))

  pub more_items-front :
      (xs : Items) (rest : Bytes) → goes_on (front (more_items xs ++ rest)) ≡ false
  unfolding more_items
  more_items-front nil rest = refl
  more_items-front (cons x xs) rest = refl

  pub more_fields-front :
      (fs : Fields) (rest : Bytes) → goes_on (front (more_fields fs ++ rest)) ≡ false
  unfolding more_fields
  more_fields-front end rest = refl
  more_fields-front (field key x fs) rest = refl

  module _ (skip : Bytes → Result Bytes) where
    pub after_item-nil : (n : ℕ) (rest : Bytes) → after_item skip n (93 ∷ rest) ≡ ok rest
    after_item-nil n rest = rw (peek-front size 93 rest refl) refl

    pub after_item-cons :
        (n : ℕ) (s t : Bytes)
        → skip s ≡ ok t
        → after_item skip (suc n) (44 ∷ s) ≡ after_item skip n t
    unfolding skip_elements
    after_item-cons n s t h = rw (peek-front size 44 s refl, h) refl

    pub after_field-end : (n : ℕ) (rest : Bytes) → after_field skip n (125 ∷ rest) ≡ ok rest
    after_field-end n rest = rw (peek-front size 125 rest refl) refl

    pub after_field-field :
        (n : ℕ) (key s t : Bytes)
        → skip s ≡ ok t
        → after_field skip (suc n) (44 ∷ (quoted key ++ 58 ∷ s)) ≡ after_field skip n t
    unfolding skip_members
    after_field-field n key s t h =
        rw
          (
            peek-front size 44 (quoted key ++ 58 ∷ s) refl,
            parse_string-quoted key (58 ∷ s),
            expect-front 58 s refl,
            h,
          )
          refl
