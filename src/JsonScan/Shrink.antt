-- ===== src/JsonScan/Shrink.antt =====
-- src/json_scan.hpp: a value that is skipped takes characters, and the loops of `skip_object` and
-- `skip_array` end.
use ninfer_nvfp4_glm_5_3_fla.Prelude.{
  ℕ, zero, suc, ◌≤◌, ◌<◌, ◌≡◌, inl, inr, Bool, true, false, ◌||◌, [], ◌∷◌, arith, ◌==◌,
  if◌then◌else◌, text, Bytes, length, length-drop, drop, Bool-cases, Result, ok, bind,
}
use ninfer_nvfp4_glm_5_3_fla.Deployment.Strings.{is_digit, starts_with}
use ninfer_nvfp4_glm_5_3_fla.JsonScan.{fail, front, skip_ws, peek, expect, parse_string, parse_bool}
use ninfer_nvfp4_glm_5_3_fla.JsonScan.Skip.{
  skip_digits, skip_exponent, skip_number, skip_null, separated, skip_members, skip_elements,
  skip_object, skip_array, skip_kind, too_deep, skip_nested,
}
use ninfer_nvfp4_glm_5_3_fla.JsonScan.Fuel.{
  Ends, Ends-if, Ends-weaken, Ends-bind, Peeked, Taken, Shorter, skip_ws-le, skip_digits-le,
  peek-Peeked, expect-Shorter, parse_string-Taken,
}

drop_sign : (b : Bool) (s : Bytes) → length (if b then drop 1 s else s) ≤ length s
drop_sign true s = omega (arith, length-drop {0} 1 s)
drop_sign false s = omega arith

skip_fraction : (b : Bool) (s : Bytes) → length (if b then skip_digits (drop 1 s) else s) ≤ length s
skip_fraction true s = omega (arith, skip_digits-le (drop 1 s), length-drop {0} 1 s)
skip_fraction false s = omega arith

starts_with-length : (p s : Bytes) → starts_with p s ≡ true → length p ≤ length s
unfolding starts_with
starts_with-length [] s h = omega arith
starts_with-length (a ∷ p) [] h = absurd (cc)
starts_with-length (a ∷ p) (c ∷ s) h = ground (arith, starts_with-length p s)

digit_front : (s : Bytes) → is_digit (front s) ≡ true → length (skip_digits s) < length s
unfolding skip_digits
digit_front [] h = absurd (ground arith)
digit_front (c ∷ s) h = rw h (omega (arith, skip_digits-le s))

skip_exponent-le : (size : ℕ) (s : Bytes) → Ends (λ t. length t ≤ length s) (skip_exponent size s)
unfolding skip_exponent fail
skip_exponent-le size [] = ground arith
skip_exponent-le size (c ∷ s) =
    ground (arith, skip_digits-le (drop 1 s), skip_digits-le s, length-drop {0} 1 s)

skip_number-Shorter : (size : ℕ) (s : Bytes) → Ends (Shorter (length s)) (skip_number size s)
unfolding skip_number fail
skip_number-Shorter size s =
    let start = skip_ws s in
    let unsigned = if front start == 45 then drop 1 start else start in
    let whole = skip_digits unsigned in
    let fraction = if front whole == 46 then skip_digits (drop 1 whole) else whole in
    elim (Bool-cases (is_digit (front unsigned))) [
      | inl e ↦ rw e (
          Ends-weaken (λ t. length t ≤ length fraction) _ (skip_exponent size fraction)
            (skip_exponent-le size fraction)
            (λ t h. omega (
              arith,
              h,
              digit_front unsigned e,
              drop_sign (front start == 45) start,
              skip_fraction (front whole == 46) whole,
              skip_ws-le s,
            )))
      | inr e ↦ rw e tt
    ]

skip_null-Shorter : (size : ℕ) (s : Bytes) → Ends (Shorter (length s)) (skip_null size s)
unfolding skip_null fail text
skip_null-Shorter size s = ground (arith, starts_with-length (text "null") s, length-drop {0} 4 s)

parse_bool-Taken : (size : ℕ) (s : Bytes) → Ends (Taken (length s)) (parse_bool size s)
unfolding parse_bool fail text
parse_bool-Taken size s = ground (
  arith,
  skip_ws-le s,
  starts_with-length (text "true") (skip_ws s),
  length-drop {0} 4 (skip_ws s),
  starts_with-length (text "false") (skip_ws s),
  length-drop {0} 5 (skip_ws s),
)

-- What holds of skipping a value, for any text.
abbrev pub Skips : (Bytes → Result Bytes) → Type 0
Skips skip = (s : Bytes) → Ends (Shorter (length s)) (skip s)

module _ (size : ℕ) where
  separated-Shorter :
      (close n : ℕ) (message : Bytes) (more : Bytes → Result Bytes) (next : ℕ × Bytes)
      → Peeked n next
      → ((t : Bytes) → length t < n → Ends (Shorter n) (more t))
      → Ends (Shorter n) (separated size close message more next)
  unfolding fail
  separated-Shorter close n message more next h k =
      let (le, pos) = h in
      let behind : length (drop 1 next.1) < n = omega (arith, length-drop {0} 1 next.1) in
      Ends-if (Shorter n) (next.0 == 44) _ _ (k (drop 1 next.1) behind) (
        Ends-if (Shorter n) (next.0 == close) (ok (drop 1 next.1)) (fail size message next.1) behind
          tt)

  module _ (skip : Bytes → Result Bytes) (skips : Skips skip) where
    skip_elements-Shorter :
        (fuel : ℕ) (s : Bytes)
        → length s ≤ fuel
        → Ends (Shorter (length s)) (skip_elements size skip fuel s)
    unfolding skip_elements fail
    skip_elements-Shorter zero [] enough = tt
    skip_elements-Shorter zero (c ∷ s) enough = absurd (omega arith)
    skip_elements-Shorter (suc fuel) s enough =
        Ends-bind (Shorter (length s)) _ (skip s) _ (skips s) λ rest h.
          Ends-bind (Peeked (length rest)) _ (peek size rest) _ (peek-Peeked size rest) λ next k.
            separated-Shorter 93 (length s) _ _ next (omega (arith, h, k)) λ t shorter.
              Ends-weaken (Shorter (length t)) _ _
                (skip_elements-Shorter fuel t (omega (arith, shorter, enough)))
                (λ u q. omega (arith, q, shorter))

    skip_members-Shorter :
        (fuel : ℕ) (s : Bytes)
        → length s ≤ fuel
        → Ends (Shorter (length s)) (skip_members size skip fuel s)
    unfolding skip_members fail
    skip_members-Shorter zero [] enough = tt
    skip_members-Shorter zero (c ∷ s) enough = absurd (omega arith)
    skip_members-Shorter (suc fuel) s enough =
        Ends-bind (Taken (length s)) _ (parse_string size s) _ (parse_string-Taken size s) λ key a.
          Ends-bind (Shorter (length key.1)) _ (expect size 58 key.1) _
            (expect-Shorter size 58 key.1)
            λ value b. Ends-bind (Shorter (length value)) _ (skip value) _ (skips value) λ rest h.
              Ends-bind (Peeked (length rest)) _ (peek size rest) _ (peek-Peeked size rest)
                λ next k.
                  separated-Shorter 125 (length s) _ _ next (omega (arith, a, b, h, k)) λ t shorter.
                    Ends-weaken (Shorter (length t)) _ _
                      (skip_members-Shorter fuel t (omega (arith, shorter, enough)))
                      (λ u q. omega (arith, q, shorter))

    -- What both containers do behind their bracket.
    container-Shorter :
        (bracket close : ℕ) (loop : ℕ → Bytes → Result Bytes)
        → ((fuel : ℕ) (s : Bytes) → length s ≤ fuel → Ends (Shorter (length s)) (loop fuel s))
        → Skips (λ s. bind (expect size bracket s) (λ inside.
          bind
            (peek size inside)
            (λ next. if next.0 == close then ok (drop 1 next.1) else loop (length next.1) next.1)))
    container-Shorter bracket close loop loops s =
        Ends-bind (Shorter (length s)) _ (expect size bracket s) _ (expect-Shorter size bracket s)
          λ inside h.
            Ends-bind (Peeked (length inside)) _ (peek size inside) _ (peek-Peeked size inside)
              λ next k.
                Ends-if (Shorter (length s)) (next.0 == close) (ok (drop 1 next.1)) _
                  (omega (arith, h, k, length-drop {0} 1 next.1))
                  (Ends-weaken (Shorter (length next.1)) _ _
                    (loops (length next.1) next.1 (omega arith)) (λ u q. omega (arith, q, h, k)))

    skip_object-Shorter : Skips (skip_object size skip)
    unfolding skip_object
    skip_object-Shorter = container-Shorter 123 125 (skip_members size skip) skip_members-Shorter

    skip_array-Shorter : Skips (skip_array size skip)
    unfolding skip_array
    skip_array-Shorter = container-Shorter 91 93 (skip_elements size skip) skip_elements-Shorter

  skip_kind-Shorter :
      (object array : Bytes → Result Bytes) (ch : ℕ)
      → Skips object
      → Skips array
      → Skips (skip_kind size object array ch)
  unfolding skip_kind fail
  skip_kind-Shorter object array ch objects arrays s =
      let P = Shorter (length s) in
      let string : Ends P (bind (parse_string size s) (λ read. ok read.1)) =
        Ends-bind (Taken (length s)) P (parse_string size s) _ (parse_string-Taken size s)
          (λ r h. h) in
      let bool : Ends P (bind (parse_bool size s) (λ read. ok read.1)) =
        Ends-bind (Taken (length s)) P (parse_bool size s) _ (parse_bool-Taken size s) (λ r h. h) in
      let otherwise : Ends P (fail size (text "expected value") s) = tt in
      Ends-if P (ch == 34) _ _ string (
        Ends-if P (ch == 123) _ _ (objects s) (
          Ends-if P (ch == 91) _ _ (arrays s) (
            Ends-if P (ch == 116 || ch == 102) _ _ bool (
              Ends-if P (ch == 110) _ _ (skip_null-Shorter size s)
                (Ends-if P (ch == 45 || is_digit ch) _ _ (skip_number-Shorter size s) otherwise)))))

  peek_kind-Shorter :
      (object array : Bytes → Result Bytes)
      → Skips object
      → Skips array
      → Skips (λ s. bind (peek size s) (λ next. skip_kind size object array next.0 next.1))
  peek_kind-Shorter object array objects arrays s =
      Ends-bind (Peeked (length s)) _ (peek size s) _ (peek-Peeked size s) λ next h.
        Ends-weaken (Shorter (length next.1)) _ _
          (skip_kind-Shorter object array next.0 objects arrays next.1) (λ u q. omega (arith, q, h))

  pub skip_nested-Shorter : (room : ℕ) → Skips (skip_nested size room)
  unfolding skip_nested fail
  skip_nested-Shorter zero s =
      peek_kind-Shorter (too_deep size) (too_deep size) (λ t. tt) (λ t. tt) s
  skip_nested-Shorter (suc room) s =
      peek_kind-Shorter (skip_object size (skip_nested size room))
        (skip_array size (skip_nested size room))
        (skip_object-Shorter (skip_nested size room) (skip_nested-Shorter room))
        (skip_array-Shorter (skip_nested size room) (skip_nested-Shorter room)) s
